-- ===== src/Policy/RecordLifecycle/Actions.antt =====
-- How the org's and the form's policy of one action merge, and what is made of the merged policy.
use formspec_web.Common.{
  String, ◌≡◌, refl, inl, inr, Bool, true, ◌||◌, done, arith, if◌then◌else◌, Bool-cases,
}
use formspec_web.Js.{
  Value, undefined, bool, obj, Fields, end, get, has, spread, get-spread, HasDistinctKeys, prop,
  is_undefined, is_boolean, or_value,
}
use formspec_web.Policy.Errors.{RuntimePolicyDocumentKind}
use formspec_web.Policy.RecordLifecycleLimits.{
  Action, correctable, withdrawable, disputable, validate_record_lifecycle_window,
  validate_record_lifecycle_action, validate_optional_boolean, validate_withdrawable,
  validate_correctable, validate_disputable, validate_action_fields,
}
use formspec_web.Policy.RecordLifecycle.{
  normalize_record_lifecycle_window, merge_action_policy, resolve_action, resolve_withdrawable,
  resolve_correctable, resolve_disputable,
}
use formspec_web.Policy.RecordLifecycle.Windows.{
  IsWindow, get_missing, normalize_record_lifecycle_window-IsWindow,
}

module _ (o f : Fields) (org_distinct : HasDistinctKeys o) (form_distinct : HasDistinctKeys f) where
  -- A property of the merged action is the form's where the form has it, and the org's elsewhere.
  pub prop-merge_action_policy :
      (k : String)
      → prop (merge_action_policy (obj o) (obj f)) k ≡ (if has f k then get f k else get o k)
  unfolding merge_action_policy get
  prop-merge_action_policy k = ground (
    arith,
    get-spread (spread end o) f k form_distinct,
    get-spread end o k org_distinct,
    get_missing o k,
  )

-- The facts of an action that its validator accepts, for every kind of action.
record IsAction (source : RuntimePolicyDocumentKind) (action : Action) (fs : Fields) : Type 0 where
  enabled : is_boolean (get fs "enabled") ≡ true
  window : validate_record_lifecycle_window source action (get fs "window") ≡ done
  reason : (is_undefined (get fs "requiresReason") || is_boolean (get fs "requiresReason")) ≡ true

action_facts :
    (source : RuntimePolicyDocumentKind) (action : Action) (fs : Fields)
    → validate_record_lifecycle_action source action (obj fs) ≡ done
    → (is_boolean (get fs "enabled") ≡ true)
      × (validate_record_lifecycle_window source action (get fs "window") ≡ done)
      × (validate_action_fields source action (obj fs) ≡ done)
unfolding validate_record_lifecycle_action
action_facts source action fs h = ground arith

reason_fact :
    (source : RuntimePolicyDocumentKind) (action : Action) (fs : Fields)
    → validate_action_fields source action (obj fs) ≡ done
    → (is_undefined (get fs "requiresReason") || is_boolean (get fs "requiresReason")) ≡ true
unfolding validate_action_fields validate_withdrawable validate_correctable validate_disputable
    validate_optional_boolean
reason_fact source correctable fs h = ground arith
reason_fact source withdrawable fs h = ground arith
reason_fact source disputable fs h = ground arith

-- A resolved action: whether it is enabled and whether it wants a reason is known, and its window is
-- one of the resolved forms.
pub record IsResolvedAction (r : Value) : Type 0 where
  pub enabled : is_boolean (prop r "enabled") ≡ true
  pub reason : is_boolean (prop r "requiresReason") ≡ true
  pub window : IsWindow (prop r "window")

default_boolean :
    (v : Value) (b : Bool)
    → (is_undefined v || is_boolean v) ≡ true
    → is_boolean (or_value v (bool b)) ≡ true
default_boolean undefined b h = refl
default_boolean (bool c) b h = refl
default_boolean _ b h = cc

reads_of_resolved :
    (action : Action) (m : Value)
    → (prop (resolve_action action m) "enabled" ≡ prop m "enabled")
      × (prop (resolve_action action m) "requiresReason"
          ≡ or_value (prop m "requiresReason") (bool true))
      × (prop (resolve_action action m) "window"
          ≡ normalize_record_lifecycle_window (prop m "window"))
unfolding resolve_action resolve_withdrawable resolve_correctable resolve_disputable get
reads_of_resolved correctable m = (refl, refl, refl)
reads_of_resolved withdrawable m = (refl, refl, refl)
reads_of_resolved disputable m = (refl, refl, refl)

module _ (action : Action) (org_source form_source : RuntimePolicyDocumentKind) (o f : Fields)
    (org_distinct : HasDistinctKeys o) (form_distinct : HasDistinctKeys f)
    (org_valid : validate_record_lifecycle_action org_source action (obj o) ≡ done)
    (form_valid : validate_record_lifecycle_action form_source action (obj f) ≡ done) where
  merged_reason :
      (is_undefined (prop (merge_action_policy (obj o) (obj f)) "requiresReason")
        || is_boolean (prop (merge_action_policy (obj o) (obj f)) "requiresReason"))
      ≡ true
  merged_reason = ground (
    arith,
    prop-merge_action_policy o f org_distinct form_distinct "requiresReason",
    reason_fact org_source action o (action_facts org_source action o org_valid).2,
    reason_fact form_source action f (action_facts form_source action f form_valid).2,
  )

  merged-IsWindow :
      IsWindow
        (normalize_record_lifecycle_window (prop (merge_action_policy (obj o) (obj f)) "window"))
  merged-IsWindow = elim (Bool-cases (has f "window")) [
    | inl there ↦
        rw (prop-merge_action_policy o f org_distinct form_distinct "window", there)
          (normalize_record_lifecycle_window-IsWindow form_source action _
            (action_facts form_source action f form_valid).1)
    | inr missing ↦
        rw (prop-merge_action_policy o f org_distinct form_distinct "window", missing)
          (normalize_record_lifecycle_window-IsWindow org_source action _
            (action_facts org_source action o org_valid).1)
  ]

  -- If the validators accept the org's and the form's policy of an action, neither with a property
  -- twice, then the merged policy resolves to an action whose `enabled` and `requiresReason` are
  -- Booleans and whose window is one of the resolved forms.
  pub resolve_action-IsResolvedAction :
      IsResolvedAction (resolve_action action (merge_action_policy (obj o) (obj f)))
  resolve_action-IsResolvedAction =
      let reads = reads_of_resolved action (merge_action_policy (obj o) (obj f)) in
      record {
        enabled = rw (reads.0) (
            ground (
              arith,
              prop-merge_action_policy o f org_distinct form_distinct "enabled",
              (action_facts org_source action o org_valid).0,
              (action_facts form_source action f form_valid).0,
            ));
        reason = rw (reads.1) (default_boolean _ true merged_reason);
        window = rw (reads.2) merged-IsWindow;
      }
