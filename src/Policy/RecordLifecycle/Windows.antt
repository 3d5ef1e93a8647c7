-- ===== src/Policy/RecordLifecycle/Windows.antt =====
-- The windows in which a record may be corrected, withdrawn or disputed.
use mathlib.Core.Path.{subst}
use formspec_web.Common.{
  String, ◌≡◌, refl, ap, ◌↔◌, ◌⊎◌, false, str_eq, eq_iff, inl, inr, true, done, arith, Bool-cases,
}
use formspec_web.Js.{
  Value, undefined, str, obj, Fields, end, field, get, has, is_str, is_string, is_undefined,
}
use formspec_web.Policy.Errors.{RuntimePolicyDocumentKind}
use formspec_web.Policy.RecordLifecycleLimits.{Action, validate_record_lifecycle_window}
use formspec_web.Policy.RecordLifecycle.{normalize_record_lifecycle_window}

abbrev pub open_window : Value
open_window = obj (field "state" (str "open") end)

abbrev pub closes_at : String → Value
closes_at s = obj (field "state" (str "closes-at") (field "closesAt" (str s) end))

abbrev pub closed_at : String → Value
closed_at s = obj (field "state" (str "closed") (field "closedAt" (str s) end))

abbrev pub closed_window : Value
closed_window = obj (field "state" (str "closed") end)

-- No window, or one of the resolved forms.
abbrev pub IsWindow : Value → Type 0
IsWindow w =
    (w ≡ undefined)
    ⊎ (w ≡ open_window)
    ⊎ (w ≡ closed_window)
    ⊎ ((s : String) × (w ≡ closes_at s))
    ⊎ ((s : String) × (w ≡ closed_at s))

string_of : (v : Value) → is_string v ≡ true → (s : String) × (v ≡ str s)
string_of (str s) h = (s, refl)
string_of undefined h = cc
string_of _ h = cc

is_str_eq : (v : Value) (text : String) → is_str v text ≡ true → v ≡ str text
is_str_eq (str s) text h = ap str ((eq_iff s text).0 h)
is_str_eq undefined text h = cc
is_str_eq _ text h = cc

-- The window that a document's object stands for: its properties are read with the state they are
-- written under, or without a state, where only closesAt counts.
pub data Means (fs : Fields) : Value → Type 0 where
  says_open : get fs "state" ≡ str "open" → Means fs open_window
  never_closes : has fs "state" ≡ false → get fs "closesAt" ≡ str "never" → Means fs open_window
  says_closed :
      get fs "state" ≡ str "closed" → get fs "closedAt" ≡ undefined → Means fs closed_window
  closed_then :
      (time : String)
      → get fs "state" ≡ str "closed"
      → get fs "closedAt" ≡ str time
      → Means fs (closed_at time)
  says_closes_at :
      (time : String)
      → get fs "state" ≡ str "closes-at"
      → get fs "closesAt" ≡ str time
      → Means fs (closes_at time)
  closes_then :
      (time : String)
      → has fs "state" ≡ false
      → get fs "closesAt" ≡ str time
      → str_eq time "never" ≡ false
      → Means fs (closes_at time)

tagged-Means :
    (source : RuntimePolicyDocumentKind) (action : Action) (fs : Fields)
    → validate_record_lifecycle_window source action (obj fs) ≡ done
    → has fs "state" ≡ true
    → Means fs (normalize_record_lifecycle_window (obj fs))
unfolding validate_record_lifecycle_window normalize_record_lifecycle_window
tagged-Means source action fs h tagged = elim (Bool-cases (is_str (get fs "state") "open")) [
  | inl e ↦ rw (tagged, e) (says_open (is_str_eq _ _ e))
  | inr e ↦ elim (Bool-cases (is_str (get fs "state") "closed")) [
    | inl e₁ ↦ elim (Bool-cases (is_undefined (get fs "closedAt"))) [
      | inl missing ↦ rw (tagged, e, e₁, missing) (says_closed (is_str_eq _ _ e₁) (ground arith))
      | inr there ↦
          let (time, e₂) = string_of (get fs "closedAt") (ground arith) in
          rw (tagged, e, e₁, there, e₂) (closed_then time (is_str_eq _ _ e₁) e₂)
    ]
    | inr e₁ ↦
        let (time, e₂) = string_of (get fs "closesAt") (ground arith) in
        rw (tagged, e, e₁, e₂) (says_closes_at time (is_str_eq _ _ (ground arith)) e₂)
  ]
]

untagged-Means :
    (source : RuntimePolicyDocumentKind) (action : Action) (fs : Fields)
    → validate_record_lifecycle_window source action (obj fs) ≡ done
    → has fs "state" ≡ false
    → Means fs (normalize_record_lifecycle_window (obj fs))
unfolding validate_record_lifecycle_window normalize_record_lifecycle_window
untagged-Means source action fs h legacy = elim (Bool-cases (is_str (get fs "closesAt") "never")) [
  | inl e ↦ rw (legacy, e) (never_closes legacy (is_str_eq _ _ e))
  | inr e ↦
      let (time, e₁) = string_of (get fs "closesAt") (ground arith) in
      rw (legacy, e, e₁) (closes_then time legacy e₁ (ground arith))
]

normalize_record_lifecycle_window-Means :
    (source : RuntimePolicyDocumentKind) (action : Action) (fs : Fields)
    → validate_record_lifecycle_window source action (obj fs) ≡ done
    → Means fs (normalize_record_lifecycle_window (obj fs))
normalize_record_lifecycle_window-Means source action fs h = elim (Bool-cases (has fs "state")) [
  | inl tagged ↦ tagged-Means source action fs h tagged
  | inr legacy ↦ untagged-Means source action fs h legacy
]

Means-IsWindow : (fs : Fields) (w : Value) → Means fs w → IsWindow w
Means-IsWindow fs _ (says_open e) = inr (inl refl)
Means-IsWindow fs _ (never_closes e e₁) = inr (inl refl)
Means-IsWindow fs _ (says_closed e e₁) = inr (inr (inl refl))
Means-IsWindow fs _ (closed_then time e e₁) = inr (inr (inr (inr (time, refl))))
Means-IsWindow fs _ (says_closes_at time e e₁) = inr (inr (inr (inl (time, refl))))
Means-IsWindow fs _ (closes_then time e e₁ e₂) = inr (inr (inr (inl (time, refl))))

-- A window that its validator accepts is normalized to no window, an open one, a closed one with or
-- without its time, or one that closes at a given time.
pub normalize_record_lifecycle_window-IsWindow :
    (source : RuntimePolicyDocumentKind) (action : Action) (w : Value)
    → validate_record_lifecycle_window source action w ≡ done
    → IsWindow (normalize_record_lifecycle_window w)
unfolding normalize_record_lifecycle_window
normalize_record_lifecycle_window-IsWindow source action (obj fs) h =
    Means-IsWindow fs _ (normalize_record_lifecycle_window-Means source action fs h)
normalize_record_lifecycle_window-IsWindow source action undefined h = inl refl
normalize_record_lifecycle_window-IsWindow source action _ h = inl refl

pub get_missing : (fs : Fields) (k : String) → has fs k ≡ false → get fs k ≡ undefined
unfolding get has
get_missing end k h = refl
get_missing (field j v fs) k h = ground (arith, get_missing fs k)

Means-normalize :
    (fs : Fields) (w : Value) → Means fs w → normalize_record_lifecycle_window (obj fs) ≡ w
unfolding normalize_record_lifecycle_window
Means-normalize fs _ (says_open e) = ground (arith, get_missing fs "state")
Means-normalize fs _ (never_closes e e₁) = ground arith
Means-normalize fs _ (says_closed e e₁) = ground (arith, get_missing fs "state")
Means-normalize fs _ (closed_then time e e₁) = ground (arith, get_missing fs "state")
Means-normalize fs _ (says_closes_at time e e₁) = ground (arith, get_missing fs "state")
Means-normalize fs _ (closes_then time e e₁ e₂) = ground arith

-- A window object that its validator accepts is normalized exactly to the window it means: under the
-- state open, or with no state and closesAt never, to an open window; under the state closed to a closed
-- one, with its time if it gives one; under the state closes-at, or with no state and closesAt another
-- text than never, to one that closes at that time.
pub normalize_record_lifecycle_window_iff :
    (source : RuntimePolicyDocumentKind) (action : Action) (fs : Fields) (w : Value)
    → validate_record_lifecycle_window source action (obj fs) ≡ done
    → (normalize_record_lifecycle_window (obj fs) ≡ w) ↔ Means fs w
normalize_record_lifecycle_window_iff source action fs w h = (
  λ e. subst (Means fs) e (normalize_record_lifecycle_window-Means source action fs h),
  Means-normalize fs w,
)
