-- ===== src/Flow/Identity.antt =====
-- Identity and assurance in the respondent's flow (src/app/respondent-flow.ts). Of a claim and of an
-- option to sign in only what the flow reads is kept.
pub mod Assurance
use Prim.Native.String
use formspec_web.Common.{
  ℕ, String, Bool, true, false, not, ◌&&◌, ◌||◌, Option, none, some, List, [], ◌∷◌, Result, ok, err,
  ◌>>=◌, ◌>>◌, done, throw_if, filter, find, is_empty, length, leb, ◌==◌, str_eq, is_some,
  if◌then◌else◌,
}
use formspec_web.Js.{
  Value, undefined, str, is_undefined, is_object, is_plain_object, is_string, is_str, prop,
}
use formspec_web.Policy.Shapes.{Mode, demo, production}

pub data AssuranceLevel : Type 0 where
  l1 l2 l3 l4 : AssuranceLevel

-- `Number(level.slice(1))`
abbrev pub assurance_rank : AssuranceLevel → ℕ
assurance_rank l1 = 1
assurance_rank l2 = 2
assurance_rank l3 = 3
assurance_rank l4 = 4

pub record IdentityClaim : Type 0 where
  pub subject_ref : String
  pub assurance_level : AssuranceLevel

pub record IdpOption : Type 0 where
  pub kind : String
  pub min_assurance : AssuranceLevel

pub data IdentityMode : Type 0 where
  oidc_required anonymous_allowed : IdentityMode

abbrev pub is_anonymous : IdpOption → Bool
is_anonymous option = str_eq option.kind "anonymous"

abbrev pub is_oidc : IdpOption → Bool
is_oidc option = str_eq option.kind "oidc"

unfoldable pub select_boot_identity_option : List IdpOption → Bool → Option IdpOption
select_boot_identity_option options picker_will_render =
    if picker_will_render then none else find is_anonymous options

-- `options.length === 1 && options[0].kind === 'anonymous'`
abbrev pub is_anonymous_only : List IdpOption → Bool
is_anonymous_only (option ∷ []) = is_anonymous option
is_anonymous_only _ = false

unfoldable pub sign_in_options_for_identity_policy :
    List IdpOption → IdentityMode → Mode → List IdpOption
sign_in_options_for_identity_policy options mode demo = []
sign_in_options_for_identity_policy options oidc_required production = filter is_oidc options
sign_in_options_for_identity_policy options anonymous_allowed production =
    if is_empty options then [] else if is_anonymous_only options then [] else options

-- An error is its message.
unfoldable pub optional_object : Value → String → Result String Value
optional_object source key =
    if not (is_object source)
    then ok undefined
    else if is_undefined (prop source key)
    then ok undefined
    else if is_plain_object (prop source key)
    then ok (prop source key)
    else err (String.◌++◌ key " must be an object")

abbrev pub level_of : Value → Option AssuranceLevel
level_of value =
    if is_str value "L1"
    then some l1
    else if is_str value "L2"
    then some l2
    else if is_str value "L3"
    then some l3
    else if is_str value "L4"
    then some l4
    else none

unfoldable pub optional_assurance_level : Value → String → Result String (Option AssuranceLevel)
optional_assurance_level source key =
    if is_undefined (prop source key)
    then ok none
    else if is_some (level_of (prop source key))
    then ok (level_of (prop source key))
    else err (String.◌++◌ (String.◌++◌ "metadata.assurance." key) " must be one of L1, L2, L3, L4")

unfoldable pub optional_string : Value → String → Result String (Unit {0})
optional_string source key =
    throw_if (not (is_undefined (prop source key)) && not (is_string (prop source key)))
      (String.◌++◌ (String.◌++◌ "metadata.assurance." key) " must be a string")

-- The higher of two levels that may be missing.
unfoldable pub higher : Option AssuranceLevel → Option AssuranceLevel → Option AssuranceLevel
higher none aal = aal
higher (some ial) none = some ial
higher (some ial) (some aal) =
    if leb (assurance_rank aal) (assurance_rank ial) then some ial else some aal

-- The floor of a block of `metadata.assurance`.
unfoldable pub floor_of_block : Value → Result String (Option AssuranceLevel)
floor_of_block assurance = if is_undefined assurance then ok none else do
  ial ← optional_assurance_level assurance "ial"
  aal ← optional_assurance_level assurance "aal"
  optional_string assurance "jurisdiction"
  ok (higher ial aal)

unfoldable pub form_assurance_floor_for_definition : Value → Result String (Option AssuranceLevel)
form_assurance_floor_for_definition definition = do
  metadata ← optional_object definition "metadata"
  assurance ← optional_object metadata "assurance"
  floor_of_block assurance

abbrev pub reaches : AssuranceLevel → Option AssuranceLevel → Bool
reaches level none = true
reaches level (some required) = leb (assurance_rank required) (assurance_rank level)

unfoldable pub identity_claim_meets_assurance : Option IdentityClaim → Option AssuranceLevel → Bool
identity_claim_meets_assurance claim none = true
identity_claim_meets_assurance none (some required) = false
identity_claim_meets_assurance (some claim) (some required) =
    leb (assurance_rank required) (assurance_rank claim.assurance_level)

unfoldable pub idp_option_meets_assurance : IdpOption → Option AssuranceLevel → Bool
idp_option_meets_assurance option required = reaches option.min_assurance required

abbrev pub subject_of : Option IdentityClaim → Option String
subject_of none = none
subject_of (some claim) = some claim.subject_ref

abbrev pub same_subject : Option String → Option String → Bool
same_subject none none = true
same_subject (some a) (some b) = str_eq a b
same_subject _ _ = false

-- An empty reference of the claim before counts as none.
unfoldable pub subject_ref_invalidated_by_identity_change :
    Option IdentityClaim → Option IdentityClaim → Option String
subject_ref_invalidated_by_identity_change none next = none
subject_ref_invalidated_by_identity_change (some previous) next =
    if str_eq previous.subject_ref "" || same_subject (some previous.subject_ref) (subject_of next)
    then none
    else some previous.subject_ref

unfoldable pub identity_subject_changed : Option IdentityClaim → Option IdentityClaim → Bool
identity_subject_changed previous next = not (same_subject (subject_of previous) (subject_of next))

abbrev pub is_oidc_required : IdentityMode → Bool
is_oidc_required oidc_required = true
is_oidc_required anonymous_allowed = false

abbrev pub is_production : Mode → Bool
is_production production = true
is_production demo = false

unfoldable pub assert_identity_policy_satisfied :
    Option IdentityClaim → IdentityMode → Mode → Result String (Unit {0})
assert_identity_policy_satisfied claim identity_mode runtime_mode =
    throw_if (is_production runtime_mode && is_oidc_required identity_mode && not (is_some claim))
      "This deployment requires sign-in before the form can be loaded."
