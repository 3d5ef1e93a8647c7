-- ===== src/Policy/FeatureKeys.antt =====
-- The closed taxonomy of runtime feature keys (src/policy/feature-keys.ts).
use formspec_web.Common.{
  ℕ, String, ◌≡◌, refl, ◌∙◌, sym, ap, ◌↔◌, Bool, true, false, ◌&&◌, List, [], ◌∷◌, map, none, some,
  includes, any, find, ◌==◌, ==_iff, if◌then◌else◌,
}

pub data RuntimeFeatureKey : Type 0 where
  respondent_place status document_presentation file_upload : RuntimeFeatureKey
  cross_issuer_history offline_submit payment embed : RuntimeFeatureKey
  screener preparer_filing trusted_reviewer bring_your_own_assistant : RuntimeFeatureKey
  safe_address duress_aware multi_party record_lifecycle : RuntimeFeatureKey

abbrev pub runtime_feature_keys : List RuntimeFeatureKey
runtime_feature_keys =
    respondent_place ∷ status ∷ document_presentation ∷ file_upload ∷ cross_issuer_history
    ∷ offline_submit ∷ payment ∷ embed ∷ screener ∷ preparer_filing ∷ trusted_reviewer
    ∷ bring_your_own_assistant ∷ safe_address ∷ duress_aware ∷ multi_party ∷ record_lifecycle ∷ []

-- The string that a key is in the source.
abbrev pub key_name : RuntimeFeatureKey → String
key_name respondent_place = "respondentPlace"
key_name status = "status"
key_name document_presentation = "documentPresentation"
key_name file_upload = "fileUpload"
key_name cross_issuer_history = "crossIssuerHistory"
key_name offline_submit = "offlineSubmit"
key_name payment = "payment"
key_name embed = "embed"
key_name screener = "screener"
key_name preparer_filing = "preparerFiling"
key_name trusted_reviewer = "trustedReviewer"
key_name bring_your_own_assistant = "bringYourOwnAssistant"
key_name safe_address = "safeAddress"
key_name duress_aware = "duressAware"
key_name multi_party = "multiParty"
key_name record_lifecycle = "recordLifecycle"

abbrev known : List String
known = map key_name runtime_feature_keys

unfoldable pub is_runtime_feature_key : String → Bool
is_runtime_feature_key value = includes known value

-- The place of a key in the tuple; two keys are equal exactly if their places are.
abbrev pub index_of : RuntimeFeatureKey → ℕ
index_of respondent_place = 0
index_of status = 1
index_of document_presentation = 2
index_of file_upload = 3
index_of cross_issuer_history = 4
index_of offline_submit = 5
index_of payment = 6
index_of embed = 7
index_of screener = 8
index_of preparer_filing = 9
index_of trusted_reviewer = 10
index_of bring_your_own_assistant = 11
index_of safe_address = 12
index_of duress_aware = 13
index_of multi_party = 14
index_of record_lifecycle = 15

-- `a === b` on keys
abbrev pub key_eq : RuntimeFeatureKey → RuntimeFeatureKey → Bool
key_eq a b = index_of a == index_of b

-- `has` of a set of keys
abbrev pub has_key : List RuntimeFeatureKey → RuntimeFeatureKey → Bool
has_key ks key = any (λ k. key_eq k key) ks

-- LOCALE_CONDITIONAL_FEATURE_KEYS
abbrev locale_conditional_feature_keys : List RuntimeFeatureKey
locale_conditional_feature_keys = []

unfoldable pub is_locale_conditional_feature_key : String → Bool
unfolding is_runtime_feature_key
is_locale_conditional_feature_key value =
    is_runtime_feature_key value && includes (map key_name locale_conditional_feature_keys) value

unfoldable pub any_enabled_feature_is_locale_conditional : List RuntimeFeatureKey → Bool
any_enabled_feature_is_locale_conditional [] = false
any_enabled_feature_is_locale_conditional (key ∷ enabled) =
    if has_key locale_conditional_feature_keys key
    then true
    else any_enabled_feature_is_locale_conditional enabled

key_at : ℕ → RuntimeFeatureKey
key_at n = elim (find (λ k. index_of k == n) runtime_feature_keys) [ none ↦ status | some k ↦ k ]

key_at-index_of : (k : RuntimeFeatureKey) → key_at (index_of k) ≡ k
unfolding key_at
key_at-index_of respondent_place = refl
key_at-index_of _ = refl

pub key_eq_iff : (a b : RuntimeFeatureKey) → (key_eq a b ≡ true) ↔ (a ≡ b)
key_eq_iff a b = (
  λ h. sym (key_at-index_of a) ∙ ap key_at ((==_iff _ _).0 h) ∙ key_at-index_of b,
  λ h. (==_iff _ _).1 (ap (λ k. index_of k) h),
)

-- Every key is in the tuple.
pub has_key-runtime_feature_keys : (k : RuntimeFeatureKey) → has_key runtime_feature_keys k ≡ true
has_key-runtime_feature_keys respondent_place = refl
has_key-runtime_feature_keys _ = refl

pub is_runtime_feature_key-key_name :
    (k : RuntimeFeatureKey) → is_runtime_feature_key (key_name k) ≡ true
unfolding is_runtime_feature_key
is_runtime_feature_key-key_name respondent_place = refl
is_runtime_feature_key-key_name _ = refl
