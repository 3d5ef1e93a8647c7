-- ===== src/Policy/PortMap.antt =====
-- Which ports of a composition back a feature (src/policy/feature-port-map.ts).
use formspec_web.Common.{String, List, [], ◌∷◌}
use formspec_web.Policy.FeatureKeys.{
  RuntimeFeatureKey, respondent_place, status, document_presentation, file_upload,
  cross_issuer_history, offline_submit, payment, embed, screener, preparer_filing, trusted_reviewer,
  bring_your_own_assistant, safe_address, duress_aware, multi_party, record_lifecycle,
}

pub data FeaturePortBinding : Type 0 where
  one : String → FeaturePortBinding
  several : List String → FeaturePortBinding

abbrev feature_port_map : RuntimeFeatureKey → FeaturePortBinding
feature_port_map respondent_place = one "respondentPlaceSource"
feature_port_map status = one "statusReader"
feature_port_map document_presentation = one "respondentPlaceSource"
feature_port_map file_upload = one "attachmentStore"
feature_port_map cross_issuer_history = one "respondentHistorySource"
feature_port_map offline_submit = one "offlineSubmitQueue"
feature_port_map payment = one "paymentRailAdapter"
feature_port_map embed = one "embedTransport"
feature_port_map screener = one "screenerDocumentSource"
feature_port_map preparer_filing = several []
feature_port_map trusted_reviewer = several []
feature_port_map bring_your_own_assistant = several []
feature_port_map safe_address = one "safeAddressDirectory"
feature_port_map duress_aware = several []
feature_port_map multi_party = several ("draftStore" ∷ "identityProvider" ∷ "submitTransport" ∷ [])
feature_port_map record_lifecycle = one "lifecycleActionClient"

abbrev names : FeaturePortBinding → List String
names (one port) = port ∷ []
names (several ports) = ports

abbrev pub feature_port_names : RuntimeFeatureKey → List String
feature_port_names key = names (feature_port_map key)
