-- ===== src/Policy/MultiParty/WellFormed.antt =====
-- What the validator of multi-party limits accepts, stated without its tests.
use formspec_web.Common.{
  IsDistinct, inl, inr, Bool-cases, ◌≤◌, String, ◌≡◌, refl, ◌↔◌, ◌⊎◌, true, false, not, ◌&&◌, ◌||◌,
  List, [], ◌∷◌, map, done, All, includes, eq_iff, length, arith,
}
use formspec_web.Js.{
  Value, undefined, is_undefined, is_array, is_non_empty_string, is_plain_object, is_str, elements,
  prop,
}
use formspec_web.Policy.Errors.{RuntimePolicyDocumentKind}
use formspec_web.Policy.MultiParty.Cardinality.{
  IsOneOf, IsNonEmptyString, is_str_iff, is_non_empty_string_iff,
}
use formspec_web.Policy.MultiParty.Party.{IsParty, IsParty-iff}
use formspec_web.Policy.MultiParty.{
  text_of, validate_party_body, validate_parties, is_invitation_channel, validate_deadline_policy,
  validate_multi_party_limits,
}

abbrev pub role_ids : List Value → List String
role_ids parties = map (λ p. text_of (prop p "roleId")) parties

fresh-cons :
    (x : String) (seen ids : List String)
    → All (λ s. includes (x ∷ seen) s ≡ false) ids
      ↔ ((includes ids x ≡ false) × All (λ s. includes seen s ≡ false) ids)
fresh-cons x seen [] = ground arith
fresh-cons x seen (y ∷ ids) = ground (arith, fresh-cons x seen ids, eq_iff x y, eq_iff y x)

abbrev Parties : List String → List Value → Type 0
Parties seen parties =
    All IsParty parties
    × IsDistinct (role_ids parties)
    × All (λ s. includes seen s ≡ false) (role_ids parties)

parties_step :
    (layer : RuntimePolicyDocumentKind) (seen : List String) (p : Value) (ps : List Value)
    → (validate_parties layer seen (p ∷ ps) ≡ done) ↔ (
        ((is_plain_object p ≡ true)
          × (is_non_empty_string (prop p "roleId") ≡ true)
          × (validate_party_body layer p ≡ done))
        × (includes seen (text_of (prop p "roleId")) ≡ false)
        × (validate_parties layer (text_of (prop p "roleId") ∷ seen) ps ≡ done))
unfolding validate_parties
parties_step layer seen p ps = ground arith

validate_parties_iff :
    (layer : RuntimePolicyDocumentKind) (seen : List String) (ps : List Value)
    → (validate_parties layer seen ps ≡ done) ↔ Parties seen ps
unfolding validate_parties
validate_parties_iff layer seen [] = ((λ h. (tt, tt, tt)), (λ h. refl))
validate_parties_iff layer seen (p ∷ ps) =
    let id = text_of (prop p "roleId") in
    let fresh = fresh-cons id seen (role_ids ps) in
    let rest = validate_parties_iff layer (id ∷ seen) ps in
    (
      λ h.
          let (one, new, more) = (parties_step layer seen p ps).0 h in
          let (each_party, distinct, unseen) = rest.0 more in
          (
            ((IsParty-iff layer p).0 one, each_party),
            ((fresh.0 unseen).0, distinct),
            (new, (fresh.0 unseen).1),
          ),
      λ h.
          (parties_step layer seen p ps).1
            ((IsParty-iff layer p).1 h.0.0, h.2.0, rest.1 (h.0.1, h.1.1, fresh.1 (h.1.0, h.2.1))),
    )

abbrev pub invitation_channels : List String
invitation_channels = "magic-link" ∷ "wos-task" ∷ "out-of-band" ∷ []

-- A missing deadline policy, or one with a known action and, if it has a deadline, a text for it.
abbrev pub IsDeadlinePolicy : Value → Type 0
IsDeadlinePolicy v =
    (v ≡ undefined)
    ⊎ ((is_plain_object v ≡ true)
        × IsOneOf ("void-submission" ∷ "convert-to-partial" ∷ []) (prop v "expirationAction")
        × ((prop v "perPartyDeadline" ≡ undefined) ⊎ IsNonEmptyString (prop v "perPartyDeadline")))

pub record IsMultiPartyConfig (v : Value) : Type 0 where
  pub is_object : is_plain_object v ≡ true
  pub tier : IsOneOf ("coEqual" ∷ "asymmetric" ∷ []) (prop v "tier")
  pub listed : is_array (prop v "parties") ≡ true
  pub two : 2 ≤ length (elements (prop v "parties"))
  pub parties : All IsParty (elements (prop v "parties"))
  pub distinct : IsDistinct (role_ids (elements (prop v "parties")))
  pub channel :
      (prop v "invitationChannel" ≡ undefined)
      ⊎ IsOneOf invitation_channels (prop v "invitationChannel")
  pub deadline : IsDeadlinePolicy (prop v "deadlinePolicy")

is_undefined_iff : (v : Value) → (is_undefined v ≡ true) ↔ (v ≡ undefined)
is_undefined_iff undefined = ((λ h. refl), (λ h. refl))
is_undefined_iff v = ((λ h. cc), (λ h. cc))

optional_string_iff :
    (v : Value)
    → ((not (is_undefined v) && not (is_non_empty_string v)) ≡ false)
      ↔ ((v ≡ undefined) ⊎ IsNonEmptyString v)
optional_string_iff v = ground (arith, is_undefined_iff v, is_non_empty_string_iff v)

deadline_parts :
    (layer : RuntimePolicyDocumentKind) (v : Value)
    → (validate_deadline_policy layer v ≡ done) ↔ (
        (is_undefined v ≡ true)
        ⊎ ((is_plain_object v ≡ true)
            × ((not (is_str (prop v "expirationAction") "void-submission")
                  && not (is_str (prop v "expirationAction") "convert-to-partial"))
                ≡ false)
            × ((not (is_undefined (prop v "perPartyDeadline"))
                  && not (is_non_empty_string (prop v "perPartyDeadline")))
                ≡ false)))
unfolding validate_deadline_policy
deadline_parts layer v = ground arith

deadline_iff :
    (layer : RuntimePolicyDocumentKind) (v : Value)
    → (validate_deadline_policy layer v ≡ done) ↔ IsDeadlinePolicy v
deadline_iff layer v = ground (
  arith,
  deadline_parts layer v,
  is_undefined_iff v,
  is_str_iff (prop v "expirationAction") "void-submission",
  is_str_iff (prop v "expirationAction") "convert-to-partial",
  optional_string_iff (prop v "perPartyDeadline"),
)

channel_iff :
    (v : Value)
    → ((not (is_undefined v) && not (is_invitation_channel v)) ≡ false)
      ↔ ((v ≡ undefined) ⊎ IsOneOf invitation_channels v)
channel_iff v = ground (
  arith,
  is_undefined_iff v,
  is_str_iff v "magic-link",
  is_str_iff v "wos-task",
  is_str_iff v "out-of-band",
)

config_parts :
    (v : Value) (layer : RuntimePolicyDocumentKind)
    → (validate_multi_party_limits v layer ≡ done) ↔ (
        (is_undefined v ≡ true)
        ⊎ ((is_plain_object v ≡ true)
            × ((is_str (prop v "tier") "coEqual" || is_str (prop v "tier") "asymmetric") ≡ true)
            × (is_array (prop v "parties") ≡ true)
            × (2 ≤ length (elements (prop v "parties")))
            × (validate_parties layer [] (elements (prop v "parties")) ≡ done)
            × ((not (is_undefined (prop v "invitationChannel"))
                  && not (is_invitation_channel (prop v "invitationChannel")))
                ≡ false)
            × (validate_deadline_policy layer (prop v "deadlinePolicy") ≡ done)))
unfolding validate_multi_party_limits
config_parts v layer = ground arith

config_of_parts :
    (v : Value) (layer : RuntimePolicyDocumentKind)
    → is_undefined v ≡ false
    → validate_multi_party_limits v layer ≡ done
    → IsMultiPartyConfig v
config_of_parts v layer there h = elim ((config_parts v layer).0 h) [
  | inl e ↦ cc
  | inr c ↦ record {
    is_object = c.0;
    tier =
        ground (
          arith,
          c.1,
          is_str_iff (prop v "tier") "coEqual",
          is_str_iff (prop v "tier") "asymmetric",
        );
    listed = c.2;
    two = c.3;
    parties = ((validate_parties_iff layer [] _).0 c.4).0;
    distinct = ((validate_parties_iff layer [] _).0 c.4).1;
    channel = (channel_iff _).0 c.5;
    deadline = (deadline_iff layer _).0 c.6;
  }
]

none_seen : (ids : List String) → All (λ s. includes [] s ≡ false) ids
none_seen [] = tt
none_seen (x ∷ ids) = (refl, none_seen ids)

parts_of_config :
    (v : Value) (layer : RuntimePolicyDocumentKind)
    → IsMultiPartyConfig v
    → validate_multi_party_limits v layer ≡ done
parts_of_config v layer w = (config_parts v layer).1 (
    inr (
      w.is_object,
      ground (
        arith,
        w.tier,
        is_str_iff (prop v "tier") "coEqual",
        is_str_iff (prop v "tier") "asymmetric",
      ),
      w.listed,
      w.two,
      (validate_parties_iff layer [] _).1 (w.parties, w.distinct, none_seen _),
      (channel_iff _).1 w.channel,
      (deadline_iff layer _).1 w.deadline,
    ))

-- For either layer, the validator of multi-party limits accepts a value exactly if it is missing or
-- is a well-formed configuration: at least two parties, each well formed, with distinct role ids,
-- a known tier and channel, and a well-formed deadline policy.
pub validate_multi_party_limits_iff :
    (v : Value) (layer : RuntimePolicyDocumentKind)
    → (validate_multi_party_limits v layer ≡ done) ↔ ((v ≡ undefined) ⊎ IsMultiPartyConfig v)
validate_multi_party_limits_iff v layer = (
  λ h. elim (Bool-cases (is_undefined v)) [
    | inl missing ↦ inl ((is_undefined_iff v).0 missing)
    | inr there ↦ inr (config_of_parts v layer there h)
  ],
  λ h. elim h [
    | inl missing ↦ (config_parts v layer).1 (inl ((is_undefined_iff v).1 missing))
    | inr w ↦ parts_of_config v layer w
  ],
)
