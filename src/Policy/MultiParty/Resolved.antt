-- ===== src/Policy/MultiParty/Resolved.antt =====
-- What the resolver makes of multi-party limits.
use mathlib.Core.Path.{ap₂, subst}
use formspec_web.Common.{
  ap, suc, eq_iff, String, ◌≡◌, ◌≢◌, refl, ◌⊎◌, inl, inr, true, false, List, [], ◌∷◌, map, ok, done,
  All, length, arith, str_eq, if◌then◌else◌,
}
use formspec_web.Js.{
  Value, undefined, null, str, arr, obj, get, put, get-put, items, of_list, elements, prop,
  fields_of, or_value, is_plain_object, is_undefined,
}
use formspec_web.Policy.Errors.{form}
use formspec_web.Policy.MultiParty.{
  text_of, validate_multi_party_limits, resolve_multi_party_policy, copy_party, copy_deadline,
}
use formspec_web.Policy.MultiParty.Cardinality.{IsOneOf}
use formspec_web.Policy.MultiParty.Party.{IsParty}
use formspec_web.Policy.MultiParty.WellFormed.{
  IsMultiPartyConfig, IsDeadlinePolicy, role_ids, invitation_channels,
  validate_multi_party_limits_iff,
}

items-of_list : (vs : List Value) → items (of_list vs) ≡ vs
items-of_list [] = refl
items-of_list (v ∷ vs) = rw (items-of_list vs)

get-fields_of : (v : Value) (k : String) → get (fields_of v) k ≡ prop v k
unfolding get
get-fields_of (obj fs) k = refl
get-fields_of undefined k = refl
get-fields_of _ k = refl

obj-fields_of : (v : Value) → is_plain_object v ≡ true → obj (fields_of v) ≡ v
obj-fields_of (obj fs) h = refl
obj-fields_of undefined h = cc
obj-fields_of _ h = cc

-- A copy of a party reads as the party.
module _ (p : Value) (whole : is_plain_object (prop p "cardinality") ≡ true) where
  prop-copy_party : (k : String) → prop (copy_party p) k ≡ prop p k
  unfolding copy_party
  prop-copy_party k = rw get-put (
      ground (
        arith,
        eq_iff "cardinality" k,
        get-fields_of p k,
        obj-fields_of (prop p "cardinality") whole,
      ))

  role_of_copy : text_of (prop (copy_party p) "roleId") ≡ text_of (prop p "roleId")
  role_of_copy = ap text_of (prop-copy_party "roleId")

copy_party-IsParty : {p : Value} → IsParty p → IsParty (copy_party p)
copy_party-IsParty {p} w =
    let same = prop-copy_party p w.cardinality.0 in
    record {
      is_object = unfold copy_party in refl;
      named = rw (same "roleId") w.named;
      role = rw (same "role") w.role;
      visibility = rw (same "visibilityScope") w.visibility;
      cardinality = rw (same "cardinality") w.cardinality;
      visible_to = rw (same "visibleTo") w.visible_to;
      editable_by = rw (same "editableBy") w.editable_by;
      signed_by = rw (same "signedBy") w.signed_by;
      safe_address_audience = rw (same "safeAddressAudience") w.safe_address_audience;
      shares = rw (same "safeAddressAudience", same "visibleTo") w.shares;
    }

All-copy_party : (ps : List Value) → All IsParty ps → All IsParty (map copy_party ps)
All-copy_party [] h = tt
All-copy_party (p ∷ ps) (w, h) = (copy_party-IsParty w, All-copy_party ps h)

role_ids-copy_party :
    (ps : List Value) → All IsParty ps → role_ids (map copy_party ps) ≡ role_ids ps
role_ids-copy_party [] h = refl
role_ids-copy_party (p ∷ ps) (w, h) =
    ap₂ ◌∷◌ (role_of_copy p w.cardinality.0) (role_ids-copy_party ps h)

length-copy_party : (ps : List Value) → length (map copy_party ps) ≡ length ps
length-copy_party [] = refl
length-copy_party (p ∷ ps) = ap suc (length-copy_party ps)

abbrev with_channel : Value → Value
with_channel v = or_value (prop v "invitationChannel") (str "out-of-band")

channel_known :
    (c : Value)
    → (c ≡ undefined) ⊎ IsOneOf invitation_channels c
    → IsOneOf invitation_channels (or_value c (str "out-of-band"))
channel_known undefined h = inr (inr (inl refl))
channel_known null h = inr (inr (inl refl))
channel_known (str s) (inr h) = h
channel_known (str s) (inl h) = cc
channel_known _ h = ground arith

copy_deadline-IsDeadlinePolicy :
    (d : Value) → IsDeadlinePolicy d → IsDeadlinePolicy (copy_deadline d)
unfolding copy_deadline
copy_deadline-IsDeadlinePolicy (obj fs) h = h
copy_deadline-IsDeadlinePolicy undefined h = h
copy_deadline-IsDeadlinePolicy _ h = inl refl

undefined_refused : (r : Value) → resolve_multi_party_policy undefined ≢ ok r
unfolding resolve_multi_party_policy validate_multi_party_limits
undefined_refused r h = cc

-- The resolved value, and how it reads.
abbrev resolved : Value → Value
resolved v = obj (
    put
      (put (put (fields_of v) "invitationChannel" (with_channel v)) "parties"
        (arr (of_list (map copy_party (elements (prop v "parties"))))))
      "deadlinePolicy" (copy_deadline (prop v "deadlinePolicy")))

prop-resolved :
    (v : Value) (k : String)
    → prop (resolved v) k ≡ (
        if str_eq "deadlinePolicy" k
        then copy_deadline (prop v "deadlinePolicy")
        else if str_eq "parties" k
        then arr (of_list (map copy_party (elements (prop v "parties"))))
        else if str_eq "invitationChannel" k
        then with_channel v
        else prop v k)
prop-resolved v k = simp (get-put, get-fields_of)

resolved-IsMultiPartyConfig : (v : Value) → IsMultiPartyConfig v → IsMultiPartyConfig (resolved v)
resolved-IsMultiPartyConfig v w = record {
  is_object = refl;
  tier = rw (prop-resolved v "tier") w.tier;
  listed = rw (prop-resolved v "parties") refl;
  two = rw (prop-resolved v "parties") (
      rw (items-of_list (map copy_party (elements (prop v "parties"))))
        (rw (length-copy_party (elements (prop v "parties"))) w.two));
  parties = rw (prop-resolved v "parties") (
      rw (items-of_list (map copy_party (elements (prop v "parties"))))
        (All-copy_party _ w.parties));
  distinct = rw (prop-resolved v "parties") (
      rw (items-of_list (map copy_party (elements (prop v "parties"))))
        (rw (role_ids-copy_party _ w.parties) w.distinct));
  channel = rw (prop-resolved v "invitationChannel") (inr (channel_known _ w.channel));
  deadline = rw (prop-resolved v "deadlinePolicy") (copy_deadline-IsDeadlinePolicy _ w.deadline);
}

resolve_ok :
    (v r : Value)
    → resolve_multi_party_policy v ≡ ok r
    → (validate_multi_party_limits v form ≡ done) × (r ≡ resolved v)
unfolding resolve_multi_party_policy
resolve_ok v r h = ground arith

-- If the resolver returns multi-party limits, both the limits that it was given and those that it
-- returns are well-formed configurations; the returned ones have an invitation channel of the three
-- known ones, the given tier, and the given role ids in the given order.
pub resolve_multi_party_policy-IsMultiPartyConfig :
    (v r : Value)
    → resolve_multi_party_policy v ≡ ok r
    → IsMultiPartyConfig v
      × IsMultiPartyConfig r
      × IsOneOf invitation_channels (prop r "invitationChannel")
      × (prop r "tier" ≡ prop v "tier")
      × (role_ids (elements (prop r "parties")) ≡ role_ids (elements (prop v "parties")))
resolve_multi_party_policy-IsMultiPartyConfig v r h =
    let (valid, same) = resolve_ok v r h in
    elim ((validate_multi_party_limits_iff v form).0 valid) [
      | inl e ↦ absurd (undefined_refused r (subst (λ x. resolve_multi_party_policy x ≡ ok r) e h))
      | inr w ↦ rw same (
        w,
        resolved-IsMultiPartyConfig v w,
        rw (prop-resolved v "invitationChannel") (channel_known _ w.channel),
        rw (prop-resolved v "tier") refl,
        rw (prop-resolved v "parties") (
            rw (items-of_list (map copy_party (elements (prop v "parties"))))
              (role_ids-copy_party _ w.parties)),
      )
    ]

config_resolves :
    (v : Value)
    → is_undefined v ≡ false
    → validate_multi_party_limits v form ≡ done
    → resolve_multi_party_policy v ≡ ok (resolved v)
unfolding resolve_multi_party_policy
config_resolves v there h = ground arith

-- A well-formed configuration is resolved: the resolver does not throw on it.
pub resolve_multi_party_policy-total :
    (v : Value) → IsMultiPartyConfig v → (r : Value) × (resolve_multi_party_policy v ≡ ok r)
resolve_multi_party_policy-total v w = (
  resolved v,
  config_resolves v (is_defined v w.is_object) ((validate_multi_party_limits_iff v form).1 (inr w)),
)
  where
    is_defined : (x : Value) → is_plain_object x ≡ true → is_undefined x ≡ false
    is_defined (obj fs) e = refl
    is_defined undefined e = cc
    is_defined _ e = cc
