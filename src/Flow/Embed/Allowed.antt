-- ===== src/Flow/Embed/Allowed.antt =====
-- Which hosts an embedded form runs in.
use formspec_web.Common.{
  String, ◌≡◌, refl, ◌↔◌, ◌⊎◌, inl, inr, ◌≢◌, true, false, not, ◌||◌, Option, none, some,
  Option-cases, Bool-cases, List, [], ◌∷◌, ok, >>-eq-ok, done, throw_if, each, All, is_some,
  includes, eq_iff, arith,
}
use formspec_web.Js.{
  Value, str, is_undefined, undefined_of, elements, prop, strings, is_object, is_array,
}
use formspec_web.Policy.FeatureKeys.{embed, has_key}
use formspec_web.Policy.Shapes.{ResolvedRuntimeProfile}
use formspec_web.Policy.Validate.{
  ResolveInput, validate_origin, validate_embed_limits, validate_input, differs,
}
use formspec_web.Policy.Resolver.Profile.{validated}
use formspec_web.Policy.Resolver.{resolve_runtime_features}
use formspec_web.Flow.Embed.{
  EmbedTransport, allowed_origins, matches_entry, matches_allowed_origin,
  verify_embed_origin_allowed,
}

module _ (origin_of : String → Option String) where
  -- An entry that the resolver accepts: the wildcard, or an origin in its normal form.
  abbrev pub IsOriginEntry : String → Type 0
  IsOriginEntry entry = (entry ≡ "*") ⊎ (origin_of entry ≡ some entry)

  origin_same :
      (entry : String) (o : Option String)
      → is_some o ≡ true
      → differs origin_of o entry ≡ false
      → o ≡ some entry
  origin_same entry none h k = cc
  origin_same entry (some s) h k = ground (arith, eq_iff s entry)

  validate_origin_lem :
      (entry : String) → validate_origin origin_of (str entry) ≡ done → IsOriginEntry entry
  unfolding validate_origin
  validate_origin_lem entry h =
      ground (
        arith,
        eq_iff entry "*",
        Option-cases (origin_of entry),
        origin_same entry (origin_of entry),
      )

  validate_origins_lem :
      (vs : List Value)
      → each (validate_origin origin_of) vs ≡ done
      → All IsOriginEntry (strings vs)
  unfolding validate_origin each
  validate_origins_lem [] h = tt
  validate_origins_lem (str s ∷ vs) h =
      let (one, rest) = >>-eq-ok (validate_origin origin_of (str s)) _ h in
      (validate_origin_lem s one, validate_origins_lem vs rest)
  validate_origins_lem (_ ∷ vs) h = cc

  -- Over validated entries the match of a normalized host is membership, or the wildcard's.
  matches_entry_lem :
      (host : String) (entries : List String)
      → All IsOriginEntry entries
      → matches_entry origin_of host entries ≡ (includes entries "*" || includes entries host)
  unfolding matches_entry
  matches_entry_lem host [] h = refl
  matches_entry_lem host (entry ∷ entries) (here, rest) =
      ground (arith, matches_entry_lem host entries rest, eq_iff entry "*", eq_iff entry host)

  matches_iff :
      (host origin : String) (entries : List String)
      → All IsOriginEntry entries
      → origin_of host ≡ some origin
      → (matches_allowed_origin origin_of host entries ≡ true)
        ↔ ((includes entries "*" || includes entries origin) ≡ true)
  unfolding matches_allowed_origin
  matches_iff host origin [] h parsed = ground arith
  matches_iff host origin (entry ∷ entries) h parsed =
      rw parsed (rw (matches_entry_lem origin (entry ∷ entries) h) ((λ h. h), (λ h. h)))

  no_origin :
      (host : String) (entries : List String)
      → origin_of host ≡ none
      → matches_allowed_origin origin_of host entries ≢ true
  unfolding matches_allowed_origin
  no_origin host entries bad = ground (arith, bad)

  embed_limits_lem :
      (limits : Value)
      → validate_embed_limits origin_of limits ≡ done
      → All IsOriginEntry (strings (elements (prop limits "allowedOrigins")))
  unfolding validate_embed_limits
  embed_limits_lem limits h = elim (Bool-cases (is_undefined limits)) [
    | inl missing ↦ rw (undefined_of limits missing) tt
    | inr there ↦
        let (one, h₁) = >>-eq-ok (throw_if (not (is_object limits)) _) _ (rw there at h) in
        let (two, h₂) =
          >>-eq-ok (throw_if (not (is_array (prop limits "allowedOrigins"))) _) _ h₁ in
        validate_origins_lem (elements (prop limits "allowedOrigins")) h₂
  ]

  module _ (input : ResolveInput) (profile : ResolvedRuntimeProfile)
      (resolved : resolve_runtime_features origin_of input ≡ ok profile) where
    org_origins : All IsOriginEntry (allowed_origins input.org_policy)
    unfolding validate_input
    org_origins =
        let valid = validated origin_of input profile resolved in
        let (one, h₁) = >>-eq-ok (each _ _) _ valid in
        let (two, h₂) = >>-eq-ok (each _ _) _ h₁ in
        let (three, h₃) = >>-eq-ok (each _ _) _ h₂ in
        let (four, h₄) = >>-eq-ok (validate_embed_limits origin_of _) _ h₃ in
        embed_limits_lem (prop input.org_policy.limits "embed") four

    gate_of_host :
        (transport : EmbedTransport) (host : String)
        → has_key profile.enabled embed ≡ true
        → transport.is_embedded ≡ true
        → transport.host_origin ≡ some host
        → (verify_embed_origin_allowed origin_of profile input.org_policy transport ≡ done)
          ↔ (matches_allowed_origin origin_of host (allowed_origins input.org_policy) ≡ true)
    unfolding verify_embed_origin_allowed
    gate_of_host transport host on embedded named = ground (arith, on, embedded, named)

    gate_of_nobody :
        (transport : EmbedTransport)
        → has_key profile.enabled embed ≡ true
        → transport.is_embedded ≡ true
        → transport.host_origin ≡ none
        → (verify_embed_origin_allowed origin_of profile input.org_policy transport ≢ done)
    unfolding verify_embed_origin_allowed
    gate_of_nobody transport on embedded nobody = ground (arith, on, embedded, nobody)

    -- After a profile is resolved, the gate lets an embedded form with the feature `embed` run exactly
    -- if the transport names a host with an origin, and the org lists that origin or the wildcard.
    pub verify_embed_origin_allowed_iff :
        (transport : EmbedTransport)
        → has_key profile.enabled embed ≡ true
        → transport.is_embedded ≡ true
        → (verify_embed_origin_allowed origin_of profile input.org_policy transport ≡ done) ↔ (
            (host : String) × (origin : String) × (transport.host_origin ≡ some host)
            × (origin_of host ≡ some origin)
            × ((includes (allowed_origins input.org_policy) "*"
                  || includes (allowed_origins input.org_policy) origin)
                ≡ true))
    verify_embed_origin_allowed_iff transport on embedded = (
      λ passed. elim (Option-cases transport.host_origin) [
        | inl nobody ↦ absurd (gate_of_nobody transport on embedded nobody passed)
        | inr (host, named) ↦
            let matched = (gate_of_host transport host on embedded named).0 passed in
            elim (Option-cases (origin_of host)) [
              | inl bad ↦ absurd (no_origin host _ bad matched)
              | inr (origin, parsed) ↦ (
                host,
                origin,
                named,
                parsed,
                (matches_iff host origin _ org_origins parsed).0 matched,
              )
            ]
      ],
      λ (host, origin, named, parsed, listed).
          (gate_of_host transport host on embedded named).1
            ((matches_iff host origin _ org_origins parsed).1 listed),
    )
