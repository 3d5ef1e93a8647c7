-- ===== src/Policy/Resolver/Decisions.antt =====
-- What the loop over the keys collects.
use formspec_web.Common.{
  inl, inr, ◌&&◌, ◌≡◌, refl, ap, Bool, true, false, not, ◌||◌, List, [], ◌∷◌, map, ok, err, All,
  filter, arith, >>=-eq-ok, if◌then◌else◌, Bool-cases,
}
use formspec_web.Js.{undefined_of, Value, undefined, is_undefined}
use formspec_web.Policy.FeatureKeys.{RuntimeFeatureKey, key_eq, key_eq_iff, has_key}
use formspec_web.Policy.Shapes.{DisabledReason}
use formspec_web.Policy.Errors.{Checked}
use formspec_web.Policy.Decide.{Decision, enabled, disabled}
use formspec_web.Policy.Validate.{ResolveInput}
use formspec_web.Policy.Resolver.{
  Tally, resolve_keys, record_decision, with_limit, decide_key, limit_at, limit_of,
}

-- The decision turned the key on.
abbrev pub is_on : Checked Decision → Bool
is_on (ok enabled) = true
is_on _ = false

-- The decision threw no error.
abbrev pub is_decided : Checked Decision → Bool
is_decided (ok d) = true
is_decided (err e) = false

abbrev pub on_keys : ResolveInput → List RuntimeFeatureKey → List RuntimeFeatureKey
on_keys input keys = filter (λ k. is_on (decide_key input k)) keys

abbrev pub off_keys : ResolveInput → List RuntimeFeatureKey → List RuntimeFeatureKey
off_keys input keys = filter (λ k. not (is_on (decide_key input k))) keys

-- What the tally of some keys says.
pub record IsTally (input : ResolveInput) (keys : List RuntimeFeatureKey) (t : Tally) : Type 0 where
  pub decided : All (λ k. is_decided (decide_key input k) ≡ true) keys
  pub on : t.on ≡ on_keys input keys
  pub off : map (λ p. p.0) t.off ≡ off_keys input keys
  pub reasons : All (λ p. decide_key input p.0 ≡ ok (disabled p.1)) t.off
  pub limits :
      (k : RuntimeFeatureKey)
      → limit_of t.limits k ≡ (if has_key t.on k then limit_at input k else undefined)

limit_of-with_limit :
    (key k : RuntimeFeatureKey) (v : Value) (ls : List (RuntimeFeatureKey × Value))
    → limit_of (with_limit key v ls) k
      ≡ (if key_eq key k && not (is_undefined v) then v else limit_of ls k)
unfolding with_limit
limit_of-with_limit key k v ls = elim (Bool-cases (is_undefined v)) [
  | inl missing ↦ ground arith
  | inr there ↦ ground arith
]

limit_same :
    (v was : Value) (had : Bool)
    → was ≡ (if had then v else undefined)
    → (if not (is_undefined v) then v else was) ≡ v
limit_same v was had h = elim (Bool-cases (is_undefined v)) [
  | inl missing ↦ ground (arith, undefined_of v missing)
  | inr there ↦ ground arith
]

module _ (input : ResolveInput) where
  limits_on :
      (key : RuntimeFeatureKey) (rest : Tally) (k : RuntimeFeatureKey)
      → limit_of rest.limits k ≡ (if has_key rest.on k then limit_at input k else undefined)
      → limit_of (with_limit key (limit_at input key) rest.limits) k
        ≡ (if key_eq key k || has_key rest.on k then limit_at input k else undefined)
  limits_on key rest k h = elim (Bool-cases (key_eq key k)) [
    | inl same ↦
        rw (limit_of-with_limit key k (limit_at input key) rest.limits, same)
          (rw ((key_eq_iff key k).0 same) (limit_same (limit_at input k) _ _ h))
    | inr other ↦ rw (limit_of-with_limit key k (limit_at input key) rest.limits, other) h
  ]

  tally_on :
      (key : RuntimeFeatureKey) (keys : List RuntimeFeatureKey) (rest : Tally)
      → decide_key input key ≡ ok enabled
      → IsTally input keys rest
      → IsTally input (key ∷ keys) (record_decision input key enabled rest)
  unfolding record_decision
  tally_on key keys rest e t = record {
    decided = (rw e refl, t.decided);
    on = rw e (ap (λ ks. key ∷ ks) t.on);
    off = rw e t.off;
    reasons = t.reasons;
    limits = λ k. limits_on key rest k (t.limits k);
  }

  tally_off :
      (key : RuntimeFeatureKey) (keys : List RuntimeFeatureKey) (reason : DisabledReason)
      (rest : Tally)
      → decide_key input key ≡ ok (disabled reason)
      → IsTally input keys rest
      → IsTally input (key ∷ keys) (record_decision input key (disabled reason) rest)
  unfolding record_decision
  tally_off key keys reason rest e t = record {
    decided = (rw e refl, t.decided);
    on = rw e t.on;
    off = rw e (ap (λ ks. key ∷ ks) t.off);
    reasons = (e, t.reasons);
    limits = t.limits;
  }

  step_IsTally :
      (key : RuntimeFeatureKey) (keys : List RuntimeFeatureKey) (d : Decision) (rest : Tally)
      → decide_key input key ≡ ok d
      → IsTally input keys rest
      → IsTally input (key ∷ keys) (record_decision input key d rest)
  step_IsTally key keys enabled rest e t = tally_on key keys rest e t
  step_IsTally key keys (disabled reason) rest e t = tally_off key keys reason rest e t

  -- A loop that ends without an error has decided every key; the keys that are on, and those that are
  -- off, stand in the order of the tuple, each off key with the reason of its decision, and the limit
  -- of a key that is on is that of the two documents, merged.
  pub resolve_keys-IsTally :
      (keys : List RuntimeFeatureKey) (t : Tally)
      → resolve_keys input keys ≡ ok t
      → IsTally input keys t
  unfolding resolve_keys
  resolve_keys-IsTally [] t h =
      let same : record { on = []; off = []; limits = [] } ≡ t = cc in
      rw (← same) (record { decided = tt; on = refl; off = refl; reasons = tt; limits = λ k. refl })
  resolve_keys-IsTally (key ∷ keys) t h =
      let (d, e, h₁) = >>=-eq-ok (decide_key input key) _ h in
      let (rest, e', h₂) = >>=-eq-ok (resolve_keys input keys) _ h₁ in
      let same : record_decision input key d rest ≡ t = cc in
      rw (← same) (step_IsTally key keys d rest e (resolve_keys-IsTally keys rest e'))
