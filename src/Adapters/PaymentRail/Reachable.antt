-- ===== src/Adapters/PaymentRail/Reachable.antt =====
-- No authorization is charged twice, in whatever order the operations are called.
use formspec_web.Common.{
  includes, suc, String, ◌≡◌, refl, ap, Bool, true, none, some, ok, lookup, lookup-insert, eq_iff,
  arith, inl, inr, Option-cases, Bool-cases,
}
use formspec_web.Adapters.PaymentRail.{
  stub_auth_id, Money, Authorization, CaptureReceipt, Rail, money_error, initial, authorize,
  receipt_of, capture, void_authorization, fail_next_authorize, fail_next_capture, fail_next_void,
}
use formspec_web.Adapters.PaymentRail.Settled.{
  is_captured, status_cases, IsSound, same, issue-IsSound, released-IsSound, settle-IsSound,
}

module _ (is_uuid_v7 : String → Bool) where
  -- The states that the operations lead to.
  pub data Reachable : Rail → Type 0 where
    start : (label : String) → Reachable (initial label)
    authorizing :
        (r : Rail) (m : Money) (t k : String)
        → Reachable r
        → Reachable (authorize is_uuid_v7 r m t k).0
    capturing :
        (r : Rail) (a : Authorization) (k : String)
        → Reachable r
        → Reachable (capture is_uuid_v7 r a k).0
    voiding :
        (r : Rail) (a : Authorization) (k : String)
        → Reachable r
        → Reachable (void_authorization is_uuid_v7 r a k).0
    failing_authorize : (r : Rail) (e : String) → Reachable r → Reachable (fail_next_authorize r e)
    failing_capture : (r : Rail) (e : String) → Reachable r → Reachable (fail_next_capture r e)
    failing_void : (r : Rail) (e : String) → Reachable r → Reachable (fail_next_void r e)

  pub authorize-IsSound :
      (r : Rail) (m : Money) (t k : String)
      → IsSound is_uuid_v7 r
      → IsSound is_uuid_v7 (authorize is_uuid_v7 r m t k).0
  unfolding authorize
  authorize-IsSound r m t k h = elim (Bool-cases (is_uuid_v7 k)) [
    | inr bad ↦ rw bad h
    | inl good ↦ elim (Option-cases (money_error m)) [
      | inr (x, e) ↦ rw (good, e) h
      | inl fine ↦ elim (Option-cases (lookup r.authorizations_by_key k)) [
        | inr (x, e) ↦ rw (good, fine, e) h
        | inl new ↦ elim (Option-cases r.pending_authorize_error) [
          | inr (x, e) ↦ rw (good, fine, new, e) (same is_uuid_v7 r _ refl refl refl h)
          | inl e ↦ rw (good, fine, new, e) (issue-IsSound is_uuid_v7 r m t k h)
        ]
      ]
    ]
  ]

  pub capture-IsSound :
      (r : Rail) (a : Authorization) (k : String)
      → IsSound is_uuid_v7 r
      → IsSound is_uuid_v7 (capture is_uuid_v7 r a k).0
  unfolding capture
  capture-IsSound r a k h = elim (Bool-cases (is_uuid_v7 k)) [
    | inr bad ↦ rw bad h
    | inl good ↦ elim (Option-cases (lookup r.captures_by_key k)) [
      | inr (x, e) ↦ rw (good, e) h
      | inl new ↦ elim (Option-cases (lookup r.states a.id)) [
        | inl e ↦ rw (good, new, e) h
        | inr (state, e) ↦ elim (status_cases state.status) [
          | inl s ↦
              rw (good, new, e, s) (settle-IsSound is_uuid_v7 r a k state e (ap is_captured s) h)
          | inr (inl s) ↦ rw (good, new, e, s) h
          | inr (inr s) ↦ rw (good, new, e, s) h
        ]
      ]
    ]
  ]

  pub void-IsSound :
      (r : Rail) (a : Authorization) (k : String)
      → IsSound is_uuid_v7 r
      → IsSound is_uuid_v7 (void_authorization is_uuid_v7 r a k).0
  unfolding void_authorization
  void-IsSound r a k h = elim (Bool-cases (is_uuid_v7 k)) [
    | inr bad ↦ rw bad h
    | inl good ↦ elim (Bool-cases (includes r.voids_by_key k)) [
      | inl e ↦ rw (good, e) h
      | inr new ↦ elim (Option-cases (lookup r.states a.id)) [
        | inl e ↦ rw (good, new, e) (same is_uuid_v7 r _ refl refl refl h)
        | inr (state, e) ↦ elim (status_cases state.status) [
          | inl s ↦
              rw (good, new, e, s) (released-IsSound is_uuid_v7 r a k state e (ap is_captured s) h)
          | inr (inl s) ↦ rw (good, new, e, s) h
          | inr (inr s) ↦
              rw (good, new, e, s) (released-IsSound is_uuid_v7 r a k state e (ap is_captured s) h)
        ]
      ]
    ]
  ]

  -- In every state that the operations lead to, in any order and with any arguments, each receipt
  -- belongs to an authorization that is captured, no authorization has receipts under two keys, and
  -- the ids not given out yet have no state.
  pub Reachable-IsSound : (r : Rail) → Reachable r → IsSound is_uuid_v7 r
  unfolding fail_next_authorize fail_next_capture fail_next_void
  Reachable-IsSound _ (start label) = record {
    fresh = λ n lt. refl;
    settled = λ k c l. cc;
    single = λ j k c d l m e. cc;
  }
  Reachable-IsSound _ (authorizing r m t k h) = authorize-IsSound r m t k (Reachable-IsSound r h)
  Reachable-IsSound _ (capturing r a k h) = capture-IsSound r a k (Reachable-IsSound r h)
  Reachable-IsSound _ (voiding r a k h) = void-IsSound r a k (Reachable-IsSound r h)
  Reachable-IsSound _ (failing_authorize r e h) =
      same is_uuid_v7 r _ refl refl refl (Reachable-IsSound r h)
  Reachable-IsSound _ (failing_capture r e h) =
      same is_uuid_v7 r _ refl refl refl (Reachable-IsSound r h)
  Reachable-IsSound _ (failing_void r e h) =
      same is_uuid_v7 r _ refl refl refl (Reachable-IsSound r h)

module _ (is_uuid_v7 : String → Bool) where
  replayed :
      (s : Rail) (b : Authorization) (k : String) (c : CaptureReceipt)
      → is_uuid_v7 k ≡ true
      → lookup s.captures_by_key k ≡ some c
      → capture is_uuid_v7 s b k ≡ (s, ok c)
  unfolding capture
  replayed s b k c good kept = rw (good, kept) refl

  reauthorized :
      (s : Rail) (n : Money) (u k : String) (a : Authorization)
      → is_uuid_v7 k ≡ true
      → money_error n ≡ none
      → lookup s.authorizations_by_key k ≡ some a
      → authorize is_uuid_v7 s n u k ≡ (s, ok a)
  unfolding authorize
  reauthorized s n u k a good fine kept = rw (good, fine, kept) refl

  capture_kept :
      (r s : Rail) (a : Authorization) (k : String) (c : CaptureReceipt)
      → capture is_uuid_v7 r a k ≡ (s, ok c)
      → (is_uuid_v7 k ≡ true) × (lookup s.captures_by_key k ≡ some c)
  unfolding capture
  capture_kept r s a k c h =
      ground (arith, eq_iff k k, lookup-insert r.captures_by_key k (receipt_of is_uuid_v7 a) k)

  -- A capture that succeeds is repeated without an effect by a capture under the same key, of any
  -- authorization: it gives the same receipt.
  capture_idempotent :
      (r s : Rail) (a b : Authorization) (k : String) (c : CaptureReceipt)
      → capture is_uuid_v7 r a k ≡ (s, ok c)
      → capture is_uuid_v7 s b k ≡ (s, ok c)
  capture_idempotent r s a b k c h =
      let (good, kept) = capture_kept r s a k c h in replayed s b k c good kept

  authorize_kept :
      (r s : Rail) (m : Money) (t k : String) (a : Authorization)
      → authorize is_uuid_v7 r m t k ≡ (s, ok a)
      → (is_uuid_v7 k ≡ true) × (money_error m ≡ none) × (lookup s.authorizations_by_key k ≡ some a)
  unfolding authorize
  authorize_kept r s m t k a h = ground (
    arith,
    eq_iff k k,
    lookup-insert r.authorizations_by_key k
        (record { id = stub_auth_id (suc r.next_id); amount = m; rail_label = r.rail_label }) k,
  )

  -- An authorization that succeeds is repeated without an effect under the same key, for any
  -- well-formed amount and any method: it gives the same authorization.
  authorize_idempotent :
      (r s : Rail) (m n : Money) (t u k : String) (a : Authorization)
      → authorize is_uuid_v7 r m t k ≡ (s, ok a)
      → money_error n ≡ none
      → authorize is_uuid_v7 s n u k ≡ (s, ok a)
  authorize_idempotent r s m n t u k a h fine =
      let (good, well_formed, kept) = authorize_kept r s m t k a h in
      reauthorized s n u k a good fine kept
