-- ===== src/Adapters/PaymentRail/Settled.antt =====
-- A sound state of the payment rail, and the steps that keep it sound.
use formspec_web.Common.{
  padded_injective, padded, ℕ, suc, ◌<◌, String, ◌≡◌, refl, sym, ap, ◌∙◌, ◌⊎◌, Bool, true, false,
  Option, none, some, List, lookup, insert, lookup-insert, str_eq, eq_iff, arith, inl, inr,
  Option-cases, Bool-cases,
}
use text.Mathlib.TextLemmas.{append_cancel_left}
use formspec_web.Adapters.PaymentRail.{
  stub_auth_id, Money, Authorization, CaptureReceipt, StubAuthorizationStatus, authorized, captured,
  voided, StubAuthorizationState, Rail, issue, receipt_of, charge, settle, release,
}

-- `states.get(id)?.status === 'captured'`
abbrev pub is_captured : StubAuthorizationStatus → Bool
is_captured captured = true
is_captured _ = false

abbrev pub is_settled : Option StubAuthorizationState → Bool
is_settled none = false
is_settled (some state) = is_captured state.status

pub status_cases : (x : StubAuthorizationStatus) → (x ≡ authorized) ⊎ (x ≡ captured) ⊎ (x ≡ voided)
status_cases authorized = inl refl
status_cases captured = inr (inl refl)
status_cases voided = inr (inr refl)

stub_auth_id_injective : (m n : ℕ) → stub_auth_id m ≡ stub_auth_id n → m ≡ n
unfolding stub_auth_id
stub_auth_id_injective m n e =
    padded_injective m n (append_cancel_left "stub-auth-" (padded m) (padded n) e)

module _ (is_uuid_v7 : String → Bool) where
  -- The ids not given out yet have no state, and an authorization with a receipt is captured.
  pub record IsSound (r : Rail) : Type 0 where
    pub fresh : (n : ℕ) → r.next_id < n → lookup r.states (stub_auth_id n) ≡ none
    pub settled :
        (k : String) (c : CaptureReceipt)
        → lookup r.captures_by_key k ≡ some c
        → is_settled (lookup r.states c.authorization_id) ≡ true
    pub single :
        (j k : String) (c d : CaptureReceipt)
        → lookup r.captures_by_key j ≡ some c
        → lookup r.captures_by_key k ≡ some d
        → c.authorization_id ≡ d.authorization_id
        → j ≡ k

  -- The three parts of the state that soundness speaks of.
  pub same :
      (r s : Rail)
      → s.next_id ≡ r.next_id
      → s.states ≡ r.states
      → s.captures_by_key ≡ r.captures_by_key
      → IsSound r
      → IsSound s
  same r s e₁ e₂ e₃ h = record {
    fresh = λ n lt. rw e₂ (h.fresh n (rw (← e₁) lt));
    settled = λ k c l. rw e₂ (h.settled k c (cc));
    single = λ j k c d l m e. h.single j k c d (cc) (cc) e;
  }

  absurd_fresh :
      {A : Type 0} (i j : String) (m : List (String × StubAuthorizationState))
      → i ≡ j
      → lookup m i ≡ none
      → is_settled (lookup m j) ≡ true
      → A
  absurd_fresh i j m e missing there = cc

  unsettled_here :
      {A : Type 0} (i j : String) (m : List (String × StubAuthorizationState))
      (state : StubAuthorizationState)
      → i ≡ j
      → lookup m i ≡ some state
      → is_captured state.status ≡ false
      → is_settled (lookup m j) ≡ true
      → A
  unsettled_here i j m state e known unsettled there = cc

  pub issue-IsSound :
      (r : Rail) (m : Money) (t k : String) → IsSound r → IsSound (issue is_uuid_v7 r m t k).0
  issue-IsSound r m t k h = record {
    fresh = λ n lt. ground (
      arith,
      lookup-insert r.states (stub_auth_id (suc r.next_id))
          (record { status = authorized; amount = m; method_token = t }) (stub_auth_id n),
      eq_iff (stub_auth_id (suc r.next_id)) (stub_auth_id n),
      stub_auth_id_injective (suc r.next_id) n,
      h.fresh n,
    );
    settled = λ j c l.
        elim (Bool-cases (str_eq (stub_auth_id (suc r.next_id)) c.authorization_id)) [
          | inl e ↦
              absurd_fresh (stub_auth_id (suc r.next_id)) c.authorization_id r.states
                ((eq_iff _ _).0 e) (h.fresh (suc r.next_id) (ground arith)) (h.settled j c l)
          | inr e ↦
              rw
                (
                  lookup-insert r.states (stub_auth_id (suc r.next_id))
                      (record { status = authorized; amount = m; method_token = t })
                      c.authorization_id,
                  e,
                )
                (h.settled j c l)
        ];
    single = h.single;
  }

  -- After a charge a receipt is the new one, under the new key, or one from before.
  receipt_after :
      (m : List (String × CaptureReceipt)) (k j : String) (new c : CaptureReceipt)
      → lookup (insert m k new) j ≡ some c
      → ((k ≡ j) × (new ≡ c)) ⊎ (lookup m j ≡ some c)
  receipt_after m k j new c l = elim (Bool-cases (str_eq k j)) [
    | inl e ↦ inl ((eq_iff k j).0 e, ground (arith, lookup-insert m k new j, e))
    | inr e ↦ inr (ground (arith, lookup-insert m k new j, e))
  ]

  charge-IsSound :
      (r : Rail) (a : Authorization) (k : String) (state : StubAuthorizationState)
      → lookup r.states a.id ≡ some state
      → is_captured state.status ≡ false
      → IsSound r
      → IsSound (charge is_uuid_v7 r a k state)
  charge-IsSound r a k state known unsettled h =
      let put_state = lookup-insert r.states a.id (record state { status = captured }) in
      let after = λ (j : String) (c : CaptureReceipt).
        receipt_after r.captures_by_key k j (receipt_of is_uuid_v7 a) c in
      let unpaid : (j : String) (c : CaptureReceipt)
          → lookup r.captures_by_key j ≡ some c
          → a.id ≡ c.authorization_id
          → k ≡ j =
        λ j c l e.
          unsettled_here a.id c.authorization_id r.states state e known unsettled
            (h.settled j c l) in
      record {
        fresh = λ n lt.
            ground (arith, put_state (stub_auth_id n), eq_iff a.id (stub_auth_id n), h.fresh n);
        settled = λ j c l. elim (after j c l) [
          | inl (at, is_new) ↦ ground (
            arith,
            put_state c.authorization_id,
            eq_iff a.id c.authorization_id,
            ap (λ x. x.authorization_id) is_new,
          )
          | inr old ↦ ground (arith, put_state c.authorization_id, h.settled j c old)
        ];
        single = λ i j c d l m e. elim (after i c l) [
          | inl (at, is_new) ↦ elim (after j d m) [
            | inl (at_too, is_too) ↦ sym at ∙ at_too
            | inr old ↦ sym at ∙ unpaid j d old (ap (λ x. x.authorization_id) is_new ∙ e)
          ]
          | inr old ↦ elim (after j d m) [
            | inl (at, is_new) ↦
                sym (unpaid i c old (ap (λ x. x.authorization_id) is_new ∙ sym e)) ∙ at
            | inr old_too ↦ h.single i j c d old old_too e
          ]
        ];
      }

  -- The release of an authorization that is not captured.
  pub released-IsSound :
      (r : Rail) (a : Authorization) (k : String) (state : StubAuthorizationState)
      → lookup r.states a.id ≡ some state
      → is_captured state.status ≡ false
      → IsSound r
      → IsSound (release is_uuid_v7 r a k state).0
  released-IsSound r a k state known unsettled h = elim (Option-cases r.pending_void_error) [
    | inl e ↦ rw e (record {
      fresh = λ n lt. ground (
        arith,
        lookup-insert r.states a.id (record state { status = voided }) (stub_auth_id n),
        eq_iff a.id (stub_auth_id n),
        h.fresh n,
      );
      settled = λ j c l. elim (Bool-cases (str_eq a.id c.authorization_id)) [
        | inl same_id ↦
            unsettled_here a.id c.authorization_id r.states state ((eq_iff _ _).0 same_id) known
              unsettled (h.settled j c l)
        | inr other ↦
            rw
              (
                lookup-insert r.states a.id (record state { status = voided }) c.authorization_id,
                other,
              )
              (h.settled j c l)
      ];
      single = h.single;
    })
    | inr (x, e) ↦ rw e (same r _ refl refl refl h)
  ]

  pub settle-IsSound :
      (r : Rail) (a : Authorization) (k : String) (state : StubAuthorizationState)
      → lookup r.states a.id ≡ some state
      → is_captured state.status ≡ false
      → IsSound r
      → IsSound (settle is_uuid_v7 r a k state).0
  settle-IsSound r a k state known unsettled h = elim (Option-cases r.pending_capture_error) [
    | inl e ↦ rw e (
        same (charge is_uuid_v7 r a k state) _ refl refl refl
          (charge-IsSound r a k state known unsettled h))
    | inr (x, e) ↦ rw e (same r _ refl refl refl h)
  ]
