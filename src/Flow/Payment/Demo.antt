-- ===== src/Flow/Payment/Demo.antt =====
-- The in-memory rail (src/adapters/stub/payment-rail-adapter.ts) keeps the contract of the port.
use formspec_web.Common.{
  suc, String, ◌≡◌, Bool, false, ◌||◌, none, List, lookup, insert, lookup-insert, eq_iff, arith,
  inl, inr, Option-cases,
}
use formspec_web.Adapters.PaymentRail.{
  stub_auth_id, Money, Authorization, authorized, captured, voided, StubAuthorizationState, Rail,
  RailError, authorize, capture, void_authorization,
}
use formspec_web.Adapters.PaymentRail.Settled.{status_cases, is_captured, is_settled, IsSound}
use formspec_web.Adapters.PaymentRail.Reachable.{authorize-IsSound, capture-IsSound, void-IsSound}
use formspec_web.Flow.Payment.{PaymentRailAdapter}
use formspec_web.Flow.Payment.Charges.{receives, RailContract}

abbrev pub stub_rail : (String → Bool) → PaymentRailAdapter Rail RailError
stub_rail is_uuid_v7 = record {
  authorize = authorize is_uuid_v7;
  capture = capture is_uuid_v7;
  void_authorization = void_authorization is_uuid_v7;
}

abbrev pub is_charged : Rail → String → Bool
is_charged rail id = is_settled (lookup rail.states id)

module _ (is_uuid_v7 : String → Bool) where
  -- Writing the state of an authorization that stays uncharged.
  uncharged_write :
      (m : List (String × StubAuthorizationState)) (i id : String) (state : StubAuthorizationState)
      → is_settled (lookup m i) ≡ false
      → is_captured state.status ≡ false
      → is_settled (lookup (insert m i state) id) ≡ is_settled (lookup m id)
  uncharged_write m i id state before after =
      ground (arith, lookup-insert m i state id, eq_iff i id)

  pub authorize_keeps :
      (r : Rail) (m : Money) (t k id : String)
      → IsSound is_uuid_v7 r
      → is_charged (authorize is_uuid_v7 r m t k).0 id ≡ is_charged r id
  unfolding authorize
  authorize_keeps r m t k id h =
      let new : StubAuthorizationState = record {
        status = authorized;
        amount = m;
        method_token = t;
      } in
      let missing : lookup r.states (stub_auth_id (suc r.next_id)) ≡ none =
        h.fresh (suc r.next_id) (omega arith) in
      ground (arith, uncharged_write r.states (stub_auth_id (suc r.next_id)) id new)

  pub void_keeps :
      (r : Rail) (a : Authorization) (k id : String)
      → is_charged (void_authorization is_uuid_v7 r a k).0 id ≡ is_charged r id
  unfolding void_authorization
  void_keeps r a k id = elim (Option-cases (lookup r.states a.id)) [
    | inl e ↦ ground (arith, e)
    | inr (state, e) ↦ elim (status_cases state.status) [
      | inl s ↦
          ground (arith, e, s, uncharged_write r.states a.id id (record state { status = voided }))
      | inr (inl s) ↦ ground (arith, e, s)
      | inr (inr s) ↦
          ground (arith, e, s, uncharged_write r.states a.id id (record state { status = voided }))
    ]
  ]

  pub capture_adds :
      (r : Rail) (a : Authorization) (k id : String)
      → IsSound is_uuid_v7 r
      → is_charged (capture is_uuid_v7 r a k).0 id
        ≡ (is_charged r id || receives (capture is_uuid_v7 r a k).1 id)
  unfolding capture
  capture_adds r a k id h = elim (Option-cases (lookup r.captures_by_key k)) [
    | inr (receipt, e) ↦
        ground (arith, e, h.settled k receipt e, eq_iff receipt.authorization_id id)
    | inl new ↦ elim (Option-cases (lookup r.states a.id)) [
      | inl e ↦ ground (arith, new, e)
      | inr (state, e) ↦ elim (status_cases state.status) [
        | inl s ↦ ground (
          arith,
          new,
          e,
          s,
          lookup-insert r.states a.id (record state { status = captured }) id,
          eq_iff a.id id,
        )
        | inr (inl s) ↦ ground (arith, new, e, s)
        | inr (inr s) ↦ ground (arith, new, e, s)
      ]
    ]
  ]

  -- The in-memory rail keeps the port's contract: an
  -- authorization is charged if its state is captured, and the sound states are allowed.
  abbrev pub stub_contract : RailContract (stub_rail is_uuid_v7)
  stub_contract = record {
    IsSafe = IsSound is_uuid_v7;
    charged = is_charged;
    authorize_safe = authorize-IsSound is_uuid_v7;
    capture_safe = capture-IsSound is_uuid_v7;
    void_safe = void-IsSound is_uuid_v7;
    authorize_charges = authorize_keeps;
    capture_charges = capture_adds;
    void_charges = λ r a k id h. void_keeps r a k id;
  }
