-- ===== src/Flow/Payment/Charges.antt =====
-- What a submission with a payment charges, over any rail that keeps the port's contract
-- (src/ports/payment-rail-adapter.ts).
use formspec_web.Common.{
  Option, ℕ, String, ◌≡◌, Bool, false, ◌||◌, List, Result, Result-cases, inl, inr, ok, err, str_eq,
  arith, >>=-eq-ok,
}
use mathlib.Core.Path.{subst}
use formspec_web.Adapters.PaymentRail.{Money, Authorization, CaptureReceipt}
use formspec_web.Flow.Payment.{
  PaymentRailAdapter, SubmitWithPaymentOutcome, submitted_with_payment, SubmitWithPaymentInput,
  PaymentPlan, payment_plan, charge_hold, release_hold, pay_and_submit, submit_with_payment,
}

-- Whether a capture's result is a receipt of this authorization.
abbrev pub receives : {E : Type 0} → Result E CaptureReceipt → String → Bool
receives (ok receipt) id = str_eq receipt.authorization_id id
receives (err e) id = false

-- The contract of a rail: which states its invariant allows, which authorizations are charged in a
-- state, and that only a capture that gives a receipt charges, namely the receipt's authorization.
pub record RailContract {S E : Type 0} (rail : PaymentRailAdapter S E) : Type 1 where
  pub IsSafe : S → Type 0
  pub charged : S → String → Bool
  pub authorize_safe :
      (s : S) (m : Money) (t k : String) → IsSafe s → IsSafe (rail.authorize s m t k).0
  pub capture_safe :
      (s : S) (a : Authorization) (k : String) → IsSafe s → IsSafe (rail.capture s a k).0
  pub void_safe :
      (s : S) (a : Authorization) (k : String) → IsSafe s → IsSafe (rail.void_authorization s a k).0
  pub authorize_charges :
      (s : S) (m : Money) (t k id : String)
      → IsSafe s
      → charged (rail.authorize s m t k).0 id ≡ charged s id
  pub capture_charges :
      (s : S) (a : Authorization) (k id : String)
      → IsSafe s
      → charged (rail.capture s a k).0 id ≡ (charged s id || receives (rail.capture s a k).1 id)
  pub void_charges :
      (s : S) (a : Authorization) (k id : String)
      → IsSafe s
      → charged (rail.void_authorization s a k).0 id ≡ charged s id

-- Whether an outcome tells the respondent that this authorization was paid.
abbrev pub paid : {E C X : Type 0} → SubmitWithPaymentOutcome E C X → String → Bool
paid (submitted_with_payment confirmation receipt) id = str_eq receipt.authorization_id id
paid _ id = false

module _ {S E H C X W : Type 0} (rail : PaymentRailAdapter S E) (contract : RailContract rail)
    (submit : W → H → String → W × Result X C) where
  IsAccounted : S → S × W × SubmitWithPaymentOutcome E C X → Type 0
  IsAccounted before (after, world, outcome) =
      contract.IsSafe after
      × ((id : String)
          → contract.charged after id ≡ (contract.charged before id || paid outcome id))

  charge-IsAccounted :
      (before s : S) (w : W) (a : Authorization) (k : String) (c : C)
      → ((id : String) → contract.charged s id ≡ contract.charged before id)
      → contract.IsSafe s
      → IsAccounted before (charge_hold rail submit s w a k c)
  unfolding IsAccounted
  charge-IsAccounted before s w a k c same safe = (
    contract.capture_safe s a k safe,
    λ id. elim (Result-cases (rail.capture s a k).1) [
      | inl (receipt, e) ↦ ground (arith, contract.capture_charges s a k id safe, same id, e)
      | inr (error, e) ↦ ground (arith, contract.capture_charges s a k id safe, same id, e)
    ],
  )

  release-IsAccounted :
      (before s : S) (w : W) (a : Authorization) (k : String) (x : X)
      → ((id : String) → contract.charged s id ≡ contract.charged before id)
      → contract.IsSafe s
      → IsAccounted before (release_hold rail submit s w a k x)
  unfolding IsAccounted
  release-IsAccounted before s w a k x same safe = (
    contract.void_safe s a k safe,
    λ id. elim (Result-cases (rail.void_authorization s a k).1) [
      | inl (_, e) ↦ ground (arith, contract.void_charges s a k id safe, same id, e)
      | inr (error, e) ↦ ground (arith, contract.void_charges s a k id safe, same id, e)
    ],
  )

  pay-IsAccounted :
      (s : S) (w : W) (plan : PaymentPlan) (h : H) (k : String)
      → contract.IsSafe s
      → IsAccounted s (pay_and_submit rail submit s w plan h k)
  unfolding IsAccounted pay_and_submit
  pay-IsAccounted s w plan h k safe =
      let hold = rail.authorize s plan.amount plan.method_token plan.authorize_key in
      let same : (id : String) → contract.charged hold.0 id ≡ contract.charged s id = λ id.
        contract.authorize_charges s plan.amount plan.method_token plan.authorize_key id safe in
      let held = contract.authorize_safe s plan.amount plan.method_token plan.authorize_key safe in
      elim (Result-cases hold.1) [
        | inr (error, e) ↦ rw (pay_and_submit, e) (held, λ id. ground (arith, same id))
        | inl (a, e) ↦ elim (Result-cases (submit w h k).1) [
          | inl (c, sent) ↦
              rw (pay_and_submit, e, sent)
                (charge-IsAccounted s hold.0 (submit w h k).0 a plan.capture_key c same held)
          | inr (x, sent) ↦
              rw (pay_and_submit, e, sent)
                (release-IsAccounted s hold.0 (submit w h k).0 a plan.void_key x same held)
        ]
      ]

module _ {S E H C X W : Type 0} (is_uuid_v7 : String → Bool) (sha_256 : Option (String → List ℕ))
    (rail : PaymentRailAdapter S E) (contract : RailContract rail)
    (submit : W → H → String → W × Result X C) where
  -- Over a rail that keeps its contract: if a submission with a payment from an allowed state gives an
  -- outcome, then the state after it is allowed, and exactly the authorizations are charged that were
  -- charged before, or whose receipt the outcome reports with a confirmed submission.
  pub submit_with_payment-charges :
      (before after : S) (world last : W) (input : SubmitWithPaymentInput H)
      (outcome : SubmitWithPaymentOutcome E C X)
      → contract.IsSafe before
      → submit_with_payment is_uuid_v7 sha_256 rail submit before world input
        ≡ ok (after, last, outcome)
      → contract.IsSafe after
        × ((id : String)
            → contract.charged after id ≡ (contract.charged before id || paid outcome id))
  unfolding submit_with_payment IsAccounted
  submit_with_payment-charges before after world last input outcome safe h =
      let (plan, planned, paying) = >>=-eq-ok (payment_plan is_uuid_v7 sha_256 input) _ h in
      let same : pay_and_submit rail submit before world plan input.handoff input.idempotency_key
          ≡ (after, last, outcome) =
        cc in
      subst (IsAccounted rail contract submit before) same
        (pay-IsAccounted rail contract submit before world plan _ _ safe)
