-- ===== src/Flow/Payment.antt =====
-- Submission with a payment (src/app/respondent-flow.ts, `submitWithPayment`; the amount from
-- src/policy/extract-form-policy.ts) and submission or queueing. The rail and the submit transport are
-- ports: their operations act on states of their own, and what an operation throws is a value.
-- What the uuid package takes for a UUIDv7 and SHA-256 are parameters.
pub mod Charges
pub mod Demo
pub mod Plans
pub mod Queued
pub mod Retry
use Prim.Native.String
use formspec_web.Common.{
  ℕ, String, Bool, true, false, not, ◌&&◌, Option, none, some, List, Result, ok, err, ◌>>=◌, ◌>>◌,
  throw_if, str_eq, if◌then◌else◌,
}
use formspec_web.Js.{Value, int, pos, negsuc, str, is_object, is_non_empty_string, prop}
use formspec_web.Policy.FeatureKeys.{payment, offline_submit, has_key}
use formspec_web.Policy.Shapes.{Mode, demo, production, ResolvedRuntimeProfile}
use formspec_web.Policy.MultiParty.{text_of}
use formspec_web.Shared.IdempotencyKey.{assert_uuid_v7_idempotency_key, derive_uuid_v7_from_string}
use formspec_web.Adapters.PaymentRail.{Money, Authorization, CaptureReceipt}
use formspec_web.Adapters.OfflineSubmitQueue.{QueuedSubmit}

abbrev pub is_natural : Value → Bool
is_natural (int (pos n)) = true
is_natural v = false

unfoldable pub extract_payment_amount : Value → Option Money
extract_payment_amount definition =
    let raw = prop (prop definition "extensions") "x-formspec-payment-amount" in
    if not (is_object raw)
    then none
    else if not (is_natural (prop raw "amountMinorUnits"))
    then none
    else if not (is_non_empty_string (prop raw "currency"))
    then none
    else some (record {
      amount_minor_units = prop raw "amountMinorUnits";
      currency = text_of (prop raw "currency");
    })

-- A rail whose state is an S and whose errors are Es.
pub record PaymentRailAdapter (S E : Type 0) : Type 1 where
  pub authorize : S → Money → String → String → S × Result E Authorization
  pub capture : S → Authorization → String → S × Result E CaptureReceipt
  pub void_authorization : S → Authorization → String → S × Result E (Unit {0})

pub data SubmitWithPaymentOutcome (E C X : Type 0) : Type 0 where
  submitted_with_payment : C → CaptureReceipt → SubmitWithPaymentOutcome E C X
  authorize_failed : E → SubmitWithPaymentOutcome E C X
  submit_failed_payment_voided : Authorization → X → SubmitWithPaymentOutcome E C X
  void_failed_after_submit_failure : Authorization → X → E → SubmitWithPaymentOutcome E C X
  capture_failed : C → Authorization → E → SubmitWithPaymentOutcome E C X

-- What the caller hands over besides the ports.
pub record SubmitWithPaymentInput (H : Type 0) : Type 0 where
  pub runtime_profile : ResolvedRuntimeProfile
  pub definition : Value
  pub handoff : H
  pub idempotency_key : String
  pub method_token : Option String
  pub authorize_key : Option String
  pub capture_key : Option String
  pub void_key : Option String

abbrev pub token_given : Option String → Bool
token_given none = false
token_given (some token) = not (str_eq token "")

abbrev pub token_or : Option String → String → String
token_or none other = other
token_or (some token) other = token

abbrev pub in_demo : Mode → Bool
in_demo demo = true
in_demo production = false

unfoldable pub read_method_token : {H : Type 0} → SubmitWithPaymentInput H → Result String String
read_method_token input =
    let from_definition =
      prop (prop input.definition "extensions") "x-formspec-payment-method-token" in
    if token_given input.method_token
    then ok (token_or input.method_token "")
    else if is_non_empty_string from_definition
    then ok (text_of from_definition)
    else if in_demo input.runtime_profile.mode
    then ok "demo-method-stub"
    else err
        "No payment method token available: caller did not supply `methodToken`, and the form did not declare extensions[\"x-formspec-payment-method-token\"]. Production compositions must wire a rail-specific picker UX that provides the token."

-- What is settled before the rail is called: the amount, the method's token and the three keys.
pub record PaymentPlan : Type 0 where
  pub amount : Money
  pub method_token : String
  pub authorize_key : String
  pub capture_key : String
  pub void_key : String

abbrev pub amount_of : Value → Result String Money
amount_of definition = elim (extract_payment_amount definition) [
  | some amount ↦ ok amount
  | none ↦
      err
        "Payment is enabled for this form but extensions[\"x-formspec-payment-amount\"] is missing or malformed."
]

module _ {S E H C X W : Type 0} (rail : PaymentRailAdapter S E)
    (submit : W → H → String → W × Result X C) where
  -- After a successful submission.
  abbrev pub charge_hold :
      S → W → Authorization → String → C → S × W × SubmitWithPaymentOutcome E C X
  charge_hold state world authorization key confirmation =
      let (after, result) = rail.capture state authorization key in
      (
        after,
        world,
        elim result [
          | ok receipt ↦ submitted_with_payment confirmation receipt
          | err error ↦ capture_failed confirmation authorization error
        ],
      )

  -- After a submission that threw.
  abbrev pub release_hold :
      S → W → Authorization → String → X → S × W × SubmitWithPaymentOutcome E C X
  release_hold state world authorization key submit_error =
      let (after, result) = rail.void_authorization state authorization key in
      (
        after,
        world,
        elim result [
          | ok _ ↦ submit_failed_payment_voided authorization submit_error
          | err error ↦ void_failed_after_submit_failure authorization submit_error error
        ],
      )

  -- The rail's part, once the plan stands.
  unfoldable pub pay_and_submit :
      S → W → PaymentPlan → H → String → S × W × SubmitWithPaymentOutcome E C X
  pay_and_submit state world plan handoff key =
      let (held, hold) = rail.authorize state plan.amount plan.method_token plan.authorize_key in
      elim hold [
        | err error ↦ (held, world, authorize_failed error)
        | ok authorization ↦
            let (after, sent) = submit world handoff key in
            elim sent [
              | ok confirmation ↦ charge_hold held after authorization plan.capture_key confirmation
              | err submit_error ↦ release_hold held after authorization plan.void_key submit_error
            ]
      ]

module _ (is_uuid_v7 : String → Bool) (sha_256 : Option (String → List ℕ)) where
  unfoldable pub resolve_rail_key : Option String → String → String → Result String String
  resolve_rail_key none base suffix = derive_uuid_v7_from_string is_uuid_v7 sha_256 base suffix
  resolve_rail_key (some given) base suffix =
      assert_uuid_v7_idempotency_key is_uuid_v7 given >> ok given

  unfoldable pub payment_plan : {H : Type 0} → SubmitWithPaymentInput H → Result String PaymentPlan
  payment_plan input = do
    throw_if (not (has_key input.runtime_profile.enabled payment))
        "submitWithPayment invoked with payment disabled in the resolved profile; route free-form submits through submitOrQueue."
    amount ← amount_of input.definition
    method_token ← read_method_token input
    authorize_key ← resolve_rail_key input.authorize_key input.idempotency_key "authorize"
    capture_key ← resolve_rail_key input.capture_key input.idempotency_key "capture"
    void_key ← resolve_rail_key input.void_key input.idempotency_key "void"
    ok (record {
      amount = amount;
      method_token = method_token;
      authorize_key = authorize_key;
      capture_key = capture_key;
      void_key = void_key;
    })

module _ {S E H C X W : Type 0} (is_uuid_v7 : String → Bool) (sha_256 : Option (String → List ℕ))
    (rail : PaymentRailAdapter S E) (submit : W → H → String → W × Result X C) where
  -- An error is the message of what is thrown, before any port is called.
  unfoldable pub submit_with_payment :
      S → W → SubmitWithPaymentInput H → Result String (S × W × SubmitWithPaymentOutcome E C X)
  submit_with_payment state world input = do
    plan ← payment_plan is_uuid_v7 sha_256 input
    ok (pay_and_submit rail submit state world plan input.handoff input.idempotency_key)

pub data SubmitOrQueueOutcome (H C : Type 0) : Type 0 where
  submitted : C → SubmitOrQueueOutcome H C
  queued : QueuedSubmit H → SubmitOrQueueOutcome H C

-- The queue's and the transport's errors are of types of their own.
pub data SubmitOrQueueError (Q X : Type 0) : Type 0 where
  of_queue : Q → SubmitOrQueueError Q X
  of_transport : X → SubmitOrQueueError Q X

module _ {S W H C Q X : Type 0} (enqueue : S → H → String → Result Q (S × QueuedSubmit H))
    (submit : W → H → String → W × Result X C) where
  unfoldable pub submit_or_queue :
      S
      → W
      → Bool
      → ResolvedRuntimeProfile
      → H
      → String
      → S × W × Result (SubmitOrQueueError Q X) (SubmitOrQueueOutcome H C)
  submit_or_queue queue world on_line profile handoff key =
      if not on_line && has_key profile.enabled offline_submit
      then elim (enqueue queue handoff key) [
        | ok (after, entry) ↦ (after, world, ok (queued entry))
        | err error ↦ (queue, world, err (of_queue error))
      ]
      else let (after, sent) = submit world handoff key in
        (
          queue,
          after,
          elim sent [
            | ok confirmation ↦ ok (submitted confirmation)
            | err error ↦ err (of_transport error)
          ],
        )
