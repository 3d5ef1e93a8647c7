-- ===== src/Flow/Payment/Retry.antt =====
-- A submission with a payment on the in-memory rail, and the same submission again under its key.
use formspec_web.Common.{
  Option, ℕ, suc, String, ◌≡◌, refl, Bool, true, false, none, some, List, ◌∷◌, ap, ◌∙◌, Result, ok,
  err, lookup, insert, lookup-insert, includes, eq_iff, arith,
}
use formspec_web.Adapters.PaymentRail.{
  stub_auth_id, Authorization, CaptureReceipt, authorized, captured, voided, StubAuthorizationState,
  Rail, RailError, already_voided, authorize, receipt_of, issue, charge, capture,
  void_authorization,
}
use formspec_web.Flow.Payment.{
  SubmitWithPaymentInput, PaymentPlan, payment_plan, charge_hold, release_hold, PaymentRailAdapter,
  pay_and_submit, submit_with_payment, SubmitWithPaymentOutcome, submitted_with_payment,
  submit_failed_payment_voided, capture_failed,
}
use formspec_web.Flow.Payment.Demo.{stub_rail, is_charged}
use formspec_web.Flow.Payment.Plans.{IsSoundPlan, payment_plan-IsSoundPlan}

-- No failure is injected, and none of the plan's keys was used.
pub record IsReady (rail : Rail) (plan : PaymentPlan) : Type 0 where
  pub authorizes : rail.pending_authorize_error ≡ none
  pub captures : rail.pending_capture_error ≡ none
  pub voids : rail.pending_void_error ≡ none
  pub new_authorization : lookup rail.authorizations_by_key plan.authorize_key ≡ none
  pub new_capture : lookup rail.captures_by_key plan.capture_key ≡ none
  pub new_void : includes rail.voids_by_key plan.void_key ≡ false

lookup_inserted :
    {A : Type 0} (m : List (String × A)) (k : String) (v : A) → lookup (insert m k v) k ≡ some v
lookup_inserted m k v = ground (arith, lookup-insert m k v k, eq_iff k k)

module _ (is_uuid_v7 : String → Bool) (sha_256 : Option (String → List ℕ)) (plan : PaymentPlan)
    (sound : IsSoundPlan is_uuid_v7 sha_256 plan) (r : Rail) (ready : IsReady r plan) where
  abbrev new_state : StubAuthorizationState
  new_state = record { status = authorized; amount = plan.amount; method_token = plan.method_token }

  abbrev hold : Authorization
  hold = record {
    id = stub_auth_id (suc r.next_id);
    amount = plan.amount;
    rail_label = r.rail_label;
  }

  abbrev held : Rail
  held = (issue is_uuid_v7 r plan.amount plan.method_token plan.authorize_key).0

  abbrev charged_rail : Rail
  charged_rail = charge is_uuid_v7 held hold plan.capture_key new_state

  abbrev released_rail : Rail
  released_rail = record held {
    voids_by_key = plan.void_key ∷ r.voids_by_key;
    states = insert held.states hold.id (record new_state { status = voided });
  }

  authorizes :
      authorize is_uuid_v7 r plan.amount plan.method_token plan.authorize_key ≡ (held, ok hold)
  unfolding authorize
  authorizes =
      ground
        (arith, sound.authorize_valid, sound.well_formed, ready.new_authorization, ready.authorizes)

  captures :
      capture is_uuid_v7 held hold plan.capture_key
      ≡ (charged_rail, ok (receipt_of is_uuid_v7 hold))
  unfolding capture
  captures = ground (
    arith,
    sound.capture_valid,
    ready.new_capture,
    lookup_inserted r.states hold.id new_state,
    ready.captures,
  )

  voids : void_authorization is_uuid_v7 held hold plan.void_key ≡ (released_rail, ok tt)
  unfolding void_authorization
  voids = ground (
    arith,
    sound.void_valid,
    ready.new_void,
    lookup_inserted r.states hold.id new_state,
    ready.voids,
  )

  -- The rail takes the same plan again, after its charge and after its release.
  authorizes_charged :
      authorize is_uuid_v7 charged_rail plan.amount plan.method_token plan.authorize_key
      ≡ (charged_rail, ok hold)
  unfolding authorize
  authorizes_charged =
      rw
        (
          sound.authorize_valid,
          sound.well_formed,
          lookup_inserted r.authorizations_by_key plan.authorize_key hold,
        )
        refl

  authorizes_released :
      authorize is_uuid_v7 released_rail plan.amount plan.method_token plan.authorize_key
      ≡ (released_rail, ok hold)
  unfolding authorize
  authorizes_released =
      rw
        (
          sound.authorize_valid,
          sound.well_formed,
          lookup_inserted r.authorizations_by_key plan.authorize_key hold,
        )
        refl

  captures_charged :
      capture is_uuid_v7 charged_rail hold plan.capture_key
      ≡ (charged_rail, ok (receipt_of is_uuid_v7 hold))
  unfolding capture
  captures_charged =
      rw
        (
          sound.capture_valid,
          lookup_inserted r.captures_by_key plan.capture_key (receipt_of is_uuid_v7 hold),
        )
        refl

  captures_released :
      capture is_uuid_v7 released_rail hold plan.capture_key
      ≡ (released_rail, err (already_voided hold.id))
  unfolding capture
  captures_released =
      rw
        (
          sound.capture_valid,
          ready.new_capture,
          lookup_inserted held.states hold.id (record new_state { status = voided }),
        )
        refl

-- What a submission comes to, over any rail, from what the port's calls give.
module _ {S E H C X W : Type 0} (rail : PaymentRailAdapter S E)
    (submit : W → H → String → W × Result X C) (w : W) (plan : PaymentPlan) (h : H) (k : String)
    (s held after : S) (a : Authorization)
    (authorizes : rail.authorize s plan.amount plan.method_token plan.authorize_key
      ≡ (held, ok a)) where
  pays :
      (c : C) (t : CaptureReceipt)
      → (submit w h k).1 ≡ ok c
      → rail.capture held a plan.capture_key ≡ (after, ok t)
      → pay_and_submit rail submit s w plan h k
        ≡ (after, (submit w h k).0, submitted_with_payment c t)
  unfolding pay_and_submit
  pays c t sent captures =
      rw (pay_and_submit, charge_hold, authorizes, sent, authorizes, captures) refl

  fails_to_charge :
      (c : C) (e : E)
      → (submit w h k).1 ≡ ok c
      → rail.capture held a plan.capture_key ≡ (after, err e)
      → pay_and_submit rail submit s w plan h k ≡ (after, (submit w h k).0, capture_failed c a e)
  unfolding pay_and_submit
  fails_to_charge c e sent captures =
      rw (pay_and_submit, charge_hold, authorizes, sent, authorizes, captures) refl

  gives_back :
      (x : X)
      → (submit w h k).1 ≡ err x
      → rail.void_authorization held a plan.void_key ≡ (after, ok tt)
      → pay_and_submit rail submit s w plan h k
        ≡ (after, (submit w h k).0, submit_failed_payment_voided a x)
  unfolding pay_and_submit
  gives_back x failed voids =
      rw (pay_and_submit, release_hold, authorizes, failed, authorizes, voids) refl

module _ (is_uuid_v7 : String → Bool) (sha_256 : Option (String → List ℕ)) {H C X W : Type 0}
    (submit : W → H → String → W × Result X C) where
  abbrev pub run :
      Rail
      → W
      → SubmitWithPaymentInput H
      → Result String (Rail × W × SubmitWithPaymentOutcome RailError C X)
  run = submit_with_payment is_uuid_v7 sha_256 (stub_rail is_uuid_v7) submit

  runs :
      (s : Rail) (w : W) (input : SubmitWithPaymentInput H) (plan : PaymentPlan)
      → payment_plan is_uuid_v7 sha_256 input ≡ ok plan
      → run s w input
        ≡ ok (
            pay_and_submit
              (stub_rail is_uuid_v7)
              submit
              s
              w
              plan
              input.handoff
              input.idempotency_key)
  unfolding submit_with_payment
  runs s w input plan planned = rw planned refl

  -- On the in-memory rail, where no failure is injected and the plan's keys are new: if the submission
  -- is confirmed, the payment succeeds and its authorization is charged; the same submission again, if
  -- it is confirmed too, gives the same receipt and leaves the rail as it is.
  pub submit_with_payment-pays_once :
      (r : Rail) (w v : W) (input : SubmitWithPaymentInput H) (plan : PaymentPlan) (c d : C)
      → payment_plan is_uuid_v7 sha_256 input ≡ ok plan
      → IsReady r plan
      → (submit w input.handoff input.idempotency_key).1 ≡ ok c
      → (submit v input.handoff input.idempotency_key).1 ≡ ok d
      → (after : Rail) × (a : Authorization) × (run r w input
          ≡ ok (
            after,
            (submit w input.handoff input.idempotency_key).0,
            submitted_with_payment c (receipt_of is_uuid_v7 a),
          ))
        × (is_charged after a.id ≡ true)
        × (run after v input
            ≡ ok (
              after,
              (submit v input.handoff input.idempotency_key).0,
              submitted_with_payment d (receipt_of is_uuid_v7 a),
            ))
  submit_with_payment-pays_once r w v input plan c d planned ready sent sent_again =
      let sound = payment_plan-IsSoundPlan is_uuid_v7 sha_256 input plan planned in
      let given = charged_rail is_uuid_v7 sha_256 plan sound r ready in
      let a = hold is_uuid_v7 sha_256 plan sound r ready in
      (
        given,
        a,
        runs r w input plan planned
            ∙ ap ok (
                pays (stub_rail is_uuid_v7) submit w plan input.handoff input.idempotency_key r _
                  given a (authorizes is_uuid_v7 sha_256 plan sound r ready) c _ sent
                  (captures is_uuid_v7 sha_256 plan sound r ready)),
        rw
            (lookup_inserted (held is_uuid_v7 sha_256 plan sound r ready).states a.id (record {
              status = captured;
              amount = plan.amount;
              method_token = plan.method_token;
            }))
            refl,
        runs given v input plan planned
            ∙ ap ok (
                pays (stub_rail is_uuid_v7) submit v plan input.handoff input.idempotency_key given
                  given given a (authorizes_charged is_uuid_v7 sha_256 plan sound r ready) d _
                  sent_again (captures_charged is_uuid_v7 sha_256 plan sound r ready)),
      )

  -- On the in-memory rail, where no failure is injected and the plan's keys are new: if the submission
  -- throws, the outcome says that the hold was released; the same submission again, if it is confirmed
  -- this time, ends with a failed capture, since its authorization is the one that was released.
  pub retry_after_void-uncharged :
      (r : Rail) (w v : W) (input : SubmitWithPaymentInput H) (plan : PaymentPlan) (x : X) (c : C)
      → payment_plan is_uuid_v7 sha_256 input ≡ ok plan
      → IsReady r plan
      → (submit w input.handoff input.idempotency_key).1 ≡ err x
      → (submit v input.handoff input.idempotency_key).1 ≡ ok c
      → (after : Rail) × (a : Authorization) × (run r w input
          ≡ ok (
            after,
            (submit w input.handoff input.idempotency_key).0,
            submit_failed_payment_voided a x,
          ))
        × (run after v input
            ≡ ok (
              after,
              (submit v input.handoff input.idempotency_key).0,
              capture_failed c a (already_voided a.id),
            ))
  retry_after_void-uncharged r w v input plan x c planned ready failed sent =
      let sound = payment_plan-IsSoundPlan is_uuid_v7 sha_256 input plan planned in
      let back = released_rail is_uuid_v7 sha_256 plan sound r ready in
      let a = hold is_uuid_v7 sha_256 plan sound r ready in
      (
        back,
        a,
        runs r w input plan planned
            ∙ ap ok (
                gives_back (stub_rail is_uuid_v7) submit w plan input.handoff input.idempotency_key
                  r _ back a (authorizes is_uuid_v7 sha_256 plan sound r ready) x failed
                  (voids is_uuid_v7 sha_256 plan sound r ready)),
        runs back v input plan planned
            ∙ ap ok (
                fails_to_charge (stub_rail is_uuid_v7) submit v plan input.handoff
                  input.idempotency_key back back back a
                  (authorizes_released is_uuid_v7 sha_256 plan sound r ready) c _ sent
                  (captures_released is_uuid_v7 sha_256 plan sound r ready)),
      )
