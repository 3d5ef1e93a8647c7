-- ===== src/Tests/Flow.antt =====
-- Theorems on the respondent's flow: an embedded form, a form with assurance levels, a fee.
use formspec_web.Common.{
  Option, ℕ, zero, suc, String, ◌≡◌, refl, ◌↔◌, true, false, ◌&&◌, ◌||◌, some, List, [], ◌∷◌,
  Result, ok, err, done, includes, arith, str_eq,
}
use formspec_web.Js.{Value, undefined, int, pos, str, arr, obj, nil, cons, end, field, get}
use formspec_web.Policy.FeatureKeys.{RuntimeFeatureKey, embed, payment, offline_submit, has_key}
use formspec_web.Policy.Shapes.{production, ResolvedRuntimeProfile}
use formspec_web.Policy.Validate.{ResolveInput}
use formspec_web.Policy.Resolver.{resolve_runtime_features}
use formspec_web.Flow.Identity.{
  l2, l3, IdentityClaim, IdpOption, form_assurance_floor_for_definition,
  identity_claim_meets_assurance, optional_object, optional_assurance_level, optional_string,
  floor_of_block, higher,
}
use formspec_web.Flow.Identity.Assurance.{declared_level, meets-form_assurance_floor}
use formspec_web.Flow.Embed.{EmbedTransport, allowed_origins, verify_embed_origin_allowed}
use formspec_web.Flow.Embed.Allowed.{verify_embed_origin_allowed_iff}
use formspec_web.Shared.IdempotencyKey.{
  hex_digit, assert_uuid_v7_idempotency_key, derive_uuid_v7_from_string,
}
use formspec_web.Shared.IdempotencyKey.Shape.{fits, uuid_v7_text, derive_uuid_v7-fits}
use formspec_web.Adapters.PaymentRail.{Rail, initial, receipt_of, Authorization, already_voided}
use formspec_web.Adapters.PaymentRail.Settled.{IsSound}
use formspec_web.Adapters.PaymentRail.Reachable.{start, Reachable-IsSound}
use formspec_web.Adapters.OfflineSubmitQueue.{enqueue, replay}
use formspec_web.Adapters.OfflineSubmitQueue.Replay.{queue_of, drain}
use formspec_web.Flow.Payment.{
  SubmitWithPaymentInput, PaymentPlan, payment_plan, extract_payment_amount, read_method_token,
  resolve_rail_key, submitted_with_payment, submit_failed_payment_voided, capture_failed,
  submit_or_queue, queued,
}
use formspec_web.Flow.Payment.Charges.{RailContract, submit_with_payment-charges}
use formspec_web.Flow.Payment.Demo.{stub_rail, is_charged, stub_contract}
use formspec_web.Flow.Payment.Retry.{
  IsReady, run, submit_with_payment-pays_once, retry_after_void-uncharged,
}
use formspec_web.Flow.Payment.Queued.{entry_of, submit_or_queue-replay}
use formspec_web.Tests.Samples.{origins}
use formspec_web.Tests.Policy.{resolver}
use formspec_web.Tests.Rail.{is_key}

abbrev kiosk : RuntimeFeatureKey → String
kiosk embed = "available"
kiosk payment = "available"
kiosk offline_submit = "available"
kiosk _ = "unavailable"

abbrev kiosk_input : ResolveInput
kiosk_input = record {
  mode = production;
  instance_of = kiosk;
  org_policy = record {
    features =
        ("embed", some "required")
        ∷ ("payment", some "required")
        ∷ ("offlineSubmit", some "required")
        ∷ [];
    limits = obj (
        field "embed" (obj (field "allowedOrigins" (arr (cons (str "https://a.example") nil)) end))
          end);
    record_lifecycle = undefined;
  };
  form_policy = record { features = []; limits = undefined; record_lifecycle = undefined };
}

kiosk_profile : (p : ResolvedRuntimeProfile) × (resolve_runtime_features origins kiosk_input ≡ ok p)
unfolding resolver
kiosk_profile = (_, refl)

kiosk_on :
    (has_key kiosk_profile.0.enabled embed ≡ true)
    × (has_key kiosk_profile.0.enabled payment ≡ true)
    × (has_key kiosk_profile.0.enabled offline_submit ≡ true)
unfolding resolver kiosk_profile
kiosk_on = (refl, refl, refl)

abbrev in_a_frame : EmbedTransport
in_a_frame = record { is_embedded = true; host_origin = some "https://a.example" }

verify_embed_origin_allowed_iff_example :
    (verify_embed_origin_allowed origins kiosk_profile.0 kiosk_input.org_policy in_a_frame ≡ done)
    ↔ ((host : String) × (origin : String) × (some "https://a.example" ≡ some host)
        × (origins host ≡ some origin)
        × ((includes (allowed_origins kiosk_input.org_policy) "*"
              || includes (allowed_origins kiosk_input.org_policy) origin)
            ≡ true))
verify_embed_origin_allowed_iff_example =
    verify_embed_origin_allowed_iff origins kiosk_input kiosk_profile.0 kiosk_profile.1 in_a_frame
      kiosk_on.0 refl

abbrev levels : Value
levels = obj (
    field "metadata"
      (obj (field "assurance" (obj (field "ial" (str "L2") (field "aal" (str "L3") end))) end)) end)

levels_floor : form_assurance_floor_for_definition levels ≡ ok (some l3)
unfolding form_assurance_floor_for_definition optional_object optional_assurance_level
    optional_string floor_of_block higher get
levels_floor = refl

abbrev signer : IdentityClaim
signer = record { subject_ref = "subject:1"; assurance_level = l2 }

meets-form_assurance_floor_example : identity_claim_meets_assurance (some signer) (some l3) ≡ (
    identity_claim_meets_assurance (some signer) (declared_level levels "ial")
    && identity_claim_meets_assurance (some signer) (declared_level levels "aal"))
meets-form_assurance_floor_example =
    meets-form_assurance_floor levels (some signer) (some l3) levels_floor

abbrev providers : List IdpOption
providers =
    record { kind = "anonymous"; min_assurance = l2 }
    ∷ record { kind = "oidc"; min_assurance = l3 }
    ∷ []

-- A digest of two bytes, and a check that takes every key of the form.
abbrev two_bytes : String → List ℕ
two_bytes s = 0xab ∷ 0xcd ∷ []

abbrev constant_digest : Option (String → List ℕ)
constant_digest = some two_bytes

derive_uuid_v7-fits_example :
    (key : String) × (derive_uuid_v7_from_string (fits uuid_v7_text) constant_digest "k" "capture"
      ≡ ok key)
    × (fits uuid_v7_text key ≡ true)
derive_uuid_v7-fits_example =
    derive_uuid_v7-fits (fits uuid_v7_text) two_bytes "k" "capture" (λ s h. h)
      (λ s. (omega arith, (omega arith, tt)))

derived_capture :
    derive_uuid_v7_from_string (λ s. true) constant_digest "k" "capture"
    ≡ ok "abcd0000-0000-7000-8000-000000000000"
unfolding derive_uuid_v7_from_string assert_uuid_v7_idempotency_key hex_digit
derived_capture = refl

-- A fee of 12.50, with keys of the caller's.
abbrev fee_form : Value
fee_form = obj (
    field "extensions"
      (obj (
        field "x-formspec-payment-amount"
          (obj (field "amountMinorUnits" (int (pos 1250)) (field "currency" (str "USD") end))) end))
      end)

abbrev fee_input : SubmitWithPaymentInput String
fee_input = record {
  runtime_profile = kiosk_profile.0;
  definition = fee_form;
  handoff = "response";
  idempotency_key = "k";
  method_token = some "pm_card";
  authorize_key = some "hold";
  capture_key = some "charge";
  void_key = some "release";
}

abbrev fee_plan : PaymentPlan
fee_plan = record {
  amount = record { amount_minor_units = int (pos 1250); currency = "USD" };
  method_token = "pm_card";
  authorize_key = "hold";
  capture_key = "charge";
  void_key = "release";
}

fee_planned : payment_plan is_key constant_digest fee_input ≡ ok fee_plan
unfolding payment_plan extract_payment_amount read_method_token resolve_rail_key
    assert_uuid_v7_idempotency_key resolver kiosk_profile get
fee_planned = refl

fee-IsReady : IsReady (initial "Card") fee_plan
fee-IsReady = record {
  authorizes = refl;
  captures = refl;
  voids = refl;
  new_authorization = refl;
  new_capture = refl;
  new_void = refl;
}

-- A transport that fails on its first attempt.
abbrev second_time : ℕ → String → String → ℕ × Result String String
second_time zero handoff key = (1, err "offline")
second_time (suc n) handoff key = (suc n, ok key)

submit_with_payment-pays_once_example :
    (after : Rail) × (a : Authorization) × (run is_key constant_digest second_time
        (initial "Card")
        1
        fee_input
      ≡ ok (after, 1, submitted_with_payment "k" (receipt_of is_key a)))
    × (is_charged after a.id ≡ true)
    × (run is_key constant_digest second_time after 1 fee_input
        ≡ ok (after, 1, submitted_with_payment "k" (receipt_of is_key a)))
submit_with_payment-pays_once_example =
    submit_with_payment-pays_once is_key constant_digest second_time (initial "Card") 1 1 fee_input
      fee_plan "k" "k" fee_planned fee-IsReady refl refl

retry_after_void-uncharged_example :
    (after : Rail) × (a : Authorization) × (run is_key constant_digest second_time
        (initial "Card")
        0
        fee_input
      ≡ ok (after, 1, submit_failed_payment_voided a "offline"))
    × (run is_key constant_digest second_time after 1 fee_input
        ≡ ok (after, 1, capture_failed "k" a (already_voided a.id)))
retry_after_void-uncharged_example =
    retry_after_void-uncharged is_key constant_digest second_time (initial "Card") 0 1 fee_input
      fee_plan "offline" "k" fee_planned fee-IsReady refl refl

abbrev paid_run :
    (after : Rail) × (a : Authorization) × (run is_key constant_digest second_time
        (initial "Card")
        1
        fee_input
      ≡ ok (after, 1, submitted_with_payment "k" (receipt_of is_key a)))
    × (is_charged after a.id ≡ true)
    × (run is_key constant_digest second_time after 1 fee_input
        ≡ ok (after, 1, submitted_with_payment "k" (receipt_of is_key a)))
paid_run =
    submit_with_payment-pays_once is_key constant_digest second_time (initial "Card") 1 1 fee_input
      fee_plan "k" "k" fee_planned fee-IsReady refl refl

abbrev demo_contract : RailContract (stub_rail is_key)
demo_contract = stub_contract is_key

submit_with_payment-charges_example :
    IsSound is_key paid_run.0
    × ((id : String)
        → is_charged paid_run.0 id ≡ (is_charged (initial "Card") id || str_eq paid_run.1.id id))
submit_with_payment-charges_example =
    submit_with_payment-charges is_key constant_digest (stub_rail is_key) demo_contract second_time
      (initial "Card") paid_run.0 1 1 fee_input
      (submitted_with_payment "k" (receipt_of is_key paid_run.1))
      (Reachable-IsSound is_key (initial "Card") (start "Card")) paid_run.2

submit_or_queue-replay_example :
    (submit_or_queue
        (λ q h k. enqueue is_key q h k "now")
        second_time
        (queue_of (entry_of "earlier" "j" "then" ∷ []))
        0
        false
        kiosk_profile.0
        "response"
        "k"
      ≡ (
        queue_of (entry_of "earlier" "j" "then" ∷ entry_of "response" "k" "now" ∷ []),
        0,
        ok (queued (entry_of "response" "k" "now")),
      ))
    × (replay second_time 0
          (queue_of (entry_of "earlier" "j" "then" ∷ entry_of "response" "k" "now" ∷ []))
        ≡ (let (last, kept, outcomes) =
              drain second_time 0
                (entry_of "earlier" "j" "then" ∷ entry_of "response" "k" "now" ∷ []) in
            (last, queue_of kept, outcomes)))
submit_or_queue-replay_example =
    submit_or_queue-replay is_key second_time (entry_of "earlier" "j" "then" ∷ []) 0 0
      kiosk_profile.0 "response" "k" "now" (refl, tt) kiosk_on.2 refl refl
