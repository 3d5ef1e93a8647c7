-- ===== src/Flow/Payment/Plans.antt =====
-- The plan of a submission with a payment: its amount and its keys pass the rail's checks.
use formspec_web.Common.{
  ℕ, String, ◌≡◌, Bool, true, false, not, ◌&&◌, throw_if, Option, none, some, List, ok, str_eq,
  arith, inl, inr, Option-cases, Bool-cases, >>=-eq-ok, >>-eq-ok,
}
use mathlib.Core.Path.{subst}
use formspec_web.Js.{Value, int, pos, negsuc, str, prop, is_object, is_non_empty_string}
use formspec_web.Policy.FeatureKeys.{has_key, payment}
use formspec_web.Policy.MultiParty.{text_of}
use formspec_web.Adapters.PaymentRail.{Money, money_error}
use formspec_web.Shared.IdempotencyKey.{assert_uuid_v7_idempotency_key, derive_uuid_v7_from_string}
use formspec_web.Flow.Payment.{
  is_natural, extract_payment_amount, SubmitWithPaymentInput, PaymentPlan, payment_plan,
  resolve_rail_key, read_method_token, amount_of,
}

natural_amount :
    (v : Value) (c : String)
    → is_natural v ≡ true
    → str_eq c "" ≡ false
    → money_error (record { amount_minor_units = v; currency = c }) ≡ none
unfolding money_error
natural_amount (int (pos n)) c h k = ground (arith, k)
natural_amount (int (negsuc n)) c h k = cc
natural_amount _ c h k = cc

text_of_non_empty : (v : Value) → is_non_empty_string v ≡ true → str_eq (text_of v) "" ≡ false
text_of_non_empty (str s) h = ground (arith, h)
text_of_non_empty _ h = cc

-- The tests of an amount block.
abbrev reads : Value → Bool
reads raw =
    is_object raw
    && is_natural (prop raw "amountMinorUnits")
    && is_non_empty_string (prop raw "currency")

extract_payment_amount-money_error :
    (definition : Value) (money : Money)
    → extract_payment_amount definition ≡ some money
    → money_error money ≡ none
unfolding extract_payment_amount
extract_payment_amount-money_error definition money h =
    let raw = prop (prop definition "extensions") "x-formspec-payment-amount" in
    elim (Bool-cases (reads raw)) [
      | inr bad ↦ ground (arith, bad)
      | inl good ↦
          let natural : is_natural (prop raw "amountMinorUnits") ≡ true = ground (arith, good) in
          let named : is_non_empty_string (prop raw "currency") ≡ true = ground (arith, good) in
          let same : record {
            amount_minor_units = prop raw "amountMinorUnits";
            currency = text_of (prop raw "currency");
          }
              ≡ money =
            ground (arith, good) in
          subst (λ m. money_error m ≡ none) same
            (natural_amount _ _ natural (text_of_non_empty (prop raw "currency") named))
    ]

module _ (is_uuid_v7 : String → Bool) (sha_256 : Option (String → List ℕ)) where
  resolve_rail_key-valid :
      (given : Option String) (base suffix key : String)
      → resolve_rail_key is_uuid_v7 sha_256 given base suffix ≡ ok key
      → is_uuid_v7 key ≡ true
  unfolding resolve_rail_key derive_uuid_v7_from_string assert_uuid_v7_idempotency_key
  resolve_rail_key-valid none base suffix key h = ground arith
  resolve_rail_key-valid (some given) base suffix key h = ground arith

  -- The rail takes the plan's amount and keys.
  pub record IsSoundPlan (plan : PaymentPlan) : Type 0 where
    pub well_formed : money_error plan.amount ≡ none
    pub authorize_valid : is_uuid_v7 plan.authorize_key ≡ true
    pub capture_valid : is_uuid_v7 plan.capture_key ≡ true
    pub void_valid : is_uuid_v7 plan.void_key ≡ true

  amount_of-money_error :
      (definition : Value) (money : Money)
      → amount_of definition ≡ ok money
      → money_error money ≡ none
  amount_of-money_error definition money h =
      elim (Option-cases (extract_payment_amount definition)) [
        | inl e ↦ ground (arith, e)
        | inr (m, e) ↦ extract_payment_amount-money_error definition money (ground (arith, e))
      ]

  pub payment_plan-IsSoundPlan :
      {H : Type 0} (input : SubmitWithPaymentInput H) (plan : PaymentPlan)
      → payment_plan is_uuid_v7 sha_256 input ≡ ok plan
      → IsSoundPlan plan
  unfolding payment_plan
  payment_plan-IsSoundPlan input plan h =
      let (enabled, h₁) =
        >>-eq-ok (throw_if (not (has_key input.runtime_profile.enabled payment)) _) _ h in
      let (amount, at_amount, h₂) = >>=-eq-ok (amount_of input.definition) _ h₁ in
      let (token, at_token, h₃) = >>=-eq-ok (read_method_token input) _ h₂ in
      let (first, at_first, h₄) =
        >>=-eq-ok
          (resolve_rail_key is_uuid_v7 sha_256 input.authorize_key input.idempotency_key
            "authorize")
          _ h₃ in
      let (second, at_second, h₅) =
        >>=-eq-ok
          (resolve_rail_key is_uuid_v7 sha_256 input.capture_key input.idempotency_key "capture") _
          h₄ in
      let (third, at_third, h₆) =
        >>=-eq-ok (resolve_rail_key is_uuid_v7 sha_256 input.void_key input.idempotency_key "void")
          _ h₅ in
      let same : record {
        amount = amount;
        method_token = token;
        authorize_key = first;
        capture_key = second;
        void_key = third;
      }
          ≡ plan =
        cc in
      subst IsSoundPlan same (record {
        well_formed = amount_of-money_error input.definition amount at_amount;
        authorize_valid = resolve_rail_key-valid input.authorize_key _ _ first at_first;
        capture_valid = resolve_rail_key-valid input.capture_key _ _ second at_second;
        void_valid = resolve_rail_key-valid input.void_key _ _ third at_third;
      })
