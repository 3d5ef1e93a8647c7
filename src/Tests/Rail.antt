-- ===== src/Tests/Rail.antt =====
-- Theorems on the payment rail, at a payment that is authorized and captured.
use formspec_web.Common.{decimal, String, ◌≡◌, refl, Bool, not, ok, str_eq}
use formspec_web.Js.{int, pos}
use formspec_web.Adapters.PaymentRail.{
  stub_auth_id, Money, Authorization, CaptureReceipt, Rail, initial, money_error, authorize,
  capture,
}
use formspec_web.Adapters.PaymentRail.Settled.{IsSound}
use formspec_web.Adapters.PaymentRail.Reachable.{start, authorizing, capturing, Reachable-IsSound}

abbrev pub is_key : String → Bool
is_key k = not (str_eq k "")

abbrev fee : Money
fee = record { amount_minor_units = int (pos 1250); currency = "USD" }

abbrev held : Authorization
held = record { id = stub_auth_id 1; amount = fee; rail_label = "Card" }

abbrev after_hold : Rail
after_hold = (authorize is_key (initial "Card") fee "pm_card" "hold").0

abbrev after_charge : Rail
after_charge = (capture is_key after_hold held "charge").0

Reachable-IsSound_example : IsSound is_key after_charge
Reachable-IsSound_example = Reachable-IsSound is_key after_charge (
    capturing after_hold held "charge"
      (authorizing (initial "Card") fee "pm_card" "hold" (start "Card")))

charged : (c : CaptureReceipt) × (capture is_key after_hold held "charge" ≡ (after_charge, ok c))
unfolding authorize capture money_error stub_auth_id decimal
charged = (_, refl)

authorized_once : authorize is_key (initial "Card") fee "pm_card" "hold" ≡ (after_hold, ok held)
unfolding authorize money_error
authorized_once = refl
