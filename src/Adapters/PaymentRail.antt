-- ===== src/Adapters/PaymentRail.antt =====
-- The in-memory payment rail (src/adapters/stub/payment-rail-adapter.ts). Every operation gives the state
-- after it and its result, since a call that throws may change the state. Whether the uuid
-- package takes a key for a UUIDv7 is a parameter.
pub mod Settled
pub mod Reachable
use Prim.Native.String
use formspec_web.Common.{
  padded, ℕ, suc, String, Bool, true, false, not, Option, none, some, List, [], ◌∷◌, Result, ok,
  err, is_some, includes, lookup, insert, str_eq, if◌then◌else◌,
}
use formspec_web.Js.{Value, int, pos, negsuc}

-- The amount is a JavaScript number.
pub record Money : Type 0 where
  pub amount_minor_units : Value
  pub currency : String

pub record Authorization : Type 0 where
  pub id : String
  pub amount : Money
  pub rail_label : String

-- `settledTransactionId` is "stub-txn-" before the id of the authorization.
pub record CaptureReceipt : Type 0 where
  pub authorization_id : String
  pub amount : Money
  pub settled_transaction_id : String
  pub rail_label : String

pub data StubAuthorizationStatus : Type 0 where
  authorized captured voided : StubAuthorizationStatus

pub record StubAuthorizationState : Type 0 where
  pub status : StubAuthorizationStatus
  pub amount : Money
  pub method_token : String

-- An error, with what its message tells.
pub data RailError : Type 0 where
  key_is_no_uuid_v7 : RailError
  amount_is_no_integer : Value → RailError
  amount_is_negative : Value → RailError
  currency_is_empty : RailError
  unknown_authorization : String → RailError
  already_captured : String → RailError
  already_voided : String → RailError
  captured_use_refund : String → RailError
  injected : String → RailError

-- The variables of the closure.
pub record Rail : Type 0 where
  pub rail_label : String
  pub states : List (String × StubAuthorizationState)
  pub authorizations_by_key : List (String × Authorization)
  pub captures_by_key : List (String × CaptureReceipt)
  pub voids_by_key : List String
  pub next_id : ℕ
  pub pending_authorize_error : Option String
  pub pending_capture_error : Option String
  pub pending_void_error : Option String

abbrev pub Outcome : Type 0 → Type 0
Outcome A = Rail × Result RailError A

-- What assertWellFormedMoney throws of the amount, if anything.
abbrev amount_error : Value → Option RailError
amount_error (int (pos n)) = none
amount_error (int (negsuc n)) = some (amount_is_negative (int (negsuc n)))
amount_error v = some (amount_is_no_integer v)

-- assertWellFormedMoney: the error it throws, if any.
unfoldable pub money_error : Money → Option RailError
money_error money = elim (amount_error money.amount_minor_units) [
  | some error ↦ some error
  | none ↦ if str_eq money.currency "" then some currency_is_empty else none
]

abbrev pub initial : String → Rail
initial rail_label = record {
  rail_label = rail_label;
  states = [];
  authorizations_by_key = [];
  captures_by_key = [];
  voids_by_key = [];
  next_id = 0;
  pending_authorize_error = none;
  pending_capture_error = none;
  pending_void_error = none;
}

-- `stub-auth-${n.toString().padStart(6, '0')}`
unfoldable pub stub_auth_id : ℕ → String
stub_auth_id n = String.◌++◌ "stub-auth-" (padded n)

module _ (is_uuid_v7 : String → Bool) where
  -- A new authorization.
  abbrev pub issue : Rail → Money → String → String → Outcome Authorization
  issue rail amount method_token key =
      let id = stub_auth_id (suc rail.next_id) in
      let authorization : Authorization = record {
        id = id;
        amount = amount;
        rail_label = rail.rail_label;
      } in
      (
        record rail {
          next_id = suc rail.next_id;
          authorizations_by_key = insert rail.authorizations_by_key key authorization;
          states =
              insert rail.states id
                (record { status = authorized; amount = amount; method_token = method_token });
        },
        ok authorization,
      )

  unfoldable pub authorize : Rail → Money → String → String → Outcome Authorization
  authorize rail amount method_token key =
      if not (is_uuid_v7 key) then (rail, err key_is_no_uuid_v7) else elim (money_error amount) [
        | some error ↦ (rail, err error)
        | none ↦ elim (lookup rail.authorizations_by_key key) [
          | some existing ↦ (rail, ok existing)
          | none ↦ elim rail.pending_authorize_error [
            | some error ↦ (record rail { pending_authorize_error = none }, err (injected error))
            | none ↦ issue rail amount method_token key
          ]
        ]
      ]

  abbrev pub receipt_of : Authorization → CaptureReceipt
  receipt_of authorization = record {
    authorization_id = authorization.id;
    amount = authorization.amount;
    settled_transaction_id = String.◌++◌ "stub-txn-" authorization.id;
    rail_label = authorization.rail_label;
  }

  abbrev pub charge : Rail → Authorization → String → StubAuthorizationState → Rail
  charge rail authorization key state = record rail {
    captures_by_key = insert rail.captures_by_key key (receipt_of authorization);
    states = insert rail.states authorization.id (record state { status = captured });
  }

  -- The capture of an authorization that is neither captured nor voided.
  abbrev pub settle :
      Rail → Authorization → String → StubAuthorizationState → Outcome CaptureReceipt
  settle rail authorization key state = elim rail.pending_capture_error [
    | some error ↦ (record rail { pending_capture_error = none }, err (injected error))
    | none ↦ (charge rail authorization key state, ok (receipt_of authorization))
  ]

  unfoldable pub capture : Rail → Authorization → String → Outcome CaptureReceipt
  capture rail authorization key =
      if not (is_uuid_v7 key)
      then (rail, err key_is_no_uuid_v7)
      else elim (lookup rail.captures_by_key key) [
        | some existing ↦ (rail, ok existing)
        | none ↦ elim (lookup rail.states authorization.id) [
          | none ↦ (rail, err (unknown_authorization authorization.id))
          | some state ↦ elim state.status [
            | captured ↦ (rail, err (already_captured authorization.id))
            | voided ↦ (rail, err (already_voided authorization.id))
            | authorized ↦ settle rail authorization key state
          ]
        ]
      ]

  -- The release of an authorization that is not captured.
  abbrev pub release : Rail → Authorization → String → StubAuthorizationState → Outcome (Unit {0})
  release rail authorization key state = elim rail.pending_void_error [
    | some error ↦ (record rail { pending_void_error = none }, err (injected error))
    | none ↦ (
      record rail {
        voids_by_key = key ∷ rail.voids_by_key;
        states = insert rail.states authorization.id (record state { status = voided });
      },
      ok tt,
    )
  ]

  unfoldable pub void_authorization : Rail → Authorization → String → Outcome (Unit {0})
  void_authorization rail authorization key =
      if not (is_uuid_v7 key)
      then (rail, err key_is_no_uuid_v7)
      else if includes rail.voids_by_key key
      then (rail, ok tt)
      else elim (lookup rail.states authorization.id) [
        | none ↦ (record rail { voids_by_key = key ∷ rail.voids_by_key }, ok tt)
        | some state ↦ elim state.status [
          | captured ↦ (rail, err (captured_use_refund authorization.id))
          | voided ↦ release rail authorization key state
          | authorized ↦ release rail authorization key state
        ]
      ]

unfoldable pub fail_next_authorize : Rail → String → Rail
fail_next_authorize rail error = record rail { pending_authorize_error = some error }

unfoldable pub fail_next_capture : Rail → String → Rail
fail_next_capture rail error = record rail { pending_capture_error = some error }

unfoldable pub fail_next_void : Rail → String → Rail
fail_next_void rail error = record rail { pending_void_error = some error }
