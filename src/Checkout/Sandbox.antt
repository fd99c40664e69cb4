-- ===== src/Checkout/Sandbox.antt =====
-- use-cases/buy-one-product/runtime/sandbox.ts: the payment capability of the sandbox, and the
-- state of its demonstration shop.
use allas_code_blueprint.Prelude.{
  ◌<>◌, ℕ, suc, String, Bool, true, false, not, ◌&&◌, none, some, [], ◌∷◌, ◌==◌, or_else, find,
  if◌then◌else◌,
}
use allas_code_blueprint.Prelude.Int.{pos, eq_ℤ}
use allas_code_blueprint.Prelude.Dict.{Dict, get, put, values}
use allas_code_blueprint.Checkout.{
  InternalResult, ok, brl, PaymentAuthorization, AuthorizeInput, PaymentCapability,
  BuyOneProductState,
}
use allas_code_blueprint.Checkout.Steps.{fail}

pub record Sandbox : Type 0 where
  pub authorizations : Dict PaymentAuthorization
  pub fail_next_authorization : Bool
  pub draws : ℕ

abbrev pub same_request : AuthorizeInput → PaymentAuthorization → Bool
same_request input value =
    (value.trace_id == input.trace_id) && eq_ℤ value.amount input.amount && not value.released

module _ (uuid : ℕ → String) where
  unfoldable pub authorize :
      AuthorizeInput → Sandbox → InternalResult PaymentAuthorization × Sandbox
  unfolding values
  authorize input s =
      if s.fail_next_authorization
      then (
        fail "PAYMENT_DECLINED" "Sandbox payment declined",
        record s { fail_next_authorization = false },
      )
      else elim (find (same_request input) (values s.authorizations)) [
        | some existing ↦ (ok existing, s)
        | none ↦
            let authorization : PaymentAuthorization = record {
              payment_id = "pay-" <> uuid s.draws;
              trace_id = input.trace_id;
              amount = input.amount;
              currency = input.currency;
              released = false;
            } in
            (
              ok authorization,
              record s {
                authorizations = put authorization.payment_id authorization s.authorizations;
                draws = suc s.draws;
              },
            )
      ]

  unfoldable pub release :
      PaymentAuthorization → Sandbox → InternalResult PaymentAuthorization × Sandbox
  release input s =
      let current = or_else (get input.payment_id s.authorizations) input in
      let released = record current { released = true } in
      (ok released, record s { authorizations = put released.payment_id released s.authorizations })

  abbrev pub sandbox_payments : PaymentCapability Sandbox
  unfolding authorize release
  sandbox_payments = record { authorize = authorize; release = release }

-- `createState()`: 24.90 BRL is 2490 hundredths.
abbrev pub create_state : BuyOneProductState
create_state = record {
  products =
      (
        "coffee-500g",
        record {
          product_id = "coffee-500g";
          aliases = "cafe 500g" ∷ "café 500g" ∷ "coffee" ∷ [];
          active = true;
          unit_price = pos 2490;
          currency = brl;
        },
      )
      ∷ [];
  stock = ("coffee-500g", pos 3) ∷ [];
  reservations = [];
  payments = [];
  sales = [];
  idempotency = [];
}
