-- ===== src/Checkout/Execute.antt =====
-- `BuyOneProductRuntime` of executor.ts. The phases of `execute` after the payment are functions of
-- their own, in the order of the source: `charge`, `record_sale`, `commit`.
use allas_code_blueprint.Prelude.{ℕ, suc, String, none, some, List, [], ◌∷◌, ◌++◌}
use allas_code_blueprint.Prelude.Dict.{get, put, delete}
use allas_code_blueprint.Checkout.{
  InternalResult, ok, err, ProductRecord, StockReservation, PaymentAuthorization,
  BuyOneProductInput, BuyOneProductOutput, TraceContext, RuntimeEvent, BuyOneProductState,
  AuthorizeInput, PaymentCapability,
}
use allas_code_blueprint.Checkout.Steps.{
  resolve_product, AuthoritativePrice, resolve_authoritative_price, reserve_one_stock_unit,
  release_stock_reservation, register_sale, commit_stock_reservation,
}

-- The n-th `randomUUID()` and the n-th reading of the clock.
pub record Environment : Type 0 where
  pub uuid : ℕ → String
  pub now : ℕ → String

-- The executor's state, the provider's state, the events emitted, and the UUIDs drawn so far.
pub record World (P : Type 0) : Type 0 where
  pub state : BuyOneProductState
  pub pay : P
  pub events : List RuntimeEvent
  pub draws : ℕ

abbrev pub status_label : InternalResult BuyOneProductOutput → String
status_label (ok v) = "CheckoutAgent.BuyOneProduct.Ok"
status_label (err e) = "CheckoutAgent.BuyOneProduct.Error"

abbrev pub Outcome : Type 0 → Type 0
Outcome P = InternalResult BuyOneProductOutput × World P

abbrev pub request : BuyOneProductInput → TraceContext → AuthoritativePrice → AuthorizeInput
request input trace price = record {
  trace_id = trace.trace_id;
  amount = price.amount;
  currency = price.currency;
  payment_method = input.payment_method;
  idempotency_key = input.idempotency_key;
}

module _ {P : Type 0} where
  -- Compensation: undo the reservation.
  abbrev pub unreserve : StockReservation → World P → World P
  unreserve reservation w = record w { state = (release_stock_reservation w.state reservation).1 }

  abbrev pub forget_sale : BuyOneProductOutput → World P → World P
  forget_sale sale w = record w {
    state = record w.state { sales = delete sale.sale_id w.state.sales };
  }

  abbrev pub remember : BuyOneProductInput → BuyOneProductOutput → World P → World P
  remember input sale w = record w {
    state = record w.state { idempotency = put input.idempotency_key sale w.state.idempotency };
  }

module _ (env : Environment) where
  abbrev pub event_of : ℕ → TraceContext → InternalResult BuyOneProductOutput → RuntimeEvent
  event_of n trace result = record {
    event_id = env.uuid n;
    trace_id = trace.trace_id;
    causation_id = trace.causation_id;
    canonical_label = status_label result;
    occurred_at = env.now n;
    payload = result;
  }

module _ {P : Type 0} (env : Environment) where
  abbrev pub finish : InternalResult BuyOneProductOutput → TraceContext → World P → Outcome P
  finish result trace w = (
    result,
    record w { events = w.events ++ event_of env w.draws trace result ∷ []; draws = suc w.draws },
  )

module _ {P : Type 0} (env : Environment) (payments : PaymentCapability P) where
  abbrev pub refund : PaymentAuthorization → World P → World P
  refund payment w = record w { pay = (payments.release payment w.pay).1 }

  -- From `commitStockReservation` on.
  unfoldable pub commit :
      BuyOneProductInput
      → TraceContext
      → StockReservation
      → PaymentAuthorization
      → BuyOneProductOutput
      → World P
      → Outcome P
  commit input trace reservation payment sale w =
      let (committed, state) = commit_stock_reservation w.state trace reservation in
      let next = record w { state = state } in
      elim committed [
        | err e ↦
            finish env (err e) trace
              (unreserve reservation (refund payment (forget_sale sale next)))
        | ok _ ↦ finish env (ok sale) trace (remember input sale next)
      ]

  -- From `registerSale` on.
  unfoldable pub record_sale :
      BuyOneProductInput
      → TraceContext
      → ProductRecord
      → StockReservation
      → PaymentAuthorization
      → World P
      → Outcome P
  record_sale input trace product reservation payment w =
      let (sold, state) = register_sale (env.uuid w.draws) w.state trace input product payment in
      let next = record w { state = state; draws = suc w.draws } in
      elim sold [
        | err e ↦ finish env (err e) trace (unreserve reservation (refund payment next))
        | ok sale ↦ commit input trace reservation payment sale next
      ]

  -- From `payments.authorize` on.
  unfoldable pub charge :
      BuyOneProductInput
      → TraceContext
      → AuthoritativePrice
      → StockReservation
      → World P
      → Outcome P
  charge input trace price reservation w =
      let (paid, pay) = payments.authorize (request input trace price) w.pay in
      elim paid [
        | err e ↦ finish env (err e) trace (unreserve reservation (record w { pay = pay }))
        | ok payment ↦ record_sale input trace price.product reservation payment (record w {
          pay = pay;
          state = record w.state { payments = put payment.payment_id payment w.state.payments };
        })
      ]

  -- From `reserveOneStockUnit` on.
  unfoldable pub reserve :
      BuyOneProductInput → TraceContext → AuthoritativePrice → World P → Outcome P
  reserve input trace price w =
      let (reserved, state) = reserve_one_stock_unit w.state trace price.product in
      let next = record w { state = state } in
      elim reserved [
        | err e ↦ finish env (err e) trace next
        | ok reservation ↦ charge input trace price reservation next
      ]

  unfoldable pub purchase : BuyOneProductInput → TraceContext → World P → Outcome P
  purchase input trace w = elim (resolve_product w.state input.product_ref) [
    | err e ↦ finish env (err e) trace w
    | ok product ↦ elim (resolve_authoritative_price product) [
      | err e ↦ finish env (err e) trace w
      | ok price ↦ reserve input trace price w
    ]
  ]

  unfoldable pub execute : BuyOneProductInput → TraceContext → World P → Outcome P
  execute input trace w = elim (get input.idempotency_key w.state.idempotency) [
    | some prior ↦ finish env (ok prior) trace w
    | none ↦ purchase input trace w
  ]
