-- ===== src/Checkout/Steps.antt =====
-- The functions of executor.ts over the state: product, price, reservation, sale, commit. Each
-- returns its result and the state that it leaves; `sale_uuid` is what `randomUUID()` returns.
use allas_code_blueprint.Prelude.{
  ◌<>◌, ℕ, String, Bool, true, false, not, ◌&&◌, ◌||◌, none, some, List, [], ◌∷◌, ◌==◌, or_else,
  select, exists, if◌then◌else◌,
}
use allas_code_blueprint.Prelude.Int.{ℤ, pos, ◌-ℤ◌, ltb_ℤ}
use allas_code_blueprint.Prelude.Dict.{get, put, values}
use allas_code_blueprint.Prelude.Text.{codes, to_lower, trim, lower_code, same_codes}
use allas_code_blueprint.Checkout.{
  Currency, InternalResult, ok, err, ProductRecord, StockReservation, PaymentAuthorization,
  SaleRecord, BuyOneProductInput, BuyOneProductOutput, TraceContext, BuyOneProductState,
}

abbrev pub fail : {A : Type 0} → String → String → InternalResult A
fail code message = err (record { code = code; message = message })

unfoldable pub answers_to : List ℕ → ProductRecord → Bool
unfolding same_codes lower_code
answers_to normalized product =
    product.active
    && (same_codes (to_lower (codes product.product_id)) normalized
        || exists (λ alias. same_codes (to_lower (codes alias)) normalized) product.aliases)

abbrev pub exactly_one : List ProductRecord → InternalResult ProductRecord
exactly_one (product ∷ []) = ok product
exactly_one _ =
    fail "PRODUCT_NOT_UNIQUE" "Product reference must resolve to exactly one active product"

unfoldable pub resolve_product : BuyOneProductState → String → InternalResult ProductRecord
unfolding answers_to trim lower_code values
resolve_product state product_ref =
    let normalized = to_lower (trim (codes product_ref)) in
    exactly_one (select (answers_to normalized) (values state.products))

pub record AuthoritativePrice : Type 0 where
  pub product : ProductRecord
  pub amount : ℤ
  pub currency : Currency

unfoldable pub resolve_authoritative_price : ProductRecord → InternalResult AuthoritativePrice
resolve_authoritative_price product =
    if ltb_ℤ product.unit_price (pos 0)
    then fail "INVALID_AUTHORITATIVE_PRICE" "Authoritative price cannot be negative"
    else ok (record { product = product; amount = product.unit_price; currency = product.currency })

abbrev pub available : BuyOneProductState → String → ℤ
available state product_id = or_else (get product_id state.stock) (pos 0)

abbrev pub reservation_key : TraceContext → ProductRecord → String
reservation_key trace product = (trace.trace_id <> ":") <> (product.product_id <> ":1")

abbrev pub reserve_new :
    BuyOneProductState
    → TraceContext
    → ProductRecord
    → InternalResult StockReservation × BuyOneProductState
reserve_new state trace product =
    let reservation : StockReservation = record {
      reservation_id = reservation_key trace product;
      trace_id = trace.trace_id;
      product_id = product.product_id;
      quantity = 1;
      committed = false;
      released = false;
    } in
    if ltb_ℤ (available state product.product_id) (pos 1)
    then (fail "OUT_OF_STOCK" "No stock unit is available", state)
    else (
      ok reservation,
      record state {
        reservations = put (reservation_key trace product) reservation state.reservations;
      },
    )

unfoldable pub reserve_one_stock_unit :
    BuyOneProductState
    → TraceContext
    → ProductRecord
    → InternalResult StockReservation × BuyOneProductState
reserve_one_stock_unit state trace product =
    elim (get (reservation_key trace product) state.reservations) [
      | some existing ↦
          if not existing.released then (ok existing, state) else reserve_new state trace product
      | none ↦ reserve_new state trace product
    ]

unfoldable pub release_stock_reservation :
    BuyOneProductState → StockReservation → InternalResult StockReservation × BuyOneProductState
release_stock_reservation state reservation =
    let released = record reservation { released = true } in
    if reservation.committed
    then (
      fail "RESERVATION_ALREADY_COMMITTED" "Committed stock cannot be released as a reservation",
      state,
    )
    else (
      ok released,
      record state { reservations = put reservation.reservation_id released state.reservations },
    )

abbrev pub sale_of :
    String → TraceContext → BuyOneProductInput → ProductRecord → PaymentAuthorization → SaleRecord
sale_of sale_id trace input product payment = record {
  sale_id = sale_id;
  trace_id = trace.trace_id;
  buyer_id = input.buyer_id;
  product_id = product.product_id;
  quantity = 1;
  amount = payment.amount;
  currency = payment.currency;
  payment_id = payment.payment_id;
}

abbrev pub output_of : String → ProductRecord → PaymentAuthorization → BuyOneProductOutput
output_of sale_id product payment = record {
  sale_id = sale_id;
  product_id = product.product_id;
  quantity = 1;
  amount = payment.amount;
  currency = payment.currency;
  payment_id = payment.payment_id;
}

abbrev pub new_sale_id : String → String
new_sale_id sale_uuid = "sale-" <> sale_uuid

unfoldable pub register_sale :
    String
    → BuyOneProductState
    → TraceContext
    → BuyOneProductInput
    → ProductRecord
    → PaymentAuthorization
    → InternalResult BuyOneProductOutput × BuyOneProductState
register_sale sale_uuid state trace input product payment =
    let sale_id = new_sale_id sale_uuid in
    elim (get input.idempotency_key state.idempotency) [
      | some previous ↦ (ok previous, state)
      | none ↦
          if not (payment.trace_id == trace.trace_id) || payment.released
          then (
            fail "INVALID_PAYMENT_AUTHORIZATION"
                "Sale requires an active payment authorization bound to the same trace",
            state,
          )
          else (
            ok (output_of sale_id product payment),
            record state {
              sales = put sale_id (sale_of sale_id trace input product payment) state.sales;
            },
          )
    ]

abbrev commit_unit :
    BuyOneProductState → StockReservation → InternalResult StockReservation × BuyOneProductState
commit_unit state current =
    let left = available state current.product_id in
    let committed = record current { committed = true } in
    if ltb_ℤ left (pos 1)
    then (fail "STOCK_COMMIT_UNDERFLOW" "Stock cannot become negative", state)
    else (
      ok committed,
      record state {
        stock = put current.product_id (left -ℤ pos 1) state.stock;
        reservations = put current.reservation_id committed state.reservations;
      },
    )

abbrev commit_current :
    BuyOneProductState
    → TraceContext
    → StockReservation
    → InternalResult StockReservation × BuyOneProductState
commit_current state trace current =
    if current.released
    then (fail "INVALID_STOCK_RESERVATION" "Stock reservation is missing or released", state)
    else if not (current.trace_id == trace.trace_id)
    then (fail "RESERVATION_TRACE_MISMATCH" "Reservation belongs to another trace", state)
    else if current.committed
    then (ok current, state)
    else commit_unit state current

unfoldable pub commit_stock_reservation :
    BuyOneProductState
    → TraceContext
    → StockReservation
    → InternalResult StockReservation × BuyOneProductState
commit_stock_reservation state trace reservation =
    elim (get reservation.reservation_id state.reservations) [
      | none ↦ (fail "INVALID_STOCK_RESERVATION" "Stock reservation is missing or released", state)
      | some current ↦ commit_current state trace current
    ]
