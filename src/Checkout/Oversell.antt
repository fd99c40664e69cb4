-- ===== src/Checkout/Oversell.antt =====
-- A second order of the trace of an earlier sale.
use allas_code_blueprint.Prelude.{
  String, ◌≡◌, refl, ap, ◌∙◌, true, false, none, some, arith, eq_iff,
}
use allas_code_blueprint.Prelude.Dict.{get, put, get-put_self}
use allas_code_blueprint.Checkout.{
  ok, ProductRecord, StockReservation, PaymentAuthorization, BuyOneProductInput,
  BuyOneProductOutput, TraceContext, BuyOneProductState, PaymentCapability,
}
use allas_code_blueprint.Checkout.Steps.{
  resolve_product, AuthoritativePrice, resolve_authoritative_price, reserve_one_stock_unit,
  register_sale, commit_stock_reservation, reservation_key, output_of, sale_of, new_sale_id,
}
use allas_code_blueprint.Checkout.Execute.{
  Environment, World, Outcome, request, commit, record_sale, charge, reserve, purchase, execute,
}
use allas_code_blueprint.Checkout.Sells.{entry_of, price_ok}

-- The trace has already sold its unit of the product.
pub record HasCommitted (trace : TraceContext) (product : ProductRecord) (s : BuyOneProductState)
    (r : StockReservation) : Type 0 where
  pub found : get (reservation_key trace product) s.reservations ≡ some r
  pub id : r.reservation_id ≡ reservation_key trace product
  pub trace_id : r.trace_id ≡ trace.trace_id
  pub committed : r.committed ≡ true
  pub released : r.released ≡ false

module _ {P : Type 0} (env : Environment) (payments : PaymentCapability P)
    (input : BuyOneProductInput) (trace : TraceContext) (product : ProductRecord)
    (r : StockReservation) where
  reserve_again :
      (s : BuyOneProductState)
      → HasCommitted trace product s r
      → reserve_one_stock_unit s trace product ≡ (ok r, s)
  unfolding reserve_one_stock_unit
  reserve_again s h = rw (h.found, reserve_one_stock_unit, h.released) refl

  commit_again :
      (s : BuyOneProductState)
      → HasCommitted trace product s r
      → commit_stock_reservation s trace r ≡ (ok r, s)
  unfolding commit_stock_reservation
  commit_again s h =
      let found : get r.reservation_id s.reservations ≡ some r =
        ap (λ k. get k s.reservations) h.id ∙ h.found in
      rw (found, commit_stock_reservation)
        (ground (arith, h.released, h.committed, h.trace_id, eq_iff r.trace_id trace.trace_id))

  register_again :
      (id : String) (s : BuyOneProductState) (payment : PaymentAuthorization)
      → get input.idempotency_key s.idempotency ≡ none
      → payment.trace_id ≡ trace.trace_id
      → payment.released ≡ false
      → register_sale id s trace input product payment ≡ (
        ok (output_of (new_sale_id id) product payment),
        record s {
          sales =
              put (new_sale_id id) (sale_of (new_sale_id id) trace input product payment) s.sales;
        },
      )
  unfolding register_sale
  register_again id s payment new t q = ground (arith, eq_iff payment.trace_id trace.trace_id)

  -- A sale is recorded and the stock is still that of `s`.
  abbrev SellsFree : BuyOneProductState → Outcome P → Type 0
  SellsFree s (result, after) =
      (v : BuyOneProductOutput) × (result ≡ ok v)
      × (get v.sale_id after.state.sales ≡ some (entry_of trace input v))
      × (after.state.stock ≡ s.stock)

  commit_free :
      (s : BuyOneProductState) (payment : PaymentAuthorization) (sale : BuyOneProductOutput)
      (w : World P)
      → HasCommitted trace product w.state r
      → get sale.sale_id w.state.sales ≡ some (entry_of trace input sale)
      → w.state.stock ≡ s.stock
      → SellsFree s (commit env payments input trace r payment sale w)
  unfolding commit
  commit_free s payment sale w h entry stock =
      let e = commit_again w.state h in rw (e, commit) (rw e (sale, refl, entry, stock))

  record_sale_free :
      (s : BuyOneProductState) (payment : PaymentAuthorization) (w : World P)
      → HasCommitted trace product w.state r
      → get input.idempotency_key w.state.idempotency ≡ none
      → payment.trace_id ≡ trace.trace_id
      → payment.released ≡ false
      → w.state.stock ≡ s.stock
      → SellsFree s (record_sale env payments input trace product r payment w)
  unfolding record_sale
  record_sale_free s payment w h new t q stock =
      let e = register_again (env.uuid w.draws) w.state payment new t q in
      rw (e, record_sale)
        (rw e (
          commit_free s payment _ _
            (record {
              found = h.found;
              id = h.id;
              trace_id = h.trace_id;
              committed = h.committed;
              released = h.released;
            })
            (get-put_self _ _ _) stock))

  -- The code lets one unit be sold twice. Where the reservation of a trace for a product is already
  -- committed, a further order of that trace for the product, which has a valid price, under a new
  -- idempotency key and with a payment that the provider authorizes for the trace and that is not
  -- released, succeeds and records a sale, and takes no unit from
  -- the stock.
  pub execute-sells_without_stock :
      (price : AuthoritativePrice) (payment : PaymentAuthorization) (w : World P)
      → get input.idempotency_key w.state.idempotency ≡ none
      → resolve_product w.state input.product_ref ≡ ok product
      → resolve_authoritative_price product ≡ ok price
      → HasCommitted trace product w.state r
      → (payments.authorize (request input trace price) w.pay).0 ≡ ok payment
      → payment.trace_id ≡ trace.trace_id
      → payment.released ≡ false
      → let (result, after) = execute env payments input trace w in
        (v : BuyOneProductOutput) × (result ≡ ok v)
        × (get v.sale_id after.state.sales ≡ some (entry_of trace input v))
        × (after.state.stock ≡ w.state.stock)
  unfolding execute purchase reserve charge
  execute-sells_without_stock price payment w new found priced h paid t q =
      let same = (price_ok product price priced).0 in
      let e = ap (reserve_one_stock_unit w.state trace) same ∙ reserve_again w.state h in
      rw (new, execute)
        (rw (found, purchase)
          (rw (priced, purchase)
            (rw (e, reserve)
              (rw e (
                rw (paid, charge)
                  (rw same (
                    record_sale_free w.state payment _
                      (record {
                        found = h.found;
                        id = h.id;
                        trace_id = h.trace_id;
                        committed = h.committed;
                        released = h.released;
                      })
                      new t q refl)))))))
