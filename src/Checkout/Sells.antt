-- ===== src/Checkout/Sells.antt =====
-- What a successful `execute` does to stock and sales.
use allas_code_blueprint.Prelude.{
  String, ◌≡◌, refl, ap, ◌∙◌, inl, inr, false, none, some, arith, ◌==◌, eq_refl, if◌then◌else◌,
}
use allas_code_blueprint.Prelude.Int.{pos, ◌-ℤ◌, ◌≤ℤ◌}
use allas_code_blueprint.Prelude.Dict.{get, put, get-put, get-put_self}
use allas_code_blueprint.Checkout.{
  ok, err, ProductRecord, StockReservation, PaymentAuthorization, SaleRecord, BuyOneProductInput,
  BuyOneProductOutput, TraceContext, BuyOneProductState, PaymentCapability,
}
use allas_code_blueprint.Checkout.Steps.{
  available, reservation_key, resolve_product, AuthoritativePrice, resolve_authoritative_price,
  reserve_one_stock_unit, register_sale, commit_stock_reservation,
}
use allas_code_blueprint.Checkout.Execute.{
  Environment, World, Outcome, request, commit, record_sale, charge, reserve, purchase, execute,
}
use allas_code_blueprint.Checkout.Rollback.{Result-cases, register_ok}

abbrev pub OnOk {ℓ} : {P : Type 0} → (BuyOneProductOutput → World P → Type ℓ) → Outcome P → Type ℓ
OnOk Q (ok v, w) = Q v w
OnOk Q (err e, w) = Unit

-- The entry of `sales` that belongs to an output.
abbrev pub entry_of : TraceContext → BuyOneProductInput → BuyOneProductOutput → SaleRecord
entry_of trace input v = record {
  sale_id = v.sale_id;
  trace_id = trace.trace_id;
  buyer_id = input.buyer_id;
  product_id = v.product_id;
  quantity = 1;
  amount = v.amount;
  currency = v.currency;
  payment_id = v.payment_id;
}

-- From state `s` to state `t` one unit of the product was sold.
pub record Sold (trace : TraceContext) (input : BuyOneProductInput) (product : ProductRecord)
    (s : BuyOneProductState) (v : BuyOneProductOutput) (t : BuyOneProductState) : Type 0 where
  pub product_id : v.product_id ≡ product.product_id
  pub in_stock : pos 1 ≤ℤ available s product.product_id
  pub stock :
      (j : String)
      → get j t.stock ≡ (
          if product.product_id == j
          then some (available s product.product_id -ℤ pos 1)
          else get j s.stock)
  pub entry : get v.sale_id t.sales ≡ some (entry_of trace input v)
  pub remembered : get input.idempotency_key t.idempotency ≡ some v

abbrev fresh_reservation : TraceContext → ProductRecord → StockReservation
fresh_reservation trace product = record {
  reservation_id = reservation_key trace product;
  trace_id = trace.trace_id;
  product_id = product.product_id;
  quantity = 1;
  committed = false;
  released = false;
}

module _ (trace : TraceContext) (product : ProductRecord) where
  reserve_ok :
      (s : BuyOneProductState) (r : StockReservation)
      → get (reservation_key trace product) s.reservations ≡ none
      → (reserve_one_stock_unit s trace product).0 ≡ ok r
      → (r ≡ fresh_reservation trace product)
        × ((reserve_one_stock_unit s trace product).1
            ≡ record s { reservations = put (reservation_key trace product) r s.reservations })
  unfolding reserve_one_stock_unit
  reserve_ok s r absent e = ground arith

  -- The reservation that was just made commits one unit, or finds none.
  commit_ok :
      (t : BuyOneProductState) (c : StockReservation)
      → get (reservation_key trace product) t.reservations ≡ some (fresh_reservation trace product)
      → (commit_stock_reservation t trace (fresh_reservation trace product)).0 ≡ ok c
      → (pos 1 ≤ℤ available t product.product_id)
        × ((commit_stock_reservation t trace (fresh_reservation trace product)).1.sales ≡ t.sales)
        × ((commit_stock_reservation t trace (fresh_reservation trace product)).1.idempotency
            ≡ t.idempotency)
        × ((commit_stock_reservation t trace (fresh_reservation trace product)).1.stock
            ≡ put product.product_id (available t product.product_id -ℤ pos 1) t.stock)
  unfolding commit_stock_reservation
  commit_ok t c kept e = ground (arith, eq_refl trace.trace_id)

module _ {P : Type 0} (env : Environment) (payments : PaymentCapability P)
    (input : BuyOneProductInput) (trace : TraceContext) (product : ProductRecord)
    (s : BuyOneProductState) where
  abbrev Sells : Outcome P → Type 0
  Sells = OnOk (λ v w. Sold trace input product s v w.state)

  -- What holds of the state once the unit is reserved.
  record Holding (t : BuyOneProductState) : Type 0 where
    stock : t.stock ≡ s.stock
    idempotency : t.idempotency ≡ s.idempotency
    held :
        get (reservation_key trace product) t.reservations ≡ some (fresh_reservation trace product)

  remember-Sold :
      (t u : BuyOneProductState) (sale : BuyOneProductOutput)
      → Holding t
      → sale.product_id ≡ product.product_id
      → get sale.sale_id t.sales ≡ some (entry_of trace input sale)
      → pos 1 ≤ℤ available t product.product_id
      → u.sales ≡ t.sales
      → u.stock ≡ put product.product_id (available t product.product_id -ℤ pos 1) t.stock
      → Sold trace input product s sale
          (record u { idempotency = put input.idempotency_key sale u.idempotency })
  remember-Sold t u sale h p entry enough us ust = record {
    product_id = p;
    in_stock = rw h.stock at enough;
    stock = λ j. rw (ust, h.stock) (get-put _ j _ _);
    entry = ap (get sale.sale_id) us ∙ entry;
    remembered = get-put_self _ _ _;
  }

  commit-Sells :
      (payment : PaymentAuthorization) (sale : BuyOneProductOutput) (w : World P)
      → Holding w.state
      → sale.product_id ≡ product.product_id
      → get sale.sale_id w.state.sales ≡ some (entry_of trace input sale)
      → Sells (commit env payments input trace (fresh_reservation trace product) payment sale w)
  unfolding commit
  commit-Sells payment sale w h p entry =
      elim (Result-cases
        (commit_stock_reservation w.state trace (fresh_reservation trace product)).0) [
          | inr (x, e) ↦ rw (e, commit) tt
          | inl (c, e) ↦
              let (enough, us, _, ust) = commit_ok trace product w.state c h.held e in
              rw (e, commit) (remember-Sold w.state _ sale h p entry enough us ust)
        ]

  record_sale-Sells :
      (payment : PaymentAuthorization) (w : World P)
      → Holding w.state
      → get input.idempotency_key s.idempotency ≡ none
      → Sells
          (record_sale env payments input trace product (fresh_reservation trace product) payment w)
  unfolding record_sale
  record_sale-Sells payment w h new =
      let id = env.uuid w.draws in
      let new' : get input.idempotency_key w.state.idempotency ≡ none =
        ap (get input.idempotency_key) h.idempotency ∙ new in
      elim (Result-cases (register_sale id w.state trace input product payment).0) [
        | inr (x, e) ↦ rw (e, record_sale) tt
        | inl (v, e) ↦
            let (ve, se) = register_ok id w.state trace input product payment v new' e in
            rw (e, record_sale, se)
              (commit-Sells payment v _
                (record { stock = h.stock; idempotency = h.idempotency; held = h.held })
                (ap (λ (o : BuyOneProductOutput). o.product_id) ve) (rw ve (get-put_self _ _ _)))
      ]

  charge-Sells :
      (price : AuthoritativePrice) (w : World P)
      → price.product ≡ product
      → Holding w.state
      → get input.idempotency_key s.idempotency ≡ none
      → Sells (charge env payments input trace price (fresh_reservation trace product) w)
  unfolding charge
  charge-Sells price w same h new =
      elim (Result-cases (payments.authorize (request input trace price) w.pay).0) [
        | inr (x, e) ↦ rw (e, charge) tt
        | inl (v, e) ↦
            rw (e, charge, same)
              (record_sale-Sells v _
                (record { stock = h.stock; idempotency = h.idempotency; held = h.held }) new)
      ]

  reserve-Sells :
      (price : AuthoritativePrice) (w : World P)
      → price.product ≡ product
      → w.state ≡ s
      → get (reservation_key trace product) s.reservations ≡ none
      → get input.idempotency_key s.idempotency ≡ none
      → Sells (reserve env payments input trace price w)
  unfolding reserve
  reserve-Sells price w same start absent new =
      elim (Result-cases (reserve_one_stock_unit w.state trace price.product).0) [
        | inr (x, e) ↦ rw (e, reserve) tt
        | inl (r, e) ↦
            let (re, se) = reserve_ok trace product w.state r (rw start absent) (rw same at e) in
            rw (e, reserve, re)
              (charge-Sells price _ same
                (record {
                  stock = rw (same, se) (ap (λ (t : BuyOneProductState). t.stock) start);
                  idempotency =
                      rw (same, se) (ap (λ (t : BuyOneProductState). t.idempotency) start);
                  held = rw (same, se, re) (get-put_self _ _ _);
                })
                new)
      ]

pub price_ok :
    (product : ProductRecord) (price : AuthoritativePrice)
    → resolve_authoritative_price product ≡ ok price
    → (price.product ≡ product) × (price.amount ≡ product.unit_price)
unfolding resolve_authoritative_price
price_ok product price e = ground arith

module _ {P : Type 0} (env : Environment) (payments : PaymentCapability P) where
  -- An order under a new idempotency key, for a product that its reference resolves to and that the
  -- trace has no reservation of: if it succeeds, the product had at least one unit, exactly one
  -- unit of it and nothing of any other product left the stock, the sale that the result names is
  -- recorded for the buyer and trace with the result's amounts, and the result is remembered under
  -- the key.
  pub execute-sells_one :
      (input : BuyOneProductInput) (trace : TraceContext) (product : ProductRecord) (w : World P)
      → get input.idempotency_key w.state.idempotency ≡ none
      → resolve_product w.state input.product_ref ≡ ok product
      → get (reservation_key trace product) w.state.reservations ≡ none
      → OnOk
          (λ v w'. Sold trace input product w.state v w'.state)
          (execute env payments input trace w)
  unfolding execute purchase
  execute-sells_one input trace product w new found absent =
      rw (new, execute)
        (rw (found, purchase)
          (elim (Result-cases (resolve_authoritative_price product)) [
            | inr (x, p) ↦ rw (p, purchase) tt
            | inl (price, p) ↦
                rw (p, purchase)
                  (reserve-Sells env payments input trace product w.state price w
                    (price_ok product price p).0 refl absent new)
          ]))
