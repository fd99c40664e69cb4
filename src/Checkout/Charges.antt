-- ===== src/Checkout/Charges.antt =====
-- The price that a sale charges, against a payment provider that keeps its contract.
use allas_code_blueprint.Prelude.{
  ℕ, String, ◌≡◌, ap, ◌∙◌, inl, inr, false, none, some, List, [], ◌∷◌, arith, eq_iff, find,
}
use allas_code_blueprint.Prelude.Int.{eq_of_parts}
use allas_code_blueprint.Prelude.Dict.{get, values}
use allas_code_blueprint.Checkout.{
  ok, ProductRecord, StockReservation, PaymentAuthorization, BuyOneProductInput,
  BuyOneProductOutput, TraceContext, AuthorizeInput, PaymentCapability,
}
use allas_code_blueprint.Checkout.Steps.{
  resolve_product, AuthoritativePrice, resolve_authoritative_price, reserve_one_stock_unit,
  register_sale, commit_stock_reservation,
}
use allas_code_blueprint.Checkout.Execute.{
  Environment, World, Outcome, request, commit, record_sale, charge, reserve, purchase, execute,
}
use allas_code_blueprint.Checkout.Rollback.{Result-cases, register_ok, reserve-SameShop}
use allas_code_blueprint.Checkout.Sells.{OnOk, price_ok}
use allas_code_blueprint.Checkout.Sandbox.{
  Sandbox, same_request, authorize, release, sandbox_payments,
}

-- An authorization is for the trace and the amount that were asked for, and is not yet released.
pub record IsHonest {P : Type 0} (payments : PaymentCapability P) : Type 0 where
  pub grants :
      (i : AuthorizeInput) (p : P) (a : PaymentAuthorization)
      → (payments.authorize i p).0 ≡ ok a
      → (a.amount ≡ i.amount) × (a.trace_id ≡ i.trace_id) × (a.released ≡ false)

find-same_request :
    (i : AuthorizeInput) (xs : List PaymentAuthorization) (a : PaymentAuthorization)
    → find (same_request i) xs ≡ some a
    → (a.amount ≡ i.amount) × (a.trace_id ≡ i.trace_id) × (a.released ≡ false)
find-same_request i [] a e = cc
find-same_request i (x ∷ xs) a e =
    ground
      (arith, eq_iff x.trace_id i.trace_id, eq_of_parts x.amount i.amount, find-same_request i xs a)

module _ (uuid : ℕ → String) where
  sandbox_grants :
      (i : AuthorizeInput) (p : Sandbox) (a : PaymentAuthorization)
      → (authorize uuid i p).0 ≡ ok a
      → (a.amount ≡ i.amount) × (a.trace_id ≡ i.trace_id) × (a.released ≡ false)
  unfolding authorize
  sandbox_grants i p a e = ground (arith, find-same_request i (values p.authorizations) a)

  -- The sandbox provider authorizes exactly the requested amount for the requested trace, also when
  -- it answers with an authorization that it gave before, and never a released one.
  pub sandbox-IsHonest : IsHonest (sandbox_payments uuid)
  unfolding authorize release
  sandbox-IsHonest = record { grants = sandbox_grants }

module _ {P : Type 0} (env : Environment) (payments : PaymentCapability P)
    (honest : IsHonest payments) (input : BuyOneProductInput) (trace : TraceContext)
    (product : ProductRecord) where
  abbrev Charges : Outcome P → Type 0
  Charges = OnOk (λ v w. v.amount ≡ product.unit_price)

  commit-Charges :
      (r : StockReservation) (payment : PaymentAuthorization) (sale : BuyOneProductOutput)
      (w : World P)
      → sale.amount ≡ product.unit_price
      → Charges (commit env payments input trace r payment sale w)
  unfolding commit
  commit-Charges r payment sale w h =
      elim (Result-cases (commit_stock_reservation w.state trace r).0) [
        | inr (x, e) ↦ rw (e, commit) tt
        | inl (c, e) ↦ rw (e, commit) h
      ]

  record_sale-Charges :
      (r : StockReservation) (payment : PaymentAuthorization) (w : World P)
      → get input.idempotency_key w.state.idempotency ≡ none
      → payment.amount ≡ product.unit_price
      → Charges (record_sale env payments input trace product r payment w)
  unfolding record_sale
  record_sale-Charges r payment w new h =
      let id = env.uuid w.draws in
      elim (Result-cases (register_sale id w.state trace input product payment).0) [
        | inr (x, e) ↦ rw (e, record_sale) tt
        | inl (v, e) ↦
            let (ve, _) = register_ok id w.state trace input product payment v new e in
            rw (e, record_sale)
              (commit-Charges r payment v _ (ap (λ (o : BuyOneProductOutput). o.amount) ve ∙ h))
      ]

  charge-Charges :
      (price : AuthoritativePrice) (r : StockReservation) (w : World P)
      → get input.idempotency_key w.state.idempotency ≡ none
      → (price.product ≡ product) × (price.amount ≡ product.unit_price)
      → Charges (charge env payments input trace price r w)
  unfolding charge
  charge-Charges price r w new (same, amount) =
      elim (Result-cases (payments.authorize (request input trace price) w.pay).0) [
        | inr (x, e) ↦ rw (e, charge) tt
        | inl (v, e) ↦
            let (granted, _, _) = honest.grants (request input trace price) w.pay v e in
            rw (e, charge, same) (record_sale-Charges r v _ new (granted ∙ amount))
      ]

  reserve-Charges :
      (price : AuthoritativePrice) (w : World P)
      → get input.idempotency_key w.state.idempotency ≡ none
      → (price.product ≡ product) × (price.amount ≡ product.unit_price)
      → Charges (reserve env payments input trace price w)
  unfolding reserve
  reserve-Charges price w new h =
      elim (Result-cases (reserve_one_stock_unit w.state trace price.product).0) [
        | inr (x, e) ↦ rw (e, reserve) tt
        | inl (r, e) ↦
            rw (e, reserve)
              (charge-Charges price r _
                (ap (get input.idempotency_key)
                    (reserve-SameShop w.state trace price.product).idempotency
                  ∙ new)
                h)
      ]

  -- With a payment provider that authorizes only what it was asked for, a new order that succeeds
  -- charges exactly the price in the catalogue of the product that its reference resolves to.
  pub execute-charges_price :
      (w : World P)
      → get input.idempotency_key w.state.idempotency ≡ none
      → resolve_product w.state input.product_ref ≡ ok product
      → OnOk (λ v w'. v.amount ≡ product.unit_price) (execute env payments input trace w)
  unfolding execute purchase
  execute-charges_price w new found =
      rw (new, execute)
        (rw (found, purchase)
          (elim (Result-cases (resolve_authoritative_price product)) [
            | inr (x, p) ↦ rw (p, purchase) tt
            | inl (price, p) ↦
                rw (p, purchase) (reserve-Charges price w new (price_ok product price p))
          ]))
