-- ===== src/Checkout/Replay.antt =====
-- Idempotency: what a second `execute` under the same key does.
use allas_code_blueprint.Prelude.{◌≡◌, refl, subst, inl, inr, some, Option-cases}
use allas_code_blueprint.Prelude.Dict.{get, get-put_self}
use allas_code_blueprint.Checkout.{
  ok, ProductRecord, StockReservation, PaymentAuthorization, BuyOneProductInput,
  BuyOneProductOutput, TraceContext, PaymentCapability,
}
use allas_code_blueprint.Checkout.Steps.{
  resolve_product, AuthoritativePrice, resolve_authoritative_price, reserve_one_stock_unit,
  register_sale, commit_stock_reservation,
}
use allas_code_blueprint.Checkout.Execute.{
  Environment, World, Outcome, request, finish, commit, record_sale, charge, reserve, purchase,
  execute,
}
use allas_code_blueprint.Checkout.Rollback.{Result-cases}
use allas_code_blueprint.Checkout.Sells.{OnOk}

module _ {P : Type 0} (env : Environment) (payments : PaymentCapability P)
    (input : BuyOneProductInput) (trace : TraceContext) where
  abbrev Remembers : Outcome P → Type 0
  Remembers = OnOk (λ v w. get input.idempotency_key w.state.idempotency ≡ some v)

  commit-Remembers :
      (r : StockReservation) (payment : PaymentAuthorization) (sale : BuyOneProductOutput)
      (w : World P)
      → Remembers (commit env payments input trace r payment sale w)
  unfolding commit
  commit-Remembers r payment sale w =
      elim (Result-cases (commit_stock_reservation w.state trace r).0) [
        | inr (x, e) ↦ rw (e, commit) tt
        | inl (c, e) ↦ rw (e, commit) (get-put_self _ _ _)
      ]

  record_sale-Remembers :
      (product : ProductRecord) (r : StockReservation) (payment : PaymentAuthorization)
      (w : World P)
      → Remembers (record_sale env payments input trace product r payment w)
  unfolding record_sale
  record_sale-Remembers product r payment w =
      elim (Result-cases (register_sale (env.uuid w.draws) w.state trace input product payment).0) [
        | inr (x, e) ↦ rw (e, record_sale) tt
        | inl (v, e) ↦ rw (e, record_sale) (commit-Remembers r payment v _)
      ]

  charge-Remembers :
      (price : AuthoritativePrice) (r : StockReservation) (w : World P)
      → Remembers (charge env payments input trace price r w)
  unfolding charge
  charge-Remembers price r w =
      elim (Result-cases (payments.authorize (request input trace price) w.pay).0) [
        | inr (x, e) ↦ rw (e, charge) tt
        | inl (v, e) ↦ rw (e, charge) (record_sale-Remembers price.product r v _)
      ]

  reserve-Remembers :
      (price : AuthoritativePrice) (w : World P)
      → Remembers (reserve env payments input trace price w)
  unfolding reserve
  reserve-Remembers price w =
      elim (Result-cases (reserve_one_stock_unit w.state trace price.product).0) [
        | inr (x, e) ↦ rw (e, reserve) tt
        | inl (r, e) ↦ rw (e, reserve) (charge-Remembers price r _)
      ]

  execute-Remembers : (w : World P) → Remembers (execute env payments input trace w)
  unfolding execute purchase
  execute-Remembers w = elim (Option-cases (get input.idempotency_key w.state.idempotency)) [
    | inr (prior, e) ↦ rw (e, execute) e
    | inl new ↦
        rw (new, execute)
          (elim (Result-cases (resolve_product w.state input.product_ref)) [
            | inr (x, e) ↦ rw (e, purchase) tt
            | inl (product, e) ↦
                rw (e, purchase)
                  (elim (Result-cases (resolve_authoritative_price product)) [
                    | inr (x, p) ↦ rw (p, purchase) tt
                    | inl (price, p) ↦ rw (p, purchase) (reserve-Remembers price w)
                  ])
          ])
  ]

module _ {P : Type 0} (env : Environment) (payments : PaymentCapability P) where
  -- After an `execute` that succeeded, any later request under the same idempotency key, also one
  -- with another trace, buyer or product, answers with the same output at once: it emits its event
  -- and leaves the shop and the payment provider as they are.
  pub execute-replays :
      (input again : BuyOneProductInput) (trace later : TraceContext) (w after : World P)
      (v : BuyOneProductOutput)
      → execute env payments input trace w ≡ (ok v, after)
      → again.idempotency_key ≡ input.idempotency_key
      → execute env payments again later after ≡ finish env (ok v) later after
  unfolding execute
  execute-replays input again trace later w after v done same =
      let kept : get input.idempotency_key after.state.idempotency ≡ some v =
        subst (Remembers env payments input trace) done
          (execute-Remembers env payments input trace w) in
      rw (same, kept, execute) refl
