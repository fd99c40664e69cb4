-- ===== src/Checkout/Rollback.antt =====
-- What a failed `execute` leaves behind.
use allas_code_blueprint.Prelude.{
  String, ◌≡◌, refl, sym, ap, ◌∙◌, Option-cases, Bool-cases, ◌⊎◌, inl, inr, none, arith, ◌==◌,
  eq_iff,
}
use allas_code_blueprint.Prelude.Dict.{Dict, get, put, delete, get-put, get-delete}
use allas_code_blueprint.Checkout.{
  InternalResult, RuntimeError, ok, err, ProductRecord, StockReservation, PaymentAuthorization,
  BuyOneProductInput, BuyOneProductOutput, TraceContext, BuyOneProductState, PaymentCapability,
}
use allas_code_blueprint.Checkout.Steps.{
  resolve_product, AuthoritativePrice, resolve_authoritative_price, reserve_one_stock_unit,
  release_stock_reservation, register_sale, commit_stock_reservation, new_sale_id, sale_of,
  output_of,
}
use allas_code_blueprint.Checkout.Execute.{
  Environment, World, Outcome, request, forget_sale, commit, record_sale, charge, reserve, purchase,
  execute,
}

-- The shop is as before: catalogue, stock, remembered orders, and each sale.
pub record SameShop (s t : BuyOneProductState) : Type 0 where
  pub products : t.products ≡ s.products
  pub stock : t.stock ≡ s.stock
  pub idempotency : t.idempotency ≡ s.idempotency
  pub sales : (j : String) → get j t.sales ≡ get j s.sales

abbrev pub OnError {ℓ} : {P : Type 0} → (World P → Type ℓ) → Outcome P → Type ℓ
OnError Q (ok v, w) = Unit
OnError Q (err e, w) = Q w

abbrev pub KeepsShop : {P : Type 0} → BuyOneProductState → Outcome P → Type 0
KeepsShop s = OnError (λ w. SameShop s w.state)

unreserve-SameShop :
    {s : BuyOneProductState} (t : BuyOneProductState) (r : StockReservation)
    → SameShop s t
    → SameShop s (release_stock_reservation t r).1
unfolding release_stock_reservation
unreserve-SameShop t r h = elim (Bool-cases r.committed) [
  | inl done ↦ rw (done, release_stock_reservation) h
  | inr open_ ↦
      rw (open_, release_stock_reservation)
        (record {
          products = h.products;
          stock = h.stock;
          idempotency = h.idempotency;
          sales = h.sales;
        })
]

pub reserve-SameShop :
    (s : BuyOneProductState) (trace : TraceContext) (product : ProductRecord)
    → SameShop s (reserve_one_stock_unit s trace product).1
unfolding reserve_one_stock_unit
reserve-SameShop s trace product = record {
  products = ground arith;
  stock = ground arith;
  idempotency = ground arith;
  sales = λ j. ground arith;
}

-- A refused commit has written nothing.
commit_error :
    (t : BuyOneProductState) (trace : TraceContext) (r : StockReservation)
    → let (c, u) = commit_stock_reservation t trace r in ((e : RuntimeError) → c ≡ err e → u ≡ t)
unfolding commit_stock_reservation
commit_error t trace r e h = ground arith

-- A refused sale has written nothing; an accepted one wrote one entry of `sales`.
register_error :
    (id : String) (t : BuyOneProductState) (trace : TraceContext) (input : BuyOneProductInput)
    (product : ProductRecord) (payment : PaymentAuthorization) (e : RuntimeError)
    → (register_sale id t trace input product payment).0 ≡ err e
    → (register_sale id t trace input product payment).1 ≡ t
unfolding register_sale
register_error id t trace input product payment e h = ground arith

-- `sale` is the only sale that `t` has beyond `s`.
record SoldOver (s t : BuyOneProductState) (sale : BuyOneProductOutput) : Type 0 where
  products : t.products ≡ s.products
  stock : t.stock ≡ s.stock
  idempotency : t.idempotency ≡ s.idempotency
  sales : (j : String) → get j (delete sale.sale_id t.sales) ≡ get j s.sales

-- `put` and then `delete` of a key that was absent.
get-delete-put {ℓ} :
    {V : Type ℓ} (k j : String) (v : V) (m : Dict V)
    → get k m ≡ none
    → get j (delete k (put k v m)) ≡ get j m
get-delete-put k j v m absent = elim (Bool-cases (k == j)) [
  | inl same ↦
      let e : k ≡ j = (eq_iff k j).0 same in
      rw (get-delete k j (put k v m), same) (sym (rw e at absent))
  | inr other ↦ rw (get-delete k j (put k v m), other, get-put k j v m, other) refl
]

module _ (id : String) (t : BuyOneProductState) (trace : TraceContext) (input : BuyOneProductInput)
    (product : ProductRecord) (payment : PaymentAuthorization) (sale : BuyOneProductOutput)
    (new : get input.idempotency_key t.idempotency ≡ none)
    (sold : (register_sale id t trace input product payment).0 ≡ ok sale) where
  pub register_ok :
      (sale ≡ output_of (new_sale_id id) product payment)
      × ((register_sale id t trace input product payment).1 ≡ record t {
        sales = put (new_sale_id id) (sale_of (new_sale_id id) trace input product payment) t.sales;
      })
  unfolding register_sale
  register_ok = ground arith

  register-SoldOver :
      get (new_sale_id id) t.sales ≡ none
      → SoldOver t (register_sale id t trace input product payment).1 sale
  register-SoldOver fresh =
      rw (register_ok.1, register_ok.0)
        (record {
          products = refl;
          stock = refl;
          idempotency = refl;
          sales = λ j. get-delete-put _ j _ _ fresh;
        })

pub Result-cases :
    {A : Type 0} (r : InternalResult A)
    → ((a : A) × (r ≡ ok a)) ⊎ ((e : RuntimeError) × (r ≡ err e))
Result-cases (ok a) = inl (a, refl)
Result-cases (err e) = inr (e, refl)

forget-SameShop :
    {P : Type 0} (s : BuyOneProductState) (w : World P) (sale : BuyOneProductOutput)
    → SoldOver s w.state sale
    → SameShop s (forget_sale sale w).state
forget-SameShop s w sale h = record {
  products = h.products;
  stock = h.stock;
  idempotency = h.idempotency;
  sales = h.sales;
}

SameShop-refl : (s : BuyOneProductState) → SameShop s s
SameShop-refl s = record { products = refl; stock = refl; idempotency = refl; sales = λ j. refl }

SameShop-payments :
    {s t : BuyOneProductState} (p : Dict PaymentAuthorization)
    → SameShop s t
    → SameShop s (record t { payments = p })
SameShop-payments p h = record {
  products = h.products;
  stock = h.stock;
  idempotency = h.idempotency;
  sales = h.sales;
}

SoldOver-trans :
    {s t u : BuyOneProductState} {sale : BuyOneProductOutput}
    → SameShop s t
    → SoldOver t u sale
    → SoldOver s u sale
SoldOver-trans h k = record {
  products = k.products ∙ h.products;
  stock = k.stock ∙ h.stock;
  idempotency = k.idempotency ∙ h.idempotency;
  sales = λ j. k.sales j ∙ h.sales j;
}

module _ {P : Type 0} (env : Environment) (payments : PaymentCapability P)
    (input : BuyOneProductInput) (trace : TraceContext) where
  commit-KeepsShop :
      (s : BuyOneProductState) (r : StockReservation) (payment : PaymentAuthorization)
      (sale : BuyOneProductOutput) (w : World P)
      → SoldOver s w.state sale
      → KeepsShop s (commit env payments input trace r payment sale w)
  unfolding commit
  commit-KeepsShop s r payment sale w h =
      elim (Result-cases (commit_stock_reservation w.state trace r).0) [
        | inl (v, e) ↦ rw (e, commit) tt
        | inr (x, e) ↦
            rw (e, commit)
              (unreserve-SameShop _ r
                (rw (commit_error w.state trace r x e) (forget-SameShop s w sale h)))
      ]

  record_sale-KeepsShop :
      (s : BuyOneProductState) (product : ProductRecord) (r : StockReservation)
      (payment : PaymentAuthorization) (w : World P)
      → SameShop s w.state
      → get (new_sale_id (env.uuid w.draws)) s.sales ≡ none
      → get input.idempotency_key s.idempotency ≡ none
      → KeepsShop s (record_sale env payments input trace product r payment w)
  unfolding record_sale
  record_sale-KeepsShop s product r payment w h fresh new =
      let id = env.uuid w.draws in
      let new' : get input.idempotency_key w.state.idempotency ≡ none =
        ap (get input.idempotency_key) h.idempotency ∙ new in
      let fresh' : get (new_sale_id id) w.state.sales ≡ none = h.sales _ ∙ fresh in
      elim (Result-cases (register_sale id w.state trace input product payment).0) [
        | inl (v, e) ↦
            rw (e, record_sale)
              (commit-KeepsShop s r payment v _ (
                SoldOver-trans h
                  (register-SoldOver id w.state trace input product payment v new' e fresh')))
        | inr (x, e) ↦
            rw (e, record_sale)
              (unreserve-SameShop _ r
                (rw (register_error id w.state trace input product payment x e) h))
      ]

  charge-KeepsShop :
      (s : BuyOneProductState) (price : AuthoritativePrice) (r : StockReservation) (w : World P)
      → SameShop s w.state
      → get (new_sale_id (env.uuid w.draws)) s.sales ≡ none
      → get input.idempotency_key s.idempotency ≡ none
      → KeepsShop s (charge env payments input trace price r w)
  unfolding charge
  charge-KeepsShop s price r w h fresh new =
      elim (Result-cases (payments.authorize (request input trace price) w.pay).0) [
        | inl (v, e) ↦
            rw (e, charge)
              (record_sale-KeepsShop s price.product r v _ (SameShop-payments _ h) fresh new)
        | inr (x, e) ↦ rw (e, charge) (unreserve-SameShop _ r h)
      ]

  reserve-KeepsShop :
      (s : BuyOneProductState) (price : AuthoritativePrice) (w : World P)
      → w.state ≡ s
      → get (new_sale_id (env.uuid w.draws)) s.sales ≡ none
      → get input.idempotency_key s.idempotency ≡ none
      → KeepsShop s (reserve env payments input trace price w)
  unfolding reserve
  reserve-KeepsShop s price w same fresh new =
      let kept : SameShop s (reserve_one_stock_unit w.state trace price.product).1 =
        rw same (reserve-SameShop s trace price.product) in
      elim (Result-cases (reserve_one_stock_unit w.state trace price.product).0) [
        | inl (v, e) ↦ rw (e, reserve) (charge-KeepsShop s price v _ kept fresh new)
        | inr (x, e) ↦ rw (e, reserve) kept
      ]

  -- If `execute` reports an error, and the identifier that it would give to a sale is not in use,
  -- then catalogue, stock, remembered orders and every sale are as before the call: what was
  -- reserved, charged or sold on the way is undone.
  pub execute-rolls_back :
      (w : World P)
      → get (new_sale_id (env.uuid w.draws)) w.state.sales ≡ none
      → KeepsShop w.state (execute env payments input trace w)
  unfolding execute purchase
  execute-rolls_back w fresh = elim (Option-cases (get input.idempotency_key w.state.idempotency)) [
    | inr (prior, e) ↦ rw (e, execute) tt
    | inl new ↦
        rw (new, execute)
          (elim (Result-cases (resolve_product w.state input.product_ref)) [
            | inr (x, e) ↦ rw (e, purchase) (SameShop-refl w.state)
            | inl (product, e) ↦
                rw (e, purchase)
                  (elim (Result-cases (resolve_authoritative_price product)) [
                    | inr (x, p) ↦ rw (p, purchase) (SameShop-refl w.state)
                    | inl (price, p) ↦
                        rw (p, purchase) (reserve-KeepsShop w.state price w refl fresh new)
                  ])
          ])
  ]
