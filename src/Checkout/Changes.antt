-- ===== src/Checkout/Changes.antt =====
-- The writes that `execute` makes to the shop, as a step relation.
use allas_code_blueprint.Prelude.{
  String, ◌≡◌, refl, inl, inr, true, false, some, List, [], ◌∷◌, ◌++◌, arith, ℕ, Bool, Option-cases,
  if◌then◌else◌,
}
use allas_code_blueprint.Prelude.Int.{ℤ, pos, ◌-ℤ◌, ◌≤ℤ◌, ltb_ℤ, -ℤ_parts}
use allas_code_blueprint.Prelude.Dict.{Dict, get, put, get-put}
use allas_code_blueprint.Checkout.{
  InternalResult, ProductRecord, StockReservation, PaymentAuthorization, SaleRecord,
  BuyOneProductInput, BuyOneProductOutput, TraceContext, RuntimeEvent, BuyOneProductState,
  PaymentCapability,
}
use allas_code_blueprint.Checkout.Steps.{
  available, reserve_new, reservation_key, resolve_product, AuthoritativePrice,
  resolve_authoritative_price, reserve_one_stock_unit, release_stock_reservation, register_sale,
  commit_stock_reservation,
}
use allas_code_blueprint.Checkout.Execute.{
  Environment, World, Outcome, request, event_of, finish, commit, record_sale, charge, reserve,
  purchase, execute,
}
use allas_code_blueprint.Checkout.Rollback.{Result-cases}

pub data Change (s : BuyOneProductState) : BuyOneProductState → Type 0 where
  nothing : Change s s
  reservations : (m : Dict StockReservation) → Change s (record s { reservations = m })
  payments_change : (m : Dict PaymentAuthorization) → Change s (record s { payments = m })
  sales : (m : Dict SaleRecord) → Change s (record s { sales = m })
  orders : (m : Dict BuyOneProductOutput) → Change s (record s { idempotency = m })
  unit :
      (p : String) (m : Dict StockReservation)
      → pos 1 ≤ℤ available s p
      → Change s (record s { stock = put p (available s p -ℤ pos 1) s.stock; reservations = m })

pub data Changes (s : BuyOneProductState) : BuyOneProductState → Type 0 where
  start : Changes s s
  next : {t u : BuyOneProductState} → Changes s t → Change t u → Changes s u

-- A branch is a change if both of its results are.
if-Change :
    {A : Type 0} {s : BuyOneProductState} (b : Bool) (x y : A × BuyOneProductState)
    → (b ≡ true → Change s x.1)
    → (b ≡ false → Change s y.1)
    → Change s (if b then x else y).1
if-Change true x y h k = h refl
if-Change false x y h k = k refl

reserve_new-Change :
    (s : BuyOneProductState) (trace : TraceContext) (product : ProductRecord)
    → Change s (reserve_new s trace product).1
reserve_new-Change s trace product = search (if-Change, nothing, reservations)

reserve-Change :
    (s : BuyOneProductState) (trace : TraceContext) (product : ProductRecord)
    → Change s (reserve_one_stock_unit s trace product).1
unfolding reserve_one_stock_unit
reserve-Change s trace product =
    elim (Option-cases (get (reservation_key trace product) s.reservations)) [
      | inl e ↦ rw (e, reserve_one_stock_unit) (reserve_new-Change s trace product)
      | inr (r, e) ↦
          rw (e, reserve_one_stock_unit)
            (search (if-Change, nothing, reserve_new-Change s trace product))
    ]

release-Change :
    (s : BuyOneProductState) (r : StockReservation) → Change s (release_stock_reservation s r).1
unfolding release_stock_reservation
release-Change s r = search (if-Change, nothing, reservations)

register-Change :
    (id : String) (t : BuyOneProductState) (trace : TraceContext) (input : BuyOneProductInput)
    (product : ProductRecord) (payment : PaymentAuthorization)
    → Change t (register_sale id t trace input product payment).1
unfolding register_sale
register-Change id t trace input product payment =
    elim (Option-cases (get input.idempotency_key t.idempotency)) [
      | inr (v, e) ↦ rw (e, register_sale) nothing
      | inl e ↦ rw (e, register_sale) (search (if-Change, nothing, sales))
    ]

enough_of : (q : ℤ) → ltb_ℤ q (pos 1) ≡ false → pos 1 ≤ℤ q
enough_of q h = ground arith

commit-Change :
    (t : BuyOneProductState) (trace : TraceContext) (r : StockReservation)
    → Change t (commit_stock_reservation t trace r).1
unfolding commit_stock_reservation
commit-Change t trace r = elim (Option-cases (get r.reservation_id t.reservations)) [
  | inl e ↦ rw (e, commit_stock_reservation) nothing
  | inr (c, e) ↦
      rw (e, commit_stock_reservation) (search (if-Change, nothing, unit, enough_of) depth 8)
]

module _ {P : Type 0} (env : Environment) (trace : TraceContext) (s : BuyOneProductState) where
  -- The call ends by the event that reports its result, after changes of the shop alone.
  record Ends (events : List RuntimeEvent) (o : Outcome P) : Type 0 where
    result : InternalResult BuyOneProductOutput
    last : World P
    finished : o ≡ finish env result trace last
    quiet : last.events ≡ events
    changed : Changes s last.state

  end_at :
      {events : List RuntimeEvent} (r : InternalResult BuyOneProductOutput) (w : World P)
      → w.events ≡ events
      → Changes s w.state
      → Ends events (finish env r trace w)
  end_at r w q c = record { result = r; last = w; finished = refl; quiet = q; changed = c }

  Ends-changed : {events : List RuntimeEvent} {o : Outcome P} → Ends events o → Changes s o.1.state
  Ends-changed h = rw h.finished h.changed

  emits_one :
      {events : List RuntimeEvent} {o : Outcome P}
      → Ends events o
      → (n : ℕ) × (o.1.events ≡ events ++ event_of env n trace o.0 ∷ [])
  emits_one h = (h.last.draws, rw (h.finished, h.quiet))

  module _ (payments : PaymentCapability P) (input : BuyOneProductInput)
      {events : List RuntimeEvent} where
    commit-Ends :
        (r : StockReservation) (payment : PaymentAuthorization) (sale : BuyOneProductOutput)
        (w : World P)
        → w.events ≡ events
        → Changes s w.state
        → Ends events (commit env payments input trace r payment sale w)
    unfolding commit
    commit-Ends r payment sale w q c =
        let c' = next c (commit-Change w.state trace r) in
        elim (Result-cases (commit_stock_reservation w.state trace r).0) [
          | inl (v, e) ↦ rw (e, commit) (end_at _ _ q (next c' (orders _)))
          | inr (x, e) ↦
              rw (e, commit) (end_at _ _ q (next (next c' (sales _)) (release-Change _ r)))
        ]

    record_sale-Ends :
        (product : ProductRecord) (r : StockReservation) (payment : PaymentAuthorization)
        (w : World P)
        → w.events ≡ events
        → Changes s w.state
        → Ends events (record_sale env payments input trace product r payment w)
    unfolding record_sale
    record_sale-Ends product r payment w q c =
        let id = env.uuid w.draws in
        let c' = next c (register-Change id w.state trace input product payment) in
        elim (Result-cases (register_sale id w.state trace input product payment).0) [
          | inl (v, e) ↦ rw (e, record_sale) (commit-Ends r payment v _ q c')
          | inr (x, e) ↦ rw (e, record_sale) (end_at _ _ q (next c' (release-Change _ r)))
        ]

    charge-Ends :
        (price : AuthoritativePrice) (r : StockReservation) (w : World P)
        → w.events ≡ events
        → Changes s w.state
        → Ends events (charge env payments input trace price r w)
    unfolding charge
    charge-Ends price r w q c =
        elim (Result-cases (payments.authorize (request input trace price) w.pay).0) [
          | inl (v, e) ↦
              rw (e, charge) (record_sale-Ends price.product r v _ q (next c (payments_change _)))
          | inr (x, e) ↦ rw (e, charge) (end_at _ _ q (next c (release-Change _ r)))
        ]

    reserve-Ends :
        (price : AuthoritativePrice) (w : World P)
        → w.events ≡ events
        → Changes s w.state
        → Ends events (reserve env payments input trace price w)
    unfolding reserve
    reserve-Ends price w q c =
        let c' = next c (reserve-Change w.state trace price.product) in
        elim (Result-cases (reserve_one_stock_unit w.state trace price.product).0) [
          | inl (r, e) ↦ rw (e, reserve) (charge-Ends price r _ q c')
          | inr (x, e) ↦ rw (e, reserve) (end_at _ _ q c')
        ]

module _ {P : Type 0} (env : Environment) (payments : PaymentCapability P)
    (input : BuyOneProductInput) (trace : TraceContext) (w : World P) where
  purchase-Ends : Ends env trace w.state w.events (purchase env payments input trace w)
  unfolding purchase
  purchase-Ends = elim (Result-cases (resolve_product w.state input.product_ref)) [
    | inr (x, e) ↦ rw (e, purchase) (end_at env trace w.state _ _ refl start)
    | inl (product, e) ↦
        rw (e, purchase)
          (elim (Result-cases (resolve_authoritative_price product)) [
            | inr (x, p) ↦ rw (p, purchase) (end_at env trace w.state _ _ refl start)
            | inl (price, p) ↦
                rw (p, purchase) (reserve-Ends env trace w.state payments input price w refl start)
          ])
  ]

  execute-Ends : Ends env trace w.state w.events (execute env payments input trace w)
  unfolding execute
  execute-Ends = elim (Option-cases (get input.idempotency_key w.state.idempotency)) [
    | inr (prior, e) ↦ rw (e, execute) (end_at env trace w.state _ _ refl start)
    | inl e ↦ rw (e, execute) purchase-Ends
  ]

  -- Every call of `execute`, whatever its result, adds exactly one event to those emitted before:
  -- the one labelled with its status, for its trace, that carries its result.
  execute-emits_one :
      let (result, after) = execute env payments input trace w in
      (n : ℕ) × (after.events ≡ w.events ++ event_of env n trace result ∷ [])
  unfolding execute
  execute-emits_one = emits_one env trace w.state execute-Ends

  -- Every call of `execute` reaches the state that it leaves by changes of the shop that take
  -- units from the stock only where at least one is there.
  execute-Changes : Changes w.state (execute env payments input trace w).1.state
  execute-Changes = Ends-changed env trace w.state execute-Ends

-- No product has a negative number of units.
abbrev pub IsStocked : BuyOneProductState → Type 0
IsStocked s = (p : String) (q : ℤ) → get p s.stock ≡ some q → pos 0 ≤ℤ q

Change-IsStocked : {s t : BuyOneProductState} → Change s t → IsStocked s → IsStocked t
Change-IsStocked nothing h = h
Change-IsStocked (reservations m) h = h
Change-IsStocked (payments_change m) h = h
Change-IsStocked (sales m) h = h
Change-IsStocked (orders m) h = h
Change-IsStocked {s} (unit p m enough) h = λ j q e.
    ground
      (arith, get-put p j (available s p -ℤ pos 1) s.stock, h j q, -ℤ_parts (available s p) (pos 1))

Changes-IsStocked : {s t : BuyOneProductState} → Changes s t → IsStocked s → IsStocked t
Changes-IsStocked start h = h
Changes-IsStocked (next c d) h = Change-IsStocked d (Changes-IsStocked c h)

module _ {P : Type 0} (env : Environment) (payments : PaymentCapability P) where
  -- From a shop where no product has a negative stock, every call of `execute`, successful or not,
  -- leaves one.
  pub execute-IsStocked :
      (input : BuyOneProductInput) (trace : TraceContext) (w : World P)
      → IsStocked w.state
      → IsStocked (execute env payments input trace w).1.state
  execute-IsStocked input trace w = Changes-IsStocked (execute-Changes env payments input trace w)
