-- ===== src/Commerce/Stock/Actions.antt =====
-- The stock actions as a whole, and the two ways to decrease compared.
use allas_code_blueprint.Prelude.{
  String, ◌≡◌, ◌⊎◌, refl, subst, sym, ap, ◌∙◌, inl, inr, true, false, some, List, [], ◌∷◌, arith,
  ◌==◌, eq_iff, exists, Bool, Bool-cases,
}
use allas_code_blueprint.Prelude.Int.{ℤ, pos, ◌+ℤ◌, ◌-ℤ◌, ◌≤ℤ◌, ltb_ℤ, int_laws}
use allas_code_blueprint.Prelude.Dict.{Dict, put, has, get-put_self}
use allas_code_blueprint.Commerce.{CommerceItem, Payload, CommerceState, ok}
use allas_code_blueprint.Commerce.Stock.{
  Step, stock_of, take_items, add_items, lacks, increase_stock, decrease_stock,
  decrease_stock_verified,
}
use allas_code_blueprint.Commerce.Stock.Moves.{
  Absent, IsDistinct, quantity_in, stock-take_items, stock-add_items, movements-take_items,
  SameStock-refl, exists-falls_short, is_ok,
}

-- What an action that decreases stock may do: refuse and change nothing, repeat an answer and change
-- nothing, or take every item from its balance and note that the sale is served.
abbrev pub DecreasesStock : CommerceState → Payload → List CommerceItem → Step → Type 0
DecreasesStock state sale items (result, after) =
    ((is_ok result ≡ false) × (after ≡ state))
    ⊎ ((is_ok result ≡ true) × (has sale.sale_id state.applied_sale_stock ≡ true) × (after ≡ state))
    ⊎ ((is_ok result ≡ true)
        × (has sale.sale_id state.applied_sale_stock ≡ false)
        × (exists (lacks state.inventory) items ≡ false)
        × (after ≡ record state {
          inventory = take_items items state.inventory;
          applied_sale_stock = put sale.sale_id tt state.applied_sale_stock;
        }))

decrease_stock_cases :
    (state : CommerceState) (sale : Payload) (items : List CommerceItem)
    → sale.items ≡ some items
    → DecreasesStock state sale items (decrease_stock state sale)
unfolding decrease_stock
decrease_stock_cases state sale items given = ground arith

-- For a sale without repeated products the verified alternative of decrease-stock does what
-- decrease-stock does, but for the text of its error: the same success, the same state.
pub decrease_stock_verified-decrease_stock :
    (state : CommerceState) (sale : Payload) (items : List CommerceItem)
    → sale.items ≡ some items
    → IsDistinct items
    → let (verified, after_verified) = decrease_stock_verified state sale in
      let (result, after) = decrease_stock state sale in
      (is_ok verified ≡ is_ok result) × (after_verified ≡ after)
unfolding decrease_stock decrease_stock_verified
decrease_stock_verified-decrease_stock state sale items given distinct =
    let shorts = exists-falls_short state.inventory items in
    let moves =
      movements-take_items items state.inventory state.inventory distinct
        (SameStock-refl state.inventory items) in
    ground arith

abbrev pub served : CommerceState → Payload → List CommerceItem → CommerceState
served state sale items = record state {
  inventory = take_items items state.inventory;
  applied_sale_stock = put sale.sale_id tt state.applied_sale_stock;
}

abbrev received : CommerceState → Payload → List CommerceItem → CommerceState
received state purchase items = record state {
  inventory = add_items items state.inventory;
  applied_purchase_stock = put purchase.purchase_id tt state.applied_purchase_stock;
}

pub decrease_stock-serves :
    (state : CommerceState) (sale : Payload) (items : List CommerceItem)
    → sale.items ≡ some items
    → (sale.sale_id == "") ≡ false
    → has sale.sale_id state.applied_sale_stock ≡ false
    → exists (lacks state.inventory) items ≡ false
    → decrease_stock state sale ≡ (ok "StockDecreased" sale, served state sale items)
unfolding decrease_stock
decrease_stock-serves state sale items given named fresh covered = ground arith

increase_stock-receives :
    (state : CommerceState) (purchase : Payload) (items : List CommerceItem)
    → purchase.items ≡ some items
    → (purchase.purchase_id == "") ≡ false
    → has purchase.purchase_id state.applied_purchase_stock ≡ false
    → increase_stock state purchase ≡ (ok "StockIncreased" purchase, received state purchase items)
unfolding increase_stock
increase_stock-receives state purchase items given named fresh = ground arith

-- A sale with an identifier that was not served before, each of whose items the stock covers, is
-- served: the balance of every product goes down by its quantity in all the items together, and the
-- same action once more succeeds and changes nothing.
pub decrease_stock-serves_once :
    (state : CommerceState) (sale : Payload) (items : List CommerceItem)
    → sale.items ≡ some items
    → (sale.sale_id == "") ≡ false
    → has sale.sale_id state.applied_sale_stock ≡ false
    → exists (lacks state.inventory) items ≡ false
    → let (result, after) = decrease_stock state sale in
      (result ≡ ok "StockDecreased" sale)
      × ((p : String)
          → stock_of p after.inventory ≡ stock_of p state.inventory -ℤ quantity_in p items)
      × (decrease_stock after sale ≡ (ok "StockDecreased" sale, after))
unfolding decrease_stock
decrease_stock-serves_once state sale items given named fresh covered =
    let noted = get-put_self sale.sale_id tt state.applied_sale_stock in
    subst
      (λ ((result, after) : Step).
        (result ≡ ok "StockDecreased" sale)
        × ((p : String)
            → stock_of p after.inventory ≡ stock_of p state.inventory -ℤ quantity_in p items)
        × (decrease_stock after sale ≡ (ok "StockDecreased" sale, after)))
      (sym (decrease_stock-serves state sale items given named fresh covered))
      (refl, (λ p. stock-take_items p items state.inventory), ground arith)

-- A purchase with an identifier that was not received before puts into the balance of every product
-- its quantity in all the items together, and the same action once more changes nothing.
increase_stock-receives_once :
    (state : CommerceState) (purchase : Payload) (items : List CommerceItem)
    → purchase.items ≡ some items
    → (purchase.purchase_id == "") ≡ false
    → has purchase.purchase_id state.applied_purchase_stock ≡ false
    → let (result, after) = increase_stock state purchase in
      (result ≡ ok "StockIncreased" purchase)
      × ((p : String)
          → stock_of p after.inventory ≡ stock_of p state.inventory +ℤ quantity_in p items)
      × (increase_stock after purchase ≡ (ok "StockIncreased" purchase, after))
unfolding increase_stock
increase_stock-receives_once state purchase items given named fresh =
    let noted = get-put_self purchase.purchase_id tt state.applied_purchase_stock in
    subst
      (λ ((result, after) : Step).
        (result ≡ ok "StockIncreased" purchase)
        × ((p : String)
            → stock_of p after.inventory ≡ stock_of p state.inventory +ℤ quantity_in p items)
        × (increase_stock after purchase ≡ (ok "StockIncreased" purchase, after)))
      (sym (increase_stock-receives state purchase items given named fresh))
      (refl, (λ p. stock-add_items p items state.inventory), ground arith)

exists-head :
    {A : Type 0} (test : A → Bool) (x : A) (xs : List A)
    → exists test (x ∷ xs) ≡ false
    → test x ≡ false
exists-head test x xs h = ground arith

exists-tail :
    {A : Type 0} (test : A → Bool) (x : A) (xs : List A)
    → exists test (x ∷ xs) ≡ false
    → exists test xs ≡ false
exists-tail test x xs h = ground arith

not_less : (a b : ℤ) → ltb_ℤ a b ≡ false → b ≤ℤ a
not_less a b h = ground arith

Absent-quantity_in :
    (p q : String) (is : List CommerceItem) → q ≡ p → Absent q is → quantity_in p is ≡ pos 0
unfolding quantity_in
Absent-quantity_in p q [] same h = refl
Absent-quantity_in p q (i ∷ is) same (other, h) =
    rw (ap (λ x. i.product_id == x) (sym same) ∙ other) (Absent-quantity_in p q is same h)

-- The items of a sale without repeated products take no more of a product than is there.
covered-quantity_in :
    (p : String) (is : List CommerceItem) (inventory : Dict ℤ)
    → IsDistinct is
    → exists (lacks inventory) is ≡ false
    → pos 0 ≤ℤ stock_of p inventory
    → quantity_in p is ≤ℤ stock_of p inventory
unfolding quantity_in
covered-quantity_in p [] inventory d c h = h
covered-quantity_in p (i ∷ is) inventory (absent, d) c h = elim (Bool-cases (i.product_id == p)) [
  | inl same ↦
      let e = (eq_iff i.product_id p).0 same in
      let none_left = Absent-quantity_in p i.product_id is e absent in
      let here : stock_of i.product_id inventory ≡ stock_of p inventory =
        ap (λ x. stock_of x inventory) e in
      let enough : i.quantity ≤ℤ stock_of p inventory =
        not_less (stock_of p inventory) i.quantity
          (ap (λ b. ltb_ℤ b i.quantity) (sym here) ∙ exists-head (lacks inventory) i is c) in
      rw (same, none_left) (omega int_laws)
  | inr other ↦
      let rest = covered-quantity_in p is inventory d (exists-tail (lacks inventory) i is c) h in
      rw other rest
]

-- When no balance is negative and no product is repeated, decrease-stock leaves no negative balance,
-- whatever it answers.
decrease_stock-IsCovered :
    (state : CommerceState) (sale : Payload) (items : List CommerceItem) (p : String)
    → sale.items ≡ some items
    → IsDistinct items
    → pos 0 ≤ℤ stock_of p state.inventory
    → let (result, after) = decrease_stock state sale in pos 0 ≤ℤ stock_of p after.inventory
decrease_stock-IsCovered state sale items p given distinct h =
    elim (decrease_stock_cases state sale items given) [
      | inl (_, same) ↦ rw same h
      | inr (inl (_, _, same)) ↦ rw same h
      | inr (inr (_, _, covered, moved)) ↦
          let left = covered-quantity_in p items state.inventory distinct covered h in
          rw (moved, stock-take_items p items state.inventory) (omega int_laws)
    ]
