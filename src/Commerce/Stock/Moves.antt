-- ===== src/Commerce/Stock/Moves.antt =====
-- What the stock actions do to the balances of sales and purchases without repeated products.
use allas_code_blueprint.Prelude.{
  String, ◌≡◌, refl, ◌∙◌, inl, inr, true, false, List, [], ◌∷◌, map, arith, ◌==◌, eq_iff, exists,
  All, Bool, if◌then◌else◌, Bool-cases,
}
use allas_code_blueprint.Prelude.Int.{ℤ, pos, ◌+ℤ◌, ◌-ℤ◌, int_laws}
use allas_code_blueprint.Prelude.Dict.{Dict, get, put, get-put}
use allas_code_blueprint.Commerce.{CommerceItem, ActionResult, ok, error}
use allas_code_blueprint.Commerce.Stock.{
  stock_of, take_item, take_items, add_item, add_items, lacks, movement_of, falls_short,
  apply_movements,
}

-- The product of no item.
abbrev pub Absent : String → List CommerceItem → Type 0
Absent p = All (λ i. (i.product_id == p) ≡ false)

-- No product stands in two items.
abbrev pub IsDistinct : List CommerceItem → Type 0
IsDistinct [] = Unit
IsDistinct (i ∷ is) = Absent i.product_id is × IsDistinct is

-- The total quantity of a product in a list of items.
unfoldable pub quantity_in : String → List CommerceItem → ℤ
quantity_in p [] = pos 0
quantity_in p (i ∷ is) =
    if i.product_id == p then i.quantity +ℤ quantity_in p is else quantity_in p is

take_item-stock :
    (p : String) (i : CommerceItem) (inventory : Dict ℤ)
    → stock_of p (take_item i inventory)
      ≡ (if i.product_id == p then stock_of p inventory -ℤ i.quantity else stock_of p inventory)
take_item-stock p i inventory = ground (
  arith,
  get-put i.product_id p (stock_of i.product_id inventory -ℤ i.quantity) inventory,
  eq_iff i.product_id p,
)

-- Whatever the items, the loop takes the total quantity of each product from its balance.
pub stock-take_items :
    (p : String) (is : List CommerceItem) (inventory : Dict ℤ)
    → stock_of p (take_items is inventory) ≡ stock_of p inventory -ℤ quantity_in p is
unfolding take_items quantity_in
stock-take_items p [] inventory = omega int_laws
stock-take_items p (i ∷ is) inventory = elim (Bool-cases (i.product_id == p)) [
  | inl same ↦
      let e : stock_of p (take_item i inventory) ≡ stock_of p inventory -ℤ i.quantity =
        take_item-stock p i inventory ∙ rw same refl in
      rw (stock-take_items p is (take_item i inventory), e, same) (omega int_laws)
  | inr other ↦
      let e : stock_of p (take_item i inventory) ≡ stock_of p inventory =
        take_item-stock p i inventory ∙ rw other refl in
      rw (stock-take_items p is (take_item i inventory), e, other) refl
]

add_item-stock :
    (p : String) (i : CommerceItem) (inventory : Dict ℤ)
    → stock_of p (add_item i inventory)
      ≡ (if i.product_id == p then stock_of p inventory +ℤ i.quantity else stock_of p inventory)
add_item-stock p i inventory = ground (
  arith,
  get-put i.product_id p (stock_of i.product_id inventory +ℤ i.quantity) inventory,
  eq_iff i.product_id p,
)

pub stock-add_items :
    (p : String) (is : List CommerceItem) (inventory : Dict ℤ)
    → stock_of p (add_items is inventory) ≡ stock_of p inventory +ℤ quantity_in p is
unfolding add_items quantity_in
stock-add_items p [] inventory = omega int_laws
stock-add_items p (i ∷ is) inventory = elim (Bool-cases (i.product_id == p)) [
  | inl same ↦
      let e : stock_of p (add_item i inventory) ≡ stock_of p inventory +ℤ i.quantity =
        add_item-stock p i inventory ∙ rw same refl in
      rw (stock-add_items p is (add_item i inventory), e, same) (omega int_laws)
  | inr other ↦
      let e : stock_of p (add_item i inventory) ≡ stock_of p inventory =
        add_item-stock p i inventory ∙ rw other refl in
      rw (stock-add_items p is (add_item i inventory), e, other) refl
]

-- The loop over the movements writes, for a product that one item has, the balance less its
-- quantity.
movements-Absent :
    (p : String) (is : List CommerceItem) (old inventory : Dict ℤ)
    → Absent p is
    → get p (apply_movements (map (movement_of old) is) inventory) ≡ get p inventory
unfolding apply_movements
movements-Absent p [] old inventory h = refl
movements-Absent p (i ∷ is) old inventory (other, h) =
    movements-Absent p is old _ h
    ∙ get-put i.product_id p (stock_of i.product_id old -ℤ i.quantity) inventory
    ∙ rw other refl

-- The balances that matter agree.
pub SameStock : Dict ℤ → Dict ℤ → List CommerceItem → Type 0
SameStock old inventory = All (λ i. stock_of i.product_id inventory ≡ stock_of i.product_id old)

Absent-SameStock :
    (p : String) (v : ℤ) (is : List CommerceItem) (old inventory : Dict ℤ)
    → Absent p is
    → SameStock old inventory is
    → SameStock old (put p v inventory) is
unfolding SameStock
Absent-SameStock p v [] old inventory h k = tt
Absent-SameStock p v (i ∷ is) old inventory (other, h) (same, k) = (
  ground (arith, get-put p i.product_id v inventory, eq_iff p i.product_id, eq_iff i.product_id p),
  Absent-SameStock p v is old inventory h k,
)

-- Without repeated products the two loops write the same.
pub movements-take_items :
    (is : List CommerceItem) (old inventory : Dict ℤ)
    → IsDistinct is
    → SameStock old inventory is
    → apply_movements (map (movement_of old) is) inventory ≡ take_items is inventory
unfolding apply_movements take_items SameStock
movements-take_items [] old inventory d k = refl
movements-take_items (i ∷ is) old inventory (absent, d) (same, k) =
    rw same
      (movements-take_items is old _ d (Absent-SameStock i.product_id _ is old inventory absent k))

pub SameStock-refl : (old : Dict ℤ) (is : List CommerceItem) → SameStock old old is
unfolding SameStock
SameStock-refl old [] = tt
SameStock-refl old (i ∷ is) = (refl, SameStock-refl old is)

pub exists-falls_short :
    (inventory : Dict ℤ) (is : List CommerceItem)
    → exists falls_short (map (movement_of inventory) is) ≡ exists (lacks inventory) is
exists-falls_short inventory [] = refl
exists-falls_short inventory (i ∷ is) = rw (exists-falls_short inventory is) refl

abbrev pub is_ok : ActionResult → Bool
is_ok (ok event payload) = true
is_ok (error event message) = false
