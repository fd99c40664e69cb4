-- ===== src/Commerce/Stock.antt =====
-- The actions that move stock: increase-stock, decrease-stock and its verified alternative.
pub mod Moves
pub mod Actions
pub mod Duplicates
use allas_code_blueprint.Prelude.{
  ◌<>◌, String, Bool, true, false, not, ◌||◌, Option, none, some, List, [], ◌∷◌, map, ◌==◌, or_else,
  is_some, exists, find, if◌then◌else◌,
}
use allas_code_blueprint.Prelude.Int.{ℤ, pos, ◌+ℤ◌, ◌-ℤ◌, ltb_ℤ}
use allas_code_blueprint.Prelude.Dict.{Dict, get, put, has}
use allas_code_blueprint.Commerce.{CommerceItem, Payload, CommerceState, ActionResult, ok, error}

abbrev pub Step : Type 0
Step = ActionResult × CommerceState

abbrev pub stock_of : String → Dict ℤ → ℤ
stock_of p inventory = or_else (get p inventory) (pos 0)

abbrev pub add_item : CommerceItem → Dict ℤ → Dict ℤ
add_item item inventory =
    put item.product_id (stock_of item.product_id inventory +ℤ item.quantity) inventory

abbrev pub take_item : CommerceItem → Dict ℤ → Dict ℤ
take_item item inventory =
    put item.product_id (stock_of item.product_id inventory -ℤ item.quantity) inventory

-- The `for` loops over the items.
unfoldable pub add_items : List CommerceItem → Dict ℤ → Dict ℤ
add_items [] inventory = inventory
add_items (item ∷ items) inventory = add_items items (add_item item inventory)

unfoldable pub take_items : List CommerceItem → Dict ℤ → Dict ℤ
take_items [] inventory = inventory
take_items (item ∷ items) inventory = take_items items (take_item item inventory)

-- The first item that the inventory cannot serve by itself.
abbrev pub lacks : Dict ℤ → CommerceItem → Bool
lacks inventory item = ltb_ℤ (stock_of item.product_id inventory) item.quantity

unfoldable pub increase_stock : CommerceState → Payload → Step
increase_stock state purchase =
    let failed = error "StockIncreaseError" "PurchaseRegistered payload is required" in
    let done = ok "StockIncreased" purchase in
    elim purchase.items [
      | none ↦ (failed, state)
      | some items ↦
          if purchase.purchase_id == ""
          then (failed, state)
          else if has purchase.purchase_id state.applied_purchase_stock
          then (done, state)
          else (
            done,
            record state {
              inventory = add_items items state.inventory;
              applied_purchase_stock = put purchase.purchase_id tt state.applied_purchase_stock;
            },
          )
    ]

abbrev pub insufficient : Option CommerceItem → String
insufficient none = ""
insufficient (some item) = "Insufficient stock for " <> item.product_id

unfoldable pub decrease_stock : CommerceState → Payload → Step
decrease_stock state sale =
    let failed = error "StockDecreaseError" "SaleProductsResolved payload is required" in
    let done = ok "StockDecreased" sale in
    elim sale.items [
      | none ↦ (failed, state)
      | some items ↦
          if sale.sale_id == ""
          then (failed, state)
          else if has sale.sale_id state.applied_sale_stock
          then (done, state)
          else if exists (lacks state.inventory) items
          then (
            error "StockDecreaseError" (insufficient (find (lacks state.inventory) items)),
            state,
          )
          else (
            done,
            record state {
              inventory = take_items items state.inventory;
              applied_sale_stock = put sale.sale_id tt state.applied_sale_stock;
            },
          )
    ]

pub record Movement : Type 0 where
  pub product_id : String
  pub quantity_removed : ℤ
  pub current : ℤ

abbrev pub movement_of : Dict ℤ → CommerceItem → Movement
movement_of inventory item = record {
  product_id = item.product_id;
  quantity_removed = item.quantity;
  current = stock_of item.product_id inventory;
}

abbrev pub falls_short : Movement → Bool
falls_short movement = ltb_ℤ movement.current movement.quantity_removed

-- Each movement writes the balance that was read before the loop, less its own quantity.
unfoldable pub apply_movements : List Movement → Dict ℤ → Dict ℤ
apply_movements [] inventory = inventory
apply_movements (m ∷ ms) inventory =
    apply_movements ms (put m.product_id (m.current -ℤ m.quantity_removed) inventory)

unfoldable pub decrease_stock_verified : CommerceState → Payload → Step
decrease_stock_verified state sale =
    let failed = error "StockDecreaseError" "SaleProductsResolved payload is required" in
    let done = ok "StockDecreased" sale in
    elim sale.items [
      | none ↦ (failed, state)
      | some items ↦
          if sale.sale_id == ""
          then (failed, state)
          else if has sale.sale_id state.applied_sale_stock
          then (done, state)
          else let movements = map (movement_of state.inventory) items in
            if exists falls_short movements
            then (error "StockDecreaseError" "Insufficient stock in verified path", state)
            else (
              done,
              record state {
                inventory = apply_movements movements state.inventory;
                applied_sale_stock = put sale.sale_id tt state.applied_sale_stock;
              },
            )
    ]
