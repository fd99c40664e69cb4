-- ===== src/Commerce/Stock/Duplicates.antt =====
-- The stock actions on a sale that names a product twice.
use allas_code_blueprint.Prelude.{
  ◌≡◌, refl, sym, subst, ap, ◌∙◌, false, some, [], ◌∷◌, map, arith, ◌==◌, eq_refl, exists,
}
use allas_code_blueprint.Prelude.Int.{pos, ◌+ℤ◌, ◌-ℤ◌, ◌<ℤ◌, ltb_ℤ, int_laws}
use allas_code_blueprint.Prelude.Dict.{put, has, get-put_self}
use allas_code_blueprint.Commerce.{CommerceItem, Payload, CommerceState, ok}
use allas_code_blueprint.Commerce.Stock.{
  Step, stock_of, lacks, decrease_stock, decrease_stock_verified, movement_of, apply_movements,
}
use allas_code_blueprint.Commerce.Stock.Moves.{quantity_in}
use allas_code_blueprint.Commerce.Stock.Actions.{decrease_stock-serves_once}

-- When a named sale that was not served before consists of two items of one product, and the stock
-- covers each of the two alone but not both, decrease-stock succeeds and leaves the balance below zero.
pub decrease_stock-oversells :
    (state : CommerceState) (sale : Payload) (first second : CommerceItem)
    → sale.items ≡ some (first ∷ second ∷ [])
    → (sale.sale_id == "") ≡ false
    → has sale.sale_id state.applied_sale_stock ≡ false
    → first.product_id ≡ second.product_id
    → ltb_ℤ (stock_of first.product_id state.inventory) first.quantity ≡ false
    → ltb_ℤ (stock_of first.product_id state.inventory) second.quantity ≡ false
    → stock_of first.product_id state.inventory <ℤ first.quantity +ℤ second.quantity
    → let (result, after) = decrease_stock state sale in
      (result ≡ ok "StockDecreased" sale) × (stock_of first.product_id after.inventory <ℤ pos 0)
unfolding quantity_in
decrease_stock-oversells state sale first second given named fresh same one two both =
    let covered : exists (lacks state.inventory) (first ∷ second ∷ []) ≡ false = ground (arith) in
    let (done, balances, _) =
      decrease_stock-serves_once state sale (first ∷ second ∷ []) given named fresh covered in
    let total : quantity_in first.product_id (first ∷ second ∷ [])
        ≡ first.quantity +ℤ (second.quantity +ℤ pos 0) =
      rw
        (
          eq_refl first.product_id,
          ap (λ x. x == first.product_id) (sym same) ∙ eq_refl first.product_id,
        )
        refl in
    (done, rw (balances first.product_id, total) (omega int_laws))

verified_moves :
    (state : CommerceState) (sale : Payload) (first second : CommerceItem)
    → sale.items ≡ some (first ∷ second ∷ [])
    → (sale.sale_id == "") ≡ false
    → has sale.sale_id state.applied_sale_stock ≡ false
    → first.product_id ≡ second.product_id
    → ltb_ℤ (stock_of first.product_id state.inventory) first.quantity ≡ false
    → ltb_ℤ (stock_of first.product_id state.inventory) second.quantity ≡ false
    → decrease_stock_verified state sale ≡ (
      ok "StockDecreased" sale,
      record state {
        inventory =
            apply_movements
              (map (movement_of state.inventory) (first ∷ second ∷ []))
              state.inventory;
        applied_sale_stock = put sale.sale_id tt state.applied_sale_stock;
      },
    )
unfolding decrease_stock_verified
verified_moves state sale first second given named fresh same one two = ground arith

-- When a named sale that was not served before consists of two items of one product and the stock
-- covers each of the two alone, the verified alternative succeeds and takes the quantity of the second item only.
pub decrease_stock_verified-forgets :
    (state : CommerceState) (sale : Payload) (first second : CommerceItem)
    → sale.items ≡ some (first ∷ second ∷ [])
    → (sale.sale_id == "") ≡ false
    → has sale.sale_id state.applied_sale_stock ≡ false
    → first.product_id ≡ second.product_id
    → ltb_ℤ (stock_of first.product_id state.inventory) first.quantity ≡ false
    → ltb_ℤ (stock_of first.product_id state.inventory) second.quantity ≡ false
    → let (result, after) = decrease_stock_verified state sale in
      (result ≡ ok "StockDecreased" sale)
      × (stock_of first.product_id after.inventory
          ≡ stock_of first.product_id state.inventory -ℤ second.quantity)
unfolding apply_movements
decrease_stock_verified-forgets state sale first second given named fresh same one two =
    subst
      (λ ((result, after) : Step).
        (result ≡ ok "StockDecreased" sale)
        × (stock_of first.product_id after.inventory
            ≡ stock_of first.product_id state.inventory -ℤ second.quantity))
      (sym (verified_moves state sale first second given named fresh same one two))
      (
        refl,
        rw
            (
              same,
              get-put_self second.product_id
                  (stock_of second.product_id state.inventory -ℤ second.quantity),
            )
            refl,
      )
