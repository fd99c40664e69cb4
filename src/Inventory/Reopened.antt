-- ===== src/Inventory/Reopened.antt =====
-- A product that is registered a second time.
use allas_code_blueprint.Prelude.{
  String, ◌≡◌, Bool-cases, inl, inr, false, some, List, [], ◌∷◌, ◌==◌, or_else,
}
use allas_code_blueprint.Prelude.Int.{ℤ, pos, ◌+ℤ◌, ltb_ℤ, int_laws}
use allas_code_blueprint.Prelude.Dict.{get, get-put_self}
use allas_code_blueprint.Inventory.{
  InventoryMovement, InventoryProduct, InventoryManagement, register, ledger_from, ledger_balance,
}

ledger_from-sum :
    (sum : ℤ) (p : String) (ms : List InventoryMovement)
    → ledger_from sum p ms ≡ sum +ℤ ledger_from (pos 0) p ms
unfolding ledger_from
ledger_from-sum sum p [] = omega int_laws
ledger_from-sum sum p (m ∷ ms) = elim (Bool-cases (m.product_id == p)) [
  | inl same ↦
      let whole = ledger_from-sum (sum +ℤ m.delta) p ms in
      let part = ledger_from-sum (pos 0 +ℤ m.delta) p ms in rw (same, whole, part) (omega int_laws)
  | inr other ↦ rw other (ledger_from-sum sum p ms)
]

-- Registering a product sets its balance and its opening balance, and keeps the movements that were
-- made under its identifier: the ledger of the product is its balance and these movements together.
pub register-reopens :
    (product : InventoryProduct) (inventory : InventoryManagement)
    → ltb_ℤ product.minimum_stock (pos 0) ≡ false
    → let after = or_else (register product inventory) inventory in
      (get product.product_id after.products ≡ some product)
      × (ledger_balance product.product_id after
          ≡ product.balance +ℤ ledger_from (pos 0) product.product_id inventory.movements)
unfolding register
register-reopens product inventory valid =
    let stored = get-put_self product.product_id product inventory.products in
    let opened = get-put_self product.product_id product.balance inventory.opening_balances in
    (
      rw (valid) stored,
      rw (valid, opened) (ledger_from-sum product.balance product.product_id inventory.movements),
    )
