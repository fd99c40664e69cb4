-- ===== src/Inventory/Reconciled.antt =====
-- The stored balances and the ledger of movements.
use allas_code_blueprint.Prelude.{
  String, ◌<>◌, ◌≡◌, refl, sym, subst, ◌⊎◌, inl, inr, false, not, ◌&&◌, Bool-cases, Option-cases,
  Option, none, some, List, [], ◌∷◌, ◌++◌, ℕ, ◌+◌, length, ◌==◌, eq_iff, arith, or_else,
  if◌then◌else◌,
}
use allas_code_blueprint.Prelude.Int.{ℤ, pos, ◌+ℤ◌, ltb_ℤ, eq_ℤ}
use allas_code_blueprint.Prelude.Dict.{get, put, get-put}
use allas_code_blueprint.Inventory.{
  InventoryMovement, InventoryProduct, InventoryManagement, PolicyPort, MovementInput, ledger_from,
  ledger_balance, movement_of, is_adjustment, mutate_locked, mutate,
}

ledger_from-append :
    (sum : ℤ) (p : String) (m : InventoryMovement) (ms : List InventoryMovement)
    → ledger_from sum p (ms ++ (m ∷ []))
      ≡ (if m.product_id == p then ledger_from sum p ms +ℤ m.delta else ledger_from sum p ms)
unfolding ledger_from
ledger_from-append sum p m [] = refl
ledger_from-append sum p m (n ∷ ms) =
    ledger_from-append (if n.product_id == p then sum +ℤ n.delta else sum) p m ms

-- The product of an identifier has this identifier and the balance of its ledger.
abbrev pub Agrees : String → InventoryManagement → Option InventoryProduct → Type 0
Agrees p inventory none = Unit
Agrees p inventory (some product) =
    (product.product_id ≡ p) × (product.balance ≡ ledger_balance p inventory)

abbrev pub IsReconciled : InventoryManagement → Type 0
IsReconciled inventory = (p : String) → Agrees p inventory (get p inventory.products)

-- The product is not below zero unless it may be.
abbrev pub IsAllowed : Option InventoryProduct → Type 0
IsAllowed none = Unit
IsAllowed (some product) = (ltb_ℤ product.balance (pos 0) && not product.allow_negative) ≡ false

abbrev pub changed_product : MovementInput → InventoryProduct → InventoryProduct
changed_product input product = record product { balance = product.balance +ℤ input.delta }

module _ (can_adjust : PolicyPort) (show_number : ℕ → String) where
  abbrev pub new_movement :
      String → MovementInput → InventoryProduct → InventoryManagement → InventoryMovement
  new_movement now input product inventory =
      movement_of ("mov-" <> show_number (length inventory.movements + 1)) now input product
        (product.balance +ℤ input.delta)

  abbrev pub moved :
      String → MovementInput → InventoryProduct → InventoryManagement → InventoryManagement
  moved now input product inventory = record inventory {
    products = put input.product_id (changed_product input product) inventory.products;
    movements = inventory.movements ++ (new_movement now input product inventory ∷ []);
    idempotency =
        put input.idempotency_key (new_movement now input product inventory) inventory.idempotency;
  }

  -- Nothing changed, or one movement was made.
  mutate_cases :
      (now : String) (input : MovementInput) (inventory : InventoryManagement)
      → let after = (mutate can_adjust show_number now input inventory).1 in
        (after ≡ inventory)
        ⊎ ((product : InventoryProduct) × (get input.product_id inventory.products ≡ some product)
            × ((ltb_ℤ (product.balance +ℤ input.delta) (pos 0) && not product.allow_negative)
                ≡ false)
            × (after ≡ moved now input product inventory))
  unfolding mutate mutate_locked
  mutate_cases now input inventory = elim (Bool-cases (eq_ℤ input.delta (pos 0))) [
    | inl nothing ↦ inl (ground arith)
    | inr something ↦ elim (Option-cases (get input.idempotency_key inventory.idempotency)) [
      | inr (movement, known) ↦ inl (ground arith)
      | inl fresh ↦ elim (Option-cases (get input.product_id inventory.products)) [
        | inl missing ↦ inl (ground arith)
        | inr (product, there) ↦
            elim (Bool-cases
              (is_adjustment input.kind && not (can_adjust input.context product input.delta))) [
                | inl refused ↦ inl (ground arith)
                | inr allowed ↦
                    elim (Bool-cases (
                      ltb_ℤ (product.balance +ℤ input.delta) (pos 0)
                      && not product.allow_negative)) [
                        | inl negative ↦ inl (ground arith)
                        | inr fine ↦ inr (product, there, fine, ground arith)
                      ]
              ]
      ]
    ]
  ]

  moved-IsReconciled :
      (now : String) (input : MovementInput) (product : InventoryProduct)
      (inventory : InventoryManagement)
      → IsReconciled inventory
      → get input.product_id inventory.products ≡ some product
      → IsReconciled (moved now input product inventory)
  moved-IsReconciled now input product inventory reconciled there p =
      let here = reconciled p in
      let own = reconciled input.product_id in
      let opening = or_else (get p inventory.opening_balances) (pos 0) in
      ground (
        arith,
        get-put input.product_id p (changed_product input product) inventory.products,
        ledger_from-append opening p (new_movement now input product inventory) inventory.movements,
        eq_iff input.product_id p,
        eq_iff product.product_id p,
      )

  -- From an inventory where every balance is its opening balance with the movements of its product,
  -- every movement and adjustment, whatever it answers, leaves one.
  pub mutate-IsReconciled :
      (now : String) (input : MovementInput) (inventory : InventoryManagement)
      → IsReconciled inventory
      → IsReconciled (mutate can_adjust show_number now input inventory).1
  mutate-IsReconciled now input inventory reconciled = elim (mutate_cases now input inventory) [
    | inl same ↦ subst IsReconciled (sym same) reconciled
    | inr (product, there, _, changed) ↦
        subst IsReconciled (sym changed)
          (moved-IsReconciled now input product inventory reconciled there)
  ]

  -- No movement brings a product below zero that may not be.
  mutate-IsAllowed :
      (now p : String) (input : MovementInput) (inventory : InventoryManagement)
      → IsAllowed (get p inventory.products)
      → IsAllowed (get p (mutate can_adjust show_number now input inventory).1.products)
  mutate-IsAllowed now p input inventory allowed = elim (mutate_cases now input inventory) [
    | inl same ↦
        subst (λ (i : InventoryManagement). IsAllowed (get p i.products)) (sym same) allowed
    | inr (product, there, fine, changed) ↦
        subst (λ (i : InventoryManagement). IsAllowed (get p i.products)) (sym changed)
          (ground
            (arith, get-put input.product_id p (changed_product input product) inventory.products))
  ]
