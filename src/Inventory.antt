-- ===== src/Inventory.antt =====
-- inventory/inventory-management.ts: InventoryManagement. The executor that runs the tasks of one
-- product one after the other makes a task one step here; the clock and the printing of numbers are
-- arguments, the policy port is a function, and quantities are integers.
pub mod Reconciled
pub mod Reopened
mod Tests
use allas_code_blueprint.Prelude.{
  String, ◌<>◌, Bool, true, false, not, ◌&&◌, Option, none, some, List, [], ◌∷◌, ◌++◌, map, ℕ, ◌+◌,
  length, select, ◌==◌, or_else, is_empty, if◌then◌else◌,
}
use allas_code_blueprint.Prelude.Int.{ℤ, pos, ◌+ℤ◌, ◌-ℤ◌, ltb_ℤ, leb_ℤ, eq_ℤ}
use allas_code_blueprint.Prelude.Dict.{Dict, get, put, values}
use allas_code_blueprint.Prelude.Text.{codes, trim}

pub data InventoryMovementKind : Type 0 where
  purchase sale adjustment reconciliation : InventoryMovementKind

abbrev pub is_adjustment : InventoryMovementKind → Bool
is_adjustment purchase = false
is_adjustment sale = false
is_adjustment adjustment = true
is_adjustment reconciliation = false

pub record InventoryMovement : Type 0 where
  pub movement_id : String
  pub product_id : String
  pub kind : InventoryMovementKind
  pub delta : ℤ
  pub balance_after : ℤ
  pub reason : String
  pub correlation_id : String
  pub idempotency_key : String
  pub operator_id : Option String
  pub at : String

pub record InventoryProduct : Type 0 where
  pub product_id : String
  pub balance : ℤ
  pub minimum_stock : ℤ
  pub allow_negative : Bool

pub record InventoryPolicyContext : Type 0 where
  pub operator_id : Option String
  pub capabilities : List String

pub data InventoryErrorCode : Type 0 where
  unauthorized reason_required negative_stock_forbidden invalid_delta product_not_found :
      InventoryErrorCode

pub data InventoryAdjustmentResult : Type 0 where
  ok : InventoryProduct → InventoryMovement → (duplicate : Bool) → InventoryAdjustmentResult
  error : InventoryErrorCode → InventoryAdjustmentResult

pub record InventoryManagement : Type 0 where
  pub products : Dict InventoryProduct
  pub opening_balances : Dict ℤ
  pub movements : List InventoryMovement
  pub idempotency : Dict InventoryMovement

abbrev pub PolicyPort : Type 0
PolicyPort = InventoryPolicyContext → InventoryProduct → ℤ → Bool

-- The input of `mutate`.
pub record MovementInput : Type 0 where
  pub product_id : String
  pub delta : ℤ
  pub kind : InventoryMovementKind
  pub reason : String
  pub correlation_id : String
  pub idempotency_key : String
  pub context : InventoryPolicyContext

abbrev pub Outcome : Type 0
Outcome = InventoryAdjustmentResult × InventoryManagement

-- `none` is the Error 'InvalidInventoryProduct'.
unfoldable pub register : InventoryProduct → InventoryManagement → Option InventoryManagement
register product inventory =
    if ltb_ℤ product.minimum_stock (pos 0)
    then none
    else some (record inventory {
      products = put product.product_id product inventory.products;
      opening_balances = put product.product_id product.balance inventory.opening_balances;
    })

abbrev pub repeated : InventoryMovement → InventoryManagement → InventoryAdjustmentResult
repeated movement inventory = elim (get movement.product_id inventory.products) [
  | none ↦ error product_not_found
  | some product ↦ ok product movement true
]

abbrev pub movement_of :
    (id now : String) → MovementInput → InventoryProduct → ℤ → InventoryMovement
movement_of id now input product next = record {
  movement_id = id;
  product_id = product.product_id;
  kind = input.kind;
  delta = input.delta;
  balance_after = next;
  reason = input.reason;
  correlation_id = input.correlation_id;
  idempotency_key = input.idempotency_key;
  operator_id = input.context.operator_id;
  at = now;
}

abbrev pub is_low : InventoryProduct → Bool
is_low product = leb_ℤ product.balance product.minimum_stock

unfoldable pub low_stock_alerts : InventoryManagement → List InventoryProduct
low_stock_alerts inventory = select is_low (values inventory.products)

-- `reduce((sum, m) => sum + m.delta, sum)` over the movements of the product.
unfoldable pub ledger_from : ℤ → String → List InventoryMovement → ℤ
ledger_from sum p [] = sum
ledger_from sum p (m ∷ ms) = ledger_from (if m.product_id == p then sum +ℤ m.delta else sum) p ms

abbrev pub ledger_balance : String → InventoryManagement → ℤ
ledger_balance p inventory =
    ledger_from (or_else (get p inventory.opening_balances) (pos 0)) p inventory.movements

pub record InventoryReconciliationRow : Type 0 where
  pub product_id : String
  pub stored_balance : ℤ
  pub ledger : ℤ
  pub difference : ℤ
  pub consistent : Bool

abbrev pub reconciliation_row : InventoryManagement → InventoryProduct → InventoryReconciliationRow
reconciliation_row inventory product =
    let ledger = ledger_balance product.product_id inventory in
    record {
      product_id = product.product_id;
      stored_balance = product.balance;
      ledger = ledger;
      difference = product.balance -ℤ ledger;
      consistent = eq_ℤ (product.balance -ℤ ledger) (pos 0);
    }

unfoldable pub reconciliation_rows : InventoryManagement → List InventoryReconciliationRow
reconciliation_rows inventory = map (reconciliation_row inventory) (values inventory.products)

module _ (can_adjust : PolicyPort) (show_number : ℕ → String) where
  -- What runs under the lock of the product.
  unfoldable pub mutate_locked : (now : String) → MovementInput → InventoryManagement → Outcome
  mutate_locked now input inventory = elim (get input.idempotency_key inventory.idempotency) [
    | some movement ↦ (repeated movement inventory, inventory)
    | none ↦ elim (get input.product_id inventory.products) [
      | none ↦ (error product_not_found, inventory)
      | some product ↦
          let next = product.balance +ℤ input.delta in
          if is_adjustment input.kind && not (can_adjust input.context product input.delta)
          then (error unauthorized, inventory)
          else if ltb_ℤ next (pos 0) && not product.allow_negative
          then (error negative_stock_forbidden, inventory)
          else let changed = record product { balance = next } in
            let movement =
              movement_of ("mov-" <> show_number (length inventory.movements + 1)) now input product
                next in
            (
              ok changed movement false,
              record inventory {
                products = put input.product_id changed inventory.products;
                movements = inventory.movements ++ (movement ∷ []);
                idempotency = put input.idempotency_key movement inventory.idempotency;
              },
            )
    ]
  ]

  unfoldable pub mutate : (now : String) → MovementInput → InventoryManagement → Outcome
  mutate now input inventory =
      if eq_ℤ input.delta (pos 0)
      then (error invalid_delta, inventory)
      else elim (get input.idempotency_key inventory.idempotency) [
        | some movement ↦ (repeated movement inventory, inventory)
        | none ↦ mutate_locked now input inventory
      ]

  -- The reason is the kind of the movement and the context has the one capability.
  unfoldable pub apply_domain_movement :
      (now : String) → MovementInput → InventoryManagement → Outcome
  apply_domain_movement now input inventory =
      mutate now
        (record input {
          reason = if is_sale input.kind then "sale" else "purchase";
          context = record { operator_id = none; capabilities = "inventory.domain-mutation" ∷ [] };
        })
        inventory
    where
      is_sale : InventoryMovementKind → Bool
      is_sale purchase = false
      is_sale sale = true
      is_sale adjustment = false
      is_sale reconciliation = false

  unfoldable pub adjust : (now : String) → MovementInput → InventoryManagement → Outcome
  adjust now input inventory =
      if is_empty (trim (codes input.reason))
      then (error reason_required, inventory)
      else mutate now (record input { kind = adjustment }) inventory
