-- ===== src/Inventory/Tests.antt =====
-- A small inventory, and the theorems at their inputs.
use allas_code_blueprint.Prelude.{arith, eq_iff, ◌≡◌, refl, true, false, none, some, [], or_else}
use allas_code_blueprint.Prelude.Int.{pos, negsuc, ◌+ℤ◌}
use allas_code_blueprint.Prelude.Dict.{get, put}
use allas_code_blueprint.Inventory.{
  adjustment, InventoryProduct, InventoryManagement, PolicyPort, MovementInput, register,
  ledger_from, ledger_balance, mutate_locked, mutate,
}
use allas_code_blueprint.Inventory.Reconciled.{IsReconciled, mutate-IsReconciled}
use allas_code_blueprint.Inventory.Reopened.{register-reopens}

program : Unit {0}
unfolding get put register ledger_from mutate_locked mutate ◌+ℤ◌
program = tt

abbrev empty : InventoryManagement
empty = record { products = []; opening_balances = []; movements = []; idempotency = [] }

abbrev coffee : InventoryProduct
coffee = record {
  product_id = "coffee";
  balance = pos 3;
  minimum_stock = pos 1;
  allow_negative = false;
}

abbrev everyone : PolicyPort
everyone context product delta = true

abbrev two_out : MovementInput
two_out = record {
  product_id = "coffee";
  delta = negsuc 1;
  kind = adjustment;
  reason = "count";
  correlation_id = "c1";
  idempotency_key = "k1";
  context = record { operator_id = none; capabilities = [] };
}

abbrev stocked : InventoryManagement
unfolding program
stocked = or_else (register coffee empty) empty

stocked-IsReconciled : IsReconciled stocked
unfolding program
stocked-IsReconciled = λ p. ground (arith, eq_iff "coffee" p)

mutate-IsReconciled_example : IsReconciled (mutate everyone (λ n. "1") "now" two_out stocked).1
unfolding program
mutate-IsReconciled_example =
    mutate-IsReconciled everyone (λ n. "1") "now" two_out stocked stocked-IsReconciled

abbrev moved : InventoryManagement
unfolding program
moved = (mutate everyone (λ n. "1") "now" two_out stocked).1

-- The balance is 3 again, the ledger says 1.
register-reopens_example :
    let after = or_else (register coffee moved) moved in
    (get "coffee" after.products ≡ some coffee)
    × (ledger_balance "coffee" after ≡ pos 3 +ℤ ledger_from (pos 0) "coffee" moved.movements)
unfolding program
register-reopens_example = register-reopens coffee moved refl
