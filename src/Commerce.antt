-- ===== src/Commerce.antt =====
-- runtime/types.ts and runtime/state.ts of the commerce example, and the actions under actions/.
-- A payload is an object of unknown shape that an action casts: here one record of all the fields
-- that the actions read, where a missing text is "" (both are falsy) and a missing number or array
-- is `none`. Numbers are integers, money in hundredths.
pub mod Stock
pub mod Sales
pub mod Accounting
mod Tests
use allas_code_blueprint.Prelude.{String, Option, List, [], none}
use allas_code_blueprint.Prelude.Int.{ℤ}
use allas_code_blueprint.Prelude.Dict.{Dict}

pub record CommerceItem : Type 0 where
  pub product_id : String
  pub quantity : ℤ
  pub unit_price : ℤ

pub record Payload : Type 0 where
  pub correlation_id : String
  pub idempotency_key : String
  pub sale_id : String
  pub purchase_id : String
  pub customer_id : String
  pub user_id : String
  pub supplier_id : String
  pub invoice_id : String
  pub accounting_entry_id : String
  pub source_id : String
  pub source_type : String
  pub currency : String
  pub status : String
  pub items : Option (List CommerceItem)
  pub amount : Option ℤ
  pub debit : Option ℤ
  pub credit : Option ℤ

abbrev pub no_payload : Payload
no_payload = record {
  correlation_id = "";
  idempotency_key = "";
  sale_id = "";
  purchase_id = "";
  customer_id = "";
  user_id = "";
  supplier_id = "";
  invoice_id = "";
  accounting_entry_id = "";
  source_id = "";
  source_type = "";
  currency = "";
  status = "";
  items = none;
  amount = none;
  debit = none;
  credit = none;
}

pub record LedgerEntry : Type 0 where
  pub id : String
  pub kind : String
  pub reference_id : String
  pub amount : ℤ
  pub currency : String

-- `Set<string>` is a dictionary of units.
pub record CommerceState : Type 0 where
  pub inventory : Dict ℤ
  pub purchases : Dict Payload
  pub sales : Dict Payload
  pub ledger : Dict LedgerEntry
  pub users : Dict Payload
  pub invoices : Dict Payload
  pub accounting_entries : Dict Payload
  pub applied_purchase_stock : Dict (Unit {0})
  pub applied_sale_stock : Dict (Unit {0})

abbrev pub create_commerce_state : CommerceState
create_commerce_state = record {
  inventory = [];
  purchases = [];
  sales = [];
  ledger = [];
  users = [];
  invoices = [];
  accounting_entries = [];
  applied_purchase_stock = [];
  applied_sale_stock = [];
}

-- `payload` of an error is its message.
pub data ActionResult : Type 0 where
  ok : (event : String) → Payload → ActionResult
  error : (event : String) → (message : String) → ActionResult
