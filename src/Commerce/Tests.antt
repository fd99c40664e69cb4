-- ===== src/Commerce/Tests.antt =====
-- The commerce actions on a small shop, and the theorems at their inputs.
use allas_code_blueprint.Prelude.{arith, String, ◌<>◌, ◌≡◌, refl, some, List, [], ◌∷◌}
use allas_code_blueprint.Prelude.Int.{pos, ◌+ℤ◌, ◌-ℤ◌, ◌*ℤ◌, ◌<ℤ◌}
use allas_code_blueprint.Prelude.Dict.{get, put}
use allas_code_blueprint.Commerce.{
  CommerceItem, Payload, no_payload, LedgerEntry, CommerceState, create_commerce_state, ok, error,
}
use allas_code_blueprint.Commerce.Stock.{
  stock_of, add_items, take_items, increase_stock, decrease_stock, apply_movements,
  decrease_stock_verified,
}
use allas_code_blueprint.Commerce.Stock.Moves.{quantity_in, is_ok}
use allas_code_blueprint.Commerce.Stock.Actions.{
  decrease_stock_verified-decrease_stock, decrease_stock-serves_once,
}
use allas_code_blueprint.Commerce.Stock.Duplicates.{
  decrease_stock-oversells, decrease_stock_verified-forgets,
}
use allas_code_blueprint.Commerce.Sales.{
  amount_from, revenue_entry, close_sale, associate_customer_to_sale, register_purchase,
  record_purchase_expense,
}
use allas_code_blueprint.Commerce.Sales.Books.{closed, decrease_stock-close_sale}
use allas_code_blueprint.Commerce.Accounting.{
  from_event, issue_sale_invoice, normalize, record_accounting_effect,
}

abbrev two_coffees : CommerceItem
two_coffees = record { product_id = "coffee"; quantity = pos 2; unit_price = pos 2490 }

abbrev tea : CommerceItem
tea = record { product_id = "tea"; quantity = pos 1; unit_price = pos 900 }

abbrev basket : List CommerceItem
basket = two_coffees ∷ tea ∷ []

abbrev sale : Payload
sale = record no_payload { sale_id = "s1"; currency = "BRL"; items = some basket }

abbrev twice : Payload
twice = record sale { items = some (two_coffees ∷ two_coffees ∷ []) }

abbrev purchase : Payload
purchase = record no_payload {
  purchase_id = "p1";
  supplier_id = "sup";
  currency = "BRL";
  items = some basket;
}

abbrev shop : CommerceState
shop = record create_commerce_state { inventory = ("coffee", pos 3) ∷ ("tea", pos 1) ∷ [] }

-- Any text will do for the comparison of documents.
abbrev stringify : Payload → String
stringify payload = payload.sale_id

program : Unit {0}
unfolding get put increase_stock decrease_stock decrease_stock_verified add_items take_items
    apply_movements quantity_in amount_from close_sale associate_customer_to_sale register_purchase
    record_purchase_expense from_event issue_sale_invoice normalize record_accounting_effect ◌+ℤ◌
    ◌-ℤ◌ ◌*ℤ◌
program = tt

decrease_stock-serves_once_example :
    let (result, after) = decrease_stock shop sale in
    (result ≡ ok "StockDecreased" sale)
    × ((p : String)
        → stock_of p after.inventory ≡ stock_of p shop.inventory -ℤ quantity_in p basket)
    × (decrease_stock after sale ≡ (ok "StockDecreased" sale, after))
unfolding program
decrease_stock-serves_once_example = decrease_stock-serves_once shop sale basket refl refl refl refl

decrease_stock_verified-decrease_stock_example :
    let (verified, after_verified) = decrease_stock_verified shop sale in
    let (result, after) = decrease_stock shop sale in
    (is_ok verified ≡ is_ok result) × (after_verified ≡ after)
unfolding program
decrease_stock_verified-decrease_stock_example =
    decrease_stock_verified-decrease_stock shop sale basket refl ((refl, tt), (tt, tt))

decrease_stock-oversells_example :
    let (result, after) = decrease_stock shop twice in
    (result ≡ ok "StockDecreased" twice) × (stock_of "coffee" after.inventory <ℤ pos 0)
unfolding program
decrease_stock-oversells_example =
    decrease_stock-oversells shop twice two_coffees two_coffees refl refl refl refl refl refl
      (omega arith)

decrease_stock_verified-forgets_example :
    let (result, after) = decrease_stock_verified shop twice in
    (result ≡ ok "StockDecreased" twice)
    × (stock_of "coffee" after.inventory ≡ stock_of "coffee" shop.inventory -ℤ pos 2)
unfolding program
decrease_stock_verified-forgets_example =
    decrease_stock_verified-forgets shop twice two_coffees two_coffees refl refl refl refl refl refl

abbrev served_shop : CommerceState
unfolding program
served_shop = (decrease_stock shop sale).1

decrease_stock-close_sale_example :
    let (_, after) = decrease_stock shop sale in
    (close_sale shop sale
      ≡ some (error "SaleCloseError" "Stock must be decreased before the sale can close", shop))
    × (close_sale after sale ≡ some (ok "SaleCompleted" sale, closed after sale basket))
    × (get ("sale:" <> "s1") (closed after sale basket).ledger ≡ some (revenue_entry sale basket))
    × (close_sale (closed after sale basket) sale
        ≡ some (ok "SaleCompleted" sale, closed after sale basket))
unfolding program
decrease_stock-close_sale_example =
    decrease_stock-close_sale shop sale basket refl refl refl refl refl

abbrev line : LedgerEntry
line = record { id = "x"; kind = "k"; reference_id = "r"; amount = pos 1; currency = "BRL" }

abbrev booked : CommerceState
booked = record shop { ledger = ("x", line) ∷ [] }

abbrev with_sale : CommerceState
with_sale = record shop { sales = ("s1", sale) ∷ [] }

abbrev ana : Payload
ana = record no_payload { sale_id = "s1"; customer_id = "ana" }

abbrev bia : Payload
bia = record no_payload { sale_id = "s1"; customer_id = "bia" }

abbrev with_purchase : CommerceState
with_purchase = record shop { purchases = ("p1", purchase) ∷ [] }

abbrev invoiced : CommerceState
unfolding program
invoiced = (issue_sale_invoice stringify shop sale).1

abbrev sale_invoice : Payload
sale_invoice = record no_payload {
  invoice_id = "invoice:s1";
  sale_id = "s1";
  amount = some (pos 5880);
  currency = "BRL";
}
