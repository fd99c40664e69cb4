-- ===== src/Commerce/Sales.antt =====
-- The actions on sales and purchases: resolve-sale-products, associate-customer-to-sale, close-sale,
-- register-purchase, record-purchase-expense and authorize-operator-intent.
pub mod Books
use allas_code_blueprint.Prelude.{
  ◌<>◌, String, Bool, true, false, not, ◌&&◌, ◌||◌, Option, none, some, List, [], ◌∷◌, ◌==◌,
  or_else, is_some, is_empty, exists, if◌then◌else◌,
}
use allas_code_blueprint.Prelude.Int.{ℤ, pos, ◌+ℤ◌, ◌*ℤ◌, ltb_ℤ, leb_ℤ}
use allas_code_blueprint.Prelude.Dict.{get, put, has}
use allas_code_blueprint.Commerce.{
  CommerceItem, Payload, no_payload, LedgerEntry, CommerceState, ActionResult, ok, error,
}
use allas_code_blueprint.Commerce.Stock.{Step}

-- `items.reduce((total, item) => total + item.quantity * item.unit_price, total)`.
unfoldable pub amount_from : ℤ → List CommerceItem → ℤ
amount_from total [] = total
amount_from total (item ∷ items) = amount_from (total +ℤ item.quantity *ℤ item.unit_price) items

abbrev pub amount_of : List CommerceItem → ℤ
amount_of items = amount_from (pos 0) items

abbrev pub is_invalid : CommerceItem → Bool
is_invalid item = leb_ℤ item.quantity (pos 0) || ltb_ℤ item.unit_price (pos 0)

unfoldable pub resolve_sale_products : CommerceState → Payload → Step
resolve_sale_products state sale =
    let unnamed = error "SaleProductsResolutionError" "Sale must identify at least one product" in
    elim sale.items [
      | none ↦ (unnamed, state)
      | some items ↦
          if sale.sale_id == "" || is_empty items
          then (unnamed, state)
          else if exists is_invalid items
          then (error "SaleProductsResolutionError" "Sale items are invalid", state)
          else (ok "SaleProductsResolved" sale, state)
    ]

unfoldable pub associate_customer_to_sale : CommerceState → Payload → Step
associate_customer_to_sale state input =
    let failed : String → Step = λ message. (error "CustomerAssociationError" message, state) in
    if input.sale_id == "" || input.customer_id == ""
    then failed "sale_id and customer_id are required"
    else elim (get input.sale_id state.sales) [
      | none ↦ failed "sale not found"
      | some sale ↦
          if not (sale.customer_id == "") && not (sale.customer_id == input.customer_id)
          then failed "sale already associated with another customer"
          else (
            ok "CustomerAssociatedToSale" input,
            record state {
              sales =
                  put input.sale_id (record sale { customer_id = input.customer_id }) state.sales;
            },
          )
    ]

abbrev pub revenue_entry : Payload → List CommerceItem → LedgerEntry
revenue_entry sale items = record {
  id = "sale:" <> sale.sale_id;
  kind = "sale-revenue";
  reference_id = sale.sale_id;
  amount = amount_of items;
  currency = sale.currency;
}

-- `none` is the TypeError of a served sale without items that is not in the ledger.
unfoldable pub close_sale : CommerceState → Payload → Option Step
close_sale state sale =
    if sale.sale_id == "" || not (has sale.sale_id state.applied_sale_stock)
    then some (error "SaleCloseError" "Stock must be decreased before the sale can close", state)
    else if has ("sale:" <> sale.sale_id) state.ledger
    then some (ok "SaleCompleted" sale, state)
    else elim sale.items [
      | none ↦ none
      | some items ↦ some (
        ok "SaleCompleted" sale,
        record state {
          ledger = put ("sale:" <> sale.sale_id) (revenue_entry sale items) state.ledger;
          sales = put sale.sale_id sale state.sales;
        },
      )
    ]

unfoldable pub register_purchase : CommerceState → Payload → Step
register_purchase state payload =
    let failed : String → Step = λ message. (error "PurchaseRegistrationError" message, state) in
    elim payload.items [
      | none ↦ failed "Invalid purchase payload"
      | some items ↦
          if payload.purchase_id == ""
            || payload.supplier_id == ""
            || not (payload.currency == "BRL")
            || is_empty items
          then failed "Invalid purchase payload"
          else if exists is_invalid items
          then failed "Purchase items must have positive quantity and non-negative price"
          else let purchase = or_else (get payload.purchase_id state.purchases) payload in
            (
              ok "PurchaseRegistered" purchase,
              record state { purchases = put purchase.purchase_id purchase state.purchases },
            )
    ]

abbrev pub expense_entry : Payload → List CommerceItem → LedgerEntry
expense_entry purchase items = record {
  id = "purchase:" <> purchase.purchase_id;
  kind = "purchase-expense";
  reference_id = purchase.purchase_id;
  amount = amount_of items;
  currency = purchase.currency;
}

unfoldable pub record_purchase_expense : CommerceState → Payload → Step
record_purchase_expense state purchase =
    let failed = error "PurchaseExpenseRecordingError" "StockIncreased payload is required" in
    let id = "purchase:" <> purchase.purchase_id in
    elim purchase.items [
      | none ↦ (failed, state)
      | some items ↦
          if purchase.purchase_id == ""
          then (failed, state)
          else if has id state.ledger
          then (ok "PurchaseCompleted" purchase, state)
          else (
            ok "PurchaseCompleted" purchase,
            record state { ledger = put id (expense_entry purchase items) state.ledger },
          )
    ]

unfoldable pub authorize_operator_intent : CommerceState → Payload → Step
authorize_operator_intent state input =
    let refused : Step = (error "OperatorAuthorizationError" "operator is not active", state) in
    if input.user_id == ""
    then (error "OperatorAuthorizationError" "user_id is required", state)
    else elim (get input.user_id state.users) [
      | none ↦ refused
      | some user ↦
          if not (user.status == "active")
          then refused
          else (ok "OperatorAuthorized" (record no_payload { user_id = user.user_id }), state)
    ]
