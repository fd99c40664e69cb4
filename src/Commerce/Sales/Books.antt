-- ===== src/Commerce/Sales/Books.antt =====
-- What the actions on sales and purchases write into the books, and how they follow one another.
use allas_code_blueprint.Prelude.{
  ◌<>◌, String, ◌≡◌, refl, sym, subst, inl, inr, Option-cases, true, false, Option, none, some,
  List, ◌==◌, eq_iff, arith, exists,
}
use allas_code_blueprint.Prelude.Dict.{get, put, has, get-put, get-put_self}
use allas_code_blueprint.Commerce.{CommerceItem, Payload, LedgerEntry, CommerceState, ok, error}
use allas_code_blueprint.Commerce.Stock.{Step, lacks, decrease_stock}
use allas_code_blueprint.Commerce.Stock.Actions.{served, decrease_stock-serves}
use allas_code_blueprint.Commerce.Sales.{
  associate_customer_to_sale, revenue_entry, close_sale, register_purchase, record_purchase_expense,
  expense_entry,
}

abbrev pub closed : CommerceState → Payload → List CommerceItem → CommerceState
closed state sale items = record state {
  ledger = put ("sale:" <> sale.sale_id) (revenue_entry sale items) state.ledger;
  sales = put sale.sale_id sale state.sales;
}

close_sale-closes :
    (state : CommerceState) (sale : Payload) (items : List CommerceItem)
    → sale.items ≡ some items
    → (sale.sale_id == "") ≡ false
    → has sale.sale_id state.applied_sale_stock ≡ true
    → has ("sale:" <> sale.sale_id) state.ledger ≡ false
    → close_sale state sale ≡ some (ok "SaleCompleted" sale, closed state sale items)
unfolding close_sale
close_sale-closes state sale items given named applied fresh = ground arith

-- After decrease-stock has served a sale that the ledger does not have, close-sale completes it and
-- books its amount under its identifier, and a second close-sale changes nothing. Before
-- decrease-stock close-sale refuses the sale and changes nothing.
pub decrease_stock-close_sale :
    (state : CommerceState) (sale : Payload) (items : List CommerceItem)
    → sale.items ≡ some items
    → (sale.sale_id == "") ≡ false
    → has sale.sale_id state.applied_sale_stock ≡ false
    → exists (lacks state.inventory) items ≡ false
    → has ("sale:" <> sale.sale_id) state.ledger ≡ false
    → let (_, after) = decrease_stock state sale in
      (close_sale state sale
        ≡ some (error "SaleCloseError" "Stock must be decreased before the sale can close", state))
      × (close_sale after sale ≡ some (ok "SaleCompleted" sale, closed after sale items))
      × (get ("sale:" <> sale.sale_id) (closed after sale items).ledger
          ≡ some (revenue_entry sale items))
      × (close_sale (closed after sale items) sale
          ≡ some (ok "SaleCompleted" sale, closed after sale items))
unfolding close_sale
decrease_stock-close_sale state sale items given named fresh covered unbooked =
    let id = "sale:" <> sale.sale_id in
    let noted = get-put_self sale.sale_id tt state.applied_sale_stock in
    let booked = get-put_self id (revenue_entry sale items) state.ledger in
    subst
      (λ ((_, after) : Step).
        (close_sale state sale
          ≡ some
              (error "SaleCloseError" "Stock must be decreased before the sale can close", state))
        × (close_sale after sale ≡ some (ok "SaleCompleted" sale, closed after sale items))
        × (get id (closed after sale items).ledger ≡ some (revenue_entry sale items))
        × (close_sale (closed after sale items) sale
            ≡ some (ok "SaleCompleted" sale, closed after sale items)))
      (sym (decrease_stock-serves state sale items given named fresh covered))
      (
        ground arith,
        close_sale-closes (served state sale items) sale items given named (ground arith) unbooked,
        booked,
        ground arith,
      )

abbrev pub HasLine : String → LedgerEntry → Option Step → Type 0
HasLine id line none = Unit
HasLine id line (some (_, after)) = get id after.ledger ≡ some line

-- A line that the ledger has stays as it is when close-sale or record-purchase-expense run.
close_sale-keeps :
    (state : CommerceState) (sale : Payload) (id : String) (line : LedgerEntry)
    → get id state.ledger ≡ some line
    → HasLine id line (close_sale state sale)
      × HasLine id line (some (record_purchase_expense state sale))
unfolding close_sale record_purchase_expense
close_sale-keeps state sale id line h = elim (Option-cases sale.items) [
  | inl missing ↦ (ground arith, ground arith)
  | inr (items, given) ↦
      let kept_sale =
        get-put ("sale:" <> sale.sale_id) id (revenue_entry sale items) state.ledger in
      let kept_purchase =
        get-put ("purchase:" <> sale.purchase_id) id (expense_entry sale items) state.ledger in
      (
        ground (arith, eq_iff ("sale:" <> sale.sale_id) id),
        ground (arith, eq_iff ("purchase:" <> sale.purchase_id) id),
      )
]

-- A customer is associated once: after a success the sale has this customer, the same request
-- succeeds again, and a request of another customer is refused and changes nothing.
associate_customer_to_sale-holds :
    (state : CommerceState) (sale input other : Payload)
    → (input.sale_id == "") ≡ false
    → (input.customer_id == "") ≡ false
    → get input.sale_id state.sales ≡ some sale
    → (sale.customer_id == "") ≡ true
    → other.sale_id ≡ input.sale_id
    → (other.customer_id == "") ≡ false
    → (input.customer_id == other.customer_id) ≡ false
    → let (result, after) = associate_customer_to_sale state input in
      (result ≡ ok "CustomerAssociatedToSale" input)
      × (get input.sale_id after.sales ≡ some (record sale { customer_id = input.customer_id }))
      × (associate_customer_to_sale after other ≡ (
        error "CustomerAssociationError" "sale already associated with another customer",
        after,
      ))
unfolding associate_customer_to_sale
associate_customer_to_sale-holds state sale input other named customer found free same wants
      differs =
    let associated = record sale { customer_id = input.customer_id } in
    let after = record state { sales = put input.sale_id associated state.sales } in
    let done : associate_customer_to_sale state input
        ≡ (ok "CustomerAssociatedToSale" input, after) =
      ground arith in
    let stored = get-put_self input.sale_id associated state.sales in
    let refused : associate_customer_to_sale after other ≡ (
      error "CustomerAssociationError" "sale already associated with another customer",
      after,
    ) =
      ground (arith) in
    subst
      (λ ((result, next) : Step).
        (result ≡ ok "CustomerAssociatedToSale" input)
        × (get input.sale_id next.sales ≡ some associated)
        × (associate_customer_to_sale next other ≡ (
          error "CustomerAssociationError" "sale already associated with another customer",
          next,
        )))
      (sym done) (refl, stored, refused)

abbrev pub Keeps : Payload → Payload → Step → Type 0
Keeps payload stored (ok event purchase, after) =
    (purchase ≡ stored) × (get payload.purchase_id after.purchases ≡ some stored)
Keeps payload stored (error event message, after) =
    get payload.purchase_id after.purchases ≡ some stored

-- The first registration of a purchase stays: once an identifier has a purchase, a valid payload
-- with that identifier is answered with the stored purchase, whatever else it says.
register_purchase-Keeps :
    (state : CommerceState) (stored payload : Payload)
    → get payload.purchase_id state.purchases ≡ some stored
    → stored.purchase_id ≡ payload.purchase_id
    → Keeps payload stored (register_purchase state payload)
unfolding register_purchase
register_purchase-Keeps state stored payload found same = ground (
  arith,
  get-put stored.purchase_id payload.purchase_id stored state.purchases,
  eq_iff stored.purchase_id payload.purchase_id,
)
