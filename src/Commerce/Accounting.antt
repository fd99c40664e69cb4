-- ===== src/Commerce/Accounting.antt =====
-- issue-sale-invoice and record-accounting-effect. `stringify` stands for JSON.stringify, by which
-- they compare a stored document with a new one.
pub mod Entries
use allas_code_blueprint.Prelude.{
  ◌<>◌, String, Bool, true, false, not, ◌&&◌, ◌||◌, Option, none, some, List, [], ◌∷◌, ◌==◌,
  or_else, is_some, includes, if◌then◌else◌,
}
use allas_code_blueprint.Prelude.Int.{ℤ, pos, ltb_ℤ, leb_ℤ}
use allas_code_blueprint.Prelude.Dict.{get, put, has}
use allas_code_blueprint.Commerce.{
  Payload, no_payload, LedgerEntry, CommerceState, ActionResult, ok, error,
}
use allas_code_blueprint.Commerce.Stock.{Step}
use allas_code_blueprint.Commerce.Sales.{amount_of}

-- `invoice?.invoice_id && invoice.sale_id && typeof invoice.amount === 'number' && ...`.
abbrev pub is_invoice : Payload → Bool
is_invoice invoice =
    not (invoice.invoice_id == "")
    && not (invoice.sale_id == "")
    && is_some invoice.amount
    && (invoice.currency == "BRL")

unfoldable pub from_event : Payload → Option Payload
from_event payload =
    if is_invoice payload
    then some payload
    else if not (payload.sale_id == "") && (payload.currency == "BRL")
    then elim payload.items [
      | none ↦ none
      | some items ↦ some (record no_payload {
        invoice_id = "invoice:" <> payload.sale_id;
        sale_id = payload.sale_id;
        amount = some (amount_of items);
        currency = "BRL";
      })
    ]
    else none

abbrev pub is_negative : Option ℤ → Bool
is_negative amount = ltb_ℤ (or_else amount (pos 0)) (pos 0)

unfoldable pub issue_sale_invoice : (Payload → String) → CommerceState → Payload → Step
issue_sale_invoice stringify state payload =
    let invalid : Step =
      (error "SaleInvoiceIssueError" "invalid sale-completed/invoice payload", state) in
    elim (from_event payload) [
      | none ↦ invalid
      | some input ↦
          if is_negative input.amount then invalid else elim (get input.invoice_id state.invoices) [
            | none ↦ (
              ok "SaleInvoiceIssued" input,
              record state { invoices = put input.invoice_id input state.invoices },
            )
            | some existing ↦
                if not (stringify existing == stringify input)
                then (error "SaleInvoiceIssueError" "invoice identity conflict", state)
                else (ok "SaleInvoiceIssued" input, state)
          ]
    ]

unfoldable pub normalize : Payload → Option Payload
normalize payload =
    if not (payload.accounting_entry_id == "")
    then some payload
    else if is_invoice payload
    then some (record no_payload {
      accounting_entry_id = "invoice:" <> payload.invoice_id;
      source_id = payload.sale_id;
      source_type = "invoice";
      debit = some (pos 0);
      credit = payload.amount;
      currency = "BRL";
    })
    else none

-- A comparison with a missing number is false.
abbrev pub is_valid_pair : Option ℤ → Option ℤ → Bool
is_valid_pair none credit = false
is_valid_pair (some debit) none = false
is_valid_pair (some debit) (some credit) =
    leb_ℤ (pos 0) debit
    && leb_ℤ (pos 0) credit
    && (if ltb_ℤ (pos 0) debit then not (ltb_ℤ (pos 0) credit) else ltb_ℤ (pos 0) credit)

abbrev pub is_valid_entry : Payload → Bool
is_valid_entry input =
    not (input.accounting_entry_id == "")
    && not (input.source_id == "")
    && includes ("sale" ∷ "purchase" ∷ "invoice" ∷ []) input.source_type
    && (input.currency == "BRL")
    && is_valid_pair input.debit input.credit

abbrev pub is_debit : Payload → Bool
is_debit input = ltb_ℤ (pos 0) (or_else input.debit (pos 0))

abbrev pub accounting_line : Payload → LedgerEntry
accounting_line input = record {
  id = "accounting:" <> input.accounting_entry_id;
  kind = if is_debit input then "accounting-debit" else "accounting-credit";
  reference_id = input.source_id;
  amount = or_else (if is_debit input then input.debit else input.credit) (pos 0);
  currency = input.currency;
}

unfoldable pub record_accounting_effect : (Payload → String) → CommerceState → Payload → Step
record_accounting_effect stringify state payload =
    let invalid : Step = (error "AccountingEffectRecordError" "invalid accounting entry", state) in
    elim (normalize payload) [
      | none ↦ invalid
      | some input ↦
          if not (is_valid_entry input)
          then invalid
          else elim (get input.accounting_entry_id state.accounting_entries) [
            | none ↦ (
              ok "AccountingEffectRecorded" input,
              record state {
                accounting_entries = put input.accounting_entry_id input state.accounting_entries;
                ledger =
                    put ("accounting:" <> input.accounting_entry_id) (accounting_line input)
                      state.ledger;
              },
            )
            | some existing ↦
                if not (stringify existing == stringify input)
                then (error "AccountingEffectRecordError" "accounting identity conflict", state)
                else (ok "AccountingEffectRecorded" input, state)
          ]
    ]
