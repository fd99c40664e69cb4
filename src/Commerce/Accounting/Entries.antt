-- ===== src/Commerce/Accounting/Entries.antt =====
-- What the accounting actions store.
use allas_code_blueprint.Prelude.{
  ◌<>◌, String, ◌≡◌, ◌⊎◌, inl, inr, Option-cases, Bool-cases, true, none, some, eq_iff, arith,
}
use allas_code_blueprint.Prelude.Int.{pos, ◌<ℤ◌}
use allas_code_blueprint.Prelude.Dict.{get, get-put, get-put_self}
use allas_code_blueprint.Commerce.{Payload, CommerceState}
use allas_code_blueprint.Commerce.Accounting.{
  from_event, issue_sale_invoice, normalize, is_valid_entry, accounting_line,
  record_accounting_effect,
}

valid-positive :
    (input : Payload) → is_valid_entry input ≡ true → pos 0 <ℤ (accounting_line input).amount
valid-positive input valid = ground arith

-- Nothing changed, or one entry and its line were added.
abbrev pub Books : CommerceState → CommerceState → Type 0
Books state after =
    (after ≡ state)
    ⊎ ((input : Payload) × (get input.accounting_entry_id state.accounting_entries ≡ none)
        × (get input.accounting_entry_id after.accounting_entries ≡ some input)
        × (get ("accounting:" <> input.accounting_entry_id) after.ledger
            ≡ some (accounting_line input))
        × (pos 0 <ℤ (accounting_line input).amount))

module _ (stringify : Payload → String) where
  -- issue-sale-invoice never changes a stored invoice, whatever it answers.
  issue_sale_invoice-keeps :
      (state : CommerceState) (payload : Payload) (id : String) (invoice : Payload)
      → get id state.invoices ≡ some invoice
      → get id (issue_sale_invoice stringify state payload).1.invoices ≡ some invoice
  unfolding issue_sale_invoice
  issue_sale_invoice-keeps state payload id invoice h = elim (Option-cases (from_event payload)) [
    | inl missing ↦ ground arith
    | inr (input, found) ↦
        ground (arith, get-put input.invoice_id id input state.invoices, eq_iff input.invoice_id id)
  ]

  -- record-accounting-effect stores an accounting entry together with its line of the ledger, or
  -- changes nothing; a stored entry has one positive side and the line has this amount.
  record_accounting_effect-Books :
      (state : CommerceState) (payload : Payload)
      → Books state (record_accounting_effect stringify state payload).1
  unfolding record_accounting_effect
  record_accounting_effect-Books state payload = elim (Option-cases (normalize payload)) [
    | inl missing ↦ inl (ground arith)
    | inr (input, found) ↦ elim (Bool-cases (is_valid_entry input)) [
      | inr invalid ↦ inl (ground arith)
      | inl valid ↦ elim (Option-cases (get input.accounting_entry_id state.accounting_entries)) [
        | inr (stored, there) ↦ inl (ground arith)
        | inl fresh ↦
            let id = "accounting:" <> input.accounting_entry_id in
            let entry_stored =
              get-put_self input.accounting_entry_id input state.accounting_entries in
            let line_stored = get-put_self id (accounting_line input) state.ledger in
            inr (input, fresh, ground arith, ground arith, valid-positive input valid)
      ]
    ]
  ]
