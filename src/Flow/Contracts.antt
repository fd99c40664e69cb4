-- ===== src/Flow/Contracts.antt =====
-- What a flow of the graph promises, and the helpers of runtime/flow-runtime.ts.
use allas_code_blueprint.Prelude.{
  String, ◌<>◌, Bool, false, not, Option, none, some, List, [], ◌∷◌, ltb, ◌==◌, if◌then◌else◌,
  select, find, exists, or_else,
}
use allas_code_blueprint.Prelude.Attempt.{Attempt, returned, thrown, ◌>>=◌}
use allas_code_blueprint.Prelude.Sets.{sort}
use allas_code_blueprint.Commerce.{Payload}
use allas_code_blueprint.Healing.Graph.{
  SemanticGraphNode, SemanticGraphEdge, SemanticGraph, label, is_edge,
}

pub record FlowContract : Type 0 where
  pub flow : String
  pub intent : String
  pub initial_event : String
  pub terminal_event : String

abbrev pub in_order : SemanticGraphEdge → SemanticGraphEdge → Bool
in_order a b = ltb a.order b.order

abbrev pub first_of : List SemanticGraphEdge → Option SemanticGraphEdge
first_of [] = none
first_of (edge ∷ edges) = some edge

unfoldable pub last_of : List SemanticGraphEdge → Option SemanticGraphEdge
last_of [] = none
last_of (edge ∷ edges) = some (or_else (last_of edges) edge)

-- The edges of a type at a flow, by `order`.
unfoldable pub sorted_edges : SemanticGraph → (type flow_id : String) → List SemanticGraphEdge
sorted_edges graph type flow_id = sort in_order (select (is_edge type flow_id) graph.edges)

abbrev pub required : {A : Type 0} → Option A → String → Attempt A
required none message = thrown message
required (some a) message = returned a

unfoldable pub flow_contract : SemanticGraph → String → Attempt FlowContract
unfolding sorted_edges last_of
flow_contract graph flow_name =
    let flow_id = "Flow:" <> flow_name in
    if not (exists (λ (node : SemanticGraphNode). node.id == flow_id) graph.nodes)
    then thrown ("Flow not found in Semantic Graph: " <> flow_name)
    else do
      intent ←
          required (find (is_edge "IMPLEMENTS_INTENT" flow_id) graph.edges)
            ("Flow " <> flow_name <> " has no IMPLEMENTS_INTENT edge")
      initial ←
          required (first_of (sorted_edges graph "FLOW_EMITS_EVENT" flow_id))
            ("Flow " <> flow_name <> " has no initial Event")
      terminal ←
          required (last_of (sorted_edges graph "FLOW_EXPECTS_EVENT" flow_id))
            ("Flow " <> flow_name <> " has no terminal Event")
      returned (record {
        flow = flow_name;
        intent = label intent.target;
        initial_event = label initial.target;
        terminal_event = label terminal.target;
      })

abbrev pub implements : String → SemanticGraphEdge → Bool
implements intent edge =
    if edge.type == "IMPLEMENTS_INTENT" then edge.target == "Intent:" <> intent else false

unfoldable pub contract_for_intent : SemanticGraph → String → Attempt FlowContract
unfolding flow_contract
contract_for_intent graph intent = do
  edge ← required (find (implements intent) graph.edges) ("No Flow implements Intent " <> intent)
  flow_contract graph (label edge.from)

-- The first key that the payload has.
unfoldable pub first_key : List String → Option String
first_key [] = none
first_key (value ∷ values) = if value == "" then first_key values else some value

unfoldable pub correlation_id : Payload → (intent action : String) → String
unfolding first_key
correlation_id payload intent action =
    elim (first_key (
      payload.correlation_id ∷ payload.idempotency_key ∷ payload.sale_id ∷ payload.purchase_id
      ∷ payload.invoice_id ∷ payload.accounting_entry_id ∷ payload.user_id ∷ [])) [
        | none ↦ intent <> ":" <> action
        | some value ↦ intent <> ":" <> action <> ":" <> value
      ]

abbrev pub over : String → String → String
over original human = if human == "" then original else human

abbrev pub over? {ℓ} : {A : Type ℓ} → Option A → Option A → Option A
over? original none = original
over? original (some a) = some a

-- `{ ...original, ...human }`: what the human gave goes over what was there. A text "" is a field that
-- the human did not give; one that is given as "" has no counterpart here.
unfoldable pub merge_human_payload : Payload → Payload → Payload
merge_human_payload a b = record {
  correlation_id = over a.correlation_id b.correlation_id;
  idempotency_key = over a.idempotency_key b.idempotency_key;
  sale_id = over a.sale_id b.sale_id;
  purchase_id = over a.purchase_id b.purchase_id;
  customer_id = over a.customer_id b.customer_id;
  user_id = over a.user_id b.user_id;
  supplier_id = over a.supplier_id b.supplier_id;
  invoice_id = over a.invoice_id b.invoice_id;
  accounting_entry_id = over a.accounting_entry_id b.accounting_entry_id;
  source_id = over a.source_id b.source_id;
  source_type = over a.source_type b.source_type;
  currency = over a.currency b.currency;
  status = over a.status b.status;
  items = over? a.items b.items;
  amount = over? a.amount b.amount;
  debit = over? a.debit b.debit;
  credit = over? a.credit b.credit;
}
