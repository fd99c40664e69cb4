-- ===== src/Healing/Graph.antt =====
-- The semantic graph as healing reads it (runtime/semantic-graph.ts: nodes and edges) and the look-ups
-- of runtime/semantic-healing.ts. The metadata of a node is a record of the keys that are read, where
-- a number that is missing, negative or not finite is `none`. `test` is RegExp's, with flag i;
-- the sources in the graph are valid regular expressions.
use Prim.Native.Char.{code}
use allas_code_blueprint.Prelude.{
  String, ◌<>◌, Bool, true, false, not, ◌&&◌, Option, none, some, List, [], ◌∷◌, map, ℕ, leb, ◌==◌,
  if◌then◌else◌, find, select, exists, or_else, includes,
}

pub record NodeMetadata : Type 0 where
  pub kind : String
  pub message_regex : String
  pub max_attempts : Option ℕ
  pub timeout_ms : Option ℕ
  pub backoff_ms : Option ℕ
  pub resume_ttl_ms : Option ℕ
  pub required_context : List String

pub record SemanticGraphNode : Type 0 where
  pub id : String
  pub type : String
  pub label : String
  pub metadata : NodeMetadata

-- `when_strategy` is "" where it is no text; `order` is 0 where it is missing.
pub record SemanticGraphEdge : Type 0 where
  pub type : String
  pub from : String
  pub target : String
  pub when_strategy : String
  pub order : ℕ

pub record SemanticGraph : Type 0 where
  pub nodes : List SemanticGraphNode
  pub edges : List SemanticGraphEdge

abbrev pub RegexTest : Type 0
RegexTest = (source message : String) → Bool

-- The text behind the first colon, if there is one.
unfoldable pub after_colon : String → Option String
after_colon String.[] = none
after_colon (String.◌∷◌ c s) = if leb 58 (code c) && leb (code c) 58 then some s else after_colon s

unfoldable pub label : String → String
label id = or_else (after_colon id) id

abbrev pub is_edge : String → String → SemanticGraphEdge → Bool
is_edge type from edge = (edge.type == type) && (edge.from == from)

abbrev pub has_edge : SemanticGraph → String → String → Bool
has_edge graph type from = exists (is_edge type from) graph.edges

abbrev pub action_id : String → String
action_id action = "Action:" <> action

abbrev pub target_of : SemanticGraphEdge → String
target_of edge = edge.target

unfoldable pub strategy_nodes : SemanticGraph → String → List SemanticGraphNode
strategy_nodes graph action =
    let targets = map target_of (select (is_edge "HEALED_BY" (action_id action)) graph.edges) in
    select
      (λ (node : SemanticGraphNode). includes targets node.id && (node.type == "HealingStrategy"))
      graph.nodes

abbrev pub matches : RegexTest → String → SemanticGraphNode → Bool
matches test message node =
    not (node.metadata.message_regex == "") && test node.metadata.message_regex message

abbrev pub number_meta : Option ℕ → ℕ → ℕ
number_meta value fallback = or_else value fallback

unfoldable pub declared_error_event : SemanticGraph → String → String
declared_error_event graph action =
    elim (find (is_edge "EMITS_ERROR" (action_id action)) graph.edges) [
      | none ↦ "Error"
      | some edge ↦ label edge.target
    ]

abbrev pub is_strategy : String → SemanticGraphNode → Bool
is_strategy name node = (node.id == "HealingStrategy:" <> name) && (node.type == "HealingStrategy")

-- `if (!strategy || !attached || !matches(...)) continue`.
unfoldable pub is_applicable :
    RegexTest → SemanticGraph → (source message : String) → SemanticGraphEdge → Bool
is_applicable test graph source message edge =
    if edge.when_strategy == ""
    then true
    else elim (find (is_strategy edge.when_strategy) graph.nodes) [
      | none ↦ false
      | some strategy ↦
          exists
            (λ (candidate : SemanticGraphEdge).
              is_edge "HEALED_BY" source candidate && (candidate.target == strategy.id))
            graph.edges
          && matches test message strategy
    ]

pub record Fallback : Type 0 where
  pub agent : String
  pub action : String

abbrev pub owner_of : SemanticGraph → String → Option SemanticGraphEdge
owner_of graph target = find (is_edge "ACTION_OWNER" target) graph.edges

-- The `for` loop over the candidates.
unfoldable pub first_fallback :
    RegexTest → SemanticGraph → (source message : String) → List SemanticGraphEdge → Option Fallback
first_fallback test graph source message [] = none
first_fallback test graph source message (edge ∷ edges) =
    let rest = first_fallback test graph source message edges in
    if not (is_applicable test graph source message edge)
    then rest
    else elim (owner_of graph edge.target) [
      | none ↦ rest
      | some owner ↦
          if owner.target == ""
          then rest
          else some (record { agent = label owner.target; action = label edge.target })
    ]

unfoldable pub find_semantic_fallback :
    RegexTest → SemanticGraph → (action message : String) → Option Fallback
find_semantic_fallback test graph action message =
    first_fallback test graph (action_id action) message
      (select (is_edge "FALLBACK_TO" (action_id action)) graph.edges)
