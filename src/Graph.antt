-- ===== src/Graph.antt =====
-- runtime/semantic-graph.ts: the graph that the evidence and the governor read, its metadata JSON
-- values, and the check of a compiled graph. Numbers in the metadata are integers; NaN and infinities
-- are `non_finite`, values of other types (undefined, functions) `unsupported`.
pub mod Checked
use allas_code_blueprint.Prelude.{
  String, ◌<>◌, ◌≡◌, refl, Bool, true, false, not, ◌&&◌, ◌||◌, Option, none, some, List, [], ◌∷◌,
  ◌++◌, arith, ◌==◌, eq_iff, if◌then◌else◌, select, find, exists, includes, map,
}
use allas_code_blueprint.Prelude.Int.{ℤ}
use allas_code_blueprint.Prelude.Sets.{add}

mutual
  pub data Json : Type 0 where
    null : Json
    text : String → Json
    flag : Bool → Json
    number : ℤ → Json
    non_finite : Json
    unsupported : (type : String) → Json
    array : Items → Json
    object : Fields → Json

  pub data Items : Type 0 where
    nil : Items
    item : Json → Items → Items

  pub data Fields : Type 0 where
    end : Fields
    field : String → Json → Fields → Fields

-- `object[key]`.
unfoldable pub field_of : String → Fields → Option Json
field_of key end = none
field_of key (field k v fields) = if k == key then some v else field_of key fields

pub record SemanticGraphNode : Type 0 where
  pub id : String
  pub type : String
  pub label : String
  pub semantic_id : Option String
  pub metadata : Option Fields

pub record SemanticGraphEdge : Type 0 where
  pub id : String
  pub type : String
  pub from : String
  pub target : String
  pub metadata : Option Fields

pub record SemanticGraph : Type 0 where
  pub nodes : List SemanticGraphNode
  pub edges : List SemanticGraphEdge

abbrev pub id_of : SemanticGraphNode → String
id_of node = node.id

abbrev pub edge_id_of : SemanticGraphEdge → String
edge_id_of edge = edge.id

abbrev pub error_if : Bool → String → List String
error_if wrong message = if wrong then message ∷ [] else []

-- The first loop of `validateSemanticGraph`, and the identifiers that it has seen.
unfoldable pub check_nodes : List String → List SemanticGraphNode → List String × List String
check_nodes seen [] = ([], seen)
check_nodes seen (node ∷ nodes) =
    let (errors, ids) = check_nodes (add node.id seen) nodes in
    (error_if (includes seen node.id) ("Duplicate graph node " <> node.id) ++ errors, ids)

-- The second loop.
unfoldable pub check_edges : (node_ids seen : List String) → List SemanticGraphEdge → List String
check_edges node_ids seen [] = []
check_edges node_ids seen (edge ∷ edges) =
    error_if (includes seen edge.id) ("Duplicate graph edge " <> edge.id)
    ++ (error_if (not (includes node_ids edge.from))
          ("Edge " <> edge.id <> " references missing source " <> edge.from)
        ++ (error_if (not (includes node_ids edge.target))
              ("Edge " <> edge.id <> " references missing target " <> edge.target)
            ++ check_edges node_ids (add edge.id seen) edges))

unfoldable pub validate_semantic_graph : SemanticGraph → List String
validate_semantic_graph graph =
    let (errors, node_ids) = check_nodes [] graph.nodes in
    errors ++ check_edges node_ids [] graph.edges
