-- ===== src/Graph/Checked.antt =====
-- What a graph is that `validateSemanticGraph` has nothing against.
use allas_code_blueprint.Prelude.{
  String, ◌≡◌, refl, Bool, true, false, not, List, [], ◌∷◌, ◌++◌, arith, ◌||◌, includes, map, ◌↔◌,
  sym,
}
use allas_code_blueprint.Prelude.Sets.{add, includes-add}
use allas_code_blueprint.Graph.{
  SemanticGraphNode, SemanticGraphEdge, SemanticGraph, id_of, edge_id_of, error_if, check_nodes,
  check_edges, validate_semantic_graph,
}

-- No text of the list stands among the ones before it, or in `seen`.
abbrev pub IsNew : List String → List String → Type 0
IsNew seen [] = Unit
IsNew seen (x ∷ xs) = (includes seen x ≡ false) × IsNew (add x seen) xs

-- Both ends of every edge are nodes.
abbrev pub HasEnds : List String → List SemanticGraphEdge → Type 0
HasEnds ids [] = Unit
HasEnds ids (edge ∷ edges) =
    (includes ids edge.from ≡ true) × (includes ids edge.target ≡ true) × HasEnds ids edges

pub append_empty : (xs ys : List String) → xs ++ ys ≡ [] → (xs ≡ []) × (ys ≡ [])
append_empty [] ys h = (refl, h)
append_empty (x ∷ xs) ys h = cc

pub error_if_empty : (wrong : Bool) (message : String) → error_if wrong message ≡ [] → wrong ≡ false
error_if_empty true message h = cc
error_if_empty false message h = refl

check_nodes-IsNew :
    (seen : List String) (nodes : List SemanticGraphNode)
    → (check_nodes seen nodes).0 ≡ []
    → IsNew seen (map id_of nodes)
unfolding check_nodes
check_nodes-IsNew seen [] h = tt
check_nodes-IsNew seen (node ∷ nodes) h =
    let (first, rest) = append_empty (error_if (includes seen node.id) _) _ h in
    (error_if_empty _ _ first, check_nodes-IsNew (add node.id seen) nodes rest)

IsNew-check_nodes :
    (seen : List String) (nodes : List SemanticGraphNode)
    → IsNew seen (map id_of nodes)
    → (check_nodes seen nodes).0 ≡ []
unfolding check_nodes
IsNew-check_nodes seen [] h = refl
IsNew-check_nodes seen (node ∷ nodes) (new, rest) =
    ground (arith, IsNew-check_nodes (add node.id seen) nodes rest)

check_edges-HasEnds :
    (ids seen : List String) (edges : List SemanticGraphEdge)
    → check_edges ids seen edges ≡ []
    → IsNew seen (map edge_id_of edges) × HasEnds ids edges
unfolding check_edges
check_edges-HasEnds ids seen [] h = (tt, tt)
check_edges-HasEnds ids seen (edge ∷ edges) h =
    let (a, more) = append_empty (error_if (includes seen edge.id) _) _ h in
    let (b, others) = append_empty (error_if (not (includes ids edge.from)) _) _ more in
    let (c, rest) = append_empty (error_if (not (includes ids edge.target)) _) _ others in
    let (new, ends) = check_edges-HasEnds ids (add edge.id seen) edges rest in
    let from : includes ids edge.from ≡ true = ground (arith, error_if_empty _ _ b) in
    let target : includes ids edge.target ≡ true = ground (arith, error_if_empty _ _ c) in
    ((error_if_empty _ _ a, new), (from, target, ends))

HasEnds-check_edges :
    (ids seen : List String) (edges : List SemanticGraphEdge)
    → IsNew seen (map edge_id_of edges)
    → HasEnds ids edges
    → check_edges ids seen edges ≡ []
unfolding check_edges
HasEnds-check_edges ids seen [] new ends = refl
HasEnds-check_edges ids seen (edge ∷ edges) (new, rest) (from, target, ends) =
    ground (arith, HasEnds-check_edges ids (add edge.id seen) edges rest ends)

-- The identifiers that the first loop has seen are those of the nodes.
check_nodes_ids :
    (seen : List String) (nodes : List SemanticGraphNode) (x : String)
    → includes (check_nodes seen nodes).1 x ≡ includes seen x || includes (map id_of nodes) x
unfolding check_nodes
check_nodes_ids seen [] x = ground arith
check_nodes_ids seen (node ∷ nodes) x =
    ground (arith, check_nodes_ids (add node.id seen) nodes x, includes-add node.id seen x)

HasEnds-same :
    (ids others : List String) (edges : List SemanticGraphEdge)
    → ((x : String) → includes ids x ≡ includes others x)
    → HasEnds ids edges
    → HasEnds others edges
HasEnds-same ids others [] same ends = tt
HasEnds-same ids others (edge ∷ edges) same (from, target, ends) = (
  ground (arith, same edge.from),
  ground (arith, same edge.target),
  HasEnds-same ids others edges same ends,
)

abbrev pub IsWellFormed : SemanticGraph → Type 0
IsWellFormed graph =
    IsNew [] (map id_of graph.nodes)
    × IsNew [] (map edge_id_of graph.edges)
    × HasEnds (map id_of graph.nodes) graph.edges

-- validateSemanticGraph reports nothing exactly when no two nodes and no two edges share an
-- identifier and both ends of every edge are nodes of the graph.
pub validate_semantic_graph-IsWellFormed :
    (graph : SemanticGraph) → (validate_semantic_graph graph ≡ []) ↔ IsWellFormed graph
unfolding validate_semantic_graph
validate_semantic_graph-IsWellFormed graph =
    let seen = (check_nodes [] graph.nodes).1 in
    let names = λ (x : String). check_nodes_ids [] graph.nodes x in
    (
      λ valid.
          let (nodes, edges) = append_empty (check_nodes [] graph.nodes).0 _ valid in
          let (new, ends) = check_edges-HasEnds seen [] graph.edges edges in
          (
            check_nodes-IsNew [] graph.nodes nodes,
            new,
            HasEnds-same seen (map id_of graph.nodes) graph.edges names ends,
          ),
      λ (nodes, new, ends).
          let inside =
            HasEnds-same (map id_of graph.nodes) seen graph.edges (λ x. sym (names x)) ends in
          let unique = IsNew-check_nodes [] graph.nodes nodes in
          let edges = HasEnds-check_edges seen [] graph.edges new inside in ground arith,
    )
