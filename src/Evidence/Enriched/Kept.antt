-- ===== src/Evidence/Enriched/Kept.antt =====
-- What the enriched graph has.
use mathlib.Core.List.{Memᴰ}
use mathlib.Core.List.Memᴰ
use allas_code_blueprint.Prelude.{String, ◌<>◌, ◌≡◌, refl, some, subst, List, [], ◌∷◌, map, All}
use allas_code_blueprint.Prelude.Attempt.{returned, >>=-eq-returned, returned_inj}
use allas_code_blueprint.Prelude.Members.{All-mem, All-map, mem-sort}
use allas_code_blueprint.Graph.{
  text, Fields, field_of, SemanticGraphNode, SemanticGraphEdge, SemanticGraph,
}
use allas_code_blueprint.Evidence.{Requirement, Config}
use allas_code_blueprint.Evidence.Requirements.{node_before, compile_requirements}
use allas_code_blueprint.Evidence.Requirements.Files.{Platform}
use allas_code_blueprint.Evidence.Enriched.{
  requirement_fields, requirement_node, requires_edge, evaluates_edge, requirement_edges,
  edge_before, with_profiles, with_requirements, enrich_evidence_graph,
}

-- The graph has an edge of this type between the two nodes, under the identifier that names them
-- behind `head`.
abbrev pub Connects : SemanticGraph → (type head from target : String) → Type 0
Connects graph type head from target =
    (edge : SemanticGraphEdge) × Memᴰ edge graph.edges
    × (edge.id ≡ head <> from <> "->" <> target)
    × (edge.type ≡ type)
    × (edge.from ≡ from)
    × (edge.target ≡ target)

-- The graph has a node for the requirement, with its key, an edge to it from the requirement's action,
-- and one from it to the requirement's predicate.
abbrev pub IsListed : SemanticGraph → Requirement → Type 0
IsListed graph r =
    let id = "EvidenceRequirement:" <> r.requirement_id in
    ((node : SemanticGraphNode) × (fields : Fields) × Memᴰ node graph.nodes
      × (node.id ≡ id)
      × (node.type ≡ "EvidenceRequirement")
      × (node.metadata ≡ some fields)
      × (field_of "evidence_key" fields ≡ some (text r.evidence_key)))
    × Connects graph "REQUIRES_EVIDENCE" "REQUIRES_EVIDENCE:" r.subject.node_id id
    × Connects graph "EVALUATES" "EVALUATES:" id
        ("EvidencePredicate:" <> r.predicate.id <> "@" <> r.predicate.version)

-- The model's node and edges are these.
IsListed-made :
    (graph : SemanticGraph) (r : Requirement)
    → Memᴰ (requirement_node r) graph.nodes
    → Memᴰ (requires_edge r) graph.edges
    → Memᴰ (evaluates_edge r) graph.edges
    → IsListed graph r
unfolding requirement_node requires_edge evaluates_edge field_of
IsListed-made graph r n a b = (
  (requirement_node r, requirement_fields r, n, refl, refl, refl, refl),
  (requires_edge r, a, refl, refl, refl, refl),
  (evaluates_edge r, b, refl, refl, refl, refl),
)

mem-map {ℓ κ} :
    {A : Type ℓ} {B : Type κ} (f : A → B) (x : A) (xs : List A) → Memᴰ x xs → Memᴰ (f x) (map f xs)
mem-map f x [] m = absurd (Memᴰ.not-nil m)
mem-map f x (y ∷ xs) (Memᴰ.head e) = Memᴰ.head (λ i. f (e i))
mem-map f x (y ∷ xs) (Memᴰ.tail m) = Memᴰ.tail (mem-map f x xs m)

mem-requirement_edges :
    (r : Requirement) (rs : List Requirement)
    → Memᴰ r rs
    → Memᴰ (requires_edge r) (requirement_edges rs) × Memᴰ (evaluates_edge r) (requirement_edges rs)
unfolding requirement_edges
mem-requirement_edges r [] m = absurd (Memᴰ.not-nil m)
mem-requirement_edges r (s ∷ rs) (Memᴰ.head e) =
    (Memᴰ.head (λ i. requires_edge (e i)), Memᴰ.tail (Memᴰ.head (λ i. evaluates_edge (e i))))
mem-requirement_edges r (s ∷ rs) (Memᴰ.tail m) =
    let (a, b) = mem-requirement_edges r rs m in (Memᴰ.tail (Memᴰ.tail a), Memᴰ.tail (Memᴰ.tail b))

module _ (platform : Platform) (graph : SemanticGraph) (rs : List Requirement) where
  with_requirements-IsListed : All (IsListed (with_requirements platform graph rs)) rs
  unfolding with_requirements
  with_requirements-IsListed =
      All-map (λ r. Memᴰ r rs) (IsListed (with_requirements platform graph rs)) rs
        (λ r m.
          let (a, b) = mem-requirement_edges r rs m in
          IsListed-made (with_requirements platform graph rs) r
            (mem-sort (node_before platform) (requirement_node r) _
              (Memᴰ.append_right graph.nodes (mem-map requirement_node r rs m)))
            (mem-sort (edge_before platform) (requires_edge r) _ (Memᴰ.append_right graph.edges a))
            (mem-sort (edge_before platform) (evaluates_edge r) _
              (Memᴰ.append_right graph.edges b)))
        (All-mem rs rs (λ r m. m))

  with_requirements_keeps :
      ((n : SemanticGraphNode)
        → Memᴰ n graph.nodes
        → Memᴰ n (with_requirements platform graph rs).nodes)
      × ((e : SemanticGraphEdge)
          → Memᴰ e graph.edges
          → Memᴰ e (with_requirements platform graph rs).edges)
  unfolding with_requirements
  with_requirements_keeps = (
    λ n m. mem-sort (node_before platform) n _ (Memᴰ.append_left _ m),
    λ e m. mem-sort (edge_before platform) e _ (Memᴰ.append_left _ m),
  )

-- When enrichEvidenceGraph returns, the graph still has every node and edge that it had, and for each
-- requirement of the qualification profile it has a node under the requirement's identifier with its
-- evidence key, a REQUIRES_EVIDENCE edge from the requirement's action to that node, and an EVALUATES
-- edge from there to the predicate's version.
pub enrich_evidence_graph-IsListed :
    (platform : Platform) (root : String) (config : Config) (environment : String)
    (graph enriched : SemanticGraph)
    → enrich_evidence_graph platform root config environment graph ≡ returned enriched
    → ((n : SemanticGraphNode) → Memᴰ n graph.nodes → Memᴰ n enriched.nodes)
      × ((e : SemanticGraphEdge) → Memᴰ e graph.edges → Memᴰ e enriched.edges)
      × ((rs : List Requirement) × (compile_requirements platform root
              (with_profiles platform config graph)
              config
              "qualification"
              environment
            ≡ returned rs)
          × All (IsListed enriched) rs)
unfolding enrich_evidence_graph
enrich_evidence_graph-IsListed platform root config environment graph enriched done =
    let wide = with_profiles platform config graph in
    let (rs, compiled, e) =
      >>=-eq-returned (compile_requirements platform root wide config "qualification" environment)
        (λ rs. returned (with_requirements platform wide rs)) done in
    let is = returned_inj _ _ e in
    let (nodes, edges) = with_requirements_keeps platform wide rs in
    (
      λ n m. subst (λ g. Memᴰ n g.nodes) is (nodes n (Memᴰ.append_left _ m)),
      λ x m. subst (λ g. Memᴰ x g.edges) is (edges x m),
      (
        rs,
        compiled,
        subst (λ g. All (IsListed g) rs) is (with_requirements-IsListed platform wide rs),
      ),
    )
