-- ===== src/Evidence/Enriched.antt =====
-- `enrichEvidenceGraph` of runtime/content-addressed-evidence.ts. The entries of `predicates` are read
-- in the order of the categories; only nodes with one identifier could show that order.
pub mod Kept
use allas_code_blueprint.Prelude.{String, ◌<>◌, Bool, Option, none, some, List, [], ◌∷◌, ◌++◌, map}
use allas_code_blueprint.Prelude.Attempt.{Attempt, returned, ◌>>=◌}
use allas_code_blueprint.Prelude.Dict.{values}
use allas_code_blueprint.Prelude.Sets.{sort}
use allas_code_blueprint.Graph.{
  Json, text, array, object, Fields, end, field, SemanticGraphNode, SemanticGraphEdge,
  SemanticGraph,
}
use allas_code_blueprint.Evidence.{
  Category, unit, integration, e2e, security, benchmark, load, stress, chaos, Profile, Disposition,
  required, characterize, not_applicable, Predicate, Requirement, BasePredicate, Config,
  category_name,
}
use allas_code_blueprint.Evidence.Requirements.{node_before, compile_requirements}
use allas_code_blueprint.Evidence.Requirements.Files.{Platform}
use allas_code_blueprint.Evidence.Requirements.Inputs.{
  load_profiles, semantic_inputs_json, execution_inputs_json,
}

abbrev pub all_categories : List Category
all_categories = unit ∷ integration ∷ e2e ∷ security ∷ benchmark ∷ load ∷ stress ∷ chaos ∷ []

abbrev pub disposition_name : Disposition → String
disposition_name required = "required"
disposition_name characterize = "characterize"
disposition_name not_applicable = "not-applicable"

abbrev pub profile_node : Profile → SemanticGraphNode
profile_node profile = record {
  id = "ValidationProfile:" <> profile.id;
  type = "ValidationProfile";
  label = profile.id;
  semantic_id = none;
  metadata = some (
      field "version" (text profile.version) (
        field "owner" (text profile.owner)
          (field "scope" (text profile.scope) (field "reuse" (text profile.reuse) end))));
}

abbrev pub predicate_id : (id version : String) → String
predicate_id id version = "EvidencePredicate:" <> id <> "@" <> version

abbrev pub predicate_node : Category → BasePredicate → SemanticGraphNode
predicate_node category predicate = record {
  id = predicate_id predicate.id predicate.version;
  type = "EvidencePredicate";
  label = predicate.id;
  semantic_id = none;
  metadata = some (
      field "category" (text (category_name category))
        (field "version" (text predicate.version) end));
}

unfoldable pub predicate_nodes :
    (Category → Option BasePredicate) → List Category → List SemanticGraphNode
predicate_nodes predicates [] = []
predicate_nodes predicates (category ∷ categories) =
    let rest = predicate_nodes predicates categories in
    elim (predicates category) [
      | none ↦ rest
      | some predicate ↦ predicate_node category predicate ∷ rest
    ]

abbrev pub requirement_node_id : Requirement → String
requirement_node_id r = "EvidenceRequirement:" <> r.requirement_id

abbrev pub requirement_fields : Requirement → Fields
requirement_fields r = field "schema_version" (text "allascode.evidence-requirement/v1") (
    field "requirement_id" (text r.requirement_id) (
      field "subject"
        (object (
          field "semantic_id" (text r.subject.semantic_id)
            (field "node_id" (text r.subject.node_id) (field "kind" (text "Action") end))))
        (field "predicate"
          (object (
            field "id" (text r.predicate.id) (
              field "version" (text r.predicate.version)
                (field "category" (text (category_name r.predicate.category)) end))))
          (field "profile" (text r.profile) (
            field "ownership" (text r.ownership) (
              field "disposition" (text (disposition_name r.disposition)) (
                field "semantic_inputs" (array (semantic_inputs_json r.semantic_inputs)) (
                  field "execution_inputs" (array (execution_inputs_json r.execution_inputs)) (
                    field "environment_class" (text r.environment_class) (
                      field "input_manifest_digest" (text r.input_manifest_digest)
                        (field "evidence_key" (text r.evidence_key) end)))))))))))

unfoldable pub requirement_node : Requirement → SemanticGraphNode
requirement_node r = record {
  id = requirement_node_id r;
  type = "EvidenceRequirement";
  label = r.subject.semantic_id <> "." <> category_name r.predicate.category;
  semantic_id = none;
  metadata = some (requirement_fields r);
}

unfoldable pub requires_edge : Requirement → SemanticGraphEdge
requires_edge r = record {
  id = "REQUIRES_EVIDENCE:" <> r.subject.node_id <> "->" <> requirement_node_id r;
  type = "REQUIRES_EVIDENCE";
  from = r.subject.node_id;
  target = requirement_node_id r;
  metadata = none;
}

unfoldable pub evaluates_edge : Requirement → SemanticGraphEdge
evaluates_edge r = record {
  id =
      "EVALUATES:"
      <> requirement_node_id r
      <> "->"
      <> predicate_id r.predicate.id r.predicate.version;
  type = "EVALUATES";
  from = requirement_node_id r;
  target = predicate_id r.predicate.id r.predicate.version;
  metadata = none;
}

unfoldable pub requirement_edges : List Requirement → List SemanticGraphEdge
requirement_edges [] = []
requirement_edges (r ∷ rs) = requires_edge r ∷ evaluates_edge r ∷ requirement_edges rs

module _ (platform : Platform) where
  abbrev pub profile_before : Profile → Profile → Bool
  profile_before a b = platform.printing.before a.id b.id

  abbrev pub edge_before : SemanticGraphEdge → SemanticGraphEdge → Bool
  edge_before a b = platform.printing.before a.id b.id

  -- The graph with the nodes of the two first loops.
  abbrev pub with_profiles : Config → SemanticGraph → SemanticGraph
  with_profiles config graph = record graph {
    nodes =
        graph.nodes
        ++ (map profile_node (sort profile_before (values (load_profiles config.profiles)))
            ++ predicate_nodes config.predicates all_categories);
  }

  unfoldable pub with_requirements : SemanticGraph → List Requirement → SemanticGraph
  with_requirements graph rs = record {
    nodes = sort (node_before platform) (graph.nodes ++ map requirement_node rs);
    edges = sort edge_before (graph.edges ++ requirement_edges rs);
  }

  unfoldable pub enrich_evidence_graph :
      (root : String) → Config → (environment : String) → SemanticGraph → Attempt SemanticGraph
  enrich_evidence_graph root config environment graph =
      compile_requirements platform root (with_profiles config graph) config "qualification"
        environment
      >>= λ rs. returned (with_requirements (with_profiles config graph) rs)
