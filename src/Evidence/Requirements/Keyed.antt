-- ===== src/Evidence/Requirements/Keyed.antt =====
-- What a compiled requirement commits to.

use allas_code_blueprint.Prelude.{String, ◌≡◌, map, All}
use allas_code_blueprint.Graph.{SemanticGraph}
use allas_code_blueprint.Evidence.{SemanticInput, Requirement}
use allas_code_blueprint.Evidence.Requirements.Files.{Platform}
use allas_code_blueprint.Evidence.Requirements.Digests.{IsOfNode, HasKeys}
use allas_code_blueprint.Evidence.Closures.{semantic_closure}

module _ (platform : Platform) (graph : SemanticGraph) (profile environment : String) where
  -- It is for the profile and environment; it lists its action's closure, each node with its digest;
  -- and its digests, its key and its identifier are hashes of what it lists.
  pub record IsKeyed (r : Requirement) : Type 0 where
    pub of_profile : r.profile ≡ profile
    pub of_environment : r.environment_class ≡ environment
    pub closure :
        map (λ (x : SemanticInput). x.node_id) r.semantic_inputs
        ≡ semantic_closure graph r.subject.node_id r.predicate.category
    pub digests : All (IsOfNode platform graph) r.semantic_inputs
    pub keys : HasKeys platform r
