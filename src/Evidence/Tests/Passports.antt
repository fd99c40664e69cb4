-- ===== src/Evidence/Tests/Passports.antt =====
-- The passport of the shop and its enriched graph.
use mathlib.Core.List.{Memᴰ}
use allas_code_blueprint.Prelude.{◌≡◌, refl, false, List, [], length, All}
use allas_code_blueprint.Prelude.Attempt.{Attempt, returned, thrown}
use allas_code_blueprint.Graph.{SemanticGraphNode, SemanticGraphEdge, SemanticGraph}
use allas_code_blueprint.Evidence.{Requirement}
use allas_code_blueprint.Evidence.Requirements.{compile_requirements}
use allas_code_blueprint.Evidence.Passports.{PassportArguments, Passport, emit_passport}
use allas_code_blueprint.Evidence.Passports.Proven.{IsProvenBy, emit_passport-IsProvenBy}
use allas_code_blueprint.Evidence.Enriched.{with_profiles, enrich_evidence_graph}
use allas_code_blueprint.Evidence.Enriched.Kept.{IsListed, enrich_evidence_graph-IsListed}
use allas_code_blueprint.Evidence.Tests.{graph, platform, profile, config, evidence, plan, program}

abbrev passport_args : PassportArguments
unfolding program
passport_args = record {
  artifact_id = "shop";
  artifact_digest = "d";
  source_commit = "c";
  source_tree = "t";
  profile = profile;
  plan = plan;
  evidence = evidence;
  generated_at = "now";
}

abbrev passport_in : Attempt Passport → Passport
unfolding program
passport_in (returned p) = p
passport_in (thrown message) = record {
  passport_id = message;
  artifact = ("", "");
  subject_revision = ("", "");
  qualification_profile = ("", "");
  closure = record { required = 0; executed = 0; reused = 0; rejected = 0; complete = false };
  evidence = [];
  generated_at = "";
}

abbrev passport : Passport
unfolding program
passport = passport_in (emit_passport platform passport_args)

emit_passport-IsProvenBy_example :
    (passport.closure.required ≡ length plan.requirements)
    × (length passport.evidence ≡ length plan.requirements)
    × All (IsProvenBy evidence passport.evidence) plan.requirements
unfolding program
emit_passport-IsProvenBy_example = emit_passport-IsProvenBy platform passport_args passport refl

abbrev graph_in : Attempt SemanticGraph → SemanticGraph
graph_in (returned g) = g
graph_in (thrown message) = record { nodes = []; edges = [] }

abbrev enriched : SemanticGraph
unfolding program
enriched = graph_in (enrich_evidence_graph platform "root" config "portable" graph)

enrich_evidence_graph-IsListed_example :
    ((n : SemanticGraphNode) → Memᴰ n graph.nodes → Memᴰ n enriched.nodes)
    × ((e : SemanticGraphEdge) → Memᴰ e graph.edges → Memᴰ e enriched.edges)
    × ((rs : List Requirement) × (compile_requirements platform "root"
            (with_profiles platform config graph)
            config
            "qualification"
            "portable"
          ≡ returned rs)
        × All (IsListed enriched) rs)
unfolding program
enrich_evidence_graph-IsListed_example =
    enrich_evidence_graph-IsListed platform "root" config "portable" graph enriched refl

four_more_nodes : length enriched.nodes ≡ 12
unfolding program
four_more_nodes = refl
