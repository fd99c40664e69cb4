-- ===== src/Evidence/Tests.antt =====
-- A shop with one action and its evidence, and the theorems at these inputs.
mod Passports
mod Texts
use mathlib.Core.List.{Memᴰ}
use mathlib.Core.List.Memᴰ
use allas_code_blueprint.Prelude.{
  String, ◌<>◌, ◌≡◌, refl, Bool, true, false, Option, none, some, List, [], ◌∷◌, ℕ, ◌<◌, ◌≤◌, ◌↔◌,
  ◌==◌, arith, length, includes, All, if◌then◌else◌, inl, inr,
}
use allas_code_blueprint.Prelude.Int.{pos}
use allas_code_blueprint.Prelude.Dict.{get, put, values}
use allas_code_blueprint.Prelude.Attempt.{Attempt, returned, thrown}
use allas_code_blueprint.Prelude.Sets.{add, add_all, insert_sorted, sort, text_before}
use allas_code_blueprint.Prelude.Text.{
  join, before_code, after_code, last_part, ends_with, contains,
}
use allas_code_blueprint.Graph.{
  Json, text, object, Fields, end, field, field_of, SemanticGraphNode, SemanticGraphEdge,
  SemanticGraph, check_nodes, check_edges, validate_semantic_graph,
}
use allas_code_blueprint.Graph.Checked.{IsWellFormed, validate_semantic_graph-IsWellFormed}
use allas_code_blueprint.Evidence.{
  Category, security, unit, Profile, required, characterize, Requirement, pass, Evidence, execute,
  reuse, reject, EvidencePlan, Config, Manifest,
}
use allas_code_blueprint.Evidence.Canonical.{
  Printing, all_of, entry_text, object_text, array_text, canonical,
}
use allas_code_blueprint.Evidence.Canonical.Orders.{swap, canonical-Reordered}
use allas_code_blueprint.Evidence.Closures.{
  is_local, is_allowed, neighbour, visit, visit_edges, visit_front, rounds, search_from,
  semantic_closure,
}
use allas_code_blueprint.Evidence.Closures.Walks.{Reaches}
use allas_code_blueprint.Evidence.Closures.Reached.{semantic_closure-exact}
use allas_code_blueprint.Evidence.Requirements.Files.{
  Entry, file, directory, entry, none_left, Platform, hash, walk, walk_path, content_digest, digest,
}
use allas_code_blueprint.Evidence.Requirements.Names.{lower, replace_all, drop_chars, slug}
use allas_code_blueprint.Evidence.Requirements.Inputs.{
  load_profiles, folder_of, is_input, lists_category, key_input_json, hash_json, semantic_inputs_of,
  execution_inputs_of, keys_of, requirement_id_of,
}
use allas_code_blueprint.Evidence.Requirements.{
  make_requirement, requirement_with, category_requirement, action_requirements, read_manifest,
  all_requirements, compile_requirements,
}
use allas_code_blueprint.Evidence.Plans.{
  objections, admission, prior_of, PlanArguments, plan_json, planned, make_plan, decide, plan_from,
  compile_evidence_plan,
}
use allas_code_blueprint.Evidence.Plans.Admitted.{
  IsAdmissible, admission-IsAdmissible, with_trust, IsReusable, compile_evidence_plan-IsReusable,
}
use allas_code_blueprint.Evidence.Plans.Counted.{IsCounted, compile_evidence_plan-IsCounted}
use allas_code_blueprint.Evidence.Passports.{
  PassportArguments, Passport, evidence_by, proof_of, proofs_of, evidence_json, evidences_json,
  passport_json, passport_with, passport_of, emit_passport,
}
use allas_code_blueprint.Evidence.Passports.Proven.{IsProvenBy, emit_passport-IsProvenBy}
use allas_code_blueprint.Evidence.Enriched.{
  predicate_nodes, requirement_node, requires_edge, evaluates_edge, requirement_edges,
  with_profiles, with_requirements, enrich_evidence_graph,
}
use allas_code_blueprint.Evidence.Enriched.Kept.{IsListed, enrich_evidence_graph-IsListed}
use allas_code_blueprint.Evidence.Tests.Texts.{text_before-IsTransitive}

program : Unit {0}
unfolding values predicate_nodes requirement_node requires_edge evaluates_edge requirement_edges
    with_requirements enrich_evidence_graph get put add add_all insert_sorted sort text_before join
    before_code after_code last_part ends_with contains field_of check_nodes check_edges
    validate_semantic_graph all_of entry_text object_text array_text canonical is_local is_allowed
    neighbour visit visit_edges visit_front rounds search_from semantic_closure hash walk walk_path
    content_digest digest lower replace_all drop_chars slug load_profiles folder_of is_input
    lists_category key_input_json hash_json semantic_inputs_of execution_inputs_of keys_of
    requirement_id_of make_requirement requirement_with category_requirement action_requirements
    read_manifest all_requirements compile_requirements objections admission prior_of plan_json
    planned make_plan decide plan_from compile_evidence_plan evidence_by proof_of proofs_of
    evidence_json evidences_json passport_json passport_with passport_of emit_passport
program = tt

abbrev graph : SemanticGraph
graph = record {
  nodes =
      record {
        id = "Action:Sell";
        type = "Action";
        label = "Sell";
        semantic_id = some "s1";
        metadata = some (field "source_path" (text "actions/sell") end);
      }
      ∷ record {
        id = "Agent:Shop";
        type = "Agent";
        label = "Shop";
        semantic_id = none;
        metadata = none;
      }
      ∷ [];
  edges =
      record {
        id = "e1";
        type = "ACTION_OWNER";
        from = "Action:Sell";
        target = "Agent:Shop";
        metadata = none;
      }
      ∷ [];
}

validate_semantic_graph-IsWellFormed_example :
    (validate_semantic_graph graph ≡ []) ↔ IsWellFormed graph
validate_semantic_graph-IsWellFormed_example = validate_semantic_graph-IsWellFormed graph

graph_is_valid : validate_semantic_graph graph ≡ []
unfolding program
graph_is_valid = refl

semantic_closure-exact_example :
    (includes (semantic_closure graph "Action:Sell" security) "Agent:Shop" ≡ true)
    ↔ Reaches graph.edges "Action:Sell" "Agent:Shop"
unfolding program
semantic_closure-exact_example =
    semantic_closure-exact graph "Action:Sell" security refl "Agent:Shop"

closure_finds : semantic_closure graph "Action:Sell" security ≡ "Action:Sell" ∷ "Agent:Shop" ∷ []
unfolding program
closure_finds = refl

abbrev printing : Printing
printing = record { stringify = λ s. "'" <> s <> "'"; show_number = λ n. "0"; before = text_before }

canonical-Reordered_example :
    canonical printing (object (field "b" (text "1") (field "a" (text "2") end)))
    ≡ canonical printing (object (field "a" (text "2") (field "b" (text "1") end)))
unfolding program
canonical-Reordered_example =
    canonical-Reordered printing text_before-IsTransitive
      (field "b" (text "1") (field "a" (text "2") end))
      (field "a" (text "2") (field "b" (text "1") end))
      (swap "b" "a" (text "1") (text "2") end refl)

canonical_runs :
    canonical printing (object (field "b" (text "1") (field "a" (text "2") end)))
    ≡ returned "{'a':'2','b':'1'}"
unfolding program
canonical_runs = refl

abbrev manifest : Manifest
manifest = record { name = "Sell"; semantic_id = "s1"; validation = λ category. none }

abbrev folder : Entry
folder = directory (entry "manifest.yml" (file "m") none_left)

abbrev files : String → Option Entry
files p =
    if p == "root/actions/sell"
    then some folder
    else if p == "root/actions/sell/manifest.yml"
    then some (file "m")
    else none

abbrev platform : Platform
platform = record {
  printing = printing;
  sha256 = before_code 58;
  at = files;
  join_path = λ a b. a <> "/" <> b;
  relative = λ root p. p;
  parse_json = λ content. returned (text content);
  parse_yaml = λ content. returned (text content);
  parse_manifest = λ content. returned manifest;
  parse_date = λ t. none;
}

abbrev profile : Profile
profile = record {
  id = "qualification";
  version = "1";
  owner = "core";
  categories = security ∷ [];
  scope = "complete-evidence-closure";
  reuse = "allowed";
}

abbrev config : Config
config = record {
  predicates = λ category. some (record { id = "secure"; version = "1"; disposition = required });
  profiles = ("qualification", profile) ∷ [];
  shared_inputs = none;
}

abbrev compiled : Attempt (List Requirement)
unfolding program
compiled = compile_requirements platform "root" graph config "qualification" "portable"

abbrev requirements_in : Attempt (List Requirement) → List Requirement
requirements_in (returned rs) = rs
requirements_in (thrown message) = []

one_requirement : length (requirements_in compiled) ≡ 1
unfolding program
one_requirement = refl

abbrev evidence_for : Requirement → Evidence
evidence_for r = record {
  evidence_id = "ev1";
  evidence_key = r.evidence_key;
  requirement_id = r.requirement_id;
  subject_id = "s1";
  predicate = r.predicate;
  status = pass;
  reason = none;
  producer_id = "ci";
  trust_class = "trusted";
  profile = "qualification";
  environment_class = "portable";
  input_manifest_digest = r.input_manifest_digest;
  result_digest = "d";
  expires_at = none;
  attestation = some (record {
    format = "f";
    verified = true;
    producer_id = "ci";
    trust_class = "trusted";
    authorized_profiles = "qualification" ∷ [];
    envelope_digest = "e";
  });
}

abbrev evidences_for : List Requirement → List Evidence
evidences_for [] = []
evidences_for (r ∷ rs) = evidence_for r ∷ evidences_for rs

abbrev evidence : List Evidence
unfolding program
evidence = evidences_for (requirements_in compiled)

abbrev args : PlanArguments
unfolding program
args = record {
  root = "root";
  graph = graph;
  artifact_id = "shop";
  profile_id = "qualification";
  environment_class = "portable";
  changed_artifacts = none;
  seed_nodes = none;
  impacted_nodes = none;
  prior_evidence = some evidence;
  now = 5;
}

abbrev no_plan : EvidencePlan
unfolding program
no_plan = make_plan "" args [] []

abbrev plan_in : Attempt EvidencePlan → EvidencePlan
unfolding program
plan_in (returned p) = p
plan_in (thrown message) = no_plan

abbrev plan : EvidencePlan
unfolding program
plan = plan_in (compile_evidence_plan platform config args)

compile_evidence_plan-IsReusable_example :
    (p : Profile) × (get "qualification" (load_profiles config.profiles) ≡ some p)
    × (0 < length plan.requirements)
    × All (IsReusable platform.parse_date p args) plan.requirements
unfolding program
compile_evidence_plan-IsReusable_example =
    compile_evidence_plan-IsReusable platform config args plan refl refl

compile_evidence_plan-IsCounted_example :
    IsCounted plan
    × ((all : List Requirement) × (compile_requirements platform "root" graph config "qualification"
            "portable"
          ≡ returned all)
        × (length plan.requirements ≤ length all))
unfolding program
compile_evidence_plan-IsCounted_example =
    compile_evidence_plan-IsCounted platform config args plan refl

abbrev needed : Requirement
needed = record {
  requirement_id = "erq:1";
  subject = record { semantic_id = "s1"; node_id = "Action:Sell" };
  predicate = record { id = "secure"; version = "1"; category = security };
  profile = "qualification";
  ownership = "core";
  disposition = required;
  semantic_inputs = [];
  execution_inputs = [];
  environment_class = "portable";
  input_manifest_digest = "sha256:a";
  evidence_key = "sha256:k";
}

admission-IsAdmissible_example :
    (((admission platform.parse_date 5 profile needed (some (evidence_for needed))).decision
        ≡ reuse)
      ↔ IsAdmissible platform.parse_date 5 profile needed (evidence_for needed))
    × (((admission platform.parse_date 5 profile needed (some (evidence_for needed))).decision
          ≡ reject)
        ↔ (¬ IsAdmissible platform.parse_date 5 profile needed (evidence_for needed)))
    × ((admission platform.parse_date 5 profile needed none).decision ≡ execute)
    × (admission platform.parse_date 5 profile needed
          (some (with_trust "unknown" (evidence_for needed)))
        ≡ admission platform.parse_date 5 profile needed (some (evidence_for needed)))
admission-IsAdmissible_example =
    admission-IsAdmissible platform.parse_date 5 profile needed (evidence_for needed) "unknown"

it_is_reused :
    (admission platform.parse_date 5 profile needed (some (evidence_for needed))).decision ≡ reuse
unfolding program
it_is_reused = refl
