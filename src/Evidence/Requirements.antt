-- ===== src/Evidence/Requirements.antt =====
-- `loadProfiles` and `compileRequirements` of runtime/content-addressed-evidence.ts. Of the platform
-- (node:fs, node:path, node:crypto, the YAML and JSON parsers) the platform's record has what the code
-- calls; the configuration and the manifests come parsed.
pub mod Files
pub mod Names
pub mod Inputs
pub mod Digests
pub mod Made
pub mod Keyed
use allas_code_blueprint.Prelude.{
  String, ◌<>◌, Bool, true, false, not, ◌&&◌, ◌||◌, Option, none, some, List, [], ◌∷◌, ◌++◌, map,
  ◌==◌, if◌then◌else◌, select, find, includes, or_else,
}
use allas_code_blueprint.Prelude.Dict.{Dict, get, put}
use allas_code_blueprint.Prelude.Attempt.{Attempt, returned, thrown, ◌>>=◌}
use allas_code_blueprint.Prelude.Sets.{add, set_of, sort, sort_texts}
use allas_code_blueprint.Prelude.Text.{before_code, after_code, last_part, ends_with, contains}
use allas_code_blueprint.Graph.{
  Json, text, array, object, Items, nil, item, Fields, end, field, field_of, SemanticGraphNode,
  SemanticGraph,
}
use allas_code_blueprint.Evidence.{
  Category, unit, Profile, Disposition, required, characterize, not_applicable, Predicate,
  SemanticInput, ExecutionInput, Requirement, BasePredicate, SharedInput, Config, Validation,
  Manifest, category_name, is_given,
}
use allas_code_blueprint.Evidence.Canonical.{canonical}
use allas_code_blueprint.Evidence.Closures.{semantic_closure}
use allas_code_blueprint.Evidence.Requirements.Files.{
  file, directory, Platform, hash, walk_path, exists_at, digest,
}
use allas_code_blueprint.Evidence.Requirements.Names.{slug, drop_chars}
use allas_code_blueprint.Evidence.Requirements.Inputs.{
  load_profiles, is_action, folder_of, is_input, KeyInput, semantic_inputs_of, execution_inputs_of,
  shared_paths, keys_of, requirement_id_of,
}

abbrev pub predicate_of : Category → Option String → BasePredicate → Predicate
predicate_of category none base = record {
  id = base.id;
  version = base.version;
  category = category;
}
predicate_of category (some spelled) base = record {
  id = before_code 64 spelled;
  version = elim (after_code 64 spelled) [ none ↦ base.version | some rest ↦ before_code 64 rest ];
  category = category;
}

-- `out.push` of what the loop did not skip.
abbrev pub with_first : Option Requirement → List Requirement → List Requirement
with_first none others = others
with_first (some r) others = r ∷ others

module _ (platform : Platform) where
  -- The paths whose contents are inputs: `[...new Set([...local, ...shared])].sort()`.
  abbrev pub input_paths : (root action_root : String) → Category → Config → List String
  input_paths root action_root category config = sort_texts (
      set_of (
        select (is_input category) (walk_path platform action_root)
        ++ shared_paths platform root category config))

  -- The body of the inner loop from the predicate on.
  unfoldable pub make_requirement :
      (root action_root environment : String)
      → SemanticGraph
      → Config
      → Profile
      → SemanticGraphNode
      → Manifest
      → Category
      → Disposition
      → Predicate
      → Attempt Requirement
  unfolding semantic_inputs_of execution_inputs_of keys_of requirement_id_of
  make_requirement root action_root environment graph config profile node manifest category
        disposition predicate =
      do
        semantic ← semantic_inputs_of platform graph (semantic_closure graph node.id category)
        execution ← execution_inputs_of platform root (input_paths root action_root category config)
        (manifest_digest, key) ← keys_of platform (record {
          subject_id = manifest.semantic_id;
          predicate_id = predicate.id;
          predicate_version = predicate.version;
          environment_class = environment;
          semantic_inputs = semantic;
          execution_inputs = execution;
        })
        id ←
            requirement_id_of platform manifest.semantic_id predicate.id predicate.version
              profile.id environment
        returned (record {
          requirement_id = id;
          subject = record { semantic_id = manifest.semantic_id; node_id = node.id };
          predicate = predicate;
          profile = profile.id;
          ownership = profile.owner;
          disposition = disposition;
          semantic_inputs = semantic;
          execution_inputs = execution;
          environment_class = environment;
          input_manifest_digest = manifest_digest;
          evidence_key = key;
        })

  -- A requirement for a predicate that is spelled out, or the base one.
  unfoldable pub requirement_with :
      (root action_root environment : String)
      → SemanticGraph
      → Config
      → Profile
      → SemanticGraphNode
      → Manifest
      → Category
      → (spelled : Option String) → (declared : Option Disposition) → Attempt (Option Requirement)
  requirement_with root action_root environment graph config profile node manifest category spelled
        declared =
      elim (config.predicates category) [
        | none ↦ thrown ("missing predicate " <> category_name category)
        | some base ↦
            make_requirement root action_root environment graph config profile node manifest
              category (or_else declared base.disposition) (predicate_of category spelled base)
            >>= λ r. returned (some r)
      ]

  -- The body of the inner loop: `none` is `continue`.
  unfoldable pub category_requirement :
      (root action_root environment : String)
      → SemanticGraph
      → Config
      → Profile
      → SemanticGraphNode
      → Manifest
      → Category
      → Attempt (Option Requirement)
  unfolding requirement_with
  category_requirement root action_root environment graph config profile node manifest category =
      let make =
        requirement_with root action_root environment graph config profile node manifest category in
      elim (manifest.validation category) [
        | none ↦ make none none
        | some declared ↦ elim declared.disposition [
          | required ↦ make declared.predicate (some required)
          | characterize ↦ make declared.predicate (some characterize)
          | not_applicable ↦
              if not (is_given declared.reason)
              then thrown (
                  "EVIDENCE_NOT_APPLICABLE_UNJUSTIFIED: "
                  <> manifest.semantic_id
                  <> "/"
                  <> category_name category)
              else returned none
        ]
      ]

  -- `for (const category of profile.categories)`.
  unfoldable pub action_requirements :
      (root action_root environment : String)
      → SemanticGraph
      → Config
      → Profile
      → SemanticGraphNode
      → Manifest
      → List Category
      → Attempt (List Requirement)
  action_requirements root action_root environment graph config profile node manifest [] =
      returned []
  action_requirements root action_root environment graph config profile node manifest
        (category ∷ categories) =
      let rest =
        action_requirements root action_root environment graph config profile node manifest
          categories in
      category_requirement root action_root environment graph config profile node manifest category
      >>= λ first. rest >>= λ others. returned (with_first first others)

  unfoldable pub read_manifest : String → Attempt Manifest
  read_manifest p = elim (platform.at p) [
    | none ↦ thrown "ENOENT"
    | some (directory entries) ↦ thrown "EISDIR"
    | some (file content) ↦ platform.parse_manifest content
  ]

  abbrev pub action_root_of : (root : String) → SemanticGraphNode → String
  action_root_of root node = platform.join_path (platform.join_path root "actions") (folder_of node)

  -- The loop over the actions with `ids`, the subjects that were seen.
  unfoldable pub all_requirements :
      (root environment : String)
      → SemanticGraph
      → Config
      → Profile
      → (ids : List String) → List SemanticGraphNode
      → Attempt (List Requirement)
  all_requirements root environment graph config profile ids [] = returned []
  all_requirements root environment graph config profile ids (node ∷ nodes) =
      let rest = λ (manifest : Manifest).
        all_requirements root environment graph config profile (add manifest.semantic_id ids)
          nodes in
      read_manifest (platform.join_path (action_root_of root node) "manifest.yml") >>= λ manifest.
      if includes ids manifest.semantic_id
      then thrown ("EVIDENCE_SUBJECT_DUPLICATE: " <> manifest.semantic_id)
      else action_requirements root (action_root_of root node) environment graph config profile node
          manifest profile.categories
        >>= λ first. rest manifest >>= λ others. returned (first ++ others)

  abbrev pub node_before : SemanticGraphNode → SemanticGraphNode → Bool
  node_before a b = platform.printing.before a.id b.id

  abbrev pub requirement_before : Requirement → Requirement → Bool
  requirement_before a b = platform.printing.before a.requirement_id b.requirement_id

  unfoldable pub compile_requirements :
      (root : String)
      → SemanticGraph
      → Config
      → (profile_id environment : String) → Attempt (List Requirement)
  compile_requirements root graph config profile_id environment =
      elim (get profile_id (load_profiles config.profiles)) [
        | none ↦ thrown ("unknown profile " <> profile_id)
        | some profile ↦ if profile_id == "upstream" then returned [] else do
          out ←
              all_requirements root environment graph config profile []
                (sort node_before (select is_action graph.nodes))
          returned (sort requirement_before out)
      ]
