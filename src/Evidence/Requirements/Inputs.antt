-- ===== src/Evidence/Requirements/Inputs.antt =====
-- What a requirement is made of: profiles, the folder of an action, the digests of its inputs and the
-- hashes that name it (`loadProfiles`, and parts of `compileRequirements`).
use allas_code_blueprint.Prelude.{
  String, ◌<>◌, Bool, true, false, not, ◌&&◌, ◌||◌, Option, none, some, List, [], ◌∷◌, map, ◌==◌,
  if◌then◌else◌, select, find, or_else,
}
use allas_code_blueprint.Prelude.Dict.{Dict, put}
use allas_code_blueprint.Prelude.Attempt.{Attempt, returned, ◌>>=◌}
use allas_code_blueprint.Prelude.Text.{last_part, ends_with, contains}
use allas_code_blueprint.Graph.{
  Json, text, array, object, Items, nil, item, Fields, end, field, field_of, SemanticGraphNode,
  SemanticGraph,
}
use allas_code_blueprint.Evidence.{
  Category, unit, Profile, SemanticInput, ExecutionInput, SharedInput, Config, category_name,
}
use allas_code_blueprint.Evidence.Canonical.{canonical}
use allas_code_blueprint.Evidence.Requirements.Files.{Platform, hash, exists_at, digest}
use allas_code_blueprint.Evidence.Requirements.Names.{slug, drop_chars}

-- The entries of `config.profiles`, each with its name.
unfoldable pub load_profiles : Dict Profile → Dict Profile
load_profiles [] = []
load_profiles ((id, p) ∷ profiles) = put id (record p { id = id }) (load_profiles profiles)

-- A node as the JSON object that it is; a field that is `undefined` counts as one that is missing.
abbrev pub optional_text : String → Option String → Fields → Fields
optional_text key none fields = fields
optional_text key (some t) fields = field key (text t) fields

abbrev pub node_json : SemanticGraphNode → Json
node_json node =
    let metadata : Fields = elim node.metadata [
      | none ↦ end
      | some m ↦ field "metadata" (object m) end
    ] in
    object (
      field "id" (text node.id) (
        field "type" (text node.type) (
          field "label" (text node.label) (optional_text "semantic_id" node.semantic_id metadata))))

abbrev pub has_id : String → SemanticGraphNode → Bool
has_id id node = node.id == id

abbrev pub is_action : SemanticGraphNode → Bool
is_action node = node.type == "Action"

-- `node.metadata.source_path.split("/").at(-1)` where it is a text, or the slug of the label.
unfoldable pub folder_of : SemanticGraphNode → String
unfolding field_of
folder_of node = elim node.metadata [
  | none ↦ slug node.label
  | some metadata ↦ elim (field_of "source_path" metadata) [
    | some (text path) ↦ last_part 47 path
    | value ↦ slug node.label
  ]
]

abbrev pub is_unit : Category → Bool
is_unit unit = true
is_unit category = false

unfoldable pub is_input : Category → String → Bool
is_input category p =
    not (ends_with p "result.json") && (not (contains p "/tests/") || is_unit category)

-- `x.categories.includes(category)`.
unfoldable pub lists_category : Category → List Category → Bool
lists_category category [] = false
lists_category category (c ∷ categories) =
    (category_name c == category_name category) || lists_category category categories

abbrev pub semantic_inputs_json : List SemanticInput → Items
semantic_inputs_json [] = nil
semantic_inputs_json (x ∷ xs) =
    item (object (field "node_id" (text x.node_id) (field "digest" (text x.digest) end)))
      (semantic_inputs_json xs)

abbrev pub execution_inputs_json : List ExecutionInput → Items
execution_inputs_json [] = nil
execution_inputs_json (x ∷ xs) =
    item (object (field "path" (text x.path) (field "digest" (text x.digest) end)))
      (execution_inputs_json xs)

-- `keyInput`, with `more` behind it.
pub record KeyInput : Type 0 where
  pub subject_id : String
  pub predicate_id : String
  pub predicate_version : String
  pub environment_class : String
  pub semantic_inputs : List SemanticInput
  pub execution_inputs : List ExecutionInput

unfoldable pub key_input_json : KeyInput → Fields → Json
key_input_json k more = object (
    field "schema_version" (text "allascode.evidence-key-input/v1") (
      field "subject_id" (text k.subject_id) (
        field "predicate_id" (text k.predicate_id) (
          field "predicate_version" (text k.predicate_version) (
            field "environment_class" (text k.environment_class) (
              field "semantic_inputs" (array (semantic_inputs_json k.semantic_inputs)) (
                field "execution_inputs" (array (execution_inputs_json k.execution_inputs))
                  more)))))))

module _ (platform : Platform) where
  unfoldable pub hash_json : Json → Attempt String
  unfolding hash
  hash_json value = do printed ← canonical platform.printing value; returned (hash platform printed)

  -- `semanticClosure(...).map(...)`.
  unfoldable pub semantic_inputs_of : SemanticGraph → List String → Attempt (List SemanticInput)
  unfolding hash_json
  semantic_inputs_of graph [] = returned []
  semantic_inputs_of graph (node_id ∷ ids) =
      let value = elim (find (has_id node_id) graph.nodes) as (λ x. Json) [
        | none ↦ text node_id
        | some node ↦ node_json node
      ] in
      let rest = semantic_inputs_of graph ids in
      do
        d ← hash_json value
        inputs ← rest
        returned (record { node_id = node_id; digest = d } ∷ inputs)

  abbrev pub shared_paths : (root : String) → Category → Config → List String
  shared_paths root category config =
      map (λ (x : SharedInput). platform.join_path root x.path)
        (select (λ (x : SharedInput). lists_category category x.categories)
          (or_else config.shared_inputs []))

  -- The loop over the paths.
  unfoldable pub execution_inputs_of : (root : String) → List String → Attempt (List ExecutionInput)
  unfolding digest
  execution_inputs_of root [] = returned []
  execution_inputs_of root (p ∷ paths) =
      let rest = execution_inputs_of root paths in
      if exists_at platform p
      then (do first ← digest platform root p; inputs ← rest; returned (first ∷ inputs))
      else rest

  -- `input_manifest_digest` and `evidence_key`.
  unfoldable pub keys_of : KeyInput → Attempt (String × String)
  unfolding hash_json key_input_json
  keys_of k = do
    manifest_digest ← hash_json (key_input_json k end)
    key ← hash_json (key_input_json k (field "input_manifest_digest" (text manifest_digest) end))
    returned (manifest_digest, key)

  unfoldable pub requirement_id_of :
      (subject predicate_id predicate_version profile environment : String) → Attempt String
  unfolding hash_json drop_chars
  requirement_id_of subject predicate_id predicate_version profile environment = do
    digest ← hash_json (
        object (
          field "subject" (text subject) (
            field "predicateId" (text predicate_id) (
              field "predicateVersion" (text predicate_version) (
                field "profileId" (text profile)
                  (field "environmentClass" (text environment) end))))))
    returned ("erq:" <> drop_chars 7 digest)
