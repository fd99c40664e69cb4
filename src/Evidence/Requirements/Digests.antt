-- ===== src/Evidence/Requirements/Digests.antt =====
-- The texts whose hashes a requirement carries, written out.
use allas_code_blueprint.Prelude.{
  String, ◌<>◌, ◌≡◌, refl, sym, ap, ◌∙◌, subst, none, some, List, [], ◌∷◌, map, find, All,
}
use allas_code_blueprint.Prelude.Attempt.{returned, ◌>>=◌, >>=-eq-returned, returned_inj}
use allas_code_blueprint.Graph.{
  Json, text, array, object, Items, nil, item, Fields, end, field, SemanticGraph,
}
use allas_code_blueprint.Evidence.{SemanticInput, ExecutionInput, Requirement}
use allas_code_blueprint.Evidence.Canonical.{canonical}
use allas_code_blueprint.Evidence.Requirements.Files.{Platform, hash}
use allas_code_blueprint.Evidence.Requirements.Names.{drop_chars}
use allas_code_blueprint.Evidence.Requirements.Inputs.{
  node_json, has_id, KeyInput, key_input_json, semantic_inputs_json, execution_inputs_json,
  hash_json, semantic_inputs_of, keys_of, requirement_id_of,
}

abbrev items_of {ℓ} : {A : Type ℓ} → (A → Json) → List A → Items
items_of f [] = nil
items_of f (x ∷ xs) = item (f x) (items_of f xs)

abbrev pair_of : (key value other digest : String) → Json
pair_of key value other digest = object (field key (text value) (field other (text digest) end))

-- The object whose canonical text is hashed: every input that the requirement lists.
abbrev pub key_object : Requirement → Fields → Json
key_object r more = object (
    field "schema_version" (text "allascode.evidence-key-input/v1") (
      field "subject_id" (text r.subject.semantic_id) (
        field "predicate_id" (text r.predicate.id) (
          field "predicate_version" (text r.predicate.version) (
            field "environment_class" (text r.environment_class) (
              field "semantic_inputs"
                (array (
                  items_of (λ (x : SemanticInput). pair_of "node_id" x.node_id "digest" x.digest)
                    r.semantic_inputs))
                (field "execution_inputs"
                  (array (
                    items_of (λ (x : ExecutionInput). pair_of "path" x.path "digest" x.digest)
                      r.execution_inputs))
                  more)))))))

abbrev pub identity_object : Requirement → Json
identity_object r = object (
    field "subject" (text r.subject.semantic_id) (
      field "predicateId" (text r.predicate.id) (
        field "predicateVersion" (text r.predicate.version) (
          field "profileId" (text r.profile)
            (field "environmentClass" (text r.environment_class) end)))))

semantic_inputs_json-items :
    (xs : List SemanticInput)
    → semantic_inputs_json xs
      ≡ items_of (λ (x : SemanticInput). pair_of "node_id" x.node_id "digest" x.digest) xs
semantic_inputs_json-items [] = refl
semantic_inputs_json-items (x ∷ xs) =
    ap (item (pair_of "node_id" x.node_id "digest" x.digest)) (semantic_inputs_json-items xs)

execution_inputs_json-items :
    (xs : List ExecutionInput)
    → execution_inputs_json xs
      ≡ items_of (λ (x : ExecutionInput). pair_of "path" x.path "digest" x.digest) xs
execution_inputs_json-items [] = refl
execution_inputs_json-items (x ∷ xs) =
    ap (item (pair_of "path" x.path "digest" x.digest)) (execution_inputs_json-items xs)

pub key_input_json-object :
    (r : Requirement) (more : Fields)
    → key_input_json
        (record {
          subject_id = r.subject.semantic_id;
          predicate_id = r.predicate.id;
          predicate_version = r.predicate.version;
          environment_class = r.environment_class;
          semantic_inputs = r.semantic_inputs;
          execution_inputs = r.execution_inputs;
        })
        more
      ≡ key_object r more
unfolding key_input_json
key_input_json-object r more =
    rw
      (semantic_inputs_json-items r.semantic_inputs, execution_inputs_json-items r.execution_inputs)
      refl

module _ (platform : Platform) where
  -- The digest is "sha256:" and the SHA-256 of the value's canonical text.
  abbrev pub IsDigest : Json → String → Type 0
  IsDigest value digest =
      (printed : String) × (canonical platform.printing value ≡ returned printed)
      × (digest ≡ "sha256:" <> platform.sha256 printed)

  hash_json-IsDigest :
      (value : Json) (digest : String)
      → hash_json platform value ≡ returned digest
      → IsDigest value digest
  unfolding hash_json hash
  hash_json-IsDigest value digest done =
      let (printed, e, is) =
        >>=-eq-returned (canonical platform.printing value)
          (λ printed. returned (hash platform printed)) done in
      (printed, e, sym (returned_inj _ _ is))

  -- The manifest digest, the evidence key and the identifier of a requirement.
  abbrev pub HasKeys : Requirement → Type 0
  HasKeys r =
      IsDigest (key_object r end) r.input_manifest_digest
      × IsDigest (key_object r (field "input_manifest_digest" (text r.input_manifest_digest) end))
          r.evidence_key
      × ((digest : String) × IsDigest (identity_object r) digest
          × (r.requirement_id ≡ "erq:" <> drop_chars 7 digest))

  abbrev json_at : SemanticGraph → String → Json
  json_at graph id = elim (find (has_id id) graph.nodes) as (λ x. Json) [
    | none ↦ text id
    | some node ↦ node_json node
  ]

  -- A semantic input is the digest of its node, or of its identifier where the graph has no such node.
  abbrev pub IsOfNode : SemanticGraph → SemanticInput → Type 0
  IsOfNode graph x = IsDigest (json_at graph x.node_id) x.digest

  pub keys_of-IsDigest :
      (k : KeyInput) (manifest_digest key : String)
      → keys_of platform k ≡ returned (manifest_digest, key)
      → IsDigest (key_input_json k end) manifest_digest
        × IsDigest (key_input_json k (field "input_manifest_digest" (text manifest_digest) end)) key
  unfolding keys_of
  keys_of-IsDigest k manifest_digest key done =
      let second = λ (d : String).
        hash_json platform (key_input_json k (field "input_manifest_digest" (text d) end)) in
      let (d, first, more) =
        >>=-eq-returned (hash_json platform (key_input_json k end))
          (λ d. second d >>= λ x. returned (d, x)) done in
      let (x, then_on, last) = >>=-eq-returned (second d) (λ x. returned (d, x)) more in
      let is : (d, x) ≡ (manifest_digest, key) = returned_inj _ _ last in
      let one : d ≡ manifest_digest = ap (λ y. y.0) is in
      let two : x ≡ key = ap (λ y. y.1) is in
      (
        hash_json-IsDigest _ _ (first ∙ ap returned one),
        hash_json-IsDigest _ _ (ap second (sym one) ∙ then_on ∙ ap returned two),
      )

  pub requirement_id_of-IsDigest :
      (r : Requirement)
      → requirement_id_of platform r.subject.semantic_id r.predicate.id r.predicate.version
          r.profile r.environment_class
        ≡ returned r.requirement_id
      → (digest : String) × IsDigest (identity_object r) digest
        × (r.requirement_id ≡ "erq:" <> drop_chars 7 digest)
  unfolding requirement_id_of
  requirement_id_of-IsDigest r done =
      let (digest, hashed, last) =
        >>=-eq-returned (hash_json platform (identity_object r))
          (λ digest. returned ("erq:" <> drop_chars 7 digest)) done in
      (digest, hash_json-IsDigest _ _ hashed, sym (returned_inj _ _ last))

  pub semantic_inputs_of-IsOfNode :
      (graph : SemanticGraph) (ids : List String) (inputs : List SemanticInput)
      → semantic_inputs_of platform graph ids ≡ returned inputs
      → (map (λ (x : SemanticInput). x.node_id) inputs ≡ ids) × All (IsOfNode graph) inputs
  unfolding semantic_inputs_of
  semantic_inputs_of-IsOfNode graph [] inputs done =
      let none_left = returned_inj _ _ done in
      (
        ap (map (λ (x : SemanticInput). x.node_id)) (sym none_left),
        subst (All (IsOfNode graph)) none_left tt,
      )
  semantic_inputs_of-IsOfNode graph (id ∷ ids) inputs done =
      let rest = semantic_inputs_of platform graph ids in
      let (d, hashed, more) =
        >>=-eq-returned (hash_json platform (json_at graph id))
          (λ d. rest >>= λ others. returned (record { node_id = id; digest = d } ∷ others)) done in
      let (others, then_on, last) =
        >>=-eq-returned rest (λ others. returned (record { node_id = id; digest = d } ∷ others))
          more in
      let is = returned_inj _ _ last in
      let (names, all) = semantic_inputs_of-IsOfNode graph ids others then_on in
      (
        ap (map (λ (x : SemanticInput). x.node_id)) (sym is) ∙ ap (λ xs. id ∷ xs) names,
        subst (All (IsOfNode graph)) is (hash_json-IsDigest _ _ hashed, all),
      )
