-- ===== src/Evidence/Requirements/Made.antt =====
-- What a compiled requirement is made of, in the model's own terms.
use mathlib.Core.List.{Memᴰ}
use allas_code_blueprint.Prelude.{
  String, ◌<>◌, ◌⊎◌, ◌≡◌, refl, sym, subst, ap, ◌∙◌, Bool, true, false, Option, none, some, List,
  [], ◌∷◌, ◌++◌, arith, ◌==◌, eq_iff, if◌then◌else◌, select, or_else, includes, inl, inr,
  Bool-cases, Option-cases, All, All-append,
}
use allas_code_blueprint.Prelude.Dict.{Dict, get, get-put}
use allas_code_blueprint.Prelude.Attempt.{
  Attempt, returned, thrown, ◌>>=◌, >>=-eq-returned, returned_inj,
}
use allas_code_blueprint.Prelude.Members.{All-at, All-mem, All-map, All-select, All-sort}
use allas_code_blueprint.Prelude.Sets.{add, sort}
use allas_code_blueprint.Graph.{SemanticGraphNode, SemanticGraph}
use allas_code_blueprint.Evidence.{
  Category, Profile, Disposition, required, characterize, not_applicable, Predicate, BasePredicate,
  Requirement, Config, Manifest,
}
use allas_code_blueprint.Evidence.Requirements.Files.{Platform}
use allas_code_blueprint.Evidence.Requirements.Inputs.{
  load_profiles, is_action, KeyInput, semantic_inputs_of, keys_of, requirement_id_of,
}
use allas_code_blueprint.Evidence.Closures.{semantic_closure}
use allas_code_blueprint.Evidence.Requirements.{
  with_first, predicate_of, make_requirement, requirement_with, category_requirement,
  action_requirements, read_manifest, action_root_of, all_requirements, node_before,
  requirement_before, compile_requirements,
}

-- The inputs that a requirement names.
abbrev pub key_input_of : Requirement → KeyInput
key_input_of r = record {
  subject_id = r.subject.semantic_id;
  predicate_id = r.predicate.id;
  predicate_version = r.predicate.version;
  environment_class = r.environment_class;
  semantic_inputs = r.semantic_inputs;
  execution_inputs = r.execution_inputs;
}

module _ (platform : Platform) (graph : SemanticGraph) (profile environment : String) where
  pub record IsMade (r : Requirement) : Type 0 where
    pub of_profile : r.profile ≡ profile
    pub of_environment : r.environment_class ≡ environment
    pub keys :
        keys_of platform (key_input_of r) ≡ returned (r.input_manifest_digest, r.evidence_key)
    pub closure :
        semantic_inputs_of platform graph
          (semantic_closure graph r.subject.node_id r.predicate.category)
        ≡ returned r.semantic_inputs
    pub name :
        requirement_id_of platform r.subject.semantic_id r.predicate.id r.predicate.version profile
          environment
        ≡ returned r.requirement_id

Disposition-cases : (d : Disposition) → (d ≡ required) ⊎ (d ≡ characterize) ⊎ (d ≡ not_applicable)
Disposition-cases required = inl refl
Disposition-cases characterize = inr (inl refl)
Disposition-cases not_applicable = inr (inr refl)

predicate_category :
    (category : Category) (spelled : Option String) (base : BasePredicate)
    → (predicate_of category spelled base).category ≡ category
predicate_category category none base = refl
predicate_category category (some t) base = refl

unless_thrown :
    {A : Type 0} (message : String) (wrong : Bool) (m : Attempt A) {a : A}
    → (if wrong then thrown message else m) ≡ returned a
    → m ≡ returned a
unless_thrown message true m h = cc
unless_thrown message false m h = h

module _ (platform : Platform) (root environment : String) (graph : SemanticGraph) (config : Config)
    (p : Profile) where
  make_requirement-IsMade :
      (action_root : String) (node : SemanticGraphNode) (manifest : Manifest) (category : Category)
      (disposition : Disposition) (predicate : Predicate) (r : Requirement)
      → predicate.category ≡ category
      → make_requirement platform root action_root environment graph config p node manifest category
          disposition predicate
        ≡ returned r
      → (r.subject.node_id ≡ node.id) × IsMade platform graph p.id environment r
  unfolding make_requirement
  make_requirement-IsMade action_root node manifest category disposition predicate r same done = (
    ground arith,
    record {
      of_profile = ground arith;
      of_environment = ground arith;
      keys = ground arith;
      closure = ground arith;
      name = ground arith;
    },
  )

  -- What the loops keep of a requirement: it is of this node, and keyed.
  abbrev IsOf : SemanticGraphNode → Requirement → Type 0
  IsOf node r = (r.subject.node_id ≡ node.id) × IsMade platform graph p.id environment r

  requirement_with-IsOf :
      (action_root : String) (node : SemanticGraphNode) (manifest : Manifest) (category : Category)
      (spelled : Option String) (declared : Option Disposition) (r : Requirement)
      → requirement_with platform root action_root environment graph config p node manifest category
          spelled declared
        ≡ returned (some r)
      → IsOf node r
  unfolding requirement_with
  requirement_with-IsOf action_root node manifest category spelled declared r done =
      elim (Option-cases (config.predicates category)) [
        | inl missing ↦ absurd (ground arith)
        | inr (base, found) ↦
            let disposition = or_else declared base.disposition in
            let predicate = predicate_of category spelled base in
            let (x, made, e) =
              >>=-eq-returned
                (make_requirement platform root action_root environment graph config p node manifest
                  category disposition predicate)
                (λ x. returned (some x)) (rw (found, requirement_with) at done) in
            let is : x ≡ r = ground arith in
            make_requirement-IsMade action_root node manifest category disposition predicate r
              (predicate_category category spelled base) (made ∙ ap returned is)
      ]

  abbrev IsOfSome : List SemanticGraphNode → Requirement → Type 0
  IsOfSome nodes r = (node : SemanticGraphNode) × Memᴰ node nodes × IsOf node r

  category_requirement-IsOf :
      (action_root : String) (node : SemanticGraphNode) (manifest : Manifest) (category : Category)
      (r : Requirement)
      → category_requirement platform root action_root environment graph config p node manifest
          category
        ≡ returned (some r)
      → IsOf node r
  unfolding category_requirement
  category_requirement-IsOf action_root node manifest category r done =
      let made = requirement_with-IsOf action_root node manifest category in
      elim (Option-cases (manifest.validation category)) [
        | inl undeclared ↦ made none none r (rw (undeclared, category_requirement) at done)
        | inr (declared, found) ↦ elim (Disposition-cases declared.disposition) [
          | inl is ↦ made declared.predicate (some required) r (ground arith)
          | inr (inl is) ↦ made declared.predicate (some characterize) r (ground arith)
          | inr (inr is) ↦ absurd (ground arith)
        ]
      ]

  action_requirements-IsOf :
      (action_root : String) (node : SemanticGraphNode) (manifest : Manifest)
      (categories : List Category) (rs : List Requirement)
      → action_requirements platform root action_root environment graph config p node manifest
          categories
        ≡ returned rs
      → All (IsOf node) rs
  unfolding action_requirements
  action_requirements-IsOf action_root node manifest [] rs done =
      subst (All (IsOf node)) (returned_inj _ _ done) tt
  action_requirements-IsOf action_root node manifest (category ∷ categories) rs done =
      let one =
        category_requirement platform root action_root environment graph config p node manifest
          category in
      let more =
        action_requirements platform root action_root environment graph config p node manifest
          categories in
      let (first, now, later) =
        >>=-eq-returned one (λ x. more >>= λ others. returned (with_first x others)) done in
      let (others, rest, last) =
        >>=-eq-returned more (λ xs. returned (with_first first xs)) later in
      let kept = action_requirements-IsOf action_root node manifest categories others rest in
      subst (All (IsOf node)) (returned_inj _ _ last) (
        elim first as (λ x. one ≡ returned x → All (IsOf node) (with_first x others)) [
          | none ↦ λ e. kept
          | some r ↦ λ e. (category_requirement-IsOf action_root node manifest category r e, kept)
        ]
          now)

  all_requirements-IsOf :
      (ids : List String) (nodes : List SemanticGraphNode) (rs : List Requirement)
      → all_requirements platform root environment graph config p ids nodes ≡ returned rs
      → All (IsOfSome nodes) rs
  unfolding all_requirements
  all_requirements-IsOf ids [] rs done = subst (All (IsOfSome [])) (returned_inj _ _ done) tt
  all_requirements-IsOf ids (node ∷ nodes) rs done =
      let source = platform.join_path (action_root_of platform root node) "manifest.yml" in
      let actions = λ (manifest : Manifest).
        action_requirements platform root (action_root_of platform root node) environment graph
          config p node manifest p.categories in
      let rest = λ (manifest : Manifest).
        all_requirements platform root environment graph config p (add manifest.semantic_id ids)
          nodes in
      let join = λ (manifest : Manifest).
        actions manifest >>= λ first. rest manifest >>= λ others. returned (first ++ others) in
      let (manifest, read, more) =
        >>=-eq-returned (read_manifest platform source)
          (λ manifest.
            if includes ids manifest.semantic_id
            then thrown ("EVIDENCE_SUBJECT_DUPLICATE: " <> manifest.semantic_id)
            else join manifest)
          done in
      let joined : join manifest ≡ returned rs = unless_thrown _ _ _ more in
      let (first, now, later) =
        >>=-eq-returned (actions manifest)
          (λ first. rest manifest >>= λ others. returned (first ++ others)) joined in
      let (others, then_on, last) =
        >>=-eq-returned (rest manifest) (λ others. returned (first ++ others)) later in
      let here =
        action_requirements-IsOf (action_root_of platform root node) node manifest p.categories
          first now in
      let there = all_requirements-IsOf (add manifest.semantic_id ids) nodes others then_on in
      subst (All (IsOfSome (node ∷ nodes))) (returned_inj _ _ last) (
        All-append (IsOfSome (node ∷ nodes)) first others
          (All-map (IsOf node) (IsOfSome (node ∷ nodes)) first (λ r h. (node, Memᴰ.head refl, h))
            here)
          (All-map (IsOfSome nodes) (IsOfSome (node ∷ nodes)) others
            (λ r (n, m, h). (n, Memᴰ.tail m, h)) there))

get-load_profiles :
    (profiles : Dict Profile) (id : String) (p : Profile)
    → get id (load_profiles profiles) ≡ some p
    → p.id ≡ id
unfolding load_profiles get
get-load_profiles [] id p found = cc
get-load_profiles ((k, q) ∷ profiles) id p found =
    let split = sym (get-put k id (record q { id = k }) (load_profiles profiles)) ∙ found in
    elim (Bool-cases (k == id)) [
      | inr other ↦ get-load_profiles profiles id p (rw other at split)
      | inl same ↦
          let is : record q { id = k } ≡ p = ground arith in
          subst (λ (x : Profile). x.id ≡ id) is ((eq_iff k id).0 same)
    ]

-- The action of the graph that a requirement is about.
abbrev pub IsAbout : SemanticGraph → Requirement → Type 0
IsAbout graph r =
    (node : SemanticGraphNode) × Memᴰ node graph.nodes
    × (is_action node ≡ true)
    × (r.subject.node_id ≡ node.id)

module _ (platform : Platform) where
  compiled-All :
      (root : String) (graph : SemanticGraph) (config : Config) (environment : String) (p : Profile)
      (out : List Requirement)
      → all_requirements platform root environment graph config p []
          (sort (node_before platform) (select is_action graph.nodes))
        ≡ returned out
      → All
          (λ r. IsAbout graph r × IsMade platform graph p.id environment r)
          (sort (requirement_before platform) out)
  compiled-All root graph config environment p out done =
      let actions = sort (node_before platform) (select is_action graph.nodes) in
      let nodes =
        All-sort (node_before platform) (λ n. Memᴰ n graph.nodes × (is_action n ≡ true))
          (select is_action graph.nodes)
          (All-select (λ n. Memᴰ n graph.nodes) is_action graph.nodes
            (All-mem graph.nodes graph.nodes (λ n m. m))) in
      All-sort (requirement_before platform) _ out (
        All-map (IsOfSome platform root environment graph config p actions)
          (λ r. IsAbout graph r × IsMade platform graph p.id environment r) out
          (λ r (node, m, (same, keyed)).
            let (inside, action) =
              All-at (λ n. Memᴰ n graph.nodes × (is_action n ≡ true)) actions node nodes m in
            ((node, inside, action, same), keyed))
          (all_requirements-IsOf platform root environment graph config p [] actions out done))

  pub compile_requirements-IsMade :
      (root : String) (graph : SemanticGraph) (config : Config) (profile environment : String)
      (rs : List Requirement)
      → compile_requirements platform root graph config profile environment ≡ returned rs
      → All (λ r. IsAbout graph r × IsMade platform graph profile environment r) rs
  unfolding compile_requirements
  compile_requirements-IsMade root graph config profile environment rs done =
      elim (Option-cases (get profile (load_profiles config.profiles))) [
        | inl unknown ↦ absurd (ground arith)
        | inr (p, known) ↦
            let P = λ (id : String) (r : Requirement).
              IsAbout graph r × IsMade platform graph id environment r in
            let every =
              all_requirements platform root environment graph config p []
                (sort (node_before platform) (select is_action graph.nodes)) in
            let sorted =
              λ (out : List Requirement). returned (sort (requirement_before platform) out) in
            let compiled : (if profile == "upstream" then returned [] else every >>= sorted)
                ≡ returned rs =
              rw (known, compile_requirements) at done in
            elim (Bool-cases (profile == "upstream")) [
              | inl upstream ↦
                  subst (All (P profile)) (returned_inj _ _ (rw upstream at compiled)) tt
              | inr other ↦
                  let (out, all, last) = >>=-eq-returned every sorted (rw other at compiled) in
                  subst (λ id. All (P id) rs) (get-load_profiles config.profiles profile p known)
                    (subst (All (P p.id)) (returned_inj _ _ last)
                      (compiled-All root graph config environment p out all))
            ]
      ]
