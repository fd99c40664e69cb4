-- ===== src/Healing/Declared.antt =====
-- Where the fallback of an action comes from.
use allas_code_blueprint.Prelude.{
  String, ◌<>◌, ◌≡◌, refl, sym, false, ◌&&◌, or_else, find, exists, ap, subst, ◌∙◌, ◌⊎◌, inl, inr,
  Bool, true, Bool-cases, Option-cases, some, List, [], ◌∷◌, ◌≤◌, ◌==◌, eq_iff, arith, select,
  if◌then◌else◌,
}
use allas_code_blueprint.Healing.Graph.{
  SemanticGraphNode, SemanticGraphEdge, is_strategy, SemanticGraph, RegexTest, label, is_edge,
  action_id, is_applicable, Fallback, owner_of, first_fallback, find_semantic_fallback,
}

-- It stands in the list.
abbrev pub Among : {A : Type 0} → A → List A → Type 0
Among e [] = 1 ≤ 0
Among e (x ∷ xs) = (e ≡ x) ⊎ Among e xs

find-Among :
    {A : Type 0} (test : A → Bool) (e : A) (xs : List A)
    → find test xs ≡ some e
    → Among e xs × (test e ≡ true)
find-Among test e [] found = cc
find-Among test e (x ∷ xs) found = elim (Bool-cases (test x)) [
  | inl here ↦
      let same : x ≡ e = ap (λ o. or_else o x) (rw here at found) in
      (inl (sym same), ap test (sym same) ∙ here)
  | inr other ↦
      let (there, passes) = find-Among test e xs (rw other at found) in (inr there, passes)
]

exists-Among :
    {A : Type 0} (test : A → Bool) (xs : List A)
    → exists test xs ≡ true
    → (e : A) × Among e xs × (test e ≡ true)
exists-Among test [] found = cc
exists-Among test (x ∷ xs) found = elim (Bool-cases (test x)) [
  | inl here ↦ (x, inl refl, here)
  | inr other ↦
      let (e, there, passes) = exists-Among test xs (rw other at found) in (e, inr there, passes)
]

is_edge-eq :
    (type from : String) (edge : SemanticGraphEdge)
    → is_edge type from edge ≡ true
    → (edge.type ≡ type) × (edge.from ≡ from)
is_edge-eq type from edge passes =
    (ground (arith, eq_iff edge.type type), ground (arith, eq_iff edge.from from))

-- The edge names no strategy, or one that the graph has, that is attached to the action by a HEALED_BY
-- edge, and whose regular expression is given and matches the message.
abbrev pub Applies :
    RegexTest → SemanticGraph → (source message : String) → SemanticGraphEdge → Type 0
Applies test graph source message edge =
    (edge.when_strategy ≡ "")
    ⊎ ((strategy : SemanticGraphNode) × (attached : SemanticGraphEdge) × Among strategy graph.nodes
        × (strategy.id ≡ "HealingStrategy:" <> edge.when_strategy)
        × (strategy.type ≡ "HealingStrategy")
        × Among attached graph.edges
        × (attached.type ≡ "HEALED_BY")
        × (attached.from ≡ source)
        × (attached.target ≡ strategy.id)
        × ((strategy.metadata.message_regex == "") ≡ false)
        × (test strategy.metadata.message_regex message ≡ true))

is_applicable-Applies :
    (test : RegexTest) (graph : SemanticGraph) (source message : String) (edge : SemanticGraphEdge)
    → is_applicable test graph source message edge ≡ true
    → Applies test graph source message edge
unfolding is_applicable
is_applicable-Applies test graph source message edge passes =
    elim (Bool-cases (edge.when_strategy == "")) [
      | inl unnamed ↦ inl ((eq_iff edge.when_strategy "").0 unnamed)
      | inr named ↦ elim (Option-cases (find (is_strategy edge.when_strategy) graph.nodes)) [
        | inl missing ↦ absurd (ground arith)
        | inr (strategy, found) ↦
            let attaches = λ (candidate : SemanticGraphEdge).
              is_edge "HEALED_BY" source candidate && (candidate.target == strategy.id) in
            let is_attached : exists attaches graph.edges ≡ true = ground arith in
            let (inside, is) =
              find-Among (is_strategy edge.when_strategy) strategy graph.nodes found in
            let (attached, there, healed) = exists-Among attaches graph.edges is_attached in
            let (type, from) = is_edge-eq "HEALED_BY" source attached (ground arith) in
            inr (
              strategy,
              attached,
              inside,
              ground (arith, eq_iff strategy.id ("HealingStrategy:" <> edge.when_strategy)),
              ground (arith, eq_iff strategy.type "HealingStrategy"),
              there,
              type,
              from,
              ground (arith, eq_iff attached.target strategy.id),
              ground arith,
              ground arith,
            )
      ]
    ]

select-Among :
    (test : SemanticGraphEdge → Bool) (e : SemanticGraphEdge) (xs : List SemanticGraphEdge)
    → Among e (select test xs)
    → Among e xs × (test e ≡ true)
select-Among test e [] absurd = (absurd, ground arith)
select-Among test e (x ∷ xs) here = elim (Bool-cases (test x)) [
  | inr dropped ↦
      let rest : Among e (select test xs) =
        subst (λ b. Among e (if b then x ∷ select test xs else select test xs)) dropped here in
      let (there, passes) = select-Among test e xs rest in (inr there, passes)
  | inl kept ↦
      let found : (e ≡ x) ⊎ Among e (select test xs) =
        subst (λ b. Among e (if b then x ∷ select test xs else select test xs)) kept here in
      elim found [
        | inl same ↦ (inl same, ap test same ∙ kept)
        | inr rest ↦ let (there, passes) = select-Among test e xs rest in (inr there, passes)
      ]
]

-- The fallback is what an edge of the list leads to, with the owner that the graph names.
abbrev pub ComesFrom :
    RegexTest
    → SemanticGraph
    → (source message : String) → List SemanticGraphEdge
    → Fallback
    → Type 0
ComesFrom test graph source message edges f =
    (edge : SemanticGraphEdge) × (owner : SemanticGraphEdge) × Among edge edges
    × (is_applicable test graph source message edge ≡ true)
    × (owner_of graph edge.target ≡ some owner)
    × (f.agent ≡ label owner.target)
    × (f.action ≡ label edge.target)

first_fallback-ComesFrom :
    (test : RegexTest) (graph : SemanticGraph) (source message : String)
    (edges : List SemanticGraphEdge) (f : Fallback)
    → first_fallback test graph source message edges ≡ some f
    → ComesFrom test graph source message edges f
unfolding first_fallback
first_fallback-ComesFrom test graph source message [] f found = ground arith
first_fallback-ComesFrom test graph source message (edge ∷ edges) f found =
    let later : first_fallback test graph source message edges ≡ some f
        → ComesFrom test graph source message (edge ∷ edges) f =
      λ e.
        let (x, owner, there, applies, owned, agent, name) =
          first_fallback-ComesFrom test graph source message edges f e in
        (x, owner, inr there, applies, owned, agent, name) in
    elim (Bool-cases (is_applicable test graph source message edge)) [
      | inr skipped ↦ later (ground arith)
      | inl applies ↦ elim (Option-cases (owner_of graph edge.target)) [
        | inl unowned ↦ later (ground arith)
        | inr (owner, owned) ↦ elim (Bool-cases (owner.target == "")) [
          | inl unnamed ↦ later (ground arith)
          | inr named ↦ (edge, owner, inl refl, applies, owned, ground arith, ground arith)
        ]
      ]
    ]

-- The graph declares the fallback for the action and the message: a FALLBACK_TO edge from the action
-- that applies leads to the fallback's action, and an ACTION_OWNER edge from there to its agent.
abbrev pub IsDeclared : RegexTest → SemanticGraph → (action message : String) → Fallback → Type 0
IsDeclared test graph action message f =
    (edge : SemanticGraphEdge) × (owner : SemanticGraphEdge) × Among edge graph.edges
    × (edge.type ≡ "FALLBACK_TO")
    × (edge.from ≡ "Action:" <> action)
    × Applies test graph ("Action:" <> action) message edge
    × Among owner graph.edges
    × (owner.type ≡ "ACTION_OWNER")
    × (owner.from ≡ edge.target)
    × (f.agent ≡ label owner.target)
    × (f.action ≡ label edge.target)

pub find_semantic_fallback-IsDeclared :
    (test : RegexTest) (graph : SemanticGraph) (action message : String) (f : Fallback)
    → find_semantic_fallback test graph action message ≡ some f
    → IsDeclared test graph action message f
unfolding find_semantic_fallback
find_semantic_fallback-IsDeclared test graph action message f found =
    let (edge, owner, there, applies, owned, agent, name) =
      first_fallback-ComesFrom test graph (action_id action) message _ f found in
    let (stored, passes) = select-Among (is_edge "FALLBACK_TO" (action_id action)) edge _ there in
    let (type, from) = is_edge-eq "FALLBACK_TO" (action_id action) edge passes in
    let (named, owns) = find-Among (is_edge "ACTION_OWNER" edge.target) owner graph.edges owned in
    let (owner_type, owner_from) = is_edge-eq "ACTION_OWNER" edge.target owner owns in
    (
      edge,
      owner,
      stored,
      type,
      from,
      is_applicable-Applies test graph (action_id action) message edge applies,
      named,
      owner_type,
      owner_from,
      agent,
      name,
    )
