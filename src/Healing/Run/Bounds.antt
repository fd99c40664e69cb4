-- ===== src/Healing/Run/Bounds.antt =====
-- The attempts of the retry loop.
use allas_code_blueprint.Prelude.{
  String, ◌<>◌, ◌≡◌, refl, subst, ◌⊎◌, inl, inr, Bool, true, false, not, ◌&&◌, Bool-cases,
  Option-cases, Option, none, some, List, [], ◌∷◌, ℕ, zero, suc, ◌+◌, ◌≤◌, ◌<◌, ltb, arith, find,
  select,
}
use allas_code_blueprint.Commerce.{Payload, ActionResult, ok, error}
use allas_code_blueprint.Healing.Graph.{
  SemanticGraphNode, SemanticGraph, RegexTest, strategy_nodes, matches, Fallback,
}
use allas_code_blueprint.Healing.Diagnosis.{
  HealingDecision, retry, alternative, human, terminal, is_kind, attempts_of, without_retry,
  diagnose_healing,
}
use allas_code_blueprint.Healing.Run.{
  Execution, HealingEnvironment, HealingExecutionContext, Scene, Failure, HealingOutcome, LoopEnd,
  healed_by, gave_up, note, retry_once, retry_loop, attempt_bound, conclude, try_alternative,
  execute_with_semantic_healing,
}

abbrev pub AllowsUpTo : ℕ → List SemanticGraphNode → Type 0
AllowsUpTo n [] = Unit
AllowsUpTo n (node ∷ nodes) = (attempts_of node ≤ n) × AllowsUpTo n nodes

AllowsUpTo-mono :
    (m n : ℕ) (nodes : List SemanticGraphNode) → m ≤ n → AllowsUpTo m nodes → AllowsUpTo n nodes
AllowsUpTo-mono m n [] le all = tt
AllowsUpTo-mono m n (node ∷ nodes) le (one, all) =
    (omega (arith, one, le), AllowsUpTo-mono m n nodes le all)

select-AllowsUpTo :
    (n : ℕ) (test : SemanticGraphNode → Bool) (nodes : List SemanticGraphNode)
    → AllowsUpTo n nodes
    → AllowsUpTo n (select test nodes)
select-AllowsUpTo n test [] all = tt
select-AllowsUpTo n test (node ∷ nodes) (one, all) =
    let rest = select-AllowsUpTo n test nodes all in
    elim (Bool-cases (test node)) [ inl kept ↦ rw kept (one, rest) | inr dropped ↦ rw dropped rest ]

find-AllowsUpTo :
    (n : ℕ) (test : SemanticGraphNode → Bool) (nodes : List SemanticGraphNode)
    (node : SemanticGraphNode)
    → AllowsUpTo n nodes
    → find test nodes ≡ some node
    → attempts_of node ≤ n
find-AllowsUpTo n test [] node all found = ground arith
find-AllowsUpTo n test (first ∷ nodes) node (one, all) found = elim (Bool-cases (test first)) [
  | inl here ↦ let e : first ≡ node = ground arith in subst (λ x. attempts_of x ≤ n) e one
  | inr there ↦
      let rest : find test nodes ≡ some node = ground arith in
      find-AllowsUpTo n test nodes node all rest
]

attempt_bound-AllowsUpTo : (nodes : List SemanticGraphNode) → AllowsUpTo (attempt_bound nodes) nodes
unfolding attempt_bound
attempt_bound-AllowsUpTo [] = tt
attempt_bound-AllowsUpTo (node ∷ nodes) =
    let rest = attempt_bound-AllowsUpTo nodes in
    let bound = attempt_bound (node ∷ nodes) in
    let grows : attempt_bound nodes ≤ bound = ground arith in
    (ground arith, AllowsUpTo-mono (attempt_bound nodes) bound nodes grows rest)

abbrev pub AllowsRetries : ℕ → HealingDecision → Type 0
AllowsRetries n (retry plan) = plan.max_attempts ≤ n
AllowsRetries n (alternative fallback) = Unit
AllowsRetries n (human plan) = Unit
AllowsRetries n (terminal reason) = Unit

diagnose_healing-AllowsRetries :
    (test : RegexTest) (graph : SemanticGraph) (action message : String) (attempt : ℕ)
    → AllowsRetries (attempt_bound graph.nodes) (diagnose_healing test graph action message attempt)
unfolding diagnose_healing strategy_nodes without_retry
diagnose_healing-AllowsRetries test graph action message attempt =
    let bound = attempt_bound graph.nodes in
    let strategies = select (matches test message) (strategy_nodes graph action) in
    let all : AllowsUpTo bound strategies =
      select-AllowsUpTo bound (matches test message) (strategy_nodes graph action)
        (select-AllowsUpTo bound _ graph.nodes (attempt_bound-AllowsUpTo graph.nodes)) in
    elim (Option-cases (find (is_kind "retry") strategies)) [
      | inl missing ↦ ground arith
      | inr (node, found) ↦
          let allowed = find-AllowsUpTo bound (is_kind "retry") strategies node all found in
          ground arith
    ]

pub ActionResult-cases :
    (r : ActionResult)
    → ((event : String) × (payload : Payload) × (r ≡ ok event payload))
      ⊎ ((event : String) × (message : String) × (r ≡ error event message))
ActionResult-cases (ok event payload) = inl (event, payload, refl)
ActionResult-cases (error event message) = inr (event, message, refl)

abbrev pub is_success : ActionResult → Bool
is_success (ok event payload) = true
is_success (error event message) = false

-- The loop ended, with a number of attempts within the bound.
abbrev pub EndsWithin : {W : Type 0} → ℕ → Option (LoopEnd W) → Type 0
EndsWithin n none = 1 ≤ 0
EndsWithin n (some (healed_by success decision attempts scene)) =
    (attempts ≤ n) × (is_success success ≡ true)
EndsWithin n (some (gave_up failure decision attempts scene)) = attempts ≤ n

LoopEnd-cases :
    {W : Type 0} (n : ℕ) (end : Option (LoopEnd W))
    → EndsWithin n end
    → ((success : ActionResult) × (decision : HealingDecision) × (attempts : ℕ) × (scene : Scene W)
        × (end ≡ some (healed_by success decision attempts scene))
        × (attempts ≤ n)
        × (is_success success ≡ true))
      ⊎ ((failure : Failure) × (decision : HealingDecision) × (attempts : ℕ) × (scene : Scene W)
          × (end ≡ some (gave_up failure decision attempts scene))
          × (attempts ≤ n))
LoopEnd-cases n none ends = ground arith
LoopEnd-cases n (some (healed_by success decision attempts scene)) (few, succeeded) =
    inl (success, decision, attempts, scene, refl, few, succeeded)
LoopEnd-cases n (some (gave_up failure decision attempts scene)) few =
    inr (failure, decision, attempts, scene, refl, few)

attempt_bound-positive : (nodes : List SemanticGraphNode) → 1 ≤ attempt_bound nodes
unfolding attempt_bound
attempt_bound-positive [] = omega arith
attempt_bound-positive (node ∷ nodes) = let rest = attempt_bound-positive nodes in ground arith

-- The attempts are within the bound and what is healed is a success.
abbrev pub IsSound : ℕ → HealingOutcome → Type 0
IsSound n outcome =
    (outcome.attempts ≤ n) × ((outcome.healed && not (is_success outcome.result)) ≡ false)

abbrev pub Returns : {W : Type 0} → ℕ → Option (HealingOutcome × Scene W) → Type 0
Returns n none = 1 ≤ 0
Returns n (some (outcome, after)) = IsSound n outcome

module _ {W : Type 0} (env : HealingEnvironment W) (graph : SemanticGraph) where
  retry_loop-EndsWithin :
      (agent action : String) (execute : Execution W) (fuel attempts : ℕ)
      (decision : HealingDecision) (failure : Failure) (scene : Scene W)
      → AllowsRetries (attempt_bound graph.nodes) decision
      → attempts ≤ attempt_bound graph.nodes
      → attempt_bound graph.nodes < fuel + attempts
      → EndsWithin
          (attempt_bound graph.nodes)
          (retry_loop env graph agent action execute fuel attempts decision failure scene)
  unfolding retry_loop
  retry_loop-EndsWithin agent action execute zero attempts decision failure scene allowed few
        enough =
      omega (arith, few, enough)
  retry_loop-EndsWithin agent action execute (suc fuel) attempts (alternative f) failure scene
        allowed few enough =
      few
  retry_loop-EndsWithin agent action execute (suc fuel) attempts (human plan) failure scene allowed
        few enough =
      few
  retry_loop-EndsWithin agent action execute (suc fuel) attempts (terminal reason) failure scene
        allowed few enough =
      few
  retry_loop-EndsWithin agent action execute (suc fuel) attempts (retry plan) failure scene allowed
        few enough =
      let bound = attempt_bound graph.nodes in
      let next = (retry_once env graph agent action execute plan attempts scene).1 in
      elim (ActionResult-cases (retry_once env graph agent action execute plan attempts scene).0) [
        | inl (event, payload, done) ↦ elim (Bool-cases (ltb attempts plan.max_attempts)) [
          | inl more ↦ ground arith
          | inr enough ↦ ground arith
        ]
        | inr (event, message, failed) ↦ elim (Bool-cases (ltb attempts plan.max_attempts)) [
          | inl more ↦
              let rest =
                retry_loop-EndsWithin agent action execute fuel (attempts + 1)
                  (diagnose_healing env.test graph action message attempts)
                  (record { event = event; message = message }) next
                  (diagnose_healing-AllowsRetries env.test graph action message attempts)
                  (ground arith) (omega (arith, enough)) in
              ground arith
          | inr enough ↦ ground arith
        ]
      ]

  conclude-IsSound :
      (context : HealingExecutionContext) (agent action : String) (failure : Failure)
      (decision : HealingDecision) (attempts : ℕ) (scene : Scene W)
      → IsSound attempts (conclude env graph context agent action failure decision attempts scene).0
  unfolding conclude
  conclude-IsSound context agent action failure (retry plan) attempts scene = (omega arith, refl)
  conclude-IsSound context agent action failure (alternative f) attempts scene = (omega arith, refl)
  conclude-IsSound context agent action failure (terminal reason) attempts scene =
      (omega arith, refl)
  conclude-IsSound context agent action failure (human plan) attempts scene =
      elim (Option-cases scene.store) [
        | inl missing ↦ ground arith
        | inr (store, there) ↦ ground arith
      ]

  conclude-more :
      (context : HealingExecutionContext) (agent action : String) (failure : Failure)
      (decision : HealingDecision) (attempts : ℕ) (scene : Scene W)
      → IsSound
          (attempts + 1)
          (conclude env graph context agent action failure decision attempts scene).0
  conclude-more context agent action failure decision attempts scene =
      let (few, honest) = conclude-IsSound context agent action failure decision attempts scene in
      (omega (arith, few), honest)

  try_alternative-IsSound :
      (context : HealingExecutionContext) (agent action : String)
      (execute_alternative : Option (Fallback → Execution W)) (failure : Failure)
      (decision : HealingDecision) (attempts : ℕ) (scene : Scene W)
      → IsSound
          (attempts + 1)
          (try_alternative env graph context agent action execute_alternative failure decision
            attempts scene).0
  unfolding try_alternative
  try_alternative-IsSound context agent action run failure (retry plan) attempts scene =
      conclude-more context agent action failure (retry plan) attempts scene
  try_alternative-IsSound context agent action run failure (human plan) attempts scene =
      conclude-more context agent action failure (human plan) attempts scene
  try_alternative-IsSound context agent action run failure (terminal reason) attempts scene =
      conclude-more context agent action failure (terminal reason) attempts scene
  try_alternative-IsSound context agent action none failure (alternative f) attempts scene =
      conclude-more context agent action failure (alternative f) attempts scene
  try_alternative-IsSound context agent action (some run) failure (alternative f) attempts scene =
      let noted = note env graph "fallback" agent action (action <> " -> " <> f.action) scene in
      let next = record noted { world = (run f noted.world).2 } in
      elim (ActionResult-cases (run f noted.world).0) [
        | inl (event, payload, done) ↦ ground arith
        | inr (event, message, failed) ↦
            let concluded =
              conclude-IsSound context f.agent f.action
                (record { event = event; message = message })
                (diagnose_healing env.test graph f.action message 0) (attempts + 1) next in
            ground arith
      ]

  -- Healing always returns, after one attempt more than the graph allows at most (the fallback), and
  -- an outcome that is called healed is a success.
  pub execute_with_semantic_healing-Returns :
      (agent action : String) (execute : Execution W)
      (execute_alternative : Option (Fallback → Execution W)) (context : HealingExecutionContext)
      (scene : Scene W)
      → Returns (attempt_bound graph.nodes + 1) (
          execute_with_semantic_healing env graph agent action execute execute_alternative context
            scene)
  unfolding execute_with_semantic_healing
  execute_with_semantic_healing-Returns agent action execute execute_alternative context scene =
      let noted = note env graph "attempt" agent action "Initial Action execution." scene in
      let started = record noted { world = (execute noted.world).2 } in
      let bound = attempt_bound graph.nodes in
      elim (ActionResult-cases (execute noted.world).0) [
        | inl (event, payload, done) ↦ ground arith
        | inr (event, message, failed) ↦
            let first = diagnose_healing env.test graph action message 0 in
            let failure : Failure = record { event = event; message = message } in
            let ended =
              retry_loop-EndsWithin agent action execute (suc bound) 1 first failure started
                (diagnose_healing-AllowsRetries env.test graph action message 0)
                (attempt_bound-positive graph.nodes) (omega arith) in
            elim (LoopEnd-cases bound
              (retry_loop env graph agent action execute (suc bound) 1 first failure started)
              ended) [
                | inl (success, decision, attempts, after, e, few, succeeded) ↦ ground arith
                | inr (last, decision, attempts, after, e, few) ↦
                    let (some_more, honest) =
                      try_alternative-IsSound context agent action execute_alternative last decision
                        attempts after in
                    ground arith
              ]
      ]
