-- ===== src/Healing/Run/Fallbacks.antt =====
-- What healing runs besides the action.
use allas_code_blueprint.Prelude.{
  String, ◌<>◌, ◌≡◌, refl, sym, subst, List, Option, none, some, ℕ, zero, suc, ◌+◌, ltb, find,
  select, arith, inl, inr, ◌⊎◌, Bool-cases, Option-cases,
}
use allas_code_blueprint.Commerce.{ActionResult}
use allas_code_blueprint.Healing.Graph.{
  RegexTest, SemanticGraph, SemanticGraphNode, matches, strategy_nodes, Fallback,
  find_semantic_fallback,
}
use allas_code_blueprint.Healing.Declared.{IsDeclared, find_semantic_fallback-IsDeclared}
use allas_code_blueprint.Healing.Diagnosis.{
  HealingDecision, retry, alternative, human, terminal, is_kind, attempts_of, without_retry,
  diagnose_healing,
}
use allas_code_blueprint.Healing.Run.{
  Execution, HealingEnvironment, HealingExecutionContext, Scene, Failure, LoopEnd, healed_by,
  gave_up, attempt_bound, note, retry_once, retry_loop, try_alternative,
  execute_with_semantic_healing,
}
use allas_code_blueprint.Healing.Run.Bounds.{ActionResult-cases}

-- A fallback of the decision is declared, for the message of some failure.
abbrev Chooses : RegexTest → SemanticGraph → (action : String) → HealingDecision → Type 0
Chooses test graph action (retry plan) = Unit
Chooses test graph action (alternative f) =
    (message : String) × IsDeclared test graph action message f
Chooses test graph action (human plan) = Unit
Chooses test graph action (terminal reason) = Unit

without_retry-Chooses :
    (test : RegexTest) (graph : SemanticGraph) (action message : String)
    (strategies : List SemanticGraphNode)
    → Chooses test graph action (without_retry test graph action message strategies)
unfolding without_retry
without_retry-Chooses test graph action message strategies =
    elim (Option-cases (find_semantic_fallback test graph action message)) [
      | inr (f, found) ↦
          rw (found, Chooses)
            (message, find_semantic_fallback-IsDeclared test graph action message f found)
      | inl missing ↦ elim (Option-cases (find (is_kind "human") strategies)) [
        | inr (node, there) ↦ ground arith
        | inl nobody ↦ ground arith
      ]
    ]

diagnose_healing-Chooses :
    (test : RegexTest) (graph : SemanticGraph) (action message : String) (attempt : ℕ)
    → Chooses test graph action (diagnose_healing test graph action message attempt)
unfolding diagnose_healing
diagnose_healing-Chooses test graph action message attempt =
    let strategies = select (matches test message) (strategy_nodes graph action) in
    let otherwise = without_retry-Chooses test graph action message strategies in
    elim (Option-cases (find (is_kind "retry") strategies)) [
      | inl missing ↦ rw (missing, Chooses) otherwise
      | inr (node, found) ↦ elim (Bool-cases (ltb (attempt + 1) (attempts_of node))) [
        | inl again ↦ rw (found, again, Chooses) tt
        | inr last ↦ rw (found, last, Chooses) otherwise
      ]
    ]

-- The decision that the loop gives up with.
abbrev ChoosesEnd :
    {W : Type 0} → RegexTest → SemanticGraph → (action : String) → Option (LoopEnd W) → Type 0
ChoosesEnd test graph action none = Unit
ChoosesEnd test graph action (some (healed_by success decision attempts scene)) = Unit
ChoosesEnd test graph action (some (gave_up failure decision attempts scene)) =
    Chooses test graph action decision

module _ {W : Type 0} (env : HealingEnvironment W) (graph : SemanticGraph) (action : String) where
  retry_loop-ChoosesEnd :
      (agent : String) (execute : Execution W) (fuel attempts : ℕ) (decision : HealingDecision)
      (failure : Failure) (scene : Scene W)
      → Chooses env.test graph action decision
      → ChoosesEnd env.test graph action
          (retry_loop env graph agent action execute fuel attempts decision failure scene)
  unfolding retry_loop
  retry_loop-ChoosesEnd agent execute zero attempts decision failure scene h = tt
  retry_loop-ChoosesEnd agent execute (suc fuel) attempts (alternative f) failure scene h = h
  retry_loop-ChoosesEnd agent execute (suc fuel) attempts (human plan) failure scene h = h
  retry_loop-ChoosesEnd agent execute (suc fuel) attempts (terminal reason) failure scene h = h
  retry_loop-ChoosesEnd agent execute (suc fuel) attempts (retry plan) failure scene h =
      let next = (retry_once env graph agent action execute plan attempts scene).1 in
      elim (ActionResult-cases (retry_once env graph agent action execute plan attempts scene).0) [
        | inl (event, payload, done) ↦ elim (Bool-cases (ltb attempts plan.max_attempts)) [
          | inl more ↦ ground arith
          | inr enough ↦ ground arith
        ]
        | inr (event, message, failed) ↦ elim (Bool-cases (ltb attempts plan.max_attempts)) [
          | inl more ↦
              let rest =
                retry_loop-ChoosesEnd agent execute fuel (attempts + 1)
                  (diagnose_healing env.test graph action message attempts)
                  (record { event = event; message = message }) next
                  (diagnose_healing-Chooses env.test graph action message attempts) in
              subst (ChoosesEnd env.test graph action) (sym (ground arith)) rest
          | inr enough ↦ ground arith
        ]
      ]

  LoopEnd-cases :
      (end : Option (LoopEnd W))
      → ChoosesEnd env.test graph action end
      → (end ≡ none)
        ⊎ (((success : ActionResult) × (decision : HealingDecision) × (attempts : ℕ)
              × (scene : Scene W) × (end ≡ some (healed_by success decision attempts scene)))
            ⊎ ((failure : Failure) × (decision : HealingDecision) × (attempts : ℕ) × (scene : Scene
                  W)
                × (end ≡ some (gave_up failure decision attempts scene))
                × Chooses env.test graph action decision))
  LoopEnd-cases none h = inl refl
  LoopEnd-cases (some (healed_by success decision attempts scene)) h =
      inr (inl (success, decision, attempts, scene, refl))
  LoopEnd-cases (some (gave_up failure decision attempts scene)) h =
      inr (inr (failure, decision, attempts, scene, refl, h))

  -- Two ways to run a fallback that do the same with those that the graph declares for the action.
  abbrev pub Agree : (run other : Fallback → Execution W) → Type 0
  Agree run other =
      (message : String) (f : Fallback)
      → IsDeclared env.test graph action message f
      → (w : W) → run f w ≡ other f w

  try_alternative-agrees :
      (context : HealingExecutionContext) (agent : String) (run other : Fallback → Execution W)
      (failure : Failure) (decision : HealingDecision) (attempts : ℕ) (scene : Scene W)
      → Agree run other
      → Chooses env.test graph action decision
      → try_alternative env graph context agent action (some run) failure decision attempts scene
        ≡ try_alternative env graph context agent action
            (some other)
            failure
            decision
            attempts
            scene
  unfolding try_alternative
  try_alternative-agrees context agent run other failure (retry plan) attempts scene same h = refl
  try_alternative-agrees context agent run other failure (human plan) attempts scene same h = refl
  try_alternative-agrees context agent run other failure (terminal r) attempts scene same h = refl
  try_alternative-agrees context agent run other failure (alternative f) attempts scene same h =
      let (message, declared) = h in
      let noted = note env graph "fallback" agent action (action <> " -> " <> f.action) scene in
      ground (arith, same message f declared noted.world)

  -- Healing runs nothing besides the action but fallbacks that the graph declares for it: if two ways to
  -- run a fallback do the same with each one that comes from an applicable FALLBACK_TO edge of the action
  -- and belongs to the owner that the graph names, then healing answers the same and leaves the same
  -- world and store with either.
  pub execute_with_semantic_healing-agrees :
      (agent : String) (execute : Execution W) (run other : Fallback → Execution W)
      (context : HealingExecutionContext) (scene : Scene W)
      → Agree run other
      → execute_with_semantic_healing env graph agent action execute (some run) context scene
        ≡ execute_with_semantic_healing env graph agent action execute (some other) context scene
  unfolding execute_with_semantic_healing
  execute_with_semantic_healing-agrees agent execute run other context scene same =
      let noted = note env graph "attempt" agent action "Initial Action execution." scene in
      let started = record noted { world = (execute noted.world).2 } in
      elim (ActionResult-cases (execute noted.world).0) [
        | inl (event, payload, done) ↦ ground arith
        | inr (event, message, failed) ↦
            let first = diagnose_healing env.test graph action message 0 in
            let failure : Failure = record { event = event; message = message } in
            let fuel = suc (attempt_bound graph.nodes) in
            elim (LoopEnd-cases
              (retry_loop env graph agent action execute fuel 1 first failure started)
              (retry_loop-ChoosesEnd agent execute fuel 1 first failure started
                (diagnose_healing-Chooses env.test graph action message 0))) [
                  | inl out ↦ ground arith
                  | inr (inl (success, decision, attempts, after, e)) ↦ ground arith
                  | inr (inr (last, decision, attempts, after, e, chosen)) ↦
                      let alike =
                        try_alternative-agrees context agent run other last decision attempts after
                          same chosen in
                      ground arith
                ]
      ]
