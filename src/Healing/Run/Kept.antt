-- ===== src/Healing/Run/Kept.antt =====
-- A healing case of the store during a healing.
use allas_code_blueprint.Prelude.{
  String, ◌<>◌, ◌≡◌, ◌≢◌, refl, Option, none, some, ℕ, zero, suc, ◌+◌, ltb, arith, inl, inr, ◌⊎◌,
  Bool-cases, Option-cases,
}
use allas_code_blueprint.Commerce.{Payload, ActionResult}
use allas_code_blueprint.Healing.Store.{HealingCase, HealingStore}
use allas_code_blueprint.Healing.Cases.{Closed, escalate_other-Closed}
use allas_code_blueprint.Healing.Graph.{SemanticGraph, Fallback}
use allas_code_blueprint.Healing.Diagnosis.{
  HealingDecision, retry, alternative, human, terminal, diagnose_healing,
}
use allas_code_blueprint.Healing.Run.{
  Execution, HealingEnvironment, HealingExecutionContext, Scene, Failure, HealingOutcome, LoopEnd,
  healed_by, gave_up, attempt_bound, note, retry_once, retry_loop, case_input, conclude,
  try_alternative, execute_with_semantic_healing,
}
use allas_code_blueprint.Healing.Run.Bounds.{ActionResult-cases}

module _ {W : Type 0} (env : HealingEnvironment W) (graph : SemanticGraph) (id : String)
    (value : HealingCase Payload) where
  -- The store, if there is one, holds the closed case.
  abbrev pub Keeps : Option (HealingStore Payload) → Type 0
  Keeps none = Unit
  Keeps (some store) = Closed env.hash id value store

  abbrev KeepsEnd : Option (LoopEnd W) → Type 0
  KeepsEnd none = Unit
  KeepsEnd (some (healed_by success decision attempts scene)) = Keeps scene.store
  KeepsEnd (some (gave_up failure decision attempts scene)) = Keeps scene.store

  abbrev pub KeepsAfter : Option (HealingOutcome × Scene W) → Type 0
  KeepsAfter none = Unit
  KeepsAfter (some (outcome, after)) = Keeps after.store

  LoopEnd-cases :
      (end : Option (LoopEnd W))
      → KeepsEnd end
      → (end ≡ none)
        ⊎ (((success : ActionResult) × (decision : HealingDecision) × (attempts : ℕ)
              × (scene : Scene W) × (end ≡ some (healed_by success decision attempts scene))
              × Keeps scene.store)
            ⊎ ((failure : Failure) × (decision : HealingDecision) × (attempts : ℕ) × (scene : Scene
                  W)
                × (end ≡ some (gave_up failure decision attempts scene))
                × Keeps scene.store))
  LoopEnd-cases none h = inl refl
  LoopEnd-cases (some (healed_by success decision attempts scene)) h =
      inr (inl (success, decision, attempts, scene, refl, h))
  LoopEnd-cases (some (gave_up failure decision attempts scene)) h =
      inr (inr (failure, decision, attempts, scene, refl, h))

  note-Keeps :
      (kind agent action detail : String) (scene : Scene W)
      → Keeps scene.store
      → Keeps (note env graph kind agent action detail scene).store
  note-Keeps kind agent action detail scene h = elim (Option-cases scene.store) [
    | inl missing ↦ rw missing tt
    | inr (store, there) ↦ rw there (rw there at h)
  ]

  retry_loop-KeepsEnd :
      (agent action : String) (execute : Execution W) (fuel attempts : ℕ)
      (decision : HealingDecision) (failure : Failure) (scene : Scene W)
      → Keeps scene.store
      → KeepsEnd (retry_loop env graph agent action execute fuel attempts decision failure scene)
  unfolding retry_loop
  retry_loop-KeepsEnd agent action execute zero attempts decision failure scene h = tt
  retry_loop-KeepsEnd agent action execute (suc fuel) attempts (alternative f) failure scene h = h
  retry_loop-KeepsEnd agent action execute (suc fuel) attempts (human plan) failure scene h = h
  retry_loop-KeepsEnd agent action execute (suc fuel) attempts (terminal reason) failure scene h = h
  retry_loop-KeepsEnd agent action execute (suc fuel) attempts (retry plan) failure scene h =
      let (result, next) = retry_once env graph agent action execute plan attempts scene in
      let kept : Keeps next.store =
        note-Keeps "retry" agent action
          (plan.strategy
            <> " attempt "
            <> env.show_number (attempts + 1)
            <> "/"
            <> env.show_number plan.max_attempts)
          scene h in
      elim (ActionResult-cases (retry_once env graph agent action execute plan attempts scene).0) [
        | inl (event, payload, done) ↦ elim (Bool-cases (ltb attempts plan.max_attempts)) [
          | inl more ↦ ground arith
          | inr enough ↦ ground arith
        ]
        | inr (event, message, failed) ↦ elim (Bool-cases (ltb attempts plan.max_attempts)) [
          | inl more ↦
              let rest =
                retry_loop-KeepsEnd agent action execute fuel (attempts + 1)
                  (diagnose_healing env.test graph action message attempts)
                  (record { event = event; message = message }) next kept in
              ground arith
          | inr enough ↦ ground arith
        ]
      ]

  module _ (fresh : (w : W) → (env.draw_uuids w).0 ≢ id) where
    conclude-Keeps :
        (context : HealingExecutionContext) (agent action : String) (failure : Failure)
        (decision : HealingDecision) (attempts : ℕ) (scene : Scene W)
        → Keeps scene.store
        → Keeps (conclude env graph context agent action failure decision attempts scene).1.store
    unfolding conclude
    conclude-Keeps context agent action failure (retry plan) attempts scene h =
        note-Keeps "terminal" agent action failure.message scene h
    conclude-Keeps context agent action failure (alternative f) attempts scene h =
        note-Keeps "terminal" agent action failure.message scene h
    conclude-Keeps context agent action failure (terminal reason) attempts scene h =
        note-Keeps "terminal" agent action failure.message scene h
    conclude-Keeps context agent action failure (human plan) attempts scene h =
        elim (Option-cases scene.store) [
          | inl missing ↦ rw missing tt
          | inr (store, there) ↦ rw there (
              escalate_other-Closed env.hash id (env.draw_uuids scene.world).0
                (env.draw_uuids scene.world).1 (env.clock scene.world) plan.resume_ttl_ms
                (case_input env graph context agent action failure) value store (fresh scene.world)
                (rw there at h))
        ]

    try_alternative-Keeps :
        (context : HealingExecutionContext) (agent action : String)
        (execute_alternative : Option (Fallback → Execution W)) (failure : Failure)
        (decision : HealingDecision) (attempts : ℕ) (scene : Scene W)
        → Keeps scene.store
        → Keeps
            (try_alternative env graph context agent action execute_alternative failure decision
              attempts scene).1.store
    unfolding try_alternative
    try_alternative-Keeps context agent action run failure (retry plan) attempts scene h =
        conclude-Keeps context agent action failure (retry plan) attempts scene h
    try_alternative-Keeps context agent action run failure (human plan) attempts scene h =
        conclude-Keeps context agent action failure (human plan) attempts scene h
    try_alternative-Keeps context agent action run failure (terminal reason) attempts scene h =
        conclude-Keeps context agent action failure (terminal reason) attempts scene h
    try_alternative-Keeps context agent action none failure (alternative f) attempts scene h =
        conclude-Keeps context agent action failure (alternative f) attempts scene h
    try_alternative-Keeps context agent action (some run) failure (alternative f) attempts scene h =
        let noted = note env graph "fallback" agent action (action <> " -> " <> f.action) scene in
        let next = record noted { world = (run f noted.world).2 } in
        let kept : Keeps next.store =
          note-Keeps "fallback" agent action (action <> " -> " <> f.action) scene h in
        elim (ActionResult-cases (run f noted.world).0) [
          | inl (event, payload, done) ↦ ground arith
          | inr (event, message, failed) ↦
              let concluded =
                conclude-Keeps context f.agent f.action
                  (record { event = event; message = message })
                  (diagnose_healing env.test graph f.action message 0) (attempts + 1) next kept in
              ground arith
        ]

    -- A case that is not pending is stored as before after a healing, whose new cases have other
    -- identifiers.
    pub execute_with_semantic_healing-Keeps :
        (agent action : String) (execute : Execution W)
        (execute_alternative : Option (Fallback → Execution W)) (context : HealingExecutionContext)
        (scene : Scene W)
        → Keeps scene.store
        → KeepsAfter (
            execute_with_semantic_healing env graph agent action execute execute_alternative context
              scene)
    unfolding execute_with_semantic_healing
    execute_with_semantic_healing-Keeps agent action execute execute_alternative context scene h =
        let noted = note env graph "attempt" agent action "Initial Action execution." scene in
        let started = record noted { world = (execute noted.world).2 } in
        let kept : Keeps started.store =
          note-Keeps "attempt" agent action "Initial Action execution." scene h in
        elim (ActionResult-cases (execute noted.world).0) [
          | inl (event, payload, done) ↦ ground arith
          | inr (event, message, failed) ↦
              let first = diagnose_healing env.test graph action message 0 in
              let failure : Failure = record { event = event; message = message } in
              let fuel = suc (attempt_bound graph.nodes) in
              elim (LoopEnd-cases
                (retry_loop env graph agent action execute fuel 1 first failure started)
                (retry_loop-KeepsEnd agent action execute fuel 1 first failure started kept)) [
                  | inl out ↦ ground arith
                  | inr (inl (success, decision, attempts, after, e, same)) ↦ ground arith
                  | inr (inr (last, decision, attempts, after, e, same)) ↦
                      let tried =
                        try_alternative-Keeps context agent action execute_alternative last decision
                          attempts after same in
                      ground arith
                ]
        ]
