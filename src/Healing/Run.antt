-- ===== src/Healing/Run.antt =====
-- executeWithSemanticHealing and resumeHumanHealing of runtime/semantic-healing.ts. `W` is the world
-- in which actions run; an execution tells how many milliseconds it took. One that takes its
-- time-out or longer loses the race, but what it did to the world stays.
pub mod Bounds
pub mod Kept
pub mod Fallbacks
use allas_code_blueprint.Prelude.{
  String, ◌<>◌, Bool, true, false, not, ◌||◌, Option, none, some, List, [], ◌∷◌, ℕ, zero, suc, ◌+◌,
  ◌-◌, ltb, leb, nat_eq, ◌==◌, if◌then◌else◌, or_else,
}
use allas_code_blueprint.Commerce.{Payload, ActionResult, ok, error}
use allas_code_blueprint.Healing.Store.{
  HealingInput, HealingCase, HealingStore, Attempt, returned, thrown, audit, escalate,
  consume_resume,
}
use allas_code_blueprint.Healing.Graph.{
  SemanticGraphNode, SemanticGraph, RegexTest, Fallback, declared_error_event,
}
use allas_code_blueprint.Healing.Diagnosis.{
  RetryPlan, HumanPlan, HealingDecision, retry, alternative, human, terminal, attempts_of,
  diagnose_healing,
}

abbrev pub Execution : Type 0 → Type 0
Execution W = W → ActionResult × ℕ × W

pub record HealingEnvironment (W : Type 0) : Type 0 where
  pub test : RegexTest
  pub clock : W → ℕ
  pub wait : ℕ → W → W
  pub draw_uuids : W → String × String × W
  pub hash : Payload → String
  pub show_number : ℕ → String

pub record HealingExecutionContext : Type 0 where
  pub intent : Option String
  pub original_event : Option String
  pub original_payload : Payload
  pub correlation_id : Option String

pub record Scene (W : Type 0) : Type 0 where
  pub world : W
  pub store : Option (HealingStore Payload)

pub record Failure : Type 0 where
  pub event : String
  pub message : String

pub record HealingOutcome : Type 0 where
  pub result : ActionResult
  pub healed : Bool
  pub decision : HealingDecision
  pub escalated : Option (HealingCase Payload)
  pub attempts : ℕ

-- How the retry loop ends: with a success, or with the last failure and decision.
pub data LoopEnd (W : Type 0) : Type 0 where
  healed_by : ActionResult → HealingDecision → (attempts : ℕ) → Scene W → LoopEnd W
  gave_up : Failure → HealingDecision → (attempts : ℕ) → Scene W → LoopEnd W

-- The largest number of attempts that a node of the graph allows.
unfoldable pub attempt_bound : List SemanticGraphNode → ℕ
attempt_bound [] = 1
attempt_bound (node ∷ nodes) =
    let rest = attempt_bound nodes in if leb rest (attempts_of node) then attempts_of node else rest

module _ {W : Type 0} (env : HealingEnvironment W) (graph : SemanticGraph) where
  -- `store?.audit(...)`.
  abbrev pub note : (kind agent action detail : String) → Scene W → Scene W
  note kind agent action detail scene = elim scene.store [
    | none ↦ scene
    | some store ↦ record scene {
      store = some (audit (env.clock scene.world) none kind agent action detail store);
    }
  ]

  unfoldable pub execute_bounded : Execution W → ℕ → String → W → ActionResult × W
  execute_bounded execute timeout error_event world =
      let (result, took, next) = execute world in
      if leb timeout 0 || ltb took timeout then (result, next) else (
        error error_event
            ("timeout after " <> env.show_number timeout <> "ms during healing retry"),
        next,
      )

  abbrev pub backoff : ℕ → W → W
  backoff ms world = if ltb 0 ms then env.wait ms world else world

  abbrev pub retry_note : (agent action : String) → RetryPlan → ℕ → Scene W → Scene W
  retry_note agent action plan attempts = note "retry" agent action (
      plan.strategy
      <> " attempt "
      <> env.show_number (attempts + 1)
      <> "/"
      <> env.show_number plan.max_attempts)

  -- One retry: the note, the pause and the execution with its time-out.
  abbrev pub retry_once :
      (agent action : String) → Execution W → RetryPlan → ℕ → Scene W → ActionResult × Scene W
  retry_once agent action execute plan attempts scene =
      let noted = retry_note agent action plan attempts scene in
      let (result, world) =
        execute_bounded execute plan.timeout_ms (declared_error_event graph action)
          (backoff plan.backoff_ms noted.world) in
      (result, record noted { world = world })

  -- The `while` loop; `none` is a loop that is out of fuel. What is computed for a plan without
  -- attempts left is dropped: its retry does not happen.
  unfoldable pub retry_loop :
      (agent action : String)
      → Execution W
      → (fuel : ℕ) → (attempts : ℕ) → HealingDecision
      → Failure
      → Scene W
      → Option (LoopEnd W)
  retry_loop agent action execute zero attempts decision failure scene = none
  retry_loop agent action execute (suc fuel) attempts (retry plan) failure scene =
      let (result, next) = retry_once agent action execute plan attempts scene in
      elim result [
        | ok event payload ↦
            if ltb attempts plan.max_attempts
            then some (healed_by (ok event payload) (retry plan) (attempts + 1) next)
            else some (gave_up failure (retry plan) attempts scene)
        | error event message ↦
            let again =
              retry_loop agent action execute fuel (attempts + 1)
                (diagnose_healing env.test graph action message attempts)
                (record { event = event; message = message }) next in
            if ltb attempts plan.max_attempts
            then again
            else some (gave_up failure (retry plan) attempts scene)
      ]
  retry_loop agent action execute (suc fuel) attempts (alternative f) failure scene =
      some (gave_up failure (alternative f) attempts scene)
  retry_loop agent action execute (suc fuel) attempts (human plan) failure scene =
      some (gave_up failure (human plan) attempts scene)
  retry_loop agent action execute (suc fuel) attempts (terminal reason) failure scene =
      some (gave_up failure (terminal reason) attempts scene)

  abbrev pub failed_outcome :
      Failure → HealingDecision → Option (HealingCase Payload) → ℕ → HealingOutcome
  failed_outcome failure decision escalated attempts = record {
    result = error failure.event failure.message;
    healed = false;
    decision = decision;
    escalated = escalated;
    attempts = attempts;
  }

  abbrev pub case_input :
      HealingExecutionContext → (agent action : String) → Failure → HealingInput Payload
  case_input context agent action failure = record {
    intent = or_else context.intent "unknown-intent";
    agent = agent;
    action = action;
    original_event = or_else context.original_event "unknown-event";
    original_payload = context.original_payload;
    error_event = failure.event;
    error_message = failure.message;
    correlation_id = or_else context.correlation_id (
        or_else context.intent "intent"
        <> ":"
        <> action
        <> ":"
        <> env.hash context.original_payload);
  }

  -- The end of the function: the escalation to a human, or the terminal note.
  unfoldable pub conclude :
      HealingExecutionContext
      → (agent action : String) → Failure
      → HealingDecision
      → ℕ
      → Scene W
      → HealingOutcome × Scene W
  conclude context agent action failure decision attempts scene =
      let ending : HealingOutcome × Scene W = (
        failed_outcome failure decision none attempts,
        note "terminal" agent action failure.message scene,
      ) in
      elim decision [
        | retry plan ↦ ending
        | alternative fallback ↦ ending
        | terminal reason ↦ ending
        | human plan ↦ elim scene.store [
          | none ↦ ending
          | some store ↦
              let (id, token, world) = env.draw_uuids scene.world in
              let (escalated, after) =
                escalate env.hash id token (env.clock scene.world) plan.resume_ttl_ms
                  (case_input context agent action failure) store in
              (
                failed_outcome failure (human plan) (some escalated) attempts,
                record { world = world; store = some after },
              )
        ]
      ]

  -- The fallback, once.
  unfoldable pub try_alternative :
      HealingExecutionContext
      → (agent action : String) → Option (Fallback → Execution W)
      → Failure
      → HealingDecision
      → ℕ
      → Scene W
      → HealingOutcome × Scene W
  try_alternative context agent action execute_alternative failure decision attempts scene =
      let otherwise = conclude context agent action failure decision attempts scene in
      elim decision [
        | retry plan ↦ otherwise
        | human plan ↦ otherwise
        | terminal reason ↦ otherwise
        | alternative fallback ↦ elim execute_alternative [
          | none ↦ otherwise
          | some run ↦
              let noted =
                note "fallback" agent action (action <> " -> " <> fallback.action) scene in
              let (result, _, world) = run fallback noted.world in
              let next = record noted { world = world } in
              elim result [
                | ok event payload ↦ (
                  record {
                    result = ok event payload;
                    healed = true;
                    decision = alternative fallback;
                    escalated = none;
                    attempts = attempts + 1;
                  },
                  next,
                )
                | error event message ↦
                    conclude context fallback.agent fallback.action
                      (record { event = event; message = message })
                      (diagnose_healing env.test graph fallback.action message 0) (attempts + 1)
                      next
              ]
        ]
      ]

  unfoldable pub execute_with_semantic_healing :
      (agent action : String)
      → Execution W
      → Option (Fallback → Execution W)
      → HealingExecutionContext
      → Scene W
      → Option (HealingOutcome × Scene W)
  execute_with_semantic_healing agent action execute execute_alternative context scene =
      let noted = note "attempt" agent action "Initial Action execution." scene in
      let (result, _, world) = execute noted.world in
      let started = record noted { world = world } in
      elim result [
        | ok event payload ↦ some (
          record {
            result = ok event payload;
            healed = false;
            decision = terminal "No healing required.";
            escalated = none;
            attempts = 1;
          },
          started,
        )
        | error event message ↦
            elim (retry_loop agent action execute (suc (attempt_bound graph.nodes)) 1
              (diagnose_healing env.test graph action message 0)
              (record { event = event; message = message }) started) [
                | none ↦ none
                | some (healed_by success decision attempts after) ↦ some (
                  record {
                    result = success;
                    healed = true;
                    decision = decision;
                    escalated = none;
                    attempts = attempts;
                  },
                  after,
                )
                | some (gave_up failure decision attempts after) ↦ some (
                    try_alternative context agent action execute_alternative failure decision
                      attempts after)
              ]
      ]

-- The store and the world after an error that is thrown are beside it.
unfoldable pub resume_human_healing :
    {W : Type 0}
    → (case_id token : String) → (HealingCase Payload → Payload → W → ActionResult × W)
    → (human : Payload) → (now : ℕ) → HealingStore Payload
    → W
    → Attempt ActionResult × HealingStore Payload × W
resume_human_healing case_id token execute_original human_payload now store world =
    let (taken, after) = consume_resume case_id token now store in
    elim taken [
      | thrown message ↦ (thrown message, after, world)
      | returned value ↦
          let (result, next) = execute_original value human_payload world in
          (returned result, after, next)
    ]
