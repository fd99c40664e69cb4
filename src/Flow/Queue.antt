-- ===== src/Flow/Queue.antt =====
-- `runQueue` and `execute` of runtime/flow-runtime.ts. `none` stands for a healing that does not
-- return. The transitions that are left of the 64 count down, so the loop is recursion
-- on them.
use allas_code_blueprint.Prelude.{
  String, ◌<>◌, Bool, ◌&&◌, Option, none, some, List, [], ◌∷◌, ◌++◌, ℕ, zero, suc, ◌-◌, ◌==◌,
  if◌then◌else◌, select, exists, or_else, is_empty, ◌>>=◌,
}
use allas_code_blueprint.Prelude.Attempt.{Attempt, returned, thrown}
use allas_code_blueprint.Commerce.{Payload, ok, error}
use allas_code_blueprint.Runtime.Actors.{AgentRuntime, execute}
use allas_code_blueprint.Healing.Store.{HealingStore}
use allas_code_blueprint.Healing.Graph.{
  SemanticGraphEdge, SemanticGraph, Fallback, label, is_edge, owner_of,
}
use allas_code_blueprint.Healing.Diagnosis.{HealingDecision}
use allas_code_blueprint.Healing.Run.{
  Execution, HealingEnvironment, HealingExecutionContext, HealingOutcome,
  execute_with_semantic_healing,
}
use allas_code_blueprint.Flow.Contracts.{FlowContract, flow_contract, correlation_id}

-- The payload of an event of an error is its message.
pub data EventPayload : Type 0 where
  carried : Payload → EventPayload
  said : (message : String) → EventPayload

pub record RuntimeEvent : Type 0 where
  pub name : String
  pub payload : EventPayload
  pub at : ℕ

-- What a report carries: the terminal payload, a message of the runtime, or the message of a failed
-- action with the decision of its healing.
pub data Outcome : Type 0 where
  completed : Payload → Outcome
  stopped : (message : String) → Outcome
  failed : (message : String) → HealingDecision → Outcome

pub record ExecutionReport : Type 0 where
  pub intent : String
  pub last_event : Option String
  pub outcome : Outcome

pub record QueuedMessage : Type 0 where
  pub event : String
  pub payload : Payload

pub record FlowState (W : Type 0) : Type 0 where
  pub world : W
  pub healing_store : HealingStore Payload
  pub history : List RuntimeEvent

pub record FlowRuntime (W : Type 0) : Type 0 where
  pub healing : HealingEnvironment W
  pub agents : AgentRuntime W
  pub graph : SemanticGraph

-- How the loop over the dispatches of one event ends.
pub data DispatchEnd (W : Type 0) : Type 0 where
  aborted : ExecutionReport → FlowState W → DispatchEnd W
  queued : List QueuedMessage → FlowState W → DispatchEnd W

abbrev pub report : FlowContract → Option String → Outcome → ExecutionReport
report contract last outcome = record {
  intent = contract.intent;
  last_event = last;
  outcome = outcome;
}

abbrev pub listens : (agent_id event_id : String) → SemanticGraphEdge → Bool
listens agent_id event_id edge = is_edge "LISTENS" agent_id edge && (edge.target == event_id)

-- The end of `runQueue`; `terminal` is the payload of the last terminal event, if one was seen.
unfoldable pub finish_queue : FlowContract → Option String → Option Payload → ExecutionReport
finish_queue contract last none =
    report contract last (stopped ("Flow ended without terminal Event " <> contract.terminal_event))
finish_queue contract last (some payload) =
    report contract (some contract.terminal_event) (completed payload)

abbrev pub healing_context :
    (intent event : String) → Payload → (correlation : String) → HealingExecutionContext
healing_context intent event payload correlation = record {
  intent = some intent;
  original_event = some event;
  original_payload = payload;
  correlation_id = some correlation;
}

module _ {W : Type 0} (runtime : FlowRuntime W) where
  unfoldable pub emit : (name : String) → EventPayload → FlowState W → FlowState W
  emit name payload s = record s {
    history =
        s.history
        ++ (record { name = name; payload = payload; at = runtime.healing.clock s.world } ∷ []);
  }

  abbrev pub timed : (agent action : String) → Payload → Execution W
  timed agent action payload world =
      let (result, after) = execute runtime.agents agent action payload world in
      (result, runtime.healing.clock after - runtime.healing.clock world, after)

  abbrev pub timed_fallback : Payload → Fallback → Execution W
  timed_fallback payload f = timed f.agent f.action payload

  -- An action with its healing, in the state of the flow.
  unfoldable pub heal :
      (agent action : String)
      → Payload
      → HealingExecutionContext
      → FlowState W
      → Option (HealingOutcome × FlowState W)
  heal agent action payload context s =
      execute_with_semantic_healing runtime.healing runtime.graph agent action
        (timed agent action payload) (some (timed_fallback payload)) context
        (record { world = s.world; store = some s.healing_store })
      >>= λ (outcome, scene). some (
        outcome,
        record s { world = scene.world; healing_store = or_else scene.store s.healing_store },
      )

  -- After the healing of one dispatch: the abort, or the event that the action answered.
  unfoldable pub after_healing : FlowContract → HealingOutcome → FlowState W → DispatchEnd W
  unfolding emit
  after_healing contract outcome s = elim outcome.result [
    | error event message ↦
        aborted (report contract (some event) (failed message outcome.decision))
          (emit event (said message) s)
    | ok event payload ↦ queued (record { event = event; payload = payload } ∷ []) s
  ]

  -- `for (const dispatch of dispatches)`, with what is queued after it.
  unfoldable pub dispatch_all :
      FlowContract → QueuedMessage → List SemanticGraphEdge → FlowState W → Option (DispatchEnd W)
  dispatch_all contract message [] s = some (queued [] s)
  dispatch_all contract message (dispatch ∷ dispatches) s =
      let action = label dispatch.target in
      let event_id = "Event:" <> message.event in
      elim (owner_of runtime.graph dispatch.target) [
        | none ↦ some (
            aborted
              (report contract (some message.event)
                (stopped ("Action " <> action <> " has no owner")))
              s)
        | some owner ↦
            let skipped = dispatch_all contract message dispatches s in
            let healed =
              heal (label owner.target) action message.payload
                (healing_context contract.intent message.event message.payload
                  (correlation_id message.payload contract.intent action))
                s
              >>= λ (outcome, next). elim (after_healing contract outcome next) [
                | aborted r after ↦ some (aborted r after)
                | queued more after ↦ dispatch_all contract message dispatches after >>= λ rest.
                    some (elim rest [
                      | aborted r last ↦ aborted r last
                      | queued others last ↦ queued (more ++ others) last
                    ])
              ] in
            if exists (listens owner.target event_id) runtime.graph.edges then healed else skipped
      ]

  abbrev pub dispatches_of : String → List SemanticGraphEdge
  dispatches_of event = select (is_edge "DISPATCHES" ("Event:" <> event)) runtime.graph.edges

  -- The `while` loop; `left` are the transitions that are left.
  unfoldable pub run_queue :
      FlowContract
      → (left : ℕ) → List QueuedMessage
      → (last : Option String) → (terminal : Option Payload) → FlowState W
      → Option (ExecutionReport × FlowState W)
  run_queue contract zero [] last terminal s = some (finish_queue contract last terminal, s)
  run_queue contract zero (message ∷ queue) last terminal s = some (
    report contract last (stopped "Event choreography exceeded 64 transitions; possible cycle"),
    s,
  )
  run_queue contract (suc left) [] last terminal s = some (finish_queue contract last terminal, s)
  run_queue contract (suc left) (message ∷ queue) last terminal s =
      let emitted = emit message.event (carried message.payload) s in
      let seen = some message.event in
      let at_terminal = run_queue contract left queue seen (some message.payload) emitted in
      let dispatched =
        dispatch_all contract message (dispatches_of message.event) emitted >>= λ ended.
        elim ended [
          | aborted r after ↦ some (r, after)
          | queued more after ↦ run_queue contract left (queue ++ more) seen terminal after
        ] in
      if message.event == contract.terminal_event
      then at_terminal
      else if is_empty (dispatches_of message.event)
      then some (report contract seen (stopped ("No Agent listens to " <> message.event)), emitted)
      else dispatched

  unfoldable pub execute_flow :
      (flow_name : String)
      → Payload
      → FlowState W
      → Attempt (Option (ExecutionReport × FlowState W))
  execute_flow flow_name payload s = elim (flow_contract runtime.graph flow_name) [
    | thrown message ↦ thrown message
    | returned contract ↦ returned (
        run_queue contract 64 (record { event = contract.initial_event; payload = payload } ∷ [])
          none none s)
  ]
