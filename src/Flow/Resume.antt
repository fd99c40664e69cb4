-- ===== src/Flow/Resume.antt =====
-- `resume` of runtime/flow-runtime.ts: the single resume of a case by a human, and the rest of its flow.
use allas_code_blueprint.Prelude.{String, ◌<>◌, Option, none, some, [], ◌∷◌, or_else, ◌>>=◌}
use allas_code_blueprint.Prelude.Attempt.{Attempt, returned, thrown}
use allas_code_blueprint.Commerce.{Payload, ok, error}
use allas_code_blueprint.Healing.Store.{HealingCase, audit, consume_resume}
use allas_code_blueprint.Healing.Run.{HealingExecutionContext, HealingOutcome}
use allas_code_blueprint.Flow.Contracts.{FlowContract, contract_for_intent, merge_human_payload}
use allas_code_blueprint.Flow.Queue.{
  said, Outcome, completed, stopped, failed, ExecutionReport, FlowState, FlowRuntime, emit, heal,
  run_queue,
}

abbrev pub status_of : Outcome → String
status_of (completed payload) = "Ok"
status_of (stopped message) = "Error"
status_of (failed message decision) = "Error"

module _ {W : Type 0} (runtime : FlowRuntime W) where
  abbrev pub resolution : HealingCase Payload → (detail : String) → FlowState W → FlowState W
  resolution value detail s = record s {
    healing_store =
        audit (runtime.healing.clock s.world) (some value.id) "resolution" value.input.agent
          value.input.action detail s.healing_store;
  }

  abbrev pub resume_context : HealingCase Payload → Payload → HealingExecutionContext
  resume_context value corrected = record {
    intent = some value.input.intent;
    original_event = some value.input.original_event;
    original_payload = corrected;
    correlation_id = some value.input.correlation_id;
  }

  -- After the healing of the corrected action.
  unfoldable pub after_resume :
      FlowContract
      → HealingCase Payload
      → HealingOutcome × FlowState W
      → Option (ExecutionReport × FlowState W)
  unfolding emit
  after_resume contract value (outcome, s) = elim outcome.result [
    | error event message ↦ some (
      record {
        intent = value.input.intent;
        last_event = some event;
        outcome = failed message outcome.decision;
      },
      resolution value ("Human resume ended with Error:" <> event)
          (emit runtime event (said message) s),
    )
    | ok event payload ↦
        run_queue runtime contract 64 (record { event = event; payload = payload } ∷ []) none none s
        >>= λ (r, last). some (
          r,
          resolution value
              ("Human resume completed with "
                <> status_of r.outcome
                <> ":"
                <> or_else r.last_event "unknown")
              last,
        )
  ]

  -- With a case that was taken from the store.
  unfoldable pub resume_case :
      HealingCase Payload → Payload → FlowState W → Attempt (Option (ExecutionReport × FlowState W))
  resume_case value human s = elim (contract_for_intent runtime.graph value.input.intent) [
    | thrown message ↦ thrown message
    | returned contract ↦
        let corrected = merge_human_payload value.input.original_payload human in
        returned (
          heal runtime value.input.agent value.input.action corrected
            (resume_context value corrected) s
          >>= after_resume contract value)
  ]

  -- The state beside the answer is the one that a thrown error leaves.
  unfoldable pub resume :
      (case_id token : String)
      → Payload
      → FlowState W
      → Attempt (Option (ExecutionReport × FlowState W)) × FlowState W
  resume case_id token human s =
      let (taken, store) =
        consume_resume case_id token (runtime.healing.clock s.world) s.healing_store in
      let after = record s { healing_store = store } in
      elim taken [
        | thrown message ↦ (thrown message, after)
        | returned value ↦ (resume_case value human after, after)
      ]
