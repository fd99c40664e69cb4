-- ===== src/Flow/Resumed.antt =====
-- A healing case and the runs after its resume.
use allas_code_blueprint.Prelude.{
  String, ◌≡◌, ◌≢◌, ap, ◌∙◌, subst, Option, none, some, List, [], ◌∷◌, arith, inl, inr,
  Option-cases, ◌>>=◌,
}
use allas_code_blueprint.Prelude.Attempt.{Attempt, returned, thrown, Attempt-cases}
use allas_code_blueprint.Prelude.Dict.{get}
use allas_code_blueprint.Commerce.{Payload}
use allas_code_blueprint.Healing.Store.{HealingCase, consume_resume}
use allas_code_blueprint.Healing.Cases.{
  consume_resume-Closed, consume_resume-Returned, consume_resume-refuses,
}
use allas_code_blueprint.Healing.Run.{HealingOutcome}
use allas_code_blueprint.Healing.Run.Bounds.{ActionResult-cases}
use allas_code_blueprint.Flow.Contracts.{
  FlowContract, flow_contract, contract_for_intent, merge_human_payload,
}
use allas_code_blueprint.Flow.Queue.{
  ExecutionReport, QueuedMessage, FlowState, FlowRuntime, emit, heal, run_queue, execute_flow,
}
use allas_code_blueprint.Flow.Resume.{resume_context, after_resume, resume_case, resume}
use allas_code_blueprint.Flow.Returned.{Leaves, taken_from, resume-returned, resume-thrown}
use allas_code_blueprint.Flow.Kept.{IsShut, Shuts, heal-Shuts, run_queue-Shuts}

module _ {W : Type 0} (runtime : FlowRuntime W) where
  -- One call of the runtime; an execute that throws changes nothing.
  pub data Step (s : FlowState W) : FlowState W → Type 0 where
    by_execute :
        {t : FlowState W} (flow_name : String) (payload : Payload)
        → Leaves (execute_flow runtime flow_name payload s, s) t
        → Step s t
    by_resume :
        {t : FlowState W} (case_id token : String) (human : Payload)
        → Leaves (resume runtime case_id token human s) t
        → Step s t

  pub data Steps (s : FlowState W) : FlowState W → Type 0 where
    stop : Steps s s
    step : {t u : FlowState W} → Steps s t → Step t u → Steps s u

  module _ (id : String) (value : HealingCase Payload)
      (fresh : (w : W) → (runtime.healing.draw_uuids w).0 ≢ id) where
    after_resume-Shuts :
        (contract : FlowContract) (taken : HealingCase Payload) (outcome : HealingOutcome)
        (s : FlowState W)
        → IsShut runtime id value s
        → Shuts runtime id value (after_resume runtime contract taken (outcome, s))
    unfolding after_resume emit
    after_resume-Shuts contract taken outcome s h = elim (ActionResult-cases outcome.result) [
      | inr (event, message, refused) ↦ ground arith
      | inl (event, payload, done) ↦
          let queue : List QueuedMessage = record { event = event; payload = payload } ∷ [] in
          let kept = run_queue-Shuts runtime id value fresh contract 64 queue none none s h in
          elim (Option-cases (run_queue runtime contract 64 queue none none s)) [
            | inl out ↦ ground arith
            | inr ((r, last), e) ↦
                let shut : IsShut runtime id value last = subst (Shuts runtime id value) e kept in
                ground arith
          ]
    ]

    healed-Shuts :
        (contract : FlowContract) (taken : HealingCase Payload)
        (healed : Option (HealingOutcome × FlowState W))
        → Shuts runtime id value healed
        → Shuts runtime id value (healed >>= after_resume runtime contract taken)
    healed-Shuts contract taken none h = tt
    healed-Shuts contract taken (some (outcome, s)) h =
        after_resume-Shuts contract taken outcome s h

    abbrev ShutsCall : Attempt (Option (ExecutionReport × FlowState W)) → Type 0
    ShutsCall (thrown message) = Unit
    ShutsCall (returned o) = Shuts runtime id value o

    Leaves-IsShut :
        (call : Attempt (Option (ExecutionReport × FlowState W))) (s t : FlowState W)
        → ShutsCall call
        → IsShut runtime id value s
        → Leaves (call, s) t
        → IsShut runtime id value t
    Leaves-IsShut (thrown message) s t call h e = subst (IsShut runtime id value) e h
    Leaves-IsShut (returned none) s t call h e = absurd e
    Leaves-IsShut (returned (some (r, f))) s t call h e = subst (IsShut runtime id value) e call

    resume_case-ShutsCall :
        (taken : HealingCase Payload) (human : Payload) (s : FlowState W)
        → IsShut runtime id value s
        → ShutsCall (resume_case runtime taken human s)
    unfolding resume_case
    resume_case-ShutsCall taken human s h =
        elim (Attempt-cases (contract_for_intent runtime.graph taken.input.intent)) [
          | inr (message, e) ↦ rw (e, ShutsCall) tt
          | inl (contract, e) ↦
              let corrected = merge_human_payload taken.input.original_payload human in
              let context = resume_context runtime taken corrected in
              rw (e, ShutsCall)
                (healed-Shuts contract taken
                  (heal runtime taken.input.agent taken.input.action corrected context s)
                  (heal-Shuts runtime id value fresh taken.input.agent taken.input.action corrected
                    context s h))
        ]

    execute_flow-ShutsCall :
        (flow_name : String) (payload : Payload) (s : FlowState W)
        → IsShut runtime id value s
        → ShutsCall (execute_flow runtime flow_name payload s)
    unfolding execute_flow
    execute_flow-ShutsCall flow_name payload s h =
        elim (Attempt-cases (flow_contract runtime.graph flow_name)) [
          | inr (message, e) ↦ rw (e, ShutsCall) tt
          | inl (contract, e) ↦
              let queue : List QueuedMessage =
                record { event = contract.initial_event; payload = payload } ∷ [] in
              rw (e, ShutsCall)
                (run_queue-Shuts runtime id value fresh contract 64 queue none none s h)
        ]

    resume-IsShut :
        (case_id token : String) (human : Payload) (s t : FlowState W)
        → IsShut runtime id value s
        → Leaves (resume runtime case_id token human s) t
        → IsShut runtime id value t
    resume-IsShut case_id token human s t h leaves =
        let now = runtime.healing.clock s.world in
        let after = taken_from runtime case_id token s in
        let kept : IsShut runtime id value after =
          consume_resume-Closed runtime.healing.hash id case_id token now value s.healing_store h in
        elim (Attempt-cases (consume_resume case_id token now s.healing_store).0) [
          | inr (message, e) ↦ Leaves-IsShut (thrown message) after t tt kept (
              subst (λ c. Leaves c t) (resume-thrown runtime case_id token message human s e)
                leaves)
          | inl (taken, e) ↦
              Leaves-IsShut (resume_case runtime taken human after) after t
                (resume_case-ShutsCall taken human after kept) kept
                (subst (λ c. Leaves c t) (resume-returned runtime case_id token human taken s e)
                  leaves)
        ]

    Steps-IsShut :
        {s t : FlowState W} → Steps s t → IsShut runtime id value s → IsShut runtime id value t
    Steps-IsShut stop h = h
    Steps-IsShut (step {t} {u} steps (by_execute flow_name payload leaves)) h =
        let before = Steps-IsShut steps h in
        Leaves-IsShut (execute_flow runtime flow_name payload t) t u
          (execute_flow-ShutsCall flow_name payload t before) before leaves
    Steps-IsShut (step {t} {u} steps (by_resume case_id token human leaves)) h =
        resume-IsShut case_id token human t u (Steps-IsShut steps h) leaves

  -- Where the random identifiers of new cases are not the case's own: after a resume whose token the
  -- store accepts, whatever its healing and its flow then do, no sequence of runs and resumes makes the
  -- case resumable again; a further resume throws and changes nothing, and the case is stored as resumed.
  pub resume-once :
      (id token later_token : String) (human later_human : Payload) (value : HealingCase Payload)
      (s t u : FlowState W)
      → ((w : W) → (runtime.healing.draw_uuids w).0 ≢ id)
      → (consume_resume id token (runtime.healing.clock s.world) s.healing_store).0 ≡ returned value
      → Leaves (resume runtime id token human s) t
      → Steps t u
      → (resume runtime id later_token later_human u ≡ (thrown "Healing case already consumed", u))
        × (get id u.healing_store.cases ≡ some value)
  resume-once id token later_token human later_human value s t u fresh taken leaves steps =
      let now = runtime.healing.clock s.world in
      let after = taken_from runtime id token s in
      let kept : IsShut runtime id value after =
        consume_resume-Returned runtime.healing.hash id token now value s.healing_store taken in
      let shut : IsShut runtime id value t =
        Leaves-IsShut id value fresh (resume_case runtime value human after) after t
          (resume_case-ShutsCall id value fresh value human after kept) kept
          (subst (λ c. Leaves c t) (resume-returned runtime id token human value s taken) leaves) in
      let closed = Steps-IsShut id value fresh steps shut in
      let refused =
        consume_resume-refuses runtime.healing.hash id later_token (runtime.healing.clock u.world)
          value u.healing_store closed in
      let message : String = "Healing case already consumed" in
      (
        resume-thrown runtime id later_token message later_human u (ap (λ c. c.0) refused)
            ∙ ap (λ c. (thrown message, record u { healing_store = c.1 })) refused,
        closed.0,
      )
