-- ===== src/Flow/Returned.antt =====
-- What a resume answers.
use allas_code_blueprint.Prelude.{
  String, ◌≡◌, refl, sym, subst, Option, none, some, List, [], ◌∷◌, arith, inl, inr, Option-cases,
}
use allas_code_blueprint.Prelude.Attempt.{Attempt, returned, thrown, Attempt-cases}
use allas_code_blueprint.Commerce.{Payload}
use allas_code_blueprint.Healing.Store.{HealingCase, consume_resume}
use allas_code_blueprint.Healing.Run.{HealingOutcome}
use allas_code_blueprint.Healing.Run.Bounds.{ActionResult-cases}
use allas_code_blueprint.Flow.Contracts.{FlowContract, contract_for_intent, merge_human_payload}
use allas_code_blueprint.Flow.Queue.{ExecutionReport, QueuedMessage, FlowState, FlowRuntime}
use allas_code_blueprint.Flow.Resume.{resume_context, after_resume, resume_case, resume}
use allas_code_blueprint.Flow.Ended.{heal_returns}
use allas_code_blueprint.Flow.Terminal.{run_queue_ends}

-- The state that a call leaves: that of its report, or the one that a thrown error leaves.
abbrev pub Leaves :
    {W : Type 0}
    → Attempt (Option (ExecutionReport × FlowState W)) × FlowState W
    → FlowState W
    → Type 0
Leaves (thrown message, after) t = after ≡ t
Leaves (returned none, after) t = ⊥
Leaves (returned (some (r, f)), after) t = f ≡ t

module _ {W : Type 0} (runtime : FlowRuntime W) where
  -- The flow's state with the store that the resume of a case leaves.
  abbrev pub taken_from : (case_id token : String) → FlowState W → FlowState W
  taken_from case_id token s = record s {
    healing_store =
        (consume_resume case_id token (runtime.healing.clock s.world) s.healing_store).1;
  }

  pub resume-returned :
      (case_id token : String) (human : Payload) (taken : HealingCase Payload) (s : FlowState W)
      → (consume_resume case_id token (runtime.healing.clock s.world) s.healing_store).0
        ≡ returned taken
      → resume runtime case_id token human s
        ≡ (resume_case runtime taken human (taken_from case_id token s), taken_from case_id token s)
  unfolding resume
  resume-returned case_id token human taken s e = rw (e, resume) refl

  pub resume-thrown :
      (case_id token message : String) (human : Payload) (s : FlowState W)
      → (consume_resume case_id token (runtime.healing.clock s.world) s.healing_store).0
        ≡ thrown message
      → resume runtime case_id token human s ≡ (thrown message, taken_from case_id token s)
  unfolding resume
  resume-thrown case_id token message human s e = rw (e, resume) refl

  after_resume_returns :
      (contract : FlowContract) (taken : HealingCase Payload) (outcome : HealingOutcome)
      (s : FlowState W)
      → (x : ExecutionReport × FlowState W) × (after_resume runtime contract taken (outcome, s)
          ≡ some x)
  unfolding after_resume
  after_resume_returns contract taken outcome s =
      elim (Option-cases (after_resume runtime contract taken (outcome, s))) [
        | inr found ↦ found
        | inl out ↦ elim (ActionResult-cases outcome.result) [
          | inr (event, message, refused) ↦ absurd (ground arith)
          | inl (event, payload, done) ↦
              let queue : List QueuedMessage = record { event = event; payload = payload } ∷ [] in
              let (r, last, run, _) = run_queue_ends runtime contract 64 queue none none s in
              absurd (ground arith)
        ]
      ]

  resume_case_returns :
      (taken : HealingCase Payload) (human : Payload) (s : FlowState W)
      → (t : FlowState W) × Leaves (resume_case runtime taken human s, s) t
  unfolding resume_case
  resume_case_returns taken human s =
      elim (Attempt-cases (contract_for_intent runtime.graph taken.input.intent)) [
        | inr (message, e) ↦ (s, rw (e, Leaves) refl)
        | inl (contract, e) ↦
            let corrected = merge_human_payload taken.input.original_payload human in
            let context = resume_context runtime taken corrected in
            let (outcome, next, healed, _) =
              heal_returns runtime taken.input.agent taken.input.action corrected context s in
            let ((r, last), done) = after_resume_returns contract taken outcome next in
            (last, rw (e, healed, done, Leaves) refl)
      ]

  -- Every resume returns a report or throws.
  pub resume_returns :
      (case_id token : String) (human : Payload) (s : FlowState W)
      → (t : FlowState W) × Leaves (resume runtime case_id token human s) t
  resume_returns case_id token human s =
      let now = runtime.healing.clock s.world in
      let after = taken_from case_id token s in
      elim (Attempt-cases (consume_resume case_id token now s.healing_store).0) [
        | inr (message, e) ↦ (
          after,
          subst (λ c. Leaves c after) (sym (resume-thrown case_id token message human s e)) refl,
        )
        | inl (taken, e) ↦
            let (t, leaves) = resume_case_returns taken human after in
            (
              t,
              subst (λ c. Leaves c t) (sym (resume-returned case_id token human taken s e)) leaves,
            )
      ]
