-- ===== src/Flow/Ended.antt =====
-- What the dispatches of one event add to the history.

use mathlib.Core.List.{append-nil}
use allas_code_blueprint.Prelude.{
  String, ◌<>◌, ◌≡◌, ◌≢◌, refl, sym, subst, ap, ◌∙◌, Option, none, some, List, [], ◌∷◌, ◌++◌, ℕ,
  ◌+◌, ◌≤◌, arith, length, exists, inl, inr, ◌⊎◌, Bool-cases, Option-cases, or_else,
}
use allas_code_blueprint.Commerce.{Payload, ok, error}
use allas_code_blueprint.Healing.Graph.{SemanticGraphEdge, label, owner_of}
use allas_code_blueprint.Healing.Run.{
  HealingExecutionContext, Scene, HealingOutcome, attempt_bound, execute_with_semantic_healing,
}
use allas_code_blueprint.Healing.Run.Bounds.{Returns, execute_with_semantic_healing-Returns}
use allas_code_blueprint.Flow.Contracts.{FlowContract, correlation_id}
use allas_code_blueprint.Flow.Queue.{
  said, RuntimeEvent, completed, stopped, failed, ExecutionReport, QueuedMessage, FlowState,
  FlowRuntime, DispatchEnd, aborted, queued, report, emit, timed, timed_fallback, healing_context,
  heal, listens, after_healing, dispatch_all,
}

Returns-some :
    {W : Type 0} (n : ℕ) (o : Option (HealingOutcome × Scene W))
    → Returns n o
    → (x : HealingOutcome × Scene W) × (o ≡ some x)
Returns-some n none h = absurd (omega arith)
Returns-some n (some x) h = (x, refl)

pub DispatchEnd-cases :
    {W : Type 0} (d : DispatchEnd W)
    → ((r : ExecutionReport) × (after : FlowState W) × (d ≡ aborted r after))
      ⊎ ((more : List QueuedMessage) × (after : FlowState W) × (d ≡ queued more after))
DispatchEnd-cases (aborted r after) = inl (r, after, refl)
DispatchEnd-cases (queued more after) = inr (more, after, refl)

module _ {W : Type 0} where
  -- The events that a part of a run adds to the history: at most `n`.
  abbrev pub Adds : ℕ → FlowState W → FlowState W → Type 0
  Adds n s t = (more : List RuntimeEvent) × (t.history ≡ s.history ++ more) × (length more ≤ n)

  abbrev pub EndsDispatch : FlowState W → DispatchEnd W → Type 0
  EndsDispatch s (aborted r after) = Adds 1 s after × ((p : Payload) → r.outcome ≢ completed p)
  EndsDispatch s (queued more after) = after.history ≡ s.history

  -- Where two states have one history, what one adds the other adds.
  moved :
      (s t : FlowState W)
      → t.history ≡ s.history
      → (d : DispatchEnd W) → EndsDispatch t d
      → EndsDispatch s d
  moved s t same (aborted r after) ((more, e, few), failed_too) =
      ((more, e ∙ ap (λ h. h ++ more) same, few), failed_too)
  moved s t same (queued more after) e = e ∙ same

  pub Adds-none : (n : ℕ) (s : FlowState W) → Adds n s s
  Adds-none n s = ([], sym (append-nil s.history), omega arith)

module _ {W : Type 0} (runtime : FlowRuntime W) where
  pub heal_returns :
      (agent action : String) (payload : Payload) (context : HealingExecutionContext)
      (s : FlowState W)
      → (outcome : HealingOutcome) × (next : FlowState W) × (heal runtime agent action payload
            context s
          ≡ some (outcome, next))
        × (next.history ≡ s.history)
  unfolding heal
  heal_returns agent action payload context s =
      let scene : Scene W = record { world = s.world; store = some s.healing_store } in
      let run =
        execute_with_semantic_healing runtime.healing runtime.graph agent action
          (timed runtime agent action payload) (some (timed_fallback runtime payload)) context
          scene in
      let ((outcome, after), e) = Returns-some (attempt_bound runtime.graph.nodes + 1) run (
        execute_with_semantic_healing-Returns runtime.healing runtime.graph agent action
          (timed runtime agent action payload) (some (timed_fallback runtime payload)) context
          scene) in
      let next : FlowState W = record s {
        world = after.world;
        healing_store = or_else after.store s.healing_store;
      } in
      (outcome, next, rw e refl, refl)

  after_healing_ends :
      (contract : FlowContract) (outcome : HealingOutcome) (s : FlowState W)
      → EndsDispatch s (after_healing runtime contract outcome s)
  unfolding after_healing
  after_healing_ends contract outcome s =
      elim outcome.result
        as (λ r. EndsDispatch s (elim r as (λ x. DispatchEnd W) [
          | error event message ↦
              aborted (report contract (some event) (failed message outcome.decision))
                (emit runtime event (said message) s)
          | ok event payload ↦ queued (record { event = event; payload = payload } ∷ []) s
        ])) [
          | ok event payload ↦ refl
          | error event message ↦ ((_, refl, omega arith), λ p e. absurd (ground arith))
        ]

  pub dispatch_ends :
      (contract : FlowContract) (message : QueuedMessage) (ds : List SemanticGraphEdge)
      (s : FlowState W)
      → (d : DispatchEnd W) × (dispatch_all runtime contract message ds s ≡ some d)
        × EndsDispatch s d
  unfolding dispatch_all
  dispatch_ends contract message [] s = (queued [] s, refl, refl)
  dispatch_ends contract message (dispatch ∷ ds) s =
      let action = label dispatch.target in
      elim (Option-cases (owner_of runtime.graph dispatch.target)) [
        | inl unowned ↦ (
          aborted
              (report contract (some message.event)
                (stopped ("Action " <> action <> " has no owner")))
              s,
          ground arith,
          (Adds-none 1 s, λ p e. absurd (ground arith)),
        )
        | inr (owner, owned) ↦
            elim (Bool-cases
              (exists (listens owner.target ("Event:" <> message.event)) runtime.graph.edges)) [
                | inr deaf ↦
                    let (d, e, ends) = dispatch_ends contract message ds s in
                    (d, ground arith, ends)
                | inl heard ↦
                    let (outcome, next, healed, same) =
                      heal_returns (label owner.target) action message.payload
                        (healing_context contract.intent message.event message.payload
                          (correlation_id message.payload contract.intent action))
                        s in
                    let first = after_healing_ends contract outcome next in
                    elim (DispatchEnd-cases (after_healing runtime contract outcome next)) [
                      | inl (r, after, is) ↦ (
                        aborted r after,
                        ground arith,
                        moved s next same (aborted r after) (subst (EndsDispatch next) is first),
                      )
                      | inr (more, after, is) ↦
                          let (d, e, ends) = dispatch_ends contract message ds after in
                          let kept : after.history ≡ s.history =
                            subst (EndsDispatch next) is first ∙ same in
                          elim (DispatchEnd-cases d) [
                            | inl (r, last, end_is) ↦ (
                              aborted r last,
                              ground arith,
                              moved s after kept (aborted r last)
                                  (subst (EndsDispatch after) end_is ends),
                            )
                            | inr (others, last, end_is) ↦ (
                              queued (more ++ others) last,
                              ground arith,
                              subst (EndsDispatch after) end_is ends ∙ kept,
                            )
                          ]
                    ]
              ]
      ]
