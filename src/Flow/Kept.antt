-- ===== src/Flow/Kept.antt =====
-- A healing case during the runs of flows.
use allas_code_blueprint.Prelude.{
  String, ◌<>◌, ◌≢◌, subst, Option, none, some, List, [], ◌∷◌, ◌++◌, ℕ, zero, suc, arith, ◌==◌,
  exists, is_empty, inl, inr, Bool-cases, Option-cases, or_else,
}
use allas_code_blueprint.Commerce.{Payload}
use allas_code_blueprint.Healing.Store.{HealingStore, HealingCase}
use allas_code_blueprint.Healing.Cases.{Closed}
use allas_code_blueprint.Healing.Graph.{SemanticGraphEdge, label, owner_of}
use allas_code_blueprint.Healing.Run.{
  HealingExecutionContext, HealingOutcome, Scene, execute_with_semantic_healing,
}
use allas_code_blueprint.Healing.Run.Bounds.{ActionResult-cases}
use allas_code_blueprint.Healing.Run.Kept.{Keeps, KeepsAfter, execute_with_semantic_healing-Keeps}
use allas_code_blueprint.Flow.Contracts.{FlowContract, correlation_id}
use allas_code_blueprint.Flow.Ended.{DispatchEnd-cases}
use allas_code_blueprint.Flow.Queue.{
  carried, QueuedMessage, FlowState, FlowRuntime, DispatchEnd, aborted, queued, emit, timed,
  timed_fallback, healing_context, heal, listens, after_healing, dispatch_all, dispatches_of,
  run_queue,
}

module _ {W : Type 0} (runtime : FlowRuntime W) (id : String) (value : HealingCase Payload) where
  abbrev pub IsShut : FlowState W → Type 0
  IsShut s = Closed runtime.healing.hash id value s.healing_store

  -- The state that a part of a run leaves.
  abbrev pub Shuts : {A : Type 0} → Option (A × FlowState W) → Type 0
  Shuts none = Unit
  Shuts (some (a, s)) = IsShut s

  abbrev ShutsEnd : Option (DispatchEnd W) → Type 0
  ShutsEnd none = Unit
  ShutsEnd (some (aborted r after)) = IsShut after
  ShutsEnd (some (queued more after)) = IsShut after

  or_else-Keeps :
      (o : Option (HealingStore Payload)) (store : HealingStore Payload)
      → Keeps runtime.healing runtime.graph id value o
      → Closed runtime.healing.hash id value store
      → Closed runtime.healing.hash id value (or_else o store)
  or_else-Keeps none store kept h = h
  or_else-Keeps (some after) store kept h = kept

  after_healing-ShutsEnd :
      (contract : FlowContract) (outcome : HealingOutcome) (s : FlowState W)
      → IsShut s
      → ShutsEnd (some (after_healing runtime contract outcome s))
  unfolding after_healing emit
  after_healing-ShutsEnd contract outcome s h = elim (ActionResult-cases outcome.result) [
    | inl (event, payload, done) ↦ ground arith
    | inr (event, message, refused) ↦ ground arith
  ]

  module _ (fresh : (w : W) → (runtime.healing.draw_uuids w).0 ≢ id) where
    pub heal-Shuts :
        (agent action : String) (payload : Payload) (context : HealingExecutionContext)
        (s : FlowState W)
        → IsShut s
        → Shuts (heal runtime agent action payload context s)
    unfolding heal
    heal-Shuts agent action payload context s h =
        let scene : Scene W = record { world = s.world; store = some s.healing_store } in
        let run =
          execute_with_semantic_healing runtime.healing runtime.graph agent action
            (timed runtime agent action payload) (some (timed_fallback runtime payload)) context
            scene in
        let kept =
          execute_with_semantic_healing-Keeps runtime.healing runtime.graph id value fresh agent
            action (timed runtime agent action payload) (some (timed_fallback runtime payload))
            context scene h in
        elim (Option-cases run) [
          | inl out ↦ rw out tt
          | inr ((outcome, after), e) ↦
              let store : Keeps runtime.healing runtime.graph id value after.store =
                subst (KeepsAfter runtime.healing runtime.graph id value) e kept in
              rw e (or_else-Keeps after.store s.healing_store store h)
        ]

    dispatch_all-ShutsEnd :
        (contract : FlowContract) (message : QueuedMessage) (ds : List SemanticGraphEdge)
        (s : FlowState W)
        → IsShut s
        → ShutsEnd (dispatch_all runtime contract message ds s)
    unfolding dispatch_all
    dispatch_all-ShutsEnd contract message [] s h = h
    dispatch_all-ShutsEnd contract message (dispatch ∷ ds) s h =
        let action = label dispatch.target in
        elim (Option-cases (owner_of runtime.graph dispatch.target)) [
          | inl unowned ↦ ground arith
          | inr (owner, owned) ↦
              let context =
                healing_context contract.intent message.event message.payload
                  (correlation_id message.payload contract.intent action) in
              let run = heal runtime (label owner.target) action message.payload context s in
              let healed = heal-Shuts (label owner.target) action message.payload context s h in
              elim (Bool-cases
                (exists (listens owner.target ("Event:" <> message.event)) runtime.graph.edges)) [
                  | inr deaf ↦
                      let rest = dispatch_all-ShutsEnd contract message ds s h in ground arith
                  | inl heard ↦ elim (Option-cases run) [
                    | inl out ↦ ground arith
                    | inr ((outcome, next), e) ↦
                        let still : IsShut next = subst Shuts e healed in
                        let first = after_healing-ShutsEnd contract outcome next still in
                        elim (DispatchEnd-cases (after_healing runtime contract outcome next)) [
                          | inl (r, after, is) ↦
                              let shut : IsShut after = subst (λ d. ShutsEnd (some d)) is first in
                              ground arith
                          | inr (more, after, is) ↦
                              let shut : IsShut after = subst (λ d. ShutsEnd (some d)) is first in
                              let rest = dispatch_all-ShutsEnd contract message ds after shut in
                              elim (Option-cases (dispatch_all runtime contract message ds after)) [
                                | inl none_left ↦ ground arith
                                | inr (d, is_rest) ↦ elim (DispatchEnd-cases d) [
                                  | inl (r, last, end_is) ↦ ground arith
                                  | inr (others, last, end_is) ↦ ground arith
                                ]
                              ]
                        ]
                  ]
                ]
        ]

    pub run_queue-Shuts :
        (contract : FlowContract) (left : ℕ) (queue : List QueuedMessage) (last : Option String)
        (seen : Option Payload) (s : FlowState W)
        → IsShut s
        → Shuts (run_queue runtime contract left queue last seen s)
    unfolding run_queue emit
    run_queue-Shuts contract zero [] last seen s h = h
    run_queue-Shuts contract zero (message ∷ queue) last seen s h = h
    run_queue-Shuts contract (suc left) [] last seen s h = h
    run_queue-Shuts contract (suc left) (message ∷ queue) last seen s h =
        let emitted = emit runtime message.event (carried message.payload) s in
        let ds = dispatches_of runtime message.event in
        elim (Bool-cases (message.event == contract.terminal_event)) [
          | inl is_terminal ↦
              let rest =
                run_queue-Shuts contract left queue (some message.event) (some message.payload)
                  emitted h in
              ground arith
          | inr goes_on ↦ elim (Bool-cases (is_empty ds)) [
            | inl deaf ↦ ground arith
            | inr heard ↦
                let dispatched = dispatch_all-ShutsEnd contract message ds emitted h in
                elim (Option-cases (dispatch_all runtime contract message ds emitted)) [
                  | inl out ↦ ground arith
                  | inr (d, e) ↦ elim (DispatchEnd-cases d) [
                    | inl (r, after, is) ↦ ground arith
                    | inr (more, after, is) ↦
                        let shut : IsShut after =
                          subst (λ d. ShutsEnd (some d)) is (subst ShutsEnd e dispatched) in
                        let rest =
                          run_queue-Shuts contract left (queue ++ more) (some message.event) seen
                            after shut in
                        ground arith
                  ]
                ]
          ]
        ]
