-- ===== src/Flow/Completed.antt =====
-- A flow of one action.
use allas_code_blueprint.Prelude.{
  String, ◌<>◌, ◌≡◌, refl, ap, true, false, Option, none, some, [], ◌∷◌, ℕ, zero, suc, arith, ◌==◌,
  eq_refl, exists,
}
use allas_code_blueprint.Prelude.Attempt.{returned}
use allas_code_blueprint.Commerce.{Payload, ok}
use allas_code_blueprint.Runtime.Actors.{execute}
use allas_code_blueprint.Healing.Graph.{SemanticGraphEdge, label, owner_of}
use allas_code_blueprint.Healing.Run.{
  HealingExecutionContext, HealingOutcome, execute_with_semantic_healing,
}
use allas_code_blueprint.Flow.Contracts.{FlowContract, flow_contract, correlation_id}
use allas_code_blueprint.Flow.Ended.{heal_returns}
use allas_code_blueprint.Flow.Queue.{
  carried, completed, QueuedMessage, FlowState, FlowRuntime, queued, report, emit, healing_context,
  heal, listens, after_healing, dispatch_all, dispatches_of, finish_queue, run_queue, execute_flow,
}

module _ {W : Type 0} (runtime : FlowRuntime W) where
  heal_succeeds :
      (agent action event : String) (payload p : Payload) (context : HealingExecutionContext)
      (s : FlowState W) (w : W)
      → execute runtime.agents agent action payload s.world ≡ (ok event p, w)
      → (outcome : HealingOutcome) × (next : FlowState W) × (heal runtime agent action payload
            context s
          ≡ some (outcome, next))
        × (outcome.result ≡ ok event p)
        × (next.world ≡ w)
  unfolding heal execute_with_semantic_healing
  heal_succeeds agent action event payload p context s w done =
      let (outcome, next, e, same) = heal_returns runtime agent action payload context s in
      (outcome, next, e, ground arith, ground arith)

  -- One dispatch whose action succeeds.
  dispatch_succeeds :
      (contract : FlowContract) (message : QueuedMessage) (dispatch owner : SemanticGraphEdge)
      (event : String) (p : Payload) (s : FlowState W) (w : W)
      → owner_of runtime.graph dispatch.target ≡ some owner
      → exists (listens owner.target ("Event:" <> message.event)) runtime.graph.edges ≡ true
      → execute runtime.agents (label owner.target) (label dispatch.target) message.payload s.world
        ≡ (ok event p, w)
      → (next : FlowState W) × (dispatch_all runtime contract message (dispatch ∷ []) s
          ≡ some (queued (record { event = event; payload = p } ∷ []) next))
        × (next.world ≡ w)
  unfolding dispatch_all after_healing
  dispatch_succeeds contract message dispatch owner event p s w owned heard done =
      let action = label dispatch.target in
      let (outcome, next, healed, is_ok, moved) =
        heal_succeeds (label owner.target) action event message.payload p
          (healing_context contract.intent message.event message.payload
            (correlation_id message.payload contract.intent action))
          s w done in
      (next, ground arith, moved)

  at_end :
      (contract : FlowContract) (left : ℕ) (last : Option String) (p : Payload) (s : FlowState W)
      → run_queue runtime contract left [] last (some p) s
        ≡ some (report contract (some contract.terminal_event) (completed p), s)
  unfolding run_queue finish_queue
  at_end contract zero last p s = refl
  at_end contract (suc left) last p s = refl

  terminal_run :
      (contract : FlowContract) (left : ℕ) (last : Option String) (seen : Option Payload)
      (p : Payload) (s : FlowState W)
      → run_queue runtime contract
          (suc left)
          (record { event = contract.terminal_event; payload = p } ∷ [])
          last
          seen
          s
        ≡ some (
          report contract (some contract.terminal_event) (completed p),
          emit runtime contract.terminal_event (carried p) s,
        )
  unfolding run_queue
  terminal_run contract left last seen p s = rw (eq_refl contract.terminal_event) (
      at_end contract left (some contract.terminal_event) p
        (emit runtime contract.terminal_event (carried p) s))

  one_action_run :
      (contract : FlowContract) (left : ℕ) (message : QueuedMessage) (dispatch : SemanticGraphEdge)
      (p : Payload) (s next : FlowState W)
      → (message.event == contract.terminal_event) ≡ false
      → dispatches_of runtime message.event ≡ dispatch ∷ []
      → dispatch_all runtime contract message
          (dispatch ∷ [])
          (emit runtime message.event (carried message.payload) s)
        ≡ some (queued (record { event = contract.terminal_event; payload = p } ∷ []) next)
      → run_queue runtime contract (suc (suc left)) (message ∷ []) none none s
        ≡ some (
          report contract (some contract.terminal_event) (completed p),
          emit runtime contract.terminal_event (carried p) next,
        )
  unfolding run_queue
  one_action_run contract left message dispatch p s next differ one dispatched =
      rw (differ, one, dispatched) (terminal_run contract left (some message.event) none p next)

  -- A flow whose initial event is not its terminal one and dispatches one action, whose owner listens
  -- to the event and which answers with the terminal event, completes: execute reports success with the
  -- payload that the action answered, in the world that the action left.
  pub execute_flow-completes :
      (flow_name : String) (payload p : Payload) (contract : FlowContract)
      (dispatch owner : SemanticGraphEdge) (s : FlowState W) (w : W)
      → flow_contract runtime.graph flow_name ≡ returned contract
      → (contract.initial_event == contract.terminal_event) ≡ false
      → dispatches_of runtime contract.initial_event ≡ dispatch ∷ []
      → owner_of runtime.graph dispatch.target ≡ some owner
      → exists (listens owner.target ("Event:" <> contract.initial_event)) runtime.graph.edges
        ≡ true
      → execute runtime.agents (label owner.target) (label dispatch.target) payload s.world
        ≡ (ok contract.terminal_event p, w)
      → (f : FlowState W) × (execute_flow runtime flow_name payload s
          ≡ returned (some (report contract (some contract.terminal_event) (completed p), f)))
        × (f.world ≡ w)
  unfolding execute_flow emit
  execute_flow-completes flow_name payload p contract dispatch owner s w defined differ one owned
        heard done =
      let message : QueuedMessage = record { event = contract.initial_event; payload = payload } in
      let t = emit runtime message.event (carried payload) s in
      let (next, dispatched, moved) =
        dispatch_succeeds contract message dispatch owner contract.terminal_event p t w owned heard
          done in
      let f = emit runtime contract.terminal_event (carried p) next in
      let ran = one_action_run contract 62 message dispatch p s next differ one dispatched in
      (f, rw (defined, execute_flow) (ap returned ran), moved)
