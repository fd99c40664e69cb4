-- ===== src/Flow/Terminal.antt =====
-- How a run of a flow ends.
use mathlib.Core.List.{Memᴰ}
use mathlib.Core.List.Memᴰ
use mathlib.Core.List.{append_assoc, append-nil}
use allas_code_blueprint.Prelude.{
  String, ◌<>◌, ◌≡◌, ◌≢◌, refl, sym, subst, ap, ◌∙◌, Option, none, some, List, [], ◌∷◌, ◌++◌, ℕ,
  zero, suc, ◌+◌, ◌≤◌, arith, ◌==◌, eq_iff, length, is_empty, inl, inr, ◌⊎◌, Bool-cases,
}
use allas_code_blueprint.Prelude.Attempt.{returned, thrown, Attempt-cases}
use allas_code_blueprint.Commerce.{Payload}
use allas_code_blueprint.Flow.Contracts.{FlowContract, flow_contract}
use allas_code_blueprint.Flow.Queue.{
  carried, RuntimeEvent, completed, stopped, ExecutionReport, QueuedMessage, FlowState, FlowRuntime,
  DispatchEnd, aborted, report, emit, dispatches_of, finish_queue, run_queue, execute_flow,
}
use allas_code_blueprint.Flow.Ended.{
  Adds, Adds-none, EndsDispatch, DispatchEnd-cases, dispatch_ends,
}

-- The terminal event with this payload is among the events.
abbrev pub Announces : FlowContract → Payload → List RuntimeEvent → Type 0
Announces contract p events =
    (at : ℕ) × Memᴰ (record { name = contract.terminal_event; payload = carried p; at = at }) events

-- What a report says: it is a success only for the payload of a terminal event, one that was seen
-- before or is among the new events.
pub record EndsRun {W : Type 0} (n : ℕ) (contract : FlowContract) (seen : Option Payload)
    (s : FlowState W) (r : ExecutionReport) (f : FlowState W) : Type 0 where
  pub more : List RuntimeEvent
  pub history : f.history ≡ s.history ++ more
  pub few : length more ≤ n
  pub success :
      (p : Payload)
      → r.outcome ≡ completed p
      → (r.last_event ≡ some contract.terminal_event)
        × ((seen ≡ some p) ⊎ Announces contract p more)

-- An event of the terminal name announces the payload that it carries.
announced :
    (event : RuntimeEvent) (message : QueuedMessage) (contract : FlowContract) (p : Payload)
    → message.event ≡ contract.terminal_event
    → event ≡ record { name = message.event; payload = carried message.payload; at = event.at }
    → some message.payload ≡ some p
    → Announces contract p (event ∷ [])
announced event message contract p name is now = (event.at, Memᴰ.head (ground arith))

module _ {W : Type 0} (runtime : FlowRuntime W) (contract : FlowContract) where
  finish_ends :
      (n : ℕ) (last : Option String) (seen : Option Payload) (s : FlowState W)
      → EndsRun n contract seen s (finish_queue contract last seen) s
  unfolding finish_queue
  finish_ends n last none s = record {
    more = [];
    history = sym (append-nil s.history);
    few = omega arith;
    success = λ p e. absurd (ground arith);
  }
  finish_ends n last (some payload) s = record {
    more = [];
    history = sym (append-nil s.history);
    few = omega arith;
    success = λ p e. (refl, inl (ground arith));
  }

  -- A run that ends without a success.
  unsuccessful :
      (n : ℕ) (seen : Option Payload) (s : FlowState W) (r : ExecutionReport) (f : FlowState W)
      → ((p : Payload) → r.outcome ≢ completed p)
      → Adds n s f
      → EndsRun n contract seen s r f
  unsuccessful n seen s r f never (more, e, few) = record {
    more = more;
    history = e;
    few = few;
    success = λ p done. absurd (never p done);
  }

  -- One event in front of a run.
  after_event :
      (n m : ℕ) (event : RuntimeEvent) (seen before : Option Payload) (s t : FlowState W)
      (r : ExecutionReport) (f : FlowState W)
      → n + 1 ≤ m
      → t.history ≡ s.history ++ (event ∷ [])
      → ((p : Payload) → seen ≡ some p → (before ≡ some p) ⊎ Announces contract p (event ∷ []))
      → EndsRun n contract seen t r f
      → EndsRun m contract before s r f
  after_event n m event seen before s t r f small added new h = record {
    more = event ∷ h.more;
    history = h.history ∙ ap (λ l. l ++ h.more) added ∙ append_assoc s.history (event ∷ []) h.more;
    few = omega (arith, h.few);
    success = λ p done.
        let (last, where_from) = h.success p done in
        (
          last,
          elim where_from [
            | inr (at, later) ↦ inr (at, Memᴰ.tail later)
            | inl now ↦ elim (new p now) [
              | inl old ↦ inl old
              | inr (at, first) ↦ inr (at, Memᴰ.head (Memᴰ.eq_of_singleton first))
            ]
          ],
        );
  }

  after_aborted :
      (n : ℕ) (seen : Option Payload) (t : FlowState W) (d : DispatchEnd W) (r : ExecutionReport)
      (f : FlowState W)
      → d ≡ aborted r f
      → EndsDispatch t d
      → EndsRun (suc n) contract seen t r f
  after_aborted n seen t d r f is ends =
      let ((more, e, few), never) = subst (EndsDispatch t) is ends in
      unsuccessful (suc n) seen t r f never (more, e, omega arith)

  pub run_queue_ends :
      (left : ℕ) (queue : List QueuedMessage) (last : Option String) (seen : Option Payload)
      (s : FlowState W)
      → (r : ExecutionReport) × (f : FlowState W) × (run_queue runtime contract left queue last seen
            s
          ≡ some (r, f))
        × EndsRun (left + 1) contract seen s r f
  unfolding run_queue
  run_queue_ends zero [] last seen s =
      (finish_queue contract last seen, s, refl, finish_ends 1 last seen s)
  run_queue_ends zero (message ∷ queue) last seen s =
      let r =
        report contract last
          (stopped "Event choreography exceeded 64 transitions; possible cycle") in
      (r, s, refl, unsuccessful 1 seen s r s (λ p e. absurd (ground arith)) (Adds-none 1 s))
  run_queue_ends (suc left) [] last seen s =
      (finish_queue contract last seen, s, refl, finish_ends (suc left + 1) last seen s)
  run_queue_ends (suc left) (message ∷ queue) last seen s =
      let event : RuntimeEvent = record {
        name = message.event;
        payload = carried message.payload;
        at = runtime.healing.clock s.world;
      } in
      let t = emit runtime message.event (carried message.payload) s in
      let added : t.history ≡ s.history ++ (event ∷ []) = unfold emit in refl in
      let ds = dispatches_of runtime message.event in
      elim (Bool-cases (message.event == contract.terminal_event)) [
        | inl is_terminal ↦
            let (r, f, e, ends) =
              run_queue_ends left queue (some message.event) (some message.payload) t in
            let name = (eq_iff message.event contract.terminal_event).0 is_terminal in
            (
              r,
              f,
              ground arith,
              after_event (left + 1) (suc left + 1) event (some message.payload) seen s t r f
                  (omega arith) added
                  (λ p now. inr (announced event message contract p name refl now)) ends,
            )
        | inr other ↦ elim (Bool-cases (is_empty ds)) [
          | inl unheard ↦
              let r =
                report contract (some message.event)
                  (stopped ("No Agent listens to " <> message.event)) in
              (
                r,
                t,
                ground arith,
                unsuccessful (suc left + 1) seen s r t (λ p e. absurd (ground arith))
                    (event ∷ [], added, omega arith),
              )
          | inr heard ↦
              let (d, e, dispatched) = dispatch_ends runtime contract message ds t in
              elim (DispatchEnd-cases d) [
                | inl (r, f, is) ↦ (
                  r,
                  f,
                  ground arith,
                  after_event (suc left) (suc left + 1) event seen seen s t r f (omega arith) added
                      (λ p now. inl now) (after_aborted left seen t d r f is dispatched),
                )
                | inr (more, after, is) ↦
                    let kept : after.history ≡ s.history ++ (event ∷ []) =
                      subst (EndsDispatch t) is dispatched ∙ added in
                    let (r, f, run, ends) =
                      run_queue_ends left (queue ++ more) (some message.event) seen after in
                    (
                      r,
                      f,
                      ground arith,
                      after_event (left + 1) (suc left + 1) event seen seen s after r f
                          (omega arith) kept (λ p now. inl now) ends,
                    )
              ]
        ]
      ]

-- Every run of a flow ends: execute throws because the graph does not define the flow, or it returns a
-- report, after at most 65 events; a report of success names the terminal event of the flow as the
-- last one, and this event was emitted with the payload of the report.
pub execute_flow-Ends :
    {W : Type 0} (runtime : FlowRuntime W) (flow_name : String) (payload : Payload)
    (s : FlowState W)
    → ((message : String) × (flow_contract runtime.graph flow_name ≡ thrown message)
        × (execute_flow runtime flow_name payload s ≡ thrown message))
      ⊎ ((contract : FlowContract) × (r : ExecutionReport) × (f : FlowState W) × (flow_contract
              runtime.graph flow_name
            ≡ returned contract)
          × (execute_flow runtime flow_name payload s ≡ returned (some (r, f)))
          × EndsRun 65 contract none s r f)
unfolding execute_flow
execute_flow-Ends runtime flow_name payload s =
    elim (Attempt-cases (flow_contract runtime.graph flow_name)) [
      | inr (message, e) ↦ inl (message, e, ground arith)
      | inl (contract, e) ↦
          let queue : List QueuedMessage =
            record { event = contract.initial_event; payload = payload } ∷ [] in
          let (r, f, run, ends) = run_queue_ends runtime contract 64 queue none none s in
          inr (contract, r, f, e, rw (e, execute_flow) (ap returned run), ends)
    ]
