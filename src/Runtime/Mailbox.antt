-- ===== src/Runtime/Mailbox.antt =====
-- The mailboxes while messages enter and leave in any order of calls.
use allas_code_blueprint.Prelude.{
  String, ◌≡◌, refl, sym, ap, subst, ◌⊎◌, inl, inr, Bool-cases, Option-cases, Option, none, some,
  List, [], ◌∷◌, ◌++◌, ◌+◌, ◌-◌, ◌≤◌, leb, arith, length, length-append, includes,
}
use allas_code_blueprint.Prelude.Dict.{get, put, get-put, get-put_self}
use allas_code_blueprint.Runtime.Registry.{ActionRegistry}
use allas_code_blueprint.Runtime.Actors.{
  ActorDefinition, Message, ActorState, Actors, register_actor, admit, enter, run_message, leave,
}

-- The counter of a mailbox is the number of messages in it, and no more than its capacity.
abbrev pub IsCounted : Option ActorState → Type 0
IsCounted none = Unit
IsCounted (some actor) =
    (actor.pending ≡ length actor.tail) × (actor.pending ≤ actor.definition.mailbox_capacity)

abbrev pub AreCounted : Actors → Type 0
AreCounted actors = (name : String) → IsCounted (get name actors)

register_actor-AreCounted :
    (definition : ActorDefinition) (actors : Actors)
    → AreCounted actors
    → AreCounted (register_actor definition actors)
unfolding register_actor
register_actor-AreCounted definition actors counted name =
    let here = counted name in
    ground (
      arith,
      get-put definition.name name (record { definition = definition; pending = 0; tail = [] })
          actors,
    )

enter-AreCounted :
    (actor_name : String) (message : Message) (actors : Actors)
    → AreCounted actors
    → AreCounted (enter actor_name message actors).1
unfolding enter admit
enter-AreCounted actor_name message actors counted name =
    let here = counted name in
    elim (Option-cases (get actor_name actors)) [
      | inl missing ↦ ground arith
      | inr (actor, there) ↦
          let before = counted actor_name in
          let longer = length-append actor.tail (message ∷ []) in
          let next = record actor {
            pending = actor.pending + 1;
            tail = actor.tail ++ (message ∷ []);
          } in
          ground (arith, get-put actor_name name next actors)
    ]

leave-AreCounted :
    {W : Type 0} (actions : ActionRegistry W) (actor_name : String) (actors : Actors) (world : W)
    → AreCounted actors
    → AreCounted (leave actions actor_name actors world).1
unfolding leave
leave-AreCounted actions actor_name actors world counted name =
    let here = counted name in
    elim (Option-cases (get actor_name actors)) [
      | inl missing ↦ ground arith
      | inr (actor, there) ↦
          let before = counted actor_name in
          elim (List-cases actor.tail) [
            | inl empty ↦ ground arith
            | inr (message, waiting, full) ↦
                let next = record actor { pending = actor.pending - 1; tail = waiting } in
                ground (arith, get-put actor_name name next actors)
          ]
    ]
  where
    List-cases :
        (xs : List Message) → (xs ≡ []) ⊎ ((x : Message) × (rest : List Message) × (xs ≡ x ∷ rest))
    List-cases [] = inl refl
    List-cases (x ∷ rest) = inr (x, rest, refl)

-- One step of some caller: a registration, a message that enters or is refused, or the turn of a
-- message that waits.
pub data Step {W : Type 0} (actions : ActionRegistry W) : Actors × W → Actors × W → Type 0 where
  by_register :
      (definition : ActorDefinition) (actors : Actors) (world : W)
      → Step actions (actors, world) (register_actor definition actors, world)
  by_enter :
      (actor_name : String) (message : Message) (actors : Actors) (world : W)
      → Step actions (actors, world) ((enter actor_name message actors).1, world)
  by_leave :
      (actor_name : String) (actors : Actors) (world : W)
      → Step actions
          (actors, world)
          ((leave actions actor_name actors world).1, (leave actions actor_name actors world).2)

pub data Steps {W : Type 0} (actions : ActionRegistry W) : Actors × W → Actors × W → Type 0 where
  stop : {s : Actors × W} → Steps actions s s
  step : {s t u : Actors × W} → Steps actions s t → Step actions t u → Steps actions s u

Step-AreCounted :
    {W : Type 0} (actions : ActionRegistry W) {s t : Actors × W}
    → Step actions s t
    → AreCounted s.0
    → AreCounted t.0
Step-AreCounted actions (by_register definition actors world) counted =
    register_actor-AreCounted definition actors counted
Step-AreCounted actions (by_enter actor_name message actors world) counted =
    enter-AreCounted actor_name message actors counted
Step-AreCounted actions (by_leave actor_name actors world) counted =
    leave-AreCounted actions actor_name actors world counted

-- From counted mailboxes, however registrations, entering and leaving messages interleave, the
-- counter of every mailbox is the number of messages in it and stays within its capacity.
pub Steps-AreCounted :
    {W : Type 0} (actions : ActionRegistry W) {s t : Actors × W}
    → Steps actions s t
    → AreCounted s.0
    → AreCounted t.0
Steps-AreCounted actions stop counted = counted
Steps-AreCounted actions (step steps one) counted =
    Step-AreCounted actions one (Steps-AreCounted actions steps counted)

-- The next turn of the mailbox runs this message.
abbrev pub LeavesFirst :
    {W : Type 0} → ActionRegistry W → String → ActorState → Message → Actors → W → Type 0
LeavesFirst actions actor_name actor first actors world =
    let (result, _, next) = leave actions actor_name actors world in
    (result ≡ some (run_message actions actor first world).0)
    × (next ≡ (run_message actions actor first world).1)

leave-first :
    {W : Type 0} (actions : ActionRegistry W) (actor_name : String) (first : Message)
    (waiting : List Message) (actors : Actors) (actor : ActorState) (world : W)
    → get actor_name actors ≡ some actor
    → actor.tail ≡ first ∷ waiting
    → LeavesFirst actions actor_name actor first actors world
unfolding leave
leave-first actions actor_name first waiting actors actor world there queued =
    (ground arith, ground arith)

-- Messages leave in the order in which they entered: a message that enters a mailbox with others
-- in it, or is refused there, does not change which message is next and what it does.
leave-enter :
    {W : Type 0} (actions : ActionRegistry W) (actor_name : String) (message first : Message)
    (waiting : List Message) (actors : Actors) (actor : ActorState) (world : W)
    → get actor_name actors ≡ some actor
    → actor.tail ≡ first ∷ waiting
    → LeavesFirst actions actor_name actor first (enter actor_name message actors).1 world
unfolding enter admit
leave-enter actions actor_name message first waiting actors actor world there queued =
    let next = record actor { pending = actor.pending + 1; tail = actor.tail ++ (message ∷ []) } in
    let after = (enter actor_name message actors).1 in
    let refused : after ≡ actors → LeavesFirst actions actor_name actor first after world = λ e.
      subst (λ a. LeavesFirst actions actor_name actor first a world) (sym e)
        (leave-first actions actor_name first waiting actors actor world there queued) in
    elim (Bool-cases (includes actor.definition.actions message.action)) [
      | inr unlisted ↦ refused (ground arith)
      | inl allowed ↦ elim (Bool-cases (leb actor.definition.mailbox_capacity actor.pending)) [
        | inl full ↦ refused (ground arith)
        | inr free ↦
            let e : after ≡ put actor_name next actors = ground arith in
            subst (λ a. LeavesFirst actions actor_name actor first a world) (sym e)
              (leave-first actions actor_name first (waiting ++ (message ∷ []))
                (put actor_name next actors) next world (get-put_self actor_name next actors)
                (ap (λ t. t ++ (message ∷ [])) queued))
      ]
    ]
