-- ===== src/Runtime/Tests.antt =====
-- A registry of one action and an actor with room for one message, and the theorems at their inputs.
use allas_code_blueprint.Prelude.{◌≡◌, ◌⊎◌, true, [], ◌∷◌, ℕ, ◌+◌}
use allas_code_blueprint.Prelude.Dict.{get, put}
use allas_code_blueprint.Commerce.{no_payload, ok}
use allas_code_blueprint.Runtime.Registry.{
  returned, Implementation, ActionManifest, ActionRegistry, register_action, execute_action,
}
use allas_code_blueprint.Runtime.Actors.{
  ActorDefinition, Message, Actors, register_actor, admit, enter, leave, send, AgentDefinition,
  AgentRuntime, register_agent, execute,
}
use allas_code_blueprint.Runtime.Declared.{is_failure, IsAllowed, execute-IsAllowed}
use allas_code_blueprint.Runtime.Mailbox.{
  AreCounted, by_register, by_enter, by_leave, stop, step, Steps-AreCounted,
}

program : Unit {0}
unfolding get put register_action execute_action register_actor admit enter leave send
    register_agent execute
program = tt

abbrev manifest : ActionManifest
manifest = record { name = "CloseSale"; ok_event = "SaleCompleted"; error_event = "SaleCloseError" }

-- It emits an event that its manifest does not declare.
abbrev careless : Implementation ℕ
careless payload world = (returned (ok "Closed" payload), world + 1)

abbrev actions : ActionRegistry ℕ
unfolding program
actions = register_action "Sales" manifest careless []

abbrev clerk : ActorDefinition
clerk = record { name = "Clerk"; agent = "Sales"; actions = "CloseSale" ∷ []; mailbox_capacity = 1 }

abbrev actors : Actors
unfolding program
actors = register_actor clerk []

abbrev sales : AgentDefinition
sales = record { name = "Sales"; actor = "Clerk"; actions = "CloseSale" ∷ []; tools = [] }

abbrev runtime : AgentRuntime ℕ
unfolding program
runtime = record {
  agents = register_agent sales [];
  actors = actors;
  actions = actions;
  tools = [];
}

execute-IsAllowed_example :
    let (result, after) = execute runtime "Sales" "CloseSale" no_payload 0 in
    ((is_failure result ≡ true) × (after ≡ 0))
    ⊎ IsAllowed runtime "Sales" "CloseSale" no_payload 0
        (execute runtime "Sales" "CloseSale" no_payload 0)
unfolding program
execute-IsAllowed_example = execute-IsAllowed runtime "Sales" "CloseSale" no_payload 0

abbrev message : Message
message = record { action = "CloseSale"; payload = no_payload }

abbrev waiting : Actors
unfolding program
waiting = (enter "Clerk" message actors).1

no_actors-AreCounted : AreCounted []
unfolding program
no_actors-AreCounted = λ name. tt

-- The second message finds the mailbox full.
Steps-AreCounted_example :
    AreCounted
      (leave actions "Clerk" (enter "Clerk" message (enter "Clerk" message actors).1).1 0).1
unfolding program
Steps-AreCounted_example =
    Steps-AreCounted actions
      (step
        (step (step (step stop (by_register clerk [] 0)) (by_enter "Clerk" message actors 0))
          (by_enter "Clerk" message waiting 0))
        (by_leave "Clerk" (enter "Clerk" message waiting).1 0))
      no_actors-AreCounted
