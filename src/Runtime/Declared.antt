-- ===== src/Runtime/Declared.antt =====
-- What registered actions can answer, and which calls of an agent reach them.
use allas_code_blueprint.Prelude.{
  String, ◌<>◌, ◌≡◌, refl, sym, subst, ◌⊎◌, inl, inr, Bool, true, false, Bool-cases, Option-cases,
  some, leb, eq_iff, arith, includes,
}
use allas_code_blueprint.Prelude.Dict.{get}
use allas_code_blueprint.Commerce.{Payload, ActionResult, ok, error}
use allas_code_blueprint.Runtime.Registry.{
  Run, returned, thrown, ActionManifest, RegisteredAction, ActionRegistry, declared_result,
  execute_action,
}
use allas_code_blueprint.Runtime.Actors.{
  ActorState, admit, send, AgentDefinition, AgentRuntime, execute,
}

-- The event of a result is the one that the manifest declares for its status.
abbrev pub IsDeclared : ActionManifest → ActionResult → Type 0
IsDeclared manifest (ok event payload) = event ≡ manifest.ok_event
IsDeclared manifest (error event message) = event ≡ manifest.error_event

declared_result-IsDeclared :
    (manifest : ActionManifest) (run : Run) → IsDeclared manifest (declared_result manifest run)
declared_result-IsDeclared manifest (thrown message) = refl
declared_result-IsDeclared manifest (returned (ok event payload)) =
    ground (arith, eq_iff event manifest.ok_event)
declared_result-IsDeclared manifest (returned (error event message)) =
    ground (arith, eq_iff event manifest.error_event)

execute_action-runs :
    {W : Type 0} (actions : ActionRegistry W) (key : String) (payload : Payload) (world : W)
    (registered : RegisteredAction W)
    → get key actions ≡ some registered
    → (execute_action actions key payload world).0
      ≡ declared_result registered.manifest (registered.implementation payload world).0
unfolding execute_action
execute_action-runs actions key payload world registered found = ground arith

-- Whatever a registered implementation does, also when it throws or emits another event, the
-- registry answers with the event that the manifest declares for the status of the answer.
execute_action-IsDeclared :
    {W : Type 0} (actions : ActionRegistry W) (key : String) (payload : Payload) (world : W)
    (registered : RegisteredAction W)
    → get key actions ≡ some registered
    → IsDeclared registered.manifest (execute_action actions key payload world).0
unfolding execute_action
execute_action-IsDeclared actions key payload world registered found =
    let run = (registered.implementation payload world).0 in
    let declared = declared_result-IsDeclared registered.manifest run in
    subst (λ r. IsDeclared registered.manifest r)
      (sym (execute_action-runs actions key payload world registered found)) declared

abbrev pub is_failure : ActionResult → Bool
is_failure (ok event payload) = false
is_failure (error event message) = true

-- The call ran the action that agent and actor both allow, through the registry.
abbrev pub IsAllowed :
    {W : Type 0}
    → AgentRuntime W
    → (agent_name action : String) → Payload
    → W
    → ActionResult × W
    → Type 0
IsAllowed runtime agent_name action payload world answer =
    (agent : AgentDefinition) × (actor : ActorState) × (get agent_name runtime.agents ≡ some agent)
    × (includes agent.actions action ≡ true)
    × (get agent.actor runtime.actors ≡ some actor)
    × (includes actor.definition.actions action ≡ true)
    × (answer
        ≡ execute_action runtime.actions (actor.definition.agent <> "." <> action) payload world)

-- A call of an agent is refused with an error and changes nothing, or the agent is registered for the
-- action, so is its actor, and the action of the actor's agent is executed.
pub execute-IsAllowed :
    {W : Type 0} (runtime : AgentRuntime W) (agent_name action : String) (payload : Payload)
    (world : W)
    → let (result, after) = execute runtime agent_name action payload world in
      ((is_failure result ≡ true) × (after ≡ world))
      ⊎ IsAllowed runtime agent_name action payload world
          (execute runtime agent_name action payload world)
unfolding execute send admit
execute-IsAllowed runtime agent_name action payload world =
    elim (Option-cases (get agent_name runtime.agents)) [
      | inl missing ↦ inl (ground arith)
      | inr (agent, found) ↦ elim (Bool-cases (includes agent.actions action)) [
        | inr refused ↦ inl (ground arith)
        | inl allowed ↦ elim (Option-cases (get agent.actor runtime.actors)) [
          | inl missing ↦ inl (ground arith)
          | inr (actor, there) ↦ elim (Bool-cases (includes actor.definition.actions action)) [
            | inr refused ↦ inl (ground arith)
            | inl offered ↦
                elim (Bool-cases (leb actor.definition.mailbox_capacity actor.pending)) [
                  | inl full ↦ inl (ground arith)
                  | inr free ↦ inr (agent, actor, found, allowed, there, offered, ground arith)
                ]
          ]
        ]
      ]
    ]
