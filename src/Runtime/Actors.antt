-- ===== src/Runtime/Actors.antt =====
-- runtime/actor-system.ts and runtime/agent-runtime.ts. `send` and `execute` are calls that nothing
-- else runs beside. `enter` and `leave` are the parts of a `send` before and after it waits for its
-- turn: the chain of promises `tail` is the list of the messages that wait, the first one running.
use allas_code_blueprint.Prelude.{
  String, ◌<>◌, not, Option, none, some, List, [], ◌∷◌, ◌++◌, ℕ, ◌+◌, ◌-◌, leb, if◌then◌else◌,
  includes,
}
use allas_code_blueprint.Prelude.Dict.{Dict, get, put}
use allas_code_blueprint.Commerce.{Payload, ActionResult, error}
use allas_code_blueprint.Runtime.Registry.{
  ActionRegistry, ToolDefinition, execute_action, execute_tool,
}

pub record ActorDefinition : Type 0 where
  pub name : String
  pub agent : String
  pub actions : List String
  pub mailbox_capacity : ℕ

pub record Message : Type 0 where
  pub action : String
  pub payload : Payload

pub record ActorState : Type 0 where
  pub definition : ActorDefinition
  pub pending : ℕ
  pub tail : List Message

abbrev pub Actors : Type 0
Actors = Dict ActorState

-- A registration replaces the state of an actor of that name; messages that wait for the old one are
-- not followed any further.
unfoldable pub register_actor : ActorDefinition → Actors → Actors
register_actor definition actors =
    put definition.name (record { definition = definition; pending = 0; tail = [] }) actors

pub data Admission : Type 0 where
  denied : ActionResult → Admission
  admitted : ActorState → Admission

-- The three early returns of `send`.
unfoldable pub admit : (actor_name action : String) → Actors → Admission
admit actor_name action actors = elim (get actor_name actors) [
  | none ↦ denied (error "ActorNotFound" ("Actor not registered: " <> actor_name))
  | some actor ↦
      if not (includes actor.definition.actions action)
      then denied (error "ActorActionDenied" (actor_name <> " cannot execute " <> action))
      else if leb actor.definition.mailbox_capacity actor.pending
      then denied (error "ActorMailboxFull" (actor_name <> " mailbox is full"))
      else admitted actor
]

-- From the start of a `send` to its wait: a denial, or one more message in the mailbox.
unfoldable pub enter : (actor_name : String) → Message → Actors → Option ActionResult × Actors
enter actor_name message actors = elim (admit actor_name message.action actors) [
  | denied refusal ↦ (some refusal, actors)
  | admitted actor ↦ (
    none,
    put actor_name
        (record actor { pending = actor.pending + 1; tail = actor.tail ++ (message ∷ []) }) actors,
  )
]

module _ {W : Type 0} (actions : ActionRegistry W) where
  abbrev pub run_message : ActorState → Message → W → ActionResult × W
  run_message actor message world =
      execute_action actions (actor.definition.agent <> "." <> message.action) message.payload world

  -- The turn of the first message that waits, to the end of its `send`.
  unfoldable pub leave : (actor_name : String) → Actors → W → Option ActionResult × Actors × W
  leave actor_name actors world = elim (get actor_name actors) [
    | none ↦ (none, actors, world)
    | some actor ↦ elim actor.tail [
      | [] ↦ (none, actors, world)
      | message ∷ waiting ↦
          let (result, after) = run_message actor message world in
          (
            some result,
            put actor_name (record actor { pending = actor.pending - 1; tail = waiting }) actors,
            after,
          )
    ]
  ]

  -- A `send` while nobody else waits: what it adds to the mailbox it takes away again.
  unfoldable pub send : (actor_name action : String) → Payload → Actors → W → ActionResult × W
  send actor_name action payload actors world = elim (admit actor_name action actors) [
    | denied refusal ↦ (refusal, world)
    | admitted actor ↦ run_message actor (record { action = action; payload = payload }) world
  ]

pub record AgentDefinition : Type 0 where
  pub name : String
  pub actor : String
  pub actions : List String
  pub tools : List String

unfoldable pub register_agent : AgentDefinition → Dict AgentDefinition → Dict AgentDefinition
register_agent definition agents = put definition.name definition agents

pub record AgentRuntime (W : Type 0) : Type 0 where
  pub agents : Dict AgentDefinition
  pub actors : Actors
  pub actions : ActionRegistry W
  pub tools : Dict (ToolDefinition W)

abbrev pub unknown_agent : String → ActionResult
unknown_agent agent_name = error "AgentNotFound" ("Agent not registered: " <> agent_name)

unfoldable pub execute :
    {W : Type 0} → AgentRuntime W → (agent_name action : String) → Payload → W → ActionResult × W
execute runtime agent_name action payload world = elim (get agent_name runtime.agents) [
  | none ↦ (unknown_agent agent_name, world)
  | some agent ↦
      if not (includes agent.actions action)
      then (error "AgentActionDenied" (agent_name <> " cannot execute " <> action), world)
      else send runtime.actions agent.actor action payload runtime.actors world
]

unfoldable pub use_tool :
    {W : Type 0} → AgentRuntime W → (agent_name tool_name : String) → Payload → W → ActionResult × W
use_tool runtime agent_name tool_name payload world = elim (get agent_name runtime.agents) [
  | none ↦ (unknown_agent agent_name, world)
  | some agent ↦
      if not (includes agent.tools tool_name)
      then (error "AgentToolDenied" (agent_name <> " cannot use " <> tool_name), world)
      else execute_tool runtime.tools tool_name payload world
]
