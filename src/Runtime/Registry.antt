-- ===== src/Runtime/Registry.antt =====
-- runtime/action-registry.ts and runtime/tool-registry.ts. `W` is what implementations act on; one
-- that throws gives `thrown` with the message of its Error ("Unknown ... failure" is the
-- message of anything else that is thrown).
use allas_code_blueprint.Prelude.{String, ◌<>◌, none, some, ◌==◌, if◌then◌else◌}
use allas_code_blueprint.Prelude.Dict.{Dict, get, put}
use allas_code_blueprint.Commerce.{Payload, ActionResult, ok, error}

pub data Run : Type 0 where
  returned : ActionResult → Run
  thrown : (message : String) → Run

abbrev pub Implementation : Type 0 → Type 0
Implementation W = Payload → W → Run × W

pub record ActionManifest : Type 0 where
  pub name : String
  pub ok_event : String
  pub error_event : String

pub record RegisteredAction (W : Type 0) : Type 0 where
  pub manifest : ActionManifest
  pub implementation : Implementation W

pub record ToolDefinition (W : Type 0) : Type 0 where
  pub ok_event : String
  pub error_event : String
  pub implementation : Implementation W

abbrev pub ActionRegistry : Type 0 → Type 0
ActionRegistry W = Dict (RegisteredAction W)

-- The comparison of what an implementation emitted with what the manifest declares.
abbrev pub declared_result : ActionManifest → Run → ActionResult
declared_result manifest (returned (ok event payload)) =
    if event == manifest.ok_event
    then ok event payload
    else error manifest.error_event
        ("Implementation emitted " <> event <> ", but manifest declares " <> manifest.ok_event)
declared_result manifest (returned (error event message)) =
    if event == manifest.error_event
    then error event message
    else error manifest.error_event
        ("Implementation emitted " <> event <> ", but manifest declares " <> manifest.error_event)
declared_result manifest (thrown message) = error manifest.error_event message

module _ {W : Type 0} where
  unfoldable pub register_action :
      (agent : String) → ActionManifest → Implementation W → ActionRegistry W → ActionRegistry W
  register_action agent manifest implementation actions =
      put (agent <> "." <> manifest.name)
        (record { manifest = manifest; implementation = implementation }) actions

  unfoldable pub execute_action : ActionRegistry W → String → Payload → W → ActionResult × W
  execute_action actions key payload world = elim (get key actions) [
    | none ↦ (error "ActionNotFound" ("Action not registered: " <> key), world)
    | some registered ↦
        let (run, after) = registered.implementation payload world in
        (declared_result registered.manifest run, after)
  ]

  unfoldable pub register_tool :
      (name ok_event error_event : String)
      → Implementation W
      → Dict (ToolDefinition W)
      → Dict (ToolDefinition W)
  register_tool name ok_event error_event implementation tools =
      put name
        (record { ok_event = ok_event; error_event = error_event; implementation = implementation })
        tools

  abbrev pub expected_result : ToolDefinition W → Run → ActionResult
  expected_result tool (returned (ok event payload)) =
      if event == tool.ok_event
      then ok event payload
      else error tool.error_event ("Tool emitted " <> event <> ", expected " <> tool.ok_event)
  expected_result tool (returned (error event message)) =
      if event == tool.error_event
      then error event message
      else error tool.error_event ("Tool emitted " <> event <> ", expected " <> tool.error_event)
  expected_result tool (thrown message) = error tool.error_event message

  unfoldable pub execute_tool : Dict (ToolDefinition W) → String → Payload → W → ActionResult × W
  execute_tool tools name payload world = elim (get name tools) [
    | none ↦ (error "ToolNotFound" ("Tool not registered: " <> name), world)
    | some tool ↦
        let (run, after) = tool.implementation payload world in (expected_result tool run, after)
  ]
