-- ===== src/Flow/Tests.antt =====
-- A flow of one action over a small graph, and the theorems at their inputs.
use allas_code_blueprint.Prelude.{
  String, arith, ◌≡◌, refl, true, false, eq_iff, none, some, [], ◌∷◌, ℕ, ◌+◌, ◌⊎◌, ◌==◌,
}
use allas_code_blueprint.Prelude.Attempt.{returned, thrown}
use allas_code_blueprint.Prelude.Dict.{get, put, values}
use allas_code_blueprint.Prelude.Sets.{sort, insert_sorted}
use allas_code_blueprint.Commerce.{Payload, no_payload, ok}
use allas_code_blueprint.Runtime.Registry
use allas_code_blueprint.Runtime.Registry.{
  Implementation, ActionManifest, register_action, execute_action,
}
use allas_code_blueprint.Runtime.Actors.{
  ActorDefinition, register_actor, admit, enter, leave, send, AgentDefinition, AgentRuntime,
  register_agent, execute,
}
use allas_code_blueprint.Healing.Graph.{
  NodeMetadata, SemanticGraphNode, SemanticGraphEdge, SemanticGraph, after_colon, label,
}
use allas_code_blueprint.Healing.Run.{HealingEnvironment}
use allas_code_blueprint.Flow.Contracts.{FlowContract, last_of, sorted_edges, flow_contract}
use allas_code_blueprint.Flow.Queue.{
  completed, ExecutionReport, FlowState, FlowRuntime, report, execute_flow,
}
use allas_code_blueprint.Flow.Terminal.{EndsRun, execute_flow-Ends}
use allas_code_blueprint.Flow.Completed.{execute_flow-completes}
use allas_code_blueprint.Flow.Resume.{resume}
use allas_code_blueprint.Flow.Returned.{resume_returns}
use allas_code_blueprint.Flow.Resumed.{stop, step, by_resume, resume-once}
use allas_code_blueprint.Healing.Store.{
  HealingInput, HealingCase, resumed, expire_all, list_pending, escalate, consume_resume,
}

program : Unit {0}
unfolding get put sort insert_sorted register_action execute_action register_actor admit enter leave
    send register_agent execute after_colon label last_of sorted_edges flow_contract expire_all
    list_pending escalate consume_resume values
program = tt

abbrev manifest : ActionManifest
manifest = record { name = "CloseSale"; ok_event = "SaleCompleted"; error_event = "SaleCloseError" }

abbrev closes : Implementation ℕ
closes payload world = (Registry.returned (ok "SaleCompleted" payload), world + 1)

abbrev clerk : ActorDefinition
clerk = record { name = "Clerk"; agent = "Sales"; actions = "CloseSale" ∷ []; mailbox_capacity = 1 }

abbrev sales : AgentDefinition
sales = record { name = "Sales"; actor = "Clerk"; actions = "CloseSale" ∷ []; tools = [] }

abbrev agents : AgentRuntime ℕ
unfolding program
agents = record {
  agents = register_agent sales [];
  actors = register_actor clerk [];
  actions = register_action "Sales" manifest closes [];
  tools = [];
}

abbrev edge_of : String → String → String → SemanticGraphEdge
edge_of type from target = record {
  type = type;
  from = from;
  target = target;
  when_strategy = "";
  order = 0;
}

abbrev no_metadata : NodeMetadata
no_metadata = record {
  kind = "";
  message_regex = "";
  max_attempts = none;
  timeout_ms = none;
  backoff_ms = none;
  resume_ttl_ms = none;
  required_context = [];
}

abbrev sell : SemanticGraphNode
sell = record { id = "Flow:Sell"; type = "Flow"; label = "Sell"; metadata = no_metadata }

abbrev dispatch : SemanticGraphEdge
dispatch = edge_of "DISPATCHES" "Event:SaleOpened" "Action:CloseSale"

abbrev owner : SemanticGraphEdge
owner = edge_of "ACTION_OWNER" "Action:CloseSale" "Agent:Sales"

abbrev graph : SemanticGraph
graph = record {
  nodes = sell ∷ [];
  edges =
      edge_of "IMPLEMENTS_INTENT" "Flow:Sell" "Intent:SellProduct"
      ∷ edge_of "FLOW_EMITS_EVENT" "Flow:Sell" "Event:SaleOpened"
      ∷ edge_of "FLOW_EXPECTS_EVENT" "Flow:Sell" "Event:SaleCompleted"
      ∷ dispatch
      ∷ owner
      ∷ edge_of "LISTENS" "Agent:Sales" "Event:SaleOpened"
      ∷ [];
}

abbrev env : HealingEnvironment ℕ
env = record {
  test = λ source message. source == message;
  clock = λ w. w;
  wait = λ ms w. w + ms;
  draw_uuids = λ w. ("u1", "u2", w);
  hash = λ payload. payload.sale_id;
  show_number = λ n. "n";
}

abbrev runtime : FlowRuntime ℕ
unfolding program
runtime = record { healing = env; agents = agents; graph = graph }

abbrev start : FlowState ℕ
start = record { world = 7; healing_store = record { cases = []; audits = [] }; history = [] }

abbrev sale : Payload
sale = record no_payload { sale_id = "s1" }

abbrev contract : FlowContract
contract = record {
  flow = "Sell";
  intent = "SellProduct";
  initial_event = "SaleOpened";
  terminal_event = "SaleCompleted";
}

execute_flow-Ends_example :
    ((message : String) × (flow_contract graph "Sell" ≡ thrown message)
      × (execute_flow runtime "Sell" sale start ≡ thrown message))
    ⊎ ((found : FlowContract) × (r : ExecutionReport) × (f : FlowState ℕ) × (flow_contract graph
            "Sell"
          ≡ returned found)
        × (execute_flow runtime "Sell" sale start ≡ returned (some (r, f)))
        × EndsRun 65 found none start r f)
unfolding runtime
execute_flow-Ends_example = execute_flow-Ends runtime "Sell" sale start

execute_flow-completes_example :
    (f : FlowState ℕ) × (execute_flow runtime "Sell" sale start
      ≡ returned (some (report contract (some "SaleCompleted") (completed sale), f)))
    × (f.world ≡ 8)
unfolding program
execute_flow-completes_example =
    execute_flow-completes runtime "Sell" sale sale contract dispatch owner start 8 refl refl refl
      refl refl refl

abbrev input : HealingInput Payload
input = record {
  intent = "SellProduct";
  agent = "Sales";
  action = "CloseSale";
  original_event = "SaleOpened";
  original_payload = sale;
  error_event = "SaleCloseError";
  error_message = "no customer";
  correlation_id = "c1";
}

-- A case waits for a human.
abbrev waiting : FlowState ℕ
unfolding program
waiting = record start {
  healing_store = (escalate env.hash "case1" "token1" 5 1000 input start.healing_store).1;
}

abbrev resumed_case : HealingCase Payload
resumed_case = record {
  id = "case1";
  input = input;
  original_payload_hash = "s1";
  resume_token = "token1";
  created_at = 5;
  expires_at = 1005;
  status = resumed;
  attempts = 1;
}

abbrev first_resume : FlowState ℕ
first_resume = (resume_returns runtime "case1" "token1" no_payload waiting).0

-- A second resume in between fails as well.
abbrev second_resume : FlowState ℕ
second_resume = (resume_returns runtime "case1" "token1" no_payload first_resume).0

resume-once_example :
    (resume runtime "case1" "token1" sale second_resume
      ≡ (thrown "Healing case already consumed", second_resume))
    × (get "case1" second_resume.healing_store.cases ≡ some resumed_case)
unfolding program
resume-once_example =
    resume-once runtime "case1" "token1" "token1" no_payload sale resumed_case waiting first_resume
      second_resume
      (λ w same. let twins : false ≡ true = (eq_iff "u1" "case1").1 same in ground (arith, twins))
      refl (resume_returns runtime "case1" "token1" no_payload waiting).1
      (step stop (
        by_resume "case1" "token1" no_payload
          (resume_returns runtime "case1" "token1" no_payload first_resume).1))
