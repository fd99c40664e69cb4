-- ===== src/Healing/Tests.antt =====
-- Healing over a small graph, and the theorems at their inputs.
use allas_code_blueprint.Prelude.{
  sym, ap, ◌∙◌, eq_iff, false, arith, inl, inr, if◌then◌else◌, String, ◌≡◌, refl, true, none, some,
  [], ◌∷◌, ℕ, ◌+◌, ◌==◌,
}
use allas_code_blueprint.Prelude.Dict.{get, put, values}
use allas_code_blueprint.Commerce.{Payload, no_payload, ok, error}
use allas_code_blueprint.Healing.Store.{
  HealingInput, HealingCase, HealingStore, resumed, thrown, expire_all, list_pending, escalate,
  consume_resume,
}
use allas_code_blueprint.Healing.Cases.{by_list, stop, step, consume_resume-once}
use allas_code_blueprint.Healing.Graph.{
  NodeMetadata, SemanticGraphEdge, SemanticGraph, after_colon, label, strategy_nodes,
  declared_error_event, is_applicable, Fallback, first_fallback, find_semantic_fallback,
}
use allas_code_blueprint.Healing.Diagnosis.{without_retry, diagnose_healing}
use allas_code_blueprint.Healing.Run.{
  Execution, HealingEnvironment, HealingExecutionContext, Scene, execute_bounded, retry_loop,
  attempt_bound, conclude, try_alternative, execute_with_semantic_healing,
}
use allas_code_blueprint.Healing.Run.Bounds.{Returns, execute_with_semantic_healing-Returns}
use allas_code_blueprint.Healing.Declared.{IsDeclared}
use allas_code_blueprint.Healing.Run.Fallbacks.{execute_with_semantic_healing-agrees}

program : Unit {0}
unfolding get put values expire_all list_pending escalate consume_resume after_colon label
    strategy_nodes declared_error_event is_applicable first_fallback find_semantic_fallback
    without_retry diagnose_healing execute_bounded retry_loop attempt_bound conclude try_alternative
    execute_with_semantic_healing
program = tt

abbrev hash : Payload → String
hash payload = payload.sale_id

abbrev input : HealingInput Payload
input = record {
  intent = "Sell";
  agent = "Sales";
  action = "CloseSale";
  original_event = "StockDecreased";
  original_payload = no_payload;
  error_event = "SaleCloseError";
  error_message = "no customer";
  correlation_id = "c1";
}

abbrev empty_store : HealingStore Payload
empty_store = record { cases = []; audits = [] }

abbrev waiting : HealingStore Payload
unfolding program
waiting = (escalate hash "case1" "token1" 10 1000 input empty_store).1

abbrev resumed_case : HealingCase Payload
resumed_case = record {
  id = "case1";
  input = input;
  original_payload_hash = "";
  resume_token = "token1";
  created_at = 10;
  expires_at = 1010;
  status = resumed;
  attempts = 1;
}

abbrev after_resume : HealingStore Payload
unfolding program
after_resume = (consume_resume "case1" "token1" 20 waiting).1

abbrev much_later : HealingStore Payload
unfolding program
much_later = (list_pending 5000 after_resume).1

consume_resume-once_example :
    (consume_resume "case1" "token1" 30 much_later
      ≡ (thrown "Healing case already consumed", much_later))
    × (get "case1" much_later.cases ≡ some resumed_case)
unfolding program
consume_resume-once_example =
    consume_resume-once hash "case1" "token1" "token1" 20 30 resumed_case waiting much_later refl
      (step stop (by_list 5000))

abbrev retries : NodeMetadata
retries = record {
  kind = "retry";
  message_regex = "busy";
  max_attempts = some 3;
  timeout_ms = some 100;
  backoff_ms = none;
  resume_ttl_ms = none;
  required_context = [];
}

abbrev edge_of : String → String → String → SemanticGraphEdge
edge_of type from target = record {
  type = type;
  from = from;
  target = target;
  when_strategy = "";
  order = 0;
}

abbrev graph : SemanticGraph
graph = record {
  nodes =
      record {
        id = "HealingStrategy:Again";
        type = "HealingStrategy";
        label = "Again";
        metadata = retries;
      }
      ∷ [];
  edges =
      edge_of "HEALED_BY" "Action:CloseSale" "HealingStrategy:Again"
      ∷ record (edge_of "FALLBACK_TO" "Action:CloseSale" "Action:CloseLater") {
        when_strategy = "Again";
      }
      ∷ edge_of "ACTION_OWNER" "Action:CloseLater" "Agent:Night"
      ∷ [];
}

-- The world counts the executions.
abbrev env : HealingEnvironment ℕ
env = record {
  test = λ source message. source == message;
  clock = λ w. 0;
  wait = λ ms w. w;
  draw_uuids = λ w. ("u1", "u2", w);
  hash = hash;
  show_number = λ n. "n";
}

abbrev always_busy : Execution ℕ
always_busy w = (error "SaleCloseError" "busy", 5, w + 1)

abbrev night_shift : Fallback → Execution ℕ
night_shift f w = (ok "SaleCompleted" no_payload, 5, w + 1)

abbrev context : HealingExecutionContext
context = record {
  intent = some "Sell";
  original_event = none;
  original_payload = no_payload;
  correlation_id = none;
}

abbrev scene : Scene ℕ
scene = record { world = 0; store = some empty_store }

execute_with_semantic_healing-Returns_example : Returns 4 (
    execute_with_semantic_healing env graph "Sales" "CloseSale" always_busy
      (some night_shift)
      context
      scene)
unfolding program
execute_with_semantic_healing-Returns_example =
    execute_with_semantic_healing-Returns env graph "Sales" "CloseSale" always_busy
      (some night_shift) context scene

abbrev night : Fallback
night = record { agent = "Night"; action = "CloseLater" }

healing_finds_night : find_semantic_fallback env.test graph "CloseSale" "busy" ≡ some night
unfolding program
healing_finds_night = refl

-- It runs the night shift, but nothing else.
abbrev night_only : Fallback → Execution ℕ
night_only f w =
    if f.action == "CloseLater" then night_shift f w else (error "Unknown" "undeclared", 1, w + 9)

is_night :
    (message : String) (f : Fallback)
    → IsDeclared env.test graph "CloseSale" message f
    → f.action ≡ "CloseLater"
unfolding program
is_night message f (edge, owner, among, type, _, _, _, _, _, _, name) = elim among [
  | inl e ↦
      let wrong : "HEALED_BY" ≡ "FALLBACK_TO" =
        ap (λ (x : SemanticGraphEdge). x.type) (sym e) ∙ type in
      let twins : false ≡ true = (eq_iff "HEALED_BY" "FALLBACK_TO").1 wrong in
      absurd (ground (arith, twins))
  | inr (inl e) ↦ name ∙ ap (λ (x : SemanticGraphEdge). label x.target) e
  | inr (inr (inl e)) ↦
      let wrong : "ACTION_OWNER" ≡ "FALLBACK_TO" =
        ap (λ (x : SemanticGraphEdge). x.type) (sym e) ∙ type in
      let twins : false ≡ true = (eq_iff "ACTION_OWNER" "FALLBACK_TO").1 wrong in
      absurd (ground (arith, twins))
  | inr (inr (inr never)) ↦ absurd (omega (arith, never))
]

execute_with_semantic_healing-agrees_example :
    execute_with_semantic_healing env graph "Sales" "CloseSale" always_busy
      (some night_shift)
      context
      scene
    ≡ execute_with_semantic_healing env graph "Sales" "CloseSale" always_busy
        (some night_only)
        context
        scene
unfolding program
execute_with_semantic_healing-agrees_example =
    execute_with_semantic_healing-agrees env graph "CloseSale" "Sales" always_busy night_shift
      night_only context scene (λ message f declared w. rw (is_night message f declared) refl)
