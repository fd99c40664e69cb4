-- ===== src/Healing/Diagnosis.antt =====
-- diagnoseHealing of runtime/semantic-healing.ts.
use allas_code_blueprint.Prelude.{
  String, Bool, ◌||◌, none, some, List, ℕ, ◌+◌, ltb, leb, ◌==◌, if◌then◌else◌, find, select,
}
use allas_code_blueprint.Healing.Graph.{
  SemanticGraphNode, SemanticGraph, RegexTest, has_edge, action_id, strategy_nodes, matches,
  number_meta, Fallback, find_semantic_fallback,
}

pub record RetryPlan : Type 0 where
  pub strategy : String
  pub max_attempts : ℕ
  pub timeout_ms : ℕ
  pub backoff_ms : ℕ

pub record HumanPlan : Type 0 where
  pub strategy : String
  pub required_context : List String
  pub resume_ttl_ms : ℕ

-- The reasons, which are texts for a reader, are left out but for the terminal one.
pub data HealingDecision : Type 0 where
  retry : RetryPlan → HealingDecision
  alternative : Fallback → HealingDecision
  human : HumanPlan → HealingDecision
  terminal : (reason : String) → HealingDecision

abbrev pub is_kind : String → SemanticGraphNode → Bool
is_kind kind node = node.metadata.kind == kind

-- `Math.max(1, numberMeta(retry, 'max_attempts', 1))`.
abbrev pub attempts_of : SemanticGraphNode → ℕ
attempts_of node = let n = number_meta node.metadata.max_attempts 1 in if leb 1 n then n else 1

abbrev pub retry_plan : SemanticGraphNode → RetryPlan
retry_plan node = record {
  strategy = node.label;
  max_attempts = attempts_of node;
  timeout_ms = number_meta node.metadata.timeout_ms 1000;
  backoff_ms = number_meta node.metadata.backoff_ms 0;
}

abbrev pub human_plan : SemanticGraphNode → HumanPlan
human_plan node = record {
  strategy = node.label;
  required_context = node.metadata.required_context;
  resume_ttl_ms = number_meta node.metadata.resume_ttl_ms 86400000;
}

unfoldable pub without_retry :
    RegexTest → SemanticGraph → (action message : String) → List SemanticGraphNode → HealingDecision
without_retry test graph action message strategies =
    elim (find_semantic_fallback test graph action message) [
      | some fallback ↦ alternative fallback
      | none ↦ elim (find (is_kind "human") strategies) [
        | some node ↦ human (human_plan node)
        | none ↦
            if has_edge graph "GOVERNED_BY" (action_id action)
              || has_edge graph "CONSTRAINED_BY" (action_id action)
              || has_edge graph "PRESERVES" (action_id action)
            then terminal
                "No graph-declared reversible healing path preserves the Action governance obligations."
            else terminal "No reversible semantic healing strategy is declared."
      ]
    ]

unfoldable pub diagnose_healing :
    RegexTest → SemanticGraph → (action message : String) → (attempt : ℕ) → HealingDecision
diagnose_healing test graph action message attempt =
    let strategies = select (matches test message) (strategy_nodes graph action) in
    let otherwise = without_retry test graph action message strategies in
    elim (find (is_kind "retry") strategies) [
      | none ↦ otherwise
      | some node ↦
          if ltb (attempt + 1) (attempts_of node) then retry (retry_plan node) else otherwise
    ]
