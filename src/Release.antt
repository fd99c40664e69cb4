-- ===== src/Release.antt =====
-- The decisions about a release: release/final-release-gate.ts and runtime/semantic-ci-policy.ts.
-- `show_number` prints a number, percentages are integers.
pub mod Gate
mod Tests
use allas_code_blueprint.Prelude.{
  String, ◌<>◌, Bool, true, false, not, ◌&&◌, ◌||◌, List, [], ◌∷◌, ◌++◌, ℕ, nat_eq, exists,
  is_empty, ◌==◌, if◌then◌else◌, map,
}
use allas_code_blueprint.Prelude.Text.{join}

pub data Severity : Type 0 where
  critical high medium low : Severity

pub data MergeGate : Type 0 where
  allow review block : MergeGate

pub record Defect : Type 0 where
  pub severity : Severity
  pub id : String

pub record ReleaseEvidence : Type 0 where
  pub branch_protection : Bool
  pub semantic_merge_gate : MergeGate
  pub semantic_evidence_fresh : Bool
  pub coverage_passed : Bool
  pub mutation_passed : Bool
  pub security_passed : Bool
  pub load_stress_passed : Bool
  pub backup_restore_passed : Bool
  pub e2e_passed : Bool
  pub staging_pilot_passed : Bool
  pub operator_acceptance_passed : Bool
  pub reproducible_deployment : Bool
  pub blocking_defects : List Defect
  pub open_release_blocking_issues : List ℕ

pub record ReleaseGateResult : Type 0 where
  pub ready : Bool
  pub blockers : List String
  pub version : String

abbrev pub is_severe : Defect → Bool
is_severe defect = elim defect.severity [
  | critical ↦ true
  | high ↦ true
  | medium ↦ false
  | low ↦ false
]

abbrev pub is_allow : MergeGate → Bool
is_allow allow = true
is_allow review = false
is_allow block = false

abbrev pub gate_name : MergeGate → String
gate_name allow = "ALLOW"
gate_name review = "REVIEW"
gate_name block = "BLOCK"

-- `if (blocked) blockers.push(name)`, for one test after the other.
unfoldable pub blockers_of : List (Bool × String) → List String
blockers_of [] = []
blockers_of ((blocked, name) ∷ tests) =
    let rest = blockers_of tests in if blocked then name ∷ rest else rest

abbrev pub release_tests : (ℕ → String) → ReleaseEvidence → List (Bool × String)
release_tests show_number e =
    (not e.branch_protection, "branch-protection")
    ∷ (
      not (is_allow e.semantic_merge_gate),
      "semantic-merge-gate:" <> gate_name e.semantic_merge_gate,
    )
    ∷ (not e.semantic_evidence_fresh, "semantic-evidence-stale")
    ∷ (not e.coverage_passed, "coverage")
    ∷ (not e.mutation_passed, "mutation")
    ∷ (not e.security_passed, "security")
    ∷ (not e.load_stress_passed, "load-stress")
    ∷ (not e.backup_restore_passed, "backup-restore")
    ∷ (not e.e2e_passed, "e2e")
    ∷ (not e.staging_pilot_passed, "staging-pilot")
    ∷ (not e.operator_acceptance_passed, "operator-acceptance")
    ∷ (not e.reproducible_deployment, "deployment-reproducibility")
    ∷ (exists is_severe e.blocking_defects, "blocking-defects")
    ∷ (
      not (is_empty e.open_release_blocking_issues),
      "open-issues:" <> join "," (map show_number e.open_release_blocking_issues),
    )
    ∷ []

unfoldable pub evaluate_final_release : (ℕ → String) → ReleaseEvidence → ReleaseGateResult
evaluate_final_release show_number e =
    let blockers = blockers_of (release_tests show_number e) in
    record { ready = is_empty blockers; blockers = blockers; version = "v1.0.0" }

pub data Assertion : Type 0 where
  returned : ReleaseGateResult → Assertion
  thrown : (message : String) → Assertion

unfoldable pub assert_release_ready : (ℕ → String) → ReleaseEvidence → Assertion
assert_release_ready show_number e =
    let result = evaluate_final_release show_number e in
    if not result.ready
    then thrown ("ReleaseBlocked:" <> join "|" result.blockers)
    else returned result

pub data Risk : Type 0 where
  low_risk medium_risk high_risk critical_risk : Risk

pub record SemanticCiPolicyInput : Type 0 where
  pub risk : Risk
  pub confidence_percent : ℕ
  pub missed_tests : ℕ
  pub unmapped_tests : ℕ
  pub global_impact : Bool

pub record SemanticCiPolicyDecision : Type 0 where
  pub mode : String
  pub run_full_actions : Bool
  pub run_full_architecture : Bool
  pub reason : String

abbrev pub risk_name : Risk → String
risk_name low_risk = "LOW"
risk_name medium_risk = "MEDIUM"
risk_name high_risk = "HIGH"
risk_name critical_risk = "CRITICAL"

abbrev pub is_high : Risk → Bool
is_high low_risk = false
is_high medium_risk = false
is_high high_risk = true
is_high critical_risk = true

abbrev pub full : String → SemanticCiPolicyDecision
full reason = record {
  mode = "full";
  run_full_actions = true;
  run_full_architecture = true;
  reason = reason;
}

unfoldable pub decide_semantic_ci_policy : SemanticCiPolicyInput → SemanticCiPolicyDecision
decide_semantic_ci_policy input =
    if is_high input.risk
    then full ("Risk " <> risk_name input.risk <> " requires full semantic suites.")
    else if input.global_impact
    then full "Global semantic impact requires full semantic suites."
    else if not (nat_eq input.confidence_percent 100) || not (nat_eq input.missed_tests 0)
    then full "Selector confidence is below the 100% recall gate."
    else if not (nat_eq input.unmapped_tests 0)
    then full "Selective test plan contains unmapped tests."
    else record {
      mode = "selective";
      run_full_actions = false;
      run_full_architecture = false;
      reason =
          "Risk "
          <> risk_name input.risk
          <> ", confidence 100%, and complete mapping permit selective-only execution.";
    }
