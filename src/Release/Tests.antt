-- ===== src/Release/Tests.antt =====
-- A release that is ready, and the theorem at its input.
use allas_code_blueprint.Prelude.{◌≡◌, refl, true, [], ◌∷◌}
use allas_code_blueprint.Release.{
  allow, medium, ReleaseEvidence, ReleaseGateResult, blockers_of, evaluate_final_release,
  assert_release_ready,
}
use allas_code_blueprint.Release.Gate.{IsReleasable, assert_release_ready-IsReleasable}

program : Unit {0}
unfolding blockers_of evaluate_final_release assert_release_ready
program = tt

abbrev evidence : ReleaseEvidence
evidence = record {
  branch_protection = true;
  semantic_merge_gate = allow;
  semantic_evidence_fresh = true;
  coverage_passed = true;
  mutation_passed = true;
  security_passed = true;
  load_stress_passed = true;
  backup_restore_passed = true;
  e2e_passed = true;
  staging_pilot_passed = true;
  operator_acceptance_passed = true;
  reproducible_deployment = true;
  blocking_defects = record { severity = medium; id = "d1" } ∷ [];
  open_release_blocking_issues = [];
}

abbrev verdict : ReleaseGateResult
verdict = record { ready = true; blockers = []; version = "v1.0.0" }

assert_release_ready-IsReleasable_example :
    (evaluate_final_release (λ n. "1") evidence ≡ verdict) × IsReleasable evidence
unfolding program
assert_release_ready-IsReleasable_example =
    assert_release_ready-IsReleasable (λ n. "1") evidence verdict refl
