-- ===== src/Release/Gate.antt =====
-- What a release that is ready has.
use allas_code_blueprint.Prelude.{
  String, ◌≡◌, refl, Bool, true, false, not, Bool-cases, inl, inr, List, [], ◌∷◌, ℕ, exists,
  is_empty, arith,
}
use allas_code_blueprint.Release.{
  ReleaseEvidence, ReleaseGateResult, is_severe, is_allow, blockers_of, release_tests,
  evaluate_final_release, returned, assert_release_ready,
}

-- No test of the list blocks.
abbrev pub NoneBlocks : List (Bool × String) → Type 0
NoneBlocks [] = Unit
NoneBlocks ((blocked, name) ∷ tests) = (blocked ≡ false) × NoneBlocks tests

abbrev pub IsReleasable : ReleaseEvidence → Type 0
IsReleasable e =
    (e.branch_protection ≡ true)
    × (is_allow e.semantic_merge_gate ≡ true)
    × (e.semantic_evidence_fresh ≡ true)
    × (e.coverage_passed ≡ true)
    × (e.mutation_passed ≡ true)
    × (e.security_passed ≡ true)
    × (e.load_stress_passed ≡ true)
    × (e.backup_restore_passed ≡ true)
    × (e.e2e_passed ≡ true)
    × (e.staging_pilot_passed ≡ true)
    × (e.operator_acceptance_passed ≡ true)
    × (e.reproducible_deployment ≡ true)
    × (exists is_severe e.blocking_defects ≡ false)
    × (is_empty e.open_release_blocking_issues ≡ true)

blockers_of-NoneBlocks :
    (tests : List (Bool × String)) → is_empty (blockers_of tests) ≡ true → NoneBlocks tests
unfolding blockers_of
blockers_of-NoneBlocks [] empty = tt
blockers_of-NoneBlocks ((true, name) ∷ tests) empty = ground arith
blockers_of-NoneBlocks ((false, name) ∷ tests) empty = (refl, blockers_of-NoneBlocks tests empty)

not-false : (b : Bool) → not b ≡ false → b ≡ true
not-false true h = refl
not-false false h = ground arith

ready-empty :
    (show_number : ℕ → String) (e : ReleaseEvidence) (result : ReleaseGateResult)
    → assert_release_ready show_number e ≡ returned result
    → (is_empty (blockers_of (release_tests show_number e)) ≡ true)
      × (evaluate_final_release show_number e ≡ result)
unfolding assert_release_ready evaluate_final_release
ready-empty show_number e result done =
    elim (Bool-cases (is_empty (blockers_of (release_tests show_number e)))) [
      | inr blocked ↦ ground arith
      | inl empty ↦ (empty, ground arith)
    ]

-- When assertReleaseReady returns, it returns what evaluateFinalRelease answers, and the evidence has
-- everything: the branch is protected, the merge gate allows, the semantic evidence is fresh, every
-- one of the nine checks has passed, no defect is critical or high, and no issue that blocks the
-- release is open.
pub assert_release_ready-IsReleasable :
    (show_number : ℕ → String) (e : ReleaseEvidence) (result : ReleaseGateResult)
    → assert_release_ready show_number e ≡ returned result
    → (evaluate_final_release show_number e ≡ result) × IsReleasable e
assert_release_ready-IsReleasable show_number e result done =
    let (empty, same) = ready-empty show_number e result done in
    let (a, (b, (c, (d, (f, (g, (h, (i, (j, (k, (l, (m, (n, (o, _)))))))))))))) =
      blockers_of-NoneBlocks (release_tests show_number e) empty in
    (
      same,
      (
        not-false _ a,
        not-false _ b,
        not-false _ c,
        not-false _ d,
        not-false _ f,
        not-false _ g,
        not-false _ h,
        not-false _ i,
        not-false _ j,
        not-false _ k,
        not-false _ l,
        not-false _ m,
        n,
        not-false _ o,
      ),
    )
