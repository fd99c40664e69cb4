-- ===== src/Evidence/Plans/Counted.antt =====
-- The numbers in the closure of a plan.
use allas_code_blueprint.Prelude.{
  ◌≡◌, refl, sym, subst, Bool, true, List, [], ◌∷◌, ◌+◌, ◌≤◌, ◌<◌, map, arith, length, select,
  every, or_else, ◌↔◌, includes, String,
}
use allas_code_blueprint.Prelude.Attempt.{returned}
use allas_code_blueprint.Prelude.Sets.{set_of}
use allas_code_blueprint.Evidence.{Profile, Requirement, Decision, EvidencePlan, Config}
use allas_code_blueprint.Evidence.Requirements.{compile_requirements}
use allas_code_blueprint.Evidence.Requirements.Files.{Platform}
use allas_code_blueprint.Evidence.Plans.{
  is_reuse, is_reject, is_not_reuse, PlanArguments, planned, make_plan, decide,
  compile_evidence_plan,
}
use allas_code_blueprint.Evidence.Plans.Made.{compile_evidence_plan-IsMade}

parts_add :
    (ds : List Decision) → length (select is_reuse ds) + length (select is_not_reuse ds) ≡ length ds
parts_add [] = omega arith
parts_add (d ∷ ds) = ground (arith, parts_add ds)

rejected-le : (ds : List Decision) → length (select is_reject ds) ≤ length (select is_not_reuse ds)
rejected-le [] = omega arith
rejected-le (d ∷ ds) = ground (arith, rejected-le ds)

every-eq : (ds : List Decision) → (every is_reuse ds ≡ true) ↔ (length (select is_not_reuse ds) ≡ 0)
every-eq [] = (λ h. refl, λ h. refl)
every-eq (d ∷ ds) = ground (arith, every-eq ds)

length-map_decide :
    (f : Requirement → Decision) (rs : List Requirement) → length (map f rs) ≡ length rs
length-map_decide f [] = refl
length-map_decide f (r ∷ rs) = omega (arith, length-map_decide f rs)

length-select-le {ℓ} :
    {A : Type ℓ} (test : A → Bool) (xs : List A) → length (select test xs) ≤ length xs
length-select-le test [] = omega arith
length-select-le test (x ∷ xs) = ground (arith, length-select-le test xs)

planned-le :
    (p : Profile) (impacted : List String) (all : List Requirement)
    → length (planned p impacted all) ≤ length all
unfolding planned
planned-le p impacted all = ground (
  arith,
  length-select-le (λ (r : Requirement). includes (set_of impacted) r.subject.node_id) all,
)

abbrev pub IsCounted : EvidencePlan → Type 0
IsCounted plan =
    (length plan.decisions ≡ length plan.requirements)
    × (plan.closure.required_count ≡ length plan.requirements)
    × (plan.closure.reusable_count + plan.closure.execute_count ≡ plan.closure.required_count)
    × (plan.closure.rejected_count ≤ plan.closure.execute_count)
    × ((plan.closure.complete ≡ true)
        ↔ ((0 < plan.closure.required_count) × (plan.closure.execute_count ≡ 0)))

make_plan-IsCounted :
    (platform : Platform) (args : PlanArguments) (p : Profile) (id : String) (rs : List Requirement)
    → IsCounted (make_plan id args rs (map (decide platform args p) rs))
unfolding make_plan
make_plan-IsCounted platform args p id rs =
    let ds = map (decide platform args p) rs in
    let same = length-map_decide (decide platform args p) rs in
    let add_up = parts_add ds in
    (same, refl, omega arith, rejected-le ds, ground (arith, every-eq ds))

-- In a plan that compileEvidencePlan returns every requirement has one decision, the requirements that
-- are reused and those that are to be executed add up to all, the rejected ones are among the latter,
-- and the plan is complete exactly when it has a requirement and nothing is left to execute; it has at
-- most the requirements that compileRequirements gives.
pub compile_evidence_plan-IsCounted :
    (platform : Platform) (config : Config) (args : PlanArguments) (plan : EvidencePlan)
    → compile_evidence_plan platform config args ≡ returned plan
    → IsCounted plan
      × ((all : List Requirement) × (compile_requirements platform args.root args.graph config
              args.profile_id args.environment_class
            ≡ returned all)
          × (length plan.requirements ≤ length all))
unfolding make_plan
compile_evidence_plan-IsCounted platform config args plan done =
    let made = compile_evidence_plan-IsMade platform config args plan done in
    let rs = planned made.profile (or_else args.impacted_nodes []) made.all in
    (
      subst IsCounted (sym made.is) (make_plan-IsCounted platform args made.profile made.id rs),
      (
        made.all,
        made.compiled,
        subst (λ q. length q.requirements ≤ length made.all) (sym made.is)
            (planned-le made.profile (or_else args.impacted_nodes []) made.all),
      ),
    )
