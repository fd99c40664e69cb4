-- ===== src/Evidence/Plans/Made.antt =====
-- A plan and the requirements that were compiled for it.
use allas_code_blueprint.Prelude.{
  String, ◌<>◌, ◌≡◌, sym, some, List, [], map, or_else, arith, inl, inr, Option-cases,
}
use allas_code_blueprint.Prelude.Dict.{get}
use allas_code_blueprint.Prelude.Attempt.{returned, >>=-eq-returned, returned_inj}
use allas_code_blueprint.Evidence.{Profile, Requirement, EvidencePlan, Config}
use allas_code_blueprint.Evidence.Requirements.{compile_requirements}
use allas_code_blueprint.Evidence.Requirements.Files.{Platform}
use allas_code_blueprint.Evidence.Requirements.Inputs.{load_profiles, hash_json}
use allas_code_blueprint.Evidence.Requirements.Names.{drop_chars}
use allas_code_blueprint.Evidence.Plans.{
  PlanArguments, plan_json, planned, make_plan, decide, plan_from, compile_evidence_plan,
}

-- The parts of a plan.
pub record IsMade (platform : Platform) (config : Config) (args : PlanArguments)
    (plan : EvidencePlan) : Type 0 where
  pub profile : Profile
  pub known : get args.profile_id (load_profiles config.profiles) ≡ some profile
  pub all : List Requirement
  pub compiled :
      compile_requirements platform args.root args.graph config args.profile_id
        args.environment_class
      ≡ returned all
  pub id : String
  pub is :
      let requirements = planned profile (or_else args.impacted_nodes []) all in
      plan ≡ make_plan id args requirements (map (decide platform args profile) requirements)

plan_from-eq :
    (platform : Platform) (args : PlanArguments) (p : Profile) (all : List Requirement)
    (plan : EvidencePlan)
    → plan_from platform args p all ≡ returned plan
    → (id : String) × (plan
        ≡ make_plan id args
            (planned p (or_else args.impacted_nodes []) all)
            (map (decide platform args p) (planned p (or_else args.impacted_nodes []) all)))
unfolding plan_from
plan_from-eq platform args p all plan done =
    let requirements = planned p (or_else args.impacted_nodes []) all in
    let decisions = map (decide platform args p) requirements in
    let (digest, hashed, e) =
      >>=-eq-returned (hash_json platform (plan_json args requirements decisions))
        (λ d. returned (make_plan ("eplan:" <> drop_chars 7 d) args requirements decisions)) done in
    ("eplan:" <> drop_chars 7 digest, sym (returned_inj _ _ e))

pub compile_evidence_plan-IsMade :
    (platform : Platform) (config : Config) (args : PlanArguments) (plan : EvidencePlan)
    → compile_evidence_plan platform config args ≡ returned plan
    → IsMade platform config args plan
unfolding compile_evidence_plan
compile_evidence_plan-IsMade platform config args plan done =
    elim (Option-cases (get args.profile_id (load_profiles config.profiles))) [
      | inl unknown ↦ absurd (ground arith)
      | inr (p, known) ↦
          let (all, compiled, more) =
            >>=-eq-returned
              (compile_requirements platform args.root args.graph config args.profile_id
                args.environment_class)
              (plan_from platform args p) (rw (known, compile_evidence_plan) at done) in
          let (id, is) = plan_from-eq platform args p all plan more in
          record { profile = p; known = known; all = all; compiled = compiled; id = id; is = is }
    ]
