-- ===== src/Evidence/Plans.antt =====
-- `admission` and `compileEvidencePlan` of runtime/content-addressed-evidence.ts.
pub mod Made
pub mod Admitted
pub mod Counted
use allas_code_blueprint.Prelude.{
  String, ◌<>◌, Bool, true, false, not, ◌&&◌, ◌||◌, Option, none, some, List, [], ◌∷◌, ◌++◌, ℕ, map,
  ltb, leb, ◌==◌, if◌then◌else◌, select, every, includes, is_empty, length, or_else,
}
use allas_code_blueprint.Prelude.Dict.{Dict, get, put}
use allas_code_blueprint.Prelude.Attempt.{Attempt, returned, thrown, ◌>>=◌}
use allas_code_blueprint.Prelude.Sets.{set_of, sort_texts}
use allas_code_blueprint.Graph.{
  Json, text, array, object, Items, nil, item, Fields, end, field, SemanticGraph, error_if,
}
use allas_code_blueprint.Evidence.{
  EvidenceStatus, pass, fail, missing, expired, revoked, Profile, Requirement, Attestation,
  Evidence, Verdict, execute, reuse, reject, Decision, EvidencePlan, Config, is_given,
}
use allas_code_blueprint.Evidence.Requirements.{compile_requirements}
use allas_code_blueprint.Evidence.Requirements.Files.{Platform}
use allas_code_blueprint.Evidence.Requirements.Names.{drop_chars}
use allas_code_blueprint.Evidence.Requirements.Inputs.{load_profiles, optional_text, hash_json}

abbrev pub is_expired : EvidenceStatus → Bool
is_expired expired = true
is_expired status = false

abbrev pub is_revoked : EvidenceStatus → Bool
is_revoked revoked = true
is_revoked status = false

abbrev pub is_not_applicable : EvidenceStatus → Bool
is_not_applicable EvidenceStatus.not_applicable = true
is_not_applicable status = false

abbrev pub is_pass : EvidenceStatus → Bool
is_pass pass = true
is_pass status = false

-- `["pass", "not-applicable"].includes(status)`.
abbrev pub is_admissible : EvidenceStatus → Bool
is_admissible status = is_pass status || is_not_applicable status

abbrev pub is_verified : Option Attestation → Bool
is_verified none = false
is_verified (some a) = a.verified

abbrev pub is_authorized : String → Option Attestation → Bool
is_authorized profile none = false
is_authorized profile (some a) = includes a.authorized_profiles profile

-- `e.expires_at && new Date(e.expires_at) <= now`; a date that does not parse compares false. Dates are
-- milliseconds from 1970 on, and the clock is valid.
abbrev pub is_past : (String → Option ℕ) → ℕ → Option String → Bool
is_past parse_date now none = false
is_past parse_date now (some t) =
    not (t == "") && (elim (parse_date t) [ none ↦ false | some until ↦ leb until now ])

-- The codes that `admission` pushes for a piece of evidence.
unfoldable pub objections : (String → Option ℕ) → ℕ → Profile → Requirement → Evidence → List String
objections parse_date now p r e =
    error_if (not (e.evidence_key == r.evidence_key)) "EVIDENCE_KEY_MISMATCH"
    ++ (error_if
          (not (e.predicate.id == r.predicate.id)
            || not (e.predicate.version == r.predicate.version))
          "EVIDENCE_PREDICATE_VERSION_MISMATCH"
        ++ (error_if (not (e.environment_class == r.environment_class))
              "EVIDENCE_ENVIRONMENT_INCOMPATIBLE"
            ++ (error_if (is_expired e.status || is_past parse_date now e.expires_at)
                  "EVIDENCE_EXPIRED"
                ++ (error_if (is_revoked e.status) "EVIDENCE_REVOKED"
                    ++ (error_if (not (is_admissible e.status)) "EVIDENCE_STATUS_NOT_ADMISSIBLE"
                        ++ (error_if (is_not_applicable e.status && not (is_given e.reason))
                              "EVIDENCE_NOT_APPLICABLE_UNJUSTIFIED"
                            ++ (error_if (not (is_verified e.attestation))
                                  "EVIDENCE_ATTESTATION_INVALID"
                                ++ (error_if (not (is_authorized p.id e.attestation))
                                      "EVIDENCE_PROFILE_UNAUTHORIZED"
                                    ++ error_if (p.reuse == "forbidden")
                                        "EVIDENCE_REUSE_FORBIDDEN"))))))))

unfoldable pub admission :
    (String → Option ℕ) → ℕ → Profile → Requirement → Option Evidence → Decision
admission parse_date now p r none = record {
  requirement_id = r.requirement_id;
  candidate_evidence_id = none;
  decision = execute;
  reason_codes = "EVIDENCE_REQUIREMENT_MISSING" ∷ [];
}
admission parse_date now p r (some e) =
    let x = objections parse_date now p r e in
    record {
      requirement_id = r.requirement_id;
      candidate_evidence_id = some e.evidence_id;
      decision = if is_empty x then reuse else reject;
      reason_codes = x;
    }

abbrev pub is_reuse : Decision → Bool
is_reuse d = elim d.decision [ execute ↦ false | reuse ↦ true | reject ↦ false ]

abbrev pub is_reject : Decision → Bool
is_reject d = elim d.decision [ execute ↦ false | reuse ↦ false | reject ↦ true ]

abbrev pub is_not_reuse : Decision → Bool
is_not_reuse d = not (is_reuse d)

-- `prior`: the later of two pieces of evidence under one key stays.
unfoldable pub prior_of : Dict Evidence → List Evidence → Dict Evidence
prior_of prior [] = prior
prior_of prior (e ∷ evidence) =
    prior_of (put (e.subject_id <> ":" <> e.predicate.id <> ":" <> e.predicate.version) e prior)
      evidence

abbrev pub prior_key : Requirement → String
prior_key r = r.subject.semantic_id <> ":" <> r.predicate.id <> ":" <> r.predicate.version

abbrev pub verdict_name : Verdict → String
verdict_name execute = "execute"
verdict_name reuse = "reuse"
verdict_name reject = "reject"

abbrev pub texts_json : List String → Items
texts_json [] = nil
texts_json (t ∷ ts) = item (text t) (texts_json ts)

abbrev pub decision_json : Decision → Json
decision_json d = object (
    field "requirement_id" (text d.requirement_id) (
      optional_text "candidate_evidence_id" d.candidate_evidence_id (
        field "decision" (text (verdict_name d.decision))
          (field "reason_codes" (array (texts_json d.reason_codes)) end))))

abbrev pub decisions_json : List Decision → Items
decisions_json [] = nil
decisions_json (d ∷ ds) = item (decision_json d) (decisions_json ds)

-- The arguments of `compileEvidencePlan`; an array that is missing is `none`.
pub record PlanArguments : Type 0 where
  pub root : String
  pub graph : SemanticGraph
  pub artifact_id : String
  pub profile_id : String
  pub environment_class : String
  pub changed_artifacts : Option (List String)
  pub seed_nodes : Option (List String)
  pub impacted_nodes : Option (List String)
  pub prior_evidence : Option (List Evidence)
  pub now : ℕ

abbrev pub requirement_ids : List Requirement → List String
requirement_ids = map (λ (r : Requirement). r.requirement_id)

-- `stable`, of which the plan's identifier is the hash.
unfoldable pub plan_json : PlanArguments → List Requirement → List Decision → Json
plan_json args requirements decisions = object (
    field "artifact_id" (text args.artifact_id) (
      field "profile" (text args.profile_id) (
        field "environment_class" (text args.environment_class) (
          field "changed_artifacts"
            (array (texts_json (sort_texts (or_else args.changed_artifacts []))))
            (field "seed_nodes" (array (texts_json (sort_texts (or_else args.seed_nodes [])))) (
              field "impacted_nodes"
                (array (texts_json (sort_texts (or_else args.impacted_nodes []))))
                (field "requirement_ids" (array (texts_json (requirement_ids requirements)))
                  (field "decisions" (array (decisions_json decisions)) end))))))))

-- The requirements that the plan is about.
unfoldable pub planned : Profile → List String → List Requirement → List Requirement
planned p impacted all =
    if (p.scope == "complete-evidence-closure") || is_empty (set_of impacted)
    then all
    else select (λ (r : Requirement). includes (set_of impacted) r.subject.node_id) all

unfoldable pub make_plan :
    (plan_id : String) → PlanArguments → List Requirement → List Decision → EvidencePlan
make_plan plan_id args requirements decisions = record {
  plan_id = plan_id;
  artifact_id = args.artifact_id;
  profile = args.profile_id;
  environment_class = args.environment_class;
  changed_artifacts = sort_texts (or_else args.changed_artifacts []);
  seed_nodes = sort_texts (or_else args.seed_nodes []);
  impacted_nodes = sort_texts (or_else args.impacted_nodes []);
  requirements = requirements;
  decisions = decisions;
  closure = record {
    required_count = length requirements;
    reusable_count = length (select is_reuse decisions);
    execute_count = length (select is_not_reuse decisions);
    rejected_count = length (select is_reject decisions);
    complete = ltb 0 (length requirements) && every is_reuse decisions;
  };
}

module _ (platform : Platform) where
  unfoldable pub decide : PlanArguments → Profile → Requirement → Decision
  decide args p r =
      admission platform.parse_date args.now p r
        (get (prior_key r) (prior_of [] (or_else args.prior_evidence [])))

  -- From the requirements to the plan.
  unfoldable pub plan_from : PlanArguments → Profile → List Requirement → Attempt EvidencePlan
  plan_from args p all =
      let requirements = planned p (or_else args.impacted_nodes []) all in
      let decisions = map (decide args p) requirements in
      do
        digest ← hash_json platform (plan_json args requirements decisions)
        returned (make_plan ("eplan:" <> drop_chars 7 digest) args requirements decisions)

  unfoldable pub compile_evidence_plan : Config → PlanArguments → Attempt EvidencePlan
  compile_evidence_plan config args = elim (get args.profile_id (load_profiles config.profiles)) [
    | none ↦ thrown ("unknown profile " <> args.profile_id)
    | some p ↦ do
      all ←
          compile_requirements platform args.root args.graph config args.profile_id
            args.environment_class
      plan_from args p all
  ]
