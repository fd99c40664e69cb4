-- ===== src/Evidence/Passports.antt =====
-- `emitPassport` of runtime/content-addressed-evidence.ts. `generated_at` is the caller's or the clock's.
-- A piece of evidence without an attestation makes `e.attestation.verified` throw.
pub mod Proven
use allas_code_blueprint.Prelude.{
  String, ◌<>◌, Bool, true, false, not, ◌&&◌, ◌||◌, Option, none, some, List, [], ◌∷◌, ℕ, ◌==◌,
  if◌then◌else◌, select, length,
}
use allas_code_blueprint.Prelude.Int.{pos}
use allas_code_blueprint.Prelude.Dict.{Dict, get, put}
use allas_code_blueprint.Prelude.Attempt.{Attempt, returned, thrown, ◌>>=◌}
use allas_code_blueprint.Prelude.Sets.{sort}
use allas_code_blueprint.Graph.{
  Json, text, flag, number, array, object, Items, nil, item, Fields, end, field,
}
use allas_code_blueprint.Evidence.{
  Profile, Predicate, Requirement, Attestation, Evidence, EvidencePlan, category_name, status_name,
}
use allas_code_blueprint.Evidence.Requirements.Files.{Platform}
use allas_code_blueprint.Evidence.Requirements.Names.{drop_chars}
use allas_code_blueprint.Evidence.Requirements.Inputs.{optional_text, hash_json}
use allas_code_blueprint.Evidence.Plans.{
  is_admissible, is_reuse, is_reject, is_not_reuse, texts_json,
}

pub record PassportArguments : Type 0 where
  pub artifact_id : String
  pub artifact_digest : String
  pub source_commit : String
  pub source_tree : String
  pub profile : Profile
  pub plan : EvidencePlan
  pub evidence : List Evidence
  pub generated_at : String

pub record PassportClosure : Type 0 where
  pub required : ℕ
  pub executed : ℕ
  pub reused : ℕ
  pub rejected : ℕ
  pub complete : Bool

pub record Passport : Type 0 where
  pub passport_id : String
  pub artifact : String × String
  pub subject_revision : String × String
  pub qualification_profile : String × String
  pub closure : PassportClosure
  pub evidence : List Evidence
  pub generated_at : String

-- `by`: the evidence under the requirement that it is for, the later one staying.
unfoldable pub evidence_by : Dict Evidence → List Evidence → Dict Evidence
evidence_by found [] = found
evidence_by found (e ∷ evidence) = evidence_by (put e.requirement_id e found) evidence

-- The body of the loop over the requirements.
unfoldable pub proof_of : Dict Evidence → Requirement → Attempt Evidence
proof_of found r = elim (get r.requirement_id found) [
  | none ↦ thrown ("EVIDENCE_CLOSURE_INCOMPLETE: " <> r.requirement_id)
  | some e ↦
      let conflict : Attempt Evidence =
        thrown ("EVIDENCE_REQUIREMENT_CONFLICT: " <> r.requirement_id) in
      if not (e.evidence_key == r.evidence_key) || not (is_admissible e.status)
      then conflict
      else elim e.attestation [
        | none ↦ thrown "TypeError"
        | some a ↦ if a.verified then returned e else conflict
      ]
]

-- The loop, and the evidence for each requirement.
unfoldable pub proofs_of : Dict Evidence → List Requirement → Attempt (List Evidence)
proofs_of found [] = returned []
proofs_of found (r ∷ rs) =
    let rest = proofs_of found rs in do e ← proof_of found r; others ← rest; returned (e ∷ others)

abbrev pub predicate_json : Predicate → Json
predicate_json p = object (
    field "id" (text p.id)
      (field "version" (text p.version) (field "category" (text (category_name p.category)) end)))

abbrev pub attestation_json : Attestation → Json
attestation_json a = object (
    field "format" (text a.format) (
      field "verified" (flag a.verified) (
        field "producer_id" (text a.producer_id) (
          field "trust_class" (text a.trust_class) (
            field "authorized_profiles" (array (texts_json a.authorized_profiles))
              (field "envelope_digest" (text a.envelope_digest) end))))))

abbrev pub optional_json : String → Option Json → Fields → Fields
optional_json key none fields = fields
optional_json key (some v) fields = field key v fields

abbrev pub attested : Option Attestation → Option Json
attested none = none
attested (some a) = some (attestation_json a)

abbrev pub producer_json : Evidence → Json
producer_json e =
    object (field "id" (text e.producer_id) (field "trust_class" (text e.trust_class) end))

unfoldable pub evidence_json : Evidence → Json
evidence_json e = object (
    field "schema_version" (text "allascode.evidence/v1") (
      field "evidence_id" (text e.evidence_id) (
        field "evidence_key" (text e.evidence_key) (
          field "requirement_id" (text e.requirement_id) (
            field "subject_id" (text e.subject_id) (
              field "predicate" (predicate_json e.predicate) (
                field "status" (text (status_name e.status)) (
                  optional_text "reason" e.reason (
                    field "producer" (producer_json e) (
                      field "profile" (text e.profile) (
                        field "environment_class" (text e.environment_class) (
                          field "input_manifest_digest" (text e.input_manifest_digest) (
                            field "result_digest" (text e.result_digest) (
                              optional_text "expires_at" e.expires_at (
                                optional_json "attestation" (attested e.attestation)
                                  end)))))))))))))))

unfoldable pub evidences_json : List Evidence → Items
unfolding evidence_json
evidences_json [] = nil
evidences_json (e ∷ es) = item (evidence_json e) (evidences_json es)

abbrev pub pair_json : (first : String) → String → (second : String) → String → Json
pair_json first a second b = object (field first (text a) (field second (text b) end))

abbrev pub closure_json : PassportClosure → Json
closure_json c = object (
    field "required" (number (pos c.required)) (
      field "executed" (number (pos c.executed)) (
        field "reused" (number (pos c.reused))
          (field "rejected" (number (pos c.rejected)) (field "complete" (flag c.complete) end)))))

unfoldable pub passport_json : PassportArguments → PassportClosure → List Evidence → Json
unfolding evidences_json
passport_json args closure evidence = object (
    field "artifact" (pair_json "id" args.artifact_id "digest" args.artifact_digest) (
      field "subject_revision"
        (pair_json "source_commit" args.source_commit "source_tree" args.source_tree)
        (field "qualification_profile"
          (pair_json "id" args.profile.id "version" args.profile.version)
          (field "closure" (closure_json closure)
            (field "evidence" (array (evidences_json evidence)) end)))))

abbrev pub passport_closure : EvidencePlan → List Evidence → PassportClosure
passport_closure plan evidence = record {
  required = length evidence;
  executed = length (select is_not_reuse plan.decisions);
  reused = length (select is_reuse plan.decisions);
  rejected = length (select is_reject plan.decisions);
  complete = true;
}

unfoldable pub passport_with :
    PassportArguments → List Evidence → (digest : String) → Attempt Passport
unfolding drop_chars
passport_with args evidence digest = returned (record {
  passport_id = "ep:" <> drop_chars 7 digest;
  artifact = (args.artifact_id, args.artifact_digest);
  subject_revision = (args.source_commit, args.source_tree);
  qualification_profile = (args.profile.id, args.profile.version);
  closure = passport_closure args.plan evidence;
  evidence = evidence;
  generated_at = args.generated_at;
})

module _ (platform : Platform) where
  abbrev pub evidence_before : Evidence → Evidence → Bool
  evidence_before a b = platform.printing.before a.requirement_id b.requirement_id

  -- From the sorted evidence to the passport.
  unfoldable pub passport_of : PassportArguments → List Evidence → Attempt Passport
  passport_of args evidence =
      hash_json platform (passport_json args (passport_closure args.plan evidence) evidence)
      >>= passport_with args evidence

  unfoldable pub emit_passport : PassportArguments → Attempt Passport
  emit_passport args = do
    proofs ← proofs_of (evidence_by [] args.evidence) args.plan.requirements
    passport_of args (sort evidence_before proofs)
