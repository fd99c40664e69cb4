-- ===== src/Evidence.antt =====
-- runtime/content-addressed-evidence.ts: its data. Versions, hashes and categories of a predicate are
-- texts; the constants of `schema_version` and `kind` are left out where nothing reads them. A
-- missing text is `none`, and an empty one counts as missing where the source tests it.
pub mod Canonical
pub mod Closures
pub mod Requirements
pub mod Plans
pub mod Passports
pub mod Enriched
mod Tests
use allas_code_blueprint.Prelude.{
  String, Bool, true, false, Option, none, some, List, ℕ, ◌==◌, if◌then◌else◌,
}
use allas_code_blueprint.Prelude.Dict.{Dict}

pub data Category : Type 0 where
  unit integration e2e security benchmark load stress chaos : Category

pub data EvidenceStatus : Type 0 where
  pass fail not_applicable missing expired revoked : EvidenceStatus

pub record Profile : Type 0 where
  pub id : String
  pub version : String
  pub owner : String
  pub categories : List Category
  pub scope : String
  pub reuse : String

pub data Disposition : Type 0 where
  required characterize not_applicable : Disposition

pub record Subject : Type 0 where
  pub semantic_id : String
  pub node_id : String

pub record Predicate : Type 0 where
  pub id : String
  pub version : String
  pub category : Category

pub record SemanticInput : Type 0 where
  pub node_id : String
  pub digest : String

pub record ExecutionInput : Type 0 where
  pub path : String
  pub digest : String

pub record Requirement : Type 0 where
  pub requirement_id : String
  pub subject : Subject
  pub predicate : Predicate
  pub profile : String
  pub ownership : String
  pub disposition : Disposition
  pub semantic_inputs : List SemanticInput
  pub execution_inputs : List ExecutionInput
  pub environment_class : String
  pub input_manifest_digest : String
  pub evidence_key : String

pub record Attestation : Type 0 where
  pub format : String
  pub verified : Bool
  pub producer_id : String
  pub trust_class : String
  pub authorized_profiles : List String
  pub envelope_digest : String

pub record Evidence : Type 0 where
  pub evidence_id : String
  pub evidence_key : String
  pub requirement_id : String
  pub subject_id : String
  pub predicate : Predicate
  pub status : EvidenceStatus
  pub reason : Option String
  pub producer_id : String
  pub trust_class : String
  pub profile : String
  pub environment_class : String
  pub input_manifest_digest : String
  pub result_digest : String
  pub expires_at : Option String
  pub attestation : Option Attestation

pub data Verdict : Type 0 where
  execute reuse reject : Verdict

pub record Decision : Type 0 where
  pub requirement_id : String
  pub candidate_evidence_id : Option String
  pub decision : Verdict
  pub reason_codes : List String

pub record Closure : Type 0 where
  pub required_count : ℕ
  pub reusable_count : ℕ
  pub execute_count : ℕ
  pub rejected_count : ℕ
  pub complete : Bool

pub record EvidencePlan : Type 0 where
  pub plan_id : String
  pub artifact_id : String
  pub profile : String
  pub environment_class : String
  pub changed_artifacts : List String
  pub seed_nodes : List String
  pub impacted_nodes : List String
  pub requirements : List Requirement
  pub decisions : List Decision
  pub closure : Closure

-- One of `predicates`; `disposition` is never `not_applicable`.
pub record BasePredicate : Type 0 where
  pub id : String
  pub version : String
  pub disposition : Disposition

pub record SharedInput : Type 0 where
  pub path : String
  pub categories : List Category

-- `evidence/profiles.yml`; a profile without its name is one with the name "".
pub record Config : Type 0 where
  pub predicates : Category → Option BasePredicate
  pub profiles : Dict Profile
  pub shared_inputs : Option (List SharedInput)

pub record Validation : Type 0 where
  pub disposition : Disposition
  pub predicate : Option String
  pub reason : Option String

pub record Manifest : Type 0 where
  pub name : String
  pub semantic_id : String
  pub validation : Category → Option Validation

abbrev pub category_name : Category → String
category_name unit = "unit"
category_name integration = "integration"
category_name e2e = "e2e"
category_name security = "security"
category_name benchmark = "benchmark"
category_name load = "load"
category_name stress = "stress"
category_name chaos = "chaos"

abbrev pub status_name : EvidenceStatus → String
status_name pass = "pass"
status_name fail = "fail"
status_name not_applicable = "not-applicable"
status_name missing = "missing"
status_name expired = "expired"
status_name revoked = "revoked"

-- `if (text)` for a text that may be missing.
abbrev pub is_given : Option String → Bool
is_given none = false
is_given (some t) = if t == "" then false else true
