-- ===== src/Evidence/Plans/Admitted.antt =====
-- Which evidence a plan reuses.
use mathlib.Core.List.{Memᴰ}
use text.Mathlib.TextLemmas.{append_cancel_right}
use allas_code_blueprint.Prelude.{
  String, ◌<>◌, ◌≡◌, refl, sym, subst, ap, ◌∙◌, Bool, true, false, not, ◌&&◌, ◌||◌, Option, none,
  some, List, [], ◌∷◌, ℕ, ltb, map, arith, ◌==◌, eq_iff, every, is_empty, or_else, length, ◌⊎◌, inl,
  inr, ◌↔◌, Bool-cases, Option-cases, All, ◌<◌, ltb→lt,
}
use allas_code_blueprint.Prelude.Dict.{Dict, get, put, get-put}
use allas_code_blueprint.Prelude.Attempt.{returned}
use allas_code_blueprint.Evidence.Plans.Made.{compile_evidence_plan-IsMade}
use allas_code_blueprint.Graph.{error_if}
use allas_code_blueprint.Graph.Checked.{append_empty, error_if_empty}
use allas_code_blueprint.Evidence.{
  EvidenceStatus, pass, Profile, Requirement, Attestation, Evidence, execute, reuse, reject,
  EvidencePlan, Config, is_given,
}
use allas_code_blueprint.Evidence.Requirements.Files.{Platform}
use allas_code_blueprint.Evidence.Requirements.Inputs.{load_profiles}
use allas_code_blueprint.Evidence.Plans.{
  is_expired, is_revoked, is_not_applicable, is_admissible, is_verified, is_authorized, is_past,
  objections, admission, is_reuse, prior_of, prior_key, PlanArguments, planned, make_plan, decide,
  compile_evidence_plan,
}

is_empty-eq : (xs : List String) → is_empty xs ≡ true → xs ≡ []
is_empty-eq [] h = refl
is_empty-eq (x ∷ xs) h = cc

-- What makes a status good: it is a pass, or not applicable for a given reason.
abbrev pub IsGood : EvidenceStatus → Option String → Type 0
IsGood status reason =
    (status ≡ pass) ⊎ (status ≡ EvidenceStatus.not_applicable) × (is_given reason ≡ true)

abbrev pub IsAdmissible : (String → Option ℕ) → ℕ → Profile → Requirement → Evidence → Type 0
IsAdmissible parse_date now p r e =
    (e.evidence_key ≡ r.evidence_key)
    × (e.predicate.id ≡ r.predicate.id)
    × (e.predicate.version ≡ r.predicate.version)
    × (e.environment_class ≡ r.environment_class)
    × (is_past parse_date now e.expires_at ≡ false)
    × IsGood e.status e.reason
    × (is_verified e.attestation ≡ true)
    × (is_authorized p.id e.attestation ≡ true)
    × ((p.reuse == "forbidden") ≡ false)

tests-IsGood :
    (status : EvidenceStatus) (reason : Option String)
    → not (is_admissible status) ≡ false
    → (is_not_applicable status && not (is_given reason)) ≡ false
    → IsGood status reason
tests-IsGood pass reason a n = inl refl
tests-IsGood EvidenceStatus.fail reason a n = cc
tests-IsGood EvidenceStatus.not_applicable reason a n = inr (refl, ground arith)
tests-IsGood EvidenceStatus.missing reason a n = cc
tests-IsGood EvidenceStatus.expired reason a n = cc
tests-IsGood EvidenceStatus.revoked reason a n = cc

not-false : (b : Bool) → not b ≡ false → b ≡ true
not-false b h = ground arith

objections-IsAdmissible :
    (parse_date : String → Option ℕ) (now : ℕ) (p : Profile) (r : Requirement) (e : Evidence)
    → objections parse_date now p r e ≡ []
    → IsAdmissible parse_date now p r e
unfolding objections
objections-IsAdmissible parse_date now p r e none_left =
    let (key, a) = append_empty (error_if (not (e.evidence_key == r.evidence_key)) _) _ none_left in
    let (predicate, b) =
      append_empty
        (error_if
          (not (e.predicate.id == r.predicate.id)
            || not (e.predicate.version == r.predicate.version))
          _)
        _ a in
    let (environment, c) =
      append_empty (error_if (not (e.environment_class == r.environment_class)) _) _ b in
    let (expiry, d) =
      append_empty (error_if (is_expired e.status || is_past parse_date now e.expires_at) _) _ c in
    let (revocation, f) = append_empty (error_if (is_revoked e.status) _) _ d in
    let (status, g) = append_empty (error_if (not (is_admissible e.status)) _) _ f in
    let (reason, h) =
      append_empty (error_if (is_not_applicable e.status && not (is_given e.reason)) _) _ g in
    let (attested, i) = append_empty (error_if (not (is_verified e.attestation)) _) _ h in
    let (profile, j) = append_empty (error_if (not (is_authorized p.id e.attestation)) _) _ i in
    let key' = error_if_empty _ _ key in
    let predicate' = error_if_empty _ _ predicate in
    let environment' = error_if_empty _ _ environment in
    let expiry' = error_if_empty _ _ expiry in
    (
      ground (arith, eq_iff e.evidence_key r.evidence_key),
      ground (arith, eq_iff e.predicate.id r.predicate.id),
      ground (arith, eq_iff e.predicate.version r.predicate.version),
      ground (arith, eq_iff e.environment_class r.environment_class),
      ground arith,
      tests-IsGood e.status e.reason (error_if_empty _ _ status) (error_if_empty _ _ reason),
      not-false _ (error_if_empty _ _ attested),
      not-false _ (error_if_empty _ _ profile),
      error_if_empty _ _ j,
    )

tests_of_IsGood :
    (status : EvidenceStatus) (reason : Option String)
    → IsGood status reason
    → (is_expired status ≡ false)
      × (is_revoked status ≡ false)
      × (not (is_admissible status) ≡ false)
      × ((is_not_applicable status && not (is_given reason)) ≡ false)
tests_of_IsGood pass reason good = (refl, refl, refl, refl)
tests_of_IsGood EvidenceStatus.not_applicable reason (inl e) = cc
tests_of_IsGood EvidenceStatus.not_applicable reason (inr (e, given)) =
    (refl, refl, refl, ground arith)
tests_of_IsGood EvidenceStatus.fail reason good = ground arith
tests_of_IsGood EvidenceStatus.missing reason good = ground arith
tests_of_IsGood EvidenceStatus.expired reason good = ground arith
tests_of_IsGood EvidenceStatus.revoked reason good = ground arith

IsAdmissible-objections :
    (parse_date : String → Option ℕ) (now : ℕ) (p : Profile) (r : Requirement) (e : Evidence)
    → IsAdmissible parse_date now p r e
    → objections parse_date now p r e ≡ []
unfolding objections
IsAdmissible-objections parse_date now p r e
      (key, id, version, environment, date, good, verified, authorized, allowed) =
    let (a, b, c, d) = tests_of_IsGood e.status e.reason good in
    let key' = (eq_iff e.evidence_key r.evidence_key).1 key in
    let id' = (eq_iff e.predicate.id r.predicate.id).1 id in
    let version' = (eq_iff e.predicate.version r.predicate.version).1 version in
    let environment' = (eq_iff e.environment_class r.environment_class).1 environment in
    rw (key', id', version', environment', a, b, c, d, date, verified, authorized, allowed) refl

-- The evidence with other trust classes.
abbrev attested_with : String → Option Attestation → Option Attestation
attested_with trust none = none
attested_with trust (some a) = some (record a { trust_class = trust })

abbrev pub with_trust : String → Evidence → Evidence
with_trust trust e = record e {
  trust_class = trust;
  attestation = attested_with trust e.attestation;
}

objections-with_trust :
    (parse_date : String → Option ℕ) (now : ℕ) (p : Profile) (r : Requirement) (e : Evidence)
    (trust : String)
    → objections parse_date now p r (with_trust trust e) ≡ objections parse_date now p r e
unfolding objections
objections-with_trust parse_date now p r e trust = elim (Option-cases e.attestation) [
  | inl missing ↦ rw missing refl
  | inr (a, there) ↦ rw there refl
]

-- admission decides to reuse a piece of evidence exactly when it has the requirement's key, predicate,
-- version and environment, its date has not passed, its status is a pass (or not applicable for a
-- given reason), its attestation is verified and authorizes the profile, and the profile does not
-- forbid reuse; what it cannot reuse it rejects, and without evidence the requirement is executed. The
-- trust classes of producer and attestation do not count: with any other the decision is the same.
pub admission-IsAdmissible :
    (parse_date : String → Option ℕ) (now : ℕ) (p : Profile) (r : Requirement) (e : Evidence)
    (trust : String)
    → (((admission parse_date now p r (some e)).decision ≡ reuse)
        ↔ IsAdmissible parse_date now p r e)
      × (((admission parse_date now p r (some e)).decision ≡ reject)
          ↔ (¬ IsAdmissible parse_date now p r e))
      × ((admission parse_date now p r none).decision ≡ execute)
      × (admission parse_date now p r (some (with_trust trust e))
          ≡ admission parse_date now p r (some e))
unfolding admission
admission-IsAdmissible parse_date now p r e trust =
    let untrusted : admission parse_date now p r (some (with_trust trust e))
        ≡ admission parse_date now p r (some e) =
      rw (objections-with_trust parse_date now p r e trust, admission) refl in
    let empty : is_empty (objections parse_date now p r e) ≡ true
        → objections parse_date now p r e ≡ [] =
      λ h. is_empty-eq (objections parse_date now p r e) h in
    let sound = objections-IsAdmissible parse_date now p r e in
    let complete = IsAdmissible-objections parse_date now p r e in
    elim (Bool-cases (is_empty (objections parse_date now p r e))) [
      | inl yes_empty ↦ (
        (λ h. sound (empty yes_empty), λ h. rw yes_empty refl),
        (λ h. cc (rw yes_empty at h), λ never. absurd (never (sound (empty yes_empty)))),
        refl,
        untrusted,
      )
      | inr some_left ↦
          let never : ¬ IsAdmissible parse_date now p r e =
            λ h. ground (arith, ap is_empty (complete h)) in
          (
            (λ h. ground arith, λ h. absurd (never h)),
            (λ h. never, λ h. rw some_left refl),
            refl,
            untrusted,
          )
    ]

abbrev evidence_key_of : Evidence → String
evidence_key_of e = e.subject_id <> ":" <> e.predicate.id <> ":" <> e.predicate.version

-- What `prior` holds under a key is one of the pieces of evidence, under its own key.
prior_of-member :
    (evidence : List Evidence) (prior : Dict Evidence) (k : String) (e : Evidence)
    → get k (prior_of prior evidence) ≡ some e
    → (get k prior ≡ some e) ⊎ Memᴰ e evidence × (evidence_key_of e ≡ k)
unfolding prior_of
prior_of-member [] prior k e found = inl found
prior_of-member (x ∷ evidence) prior k e found =
    elim (prior_of-member evidence (put (evidence_key_of x) x prior) k e found) [
      | inr (m, key) ↦ inr (Memᴰ.tail m, key)
      | inl before ↦
          let put_there = sym (get-put (evidence_key_of x) k x prior) ∙ before in
          elim (Bool-cases (evidence_key_of x == k)) [
            | inr other ↦ inl (rw other at put_there)
            | inl same ↦
                let is : x ≡ e = ground arith in
                let key : evidence_key_of e ≡ k =
                  subst (λ y. evidence_key_of y ≡ k) is ((eq_iff (evidence_key_of x) k).0 same) in
                inr (Memᴰ.head (sym is), key)
          ]
    ]

-- Under one key, of one predicate and version, the subjects agree.
same_subject :
    (r : Requirement) (e : Evidence)
    → evidence_key_of e ≡ prior_key r
    → e.predicate.id ≡ r.predicate.id
    → e.predicate.version ≡ r.predicate.version
    → e.subject_id ≡ r.subject.semantic_id
same_subject r e key id version =
    append_cancel_right e.subject_id r.subject.semantic_id
      (":" <> r.predicate.id <> ":" <> r.predicate.version) (cc)

both : (a b : Bool) → (a && b) ≡ true → (a ≡ true) × (b ≡ true)
both a b h = ground arith

-- The piece of evidence that a plan reuses for a requirement.
abbrev pub IsReusable : (String → Option ℕ) → Profile → PlanArguments → Requirement → Type 0
IsReusable parse_date p args r =
    (e : Evidence) × Memᴰ e (or_else args.prior_evidence [])
    × (e.subject_id ≡ r.subject.semantic_id)
    × IsAdmissible parse_date args.now p r e

decide-IsReusable :
    (platform : Platform) (args : PlanArguments) (p : Profile) (r : Requirement)
    → is_reuse (decide platform args p r) ≡ true
    → IsReusable platform.parse_date p args r
unfolding decide admission get
decide-IsReusable platform args p r reused =
    let prior = prior_of [] (or_else args.prior_evidence []) in
    elim (Option-cases (get (prior_key r) prior)) [
      | inl missing ↦ absurd (ground arith)
      | inr (e, found) ↦
          let decided : (admission platform.parse_date args.now p r (some e)).decision ≡ reuse =
            ground (arith, found) in
          let admissible =
            (admission-IsAdmissible platform.parse_date args.now p r e e.trust_class).0.0 decided in
          elim (prior_of-member (or_else args.prior_evidence []) [] (prior_key r) e found) [
            | inl nowhere ↦ absurd (ground arith)
            | inr (member, key) ↦
                (e, member, same_subject r e key admissible.1 admissible.2, admissible)
          ]
    ]

All-IsReusable :
    (platform : Platform) (args : PlanArguments) (p : Profile) (rs : List Requirement)
    → every is_reuse (map (decide platform args p) rs) ≡ true
    → All (IsReusable platform.parse_date p args) rs
All-IsReusable platform args p [] h = tt
All-IsReusable platform args p (r ∷ rs) h = (
  decide-IsReusable platform args p r (ground arith),
  All-IsReusable platform args p rs (ground arith),
)

-- A plan that compileEvidencePlan returns as complete is of a known profile, has a requirement, and for
-- each requirement some piece of the prior evidence is of the requirement's own subject and admissible.
pub compile_evidence_plan-IsReusable :
    (platform : Platform) (config : Config) (args : PlanArguments) (plan : EvidencePlan)
    → compile_evidence_plan platform config args ≡ returned plan
    → plan.closure.complete ≡ true
    → (p : Profile) × (get args.profile_id (load_profiles config.profiles) ≡ some p)
      × (0 < length plan.requirements)
      × All (IsReusable platform.parse_date p args) plan.requirements
unfolding make_plan
compile_evidence_plan-IsReusable platform config args plan done complete =
    let made = compile_evidence_plan-IsMade platform config args plan done in
    let p = made.profile in
    let rs = planned p (or_else args.impacted_nodes []) made.all in
    let decisions = map (decide platform args p) rs in
    let whole : (ltb 0 (length rs) && every is_reuse decisions) ≡ true =
      subst (λ q. q.closure.complete ≡ true) made.is complete in
    let (some_left, all_reused) = both (ltb 0 (length rs)) (every is_reuse decisions) whole in
    (
      p,
      made.known,
      subst (λ q. 0 < length q.requirements) (sym made.is) (ltb→lt 0 (length rs) some_left),
      subst (λ q. All (IsReusable platform.parse_date p args) q.requirements) (sym made.is)
          (All-IsReusable platform args p rs all_reused),
    )
