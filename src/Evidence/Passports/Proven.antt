-- ===== src/Evidence/Passports/Proven.antt =====
-- What a passport proves.
use mathlib.Core.List.{Memᴰ}
use allas_code_blueprint.Prelude.{
  String, ◌≡◌, refl, sym, subst, ap, ◌∙◌, true, some, List, [], ◌∷◌, arith, ◌==◌, eq_iff, length,
  ◌⊎◌, inl, inr, Bool-cases, Option-cases, All,
}
use allas_code_blueprint.Prelude.Dict.{Dict, get, put, get-put}
use allas_code_blueprint.Prelude.Attempt.{returned, thrown, ◌>>=◌, >>=-eq-returned, returned_inj}
use allas_code_blueprint.Prelude.Members.{mem-sort, length-sort}
use allas_code_blueprint.Prelude.Sets.{sort}
use allas_code_blueprint.Evidence.{Requirement, Evidence}
use allas_code_blueprint.Evidence.Requirements.Files.{Platform}
use allas_code_blueprint.Evidence.Requirements.Inputs.{hash_json}
use allas_code_blueprint.Evidence.Plans.{is_admissible, is_verified}
use allas_code_blueprint.Evidence.Passports.{
  PassportArguments, Passport, evidence_by, proof_of, proofs_of, passport_json, passport_closure,
  passport_with, evidence_before, passport_of, emit_passport,
}

-- A piece of the given evidence that proves a requirement.
abbrev pub Proves : List Evidence → Requirement → Evidence → Type 0
Proves evidence r e =
    Memᴰ e evidence
    × (e.requirement_id ≡ r.requirement_id)
    × (e.evidence_key ≡ r.evidence_key)
    × (is_admissible e.status ≡ true)
    × (is_verified e.attestation ≡ true)

evidence_by-member :
    (evidence : List Evidence) (found : Dict Evidence) (k : String) (e : Evidence)
    → get k (evidence_by found evidence) ≡ some e
    → (get k found ≡ some e) ⊎ Memᴰ e evidence × (e.requirement_id ≡ k)
unfolding evidence_by
evidence_by-member [] found k e there = inl there
evidence_by-member (x ∷ evidence) found k e there =
    elim (evidence_by-member evidence (put x.requirement_id x found) k e there) [
      | inr (m, key) ↦ inr (Memᴰ.tail m, key)
      | inl before ↦
          let put_there = sym (get-put x.requirement_id k x found) ∙ before in
          elim (Bool-cases (x.requirement_id == k)) [
            | inr other ↦ inl (rw other at put_there)
            | inl same ↦
                let is : x ≡ e = ground arith in
                let key : e.requirement_id ≡ k =
                  subst (λ (y : Evidence). y.requirement_id ≡ k) is
                    ((eq_iff x.requirement_id k).0 same) in
                inr (Memᴰ.head (sym is), key)
          ]
    ]

proof_of-Proves :
    (evidence : List Evidence) (r : Requirement) (e : Evidence)
    → proof_of (evidence_by [] evidence) r ≡ returned e
    → Proves evidence r e
unfolding proof_of get
proof_of-Proves evidence r e done =
    elim (Option-cases (get r.requirement_id (evidence_by [] evidence))) [
      | inl missing ↦ absurd (ground arith)
      | inr (x, found) ↦
          let is : x ≡ e = ground arith in
          elim (evidence_by-member evidence [] r.requirement_id x found) [
            | inl nowhere ↦ absurd (ground arith)
            | inr (member, id) ↦ subst (Proves evidence r) is (
              member,
              id,
              ground (arith, eq_iff x.evidence_key r.evidence_key),
              ground arith,
              ground arith,
            )
          ]
    ]

-- Each requirement with the piece of evidence at its place.
abbrev pub ProvesEach : List Evidence → List Requirement → List Evidence → Type 0
ProvesEach evidence [] [] = Unit
ProvesEach evidence (r ∷ rs) (e ∷ es) = Proves evidence r e × ProvesEach evidence rs es
ProvesEach evidence [] (e ∷ es) = ⊥
ProvesEach evidence (r ∷ rs) [] = ⊥

proofs_of-ProvesEach :
    (evidence : List Evidence) (rs : List Requirement) (es : List Evidence)
    → proofs_of (evidence_by [] evidence) rs ≡ returned es
    → ProvesEach evidence rs es
unfolding proofs_of
proofs_of-ProvesEach evidence [] es done = subst (ProvesEach evidence []) (returned_inj _ _ done) tt
proofs_of-ProvesEach evidence (r ∷ rs) es done =
    let found = evidence_by [] evidence in
    let (e, first, more) =
      >>=-eq-returned (proof_of found r) (λ x. proofs_of found rs >>= λ xs. returned (x ∷ xs))
        done in
    let (others, rest, last) =
      >>=-eq-returned (proofs_of found rs) (λ xs. returned (e ∷ xs)) more in
    subst (ProvesEach evidence (r ∷ rs)) (returned_inj _ _ last)
      (proof_of-Proves evidence r e first, proofs_of-ProvesEach evidence rs others rest)

ProvesEach-length :
    (evidence : List Evidence) (rs : List Requirement) (es : List Evidence)
    → ProvesEach evidence rs es
    → length es ≡ length rs
ProvesEach-length evidence [] [] h = refl
ProvesEach-length evidence (r ∷ rs) (e ∷ es) h = omega (arith, ProvesEach-length evidence rs es h.1)
ProvesEach-length evidence [] (e ∷ es) h = absurd h
ProvesEach-length evidence (r ∷ rs) [] h = absurd h

abbrev pub IsProvenBy : (evidence listed : List Evidence) → Requirement → Type 0
IsProvenBy evidence listed r = (e : Evidence) × Memᴰ e listed × Proves evidence r e

ProvesEach-IsProvenBy :
    (evidence listed : List Evidence) (rs : List Requirement) (es : List Evidence)
    → ((e : Evidence) → Memᴰ e es → Memᴰ e listed)
    → ProvesEach evidence rs es
    → All (IsProvenBy evidence listed) rs
ProvesEach-IsProvenBy evidence listed [] es inside h = tt
ProvesEach-IsProvenBy evidence listed (r ∷ rs) [] inside h = absurd h
ProvesEach-IsProvenBy evidence listed (r ∷ rs) (e ∷ es) inside (first, rest) = (
  (e, inside e (Memᴰ.head refl), first),
  ProvesEach-IsProvenBy evidence listed rs es (λ x m. inside x (Memᴰ.tail m)) rest,
)

passport_of-eq :
    (platform : Platform) (args : PassportArguments) (es : List Evidence) (passport : Passport)
    → passport_of platform args es ≡ returned passport
    → (es ≡ passport.evidence) × (passport_closure args.plan es ≡ passport.closure)
unfolding passport_of passport_with
passport_of-eq platform args es passport done =
    elim (hash_json platform (passport_json args (passport_closure args.plan es) es))
        as (λ d.
          (d >>= passport_with args es) ≡ returned passport
          → (es ≡ passport.evidence) × (passport_closure args.plan es ≡ passport.closure)) [
            | returned digest ↦ λ e.
                let same = returned_inj _ _ e in
                (ap (λ (p : Passport). p.evidence) same, ap (λ (p : Passport). p.closure) same)
            | thrown message ↦ λ e. cc
          ]
      done

-- When emitPassport returns, the passport counts as many requirements as the plan has, and for each of
-- them it lists a piece of the given evidence for that requirement, with the requirement's key, a
-- status that is a pass or not applicable, and a verified attestation.
pub emit_passport-IsProvenBy :
    (platform : Platform) (args : PassportArguments) (passport : Passport)
    → emit_passport platform args ≡ returned passport
    → (passport.closure.required ≡ length args.plan.requirements)
      × (length passport.evidence ≡ length args.plan.requirements)
      × All (IsProvenBy args.evidence passport.evidence) args.plan.requirements
unfolding emit_passport
emit_passport-IsProvenBy platform args passport done =
    let rs = args.plan.requirements in
    let (proofs, proven, more) =
      >>=-eq-returned (proofs_of (evidence_by [] args.evidence) rs)
        (λ xs. passport_of platform args (sort (evidence_before platform) xs)) done in
    let each = proofs_of-ProvesEach args.evidence rs proofs proven in
    let sorted = sort (evidence_before platform) proofs in
    let (listed, closure) = passport_of-eq platform args sorted passport more in
    let count : length sorted ≡ length rs = omega (
      arith,
      length-sort (evidence_before platform) proofs,
      ProvesEach-length args.evidence rs proofs each,
    ) in
    (
      subst (λ c. c.required ≡ length rs) closure count,
      subst (λ l. length l ≡ length rs) listed count,
      subst (λ l. All (IsProvenBy args.evidence l) rs) listed
          (ProvesEach-IsProvenBy args.evidence sorted rs proofs
            (λ e m. mem-sort (evidence_before platform) e proofs m) each),
    )
