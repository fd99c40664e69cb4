-- ===== src/Security/Dpop/Replays.antt =====
-- The replay store while it claims keys, and what it means for a proof that is presented again.
use allas_code_blueprint.Prelude.{
  String, ◌≡◌, refl, sym, ap, subst, ◌∙◌, ◌⊎◌, Bool, true, false, Bool-cases, Option-cases, inl,
  inr, some, List, [], ◌∷◌, ℕ, ◌+◌, ◌*◌, ◌/◌, ◌≤◌, ◌==◌, eq_iff, arith,
}
use allas_code_blueprint.Prelude.Int.{ℤ, pos, ◌+ℤ◌, ◌-ℤ◌, ◌≤ℤ◌, int_laws}
use allas_code_blueprint.Prelude.Dict.{get, get-put, get-put_self}
use allas_code_blueprint.Security.Dpop.{
  DpopErrorCode, DpopResult, ok, error, Platform, Claims, ReplayStore, purge, is_seen, accept,
  DpopVerifierOptions, ProofRequest, split_dots,
}
use allas_code_blueprint.Security.Dpop.Proofs.{
  read_proof, outside_window, check_claims, replay_key, lifetime, verify,
}

-- A claim that is valid at a time survives the purge at that time.
get-purge :
    (key : String) (now expires_at : ℕ) (seen : ReplayStore)
    → get key seen ≡ some expires_at
    → now ≤ expires_at
    → get key (purge now seen) ≡ some expires_at
unfolding get purge
get-purge key now expires_at [] there valid = ground arith
get-purge key now expires_at ((k, e) ∷ seen) there valid = elim (Bool-cases (k == key)) [
  | inl same ↦ ground arith
  | inr other ↦
      let rest : get key seen ≡ some expires_at = ground arith in
      let kept = get-purge key now expires_at seen rest valid in ground arith
]

-- The key is claimed until some time that is not before the given one.
abbrev pub is_claimed : String → ℕ → ReplayStore → Bool
is_claimed key until seen = is_seen (get key seen) until

-- While a claim is valid, accept refuses its key.
accept-refuses :
    (key : String) (now ttl until : ℕ) (seen : ReplayStore)
    → is_claimed key until seen ≡ true
    → now ≤ until
    → (accept key now ttl seen).0 ≡ false
unfolding accept
accept-refuses key now ttl until seen claimed early = elim (Option-cases (get key seen)) [
  | inl missing ↦ ground arith
  | inr (e, there) ↦
      let late : until ≤ e = ground arith in
      let kept = get-purge key now e seen there (omega (arith, early, late)) in ground arith
]

-- A claim stays while any keys are presented until its end.
accept-keeps :
    (key other : String) (now ttl until : ℕ) (seen : ReplayStore)
    → is_claimed key until seen ≡ true
    → now ≤ until
    → is_claimed key until (accept other now ttl seen).1 ≡ true
unfolding accept
accept-keeps key other now ttl until seen claimed early = elim (Option-cases (get key seen)) [
  | inl missing ↦ ground arith
  | inr (e, there) ↦
      let late : until ≤ e = ground arith in
      let kept = get-purge key now e seen there (omega (arith, early, late)) in
      ground (arith, get-put other key (now + ttl) (purge now seen), eq_iff other key)
]

-- A later time is one more claim, of any key at any time until the end.
abbrev pub Claim : Type 0
Claim = String × ℕ × ℕ

unfoldable pub accept_all : List Claim → ReplayStore → ReplayStore
accept_all [] seen = seen
accept_all ((key, now, ttl) ∷ claims) seen = accept_all claims (accept key now ttl seen).1

abbrev pub AreEarly : ℕ → List Claim → Type 0
AreEarly until [] = Unit
AreEarly until ((key, now, ttl) ∷ claims) = (now ≤ until) × AreEarly until claims

accept_all-keeps :
    (key : String) (until : ℕ) (claims : List Claim) (seen : ReplayStore)
    → AreEarly until claims
    → is_claimed key until seen ≡ true
    → is_claimed key until (accept_all claims seen) ≡ true
unfolding accept_all
accept_all-keeps key until [] seen early claimed = claimed
accept_all-keeps key until ((other, now, ttl) ∷ claims) seen (first, early) claimed =
    accept_all-keeps key until claims (accept other now ttl seen).1 early
      (accept-keeps key other now ttl until seen claimed first)

accept-claims :
    (key : String) (now ttl : ℕ) (seen : ReplayStore)
    → (accept key now ttl seen).0 ≡ true
    → is_claimed key (now + ttl) (accept key now ttl seen).1 ≡ true
unfolding accept
accept-claims key now ttl seen accepted =
    ground (arith, get-put_self key (now + ttl) (purge now seen))

-- An accepted key is refused until its claim ends, whatever keys are presented in between.
accept-once :
    (key : String) (now ttl later later_ttl : ℕ) (claims : List Claim) (seen : ReplayStore)
    → (accept key now ttl seen).0 ≡ true
    → AreEarly (now + ttl) claims
    → later ≤ now + ttl
    → (accept key later later_ttl (accept_all claims (accept key now ttl seen).1)).0 ≡ false
accept-once key now ttl later later_ttl claims seen accepted early in_time =
    accept-refuses key later later_ttl (now + ttl) _
      (accept_all-keeps key (now + ttl) claims _ early (accept-claims key now ttl seen accepted))
      in_time

abbrev pub is_accepted {ℓ} : {A : Type ℓ} → DpopResult A → Bool
is_accepted (ok a) = true
is_accepted (error code) = false

DpopResult-cases {ℓ} :
    {A : Type ℓ} (r : DpopResult A)
    → ((a : A) × (r ≡ ok a)) ⊎ ((code : DpopErrorCode) × (r ≡ error code))
DpopResult-cases (ok a) = inl (a, refl)
DpopResult-cases (error code) = inr (code, refl)

-- What an accepted proof was: well formed, fitting the request, and not claimed before.
pub verify-accepts :
    (platform : Platform) (options : DpopVerifierOptions) (request : ProofRequest)
    (seen : ReplayStore)
    → is_accepted (verify platform options request seen).0 ≡ true
    → (claims : Claims) × (read_proof platform (split_dots request.proof) ≡ ok claims)
      × (check_claims platform options request claims ≡ ok tt)
      × ((accept (replay_key platform claims) request.now (lifetime options) seen).0 ≡ true)
      × ((verify platform options request seen).1
          ≡ (accept (replay_key platform claims) request.now (lifetime options) seen).1)
unfolding verify
verify-accepts platform options request seen accepted =
    elim (DpopResult-cases (read_proof platform (split_dots request.proof))) [
      | inr (code, unread) ↦ ground arith
      | inl (claims, read) ↦
          elim (DpopResult-cases (check_claims platform options request claims)) [
            | inr (code, unfit) ↦ ground arith
            | inl (tt, fit) ↦ (claims, read, fit, ground arith, ground arith)
          ]
    ]

pub check_claims-window :
    (platform : Platform) (options : DpopVerifierOptions) (request : ProofRequest) (claims : Claims)
    → check_claims platform options request claims ≡ ok tt
    → outside_window options request.now claims.iat ≡ false
unfolding check_claims
check_claims-window platform options request claims passed =
    elim (Bool-cases (outside_window options request.now claims.iat)) [
      | inr inside ↦ inside
      | inl outside ↦ ground arith
    ]

-- Whole seconds: a time that is a lifetime and a second later is more than the ages later.
seconds_later : (a b ages : ℕ) → a + ages * 1000 + 1000 ≤ b → a / 1000 + ages + 1 ≤ b / 1000
seconds_later a b ages h = omega arith

inside-bounds :
    (options : DpopVerifierOptions) (now : ℕ) (iat : ℤ)
    → outside_window options now iat ≡ false
    → (pos (now / 1000) -ℤ pos options.max_age_seconds ≤ℤ iat)
      × (iat ≤ℤ pos (now / 1000) +ℤ pos options.clock_skew_seconds)
inside-bounds options now iat h = ground arith

windows_apart :
    (options : DpopVerifierOptions) (now later : ℕ) (iat : ℤ)
    → outside_window options now iat ≡ false
    → outside_window options later iat ≡ false
    → now / 1000 + (options.max_age_seconds + options.clock_skew_seconds) + 1 ≤ later / 1000
    → 1 ≤ 0
windows_apart options now later iat h k apart =
    let (_, above) = inside-bounds options now iat h in
    let (below, _) = inside-bounds options later iat k in omega int_laws

same_claims : {c d : Claims} → ok c ≡ ok d → c ≡ d
same_claims h = ground arith

-- A proof that was accepted is refused when it is presented again, with any request, after any other
-- keys were presented up to the end of its claim: until the claim ends, and from one second after
-- the end.
pub verify-once :
    (platform : Platform) (options : DpopVerifierOptions) (request later : ProofRequest)
    (between : List Claim) (seen : ReplayStore)
    → is_accepted (verify platform options request seen).0 ≡ true
    → later.proof ≡ request.proof
    → AreEarly (request.now + lifetime options) between
    → (later.now ≤ request.now + lifetime options)
      ⊎ (request.now + lifetime options + 1000 ≤ later.now)
    → is_accepted
        (verify platform options later
          (accept_all between (verify platform options request seen).1)).0
      ≡ false
verify-once platform options request later between seen accepted same early when =
    let after = (verify platform options request seen).1 in
    elim (Bool-cases (is_accepted (verify platform options later (accept_all between after)).0)) [
      | inr refused ↦ refused
      | inl again ↦
          let (claims, read, fit, fresh, stored) =
            verify-accepts platform options request seen accepted in
          let (claims', read', fit', fresh', _) =
            verify-accepts platform options later (accept_all between after) again in
          let one : claims' ≡ claims =
            same_claims (sym read' ∙ ap (λ p. read_proof platform (split_dots p)) same ∙ read) in
          elim when [
            | inl in_time ↦
                let once =
                  accept-once (replay_key platform claims) request.now (lifetime options) later.now
                    (lifetime options) between seen fresh early in_time in
                let both : (accept (replay_key platform claims) later.now (lifetime options) (
                      accept_all between
                        (accept (replay_key platform claims) request.now (lifetime options)
                          seen).1)).0
                    ≡ true =
                  subst
                    (λ s.
                      (accept (replay_key platform claims) later.now (lifetime options)
                        (accept_all between s)).0
                      ≡ true)
                    stored
                    (subst
                      (λ c.
                        (accept (replay_key platform c) later.now (lifetime options)
                          (accept_all between after)).0
                        ≡ true)
                      one fresh') in
                ground arith
            | inr too_late ↦
                let window = check_claims-window platform options request claims fit in
                let window' : outside_window options later.now claims.iat ≡ false =
                  subst (λ (c : Claims). outside_window options later.now c.iat ≡ false) one
                    (check_claims-window platform options later claims' fit') in
                let seconds =
                  seconds_later request.now later.now
                    (options.max_age_seconds + options.clock_skew_seconds) too_late in
                let never : 1 ≤ 0 =
                  windows_apart options request.now later.now claims.iat window window' seconds in
                ground arith
          ]
    ]
