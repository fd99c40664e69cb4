-- ===== src/Security/Dpop/Gap.antt =====
-- The part of a second after the end of a claim.
use allas_code_blueprint.Prelude.{
  String, ◌≡◌, refl, sym, subst, true, false, [], ℕ, ◌+◌, ◌*◌, ◌/◌, eq_refl, arith,
}
use allas_code_blueprint.Prelude.Int.{ℤ, pos, ◌+ℤ◌, ◌-ℤ◌, ◌≤ℤ◌, int_laws}
use allas_code_blueprint.Prelude.Dict.{get, put}
use allas_code_blueprint.Security.Dpop.{
  ok, Platform, Claims, purge, accept, DpopVerifierOptions, ProofRequest, split_dots,
}
use allas_code_blueprint.Security.Dpop.Proofs.{
  read_proof, outside_window, check_claims, replay_key, lifetime, verify,
}
use allas_code_blueprint.Security.Dpop.Replays.{is_accepted, check_claims-window}

-- The claims are compared with the clock in the window alone.
check_claims-later :
    (platform : Platform) (options : DpopVerifierOptions) (request : ProofRequest) (claims : Claims)
    (later : ℕ)
    → check_claims platform options request claims ≡ ok tt
    → outside_window options later claims.iat ≡ false
    → check_claims platform options (record request { now = later }) claims ≡ ok tt
unfolding check_claims
check_claims-later platform options request claims later fit inside =
    let before = check_claims-window platform options request claims fit in ground arith

accept-expired :
    (key : String) (now ttl : ℕ)
    → (accept key (now + ttl + 1) ttl (accept key now ttl []).1).0 ≡ true
unfolding accept purge get put
accept-expired key now ttl = ground (arith, eq_refl key)

accept-empty : (key : String) (now ttl : ℕ) → (accept key now ttl []).0 ≡ true
unfolding accept purge get
accept-empty key now ttl = refl

bounds-inside :
    (options : DpopVerifierOptions) (now : ℕ) (iat : ℤ)
    → pos (now / 1000) -ℤ pos options.max_age_seconds ≤ℤ iat
    → iat ≤ℤ pos (now / 1000) +ℤ pos options.clock_skew_seconds
    → outside_window options now iat ≡ false
bounds-inside options now iat h k = ground arith

whole_seconds :
    (second ages now : ℕ) → now ≡ second * 1000 → (now + ages * 1000 + 1) / 1000 ≡ second + ages
whole_seconds second ages now h = omega arith

edge-inside :
    (options : DpopVerifierOptions) (second now : ℕ) (iat : ℤ)
    → now ≡ second * 1000
    → iat ≡ pos (second + options.clock_skew_seconds)
    → outside_window options (now + lifetime options + 1) iat ≡ false
edge-inside options second now iat whole edge =
    let seconds =
      whole_seconds second (options.max_age_seconds + options.clock_skew_seconds) now whole in
    bounds-inside options (now + lifetime options + 1) iat (rw (seconds, edge) (omega int_laws))
      (rw (seconds, edge) (omega int_laws))

-- A proof whose `iat` stands at the end of the window in a whole second is accepted by a verifier
-- with an empty store, and accepted once more a millisecond after its claim has ended.
pub verify-accepts_again :
    (platform : Platform) (options : DpopVerifierOptions) (request : ProofRequest) (claims : Claims)
    (second : ℕ)
    → request.now ≡ second * 1000
    → read_proof platform (split_dots request.proof) ≡ ok claims
    → claims.iat ≡ pos (second + options.clock_skew_seconds)
    → check_claims platform options request claims ≡ ok tt
    → let (result, after) = verify platform options request [] in
      let later = record request { now = request.now + lifetime options + 1 } in
      (is_accepted result ≡ true) × (is_accepted (verify platform options later after).0 ≡ true)
unfolding verify
verify-accepts_again platform options request claims second whole read edge fit =
    let key = replay_key platform claims in
    let end = request.now + lifetime options in
    let inside = edge-inside options second request.now claims.iat whole edge in
    let fit_again = check_claims-later platform options request claims (end + 1) fit inside in
    let again = accept-expired key request.now (lifetime options) in
    let first : (accept key request.now (lifetime options) []).0 ≡ true = accept-empty key _ _ in
    let stored : (verify platform options request []).1
        ≡ (accept key request.now (lifetime options) []).1 =
      ground arith in
    let again_stored : (accept key (end + 1) (lifetime options)
          (verify platform options request []).1).0
        ≡ true =
      subst (λ s. (accept key (end + 1) (lifetime options) s).0 ≡ true) (sym stored) again in
    (ground arith, ground arith)
