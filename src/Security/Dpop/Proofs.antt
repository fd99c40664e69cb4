-- ===== src/Security/Dpop/Proofs.antt =====
-- DpopVerifier.verify. Its `try` block reads the claims of the proof, compares them with the
-- request and, last of all, claims the replay key.
use allas_code_blueprint.Prelude.{
  String, ◌<>◌, Bool, not, ◌||◌, Option, none, some, List, [], ◌∷◌, ℕ, ◌+◌, ◌*◌, ◌/◌, ltb, ◌==◌,
  if◌then◌else◌,
}
use allas_code_blueprint.Prelude.Int.{ℤ, pos, ◌+ℤ◌, ◌-ℤ◌, ltb_ℤ}
use allas_code_blueprint.Security.Dpop.{
  invalid_dpop_proof, unsupported_dpop_algorithm, dpop_htm_mismatch, dpop_htu_mismatch,
  dpop_iat_outside_window, dpop_ath_mismatch, dpop_nonce_required, dpop_nonce_mismatch,
  dpop_thumbprint_mismatch, dpop_replay_detected, DpopResult, ok, error, ◌>>=◌, ◌>>◌, refuse_if,
  require, DpopPayload, Platform, EcJwk, Claims, same_option, constant_time_equal, split_dots,
  utf16_length, public_ec_jwk, ReplayStore, accept, DpopVerifierOptions, ProofRequest,
  VerifiedProof, thumbprint, normalize_dpop_htu, access_token_hash,
}

-- The `typeof` tests of the payload.
unfoldable pub claims_of : EcJwk → DpopPayload → Option Claims
claims_of jwk payload = elim payload.jti [
  | none ↦ none
  | some jti ↦ if ltb (utf16_length jti) 8 then none else elim payload.htm [
    | none ↦ none
    | some htm ↦ elim payload.htu [
      | none ↦ none
      | some htu ↦ elim payload.iat [
        | none ↦ none
        | some iat ↦ some (record {
          jwk = jwk;
          jti = jti;
          htm = htm;
          htu = htu;
          iat = iat;
          nonce = payload.nonce;
          ath = payload.ath;
        })
      ]
    ]
  ]
]

abbrev pub outside_window : DpopVerifierOptions → ℕ → ℤ → Bool
outside_window options now iat =
    ltb_ℤ iat (pos (now / 1000) -ℤ pos options.max_age_seconds)
    || ltb_ℤ (pos (now / 1000) +ℤ pos options.clock_skew_seconds) iat

unfoldable pub check_nonce : Option String → Option String → DpopResult (Unit {0})
check_nonce none given = ok tt
check_nonce (some expected) none = error dpop_nonce_required
check_nonce (some expected) (some given) =
    refuse_if (not (constant_time_equal given expected)) dpop_nonce_mismatch

unfoldable pub check_jkt : Option String → String → DpopResult (Unit {0})
check_jkt none jkt = ok tt
check_jkt (some expected) jkt =
    refuse_if (not (constant_time_equal jkt expected)) dpop_thumbprint_mismatch

abbrev pub lifetime : DpopVerifierOptions → ℕ
lifetime options = (options.max_age_seconds + options.clock_skew_seconds) * 1000

module _ (platform : Platform) where
  abbrev pub is_signed : EcJwk → String → String → String → Option Bool
  is_signed jwk protected_segment payload_segment signature_segment =
      elim (platform.create_public_key jwk) [
        | none ↦ none
        | some key ↦
            platform.crypto_verify (protected_segment <> "." <> payload_segment) key
              signature_segment
      ]

  unfoldable pub read_segments : String → String → String → DpopResult Claims
  read_segments protected_segment payload_segment signature_segment = do
    header ← require (platform.decode_header protected_segment) invalid_dpop_proof
    payload ← require (platform.decode_payload payload_segment) invalid_dpop_proof
    refuse_if (not (same_option header.typ "dpop+jwt")) invalid_dpop_proof
    refuse_if (not (same_option header.alg "ES256")) unsupported_dpop_algorithm
    object ← require header.jwk invalid_dpop_proof
    jwk ← require (public_ec_jwk object) invalid_dpop_proof
    signed ←
        require (is_signed jwk protected_segment payload_segment signature_segment)
          invalid_dpop_proof
    refuse_if (not signed) invalid_dpop_proof
    require (claims_of jwk payload) invalid_dpop_proof

  unfoldable pub read_proof : List String → DpopResult Claims
  read_proof (a ∷ b ∷ c ∷ []) = read_segments a b c
  read_proof _ = error invalid_dpop_proof

  -- `new URL` of both addresses and the comparison of what normalizeDpopHtu makes of them.
  unfoldable pub check_htu : String → String → DpopResult (Unit {0})
  check_htu htu url = do
    claimed ← require (platform.parse_url htu) invalid_dpop_proof
    refuse_if (not (claimed.search == "") || not (claimed.hash == "")) dpop_htu_mismatch
    mine ← require (normalize_dpop_htu platform htu) invalid_dpop_proof
    asked ← require (normalize_dpop_htu platform url) invalid_dpop_proof
    refuse_if (not (mine == asked)) dpop_htu_mismatch

  unfoldable pub check_ath : Option String → Option String → DpopResult (Unit {0})
  check_ath none ath = ok tt
  check_ath (some token) ath =
      refuse_if (not (same_option ath (access_token_hash platform token))) dpop_ath_mismatch

  unfoldable pub check_claims : DpopVerifierOptions → ProofRequest → Claims → DpopResult (Unit {0})
  check_claims options request claims = do
    refuse_if (not (constant_time_equal claims.htm request.method)) dpop_htm_mismatch
    check_htu claims.htu request.url
    refuse_if (outside_window options request.now claims.iat) dpop_iat_outside_window
    check_nonce request.expected_nonce claims.nonce
    check_ath request.access_token claims.ath
    check_jkt request.expected_jkt (thumbprint platform claims.jwk)

  abbrev pub verified : Claims → VerifiedProof
  verified claims = record {
    jti = claims.jti;
    jkt = thumbprint platform claims.jwk;
    iat = claims.iat;
  }

  abbrev pub replay_key : Claims → String
  replay_key claims = thumbprint platform claims.jwk <> ":" <> claims.jti

  unfoldable pub verify :
      DpopVerifierOptions → ProofRequest → ReplayStore → DpopResult VerifiedProof × ReplayStore
  verify options request seen = elim (read_proof (split_dots request.proof)) [
    | error code ↦ (error code, seen)
    | ok claims ↦ elim (check_claims options request claims) [
      | error code ↦ (error code, seen)
      | ok _ ↦
          let (fresh, after) = accept (replay_key claims) request.now (lifetime options) seen in
          (if fresh then ok (verified claims) else error dpop_replay_detected, after)
    ]
  ]
