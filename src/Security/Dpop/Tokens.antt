-- ===== src/Security/Dpop/Tokens.antt =====
-- DpopSecurityService: access tokens bound to a key and the requests they protect. A new token is
-- an argument (the randomness it is made of), as is the clock.
use allas_code_blueprint.Prelude.{
  String, Bool, not, ◌||◌, Option, none, some, List, [], ◌∷◌, ◌++◌, ℕ, ◌+◌, ◌/◌, leb, ◌==◌,
  if◌then◌else◌, is_empty, includes,
}
use allas_code_blueprint.Prelude.Dict.{Dict, get, put}
use allas_code_blueprint.Security.Dpop.{
  DpopErrorCode, invalid_dpop_proof, access_token_inactive, cross_context_denied, capability_denied,
  DpopResult, ok, error, DpopPublicJwk, Platform, ReplayStore, DpopVerifierOptions, ProofRequest,
  VerifiedProof, calculate_jwk_thumbprint,
}
use allas_code_blueprint.Security.Dpop.Proofs.{verify}

pub record BoundTokenRecord : Type 0 where
  pub token_digest : String
  pub jkt : String
  pub principal_id : String
  pub context_id : String
  pub capabilities : List String
  pub issued_at : ℕ
  pub expires_at : ℕ

pub record DpopAuditEvent : Type 0 where
  pub event : String
  pub at : ℕ
  pub token_digest : String
  pub principal_id : String
  pub context_id : String
  pub capability : Option String
  pub jkt : Option String
  pub proof_jti : Option String
  pub reason : Option DpopErrorCode

-- The service with its verifier's store and its token repository.
pub record DpopService : Type 0 where
  pub tokens : Dict BoundTokenRecord
  pub seen : ReplayStore
  pub audit : List DpopAuditEvent

pub record TokenRequest : Type 0 where
  pub public_jwk : DpopPublicJwk
  pub principal_id : String
  pub context_id : String
  pub capabilities : List String
  pub ttl_ms : ℕ
  pub now : ℕ

pub record IssuedToken : Type 0 where
  pub access_token : String
  pub expires_in : ℕ
  pub jkt : String

pub record ProtectedRequest : Type 0 where
  pub access_token : String
  pub proof : String
  pub method : String
  pub url : String
  pub context_id : String
  pub capability : String
  pub now : ℕ
  pub expected_nonce : Option String

pub record Authorization : Type 0 where
  pub principal_id : String
  pub context_id : String
  pub capability : String
  pub jkt : String
  pub proof_jti : String

-- `[...new Set(words)]`: every word once, at its first place.
unfoldable pub dedupe_after : List String → List String → List String
dedupe_after seen [] = []
dedupe_after seen (word ∷ words) =
    let rest = dedupe_after (word ∷ seen) words in if includes seen word then rest else word ∷ rest

abbrev pub log_event : DpopAuditEvent → DpopService → DpopService
log_event event service = record service { audit = service.audit ++ (event ∷ []) }

abbrev pub denied_event :
    ProtectedRequest → String → Option BoundTokenRecord → DpopErrorCode → DpopAuditEvent
denied_event request digest found code = record {
  event = "DPoP.Authorization.Error";
  at = request.now;
  token_digest = digest;
  principal_id = elim found [ none ↦ "unknown" | some r ↦ r.principal_id ];
  context_id = request.context_id;
  capability = some request.capability;
  jkt = elim found [ none ↦ none | some r ↦ some r.jkt ];
  proof_jti = none;
  reason = some code;
}

abbrev pub deny :
    ProtectedRequest
    → String
    → Option BoundTokenRecord
    → DpopErrorCode
    → DpopService
    → DpopResult Authorization × DpopService
deny request digest found code service =
    (error code, log_event (denied_event request digest found code) service)

abbrev pub is_capable : BoundTokenRecord → String → Bool
is_capable r capability = includes r.capabilities "*" || includes r.capabilities capability

abbrev pub proof_request : ProtectedRequest → BoundTokenRecord → ProofRequest
proof_request request r = record {
  proof = request.proof;
  method = request.method;
  url = request.url;
  now = request.now;
  access_token = some request.access_token;
  expected_jkt = some r.jkt;
  expected_nonce = request.expected_nonce;
}

abbrev pub authorized : ProtectedRequest → BoundTokenRecord → VerifiedProof → Authorization
authorized request r proof = record {
  principal_id = r.principal_id;
  context_id = r.context_id;
  capability = request.capability;
  jkt = proof.jkt;
  proof_jti = proof.jti;
}

module _ (platform : Platform) (options : DpopVerifierOptions) where
  unfoldable pub issue_bound_access_token :
      (token : String) → TokenRequest → DpopService → DpopResult IssuedToken × DpopService
  issue_bound_access_token token request service =
      elim (calculate_jwk_thumbprint platform request.public_jwk) [
        | none ↦ (error invalid_dpop_proof, service)
        | some jkt ↦
            if leb request.ttl_ms 0
            then (error invalid_dpop_proof, service)
            else if request.principal_id == ""
                || request.context_id == ""
                || is_empty request.capabilities
            then (error invalid_dpop_proof, service)
            else let digest = platform.sha256_base64 token in
              (
                ok (record { access_token = token; expires_in = request.ttl_ms / 1000; jkt = jkt }),
                log_event
                    (record {
                      event = "DPoP.TokenIssued";
                      at = request.now;
                      token_digest = digest;
                      principal_id = request.principal_id;
                      context_id = request.context_id;
                      capability = none;
                      jkt = some jkt;
                      proof_jti = none;
                      reason = none;
                    })
                    (record service {
                      tokens =
                          put digest
                            (record {
                              token_digest = digest;
                              jkt = jkt;
                              principal_id = request.principal_id;
                              context_id = request.context_id;
                              capabilities = dedupe_after [] request.capabilities;
                              issued_at = request.now;
                              expires_at = request.now + request.ttl_ms;
                            })
                            service.tokens;
                    }),
              )
      ]

  unfoldable pub verify_protected_request :
      ProtectedRequest → DpopService → DpopResult Authorization × DpopService
  verify_protected_request request service =
      let digest = platform.sha256_base64 request.access_token in
      elim (get digest service.tokens) [
        | none ↦ deny request digest none access_token_inactive service
        | some r ↦
            if leb r.expires_at request.now
            then deny request digest (some r) access_token_inactive service
            else if not (r.context_id == request.context_id)
            then deny request digest (some r) cross_context_denied service
            else if not (is_capable r request.capability)
            then deny request digest (some r) capability_denied service
            else let (result, seen) =
                verify platform options (proof_request request r) service.seen in
              let checked = record service { seen = seen } in
              elim result [
                | error code ↦ deny request digest (some r) code checked
                | ok proof ↦ (
                  ok (authorized request r proof),
                  log_event
                      (record {
                        event = "DPoP.Authorization.Ok";
                        at = request.now;
                        token_digest = r.token_digest;
                        principal_id = r.principal_id;
                        context_id = r.context_id;
                        capability = some request.capability;
                        jkt = some proof.jkt;
                        proof_jti = some proof.jti;
                        reason = none;
                      })
                      checked,
                )
              ]
      ]
