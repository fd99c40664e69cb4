-- ===== src/Security/Dpop/Requests.antt =====
-- Which requests the service authorizes.
use allas_code_blueprint.Prelude.{
  String, ◌≡◌, refl, sym, ap, subst, ◌∙◌, true, Option-cases, inl, inr, some, [], ◌+◌, ◌<◌, eq_iff,
  arith,
}
use allas_code_blueprint.Prelude.Dict.{get, get-put_self}
use allas_code_blueprint.Security.Dpop.{
  ok, Platform, EcJwk, public_ec_jwk, Claims, DpopVerifierOptions, ProofRequest, split_dots,
  calculate_jwk_thumbprint, thumbprint,
}
use allas_code_blueprint.Security.Dpop.Proofs.{read_proof, check_claims, check_jkt, verify}
use allas_code_blueprint.Security.Dpop.Signed.{IsSignedBy, read_proof-IsSignedBy}
use allas_code_blueprint.Security.Dpop.Replays.{is_accepted, verify-accepts}
use allas_code_blueprint.Security.Dpop.Tokens.{
  BoundTokenRecord, DpopService, TokenRequest, IssuedToken, ProtectedRequest, dedupe_after,
  is_capable, issue_bound_access_token, proof_request, verify_protected_request,
}

check_claims-jkt :
    (platform : Platform) (options : DpopVerifierOptions) (request : ProofRequest) (claims : Claims)
    (jkt : String)
    → request.expected_jkt ≡ some jkt
    → check_claims platform options request claims ≡ ok tt
    → thumbprint platform claims.jwk ≡ jkt
unfolding check_claims check_jkt
check_claims-jkt platform options request claims jkt expected fit =
    ground (arith, eq_iff (thumbprint platform claims.jwk) jkt)

check_claims-method :
    (platform : Platform) (options : DpopVerifierOptions) (request : ProofRequest) (claims : Claims)
    → check_claims platform options request claims ≡ ok tt
    → claims.htm ≡ request.method
unfolding check_claims
check_claims-method platform options request claims fit =
    ground (arith, eq_iff claims.htm request.method)

-- A request that is authorized presents a stored token before its end, in the token's context, with
-- a capability of the token, and a proof that is well formed, made for the request's method, and whose
-- last segment is a valid signature of the other two by the key that the token is bound to.
pub verify_protected_request-IsEntitled :
    (platform : Platform) (options : DpopVerifierOptions) (request : ProtectedRequest)
    (service : DpopService)
    → is_accepted (verify_protected_request platform options request service).0 ≡ true
    → (r : BoundTokenRecord) × (claims : Claims) × (get
          (platform.sha256_base64 request.access_token)
          service.tokens
        ≡ some r)
      × (request.now < r.expires_at)
      × (r.context_id ≡ request.context_id)
      × (is_capable r request.capability ≡ true)
      × (read_proof platform (split_dots request.proof) ≡ ok claims)
      × (claims.htm ≡ request.method)
      × (thumbprint platform claims.jwk ≡ r.jkt)
      × IsSignedBy platform claims.jwk request.proof
unfolding verify_protected_request
verify_protected_request-IsEntitled platform options request service accepted =
    let digest = platform.sha256_base64 request.access_token in
    elim (Option-cases (get digest service.tokens)) [
      | inl missing ↦ ground arith
      | inr (r, stored) ↦
          let proved : is_accepted
                (verify platform options (proof_request request r) service.seen).0
              ≡ true =
            ground arith in
          let (claims, read, fit, _, _) =
            verify-accepts platform options (proof_request request r) service.seen proved in
          (
            r,
            claims,
            stored,
            ground arith,
            ground (arith, eq_iff r.context_id request.context_id),
            ground arith,
            read,
            check_claims-method platform options (proof_request request r) claims fit,
            check_claims-jkt platform options (proof_request request r) claims r.jkt refl fit,
            read_proof-IsSignedBy platform request.proof claims read,
          )
    ]

same_record : {r q : BoundTokenRecord} → some r ≡ some q → r ≡ q
same_record h = ground arith

-- The record of a token that was issued.
abbrev pub issued_record : String → TokenRequest → String → BoundTokenRecord
issued_record digest wanted jkt = record {
  token_digest = digest;
  jkt = jkt;
  principal_id = wanted.principal_id;
  context_id = wanted.context_id;
  capabilities = dedupe_after [] wanted.capabilities;
  issued_at = wanted.now;
  expires_at = wanted.now + wanted.ttl_ms;
}

issue_bound_access_token-stores :
    (platform : Platform) (options : DpopVerifierOptions) (token : String) (wanted : TokenRequest)
    (service : DpopService) (issued : IssuedToken)
    → (issue_bound_access_token platform options token wanted service).0 ≡ ok issued
    → get
        (platform.sha256_base64 token)
        (issue_bound_access_token platform options token wanted service).1.tokens
      ≡ some (issued_record (platform.sha256_base64 token) wanted issued.jkt)
unfolding issue_bound_access_token
issue_bound_access_token-stores platform options token wanted service issued done =
    let digest = platform.sha256_base64 token in
    elim (Option-cases (calculate_jwk_thumbprint platform wanted.public_jwk)) [
      | inl missing ↦ ground arith
      | inr (jkt, computed) ↦
          ground (arith, get-put_self digest (issued_record digest wanted jkt) service.tokens)
    ]

-- The thumbprint that is issued is that of the key that was asked for.
issued-thumbprint :
    (platform : Platform) (options : DpopVerifierOptions) (token : String) (wanted : TokenRequest)
    (service : DpopService) (issued : IssuedToken)
    → (issue_bound_access_token platform options token wanted service).0 ≡ ok issued
    → (key : EcJwk) × (public_ec_jwk wanted.public_jwk ≡ some key)
      × (issued.jkt ≡ thumbprint platform key)
unfolding issue_bound_access_token calculate_jwk_thumbprint
issued-thumbprint platform options token wanted service issued done =
    elim (Option-cases (public_ec_jwk wanted.public_jwk)) [
      | inl missing ↦ absurd (ground arith)
      | inr (key, found) ↦ (key, found, ground arith)
    ]

-- A token that was just issued authorizes a request only before its end, in the context it was
-- issued for, and with a proof that is signed by a key with the thumbprint of the public key that the
-- token was asked for, which is the thumbprint that was issued with it.
pub issue_bound_access_token-binds :
    (platform : Platform) (options : DpopVerifierOptions) (token : String) (wanted : TokenRequest)
    (service : DpopService) (issued : IssuedToken) (request : ProtectedRequest)
    → let (result, after) = issue_bound_access_token platform options token wanted service in
      result ≡ ok issued
      → request.access_token ≡ token
      → is_accepted (verify_protected_request platform options request after).0 ≡ true
      → (claims : Claims) × (key : EcJwk) × (read_proof platform (split_dots request.proof)
          ≡ ok claims)
        × (public_ec_jwk wanted.public_jwk ≡ some key)
        × (thumbprint platform claims.jwk ≡ thumbprint platform key)
        × (issued.jkt ≡ thumbprint platform key)
        × IsSignedBy platform claims.jwk request.proof
        × (request.now < wanted.now + wanted.ttl_ms)
        × (request.context_id ≡ wanted.context_id)
issue_bound_access_token-binds platform options token wanted service issued request done presents
      accepted =
    let after = (issue_bound_access_token platform options token wanted service).1 in
    let stored =
      issue_bound_access_token-stores platform options token wanted service issued done in
    let (key, wanted_key, named) =
      issued-thumbprint platform options token wanted service issued done in
    let (r, claims, found, early, context, _, read, _, bound, signed) =
      verify_protected_request-IsEntitled platform options request after accepted in
    let one : r ≡ issued_record (platform.sha256_base64 token) wanted issued.jkt =
      same_record
        (sym found ∙ ap (λ t. get (platform.sha256_base64 t) after.tokens) presents ∙ stored) in
    (
      claims,
      key,
      read,
      wanted_key,
      bound ∙ ap (λ (x : BoundTokenRecord). x.jkt) one ∙ named,
      named,
      signed,
      subst (λ (x : BoundTokenRecord). request.now < x.expires_at) one early,
      sym context ∙ ap (λ (x : BoundTokenRecord). x.context_id) one,
    )
