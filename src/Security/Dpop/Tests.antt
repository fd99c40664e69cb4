-- ===== src/Security/Dpop/Tests.antt =====
-- Proofs and tokens on a platform of small stand-ins, and the theorems at their inputs.
use allas_code_blueprint.Prelude.{
  arith, ◌≡◌, refl, inl, false, true, none, some, [], ◌∷◌, ◌+◌, ◌<◌, ◌==◌,
}
use allas_code_blueprint.Prelude.Int.{pos, ◌+ℤ◌, ◌-ℤ◌}
use allas_code_blueprint.Prelude.Dict.{get, put}
use allas_code_blueprint.Security.Dpop.{
  ok, DpopPublicJwk, EcJwk, Platform, Claims, default_options, ProofRequest, split_dots,
  utf16_length, public_ec_jwk, purge, accept, calculate_jwk_thumbprint, normalize_dpop_htu,
  thumbprint,
}
use allas_code_blueprint.Security.Dpop.Proofs.{
  claims_of, read_segments, read_proof, check_htu, check_nonce, check_ath, check_jkt, check_claims,
  lifetime, verify,
}
use allas_code_blueprint.Security.Dpop.Replays.{accept_all, is_accepted, verify-once}
use allas_code_blueprint.Security.Dpop.Gap.{verify-accepts_again}
use allas_code_blueprint.Security.Dpop.Tokens.{
  BoundTokenRecord, DpopService, TokenRequest, IssuedToken, ProtectedRequest, dedupe_after,
  is_capable, issue_bound_access_token, verify_protected_request,
}
use allas_code_blueprint.Security.Dpop.Signed.{IsSignedBy}
use allas_code_blueprint.Security.Dpop.Requests.{
  verify_protected_request-IsEntitled, issue_bound_access_token-binds,
}

abbrev jwk : DpopPublicJwk
jwk = record { kty = some "EC"; crv = some "P-256"; x = some "x"; y = some "y"; is_private = false }

abbrev platform : Platform
platform = record {
  decode_header = λ s. some (record { typ = some "dpop+jwt"; alg = some "ES256"; jwk = some jwk });
  decode_payload = λ s. some (record {
    jti = some "12345678";
    htm = some "GET";
    htu = some "/pay";
    iat = some (pos 105);
    nonce = none;
    ath = some "token";
  });
  stringify_jwk = λ key. key.x;
  sha256_base64 = λ s. s;
  to_ascii = λ s. s;
  create_public_key = λ key. some key.x;
  crypto_verify = λ input key signature. some (signature == "c");
  parse_url =
      λ s. some (record { protocol = "https"; hostname = "h"; search = ""; hash = ""; rest = s });
  print_url = λ url. url.rest;
  to_lower_case = λ s. s;
}

abbrev claims : Claims
claims = record {
  jwk = record { x = "x"; y = "y" };
  jti = "12345678";
  htm = "GET";
  htu = "/pay";
  iat = pos 105;
  nonce = none;
  ath = some "token";
}

program : Unit {0}
unfolding get put split_dots utf16_length public_ec_jwk purge accept calculate_jwk_thumbprint
    normalize_dpop_htu claims_of read_segments read_proof check_htu check_nonce check_ath check_jkt
    check_claims verify accept_all dedupe_after issue_bound_access_token verify_protected_request
    ◌+ℤ◌ ◌-ℤ◌
program = tt

abbrev request : ProofRequest
request = record {
  proof = "a.b.c";
  method = "GET";
  url = "/pay";
  now = 100000;
  access_token = none;
  expected_jkt = none;
  expected_nonce = none;
}

abbrev a_minute_later : ProofRequest
a_minute_later = record request { now = 160000 }

-- The same proof a minute later, with another key presented in between.
verify-once_example :
    is_accepted
      (verify platform default_options a_minute_later (
        accept_all (("other", 150000, 1000) ∷ []) (verify platform default_options request []).1)).0
    ≡ false
unfolding program
verify-once_example =
    verify-once platform default_options request a_minute_later (("other", 150000, 1000) ∷ []) []
      refl refl (omega arith, tt) (inl (omega arith))

verify-accepts_again_example :
    let (result, after) = verify platform default_options request [] in
    let later = record request { now = request.now + lifetime default_options + 1 } in
    (is_accepted result ≡ true)
    × (is_accepted (verify platform default_options later after).0 ≡ true)
unfolding program
verify-accepts_again_example =
    verify-accepts_again platform default_options request claims 100 refl refl refl refl

abbrev nothing : DpopService
nothing = record { tokens = []; seen = []; audit = [] }

abbrev wanted : TokenRequest
wanted = record {
  public_jwk = jwk;
  principal_id = "ana";
  context_id = "store";
  capabilities = "sell" ∷ "sell" ∷ "buy" ∷ [];
  ttl_ms = 60000;
  now = 90000;
}

abbrev issued : IssuedToken
issued = record { access_token = "token"; expires_in = 60; jkt = "x" }

abbrev service : DpopService
unfolding program
service = (issue_bound_access_token platform default_options "token" wanted nothing).1

abbrev purchase : ProtectedRequest
purchase = record {
  access_token = "token";
  proof = "a.b.c";
  method = "GET";
  url = "/pay";
  context_id = "store";
  capability = "buy";
  now = 100000;
  expected_nonce = none;
}

verify_protected_request-IsEntitled_example :
    (r : BoundTokenRecord) × (held : Claims) × (get
        (platform.sha256_base64 purchase.access_token)
        service.tokens
      ≡ some r)
    × (purchase.now < r.expires_at)
    × (r.context_id ≡ purchase.context_id)
    × (is_capable r purchase.capability ≡ true)
    × (read_proof platform (split_dots purchase.proof) ≡ ok held)
    × (held.htm ≡ purchase.method)
    × (thumbprint platform held.jwk ≡ r.jkt)
    × IsSignedBy platform held.jwk purchase.proof
unfolding program
verify_protected_request-IsEntitled_example =
    verify_protected_request-IsEntitled platform default_options purchase service refl

issue_bound_access_token-binds_example :
    (held : Claims) × (key : EcJwk) × (read_proof platform (split_dots purchase.proof) ≡ ok held)
    × (public_ec_jwk wanted.public_jwk ≡ some key)
    × (thumbprint platform held.jwk ≡ thumbprint platform key)
    × (issued.jkt ≡ thumbprint platform key)
    × IsSignedBy platform held.jwk purchase.proof
    × (purchase.now < wanted.now + wanted.ttl_ms)
    × (purchase.context_id ≡ wanted.context_id)
unfolding program
issue_bound_access_token-binds_example =
    issue_bound_access_token-binds platform default_options "token" wanted nothing issued purchase
      refl refl refl
