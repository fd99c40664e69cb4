-- ===== src/Security/Manager.antt =====
-- security/auth-manager-agent.ts: the token that a session is given. The other methods of
-- AuthManagerAgent are the methods of the services under other names.
use allas_code_blueprint.Prelude.{String, not, none, some, ℕ, ◌==◌, if◌then◌else◌}
use allas_code_blueprint.Security.Dpop.{
  DpopResult, error, access_token_inactive, cross_context_denied, DpopPublicJwk, Platform,
  DpopVerifierOptions,
}
use allas_code_blueprint.Security.Dpop.Tokens.{
  DpopService, TokenRequest, IssuedToken, issue_bound_access_token,
}
use allas_code_blueprint.Security.Sessions.{AuthSession, AuthSessionService, is_active, get_session}

pub record SenderRequest : Type 0 where
  pub session_id : String
  pub public_jwk : DpopPublicJwk
  pub context_id : String
  pub ttl_ms : ℕ
  pub now : ℕ

pub record AuthManager : Type 0 where
  pub sessions : AuthSessionService
  pub dpop : DpopService

abbrev pub token_request : SenderRequest → AuthSession → TokenRequest
token_request request session = record {
  public_jwk = request.public_jwk;
  principal_id = session.principal_id;
  context_id = session.context_id;
  capabilities = session.capabilities;
  ttl_ms = request.ttl_ms;
  now = request.now;
}

unfoldable pub issue_sender_constrained_token :
    Platform
    → DpopVerifierOptions
    → (token : String) → SenderRequest
    → AuthManager
    → DpopResult IssuedToken × AuthManager
issue_sender_constrained_token platform options token request manager =
    let (found, sessions) = get_session request.session_id request.now manager.sessions in
    let looked = record manager { sessions = sessions } in
    elim found [
      | none ↦ (error access_token_inactive, looked)
      | some session ↦
          if not (is_active session.state)
          then (error access_token_inactive, looked)
          else if not (session.context_id == request.context_id)
          then (error cross_context_denied, looked)
          else let (result, dpop) =
              issue_bound_access_token platform options token (token_request request session)
                manager.dpop in
            (result, record looked { dpop = dpop })
    ]
