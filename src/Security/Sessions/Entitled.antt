-- ===== src/Security/Sessions/Entitled.antt =====
-- Which requests a session authorizes.
use allas_code_blueprint.Prelude.{
  ◌≡◌, true, false, not, ◌&&◌, ◌||◌, Option-cases, inl, inr, some, ◌<◌, eq_iff, arith, includes,
}
use allas_code_blueprint.Prelude.Dict.{get}
use allas_code_blueprint.Security.Sessions.{
  AuthSession, AuthSessionService, AuthorizeRequest, ok, is_active, is_strong, get_session,
  authorize,
}

-- A request that is authorized names a stored session that is active and not past its end, in the
-- context of the session, with one of its capabilities, and where it is sensitive with strong
-- authentication.
pub authorize-IsEntitled :
    (request : AuthorizeRequest) (service : AuthSessionService) (session : AuthSession)
    → (authorize request service).0 ≡ ok session
    → (get request.session_id service.sessions ≡ some session)
      × (is_active session.state ≡ true)
      × (request.now < session.expires_at)
      × (session.context_id ≡ request.context_id)
      × ((request.sensitive && not (is_strong session.auth_strength)) ≡ false)
      × ((includes session.capabilities "*" || includes session.capabilities request.capability)
          ≡ true)
unfolding authorize get_session
authorize-IsEntitled request service session done =
    elim (Option-cases (get request.session_id service.sessions)) [
      | inl missing ↦ ground arith
      | inr (s, there) ↦ ground (arith, eq_iff s.context_id request.context_id)
    ]
