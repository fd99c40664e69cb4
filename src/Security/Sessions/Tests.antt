-- ===== src/Security/Sessions/Tests.antt =====
-- A session of a manager, and the theorem at its input.
use allas_code_blueprint.Prelude.{
  ◌≡◌, refl, ◌&&◌, ◌||◌, not, true, false, none, [], some, ◌<◌, includes,
}
use allas_code_blueprint.Prelude.Dict.{get, put}
use allas_code_blueprint.Security.Dpop.Tokens.{dedupe_after}
use allas_code_blueprint.Security.Sessions.{
  operator_principal, manager, AuthSession, AuthSessionService, SessionRequest, AuthorizeRequest,
  is_active, is_strong, new_session, create_session, get_session, authorize,
}
use allas_code_blueprint.Security.Sessions.Entitled.{authorize-IsEntitled}

program : Unit {0}
unfolding get put dedupe_after create_session get_session authorize
program = tt

abbrev wanted : SessionRequest
wanted = record {
  principal_id = "ana";
  principal_type = operator_principal;
  role = manager;
  context_id = "store";
  auth_strength = none;
  ttl_ms = 1000;
  now = 10;
  capabilities = none;
}

abbrev service : AuthSessionService
unfolding program
service = (create_session "s1" wanted (record { sessions = []; whatsapp_links = []; audit = [] })).1

abbrev session : AuthSession
unfolding program
session = new_session "s1" wanted

abbrev request : AuthorizeRequest
request = record {
  session_id = "s1";
  capability = "inventory.adjust";
  context_id = "store";
  now = 500;
  sensitive = false;
}

authorize-IsEntitled_example :
    (get "s1" service.sessions ≡ some session)
    × (is_active session.state ≡ true)
    × (500 < session.expires_at)
    × (session.context_id ≡ "store")
    × ((request.sensitive && not (is_strong session.auth_strength)) ≡ false)
    × ((includes session.capabilities "*" || includes session.capabilities "inventory.adjust")
        ≡ true)
unfolding program
authorize-IsEntitled_example = authorize-IsEntitled request service session refl
