-- ===== src/Security/Sessions.antt =====
-- security/auth-session.ts: AuthSessionService. A time is a number of milliseconds, a new session
-- identifier is an argument, and copies of a session are the session.
pub mod Entitled
mod Tests
use Prim.Native.Char.{code}
use allas_code_blueprint.Prelude.{
  String, Bool, true, false, not, ◌&&◌, ◌||◌, Option, none, some, List, [], ◌∷◌, ◌++◌, ℕ, ◌+◌, leb,
  ◌==◌, if◌then◌else◌, includes, or_else,
}
use allas_code_blueprint.Prelude.Dict.{Dict, get, put}
use allas_code_blueprint.Security.Dpop.Tokens.{dedupe_after}

pub data AuthStrength : Type 0 where
  standard strong : AuthStrength

pub data SessionState : Type 0 where
  active revoked expired : SessionState

pub data PrincipalType : Type 0 where
  operator_principal customer_principal : PrincipalType

pub data Role : Type 0 where
  admin manager operator viewer : Role

abbrev pub is_active : SessionState → Bool
is_active active = true
is_active revoked = false
is_active expired = false

abbrev pub is_strong : AuthStrength → Bool
is_strong standard = false
is_strong strong = true

pub record AuthSession : Type 0 where
  pub session_id : String
  pub principal_id : String
  pub principal_type : PrincipalType
  pub role : Role
  pub capabilities : List String
  pub context_id : String
  pub auth_strength : AuthStrength
  pub created_at : ℕ
  pub expires_at : ℕ
  pub state : SessionState
  pub revoked_at : Option ℕ

pub record AuthAuditEvent : Type 0 where
  pub event : String
  pub at : ℕ
  pub session_id : Option String
  pub principal_id : String
  pub context_id : String
  pub capability : Option String
  pub reason : Option String

pub record WhatsAppLink : Type 0 where
  pub principal_id : String
  pub principal_type : PrincipalType
  pub context_id : String

pub record AuthSessionService : Type 0 where
  pub sessions : Dict AuthSession
  pub whatsapp_links : Dict WhatsAppLink
  pub audit : List AuthAuditEvent

abbrev pub role_capabilities : Role → List String
role_capabilities admin = "*" ∷ []
role_capabilities manager =
    "inventory.read" ∷ "inventory.adjust" ∷ "sales.read" ∷ "sales.manage" ∷ "purchases.read"
    ∷ "purchases.manage" ∷ "customers.read" ∷ "suppliers.read" ∷ "financial.read"
    ∷ "settings.manage" ∷ []
role_capabilities operator =
    "inventory.read" ∷ "sales.read" ∷ "sales.manage" ∷ "purchases.read" ∷ "purchases.manage"
    ∷ "customers.read" ∷ "suppliers.read" ∷ []
role_capabilities viewer =
    "inventory.read" ∷ "sales.read" ∷ "purchases.read" ∷ "financial.read" ∷ []

pub record SessionRequest : Type 0 where
  pub principal_id : String
  pub principal_type : PrincipalType
  pub role : Role
  pub context_id : String
  pub auth_strength : Option AuthStrength
  pub ttl_ms : ℕ
  pub now : ℕ
  pub capabilities : Option (List String)

pub record AuthorizeRequest : Type 0 where
  pub session_id : String
  pub capability : String
  pub context_id : String
  pub now : ℕ
  pub sensitive : Bool

pub data AuthorizeResult : Type 0 where
  ok : AuthSession → AuthorizeResult
  error : (code : String) → AuthorizeResult

abbrev pub push_event : AuthAuditEvent → AuthSessionService → AuthSessionService
push_event event service = record service { audit = service.audit ++ (event ∷ []) }

abbrev pub new_session : String → SessionRequest → AuthSession
new_session session_id request = record {
  session_id = session_id;
  principal_id = request.principal_id;
  principal_type = request.principal_type;
  role = request.role;
  capabilities =
      dedupe_after [] (role_capabilities request.role ++ or_else request.capabilities []);
  context_id = request.context_id;
  auth_strength = or_else request.auth_strength standard;
  created_at = request.now;
  expires_at = request.now + request.ttl_ms;
  state = active;
  revoked_at = none;
}

unfoldable pub create_session :
    String → SessionRequest → AuthSessionService → AuthSession × AuthSessionService
create_session session_id request service =
    let session = new_session session_id request in
    (
      session,
      push_event
          (record {
            event = "Session.Created";
            at = request.now;
            session_id = some session_id;
            principal_id = request.principal_id;
            context_id = request.context_id;
            capability = none;
            reason = none;
          })
          (record service { sessions = put session_id session service.sessions }),
    )

unfoldable pub revoke : String → ℕ → AuthSessionService → Bool × AuthSessionService
revoke session_id now service = elim (get session_id service.sessions) [
  | none ↦ (false, service)
  | some s ↦ if not (is_active s.state) then (false, service) else (
    true,
    push_event
        (record {
          event = "Session.Revoked";
          at = now;
          session_id = some session_id;
          principal_id = s.principal_id;
          context_id = s.context_id;
          capability = none;
          reason = none;
        })
        (record service {
          sessions =
              put session_id (record s { state = revoked; revoked_at = some now }) service.sessions;
        }),
  )
]

-- `get` marks a session that is past its end as expired.
unfoldable pub get_session :
    String → ℕ → AuthSessionService → Option AuthSession × AuthSessionService
get_session session_id now service = elim (get session_id service.sessions) [
  | none ↦ (none, service)
  | some s ↦
      let over = record s { state = expired } in
      if is_active s.state && leb s.expires_at now
      then (some over, record service { sessions = put session_id over service.sessions })
      else (some s, service)
]

abbrev pub principal_of : Option AuthSession → String
principal_of none = "unknown"
principal_of (some s) = s.principal_id

abbrev pub deny :
    Option AuthSession
    → AuthorizeRequest
    → (reason : String) → AuthSessionService
    → AuthorizeResult × AuthSessionService
deny found request reason service = (
  error reason,
  push_event
      (record {
        event = "Authorization.Error";
        at = request.now;
        session_id = some request.session_id;
        principal_id = principal_of found;
        context_id = request.context_id;
        capability = some request.capability;
        reason = some reason;
      })
      service,
)

unfoldable pub authorize :
    AuthorizeRequest → AuthSessionService → AuthorizeResult × AuthSessionService
authorize request service =
    let (found, looked) = get_session request.session_id request.now service in
    elim found [
      | none ↦ deny none request "SessionInactive" looked
      | some s ↦
          if not (is_active s.state)
          then deny (some s) request "SessionInactive" looked
          else if not (s.context_id == request.context_id)
          then deny (some s) request "CrossContextDenied" looked
          else if request.sensitive && not (is_strong s.auth_strength)
          then deny (some s) request "StrongAuthorizationRequired" looked
          else if not (includes s.capabilities "*" || includes s.capabilities request.capability)
          then deny (some s) request "CapabilityDenied" looked
          else (
            ok s,
            push_event
                (record {
                  event = "Authorization.Ok";
                  at = request.now;
                  session_id = some s.session_id;
                  principal_id = s.principal_id;
                  context_id = s.context_id;
                  capability = some request.capability;
                  reason = none;
                })
                looked,
          )
    ]

-- `replace(/\D/g, '')`.
unfoldable pub digits_of : String → String
digits_of String.[] = String.[]
digits_of (String.◌∷◌ c s) =
    let rest = digits_of s in if leb 48 (code c) && leb (code c) 57 then String.◌∷◌ c rest else rest

unfoldable pub link_whats_app :
    (whatsapp : String) → WhatsAppLink → (now : ℕ) → AuthSessionService → AuthSessionService
link_whats_app whatsapp link now service =
    push_event
      (record {
        event = "WhatsAppIdentity.Linked";
        at = now;
        session_id = none;
        principal_id = link.principal_id;
        context_id = link.context_id;
        capability = none;
        reason = none;
      })
      (record service { whatsapp_links = put (digits_of whatsapp) link service.whatsapp_links })

unfoldable pub resolve_whats_app : String → AuthSessionService → Option WhatsAppLink
resolve_whats_app whatsapp service = get (digits_of whatsapp) service.whatsapp_links
