-- ===== src/Security/PostQuantum/Service.antt =====
-- PostQuantumSecurityService.
use allas_code_blueprint.Prelude.{
  String, Bool, false, not, Option, none, some, List, [], ◌∷◌, ◌++◌, ℕ, ◌+◌, nat_eq, if◌then◌else◌,
  ◌>>=◌,
}
use allas_code_blueprint.Security.PostQuantum.{
  key_unavailable, key_rotation_required, PqResult, ok, error, PqKeyState, active, retired,
  PqKeyRecord, Repository, get_key, get_active, save_initial, commit_rotation, retire_key,
  EnvelopeBase, Crypto,
}

pub record PqPublicKeyDescriptor : Type 0 where
  pub key_id : String
  pub version : ℕ
  pub state : PqKeyState
  pub created_at : String
  pub kem : String
  pub signature : String
  pub kem_public_key : String
  pub dsa_public_key : String

-- The fields of `base` stand in the envelope itself.
pub record PqEncryptedEnvelope : Type 0 where
  pub base : EnvelopeBase
  pub encapsulated_key : String
  pub iv : String
  pub ciphertext : String
  pub auth_tag : String

pub record PqDetachedSignature : Type 0 where
  pub key_id : String
  pub key_version : ℕ
  pub algorithm : String
  pub signature : String
  pub context_digest : Option String

pub record PqAuditEvent : Type 0 where
  pub event : String
  pub at : String
  pub key_id : String
  pub key_version : ℕ
  pub context_digest : Option String
  pub reason : Option String

pub record PqService : Type 0 where
  pub keys : Repository
  pub audit : List PqAuditEvent

abbrev pub log_event : PqAuditEvent → PqService → PqService
log_event event service = record service { audit = service.audit ++ (event ∷ []) }

abbrev pub plain_event : String → String → String → ℕ → PqAuditEvent
plain_event event now key_id version = record {
  event = event;
  at = now;
  key_id = key_id;
  key_version = version;
  context_digest = none;
  reason = none;
}

abbrev pub is_version : Option PqKeyRecord → ℕ → Bool
is_version none version = false
is_version (some r) version = nat_eq r.version version

unfoldable pub retire :
    (key_id : String) → ℕ → (now : String) → PqService → PqResult PqKeyState × PqService
retire key_id version now service =
    if is_version (get_active key_id service.keys) version
    then (error key_rotation_required, service)
    else let (found, keys) = retire_key key_id version service.keys in
      elim found [
        | none ↦ (error key_unavailable, record service { keys = keys })
        | some r ↦ (
          ok retired,
          log_event (plain_event "PQ.KeyRetired" now key_id version)
              (record service { keys = keys }),
        )
      ]

module _ (crypto : Crypto) where
  abbrev pub describe : PqKeyRecord → PqPublicKeyDescriptor
  describe r = record {
    key_id = r.key_id;
    version = r.version;
    state = r.state;
    created_at = r.created_at;
    kem = "ML-KEM-768";
    signature = "ML-DSA-65";
    kem_public_key = crypto.to_base64 r.kem_public_key;
    dsa_public_key = crypto.to_base64 r.dsa_public_key;
  }

  unfoldable pub generate_record : String → String → ℕ → String → Option PqKeyRecord
  generate_record seed key_id version now = crypto.kem_keygen seed >>= λ (kem_public, kem_secret).
      crypto.dsa_keygen seed >>= λ (dsa_public, dsa_secret). some (record {
        key_id = key_id;
        version = version;
        state = active;
        created_at = now;
        kem_public_key = kem_public;
        kem_secret_key = kem_secret;
        dsa_public_key = dsa_public;
        dsa_secret_key = dsa_secret;
      })

  -- `key_id` is the given one or the `randomUUID()` that replaces it.
  unfoldable pub create_key_set :
      (seed key_id now : String) → PqService → PqResult PqPublicKeyDescriptor × PqService
  create_key_set seed key_id now service = elim (get_active key_id service.keys) [
    | some r ↦ (error key_rotation_required, service)
    | none ↦ elim (generate_record seed key_id 1 now) [
      | none ↦ (error key_unavailable, service)
      | some r ↦
          let (saved, keys) = save_initial r service.keys in
          if not saved then (error key_rotation_required, record service { keys = keys }) else (
            ok (describe r),
            log_event (plain_event "PQ.KeyCreated" now key_id 1) (record service { keys = keys }),
          )
    ]
  ]

  unfoldable pub rotate :
      (seed key_id now : String) → PqService → PqResult PqPublicKeyDescriptor × PqService
  rotate seed key_id now service = elim (get_active key_id service.keys) [
    | none ↦ (error key_unavailable, service)
    | some r ↦ elim (generate_record seed key_id (r.version + 1) now) [
      | none ↦ (error key_unavailable, service)
      | some next ↦
          let (committed, keys) = commit_rotation r.version next service.keys in
          if not committed then (error key_rotation_required, record service { keys = keys }) else (
            ok (describe next),
            log_event (plain_event "PQ.KeyRotated" now key_id (r.version + 1))
                (record service { keys = keys }),
          )
    ]
  ]

  unfoldable pub describe_key : String → Option ℕ → PqService → PqResult PqPublicKeyDescriptor
  describe_key key_id version service =
      let found : Option PqKeyRecord = elim version [
        | none ↦ get_active key_id service.keys
        | some v ↦ get_key key_id v service.keys
      ] in
      elim found [ none ↦ error key_unavailable | some r ↦ ok (describe r) ]
