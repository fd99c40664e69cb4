-- ===== src/Security/PostQuantum.antt =====
-- security/post-quantum.ts: versioned key sets, envelopes and detached signatures.
-- A Uint8Array, a Buffer and a base64url text are strings. The cryptography of node:crypto and
-- @noble/post-quantum, JSON.stringify and the printing of numbers are the fields of `Crypto`, where
-- `none` is an exception and the first argument of a generator is the randomness it draws.
pub mod Service
pub mod Rotation
pub mod Envelopes
use allas_code_blueprint.Prelude.{
  String, ◌≡◌, Bool, true, false, Option, none, some, List, [], ◌∷◌, ℕ, ◌+◌, nat_eq, ◌==◌,
  if◌then◌else◌, or_else, is_some,
}
use allas_code_blueprint.Prelude.Dict.{Dict, get, put, has}

pub data PqErrorCode : Type 0 where
  key_unavailable decapsulation_failed signature_invalid context_binding_mismatch
        key_rotation_required :
      PqErrorCode

pub data PqResult {ℓ} (A : Type ℓ) : Type ℓ where
  ok : A → PqResult A
  error : PqErrorCode → PqResult A

pub data PqKeyState : Type 0 where
  active decrypt_only retired : PqKeyState

pub record PqKeyRecord : Type 0 where
  pub key_id : String
  pub version : ℕ
  pub state : PqKeyState
  pub created_at : String
  pub kem_public_key : String
  pub kem_secret_key : String
  pub dsa_public_key : String
  pub dsa_secret_key : String

-- `Map<number, PqKeyRecord>`.
abbrev pub Versions : Type 0
Versions = List (ℕ × PqKeyRecord)

unfoldable pub version_at : ℕ → Versions → Option PqKeyRecord
version_at v [] = none
version_at v ((w, r) ∷ m) = if nat_eq w v then some r else version_at v m

unfoldable pub set_version : ℕ → PqKeyRecord → Versions → Versions
set_version v r [] = (v, r) ∷ []
set_version v r ((w, q) ∷ m) = if nat_eq w v then (v, r) ∷ m else (w, q) ∷ set_version v r m

-- InMemoryPostQuantumKeyRepository.
pub record Repository : Type 0 where
  pub keys : Dict Versions
  pub active_versions : Dict ℕ

abbrev pub no_keys : Repository
no_keys = record { keys = []; active_versions = [] }

unfoldable pub get_key : String → ℕ → Repository → Option PqKeyRecord
get_key key_id version repository = version_at version (or_else (get key_id repository.keys) [])

unfoldable pub get_active : String → Repository → Option PqKeyRecord
get_active key_id repository = elim (get key_id repository.active_versions) [
  | none ↦ none
  | some version ↦ get_key key_id version repository
]

unfoldable pub save_initial : PqKeyRecord → Repository → Bool × Repository
save_initial r repository =
    if has r.key_id repository.active_versions then (false, repository) else (
      true,
      record {
        keys = put r.key_id ((r.version, r) ∷ []) repository.keys;
        active_versions = put r.key_id r.version repository.active_versions;
      },
    )

abbrev pub has_version : Option ℕ → ℕ → Bool
has_version none version = false
has_version (some v) version = nat_eq v version

-- `previous.state` is set on the record that the map holds.
unfoldable pub commit_rotation : ℕ → PqKeyRecord → Repository → Bool × Repository
commit_rotation previous_version next repository =
    elim (get_key next.key_id previous_version repository) [
      | none ↦ (false, repository)
      | some previous ↦
          if has_version (get next.key_id repository.active_versions) previous_version
          then (
            true,
            record {
              keys =
                  put next.key_id
                    (set_version next.version next (
                      set_version previous_version (record previous { state = decrypt_only })
                        (or_else (get next.key_id repository.keys) [])))
                    repository.keys;
              active_versions = put next.key_id next.version repository.active_versions;
            },
          )
          else (false, repository)
    ]

unfoldable pub retire_key : String → ℕ → Repository → Option PqKeyRecord × Repository
retire_key key_id version repository =
    if has_version (get key_id repository.active_versions) version
    then (none, repository)
    else elim (get_key key_id version repository) [
      | none ↦ (none, repository)
      | some r ↦
          let gone = record r { state = retired } in
          (
            some gone,
            record repository {
              keys =
                  put key_id (set_version version gone (or_else (get key_id repository.keys) []))
                    repository.keys;
            },
          )
    ]

pub record EnvelopeBase : Type 0 where
  pub version : ℕ
  pub key_id : String
  pub key_version : ℕ
  pub kem : String
  pub kdf : String
  pub aead : String
  pub context_digest : String

pub record Crypto : Type 0 where
  pub kem_keygen : String → Option (String × String)
  pub dsa_keygen : String → Option (String × String)
  pub encapsulate : (public_key seed : String) → Option (String × String)
  pub decapsulate : (cipher_text secret_key : String) → Option String
  pub hkdf_sync : (shared_secret salt info : String) → Option String
  pub seal : (key iv aad plaintext : String) → Option (String × String)
  pub unseal : (key iv aad auth_tag ciphertext : String) → Option String
  pub sign_bytes : (message secret_key : String) → (context : Option String) → Option String
  pub verify_bytes :
      (signature message public_key : String) → (context : Option String) → Option Bool
  pub to_base64 : String → String
  pub from_base64 : String → String
  pub sha256_base64 : String → String
  pub stringify : EnvelopeBase → String
  pub show_number : ℕ → String
