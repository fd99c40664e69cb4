-- ===== src/Security/Tests.antt =====
-- Runs of the security services with small stand-ins for the cryptography, and the theorems at
-- their inputs.
use allas_code_blueprint.Prelude.{arith, String, ◌≡◌, refl, true, some, [], ℕ, ◌==◌, eq_iff}
use allas_code_blueprint.Prelude.Dict.{get, put}
use allas_code_blueprint.Security.PostQuantum as Pq
use allas_code_blueprint.Security.PostQuantum.{
  PqResult, PqKeyState, active, decrypt_only, retired, PqKeyRecord, Repository, no_keys, version_at,
  set_version, get_key, get_active, save_initial, commit_rotation, retire_key, Crypto,
  key_unavailable, context_binding_mismatch,
}
use allas_code_blueprint.Security.PostQuantum.Service.{
  PqService, PqEncryptedEnvelope, PqDetachedSignature, generate_record, create_key_set, rotate,
  retire,
}
use allas_code_blueprint.Security.PostQuantum.Rotation.{IsKept, service-IsKept}
use allas_code_blueprint.Security.PostQuantum.Envelopes.{
  make_envelope, encrypt, open_envelope, decrypt, sign, verify,
}
use allas_code_blueprint.Security.PostQuantum.Envelopes.Trips.{decrypt-encrypt, verify-sign}

-- A key pair is one text, a secret is shared as the seed, and a signature is the message.
abbrev crypto : Crypto
crypto = record {
  kem_keygen = λ seed. some (seed, seed);
  dsa_keygen = λ seed. some (seed, seed);
  encapsulate = λ public_key seed. some (seed, seed);
  decapsulate = λ cipher_text secret_key. some cipher_text;
  hkdf_sync = λ shared_secret salt info. some shared_secret;
  seal = λ key iv aad plaintext. some (plaintext, "tag");
  unseal = λ key iv aad auth_tag ciphertext. some ciphertext;
  sign_bytes = λ message secret_key context. some message;
  verify_bytes = λ signature message public_key context. some (signature == message);
  to_base64 = λ b. b;
  from_base64 = λ b. b;
  sha256_base64 = λ b. b;
  stringify = λ base. base.key_id;
  show_number = λ n. "n";
}

program : Unit {0}
unfolding get put version_at set_version get_key get_active save_initial commit_rotation retire_key
    generate_record create_key_set rotate retire make_envelope encrypt open_envelope decrypt sign
    verify
program = tt

abbrev fresh : PqService
fresh = record { keys = no_keys; audit = [] }

no_keys-IsKept : IsKept no_keys
unfolding program
no_keys-IsKept = λ k v. refl

abbrev first : PqService
unfolding program
first = (create_key_set crypto "s1" "k" "now" fresh).1

first-IsKept : IsKept first.keys
unfolding program
first-IsKept = (service-IsKept crypto "s1" "k" "now" 1 fresh no_keys-IsKept).0

service-IsKept_example :
    IsKept (create_key_set crypto "s2" "k" "now" first).1.keys
    × IsKept (rotate crypto "s2" "k" "now" first).1.keys
    × IsKept (retire "k" 1 "now" first).1.keys
service-IsKept_example = service-IsKept crypto "s2" "k" "now" 1 first first-IsKept

abbrev key_of : String → ℕ → PqKeyRecord
key_of seed version = record {
  key_id = "k";
  version = version;
  state = active;
  created_at = "now";
  kem_public_key = seed;
  kem_secret_key = seed;
  dsa_public_key = seed;
  dsa_secret_key = seed;
}

abbrev rotated : PqService
unfolding program
rotated = (rotate crypto "s2" "k" "now" first).1

abbrev envelope : PqEncryptedEnvelope
envelope = record {
  base = record {
    version = 1;
    key_id = "k";
    key_version = 1;
    kem = "ML-KEM-768";
    kdf = "HKDF-SHA-256";
    aead = "AES-256-GCM";
    context_digest = "tenant";
  };
  encapsulated_key = "seed";
  iv = "iv";
  ciphertext = "hello";
  auth_tag = "tag";
}

-- After a rotation the envelope still opens.
decrypt-encrypt_example :
    ((decrypt crypto envelope "tenant" "later" rotated).0 ≡ Pq.ok "hello")
    × ((decrypt crypto envelope "other" "later" rotated).0 ≡ Pq.error context_binding_mismatch)
unfolding program
decrypt-encrypt_example =
    decrypt-encrypt crypto (key_of "s1" 1) decrypt_only "seed" "iv" "k" "tenant" "other" "hello"
      "now" "later" first rotated envelope (λ b. refl) (λ seed shared cipher h. ground arith)
      (λ key iv aad plaintext ciphertext tag h. ground arith) refl refl refl refl

abbrev signature : PqDetachedSignature
signature = record {
  key_id = "k";
  key_version = 1;
  algorithm = "ML-DSA-65";
  signature = "message";
  context_digest = some "tenant";
}

verify-sign_example : (verify crypto signature "message" "tenant" "later" rotated).0 ≡ Pq.ok true
unfolding program
verify-sign_example =
    verify-sign crypto (key_of "s1" 1) decrypt_only "k" "message" "tenant" "now" "later" first
      rotated signature (λ b. refl)
      (λ message signature context h. ground (arith, eq_iff signature message)) refl refl refl
