-- ===== src/Security/PostQuantum/Envelopes.antt =====
-- encrypt, decrypt, sign and verify of PostQuantumSecurityService. A plaintext and a message are
-- bytes, a missing context is "" (both are falsy), and clearing the secrets has no counterpart.
pub mod Trips
use allas_code_blueprint.Prelude.{
  String, ◌<>◌, Bool, true, false, not, Option, none, some, List, [], ◌∷◌, ◌++◌, ℕ, nat_eq, ◌==◌,
  if◌then◌else◌, ◌>>=◌,
}
use allas_code_blueprint.Security.PostQuantum.{
  PqErrorCode, key_unavailable, decapsulation_failed, signature_invalid, context_binding_mismatch,
  PqResult, ok, error, PqKeyState, active, decrypt_only, retired, PqKeyRecord, Repository, get_key,
  get_active, EnvelopeBase, Crypto,
}
use allas_code_blueprint.Security.PostQuantum.Service.{
  PqEncryptedEnvelope, PqDetachedSignature, PqAuditEvent, PqService, log_event,
}

abbrev pub is_retired : PqKeyState → Bool
is_retired active = false
is_retired decrypt_only = false
is_retired retired = true

abbrev pub event_for : String → String → PqKeyRecord → Option String → Option String → PqAuditEvent
event_for event now r digest reason = record {
  event = event;
  at = now;
  key_id = r.key_id;
  key_version = r.version;
  context_digest = digest;
  reason = reason;
}

abbrev pub optional : String → Option String
optional text = if text == "" then none else some text

abbrev pub same_text : Option String → Option String → Bool
same_text none none = true
same_text none (some b) = false
same_text (some a) none = false
same_text (some a) (some b) = a == b

module _ (crypto : Crypto) where
  abbrev pub derive_aead_key : String → String → ℕ → String → Option String
  derive_aead_key shared_secret key_id key_version digest =
      crypto.hkdf_sync shared_secret (crypto.from_base64 digest)
        ("allascode:pq-envelope:v1:" <> key_id <> ":" <> crypto.show_number key_version)

  abbrev pub envelope_base : PqKeyRecord → String → EnvelopeBase
  envelope_base r digest = record {
    version = 1;
    key_id = r.key_id;
    key_version = r.version;
    kem = "ML-KEM-768";
    kdf = "HKDF-SHA-256";
    aead = "AES-256-GCM";
    context_digest = digest;
  }

  -- The body of `try` in `encrypt`.
  unfoldable pub make_envelope :
      (seed iv : String) → PqKeyRecord → (digest plaintext : String) → Option PqEncryptedEnvelope
  make_envelope seed iv r digest plaintext =
      crypto.encapsulate r.kem_public_key seed >>= λ (shared_secret, cipher_text).
      derive_aead_key shared_secret r.key_id r.version digest >>= λ key.
      crypto.seal key iv (crypto.stringify (envelope_base r digest)) plaintext
      >>= λ (ciphertext, auth_tag). some (record {
        base = envelope_base r digest;
        encapsulated_key = crypto.to_base64 cipher_text;
        iv = crypto.to_base64 iv;
        ciphertext = crypto.to_base64 ciphertext;
        auth_tag = crypto.to_base64 auth_tag;
      })

  unfoldable pub encrypt :
      (seed iv key_id context_id plaintext now : String)
      → PqService
      → PqResult PqEncryptedEnvelope × PqService
  encrypt seed iv key_id context_id plaintext now service =
      let digest = crypto.sha256_base64 context_id in
      elim (get_active key_id service.keys) [
        | none ↦ (error key_unavailable, service)
        | some r ↦ elim (make_envelope seed iv r digest plaintext) [
          | none ↦ (error decapsulation_failed, service)
          | some envelope ↦
              (ok envelope, log_event (event_for "PQ.Encrypt.Ok" now r (some digest) none) service)
        ]
      ]

  -- The body of `try` in `decrypt`.
  unfoldable pub open_envelope : PqKeyRecord → String → PqEncryptedEnvelope → Option String
  open_envelope r digest envelope =
      crypto.decapsulate (crypto.from_base64 envelope.encapsulated_key) r.kem_secret_key
      >>= λ shared_secret. derive_aead_key shared_secret r.key_id r.version digest >>= λ key.
          crypto.unseal key (crypto.from_base64 envelope.iv) (crypto.stringify envelope.base)
            (crypto.from_base64 envelope.auth_tag) (crypto.from_base64 envelope.ciphertext)

  unfoldable pub decrypt :
      PqEncryptedEnvelope → (context_id now : String) → PqService → PqResult String × PqService
  decrypt envelope context_id now service =
      let digest = crypto.sha256_base64 context_id in
      elim (get_key envelope.base.key_id envelope.base.key_version service.keys) [
        | none ↦ (error key_unavailable, service)
        | some r ↦
            if is_retired r.state
            then (error key_unavailable, service)
            else if not (digest == envelope.base.context_digest)
            then (error context_binding_mismatch, service)
            else elim (open_envelope r digest envelope) [
              | none ↦ (
                error decapsulation_failed,
                log_event
                    (event_for "PQ.Decrypt.Error" now r (some digest)
                      (some "PqDecapsulationFailed"))
                    service,
              )
              | some plaintext ↦ (
                ok plaintext,
                log_event (event_for "PQ.Decrypt.Ok" now r (some digest) none) service,
              )
            ]
      ]

  abbrev pub digest_of : String → Option String
  digest_of context_id = if context_id == "" then none else some (crypto.sha256_base64 context_id)

  unfoldable pub sign :
      (key_id message context_id now : String)
      → PqService
      → PqResult PqDetachedSignature × PqService
  sign key_id message context_id now service = elim (get_active key_id service.keys) [
    | none ↦ (error key_unavailable, service)
    | some r ↦ elim (crypto.sign_bytes message r.dsa_secret_key (optional context_id)) [
      | none ↦ (error signature_invalid, service)
      | some signature ↦ (
        ok (record {
          key_id = r.key_id;
          key_version = r.version;
          algorithm = "ML-DSA-65";
          signature = crypto.to_base64 signature;
          context_digest = digest_of context_id;
        }),
        log_event (event_for "PQ.Sign.Ok" now r (digest_of context_id) none) service,
      )
    ]
  ]

  -- An exception and the answer `false` of the library are one error.
  abbrev pub is_verified : Option Bool → Bool
  is_verified none = false
  is_verified (some valid) = valid

  unfoldable pub verify :
      PqDetachedSignature
      → (message context_id now : String) → PqService
      → PqResult Bool × PqService
  verify signature message context_id now service =
      elim (get_key signature.key_id signature.key_version service.keys) [
        | none ↦ (error key_unavailable, service)
        | some r ↦
            if not (same_text (digest_of context_id) signature.context_digest)
            then (error context_binding_mismatch, service)
            else if is_verified (
                crypto.verify_bytes (crypto.from_base64 signature.signature) message
                  r.dsa_public_key (optional context_id))
            then (
              ok true,
              log_event (event_for "PQ.Verify.Ok" now r (digest_of context_id) none) service,
            )
            else (
              error signature_invalid,
              log_event
                  (event_for "PQ.Verify.Error" now r (digest_of context_id)
                    (some "PqSignatureInvalid"))
                  service,
            )
      ]
