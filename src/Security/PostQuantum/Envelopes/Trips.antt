-- ===== src/Security/PostQuantum/Envelopes/Trips.antt =====
-- Envelopes and signatures on their way back, while keys are rotated and retired.
use allas_code_blueprint.Prelude.{
  String, ◌≡◌, true, false, Option-cases, inl, inr, Option, some, ◌==◌, eq_refl, arith,
  if◌then◌else◌,
}
use allas_code_blueprint.Security.PostQuantum.{
  key_unavailable, context_binding_mismatch, ok, error, PqKeyState, PqKeyRecord, get_key,
  get_active, Crypto,
}
use allas_code_blueprint.Security.PostQuantum.Service.{
  PqEncryptedEnvelope, PqDetachedSignature, PqService,
}
use allas_code_blueprint.Security.PostQuantum.Envelopes.{
  derive_aead_key, envelope_base, is_retired, optional, make_envelope, encrypt, open_envelope,
  decrypt, sign, verify,
}

-- Documented behaviour of the cryptography.
abbrev pub DecodesBase64 : Crypto → Type 0
DecodesBase64 crypto = (b : String) → crypto.from_base64 (crypto.to_base64 b) ≡ b

abbrev pub KemAgrees : Crypto → PqKeyRecord → Type 0
KemAgrees crypto r =
    (seed shared cipher : String)
    → crypto.encapsulate r.kem_public_key seed ≡ some (shared, cipher)
    → crypto.decapsulate cipher r.kem_secret_key ≡ some shared

abbrev pub AeadOpens : Crypto → Type 0
AeadOpens crypto =
    (key iv aad plaintext ciphertext tag : String)
    → crypto.seal key iv aad plaintext ≡ some (ciphertext, tag)
    → crypto.unseal key iv aad tag ciphertext ≡ some plaintext

abbrev pub DsaVerifies : Crypto → PqKeyRecord → Type 0
DsaVerifies crypto r =
    (message signature : String) (context : Option String)
    → crypto.sign_bytes message r.dsa_secret_key context ≡ some signature
    → crypto.verify_bytes signature message r.dsa_public_key context ≡ some true

open_envelope-make_envelope :
    (crypto : Crypto) (r : PqKeyRecord) (state : PqKeyState) (seed iv digest plaintext : String)
    (envelope : PqEncryptedEnvelope)
    → DecodesBase64 crypto
    → KemAgrees crypto r
    → AeadOpens crypto
    → make_envelope crypto seed iv r digest plaintext ≡ some envelope
    → open_envelope crypto (record r { state = state }) digest envelope ≡ some plaintext
unfolding make_envelope open_envelope
open_envelope-make_envelope crypto r state seed iv digest plaintext envelope decodes agrees opens
      made =
    elim (Option-cases (crypto.encapsulate r.kem_public_key seed)) [
      | inl failed ↦ ground arith
      | inr ((shared, cipher), encapsulated) ↦
          elim (Option-cases (derive_aead_key crypto shared r.key_id r.version digest)) [
            | inl failed ↦ ground arith
            | inr (key, derived) ↦
                let aad = crypto.stringify (envelope_base crypto r digest) in
                elim (Option-cases (crypto.seal key iv aad plaintext)) [
                  | inl failed ↦ ground arith
                  | inr ((ciphertext, tag), sealed) ↦
                      let shared_again = agrees seed shared cipher encapsulated in
                      let opened = opens key iv aad plaintext ciphertext tag sealed in
                      ground (arith, decodes cipher, decodes iv, decodes ciphertext, decodes tag)
                ]
          ]
    ]

make_envelope-base :
    (crypto : Crypto) (r : PqKeyRecord) (seed iv digest plaintext : String)
    (envelope : PqEncryptedEnvelope)
    → make_envelope crypto seed iv r digest plaintext ≡ some envelope
    → envelope.base ≡ envelope_base crypto r digest
unfolding make_envelope
make_envelope-base crypto r seed iv digest plaintext envelope made = ground arith

-- What encrypt answers, the key pair of the active key being a sound one, decrypt opens with the same
-- context, in every later state where the key's record differs in its state only and is not retired;
-- a retired key opens nothing, and another context (by its digest) is refused.
pub decrypt-encrypt :
    (crypto : Crypto) (r : PqKeyRecord) (state : PqKeyState)
    (seed iv key_id context_id other_id plaintext now later_now : String)
    (service later : PqService) (envelope : PqEncryptedEnvelope)
    → DecodesBase64 crypto
    → KemAgrees crypto r
    → AeadOpens crypto
    → get_active key_id service.keys ≡ some r
    → (encrypt crypto seed iv key_id context_id plaintext now service).0 ≡ ok envelope
    → get_key r.key_id r.version later.keys ≡ some (record r { state = state })
    → (crypto.sha256_base64 other_id == crypto.sha256_base64 context_id) ≡ false
    → ((decrypt crypto envelope context_id later_now later).0
        ≡ (if is_retired state then error key_unavailable else ok plaintext))
      × ((decrypt crypto envelope other_id later_now later).0
          ≡ (if is_retired state then error key_unavailable else error context_binding_mismatch))
unfolding encrypt decrypt
decrypt-encrypt crypto r state seed iv key_id context_id other_id plaintext now later_now service
      later envelope decodes agrees opens current encrypted stored other =
    let digest = crypto.sha256_base64 context_id in
    elim (Option-cases (make_envelope crypto seed iv r digest plaintext)) [
      | inl failed ↦ ground arith
      | inr (made, e) ↦
          let opened =
            open_envelope-make_envelope crypto r state seed iv digest plaintext made decodes agrees
              opens e in
          let base = make_envelope-base crypto r seed iv digest plaintext made e in
          (ground (arith, eq_refl digest), ground arith)
    ]

-- What sign answers, the signing keys of the active key being sound, verify accepts for the same
-- message and context in every later state that has the key's record, whatever its state.
pub verify-sign :
    (crypto : Crypto) (r : PqKeyRecord) (state : PqKeyState)
    (key_id message context_id now later_now : String) (service later : PqService)
    (signature : PqDetachedSignature)
    → DecodesBase64 crypto
    → DsaVerifies crypto r
    → get_active key_id service.keys ≡ some r
    → (sign crypto key_id message context_id now service).0 ≡ ok signature
    → get_key r.key_id r.version later.keys ≡ some (record r { state = state })
    → (verify crypto signature message context_id later_now later).0 ≡ ok true
unfolding sign verify
verify-sign crypto r state key_id message context_id now later_now service later signature decodes
      verifies current signed stored =
    elim (Option-cases (crypto.sign_bytes message r.dsa_secret_key (optional context_id))) [
      | inl failed ↦ ground arith
      | inr (made, e) ↦
          let accepted = verifies message made (optional context_id) e in
          ground (arith, decodes made, eq_refl (crypto.sha256_base64 context_id))
    ]
