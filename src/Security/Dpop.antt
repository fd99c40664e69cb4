-- ===== src/Security/Dpop.antt =====
-- security/dpop.ts: the verification of a proof of possession and the store that refuses replays.
-- `Platform` holds what node:crypto, JSON and URL do; there `none` is an exception, which the code
-- turns into InvalidDpopProof. A time is a number of milliseconds, `iat` an integer of seconds.
pub mod Tokens
pub mod Replays
pub mod Gap
pub mod Proofs
pub mod Signed
pub mod Requests
mod Tests
use Prim.Native.Char.{Char, code}
use allas_code_blueprint.Prelude.{
  String, ◌<>◌, Bool, true, false, not, ◌&&◌, ◌||◌, Option, none, some, List, [], ◌∷◌, ℕ, ◌+◌, ◌*◌,
  ◌/◌, ltb, leb, ◌==◌, if◌then◌else◌, is_some,
}
use allas_code_blueprint.Prelude.Int.{ℤ, pos, ◌+ℤ◌, ◌-ℤ◌, ltb_ℤ}
use allas_code_blueprint.Prelude.Dict.{Dict, get, put, delete}

pub data DpopErrorCode : Type 0 where
  invalid_dpop_proof unsupported_dpop_algorithm dpop_htm_mismatch dpop_htu_mismatch
        dpop_iat_outside_window dpop_ath_mismatch dpop_nonce_required dpop_nonce_mismatch
        dpop_thumbprint_mismatch dpop_replay_detected access_token_inactive cross_context_denied
        capability_denied :
      DpopErrorCode

pub data DpopResult {ℓ} (A : Type ℓ) : Type ℓ where
  ok : A → DpopResult A
  error : DpopErrorCode → DpopResult A

infixl 5 ◌>>=◌ ◌>>◌
abbrev pub ◌>>=◌ {ℓ κ} :
    {A : Type ℓ} {B : Type κ} → DpopResult A → (A → DpopResult B) → DpopResult B
ok a >>= f = f a
error code >>= f = error code

abbrev pub ◌>>◌ {ℓ} : {B : Type ℓ} → DpopResult (Unit {0}) → DpopResult B → DpopResult B
m >> k = m >>= λ _. k

-- An early return with an error, and an exception.
abbrev pub refuse_if : Bool → DpopErrorCode → DpopResult (Unit {0})
refuse_if true code = error code
refuse_if false code = ok tt

abbrev pub require {ℓ} : {A : Type ℓ} → Option A → DpopErrorCode → DpopResult A
require none code = error code
require (some a) code = ok a

-- An object that claims to be a key; `is_private` tells whether it has `d`.
pub record DpopPublicJwk : Type 0 where
  pub kty : Option String
  pub crv : Option String
  pub x : Option String
  pub y : Option String
  pub is_private : Bool

pub record EcJwk : Type 0 where
  pub x : String
  pub y : String

-- A field that is missing or of another type is `none`.
pub record DpopHeader : Type 0 where
  pub typ : Option String
  pub alg : Option String
  pub jwk : Option DpopPublicJwk

pub record DpopPayload : Type 0 where
  pub jti : Option String
  pub htm : Option String
  pub htu : Option String
  pub iat : Option ℤ
  pub nonce : Option String
  pub ath : Option String

pub record Url : Type 0 where
  pub protocol : String
  pub hostname : String
  pub search : String
  pub hash : String
  pub rest : String

pub record Platform : Type 0 where
  pub decode_header : String → Option DpopHeader
  pub decode_payload : String → Option DpopPayload
  pub stringify_jwk : EcJwk → String
  pub sha256_base64 : String → String
  pub to_ascii : String → String
  pub create_public_key : EcJwk → Option String
  pub crypto_verify : (signing_input public_key signature : String) → Option Bool
  pub parse_url : String → Option Url
  pub print_url : Url → String
  pub to_lower_case : String → String

abbrev pub same_option : Option String → String → Bool
same_option none b = false
same_option (some a) b = a == b

-- The bytes of two texts are the same just when the texts are.
abbrev pub constant_time_equal : String → String → Bool
constant_time_equal left right = left == right

abbrev pub prepend : Char → List String → List String
prepend c [] = String.◌∷◌ c String.[] ∷ []
prepend c (word ∷ words) = String.◌∷◌ c word ∷ words

-- `split('.')`.
unfoldable pub split_dots : String → List String
split_dots String.[] = String.[] ∷ []
split_dots (String.◌∷◌ c s) =
    let rest = split_dots s in
    if leb 46 (code c) && leb (code c) 46 then String.[] ∷ rest else prepend c rest

-- `length` counts UTF-16 units.
unfoldable pub utf16_length : String → ℕ
utf16_length String.[] = 0
utf16_length (String.◌∷◌ c s) = (if ltb (code c) 65536 then 1 else 2) + utf16_length s

abbrev pub ec_jwk_of : Option String → Option String → Option EcJwk
ec_jwk_of (some x) (some y) = some (record { x = x; y = y })
ec_jwk_of _ _ = none

-- publicEcJwk.
unfoldable pub public_ec_jwk : DpopPublicJwk → Option EcJwk
public_ec_jwk jwk =
    if not (same_option jwk.kty "EC") || not (same_option jwk.crv "P-256") || jwk.is_private
    then none
    else ec_jwk_of jwk.x jwk.y

-- DpopReplayStore: the expiry of every key that was seen.
abbrev pub ReplayStore : Type 0
ReplayStore = Dict ℕ

unfoldable pub purge : ℕ → ReplayStore → ReplayStore
purge now [] = []
purge now ((key, expires_at) ∷ seen) =
    let rest = purge now seen in if ltb expires_at now then rest else (key, expires_at) ∷ rest

abbrev pub is_seen : Option ℕ → ℕ → Bool
is_seen none now = false
is_seen (some expires_at) now = leb now expires_at

unfoldable pub accept : String → ℕ → ℕ → ReplayStore → Bool × ReplayStore
accept key now ttl seen =
    let fresh = purge now seen in
    if is_seen (get key fresh) now then (false, fresh) else (true, put key (now + ttl) fresh)

pub record DpopVerifierOptions : Type 0 where
  pub max_age_seconds : ℕ
  pub clock_skew_seconds : ℕ

abbrev pub default_options : DpopVerifierOptions
default_options = record { max_age_seconds = 300; clock_skew_seconds = 5 }

pub record ProofRequest : Type 0 where
  pub proof : String
  pub method : String
  pub url : String
  pub now : ℕ
  pub access_token : Option String
  pub expected_jkt : Option String
  pub expected_nonce : Option String

pub record VerifiedProof : Type 0 where
  pub jti : String
  pub jkt : String
  pub iat : ℤ

-- The claims that a well-formed proof has.
pub record Claims : Type 0 where
  pub jwk : EcJwk
  pub jti : String
  pub htm : String
  pub htu : String
  pub iat : ℤ
  pub nonce : Option String
  pub ath : Option String

module _ (platform : Platform) where
  abbrev pub thumbprint : EcJwk → String
  thumbprint jwk = platform.sha256_base64 (platform.stringify_jwk jwk)

  unfoldable pub calculate_jwk_thumbprint : DpopPublicJwk → Option String
  calculate_jwk_thumbprint jwk = elim (public_ec_jwk jwk) [
    | none ↦ none
    | some ec ↦ some (thumbprint ec)
  ]

  unfoldable pub normalize_dpop_htu : String → Option String
  normalize_dpop_htu uri = elim (platform.parse_url uri) [
    | none ↦ none
    | some url ↦ some (
        platform.print_url (record url {
          search = "";
          hash = "";
          protocol = platform.to_lower_case url.protocol;
          hostname = platform.to_lower_case url.hostname;
        }))
  ]

  abbrev pub access_token_hash : String → String
  access_token_hash token = platform.sha256_base64 (platform.to_ascii token)
