-- ===== src/Security/Dpop/Signed.antt =====
-- The signature of a proof.
use allas_code_blueprint.Prelude.{
  String, ◌<>◌, ◌≡◌, refl, sym, subst, ◌∙◌, true, some, List, [], ◌∷◌, inl, inr, arith,
  Option-cases,
}
use allas_code_blueprint.Security.Dpop.{
  ok, DpopPayload, Platform, EcJwk, Claims, split_dots, public_ec_jwk,
}
use allas_code_blueprint.Security.Dpop.Proofs.{claims_of, is_signed, read_segments, read_proof}

-- The proof's three segments, of which the last is a valid signature of the other two by the key.
abbrev pub IsSignedBy : Platform → EcJwk → (proof : String) → Type 0
IsSignedBy platform jwk proof =
    (head : String) × (body : String) × (signature : String) × (key : String) × (split_dots proof
      ≡ head ∷ body ∷ signature ∷ [])
    × (platform.create_public_key jwk ≡ some key)
    × (platform.crypto_verify (head <> "." <> body) key signature ≡ some true)

claims_of-jwk :
    (jwk : EcJwk) (payload : DpopPayload) (claims : Claims)
    → claims_of jwk payload ≡ some claims
    → claims.jwk ≡ jwk
unfolding claims_of
claims_of-jwk jwk payload claims made = ground arith

-- The key in the header, and that the signature by it is valid.
read_segments-jwk :
    (platform : Platform) (head body signature : String) (claims : Claims)
    → read_segments platform head body signature ≡ ok claims
    → is_signed platform claims.jwk head body signature ≡ some true
unfolding read_segments
read_segments-jwk platform head body signature claims read =
    elim (Option-cases (platform.decode_header head)) [
      | inl no_header ↦ ground arith
      | inr (header, h) ↦ elim (Option-cases (platform.decode_payload body)) [
        | inl no_payload ↦ ground arith
        | inr (payload, p) ↦ elim (Option-cases header.jwk) [
          | inl no_object ↦ ground arith
          | inr (object, o) ↦ elim (Option-cases (public_ec_jwk object)) [
            | inl no_key ↦ ground arith
            | inr (jwk, k) ↦ elim (Option-cases (claims_of jwk payload)) [
              | inl no_claims ↦ ground arith
              | inr (made, c) ↦
                  let same = claims_of-jwk jwk payload made c in
                  let is : made ≡ claims = ground arith in
                  let signed : is_signed platform jwk head body signature ≡ some true =
                    ground arith in
                  subst (λ j. is_signed platform j head body signature ≡ some true)
                    (sym same ∙ (λ i. (is i).jwk)) signed
            ]
          ]
        ]
      ]
    ]

segments-IsSignedBy :
    (platform : Platform) (proof : String) (claims : Claims) (segments : List String)
    → split_dots proof ≡ segments
    → read_proof platform segments ≡ ok claims
    → IsSignedBy platform claims.jwk proof
unfolding read_proof
segments-IsSignedBy platform proof claims [] e read = absurd (ground arith)
segments-IsSignedBy platform proof claims (a ∷ []) e read = absurd (ground arith)
segments-IsSignedBy platform proof claims (a ∷ b ∷ []) e read = absurd (ground arith)
segments-IsSignedBy platform proof claims (a ∷ b ∷ c ∷ d ∷ more) e read = absurd (ground arith)
segments-IsSignedBy platform proof claims (a ∷ b ∷ c ∷ []) e read =
    let signed = read_segments-jwk platform a b c claims read in
    elim (Option-cases (platform.create_public_key claims.jwk)) [
      | inl missing ↦ absurd (ground arith)
      | inr (key, found) ↦ (a, b, c, key, e, found, ground arith)
    ]

pub read_proof-IsSignedBy :
    (platform : Platform) (proof : String) (claims : Claims)
    → read_proof platform (split_dots proof) ≡ ok claims
    → IsSignedBy platform claims.jwk proof
read_proof-IsSignedBy platform proof claims read =
    segments-IsSignedBy platform proof claims (split_dots proof) refl read
