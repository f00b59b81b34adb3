-- ===== src/Auth/Tokens.antt =====
-- control_plane/auth/jwt.go: which tokens are valid.
use flux_forge.Base.{
  ℕ, ◌≤◌, String, true, Option, none, some, List, [], ◌∷◌, ◌≡◌, refl, sym, ap, ◌∙◌, ◌==◌, string_eq,
  arith, ==_iff, Option-cases, Bool-cases, inl, inr,
}
use flux_forge.Base.Text.{◌<>◌, split}
use flux_forge.Base.Text.Split.{lacks}
use Prim.{absurd}
use flux_forge.Auth.{
  Claims, TokenLib, valid, issuer_name, audience_name, check_claims, check_decoded, check_payload,
  check_parts, validate_token,
}

-- What the parameters promise of the parts of a token: base64 and JSON are read back, and none of the
-- parts has a dot.
pub record IsReadable (lib : TokenLib) (claims : Claims) : Type 0 where
  pub decode-encode :
      lib.decode (lib.encode (lib.marshal_claims claims)) ≡ some (lib.marshal_claims claims)
  pub unmarshal-marshal : lib.unmarshal_claims (lib.marshal_claims claims) ≡ some claims
  pub header_lacks : lacks 46 (lib.encode lib.header_json) ≡ true
  pub payload_lacks : lacks 46 (lib.encode (lib.marshal_claims claims)) ≡ true
  pub signature_lacks :
      lacks 46
        (lib.sign (lib.encode lib.header_json <> "." <> lib.encode (lib.marshal_claims claims)))
      ≡ true

-- The claims stand in the payload of a token in three parts with the right signature, and hold now.
pub record IsGenuine (lib : TokenLib) (now : ℕ) (token : String) (claims : Claims) : Type 0 where
  pub header : String
  pub payload : String
  pub json : String
  pub parts : split 46 token ≡ header ∷ payload ∷ lib.sign (header <> "." <> payload) ∷ []
  pub decoded : lib.decode payload ≡ some json
  pub unmarshalled : lib.unmarshal_claims json ≡ some claims
  pub unexpired : now ≤ claims.expires_at
  pub issued : claims.issuer ≡ issuer_name
  pub meant : claims.audience ≡ audience_name

module _ (lib : TokenLib) where
  checked_claims :
      (now : ℕ) (c claims : Claims)
      → check_claims now c ≡ valid claims
      → (c ≡ claims)
        × (now ≤ claims.expires_at)
        × (claims.issuer ≡ issuer_name)
        × (claims.audience ≡ audience_name)
  unfolding check_claims
  checked_claims now c claims h =
      ground (arith, h, ==_iff c.issuer issuer_name, ==_iff c.audience audience_name)

  payload-IsGenuine :
      (now : ℕ) (token header payload : String) (claims : Claims) (read : Option String)
      → split 46 token ≡ header ∷ payload ∷ lib.sign (header <> "." <> payload) ∷ []
      → lib.decode payload ≡ read
      → check_payload lib now read ≡ valid claims
      → IsGenuine lib now token claims
  unfolding check_payload check_decoded
  payload-IsGenuine now token header payload claims none parts decoded h =
      absurd (ground (arith, h))
  payload-IsGenuine now token header payload claims (some json) parts decoded h =
      elim (Option-cases (lib.unmarshal_claims json)) [
        | inl unread ↦ absurd (ground (arith, h, unread))
        | inr (c, read) ↦
            let checked : check_claims now c ≡ valid claims = ground (arith, h, read) in
            let (same, unexpired, issued, meant) = checked_claims now c claims checked in
            record {
              header = header;
              payload = payload;
              json = json;
              parts = parts;
              decoded = decoded;
              unmarshalled = read ∙ ap some same;
              unexpired = unexpired;
              issued = issued;
              meant = meant;
            }
      ]

  parts-IsGenuine :
      (now : ℕ) (token : String) (claims : Claims) (ps : List String)
      → split 46 token ≡ ps
      → check_parts lib now ps ≡ valid claims
      → IsGenuine lib now token claims
  unfolding check_parts
  parts-IsGenuine now token claims [] e h = absurd (ground (arith, h))
  parts-IsGenuine now token claims (a ∷ []) e h = absurd (ground (arith, h))
  parts-IsGenuine now token claims (a ∷ b ∷ []) e h = absurd (ground (arith, h))
  parts-IsGenuine now token claims (a ∷ b ∷ c ∷ []) e h =
      elim (Bool-cases (lib.sign (a <> "." <> b) == c)) [
        | inl same ↦
            let signed : c ≡ lib.sign (a <> "." <> b) = sym ((==_iff _ c).0 same) in
            payload-IsGenuine now token a b claims (lib.decode b)
              (e ∙ ap (λ x. a ∷ b ∷ x ∷ []) signed) refl (rw same at h)
        | inr other ↦ absurd (ground (arith, rw other at h))
      ]
  parts-IsGenuine now token claims (a ∷ b ∷ c ∷ d ∷ ps) e h = absurd (ground (arith, h))

  -- A token is valid only if it has three parts, the third the signature of the first two under the secret, its second part decodes to the claims returned, and these are not expired and of the right issuer and audience.
  pub validate_token-IsGenuine :
      (now : ℕ) (token : String) (claims : Claims)
      → validate_token lib now token ≡ valid claims
      → IsGenuine lib now token claims
  unfolding validate_token
  validate_token-IsGenuine now token claims h = parts-IsGenuine now token claims _ refl h
