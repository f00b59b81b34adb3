-- ===== src/Attestation.antt =====
-- control_plane/attestation/signer.go and verifier.go. RSA, SHA-256 and base64 are parameters: `seal`
-- signs the hash of a message by a private key, and `check` is rsa.VerifyPKCS1v15 under a public key.
-- Times are Unix seconds.
pub mod Signatures
use flux_forge.Base.{
  ℕ, ◌+◌, ◌-◌, ◌*◌, ◌≤◌, ◌<◌, String, Bool, true, false, not, Option, none, some, ◌≡◌, ◌≢◌, ◌⊎◌,
  refl, ◌==◌, string_eq, ltb, if◌then◌else◌, arith, ==_iff, inl, inr, Option-cases, ap, ◌∙◌,
  Bool-cases,
}
use flux_forge.Base.Text.{◌<>◌, decimal}

pub record AttestationClaim : Type 0 where
  pub node_id : String
  pub binary_hash : String
  pub version : String
  pub signature : String
  pub timestamp : ℕ

pub record SignatureLib (Private Public : Type 0) : Type 0 where
  pub seal : Private → String → Option String
  pub check : Public → String → String → Bool
  pub encode : String → String
  pub decode : String → Option String

pub record Signer (Private : Type 0) : Type 0 where
  pub private_key : Private
  pub node_id : String
  pub version : String
  pub binary_hash : String

-- A disabled verifier has no key.
pub record Verifier (Public : Type 0) : Type 0 where
  pub public_key : Option Public
  pub enabled : Bool

pub data VerifyError : Type 0 where
  skew_too_large : ℕ → VerifyError
  invalid_encoding verification_failed hash_mismatch : VerifyError

-- The key is read from its PEM text by a parameter, `none` where that fails.
unfoldable pub new_verifier :
    {Public : Type 0} → (String → Option Public) → String → Bool → Option (Verifier Public)
new_verifier parse pem false = some (record { public_key = none; enabled = false })
new_verifier parse pem true = elim (parse pem) [
  | none ↦ none
  | some key ↦ some (record { public_key = some key; enabled = true })
]

unfoldable pub message_of : String → String → String → ℕ → String
message_of node_id binary_hash version timestamp =
    node_id <> ":" <> binary_hash <> ":" <> version <> ":" <> decimal timestamp

allowed_skew : ℕ
allowed_skew = 5 * 60

abbrev skew_of : ℕ → ℕ → ℕ
skew_of a b = (a - b) + (b - a)

module _ {Private Public : Type 0} (lib : SignatureLib Private Public) where
  claim_of : ℕ → Signer Private → Option String → Option AttestationClaim
  claim_of now s none = none
  claim_of now s (some signature) = some (record {
    node_id = s.node_id;
    binary_hash = s.binary_hash;
    version = s.version;
    signature = lib.encode signature;
    timestamp = now;
  })

  unfoldable pub create_claim : ℕ → Signer Private → Option AttestationClaim
  unfolding claim_of message_of
  create_claim now s =
      claim_of now s (lib.seal s.private_key (message_of s.node_id s.binary_hash s.version now))

  check_signature : Option Public → AttestationClaim → Option String → Option VerifyError
  unfolding message_of
  check_signature key claim none = some invalid_encoding
  check_signature none claim (some signature) = some verification_failed
  check_signature (some key) claim (some signature) =
      if lib.check key (message_of claim.node_id claim.binary_hash claim.version claim.timestamp)
        signature
      then none
      else some verification_failed

  -- `none` is the nil error.
  unfoldable pub verify : ℕ → Verifier Public → AttestationClaim → Option VerifyError
  unfolding check_signature allowed_skew
  verify now v claim =
      let skew = skew_of now claim.timestamp in
      let checked = check_signature v.public_key claim (lib.decode claim.signature) in
      if not v.enabled
      then none
      else if ltb allowed_skew skew
      then some (skew_too_large skew)
      else checked

unfoldable pub verify_binary_hash :
    {Public : Type 0} → Verifier Public → AttestationClaim → String → Option VerifyError
verify_binary_hash v claim expected_hash =
    if not v.enabled
    then none
    else if claim.binary_hash == expected_hash
    then none
    else some hash_mismatch
