-- ===== src/Attestation/Signatures.antt =====
-- control_plane/attestation: which claims are verified.
use flux_forge.Base.{
  ℕ, ◌+◌, ◌-◌, ◌≤◌, String, true, none, some, ◌≡◌, ltb, if◌then◌else◌, arith, inl, inr,
  Option-cases,
}
use Prim.{absurd}
use flux_forge.Attestation.{
  AttestationClaim, SignatureLib, Signer, Verifier, skew_too_large, message_of, allowed_skew,
  create_claim, claim_of, check_signature, verify,
}

-- A signature by the private key passes the check under the public one, and base64 is read back.
pub record IsPaired {Private Public : Type 0} (lib : SignatureLib Private Public)
    (private_key : Private) (public_key : Public) : Type 0 where
  pub sealed :
      (message signature : String)
      → lib.seal private_key message ≡ some signature
      → lib.check public_key message signature ≡ true
  pub decode-encode : (s : String) → lib.decode (lib.encode s) ≡ some s

module _ {Private Public : Type 0} (lib : SignatureLib Private Public) where
  -- An enabled verifier with the signer's public key accepts the signer's claim as long as the two clocks are at most five minutes apart, in either direction, and refuses it for its skew otherwise.
  pub create_claim-verify :
      (now later : ℕ) (s : Signer Private) (key : Public) (claim : AttestationClaim)
      → IsPaired lib s.private_key key
      → create_claim lib now s ≡ some claim
      → verify lib later (record { public_key = some key; enabled = true }) claim ≡ (
          if ltb 300 ((later - now) + (now - later))
          then some (skew_too_large ((later - now) + (now - later)))
          else none)
  unfolding create_claim claim_of verify check_signature allowed_skew
  create_claim-verify now later s key claim paired h =
      let message = message_of s.node_id s.binary_hash s.version now in
      elim (Option-cases (lib.seal s.private_key message)) [
        | inl unsigned ↦ ground (arith, h, unsigned)
        | inr (signature, signed) ↦
            let checked = paired.sealed message signature signed in
            let read = paired.decode-encode signature in ground (arith, h, signed, checked, read)
      ]

  -- An enabled verifier accepts a claim only if its time is at most five minutes away and its signature decodes to one that passes the check, under the verifier's key, of the message that holds the claim's node, hash, version and time.
  pub verify_sound :
      (now : ℕ) (v : Verifier Public) (claim : AttestationClaim)
      → v.enabled ≡ true
      → verify lib now v claim ≡ none
      → (now ≤ claim.timestamp + 300)
        × (claim.timestamp ≤ now + 300)
        × (key : Public) × (signature : String) × (v.public_key ≡ some key)
        × (lib.decode claim.signature ≡ some signature)
        × (lib.check key
              (message_of claim.node_id claim.binary_hash claim.version claim.timestamp)
              signature
            ≡ true)
  unfolding verify check_signature allowed_skew
  verify_sound now v claim on h = elim (Option-cases (lib.decode claim.signature)) [
    | inl unread ↦ absurd (ground (arith, on, h, unread))
    | inr (signature, read) ↦ elim (Option-cases v.public_key) [
      | inl keyless ↦ absurd (ground (arith, on, h, read, keyless))
      | inr (key, keyed) ↦ (
        ground (arith, on, h),
        ground (arith, on, h),
        key,
        signature,
        keyed,
        read,
        ground (arith, on, h, read, keyed),
      )
    ]
  ]
