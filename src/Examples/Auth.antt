-- ===== src/Examples/Auth.antt =====
-- Tokens, keys and attestation, with texts for cryptography.
use flux_forge.Base.{
  ◌+◌, ◌-◌, String, true, none, some, ◌≡◌, refl, ◌==◌, nat_eq, string_eq, ltb, if◌then◌else◌, arith,
  ==_refl,
}
use flux_forge.Base.Text.{split}
use flux_forge.Base.Text.Split.{lacks}
use flux_forge.Store.{jobs, resource_string}
use flux_forge.Store.Keys.{tenant_keys_apart}
use flux_forge.Auth.{Claims, TokenLib, validate_token}
use flux_forge.Auth.Tokens.{IsGenuine, validate_token-IsGenuine}
use flux_forge.Attestation.{
  AttestationClaim, SignatureLib, Signer, skew_too_large, message_of, create_claim, verify,
}
use flux_forge.Attestation.Signatures.{IsPaired, create_claim-verify}

abbrev pub claims_at_100 : Claims
claims_at_100 = record {
  tenant_id = "acme";
  role = "admin";
  issuer = "fluxforge";
  audience = "fluxforge-api";
  expires_at = 86500;
  issued_at = 100;
  not_before = 100;
}

abbrev pub tokens : TokenLib
tokens = record {
  sign = λ t. if t == "H.P" then "S" else "?";
  encode = λ t. if t == "{header}" then "H" else "P";
  decode = λ t. if t == "P" then some "{claims}" else none;
  header_json = "{header}";
  marshal_claims = λ c. "{claims}";
  unmarshal_claims = λ t. if t == "{claims}" then some claims_at_100 else none;
}

validate_token-IsGenuine_example : IsGenuine tokens 200 "H.P.S" claims_at_100
unfolding validate_token split
validate_token-IsGenuine_example = validate_token-IsGenuine tokens 200 "H.P.S" claims_at_100 refl

tenant_keys_apart_example :
    ◌≡◌ {A = String} "acme" "acme"
    × (resource_string jobs ≡ resource_string jobs)
    × ◌≡◌ {A = String} "j1" "j1"
unfolding lacks
tenant_keys_apart_example =
    tenant_keys_apart "acme" "acme" "j1" "j1" jobs jobs refl refl refl refl refl

-- A signature is the message itself.
abbrev plain_signatures : SignatureLib String String
plain_signatures = record {
  seal = λ key message. some message;
  check = λ key message signature. message == signature;
  encode = λ t. t;
  decode = λ t. some t;
}

plain-IsPaired : IsPaired plain_signatures "private" "public"
plain-IsPaired = record {
  sealed = λ message signature h. ground (arith, h, ==_refl message);
  decode-encode = λ s. refl;
}

abbrev signer : Signer String
signer = record { private_key = "private"; node_id = "a1"; version = "1"; binary_hash = "f00" }

abbrev claim_at_100 : AttestationClaim
claim_at_100 = record {
  node_id = "a1";
  binary_hash = "f00";
  version = "1";
  signature = message_of "a1" "f00" "1" 100;
  timestamp = 100;
}

create_claim-verify_example :
    verify plain_signatures 500 (record { public_key = some "public"; enabled = true }) claim_at_100
    ≡ (if ltb 300 ((500 - 100) + (100 - 500))
        then some (skew_too_large ((500 - 100) + (100 - 500)))
        else none)
unfolding create_claim
create_claim-verify_example =
    create_claim-verify plain_signatures 100 500 signer "public" claim_at_100 plain-IsPaired refl
