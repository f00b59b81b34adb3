-- ===== src/Auth.antt =====
-- control_plane/auth/jwt.go, control_plane/middleware/auth.go, tenant.go and cors.go. The keyed hash,
-- base64 and the JSON of claims are parameters. Times are Unix seconds.
pub mod Tokens
pub mod Middleware
use flux_forge.Base.{
  ℕ, ◌+◌, String, Bool, true, false, Option, none, some, List, [], ◌∷◌, ◌++◌, ◌==◌, string_eq, ltb,
  if◌then◌else◌,
}
use flux_forge.Base.Text.{◌<>◌, split}
use flux_forge.Api.{Request, Response, http_error, plain}

pub record Claims : Type 0 where
  pub tenant_id : String
  pub role : String
  pub issuer : String
  pub audience : String
  pub expires_at : ℕ
  pub issued_at : ℕ
  pub not_before : ℕ

-- `sign` is computeHMAC under the secret, `header_json` the header that GenerateToken writes.
pub record TokenLib : Type 0 where
  pub sign : String → String
  pub encode : String → String
  pub decode : String → Option String
  pub header_json : String
  pub marshal_claims : Claims → String
  pub unmarshal_claims : String → Option Claims

pub data Validation : Type 0 where
  valid : Claims → Validation
  invalid : String → Validation

abbrev pub issuer_name : String
issuer_name = "fluxforge"

abbrev pub audience_name : String
audience_name = "fluxforge-api"

check_claims : ℕ → Claims → Validation
check_claims now claims =
    if ltb claims.expires_at now
    then invalid "token expired"
    else if claims.issuer == issuer_name
    then (if claims.audience == audience_name then valid claims else invalid "invalid audience")
    else invalid "invalid issuer"

unfoldable pub new_claims : ℕ → String → String → Claims
new_claims now tenant_id role = record {
  tenant_id = tenant_id;
  role = role;
  issuer = issuer_name;
  audience = audience_name;
  expires_at = now + 86400;
  issued_at = now;
  not_before = now;
}

module _ (lib : TokenLib) where
  unfoldable pub generate_token : ℕ → String → String → String
  unfolding new_claims
  generate_token now tenant_id role =
      let token_part =
        lib.encode lib.header_json
        <> "."
        <> lib.encode (lib.marshal_claims (new_claims now tenant_id role)) in
      token_part <> "." <> lib.sign token_part

  check_decoded : ℕ → Option Claims → Validation
  unfolding check_claims
  check_decoded now none = invalid "failed to unmarshal claims"
  check_decoded now (some claims) = check_claims now claims

  check_payload : ℕ → Option String → Validation
  unfolding check_decoded
  check_payload now none = invalid "failed to decode claims"
  check_payload now (some json) = check_decoded now (lib.unmarshal_claims json)

  check_parts : ℕ → List String → Validation
  unfolding check_payload
  check_parts now (header ∷ payload ∷ signature ∷ []) =
      if lib.sign (header <> "." <> payload) == signature
      then check_payload now (lib.decode payload)
      else invalid "invalid signature"
  check_parts now _ = invalid "invalid token format"

  unfoldable pub validate_token : ℕ → String → Validation
  unfolding check_parts
  validate_token now token = check_parts now (split 46 token)

  pub data Access : Type 0 where
    denied : Response → Access
    granted : Request → Access

  access_of : Request → Validation → Access
  access_of r (invalid e) = denied (http_error ("Unauthorized: " <> e) 401)
  access_of r (valid claims) = granted (record r { tenant = some claims.tenant_id })

  bearer : ℕ → Request → List String → Access
  unfolding access_of validate_token
  bearer now r (scheme ∷ token ∷ []) =
      if scheme == "Bearer"
      then access_of r (validate_token now token)
      else denied (http_error "Invalid Authorization format. Expected 'Bearer <token>'" 401)
  bearer now r _ = denied (http_error "Invalid Authorization format. Expected 'Bearer <token>'" 401)

  -- AuthMiddleware: the reply, or the request that goes on.
  unfoldable pub auth_middleware : ℕ → Request → Access
  unfolding bearer
  auth_middleware now r =
      if r.authorization == ""
      then denied (http_error "Missing Authorization header" 401)
      else bearer now r (split 32 r.authorization)

-- TenantMiddleware, by the header's value: the reply, or the request that goes on.
unfoldable pub tenant_middleware : String → Request → Option Request
tenant_middleware header r = if header == "" then none else some (record r { tenant = some header })

abbrev pub cors_headers : List (String × String)
cors_headers =
    ("Access-Control-Allow-Origin", "*")
    ∷ ("Access-Control-Allow-Methods", "GET, POST, PUT, DELETE, OPTIONS")
    ∷ ("Access-Control-Allow-Headers", "Content-Type, X-Tenant-ID, Authorization")
    ∷ ("Access-Control-Max-Age", "3600")
    ∷ []

abbrev pub with_cors : Response → Response
with_cors resp = record resp { headers = cors_headers ++ resp.headers }
