-- ===== src/Auth/Middleware.antt =====
-- control_plane/middleware/auth.go: what AuthMiddleware lets through.
use flux_forge.Base.{
  ℕ, String, some, List, [], ◌∷◌, ◌≡◌, refl, ◌∙◌, ap, ◌==◌, string_eq, ==_iff, if_cases,
}
use flux_forge.Base.Text.{split}
use flux_forge.Auth.{
  Claims, TokenLib, Access, denied, granted, valid, invalid, Validation, auth_middleware, bearer,
  access_of, validate_token,
}
use flux_forge.Auth.Tokens.{IsGenuine, validate_token-IsGenuine}
use flux_forge.Api.{Request, http_error}

module _ (tokens : TokenLib) where
  -- The middleware refuses with 401, or lets the request on with the tenant of genuine claims.
  unfoldable pub IsChecked : ℕ → Request → Access tokens → Type 0
  IsChecked unix r (denied resp) = resp.status_code ≡ 401
  IsChecked unix r (granted r') =
      (token : String) × (claims : Claims) × (split 32 r.authorization ≡ "Bearer" ∷ token ∷ [])
      × IsGenuine tokens unix token claims
      × (r' ≡ record r { tenant = some claims.tenant_id })

  validated :
      (unix : ℕ) (r : Request) (token : String) (v : Validation)
      → split 32 r.authorization ≡ "Bearer" ∷ token ∷ []
      → validate_token tokens unix token ≡ v
      → IsChecked unix r (access_of tokens r v)
  unfolding access_of IsChecked http_error
  validated unix r token (invalid e) parts h = refl
  validated unix r token (valid claims) parts h =
      (token, claims, parts, validate_token-IsGenuine tokens unix token claims h, refl)

  bearer-IsChecked :
      (unix : ℕ) (r : Request) (ps : List String)
      → split 32 r.authorization ≡ ps
      → IsChecked unix r (bearer tokens unix r ps)
  unfolding bearer IsChecked http_error
  bearer-IsChecked unix r [] e = refl
  bearer-IsChecked unix r (a ∷ []) e = refl
  bearer-IsChecked unix r (a ∷ b ∷ []) e =
      if_cases (IsChecked unix r) (a == "Bearer")
        (λ same. validated unix r b _ (e ∙ ap (λ x. x ∷ b ∷ []) ((==_iff a "Bearer").0 same)) refl)
        (λ other. refl)
  bearer-IsChecked unix r (a ∷ b ∷ c ∷ ps) e = refl

  pub auth_middleware-IsChecked :
      (unix : ℕ) (r : Request) → IsChecked unix r (auth_middleware tokens unix r)
  unfolding auth_middleware IsChecked http_error
  auth_middleware-IsChecked unix r =
      if_cases (IsChecked unix r) (r.authorization == "") (λ missing. refl)
        (λ there. bearer-IsChecked unix r _ refl)
