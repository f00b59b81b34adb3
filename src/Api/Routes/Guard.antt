-- ===== src/Api/Routes/Guard.antt =====
-- control_plane/main.go: the routes behind AuthMiddleware need a valid token.
use flux_forge.Base.{
  ℕ, String, true, Option, some, [], ◌∷◌, ◌≡◌, ◌≢◌, ◌⊎◌, refl, string_eq, arith, ==_ne, inl, inr,
}
use flux_forge.Base.Text.{split}
use flux_forge.Limiter.{RateLib}
use flux_forge.Auth.{Claims, TokenLib, Access, denied, granted, auth_middleware, with_cors}
use flux_forge.Auth.Tokens.{IsGenuine}
use flux_forge.Auth.Middleware.{IsChecked, auth_middleware-IsChecked}
use flux_forge.Api.{StoreInterface, Backend, Request, Response, Api, Json, Handled}
use flux_forge.Api.Routes.{
  Route, health, register, heartbeat, agents, jobs, job_result, job, states, state, capture,
  admission_mode, elsewhere, route_of, is_guarded, guarded, checked, routed, mux, cors, serve,
}

module _ {T B R : Type 0} (ops : StoreInterface T) (lib : RateLib B R) (json : Json)
    (tokens : TokenLib) (backend : Option (Backend T))
    (others : Request → Api T B → Option (Handled T B)) where
  -- The request was refused with 401 and nothing has changed, or it came with a token of genuine
  -- claims and its handler has run for their tenant.
  abbrev pub IsGuarded : ℕ → ℕ → String → Request → Api T B → Option (Handled T B) → Type 0
  IsGuarded now unix uuid r a handled =
      ((resp : Response) × (resp.status_code ≡ 401) × (handled ≡ some (a, with_cors resp)))
      ⊎ ((token : String) × (claims : Claims) × (split 32 r.authorization ≡ "Bearer" ∷ token ∷ [])
          × IsGenuine tokens unix token claims
          × (handled
              ≡ cors ops lib json tokens backend others (
                  guarded ops lib json tokens backend others now uuid (route_of r.path)
                    (record r { tenant = some claims.tenant_id }) a)))

  checked_guards :
      (now unix : ℕ) (uuid : String) (r : Request) (a : Api T B) (access : Access tokens)
      → IsChecked tokens unix r access
      → IsGuarded now unix uuid r a (
          cors ops lib json tokens backend others
            (checked ops lib json tokens backend others now uuid (route_of r.path) a access))
  unfolding checked cors IsChecked
  checked_guards now unix uuid r a (denied resp) ok = inl (resp, ok, refl)
  checked_guards now unix uuid r a (granted r') (token, claims, parts, genuine, same) =
      inr (token, claims, parts, genuine, rw same refl)

  routed_checks :
      (now unix : ℕ) (uuid : String) (route : Route) (r : Request) (a : Api T B)
      → is_guarded route ≡ true
      → routed ops lib json tokens backend others now unix uuid route r a
        ≡ checked ops lib json tokens backend others now uuid route a
            (auth_middleware tokens unix r)
  unfolding routed is_guarded
  routed_checks now unix uuid health r a h = ground (arith, h)
  routed_checks now unix uuid register r a h = refl
  routed_checks now unix uuid heartbeat r a h = refl
  routed_checks now unix uuid agents r a h = refl
  routed_checks now unix uuid jobs r a h = refl
  routed_checks now unix uuid job_result r a h = refl
  routed_checks now unix uuid job r a h = refl
  routed_checks now unix uuid states r a h = refl
  routed_checks now unix uuid state r a h = refl
  routed_checks now unix uuid capture r a h = refl
  routed_checks now unix uuid admission_mode r a h = ground (arith, h)
  routed_checks now unix uuid elsewhere r a h = ground (arith, h)

  -- A request to a guarded route, a preflight apart, is refused with 401 and changes nothing, or it carries a bearer token whose claims are signed, unexpired and of the right issuer and audience, and its handler runs for the tenant of those claims, whatever tenant the request names otherwise.
  pub serve-IsGuarded :
      (now unix : ℕ) (uuid : String) (r : Request) (a : Api T B)
      → is_guarded (route_of r.path) ≡ true
      → r.method ≢ "OPTIONS"
      → IsGuarded now unix uuid r a (serve ops lib json tokens backend others now unix uuid r a)
  unfolding serve mux
  serve-IsGuarded now unix uuid r a h plain =
      rw (==_ne r.method "OPTIONS" plain, routed_checks now unix uuid (route_of r.path) r a h)
        (checked_guards now unix uuid r a (auth_middleware tokens unix r)
          (auth_middleware-IsChecked tokens unix r))
