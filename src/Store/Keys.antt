-- ===== src/Store/Keys.antt =====
-- control_plane/store/keys.go: the keys of different tenants, kinds and identifiers are apart.
use flux_forge.Base.{String, true, [], ◌∷◌, ◌≡◌, refl, sym, ap, ◌∙◌, arith}
use flux_forge.Base.Text.{◌<>◌, split}
use flux_forge.Base.Text.Split.{lacks, split-lacks, split-part}
use text.Mathlib.TextLemmas.{append_assoc}
use flux_forge.Store.{Resource, agents, jobs, states, resource_string, tenant_key}

-- No part of a key may hold a colon.
abbrev pub IsPlain : String → Type 0
IsPlain s = lacks 58 s ≡ true

resource-IsPlain : (r : Resource) → IsPlain (resource_string r)
unfolding resource_string lacks
resource-IsPlain agents = refl
resource-IsPlain jobs = refl
resource-IsPlain states = refl

-- The fixed head of a key in its parts.
head_parts :
    (rest : String) → "fluxforge:tenants:" <> rest ≡ "fluxforge" <> ":" <> "tenants" <> ":" <> rest
head_parts rest =
    append_assoc "fluxforge" ":tenants:" rest
    ∙ ap (λ x. "fluxforge" <> x)
        (append_assoc ":" "tenants:" rest ∙ ap (λ x. ":" <> x) (append_assoc "tenants" ":" rest))

pub split-tenant_key :
    (t i : String) (r : Resource)
    → IsPlain t
    → IsPlain i
    → split 58 (tenant_key t r i) ≡ "fluxforge" ∷ "tenants" ∷ t ∷ resource_string r ∷ i ∷ []
unfolding tenant_key lacks
split-tenant_key t i r plain plain' =
    let kind = resource_string r in
    ap (split 58) (head_parts (t <> ":" <> kind <> ":" <> i))
    ∙ split-part 58 ":" "fluxforge" ("tenants" <> ":" <> t <> ":" <> kind <> ":" <> i) refl refl
    ∙ ap (λ x. "fluxforge" ∷ x)
        (split-part 58 ":" "tenants" (t <> ":" <> kind <> ":" <> i) refl refl
          ∙ ap (λ x. "tenants" ∷ x)
              (split-part 58 ":" t (kind <> ":" <> i) refl plain
                ∙ ap (λ x. t ∷ x)
                    (split-part 58 ":" kind i refl (resource-IsPlain r)
                      ∙ ap (λ x. kind ∷ x) (split-lacks 58 i plain'))))

-- Two keys whose tenants and identifiers have no colon are equal only if their tenants, their kinds and their identifiers are; so no tenant reaches the entry of another one.
pub tenant_keys_apart :
    (t t' i i' : String) (r r' : Resource)
    → IsPlain t
    → IsPlain t'
    → IsPlain i
    → IsPlain i'
    → tenant_key t r i ≡ tenant_key t' r' i'
    → (t ≡ t') × (resource_string r ≡ resource_string r') × (i ≡ i')
tenant_keys_apart t t' i i' r r' pt pt' pi pi' same =
    let parts =
      sym (split-tenant_key t i r pt pi) ∙ ap (split 58) same ∙ split-tenant_key t' i' r' pt' pi' in
    ground (arith, parts)
