-- ===== src/Base/Text/Split.antt =====
-- Splitting a text at a character, as strings.Split does.
use Prim.Native.Nat.{ℕ}
use Prim.Native.Char.{Char, code}
use Prim.Native.String.{String}
use mathlib.Core.Bool.{Bool, true, false}
use mathlib.Core.List.{[], ◌∷◌}
use mathlib.Core.Path.{◌≡◌, refl, ap, ◌∙◌}
use native.Mathlib.Omega.{arith}
use text.Mathlib.TextLemmas.{cons-append, nil-append}
use flux_forge.Base.Tests.{if◌then◌else◌}
use flux_forge.Base.Key.{◌==◌, nat_eq, ==_refl}
use flux_forge.Base.Text.{◌<>◌, split, push}

-- The text does not have the character.
unfoldable pub lacks : ℕ → String → Bool
lacks sep String.[] = true
lacks sep (String.◌∷◌ c s) = if code c == sep then false else lacks sep s

pub split-lacks : (sep : ℕ) (s : String) → lacks sep s ≡ true → split sep s ≡ s ∷ []
unfolding split lacks push
split-lacks sep String.[] h = refl
split-lacks sep (String.◌∷◌ c s) h =
    let rest = split-lacks sep s (ground (arith, h)) in ground (arith, h, rest)

pub split-append :
    (sep : ℕ) (s rest : String) (c : Char)
    → code c ≡ sep
    → lacks sep s ≡ true
    → split sep (s <> String.◌∷◌ c rest) ≡ s ∷ split sep rest
unfolding split lacks push
split-append sep String.[] rest c e h =
    let whole : String.[] <> String.◌∷◌ c rest ≡ String.◌∷◌ c rest = nil-append _ in
    rw (whole, e, ==_refl sep) refl
split-append sep (String.◌∷◌ d s) rest c e h =
    let more = split-append sep s rest c e (ground (arith, h)) in
    let whole : String.◌∷◌ d s <> String.◌∷◌ c rest ≡ String.◌∷◌ d (s <> String.◌∷◌ c rest) =
      cons-append d s (String.◌∷◌ c rest) in
    let other : (code d == sep) ≡ false = ground (arith, h) in rw (whole, other, more) refl

-- The same, with the separator as a text of its own.
pub split-part :
    (sep : ℕ) (c : Char) (s rest : String)
    → code c ≡ sep
    → lacks sep s ≡ true
    → split sep (s <> String.◌∷◌ c String.[] <> rest) ≡ s ∷ split sep rest
split-part sep c s rest e h =
    let joined : String.◌∷◌ c String.[] <> rest ≡ String.◌∷◌ c rest =
      cons-append c String.[] rest ∙ ap (String.◌∷◌ c) (nil-append rest) in
    rw joined (split-append sep s rest c e h)
