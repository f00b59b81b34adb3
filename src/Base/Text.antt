-- ===== src/Base/Text.antt =====
-- Texts: their UTF-8 bytes, which Go indexes, and the decimal form of a number.
pub mod Split
use Prim.Native.Nat.{ℕ, zero, suc, ◌+◌, ◌/◌, ◌%◌}
use Prim.Native.Char.{Char, code}
use Prim.Native.String.{String}
use Prim.Native.String
use mathlib.Core.Bool.{Bool, true, false}
use mathlib.Core.List.{List, [], ◌∷◌, ◌++◌}
use flux_forge.Base.Key.{◌==◌, nat_eq}
use flux_forge.Base.Tests.{ltb, if◌then◌else◌}

infixr 65 ◌<>◌
abbrev pub ◌<>◌ : String → String → String
s <> t = String.◌++◌ s t

abbrev utf8 : ℕ → List ℕ
utf8 c =
    if ltb c 0x80
    then c ∷ []
    else if ltb c 0x800
    then (0xC0 + c / 64) ∷ (0x80 + c % 64) ∷ []
    else if ltb c 0x10000
    then (0xE0 + c / 4096) ∷ (0x80 + c / 64 % 64) ∷ (0x80 + c % 64) ∷ []
    else (0xF0 + c / 262144) ∷ (0x80 + c / 4096 % 64) ∷ (0x80 + c / 64 % 64) ∷ (0x80 + c % 64) ∷ []

-- The bytes `s[0]`, `s[1]`, … of a text.
unfoldable pub bytes : String → List ℕ
bytes String.[] = []
bytes (String.◌∷◌ c s) = utf8 (code c) ++ bytes s

-- `s[n:]`, and `==`, on bytes.
unfoldable pub drop_bytes : ℕ → List ℕ → List ℕ
drop_bytes zero s = s
drop_bytes (suc n) [] = []
drop_bytes (suc n) (b ∷ s) = drop_bytes n s

unfoldable pub same_bytes : List ℕ → List ℕ → Bool
same_bytes [] [] = true
same_bytes (a ∷ s) (b ∷ t) = if a == b then same_bytes s t else false
same_bytes _ _ = false

push : Char → List String → List String
push c [] = String.◌∷◌ c String.[] ∷ []
push c (part ∷ parts) = String.◌∷◌ c part ∷ parts

-- `strings.Split(s, sep)` for the separator of one character.
unfoldable pub split : ℕ → String → List String
unfolding push
split sep String.[] = "" ∷ []
split sep (String.◌∷◌ c s) = if code c == sep then "" ∷ split sep s else push c (split sep s)

digit : ℕ → String
digit zero = "0"
digit (suc zero) = "1"
digit (suc (suc zero)) = "2"
digit (suc (suc (suc zero))) = "3"
digit (suc (suc (suc (suc zero)))) = "4"
digit (suc (suc (suc (suc (suc zero))))) = "5"
digit (suc (suc (suc (suc (suc (suc zero)))))) = "6"
digit (suc (suc (suc (suc (suc (suc (suc zero))))))) = "7"
digit (suc (suc (suc (suc (suc (suc (suc (suc zero)))))))) = "8"
digit _ = "9"

-- `fmt.Sprintf("%d", n)`, most significant digit first; a number has fewer digits than its value.
decimal_loop : ℕ → ℕ → String → String
decimal_loop zero n rest = rest
decimal_loop (suc fuel) n rest =
    let shown = digit (n % 10) <> rest in
    let more = decimal_loop fuel (n / 10) shown in if ltb n 10 then shown else more

unfoldable pub decimal : ℕ → String
unfolding decimal_loop digit
decimal n = decimal_loop (suc n) n ""
