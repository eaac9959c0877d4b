-- ===== src/Base/Text.antt =====
-- Go strings: compared whole as native texts, walked as lists of code points.
use Prim.Native.Nat.{ℕ, ◌+◌}
use Prim.Native.Char.{code}
use Prim.Native.String.{String}
use mathlib.Core.Path.{◌≡◌, refl}
use mathlib.Core.Logic.{◌↔◌}
use mathlib.Core.Bool.{Bool, true, false, ◌&&◌}
use mathlib.Core.List.{List, [], ◌∷◌}
use native.Mathlib.Omega.{arith}
use text.Mathlib.Text.{◌==◌ as text_eq}
use text.Mathlib.TextEquality.{eq_iff}
use riskkernel.Base.Bools.{ltb, leb, ◌==◌, if◌then◌else◌}

abbrev pub str_eq : String → String → Bool
str_eq s t = text_eq s t

pub str_eq_iff : (s t : String) → (str_eq s t ≡ true) ↔ (s ≡ t)
str_eq_iff s t = eq_iff s t

-- The code points of a text. `String` has its own `[]` and `∷`.
abbrev pub codes : String → List ℕ
codes String.[] = []
codes (String.◌∷◌ c s) = code c ∷ codes s

abbrev pub codes_eq : List ℕ → List ℕ → Bool
codes_eq [] [] = true
codes_eq (x ∷ xs) (y ∷ ys) = (x == y) && codes_eq xs ys
codes_eq _ _ = false

-- `strings.HasPrefix(s, p)`.
abbrev pub has_prefix : List ℕ → List ℕ → Bool
has_prefix s [] = true
has_prefix [] (y ∷ ys) = false
has_prefix (x ∷ xs) (y ∷ ys) = (x == y) && has_prefix xs ys

-- `unicode.ToLower` outside ASCII, which the program reaches through `strings.ToLower`.
pub record Unicode : Type 0 where
  pub lower_wide : ℕ → ℕ

abbrev pub lower_rune : ⦃U : Unicode⦄ → ℕ → ℕ
lower_rune ⦃U⦄ c =
    if ltb c 128 then (if leb b'A' c && leb c b'Z' then c + 32 else c) else U.lower_wide c

-- `strings.ToLower`.
abbrev pub to_lower : ⦃U : Unicode⦄ → List ℕ → List ℕ
to_lower [] = []
to_lower (c ∷ cs) = lower_rune c ∷ to_lower cs

abbrev pub ascii : Unicode
ascii = record { lower_wide = λ c. c }

pub codes_eq→eq : (s t : List ℕ) → codes_eq s t ≡ true → s ≡ t
codes_eq→eq [] [] h = refl
codes_eq→eq [] (y ∷ t) h = cc
codes_eq→eq (x ∷ s) [] h = cc
codes_eq→eq (x ∷ s) (y ∷ t) h = ground (arith, codes_eq→eq s t)

pub codes_eq_refl : (s : List ℕ) → codes_eq s s ≡ true
codes_eq_refl [] = refl
codes_eq_refl (x ∷ s) = ground (arith, codes_eq_refl s)
