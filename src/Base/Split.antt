-- ===== src/Base/Split.antt =====
-- Go's `strings` on lists of code points: white space, cutting and splitting at a rune.
use Prim.Native.Nat.{ℕ}
use mathlib.Core.Bool.{Bool, true, false, ◌&&◌, ◌||◌}
use mathlib.Core.Option.{Option, none, some}
use mathlib.Core.List.{List, [], ◌∷◌, ◌++◌}
use mathlib.Core.Path.{◌≡◌, refl, subst}
use mathlib.Core.Logic.{inl, inr}
use native.Mathlib.Omega.{arith}
use riskkernel.Base.Bools.{leb, ◌==◌, Bool-cases, if◌then◌else◌}
use riskkernel.Base.Text.{has_prefix}

abbrev pub Runes : Type 0
Runes = List ℕ

abbrev pub is_nil : {A : Type 0} → List A → Bool
is_nil [] = true
is_nil (_ ∷ _) = false

-- `unicode.IsSpace`.
abbrev pub is_space : ℕ → Bool
is_space c =
    (leb 9 c && leb c 13)
    || (c == 0x20
        || (c == 0x85
            || (c == 0xa0
                || (c == 0x1680
                    || ((leb 0x2000 c && leb c 0x200a)
                        || (c == 0x2028
                            || (c == 0x2029 || (c == 0x202f || (c == 0x205f || c == 0x3000)))))))))

-- `strings.TrimSpace`.
unfoldable pub trim_left : Runes → Runes
trim_left [] = []
trim_left (c ∷ s) = let rest = trim_left s in if is_space c then rest else c ∷ s

unfoldable pub trim_right : Runes → Runes
trim_right [] = []
trim_right (c ∷ s) = let rest = trim_right s in if is_nil rest && is_space c then [] else c ∷ rest

unfoldable pub trim_space : Runes → Runes
unfolding trim_left trim_right
trim_space s = trim_right (trim_left s)

abbrev pub before_rest : ℕ → Option (Runes × Runes) → Option (Runes × Runes)
before_rest x none = none
before_rest x (some (k, v)) = some (x ∷ k, v)

-- `strings.Cut` at one rune: the text before it and the text after it.
unfoldable pub cut : ℕ → Runes → Option (Runes × Runes)
cut c [] = none
cut c (x ∷ s) = let rest = before_rest x (cut c s) in if x == c then some ([], s) else rest

abbrev pub onto_first : ℕ → List Runes → List Runes
onto_first x [] = (x ∷ []) ∷ []
onto_first x (p ∷ ps) = (x ∷ p) ∷ ps

-- `strings.Split` at one rune.
unfoldable pub split : ℕ → Runes → List Runes
split c [] = [] ∷ []
split c (x ∷ s) = let rest = split c s in if x == c then [] ∷ rest else onto_first x rest

-- `strings.Contains`.
unfoldable pub contains : Runes → Runes → Bool
contains [] q = is_nil q
contains (x ∷ s) q = has_prefix (x ∷ s) q || contains s q

-- What follows a prefix, which the text is known to have.
abbrev pub drop_prefix : Runes → Runes → Runes
drop_prefix s [] = s
drop_prefix [] (y ∷ p) = []
drop_prefix (x ∷ s) (y ∷ p) = drop_prefix s p

-- `strings.Join` with one rune between the parts.
unfoldable pub join_with : ℕ → List Runes → Runes
join_with c [] = []
join_with c (p ∷ []) = p
join_with c (p ∷ q ∷ ps) = p ++ (c ∷ join_with c (q ∷ ps))

-- A text without a rune, and a list of such texts.
abbrev pub Without : ℕ → Runes → Type 0
Without c [] = Unit
Without c (x ∷ s) = ((x == c) ≡ false) × Without c s

abbrev pub AllWithout : ℕ → List Runes → Type 0
AllWithout c [] = Unit
AllWithout c (p ∷ ps) = Without c p × AllWithout c ps

-- A split has a first part.
pub split_first : (c : ℕ) (s : Runes) → (h : Runes) × (r : List Runes) × (split c s ≡ h ∷ r)
unfolding split
split_first c [] = ([], [], refl)
split_first c (x ∷ s) =
    let (h, r, e) = split_first c s in
    elim (Bool-cases (x == c)) [ inl q ↦ ([], split c s, rw q) | inr q ↦ (x ∷ h, r, rw (q, e)) ]

pub split-plain : (c : ℕ) (s : Runes) → Without c s → split c s ≡ s ∷ []
unfolding split
split-plain c [] h = refl
split-plain c (x ∷ s) h = rw (h.0, split-plain c s h.1)

pub split-append : (c : ℕ) (a t : Runes) → split c (a ++ (c ∷ t)) ≡ split c a ++ split c t
unfolding split
split-append c [] t = let same : (c == c) ≡ true = ground arith in rw same
split-append c (x ∷ a) t =
    let (h, r, e) = split_first c a in
    elim (Bool-cases (x == c)) [
      | inl q ↦ rw q (rw (split-append c a t))
      | inr q ↦ rw (q, split-append c a t) (rw e)
    ]

pub split-join_with :
    (c : ℕ) (p : Runes) (ps : List Runes)
    → AllWithout c (p ∷ ps)
    → split c (join_with c (p ∷ ps)) ≡ p ∷ ps
unfolding join_with
split-join_with c p [] h = split-plain c p h.0
split-join_with c p (q ∷ ps) h =
    rw (split-append c p (join_with c (q ∷ ps)), split-plain c p h.0, split-join_with c q ps h.1)

pub split-AllWithout : (c : ℕ) (s : Runes) → AllWithout c (split c s)
unfolding split
split-AllWithout c [] = (tt, tt)
split-AllWithout c (x ∷ s) =
    let (h, r, e) = split_first c s in
    let all = subst (λ l. AllWithout c l) e (split-AllWithout c s) in
    elim (Bool-cases (x == c)) [
      | inl q ↦ rw q (tt, split-AllWithout c s)
      | inr q ↦ rw (q, e) ((q, all.0), all.1)
    ]

pub has_prefix-drop_prefix : (s p : Runes) → has_prefix s p ≡ true → s ≡ p ++ drop_prefix s p
has_prefix-drop_prefix s [] h = refl
has_prefix-drop_prefix [] (y ∷ p) h = cc
has_prefix-drop_prefix (x ∷ s) (y ∷ p) h = ground (arith, has_prefix-drop_prefix s p)
