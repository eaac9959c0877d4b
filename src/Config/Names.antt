-- ===== src/Config/Names.antt =====
-- internal/config/config.go: lists in environment variables.
use riskkernel.Base.{
  ◌≡◌, refl, sym, ◌∙◌, ap, Runes, is_nil, is_space, trim_left, trim_right, trim_space, join_with,
  split-join_with, Without, AllWithout, Bool, true, false, ◌&&◌, Bool-cases, inl, inr, List, [],
  ◌∷◌, ◌++◌, arith,
}
use riskkernel.Config.{trimmed_parts, split_list}

abbrev is_blank : Runes → Bool
is_blank [] = true
is_blank (c ∷ s) = is_space c && is_blank s

is_nil-trim_right : (s : Runes) → is_nil (trim_right s) ≡ is_blank s
unfolding trim_right
is_nil-trim_right [] = refl
is_nil-trim_right (c ∷ s) = ground (arith, is_nil-trim_right s)

is_blank-trim_left : (s : Runes) → is_blank (trim_left s) ≡ is_blank s
unfolding trim_left
is_blank-trim_left [] = refl
is_blank-trim_left (c ∷ s) = elim (Bool-cases (is_space c)) [
  | inl e ↦ rw e (is_blank-trim_left s)
  | inr e ↦ let kept : trim_left (c ∷ s) ≡ c ∷ s = rw e in ap (λ t. is_blank t) kept
]

is_nil-trim_space : (s : Runes) → is_nil (trim_space s) ≡ is_blank s
unfolding trim_space
is_nil-trim_space s = is_nil-trim_right (trim_left s) ∙ is_blank-trim_left s

is_blank-append : (a b : Runes) → is_blank (a ++ b) ≡ is_blank a && is_blank b
is_blank-append [] b = refl
is_blank-append (c ∷ a) b = ground (arith, is_blank-append a b)

-- A name: not blank, with no comma in it and no white space around it.
pub record IsName (n : Runes) : Type 0 where
  pub plain : Without b',' n
  pub trimmed : trim_space n ≡ n
  pub nonempty : is_nil n ≡ false

abbrev pub AreNames : List Runes → Type 0
AreNames [] = Unit
AreNames (n ∷ ns) = IsName n × AreNames ns

AreNames-AllWithout : (ns : List Runes) → AreNames ns → AllWithout b',' ns
AreNames-AllWithout [] h = tt
AreNames-AllWithout (n ∷ ns) h = (h.0.plain, AreNames-AllWithout ns h.1)

trimmed_parts-names : (ns : List Runes) → AreNames ns → trimmed_parts ns ≡ ns
unfolding trimmed_parts
trimmed_parts-names [] h = refl
trimmed_parts-names (n ∷ ns) h =
    rw (h.0.trimmed, h.0.nonempty) (ap (λ l. n ∷ l) (trimmed_parts-names ns h.1))

name-is_blank : (n : Runes) → IsName n → is_blank n ≡ false
name-is_blank n h = sym (is_nil-trim_space n) ∙ ap (λ s. is_nil s) h.trimmed ∙ h.nonempty

join_with-is_blank :
    (n : Runes) (ns : List Runes) → AreNames (n ∷ ns) → is_blank (join_with b',' (n ∷ ns)) ≡ false
unfolding join_with
join_with-is_blank n [] h = name-is_blank n h.0
join_with-is_blank n (m ∷ ns) h =
    is_blank-append n (b',' ∷ join_with b',' (m ∷ ns)) ∙ rw (name-is_blank n h.0)

-- A list of names joined by commas reads back as it is; so an allowlist with a name in it is never
-- read as the empty one, which would allow every tool.
pub split_list-join_with : (ns : List Runes) → AreNames ns → split_list (join_with b',' ns) ≡ ns
unfolding split_list join_with
split_list-join_with [] h = rw (is_nil-trim_space (join_with b',' []), join_with)
split_list-join_with (n ∷ ns) h =
    rw (is_nil-trim_space (join_with b',' (n ∷ ns)) ∙ join_with-is_blank n ns h) (
      rw (split-join_with b',' n ns (AreNames-AllWithout (n ∷ ns) h))
        (trimmed_parts-names (n ∷ ns) h))
