-- ===== src/Provider/Lines.antt =====
-- internal/provider/{openai,anthropic}.go: the lines that Recv reads, and their payloads.
use riskkernel.Base.{
  ◌<◌, ◌==◌, ◌≡◌, refl, ◌⊎◌, inl, inr, trim_left, trim_right, trim_space, split, Runes, is_nil,
  is_space, length, Bool-cases, true, false, none, [], ◌∷◌, ◌++◌, arith,
}
use riskkernel.Provider.Sse.{Line, read_line, payload_of}

-- A line and what is left make up the body.
pub read_line-whole : (s : Runes) → (read_line s).text ++ (read_line s).rest ≡ s
unfolding read_line
read_line-whole [] = refl
read_line-whole (c ∷ s) = ground (arith, read_line-whole s)

-- Where the connection goes on, the body gets shorter.
pub read_line-shorter :
    (s : Runes) → (read_line s).ended ≡ false → length (read_line s).rest < length s
unfolding read_line
read_line-shorter [] h = cc
read_line-shorter (c ∷ s) h = ground (arith, read_line-shorter s)

pub read_line-last : (s : Runes) → (read_line s).ended ≡ true → (read_line s).rest ≡ []
unfolding read_line
read_line-last [] h = refl
read_line-last (c ∷ s) h = ground (arith, read_line-last s)

pub read_line-more : (s : Runes) → (read_line s).ended ≡ false → is_nil (read_line s).text ≡ false
unfolding read_line
read_line-more [] h = cc
read_line-more (c ∷ s) h = ground arith

-- The parts of the body at its newlines: the line's, without its newline, and those of the rest.
abbrev pub Parts : Runes → Line → Type 0
Parts s l =
    ((l.ended ≡ true) × (split 10 s ≡ l.text ∷ []))
    ⊎ ((l.ended ≡ false)
        × ((t : Runes) × (l.text ≡ t ++ (10 ∷ [])) × (split 10 s ≡ t ∷ split 10 l.rest)))

pub read_line-Parts : (s : Runes) → Parts s (read_line s)
unfolding read_line split
read_line-Parts [] = inl (refl, refl)
read_line-Parts (c ∷ s) = elim (Bool-cases (c == 10)) [
  | inl q ↦ rw q (inr (refl, ([], refl, refl)))
  | inr q ↦ rw q (elim (read_line-Parts s) [
    | inl (ended, parts) ↦ inl (ended, rw parts)
    | inr (more, (t, text, parts)) ↦ inr (more, (c ∷ t, rw text, rw parts))
  ])
]

-- A newline at the end makes no difference to a payload.

trim_right-newline : (s : Runes) → trim_right (s ++ (10 ∷ [])) ≡ trim_right s
unfolding trim_right
trim_right-newline [] = refl
trim_right-newline (c ∷ s) = rw (trim_right-newline s)

trim_space-newline : (s : Runes) → trim_space (s ++ (10 ∷ [])) ≡ trim_space s
unfolding trim_space trim_left
trim_space-newline [] = refl
trim_space-newline (c ∷ s) = elim (Bool-cases (is_space c)) [
  | inl q ↦ rw q (trim_space-newline s)
  | inr q ↦ rw q (trim_right-newline (c ∷ s))
]

pub payload_of-newline : (s : Runes) → payload_of (s ++ (10 ∷ [])) ≡ payload_of s
unfolding payload_of
payload_of-newline s = rw (trim_space-newline s)

pub payload_of-nil : payload_of [] ≡ none
unfolding payload_of trim_space trim_left trim_right
payload_of-nil = refl
