-- ===== src/Base/Glob.antt =====
-- Go's `path.Match`, from its documented pattern grammar: `*` a sequence of characters other than
-- `/`, `?` one such character, a character class, and `\` before a character for itself.
use Prim.Native.Nat.{ℕ, zero, suc}
use mathlib.Core.Bool.{Bool, true, false, not, ◌&&◌, ◌||◌}
use mathlib.Core.Option.{Option, none, some}
use mathlib.Core.List.{List, [], ◌∷◌}
use riskkernel.Base.Bools.{leb, ◌==◌, if◌then◌else◌}
use riskkernel.Base.Lists.{length}

pub data Token : Type 0 where
  char : ℕ → Token
  any_char : Token
  star : Token
  class : Bool → List (ℕ × ℕ) → Token

-- One end of a range in a class: not `-` or `]`, and something must follow it.
abbrev class_char : List ℕ → Option (ℕ × List ℕ)
class_char [] = none
class_char (c ∷ []) = none
class_char (c ∷ d ∷ []) = if c == b'-' || (c == b']' || c == 0x5c) then none else some (c, d ∷ [])
class_char (c ∷ d ∷ e ∷ r) =
    if c == b'-' || c == b']'
    then none
    else if c == 0x5c
    then some (d, e ∷ r)
    else some (c, d ∷ e ∷ r)

-- The ranges up to the closing bracket, of which there is at least one.
class_ranges : ℕ → Bool → List ℕ → Option (List (ℕ × ℕ) × List ℕ)
class_ranges zero first p = none
class_ranges (suc fuel) first [] = none
class_ranges (suc fuel) first (c ∷ p) =
    if c == b']' && not first then some ([], p) else elim (class_char (c ∷ p)) [
      | none ↦ none
      | some (lo, []) ↦ none
      | some (lo, d ∷ q) ↦
          if d == b'-'
          then elim (class_char q) [
            | none ↦ none
            | some (hi, q') ↦ elim (class_ranges fuel false q') [
              | none ↦ none
              | some (rs, rest) ↦ some ((lo, hi) ∷ rs, rest)
            ]
          ]
          else elim (class_ranges fuel false (d ∷ q)) [
            | none ↦ none
            | some (rs, rest) ↦ some ((lo, lo) ∷ rs, rest)
          ]
    ]

abbrev put_token : Token → Option (List Token) → Option (List Token)
put_token t none = none
put_token t (some ts) = some (t ∷ ts)

-- `none` for a malformed pattern.
parse_glob : ℕ → List ℕ → Option (List Token)
unfolding class_ranges
parse_glob zero p = none
parse_glob (suc fuel) [] = some []
parse_glob (suc fuel) (c ∷ p) =
    let plain = put_token (char c) (parse_glob fuel p) in
    let starred = put_token star (parse_glob fuel p) in
    let any = put_token any_char (parse_glob fuel p) in
    let escaped : Option (List Token) = elim p [
      | [] ↦ none
      | d ∷ q ↦ put_token (char d) (parse_glob fuel q)
    ] in
    let closed : Bool → List ℕ → Option (List Token) = λ negated q.
      elim (class_ranges (length q) true q) [
        | none ↦ none
        | some (rs, rest) ↦ put_token (class negated rs) (parse_glob fuel rest)
      ] in
    let bracket : Option (List Token) = elim p [
      | [] ↦ none
      | d ∷ q ↦ if d == b'^' then closed true q else closed false (d ∷ q)
    ] in
    if c == b'*'
    then starred
    else if c == b'?'
    then any
    else if c == 0x5c
    then escaped
    else if c == b'['
    then bracket
    else plain

abbrev in_ranges : ℕ → List (ℕ × ℕ) → Bool
in_ranges c [] = false
in_ranges c ((lo, hi) ∷ rs) = (leb lo c && leb c hi) || in_ranges c rs

-- Some suffix of the name, with no `/` before it, is accepted.
star_match : (List ℕ → Bool) → List ℕ → Bool
star_match rest [] = rest []
star_match rest (c ∷ s) = rest (c ∷ s) || (not (c == b'/') && star_match rest s)

tokens_match : List Token → List ℕ → Bool
unfolding star_match
tokens_match [] [] = true
tokens_match [] (c ∷ s) = false
tokens_match (star ∷ ts) s = star_match (tokens_match ts) s
tokens_match (char d ∷ ts) [] = false
tokens_match (char d ∷ ts) (c ∷ s) = (d == c) && tokens_match ts s
tokens_match (any_char ∷ ts) [] = false
tokens_match (any_char ∷ ts) (c ∷ s) = not (c == b'/') && tokens_match ts s
tokens_match (class negated rs ∷ ts) [] = false
tokens_match (class negated rs ∷ ts) (c ∷ s) =
    (if negated then not (in_ranges c rs) else in_ranges c rs) && tokens_match ts s

-- `ok, err := path.Match(p, s); err == nil && ok`
unfoldable pub path_match : List ℕ → List ℕ → Bool
unfolding parse_glob tokens_match
path_match p s = elim (parse_glob (suc (length p)) p) [ none ↦ false | some ts ↦ tokens_match ts s ]
