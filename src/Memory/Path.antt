-- ===== src/Memory/Path.antt =====
-- The functions of Go's path/filepath that the memory reader calls, as they are on Unix: a path is a
-- text, and its parts are what stands between slashes.
use riskkernel.Base.{
  ◌==◌, codes, codes_eq, has_prefix, Runes, is_nil, split, join_with, Bool, true, false, not, ◌&&◌,
  ◌||◌, List, [], ◌∷◌, ◌++◌, if◌then◌else◌,
}

abbrev pub dot : Runes
dot = b'.' ∷ []

abbrev pub dot_dot : Runes
dot_dot = b'.' ∷ b'.' ∷ []

-- `filepath.IsAbs`.
abbrev pub is_abs : Runes → Bool
is_abs [] = false
is_abs (c ∷ s) = c == b'/'

-- The parts of a cleaned path so far, the last one first, with one more part or without the last.
abbrev pub pop_part : Bool → List Runes → List Runes
pop_part rooted [] = if rooted then [] else dot_dot ∷ []
pop_part rooted (p ∷ stack) = if codes_eq p dot_dot then dot_dot ∷ p ∷ stack else stack

abbrev pub add_part : Bool → Runes → List Runes → List Runes
add_part rooted part stack =
    if is_nil part || codes_eq part dot
    then stack
    else if codes_eq part dot_dot
    then pop_part rooted stack
    else part ∷ stack

unfoldable pub clean_parts : Bool → List Runes → List Runes → List Runes
clean_parts rooted [] stack = stack
clean_parts rooted (part ∷ parts) stack = clean_parts rooted parts (add_part rooted part stack)

-- The parts of a stack in order, before others.
unfoldable pub unwind : List Runes → List Runes → List Runes
unwind [] out = out
unwind (p ∷ stack) out = unwind stack (p ∷ out)

abbrev pub render : Bool → List Runes → Runes
render true parts = b'/' ∷ join_with b'/' parts
render false [] = dot
render false (p ∷ ps) = join_with b'/' (p ∷ ps)

-- `filepath.Clean`.
unfoldable pub clean : Runes → Runes
unfolding clean_parts unwind join_with
clean s =
    if is_nil s
    then dot
    else render (is_abs s) (unwind (clean_parts (is_abs s) (split b'/' s) []) [])

abbrev pub has_dots : List Runes → Bool
has_dots [] = false
has_dots (p ∷ ps) = codes_eq p dot || (codes_eq p dot_dot || has_dots ps)

-- `filepath.IsLocal`.
unfoldable pub is_local : Runes → Bool
unfolding clean
is_local s =
    let t = if has_dots (split b'/' s) then clean s else s in
    not (is_abs s || is_nil s) && not (codes_eq t dot_dot || has_prefix t (codes "../"))

-- `filepath.Join` of two elements.
unfoldable pub join_path : Runes → Runes → Runes
unfolding clean
join_path a b = if not (is_nil a) then clean (a ++ (b'/' ∷ b)) else if is_nil b then [] else clean b

abbrev has_slash : Runes → Bool
has_slash [] = false
has_slash (c ∷ s) = c == b'/' || has_slash s

-- `filepath.Ext`: from the last dot of the last part on.
unfoldable pub ext : Runes → Runes
ext [] = []
ext (c ∷ s) =
    let rest = ext s in
    if not (is_nil rest) then rest else if c == b'.' && not (has_slash s) then c ∷ s else []

unfoldable pub strip_slashes : Runes → Runes
strip_slashes [] = []
strip_slashes (c ∷ s) =
    let rest = strip_slashes s in if is_nil rest && c == b'/' then [] else c ∷ rest

abbrev last_part : List Runes → Runes
last_part [] = []
last_part (p ∷ []) = p
last_part (p ∷ q ∷ ps) = last_part (q ∷ ps)

-- `filepath.Base`.
unfoldable pub base : Runes → Runes
unfolding strip_slashes
base s =
    let b = last_part (split b'/' (strip_slashes s)) in
    if is_nil s then dot else if is_nil b then b'/' ∷ [] else b
