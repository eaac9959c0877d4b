-- ===== src/Memory/Titles.antt =====
-- internal/memory/reader.go: the title and the description of a memory file.
use riskkernel.Base.{
  ℕ, ◌==◌, codes, codes_eq, has_prefix, drop_prefix, Runes, is_nil, trim_space, cut, split, Bool,
  ◌&&◌, ◌||◌, Option, none, some, List, [], ◌∷◌, if◌then◌else◌, length, ◌-◌, suc, zero,
}
use riskkernel.Memory.Path.{base, ext}

abbrev is_quote : ℕ → Bool
is_quote c = c == b'"' || c == b'\''

-- strings.Trim(s, `"'`)
unfoldable pub trim_quotes_left : Runes → Runes
trim_quotes_left [] = []
trim_quotes_left (c ∷ s) = let rest = trim_quotes_left s in if is_quote c then rest else c ∷ s

unfoldable pub trim_quotes_right : Runes → Runes
trim_quotes_right [] = []
trim_quotes_right (c ∷ s) =
    let rest = trim_quotes_right s in if is_nil rest && is_quote c then [] else c ∷ rest

-- A map of texts: an entry put later is found first.
abbrev pub Fields : Type 0
Fields = List (Runes × Runes)

-- `fm[key]`.
abbrev pub field_of : Runes → Fields → Runes
field_of key [] = []
field_of key ((k, v) ∷ m) = if codes_eq k key then v else field_of key m

abbrev put_field : Option (Runes × Runes) → Fields → Fields
put_field none m = m
put_field (some (k, v)) m = (trim_space k, trim_quotes_right (trim_quotes_left (trim_space v))) ∷ m

-- The loop of `frontmatter`.
unfoldable pub read_fields : List Runes → Fields → Fields
unfolding trim_quotes_left trim_quotes_right
read_fields [] m = m
read_fields (line ∷ lines) m =
    let rest = read_fields lines (put_field (cut b':' line) m) in
    if codes_eq (trim_space line) (codes "---") then m else rest

abbrev fields_after : List Runes → Fields
fields_after [] = []
fields_after (line ∷ lines) =
    if codes_eq (trim_space line) (codes "---") then read_fields lines [] else []

-- `frontmatter`.
unfoldable pub frontmatter : Runes → Fields
unfolding read_fields
frontmatter content =
    if has_prefix content (codes "---") then fields_after (split b'\n' content) else []

-- `firstHeading`.
unfoldable pub heading_of : List Runes → Runes
heading_of [] = []
heading_of (line ∷ lines) =
    let rest = heading_of lines in
    if has_prefix line (codes "# ") then trim_space (drop_prefix line (codes "# ")) else rest

unfoldable pub first_heading : Runes → Runes
unfolding heading_of
first_heading content = heading_of (split b'\n' content)

-- The first `n` runes.
abbrev keep : ℕ → Runes → Runes
keep zero s = []
keep (suc n) [] = []
keep (suc n) (c ∷ s) = c ∷ keep n s

-- `defaultTitle`: the last part of the name without its extension, which it ends in.
unfoldable pub default_title : Runes → Runes
default_title name = let b = base name in keep (length b - length (ext b)) b

-- `titleFrom`: the title and the description.
abbrev first_title : List Runes → Runes
first_title [] = []
first_title (t ∷ ts) = if is_nil t then first_title ts else t

unfoldable pub title_from : Runes → Runes → Runes → Runes × Runes
unfolding frontmatter first_heading default_title
title_from content name format =
    let fm = frontmatter content in
    if codes_eq format (codes "markdown")
    then (
      first_title (
          field_of (codes "title") fm
          ∷ field_of (codes "name") fm
          ∷ first_heading content
          ∷ default_title name
          ∷ []),
      field_of (codes "description") fm,
    )
    else (default_title name, [])
