-- ===== src/Memory/Tests.antt =====
-- internal/memory/reader.go: a concrete root with one file.
use riskkernel.Base.{
  ◌≡◌, refl, inl, inr, codes, codes_eq, Runes, trim_left, trim_right, trim_space, cut, split,
  join_with, false, none, some, [], pos, if◌then◌else◌,
}
use riskkernel.Memory.Path.{clean_parts, unwind, clean, is_local, join_path, ext, base}
use riskkernel.Memory.Titles.{
  title_from, frontmatter, read_fields, default_title, first_heading, heading_of, trim_quotes_left,
  trim_quotes_right,
}
use riskkernel.Memory.{
  ok, err, unsafe_path, not_found, Info, FileSystem, memory_ext, safe_join, try_exts,
  resolve_readable, read,
}
use riskkernel.Memory.Safe.{Agree, read_within_root}
use riskkernel.Sample.{unicode}

abbrev root : Runes
root = codes "/m"

abbrev info : Info
info = record { is_dir = false; size = pos 5; mod_time = pos 1 }

-- One file below the root, and another file system with a file outside it.
abbrev inside : FileSystem
inside = record {
  stat = λ p. if codes_eq p (codes "/m/a.md") then some info else none;
  read_file = λ p. if codes_eq p (codes "/m/a.md") then ok (codes "# Hi") else err not_found;
  walk = λ p. [];
}

abbrev wider : FileSystem
wider = record {
  stat = λ p. if codes_eq p (codes "/etc") then some info else inside.stat p;
  read_file = λ p. if codes_eq p (codes "/etc") then ok (codes "x") else inside.read_file p;
  walk = λ p. [];
}

alike : Agree root inside wider
alike p (inl e) = rw e (refl, refl)
alike p (inr (c, e, h)) = rw e (refl, refl)

climbs : safe_join root (codes "a/../../etc") ≡ err unsafe_path
unfolding safe_join is_local clean clean_parts unwind join_with split
climbs = refl

-- A reader of the whole disk refuses every name.
slash_root : safe_join (codes "/") (codes "etc") ≡ err unsafe_path
unfolding safe_join is_local join_path clean clean_parts unwind join_with split
slash_root = refl

stays : safe_join root (codes "b/.././/a.md") ≡ ok (codes "/m/a.md")
unfolding safe_join is_local join_path clean clean_parts unwind join_with split
stays = refl

-- The extension is found, and the title is the heading.
found : resolve_readable ⦃F = inside⦄ root [] (codes "a") ≡ ok (codes "/m/a.md", codes "a.md")
unfolding resolve_readable try_exts memory_ext ext safe_join is_local join_path clean clean_parts
    unwind join_with split
found = refl

titled :
    title_from (codes "---\ndescription: 'd'\n---\n# Hi") (codes "a.md") (codes "markdown")
    ≡ (codes "Hi", codes "d")
unfolding title_from frontmatter read_fields default_title first_heading heading_of trim_quotes_left
    trim_quotes_right trim_space trim_left trim_right cut split base ext
titled = refl

read_within_root_example :
    read ⦃F = inside⦄ root [] (codes "a") ≡ read ⦃F = wider⦄ root [] (codes "a")
read_within_root_example = read_within_root inside wider root [] (codes "a") refl alike
