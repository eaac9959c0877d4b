-- ===== src/Memory.antt =====
-- internal/memory/reader.go: the reader of a user's memory directory. The file system is a parameter:
-- what `os.Stat` and `os.ReadFile` answer at a path, and what a walk of a directory visits.
pub mod Path
pub mod Titles
pub mod Safe
mod Tests
use riskkernel.Base.{
  ℤ, pos, codes, codes_eq, to_lower, Unicode, has_prefix, contains, Runes, is_nil, String, Bool,
  true, false, not, ◌&&◌, ◌||◌, Option, none, some, List, [], ◌∷◌, ◌++◌, if◌then◌else◌, Time,
}
use riskkernel.Memory.Path.{clean, is_local, join_path, ext, dot}
use riskkernel.Memory.Titles.{title_from, default_title}

pub data MemoryError : Type 0 where
  not_found unsafe_path failed : MemoryError

pub data Result {ℓ} (A : Type ℓ) : Type ℓ where
  ok : A → Result A
  err : MemoryError → Result A

pub record Entry : Type 0 where
  pub namespace : Runes
  pub name : Runes
  pub title : Runes
  pub description : Runes
  pub format : Runes
  pub size : ℤ
  pub mod_time : Time

-- What `os.Stat` says of a file.
pub record Info : Type 0 where
  pub is_dir : Bool
  pub size : ℤ
  pub mod_time : Time

-- What a walk visits: a path, and the same relative to the base, with what is known of it; or an
-- error, which ends the walk.
pub data Visit : Type 0 where
  visited : Runes → Runes → Bool → Option Info → Visit
  visit_missing visit_failed : Visit

pub record FileSystem : Type 0 where
  pub stat : Runes → Option Info
  pub read_file : Runes → Result Runes
  pub walk : Runes → List Visit

-- `memoryExts`.
unfoldable pub memory_ext : Runes → Option Runes
memory_ext e =
    if codes_eq e (codes ".md")
    then some (codes "markdown")
    else if codes_eq e (codes ".markdown")
    then some (codes "markdown")
    else if codes_eq e (codes ".yaml")
    then some (codes "yaml")
    else if codes_eq e (codes ".yml")
    then some (codes "yaml")
    else if codes_eq e (codes ".txt")
    then some (codes "text")
    else none

-- `extOrder`.
abbrev pub ext_order : List Runes
ext_order = codes ".md" ∷ codes ".markdown" ∷ codes ".yaml" ∷ codes ".yml" ∷ codes ".txt" ∷ []

-- `NewReader`: the root that it keeps; `abs` is what `filepath.Abs` answers for the directory.
unfoldable pub new_reader : Option Runes → Runes → Runes
new_reader none dir = clean dir
new_reader (some abs) dir = clean abs

-- `safeJoin`.
unfoldable pub safe_join : Runes → Runes → Result Runes
safe_join root rel =
    let cleaned = clean rel in
    let joined = join_path root cleaned in
    if codes_eq cleaned dot
    then ok root
    else if not (is_local cleaned)
    then err unsafe_path
    else if not (codes_eq joined root) && not (has_prefix joined (root ++ (b'/' ∷ [])))
    then err unsafe_path
    else ok joined

-- `resolveDir` and `resolveFile`.
abbrev pub resolve_dir : Runes → Runes → Result Runes
resolve_dir root namespace = safe_join root namespace

abbrev pub resolve_file : Runes → Runes → Runes → Result Runes
resolve_file root namespace name = safe_join root (join_path namespace name)

-- `sizeOf` and `modTime`.
abbrev size_of : Option Info → ℤ
size_of none = pos 0
size_of (some i) = i.size

abbrev mod_time_of : Option Info → Time
mod_time_of none = pos 0
mod_time_of (some i) = i.mod_time

abbrev pub is_file : Option Info → Bool
is_file none = false
is_file (some i) = not i.is_dir

abbrev pub is_known : Option Runes → Bool
is_known none = false
is_known (some f) = true

abbrev format_or_text : Option Runes → Runes
format_or_text none = codes "text"
format_or_text (some f) = f

module _ ⦃U : Unicode⦄ ⦃F : FileSystem⦄ where
  -- The loop of `resolveReadable` over the extensions.
  abbrev pub try_path : Result Runes → Runes → Result (Runes × Runes) → Result (Runes × Runes)
  try_path (err e) cand rest = rest
  try_path (ok p) cand rest = if is_file (F.stat p) then ok (p, cand) else rest

  unfoldable pub try_exts : Runes → Runes → Runes → List Runes → Result (Runes × Runes)
  try_exts root namespace name [] = err not_found
  try_exts root namespace name (e ∷ es) =
      try_path (resolve_file root namespace (name ++ e)) (name ++ e)
        (try_exts root namespace name es)

  -- `resolveReadable`.
  abbrev pub resolve_from : Result Runes → Runes → Runes → Runes → Result (Runes × Runes)
  resolve_from (err e) root namespace name = err e
  resolve_from (ok p) root namespace name =
      if is_file (F.stat p)
      then ok (p, name)
      else if is_known (memory_ext (to_lower (ext name)))
      then err not_found
      else try_exts root namespace name ext_order

  unfoldable pub resolve_readable : Runes → Runes → Runes → Result (Runes × Runes)
  resolve_readable root namespace name =
      resolve_from (resolve_file root namespace name) root namespace name

  -- `Read`.
  abbrev pub read_content :
      Runes → Runes → Runes → Option Info → Result Runes → Result (Runes × Entry)
  read_content namespace path resolved info (err not_found) = err not_found
  read_content namespace path resolved info (err e) = err failed
  read_content namespace path resolved info (ok content) =
      let format = format_or_text (memory_ext (to_lower (ext path))) in
      let (title, description) = title_from content resolved format in
      ok (
        content,
        record {
          namespace = namespace;
          name = resolved;
          title = title;
          description = description;
          format = format;
          size = size_of info;
          mod_time = mod_time_of info;
        },
      )

  abbrev pub read_resolved : Runes → Result (Runes × Runes) → Result (Runes × Entry)
  read_resolved namespace (err e) = err e
  read_resolved namespace (ok (path, resolved)) =
      read_content namespace path resolved (F.stat path) (F.read_file path)

  unfoldable pub read : Runes → Runes → Runes → Result (Runes × Entry)
  unfolding resolve_readable
  read root namespace name = read_resolved namespace (resolve_readable root namespace name)

  -- `metadata`.
  abbrev pub metadata_of : Result Runes → Runes → Runes → Runes × Runes
  metadata_of (err e) name format = (default_title name, [])
  metadata_of (ok content) name format = title_from content name format

  abbrev pub metadata : Runes → Runes → Runes → Runes × Runes
  metadata path name format = metadata_of (F.read_file path) name format

  -- The entry that `List` makes of a file.
  abbrev pub listed_entry : Runes → Runes → Runes → Option Info → Runes → Entry
  listed_entry namespace path rel info format =
      let (title, description) = metadata path rel format in
      record {
        namespace = namespace;
        name = rel;
        title = title;
        description = description;
        format = format;
        size = size_of info;
        mod_time = mod_time_of info;
      }

  abbrev pub put_entry : Option Runes → (Runes → Entry) → Result (List Entry) → Result (List Entry)
  put_entry none make rest = rest
  put_entry (some format) make (err e) = err e
  put_entry (some format) make (ok es) = ok (make format ∷ es)

  -- The walk of `List`.
  unfoldable pub list_visits : Runes → List Visit → Result (List Entry)
  list_visits namespace [] = ok []
  list_visits namespace (visit_missing ∷ vs) = ok []
  list_visits namespace (visit_failed ∷ vs) = err failed
  list_visits namespace (visited path rel is_dir info ∷ vs) =
      let rest = list_visits namespace vs in
      if is_dir
      then rest
      else put_entry (memory_ext (to_lower (ext path))) (listed_entry namespace path rel info) rest

  abbrev pub list_under : Runes → Result Runes → Result (List Entry)
  list_under namespace (err e) = err e
  list_under namespace (ok dir) = list_visits namespace (F.walk dir)

  -- `List`.
  unfoldable pub list : Runes → Runes → Result (List Entry)
  unfolding list_visits
  list root namespace = list_under namespace (resolve_dir root namespace)

  -- `Search`: whether an entry matches a query in small letters.
  abbrev pub content_matches : Runes → Result (Runes × Entry) → Bool
  content_matches q (err e) = false
  content_matches q (ok (content, e)) = contains (to_lower content) q

  unfoldable pub entry_matches : Runes → Runes → Entry → Bool
  entry_matches root q e =
      contains (to_lower e.name) q
      || (contains (to_lower e.title) q
          || (contains (to_lower e.description) q
              || content_matches q (read root e.namespace e.name)))

  unfoldable pub matching : Runes → Runes → List Entry → List Entry
  matching root q [] = []
  matching root q (e ∷ es) =
      let rest = matching root q es in if entry_matches root q e then e ∷ rest else rest

  abbrev pub search_listed : Runes → Runes → Result (List Entry) → Result (List Entry)
  search_listed root query (err e) = err e
  search_listed root query (ok es) =
      if is_nil query then ok es else ok (matching root (to_lower query) es)

  unfoldable pub search_entries : Runes → Runes → Runes → Result (List Entry)
  unfolding list matching
  search_entries root namespace query = search_listed root query (list root namespace)
