-- ===== src/Storage/Summary.antt =====
-- internal/storage/sqlite.go: SummarizeLedger, the cost ledger grouped by one dimension. What the engine
-- makes of texts is a parameter: the day of a time, and the order of two keys.
use riskkernel.Base.{
  ℕ, leb, ◌==◌, ℤ, pos, ◌+ℤ◌, wrap64, String, str_eq, codes, codes_eq, has_prefix, drop_prefix,
  Runes, is_nil, length, map, Bool, true, not, ◌&&◌, ◌||◌, Option, none, some, List, [], ◌∷◌, ◌++◌,
  if◌then◌else◌, Float64, Time,
}
use riskkernel.Storage.{RunRecord, LedgerEntry, failed, Result, ok, err}
use riskkernel.Storage.Sqlite.{Engine, Db, select, select_one, sum_of, fits_int64}

pub record Texts : Type 0 where
  pub day_of : Time → String
  pub key_before : String → String → Bool

pub data Dimension : Type 0 where
  by_provider by_model by_day by_name : Dimension
  by_metadata : Runes → Dimension

pub record SummarizeOptions : Type 0 where
  pub by : String
  pub since : Option Time
  pub until : Option Time

pub record UsageGroup (D : Type 0) : Type 0 where
  pub key : String
  pub calls : ℤ
  pub prompt_tokens : ℤ
  pub completion_tokens : ℤ
  pub dollars : D

pub record UsageSummary (D : Type 0) : Type 0 where
  pub by : String
  pub groups : List (UsageGroup D)
  pub total : UsageGroup D

-- `validMetaKey`.
abbrev pub is_key_rune : ℕ → Bool
is_key_rune c =
    (leb b'a' c && leb c b'z')
    || ((leb b'A' c && leb c b'Z') || ((leb b'0' c && leb c b'9') || (c == b'_' || c == b'-')))

unfoldable pub all_key_runes : Runes → Bool
all_key_runes [] = true
all_key_runes (c ∷ s) = is_key_rune c && all_key_runes s

unfoldable pub valid_meta_key : Runes → Bool
unfolding all_key_runes
valid_meta_key k = not (is_nil k) && all_key_runes k

-- The switch on the dimension; `none` is an error.
unfoldable pub dimension_of : String → Option Dimension
unfolding valid_meta_key
dimension_of by =
    if str_eq by "provider"
    then some by_provider
    else if str_eq by "model"
    then some by_model
    else if str_eq by "day"
    then some by_day
    else if str_eq by "name"
    then some by_name
    else if has_prefix (codes by) (codes "metadata.")
    then (if valid_meta_key (drop_prefix (codes by) (codes "metadata."))
        then some (by_metadata (drop_prefix (codes by) (codes "metadata.")))
        else none)
    else none

-- `COALESCE(json_extract(metadata, '$.key'), '(none)')`.
abbrev pub metadata_value : Runes → List (String × String) → String
metadata_value key [] = "(none)"
metadata_value key ((k, v) ∷ m) = if codes_eq (codes k) key then v else metadata_value key m

module _ {D : Type 0} where
  -- The group of a row; a dimension that joins `runs` has none for a row with no run.
  abbrev pub run_name : Option (RunRecord D) → Option String
  run_name none = none
  run_name (some r) = some r.name

  abbrev pub run_metadata : Runes → Option (RunRecord D) → Option String
  run_metadata key none = none
  run_metadata key (some r) = some (metadata_value key r.metadata)

  abbrev pub run_of : List (RunRecord D) → LedgerEntry D → Option (RunRecord D)
  run_of runs e = select_one (λ (r : RunRecord D). str_eq r.id e.run_id) runs

  unfoldable pub group_key :
      ⦃T : Texts⦄ → List (RunRecord D) → Dimension → LedgerEntry D → Option String
  group_key ⦃T⦄ runs by_provider e = some e.provider
  group_key ⦃T⦄ runs by_model e = some e.model
  group_key ⦃T⦄ runs by_day e = some (T.day_of e.created_at)
  group_key ⦃T⦄ runs by_name e = run_name (run_of runs e)
  group_key ⦃T⦄ runs (by_metadata key) e = run_metadata key (run_of runs e)

  -- `GROUP BY`: the rows of each key.
  abbrev pub put_in_group :
      String
      → LedgerEntry D
      → List (String × List (LedgerEntry D))
      → List (String × List (LedgerEntry D))
  put_in_group k e [] = (k, e ∷ []) ∷ []
  put_in_group k e ((j, rows) ∷ gs) =
      let rest = put_in_group k e gs in
      if str_eq j k then (j, rows ++ (e ∷ [])) ∷ gs else (j, rows) ∷ rest

  abbrev pub put_row :
      Option String
      → LedgerEntry D
      → List (String × List (LedgerEntry D))
      → List (String × List (LedgerEntry D))
  put_row none e gs = gs
  put_row (some k) e gs = put_in_group k e gs

  unfoldable pub group_rows :
      (LedgerEntry D → Option String)
      → List (LedgerEntry D)
      → List (String × List (LedgerEntry D))
      → List (String × List (LedgerEntry D))
  group_rows key [] gs = gs
  group_rows key (e ∷ es) gs = group_rows key es (put_row (key e) e gs)

module _ {D : Type 0} ⦃E : Engine D⦄ where
  -- The row of a group; a SUM of integers beyond int64 is an error.
  unfoldable pub aggregate : String → List (LedgerEntry D) → Option (UsageGroup D)
  aggregate key rows =
      let prompt = sum_of (λ (e : LedgerEntry D). e.prompt_tokens) rows in
      let completion = sum_of (λ (e : LedgerEntry D). e.completion_tokens) rows in
      if fits_int64 prompt && fits_int64 completion
      then some (record {
        key = key;
        calls = pos (length rows);
        prompt_tokens = prompt;
        completion_tokens = completion;
        dollars = E.sum_dollars (map (λ (e : LedgerEntry D). e.dollars) rows);
      })
      else none

  abbrev pub with_group :
      Option (UsageGroup D) → Option (List (UsageGroup D)) → Option (List (UsageGroup D))
  with_group none gs = none
  with_group (some g) none = none
  with_group (some g) (some gs) = some (g ∷ gs)

  unfoldable pub aggregate_all : List (String × List (LedgerEntry D)) → Option (List (UsageGroup D))
  aggregate_all [] = some []
  aggregate_all ((k, rows) ∷ gs) = with_group (aggregate k rows) (aggregate_all gs)

  -- The rows in the range: since inclusive, until exclusive.
  abbrev pub not_before : Option Time → LedgerEntry D → Bool
  not_before none e = true
  not_before (some t) e = not (E.text_before e.created_at t)

  abbrev pub is_before : Option Time → LedgerEntry D → Bool
  is_before none e = true
  is_before (some t) e = E.text_before e.created_at t

  abbrev pub in_range : SummarizeOptions → LedgerEntry D → Bool
  in_range opts e = not_before opts.since e && is_before opts.until e

module _ {D : Type 0} ⦃F : Float64 D⦄ ⦃T : Texts⦄ where
  -- `ORDER BY SUM(dollars) DESC, k ASC`.
  abbrev pub group_before : UsageGroup D → UsageGroup D → Bool
  group_before g h =
      F.lt_f h.dollars g.dollars || (not (F.lt_f g.dollars h.dollars) && T.key_before g.key h.key)

  unfoldable pub insert_group : UsageGroup D → List (UsageGroup D) → List (UsageGroup D)
  insert_group g [] = g ∷ []
  insert_group g (h ∷ hs) =
      let rest = insert_group g hs in if group_before h g then h ∷ rest else g ∷ h ∷ hs

  unfoldable pub sort_groups : List (UsageGroup D) → List (UsageGroup D)
  sort_groups [] = []
  sort_groups (g ∷ gs) = insert_group g (sort_groups gs)

  -- The loop over the rows, which adds them up.
  abbrev pub plus_group : UsageGroup D → UsageGroup D → UsageGroup D
  plus_group t g = record t {
    calls = wrap64 (t.calls +ℤ g.calls);
    prompt_tokens = wrap64 (t.prompt_tokens +ℤ g.prompt_tokens);
    completion_tokens = wrap64 (t.completion_tokens +ℤ g.completion_tokens);
    dollars = F.add_f t.dollars g.dollars;
  }

  unfoldable pub grand_total : UsageGroup D → List (UsageGroup D) → UsageGroup D
  grand_total t [] = t
  grand_total t (g ∷ gs) = grand_total (plus_group t g) gs

  abbrev pub no_usage : UsageGroup D
  no_usage = record {
    key = "total";
    calls = pos 0;
    prompt_tokens = pos 0;
    completion_tokens = pos 0;
    dollars = F.zero_f;
  }

  abbrev pub summary_of : String → Option (List (UsageGroup D)) → Result (UsageSummary D)
  summary_of by none = err failed
  summary_of by (some groups) = ok (record {
    by = by;
    groups = sort_groups groups;
    total = grand_total no_usage (sort_groups groups);
  })

module _ {D : Type 0} ⦃F : Float64 D⦄ ⦃T : Texts⦄ ⦃E : Engine D⦄ where
  abbrev pub summarize_by : Option Dimension → SummarizeOptions → Db D → Result (UsageSummary D)
  summarize_by none opts db = err failed
  summarize_by (some dim) opts db =
      summary_of opts.by
        (aggregate_all (group_rows (group_key db.runs dim) (select (in_range opts) db.ledger) []))

  -- `SummarizeLedger`.
  unfoldable pub summarize_ledger : SummarizeOptions → Db D → Result (UsageSummary D)
  summarize_ledger opts db = summarize_by (dimension_of opts.by) opts db
