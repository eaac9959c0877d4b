-- ===== src/Storage/Conserved.antt =====
-- internal/storage/sqlite.go: the grand total of SummarizeLedger is that of the rows in range, whatever
-- they are grouped by.
use riskkernel.Base.{
  ℤ, pos, negsuc, ◌+ℤ◌, wrap64, wrap64_self, wrap64-IsInt64, IsInt64, int_laws, ◌≡◌, refl, sym, ap,
  ◌∙◌, inl, inr, String, str_eq, length, is_some, Bool-cases, true, ◌&&◌, Option, Option-cases,
  none, some, List, [], ◌∷◌, ◌++◌, arith, Float64,
}
use riskkernel.Storage.{RunRecord, LedgerEntry, ok}
use riskkernel.Storage.Sqlite.{Engine, Db, select, sum_of, fits_int64}
use riskkernel.Storage.Summary.{
  Texts, Dimension, by_provider, by_model, by_day, by_name, by_metadata, SummarizeOptions,
  UsageGroup, UsageSummary, dimension_of, metadata_value, run_of, group_key, put_in_group,
  group_rows, aggregate, with_group, aggregate_all, in_range, group_before, insert_group,
  sort_groups, plus_group, grand_total, no_usage, summary_of, summarize_ledger,
}

wrap64_add : (a b : ℤ) → wrap64 (wrap64 a +ℤ b) ≡ wrap64 (a +ℤ b)
unfolding wrap64 ◌+ℤ◌
wrap64_add (pos a) (pos b) = ground arith
wrap64_add (pos a) (negsuc b) = ground arith
wrap64_add (negsuc a) (pos b) = ground arith
wrap64_add (negsuc a) (negsuc b) = ground arith

+ℤ_assoc : (a b c : ℤ) → (a +ℤ b) +ℤ c ≡ a +ℤ (b +ℤ c)
+ℤ_assoc a b c = omega int_laws

+ℤ-zero : (a : ℤ) → a +ℤ pos 0 ≡ a
+ℤ-zero a = omega int_laws

zero_word : IsInt64 (pos 0)
zero_word = omega arith

-- The rows of the groups, added up by a column.
module _ {D : Type 0} (column : LedgerEntry D → ℤ) where
  sum_groups : List (String × List (LedgerEntry D)) → ℤ
  sum_groups [] = pos 0
  sum_groups ((k, rows) ∷ gs) = sum_of column rows +ℤ sum_groups gs

  sum_of-snoc :
      (rows : List (LedgerEntry D)) (e : LedgerEntry D)
      → sum_of column (rows ++ (e ∷ [])) ≡ sum_of column rows +ℤ column e
  sum_of-snoc [] e = omega int_laws
  sum_of-snoc (r ∷ rows) e =
      ap (λ x. column r +ℤ x) (sum_of-snoc rows e) ∙ sym (+ℤ_assoc (column r) _ (column e))

  sum_groups-put_in_group :
      (k : String) (e : LedgerEntry D) (gs : List (String × List (LedgerEntry D)))
      → sum_groups (put_in_group k e gs) ≡ column e +ℤ sum_groups gs
  unfolding sum_groups
  sum_groups-put_in_group k e [] = omega int_laws
  sum_groups-put_in_group k e ((j, rows) ∷ gs) = elim (Bool-cases (str_eq j k)) [
    | inl q ↦ rw (q, sum_of-snoc rows e) (omega int_laws)
    | inr q ↦ rw (q, sum_groups-put_in_group k e gs) (omega int_laws)
  ]

  -- Each row has a group.
  abbrev AllKeyed : (LedgerEntry D → Option String) → List (LedgerEntry D) → Type 0
  AllKeyed key [] = Unit
  AllKeyed key (e ∷ es) = ((k : String) × (key e ≡ some k)) × AllKeyed key es

  sum_groups-group_rows :
      (key : LedgerEntry D → Option String) (rows : List (LedgerEntry D))
      (gs : List (String × List (LedgerEntry D)))
      → AllKeyed key rows
      → sum_groups (group_rows key rows gs) ≡ sum_of column rows +ℤ sum_groups gs
  unfolding group_rows
  sum_groups-group_rows key [] gs h = omega int_laws
  sum_groups-group_rows key (e ∷ es) gs ((k, keyed), h) = rw keyed (
      sum_groups-group_rows key es (put_in_group k e gs) h
      ∙ (rw (sum_groups-put_in_group k e gs) (omega int_laws)))

with_group-some :
    {D : Type 0} ⦃E : Engine D⦄ (a : Option (UsageGroup D)) (b : Option (List (UsageGroup D)))
    (us : List (UsageGroup D))
    → with_group a b ≡ some us
    → (g : UsageGroup D) × ((gs : List (UsageGroup D)) × (a ≡ some g)
        × (b ≡ some gs)
        × (us ≡ g ∷ gs))
with_group-some none b us h = cc
with_group-some (some g) none us h = cc
with_group-some (some g) (some gs) us h = (g, (gs, refl, refl, cc))

module _ {D : Type 0} ⦃F : Float64 D⦄ ⦃T : Texts⦄ where
  summary_of-ok :
      (by : String) (o : Option (List (UsageGroup D))) (s : UsageSummary D)
      → summary_of by o ≡ ok s
      → (us : List (UsageGroup D)) × (o ≡ some us)
        × (s.total ≡ grand_total no_usage (sort_groups us))
  summary_of-ok by none s h = cc
  summary_of-ok by (some us) s h = (us, refl, cc)

-- A field of the groups that the aggregates fill with the sum of a column, and that the loop adds up.
module _ {D : Type 0} ⦃F : Float64 D⦄ ⦃T : Texts⦄ ⦃E : Engine D⦄ (column : LedgerEntry D → ℤ)
    (field : UsageGroup D → ℤ)
    (filled : (k : String) (rows : List (LedgerEntry D)) (g : UsageGroup D)
      → aggregate k rows ≡ some g
      → field g ≡ sum_of column rows)
    (added : (t g : UsageGroup D) → field (plus_group t g) ≡ wrap64 (field t +ℤ field g)) where
  sum_field : List (UsageGroup D) → ℤ
  sum_field [] = pos 0
  sum_field (g ∷ gs) = field g +ℤ sum_field gs

  sum_field-aggregate_all :
      (gs : List (String × List (LedgerEntry D))) (us : List (UsageGroup D))
      → aggregate_all gs ≡ some us
      → sum_field us ≡ sum_groups column gs
  unfolding sum_field sum_groups aggregate_all
  sum_field-aggregate_all [] [] h = refl
  sum_field-aggregate_all [] (u ∷ us) h = cc
  sum_field-aggregate_all ((k, rows) ∷ gs) us h =
      let (g, (us', first, others, whole)) = with_group-some (aggregate k rows) _ us h in
      rw (whole, filled k rows g first, sum_field-aggregate_all gs us' others)

  sum_field-insert_group :
      (g : UsageGroup D) (gs : List (UsageGroup D))
      → sum_field (insert_group g gs) ≡ field g +ℤ sum_field gs
  unfolding sum_field insert_group
  sum_field-insert_group g [] = refl
  sum_field-insert_group g (h ∷ hs) = elim (Bool-cases (group_before h g)) [
    | inl q ↦ rw q (ap (λ x. field h +ℤ x) (sum_field-insert_group g hs) ∙ omega int_laws)
    | inr q ↦ rw q
  ]

  sum_field-sort_groups : (gs : List (UsageGroup D)) → sum_field (sort_groups gs) ≡ sum_field gs
  unfolding sum_field sort_groups
  sum_field-sort_groups [] = refl
  sum_field-sort_groups (g ∷ gs) =
      sum_field-insert_group g (sort_groups gs) ∙ ap (λ x. field g +ℤ x) (sum_field-sort_groups gs)

  field-grand_total :
      (t : UsageGroup D) (gs : List (UsageGroup D))
      → IsInt64 (field t)
      → field (grand_total t gs) ≡ wrap64 (field t +ℤ sum_field gs)
  unfolding grand_total sum_field
  field-grand_total t [] h = sym (ap wrap64 (+ℤ-zero (field t)) ∙ wrap64_self (field t) h)
  field-grand_total t (g ∷ gs) h =
      let word : IsInt64 (field (plus_group t g)) = rw (added t g) (wrap64-IsInt64 _) in
      field-grand_total (plus_group t g) gs word
      ∙ (rw (added t g) (
          wrap64_add (field t +ℤ field g) (sum_field gs)
          ∙ ap wrap64 (+ℤ_assoc (field t) (field g) (sum_field gs))))

  -- The field of the grand total.
  field-total :
      (key : LedgerEntry D → Option String) (by : String) (rows : List (LedgerEntry D))
      (s : UsageSummary D)
      → field no_usage ≡ pos 0
      → AllKeyed column key rows
      → summary_of by (aggregate_all (group_rows key rows [])) ≡ ok s
      → field s.total ≡ wrap64 (sum_of column rows)
  unfolding sum_groups
  field-total key by rows s start keyed h =
      let (us, whole, total) = summary_of-ok by _ s h in
      let word : IsInt64 (field no_usage) = rw start zero_word in
      let rows_sum : sum_field us ≡ sum_of column rows =
        sum_field-aggregate_all (group_rows key rows []) us whole
        ∙ sum_groups-group_rows column key rows [] keyed
        ∙ +ℤ-zero (sum_of column rows) in
      ap field total
      ∙ field-grand_total no_usage (sort_groups us) word
      ∙ (rw (start, sum_field-sort_groups us, rows_sum) (ap wrap64 (omega int_laws)))

module _ {D : Type 0} ⦃F : Float64 D⦄ ⦃T : Texts⦄ ⦃E : Engine D⦄ where
  aggregate-some :
      (k : String) (rows : List (LedgerEntry D)) (g : UsageGroup D)
      → aggregate k rows ≡ some g
      → (g.calls ≡ pos (length rows))
        × (g.prompt_tokens ≡ sum_of (λ (e : LedgerEntry D). e.prompt_tokens) rows)
        × (g.completion_tokens ≡ sum_of (λ (e : LedgerEntry D). e.completion_tokens) rows)
  unfolding aggregate
  aggregate-some k rows g h =
      let prompt = sum_of (λ (e : LedgerEntry D). e.prompt_tokens) rows in
      let completion = sum_of (λ (e : LedgerEntry D). e.completion_tokens) rows in
      elim (Bool-cases (fits_int64 prompt && fits_int64 completion)) [
        | inl q ↦ let h' = rw q at h in (cc, cc, cc)
        | inr q ↦ let h' = rw q at h in cc
      ]

  count_rows :
      (rows : List (LedgerEntry D)) → pos (length rows) ≡ sum_of (λ (e : LedgerEntry D). pos 1) rows
  count_rows [] = refl
  count_rows (e ∷ rows) = rw (← count_rows rows) (omega int_laws)

  -- Every row in range has the row of its run.
  abbrev pub AllHaveRuns : List (RunRecord D) → List (LedgerEntry D) → Type 0
  AllHaveRuns runs [] = Unit
  AllHaveRuns runs (e ∷ es) = (is_some (run_of runs e) ≡ true) × AllHaveRuns runs es

  group_key-some :
      (runs : List (RunRecord D)) (dim : Dimension) (e : LedgerEntry D)
      → is_some (run_of runs e) ≡ true
      → (k : String) × (group_key runs dim e ≡ some k)
  unfolding group_key
  group_key-some runs by_provider e h = (e.provider, refl)
  group_key-some runs by_model e h = (e.model, refl)
  group_key-some runs by_day e h = (T.day_of e.created_at, refl)
  group_key-some runs by_name e h = elim (Option-cases (run_of runs e)) [
    | inl n ↦ let h' = rw n at h in cc
    | inr (r, q) ↦ (r.name, rw q)
  ]
  group_key-some runs (by_metadata key) e h = elim (Option-cases (run_of runs e)) [
    | inl n ↦ let h' = rw n at h in cc
    | inr (r, q) ↦ (metadata_value key r.metadata, rw q)
  ]

  keyed :
      (column : LedgerEntry D → ℤ) (runs : List (RunRecord D)) (dim : Dimension)
      (rows : List (LedgerEntry D))
      → AllHaveRuns runs rows
      → AllKeyed column (group_key runs dim) rows
  keyed column runs dim [] h = tt
  keyed column runs dim (e ∷ es) (h, hs) =
      (group_key-some runs dim e h, keyed column runs dim es hs)

  -- The grand total of a summary is that of the rows in range: as many calls as there are rows, and the
  -- sums of their token columns, each as an int64, whatever dimension they are grouped by, provided
  -- that each row has the row of its run.
  pub summary_total :
      (opts : SummarizeOptions) (db : Db D) (s : UsageSummary D)
      → summarize_ledger opts db ≡ ok s
      → let rows = select (in_range opts) db.ledger in
        AllHaveRuns db.runs rows
        → (s.total.calls ≡ wrap64 (pos (length rows)))
          × (s.total.prompt_tokens ≡ wrap64 (sum_of (λ (e : LedgerEntry D). e.prompt_tokens) rows))
          × (s.total.completion_tokens
              ≡ wrap64 (sum_of (λ (e : LedgerEntry D). e.completion_tokens) rows))
  unfolding summarize_ledger
  summary_total opts db s h own = elim (Option-cases (dimension_of opts.by)) [
    | inl n ↦ let h' = rw n at h in cc
    | inr (dim, q) ↦
        let h' = rw q at h in
        let rows = select (in_range opts) db.ledger in
        let key = group_key db.runs dim in
        (
          field-total (λ e. pos 1) (λ g. g.calls)
                (λ k rs g e. (aggregate-some k rs g e).0 ∙ count_rows rs) (λ t g. refl) key opts.by
                rows s refl (keyed (λ e. pos 1) db.runs dim rows own) h'
              ∙ ap wrap64 (sym (count_rows rows)),
          field-total (λ e. e.prompt_tokens) (λ g. g.prompt_tokens)
              (λ k rs g e. (aggregate-some k rs g e).1) (λ t g. refl) key opts.by rows s refl
              (keyed (λ e. e.prompt_tokens) db.runs dim rows own) h',
          field-total (λ e. e.completion_tokens) (λ g. g.completion_tokens)
              (λ k rs g e. (aggregate-some k rs g e).2) (λ t g. refl) key opts.by rows s refl
              (keyed (λ e. e.completion_tokens) db.runs dim rows own) h',
        )
  ]
