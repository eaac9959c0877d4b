-- ===== src/Storage/Postgres.antt =====
-- internal/storage/postgres.go and the schema in migrations/postgres/, whose tables are those of `Db`.
-- An update leaves a new version of the row, and where a scan meets it among the rows is the engine's to
-- decide: each statement that updates takes that place as an argument. Each method is one statement, so
-- the writers of several instances interleave as sequences of these. A table whose rows have a serial id
-- is never updated, and is in the order of that id. The statements are on texts that PostgreSQL stores,
-- which has none with a zero byte; Backends has a backend's refusals as a parameter.
pub mod Reports
use riskkernel.Base.{
  ℕ, zero, suc, ltb_ℤ, ℤ, pos, map, leb_ℤ, String, str_eq, is_some, Bool, not, ◌&&◌, Option, none,
  some, List, [], ◌∷◌, ◌++◌, length, if◌then◌else◌, Time, Float64,
}
use riskkernel.Storage.{
  RunRecord, StepRecord, LedgerEntry, ToolCallRecord, CheckpointRecord, approval_pending,
  ApprovalRecord, PolicyRecord, Fact, LedgerTotals, not_found, failed, Result, ok, err,
}
use riskkernel.Storage.Sqlite.{
  Db, Engine, select, select_one, select_last, found, decided, newest_first, has_run, sum_of,
  fits_int64,
}
use riskkernel.Storage.Summary.{
  Texts, Dimension, SummarizeOptions, UsageSummary, dimension_of, group_key, group_rows,
  aggregate_all, in_range, summary_of,
}
use riskkernel.Storage.Listings.{order_by, insert_row, is_fact, call_before}

module _ {R : Type 0} where
  -- The rows with one more, at a place.
  abbrev pub place : ℕ → R → List R → List R
  place n r [] = r ∷ []
  place zero r (q ∷ qs) = r ∷ q ∷ qs
  place (suc n) r (q ∷ qs) = q ∷ place n r qs

  -- The row that `ON CONFLICT DO UPDATE` leaves.
  abbrev pub merged_row : (R → R) → R → Option R → R
  merged_row merge new none = new
  merged_row merge new (some old) = merge old

  -- The rows without the version that a write has superseded.
  abbrev pub without : (R → Bool) → List R → List R
  without hit rs = select (λ r. not (hit r)) rs

  -- `INSERT ... ON CONFLICT DO UPDATE`.
  abbrev pub upsert_version : ℕ → (R → Bool) → (R → R) → R → List R → List R
  upsert_version at same merge new rs =
      place at (merged_row merge new (select_one same rs)) (without same rs)

-- The rows that a primary key names.
abbrev pub is_run : {D : Type 0} → String → RunRecord D → Bool
is_run k r = str_eq r.id k

abbrev pub is_step : {D : Type 0} → String → ℤ → StepRecord D → Bool
is_step rid i st = str_eq st.run_id rid && (leb_ℤ st.index i && leb_ℤ i st.index)

abbrev pub is_policy : {D : Type 0} → String → PolicyRecord D → Bool
is_policy k p = str_eq p.name k

abbrev pub is_call : String → ToolCallRecord → Bool
is_call k t = str_eq t.id k

abbrev pub is_approval : String → ApprovalRecord → Bool
is_approval k a = str_eq a.id k

module _ {D : Type 0} where
  -- `UpsertRun`: `created_at` and `policy_ref` are not among the columns set on conflict.
  unfoldable pub upsert_run : ℕ → RunRecord D → Db D → Result (Unit {0}) × Db D
  upsert_run at r db = (
    ok tt,
    record db {
      runs =
          upsert_version at (is_run r.id)
            (λ old. record r { created_at = old.created_at; policy_ref = old.policy_ref }) r
            db.runs;
    },
  )

  unfoldable pub get_run : String → Db D → Result (RunRecord D)
  get_run rid db = found (select_one (is_run rid) db.runs)

  -- `UpsertStep`: `started_at` is not among the columns set on conflict.
  unfoldable pub upsert_step : ℕ → StepRecord D → Db D → Result (Unit {0}) × Db D
  upsert_step at st db =
      if has_run st.run_id db
      then (
        ok tt,
        record db {
          steps =
              upsert_version at (is_step st.run_id st.index)
                (λ old. record st { started_at = old.started_at }) st db.steps;
        },
      )
      else (err failed, db)

  unfoldable pub list_steps : String → Db D → Result (List (StepRecord D))
  unfolding order_by insert_row
  list_steps rid db = ok (
      order_by (λ (s t : StepRecord D). ltb_ℤ s.index t.index)
        (select (λ (s : StepRecord D). str_eq s.run_id rid) db.steps))

  unfoldable pub append_ledger : LedgerEntry D → Db D → Result (Unit {0}) × Db D
  append_ledger e db =
      if has_run e.run_id db
      then (ok tt, record db { ledger = db.ledger ++ e ∷ [] })
      else (err failed, db)

  unfoldable pub ledger_for_run : String → Db D → Result (List (LedgerEntry D))
  ledger_for_run rid db = ok (select (λ (e : LedgerEntry D). str_eq e.run_id rid) db.ledger)

  -- `AppendToolCall`: neither a call of an unknown run nor a second call of an id.
  unfoldable pub append_tool_call : ToolCallRecord → Db D → Result (Unit {0}) × Db D
  append_tool_call t db =
      if has_run t.run_id db && not (is_some (select_one (is_call t.id) db.tool_calls))
      then (ok tt, record db { tool_calls = db.tool_calls ++ t ∷ [] })
      else (err failed, db)

  -- `PutFact`.
  unfoldable pub put_fact : ℕ → Fact → Db D → Result (Unit {0}) × Db D
  put_fact at f db = (
    ok tt,
    record db { facts = upsert_version at (is_fact f.namespace f.key) (λ old. f) f db.facts },
  )

  unfoldable pub get_fact : String → String → Db D → Result Fact
  get_fact ns key db = found (select_one (is_fact ns key) db.facts)

  unfoldable pub list_facts : ⦃T : Texts⦄ → String → Db D → Result (List Fact)
  unfolding order_by insert_row
  list_facts ⦃T⦄ ns db =
      ok (order_by (λ f g. T.key_before f.key g.key) (select (λ f. str_eq f.namespace ns) db.facts))

  unfoldable pub create_approval : ApprovalRecord → Db D → Result (Unit {0}) × Db D
  create_approval a db =
      if has_run a.run_id db && not (is_some (select_one (is_approval a.id) db.approvals))
      then (ok tt, record db { approvals = db.approvals ++ a ∷ [] })
      else (err failed, db)

  unfoldable pub get_approval : String → Db D → Result ApprovalRecord
  get_approval aid db = found (select_one (is_approval aid) db.approvals)

  -- `ResolveApproval`: the row of the key, if its status is pending.
  abbrev pub resolve_row :
      ℕ
      → (ApprovalRecord → ApprovalRecord)
      → Option ApprovalRecord
      → Db D
      → Result (Unit {0}) × Db D
  resolve_row at decide none db = (err not_found, db)
  resolve_row at decide (some a) db =
      if str_eq a.status approval_pending
      then (
        ok tt,
        record db { approvals = place at (decide a) (without (is_approval a.id) db.approvals) },
      )
      else (err not_found, db)

  unfoldable pub resolve_approval :
      ℕ → String → String → String → String → Time → Db D → Result (Unit {0}) × Db D
  resolve_approval at aid status reason by now db =
      resolve_row at (decided status reason by now) (select_one (is_approval aid) db.approvals) db

  -- `UpsertPolicy`: `created_at` is not among the columns set on conflict.
  unfoldable pub upsert_policy : ℕ → PolicyRecord D → Db D → Result (Unit {0}) × Db D
  upsert_policy at p db = (
    ok tt,
    record db {
      policies =
          upsert_version at (is_policy p.name) (λ old. record p { created_at = old.created_at }) p
            db.policies;
    },
  )

  unfoldable pub get_policy : String → Db D → Result (PolicyRecord D)
  get_policy name db = found (select_one (is_policy name) db.policies)

  unfoldable pub save_checkpoint : CheckpointRecord D → Db D → Result (Unit {0}) × Db D
  save_checkpoint c db =
      if has_run c.run_id db
      then (ok tt, record db { checkpoints = db.checkpoints ++ c ∷ [] })
      else (err failed, db)

  unfoldable pub latest_checkpoint : String → Db D → Result (CheckpointRecord D)
  latest_checkpoint rid db = found (select_last (λ c. str_eq c.run_id rid) db.checkpoints)

  unfoldable pub list_checkpoints : String → Db D → Result (List (CheckpointRecord D))
  list_checkpoints rid db =
      ok (select (λ (c : CheckpointRecord D). str_eq c.run_id rid) db.checkpoints)
