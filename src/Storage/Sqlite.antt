-- ===== src/Storage/Sqlite.antt =====
-- internal/storage/{sqlite,checkpoints,approvals,policies}.go and the schema in migrations/: the
-- SQLite backend as tables, a list of rows in rowid order for each, and each statement by what it
-- does to them, with the primary keys and the foreign keys to `runs`. Times are stored as text and
-- read back, which keeps a UTC instant. The statements are on values that the columns take: a NaN
-- amount is bound as NULL, which they refuse; Backends has a backend's refusals as a parameter.
use riskkernel.Base.{
  ℕ, suc, ℤ, pos, negsuc, ◌+ℤ◌, map, leb_ℤ, String, str_eq, Bool, ◌&&◌, Option, none, some, List,
  [], ◌∷◌, ◌++◌, length, is_some, if◌then◌else◌, Time,
}
use riskkernel.Storage.{
  RunRecord, StepRecord, LedgerEntry, ToolCallRecord, CheckpointRecord, approval_pending,
  ApprovalRecord, PolicyRecord, Fact, LedgerTotals, not_found, failed, Result, ok, err, Store,
  ApprovalStore,
}

-- What the engine decides: the order of two times as texts, and the SUM of a REAL column.
pub record Engine (D : Type 0) : Type 0 where
  pub text_before : Time → Time → Bool
  pub sum_dollars : List D → D

pub record Db (D : Type 0) : Type 0 where
  pub runs : List (RunRecord D)
  pub steps : List (StepRecord D)
  pub ledger : List (LedgerEntry D)
  pub tool_calls : List ToolCallRecord
  pub checkpoints : List (CheckpointRecord D)
  pub approvals : List ApprovalRecord
  pub policies : List (PolicyRecord D)
  pub facts : List Fact

module _ {R : Type 0} where
  -- `SELECT ... WHERE keep`, the first row of it, and the last.
  abbrev pub select : (R → Bool) → List R → List R
  select keep [] = []
  select keep (r ∷ rs) = let rest = select keep rs in if keep r then r ∷ rest else rest

  abbrev pub select_one : (R → Bool) → List R → Option R
  select_one keep [] = none
  select_one keep (r ∷ rs) = if keep r then some r else select_one keep rs

  abbrev pub select_last : (R → Bool) → List R → Option R
  select_last keep [] = none
  select_last keep (r ∷ rs) = elim (select_last keep rs) [
    | none ↦ if keep r then some r else none
    | some later ↦ some later
  ]

  -- `INSERT ... ON CONFLICT DO UPDATE`: the row in conflict is merged, else the new one is added.
  abbrev pub upsert : (R → Bool) → (R → R) → R → List R → List R
  upsert same merge new [] = new ∷ []
  upsert same merge new (r ∷ rs) = if same r then merge r ∷ rs else r ∷ upsert same merge new rs

  -- `UPDATE ... WHERE hit`, with the number of rows affected.
  abbrev pub update : (R → Bool) → (R → R) → List R → List R
  update hit change [] = []
  update hit change (r ∷ rs) = (if hit r then change r else r) ∷ update hit change rs

  abbrev pub affected : (R → Bool) → List R → ℕ
  affected hit [] = 0
  affected hit (r ∷ rs) = let rest = affected hit rs in if hit r then suc rest else rest

  -- `ORDER BY created_at DESC`.
  abbrev pub insert_newest : (Time → Time → Bool) → (R → Time) → R → List R → List R
  insert_newest before at r [] = r ∷ []
  insert_newest before at r (q ∷ qs) =
      if before (at r) (at q) then q ∷ insert_newest before at r qs else r ∷ q ∷ qs

  abbrev pub newest_first : (Time → Time → Bool) → (R → Time) → List R → List R
  newest_first before at [] = []
  newest_first before at (r ∷ rs) = insert_newest before at r (newest_first before at rs)

  abbrev pub found : Option R → Result R
  found none = err not_found
  found (some r) = ok r

-- `ResolveApproval`: only a pending row is decided; no row affected is `ErrNotFound`.
abbrev pub is_pending_row : String → ApprovalRecord → Bool
is_pending_row aid a = str_eq a.id aid && str_eq a.status approval_pending

abbrev pub decided : String → String → String → Time → ApprovalRecord → ApprovalRecord
decided status reason by at a = record a {
  status = status;
  reason = reason;
  decided_by = by;
  decided_at = some at;
}

abbrev pub resolution : ℕ → Result (Unit {0})
resolution ℕ.zero = err not_found
resolution (suc n) = ok tt

module _ {D : Type 0} where
  abbrev pub has_run : String → Db D → Bool
  has_run rid db = is_some (select_one (λ (r : RunRecord D). str_eq r.id rid) db.runs)

  -- `UpsertRun`: on conflict every column but `created_at` and `policy_ref` is replaced.
  unfoldable pub upsert_run : RunRecord D → Db D → Result (Unit {0}) × Db D
  upsert_run r db = (
    ok tt,
    record db {
      runs =
          upsert (λ old. str_eq old.id r.id)
            (λ old. record r { created_at = old.created_at; policy_ref = old.policy_ref }) r
            db.runs;
    },
  )

  unfoldable pub get_run : String → Db D → Result (RunRecord D)
  get_run rid db = found (select_one (λ r. str_eq r.id rid) db.runs)

  -- `UpsertStep`: on conflict `started_at` stays.
  unfoldable pub upsert_step : StepRecord D → Db D → Result (Unit {0}) × Db D
  upsert_step st db =
      if has_run st.run_id db
      then (
        ok tt,
        record db {
          steps =
              upsert
                (λ old.
                  str_eq old.run_id st.run_id
                  && (leb_ℤ old.index st.index && leb_ℤ st.index old.index))
                (λ old. record st { started_at = old.started_at }) st db.steps;
        },
      )
      else (err failed, db)

  unfoldable pub append_ledger : LedgerEntry D → Db D → Result (Unit {0}) × Db D
  append_ledger e db =
      if has_run e.run_id db
      then (ok tt, record db { ledger = db.ledger ++ e ∷ [] })
      else (err failed, db)

  unfoldable pub ledger_for_run : String → Db D → Result (List (LedgerEntry D))
  ledger_for_run rid db = ok (select (λ (e : LedgerEntry D). str_eq e.run_id rid) db.ledger)

  unfoldable pub append_tool_call : ToolCallRecord → Db D → Result (Unit {0}) × Db D
  append_tool_call t db =
      if has_run t.run_id db
      then (if is_some (select_one (λ (q : ToolCallRecord). str_eq q.id t.id) db.tool_calls)
          then (err failed, db)
          else (ok tt, record db { tool_calls = db.tool_calls ++ t ∷ [] }))
      else (err failed, db)

  unfoldable pub save_checkpoint : CheckpointRecord D → Db D → Result (Unit {0}) × Db D
  save_checkpoint c db =
      if has_run c.run_id db
      then (ok tt, record db { checkpoints = db.checkpoints ++ c ∷ [] })
      else (err failed, db)

  -- `LatestCheckpoint`: `ORDER BY id DESC LIMIT 1`.
  unfoldable pub latest_checkpoint : String → Db D → Result (CheckpointRecord D)
  latest_checkpoint rid db = found (select_last (λ c. str_eq c.run_id rid) db.checkpoints)

  unfoldable pub list_checkpoints : String → Db D → Result (List (CheckpointRecord D))
  list_checkpoints rid db =
      ok (select (λ (c : CheckpointRecord D). str_eq c.run_id rid) db.checkpoints)

  unfoldable pub create_approval : ApprovalRecord → Db D → Result (Unit {0}) × Db D
  create_approval a db =
      if has_run a.run_id db
      then (if is_some (select_one (λ (q : ApprovalRecord). str_eq q.id a.id) db.approvals)
          then (err failed, db)
          else (ok tt, record db { approvals = db.approvals ++ a ∷ [] }))
      else (err failed, db)

  unfoldable pub get_approval : String → Db D → Result ApprovalRecord
  get_approval aid db = found (select_one (λ a. str_eq a.id aid) db.approvals)

  unfoldable pub resolve_approval :
      String → String → String → String → Time → Db D → Result (Unit {0}) × Db D
  resolve_approval aid status reason by at db = (
    resolution (affected (is_pending_row aid) db.approvals),
    record db {
      approvals = update (is_pending_row aid) (decided status reason by at) db.approvals;
    },
  )

  -- `UpsertPolicy`: on conflict `created_at` stays.
  unfoldable pub upsert_policy : PolicyRecord D → Db D → Result (Unit {0}) × Db D
  upsert_policy p db = (
    ok tt,
    record db {
      policies =
          upsert (λ old. str_eq old.name p.name) (λ old. record p { created_at = old.created_at }) p
            db.policies;
    },
  )

  unfoldable pub get_policy : String → Db D → Result (PolicyRecord D)
  get_policy name db = found (select_one (λ p. str_eq p.name name) db.policies)

abbrev pub fits_int64 : ℤ → Bool
fits_int64 z = leb_ℤ z (pos 9223372036854775807) && leb_ℤ (negsuc 9223372036854775807) z

module _ {D : Type 0} where
  abbrev pub sum_of : (LedgerEntry D → ℤ) → List (LedgerEntry D) → ℤ
  sum_of column [] = pos 0
  sum_of column (e ∷ es) = column e +ℤ sum_of column es

module _ {D : Type 0} ⦃E : Engine D⦄ where
  -- `ListRunsByStatus`.
  unfoldable pub list_runs_by_status : String → Db D → Result (List (RunRecord D))
  list_runs_by_status status db = ok (
      newest_first E.text_before (λ (r : RunRecord D). r.created_at)
        (select (λ (r : RunRecord D). str_eq r.status status) db.runs))

  -- `ListApprovals`: an empty status lists all.
  unfoldable pub list_approvals : String → Db D → Result (List ApprovalRecord)
  list_approvals status db =
      let rows =
        if str_eq status ""
        then db.approvals
        else select (λ (a : ApprovalRecord). str_eq a.status status) db.approvals in
      ok (newest_first E.text_before (λ (a : ApprovalRecord). a.created_at) rows)

  -- `Totals`. A SUM of integers beyond int64 is an error of the engine.
  unfoldable pub totals : String → Db D → Result (LedgerTotals D)
  totals rid db =
      let rows = select (λ (e : LedgerEntry D). str_eq e.run_id rid) db.ledger in
      let prompt = sum_of (λ e. e.prompt_tokens) rows in
      let completion = sum_of (λ e. e.completion_tokens) rows in
      if fits_int64 prompt && fits_int64 completion
      then ok (record {
        run_id = rid;
        calls = pos (length rows);
        prompt_tokens = prompt;
        completion_tokens = completion;
        dollars = E.sum_dollars (map (λ e. e.dollars) rows);
      })
      else err failed

  -- `ListPolicies`.
  unfoldable pub list_policies : Db D → Result (List (PolicyRecord D))
  list_policies db =
      ok (newest_first E.text_before (λ (p : PolicyRecord D). p.created_at) db.policies)

  -- The backend behind the interface.
  instance abbrev pub sqlite : Store D (Db D)
  sqlite = record {
    upsert_run = upsert_run;
    get_run = get_run;
    list_runs_by_status = list_runs_by_status;
    upsert_step = upsert_step;
    append_ledger = append_ledger;
    append_tool_call = append_tool_call;
    get_policy = get_policy;
    save_checkpoint = save_checkpoint;
    latest_checkpoint = latest_checkpoint;
  }

  instance abbrev pub sqlite_approvals : ApprovalStore (Db D)
  sqlite_approvals = record {
    create_approval = create_approval;
    get_approval = get_approval;
    resolve_approval = resolve_approval;
    list_approvals = list_approvals;
  }
