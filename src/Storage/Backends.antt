-- ===== src/Storage/Backends.antt =====
-- internal/storage/{store,sqlite,postgres}.go: the writes of the Store interface, on either backend.
use riskkernel.Base.{ℕ, Bool, if◌then◌else◌, String, List, [], ◌∷◌, Time}
use riskkernel.Storage.{
  RunRecord, StepRecord, LedgerEntry, ToolCallRecord, CheckpointRecord, ApprovalRecord,
  PolicyRecord, Fact, failed, Result, err,
}
use riskkernel.Storage.Sqlite
use riskkernel.Storage.Sqlite.{Db}
use riskkernel.Storage.Postgres
use riskkernel.Storage.Listings

pub data Write (D : Type 0) : Type 0 where
  write_run : RunRecord D → Write D
  write_step : StepRecord D → Write D
  write_ledger : LedgerEntry D → Write D
  write_tool_call : ToolCallRecord → Write D
  write_checkpoint : CheckpointRecord D → Write D
  write_approval : ApprovalRecord → Write D
  write_decision : String → String → String → String → Time → Write D
  write_policy : PolicyRecord D → Write D
  write_fact : Fact → Write D

-- What the drivers and the columns take of the values of a write. A NaN is bound as NULL by SQLite's
-- driver, and no amount column takes a NULL; PostgreSQL takes no text with a zero byte.
pub record Takes (D : Type 0) : Type 0 where
  pub sqlite_takes : Write D → Bool
  pub postgres_takes : Write D → Bool

module _ {D : Type 0} where
  unfoldable pub sqlite_statement : Write D → Db D → Result (Unit {0}) × Db D
  sqlite_statement (write_run r) db = Sqlite.upsert_run r db
  sqlite_statement (write_step st) db = Sqlite.upsert_step st db
  sqlite_statement (write_ledger e) db = Sqlite.append_ledger e db
  sqlite_statement (write_tool_call t) db = Sqlite.append_tool_call t db
  sqlite_statement (write_checkpoint c) db = Sqlite.save_checkpoint c db
  sqlite_statement (write_approval a) db = Sqlite.create_approval a db
  sqlite_statement (write_decision aid status reason by now) db =
      Sqlite.resolve_approval aid status reason by now db
  sqlite_statement (write_policy p) db = Sqlite.upsert_policy p db
  sqlite_statement (write_fact f) db = Listings.put_fact f db

  unfoldable pub postgres_statement : ℕ → Write D → Db D → Result (Unit {0}) × Db D
  postgres_statement at (write_run r) db = Postgres.upsert_run at r db
  postgres_statement at (write_step st) db = Postgres.upsert_step at st db
  postgres_statement at (write_ledger e) db = Postgres.append_ledger e db
  postgres_statement at (write_tool_call t) db = Postgres.append_tool_call t db
  postgres_statement at (write_checkpoint c) db = Postgres.save_checkpoint c db
  postgres_statement at (write_approval a) db = Postgres.create_approval a db
  postgres_statement at (write_decision aid status reason by now) db =
      Postgres.resolve_approval at aid status reason by now db
  postgres_statement at (write_policy p) db = Postgres.upsert_policy at p db
  postgres_statement at (write_fact f) db = Postgres.put_fact at f db

module _ {D : Type 0} ⦃T : Takes D⦄ where
  unfoldable pub on_sqlite : Write D → Db D → Result (Unit {0}) × Db D
  unfolding sqlite_statement
  on_sqlite w db = if T.sqlite_takes w then sqlite_statement w db else (err failed, db)

  unfoldable pub on_postgres : ℕ → Write D → Db D → Result (Unit {0}) × Db D
  unfolding postgres_statement
  on_postgres at w db = if T.postgres_takes w then postgres_statement at w db else (err failed, db)

  -- A sequence of writes, each with the place that the engine chooses.
  unfoldable pub all_on_sqlite : List (ℕ × Write D) → Db D → List (Result (Unit {0})) × Db D
  all_on_sqlite [] db = ([], db)
  all_on_sqlite ((at, w) ∷ ws) db =
      let (answer, db') = on_sqlite w db in
      let (answers, last) = all_on_sqlite ws db' in (answer ∷ answers, last)

  unfoldable pub all_on_postgres : List (ℕ × Write D) → Db D → List (Result (Unit {0})) × Db D
  all_on_postgres [] db = ([], db)
  all_on_postgres ((at, w) ∷ ws) db =
      let (answer, db') = on_postgres at w db in
      let (answers, last) = all_on_postgres ws db' in (answer ∷ answers, last)

module _ {D : Type 0} where
  -- The tables with no rows.
  abbrev pub no_rows : Db D
  no_rows = record {
    runs = [];
    steps = [];
    ledger = [];
    tool_calls = [];
    checkpoints = [];
    approvals = [];
    policies = [];
    facts = [];
  }
