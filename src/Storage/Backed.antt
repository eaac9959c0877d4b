-- ===== src/Storage/Backed.antt =====
-- internal/storage/{sqlite,postgres}.go: a program that writes and reads by key cannot tell the two
-- backends apart.
use mathlib.Core.Path.{ap₂}
use riskkernel.Base.{Bool-cases, inl, inr, ◌≡◌, refl, ap, ℕ, String, str_eq, List, [], ◌∷◌}
use riskkernel.Storage.{LedgerEntry, CheckpointRecord, ok}
use riskkernel.Storage.Sqlite
use riskkernel.Storage.Sqlite.{Db, select, select_last, found}
use riskkernel.Storage.Postgres
use riskkernel.Storage.Listings
use riskkernel.Storage.Backends.{
  Write, write_run, write_step, write_ledger, write_tool_call, write_checkpoint, write_approval,
  write_decision, write_policy, write_fact, Takes, sqlite_statement, postgres_statement, on_sqlite,
  on_postgres, all_on_sqlite, all_on_postgres, no_rows,
}
use riskkernel.Storage.Agreement.{
  AgreesWith, Agreed, runs_agree, policies_agree, facts_agree, steps_agree, ledger_agrees,
  checkpoints_agree, tool_calls_agree, approvals_agree,
}
use riskkernel.Storage.Decisions.{decisions_agree}

module _ {D : Type 0} (s p : Db D) where
  statement_agrees :
      (at : ℕ) (w : Write D)
      → AgreesWith s p
      → Agreed s p (sqlite_statement w s) (postgres_statement at w p)
  unfolding sqlite_statement postgres_statement
  statement_agrees at (write_run r) g = runs_agree s p at r g
  statement_agrees at (write_step st) g = steps_agree s p at st g
  statement_agrees at (write_ledger e) g = ledger_agrees s p e g
  statement_agrees at (write_tool_call t) g = tool_calls_agree s p t g
  statement_agrees at (write_checkpoint c) g = checkpoints_agree s p c g
  statement_agrees at (write_approval a) g = approvals_agree s p a g
  statement_agrees at (write_decision aid status reason by now) g =
      decisions_agree s p at aid status reason by now g
  statement_agrees at (write_policy l) g = policies_agree s p at l g
  statement_agrees at (write_fact f) g = facts_agree s p at f g

-- The two backends take the values of the same writes.
abbrev pub TakenAlike : {D : Type 0} ⦃T : Takes D⦄ → List (ℕ × Write D) → Type 0
TakenAlike [] = Unit
TakenAlike ⦃T⦄ ((at, w) ∷ ws) = (T.sqlite_takes w ≡ T.postgres_takes w) × TakenAlike ws

module _ {D : Type 0} ⦃T : Takes D⦄ (s p : Db D) where
  write_agrees :
      (at : ℕ) (w : Write D)
      → T.sqlite_takes w ≡ T.postgres_takes w
      → AgreesWith s p
      → Agreed s p (on_sqlite w s) (on_postgres at w p)
  unfolding on_sqlite on_postgres
  write_agrees at w same g = elim (Bool-cases (T.postgres_takes w)) [
    | inl e ↦ rw (same, e) (statement_agrees s p at w g)
    | inr e ↦ rw (same, e) (refl, g)
  ]

-- Reads by key answer alike.
abbrev pub ReadsAlike : {D : Type 0} → Db D → Db D → Type 0
ReadsAlike s p =
    (j ns : String)
    → (Sqlite.get_run j s ≡ Postgres.get_run j p)
      × (Sqlite.ledger_for_run j s ≡ Postgres.ledger_for_run j p)
      × (Sqlite.latest_checkpoint j s ≡ Postgres.latest_checkpoint j p)
      × (Sqlite.list_checkpoints j s ≡ Postgres.list_checkpoints j p)
      × (Sqlite.get_approval j s ≡ Postgres.get_approval j p)
      × (Sqlite.get_policy j s ≡ Postgres.get_policy j p)
      × (Listings.get_fact ns j s ≡ Postgres.get_fact ns j p)

module _ {D : Type 0} (s p : Db D) where
  reads_agree : AgreesWith s p → ReadsAlike s p
  unfolding Sqlite.get_run Postgres.get_run Sqlite.ledger_for_run Postgres.ledger_for_run
      Sqlite.latest_checkpoint Postgres.latest_checkpoint Sqlite.list_checkpoints
      Postgres.list_checkpoints Sqlite.get_approval Postgres.get_approval Sqlite.get_policy
      Postgres.get_policy Listings.get_fact Postgres.get_fact
  reads_agree ((runs, steps, policies, facts), (ledger, calls, checkpoints), approvals, unique) j
        ns =
      (
        ap found (runs j),
        ap (λ l. ok (select (λ (e : LedgerEntry D). str_eq e.run_id j) l)) ledger,
        ap (λ l. found (select_last (λ (c : CheckpointRecord D). str_eq c.run_id j) l)) checkpoints,
        ap (λ l. ok (select (λ (c : CheckpointRecord D). str_eq c.run_id j) l)) checkpoints,
        ap found (approvals j),
        ap found (policies j),
        ap found (facts (ns, j)),
      )

module _ {D : Type 0} ⦃T : Takes D⦄ where
  writes_agree :
      (ws : List (ℕ × Write D)) (s p : Db D)
      → TakenAlike ws
      → AgreesWith s p
      → ((all_on_sqlite ws s).0 ≡ (all_on_postgres ws p).0)
        × AgreesWith (all_on_sqlite ws s).1 (all_on_postgres ws p).1
  unfolding all_on_sqlite all_on_postgres
  writes_agree [] s p alike g = (refl, g)
  writes_agree ((at, w) ∷ ws) s p (same, alike) g =
      let (answer, g') = write_agrees s p at w same g in
      let (answers, last) = writes_agree ws _ _ alike g' in
      (ap₂ (λ a l. a ∷ l) answer answers, last)

  -- From empty databases, any sequence of writes answers alike on SQLite and on PostgreSQL, wherever
  -- PostgreSQL puts the new versions of the rows, provided that of each write either both backends take
  -- the values or neither does (so not for a NaN amount, which only PostgreSQL takes, or a text with a
  -- zero byte, which only SQLite takes): the same writes succeed, fail or are not found. Then a read of a
  -- run, a ledger, the latest checkpoint, the checkpoints, an approval, a policy or a fact answers alike
  -- as well.
  pub backends_agree :
      (ws : List (ℕ × Write D))
      → TakenAlike ws
      → ((all_on_sqlite ws no_rows).0 ≡ (all_on_postgres ws no_rows).0)
        × ReadsAlike (all_on_sqlite ws no_rows).1 (all_on_postgres ws no_rows).1
  backends_agree ws alike =
      let (answers, g) = writes_agree ws no_rows no_rows alike empty_agree in
      (answers, reads_agree _ _ g)
    where
      empty_agree : AgreesWith {D = D} no_rows no_rows
      empty_agree =
          ((λ k. refl, λ k. refl, λ k. refl, λ k. refl), (refl, refl, refl), λ k. refl, tt)
