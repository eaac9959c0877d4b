-- ===== src/Runs/Halted.antt =====
-- internal/runs/manager.go: a halt is durable. The store that a halting call leaves restores a run
-- that is halted for the same reason, and a manager that starts on it hands out no fresh budget.
use riskkernel.Base.{
  ◌≡◌, refl, ◌≢◌, ◌∙◌, subst, String, str_eq, str_eq_iff, true, false, Option, none, some, arith,
  Float64, Time, if◌then◌else◌,
}
use riskkernel.Governor
use riskkernel.Governor.{HaltReason, halt_none, is_running, HaltError, Run}
use riskkernel.Storage.{RunRecord, CheckpointRecord, Result, ok, err}
use riskkernel.Storage.Sqlite.{
  Engine, Db, sqlite, select_one, get_run, latest_checkpoint, upsert_run,
}
use riskkernel.Storage.Tables.{merged, get_run-upsert_run}
use riskkernel.Runs
use riskkernel.Runs.{
  record_of, begin_step, can_proceed, record_call, cancel, persist_halt, persist_run,
  after_pre_step, after_check, touch,
}
use riskkernel.Runs.Text.{IsNamed, is_terminal-record_of}
use riskkernel.Runs.Writes.{RunEvent, begins, proceeds, records, cancels, run_step}
use riskkernel.Runs.Manager.{is_terminal, row_usage, resume_point, restore_from_store}
use riskkernel.Runs.Resume.{Restores, row-Restores, row_reason, row_usage_of, resume_after_call}

module _ {D : Type 0} ⦃F : Float64 D⦄ ⦃E : Engine D⦄ where
  terminal_merged :
      (o : Option (RunRecord D)) (r : Runs.Run D)
      → is_running r.gov.halted ≡ false
      → is_terminal (merged o (record_of r)) ≡ true
  terminal_merged none r h = is_terminal-record_of r ∙ rw h
  terminal_merged (some old) r h = is_terminal-record_of r ∙ rw h

  own_id : (r : Runs.Run D) → (record_of r).id ≡ r.id
  unfolding record_of
  own_id r = refl

  -- A terminal row is never rolled back.
  resume_terminal :
      (rec : RunRecord D) (cp : Result (CheckpointRecord D))
      → is_terminal rec ≡ true
      → (resume_point rec cp).0 ≡ row_usage rec
  resume_terminal rec (err e) h = refl
  resume_terminal rec (ok cp) h = ground arith

  halted-Restores :
      (r : Runs.Run D) (later : Time) (db : Db D)
      → IsNamed r.gov.halted
      → is_running r.gov.halted ≡ false
      → Restores
          (restore_from_store r.id later (some (upsert_run (record_of r) db).1)).0
          r.gov.usage
          r.gov.halted
  halted-Restores r later db n h =
      let o = select_one (λ (q : RunRecord D). str_eq q.id r.id) db.runs in
      let rec = merged o (record_of r) in
      let db' = (upsert_run (record_of r) db).1 in
      let q = (restore_from_store r.id later (some db')).0 in
      let row : get_run r.id db' ≡ ok rec =
        get_run-upsert_run r.id (record_of r) db ∙ own_row r db in
      let usage : (resume_point rec (latest_checkpoint rec.id db')).0 ≡ r.gov.usage =
        resume_terminal rec (latest_checkpoint rec.id db') (terminal_merged o r h)
        ∙ row_usage_of o r in
      subst (λ u. Restores q u r.gov.halted) usage
        (subst (λ w. Restores q (resume_point rec (latest_checkpoint rec.id db')).0 w)
          (row_reason o r n) (row-Restores r.id rec later db' row))
    where
      own_row :
          (r : Runs.Run D) (db : Db D)
          → (if str_eq (record_of r).id r.id
              then ok (
                  merged (select_one (λ (q : RunRecord D). str_eq q.id r.id) db.runs) (record_of r))
              else get_run r.id db)
            ≡ ok (merged (select_one (λ (q : RunRecord D). str_eq q.id r.id) db.runs) (record_of r))
      own_row r db = rw (own_id r) (rw ((str_eq_iff r.id r.id).1 refl))

  -- What each guard call can leave in the halt reason of a live run.
  pre_step_halts :
      (g : Run D) (now : Time) {e : HaltError D}
      → g.halted ≡ halt_none
      → (Governor.pre_step g now).1 ≡ some e
      → IsNamed (Governor.pre_step g now).0.halted
        × (is_running (Governor.pre_step g now).0.halted ≡ false)
  unfolding Governor.pre_step
  pre_step_halts g now live h = (ground arith, ground arith)

  can_proceed_halts :
      (g : Run D) (now : Time) {e : HaltError D}
      → g.halted ≡ halt_none
      → (Governor.can_proceed g now).1 ≡ some e
      → IsNamed (Governor.can_proceed g now).0.halted
        × (is_running (Governor.can_proceed g now).0.halted ≡ false)
  unfolding Governor.can_proceed
  can_proceed_halts g now live h = (ground arith, ground arith)

  cancel_halts :
      (g : Run D)
      → g.halted ≡ halt_none
      → IsNamed (Governor.cancel g).halted × (is_running (Governor.cancel g).halted ≡ false)
  unfolding Governor.cancel
  cancel_halts g live = (ground arith, ground arith)

  can_proceed_live :
      (g : Run D) (now : Time)
      → (Governor.can_proceed g now).1 ≡ none
      → (Governor.can_proceed g now).0.halted ≡ halt_none
  unfolding Governor.can_proceed
  can_proceed_live g now h = ground arith

  pre_step_live :
      (g : Run D) (now : Time)
      → (Governor.pre_step g now).1 ≡ none
      → (Governor.pre_step g now).0.halted ≡ halt_none
  unfolding Governor.pre_step
  pre_step_live g now h = ground arith

  -- The answer of a call and what a crash after it restores.
  abbrev RestoresAfter : String → Time → Runs.Run D → Option (Db D) → Type 0
  RestoresAfter rid later r s = Restores (restore_from_store rid later s).0 r.gov.usage r.gov.halted

  halting_write :
      (r : Runs.Run D) (stamp later : Time) (db : Db D)
      → IsNamed r.gov.halted × (is_running r.gov.halted ≡ false)
      → let (r', s') = persist_halt r stamp (some db) in RestoresAfter r.id later r' s'
  unfolding persist_halt persist_run
  halting_write r stamp later db h = halted-Restores (touch stamp r) later db h.0 h.1

  -- A halt survives a crash: if a call halts a live run over a SQLite store that
  -- takes its writes, the store that it leaves restores the run with exactly its usage and its halt reason, whatever the store held
  -- before.
  pub halt_survives_crash :
      (e : RunEvent D) (r : Runs.Run D) (later : Time) (db : Db D)
      → r.gov.halted ≡ halt_none
      → (run_step e r (some db)).0.gov.halted ≢ halt_none
      → let (r', s', halt) = run_step e r (some db) in RestoresAfter r.id later r' s'
  halt_survives_crash (begins now stamp) r later db live =
      unfold run_step begin_step in begins_case (Governor.pre_step r.gov now).1 refl
    where
      begins_case :
          (o : Option (HaltError D))
          → (Governor.pre_step r.gov now).1 ≡ o
          → (after_pre_step o
              (record r { gov = (Governor.pre_step r.gov now).0 })
              stamp
              (some db)).0.gov.halted
            ≢ halt_none
          → let x =
              after_pre_step o
                (record r { gov = (Governor.pre_step r.gov now).0 })
                stamp
                (some db) in
            RestoresAfter r.id later x.0 x.1
      begins_case none e h = absurd (h (pre_step_live r.gov now e))
      begins_case (some x) e h =
          halting_write (record r { gov = (Governor.pre_step r.gov now).0 }) stamp later db
            (pre_step_halts r.gov now live e)
  halt_survives_crash (proceeds now stamp) r later db live =
      unfold run_step can_proceed in proceeds_case (Governor.can_proceed r.gov now).1 refl
    where
      proceeds_case :
          (o : Option (HaltError D))
          → (Governor.can_proceed r.gov now).1 ≡ o
          → (after_check o
              (record r { gov = (Governor.can_proceed r.gov now).0 })
              stamp
              (some db)).0.gov.halted
            ≢ halt_none
          → let x =
              after_check o
                (record r { gov = (Governor.can_proceed r.gov now).0 })
                stamp
                (some db) in
            RestoresAfter r.id later x.0 x.1
      proceeds_case none e h = absurd (h (can_proceed_live r.gov now e))
      proceeds_case (some x) e h =
          halting_write (record r { gov = (Governor.can_proceed r.gov now).0 }) stamp later db
            (can_proceed_halts r.gov now live e)
  halt_survives_crash (records c now stamp) r later db live =
      unfold run_step in λ h. resume_after_call r c now stamp later db (rw live tt)
  halt_survives_crash (cancels stamp) r later db live =
      unfold run_step cancel in
      λ h.
        halting_write (record r { gov = Governor.cancel r.gov }) stamp later db
          (cancel_halts r.gov live)
