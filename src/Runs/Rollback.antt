-- ===== src/Runs/Rollback.antt =====
-- internal/runs/manager.go: a crash in the middle of a step, after BeginStep counted the iteration
-- and before a call was recorded.
use riskkernel.Base.{
  pos, ◌+ℤ◌, ◌<ℤ◌, wrap32, ◌≡◌, refl, ◌∙◌, sym, ap, subst, str_eq, str_eq_iff, false, Option, none,
  some, arith, Float64, Time,
}
use riskkernel.Governor
use riskkernel.Governor.{Usage, HaltReason, halt_none, is_running, HaltError}
use riskkernel.Governor.Ceiling.{pre_step_counts, pre_step_iff}
use riskkernel.Storage.{RunRecord, CheckpointRecord, ok}
use riskkernel.Storage.Sqlite.{
  Engine, Db, sqlite, select_one, get_run, latest_checkpoint, upsert_run,
}
use riskkernel.Storage.Tables.{merged, get_run-upsert_run, latest-upsert_run, latest-upsert_step}
use riskkernel.Runs.{Run, record_of, begin_step, after_pre_step, persist_step_start, persist_run}
use riskkernel.Runs.Manager.{checkpoint_usage, is_terminal, resume_point, restore_from_store}
use riskkernel.Runs.Resume.{Restores, restored_reason, row-Restores, row_id}

module _ {D : Type 0} ⦃F : Float64 D⦄ ⦃E : Engine D⦄ where
  -- A live row that is ahead of the checkpoint goes back to it.
  live_row :
      (o : Option (RunRecord D)) (r : Run D)
      → r.gov.halted ≡ halt_none
      → (is_terminal (merged o (record_of r)) ≡ false)
        × ((merged o (record_of r)).usage_loops ≡ r.gov.usage.loops)
  unfolding record_of
  live_row none r h = (rw h refl, refl)
  live_row (some old) r h = (rw h refl, refl)

  resume-behind :
      (rec : RunRecord D) (cp : CheckpointRecord D)
      → is_terminal rec ≡ false
      → cp.usage_loops <ℤ rec.usage_loops
      → ((resume_point rec (ok cp)).0 ≡ checkpoint_usage cp) × (restored_reason rec ≡ halt_none)
  resume-behind rec cp live behind = (ground arith, ground arith)

  own_row :
      (r : Run D) (db : Db D)
      → get_run r.id (upsert_run (record_of r) db).1
        ≡ ok (merged (select_one (λ q. str_eq q.id r.id) db.runs) (record_of r))
  own_row r db =
      get_run-upsert_run r.id (record_of r) db
      ∙ (unfold record_of in rw ((str_eq_iff r.id r.id).1 refl))

  behind-Restores :
      (r : Run D) (cp : CheckpointRecord D) (later : Time) (db : Db D)
      → r.gov.halted ≡ halt_none
      → latest_checkpoint r.id db ≡ ok cp
      → cp.usage_loops <ℤ r.gov.usage.loops
      → Restores
          (restore_from_store r.id later (some (upsert_run (record_of r) db).1)).0
          (checkpoint_usage cp)
          halt_none
  behind-Restores r cp later db live e behind =
      let o = select_one (λ (q : RunRecord D). str_eq q.id r.id) db.runs in
      let rec = merged o (record_of r) in
      let db' = (upsert_run (record_of r) db).1 in
      let q = (restore_from_store r.id later (some db')).0 in
      let (not_terminal, loops) = live_row o r live in
      let (usage, reason) =
        resume-behind rec cp not_terminal (subst (λ n. cp.usage_loops <ℤ n) (sym loops) behind) in
      let point : (resume_point rec (latest_checkpoint rec.id db')).0 ≡ checkpoint_usage cp =
        ap (λ i. (resume_point rec (latest_checkpoint i db')).0) (row_id o r)
        ∙ (ap (λ c. (resume_point rec c).0) (latest-upsert_run r.id (record_of r) db ∙ e)
            ∙ usage) in
      subst (λ u. Restores q u halt_none) point
        (subst (λ w. Restores q (resume_point rec (latest_checkpoint rec.id db')).0 w) reason
          (row-Restores r.id rec later db' (own_row r db)))

  step_of_begin :
      (r : Run D) (now stamp later : Time) (cp : CheckpointRecord D) (db : Db D)
      → latest_checkpoint r.id db ≡ ok cp
      → cp.usage_loops <ℤ wrap32 (r.gov.usage.loops +ℤ pos 1)
      → (o : Option (HaltError D)) → (Governor.pre_step r.gov now).1 ≡ o
      → let x =
          after_pre_step o (record r { gov = (Governor.pre_step r.gov now).0 }) stamp (some db) in
        x.3 ≡ none → Restores (restore_from_store r.id later x.1).0 (checkpoint_usage cp) halt_none
  unfolding persist_step_start persist_run
  step_of_begin r now stamp later cp db c behind (some e) p h = cc
  step_of_begin r now stamp later cp db c behind none p h =
      let same = pre_step_counts r.gov now p in
      let live = ((pre_step_iff r.gov now).0 p).0 in
      let r' : Run D = record r {
        gov = (Governor.pre_step r.gov now).0;
        updated_at = stamp;
        cur_step_started = stamp;
      } in
      behind-Restores r' cp later _ (ap (λ g. g.halted) same ∙ live)
        (latest-upsert_step r.id _ db ∙ c)
        (subst (λ n. cp.usage_loops <ℤ n) (sym (ap (λ g. g.usage.loops) same)) behind)

  -- A crash in the middle of a step takes the step back: if the last checkpoint of a run in a
  -- SQLite store that takes its writes holds the run's usage, the counter is below the last int32, and BeginStep lets an
  -- iteration start, then the run is restored live with exactly the usage from before the step, so
  -- that the iteration is not counted twice when it is tried again.
  pub resume_mid_step :
      (r : Run D) (now stamp later : Time) (cp : CheckpointRecord D) (db : Db D)
      → latest_checkpoint r.id db ≡ ok cp
      → checkpoint_usage cp ≡ r.gov.usage
      → r.gov.usage.loops <ℤ wrap32 (r.gov.usage.loops +ℤ pos 1)
      → (begin_step r now stamp (some db)).3 ≡ none
      → Restores
          (restore_from_store r.id later (begin_step r now stamp (some db)).1).0
          r.gov.usage
          halt_none
  unfolding begin_step
  resume_mid_step r now stamp later cp db c same step h =
      subst
        (λ u.
          Restores (restore_from_store r.id later (begin_step r now stamp (some db)).1).0 u
            halt_none)
        same
        (step_of_begin r now stamp later cp db c
          (subst (λ (u : Usage D). u.loops <ℤ wrap32 (r.gov.usage.loops +ℤ pos 1)) (sym same) step)
          (Governor.pre_step r.gov now).1 refl h)
