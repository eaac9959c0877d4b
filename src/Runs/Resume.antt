-- ===== src/Runs/Resume.antt =====
-- internal/runs/manager.go: what a run is restored to from a SQLite store after a crash.
use riskkernel.Base.{
  ℤ, ltb_ℤ, ◌≡◌, refl, ◌∙◌, ap, subst, String, str_eq, str_eq_iff, true, false, ◌||◌, Option, none,
  some, arith, Float64, Time, background, if◌then◌else◌,
}
use riskkernel.Governor
use riskkernel.Governor.{
  Budget, Usage, HaltReason, halt_none, halt_token_budget, halt_dollar_budget, halt_loop_budget,
  halt_time_budget, halt_cancelled, halt_other, is_running, HaltError, RunOption,
  with_restored_usage, with_restored_halt,
}
use riskkernel.Storage.{RunRecord, CheckpointRecord, ok}
use riskkernel.Storage.Sqlite.{
  Engine, Db, sqlite, has_run, select_one, get_run, latest_checkpoint, upsert_run, save_checkpoint,
  upsert_step, append_ledger,
}
use riskkernel.Storage.Tables.{
  merged, get_run-upsert_run, has_run-upsert_run, latest-save_checkpoint, get_run-save_checkpoint,
}
use riskkernel.Runs.{
  Run, Call, status_for, reason_text, reason_of_text, record_of, snapshot, persist_run,
  persist_call, record_call, ledger_entry, step_record,
}
use riskkernel.Runs.Text.{IsNamed}
use riskkernel.Runs.Manager.{
  row_usage, is_terminal, resume_point, restore_options, budget_of, reload_run, restore_from_store,
}

-- The run that a lookup restored has this usage and this halt reason.
abbrev pub Restores : {D : Type 0} → Option (Run D) → Usage D → HaltReason → Type 0
Restores none u h = ⊥
Restores (some q) u h = (q.gov.usage ≡ u) × (q.gov.halted ≡ h)

-- The reason that a row restores: none for a live row, else the one that its text names.
abbrev pub restored_reason : {D : Type 0} → RunRecord D → HaltReason
restored_reason rec = if is_terminal rec then reason_of_text rec.halt_reason else halt_none

restored_named :
    (h : HaltReason)
    → IsNamed h
    → (if str_eq (status_for h) "halted" || str_eq (status_for h) "cancelled"
        then reason_of_text (reason_text h)
        else halt_none)
      ≡ h
restored_named halt_none n = refl
restored_named halt_token_budget n = refl
restored_named halt_dollar_budget n = refl
restored_named halt_loop_budget n = refl
restored_named halt_time_budget n = refl
restored_named halt_cancelled n = refl
restored_named (halt_other s) n = absurd n

module _ {D : Type 0} ⦃F : Float64 D⦄ where
  pub new-restored :
      (rec : RunRecord D) (u : Usage D) (now : Time)
      → let g = Governor.new background (budget_of rec) (restore_options rec u) now now in
        (g.usage ≡ u) × (g.halted ≡ restored_reason rec)
  unfolding Governor.new
  new-restored rec u now = (ground arith, ground arith)

module _ {D : Type 0} ⦃F : Float64 D⦄ ⦃E : Engine D⦄ where
  -- The row of a store decides what is restored, with the checkpoint that is read for it.
  pub row-Restores :
      (rid : String) (rec : RunRecord D) (now : Time) (db : Db D)
      → get_run rid db ≡ ok rec
      → Restores
          (restore_from_store rid now (some db)).0
          (resume_point rec (latest_checkpoint rec.id db)).0
          (restored_reason rec)
  unfolding restore_from_store reload_run
  row-Restores rid rec now db e =
      rw (e, Restores) (new-restored rec (resume_point rec (latest_checkpoint rec.id db)).0 now)

  pub row_reason :
      (o : Option (RunRecord D)) (r : Run D)
      → IsNamed r.gov.halted
      → restored_reason (merged o (record_of r)) ≡ r.gov.halted
  unfolding record_of
  row_reason none r n = restored_named r.gov.halted n
  row_reason (some old) r n = restored_named r.gov.halted n

  pub row_usage_of :
      (o : Option (RunRecord D)) (r : Run D) → row_usage (merged o (record_of r)) ≡ r.gov.usage
  unfolding record_of
  row_usage_of none r = refl
  row_usage_of (some old) r = refl

  pub row_id : (o : Option (RunRecord D)) (r : Run D) → (merged o (record_of r)).id ≡ r.id
  unfolding record_of
  row_id none r = refl
  row_id (some old) r = refl

  -- A checkpoint that is not behind the row leaves the row's usage.
  resume-row :
      (rec : RunRecord D) (cp : CheckpointRecord D)
      → ltb_ℤ cp.usage_loops rec.usage_loops ≡ false
      → (resume_point rec (ok cp)).0 ≡ row_usage rec
  resume-row rec cp h = ground arith

  -- The row and the checkpoint that a recorded call leaves, over whatever was written before them.
  saved_row :
      (r : Run D) (step : ℤ) (stamp : Time) (db : Db D)
      → let db' =
          (save_checkpoint (snapshot r step "" "" stamp) (upsert_run (record_of r) db).1).1 in
        (o : Option (RunRecord D)) × (get_run r.id db' ≡ ok (merged o (record_of r)))
        × (latest_checkpoint r.id db' ≡ ok (snapshot r step "" "" stamp))
  unfolding record_of
  saved_row r step stamp db =
      let same : str_eq r.id r.id ≡ true = (str_eq_iff r.id r.id).1 refl in
      let there : has_run r.id (upsert_run (record_of r) db).1 ≡ true =
        has_run-upsert_run r.id (record_of r) db ∙ rw same in
      (
        select_one (λ q. str_eq q.id r.id) db.runs,
        get_run-save_checkpoint r.id _ _ ∙ (get_run-upsert_run r.id (record_of r) db ∙ rw same),
        latest-save_checkpoint r.id (snapshot r step "" "" stamp) _ there ∙ rw same,
      )

  not_behind :
      (o : Option (RunRecord D)) (r : Run D) (step : ℤ) (stamp : Time)
      → ltb_ℤ (snapshot r step "" "" stamp).usage_loops (merged o (record_of r)).usage_loops ≡ false
  unfolding record_of
  not_behind none r step stamp = ground arith
  not_behind (some old) r step stamp = ground arith

  pub saved-Restores :
      (r : Run D) (step : ℤ) (stamp later : Time) (db : Db D)
      → IsNamed r.gov.halted
      → let db' =
          (save_checkpoint (snapshot r step "" "" stamp) (upsert_run (record_of r) db).1).1 in
        Restores (restore_from_store r.id later (some db')).0 r.gov.usage r.gov.halted
  saved-Restores r step stamp later db n =
      let (o, row, cp) = saved_row r step stamp db in
      let rec = merged o (record_of r) in
      let db' = (save_checkpoint (snapshot r step "" "" stamp) (upsert_run (record_of r) db).1).1 in
      let q = (restore_from_store r.id later (some db')).0 in
      let usage : (resume_point rec (latest_checkpoint rec.id db')).0 ≡ r.gov.usage =
        ap (λ i. (resume_point rec (latest_checkpoint i db')).0) (row_id o r)
        ∙ (ap (λ c. (resume_point rec c).0) cp
            ∙ (resume-row rec (snapshot r step "" "" stamp) (not_behind o r step stamp)
                ∙ row_usage_of o r)) in
      subst (λ u. Restores q u r.gov.halted) usage
        (subst (λ h. Restores q (resume_point rec (latest_checkpoint rec.id db')).0 h)
          (row_reason o r n) (row-Restores r.id rec later db' row))

  pub record_usage-IsNamed :
      (p c : ℤ) (d : D) (g : Governor.Run D) (now : Time)
      → IsNamed g.halted
      → IsNamed (Governor.record_usage p c d g now).0.halted
  unfolding Governor.record_usage
  record_usage-IsNamed p c d g now n = ground arith

  -- A crash after a recorded call loses nothing: over a SQLite store that takes its
  -- writes, whatever it held, a run whose halt
  -- reason is one of the six constants is restored with exactly the usage and the halt reason that
  -- it had after the call, whether or not the call halted it.
  pub resume_after_call :
      (r : Run D) (c : Call D) (now stamp later : Time) (db : Db D)
      → IsNamed r.gov.halted
      → let (r', s', e) = record_call r c now stamp (some db) in
        Restores (restore_from_store r.id later s').0 r'.gov.usage r'.gov.halted
  unfolding record_call persist_call persist_run
  resume_after_call r c now stamp later db n =
      let (r', s', e) = record_call r c now stamp (some db) in
      saved-Restores r' c.step_index stamp later
        (upsert_step (step_record r' c e stamp) (append_ledger (ledger_entry r' c stamp) db).1).1
        (record_usage-IsNamed c.prompt_tokens c.completion_tokens c.dollars r.gov now n)
