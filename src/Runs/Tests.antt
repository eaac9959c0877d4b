-- ===== src/Runs/Tests.antt =====
-- internal/runs/manager.go: concrete runs, their stores, and restarts.
use riskkernel.Base.{
  ℤ, ℕ, pos, ◌+ℤ◌, ◌<ℤ◌, wrap32, wrap64, ◌≡◌, refl, ◌≢◌, arith, none, some, List, [], ◌∷◌,
}
use riskkernel.Governor.{halt_none, pre_step, record_usage}
use riskkernel.Governor.Trace.{Event, steps, proceeds, run_events, AllRefuse}
use riskkernel.Storage.{ok}
use riskkernel.Storage.Sqlite.{
  list_runs_by_status, Db, sqlite, upsert_run, save_checkpoint, latest_checkpoint,
}
use riskkernel.Runs.{record_of, view, snapshot, begin_step, record_call}
use riskkernel.Runs.Manager.{find_run, reload, Manager, restore_from_store, get_or_create}
use riskkernel.Runs.Writes.{
  RunEvent, begins, records, run_step, run_all, all_governed, enforcement_ignores_store,
}
use riskkernel.Runs.Resume.{Restores, resume_after_call}
use riskkernel.Runs.Rollback.{resume_mid_step}
use riskkernel.Runs.Halted.{halt_survives_crash}
use riskkernel.Runs.Reload.{Covered, Reloaded, reload-Covered}
use riskkernel.Runs.Registry.{restarted, reused_id_stays_halted}
use riskkernel.Sample.{float, engine, budget, usage, governor, live_run, empty_db, db, big_call}

abbrev two_calls : List (RunEvent ℕ)
two_calls = begins (pos 21) (pos 22) ∷ records big_call (pos 23) (pos 24) ∷ []

enforcement_ignores_store_example :
    (run_all two_calls live_run (some db)).0.gov ≡ run_events (all_governed two_calls) governor
enforcement_ignores_store_example = enforcement_ignores_store two_calls live_run (some db)

resume_after_call_example :
    let (r', s', e) = record_call live_run big_call (pos 23) (pos 24) (some db) in
    Restores (restore_from_store "run-1" (pos 99) s').0 r'.gov.usage r'.gov.halted
resume_after_call_example = resume_after_call live_run big_call (pos 23) (pos 24) (pos 99) db tt

saved : latest_checkpoint "run-1" db ≡ ok (snapshot live_run (pos 2) "" "" (pos 20))
unfolding latest_checkpoint save_checkpoint upsert_run record_of view
saved = refl

next_counter : pos 2 <ℤ wrap32 (pos 2 +ℤ pos 1)
unfolding wrap32 ◌+ℤ◌
next_counter = omega arith

step_starts : (begin_step live_run (pos 21) (pos 22) (some db)).3 ≡ none
unfolding begin_step pre_step wrap32 ◌+ℤ◌
step_starts = refl

resume_mid_step_example :
    Restores
      (restore_from_store "run-1" (pos 99) (begin_step live_run (pos 21) (pos 22) (some db)).1).0
      usage
      halt_none
resume_mid_step_example =
    resume_mid_step live_run (pos 21) (pos 22) (pos 99) (snapshot live_run (pos 2) "" "" (pos 20))
      db saved refl next_counter step_starts

call_halts :
    (run_step (records big_call (pos 23) (pos 24)) live_run (some db)).0.gov.halted ≢ halt_none
unfolding run_step record_call record_usage wrap64 ◌+ℤ◌
call_halts = λ e. cc

halt_survives_crash_example :
    let (r', s', halt) = run_step (records big_call (pos 23) (pos 24)) live_run (some db) in
    Restores (restore_from_store "run-1" (pos 99) s').0 r'.gov.usage r'.gov.halted
halt_survives_crash_example =
    halt_survives_crash (records big_call (pos 23) (pos 24)) live_run (pos 99) db refl call_halts

abbrev fresh_manager : Manager ℕ (Db ℕ)
fresh_manager = restarted budget (some empty_db)

abbrev later_calls : List (Event ℕ)
later_calls = steps (pos 100) ∷ proceeds (pos 101) ∷ []

reused_id_stays_halted_example :
    let (r', s', halt) = run_step (records big_call (pos 23) (pos 24)) live_run (some db) in
    let (m', q) = get_or_create "run-1" (pos 99) (restarted budget s') in
    (q.gov.usage ≡ r'.gov.usage)
    × (q.gov.halted ≡ r'.gov.halted)
    × AllRefuse r'.gov.halted later_calls q.gov
reused_id_stays_halted_example =
    reused_id_stays_halted (records big_call (pos 23) (pos 24)) live_run budget (pos 99) db
      later_calls refl call_halts

abbrev started_manager : Manager ℕ (Db ℕ)
started_manager = restarted budget (some db)

listed : list_runs_by_status "running" db ≡ ok (record_of live_run ∷ [])
unfolding list_runs_by_status save_checkpoint upsert_run record_of view
listed = refl

reload-Covered_example :
    let (m', res) = reload (pos 99) started_manager in
    Covered (record_of live_run ∷ []) m'.runs
    × Reloaded db
        (record_of live_run ∷ [])
        "run-1"
        (find_run "run-1" started_manager.runs)
        (find_run "run-1" m'.runs)
    × ((n : ℤ) × (res ≡ ok n))
reload-Covered_example =
    reload-Covered (pos 99) started_manager db (record_of live_run ∷ []) "run-1" refl listed
