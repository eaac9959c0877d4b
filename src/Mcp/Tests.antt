-- ===== src/Mcp/Tests.antt =====
-- internal/mcp/gateway.go: concrete tools/call messages.
use riskkernel.Base.{
  ℕ, pos, ◌≡◌, refl, ◌≢◌, ◌↔◌, true, false, if◌then◌else◌, none, some, [], ◌∷◌, path_match,
}
use riskkernel.Storage.Sqlite.{Db, sqlite, sqlite_approvals}
use riskkernel.Approval.Gate.{Gate}
use riskkernel.Runs.Manager.{Manager}
use riskkernel.Runs.Registry.{restarted}
use riskkernel.Mcp.{
  Gateway, Call, forwarded, blocked, match_pattern, match_allow, side_effect, allowed_for, govern,
}
use riskkernel.Mcp.Audit.{RecordedLast, asked_store, call_is_recorded}
use riskkernel.Mcp.Closed.{NobodyDecides, no_decision_no_call}
use riskkernel.Sample.{float, engine, budget, live_run, db}

abbrev gateway : Gateway
gateway = record { allow = "fs_*" ∷ "search" ∷ []; readonly = "search" ∷ [] }

abbrev manager : Manager ℕ (Db ℕ)
manager = restarted budget (some db)

abbrev gate : Gate (Db ℕ)
gate = record {
  store = some db;
  policy = record { require_for = []; default_safe = true };
  notifier = false;
  waiters = [];
  notified = [];
}

-- Nobody else comes to the gate.
abbrev alone : Call (Db ℕ)
alone = record {
  header = "run-1";
  run_uuid = "run-2";
  approval_uuid = "ap-1";
  record_uuid = "tc-1";
  now = pos 30;
  stamp = pos 31;
  meanwhile = λ g. g;
  prefer = false;
}

glob_allowed : allowed_for {D = ℕ} gateway "fs_write" none ≡ true
unfolding allowed_for match_allow match_pattern path_match
glob_allowed = refl

not_allowed : allowed_for {D = ℕ} gateway "shell" none ≡ false
unfolding allowed_for match_allow match_pattern path_match
not_allowed = refl

call_is_recorded_example :
    RecordedLast gateway alone "fs_write" "{}" live_run none
      (if allowed_for {D = ℕ} gateway "fs_write" none
        then asked_store gateway alone "fs_write" "{}" live_run none manager gate
        else manager.store)
      (if allowed_for {D = ℕ} gateway "fs_write" none then side_effect gateway "fs_write" else "")
      (govern gateway alone "fs_write" "{}" live_run none manager gate)
    × (((govern gateway alone "fs_write" "{}" live_run none manager gate).2 ≡ blocked)
        ↔ (allowed_for {D = ℕ} gateway "fs_write" none ≡ false))
call_is_recorded_example = call_is_recorded gateway alone "fs_write" "{}" live_run none manager gate

writes : side_effect gateway "fs_write" ≡ "tool"
unfolding side_effect
writes = refl

nobody : NobodyDecides gateway alone "fs_write" "{}" live_run none
nobody = λ g h. h

no_decision_no_call_example :
    (govern gateway alone "fs_write" "{}" live_run none manager gate).2 ≢ forwarded
no_decision_no_call_example =
    no_decision_no_call gateway alone "fs_write" "{}" live_run none manager gate writes refl nobody
