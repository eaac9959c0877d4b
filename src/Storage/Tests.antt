-- ===== src/Storage/Tests.antt =====
-- internal/storage/{sqlite,checkpoints,approvals}.go: writes and reads of concrete tables.
use riskkernel.Base.{
  Bool, not, false, ℤ, ◌+ℤ◌, wrap64, String, str_eq, is_some, some, List, ◌∷◌, ℕ, pos, ◌≡◌, refl,
  true, none, [],
}
use riskkernel.Storage.{
  RunRecord, LedgerEntry, ApprovalRecord, approval_pending, approval_approved, ok, err, failed,
  not_found,
}
use riskkernel.Storage.Sqlite.{Db, has_run, get_run, upsert_run, save_checkpoint, resolve_approval}
use riskkernel.Storage.Sqlite.{select_one, sqlite}
use riskkernel.Storage.Summary.{
  Texts, SummarizeOptions, UsageSummary, dimension_of, group_key, group_rows, aggregate,
  aggregate_all, sort_groups, insert_group, grand_total, summarize_ledger,
}
use riskkernel.Storage.Conserved.{summary_total}
use riskkernel.Storage.Postgres
use riskkernel.Storage.Backends.{
  Write, write_run, write_ledger, write_approval, write_decision, all_on_sqlite, all_on_postgres,
  on_postgres, postgres_statement, Takes, no_rows,
}
use riskkernel.Storage.Backed.{ReadsAlike, TakenAlike, backends_agree}
use riskkernel.Runs.{record_of, view}
use riskkernel.Sample.{engine, float, live_run, db}

abbrev renamed : RunRecord ℕ
renamed = record (record_of live_run) { name = "again"; policy_ref = "strict"; created_at = pos 99 }

abbrev held : ApprovalRecord
held = record {
  id = "ap-1";
  run_id = "run-1";
  step_index = pos 2;
  tool = "db_write";
  side_effect = "tool";
  arguments = "{}";
  status = approval_pending;
  reason = "";
  decided_by = "";
  created_at = pos 30;
  decided_at = none;
}

abbrev held_db : Db ℕ
held_db = record db { approvals = held ∷ [] }

-- On conflict the creation time and the policy of the first row stay.
policy_stays :
    get_run "run-1" (upsert_run renamed db).1 ≡ ok (record (record_of live_run) { name = "again" })
unfolding get_run upsert_run save_checkpoint record_of view
policy_stays = refl

approved_once : (resolve_approval "ap-1" approval_approved "fine" "ann" (pos 40) held_db).0 ≡ ok tt
unfolding resolve_approval
approved_once = refl

known : has_run "run-1" db ≡ true
unfolding save_checkpoint upsert_run record_of view
known = refl

instance abbrev texts : Texts
texts = record { day_of = λ t. "2026-01-01"; key_before = λ a b. false }

abbrev entry : String → ℤ → LedgerEntry ℕ
entry model prompt = record {
  run_id = "run-1";
  step_index = pos 1;
  provider = "openai";
  model = model;
  prompt_tokens = prompt;
  completion_tokens = pos 5;
  dollars = 100;
  priced = true;
  response_id = "";
  created_at = pos 30;
}

abbrev ledger_db : Db ℕ
ledger_db = record db { ledger = entry "a" (pos 10) ∷ entry "b" (pos 20) ∷ entry "a" (pos 40) ∷ [] }

abbrev by_model_options : SummarizeOptions
by_model_options = record { by = "model"; since = none; until = some (pos 31) }

abbrev expected : UsageSummary ℕ
expected = record {
  by = "model";
  groups =
      record {
        key = "a";
        calls = pos 2;
        prompt_tokens = pos 50;
        completion_tokens = pos 10;
        dollars = 200;
      }
      ∷ record {
        key = "b";
        calls = pos 1;
        prompt_tokens = pos 20;
        completion_tokens = pos 5;
        dollars = 100;
      }
      ∷ [];
  total = record {
    key = "total";
    calls = pos 3;
    prompt_tokens = pos 70;
    completion_tokens = pos 15;
    dollars = 300;
  };
}

summarized : summarize_ledger by_model_options ledger_db ≡ ok expected
unfolding summarize_ledger dimension_of group_key group_rows aggregate aggregate_all sort_groups
    insert_group grand_total ◌+ℤ◌ wrap64
summarized = refl

have_runs : is_some (select_one (λ (r : RunRecord ℕ). str_eq r.id "run-1") db.runs) ≡ true
unfolding save_checkpoint upsert_run record_of view
have_runs = refl

summary_total_example :
    (expected.total.calls ≡ wrap64 (pos 3))
    × (expected.total.prompt_tokens ≡ wrap64 (pos 10 +ℤ (pos 20 +ℤ (pos 40 +ℤ pos 0))))
    × (expected.total.completion_tokens ≡ wrap64 (pos 5 +ℤ (pos 5 +ℤ (pos 5 +ℤ pos 0))))
summary_total_example =
    summary_total by_model_options ledger_db expected summarized
      (have_runs, (have_runs, (have_runs, tt)))

-- SQLite takes every row here, and PostgreSQL all but those with a name that it cannot store.
abbrev storable : Write ℕ → Bool
storable (write_run r) = not (str_eq r.name "nul")
storable _ = true

instance abbrev takes : Takes ℕ
takes = record { sqlite_takes = λ w. true; postgres_takes = storable }

-- A run that is written twice, with an approval that is decided twice.
abbrev history : List (ℕ × Write ℕ)
history =
    (0, write_approval held)
    ∷ (0, write_run (record_of live_run))
    ∷ (0, write_run (record renamed { id = "run-2" }))
    ∷ (0, write_approval held)
    ∷ (1, write_run renamed)
    ∷ (0, write_ledger (entry "a" (pos 10)))
    ∷ (5, write_decision "ap-1" approval_approved "fine" "ann" (pos 40))
    ∷ (0, write_decision "ap-1" approval_approved "late" "bob" (pos 41))
    ∷ []

history_alike : TakenAlike history
unfolding record_of
history_alike = (refl, (refl, (refl, (refl, (refl, (refl, (refl, (refl, tt))))))))

answers_of_history :
    (all_on_postgres history no_rows).0
    ≡ err failed ∷ ok tt ∷ ok tt ∷ ok tt ∷ ok tt ∷ ok tt ∷ ok tt ∷ err not_found ∷ []
unfolding all_on_postgres on_postgres postgres_statement Postgres.upsert_run
    Postgres.create_approval Postgres.append_ledger Postgres.resolve_approval record_of view
answers_of_history = refl

backends_agree_example :
    ((all_on_sqlite history no_rows).0 ≡ (all_on_postgres history no_rows).0)
    × ReadsAlike (all_on_sqlite history no_rows).1 (all_on_postgres history no_rows).1
backends_agree_example = backends_agree history history_alike
