-- ===== src/Sample.antt =====
-- The values that the tests and the examples run on: amounts in millionths of a dollar, an engine
-- that orders times as numbers, a live run with two of three iterations counted, and a store with
-- the row of one run.
use riskkernel.Base.{
  ℕ, ◌+◌, pos, ltb_ℤ, true, false, none, List, [], ◌∷◌, Float64, micros, Unicode, ascii, background,
  derived,
}
use riskkernel.Governor
use riskkernel.Governor.{Budget, Usage, HaltReason, halt_none}
use riskkernel.Storage.Sqlite.{Engine, Db, upsert_run, save_checkpoint}
use riskkernel.Runs
use riskkernel.Runs.{Call, record_of, snapshot}

instance abbrev pub float : Float64 ℕ
float = micros

instance abbrev pub unicode : Unicode
unicode = ascii

abbrev sum : List ℕ → ℕ
sum [] = 0
sum (x ∷ xs) = x + sum xs

instance abbrev pub engine : Engine ℕ
engine = record { text_before = ltb_ℤ; sum_dollars = sum }

abbrev pub budget : Budget ℕ
budget = record { tokens = pos 1000; dollars = 5000000; loops = pos 3; seconds = pos 0 }

abbrev pub usage : Usage ℕ
usage = record {
  prompt_tokens = pos 120;
  completion_tokens = pos 80;
  dollars = 40000;
  loops = pos 2;
}

abbrev pub governor : Governor.Run ℕ
governor = record {
  budget = budget;
  started_at = pos 10;
  ctx = derived background false none;
  usage = usage;
  halted = halt_none;
}

abbrev pub live_run : Runs.Run ℕ
live_run = record {
  id = "run-1";
  name = "agent";
  budget = budget;
  policy_ref = "";
  metadata = [];
  gov = governor;
  created_at = pos 10;
  updated_at = pos 20;
  cur_step_started = pos 15;
}

abbrev pub empty_db : Db ℕ
empty_db = record {
  runs = [];
  steps = [];
  ledger = [];
  tool_calls = [];
  checkpoints = [];
  approvals = [];
  policies = [];
  facts = [];
}

-- The store of a run whose last call has been recorded.
abbrev pub db : Db ℕ
db =
    (save_checkpoint (snapshot live_run (pos 2) "" "" (pos 20))
      (upsert_run (record_of live_run) empty_db).1).1

-- A call that takes the run past its token budget.
abbrev pub big_call : Call ℕ
big_call = record {
  step_index = pos 2;
  provider = "anthropic";
  model = "claude-opus-4-8";
  prompt_tokens = pos 900;
  completion_tokens = pos 100;
  dollars = 7000;
  priced = true;
  response_id = "msg-1";
}
