-- ===== src/Policy/Tests.antt =====
-- internal/policy: a concrete bundle, file and dry run.
use riskkernel.Base.{ℕ, pos, ◌+ℤ◌, wrap64, ◌≡◌, refl, ◌≢◌, inl, inr, none, [], ◌∷◌, arith}
use riskkernel.Governor
use riskkernel.Governor.{halt_none, halt_token_budget, can_proceed}
use riskkernel.Governor.Ceiling.{BelowTokens, BelowDollars}
use riskkernel.Storage.{LedgerTotals}
use riskkernel.Runs.{record_of}
use riskkernel.Policy.{Bundle, File, RunData, all_space, has_tool, validate_from, validate}
use riskkernel.Policy.DryRun.{recorded_usage}
use riskkernel.Sample.{float, budget, governor, live_run}

abbrev strict : Bundle ℕ
strict = record {
  name = "strict";
  budget = budget;
  tool_allowlist = "read_file" ∷ [];
  require_for = record { tool = "db_write"; side_effect = "" } ∷ [];
}

abbrev file : File ℕ
file = record { schema_version = pos 1; policies = strict ∷ [] }

accepted : validate file ≡ none
unfolding validate validate_from all_space has_tool
accepted = refl

twice_refused : validate (record file { policies = strict ∷ strict ∷ [] }) ≢ none
unfolding validate validate_from all_space has_tool
twice_refused = λ e. cc

abbrev totals : LedgerTotals ℕ
totals = record {
  run_id = "run-1";
  calls = pos 4;
  prompt_tokens = pos 900;
  completion_tokens = pos 200;
  dollars = 6000000;
}

abbrev recorded : RunData ℕ
recorded = record { run = record_of live_run; totals = totals; tool_calls = [] }

abbrev overspent : Governor.Run ℕ
overspent = record governor { usage = recorded_usage recorded }

tokens_gone : ¬ BelowTokens overspent.budget overspent.usage
unfolding wrap64 ◌+ℤ◌
tokens_gone (inl h) = omega (arith, h)
tokens_gone (inr h) = omega (arith, h)

dollars_gone : ¬ BelowDollars overspent.budget overspent.usage
dollars_gone (inl h) = cc
dollars_gone (inr h) = cc
