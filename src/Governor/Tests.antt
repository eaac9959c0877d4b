-- ===== src/Governor/Tests.antt =====
-- internal/governor/governor.go: runs on concrete inputs.
use riskkernel.Base.{
  ℕ, pos, ◌≡◌, refl, ◌≢◌, ◌↔◌, ◌≤◌, arith, none, some, List, [], ◌∷◌, background, wrap32, wrap64,
  ◌+ℤ◌,
}
use riskkernel.Governor.{
  halt_none, halt_token_budget, halt_loop_budget, halt_cancelled, Run, new, pre_step, can_proceed,
  cancel, close,
}
use riskkernel.Governor.Ceiling.{WithinBudget, can_proceed_iff}
use riskkernel.Governor.Trace.{
  Event, steps, proceeds, cancels, closes, step, run_events, AllRefuse, halted_stays,
}
use riskkernel.Governor.Loops.{started, started-le-budget}
use riskkernel.Sample.{float, budget, usage, governor}

abbrev spent : Run ℕ
spent = record governor { usage = record usage { prompt_tokens = pos 950; loops = pos 3 } }

abbrev killed : Run ℕ
killed = record governor { halted = halt_cancelled }

abbrev unbounded : Run ℕ
unbounded = record governor {
  budget = record budget { loops = pos 2147483647 };
  usage = record usage { loops = pos 2147483647 };
}

abbrev some_calls : List (Event ℕ)
some_calls = steps (pos 11) ∷ cancels ∷ proceeds (pos 12) ∷ closes ∷ steps (pos 13) ∷ []

spent_refused : (can_proceed spent (pos 20)).0.halted ≡ halt_token_budget
unfolding can_proceed wrap64 ◌+ℤ◌
spent_refused = refl

loops_refused : (pre_step spent (pos 20)).0.halted ≡ halt_loop_budget
unfolding pre_step wrap32 ◌+ℤ◌
loops_refused = refl

can_proceed_iff_example :
    ((can_proceed governor (pos 20)).1 ≡ none) ↔ WithinBudget governor (pos 20)
can_proceed_iff_example = can_proceed_iff governor (pos 20)

spent_error :
    (can_proceed spent (pos 20)).1
    ≡ some (record { reason = halt_token_budget; usage = spent.usage })
unfolding can_proceed wrap64 ◌+ℤ◌
spent_error = refl

loops_error :
    (pre_step spent (pos 20)).1 ≡ some (record { reason = halt_loop_budget; usage = spent.usage })
unfolding pre_step wrap32 ◌+ℤ◌
loops_error = refl

calls_halt : (run_events some_calls (new background budget [] (pos 10) (pos 10))).halted ≢ halt_none
unfolding run_events step pre_step can_proceed cancel close new wrap32 wrap64 ◌+ℤ◌
calls_halt = λ e. cc

killed_halted : killed.halted ≢ halt_none
killed_halted = λ e. cc

halted_stays_example :
    ((run_events some_calls killed).halted ≡ halt_cancelled)
    × ((run_events some_calls killed).usage.loops ≡ pos 2)
    × AllRefuse halt_cancelled some_calls killed
halted_stays_example = halted_stays some_calls killed killed_halted

started-le-budget_example :
    let r = new background budget [] (pos 10) (pos 10) in
    ((run_events some_calls r).usage.loops ≡ pos (started some_calls r))
    × (started some_calls r ≤ 3)
started-le-budget_example =
    started-le-budget background budget 3 (pos 10) (pos 10) some_calls refl (omega arith)
      (omega arith)
