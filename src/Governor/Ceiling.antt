-- ===== src/Governor/Ceiling.antt =====
-- internal/governor/governor.go: when a guard method lets a call through.
use riskkernel.Base.{
  ℤ, pos, ◌+ℤ◌, ◌*ℤ◌, ◌≤ℤ◌, ◌<ℤ◌, wrap32, wrap64, ◌≡◌, ◌↔◌, ◌⊎◌, true, false, none, some, arith,
  Float64, Time, second, time_sub,
}
use riskkernel.Governor.{
  Budget, Usage, total_tokens, HaltReason, halt_none, halt_time_budget, halt_token_budget,
  halt_dollar_budget, halt_loop_budget, HaltError, Run, pre_step, can_proceed, record_usage,
}

module _ {D : Type 0} ⦃F : Float64 D⦄ where
  -- The time left, in the words of the budget: no time budget, or less than it has gone by.
  abbrev pub InTime : Run D → Time → Type 0
  InTime r now =
      (r.budget.seconds ≤ℤ pos 0)
      ⊎ (time_sub now r.started_at <ℤ wrap64 (r.budget.seconds *ℤ second))

  abbrev pub BelowTokens : Budget D → Usage D → Type 0
  BelowTokens b u = (b.tokens ≤ℤ pos 0) ⊎ (total_tokens u <ℤ b.tokens)

  abbrev pub BelowDollars : Budget D → Usage D → Type 0
  BelowDollars b u = (F.lt_f F.zero_f b.dollars ≡ false) ⊎ (F.le_f b.dollars u.dollars ≡ false)

  -- What the run still has of each budget that a call spends.
  pub record WithinBudget (r : Run D) (now : Time) : Type 0 where
    pub running : r.halted ≡ halt_none
    pub in_time : InTime r now
    pub below_tokens : BelowTokens r.budget r.usage
    pub below_dollars : BelowDollars r.budget r.usage

  -- CanProceed lets a call through exactly when the run is live, in time, and below its token and
  -- its dollar budget, where it has one.
  pub can_proceed_iff :
      (r : Run D) (now : Time) → ((can_proceed r now).1 ≡ none) ↔ WithinBudget r now
  unfolding can_proceed
  can_proceed_iff r now = (λ h. ground arith, λ w. ground arith)

  abbrev pub BelowLoops : Run D → Type 0
  BelowLoops r = (r.budget.loops ≤ℤ pos 0) ⊎ (wrap32 (r.usage.loops +ℤ pos 1) ≤ℤ r.budget.loops)

  -- An iteration starts exactly when the run is live, in time, and has an iteration left.
  pub pre_step_iff :
      (r : Run D) (now : Time)
      → ((pre_step r now).1 ≡ none) ↔ ((r.halted ≡ halt_none) × InTime r now × BelowLoops r)
  unfolding pre_step
  pre_step_iff r now = (λ h. (ground arith, ground arith, ground arith), λ w. ground arith)

  abbrev pub counted : Run D → Run D
  counted r = record r { usage = record (r.usage) { loops = wrap32 (r.usage.loops +ℤ pos 1) } }

  pub pre_step_counts :
      (r : Run D) (now : Time) → (pre_step r now).1 ≡ none → (pre_step r now).0 ≡ counted r
  unfolding pre_step
  pre_step_counts r now h = ground arith

  -- The usage after a call is recorded, whether or not the run is halted by it.
  abbrev pub metered : ℤ → ℤ → D → Usage D → Usage D
  metered prompt completion dollars u = record u {
    prompt_tokens = wrap64 (u.prompt_tokens +ℤ prompt);
    completion_tokens = wrap64 (u.completion_tokens +ℤ completion);
    dollars = F.add_f u.dollars dollars;
  }

  -- Recording always meters the call, and reports no halt exactly when the run is live and the
  -- usage after the call is inside its token, dollar and time budgets.
  pub record_usage_iff :
      (p c : ℤ) (d : D) (r : Run D) (now : Time)
      → ((record_usage p c d r now).0.usage ≡ metered p c d r.usage)
        × (((record_usage p c d r now).1 ≡ none)
            ↔ WithinBudget (record r { usage = metered p c d r.usage }) now)
  unfolding record_usage
  record_usage_iff p c d r now = (ground arith, (λ h. ground arith, λ w. ground arith))

  -- What a halt reason says about the run that a guard has just halted.
  abbrev pub Breached : HaltReason → Run D → Time → Type 0
  Breached halt_time_budget r now =
      (pos 0 <ℤ r.budget.seconds)
      × (wrap64 (r.budget.seconds *ℤ second) ≤ℤ time_sub now r.started_at)
  Breached halt_token_budget r now =
      (pos 0 <ℤ r.budget.tokens) × (r.budget.tokens ≤ℤ total_tokens r.usage)
  Breached halt_dollar_budget r now =
      (F.lt_f F.zero_f r.budget.dollars ≡ true) × (F.le_f r.budget.dollars r.usage.dollars ≡ true)
  Breached halt_loop_budget r now =
      (pos 0 <ℤ r.budget.loops) × (r.budget.loops <ℤ wrap32 (r.usage.loops +ℤ pos 1))
  Breached _ r now = ⊥

  -- When CanProceed halts a live run, its error names a budget that is indeed used up, and the run
  -- keeps that reason.
  pub can_proceed-Breached :
      (r : Run D) (now : Time) {e : HaltError D}
      → r.halted ≡ halt_none
      → (can_proceed r now).1 ≡ some e
      → Breached e.reason r now × ((can_proceed r now).0.halted ≡ e.reason)
  unfolding can_proceed
  can_proceed-Breached r now live h = (ground arith, ground arith)

  -- When PreStep halts a live run, its error names a budget that is indeed used up, and the run keeps
  -- that reason.
  pub pre_step-Breached :
      (r : Run D) (now : Time) {e : HaltError D}
      → r.halted ≡ halt_none
      → (pre_step r now).1 ≡ some e
      → Breached e.reason r now × ((pre_step r now).0.halted ≡ e.reason)
  unfolding pre_step
  pre_step-Breached r now live h = (ground arith, ground arith)
