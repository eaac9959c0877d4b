-- ===== src/Governor.antt =====
-- internal/governor/governor.go: budgets, usage, and the guard methods of a governed run.
-- Each method holds the mutex from its first to its last line, so it is one function from the
-- state before to the state after; `now` is what the run's clock answers in that call.
pub mod Ceiling
pub mod Halts
pub mod Trace
pub mod Loops
mod Tests
use riskkernel.Base.{
  ℤ, pos, ◌+ℤ◌, ◌*ℤ◌, wrap32, wrap64, ltb_ℤ, leb_ℤ, String, str_eq, ◌≡◌, Bool, true, false, ◌&&◌,
  not, Option, none, some, List, [], ◌∷◌, if◌then◌else◌, Float64, Time, second, time_sub, Context,
  background, derived, cancel_context,
}

pub record Budget (D : Type 0) : Type 0 where
  pub tokens : ℤ  -- int64
  pub dollars : D
  pub loops : ℤ  -- int32
  pub seconds : ℤ  -- int32

pub record Usage (D : Type 0) : Type 0 where
  pub prompt_tokens : ℤ  -- int64
  pub completion_tokens : ℤ  -- int64
  pub dollars : D
  pub loops : ℤ  -- int32

-- `Usage.Tokens`.
abbrev pub total_tokens : {D : Type 0} → Usage D → ℤ
total_tokens u = wrap64 (u.prompt_tokens +ℤ u.completion_tokens)

-- `HaltReason` is a string: the six constants, and any other text, which a store may hold.
pub data HaltReason : Type 0 where
  halt_none halt_token_budget halt_dollar_budget halt_loop_budget halt_time_budget : HaltReason
  halt_cancelled : HaltReason
  halt_other : String → HaltReason

abbrev pub is_running : HaltReason → Bool
is_running halt_none = true
is_running _ = false

pub record HaltError (D : Type 0) : Type 0 where
  pub reason : HaltReason
  pub usage : Usage D

pub record Run (D : Type 0) : Type 0 where
  pub budget : Budget D
  pub started_at : Time
  pub ctx : Context
  pub usage : Usage D
  pub halted : HaltReason

-- `Option`: what a caller of `New` sets on the run that is being built.
abbrev pub RunOption : Type 0 → Type 0
RunOption D = Run D → Run D

abbrev pub with_restored_usage : {D : Type 0} → Usage D → RunOption D
with_restored_usage u r = record r { usage = u }

abbrev pub with_restored_halt : {D : Type 0} → HaltReason → RunOption D
with_restored_halt halt_none r = r
with_restored_halt reason r = record r { halted = reason }

abbrev apply_options : {D : Type 0} → List (RunOption D) → Run D → Run D
apply_options [] r = r
apply_options (o ∷ os) r = apply_options os (o r)

-- The context that `New` derives: with the real-time deadline if there is a time budget.
abbrev governed_context : Context → ℤ → Time → Context
governed_context parent seconds real =
    if ltb_ℤ (pos 0) seconds
    then derived parent false (some (real +ℤ seconds *ℤ second))
    else derived parent false none

module _ {D : Type 0} ⦃F : Float64 D⦄ where
  abbrev empty_usage : Usage D
  empty_usage = record {
    prompt_tokens = pos 0;
    completion_tokens = pos 0;
    dollars = F.zero_f;
    loops = pos 0;
  }

  -- `New`: `now` is the run's clock, `real` the clock of the context's deadline.
  unfoldable pub new : Context → Budget D → List (RunOption D) → Time → Time → Run D
  new parent b opts now real =
      let blank : Run D = record {
        budget = b;
        started_at = pos 0;
        ctx = background;
        usage = empty_usage;
        halted = halt_none;
      } in
      let opted = apply_options opts blank in
      let ctx' = governed_context parent b.seconds real in
      record opted {
        started_at = now;
        ctx = if is_running opted.halted then ctx' else cancel_context ctx';
      }

  -- `Close`.
  unfoldable pub close : Run D → Run D
  close r = record r { ctx = cancel_context r.ctx }

  abbrev halt_err : Run D → HaltError D
  halt_err r = record { reason = r.halted; usage = r.usage }

  -- `haltLocked`: the first reason wins.
  abbrev halt_locked : HaltReason → Run D → Run D × Option (HaltError D)
  halt_locked reason r =
      let r' =
        if is_running r.halted
        then record r { halted = reason; ctx = cancel_context r.ctx }
        else r in
      (r', some (halt_err r'))

  -- `expiredLocked`. The product is int64.
  abbrev pub is_expired : Run D → Time → Bool
  is_expired r now =
      if leb_ℤ r.budget.seconds (pos 0)
      then false
      else leb_ℤ (wrap64 (r.budget.seconds *ℤ second)) (time_sub now r.started_at)

  abbrev pub out_of_tokens : Run D → Bool
  out_of_tokens r = ltb_ℤ (pos 0) r.budget.tokens && leb_ℤ r.budget.tokens (total_tokens r.usage)

  abbrev pub out_of_dollars : Run D → Bool
  out_of_dollars r = F.lt_f F.zero_f r.budget.dollars && F.le_f r.budget.dollars r.usage.dollars

  abbrev pub out_of_loops : Run D → Bool
  out_of_loops r =
      ltb_ℤ (pos 0) r.budget.loops && ltb_ℤ r.budget.loops (wrap32 (r.usage.loops +ℤ pos 1))

  -- `checkLocked`: the loop budget is not among its tests.
  abbrev check_locked : Run D → Time → Run D × Option (HaltError D)
  check_locked r now =
      if not (is_running r.halted)
      then (r, some (halt_err r))
      else if is_expired r now
      then halt_locked halt_time_budget r
      else if out_of_tokens r
      then halt_locked halt_token_budget r
      else if out_of_dollars r
      then halt_locked halt_dollar_budget r
      else (r, none)

  -- `PreStep`.
  unfoldable pub pre_step : Run D → Time → Run D × Option (HaltError D)
  pre_step r now =
      if not (is_running r.halted)
      then (r, some (halt_err r))
      else if is_expired r now
      then halt_locked halt_time_budget r
      else if out_of_loops r
      then halt_locked halt_loop_budget r
      else (record r { usage = record (r.usage) { loops = wrap32 (r.usage.loops +ℤ pos 1) } }, none)

  -- `CanProceed`.
  unfoldable pub can_proceed : Run D → Time → Run D × Option (HaltError D)
  can_proceed r now = check_locked r now

  -- `RecordUsage`.
  unfoldable pub record_usage : ℤ → ℤ → D → Run D → Time → Run D × Option (HaltError D)
  record_usage prompt completion dollars r now =
      let u = r.usage in
      check_locked
        (record r {
          usage = record u {
            prompt_tokens = wrap64 (u.prompt_tokens +ℤ prompt);
            completion_tokens = wrap64 (u.completion_tokens +ℤ completion);
            dollars = F.add_f u.dollars dollars;
          };
        })
        now

  -- `Cancel`.
  unfoldable pub cancel : Run D → Run D
  cancel r = (halt_locked halt_cancelled r).0

  -- `Status`.
  unfoldable pub status : Run D → Usage D × HaltReason
  status r = (r.usage, r.halted)

  -- `Halted`.
  unfoldable pub is_halted : Run D → Bool
  is_halted r = not (is_running r.halted)

  -- `Elapsed`.
  unfoldable pub elapsed : Run D → Time → ℤ
  elapsed r now = time_sub now r.started_at
