-- ===== src/Governor/Loops.antt =====
-- internal/governor/governor.go: the loop budget over a whole run.
use riskkernel.Base.{
  ℕ, suc, ◌+◌, ◌≤◌, ◌<◌, ℤ, pos, negsuc, ◌≤ℤ◌, wrap32_next, wrap32_last, Option-cases, inl, inr,
  ◌≡◌, refl, ◌∙◌, ap, Option, none, some, List, [], ◌∷◌, arith, Float64, Time, Context,
}
use native.Mathlib.Nat.{add-zero, zero-add, add-suc, suc-add}
use riskkernel.Governor.{
  Budget, halt_none, HaltError, Run, new, close, pre_step, can_proceed, record_usage, cancel,
}
use riskkernel.Governor.Trace.{Event, steps, proceeds, records, cancels, closes, step, run_events}

module _ {D : Type 0} ⦃F : Float64 D⦄ where
  abbrev tally : Option (HaltError D) → ℕ → ℕ
  tally none n = suc n
  tally (some _) n = n

  -- How many of the calls are iterations that were let through.
  pub started : List (Event D) → Run D → ℕ
  started [] r = 0
  started (steps now ∷ es) r = tally (pre_step r now).1 (started es (pre_step r now).0)
  started (e ∷ es) r = started es (step e r).0

  -- The counter is a number within the loop budget, which is below the last int32.
  pub record Counts (n : ℕ) (b : ℕ) (r : Run D) : Type 0 where
    pub counter : r.usage.loops ≡ pos n
    pub within : n ≤ b
    pub budget : r.budget.loops ≡ pos b

  pre_step-Counts :
      (n b : ℕ) (r : Run D) (now : Time)
      → 0 < b
      → b < 2147483647
      → Counts n b r
      → ((pre_step r now).1 ≡ none → Counts (suc n) b (pre_step r now).0)
        × ((e : HaltError D) → (pre_step r now).1 ≡ some e → Counts n b (pre_step r now).0)
  unfolding pre_step
  pre_step-Counts n b r now p q c =
      (λ h. ground (arith, wrap32_next n), λ e h. ground (arith, wrap32_next n))

  proceeds-Counts :
      (n b : ℕ) (r : Run D) (now : Time) → Counts n b r → Counts n b (can_proceed r now).0
  unfolding can_proceed
  proceeds-Counts n b r now c = ground arith

  records-Counts :
      (n b : ℕ) (p k : ℤ) (d : D) (r : Run D) (now : Time)
      → Counts n b r
      → Counts n b (record_usage p k d r now).0
  unfolding record_usage
  records-Counts n b p k d r now c = ground arith

  cancels-Counts : (n b : ℕ) (r : Run D) → Counts n b r → Counts n b (cancel r)
  unfolding cancel
  cancels-Counts n b r c = ground arith

  closes-Counts : (n b : ℕ) (r : Run D) → Counts n b r → Counts n b (close r)
  unfolding close
  closes-Counts n b r c = ground arith

  started-Counts :
      (es : List (Event D)) (n b : ℕ) (r : Run D)
      → 0 < b
      → b < 2147483647
      → Counts n b r
      → Counts (n + started es r) b (run_events es r)
  unfolding started run_events step
  started-Counts [] n b r p q c = rw add-zero c
  started-Counts (steps now ∷ es) n b r p q c = elim (Option-cases (pre_step r now).1) [
    | inl e ↦
        rw (e, started)
          (rw (add-suc, ← suc-add)
            (started-Counts es (suc n) b (pre_step r now).0 p q
              ((pre_step-Counts n b r now p q c).0 e)))
    | inr (x, e) ↦
        rw (e, started)
          (started-Counts es n b (pre_step r now).0 p q ((pre_step-Counts n b r now p q c).1 x e))
  ]
  started-Counts (proceeds now ∷ es) n b r p q c =
      started-Counts es n b (can_proceed r now).0 p q (proceeds-Counts n b r now c)
  started-Counts (records i k d now ∷ es) n b r p q c =
      started-Counts es n b (record_usage i k d r now).0 p q (records-Counts n b i k d r now c)
  started-Counts (cancels ∷ es) n b r p q c =
      started-Counts es n b (cancel r) p q (cancels-Counts n b r c)
  started-Counts (closes ∷ es) n b r p q c =
      started-Counts es n b (close r) p q (closes-Counts n b r c)

  new-Counts :
      (parent : Context) (bud : Budget D) (b : ℕ) (now real : Time)
      → bud.loops ≡ pos b
      → Counts 0 b (new parent bud [] now real)
  unfolding new
  new-Counts parent bud b now real e = record { counter = refl; within = omega arith; budget = e }

  -- Under a loop budget of b, a positive number below 2147483647, a fresh run counts every iteration
  -- that it lets start, and no sequence of calls makes it let more than b start.
  pub started-le-budget :
      (parent : Context) (bud : Budget D) (b : ℕ) (now real : Time) (es : List (Event D))
      → bud.loops ≡ pos b
      → 0 < b
      → b < 2147483647
      → let r = new parent bud [] now real in
        ((run_events es r).usage.loops ≡ pos (started es r)) × (started es r ≤ b)
  started-le-budget parent bud b now real es e p q =
      let c =
        started-Counts es 0 b (new parent bud [] now real) p q
          (new-Counts parent bud b now real e) in
      (c.counter ∙ ap pos (zero-add _), omega (arith, c.within))

  -- A loop budget of 2147483647 is not enforced: a live run without a time budget that has used up
  -- the whole loop budget is let start one more iteration, and its counter wraps to a negative
  -- number.
  pub last_loop_budget_unenforced :
      (r : Run D) (now : Time)
      → r.budget.loops ≡ pos 2147483647
      → r.budget.seconds ≤ℤ pos 0
      → r.halted ≡ halt_none
      → r.usage.loops ≡ pos 2147483647
      → ((pre_step r now).1 ≡ none) × ((pre_step r now).0.usage.loops ≡ negsuc 2147483647)
  unfolding pre_step
  last_loop_budget_unenforced r now b s live l =
      (ground (arith, wrap32_last), ground (arith, wrap32_last))
