-- ===== src/Governor/Halts.antt =====
-- internal/governor/governor.go: a halted run stays halted, and its context is dead.
use riskkernel.Base.{
  ℤ, ◌≡◌, refl, ◌≢◌, Bool, true, false, none, some, List, arith, Float64, Time, Context, background,
  derived, is_done, cancel_context,
}
use riskkernel.Governor.{
  Budget, halt_none, Run, RunOption, new, close, pre_step, can_proceed, record_usage, cancel,
}

-- The run's context is one that `New` derives, and it is dead if the run is halted.
abbrev IsDerived : Context → Type 0
IsDerived background = ⊥
IsDerived (derived parent cancelled deadline) = Unit

abbrev is_cancelled : Context → Bool
is_cancelled background = false
is_cancelled (derived parent cancelled deadline) = cancelled

pub record IsValid {D : Type 0} (r : Run D) : Type 0 where
  pub derived_ctx : IsDerived r.ctx
  pub halted_dead : r.halted ≢ halt_none → is_cancelled r.ctx ≡ true

cancel_context-IsDerived : (c : Context) → IsDerived c → IsDerived (cancel_context c)
cancel_context-IsDerived background h = h
cancel_context-IsDerived (derived p c d) h = h

cancel_context-is_cancelled : (c : Context) → IsDerived c → is_cancelled (cancel_context c) ≡ true
cancel_context-is_cancelled background h = absurd h
cancel_context-is_cancelled (derived p c d) h = refl

is_cancelled-is_done : (c : Context) (t : Time) → is_cancelled c ≡ true → is_done c t ≡ true
is_cancelled-is_done background t h = cc
is_cancelled-is_done (derived p c none) t h = ground arith
is_cancelled-is_done (derived p c (some d)) t h = ground arith

-- A cancelled context is done at every moment.
pub dead_context :
    {D : Type 0} (r : Run D)
    → IsValid r
    → r.halted ≢ halt_none
    → (t : Time) → is_done r.ctx t ≡ true
dead_context r v h t = is_cancelled-is_done r.ctx t (v.halted_dead h)

module _ {D : Type 0} ⦃F : Float64 D⦄ where
  pub can_proceed-IsValid : (r : Run D) (now : Time) → IsValid r → IsValid (can_proceed r now).0
  unfolding can_proceed
  can_proceed-IsValid r now v =
      ground (arith, cancel_context-IsDerived r.ctx, cancel_context-is_cancelled r.ctx)

  pub pre_step-IsValid : (r : Run D) (now : Time) → IsValid r → IsValid (pre_step r now).0
  unfolding pre_step
  pre_step-IsValid r now v =
      ground (arith, cancel_context-IsDerived r.ctx, cancel_context-is_cancelled r.ctx)

  pub record_usage-IsValid :
      (p c : ℤ) (d : D) (r : Run D) (now : Time) → IsValid r → IsValid (record_usage p c d r now).0
  unfolding record_usage
  record_usage-IsValid p c d r now v =
      ground (arith, cancel_context-IsDerived r.ctx, cancel_context-is_cancelled r.ctx)

  pub cancel-IsValid : (r : Run D) → IsValid r → IsValid (cancel r)
  unfolding cancel
  cancel-IsValid r v =
      ground (arith, cancel_context-IsDerived r.ctx, cancel_context-is_cancelled r.ctx)

  pub close-IsValid : (r : Run D) → IsValid r → IsValid (close r)
  unfolding close
  close-IsValid r v =
      ground (arith, cancel_context-IsDerived r.ctx, cancel_context-is_cancelled r.ctx)

  -- Every run that `New` builds, restored or fresh, is valid.
  pub new-IsValid :
      (parent : Context) (b : Budget D) (os : List (RunOption D)) (now real : Time)
      → IsValid (new parent b os now real)
  unfolding new
  new-IsValid parent b os now real = ground arith
