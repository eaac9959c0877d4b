-- ===== src/Governor/Trace.antt =====
-- internal/governor/governor.go: any interleaving of guard calls. The mutex makes each method
-- atomic, so a run that several goroutines share moves through a sequence of calls.
use riskkernel.Base.{
  ℤ, ◌≡◌, refl, ◌≢◌, ◌∙◌, subst, true, Option, none, some, List, [], ◌∷◌, arith, Float64, Time,
  Context, is_done,
}
use riskkernel.Governor.{
  Budget, HaltReason, halt_none, halt_cancelled, HaltError, Run, RunOption, new, close, pre_step,
  can_proceed, record_usage, cancel,
}
use riskkernel.Governor.Halts.{
  IsValid, new-IsValid, can_proceed-IsValid, pre_step-IsValid, record_usage-IsValid, cancel-IsValid,
  close-IsValid, dead_context,
}

-- One call of an exported method, with what the clock answers in it.
pub data Event (D : Type 0) : Type 0 where
  steps : Time → Event D
  proceeds : Time → Event D
  records : ℤ → ℤ → D → Time → Event D
  cancels : Event D
  closes : Event D

module _ {D : Type 0} ⦃F : Float64 D⦄ where
  unfoldable pub step : Event D → Run D → Run D × Option (HaltError D)
  step (steps now) r = pre_step r now
  step (proceeds now) r = can_proceed r now
  step (records p c d now) r = record_usage p c d r now
  step cancels r = (cancel r, none)
  step closes r = (close r, none)

  unfoldable pub run_events : List (Event D) → Run D → Run D
  run_events [] r = r
  run_events (e ∷ es) r = run_events es (step e r).0

  step-IsValid : (e : Event D) (r : Run D) → IsValid r → IsValid (step e r).0
  unfolding step
  step-IsValid (steps now) r v = pre_step-IsValid r now v
  step-IsValid (proceeds now) r v = can_proceed-IsValid r now v
  step-IsValid (records p c d now) r v = record_usage-IsValid p c d r now v
  step-IsValid cancels r v = cancel-IsValid r v
  step-IsValid closes r v = close-IsValid r v

  run_events-IsValid : (es : List (Event D)) (r : Run D) → IsValid r → IsValid (run_events es r)
  unfolding run_events
  run_events-IsValid [] r v = v
  run_events-IsValid (e ∷ es) r v = run_events-IsValid es (step e r).0 (step-IsValid e r v)

  -- In every run that `New` builds and any calls have moved, a halt has killed the context: it is
  -- done at every moment.
  pub halted_context_is_dead :
      (parent : Context) (b : Budget D) (os : List (RunOption D)) (now real : Time)
      (es : List (Event D)) (t : Time)
      → (run_events es (new parent b os now real)).halted ≢ halt_none
      → is_done (run_events es (new parent b os now real)).ctx t ≡ true
  halted_context_is_dead parent b os now real es t h =
      dead_context _ (run_events-IsValid es _ (new-IsValid parent b os now real)) h t

  -- What a call answers once the run is halted: a guard's error with the first reason.
  abbrev Refuses : HaltReason → Event D → Option (HaltError D) → Type 0
  Refuses reason cancels o = Unit
  Refuses reason closes o = Unit
  Refuses reason _ none = ⊥
  Refuses reason _ (some err) = err.reason ≡ reason

  step_of_halted :
      (e : Event D) (r : Run D)
      → r.halted ≢ halt_none
      → ((step e r).0.halted ≡ r.halted)
        × ((step e r).0.usage.loops ≡ r.usage.loops)
        × Refuses r.halted e (step e r).1
  unfolding step pre_step can_proceed record_usage cancel close
  step_of_halted (steps now) r h = ground arith
  step_of_halted (proceeds now) r h = ground arith
  step_of_halted (records p c d now) r h = ground arith
  step_of_halted cancels r h = ground arith
  step_of_halted closes r h = ground arith

  -- Every guard call along a trace is refused with the reason.
  abbrev pub AllRefuse : HaltReason → List (Event D) → Run D → Type 0
  AllRefuse reason [] r = Unit
  AllRefuse reason (e ∷ es) r = Refuses reason e (step e r).1 × AllRefuse reason es (step e r).0

  -- Once a run is halted, no sequence of calls revives it: the first reason stays, no further
  -- iteration is counted, and every guard call answers an error with that reason.
  pub halted_stays :
      (es : List (Event D)) (r : Run D)
      → r.halted ≢ halt_none
      → ((run_events es r).halted ≡ r.halted)
        × ((run_events es r).usage.loops ≡ r.usage.loops)
        × AllRefuse r.halted es r
  unfolding run_events
  halted_stays [] r h = (refl, refl, tt)
  halted_stays (e ∷ es) r h =
      let (same, loops, refused) = step_of_halted e r h in
      let rest = halted_stays es (step e r).0 (rw same h) in
      (
        rest.0 ∙ same,
        rest.1 ∙ loops,
        (refused, subst (λ reason. AllRefuse reason es (step e r).0) same rest.2),
      )

  -- The kill switch: after `Cancel` on a live run every later guard call answers "cancelled".
  pub cancel_refuses :
      (es : List (Event D)) (r : Run D)
      → r.halted ≡ halt_none
      → ((run_events es (cancel r)).halted ≡ halt_cancelled)
        × AllRefuse halt_cancelled es (cancel r)
  cancel_refuses es r live =
      let e : (cancel r).halted ≡ halt_cancelled = unfold cancel in ground arith in
      let (same, _, refused) = halted_stays es (cancel r) (rw e (λ q. cc)) in
      (same ∙ e, subst (λ reason. AllRefuse reason es (cancel r)) e refused)
