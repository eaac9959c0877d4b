-- ===== src/Runs/Writes.antt =====
-- internal/runs/manager.go: the methods of a run over any store. What the store does has no part in
-- what the governor decides.
use riskkernel.Base.{◌≡◌, refl, ◌∙◌, ap, Option, none, List, [], ◌∷◌, arith, Float64, Time}
use riskkernel.Governor.{HaltError}
use riskkernel.Governor.Trace
use riskkernel.Governor.Trace.{Event}
use riskkernel.Storage.{Store}
use riskkernel.Runs.{Run, Call, begin_step, can_proceed, record_call, cancel, persist_halt}

-- One call of a method of a run, with the governor's clock and the time that it writes.
pub data RunEvent (D : Type 0) : Type 0 where
  begins : Time → Time → RunEvent D
  proceeds : Time → Time → RunEvent D
  records : Call D → Time → Time → RunEvent D
  cancels : Time → RunEvent D

module _ {D S : Type 0} ⦃F : Float64 D⦄ ⦃B : Store D S⦄ where
  -- The run, the store and the answer after one call.
  unfoldable pub run_step : RunEvent D → Run D → Option S → Run D × Option S × Option (HaltError D)
  run_step (begins now stamp) r s = let (r', s', idx, e) = begin_step r now stamp s in (r', s', e)
  run_step (proceeds now stamp) r s = can_proceed r now stamp s
  run_step (records c now stamp) r s = record_call r c now stamp s
  run_step (cancels stamp) r s = let (r', s') = cancel r stamp s in (r', s', none)

  unfoldable pub run_all : List (RunEvent D) → Run D → Option S → Run D × Option S
  run_all [] r s = (r, s)
  run_all (e ∷ es) r s = let (r', s', halt) = run_step e r s in run_all es r' s'

module _ {D : Type 0} where
  -- The governor's part of a call.
  pub governed : RunEvent D → Event D
  governed (begins now stamp) = Event.steps now
  governed (proceeds now stamp) = Event.proceeds now
  governed (records c now stamp) = Event.records c.prompt_tokens c.completion_tokens c.dollars now
  governed (cancels stamp) = Event.cancels

  pub all_governed : List (RunEvent D) → List (Event D)
  all_governed [] = []
  all_governed (e ∷ es) = governed e ∷ all_governed es

module _ {D S : Type 0} ⦃F : Float64 D⦄ ⦃B : Store D S⦄ where
  pub run_step-governed :
      (e : RunEvent D) (r : Run D) (s : Option S)
      → ((run_step e r s).0.gov ≡ (Trace.step (governed e) r.gov).0)
        × ((run_step e r s).2 ≡ (Trace.step (governed e) r.gov).1)
  unfolding run_step governed begin_step can_proceed record_call cancel persist_halt Trace.step
  run_step-governed (begins now stamp) r s = (ground arith, ground arith)
  run_step-governed (proceeds now stamp) r s = (ground arith, ground arith)
  run_step-governed (records c now stamp) r s = (refl, refl)
  run_step-governed (cancels stamp) r s = (refl, refl)

  -- For every store, whatever it answers and however its writes fail, and for none at all: a
  -- sequence of calls moves the governor exactly as the same calls on the governor alone.
  pub enforcement_ignores_store :
      (es : List (RunEvent D)) (r : Run D) (s : Option S)
      → (run_all es r s).0.gov ≡ Trace.run_events (all_governed es) r.gov
  unfolding run_all all_governed Trace.run_events
  enforcement_ignores_store [] r s = refl
  enforcement_ignores_store (e ∷ es) r s =
      let (r', s', halt) = run_step e r s in
      enforcement_ignores_store es r' s'
      ∙ ap (λ g. Trace.run_events (all_governed es) g) (run_step-governed e r s).0
