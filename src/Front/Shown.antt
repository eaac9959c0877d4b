-- ===== src/Front/Shown.antt =====
-- internal/gateway/{openai,anthropic,gateway}.go: what an answer shows of the run that it was metered
-- on.
use riskkernel.Base.{◌+ℤ◌, wrap64, ◌≡◌, String, Unicode, Option, some, List, Float64, Time}
use riskkernel.Governor.{HaltReason, halt_none}
use riskkernel.Governor.Ceiling.{metered}
use riskkernel.Pricing.{Rates}
use riskkernel.Storage.{Store}
use riskkernel.Runs.{Run, begin_step, can_proceed}
use riskkernel.Runs.Writes.{RunEvent, run_all}
use riskkernel.Runs.Manager.{Manager, find_run}
use riskkernel.Gateway.{Registry, Provider, Outcome, answered, Moments, resolve_run}
use riskkernel.Front.{ContentJson, Answer, completion, halt_header, Surroundings}

module _ {D : Type 0} ⦃F : Float64 D⦄ where
  -- The run `r'` that is left beside an outcome: where there is an answer, its usage is that of the run
  -- `r` before it and what the answer reports, and the halt that is reported is its own.
  abbrev pub Recorded : Run D → Run D → Outcome D → Type 0
  Recorded r r' (answered resp meta) =
      (r'.gov.usage ≡ metered resp.prompt_tokens resp.completion_tokens meta.cost r.gov.usage)
      × (meta.halt ≡ r'.gov.halted)
  Recorded r r' _ = Unit

  abbrev halt_of : Outcome D → HaltReason
  halt_of (answered resp meta) = meta.halt
  halt_of _ = halt_none

module _ {D S : Type 0} ⦃F : Float64 D⦄ ⦃U : Unicode⦄ ⦃B : Store D S⦄ (prices : Option (Rates D))
    (t : Moments) where
  -- The run when the provider answers: the step has begun, the ceiling is checked, and others have used
  -- it meanwhile.
  abbrev pub when_answered : List (RunEvent D) → Run D → Option S → Run D
  when_answered during r s =
      let (r₁, s₁, step, e) = begin_step r t.begin_at t.begin_stamp s in
      let (r₂, s₂, e₂) = can_proceed r₁ t.check_at t.check_stamp s₁ in (run_all during r₂ s₂).0

-- What an answer of `handleChatCompletions` shows, beside the manager that is left: a completion shows
-- the tokens and the cost by which the usage of the run that it names has grown from `r`, and its halt.
abbrev pub Shows : {D S : Type 0} ⦃F : Float64 D⦄ → String → Run D → Manager D S → Answer D → Type 0
Shows {D} rid r m (completion h c) =
    (r' : Run D) × ((find_run h.run_id m.runs ≡ some r')
      × (r'.gov.usage ≡ metered c.prompt_tokens c.completion_tokens h.cost r.gov.usage)
      × (h.run_id ≡ rid)
      × (h.halt ≡ halt_header r'.gov.halted)
      × (c.total_tokens ≡ wrap64 (c.prompt_tokens +ℤ c.completion_tokens))
      × (h.tokens ≡ c.total_tokens))
Shows {D} rid r m _ = Unit

module _ {D S : Type 0} ⦃F : Float64 D⦄ ⦃U : Unicode⦄ ⦃B : Store D S⦄ ⦃J : ContentJson⦄
    (prices : Option (Rates D)) (env : Surroundings D) where
  -- The run that the header resolves to, when the provider answers.
  abbrev pub answered_on : String → String → Time → Manager D S → Run D
  answered_on header uuid now m =
      let (m', r) = resolve_run header uuid now m in
      when_answered prices env.moments env.during r m'.store
