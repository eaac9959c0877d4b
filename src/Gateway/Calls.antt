-- ===== src/Gateway/Calls.antt =====
-- internal/gateway/gateway.go: when `governedCall` reaches the provider, and what it does with the
-- answer, over any store.
use riskkernel.Base.{
  ℤ, ◌≡◌, refl, sym, ◌∙◌, ap, ◌≢◌, ◌↔◌, ◌⊎◌, inl, inr, String, Unicode, true, Option, none, some,
  List, arith, is_some, Float64, Time,
}
use riskkernel.Governor
use riskkernel.Governor.{
  HaltReason, halt_none, halt_token_budget, halt_dollar_budget, halt_loop_budget, halt_time_budget,
  halt_cancelled, halt_other, HaltError,
}
use riskkernel.Governor.Ceiling.{
  InTime, BelowLoops, WithinBudget, can_proceed_iff, pre_step_iff, metered, record_usage_iff,
}
use riskkernel.Pricing
use riskkernel.Pricing.{Rates}
use riskkernel.Storage.{Store}
use riskkernel.Runs.{Run, begin_step, can_proceed, record_call, persist_halt}
use riskkernel.Runs.Writes.{RunEvent, run_all}
use riskkernel.Gateway.{
  Registry, Provider, Response, Outcome, refused, answered, Moments, get_provider, route_model,
  unknown_provider, halt_gw_error, halt_reason_of, call_of, after_chat, after_route, after_guard,
  after_begin, governed_call,
}

module _ {D S : Type 0} ⦃F : Float64 D⦄ ⦃B : Store D S⦄ where
  pub begin_step-gov :
      (r : Run D) (now stamp : Time) (s : Option S)
      → ((begin_step r now stamp s).0.gov ≡ (Governor.pre_step r.gov now).0)
        × ((begin_step r now stamp s).3 ≡ (Governor.pre_step r.gov now).1)
  unfolding begin_step persist_halt
  begin_step-gov r now stamp s = (ground arith, ground arith)

  pub can_proceed-gov :
      (r : Run D) (now stamp : Time) (s : Option S)
      → ((can_proceed r now stamp s).0.gov ≡ (Governor.can_proceed r.gov now).0)
        × ((can_proceed r now stamp s).2 ≡ (Governor.can_proceed r.gov now).1)
  unfolding can_proceed persist_halt
  can_proceed-gov r now stamp s = (ground arith, ground arith)

halt_402 : (h : HaltReason) → h ≢ halt_none → (halt_gw_error h).status ≡ 402
halt_402 halt_none ne = absurd (ne refl)
halt_402 halt_token_budget ne = refl
halt_402 halt_dollar_budget ne = refl
halt_402 halt_loop_budget ne = refl
halt_402 halt_time_budget ne = refl
halt_402 halt_cancelled ne = refl
halt_402 (halt_other s) ne = refl

module _ {D : Type 0} ⦃F : Float64 D⦄ where
  pre_step_reason :
      (g : Governor.Run D) (now : Time) {e : HaltError D}
      → (Governor.pre_step g now).1 ≡ some e
      → e.reason ≢ halt_none
  unfolding Governor.pre_step
  pre_step_reason g now h = λ q. ground arith

  can_proceed_reason :
      (g : Governor.Run D) (now : Time) {e : HaltError D}
      → (Governor.can_proceed g now).1 ≡ some e
      → e.reason ≢ halt_none
  unfolding Governor.can_proceed
  can_proceed_reason g now h = λ q. ground arith

  -- What RecordUsage returns is the run's halt reason.
  record_reason :
      (p c : ℤ) (d : D) (g : Governor.Run D) (now : Time)
      → halt_reason_of (Governor.record_usage p c d g now).1
        ≡ (Governor.record_usage p c d g now).0.halted
  unfolding Governor.record_usage
  record_reason p c d g now = ground arith

-- The provider was called.
abbrev pub IsCalled : {D : Type 0} → Outcome D → Type 0
IsCalled (refused e) = ⊥
IsCalled _ = Unit

module _ {D S : Type 0} ⦃F : Float64 D⦄ ⦃U : Unicode⦄ ⦃B : Store D S⦄ (prices : Option (Rates D))
    (t : Moments) (reg : Registry) (model : String) (during : List (RunEvent D))
    (chat : Option Response) (r : Run D) (s : Option S) where
  after_chat-IsCalled :
      (c : Option Response) (prov : Provider) (step : ℤ) (r' : Run D) (s' : Option S)
      → IsCalled (after_chat prices t c prov step r' s').2
  after_chat-IsCalled none prov step r' s' = tt
  after_chat-IsCalled (some resp) prov step r' s' = tt

  after_route-IsCalled :
      (o : Option Provider) (step : ℤ) (r' : Run D) (s' : Option S)
      → IsCalled (after_route prices t o during chat step r' s').2 ↔ (is_some o ≡ true)
  after_route-IsCalled none step r' s' = (λ h. absurd h, λ h. cc)
  after_route-IsCalled (some prov) step r' s' = (
    λ h. refl,
    λ h. let (r₁, s₁) = run_all during r' s' in after_chat-IsCalled chat prov step r₁ s₁,
  )

  after_guard-IsCalled :
      (e : Option (HaltError D)) (o : Option Provider) (step : ℤ) (r' : Run D) (s' : Option S)
      → IsCalled (after_guard prices t e o during chat step r' s').2
        ↔ ((e ≡ none) × (is_some o ≡ true))
  after_guard-IsCalled (some e) o step r' s' = (λ h. absurd h, λ h. cc (h.0))
  after_guard-IsCalled none o step r' s' = (
    λ h. (refl, (after_route-IsCalled o step r' s').0 h),
    λ h. (after_route-IsCalled o step r' s').1 h.1,
  )

  after_begin-IsCalled :
      (e : Option (HaltError D)) (o : Option Provider) (step : ℤ) (r' : Run D) (s' : Option S)
      → IsCalled (after_begin prices t e o during chat step r' s').2 ↔ (
          (e ≡ none) × ((can_proceed r' t.check_at t.check_stamp s').2 ≡ none) × (is_some o ≡ true))
  after_begin-IsCalled (some e) o step r' s' = (λ h. absurd h, λ h. cc (h.0))
  after_begin-IsCalled none o step r' s' =
      let (r₁, s₁, e₁) = can_proceed r' t.check_at t.check_stamp s' in
      (
        λ h. let (a, b) = (after_guard-IsCalled e₁ o step r₁ s₁).0 h in (refl, a, b),
        λ h. (after_guard-IsCalled e₁ o step r₁ s₁).1 (h.1, h.2),
      )

  -- The provider is called exactly when the run is live, in time and has an iteration left, is then
  -- inside its token, dollar and time budgets, and the routed provider is configured: no call starts
  -- on a budget that is used up, whatever the store does.
  pub governed_call-IsCalled_iff : IsCalled (governed_call prices t reg model during chat r s).2 ↔ (
      ((r.gov.halted ≡ halt_none) × InTime r.gov t.begin_at × BelowLoops r.gov)
      × WithinBudget (Governor.pre_step r.gov t.begin_at).0 t.check_at
      × (is_some (get_provider (route_model model) reg) ≡ true))
  unfolding governed_call
  governed_call-IsCalled_iff =
      let (r', s', step, e) = begin_step r t.begin_at t.begin_stamp s in
      let o = get_provider (route_model model) reg in
      let begun = begin_step-gov r t.begin_at t.begin_stamp s in
      let checked = can_proceed-gov r' t.check_at t.check_stamp s' in
      let whole = after_begin-IsCalled e o step r' s' in
      let start = pre_step_iff r.gov t.begin_at in
      let check = can_proceed_iff (Governor.pre_step r.gov t.begin_at).0 t.check_at in
      let same : (can_proceed r' t.check_at t.check_stamp s').2
          ≡ (Governor.can_proceed (Governor.pre_step r.gov t.begin_at).0 t.check_at).1 =
        checked.1 ∙ ap (λ g. (Governor.can_proceed g t.check_at).1) begun.0 in
      (
        λ h. let (a, b, c) = whole.0 h in (start.0 (sym begun.1 ∙ a), check.0 (sym same ∙ b), c),
        λ h. whole.1 (begun.1 ∙ start.1 h.0, same ∙ check.1 h.1, h.2),
      )

  -- What a refusal says: an unknown provider, or a halt with status 402.
  abbrev pub RefusedWell : Outcome D → Type 0
  RefusedWell (refused e) = (e ≡ unknown_provider) ⊎ (e.status ≡ 402)
  RefusedWell _ = Unit

  well_chat :
      (c : Option Response) (prov : Provider) (step : ℤ) (r' : Run D) (s' : Option S)
      → RefusedWell (after_chat prices t c prov step r' s').2
  well_chat none prov step r' s' = tt
  well_chat (some resp) prov step r' s' = tt

  well_route :
      (o : Option Provider) (step : ℤ) (r' : Run D) (s' : Option S)
      → RefusedWell (after_route prices t o during chat step r' s').2
  well_route none step r' s' = inl refl
  well_route (some prov) step r' s' =
      let (r₁, s₁) = run_all during r' s' in well_chat chat prov step r₁ s₁

  well_guard :
      (e : Option (HaltError D)) (o : Option Provider) (step : ℤ) (r' : Run D) (s' : Option S)
      → ((x : HaltError D) → e ≡ some x → x.reason ≢ halt_none)
      → RefusedWell (after_guard prices t e o during chat step r' s').2
  well_guard (some e) o step r' s' h = inr (halt_402 e.reason (h e refl))
  well_guard none o step r' s' h = well_route o step r' s'

  -- A guard's refusal is always a halt: every refusal before the provider is called is the 400 of an
  -- unknown provider or a 402, never the 500 that the error conversion holds ready.
  pub refusal_is_402_or_400 : RefusedWell (governed_call prices t reg model during chat r s).2
  unfolding governed_call
  refusal_is_402_or_400 =
      let (r', s', step, e) = begin_step r t.begin_at t.begin_stamp s in
      begun e (get_provider (route_model model) reg) step r' s' (λ x p.
        pre_step_reason r.gov t.begin_at (sym (begin_step-gov r t.begin_at t.begin_stamp s).1 ∙ p))
    where
      begun :
          (e : Option (HaltError D)) (o : Option Provider) (step : ℤ) (r' : Run D) (s' : Option S)
          → ((x : HaltError D) → e ≡ some x → x.reason ≢ halt_none)
          → RefusedWell (after_begin prices t e o during chat step r' s').2
      begun (some e) o step r' s' h = inr (halt_402 e.reason (h e refl))
      begun none o step r' s' h =
          let (r₁, s₁, e₁) = can_proceed r' t.check_at t.check_stamp s' in
          well_guard e₁ o step r₁ s₁ (λ x p.
            can_proceed_reason r'.gov t.check_at
              (sym (can_proceed-gov r' t.check_at t.check_stamp s').1 ∙ p))

-- A paid answer is kept and metered.
module _ {D S : Type 0} ⦃F : Float64 D⦄ ⦃U : Unicode⦄ ⦃B : Store D S⦄ (prices : Option (Rates D))
    (t : Moments) where
  -- After the provider has answered: the answer is returned, also if the call used up a budget, the
  -- run's usage grows by exactly the prompt and completion tokens that the answer reports and by what
  -- the table charges for those of its model; that cost, whether the model is priced and the step are
  -- reported beside the answer, with the halt of the run.
  pub answer_is_metered :
      (resp : Response) (prov : Provider) (step : ℤ) (r : Run D) (s : Option S)
      → let (cost, priced) =
          Pricing.cost prices resp.model resp.prompt_tokens resp.completion_tokens in
        let (r', s', o) = after_chat prices t (some resp) prov step r s in
        (r'.gov.usage ≡ metered resp.prompt_tokens resp.completion_tokens cost r.gov.usage)
        × (o
            ≡ answered resp
                (record { step = step; cost = cost; priced = priced; halt = r'.gov.halted }))
  unfolding record_call
  answer_is_metered resp prov step r s =
      let c = call_of prices prov step resp in
      (
        (record_usage_iff resp.prompt_tokens resp.completion_tokens c.dollars r.gov t.record_at).0,
        ap
            (λ h.
              answered resp (record { step = step; cost = c.dollars; priced = c.priced; halt = h }))
            (record_reason resp.prompt_tokens resp.completion_tokens c.dollars r.gov t.record_at),
      )
