-- ===== src/Otel/Metered.antt =====
-- internal/otel/ingress.go: what a metered span does to its run.
use riskkernel.Base.{
  ℕ, ◌≡◌, ◌∙◌, ap, ◌<◌, ◌+ℤ◌, ◌<ℤ◌, ℤ, pos, negsuc, wrap64, wrap64_self, IsInt64, String, str_eq,
  if◌then◌else◌, Unicode, Option, some, arith, Float64, Time,
}
use riskkernel.Governor.{Usage}
use riskkernel.Governor.Ceiling.{metered, record_usage_iff}
use riskkernel.Pricing
use riskkernel.Pricing.{Rates}
use riskkernel.Storage.{Store}
use riskkernel.Runs.{Run, record_call}
use riskkernel.Runs.Manager.{Manager, find_run, get_or_create}
use riskkernel.Runs.Registry.{find_run-put_run}
use riskkernel.Otel.{
  int_value, Attrs, FloatToInt, attr, int_attr, string_attr, consumed_call, meter,
}

lowered :
    (k p : ℕ)
    → k < 9223372036854775808
    → p < 9223372036854775808
    → wrap64 (pos p +ℤ negsuc k) <ℤ pos p
unfolding ◌+ℤ◌
lowered k p h q =
    let fits : IsInt64 (pos p +ℤ negsuc k) = ground arith in
    rw (wrap64_self (pos p +ℤ negsuc k) fits) (ground arith)

module _ {D : Type 0} ⦃T : FloatToInt D⦄ where
  int_attr_value :
      (attrs : Attrs D) (key : String) (n : ℤ)
      → attr key attrs ≡ some (int_value n)
      → int_attr attrs key ≡ n
  unfolding int_attr
  int_attr_value attrs key n e = rw e

module _ {D : Type 0} ⦃F : Float64 D⦄ ⦃U : Unicode⦄ ⦃T : FloatToInt D⦄
    (prices : Option (Rates D)) where
  -- What the table charges for a span.
  abbrev pub span_cost : Attrs D → D
  span_cost attrs =
      let response = string_attr attrs "gen_ai.response.model" in
      (Pricing.cost prices
        (if str_eq response "" then string_attr attrs "gen_ai.request.model" else response)
        (int_attr attrs "gen_ai.usage.input_tokens")
        (int_attr attrs "gen_ai.usage.output_tokens")).0

module _ {D S : Type 0} ⦃F : Float64 D⦄ ⦃U : Unicode⦄ ⦃T : FloatToInt D⦄ ⦃B : Store D S⦄
    (prices : Option (Rates D)) where
  recorded_usage :
      (r : Run D) (attrs : Attrs D) (now : Time) (s : Option S)
      → (record_call r (consumed_call prices attrs) now now s).0.gov.usage
        ≡ metered
            (int_attr attrs "gen_ai.usage.input_tokens")
            (int_attr attrs "gen_ai.usage.output_tokens")
            (span_cost prices attrs)
            r.gov.usage
  unfolding record_call consumed_call
  recorded_usage r attrs now s =
      let c = consumed_call prices attrs in
      (record_usage_iff c.prompt_tokens c.completion_tokens c.dollars r.gov now).0

  -- After a span has been metered, the manager holds a run under the span's run id, live or not
  -- before, whose usage is that of the run that `GetOrCreate` answers for the id and the span's
  -- input and output tokens and what the price table charges for them, at the model of the response
  -- or, where the span names none, of the request; whether the call crossed a budget makes no
  -- difference.
  pub meter_adds_usage :
      (rid : String) (attrs : Attrs D) (now : Time) (m : Manager D S)
      → let (m', r) = get_or_create rid now m in
        (r' : Run D) × (find_run rid (meter prices rid attrs now m).runs ≡ some r')
        × (r'.gov.usage
            ≡ metered
                (int_attr attrs "gen_ai.usage.input_tokens")
                (int_attr attrs "gen_ai.usage.output_tokens")
                (span_cost prices attrs)
                r.gov.usage)
  unfolding meter
  meter_adds_usage rid attrs now m =
      let (m', r) = get_or_create rid now m in
      let r' = (record_call r (consumed_call prices attrs) now now m'.store).0 in
      (r', find_run-put_run rid r' m'.runs, recorded_usage r attrs now m'.store)

  -- A span whose input token count is a negative integer is metered, and gives tokens back: the run
  -- that the manager then holds has fewer prompt tokens than it had.
  pub negative_span_refunds :
      (rid : String) (attrs : Attrs D) (now : Time) (m m' : Manager D S) (r : Run D) (k p : ℕ)
      → attr "gen_ai.usage.input_tokens" attrs ≡ some (int_value (negsuc k))
      → get_or_create rid now m ≡ (m', r)
      → r.gov.usage.prompt_tokens ≡ pos p
      → k < 9223372036854775808
      → p < 9223372036854775808
      → (r' : Run D) × (find_run rid (meter prices rid attrs now m).runs ≡ some r')
        × (r'.gov.usage.prompt_tokens <ℤ r.gov.usage.prompt_tokens)
  negative_span_refunds rid attrs now m m' r k p span same prompt small large =
      let (r', found, usage) = meter_adds_usage rid attrs now m in
      let same_prompt : (get_or_create rid now m).1.gov.usage.prompt_tokens ≡ pos p =
        ap (λ (x : Manager D S × Run D). x.1.gov.usage.prompt_tokens) same ∙ prompt in
      let tokens : r'.gov.usage.prompt_tokens ≡ wrap64 (pos p +ℤ negsuc k) =
        ap (λ (u : Usage D). u.prompt_tokens) usage
        ∙ rw (same_prompt, int_attr_value attrs "gen_ai.usage.input_tokens" (negsuc k) span) in
      (r', found, rw (tokens, prompt) (lowered k p small large))
