-- ===== src/Provider/Metered.antt =====
-- internal/gateway/gateway.go over internal/provider/openai.go: what `streamCall` adds to the usage of
-- a run for a stream of the OpenAI adapter.
use riskkernel.Base.{
  ℕ, suc, ℤ, pos, negsuc, ◌+ℤ◌, wrap64, wrap64_self, IsInt64, ◌≡◌, refl, ap, ◌∙◌, String, split,
  Runes, Unicode, Bool, true, false, Option, some, List, arith, Float64,
}
use riskkernel.Governor.Ceiling.{metered}
use riskkernel.Pricing.{Rates}
use riskkernel.Storage.{Store}
use riskkernel.Runs.{Run}
use riskkernel.Gateway.{Provider, Moments}
use riskkernel.Gateway.Streams.{ChatStream, forwarded_chunks, stream_call_of, streamed, after_open}
use riskkernel.Gateway.Streamed.{stream_is_metered}
use riskkernel.Provider.Sse.{opened}
use riskkernel.Provider.OpenAi.{OpenAiJson, openai_sniff}
use riskkernel.Provider.Pumped.{concat, take_lines}
use riskkernel.Provider.Streams.{read_stream}
use riskkernel.Provider.Usage.{last_usage, NoUsage, openai_stream_usage, cut_stream_reports_nothing}

+ℤ-zero : (z : ℤ) → z +ℤ pos 0 ≡ z
unfolding ◌+ℤ◌
+ℤ-zero (pos n) = ground arith
+ℤ-zero (negsuc n) = ground arith

unchanged : (z : ℤ) → IsInt64 z → wrap64 (z +ℤ pos 0) ≡ z
unchanged z h = ap wrap64 (+ℤ-zero z) ∙ wrap64_self z h

module _ {D S : Type 0} ⦃F : Float64 D⦄ ⦃U : Unicode⦄ ⦃B : Store D S⦄ ⦃J : OpenAiJson⦄ where
  opened_stream :
      (prices : Option (Rates D)) (t : Moments) (o : Option ChatStream) (st : ChatStream)
      (prov : Provider) (step : ℤ) (asked : String) (r : Run D) (s : Option S)
      → o ≡ some st
      → (after_open prices t o prov step asked r s).0.gov.usage
        ≡ metered st.prompt_tokens st.completion_tokens
            (stream_call_of prices prov step asked st).dollars
            r.gov.usage
  opened_stream prices t o st prov step asked r s e =
      rw e (stream_is_metered prices t st st prov step asked r s refl).0

  -- A stream of the OpenAI adapter of which the client takes every chunk sends the client the body of
  -- the provider's response as it came, and adds to the run's tokens the usage of the last line that
  -- carries one, or nothing where none does.
  pub openai_stream_is_metered :
      (prices : Option (Rates D)) (t : Moments) (writes : ℕ → Bool) (body : Runes) (prov : Provider)
      (step : ℤ) (asked : String) (r : Run D) (s : Option S)
      → ((j : ℕ) → writes j ≡ true)
      → let u = last_usage (pos 0, pos 0) (split 10 body) in
        let (r', s', o) =
          after_open prices t (read_stream openai_sniff writes (opened body)) prov step asked r s in
        (r'.gov.usage.prompt_tokens ≡ wrap64 (r.gov.usage.prompt_tokens +ℤ u.0))
        × (r'.gov.usage.completion_tokens ≡ wrap64 (r.gov.usage.completion_tokens +ℤ u.1))
        × ((chunks : List Runes) × (o ≡ streamed step chunks) × (concat chunks ≡ body))
  openai_stream_is_metered prices t writes body prov step asked r s takes =
      let (st, e, whole, usage) = openai_stream_usage writes body takes in
      let grown = opened_stream prices t _ st prov step asked r s e in
      (
        ap (λ v. v.prompt_tokens) grown
            ∙ ap (λ (x : ℤ × ℤ). wrap64 (r.gov.usage.prompt_tokens +ℤ x.0)) usage,
        ap (λ v. v.completion_tokens) grown
            ∙ ap (λ (x : ℤ × ℤ). wrap64 (r.gov.usage.completion_tokens +ℤ x.1)) usage,
        (
          forwarded_chunks st.turns,
          ap (λ c. (after_open prices t c prov step asked r s).2) e,
          whole,
        ),
      )

  -- A stream of the OpenAI adapter of which the client refuses a chunk adds nothing to the run's
  -- tokens where no line up to that chunk carries a usage, whatever usage the provider sends in the
  -- lines after it.
  pub cut_stream_is_free :
      (prices : Option (Rates D)) (t : Moments) (writes : ℕ → Bool) (j : ℕ) (body : Runes)
      (prov : Provider) (step : ℤ) (asked : String) (r : Run D) (s : Option S)
      → writes j ≡ false
      → NoUsage (take_lines (suc j) (split 10 body))
      → IsInt64 r.gov.usage.prompt_tokens
      → IsInt64 r.gov.usage.completion_tokens
      → let (r', s', o) =
          after_open prices t (read_stream openai_sniff writes (opened body)) prov step asked r s in
        (r'.gov.usage.prompt_tokens ≡ r.gov.usage.prompt_tokens)
        × (r'.gov.usage.completion_tokens ≡ r.gov.usage.completion_tokens)
  cut_stream_is_free prices t writes j body prov step asked r s refused none_yet p c =
      let (st, e, nothing) = cut_stream_reports_nothing writes j body refused none_yet in
      let grown = opened_stream prices t _ st prov step asked r s e in
      (
        ap (λ v. v.prompt_tokens) grown
            ∙ ap (λ (x : ℤ × ℤ). wrap64 (r.gov.usage.prompt_tokens +ℤ x.0)) nothing
            ∙ unchanged r.gov.usage.prompt_tokens p,
        ap (λ v. v.completion_tokens) grown
            ∙ ap (λ (x : ℤ × ℤ). wrap64 (r.gov.usage.completion_tokens +ℤ x.1)) nothing
            ∙ unchanged r.gov.usage.completion_tokens c,
      )
