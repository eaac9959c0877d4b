-- ===== src/Provider/Usage.antt =====
-- internal/provider/{openai,anthropic}.go and internal/gateway/gateway.go: what a streamed call is
-- metered at.
use riskkernel.Base.{
  ℕ, zero, suc, ◌≤◌, ℤ, pos, ◌≡◌, refl, ap, ◌∙◌, inl, inr, String, str_eq, codes, codes_eq, split,
  Runes, length, Bool, Bool-cases, true, false, Option, none, some, List, [], ◌∷◌, ◌++◌, arith,
  if◌then◌else◌,
}
use riskkernel.Gateway.Streams.{ChatStream, forwarded_chunks}
use riskkernel.Provider.Sse.{Reported, nothing_reported, payload_of, opened}
use riskkernel.Provider.Lines.{payload_of-newline, payload_of-nil}
use riskkernel.Provider.OpenAi.{OpenAiJson, Chunk, openai_sniff, sniff_data, sniff_chunk, used}
use riskkernel.Provider.Pumped.{concat, report, take_lines, pump_cut, pump_reports_all}
use riskkernel.Provider.Streams.{stream_of, read_stream}

module _ ⦃J : OpenAiJson⦄ where
  -- The usage that a line carries, prompt and completion.
  abbrev pub chunk_usage : Option Chunk → Option (ℤ × ℤ)
  chunk_usage none = none
  chunk_usage (some c) = c.usage

  abbrev pub payload_usage : Option Runes → Option (ℤ × ℤ)
  payload_usage none = none
  payload_usage (some p) = if codes_eq p (codes "[DONE]") then none else chunk_usage (J.chunk_of p)

  unfoldable pub line_usage : Runes → Option (ℤ × ℤ)
  line_usage line = payload_usage (payload_of line)

  abbrev or_else : ℤ × ℤ → Option (ℤ × ℤ) → ℤ × ℤ
  or_else default none = default
  or_else default (some u) = u

  -- The usage of the last of the lines that carries one, or else `default`.
  unfoldable pub last_usage : ℤ × ℤ → List Runes → ℤ × ℤ
  last_usage default [] = default
  last_usage default (l ∷ ls) = last_usage (or_else default (line_usage l)) ls

  abbrev pub tokens_of : Reported → ℤ × ℤ
  tokens_of st = (st.prompt_tokens, st.completion_tokens)

  used-tokens :
      (st : Reported) (model : String) (o : Option (ℤ × ℤ))
      → tokens_of (used o (if str_eq model "" then st else record st { model = model }))
        ≡ or_else (tokens_of st) o
  used-tokens st model none = elim (Bool-cases (str_eq model "")) [ inl q ↦ rw q | inr q ↦ rw q ]
  used-tokens st model (some u) = refl

  chunk-tokens :
      (st : Reported) (o : Option Chunk)
      → tokens_of (sniff_chunk o st) ≡ or_else (tokens_of st) (chunk_usage o)
  chunk-tokens st none = refl
  chunk-tokens st (some c) = used-tokens st c.model c.usage

  data-tokens :
      (st : Reported) (o : Option Runes)
      → tokens_of (sniff_data o st) ≡ or_else (tokens_of st) (payload_usage o)
  data-tokens st none = refl
  data-tokens st (some p) = elim (Bool-cases (codes_eq p (codes "[DONE]"))) [
    | inl q ↦ rw q
    | inr q ↦ rw q (chunk-tokens st (J.chunk_of p))
  ]

  sniff-tokens :
      (st : Reported) (l : Runes)
      → tokens_of (openai_sniff st l) ≡ or_else (tokens_of st) (line_usage l)
  unfolding openai_sniff line_usage
  sniff-tokens st l = data-tokens st (payload_of l)

  report-last_usage :
      (st : Reported) (ls : List Runes)
      → tokens_of (report openai_sniff st ls) ≡ last_usage (tokens_of st) ls
  unfolding report last_usage
  report-last_usage st [] = refl
  report-last_usage st (l ∷ ls) =
      report-last_usage (openai_sniff st l) ls ∙ ap (λ u. last_usage u ls) (sniff-tokens st l)

  -- None of the lines carries a usage.
  abbrev pub NoUsage : List Runes → Type 0
  NoUsage [] = Unit
  NoUsage (l ∷ ls) = (line_usage l ≡ none) × NoUsage ls

  last_usage-NoUsage :
      (d : ℤ × ℤ) (k j : ℕ) (ls : List Runes)
      → k ≤ j
      → NoUsage (take_lines j ls)
      → last_usage d (take_lines k ls) ≡ d
  unfolding last_usage
  last_usage-NoUsage d zero j ls h n = refl
  last_usage-NoUsage d (suc k) zero ls h n = elim h [ ]
  last_usage-NoUsage d (suc k) (suc j) [] h n = refl
  last_usage-NoUsage d (suc k) (suc j) (l ∷ ls) h n =
      rw (last_usage, n.0) (last_usage-NoUsage d k j ls (omega arith) n.1)

  newline : (st : Reported) (s : Runes) → openai_sniff st (s ++ (10 ∷ [])) ≡ openai_sniff st s
  unfolding openai_sniff
  newline st s = rw (payload_of-newline s)

  blank : (st : Reported) → openai_sniff st [] ≡ st
  unfolding openai_sniff
  blank st = rw payload_of-nil

  abbrev pub stream_tokens : ChatStream → ℤ × ℤ
  stream_tokens st = (st.prompt_tokens, st.completion_tokens)

  -- A stream of which the client takes every chunk ends; the client is sent the body as it came, and
  -- the stream is metered at the usage of the last line that carries one, or at nothing.
  pub openai_stream_usage :
      (writes : ℕ → Bool) (body : Runes)
      → ((j : ℕ) → writes j ≡ true)
      → (st : ChatStream) × (read_stream openai_sniff writes (opened body) ≡ some st)
        × (concat (forwarded_chunks st.turns) ≡ body)
        × (stream_tokens st ≡ last_usage (pos 0, pos 0) (split 10 body))
  unfolding read_stream
  openai_stream_usage writes body takes =
      let (ts, eq, whole) =
        pump_reports_all openai_sniff writes newline blank takes (suc (length body)) 0 body
          nothing_reported (omega arith) in
      let st = report openai_sniff nothing_reported (split 10 body) in
      (stream_of ts st, rw eq, whole, report-last_usage nothing_reported (split 10 body))

  -- A stream of which the client refuses the chunk `j`, where no line up to that one carries a usage,
  -- ends with no tokens reported, whatever usage the provider sends after that.
  pub cut_stream_reports_nothing :
      (writes : ℕ → Bool) (j : ℕ) (body : Runes)
      → writes j ≡ false
      → NoUsage (take_lines (suc j) (split 10 body))
      → (st : ChatStream) × (read_stream openai_sniff writes (opened body) ≡ some st)
        × (stream_tokens st ≡ (pos 0, pos 0))
  unfolding read_stream
  cut_stream_reports_nothing writes j body refused none_yet =
      let (k, le, (ts, eq)) =
        pump_cut openai_sniff writes newline blank (suc (length body)) 0 j body nothing_reported
          (omega arith) (ap writes (omega arith) ∙ refused) in
      let ls = take_lines k (split 10 body) in
      (
        stream_of ts (report openai_sniff nothing_reported ls),
        rw eq,
        report-last_usage nothing_reported ls
            ∙ last_usage-NoUsage (pos 0, pos 0) k (suc j) (split 10 body) le none_yet,
      )
