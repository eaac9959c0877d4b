-- ===== src/Gateway/Streamed.antt =====
-- internal/gateway/gateway.go: when `streamCall` opens a stream, what the client is sent of it, and
-- how it is metered.
use riskkernel.Base.{
  ℤ, ◌≡◌, refl, sym, ◌∙◌, ap, ◌↔◌, String, Runes, is_nil, Unicode, Bool, true, false, ◌&&◌, Option,
  none, some, List, [], ◌∷◌, arith, Float64, if◌then◌else◌,
}
use riskkernel.Governor
use riskkernel.Governor.{halt_none, HaltError}
use riskkernel.Governor.Ceiling.{
  InTime, BelowLoops, WithinBudget, can_proceed_iff, pre_step_iff, metered, record_usage_iff,
}
use riskkernel.Pricing.{Rates}
use riskkernel.Storage.{Store}
use riskkernel.Runs.{Run, begin_step, can_proceed, record_call}
use riskkernel.Runs.Writes.{RunEvent, run_all}
use riskkernel.Gateway.{Registry, Provider, Moments, get_provider, route_model}
use riskkernel.Gateway.Calls.{begin_step-gov, can_proceed-gov}
use riskkernel.Gateway.Streams.{
  Turn, ChatStream, forwarded_chunks, StreamOutcome, stream_refused, stream_call_of, after_open,
  after_stream_route, after_stream_guard, after_stream_begin, stream_call,
}

-- Every chunk of the provider that is not empty.
pub all_chunks : List Turn → List Runes
all_chunks [] = []
all_chunks (x ∷ xs) = let rest = all_chunks xs in if is_nil x.chunk then rest else x.chunk ∷ rest

-- The list begins with the chunks.
abbrev pub IsPrefix : List Runes → List Runes → Type 0
IsPrefix [] ys = Unit
IsPrefix (x ∷ xs) [] = ⊥
IsPrefix (x ∷ xs) (y ∷ ys) = (x ≡ y) × IsPrefix xs ys

-- The client is sent the provider's chunks verbatim and in order, with none left out before the last
-- one that it is sent, however the stream ends.
pub forwarded_chunks-IsPrefix : (xs : List Turn) → IsPrefix (forwarded_chunks xs) (all_chunks xs)
unfolding forwarded_chunks all_chunks
forwarded_chunks-IsPrefix [] = tt
forwarded_chunks-IsPrefix (x ∷ xs) = ground (arith, forwarded_chunks-IsPrefix xs)

-- The stream was opened, or its opening was tried.
abbrev pub IsOpened : StreamOutcome → Type 0
IsOpened (stream_refused e) = ⊥
IsOpened _ = Unit

abbrev pub can_stream : Option Provider → Bool → Bool
can_stream none flusher = false
can_stream (some prov) flusher = prov.streams && flusher

module _ {D S : Type 0} ⦃F : Float64 D⦄ ⦃U : Unicode⦄ ⦃B : Store D S⦄ (prices : Option (Rates D))
    (t : Moments) (reg : Registry) (asked : String) (flusher : Bool) (during : List (RunEvent D))
    (chat : Option ChatStream) (r : Run D) (s : Option S) where
  after_open-IsOpened :
      (c : Option ChatStream) (prov : Provider) (step : ℤ) (r' : Run D) (s' : Option S)
      → IsOpened (after_open prices t c prov step asked r' s').2
  after_open-IsOpened none prov step r' s' = tt
  after_open-IsOpened (some st) prov step r' s' = tt

  after_stream_route-IsOpened :
      (o : Option Provider) (step : ℤ) (r' : Run D) (s' : Option S)
      → IsOpened (after_stream_route prices t o flusher during chat step asked r' s').2
        ↔ (can_stream o flusher ≡ true)
  after_stream_route-IsOpened none step r' s' = (λ h. absurd h, λ h. cc)
  after_stream_route-IsOpened (some prov) step r' s' =
      let (r₁, s₁) = run_all during r' s' in
      let opens = after_open-IsOpened chat prov step r₁ s₁ in
      (λ h. ground arith, λ h. ground (arith, opens))

  after_stream_guard-IsOpened :
      (e : Option (HaltError D)) (o : Option Provider) (step : ℤ) (r' : Run D) (s' : Option S)
      → IsOpened (after_stream_guard prices t e o flusher during chat step asked r' s').2
        ↔ ((e ≡ none) × (can_stream o flusher ≡ true))
  after_stream_guard-IsOpened (some e) o step r' s' = (λ h. absurd h, λ h. cc (h.0))
  after_stream_guard-IsOpened none o step r' s' =
      let iff = after_stream_route-IsOpened o step r' s' in (λ h. (refl, iff.0 h), λ h. iff.1 h.1)

  after_stream_begin-IsOpened :
      (e : Option (HaltError D)) (o : Option Provider) (step : ℤ) (r' : Run D) (s' : Option S)
      → IsOpened (after_stream_begin prices t e o flusher during chat step asked r' s').2 ↔ (
          (e ≡ none)
          × ((can_proceed r' t.check_at t.check_stamp s').2 ≡ none)
          × (can_stream o flusher ≡ true))
  after_stream_begin-IsOpened (some e) o step r' s' = (λ h. absurd h, λ h. cc (h.0))
  after_stream_begin-IsOpened none o step r' s' =
      let (r₁, s₁, e₁) = can_proceed r' t.check_at t.check_stamp s' in
      let iff = after_stream_guard-IsOpened e₁ o step r₁ s₁ in
      (λ h. let (a, b) = iff.0 h in (refl, a, b), λ h. iff.1 (h.1, h.2))

  -- A stream is opened exactly when the run is live, in time and has an iteration left, is then
  -- inside its token, dollar and time budgets, the routed provider is configured and can stream, and
  -- the client can be flushed to.
  pub stream_call-IsOpened_iff :
      IsOpened (stream_call prices t reg asked flusher during chat r s).2 ↔ (
        ((r.gov.halted ≡ halt_none) × InTime r.gov t.begin_at × BelowLoops r.gov)
        × WithinBudget (Governor.pre_step r.gov t.begin_at).0 t.check_at
        × (can_stream (get_provider (route_model asked) reg) flusher ≡ true))
  unfolding stream_call
  stream_call-IsOpened_iff =
      let (r', s', step, e) = begin_step r t.begin_at t.begin_stamp s in
      let o = get_provider (route_model asked) reg in
      let begun = begin_step-gov r t.begin_at t.begin_stamp s in
      let checked = can_proceed-gov r' t.check_at t.check_stamp s' in
      let whole = after_stream_begin-IsOpened e o step r' s' in
      let start = pre_step_iff r.gov t.begin_at in
      let check = can_proceed_iff (Governor.pre_step r.gov t.begin_at).0 t.check_at in
      let same : (can_proceed r' t.check_at t.check_stamp s').2
          ≡ (Governor.can_proceed (Governor.pre_step r.gov t.begin_at).0 t.check_at).1 =
        checked.1 ∙ ap (λ g. (Governor.can_proceed g t.check_at).1) begun.0 in
      (
        λ h. let (a, b, c) = whole.0 h in (start.0 (sym begun.1 ∙ a), check.0 (sym same ∙ b), c),
        λ h. whole.1 (begun.1 ∙ start.1 h.0, same ∙ check.1 h.1, h.2),
      )

module _ {D S : Type 0} ⦃F : Float64 D⦄ ⦃U : Unicode⦄ ⦃B : Store D S⦄ (prices : Option (Rates D))
    (t : Moments) where
  -- A stream that was opened is metered by what it reports, also if the client or the provider cut
  -- it short: two streams with the same report leave the same run and the same store, whatever
  -- chunks they sent, and the run's usage has grown by the report at the table's price.
  pub stream_is_metered :
      (st st' : ChatStream) (prov : Provider) (step : ℤ) (asked : String) (r : Run D) (s : Option S)
      → record st { turns = [] } ≡ record st' { turns = [] }
      → let c = stream_call_of prices prov step asked st in
        let (r', s', o) = after_open prices t (some st) prov step asked r s in
        let (r'', s'', o') = after_open prices t (some st') prov step asked r s in
        (r'.gov.usage ≡ metered st.prompt_tokens st.completion_tokens c.dollars r.gov.usage)
        × (r' ≡ r'')
        × (s' ≡ s'')
  unfolding record_call
  stream_is_metered st st' prov step asked r s e =
      let c = stream_call_of prices prov step asked st in
      (
        (record_usage_iff st.prompt_tokens st.completion_tokens c.dollars r.gov t.record_at).0,
        ap
            (λ q.
              (record_call r (stream_call_of prices prov step asked q) t.record_at t.record_stamp
                s).0)
            e,
        ap
            (λ q.
              (record_call r (stream_call_of prices prov step asked q) t.record_at t.record_stamp
                s).1)
            e,
      )
