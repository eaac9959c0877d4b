-- ===== src/Gateway/Streams.antt =====
-- internal/gateway/gateway.go: `streamCall`, the governed cycle around a streaming provider call. A
-- stream is what its Recv calls answer up to the one that ends it, and what it reports at the end.
use riskkernel.Base.{
  ℤ, String, str_eq, Runes, is_nil, Unicode, Bool, not, Option, none, some, List, [], ◌∷◌, Float64,
  if◌then◌else◌,
}
use riskkernel.Governor
use riskkernel.Governor.{halt_none, HaltError}
use riskkernel.Pricing
use riskkernel.Pricing.{Rates}
use riskkernel.Storage.{Store}
use riskkernel.Runs.{Run, Call, begin_step, can_proceed, record_call}
use riskkernel.Runs.Writes.{RunEvent, run_all}
use riskkernel.Gateway.{
  Registry, Provider, GwError, Moments, get_provider, route_model, unknown_provider, provider_error,
  budget_error, halt_gw_error,
}

-- One turn of the loop: the chunk, whether Recv gave an error with it, and whether the client
-- could be written to.
pub record Turn : Type 0 where
  pub chunk : Runes
  pub ended : Bool
  pub written : Bool

pub record ChatStream : Type 0 where
  pub turns : List Turn
  pub model : String
  pub prompt_tokens : ℤ
  pub completion_tokens : ℤ

-- What the loop writes to the client.
unfoldable pub forwarded_chunks : List Turn → List Runes
forwarded_chunks [] = []
forwarded_chunks (x ∷ xs) =
    let rest = forwarded_chunks xs in
    let next = if x.ended then [] else rest in
    if is_nil x.chunk then next else if x.written then x.chunk ∷ next else []

abbrev pub streaming_unsupported : GwError
streaming_unsupported = record { status = 501; code = "streaming_unsupported" }

abbrev pub no_flusher : GwError
no_flusher = record { status = 500; code = "internal_error" }

-- How a streaming call ends.
pub data StreamOutcome : Type 0 where
  stream_refused : GwError → StreamOutcome
  stream_failed : GwError → StreamOutcome
  streamed : ℤ → List Runes → StreamOutcome

module _ {D : Type 0} ⦃F : Float64 D⦄ ⦃U : Unicode⦄ where
  -- The call that is recorded of a stream: its own model, or else the one that was asked for.
  abbrev pub stream_call_of : Option (Rates D) → Provider → ℤ → String → ChatStream → Call D
  stream_call_of prices prov step asked st =
      let model = if str_eq st.model "" then asked else st.model in
      let (dollars, priced) = Pricing.cost prices model st.prompt_tokens st.completion_tokens in
      record {
        step_index = step;
        provider = prov.name;
        model = model;
        prompt_tokens = st.prompt_tokens;
        completion_tokens = st.completion_tokens;
        dollars = dollars;
        priced = priced;
        response_id = "";
      }

module _ {D S : Type 0} ⦃F : Float64 D⦄ ⦃U : Unicode⦄ ⦃B : Store D S⦄ (prices : Option (Rates D))
    (t : Moments) where
  -- After ChatStream has answered, or failed (`none`).
  abbrev pub after_open :
      Option ChatStream
      → Provider
      → ℤ
      → String
      → Run D
      → Option S
      → Run D × Option S × StreamOutcome
  after_open none prov step asked r s = (
    r,
    s,
    stream_failed (if Governor.is_halted r.gov then halt_gw_error r.gov.halted else provider_error),
  )
  after_open (some st) prov step asked r s =
      let (r', s', e) =
        record_call r (stream_call_of prices prov step asked st) t.record_at t.record_stamp s in
      (r', s', streamed step (forwarded_chunks st.turns))

  -- The stream is opened at the routed provider if it can stream and the client can be flushed to;
  -- meanwhile other callers of the run go on.
  abbrev pub after_stream_route :
      Option Provider
      → Bool
      → List (RunEvent D)
      → Option ChatStream
      → ℤ
      → String
      → Run D
      → Option S
      → Run D × Option S × StreamOutcome
  after_stream_route none flusher during chat step asked r s =
      (r, s, stream_refused unknown_provider)
  after_stream_route (some prov) flusher during chat step asked r s =
      let (r', s') = run_all during r s in
      if not prov.streams
      then (r, s, stream_refused streaming_unsupported)
      else if not flusher
      then (r, s, stream_refused no_flusher)
      else after_open chat prov step asked r' s'

  abbrev pub after_stream_guard :
      Option (HaltError D)
      → Option Provider
      → Bool
      → List (RunEvent D)
      → Option ChatStream
      → ℤ
      → String
      → Run D
      → Option S
      → Run D × Option S × StreamOutcome
  after_stream_guard (some e) prov flusher during chat step asked r s =
      (r, s, stream_refused (budget_error e))
  after_stream_guard none prov flusher during chat step asked r s =
      after_stream_route prov flusher during chat step asked r s

  abbrev pub after_stream_begin :
      Option (HaltError D)
      → Option Provider
      → Bool
      → List (RunEvent D)
      → Option ChatStream
      → ℤ
      → String
      → Run D
      → Option S
      → Run D × Option S × StreamOutcome
  after_stream_begin (some e) prov flusher during chat step asked r s =
      (r, s, stream_refused (budget_error e))
  after_stream_begin none prov flusher during chat step asked r s =
      let (r', s', e) = can_proceed r t.check_at t.check_stamp s in
      after_stream_guard e prov flusher during chat step asked r' s'

  -- `streamCall`.
  unfoldable pub stream_call :
      Registry
      → String
      → Bool
      → List (RunEvent D)
      → Option ChatStream
      → Run D
      → Option S
      → Run D × Option S × StreamOutcome
  stream_call reg asked flusher during chat r s =
      let (r', s', step, e) = begin_step r t.begin_at t.begin_stamp s in
      after_stream_begin e (get_provider (route_model asked) reg) flusher during chat step asked r'
        s'
