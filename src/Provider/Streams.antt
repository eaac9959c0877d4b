-- ===== src/Provider/Streams.antt =====
-- internal/provider/{openai,anthropic}.go under `streamCall`: a stream that was opened, as the
-- gateway sees it.
use riskkernel.Base.{ℕ, suc, length, Bool, Option, none, some, List, Runes}
use riskkernel.Gateway.Streams.{Turn, ChatStream}
use riskkernel.Provider.Sse.{Reported, nothing_reported, pump, Opened, open_failed, opened}

abbrev pub stream_of : List Turn → Reported → ChatStream
stream_of ts st = record {
  turns = ts;
  model = st.model;
  prompt_tokens = st.prompt_tokens;
  completion_tokens = st.completion_tokens;
}

abbrev pub pumped : Option (List Turn × Reported) → Option ChatStream
pumped none = none
pumped (some (ts, st)) = some (stream_of ts st)

-- The turns that the gateway's loop makes of a body, and what the stream reports at its end. Each
-- turn but the last reads a newline, so one turn more than the body is long is enough.
unfoldable pub read_stream : (Reported → Runes → Reported) → (ℕ → Bool) → Opened → Option ChatStream
read_stream sniff writes (open_failed e) = none
read_stream sniff writes (opened body) =
    pumped (pump sniff writes (suc (length body)) 0 body nothing_reported)
