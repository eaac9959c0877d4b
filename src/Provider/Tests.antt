-- ===== src/Provider/Tests.antt =====
-- internal/provider: concrete requests and streams.
use riskkernel.Base.{
  ℕ, pos, ◌+ℤ◌, wrap64, ◌≡◌, refl, codes, codes_eq, split, trim_space, is_nil, Runes, true, false,
  none, some, List, [], ◌∷◌, ◌++◌, map, arith, if◌then◌else◌,
}
use riskkernel.Storage.Sqlite.{sqlite}
use riskkernel.Gateway.{Provider, Moments}
use riskkernel.Gateway.Streams.{streamed, after_open}
use riskkernel.Provider.{
  Message, Request, role_system, replied, chat_failed, chat_answered, api_error, http_error,
  context_ended, unsent, with_base_url,
}
use riskkernel.Provider.Sse.{Reported, nothing_reported, opened, payload_of, pump}
use riskkernel.Provider.Anthropic.{
  AnthropicJson, Event, anthropic_chat, anthropic_request, anthropic_sniff, default_anthropic_url,
}
use riskkernel.Provider.OpenAi.{OpenAiJson, openai_request, openai_sniff}
use riskkernel.Provider.Ollama.{ollama_request}
use riskkernel.Provider.Bedrock.{converse_request}
use riskkernel.Provider.SigV4.{uri_encode}
use riskkernel.Provider.Encoded.{uri_decode, IsSafe, uri_decode-uri_encode}
use riskkernel.Provider.Pumped.{concat, report, take_lines, Ends, pump-Ends}
use riskkernel.Provider.Streams.{read_stream}
use riskkernel.Provider.Usage.{last_usage, line_usage, NoUsage}
use riskkernel.Provider.Metered.{openai_stream_is_metered, cut_stream_is_free}
use riskkernel.Provider.Adapters.{turns, system_texts, prompt_text, as_turn, same_conversation}
use riskkernel.Provider.Counts.{HasCounts, NoStart, report-HasCounts}
use riskkernel.Sample.{float, unicode, engine, live_run, db}

-- A codec that knows the payloads "m" and "u".
instance abbrev openai_json : OpenAiJson
openai_json = record {
  response_of = λ raw. none;
  error_of = λ raw. none;
  chunk_of = λ raw.
      if codes_eq raw (codes "m")
      then some (record { model = "gpt-4o"; usage = none })
      else if codes_eq raw (codes "u")
      then some (record { model = ""; usage = some (pos 30, pos 12) })
      else none;
}

abbrev body : Runes
body = codes "data: m\ndata:  u\n\ndata: [DONE]\n"

abbrev moments : Moments
moments = record {
  begin_at = pos 50;
  begin_stamp = pos 51;
  check_at = pos 52;
  check_stamp = pos 53;
  record_at = pos 54;
  record_stamp = pos 55;
}

abbrev openai : Provider
openai = record { name = "openai"; streams = true }

usage_of_body : last_usage (pos 0, pos 0) (split 10 body) ≡ (pos 30, pos 12)
unfolding last_usage line_usage payload_of split trim_space
usage_of_body = refl

pump-Ends_example : Ends (pump openai_sniff (λ i. false) 99 0 body nothing_reported) body
pump-Ends_example = pump-Ends openai_sniff (λ i. false) 99 0 body nothing_reported (omega arith)

openai_stream_is_metered_example :
    let u = last_usage (pos 0, pos 0) (split 10 body) in
    let (r', s', o) =
      after_open none moments
        (read_stream openai_sniff (λ i. true) (opened body))
        openai
        (pos 2)
        "gpt-4o"
        live_run
        (some db) in
    (r'.gov.usage.prompt_tokens ≡ wrap64 (live_run.gov.usage.prompt_tokens +ℤ u.0))
    × (r'.gov.usage.completion_tokens ≡ wrap64 (live_run.gov.usage.completion_tokens +ℤ u.1))
    × ((chunks : List Runes) × (o ≡ streamed (pos 2) chunks) × (concat chunks ≡ body))
openai_stream_is_metered_example =
    openai_stream_is_metered none moments (λ i. true) body openai (pos 2) "gpt-4o" live_run
      (some db) (λ j. refl)

first_line_plain : NoUsage (take_lines 1 (split 10 body))
unfolding split line_usage payload_of trim_space
first_line_plain = (refl, tt)

cut_stream_is_free_example :
    let (r', s', o) =
      after_open none moments
        (read_stream openai_sniff (λ i. false) (opened body))
        openai
        (pos 2)
        "gpt-4o"
        live_run
        (some db) in
    (r'.gov.usage.prompt_tokens ≡ live_run.gov.usage.prompt_tokens)
    × (r'.gov.usage.completion_tokens ≡ live_run.gov.usage.completion_tokens)
cut_stream_is_free_example =
    cut_stream_is_free none moments (λ i. false) 0 body openai (pos 2) "gpt-4o" live_run (some db)
      refl first_line_plain (omega arith) (omega arith)

abbrev request : Request ℕ
request = record {
  model = "claude-opus-4-8";
  system = codes "Be brief.";
  messages =
      record { role = "user"; content = codes "Hi" }
      ∷ record { role = "system"; content = codes "Be kind." }
      ∷ record { role = "assistant"; content = codes "Hello" }
      ∷ [];
  max_tokens = pos 0;
  temperature = none;
}

sent : (anthropic_request (codes "key") default_anthropic_url true request).body ≡ record {
  model = "claude-opus-4-8";
  max_tokens = pos 1024;
  system = codes "Be brief.\n\nBe kind.";
  messages =
      record { role = "user"; content = codes "Hi" }
      ∷ record { role = "assistant"; content = codes "Hello" }
      ∷ [];
  temperature = none;
  stream = true;
}
unfolding anthropic_request
sent = refl

same_conversation_example :
    let a = (anthropic_request (codes "key") (codes "http://x") false request).body in
    let o = (openai_request (codes "key") (codes "http://x") false request).body in
    let l = (ollama_request (codes "http://x") request).body in
    let b = converse_request request in
    (a.messages ≡ turns request.messages)
    × (o.messages ≡ (
        if is_nil request.system
        then request.messages
        else record { role = role_system; content = request.system } ∷ request.messages))
    × (l.messages ≡ o.messages)
    × (b.messages ≡ map as_turn (turns request.messages))
    × (a.system ≡ prompt_text (request.system ∷ system_texts request.messages))
    × (b.system ≡ (request.system ∷ []) ++ system_texts request.messages)
same_conversation_example = same_conversation (codes "key") (codes "http://x") false request

-- A codec that knows no response, one error and two events.
instance abbrev anthropic_json : AnthropicJson
anthropic_json = record {
  response_of = λ raw. none;
  error_of =
      λ raw. if codes_eq raw (codes "e") then some (codes "overloaded", codes "busy") else none;
  event_of = λ raw.
      if codes_eq raw (codes "d")
      then some (record {
        kind = "message_delta";
        message = none;
        usage = some (record { input_tokens = pos 0; output_tokens = pos 40 });
      })
      else none;
}

answers :
    (anthropic_chat (codes "key") (codes "http://x") (λ r. replied 529 (codes "e")) request
      ≡ chat_failed (api_error (codes "overloaded") (codes "busy") 529))
    × (anthropic_chat (codes "key") (codes "http://x") (λ r. replied 502 (codes " bad ")) request
        ≡ chat_failed (http_error 502 (codes "bad")))
    × (anthropic_chat (codes "key") (codes "http://x") (λ r. unsent true) request
        ≡ chat_failed context_ended)
unfolding anthropic_chat trim_space
answers = (refl, refl, refl)

abbrev counted : Reported
counted = record { model = "claude-opus-4-8"; prompt_tokens = pos 30; completion_tokens = pos 1 }

abbrev events : List Runes
events = codes "event: message_delta" ∷ codes "data: d" ∷ codes "data: {" ∷ []

delta_counts : report anthropic_sniff counted events ≡ record counted { completion_tokens = pos 40 }
unfolding report anthropic_sniff payload_of trim_space riskkernel.Provider.Anthropic.apply_event
delta_counts = refl

no_start : NoStart events
unfolding payload_of trim_space
no_start = (refl, (refl, (refl, tt)))

report-HasCounts_example : HasCounts (report anthropic_sniff counted events)
report-HasCounts_example =
    report-HasCounts counted events no_start
      (record { prompt = omega arith; completion = omega arith })

nova : uri_encode (codes "amazon.nova-v1:0") ≡ codes "amazon.nova-v1%3A0"
unfolding uri_encode
nova = refl

uri_decode-uri_encode_example :
    (uri_decode (uri_encode (codes "nova v1:0")) ≡ codes "nova v1:0")
    × IsSafe (uri_encode (codes "nova v1:0"))
uri_decode-uri_encode_example = uri_decode-uri_encode (codes "nova v1:0") (omega arith)
