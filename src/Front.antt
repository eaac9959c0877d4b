-- ===== src/Front.antt =====
-- internal/gateway/openai.go and internal/gateway/anthropic.go: the two entrypoints for model calls,
-- from the decoded body to the body of the answer. `none` is a body that cannot be read or decoded;
-- the JSON codec of a message's content and the provider's adapter are parameters.
pub mod Agree
pub mod Shown
mod Tests
use riskkernel.Base.{
  ℕ, ◌==◌, ℤ, ◌+ℤ◌, wrap64, String, codes, str_eq, Runes, is_nil, Unicode, Bool, true, false, not,
  ◌&&◌, ◌||◌, Option, none, some, List, [], ◌∷◌, ◌++◌, map, if◌then◌else◌, Float64, Time,
}
use riskkernel.Governor.{HaltReason, halt_none}
use riskkernel.Pricing.{Rates}
use riskkernel.Storage.{Store}
use riskkernel.Runs.{Run}
use riskkernel.Runs.Writes.{RunEvent}
use riskkernel.Runs.Manager.{Manager, put_run}
use riskkernel.Gateway.{
  Registry, Response, GwError, CallMeta, Outcome, refused, failed, answered, Moments, governed_call,
  resolve_run,
}
use riskkernel.Gateway.Streams.{
  ChatStream, StreamOutcome, stream_refused, stream_failed, streamed, stream_call,
}
use riskkernel.Provider.{Message, Request}

-- A content that is a string, or a list of blocks, each with its text.
pub record ContentJson : Type 0 where
  pub string_of : Runes → Option Runes
  pub blocks_of : Runes → Option (List Runes)

abbrev pub texts : Option (List Runes) → Runes
texts none = []
texts (some []) = []
texts (some (t ∷ ts)) = t ++ texts (some ts)

abbrev pub text_or : Option Runes → Option (List Runes) → Runes
text_or none blocks = texts blocks
text_or (some s) blocks = s

-- `decodeContent`.
unfoldable pub decode_content : ⦃J : ContentJson⦄ → Runes → Runes
decode_content ⦃J⦄ raw = if is_nil raw then [] else text_or (J.string_of raw) (J.blocks_of raw)

-- A message of a body: its role and its content, undecoded.
pub record RawMessage : Type 0 where
  pub role : String
  pub content : Runes

pub record ChatBody (D : Type 0) : Type 0 where
  pub model : String
  pub messages : List RawMessage
  pub max_tokens : ℤ
  pub temperature : Option D
  pub stream : Bool

pub record MessagesBody (D : Type 0) : Type 0 where
  pub model : String
  pub max_tokens : ℤ
  pub system : Runes
  pub messages : List RawMessage
  pub temperature : Option D
  pub stream : Bool

module _ ⦃J : ContentJson⦄ where
  abbrev pub decoded : List RawMessage → List Message
  decoded [] = []
  decoded (m ∷ ms) = record { role = m.role; content = decode_content m.content } ∷ decoded ms

module _ {D : Type 0} ⦃J : ContentJson⦄ where
  -- The neutral request of `handleChatCompletions`.
  unfoldable pub chat_request : ChatBody D → Request D
  chat_request b = record {
    model = b.model;
    system = [];
    messages = decoded b.messages;
    max_tokens = b.max_tokens;
    temperature = b.temperature;
  }

  -- The neutral request of `handleMessages`.
  unfoldable pub messages_request : MessagesBody D → Request D
  messages_request b = record {
    model = b.model;
    system = decode_content b.system;
    messages = decoded b.messages;
    max_tokens = b.max_tokens;
    temperature = b.temperature;
  }

-- `openAIFinishReason`.
unfoldable pub openai_finish_reason : String → String
openai_finish_reason r =
    if str_eq r "end_turn" || (str_eq r "stop_sequence" || str_eq r "stop")
    then "stop"
    else if str_eq r "max_tokens" || str_eq r "length"
    then "length"
    else if str_eq r "tool_use" || str_eq r "tool_calls"
    then "tool_calls"
    else if str_eq r ""
    then "stop"
    else r

abbrev pub default_str : String → String → String
default_str s default = if str_eq s "" then default else s

-- `stampHeaders`: the run, the step, the cost, the tokens, and the halt where there is one.
pub record Stamp (D : Type 0) : Type 0 where
  pub run_id : String
  pub step : ℤ
  pub cost : D
  pub tokens : ℤ
  pub halt : Option HaltReason

pub record ChatCompletion : Type 0 where
  pub id : Runes
  pub model : String
  pub content : Runes
  pub finish_reason : String
  pub prompt_tokens : ℤ
  pub completion_tokens : ℤ
  pub total_tokens : ℤ

pub record MessagesAnswer : Type 0 where
  pub id : String
  pub model : String
  pub content : Runes
  pub stop_reason : String
  pub input_tokens : ℤ
  pub output_tokens : ℤ

pub data Answer (D : Type 0) : Type 0 where
  rejected : GwError → Answer D
  completion : Stamp D → ChatCompletion → Answer D
  message : Stamp D → MessagesAnswer → Answer D
  event_stream : String → ℤ → List Runes → Answer D

-- `Usage.Total`.
abbrev pub total_of : Response → ℤ
total_of resp = wrap64 (resp.prompt_tokens +ℤ resp.completion_tokens)

abbrev pub halt_header : HaltReason → Option HaltReason
halt_header halt_none = none
halt_header reason = some reason

abbrev pub bad_request : GwError
bad_request = record { status = 400; code = "bad_request" }

unfoldable pub completion_of : Response → ChatCompletion
unfolding openai_finish_reason
completion_of resp = record {
  id = codes "chatcmpl-" ++ codes resp.id;
  model = resp.model;
  content = resp.content;
  finish_reason = openai_finish_reason resp.finish_reason;
  prompt_tokens = resp.prompt_tokens;
  completion_tokens = resp.completion_tokens;
  total_tokens = total_of resp;
}

unfoldable pub message_of : Response → MessagesAnswer
message_of resp = record {
  id = resp.id;
  model = resp.model;
  content = resp.content;
  stop_reason = default_str resp.finish_reason "end_turn";
  input_tokens = resp.prompt_tokens;
  output_tokens = resp.completion_tokens;
}

module _ {D : Type 0} where
  abbrev pub stamp : String → Response → CallMeta D → Stamp D
  stamp rid resp meta = record {
    run_id = rid;
    step = meta.step;
    cost = meta.cost;
    tokens = total_of resp;
    halt = halt_header meta.halt;
  }

  abbrev pub chat_answer : String → Outcome D → Answer D
  chat_answer rid (refused e) = rejected e
  chat_answer rid (failed e) = rejected e
  chat_answer rid (answered resp meta) = completion (stamp rid resp meta) (completion_of resp)

  abbrev pub messages_answer : String → Outcome D → Answer D
  messages_answer rid (refused e) = rejected e
  messages_answer rid (failed e) = rejected e
  messages_answer rid (answered resp meta) = message (stamp rid resp meta) (message_of resp)

  abbrev pub stream_answer : String → StreamOutcome → Answer D
  stream_answer rid (stream_refused e) = rejected e
  stream_answer rid (stream_failed e) = rejected e
  stream_answer rid (streamed step chunks) = event_stream rid step chunks

-- What surrounds a call: the registry, the times, whether the client can be flushed to, what others
-- do to the run meanwhile, and what the provider's adapter makes of a request.
pub record Surroundings (D : Type 0) : Type 0 where
  pub registry : Registry
  pub moments : Moments
  pub flusher : Bool
  pub during : List (RunEvent D)
  pub chat : Request D → Option Response
  pub open_stream : Request D → Option ChatStream

module _ {D S : Type 0} ⦃F : Float64 D⦄ ⦃U : Unicode⦄ ⦃B : Store D S⦄ (prices : Option (Rates D))
    (env : Surroundings D) where
  abbrev pub with_run : String → Run D → Option S → Manager D S → Manager D S
  with_run rid r s m = record m { runs = put_run rid r m.runs; store = s }

  abbrev pub governed :
      (String → Outcome D → Answer D) → Request D → Run D → Manager D S → Manager D S × Answer D
  governed show req r m =
      let (r', s', o) =
        governed_call prices env.moments env.registry req.model env.during (env.chat req) r
          m.store in
      (with_run r.id r' s' m, show r.id o)

  abbrev pub governed_stream : Request D → Run D → Manager D S → Manager D S × Answer D
  governed_stream req r m =
      let (r', s', o) =
        stream_call prices env.moments env.registry req.model env.flusher env.during
          (env.open_stream req) r m.store in
      (with_run r.id r' s' m, stream_answer r.id o)

  -- After the body's checks; `header` is the run id's, and `uuid` what a fresh run is named.
  abbrev pub serve :
      (String → Outcome D → Answer D)
      → Bool
      → Request D
      → String
      → String
      → Time
      → Manager D S
      → Manager D S × Answer D
  serve show stream req header uuid now m =
      let (m', r) = resolve_run header uuid now m in
      if stream then governed_stream req r m' else governed show req r m'

  -- `handleChatCompletions`.
  unfoldable pub handle_chat_completions :
      ⦃J : ContentJson⦄
      → Option (ChatBody D)
      → String
      → String
      → Time
      → Manager D S
      → Manager D S × Answer D
  unfolding chat_request
  handle_chat_completions none header uuid now m = (m, rejected bad_request)
  handle_chat_completions (some b) header uuid now m =
      if str_eq b.model "" || is_nil b.messages
      then (m, rejected bad_request)
      else serve chat_answer b.stream (chat_request b) header uuid now m

  -- `handleMessages`.
  unfoldable pub handle_messages :
      ⦃J : ContentJson⦄
      → Option (MessagesBody D)
      → String
      → String
      → Time
      → Manager D S
      → Manager D S × Answer D
  unfolding messages_request
  handle_messages none header uuid now m = (m, rejected bad_request)
  handle_messages (some b) header uuid now m =
      if str_eq b.model "" || is_nil b.messages
      then (m, rejected bad_request)
      else serve messages_answer b.stream (messages_request b) header uuid now m
