-- ===== src/Provider/OpenAi.antt =====
-- internal/provider/openai.go: the adapter of the Chat Completions API. What the server answers to a
-- wire request is an argument.
use riskkernel.Base.{
  ◌==◌, ℤ, String, codes, codes_eq, str_eq, Runes, is_nil, Bool, true, false, not, Option, none,
  some, List, [], ◌∷◌, ◌++◌, if◌then◌else◌,
}
use riskkernel.Gateway.{Response}
use riskkernel.Provider.{
  Message, Request, role_system, HttpRequest, Exchange, unbuilt, unsent, unread, replied,
  no_credentials, no_request, unreadable, undecodable, status_error, send_error, Reply, chat_failed,
  chat_answered,
}
use riskkernel.Provider.Sse.{Reported, payload_of, Opened, open_failed, opened}

-- `include_usage` is `stream_options`, which only a streaming request has.
pub record OpenAiReq (D : Type 0) : Type 0 where
  pub model : String
  pub messages : List Message
  pub max_tokens : ℤ
  pub temperature : Option D
  pub stream : Bool
  pub include_usage : Bool

-- A choice: its content and its finish reason.
pub record OpenAiResp : Type 0 where
  pub id : String
  pub model : String
  pub choices : List (Runes × String)
  pub prompt_tokens : ℤ
  pub completion_tokens : ℤ

-- A chunk of a stream: its model and its usage, prompt and completion.
pub record Chunk : Type 0 where
  pub model : String
  pub usage : Option (ℤ × ℤ)

-- The JSON codec on the types above. An error is its message and its type.
pub record OpenAiJson : Type 0 where
  pub response_of : Runes → Option OpenAiResp
  pub error_of : Runes → Option (Runes × Runes)
  pub chunk_of : Runes → Option Chunk

abbrev pub default_openai_url : Runes
default_openai_url = codes "https://api.openai.com"

module _ {D : Type 0} where
  -- The system prompt as a leading message.
  abbrev pub openai_messages : Request D → List Message
  openai_messages req =
      if is_nil req.system
      then req.messages
      else record { role = role_system; content = req.system } ∷ req.messages

  -- The request that `Chat` and `ChatStream` send.
  unfoldable pub openai_request : Runes → Runes → Bool → Request D → HttpRequest (OpenAiReq D)
  openai_request key base stream req =
      let plain =
        ("content-type", codes "application/json")
        ∷ ("authorization", codes "Bearer " ++ key)
        ∷ [] in
      record {
        url = base ++ codes "/v1/chat/completions";
        headers = if stream then plain ++ (("accept", codes "text/event-stream") ∷ []) else plain;
        body = record {
          model = req.model;
          messages = openai_messages req;
          max_tokens = req.max_tokens;
          temperature = req.temperature;
          stream = stream;
          include_usage = stream;
        };
      }

-- The first choice.
abbrev pub first_choice : List (Runes × String) → Runes × String
first_choice [] = ([], "")
first_choice (c ∷ cs) = c

unfoldable pub openai_response : OpenAiResp → Response
openai_response out =
    let (content, finish) = first_choice out.choices in
    record {
      id = out.id;
      model = out.model;
      content = content;
      finish_reason = finish;
      prompt_tokens = out.prompt_tokens;
      completion_tokens = out.completion_tokens;
    }

module _ ⦃J : OpenAiJson⦄ where
  abbrev pub openai_decoded : Option OpenAiResp → Reply
  openai_decoded none = chat_failed undecodable
  openai_decoded (some out) = chat_answered (openai_response out)

  abbrev pub openai_reply : Exchange → Reply
  openai_reply unbuilt = chat_failed no_request
  openai_reply (unsent ended) = chat_failed (send_error ended)
  openai_reply (unread status) = chat_failed unreadable
  openai_reply (replied status raw) =
      if not (status == 200)
      then chat_failed (status_error (J.error_of raw) status raw)
      else openai_decoded (J.response_of raw)

  abbrev pub openai_opening : Exchange → Opened
  openai_opening unbuilt = open_failed no_request
  openai_opening (unsent ended) = open_failed (send_error ended)
  openai_opening (unread status) =
      if not (status == 200)
      then open_failed (status_error (J.error_of []) status [])
      else opened []
  openai_opening (replied status raw) =
      if not (status == 200)
      then open_failed (status_error (J.error_of raw) status raw)
      else opened raw

  -- `Chat`, over what the server answers to the request.
  unfoldable pub openai_chat :
      {D : Type 0} → Runes → Runes → (HttpRequest (OpenAiReq D) → Exchange) → Request D → Reply
  unfolding openai_request
  openai_chat key base send req =
      if is_nil key
      then chat_failed no_credentials
      else openai_reply (send (openai_request key base false req))

  -- `ChatStream`. Of an error's body at most 64 KiB are read, and of a broken one what there is.
  unfoldable pub openai_stream :
      {D : Type 0} → Runes → Runes → (HttpRequest (OpenAiReq D) → Exchange) → Request D → Opened
  unfolding openai_request
  openai_stream key base send req =
      if is_nil key
      then open_failed no_credentials
      else openai_opening (send (openai_request key base true req))

-- `sniff` on a decoded chunk.
abbrev pub used : Option (ℤ × ℤ) → Reported → Reported
used none st = st
used (some (prompt, completion)) st = record st {
  prompt_tokens = prompt;
  completion_tokens = completion;
}

abbrev pub sniff_chunk : Option Chunk → Reported → Reported
sniff_chunk none st = st
sniff_chunk (some c) st =
    used c.usage (if str_eq c.model "" then st else record st { model = c.model })

module _ ⦃J : OpenAiJson⦄ where
  abbrev pub sniff_data : Option Runes → Reported → Reported
  sniff_data none st = st
  sniff_data (some payload) st =
      if codes_eq payload (codes "[DONE]") then st else sniff_chunk (J.chunk_of payload) st

  -- `oaiStream.sniff`.
  unfoldable pub openai_sniff : Reported → Runes → Reported
  openai_sniff st line = sniff_data (payload_of line) st
