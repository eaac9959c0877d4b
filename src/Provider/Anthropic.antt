-- ===== src/Provider/Anthropic.antt =====
-- internal/provider/anthropic.go: the adapter of the Messages API. What the server answers to a wire
-- request is an argument.
use riskkernel.Base.{
  ◌==◌, ℤ, pos, ltb_ℤ, String, codes, str_eq, Runes, is_nil, Bool, true, false, not, Option, none,
  some, List, [], ◌∷◌, ◌++◌, if◌then◌else◌,
}
use riskkernel.Gateway.{Response}
use riskkernel.Provider.{
  Message, Request, role_system, HttpRequest, Exchange, unbuilt, unsent, unread, replied,
  no_credentials, no_request, unreadable, undecodable, status_error, send_error, Reply, chat_failed,
  chat_answered,
}
use riskkernel.Provider.Sse.{Reported, payload_of, Opened, open_failed, opened}

pub record AnthropicReq (D : Type 0) : Type 0 where
  pub model : String
  pub max_tokens : ℤ
  pub system : Runes
  pub messages : List Message
  pub temperature : Option D
  pub stream : Bool

pub record Block : Type 0 where
  pub kind : String
  pub text : Runes

pub record AnthropicResp : Type 0 where
  pub id : String
  pub model : String
  pub stop_reason : String
  pub content : List Block
  pub input_tokens : ℤ
  pub output_tokens : ℤ

pub record StreamUsage : Type 0 where
  pub input_tokens : ℤ
  pub output_tokens : ℤ

-- An event: its type, the model and the usage of its message, and its own usage.
pub record Event : Type 0 where
  pub kind : String
  pub message : Option (String × Option StreamUsage)
  pub usage : Option StreamUsage

-- The JSON codec on the types above. An error is its message and its type.
pub record AnthropicJson : Type 0 where
  pub response_of : Runes → Option AnthropicResp
  pub error_of : Runes → Option (Runes × Runes)
  pub event_of : Runes → Option Event

abbrev pub default_anthropic_url : Runes
default_anthropic_url = codes "https://api.anthropic.com"

-- `splitSystem`: the loop from the prompt so far.
abbrev pub with_system : Runes → Runes → Runes
with_system system content = if is_nil system then content else system ++ (codes "\n\n" ++ content)

unfoldable pub split_from : Runes → List Message → Runes × List Message
split_from system [] = (system, [])
split_from system (m ∷ ms) =
    let rest = split_from system ms in
    let lifted = split_from (with_system system m.content) ms in
    if str_eq m.role role_system then lifted else (rest.0, m ∷ rest.1)

module _ {D : Type 0} where
  unfoldable pub split_system : Request D → Runes × List Message
  unfolding split_from
  split_system req = split_from req.system req.messages

  -- `anthropicMaxTokens`.
  unfoldable pub anthropic_max_tokens : Request D → ℤ
  anthropic_max_tokens req = if ltb_ℤ (pos 0) req.max_tokens then req.max_tokens else pos 1024

  -- The request that `Chat` and `ChatStream` send.
  unfoldable pub anthropic_request : Runes → Runes → Bool → Request D → HttpRequest (AnthropicReq D)
  unfolding split_system anthropic_max_tokens
  anthropic_request key base stream req =
      let (system, msgs) = split_system req in
      let plain =
        ("content-type", codes "application/json")
        ∷ ("x-api-key", key)
        ∷ ("anthropic-version", codes "2023-06-01")
        ∷ [] in
      record {
        url = base ++ codes "/v1/messages";
        headers = if stream then plain ++ (("accept", codes "text/event-stream") ∷ []) else plain;
        body = record {
          model = req.model;
          max_tokens = anthropic_max_tokens req;
          system = system;
          messages = msgs;
          temperature = req.temperature;
          stream = stream;
        };
      }

-- The texts of the text blocks, one after the other.
unfoldable pub text_of : List Block → Runes
text_of [] = []
text_of (b ∷ bs) = let rest = text_of bs in if str_eq b.kind "text" then b.text ++ rest else rest

unfoldable pub anthropic_response : AnthropicResp → Response
unfolding text_of
anthropic_response out = record {
  id = out.id;
  model = out.model;
  content = text_of out.content;
  finish_reason = out.stop_reason;
  prompt_tokens = out.input_tokens;
  completion_tokens = out.output_tokens;
}

module _ ⦃J : AnthropicJson⦄ where
  abbrev pub anthropic_decoded : Option AnthropicResp → Reply
  anthropic_decoded none = chat_failed undecodable
  anthropic_decoded (some out) = chat_answered (anthropic_response out)

  abbrev pub anthropic_reply : Exchange → Reply
  anthropic_reply unbuilt = chat_failed no_request
  anthropic_reply (unsent ended) = chat_failed (send_error ended)
  anthropic_reply (unread status) = chat_failed unreadable
  anthropic_reply (replied status raw) =
      if not (status == 200)
      then chat_failed (status_error (J.error_of raw) status raw)
      else anthropic_decoded (J.response_of raw)

  abbrev pub anthropic_opening : Exchange → Opened
  anthropic_opening unbuilt = open_failed no_request
  anthropic_opening (unsent ended) = open_failed (send_error ended)
  anthropic_opening (unread status) =
      if not (status == 200)
      then open_failed (status_error (J.error_of []) status [])
      else opened []
  anthropic_opening (replied status raw) =
      if not (status == 200)
      then open_failed (status_error (J.error_of raw) status raw)
      else opened raw

  -- `Chat`, over what the server answers to the request.
  unfoldable pub anthropic_chat :
      {D : Type 0} → Runes → Runes → (HttpRequest (AnthropicReq D) → Exchange) → Request D → Reply
  unfolding anthropic_request
  anthropic_chat key base send req =
      if is_nil key
      then chat_failed no_credentials
      else anthropic_reply (send (anthropic_request key base false req))

  -- `ChatStream`. Of an error's body at most 64 KiB are read, and of a broken one what there is.
  unfoldable pub anthropic_stream :
      {D : Type 0} → Runes → Runes → (HttpRequest (AnthropicReq D) → Exchange) → Request D → Opened
  unfolding anthropic_request
  anthropic_stream key base send req =
      if is_nil key
      then open_failed no_credentials
      else anthropic_opening (send (anthropic_request key base true req))

-- `sniff` on a decoded event.
abbrev pub raised : ℤ → ℤ → ℤ
raised new old = if ltb_ℤ (pos 0) new then new else old

abbrev pub started_usage : Option StreamUsage → Reported → Reported
started_usage none st = st
started_usage (some u) st = record st {
  prompt_tokens = u.input_tokens;
  completion_tokens = u.output_tokens;
}

abbrev pub started : Option (String × Option StreamUsage) → Reported → Reported
started none st = st
started (some (model, usage)) st =
    started_usage usage (if str_eq model "" then st else record st { model = model })

abbrev pub delta : Option StreamUsage → Reported → Reported
delta none st = st
delta (some u) st = record st {
  completion_tokens = raised u.output_tokens st.completion_tokens;
  prompt_tokens = raised u.input_tokens st.prompt_tokens;
}

unfoldable pub apply_event : Event → Reported → Reported
apply_event e st =
    if str_eq e.kind "message_start"
    then started e.message st
    else if str_eq e.kind "message_delta"
    then delta e.usage st
    else st

abbrev pub sniff_event : Option Event → Reported → Reported
sniff_event none st = st
sniff_event (some e) st = apply_event e st

module _ ⦃J : AnthropicJson⦄ where
  abbrev pub sniff_payload : Option Runes → Reported → Reported
  sniff_payload none st = st
  sniff_payload (some payload) st = sniff_event (J.event_of payload) st

  -- `antStream.sniff`.
  unfoldable pub anthropic_sniff : Reported → Runes → Reported
  anthropic_sniff st line = sniff_payload (payload_of line) st
