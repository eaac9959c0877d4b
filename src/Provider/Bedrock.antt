-- ===== src/Provider/Bedrock.antt =====
-- internal/provider/bedrock.go: the adapter of the Converse API, before its request is signed. What
-- the server answers to a wire request is an argument.
use riskkernel.Base.{
  ◌==◌, ℤ, pos, ltb_ℤ, String, codes, str_eq, Runes, is_nil, not, ◌||◌, Option, none, some, List,
  [], ◌∷◌, ◌++◌, if◌then◌else◌,
}
use riskkernel.Gateway.{Response}
use riskkernel.Provider.{
  Message, Request, role_system, Exchange, unbuilt, unsent, unread, replied, no_credentials,
  no_request, unreadable, undecodable, status_error, send_error, Reply, chat_failed, chat_answered,
}

pub record Credentials : Type 0 where
  pub access_key : Runes
  pub secret_key : Runes
  pub session_token : Runes

-- A text block is its text.
pub record Turn : Type 0 where
  pub role : String
  pub content : List Runes

pub record ConverseReq (D : Type 0) : Type 0 where
  pub messages : List Turn
  pub system : List Runes
  pub max_tokens : ℤ
  pub temperature : Option D

pub record ConverseResp : Type 0 where
  pub content : List Runes
  pub stop_reason : String
  pub input_tokens : ℤ
  pub output_tokens : ℤ

-- The JSON codec on the types above. An error is its message.
pub record ConverseJson : Type 0 where
  pub response_of : Runes → Option ConverseResp
  pub error_of : Runes → Option Runes

-- `endpoint`.
abbrev pub endpoint : Runes → Runes → Runes
endpoint base region =
    if not (is_nil base)
    then base
    else codes "https://bedrock-runtime." ++ (region ++ codes ".amazonaws.com")

-- The loop of `Chat` over the messages, from the system blocks so far.
unfoldable pub lift_from : List Runes → List Message → List Runes × List Turn
lift_from system [] = (system, [])
lift_from system (m ∷ ms) =
    let rest = lift_from system ms in
    let lifted = lift_from (system ++ (m.content ∷ [])) ms in
    let turn : Turn = record { role = m.role; content = m.content ∷ [] } in
    if str_eq m.role role_system then lifted else (rest.0, turn ∷ rest.1)

module _ {D : Type 0} where
  -- The request that `Chat` sends.
  unfoldable pub converse_request : Request D → ConverseReq D
  unfolding lift_from
  converse_request req =
      let (system, msgs) =
        lift_from (if is_nil req.system then [] else req.system ∷ []) req.messages in
      record {
        messages = msgs;
        system = system;
        max_tokens = if ltb_ℤ (pos 0) req.max_tokens then req.max_tokens else pos 1024;
        temperature = req.temperature;
      }

unfoldable pub joined : List Runes → Runes
joined [] = []
joined (t ∷ ts) = t ++ joined ts

-- The response of a body, with the id that the response's header has.
unfoldable pub converse_response : String → String → ConverseResp → Response
unfolding joined
converse_response model request_id out = record {
  id = request_id;
  model = model;
  content = joined out.content;
  finish_reason = out.stop_reason;
  prompt_tokens = out.input_tokens;
  completion_tokens = out.output_tokens;
}

abbrev pub with_no_type : Option Runes → Option (Runes × Runes)
with_no_type none = none
with_no_type (some message) = some (message, [])

module _ ⦃J : ConverseJson⦄ where
  abbrev pub converse_decoded : String → String → Option ConverseResp → Reply
  converse_decoded model request_id none = chat_failed undecodable
  converse_decoded model request_id (some out) =
      chat_answered (converse_response model request_id out)

  abbrev pub converse_reply : String → String → Exchange → Reply
  converse_reply model request_id unbuilt = chat_failed no_request
  converse_reply model request_id (unsent ended) = chat_failed (send_error ended)
  converse_reply model request_id (unread status) = chat_failed unreadable
  converse_reply model request_id (replied status raw) =
      if not (status == 200)
      then chat_failed (status_error (with_no_type (J.error_of raw)) status raw)
      else converse_decoded model request_id (J.response_of raw)

  -- `Chat`: `send` answers the exchange and the response's `x-amzn-RequestId`.
  unfoldable pub converse :
      {D : Type 0} → Credentials → Runes → (ConverseReq D → Exchange × String) → Request D → Reply
  unfolding converse_request
  converse creds region send req =
      let (exchange, request_id) = send (converse_request req) in
      if is_nil creds.access_key || is_nil creds.secret_key
      then chat_failed no_credentials
      else if is_nil region
      then chat_failed no_credentials
      else converse_reply req.model request_id exchange
