-- ===== src/Provider/Ollama.antt =====
-- internal/provider/ollama.go: the adapter of a local server's /api/chat. What the server answers to
-- a wire request is an argument.
use riskkernel.Base.{
  ◌==◌, ℤ, pos, ltb_ℤ, String, codes, Runes, is_nil, is_some, not, ◌||◌, Option, none, some, List,
  [], ◌∷◌, ◌++◌, if◌then◌else◌,
}
use riskkernel.Gateway.{Response}
use riskkernel.Provider.{
  Message, Request, role_system, HttpRequest, Exchange, unbuilt, unsent, unread, replied,
  no_request, unreadable, undecodable, server_error, status_error, trim_slashes, send_error, Reply,
  chat_failed, chat_answered,
}

pub record OllamaOptions (D : Type 0) : Type 0 where
  pub num_predict : ℤ
  pub temperature : Option D

pub record OllamaReq (D : Type 0) : Type 0 where
  pub model : String
  pub messages : List Message
  pub options : Option (OllamaOptions D)

pub record OllamaResp : Type 0 where
  pub model : String
  pub content : Runes
  pub done_reason : String
  pub prompt_eval_count : ℤ
  pub eval_count : ℤ
  pub error : Runes

-- The JSON codec on the type above.
pub record OllamaJson : Type 0 where
  pub response_of : Runes → Option OllamaResp

-- `NewOllama`.
abbrev pub ollama_url : Runes → Runes
ollama_url base = trim_slashes (if is_nil base then codes "http://localhost:11434" else base)

module _ {D : Type 0} where
  abbrev pub ollama_messages : Request D → List Message
  ollama_messages req =
      if is_nil req.system
      then req.messages
      else record { role = role_system; content = req.system } ∷ req.messages

  abbrev pub ollama_options : Request D → Option (OllamaOptions D)
  ollama_options req =
      if ltb_ℤ (pos 0) req.max_tokens || is_some req.temperature
      then some (record { num_predict = req.max_tokens; temperature = req.temperature })
      else none

  -- The request that `Chat` sends.
  unfoldable pub ollama_request : Runes → Request D → HttpRequest (OllamaReq D)
  ollama_request base req = record {
    url = base ++ codes "/api/chat";
    headers = ("content-type", codes "application/json") ∷ [];
    body = record {
      model = req.model;
      messages = ollama_messages req;
      options = ollama_options req;
    };
  }

unfoldable pub ollama_response : OllamaResp → Response
ollama_response out = record {
  id = "";
  model = out.model;
  content = out.content;
  finish_reason = out.done_reason;
  prompt_tokens = out.prompt_eval_count;
  completion_tokens = out.eval_count;
}

-- An error of a status other than 200 has no type.
abbrev pub ollama_error : Option OllamaResp → Option (Runes × Runes)
ollama_error none = none
ollama_error (some out) = some (out.error, [])

abbrev pub ollama_decoded : Option OllamaResp → Reply
ollama_decoded none = chat_failed undecodable
ollama_decoded (some out) =
    if not (is_nil out.error)
    then chat_failed (server_error out.error)
    else chat_answered (ollama_response out)

module _ ⦃J : OllamaJson⦄ where
  abbrev pub ollama_reply : Exchange → Reply
  ollama_reply unbuilt = chat_failed no_request
  ollama_reply (unsent ended) = chat_failed (send_error ended)
  ollama_reply (unread status) = chat_failed unreadable
  ollama_reply (replied status raw) =
      if not (status == 200)
      then chat_failed (status_error (ollama_error (J.response_of raw)) status raw)
      else ollama_decoded (J.response_of raw)

  -- `Chat`, over what the server answers to the request.
  unfoldable pub ollama_chat :
      {D : Type 0} → Runes → (HttpRequest (OllamaReq D) → Exchange) → Request D → Reply
  unfolding ollama_request
  ollama_chat base send req = ollama_reply (send (ollama_request base req))
