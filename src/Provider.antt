-- ===== src/Provider.antt =====
-- internal/provider/provider.go: the neutral request, and how an exchange with a provider's server
-- ends. The HTTP client is a function from the wire request to an Exchange, and the JSON codec of a
-- body is a parameter of each adapter; a text is its code points.
pub mod Sse
pub mod Lines
pub mod Pumped
pub mod Streams
pub mod Usage
pub mod Metered
pub mod Adapters
pub mod Counts
pub mod SigV4
pub mod Encoded
mod Tests
pub mod Anthropic
pub mod OpenAi
pub mod Ollama
pub mod Bedrock
use riskkernel.Base.{
  ℕ, ◌==◌, ℤ, String, codes, Runes, is_nil, trim_space, Bool, ◌&&◌, Option, none, some, List, [],
  ◌∷◌, if◌then◌else◌,
}
use riskkernel.Gateway.{Response}

pub record Message : Type 0 where
  pub role : String
  pub content : Runes

pub record Request (D : Type 0) : Type 0 where
  pub model : String
  pub system : Runes
  pub messages : List Message
  pub max_tokens : ℤ
  pub temperature : Option D

abbrev pub role_system : String
role_system = "system"

-- What comes of one HTTP request: the request cannot be built, it fails (by the context or not),
-- its body cannot be read, or there is a status with a body.
pub data Exchange : Type 0 where
  unbuilt : Exchange
  unsent : Bool → Exchange
  unread : ℕ → Exchange
  replied : ℕ → Runes → Exchange

-- The errors of an adapter; `api_error` has the server's own message and type.
pub data ChatError : Type 0 where
  no_credentials : ChatError
  no_request : ChatError
  context_ended : ChatError
  not_reached : ChatError
  unreadable : ChatError
  api_error : Runes → Runes → ℕ → ChatError
  http_error : ℕ → Runes → ChatError
  undecodable : ChatError
  server_error : Runes → ChatError

pub data Reply : Type 0 where
  chat_failed : ChatError → Reply
  chat_answered : Response → Reply

-- A request on the wire, a POST.
pub record HttpRequest (B : Type 0) : Type 0 where
  pub url : Runes
  pub headers : List (String × Runes)
  pub body : B

-- `strings.TrimRight(url, "/")`.
unfoldable pub trim_slashes : Runes → Runes
trim_slashes [] = []
trim_slashes (c ∷ s) =
    let rest = trim_slashes s in if is_nil rest && (c == b'/') then [] else c ∷ rest

-- `WithBaseURL`, the same in every adapter.
abbrev pub with_base_url : Runes → Runes → Runes
with_base_url old url = if is_nil url then old else trim_slashes url

-- The error of a status other than 200: the server's own, if its body decodes to one with a message.
abbrev pub status_error : Option (Runes × Runes) → ℕ → Runes → ChatError
status_error none status raw = http_error status (trim_space raw)
status_error (some (message, kind)) status raw =
    if is_nil message then http_error status (trim_space raw) else api_error message kind status

-- A failure before a status with a body.
abbrev pub send_error : Bool → ChatError
send_error ended = if ended then context_ended else not_reached

-- What the gateway sees of a reply.
abbrev pub answer_of : Reply → Option Response
answer_of (chat_failed e) = none
answer_of (chat_answered resp) = some resp
