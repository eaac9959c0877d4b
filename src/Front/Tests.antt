-- ===== src/Front/Tests.antt =====
-- internal/gateway/{openai,anthropic}.go: concrete bodies.
use riskkernel.Base.{ℕ, pos, ◌≡◌, refl, codes, true, false, none, some, [], ◌∷◌}
use riskkernel.Storage.Sqlite.{Db, sqlite}
use riskkernel.Runs.Manager.{Manager}
use riskkernel.Gateway.{Provider, Response}
use riskkernel.Provider.Anthropic.{anthropic_request}
use riskkernel.Provider.OpenAi.{openai_request}
use riskkernel.Provider.Ollama.{ollama_request}
use riskkernel.Provider.Bedrock.{converse_request}
use riskkernel.Front.{
  ContentJson, decode_content, MessagesBody, chat_request, messages_request, openai_finish_reason,
  Surroundings, handle_chat_completions, handle_messages,
}
use riskkernel.Front.Agree.{chat_body_of, entrypoints_agree}
use riskkernel.Sample.{float, unicode, engine, budget, live_run, db}

-- A codec of contents that are all plain.
instance abbrev content_json : ContentJson
content_json = record { string_of = λ raw. some raw; blocks_of = λ raw. none }

abbrev body : MessagesBody ℕ
body = record {
  model = "claude-opus-4-8";
  max_tokens = pos 64;
  system = codes "Be brief.";
  messages = record { role = "user"; content = codes "Hi" } ∷ [];
  temperature = none;
  stream = false;
}

not_empty : decode_content body.system ≡ codes "Be brief."
unfolding decode_content
not_empty = refl

abbrev anthropic : Provider
anthropic = record { name = "anthropic"; streams = true }

abbrev response : Response
response = record {
  id = "msg-1";
  model = "claude-opus-4-8";
  content = codes "hello";
  finish_reason = "end_turn";
  prompt_tokens = pos 30;
  completion_tokens = pos 12;
}

abbrev surroundings : Surroundings ℕ
surroundings = record {
  registry = record { providers = ("anthropic", anthropic) ∷ []; default_name = "anthropic" };
  moments = record {
    begin_at = pos 21;
    begin_stamp = pos 22;
    check_at = pos 23;
    check_stamp = pos 24;
    record_at = pos 25;
    record_stamp = pos 26;
  };
  flusher = true;
  during = [];
  chat = λ req. some response;
  open_stream = λ req. none;
}

abbrev manager : Manager ℕ (Db ℕ)
manager = record { default_budget = budget; store = some db; runs = ("run-1", live_run) ∷ [] }

end_turn_stops : openai_finish_reason "end_turn" ≡ "stop"
unfolding openai_finish_reason
end_turn_stops = refl

entrypoints_agree_example :
    let c = chat_request (chat_body_of body) in
    let r = messages_request body in
    (anthropic_request (codes "k") (codes "http://x") false c
      ≡ anthropic_request (codes "k") (codes "http://x") false r)
    × (openai_request (codes "k") (codes "http://x") false c
        ≡ openai_request (codes "k") (codes "http://x") false r)
    × (ollama_request (codes "http://x") c ≡ ollama_request (codes "http://x") r)
    × (converse_request c ≡ converse_request r)
    × ((handle_chat_completions none surroundings
          (some (chat_body_of body))
          "run-1"
          "run-9"
          (pos 20)
          manager).0
        ≡ (handle_messages none surroundings (some body) "run-1" "run-9" (pos 20) manager).0)
entrypoints_agree_example =
    entrypoints_agree none surroundings (codes "k") (codes "http://x") false body "run-1" "run-9"
      (pos 20) manager (rw not_empty) refl refl refl
