-- ===== src/Front/Agree.antt =====
-- internal/gateway/{openai,anthropic}.go over the adapters of internal/provider: the two entrypoints
-- ask a provider for the same.
use riskkernel.Base.{
  ◌≡◌, refl, inl, inr, String, str_eq, Runes, is_nil, Unicode, Bool, Bool-cases, true, false,
  Option, some, ◌∷◌, Float64, Time,
}
use riskkernel.Pricing.{Rates}
use riskkernel.Storage.{Store}
use riskkernel.Runs.Manager.{Manager}
use riskkernel.Provider.{Request, role_system}
use riskkernel.Provider.Anthropic.{split_from, split_system, anthropic_request}
use riskkernel.Provider.OpenAi.{openai_request}
use riskkernel.Provider.Ollama.{ollama_request}
use riskkernel.Provider.Bedrock.{lift_from, converse_request}
use riskkernel.Front.{
  ContentJson, decode_content, ChatBody, MessagesBody, chat_request, messages_request, Surroundings,
  chat_answer, messages_answer, serve, handle_chat_completions, handle_messages,
}

module _ {D : Type 0} ⦃J : ContentJson⦄ where
  -- The body for one entrypoint that has the system prompt in a leading message, for a body for the
  -- other that has it in a field.
  abbrev pub chat_body_of : MessagesBody D → ChatBody D
  chat_body_of b = record {
    model = b.model;
    messages = record { role = role_system; content = b.system } ∷ b.messages;
    max_tokens = b.max_tokens;
    temperature = b.temperature;
    stream = b.stream;
  }

module _ {D S : Type 0} ⦃F : Float64 D⦄ ⦃U : Unicode⦄ ⦃B : Store D S⦄ (prices : Option (Rates D))
    (env : Surroundings D) where
  -- Two requests for one model that the providers answer alike leave the same runs and store.
  serve_same :
      (stream : Bool) (c r : Request D) (header uuid : String) (now : Time) (m : Manager D S)
      → c.model ≡ r.model
      → env.chat c ≡ env.chat r
      → env.open_stream c ≡ env.open_stream r
      → (serve prices env chat_answer stream c header uuid now m).0
        ≡ (serve prices env messages_answer stream r header uuid now m).0
  serve_same true c r header uuid now m model chat opens = rw (opens, model) refl
  serve_same false c r header uuid now m model chat opens = rw (chat, model) refl

  -- For a body that has messages, and a system prompt that is not empty, it makes no difference whether
  -- a client gives the prompt in the system field of the Messages entrypoint or as a leading system
  -- message to the chat-completions entrypoint: each of the four adapters sends the same request, and
  -- where the provider answers that request alike, also as a stream, the two handlers leave the same
  -- runs and the same store.
  pub entrypoints_agree :
      ⦃J : ContentJson⦄ (key base : Runes) (stream : Bool) (b : MessagesBody D)
      (header uuid : String) (now : Time) (m : Manager D S)
      → is_nil (decode_content b.system) ≡ false
      → is_nil b.messages ≡ false
      → env.chat (chat_request (chat_body_of b)) ≡ env.chat (messages_request b)
      → env.open_stream (chat_request (chat_body_of b)) ≡ env.open_stream (messages_request b)
      → let c = chat_request (chat_body_of b) in
        let r = messages_request b in
        (anthropic_request key base stream c ≡ anthropic_request key base stream r)
        × (openai_request key base stream c ≡ openai_request key base stream r)
        × (ollama_request base c ≡ ollama_request base r)
        × (converse_request c ≡ converse_request r)
        × ((handle_chat_completions prices env (some (chat_body_of b)) header uuid now m).0
            ≡ (handle_messages prices env (some b) header uuid now m).0)
  unfolding anthropic_request split_system split_from openai_request ollama_request converse_request
      lift_from chat_request messages_request handle_chat_completions handle_messages
  entrypoints_agree key base stream b header uuid now m h some_messages chat opens =
      (refl, rw h, rw h, rw h, handled)
    where
      handled :
          (handle_chat_completions prices env (some (chat_body_of b)) header uuid now m).0
          ≡ (handle_messages prices env (some b) header uuid now m).0
      handled = elim (Bool-cases (str_eq b.model "")) [
        | inl e ↦ rw e refl
        | inr e ↦
            rw (e, some_messages)
              (serve_same b.stream (chat_request (chat_body_of b)) (messages_request b) header uuid
                now m refl chat opens)
      ]
