-- ===== src/Provider/Adapters.antt =====
-- internal/provider/{anthropic,openai,ollama,bedrock}.go: what the adapters have in common. Each sends
-- the conversation of the request, and answers what the server answered.
use riskkernel.Base.{
  ◌≡◌, ℕ, refl, sym, ap, ◌∙◌, inl, inr, str_eq, Runes, is_nil, Bool, Bool-cases, List, [], ◌∷◌,
  ◌++◌, map, if◌then◌else◌,
}
use mathlib.Core.List.{append-nil, append_assoc}
use riskkernel.Provider.{Message, Request, role_system}
use riskkernel.Provider.Anthropic.{with_system, split_from, split_system, anthropic_request}
use riskkernel.Provider.OpenAi.{openai_request}
use riskkernel.Provider.Ollama.{ollama_request}
use riskkernel.Provider.Bedrock
use riskkernel.Provider.Bedrock.{lift_from, converse_request, ConverseJson, converse}

-- The turns of a conversation, and the texts of its system messages.
abbrev pub turns : List Message → List Message
turns [] = []
turns (m ∷ ms) = let rest = turns ms in if str_eq m.role role_system then rest else m ∷ rest

abbrev pub system_texts : List Message → List Runes
system_texts [] = []
system_texts (m ∷ ms) =
    let rest = system_texts ms in if str_eq m.role role_system then m.content ∷ rest else rest

-- Texts after a text, each after a blank line; and the prompt of texts, which starts with the first that
-- is not empty.
abbrev pub blank_line : Runes
blank_line = 10 ∷ 10 ∷ []

abbrev pub and_texts : List Runes → Runes
and_texts [] = []
and_texts (t ∷ ts) = blank_line ++ (t ++ and_texts ts)

abbrev pub prompt_text : List Runes → Runes
prompt_text [] = []
prompt_text ([] ∷ ts) = prompt_text ts
prompt_text ((c ∷ t) ∷ ts) = (c ∷ t) ++ and_texts ts

-- What the loop of `splitSystem` adds up.
unfoldable pub prompt_of : Runes → List Runes → Runes
prompt_of system [] = system
prompt_of system (t ∷ ts) = prompt_of (with_system system t) ts

abbrev pub as_turn : Message → Bedrock.Turn
as_turn m = record { role = m.role; content = m.content ∷ [] }

prompt_of-and_texts :
    (c : ℕ) (s : Runes) (ts : List Runes) → prompt_of (c ∷ s) ts ≡ (c ∷ s) ++ and_texts ts
unfolding prompt_of
prompt_of-and_texts c s [] = sym (append-nil (c ∷ s))
prompt_of-and_texts c s (t ∷ ts) =
    prompt_of-and_texts c (s ++ (blank_line ++ t)) ts
    ∙ (append_assoc (c ∷ s) (blank_line ++ t) (and_texts ts))

prompt_of-prompt_text : (s : Runes) (ts : List Runes) → prompt_of s ts ≡ prompt_text (s ∷ ts)
unfolding prompt_of
prompt_of-prompt_text (c ∷ s) ts = prompt_of-and_texts c s ts
prompt_of-prompt_text [] [] = refl
prompt_of-prompt_text [] (t ∷ ts) = prompt_of-prompt_text t ts

split_from-turns :
    (system : Runes) (ms : List Message)
    → split_from system ms ≡ (prompt_of system (system_texts ms), turns ms)
unfolding split_from prompt_of
split_from-turns system [] = refl
split_from-turns system (m ∷ ms) = elim (Bool-cases (str_eq m.role role_system)) [
  | inl q ↦ rw q (split_from-turns (with_system system m.content) ms)
  | inr q ↦ rw q (rw (split_from-turns system ms))
]

lift_from-turns :
    (system : List Runes) (ms : List Message)
    → lift_from system ms ≡ (system ++ system_texts ms, map as_turn (turns ms))
unfolding lift_from
lift_from-turns system [] = rw (append-nil system)
lift_from-turns system (m ∷ ms) = elim (Bool-cases (str_eq m.role role_system)) [
  | inl q ↦ rw q (
      lift_from-turns (system ++ (m.content ∷ [])) ms
      ∙ (rw (append_assoc system (m.content ∷ []) (system_texts ms))))
  | inr q ↦ rw q (rw (lift_from-turns system ms))
]

module _ {D : Type 0} where
  -- Every adapter sends the turns of the request's conversation, in order and with their texts. The
  -- Messages API gets them without the system messages, whose texts, after the request's own system
  -- prompt, are joined by blank lines into one prompt that starts with the first that is not empty; the
  -- Converse API gets those texts as blocks, the request's own only if it is not empty; the other two
  -- send all messages as they are, after one with the request's system prompt if it is not empty.
  pub same_conversation :
      (key base : Runes) (stream : Bool) (req : Request D)
      → let a = (anthropic_request key base stream req).body in
        let o = (openai_request key base stream req).body in
        let l = (ollama_request base req).body in
        let b = converse_request req in
        (a.messages ≡ turns req.messages)
        × (o.messages ≡ (
            if is_nil req.system
            then req.messages
            else record { role = role_system; content = req.system } ∷ req.messages))
        × (l.messages ≡ o.messages)
        × (b.messages ≡ map as_turn (turns req.messages))
        × (a.system ≡ prompt_text (req.system ∷ system_texts req.messages))
        × (b.system
            ≡ (if is_nil req.system then [] else req.system ∷ []) ++ system_texts req.messages)
  unfolding anthropic_request openai_request ollama_request converse_request split_system
  same_conversation key base stream req =
      let a = split_from-turns req.system req.messages in
      let b = lift_from-turns (if is_nil req.system then [] else req.system ∷ []) req.messages in
      (
        ap (λ (x : Runes × List Message). x.1) a,
        refl,
        refl,
        ap (λ (x : List Runes × List Bedrock.Turn). x.1) b,
        ap (λ (x : Runes × List Message). x.0) a ∙ prompt_of-prompt_text req.system _,
        ap (λ (x : List Runes × List Bedrock.Turn). x.0) b,
      )
