-- ===== src/Gateway/Tests.antt =====
-- internal/gateway/gateway.go and internal/provider/registry.go: a concrete governed call.
use riskkernel.Base.{codes, false, ℕ, pos, ◌≡◌, refl, ◌↔◌, true, none, some, [], ◌∷◌, is_some}
use riskkernel.Governor
use riskkernel.Governor.{halt_none}
use riskkernel.Governor.Ceiling.{InTime, BelowLoops, WithinBudget, metered}
use riskkernel.Storage.Sqlite.{sqlite}
use riskkernel.Pricing
use riskkernel.Gateway.{
  Registry, Provider, Response, Moments, new_registry, get_provider, route_model, answered,
  after_chat, governed_call,
}
use riskkernel.Gateway.Calls.{IsCalled, governed_call-IsCalled_iff, answer_is_metered}
use riskkernel.Gateway.Streams.{ChatStream, forwarded_chunks}
use riskkernel.Sample.{float, unicode, engine, usage, governor, live_run, db}

abbrev anthropic : Provider
anthropic = record { name = "anthropic"; streams = true }

abbrev registry : Registry
registry = record { providers = ("anthropic", anthropic) ∷ []; default_name = "anthropic" }

abbrev moments : Moments
moments = record {
  begin_at = pos 21;
  begin_stamp = pos 22;
  check_at = pos 23;
  check_stamp = pos 24;
  record_at = pos 25;
  record_stamp = pos 26;
}

abbrev response : Response
response = record {
  id = "msg-1";
  model = "claude-opus-4-8";
  content = codes "hello";
  finish_reason = "stop";
  prompt_tokens = pos 30;
  completion_tokens = pos 12;
}

registered : new_registry "anthropic" (none ∷ some anthropic ∷ []) ≡ some registry
unfolding new_registry
registered = refl

claude_routes : route_model "Claude-Opus" ≡ "anthropic"
unfolding route_model
claude_routes = refl

governed_call-IsCalled_iff_example :
    IsCalled
      (governed_call none moments registry "claude-opus-4-8" []
        (some response)
        live_run
        (some db)).2
    ↔ (((governor.halted ≡ halt_none) × InTime governor (pos 21) × BelowLoops governor)
        × WithinBudget (Governor.pre_step governor (pos 21)).0 (pos 23)
        × (is_some (get_provider (route_model "claude-opus-4-8") registry) ≡ true))
governed_call-IsCalled_iff_example =
    governed_call-IsCalled_iff none moments registry "claude-opus-4-8" [] (some response) live_run
      (some db)

answer_is_metered_example :
    let (cost, priced) =
      Pricing.cost {D = ℕ} none response.model response.prompt_tokens response.completion_tokens in
    let (r', s', o) =
      after_chat {D = ℕ} none moments (some response) anthropic (pos 3) live_run (some db) in
    (r'.gov.usage ≡ metered (pos 30) (pos 12) cost usage)
    × (o
        ≡ answered response
            (record { step = pos 3; cost = cost; priced = priced; halt = r'.gov.halted }))
answer_is_metered_example =
    answer_is_metered none moments response anthropic (pos 3) live_run (some db)

abbrev stream : ChatStream
stream = record {
  turns =
      record { chunk = codes "data: a"; ended = false; written = true }
      ∷ record { chunk = []; ended = false; written = true }
      ∷ record { chunk = codes "data: b"; ended = true; written = true }
      ∷ [];
  model = "";
  prompt_tokens = pos 30;
  completion_tokens = pos 12;
}

-- The client goes away at the second chunk.
abbrev cut : ChatStream
cut = record stream {
  turns =
      record { chunk = codes "data: a"; ended = false; written = true }
      ∷ record { chunk = codes "data: b"; ended = false; written = false }
      ∷ [];
}

whole_stream : forwarded_chunks stream.turns ≡ codes "data: a" ∷ codes "data: b" ∷ []
unfolding forwarded_chunks
whole_stream = refl

cut_stream : forwarded_chunks cut.turns ≡ codes "data: a" ∷ []
unfolding forwarded_chunks
cut_stream = refl
