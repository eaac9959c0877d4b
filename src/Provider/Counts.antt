-- ===== src/Provider/Counts.antt =====
-- internal/provider/anthropic.go: the token counts that a stream of the Messages API has reported.
use riskkernel.Base.{
  pos, ◌<ℤ◌, ◌≡◌, inl, inr, str_eq, Runes, Bool, Bool-cases, false, Option, none, some, List, [],
  ◌∷◌, arith,
}
use riskkernel.Provider.Sse.{Reported, payload_of}
use riskkernel.Provider.Anthropic.{
  AnthropicJson, Event, StreamUsage, delta, apply_event, sniff_event, sniff_payload,
  anthropic_sniff,
}
use riskkernel.Provider.Pumped.{report}

-- A stream that has counted tokens of both kinds.
pub record HasCounts (st : Reported) : Type 0 where
  pub prompt : pos 0 <ℤ st.prompt_tokens
  pub completion : pos 0 <ℤ st.completion_tokens

module _ ⦃J : AnthropicJson⦄ where
  -- The line does not start a message.
  abbrev pub event_starts : Option Event → Bool
  event_starts none = false
  event_starts (some e) = str_eq e.kind "message_start"

  abbrev pub payload_starts : Option Runes → Bool
  payload_starts none = false
  payload_starts (some p) = event_starts (J.event_of p)

  abbrev pub NoStart : List Runes → Type 0
  NoStart [] = Unit
  NoStart (l ∷ ls) = (payload_starts (payload_of l) ≡ false) × NoStart ls

  delta-HasCounts : (o : Option StreamUsage) (st : Reported) → HasCounts st → HasCounts (delta o st)
  delta-HasCounts none st h = h
  delta-HasCounts (some u) st h = ground arith

  event-HasCounts :
      (o : Option Event) (st : Reported)
      → event_starts o ≡ false
      → HasCounts st
      → HasCounts (sniff_event o st)
  unfolding apply_event
  event-HasCounts none st e h = h
  event-HasCounts (some ev) st e h = rw e (elim (Bool-cases (str_eq ev.kind "message_delta")) [
    | inl q ↦ rw q (delta-HasCounts ev.usage st h)
    | inr q ↦ rw q h
  ])

  payload-HasCounts :
      (o : Option Runes) (st : Reported)
      → payload_starts o ≡ false
      → HasCounts st
      → HasCounts (sniff_payload o st)
  payload-HasCounts none st e h = h
  payload-HasCounts (some p) st e h = event-HasCounts (J.event_of p) st e h

  -- Tokens that a stream of the Messages API has counted are not lost: as long as no further message
  -- starts, both counts stay positive, whatever deltas, broken lines and other events follow.
  pub report-HasCounts :
      (st : Reported) (ls : List Runes)
      → NoStart ls
      → HasCounts st
      → HasCounts (report anthropic_sniff st ls)
  unfolding report anthropic_sniff
  report-HasCounts st [] n h = h
  report-HasCounts st (l ∷ ls) n h =
      report-HasCounts (anthropic_sniff st l) ls n.1 (payload-HasCounts (payload_of l) st n.0 h)
