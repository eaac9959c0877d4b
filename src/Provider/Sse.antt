-- ===== src/Provider/Sse.antt =====
-- internal/provider/{openai,anthropic}.go and the loop of internal/gateway/gateway.go over Recv: a
-- server-sent event stream that is forwarded line by line while its data lines are read. The body is
-- what the connection yields before it ends, by EOF or an error.
use riskkernel.Base.{
  ℕ, zero, suc, ◌+◌, ◌==◌, ℤ, pos, String, codes, has_prefix, drop_prefix, trim_space, Runes,
  is_nil, Bool, true, false, not, ◌&&◌, Option, none, some, List, [], ◌∷◌, if◌then◌else◌,
}
use riskkernel.Gateway.Streams.{Turn}
use riskkernel.Provider.{ChatError}

-- What `ReadBytes('\n')` answers: the line with its newline, what is left, and whether the
-- connection ended before a newline.
pub record Line : Type 0 where
  pub text : Runes
  pub rest : Runes
  pub ended : Bool

unfoldable pub read_line : Runes → Line
read_line [] = record { text = []; rest = []; ended = true }
read_line (c ∷ s) =
    let l = read_line s in
    if c == 10
    then record { text = 10 ∷ []; rest = s; ended = false }
    else record l { text = c ∷ l.text }

-- How opening a stream ends: with an error, or with the body.
pub data Opened : Type 0 where
  open_failed : ChatError → Opened
  opened : Runes → Opened

-- The model and the usage that a stream has reported so far.
pub record Reported : Type 0 where
  pub model : String
  pub prompt_tokens : ℤ
  pub completion_tokens : ℤ

abbrev pub nothing_reported : Reported
nothing_reported = record { model = ""; prompt_tokens = pos 0; completion_tokens = pos 0 }

-- The payload of a data line.
unfoldable pub payload_of : Runes → Option Runes
payload_of line =
    let t = trim_space line in
    let payload = trim_space (drop_prefix t (codes "data:")) in
    if not (has_prefix t (codes "data:"))
    then none
    else if is_nil payload
    then none
    else some payload

-- `Recv` sniffs a line that is not empty; `sniff` is the adapter's.
abbrev pub sniff_line : (Reported → Runes → Reported) → Reported → Runes → Reported
sniff_line sniff st line = if is_nil line then st else sniff st line

-- A turn before the turns that follow it.
abbrev pub before_turns : Turn → Option (List Turn × Reported) → Option (List Turn × Reported)
before_turns turn none = none
before_turns turn (some (ts, st)) = some (turn ∷ ts, st)

module _ (sniff : Reported → Runes → Reported) (writes : ℕ → Bool) where
  -- The turns of the loop from the turn `i` on, and what has been reported when it ends; `writes i`
  -- tells whether the client takes the chunk of the turn `i`. `none` is out of fuel.
  abbrev pub next_turn :
      Line → ℕ → Reported → Option (List Turn × Reported) → Option (List Turn × Reported)
  next_turn l i st rest =
      let turn : Turn = record { chunk = l.text; ended = l.ended; written = writes i } in
      if not (is_nil l.text) && not (writes i)
      then some (turn ∷ [], st)
      else if l.ended
      then some (turn ∷ [], st)
      else before_turns turn rest

  unfoldable pub pump : ℕ → ℕ → Runes → Reported → Option (List Turn × Reported)
  pump zero i body st = none
  pump (suc fuel) i body st =
      let l = read_line body in
      let st' = sniff_line sniff st l.text in next_turn l i st' (pump fuel (i + 1) l.rest st')
