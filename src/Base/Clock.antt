-- ===== src/Base/Clock.antt =====
-- The parts of Go's `context` and `time` that the program uses. A moment is a number of nanoseconds.
use mathlib.Core.Bool.{Bool, true, false, ◌||◌}
use mathlib.Core.Option.{Option, none, some}
use riskkernel.Base.Bools.{if◌then◌else◌}
use riskkernel.Base.Int.{ℤ, pos, negsuc, ◌-ℤ◌, leb_ℤ, ltb_ℤ}

abbrev pub Time : Type 0
Time = ℤ

-- `time.Second`, in nanoseconds.
abbrev pub second : ℤ
second = pos 1000000000

abbrev pub max_duration : ℤ
max_duration = pos 9223372036854775807

abbrev pub min_duration : ℤ
min_duration = negsuc 9223372036854775807

-- `t.Sub(u)`: the difference, held to the range of a Duration.
unfoldable pub time_sub : Time → Time → ℤ
time_sub t u =
    let d = t -ℤ u in
    if ltb_ℤ max_duration d then max_duration else if ltb_ℤ d min_duration then min_duration else d

-- A context tree: the background, and a context derived from a parent, which is done when it is
-- cancelled, when its deadline has passed, or when its parent is done.
pub data Context : Type 0 where
  background : Context
  derived : Context → Bool → Option Time → Context

abbrev pub is_done : Context → Time → Bool
is_done background t = false
is_done (derived parent cancelled none) t = cancelled || is_done parent t
is_done (derived parent cancelled (some deadline)) t =
    cancelled || leb_ℤ deadline t || is_done parent t

-- What the CancelFunc of a derived context does.
abbrev pub cancel_context : Context → Context
cancel_context background = background
cancel_context (derived parent cancelled deadline) = derived parent true deadline
