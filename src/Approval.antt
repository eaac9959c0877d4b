-- ===== src/Approval.antt =====
-- internal/approval/policy.go: which calls need a human's approval.
pub mod Gate
pub mod Rules
pub mod Decisions
pub mod Lost
pub mod Slack
pub mod Signed
pub mod Stale
mod Tests
use riskkernel.Base.{
  String, codes, str_eq, Bool, true, false, not, ◌&&◌, ◌||◌, List, [], ◌∷◌, path_match,
}

pub record Rule : Type 0 where
  pub tool : String
  pub side_effect : String

pub record Policy : Type 0 where
  pub require_for : List Rule
  pub default_safe : Bool

-- `Rule.matches`.
unfoldable pub matches : Rule → String → String → Bool
matches r tool side_effect =
    (not (str_eq r.tool "") && str_eq r.tool tool)
    || (not (str_eq r.side_effect "") && path_match (codes r.side_effect) (codes side_effect))

-- The loop of `Requires`.
unfoldable pub any_matches : List Rule → String → String → Bool
any_matches [] tool side_effect = false
any_matches (r ∷ rules) tool side_effect =
    matches r tool side_effect || any_matches rules tool side_effect

-- `Policy.Requires`.
unfoldable pub requires : Policy → String → String → Bool
requires p tool side_effect =
    any_matches p.require_for tool side_effect || (p.default_safe && not (str_eq side_effect ""))
