-- ===== src/Approval/Rules.antt =====
-- internal/approval/policy.go: `Requires` against what it is documented to decide.
use riskkernel.Base.{
  ◌≡◌, ◌≢◌, ◌↔◌, ◌⊎◌, inl, inr, String, codes, str_eq_iff, true, List, [], ◌∷◌, arith, path_match,
}
use riskkernel.Approval.{Rule, Policy, matches, any_matches, requires}

-- A rule matches by its exact tool name or by its side-effect glob, each only if it is set.
abbrev pub Matches : Rule → String → String → Type 0
Matches r tool se =
    ((r.tool ≢ "") × (r.tool ≡ tool))
    ⊎ ((r.side_effect ≢ "") × (path_match (codes r.side_effect) (codes se) ≡ true))

abbrev pub AnyMatches : List Rule → String → String → Type 0
AnyMatches [] tool se = ⊥
AnyMatches (r ∷ rs) tool se = Matches r tool se ⊎ AnyMatches rs tool se

matches_iff : (r : Rule) (tool se : String) → (matches r tool se ≡ true) ↔ Matches r tool se
unfolding matches
matches_iff r tool se = (
  λ h. ground (arith, str_eq_iff r.tool "", str_eq_iff r.tool tool, str_eq_iff r.side_effect ""),
  λ h. ground (arith, str_eq_iff r.tool "", str_eq_iff r.tool tool, str_eq_iff r.side_effect ""),
)

any_matches_there :
    (rs : List Rule) (tool se : String) → any_matches rs tool se ≡ true → AnyMatches rs tool se
unfolding any_matches
any_matches_there [] tool se h = cc
any_matches_there (r ∷ rs) tool se h =
    ground (arith, (matches_iff r tool se).0, any_matches_there rs tool se)

any_matches_back :
    (rs : List Rule) (tool se : String) → AnyMatches rs tool se → any_matches rs tool se ≡ true
unfolding any_matches
any_matches_back [] tool se h = absurd h
any_matches_back (r ∷ rs) tool se (inl m) = rw ((matches_iff r tool se).1 m)
any_matches_back (r ∷ rs) tool se (inr later) = ground (arith, any_matches_back rs tool se later)

-- A call needs approval exactly when some rule matches it, or when the policy is safe by default and
-- the call has a side effect.
pub requires_iff :
    (p : Policy) (tool se : String)
    → (requires p tool se ≡ true)
      ↔ (AnyMatches p.require_for tool se ⊎ ((p.default_safe ≡ true) × (se ≢ "")))
unfolding requires
requires_iff p tool se = (
  λ h. ground (arith, any_matches_there p.require_for tool se, str_eq_iff se ""),
  λ h. ground (arith, any_matches_back p.require_for tool se, str_eq_iff se ""),
)
