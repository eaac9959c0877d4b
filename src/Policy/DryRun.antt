-- ===== src/Policy/DryRun.antt =====
-- internal/policy/dryrun.go: the dry run of a bundle against the budgets that the governor enforces
-- and the rules that the approval gate applies.
use riskkernel.Base.{
  pos, ◌≤ℤ◌, ◌≡◌, refl, ◌↔◌, ◌⊎◌, String, str_eq, str_eq_iff, true, not, ◌||◌, List, [], ◌∷◌, map,
  arith, Float64, Time,
}
use riskkernel.Governor
use riskkernel.Governor.{
  Budget, Usage, total_tokens, halt_none, halt_token_budget, HaltError, can_proceed,
}
use riskkernel.Governor.Ceiling.{BelowTokens, BelowDollars}
use riskkernel.Approval
use riskkernel.Policy.{Rule, Bundle, RunData, matches, any_rule, requires_approval, budget_verdict}

module _ {D : Type 0} ⦃F : Float64 D⦄ where
  -- The usage that the recorded totals stand for.
  abbrev pub recorded_usage : RunData D → Usage D
  recorded_usage d = record {
    prompt_tokens = d.totals.prompt_tokens;
    completion_tokens = d.totals.completion_tokens;
    dollars = d.totals.dollars;
    loops = d.run.usage_loops;
  }

  -- A dry run reports no budget halt exactly when the recorded usage is below the token and the
  -- dollar budget in the governor's sense and the recorded loops do not exceed the loop budget.
  pub budget_verdict_iff :
      (b : Budget D) (d : RunData D)
      → (budget_verdict b d ≡ "") ↔ (
          BelowTokens b (recorded_usage d)
          × BelowDollars b (recorded_usage d)
          × ((b.loops ≤ℤ pos 0) ⊎ (d.run.usage_loops ≤ℤ b.loops)))
  unfolding budget_verdict
  budget_verdict_iff b d = (
    λ h. ground (
      arith,
      str_eq_iff "dollar_budget_exceeded" "",
      str_eq_iff "token_budget_exceeded" "",
      str_eq_iff "loop_budget_exceeded" "",
    ),
    λ h. ground arith,
  )

  -- Where both budgets are used up, a dry run names the dollar budget and the governor halts the
  -- same usage for its tokens (if it is live and has no time budget).
  pub verdict_differs :
      (r : Governor.Run D) (d : RunData D) (now : Time)
      → r.halted ≡ halt_none
      → r.budget.seconds ≤ℤ pos 0
      → r.usage ≡ recorded_usage d
      → ¬ BelowTokens r.budget r.usage
      → ¬ BelowDollars r.budget r.usage
      → (budget_verdict r.budget d ≡ "dollar_budget_exceeded")
        × ((can_proceed r now).0.halted ≡ halt_token_budget)
  unfolding budget_verdict can_proceed
  verdict_differs r d now live s e t m = (ground arith, ground arith)

-- The rules of a bundle as the rules that the gate is given.
abbrev pub gate_rules : List Rule → List Approval.Rule
gate_rules = map (λ (r : Rule). record { tool = r.tool; side_effect = r.side_effect })

same_rules :
    (rs : List Rule) (tool se : String)
    → any_rule rs tool se ≡ Approval.any_matches (gate_rules rs) tool se
unfolding any_rule matches Approval.any_matches Approval.matches
same_rules [] tool se = refl
same_rules (r ∷ rs) tool se = rw (same_rules rs tool se)

-- A dry run predicts the gate up to its fail-closed default: under the policy that a gateway makes
-- of the bundle's rules, which is safe by default, a call needs approval exactly when the dry run
-- says so or the call has a side effect.
pub requires_approval_predicts :
    {D : Type 0} (b : Bundle D) (tool se : String)
    → Approval.requires
        (record { require_for = gate_rules b.require_for; default_safe = true })
        tool
        se
      ≡ requires_approval b tool se || not (str_eq se "")
unfolding requires_approval Approval.requires
requires_approval_predicts b tool se = rw (← same_rules b.require_for tool se)
