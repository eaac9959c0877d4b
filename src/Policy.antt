-- ===== src/Policy.antt =====
-- internal/policy/policy.go and dryrun.go: policy bundles from riskkernel.yaml, and what a bundle
-- would have done to a recorded run. Reading and decoding the file are not modelled; a File is what
-- the decoder yields.
pub mod Validate
pub mod DryRun
mod Tests
use riskkernel.Base.{
  ℕ, suc, ℤ, pos, ◌+ℤ◌, wrap64, ltb_ℤ, leb_ℤ, ◌==◌, leb, String, codes, str_eq, Bool, true, false,
  not, ◌&&◌, ◌||◌, Option, none, some, List, [], ◌∷◌, map, length, path_match, is_nil, is_space,
  if◌then◌else◌, Float64, Time,
}
use riskkernel.Governor.{Budget}
use riskkernel.Storage.{ApprovalRule, PolicyRecord, RunRecord, LedgerTotals, ToolCallRecord}

pub record Rule : Type 0 where
  pub tool : String
  pub side_effect : String

-- The budget of a bundle has the fields of a governor's.
pub record Bundle (D : Type 0) : Type 0 where
  pub name : String
  pub budget : Budget D
  pub tool_allowlist : List String
  pub require_for : List Rule

pub record File (D : Type 0) : Type 0 where
  pub schema_version : ℤ
  pub policies : List (Bundle D)

abbrev pub current_schema : ℤ
current_schema = pos 1

-- `Rule.matches`.
unfoldable pub matches : Rule → String → String → Bool
matches r tool se =
    (not (str_eq r.tool "") && str_eq r.tool tool)
    || (not (str_eq r.side_effect "") && path_match (codes r.side_effect) (codes se))

-- The loops of `requiresApproval` and `allows`.
unfoldable pub any_rule : List Rule → String → String → Bool
any_rule [] tool se = false
any_rule (r ∷ rs) tool se = matches r tool se || any_rule rs tool se

unfoldable pub has_tool : List String → String → Bool
has_tool [] tool = false
has_tool (t ∷ ts) tool = str_eq t tool || has_tool ts tool

-- `strings.TrimSpace(s) == ""`.
unfoldable pub all_space : List ℕ → Bool
all_space [] = true
all_space (c ∷ cs) = is_space c && all_space cs

-- What `Validate` reports.
pub data Invalid : Type 0 where
  bad_version : ℤ → Invalid
  no_policies : Invalid
  no_name : ℕ → Invalid
  duplicate_name : String → Invalid
  negative_budget : String → Invalid

abbrev record_rules : List Rule → List ApprovalRule
record_rules = map (λ (r : Rule). record { tool = r.tool; side_effect = r.side_effect })

module _ {D : Type 0} where
  -- `Bundle.requiresApproval`, `Bundle.allows`.
  unfoldable pub requires_approval : Bundle D → String → String → Bool
  requires_approval b tool se = any_rule b.require_for tool se

  unfoldable pub allows : Bundle D → String → Bool
  allows b tool = is_nil b.tool_allowlist || has_tool b.tool_allowlist tool

  -- `File.Bundle`.
  unfoldable pub find_bundle : String → List (Bundle D) → Option (Bundle D)
  find_bundle name [] = none
  find_bundle name (b ∷ bs) = if str_eq b.name name then some b else find_bundle name bs

  -- `Bundle.Record`.
  unfoldable pub bundle_record : Bundle D → Time → PolicyRecord D
  bundle_record b now = record {
    name = b.name;
    budget_tokens = b.budget.tokens;
    budget_dollars = b.budget.dollars;
    budget_loops = b.budget.loops;
    budget_seconds = b.budget.seconds;
    tool_allowlist = b.tool_allowlist;
    approval_rules = record_rules b.require_for;
    created_at = now;
    updated_at = now;
  }

module _ {D : Type 0} ⦃F : Float64 D⦄ where
  abbrev pub is_negative : Budget D → Bool
  is_negative b =
      ltb_ℤ b.tokens (pos 0)
      || (F.lt_f b.dollars F.zero_f || (ltb_ℤ b.loops (pos 0) || ltb_ℤ b.seconds (pos 0)))

  -- The loop of `Validate` from index `i`, with the names seen.
  unfoldable pub validate_from : List (Bundle D) → ℕ → List String → Option Invalid
  unfolding all_space has_tool
  validate_from [] i seen = none
  validate_from (b ∷ bs) i seen =
      let rest = validate_from bs (suc i) (b.name ∷ seen) in
      if all_space (codes b.name)
      then some (no_name i)
      else if has_tool seen b.name
      then some (duplicate_name b.name)
      else if is_negative b.budget
      then some (negative_budget b.name)
      else rest

  -- `File.Validate`.
  unfoldable pub validate : File D → Option Invalid
  validate f =
      if not (leb_ℤ f.schema_version current_schema && leb_ℤ current_schema f.schema_version)
      then some (bad_version f.schema_version)
      else if is_nil f.policies
      then some no_policies
      else validate_from f.policies 0 []

-- `RunData` and `Report`, without the report's formatted detail.
pub record RunData (D : Type 0) : Type 0 where
  pub run : RunRecord D
  pub totals : LedgerTotals D
  pub tool_calls : List ToolCallRecord

pub record Report : Type 0 where
  pub policy : String
  pub run_id : String
  pub budget_halt : String
  pub gated_calls : List ToolCallRecord
  pub blocked_calls : List ToolCallRecord
  pub total_calls : ℕ

module _ {D : Type 0} ⦃F : Float64 D⦄ where
  -- The `switch` of `DryRun`.
  unfoldable pub budget_verdict : Budget D → RunData D → String
  budget_verdict b d =
      let tokens = wrap64 (d.totals.prompt_tokens +ℤ d.totals.completion_tokens) in
      if F.lt_f F.zero_f b.dollars && F.le_f b.dollars d.totals.dollars
      then "dollar_budget_exceeded"
      else if ltb_ℤ (pos 0) b.tokens && leb_ℤ b.tokens tokens
      then "token_budget_exceeded"
      else if ltb_ℤ (pos 0) b.loops && ltb_ℤ b.loops d.run.usage_loops
      then "loop_budget_exceeded"
      else ""

  -- The loop of `DryRun` over the recorded calls: those blocked, and those gated.
  unfoldable pub sort_calls :
      Bundle D → List ToolCallRecord → List ToolCallRecord × List ToolCallRecord
  sort_calls b [] = ([], [])
  sort_calls b (c ∷ cs) =
      let (blocked, gated) = sort_calls b cs in
      (
        if not (allows b c.tool) then c ∷ blocked else blocked,
        if requires_approval b c.tool c.side_effect then c ∷ gated else gated,
      )

  -- `DryRun`.
  unfoldable pub dry_run : Bundle D → RunData D → Report
  unfolding budget_verdict sort_calls
  dry_run b d =
      let (blocked, gated) = sort_calls b d.tool_calls in
      record {
        policy = b.name;
        run_id = d.run.id;
        budget_halt = budget_verdict b.budget d;
        gated_calls = gated;
        blocked_calls = blocked;
        total_calls = length d.tool_calls;
      }
