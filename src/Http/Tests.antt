-- ===== src/Http/Tests.antt =====
-- internal/httpapi/server.go and runs.go: concrete requests.
use riskkernel.Base.{
  ℕ, ◌≡◌, ◌≢◌, refl, inl, inr, String, pos, negsuc, codes, str_eq, Option, Runes, true, false, none,
  some, List, [], ◌∷◌, arith, if◌then◌else◌,
}
use riskkernel.Governor
use riskkernel.Governor.{Budget, can_proceed, halt_token_budget}
use riskkernel.Storage.{PolicyRecord, ApprovalRecord, ok}
use riskkernel.Storage.Sqlite.{
  Db, upsert_policy, list_policies, sqlite, sqlite_approvals, get_policy, get_approval,
}
use riskkernel.Runs.{View, view}
use riskkernel.Runs.Manager.{Manager, new_run, create}
use riskkernel.Http.{
  problem, run_created, CreateBody, overlaid, policy_budget, authorized, referenced_policy,
  create_run, handle_begin_step, handle_cancel,
}
use riskkernel.Http.Budgets.{
  Keeps, OverridesInt, OverridesFloat, created_run_limits, negative_inline_lifts,
}
use riskkernel.Http.Kill.{Request, begins, cancels, creates, handle_all, cancelled_run_refuses}
use riskkernel.Approval.Gate.{Gate}
use riskkernel.Policy.{all_space}
use riskkernel.Http.Approvals.{ApprovalDecision, find_target, read_approval, handle_approve}
use riskkernel.Http.Policies.{
  PolicyBody, PolicyReply, policy_shown, policies_listed, policy_view, register_policy,
  handle_list_policies, handle_get_policy, sqlite_policies,
}
use riskkernel.Http.Registered.{budget_of, registered_view, stated, registered_policy_governs}
use riskkernel.Http.Owned.{approve_leaves_others}
use riskkernel.Sample.{float, engine, budget, governor, live_run, db}

abbrev strict : PolicyRecord ℕ
strict = record {
  name = "strict";
  budget_tokens = pos 500;
  budget_dollars = 1000000;
  budget_loops = pos 5;
  budget_seconds = pos 60;
  tool_allowlist = [];
  approval_rules = [];
  created_at = pos 1;
  updated_at = pos 1;
}

abbrev store : Db ℕ
store = record db { policies = strict ∷ [] }

abbrev manager : Manager ℕ (Db ℕ)
manager = record { default_budget = budget; store = some store; runs = ("run-1", live_run) ∷ [] }

abbrev smaller : Budget ℕ
smaller = record { tokens = pos 0; dollars = 0; loops = pos 2; seconds = pos 0 }

abbrev negative : Budget ℕ
negative = record { tokens = negsuc 0; dollars = 0; loops = pos 0; seconds = pos 0 }

abbrev asking : Budget ℕ → CreateBody ℕ
asking b = record { name = "agent"; budget = some b; policy_ref = "strict"; metadata = [] }

abbrev created : Budget ℕ → View ℕ
created b = view (record (new_run "run-9" "agent" (overlaid b (policy_budget strict)) [] (pos 40)) {
  policy_ref = "strict";
})

stored : get_policy "strict" store ≡ ok strict
unfolding get_policy
stored = refl

creates_smaller :
    (create_run (some (asking smaller)) "run-9" (pos 40) manager).1 ≡ run_created (created smaller)
unfolding create_run referenced_policy create get_policy
creates_smaller = refl

creates_negative :
    (create_run (some (asking negative)) "run-9" (pos 40) manager).1
    ≡ run_created (created negative)
unfolding create_run referenced_policy create get_policy
creates_negative = refl

created_run_limits_example :
    (Keeps (pos 500) (created smaller).budget.tokens
      × Keeps (pos 5) (created smaller).budget.loops
      × Keeps (pos 60) (created smaller).budget.seconds)
    × OverridesInt smaller.tokens (pos 500) (created smaller).budget.tokens
    × OverridesFloat smaller.dollars strict.budget_dollars (created smaller).budget.dollars
    × OverridesInt smaller.loops (pos 5) (created smaller).budget.loops
    × OverridesInt smaller.seconds (pos 60) (created smaller).budget.seconds
created_run_limits_example =
    created_run_limits (asking smaller) smaller strict "run-9" (pos 40) manager store
      (created smaller) refl refl stored refl (omega arith) (omega arith) (omega arith)
      creates_smaller

abbrev lifted : Governor.Run ℕ
lifted = record governor { budget = (created negative).budget }

negative_inline_lifts_example :
    ((created negative).budget.tokens ≡ negsuc 0)
    × ((can_proceed lifted (pos 50)).0.halted ≢ halt_token_budget)
negative_inline_lifts_example =
    negative_inline_lifts (asking negative) negative strict "run-9" (pos 40) manager store
      (created negative) lifted (pos 50) refl refl stored refl (omega arith) creates_negative refl
      refl

abbrev token : Runes
token = codes "t0ken"

not_bearer : authorized token (codes "Bearer  t0ken") ≡ false
unfolding authorized
not_bearer = refl

abbrev requests : List (Request ℕ)
requests =
    begins "run-1" (pos 51) (pos 51)
    ∷ creates (some (asking smaller)) "run-9" (pos 52)
    ∷ cancels "run-1" (pos 53)
    ∷ []

cancelled_run_refuses_example :
    (handle_begin_step "run-1"
      (pos 54)
      (pos 54)
      (handle_all requests (handle_cancel "run-1" (pos 50) manager).0)).1
    ≡ problem 402 "cancelled"
cancelled_run_refuses_example =
    cancelled_run_refuses "run-1" live_run manager requests (pos 54) (pos 50) (pos 54) refl refl
      (refl, tt)

abbrev waiting_for : String → String → ApprovalRecord
waiting_for aid rid = record {
  id = aid;
  run_id = rid;
  step_index = pos 1;
  tool = "shell";
  side_effect = "tool";
  arguments = "{}";
  status = "pending";
  reason = "";
  decided_by = "";
  created_at = pos 1;
  decided_at = none;
}

abbrev two_waiting : Db ℕ
two_waiting = record db { approvals = waiting_for "ap-1" "run-1" ∷ waiting_for "ap-2" "run-2" ∷ [] }

abbrev gate : Gate (Db ℕ)
gate = record {
  store = some two_waiting;
  policy = record { require_for = []; default_safe = true };
  notifier = false;
  waiters = [];
  notified = [];
}

abbrev approving : String → ApprovalDecision
approving aid = record { approval_id = aid; decision = "approve"; reason = ""; decided_by = "ann" }

wrong_run :
    (handle_approve {D = ℕ} "run-1" (some (approving "ap-2")) (pos 9) gate).1
    ≡ problem 400 "bad_request"
unfolding handle_approve find_target get_approval
wrong_run = refl

approve_leaves_others_example :
    read_approval "ap-2" (handle_approve {D = ℕ} "run-1" (some (approving "")) (pos 9) gate).0.store
    ≡ read_approval "ap-2" (some two_waiting)
approve_leaves_others_example =
    approve_leaves_others "run-1" "ap-2" (some (approving "")) (pos 9) gate two_waiting refl
      (inr refl, (inl refl, tt))

abbrev looser : PolicyBody ℕ
looser = record {
  name = "strict";
  budget = some (record budget { loops = negsuc 0 });
  tool_allowlist = "search" ∷ [];
  approval_policy = none;
}

abbrev plain : CreateBody ℕ
plain = record { name = "agent"; budget = none; policy_ref = "strict"; metadata = [] }

abbrev after_looser : Option (Db ℕ) × PolicyReply ℕ
after_looser = register_policy (some looser) (pos 70) (some store)

-- The row keeps its creation time.
listed_after :
    handle_list_policies after_looser.0
    ≡ policies_listed (
        policy_view (record {
          name = "strict";
          budget_tokens = budget.tokens;
          budget_dollars = budget.dollars;
          budget_loops = negsuc 0;
          budget_seconds = budget.seconds;
          tool_allowlist = "search" ∷ [];
          approval_rules = [];
          created_at = pos 1;
          updated_at = pos 70;
        })
        ∷ [])
unfolding handle_list_policies register_policy list_policies upsert_policy all_space
listed_after = refl

strict_named : all_space (codes "strict") ≡ false
unfolding all_space
strict_named = refl

registered_policy_governs_example :
    let row = registered_view looser (pos 70) store in
    (after_looser.1 ≡ policy_shown row)
    × (handle_get_policy "strict" after_looser.0 ≡ (
        if str_eq "strict" "strict"
        then policy_shown row
        else handle_get_policy "strict" (some store)))
    × (budget_of
          (create_run (some plain) "run-9" (pos 80) (record manager { store = after_looser.0 })).1
        ≡ some (stated looser.budget))
registered_policy_governs_example =
    registered_policy_governs looser (pos 70) store "strict" manager plain "run-9" (pos 80)
      strict_named refl refl
