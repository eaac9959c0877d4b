-- ===== src/Mcp/Closed.antt =====
-- internal/mcp/gateway.go: no side effect without a decision.
use riskkernel.Base.{
  ◌≡◌, refl, sym, subst, ◌≢◌, ◌↔◌, inl, inr, String, str_eq_iff, Bool, true, false, ◌||◌, Option,
  none, some, is_some, arith, Float64, Bool-cases,
}
use riskkernel.Storage.{PolicyRecord, Store, ApprovalStore, ApprovalRecord, Result, ok, err}
use riskkernel.Approval.{Policy, requires}
use riskkernel.Approval.Decisions.{register-waiter}
use riskkernel.Approval.Gate.{
  Decision, Request, Gate, find_waiter, pending_record, register, await, open_request,
  request_under, after_opening, opening, write_pending,
}
use riskkernel.Runs.{Run}
use riskkernel.Runs.Manager.{Manager}
use riskkernel.Mcp.{
  Gateway, Call, forwarded, bundle_policy, side_effect, allowed_for, needs_approval,
  effective_policy, after_answer, ask, govern,
}

module _ {D S : Type 0} ⦃F : Float64 D⦄ ⦃B : Store D S⦄ ⦃A : ApprovalStore S⦄ (gw : Gateway)
    (c : Call S) (tool args : String) (r : Run D) (bundle : Option (PolicyRecord D)) where
  -- What the gate answers to the call.
  pub gate_answer : Manager D S → Gate S → Option Decision
  gate_answer m g =
      (ask (needs_approval tool (side_effect gw tool) bundle) (effective_policy g.policy bundle) c r
        tool (side_effect gw tool) args m g).1

  abbrev pub Approves : Option Decision → Type 0
  Approves none = ⊥
  Approves (some d) = d.approved ≡ true

  answer_forwards :
      (answer : Option Decision) (se : String) (st : Manager D S × Gate S)
      → ((after_answer answer c r tool se args st).2 ≡ forwarded) ↔ Approves answer
  answer_forwards none se st = (λ h. cc, λ h. absurd h)
  answer_forwards (some d) se st = (λ h. ground arith, λ h. ground arith)

  -- A call is forwarded where the list has the tool and its answer approves it.
  answered_iff :
      (m : Manager D S) (g : Gate S)
      → ((govern gw c tool args r bundle m g).2 ≡ forwarded)
        ↔ ((allowed_for gw tool bundle ≡ true) × Approves (gate_answer m g))
  unfolding govern gate_answer
  answered_iff m g =
      let se = side_effect gw tool in
      let (st, answer) =
        ask (needs_approval tool se bundle) (effective_policy g.policy bundle) c r tool se args m
          g in
      let iff = answer_forwards answer se st in
      elim (Bool-cases (allowed_for gw tool bundle)) [
        | inl e ↦ rw e (λ h. (refl, iff.0 h), λ h. iff.1 h.1)
        | inr e ↦ rw e (λ h. cc, λ h. cc (h.0))
      ]

  -- Others at the gate leave the call's waiter without a decision.
  abbrev pub NobodyDecides : Type 0
  NobodyDecides =
      (g : Gate S)
      → find_waiter c.approval_uuid g.waiters ≡ some none
      → find_waiter c.approval_uuid (c.meanwhile g).waiters ≡ some none

  opened_none :
      (rec : ApprovalRecord) (res : Result (Unit {0})) (g : Gate S)
      → rec.id ≡ c.approval_uuid
      → NobodyDecides
      → (after_opening (opening rec res) c.meanwhile c.prefer g).1 ≡ none
  unfolding await
  opened_none rec (err e) g same quiet = refl
  opened_none rec (ok u) g same quiet =
      let there : find_waiter c.approval_uuid (register rec g).waiters ≡ some none =
        subst (λ i. find_waiter i (register rec g).waiters ≡ some none) same
          (register-waiter rec g) in
      let still : find_waiter rec.id (c.meanwhile (register rec g)).waiters ≡ some none =
        subst (λ i. find_waiter i (c.meanwhile (register rec g)).waiters ≡ some none) (sym same)
          (quiet (register rec g) there) in
      rw still refl

  asked_none :
      (req : Request) (policy : Policy) (g : Gate S)
      → requires policy req.tool req.side_effect ≡ true
      → NobodyDecides
      → (request_under req policy c.approval_uuid c.now c.meanwhile c.prefer g).1 ≡ none
  unfolding request_under open_request
  asked_none req policy g need quiet =
      let rec = pending_record req c.approval_uuid c.now in
      let (res, s') = write_pending rec g.store in
      rw need (opened_none rec res (record g { store = s' }) refl quiet)

  safe_requires :
      (policy : Policy) → policy.default_safe ≡ true → requires policy tool "tool" ≡ true
  unfolding requires
  safe_requires policy h = rw h (ground (arith, str_eq_iff "tool" ""))

  needs_side_effect : (o : Option (PolicyRecord D)) → needs_approval tool "tool" o ≡ true
  unfolding needs_approval
  needs_side_effect none = refl
  needs_side_effect (some p) = refl

  unanswered :
      (b : Bool) (se : String) (policy : Policy) (m : Manager D S) (g : Gate S)
      → b ≡ true
      → se ≡ "tool"
      → policy.default_safe ≡ true
      → NobodyDecides
      → (ask b policy c r tool se args m g).1 ≡ none
  unfolding ask
  unanswered true se policy m g need same safe quiet =
      let req : Request = record {
        run_id = r.id;
        step_index = r.gov.usage.loops;
        tool = tool;
        side_effect = se;
        arguments = args;
      } in
      asked_none req policy (record g { store = m.store })
        (subst (λ e. requires policy tool e ≡ true) (sym same) (safe_requires policy safe)) quiet
  unanswered false se policy m g need same safe quiet = cc

  bundle_is_safe :
      (global : Policy) (o : Option (PolicyRecord D))
      → (is_some o || global.default_safe) ≡ true
      → (effective_policy global o).default_safe ≡ true
  unfolding bundle_policy
  bundle_is_safe global none h = h
  bundle_is_safe global (some p) h = refl

  -- Fail closed: a call of a tool that is not listed as read-only, on which nobody takes a decision at
  -- the gate before its time is up, does not reach the upstream server, if the run has a policy bundle,
  -- whatever its rules say, or the global policy is safe by default.
  pub no_decision_no_call :
      (m : Manager D S) (g : Gate S)
      → side_effect gw tool ≡ "tool"
      → (is_some bundle || g.policy.default_safe) ≡ true
      → NobodyDecides
      → (govern gw c tool args r bundle m g).2 ≢ forwarded
  no_decision_no_call m g se safe quiet h =
      let policy = effective_policy g.policy bundle in
      let need : needs_approval tool (side_effect gw tool) bundle ≡ true =
        subst (λ e. needs_approval tool e bundle ≡ true) (sym se) (needs_side_effect bundle) in
      let e : gate_answer m g ≡ none =
        unfold gate_answer in
        unanswered (needs_approval tool (side_effect gw tool) bundle) (side_effect gw tool) policy m
          g need se (bundle_is_safe g.policy bundle safe) quiet in
      subst (λ o. Approves o) e (((answered_iff m g).0 h).1)

  -- What the gate answers when it is asked about the call, under the bundle's policy or the global one.
  abbrev pub asked : Manager D S → Gate S → Option Decision
  asked m g =
      (request_under
        (record {
          run_id = r.id;
          step_index = r.gov.usage.loops;
          tool = tool;
          side_effect = side_effect gw tool;
          arguments = args;
        })
        (effective_policy g.policy bundle) c.approval_uuid c.now c.meanwhile c.prefer
        (record g { store = m.store })).1
