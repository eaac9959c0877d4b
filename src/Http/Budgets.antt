-- ===== src/Http/Budgets.antt =====
-- internal/httpapi/runs.go: the budget of a run that a client creates.
use riskkernel.Base.{
  ◌≡◌, ◌≢◌, ◌⊎◌, inl, inr, refl, sym, zero, suc, negsuc, ap, ◌∙◌, ◌<ℤ◌, ◌≤ℤ◌, ℤ, pos, ltb_ℤ, String,
  str_eq, true, false, Bool-cases, Option, some, arith, Float64, Time,
}
use riskkernel.Governor
use riskkernel.Governor.{Budget, halt_none, halt_token_budget, can_proceed}
use riskkernel.Storage.{PolicyRecord, ok, Store}
use riskkernel.Runs.{View, view}
use riskkernel.Runs.Manager.{Manager, new_run, create}
use riskkernel.Http.{
  run_created, referenced, CreateBody, or_int, or_float, overlaid, policy_budget, referenced_policy,
  create_with, create_run,
}

-- A limit that is there stays there.
abbrev pub Keeps : ℤ → ℤ → Type 0
Keeps old new = (old ≤ℤ pos 0) ⊎ (pos 0 <ℤ new)

-- The inline number, or the policy's where the inline one is zero.
abbrev pub OverridesInt : ℤ → ℤ → ℤ → Type 0
OverridesInt inline under new =
    ((inline ≡ pos 0) × (new ≡ under)) ⊎ ((inline ≢ pos 0) × (new ≡ inline))

-- The same of an amount, where zero is neither above nor below zero.
abbrev pub OverridesFloat : {D : Type 0} ⦃F : Float64 D⦄ → D → D → D → Type 0
OverridesFloat ⦃F⦄ inline under new =
    (((F.lt_f inline F.zero_f ≡ false) × (F.lt_f F.zero_f inline ≡ false)) × (new ≡ under))
    ⊎ (((F.lt_f inline F.zero_f ≡ true) ⊎ (F.lt_f F.zero_f inline ≡ true)) × (new ≡ inline))

or_int-Overrides : (n under : ℤ) → OverridesInt n under (or_int n under)
or_int-Overrides (pos zero) under = inl (refl, refl)
or_int-Overrides (pos (suc k)) under = inr (λ e. cc, ground arith)
or_int-Overrides (negsuc k) under = inr (λ e. cc, ground arith)

or_float-Overrides :
    {D : Type 0} ⦃F : Float64 D⦄ (x under : D) → OverridesFloat x under (or_float x under)
or_float-Overrides ⦃F⦄ x under = elim (Bool-cases (F.lt_f x F.zero_f)) [
  | inl e ↦ inr (inl e, rw e refl)
  | inr e ↦ elim (Bool-cases (F.lt_f F.zero_f x)) [
    | inl q ↦ inr (inr q, rw (e, q) refl)
    | inr q ↦ inl ((e, q), rw (e, q) refl)
  ]
]

or_int-Keeps : (n under : ℤ) → pos 0 ≤ℤ n → Keeps under (or_int n under)
or_int-Keeps n under h = elim (Bool-cases (ltb_ℤ (pos 0) under)) [
  | inl e ↦ inr (ground arith)
  | inr e ↦ inl (ground arith)
]

same_budget : {D : Type 0} (a b : View D) → run_created a ≡ run_created b → a.budget ≡ b.budget
same_budget a b e = cc

module _ {D S : Type 0} ⦃F : Float64 D⦄ ⦃B : Store D S⦄ where
  found_reference :
      (ref : String) (p : PolicyRecord D) (o : Option S) (s : S)
      → str_eq ref "" ≡ false
      → o ≡ some s
      → B.get_policy ref s ≡ ok p
      → referenced_policy ref o ≡ referenced (some (policy_budget p))
  unfolding referenced_policy
  found_reference ref p o s named store policy = rw (named, store) (rw policy)

  created_under_policy :
      (body : CreateBody D) (b : Budget D) (p : PolicyRecord D) (uuid : String) (now : Time)
      (m : Manager D S) (s : S) (v : View D)
      → str_eq body.policy_ref "" ≡ false
      → m.store ≡ some s
      → B.get_policy body.policy_ref s ≡ ok p
      → body.budget ≡ some b
      → (create_run (some body) uuid now m).1 ≡ run_created v
      → v.budget ≡ overlaid b (policy_budget p)
  unfolding create_run create new_run view
  created_under_policy body b p uuid now m s v named store policy inline e =
      let q = found_reference body.policy_ref p m.store s named store policy in
      let e' = rw (q, create_with) at e in sym (same_budget _ v e') ∙ rw inline

  -- A run that is created under a policy with an inline budget whose counts are not negative keeps the
  -- policy's limits: where the policy limits tokens, loops or seconds, the run's budget does too. Each
  -- of tokens, dollars, loops and seconds is the inline number where that is not zero, and exactly the
  -- policy's where it is.
  pub created_run_limits :
      (body : CreateBody D) (b : Budget D) (p : PolicyRecord D) (uuid : String) (now : Time)
      (m : Manager D S) (s : S) (v : View D)
      → str_eq body.policy_ref "" ≡ false
      → m.store ≡ some s
      → B.get_policy body.policy_ref s ≡ ok p
      → body.budget ≡ some b
      → pos 0 ≤ℤ b.tokens
      → pos 0 ≤ℤ b.loops
      → pos 0 ≤ℤ b.seconds
      → (create_run (some body) uuid now m).1 ≡ run_created v
      → (Keeps p.budget_tokens v.budget.tokens
          × Keeps p.budget_loops v.budget.loops
          × Keeps p.budget_seconds v.budget.seconds)
        × OverridesInt b.tokens p.budget_tokens v.budget.tokens
        × OverridesFloat b.dollars p.budget_dollars v.budget.dollars
        × OverridesInt b.loops p.budget_loops v.budget.loops
        × OverridesInt b.seconds p.budget_seconds v.budget.seconds
  created_run_limits body b p uuid now m s v named store policy inline t l q e =
      let same = created_under_policy body b p uuid now m s v named store policy inline e in
      (
        rw same (
          or_int-Keeps b.tokens p.budget_tokens t,
          or_int-Keeps b.loops p.budget_loops l,
          or_int-Keeps b.seconds p.budget_seconds q,
        ),
        rw same (or_int-Overrides b.tokens p.budget_tokens),
        rw same (or_float-Overrides b.dollars p.budget_dollars),
        rw same (or_int-Overrides b.loops p.budget_loops),
        rw same (or_int-Overrides b.seconds p.budget_seconds),
      )

  -- A negative inline token count lifts the policy's token limit: the run that is created under the
  -- policy has the negative count as its token budget, and the ceiling never halts a live run with
  -- that budget for its tokens.
  pub negative_inline_lifts :
      (body : CreateBody D) (b : Budget D) (p : PolicyRecord D) (uuid : String) (now : Time)
      (m : Manager D S) (s : S) (v : View D) (r : Governor.Run D) (later : Time)
      → str_eq body.policy_ref "" ≡ false
      → m.store ≡ some s
      → B.get_policy body.policy_ref s ≡ ok p
      → body.budget ≡ some b
      → b.tokens <ℤ pos 0
      → (create_run (some body) uuid now m).1 ≡ run_created v
      → r.budget ≡ v.budget
      → r.halted ≡ halt_none
      → (v.budget.tokens ≡ b.tokens) × ((can_proceed r later).0.halted ≢ halt_token_budget)
  unfolding can_proceed
  negative_inline_lifts body b p uuid now m s v r later named store policy inline neg e budget
        live =
      let same = created_under_policy body b p uuid now m s v named store policy inline e in
      let tokens : v.budget.tokens ≡ b.tokens =
        ap (λ (x : Budget D). x.tokens) same ∙ kept b.tokens p.budget_tokens neg in
      let low : r.budget.tokens ≡ b.tokens = ap (λ (x : Budget D). x.tokens) budget ∙ tokens in
      (tokens, λ h. ground (arith, low))
    where
      kept : (n under : ℤ) → n <ℤ pos 0 → or_int n under ≡ n
      kept n under h = ground arith
