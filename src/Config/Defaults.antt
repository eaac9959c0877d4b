-- ===== src/Config/Defaults.antt =====
-- internal/config/config.go and internal/app/bootstrap.go: what a default budget makes of a run.
use riskkernel.Base.{
  ℕ, ◌<◌, ◌≤◌, ◌≡◌, ◌≢◌, refl, sym, ◌∙◌, ap, ℤ, pos, negsuc, ◌≤ℤ◌, is_nil, true, false, Option,
  none, some, List, [], arith, Float64, Unicode, Time, Context,
}
use riskkernel.Governor
use riskkernel.Governor.{new, pre_step, can_proceed, Budget, halt_none, halt_dollar_budget}
use riskkernel.Governor.Trace.{Event}
use riskkernel.Governor.Loops.{started, started-le-budget, last_loop_budget_unenforced}
use riskkernel.Config.{
  FloatText, ConfigError, Config, BudgetConfig, ok, bind_ok, ok_subst, Env, getenv, env_int64,
  env_float, clamp_int32, explicit_budget, safe_budget, load_budget, any_budget_env_set,
  to_governor_budget,
}
use riskkernel.Config.DotEnv.{
  EnvFile, load_port, config_of, load_resolved, after_dot_env, load_dot_env, load,
}

set_of_loops :
    (env : Env) (n : ℕ)
    → env_int64 env "RISKKERNEL_DEFAULT_LOOPS" ≡ ok (pos n)
    → 0 < n
    → any_budget_env_set env ≡ true
unfolding env_int64 any_budget_env_set
set_of_loops env n e p = ground arith

module _ {D : Type 0} ⦃F : Float64 D⦄ ⦃P : FloatText D⦄ where
  explicit-defaulted :
      (env : Env) (b : BudgetConfig D) → explicit_budget env ≡ ok b → b.defaulted ≡ false
  unfolding explicit_budget
  explicit-defaulted env b e =
      let (t, te, e1) = bind_ok (env_int64 env "RISKKERNEL_DEFAULT_TOKENS") _ b e in
      let (d, de, e2) = bind_ok (env_float env "RISKKERNEL_DEFAULT_DOLLARS") _ b e1 in
      let (l, le, e3) = bind_ok (env_int64 env "RISKKERNEL_DEFAULT_LOOPS") _ b e2 in
      let (s, se, e4) = bind_ok (env_int64 env "RISKKERNEL_DEFAULT_SECONDS") _ b e3 in
      ok_subst (λ x. x.defaulted ≡ false) _ b e4 refl

  unset_budget :
      (env : Env) (b : BudgetConfig D)
      → any_budget_env_set env ≡ false
      → load_budget env ≡ ok b
      → ok safe_budget ≡ ok b
  unfolding load_budget
  unset_budget env b q e = rw q at e

  -- Once a loop budget is configured, the run's limit is it, or the last int32.
  explicit-loops :
      (env : Env) (b : BudgetConfig D) (n : ℤ)
      → explicit_budget env ≡ ok b
      → env_int64 env "RISKKERNEL_DEFAULT_LOOPS" ≡ ok n
      → b.loops ≡ clamp_int32 n
  unfolding explicit_budget
  explicit-loops env b n e h =
      let (t, te, e1) = bind_ok (env_int64 env "RISKKERNEL_DEFAULT_TOKENS") _ b e in
      let (d, de, e2) = bind_ok (env_float env "RISKKERNEL_DEFAULT_DOLLARS") _ b e1 in
      let (l, le, e3) = bind_ok (env_int64 env "RISKKERNEL_DEFAULT_LOOPS") _ b e2 in
      let (s, se, e4) = bind_ok (env_int64 env "RISKKERNEL_DEFAULT_SECONDS") _ b e3 in
      ok_subst (λ x. x.loops ≡ clamp_int32 n) _ b e4
        (ok_subst (λ x. clamp_int32 x ≡ clamp_int32 n) n l (sym h ∙ le) refl)

  -- A RISKKERNEL_DEFAULT_LOOPS of 2147483647 or more is accepted, and its limit is not enforced: the
  -- default budget has 2147483647 loops, and a live run with that budget and no time budget that has
  -- used them all is let start one more iteration, with a negative counter.
  pub large_loops_unenforced :
      (env : Env) (b : BudgetConfig D) (n : ℕ) (r : Governor.Run D) (now : Time)
      → load_budget env ≡ ok b
      → env_int64 env "RISKKERNEL_DEFAULT_LOOPS" ≡ ok (pos n)
      → 2147483647 ≤ n
      → r.budget ≡ to_governor_budget b
      → r.budget.seconds ≤ℤ pos 0
      → r.halted ≡ halt_none
      → r.usage.loops ≡ pos 2147483647
      → (b.loops ≡ pos 2147483647)
        × ((pre_step r now).1 ≡ none)
        × ((pre_step r now).0.usage.loops ≡ negsuc 2147483647)
  unfolding load_budget
  large_loops_unenforced env b n r now e h p same s live used =
      let q = set_of_loops env n h (omega arith) in
      let l : b.loops ≡ pos 2147483647 = explicit-loops env b (pos n) (rw q at e) h ∙ clamped n p in
      let (a, c) =
        last_loop_budget_unenforced r now (ap (λ (x : Budget D). x.loops) same ∙ l) s live used in
      (l, a, c)
    where
      clamped : (n : ℕ) → 2147483647 ≤ n → clamp_int32 (pos n) ≡ pos 2147483647
      clamped n p = unfold clamp_int32 in ground arith

  explicit-dollars :
      (env : Env) (b : BudgetConfig D) (x : D)
      → explicit_budget env ≡ ok b
      → env_float env "RISKKERNEL_DEFAULT_DOLLARS" ≡ ok x
      → b.dollars ≡ x
  unfolding explicit_budget
  explicit-dollars env b x e h =
      let (t, te, e1) = bind_ok (env_int64 env "RISKKERNEL_DEFAULT_TOKENS") _ b e in
      let (d, de, e2) = bind_ok (env_float env "RISKKERNEL_DEFAULT_DOLLARS") _ b e1 in
      let (l, le, e3) = bind_ok (env_int64 env "RISKKERNEL_DEFAULT_LOOPS") _ b e2 in
      let (s, se, e4) = bind_ok (env_int64 env "RISKKERNEL_DEFAULT_SECONDS") _ b e3 in
      ok_subst (λ y. y.dollars ≡ x) _ b e4 (ok_subst (λ y. y ≡ x) x d (sym h ∙ de) refl)

  -- A RISKKERNEL_DEFAULT_DOLLARS that `ParseFloat` reads as a number that is neither below nor above
  -- zero, such as "NaN", is accepted, and a live run with the resulting budget is never halted for
  -- its dollars, however much it has spent.
  pub nan_dollars_unlimited :
      (env : Env) (b : BudgetConfig D) (x : D) (r : Governor.Run D) (now : Time)
      → is_nil (getenv env "RISKKERNEL_DEFAULT_DOLLARS") ≡ false
      → P.parse_float (getenv env "RISKKERNEL_DEFAULT_DOLLARS") ≡ some x
      → F.lt_f x F.zero_f ≡ false
      → F.lt_f F.zero_f x ≡ false
      → load_budget env ≡ ok b
      → r.budget ≡ to_governor_budget b
      → r.halted ≡ halt_none
      → (b.dollars ≡ x) × ((can_proceed r now).0.halted ≢ halt_dollar_budget)
  unfolding load_budget env_float any_budget_env_set can_proceed
  nan_dollars_unlimited env b x r now set read low high e same live =
      let q : any_budget_env_set env ≡ true = ground arith in
      let d = explicit-dollars env b x (rw q at e) (rw (set, read, low) refl) in
      let z : F.lt_f F.zero_f r.budget.dollars ≡ false =
        rw (ap (λ (y : Budget D). y.dollars) same ∙ d) high in
      (d, λ h. ground arith)

module _ {D : Type 0} ⦃U : Unicode⦄ ⦃F : Float64 D⦄ ⦃P : FloatText D⦄ where
  resolved_budget :
      (env : Env) (c : Config D) → load_resolved env ≡ ok c → load_budget env ≡ ok c.default_budget
  unfolding load_resolved config_of
  resolved_budget env c e =
      let (p, pe, e1) = bind_ok (load_port env) _ c e in
      let (b, be, e2) = bind_ok (load_budget env) _ c e1 in
      ok_subst (λ x. load_budget env ≡ ok x.default_budget) _ c e2 be

  loaded_budget :
      (p : Option ConfigError × Env) (c : Config D)
      → (after_dot_env p).0 ≡ ok c
      → load_budget (after_dot_env {D = D} p).1 ≡ ok c.default_budget
  loaded_budget (some x, env) c e = cc
  loaded_budget (none, env) c e = resolved_budget env c e

  -- A daemon whose environment, with the .env file in it, sets no RISKKERNEL_DEFAULT_ variable is
  -- bounded: a run that gets its default budget lets at most 100 iterations start, whatever is called
  -- on it, and the budget is marked as defaulted.
  pub unset_is_bounded :
      (file : EnvFile) (env : Env) (c : Config D) (parent : Context) (now real : Time)
      (es : List (Event D))
      → (load file env).0 ≡ ok c
      → any_budget_env_set (load {D = D} file env).1 ≡ false
      → (c.default_budget.defaulted ≡ true)
        × (started es (new parent (to_governor_budget c.default_budget) [] now real) ≤ 100)
  unfolding load
  unset_is_bounded file env c parent now real es e q =
      let b = loaded_budget (load_dot_env file env) c e in
      ok_subst
        (λ x.
          (x.defaulted ≡ true) × (started es (new parent (to_governor_budget x) [] now real) ≤ 100))
        safe_budget c.default_budget (unset_budget _ c.default_budget q b)
        (
          refl,
          (started-le-budget parent (to_governor_budget safe_budget) 100 now real es refl
              (omega arith) (omega arith)).1,
        )
