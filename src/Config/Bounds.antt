-- ===== src/Config/Bounds.antt =====
-- internal/config/config.go: the ranges of what `Load` accepts.
use riskkernel.Base.{
  ℕ, ◌≡◌, refl, ℤ, pos, ◌≤ℤ◌, IsInt64, Unicode, Runes, is_nil, Bool-cases, inl, inr, Option, none,
  some, [], ◌∷◌, arith, Float64, String,
}
use riskkernel.Config.{
  FloatText, ConfigError, Config, BudgetConfig, ok, bind_ok, ok_subst, safe_budget, Env, getenv,
  parse_int, int64_above, int64_below, unsigned, non_negative, env_int64, clamp_int32, int_or,
  env_int_default, env_float, explicit_budget, load_budget, any_budget_env_set,
}
use riskkernel.Config.DotEnv.{
  EnvFile, checked_port, load_port, config_of, load_resolved, after_dot_env, load_dot_env, load,
}

abbrev pub Between : ℤ → ℤ → ℤ → Type 0
Between a b n = (a ≤ℤ n) × (n ≤ℤ b)

above-Between : (o : Option ℕ) (n : ℤ) → int64_above o ≡ some n → IsInt64 n
above-Between none n e = cc
above-Between (some m) n e = ground arith

below-Between : (o : Option ℕ) (n : ℤ) → int64_below o ≡ some n → IsInt64 n
below-Between none n e = cc
below-Between (some m) n e = ground arith

pub parse_int-IsInt64 : (s : Runes) (n : ℤ) → parse_int s ≡ some n → IsInt64 n
unfolding parse_int
parse_int-IsInt64 [] n e = cc
parse_int-IsInt64 (c ∷ s) n e = ground (
  arith,
  above-Between (unsigned s) n,
  below-Between (unsigned s) n,
  above-Between (unsigned (c ∷ s)) n,
)

clamp_int32-Between : (n : ℤ) → pos 0 ≤ℤ n → Between (pos 0) (pos 2147483647) (clamp_int32 n)
unfolding clamp_int32
clamp_int32-Between n e = ground arith

non_negative-Between :
    (key : String) (v : Runes) (o : Option ℤ) (n : ℤ)
    → ((m : ℤ) → o ≡ some m → IsInt64 m)
    → non_negative key v o ≡ ok n
    → Between (pos 0) (pos 9223372036854775807) n
non_negative-Between key v none n h e = cc
non_negative-Between key v (some m) n h e = ground (arith, h m refl)

env_int64-Between :
    (env : Env) (key : String) (n : ℤ)
    → env_int64 env key ≡ ok n
    → Between (pos 0) (pos 9223372036854775807) n
unfolding env_int64
env_int64-Between env key n e = elim (Bool-cases (is_nil (getenv env key))) [
  | inl q ↦ ground arith
  | inr q ↦
      let v = getenv env key in
      non_negative-Between key v (parse_int v) n (parse_int-IsInt64 v) (rw q at e)
]

int_or-positive : (d : ℤ) (o : Option ℤ) → pos 0 ≤ℤ d → pos 0 ≤ℤ int_or d o
int_or-positive d none h = h
int_or-positive d (some n) h = ground arith

env_int_default-positive :
    (env : Env) (key : String) (d : ℤ) → pos 0 ≤ℤ d → pos 0 ≤ℤ env_int_default env key d
unfolding env_int_default
env_int_default-positive env key d h = ground (arith, int_or-positive d)

load_port-Between : (env : Env) (p : ℤ) → load_port env ≡ ok p → Between (pos 1) (pos 65535) p
unfolding load_port
load_port-Between env p e = elim (Bool-cases (is_nil (getenv env "RISKKERNEL_PORT"))) [
  | inl q ↦ ground arith
  | inr q ↦
      let v = getenv env "RISKKERNEL_PORT" in checked_port-Between v (parse_int v) p (rw q at e)
]
  where
    checked_port-Between :
        (v : Runes) (o : Option ℤ) (p : ℤ) → checked_port v o ≡ ok p → Between (pos 1) (pos 65535) p
    checked_port-Between v none p e = cc
    checked_port-Between v (some n) p e = ground arith

module _ {D : Type 0} ⦃F : Float64 D⦄ ⦃P : FloatText D⦄ where
  pub record BudgetInRange (b : BudgetConfig D) : Type 0 where
    pub tokens : Between (pos 0) (pos 9223372036854775807) b.tokens
    pub loops : Between (pos 0) (pos 2147483647) b.loops
    pub seconds : Between (pos 0) (pos 2147483647) b.seconds

  explicit_budget-InRange :
      (env : Env) (b : BudgetConfig D) → explicit_budget env ≡ ok b → BudgetInRange b
  unfolding explicit_budget
  explicit_budget-InRange env b e =
      let (t, te, e1) = bind_ok (env_int64 env "RISKKERNEL_DEFAULT_TOKENS") _ b e in
      let (d, de, e2) = bind_ok (env_float env "RISKKERNEL_DEFAULT_DOLLARS") _ b e1 in
      let (l, le, e3) = bind_ok (env_int64 env "RISKKERNEL_DEFAULT_LOOPS") _ b e2 in
      let (s, se, e4) = bind_ok (env_int64 env "RISKKERNEL_DEFAULT_SECONDS") _ b e3 in
      let ht = env_int64-Between env _ t te in
      let hl = clamp_int32-Between l (env_int64-Between env _ l le).0 in
      let hs = clamp_int32-Between s (env_int64-Between env _ s se).0 in
      ok_subst BudgetInRange _ b e4 record { tokens = ht; loops = hl; seconds = hs }

  load_budget-InRange : (env : Env) (b : BudgetConfig D) → load_budget env ≡ ok b → BudgetInRange b
  unfolding load_budget
  load_budget-InRange env b e = elim (Bool-cases (any_budget_env_set env)) [
    | inl q ↦ explicit_budget-InRange env b (rw q at e)
    | inr q ↦
        ok_subst BudgetInRange safe_budget b (rw q at e)
          record { tokens = omega arith; loops = omega arith; seconds = omega arith }
  ]

module _ {D : Type 0} ⦃U : Unicode⦄ ⦃F : Float64 D⦄ ⦃P : FloatText D⦄ where
  pub record InRange (c : Config D) : Type 0 where
    pub port : Between (pos 1) (pos 65535) c.port
    pub budget : BudgetInRange c.default_budget
    pub approval_timeout : pos 0 ≤ℤ c.mcp.approval_timeout_seconds

  load_resolved-InRange : (env : Env) (c : Config D) → load_resolved env ≡ ok c → InRange c
  unfolding load_resolved config_of
  load_resolved-InRange env c e =
      let (p, pe, e1) = bind_ok (load_port env) _ c e in
      let (b, be, e2) = bind_ok (load_budget env) _ c e1 in
      let hp = load_port-Between env p pe in
      let hb = load_budget-InRange env b be in
      let ht =
        env_int_default-positive env "RISKKERNEL_MCP_APPROVAL_TIMEOUT" (pos 110) (omega arith) in
      ok_subst InRange _ c e2 record { port = hp; budget = hb; approval_timeout = ht }

  after_dot_env-InRange :
      (p : Option ConfigError × Env) (c : Config D) → (after_dot_env p).0 ≡ ok c → InRange c
  after_dot_env-InRange (some x, env) c e = cc
  after_dot_env-InRange (none, env) c e = load_resolved-InRange env c e

  -- Whatever the .env file and the environment hold, a configuration that `Load` returns has a port
  -- from 1 to 65535, a default budget whose tokens, loops and seconds are not negative and fit in
  -- their int64 and int32, and an approval timeout that is not negative.
  pub load-InRange :
      (file : EnvFile) (env : Env) (c : Config D) → (load file env).0 ≡ ok c → InRange c
  unfolding load
  load-InRange file env c e = after_dot_env-InRange (load_dot_env file env) c e
