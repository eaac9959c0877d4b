-- ===== src/Config.antt =====
-- internal/config/config.go: the daemon's configuration, read from the environment. The environment
-- is a function from names to values, texts are lists of code points, and `strconv.ParseFloat` is a
-- parameter. Config/DotEnv.antt has the .env file and `Load`.
pub mod DotEnv
pub mod Bounds
pub mod Defaults
pub mod Kept
pub mod Names
mod Tests
use riskkernel.Base.{
  ◌≡◌, refl, subst, ℕ, ◌+◌, ◌-◌, ◌*◌, ◌==◌, ltb, leb, ℤ, pos, sub_ℕ, ltb_ℤ, half32, half64, String,
  codes, codes_eq, to_lower, Unicode, has_prefix, Runes, is_nil, trim_space, cut, split, Bool, true,
  false, not, ◌&&◌, ◌||◌, Option, none, some, List, [], ◌∷◌, if◌then◌else◌, Float64,
}
use riskkernel.Governor.{Budget}

-- `strconv.ParseFloat`, with `none` for an error.
pub record FloatText (D : Type 0) : Type 0 where
  pub parse_float : Runes → Option D

pub record MemoryConfig : Type 0 where
  pub dir : Runes
  pub embeddings : Bool

pub record McpConfig : Type 0 where
  pub upstream : Runes
  pub allowlist : List Runes
  pub read_only : List Runes
  pub approval_timeout_seconds : ℤ

pub record ApprovalConfig : Type 0 where
  pub default_safe : Bool
  pub webhook_url : Runes
  pub slack_bot_token : Runes
  pub slack_channel : Runes
  pub slack_signing_secret : Runes

pub record OtelConfig : Type 0 where
  pub endpoint : Runes
  pub protocol : Runes
  pub insecure : Bool
  pub service_name : Runes
  pub headers : List (Runes × Runes)
  pub ingress_enabled : Bool

pub record BudgetConfig (D : Type 0) : Type 0 where
  pub tokens : ℤ
  pub dollars : D
  pub loops : ℤ
  pub seconds : ℤ
  pub defaulted : Bool

pub record Config (D : Type 0) : Type 0 where
  pub port : ℤ
  pub data_dir : Runes
  pub database_url : Runes
  pub api_token : Runes
  pub default_provider : Runes
  pub anthropic_api_key : Runes
  pub openai_api_key : Runes
  pub anthropic_base_url : Runes
  pub openai_base_url : Runes
  pub ollama_base_url : Runes
  pub bedrock_base_url : Runes
  pub aws_access_key_id : Runes
  pub aws_secret_access_key : Runes
  pub aws_session_token : Runes
  pub aws_region : Runes
  pub default_budget : BudgetConfig D
  pub pricing_file : Runes
  pub policy_file : Runes
  pub otel : OtelConfig
  pub approval : ApprovalConfig
  pub mcp : McpConfig
  pub memory : MemoryConfig

-- What `Load` and its readers report.
pub data ConfigError : Type 0 where
  bad_port : Runes → ConfigError
  bad_integer : String → Runes → ConfigError
  bad_number : String → Runes → ConfigError
  no_equals : ℕ → ConfigError
  empty_key : ℕ → ConfigError
  bad_setenv open_failed read_failed : ConfigError

pub data Result {ℓ} (A : Type ℓ) : Type ℓ where
  ok : A → Result A
  err : ConfigError → Result A

module _ {ℓ ℓ'} {A : Type ℓ} {B : Type ℓ'} where
  infixl 5 ◌>>=◌
  abbrev pub ◌>>=◌ : Result A → (A → Result B) → Result B
  ok a >>= f = f a
  err e >>= f = err e

  pub bind_ok :
      (r : Result A) (f : A → Result B) (b : B)
      → r >>= f ≡ ok b
      → (a : A) × (r ≡ ok a) × (f a ≡ ok b)
  bind_ok (ok a) f b e = (a, refl, e)
  bind_ok (err x) f b e = cc

pub ok_subst : {A : Type 0} (Q : A → Type 0) (x y : A) → ok x ≡ ok y → Q x → Q y
ok_subst Q x y e q = subst Q (cc) q

abbrev pub Env : Type 0
Env = Runes → Option Runes

abbrev pub or_empty : Option Runes → Runes
or_empty none = []
or_empty (some v) = v

-- `os.Getenv`.
unfoldable pub getenv : Env → String → Runes
getenv env key = or_empty (env (codes key))

-- `getenvDefault`.
unfoldable pub getenv_default : Env → String → Runes → Runes
getenv_default env key default = let v = getenv env key in if is_nil v then default else v

-- The digits of a number from `n` on.
unfoldable pub digits_from : ℕ → Runes → Option ℕ
digits_from n [] = some n
digits_from n (c ∷ s) =
    let rest = digits_from (n * 10 + (c - b'0')) s in
    if leb b'0' c && leb c b'9' then rest else none

abbrev pub unsigned : Runes → Option ℕ
unsigned [] = none
unsigned (c ∷ s) = digits_from 0 (c ∷ s)

abbrev pub int64_above : Option ℕ → Option ℤ
int64_above none = none
int64_above (some n) = if ltb n half64 then some (pos n) else none

abbrev pub int64_below : Option ℕ → Option ℤ
int64_below none = none
int64_below (some n) = if leb n half64 then some (sub_ℕ 0 n) else none

-- `strconv.ParseInt(s, 10, 64)`, which is `strconv.Atoi` where int has 64 bits.
unfoldable pub parse_int : Runes → Option ℤ
unfolding digits_from
parse_int [] = none
parse_int (c ∷ s) =
    if c == b'+'
    then int64_above (unsigned s)
    else if c == b'-'
    then int64_below (unsigned s)
    else int64_above (unsigned (c ∷ s))

-- `envInt64`.
abbrev pub non_negative : String → Runes → Option ℤ → Result ℤ
non_negative key v none = err (bad_integer key v)
non_negative key v (some n) = if ltb_ℤ n (pos 0) then err (bad_integer key v) else ok n

unfoldable pub env_int64 : Env → String → Result ℤ
env_int64 env key =
    let v = getenv env key in if is_nil v then ok (pos 0) else non_negative key v (parse_int v)

-- `clampInt32`.
unfoldable pub clamp_int32 : ℤ → ℤ
clamp_int32 v = if ltb_ℤ (pos 2147483647) v then pos 2147483647 else v

-- `envIntDefault`.
abbrev pub int_or : ℤ → Option ℤ → ℤ
int_or default none = default
int_or default (some n) = if ltb_ℤ n (pos 0) then default else n

unfoldable pub env_int_default : Env → String → ℤ → ℤ
env_int_default env key default =
    let v = trim_space (getenv env key) in
    if is_nil v then default else int_or default (parse_int v)

-- `envBoolDefault`.
unfoldable pub env_bool_default : ⦃U : Unicode⦄ → Env → String → Bool → Bool
env_bool_default env key default =
    let v = to_lower (trim_space (getenv env key)) in
    if is_nil v
    then default
    else codes_eq v (codes "true") || (codes_eq v (codes "1") || codes_eq v (codes "yes"))

-- The loop of `splitList`: the parts that are not blank, trimmed.
unfoldable pub trimmed_parts : List Runes → List Runes
trimmed_parts [] = []
trimmed_parts (part ∷ parts) =
    let rest = trimmed_parts parts in let p = trim_space part in if is_nil p then rest else p ∷ rest

-- `splitList`.
unfoldable pub split_list : Runes → List Runes
split_list v = if is_nil (trim_space v) then [] else trimmed_parts (split b',' v)

-- `out[k] = v`, on a map with one entry for each key.
unfoldable pub put_header : Runes → Runes → List (Runes × Runes) → List (Runes × Runes)
put_header k v [] = (k, v) ∷ []
put_header k v ((j, w) ∷ m) =
    let rest = put_header k v m in if codes_eq j k then (k, v) ∷ m else (j, w) ∷ rest

abbrev pub add_pair : Option (Runes × Runes) → List (Runes × Runes) → List (Runes × Runes)
add_pair none out = out
add_pair (some (k, v)) out =
    if is_nil (trim_space k) then out else put_header (trim_space k) (trim_space v) out

-- The loop of `parseOTLPHeaders`.
unfoldable pub add_headers : List Runes → List (Runes × Runes) → List (Runes × Runes)
add_headers [] out = out
add_headers (pair ∷ pairs) out = add_headers pairs (add_pair (cut b'=' pair) out)

-- `parseOTLPHeaders`; no headers is the nil map.
unfoldable pub parse_otlp_headers : Runes → List (Runes × Runes)
parse_otlp_headers s =
    let t = trim_space s in if is_nil t then [] else add_headers (split b',' t) []

-- `strings.EqualFold(s, "true")`: its letters have no wide form.
abbrev fold_ascii : Runes → Runes
fold_ascii [] = []
fold_ascii (c ∷ s) = (if leb b'A' c && leb c b'Z' then c + 32 else c) ∷ fold_ascii s

abbrev first_set : Runes → Runes → Runes
first_set a b = if is_nil a then b else a

-- `loadOTel`.
unfoldable pub load_otel : ⦃U : Unicode⦄ → Env → OtelConfig
load_otel env =
    let endpoint =
      first_set (getenv env "OTEL_EXPORTER_OTLP_TRACES_ENDPOINT")
        (getenv env "OTEL_EXPORTER_OTLP_ENDPOINT") in
    let headers =
      first_set (getenv env "OTEL_EXPORTER_OTLP_TRACES_HEADERS")
        (getenv env "OTEL_EXPORTER_OTLP_HEADERS") in
    record {
      endpoint = endpoint;
      protocol = getenv_default env "OTEL_EXPORTER_OTLP_PROTOCOL" (codes "grpc");
      insecure =
          codes_eq (fold_ascii (getenv env "OTEL_EXPORTER_OTLP_INSECURE")) (codes "true")
          || has_prefix endpoint (codes "http://");
      service_name = getenv_default env "OTEL_SERVICE_NAME" (codes "riskkernel");
      headers = parse_otlp_headers headers;
      ingress_enabled = env_bool_default env "RISKKERNEL_OTEL_INGRESS_ENABLED" false;
    }

-- `anyBudgetEnvSet`.
unfoldable pub any_budget_env_set : Env → Bool
any_budget_env_set env =
    not (is_nil (getenv env "RISKKERNEL_DEFAULT_TOKENS"))
    || (not (is_nil (getenv env "RISKKERNEL_DEFAULT_DOLLARS"))
        || (not (is_nil (getenv env "RISKKERNEL_DEFAULT_LOOPS"))
            || not (is_nil (getenv env "RISKKERNEL_DEFAULT_SECONDS"))))

module _ {D : Type 0} ⦃F : Float64 D⦄ ⦃P : FloatText D⦄ where
  abbrev pub non_negative_float : String → Runes → Option D → Result D
  non_negative_float key v none = err (bad_number key v)
  non_negative_float key v (some f) = if F.lt_f f F.zero_f then err (bad_number key v) else ok f

  -- `envFloat`.
  unfoldable pub env_float : Env → String → Result D
  env_float env key =
      let v = getenv env key in
      if is_nil v then ok F.zero_f else non_negative_float key v (P.parse_float v)

  abbrev pub safe_budget : BudgetConfig D
  safe_budget = record {
    tokens = pos 0;
    dollars = F.decimal 500 2;
    loops = pos 100;
    seconds = pos 3600;
    defaulted = true;
  }

  -- `loadBudget` once a variable is set.
  unfoldable pub explicit_budget : Env → Result (BudgetConfig D)
  explicit_budget env = do
    tokens ← env_int64 env "RISKKERNEL_DEFAULT_TOKENS"
    dollars ← env_float env "RISKKERNEL_DEFAULT_DOLLARS"
    loops ← env_int64 env "RISKKERNEL_DEFAULT_LOOPS"
    seconds ← env_int64 env "RISKKERNEL_DEFAULT_SECONDS"
    ok record {
      tokens = tokens;
      dollars = dollars;
      loops = clamp_int32 loops;
      seconds = clamp_int32 seconds;
      defaulted = false;
    }

  -- `loadBudget`.
  unfoldable pub load_budget : Env → Result (BudgetConfig D)
  unfolding explicit_budget
  load_budget env = if any_budget_env_set env then explicit_budget env else ok safe_budget

-- `toGovernorBudget` of internal/app/bootstrap.go.
abbrev pub to_governor_budget : {D : Type 0} → BudgetConfig D → Budget D
to_governor_budget b = record {
  tokens = b.tokens;
  dollars = b.dollars;
  loops = b.loops;
  seconds = b.seconds;
}
