-- ===== src/Config/DotEnv.antt =====
-- internal/config/config.go: the .env file and `Load`. Opening and scanning the file is not modelled:
-- a file is missing, cannot be opened, or yields lines and then ends or fails.
use riskkernel.Base.{
  ℕ, suc, ◌==◌, ℤ, pos, ltb_ℤ, codes, codes_eq, Unicode, has_prefix, drop_prefix, Runes, is_nil,
  trim_space, cut, Bool, true, false, ◌&&◌, ◌||◌, Option, none, some, List, [], ◌∷◌, if◌then◌else◌,
  Float64,
}
use riskkernel.Config.{
  FloatText, ConfigError, bad_port, no_equals, empty_key, bad_setenv, open_failed, read_failed,
  Config, BudgetConfig, Result, ok, err, ◌>>=◌, Env, getenv, getenv_default, parse_int,
  env_int_default, env_bool_default, split_list, load_otel, load_budget,
}

pub data EnvFile : Type 0 where
  missing unreadable : EnvFile
  scanned : List Runes → Bool → EnvFile

abbrev has_rune : ℕ → Runes → Bool
has_rune c [] = false
has_rune c (x ∷ s) = x == c || has_rune c s

-- `os.LookupEnv` finds the key.
abbrev pub is_present : Env → Runes → Bool
is_present env key = elim (env key) [ none ↦ false | some v ↦ true ]

-- `os.Setenv`, and its error on a name or a value that the system does not take.
abbrev pub put_env : Runes → Runes → Env → Env
put_env key val env = λ (j : Runes). if codes_eq key j then some val else env j

unfoldable pub refused : Runes → Runes → Bool
refused key val = is_nil key || (has_rune b'=' key || (has_rune 0 key || has_rune 0 val))

unfoldable pub setenv : Runes → Runes → Env → Option ConfigError × Env
unfolding refused
setenv key val env = if refused key val then (some bad_setenv, env) else (none, put_env key val env)

abbrev last_is : ℕ → Runes → Bool
last_is q [] = false
last_is q (c ∷ []) = c == q
last_is q (c ∷ d ∷ s) = last_is q (d ∷ s)

abbrev drop_last : Runes → Runes
drop_last [] = []
drop_last (c ∷ []) = []
drop_last (c ∷ d ∷ s) = c ∷ drop_last (d ∷ s)

-- `unquote`.
unfoldable pub unquote : Runes → Runes
unquote [] = []
unquote (c ∷ s) =
    if (c == b'"' && last_is b'"' s) || (c == b'\'' && last_is b'\'' s) then drop_last s else c ∷ s

-- `strings.TrimPrefix(line, "export ")`.
abbrev drop_export : Runes → Runes
drop_export s = if has_prefix s (codes "export ") then drop_prefix s (codes "export ") else s

-- What a line says: nothing, a key and its value, or an error; `n` is its number.
pub data Line : Type 0 where
  blank : Line
  assigns : Runes → Runes → Line
  malformed : ConfigError → Line

abbrev line_of_pair : ℕ → Option (Runes × Runes) → Line
line_of_pair n none = malformed (no_equals n)
line_of_pair n (some (k, v)) =
    if is_nil (trim_space k)
    then malformed (empty_key n)
    else assigns (trim_space k) (unquote (trim_space v))

unfoldable pub read_line : ℕ → Runes → Line
read_line n text =
    let line = trim_space text in
    if is_nil line || has_prefix line (codes "#")
    then blank
    else line_of_pair n (cut b'=' (drop_export line))

-- The rest of the loop's body.
unfoldable pub set_line : Line → Env → Option ConfigError × Env
set_line blank env = (none, env)
set_line (malformed e) env = (some e, env)
set_line (assigns key val) env = if is_present env key then (none, env) else setenv key val env

abbrev pub unless_failed :
    Option ConfigError × Env → (Env → Option ConfigError × Env) → Option ConfigError × Env
unless_failed (none, env) f = f env
unless_failed (some e, env) f = (some e, env)

-- The loop of `loadDotEnv`, from line number `n`, and the scanner's error behind it.
unfoldable pub set_lines : ℕ → List Runes → Bool → Env → Option ConfigError × Env
unfolding read_line set_line
set_lines n [] failed env = (if failed then some read_failed else none, env)
set_lines n (text ∷ texts) failed env =
    unless_failed (set_line (read_line n text) env) (set_lines (suc n) texts failed)

-- `loadDotEnv`: the environment that it leaves, also where it reports an error.
unfoldable pub load_dot_env : EnvFile → Env → Option ConfigError × Env
load_dot_env missing env = (none, env)
load_dot_env unreadable env = (some open_failed, env)
load_dot_env (scanned texts failed) env = set_lines 1 texts failed env

-- The port of `Load`.
abbrev pub checked_port : Runes → Option ℤ → Result ℤ
checked_port v none = err (bad_port v)
checked_port v (some p) = if ltb_ℤ p (pos 1) || ltb_ℤ (pos 65535) p then err (bad_port v) else ok p

unfoldable pub load_port : Env → Result ℤ
load_port env =
    let v = getenv env "RISKKERNEL_PORT" in
    if is_nil v then ok (pos 7070) else checked_port v (parse_int v)

module _ {D : Type 0} ⦃U : Unicode⦄ ⦃F : Float64 D⦄ ⦃P : FloatText D⦄ where
  unfoldable pub config_of : Env → ℤ → BudgetConfig D → Config D
  config_of env port budget = record {
    port = port;
    data_dir = getenv_default env "RISKKERNEL_DATA_DIR" (codes "./data");
    database_url = getenv env "RISKKERNEL_DATABASE_URL";
    api_token = getenv env "RISKKERNEL_API_TOKEN";
    default_provider = getenv_default env "RISKKERNEL_DEFAULT_PROVIDER" (codes "anthropic");
    anthropic_api_key = getenv env "ANTHROPIC_API_KEY";
    openai_api_key = getenv env "OPENAI_API_KEY";
    anthropic_base_url = getenv env "RISKKERNEL_ANTHROPIC_BASE_URL";
    openai_base_url = getenv env "RISKKERNEL_OPENAI_BASE_URL";
    ollama_base_url = getenv env "RISKKERNEL_OLLAMA_BASE_URL";
    bedrock_base_url = getenv env "RISKKERNEL_BEDROCK_BASE_URL";
    aws_access_key_id = getenv env "AWS_ACCESS_KEY_ID";
    aws_secret_access_key = getenv env "AWS_SECRET_ACCESS_KEY";
    aws_session_token = getenv env "AWS_SESSION_TOKEN";
    aws_region = getenv_default env "AWS_REGION" (getenv env "AWS_DEFAULT_REGION");
    default_budget = budget;
    pricing_file = getenv env "RISKKERNEL_PRICING_FILE";
    policy_file = getenv env "RISKKERNEL_POLICY_FILE";
    otel = load_otel env;
    approval = record {
      default_safe = env_bool_default env "RISKKERNEL_APPROVAL_DEFAULT_SAFE" true;
      webhook_url = getenv env "RISKKERNEL_APPROVAL_WEBHOOK";
      slack_bot_token = getenv env "RISKKERNEL_APPROVAL_SLACK_BOT_TOKEN";
      slack_channel = getenv env "RISKKERNEL_APPROVAL_SLACK_CHANNEL";
      slack_signing_secret = getenv env "RISKKERNEL_APPROVAL_SLACK_SIGNING_SECRET";
    };
    mcp = record {
      upstream = getenv env "RISKKERNEL_MCP_UPSTREAM";
      allowlist = split_list (getenv env "RISKKERNEL_MCP_ALLOWLIST");
      read_only = split_list (getenv env "RISKKERNEL_MCP_READONLY");
      approval_timeout_seconds = env_int_default env "RISKKERNEL_MCP_APPROVAL_TIMEOUT" (pos 110);
    };
    memory = record {
      dir = getenv_default env "RISKKERNEL_MEMORY_DIR" (codes "./memory");
      embeddings = env_bool_default env "RISKKERNEL_MEMORY_EMBEDDINGS" false;
    };
  }

  -- `Load` after the .env file.
  unfoldable pub load_resolved : Env → Result (Config D)
  unfolding load_port load_budget config_of
  load_resolved env = do
    port ← load_port env
    budget ← load_budget env
    ok (config_of env port budget)

  abbrev pub after_dot_env : Option ConfigError × Env → Result (Config D) × Env
  after_dot_env (some e, env) = (err e, env)
  after_dot_env (none, env) = (load_resolved env, env)

  -- `Load`: the configuration, and the process's environment after it.
  unfoldable pub load : EnvFile → Env → Result (Config D) × Env
  unfolding load_dot_env load_resolved
  load file env = after_dot_env (load_dot_env file env)
