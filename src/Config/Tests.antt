-- ===== src/Config/Tests.antt =====
-- internal/config/config.go: concrete environments and .env files.
use riskkernel.Base.{
  ℕ, ◌≤◌, ◌≡◌, refl, pos, negsuc, codes, Runes, trim_left, trim_right, trim_space, cut, split, true,
  false, none, some, List, [], ◌∷◌, background,
}
use riskkernel.Governor
use riskkernel.Governor.{pre_step, can_proceed, halt_dollar_budget}
use riskkernel.Governor.Trace.{steps}
use riskkernel.Governor.Loops.{started}
use riskkernel.Config.{
  FloatText, Config, ok, Env, getenv, digits_from, parse_int, env_int64, clamp_int32, put_header,
  add_headers, parse_otlp_headers, any_budget_env_set, env_float, explicit_budget, BudgetConfig,
  safe_budget, load_budget, to_governor_budget,
}
use riskkernel.Config.DotEnv.{
  EnvFile, scanned, put_env, refused, setenv, unquote, read_line, set_line, set_lines, load_dot_env,
  load_port, config_of, load_resolved, load,
}
use riskkernel.Config.Kept.{Outcome, file_value, load_dot_env-Outcome}
use riskkernel.Config.Defaults.{unset_is_bounded}
use riskkernel.Config.Names.{AreNames}
use riskkernel.Sample.{float, unicode, governor}

-- Amounts in whole dollars.
instance abbrev float_text : FloatText ℕ
float_text = record { parse_float = λ s. digits_from 0 s }

abbrev plain : Env
plain s = none

abbrev file : EnvFile
file =
    scanned
      (codes "# local" ∷ codes "export A='x' " ∷ codes "A=y" ∷ codes "RISKKERNEL_PORT=8080" ∷ [])
      false

first_line_wins : (load_dot_env file plain).1 (codes "A") ≡ some (codes "x")
unfolding load_dot_env set_lines read_line set_line setenv refused unquote trim_space trim_left
    trim_right cut
first_line_wins = refl

int_min : parse_int (codes "-9223372036854775808") ≡ some (negsuc 9223372036854775807)
unfolding parse_int digits_from
int_min = refl

int_over : parse_int (codes "9223372036854775808") ≡ none
unfolding parse_int digits_from
int_over = refl

headers : parse_otlp_headers (codes " a = b=c , x") ≡ (codes "a", codes "b=c") ∷ []
unfolding parse_otlp_headers add_headers put_header split cut trim_space trim_left trim_right
headers = refl

abbrev loaded : Config ℕ
loaded = config_of (load_dot_env file plain).1 (pos 8080) safe_budget

loads : (load file plain).0 ≡ ok loaded
unfolding load load_resolved load_port load_budget any_budget_env_set getenv load_dot_env set_lines
    read_line set_line setenv refused unquote trim_space trim_left trim_right cut parse_int
    digits_from
loads = refl

load_dot_env-Outcome_example :
    Outcome
      (plain (codes "A"))
      (file_value file (codes "A"))
      (load_dot_env file plain).0
      ((load_dot_env file plain).1 (codes "A"))
load_dot_env-Outcome_example = load_dot_env-Outcome file plain (codes "A")

nothing_set : any_budget_env_set (load {D = ℕ} file plain).1 ≡ false
unfolding load load_resolved load_port load_budget any_budget_env_set getenv load_dot_env set_lines
    read_line set_line setenv refused unquote trim_space trim_left trim_right cut parse_int
    digits_from
nothing_set = refl

unset_is_bounded_example :
    (loaded.default_budget.defaulted ≡ true)
    × (started
          (steps (pos 1) ∷ steps (pos 2) ∷ [])
          (Governor.new background (to_governor_budget loaded.default_budget) [] (pos 0) (pos 0))
        ≤ 100)
unset_is_bounded_example =
    unset_is_bounded file plain loaded background (pos 0) (pos 0)
      (steps (pos 1) ∷ steps (pos 2) ∷ []) loads nothing_set

abbrev many_loops : Env
many_loops = put_env (codes "RISKKERNEL_DEFAULT_LOOPS") (codes "3000000000") plain

abbrev capped : BudgetConfig ℕ
capped = record {
  tokens = pos 0;
  dollars = 0;
  loops = pos 2147483647;
  seconds = pos 0;
  defaulted = false;
}

capped_lem : load_budget many_loops ≡ ok capped
unfolding load_budget any_budget_env_set explicit_budget env_int64 env_float getenv parse_int
    digits_from clamp_int32
capped_lem = refl

read_loops : env_int64 many_loops "RISKKERNEL_DEFAULT_LOOPS" ≡ ok (pos 3000000000)
unfolding env_int64 getenv parse_int digits_from
read_loops = refl

abbrev spent : Governor.Run ℕ
spent = record governor {
  budget = to_governor_budget capped;
  usage = record (governor.usage) { loops = pos 2147483647 };
}

abbrev names : List Runes
names = codes "fs_*" ∷ codes "search" ∷ []

names-AreNames : AreNames names
unfolding trim_space trim_left trim_right
names-AreNames = (
  record { plain = (refl, (refl, (refl, (refl, tt)))); trimmed = refl; nonempty = refl },
  (
    record {
      plain = (refl, (refl, (refl, (refl, (refl, (refl, tt))))));
      trimmed = refl;
      nonempty = refl;
    },
    tt,
  ),
)
