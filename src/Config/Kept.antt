-- ===== src/Config/Kept.antt =====
-- internal/config/config.go: what the .env file does to the environment.
use riskkernel.Base.{
  ℕ, suc, ◌≡◌, refl, sym, ◌∙◌, ap, codes_eq, codes_eq→eq, ◌≢◌, ◌⊎◌, Runes, Bool, true, false,
  Bool-cases, Option-cases, inl, inr, Option, none, some, List, [], ◌∷◌, if◌then◌else◌,
}
use riskkernel.Config.{ConfigError, Env}
use riskkernel.Config.DotEnv.{
  EnvFile, missing, unreadable, scanned, is_present, put_env, refused, setenv, Line, blank, assigns,
  malformed, read_line, set_line, unless_failed, set_lines, load_dot_env,
}

-- The first value that is there.
abbrev pub first_of : Option Runes → Option Runes → Option Runes
first_of none b = b
first_of (some v) b = some v

-- The value that a line gives to a key.
abbrev pub given : Line → Runes → Option Runes
given (assigns k v) key = if codes_eq k key then some v else none
given _ key = none

-- The value that the first line that assigns to the key gives to it.
unfoldable pub first_given : ℕ → List Runes → Runes → Option Runes
first_given n [] key = none
first_given n (text ∷ texts) key =
    first_of (given (read_line n text) key) (first_given (suc n) texts key)

put_env_keeps :
    (k w key : Runes) (env : Env)
    → env k ≡ none
    → put_env k w env key ≡ first_of (env key) (if codes_eq k key then some w else none)
put_env_keeps k w key env e = elim (Bool-cases (codes_eq k key)) [
  | inl q ↦ rw (q, ap env (sym (codes_eq→eq k key q)) ∙ e)
  | inr q ↦ elim (Option-cases (env key)) [ inl p ↦ rw (q, p) | inr (v, p) ↦ rw (q, p) ]
]

present_keeps :
    (k w v key : Runes) (env : Env)
    → env k ≡ some v
    → env key ≡ first_of (env key) (if codes_eq k key then some w else none)
present_keeps k w v key env e = elim (Bool-cases (codes_eq k key)) [
  | inl q ↦ rw (ap env (sym (codes_eq→eq k key q)) ∙ e)
  | inr q ↦ elim (Option-cases (env key)) [ inl p ↦ rw (q, p) | inr (u, p) ↦ rw (q, p) ]
]

-- A present key stays; a new one is put, or refused.
set_line_cases :
    (l : Line) (env : Env) (key : Runes)
    → ((set_line l env).1 key ≡ first_of (env key) (given l key))
      ⊎ (((set_line l env).0 ≢ none) × ((set_line l env).1 key ≡ env key))
unfolding set_line setenv
set_line_cases blank env key = elim (Option-cases (env key)) [
  | inl p ↦ inl (rw p)
  | inr (v, p) ↦ inl (rw p)
]
set_line_cases (malformed e) env key = inr (λ h. cc, refl)
set_line_cases (assigns k w) env key = elim (Option-cases (env k)) [
  | inl p ↦
      let a : is_present env k ≡ false = rw (p, is_present) in
      elim (Bool-cases (refused k w)) [
        | inl r ↦ inr (rw (a, r) (λ h. cc), rw (a, r))
        | inr r ↦ inl (rw (a, r) (put_env_keeps k w key env p))
      ]
  | inr (v, p) ↦
      let a : is_present env k ≡ true = rw (p, is_present) in
      inl (rw a (present_keeps k w v key env p))
]

first_of-none : (a : Option Runes) → a ≡ first_of a none
first_of-none none = refl
first_of-none (some v) = refl

first_of_assoc : (a b c : Option Runes) → first_of (first_of a b) c ≡ first_of a (first_of b c)
first_of_assoc none b c = refl
first_of_assoc (some v) b c = refl

-- What the environment holds after the file's lines, an error or none.
abbrev pub Outcome : Option Runes → Option Runes → Option ConfigError → Option Runes → Type 0
Outcome before file none after = after ≡ first_of before file
Outcome before file (some e) after = after ≡ first_of before after

-- A value that was there is there.
kept : (before g after : Option Runes) → after ≡ first_of before g → after ≡ first_of before after
kept none g after e = refl
kept (some v) g after e = e

Outcome-shift :
    (o : Option ConfigError) (before g now rest after : Option Runes)
    → now ≡ first_of before g
    → Outcome now rest o after
    → Outcome before (first_of g rest) o after
Outcome-shift none before g now rest after e h =
    h ∙ ap (λ x. first_of x rest) e ∙ first_of_assoc before g rest
Outcome-shift (some x) before g now rest after e h =
    kept before (first_of g after) after
      (h ∙ ap (λ n. first_of n after) e ∙ first_of_assoc before g after)

then_lines :
    (p : Option ConfigError × Env) (before g rest : Option Runes)
    (f : Env → Option ConfigError × Env) (key : Runes)
    → (p.1 key ≡ first_of before g) ⊎ ((p.0 ≢ none) × (p.1 key ≡ before))
    → Outcome (p.1 key) rest (f p.1).0 ((f p.1).1 key)
    → Outcome before (first_of g rest) (unless_failed p f).0 ((unless_failed p f).1 key)
then_lines (none, env) before g rest f key (inl e) h =
    Outcome-shift (f env).0 before g (env key) rest ((f env).1 key) e h
then_lines (none, env) before g rest f key (inr (e, q)) h = absurd (e refl)
then_lines (some x, env) before g rest f key (inl e) h = kept before g (env key) e
then_lines (some x, env) before g rest f key (inr (e, q)) h =
    kept before none (env key) (q ∙ first_of-none before)

set_lines-Outcome :
    (n : ℕ) (texts : List Runes) (failed : Bool) (env : Env) (key : Runes)
    → Outcome
        (env key)
        (first_given n texts key)
        (set_lines n texts failed env).0
        ((set_lines n texts failed env).1 key)
unfolding set_lines first_given
set_lines-Outcome n [] true env key = kept (env key) none (env key) (first_of-none (env key))
set_lines-Outcome n [] false env key = first_of-none (env key)
set_lines-Outcome n (text ∷ texts) failed env key =
    let l = read_line n text in
    then_lines (set_line l env) (env key) (given l key) (first_given (suc n) texts key)
      (set_lines (suc n) texts failed) key (set_line_cases l env key)
      (set_lines-Outcome (suc n) texts failed (set_line l env).1 key)

-- What the file gives to a key.
abbrev pub file_value : EnvFile → Runes → Option Runes
file_value (scanned texts failed) key = first_given 1 texts key
file_value _ key = none

-- After the .env file a name that had a value has the same value, whether the file was read to its
-- end or reported an error; and when it reports none, every other name has the value of the first
-- line that assigns to it, or no value if there is none.
pub load_dot_env-Outcome :
    (file : EnvFile) (env : Env) (key : Runes)
    → Outcome
        (env key)
        (file_value file key)
        (load_dot_env file env).0
        ((load_dot_env file env).1 key)
unfolding load_dot_env
load_dot_env-Outcome missing env key = first_of-none (env key)
load_dot_env-Outcome unreadable env key = kept (env key) none (env key) (first_of-none (env key))
load_dot_env-Outcome (scanned texts failed) env key = set_lines-Outcome 1 texts failed env key
