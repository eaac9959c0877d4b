-- ===== src/Otel/Tests.antt =====
-- internal/otel/ingress.go: a concrete export against the manager of one run.
use riskkernel.Base.{
  ℕ, ◌≡◌, refl, pos, negsuc, codes, trim_left, trim_right, trim_space, none, some, List, [], ◌∷◌,
}
use riskkernel.Governor.Ceiling.{metered}
use riskkernel.Storage.Sqlite.{Db, sqlite}
use riskkernel.Runs.{Run}
use riskkernel.Runs.Manager.{Manager, find_run, get_or_create}
use riskkernel.Otel.{
  string_value, int_value, Attrs, ResourceSpans, FloatToInt, read_digits, int_of_text, attr,
  string_attr, int_attr, is_model_call, run_id_of, meter,
}
use riskkernel.Otel.Metered.{span_cost, meter_adds_usage}
use riskkernel.Otel.Counted.{spans_with, is_attributed, is_unattributed}
use riskkernel.Otel.Others.{is_against}
use riskkernel.Sample.{float, unicode, engine, budget, live_run, db}

instance abbrev to_int : FloatToInt ℕ
to_int = record { to_int64 = λ n. pos n }

abbrev manager : Manager ℕ (Db ℕ)
manager = record { default_budget = budget; store = some db; runs = ("run-1", live_run) ∷ [] }

abbrev call_attrs : Attrs ℕ
call_attrs =
    ("riskkernel.run.id", string_value "run-1")
    ∷ ("gen_ai.usage.input_tokens", int_value (negsuc 99))
    ∷ ("gen_ai.usage.output_tokens", string_value " 7 ")
    ∷ []

abbrev export : List (ResourceSpans ℕ)
export =
    record {
      resource_attrs = [];
      scope_spans =
          (record { attrs = call_attrs; met_at = pos 30 }
            ∷ record {
              attrs = ("gen_ai.usage.input_tokens", int_value (pos 5)) ∷ [];
              met_at = pos 31;
            }
            ∷ record { attrs = []; met_at = pos 32 }
            ∷ [])
          ∷ [];
    }
    ∷ []

-- A range error gives the largest int64, also before a letter that would be a syntax error.
overflows : int_of_text (codes "99999999999999999999x") ≡ pos 9223372036854775807
unfolding int_of_text read_digits
overflows = refl

text_tokens : int_attr call_attrs "gen_ai.usage.output_tokens" ≡ pos 7
unfolding int_attr attr int_of_text read_digits trim_space trim_left trim_right
text_tokens = refl

one_each : (spans_with is_attributed export ≡ 1) × (spans_with is_unattributed export ≡ 1)
unfolding is_model_call run_id_of string_attr attr
one_each = (refl, refl)

not_named : spans_with (is_against "run-2") export ≡ 0
unfolding is_model_call run_id_of string_attr attr
not_named = refl

meter_adds_usage_example :
    (r : Run ℕ) × (find_run "run-1" (meter none "run-1" call_attrs (pos 30) manager).runs ≡ some r)
    × (r.gov.usage
        ≡ metered
            (int_attr call_attrs "gen_ai.usage.input_tokens")
            (int_attr call_attrs "gen_ai.usage.output_tokens")
            (span_cost none call_attrs)
            (get_or_create "run-1" (pos 30) manager).1.gov.usage)
meter_adds_usage_example = meter_adds_usage none "run-1" call_attrs (pos 30) manager

live : get_or_create "run-1" (pos 30) manager ≡ (manager, live_run)
unfolding get_or_create
live = refl

refund_attr : attr "gen_ai.usage.input_tokens" call_attrs ≡ some (int_value (negsuc 99))
unfolding attr
refund_attr = refl
