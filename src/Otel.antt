-- ===== src/Otel.antt =====
-- internal/otel/ingress.go: the receiver of OpenTelemetry traces, from the decoded export on. Spans
-- that carry token usage are metered against the run that they name. Each span has the time at which
-- it is handled; the conversion of a double to an int64 is a parameter.
pub mod Metered
pub mod Counted
pub mod Others
mod Tests
use riskkernel.Base.{
  ℕ, suc, ◌+◌, ◌-◌, ◌*◌, ◌==◌, ltb, leb, ℤ, pos, sub_ℕ, half64, String, codes, str_eq, Unicode,
  Runes, trim_space, Bool, true, false, not, ◌&&◌, ◌||◌, Option, none, some, List, [], ◌∷◌, is_some,
  if◌then◌else◌, Float64, Time,
}
use riskkernel.Pricing
use riskkernel.Pricing.{Rates}
use riskkernel.Storage.{Store}
use riskkernel.Runs.{Call, Run, record_call}
use riskkernel.Runs.Manager.{Manager, put_run, get_or_create}

-- `AnyValue`, as far as it is told apart.
pub data AnyValue (D : Type 0) : Type 0 where
  string_value : String → AnyValue D
  int_value : ℤ → AnyValue D
  double_value : D → AnyValue D
  other_value : AnyValue D

abbrev pub Attrs : Type 0 → Type 0
Attrs D = List (String × AnyValue D)

pub record Span (D : Type 0) : Type 0 where
  pub attrs : Attrs D
  pub met_at : Time

pub record ResourceSpans (D : Type 0) : Type 0 where
  pub resource_attrs : Attrs D
  pub scope_spans : List (List (Span D))

-- `int64(f)`.
pub record FloatToInt (D : Type 0) : Type 0 where
  pub to_int64 : D → ℤ

-- `strconv.ParseUint(s, 10, 64)`: a number, too large a number, or no number.
pub data Digits : Type 0 where
  digits : ℕ → Digits
  too_large not_digits : Digits

unfoldable pub read_digits : ℕ → Runes → Digits
read_digits n [] = digits n
read_digits n (c ∷ s) =
    let m = n * 10 + (c - b'0') in
    let rest = read_digits m s in
    if not (leb b'0' c && leb c b'9')
    then not_digits
    else if ltb 18446744073709551615 m
    then too_large
    else rest

abbrev first_digits : Runes → Digits
first_digits [] = not_digits
first_digits (c ∷ s) = read_digits 0 (c ∷ s)

-- The number that `ParseInt` returns, whatever its error: at an overflow the nearest int64, else 0.
abbrev clamped_above : Digits → ℤ
clamped_above (digits n) = if ltb n half64 then pos n else pos 9223372036854775807
clamped_above too_large = pos 9223372036854775807
clamped_above not_digits = pos 0

abbrev clamped_below : Digits → ℤ
clamped_below (digits n) = if leb n half64 then sub_ℕ 0 n else sub_ℕ 0 half64
clamped_below too_large = sub_ℕ 0 half64
clamped_below not_digits = pos 0

unfoldable pub int_of_text : Runes → ℤ
unfolding read_digits
int_of_text [] = pos 0
int_of_text (c ∷ s) =
    if c == b'+'
    then clamped_above (first_digits s)
    else if c == b'-'
    then clamped_below (first_digits s)
    else clamped_above (first_digits (c ∷ s))

module _ {D : Type 0} where
  -- `otlpAttrMap` and a lookup in it: of two entries with one key the later is in the map.
  abbrev later_or : Option (AnyValue D) → Bool → AnyValue D → Option (AnyValue D)
  later_or (some w) b v = some w
  later_or none b v = if b then some v else none

  unfoldable pub attr : String → Attrs D → Option (AnyValue D)
  attr key [] = none
  attr key ((k, v) ∷ kvs) = later_or (attr key kvs) (str_eq k key) v

  -- `otlpStringAttr`.
  abbrev string_of : Option (AnyValue D) → String
  string_of (some (string_value s)) = s
  string_of _ = ""

  unfoldable pub string_attr : Attrs D → String → String
  string_attr attrs key = string_of (attr key attrs)

  -- `otlpIntAttr`.
  abbrev pub int_of : ⦃T : FloatToInt D⦄ → Option (AnyValue D) → ℤ
  int_of (some (int_value n)) = n
  int_of ⦃T⦄ (some (double_value f)) = T.to_int64 f
  int_of (some (string_value s)) = int_of_text (trim_space (codes s))
  int_of _ = pos 0

  unfoldable pub int_attr : ⦃T : FloatToInt D⦄ → Attrs D → String → ℤ
  int_attr attrs key = int_of (attr key attrs)

  -- A model call carries token usage.
  unfoldable pub is_model_call : Attrs D → Bool
  is_model_call attrs =
      is_some (attr "gen_ai.usage.input_tokens" attrs)
      || is_some (attr "gen_ai.usage.output_tokens" attrs)

  -- The run that a span is metered against: its own, or its resource's; or the empty text.
  unfoldable pub run_id_of : Attrs D → Attrs D → String
  run_id_of resource attrs =
      let own = string_attr attrs "riskkernel.run.id" in
      if str_eq own "" then string_attr resource "riskkernel.run.id" else own

module _ {D : Type 0} ⦃F : Float64 D⦄ ⦃U : Unicode⦄ ⦃T : FloatToInt D⦄
    (prices : Option (Rates D)) where
  -- The call that `meter` records of a span.
  unfoldable pub consumed_call : Attrs D → Call D
  consumed_call attrs =
      let response = string_attr attrs "gen_ai.response.model" in
      let model =
        if str_eq response "" then string_attr attrs "gen_ai.request.model" else response in
      let prompt = int_attr attrs "gen_ai.usage.input_tokens" in
      let completion = int_attr attrs "gen_ai.usage.output_tokens" in
      let (dollars, priced) = Pricing.cost prices model prompt completion in
      record {
        step_index = pos 0;
        provider = string_attr attrs "gen_ai.system";
        model = model;
        prompt_tokens = prompt;
        completion_tokens = completion;
        dollars = dollars;
        priced = priced;
        response_id = string_attr attrs "gen_ai.response.id";
      }

-- `ingestResult` beside the manager.
pub record Tally (D S : Type 0) : Type 0 where
  pub manager : Manager D S
  pub metered : ℕ
  pub unattributed : ℕ

module _ {D S : Type 0} ⦃F : Float64 D⦄ ⦃U : Unicode⦄ ⦃T : FloatToInt D⦄ ⦃B : Store D S⦄
    (prices : Option (Rates D)) where
  -- `meter`.
  unfoldable pub meter : String → Attrs D → Time → Manager D S → Manager D S
  unfolding consumed_call
  meter rid attrs now m =
      let (m', r) = get_or_create rid now m in
      let (r', s', e) = record_call r (consumed_call prices attrs) now now m'.store in
      record m' { runs = put_run rid r' m'.runs; store = s' }

  -- The body of the loops of `ingest`.
  unfoldable pub ingest_span : Attrs D → Span D → Tally D S → Tally D S
  unfolding meter
  ingest_span resource span t =
      let rid = run_id_of resource span.attrs in
      if not (is_model_call span.attrs)
      then t
      else if str_eq rid ""
      then record t { unattributed = suc t.unattributed }
      else record t {
        manager = meter rid span.attrs span.met_at t.manager;
        metered = suc t.metered;
      }

  unfoldable pub ingest_spans : Attrs D → List (Span D) → Tally D S → Tally D S
  ingest_spans resource [] t = t
  ingest_spans resource (span ∷ spans) t = ingest_spans resource spans (ingest_span resource span t)

  unfoldable pub ingest_scopes : Attrs D → List (List (Span D)) → Tally D S → Tally D S
  ingest_scopes resource [] t = t
  ingest_scopes resource (spans ∷ scopes) t =
      ingest_scopes resource scopes (ingest_spans resource spans t)

  unfoldable pub ingest_from : List (ResourceSpans D) → Tally D S → Tally D S
  ingest_from [] t = t
  ingest_from (rs ∷ rss) t = ingest_from rss (ingest_scopes rs.resource_attrs rs.scope_spans t)

  -- `ingest`.
  unfoldable pub ingest : List (ResourceSpans D) → Manager D S → Tally D S
  ingest req m = ingest_from req record { manager = m; metered = 0; unattributed = 0 }
