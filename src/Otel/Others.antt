-- ===== src/Otel/Others.antt =====
-- internal/otel/ingress.go: an export leaves the runs that its spans do not name.
use riskkernel.Base.{
  ◌≡◌, refl, ◌∙◌, String, str_eq, Unicode, Bool, false, ◌&&◌, Bool-cases, inl, inr, Option, List,
  [], ◌∷◌, arith, Float64, Time,
}
use riskkernel.Pricing.{Rates}
use riskkernel.Storage.{Store}
use riskkernel.Runs.{record_call}
use riskkernel.Runs.Manager.{Manager, find_run, get_or_create}
use riskkernel.Runs.Registry.{find_run-put_run_other, get_or_create-other}
use riskkernel.Otel.{
  Attrs, Span, ResourceSpans, FloatToInt, Tally, is_model_call, run_id_of, consumed_call, meter,
  ingest_span, ingest_spans, ingest_scopes, ingest_from, ingest,
}
use riskkernel.Otel.Counted.{one_if, in_spans, in_scopes, spans_with}

-- A model call whose run id is `k`.
abbrev pub is_against : {D : Type 0} → String → Attrs D → Span D → Bool
is_against k resource span = is_model_call span.attrs && str_eq (run_id_of resource span.attrs) k

module _ {D S : Type 0} ⦃F : Float64 D⦄ ⦃U : Unicode⦄ ⦃T : FloatToInt D⦄ ⦃B : Store D S⦄
    (prices : Option (Rates D)) (k : String) where
  meter-other :
      (rid : String) (attrs : Attrs D) (now : Time) (m : Manager D S)
      → str_eq rid k ≡ false
      → find_run k (meter prices rid attrs now m).runs ≡ find_run k m.runs
  unfolding meter
  meter-other rid attrs now m h =
      let (m', r) = get_or_create rid now m in
      find_run-put_run_other rid k (record_call r (consumed_call prices attrs) now now m'.store).0
        m'.runs h
      ∙ get_or_create-other rid k now m h

  span-other :
      (resource : Attrs D) (x : Span D) (t : Tally D S)
      → one_if (is_against k resource x) ≡ 0
      → find_run k (ingest_span prices resource x t).manager.runs ≡ find_run k t.manager.runs
  unfolding ingest_span
  span-other resource x t h = elim (Bool-cases (is_model_call x.attrs)) [
    | inr q ↦ rw q
    | inl q ↦
        let rid = run_id_of resource x.attrs in
        elim (Bool-cases (str_eq rid "")) [
          | inl e ↦ rw q (rw e)
          | inr e ↦ elim (Bool-cases (str_eq rid k)) [
            | inl a ↦ absurd (omega (arith, rw (q, a) at h))
            | inr a ↦ rw q (rw e (meter-other rid x.attrs x.met_at t.manager a))
          ]
        ]
  ]

  spans-other :
      (resource : Attrs D) (xs : List (Span D)) (t : Tally D S)
      → in_spans (is_against k) resource xs ≡ 0
      → find_run k (ingest_spans prices resource xs t).manager.runs ≡ find_run k t.manager.runs
  unfolding ingest_spans
  spans-other resource [] t h = refl
  spans-other resource (x ∷ xs) t h =
      spans-other resource xs (ingest_span prices resource x t) (omega (arith, h))
      ∙ span-other resource x t (omega (arith, h))

  scopes-other :
      (resource : Attrs D) (xs : List (List (Span D))) (t : Tally D S)
      → in_scopes (is_against k) resource xs ≡ 0
      → find_run k (ingest_scopes prices resource xs t).manager.runs ≡ find_run k t.manager.runs
  unfolding ingest_scopes
  scopes-other resource [] t h = refl
  scopes-other resource (x ∷ xs) t h =
      scopes-other resource xs (ingest_spans prices resource x t) (omega (arith, h))
      ∙ spans-other resource x t (omega (arith, h))

  from-other :
      (xs : List (ResourceSpans D)) (t : Tally D S)
      → spans_with (is_against k) xs ≡ 0
      → find_run k (ingest_from prices xs t).manager.runs ≡ find_run k t.manager.runs
  unfolding ingest_from
  from-other [] t h = refl
  from-other (x ∷ xs) t h =
      from-other xs (ingest_scopes prices x.resource_attrs x.scope_spans t) (omega (arith, h))
      ∙ scopes-other x.resource_attrs x.scope_spans t (omega (arith, h))

  -- An export leaves a live run as it is, or leaves an id with no live run, unless some model call in
  -- it names that id, itself or through its resource.
  pub ingest_other_runs :
      (req : List (ResourceSpans D)) (m : Manager D S)
      → spans_with (is_against k) req ≡ 0
      → find_run k (ingest prices req m).manager.runs ≡ find_run k m.runs
  unfolding ingest
  ingest_other_runs req m h = from-other req record { manager = m; metered = 0; unattributed = 0 } h
