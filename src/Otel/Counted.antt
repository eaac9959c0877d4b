-- ===== src/Otel/Counted.antt =====
-- internal/otel/ingress.go: every model call of an export is counted once, and only the runs that the
-- spans name are touched.
use riskkernel.Base.{
  ℕ, ◌+◌, ◌≡◌, str_eq, Unicode, Bool, true, false, not, ◌&&◌, Bool-cases, inl, inr, Option, List,
  [], ◌∷◌, arith, Float64,
}
use riskkernel.Pricing.{Rates}
use riskkernel.Storage.{Store}
use riskkernel.Runs.Manager.{Manager}
use riskkernel.Otel.{
  Attrs, Span, ResourceSpans, FloatToInt, Tally, is_model_call, run_id_of, ingest_span,
  ingest_spans, ingest_scopes, ingest_from, ingest,
}

abbrev pub one_if : Bool → ℕ
one_if true = 1
one_if false = 0

module _ {D : Type 0} where
  -- The number of the spans that satisfy a test on them and their resource's attributes.
  abbrev pub in_spans : (Attrs D → Span D → Bool) → Attrs D → List (Span D) → ℕ
  in_spans p resource [] = 0
  in_spans p resource (x ∷ xs) = one_if (p resource x) + in_spans p resource xs

  abbrev pub in_scopes : (Attrs D → Span D → Bool) → Attrs D → List (List (Span D)) → ℕ
  in_scopes p resource [] = 0
  in_scopes p resource (x ∷ xs) = in_spans p resource x + in_scopes p resource xs

  abbrev pub spans_with : (Attrs D → Span D → Bool) → List (ResourceSpans D) → ℕ
  spans_with p [] = 0
  spans_with p (x ∷ xs) = in_scopes p x.resource_attrs x.scope_spans + spans_with p xs

  -- A model call with a run id, and one with none.
  abbrev pub is_attributed : Attrs D → Span D → Bool
  is_attributed resource span =
      is_model_call span.attrs && not (str_eq (run_id_of resource span.attrs) "")

  abbrev pub is_unattributed : Attrs D → Span D → Bool
  is_unattributed resource span =
      is_model_call span.attrs && str_eq (run_id_of resource span.attrs) ""

module _ {D S : Type 0} ⦃F : Float64 D⦄ ⦃U : Unicode⦄ ⦃T : FloatToInt D⦄ ⦃B : Store D S⦄
    (prices : Option (Rates D)) where
  -- The two counters grow by two numbers.
  record Grew (t t' : Tally D S) (a b : ℕ) : Type 0 where
    metered : t'.metered ≡ t.metered + a
    unattributed : t'.unattributed ≡ t.unattributed + b

  Grew-then :
      (t u v : Tally D S) (a b c d : ℕ) → Grew t u a b → Grew u v c d → Grew t v (a + c) (b + d)
  Grew-then t u v a b c d g h = record {
    metered = omega (arith, g.metered, h.metered);
    unattributed = omega (arith, g.unattributed, h.unattributed);
  }

  Grew-span :
      (resource : Attrs D) (x : Span D) (t : Tally D S)
      → Grew t
          (ingest_span prices resource x t)
          (one_if (is_attributed resource x))
          (one_if (is_unattributed resource x))
  unfolding ingest_span
  Grew-span resource x t = elim (Bool-cases (is_model_call x.attrs)) [
    | inr q ↦ rw q record { metered = omega arith; unattributed = omega arith }
    | inl q ↦ elim (Bool-cases (str_eq (run_id_of resource x.attrs) "")) [
      | inl e ↦ rw q (rw e record { metered = omega arith; unattributed = omega arith })
      | inr e ↦ rw q (rw e record { metered = omega arith; unattributed = omega arith })
    ]
  ]

  Grew-spans :
      (resource : Attrs D) (xs : List (Span D)) (t : Tally D S)
      → Grew t
          (ingest_spans prices resource xs t)
          (in_spans is_attributed resource xs)
          (in_spans is_unattributed resource xs)
  unfolding ingest_spans
  Grew-spans resource [] t = record { metered = omega arith; unattributed = omega arith }
  Grew-spans resource (x ∷ xs) t =
      let u = ingest_span prices resource x t in
      Grew-then t u _ _ _ _ _ (Grew-span resource x t) (Grew-spans resource xs u)

  Grew-scopes :
      (resource : Attrs D) (xs : List (List (Span D))) (t : Tally D S)
      → Grew t
          (ingest_scopes prices resource xs t)
          (in_scopes is_attributed resource xs)
          (in_scopes is_unattributed resource xs)
  unfolding ingest_scopes
  Grew-scopes resource [] t = record { metered = omega arith; unattributed = omega arith }
  Grew-scopes resource (x ∷ xs) t =
      let u = ingest_spans prices resource x t in
      Grew-then t u _ _ _ _ _ (Grew-spans resource x t) (Grew-scopes resource xs u)

  Grew-from :
      (xs : List (ResourceSpans D)) (t : Tally D S)
      → Grew t
          (ingest_from prices xs t)
          (spans_with is_attributed xs)
          (spans_with is_unattributed xs)
  unfolding ingest_from
  Grew-from [] t = record { metered = omega arith; unattributed = omega arith }
  Grew-from (x ∷ xs) t =
      let u = ingest_scopes prices x.resource_attrs x.scope_spans t in
      Grew-then t u _ _ _ _ _ (Grew-scopes x.resource_attrs x.scope_spans t) (Grew-from xs u)

  -- Every model call of an export is counted exactly once: as metered if it or its resource names a
  -- run, as unattributed if neither does; and no other span is counted.
  pub ingest_counts :
      (req : List (ResourceSpans D)) (m : Manager D S)
      → ((ingest prices req m).metered ≡ spans_with is_attributed req)
        × ((ingest prices req m).unattributed ≡ spans_with is_unattributed req)
  unfolding ingest
  ingest_counts req m =
      let g = Grew-from req record { manager = m; metered = 0; unattributed = 0 } in
      (omega (arith, g.metered), omega (arith, g.unattributed))
