-- ===== src/Provider/Pumped.antt =====
-- internal/gateway/gateway.go: the loop of `streamCall` over Recv ends, what it forwards is the body,
-- and what a stream reports is read from every line of it.
use mathlib.Core.List.{append-nil, append_assoc}
use riskkernel.Base.{
  ℕ, zero, suc, ◌+◌, ◌≤◌, ◌<◌, ◌≡◌, refl, sym, ap, ◌∙◌, ◌⊎◌, inl, inr, split, Runes, is_nil, length,
  Bool, Bool-cases, true, false, not, ◌&&◌, Option, some, List, [], ◌∷◌, ◌++◌, arith, if◌then◌else◌,
}
use riskkernel.Gateway.Streams.{Turn, forwarded_chunks}
use riskkernel.Provider.Sse.{Line, read_line, Reported, sniff_line, before_turns, pump}
use riskkernel.Provider.Lines.{
  read_line-whole, read_line-shorter, read_line-more, read_line-last, read_line-Parts,
}

-- The chunks one after the other.
abbrev pub concat : List Runes → Runes
concat [] = []
concat (c ∷ cs) = c ++ concat cs

-- What is reported of a list of lines.
unfoldable pub report : (Reported → Runes → Reported) → Reported → List Runes → Reported
report sniff st [] = st
report sniff st (l ∷ ls) = report sniff (sniff st l) ls

-- A run of the loop: it ends, and what the client has got is the body up to some point.
abbrev pub Ends : Option (List Turn × Reported) → Runes → Type 0
Ends o body =
    (ts : List Turn) × ((st : Reported) × ((rest : Runes) × (o ≡ some (ts, st))
        × (concat (forwarded_chunks ts) ++ rest ≡ body)))

nil_of : (s : Runes) → is_nil s ≡ true → s ≡ []
nil_of [] h = refl
nil_of (c ∷ s) h = cc

module _ (writes : ℕ → Bool) where
  -- The last turn of the loop.
  last_Ends :
      (l : Line) (i : ℕ) (st : Reported) (body : Runes)
      → l.text ++ l.rest ≡ body
      → Ends (some (record { chunk = l.text; ended = true; written = writes i } ∷ [], st)) body
  unfolding forwarded_chunks
  last_Ends l i st body whole = elim (Bool-cases (is_nil l.text)) [
    | inl q ↦ (_, (_, (body, refl, rw q)))
    | inr q ↦ elim (Bool-cases (writes i)) [
      | inl w ↦ (_, (_, (l.rest, refl, rw (q, w) (rw (append-nil l.text) whole))))
      | inr w ↦ (_, (_, (body, refl, rw (q, w))))
    ]
  ]

  refused_Ends :
      (l : Line) (i : ℕ) (st : Reported) (body : Runes)
      → is_nil l.text ≡ false
      → writes i ≡ false
      → Ends (some (record { chunk = l.text; ended = l.ended; written = writes i } ∷ [], st)) body
  unfolding forwarded_chunks
  refused_Ends l i st body q w = (_, (_, (body, refl, rw (q, w))))

  more_Ends :
      (l : Line) (i : ℕ) (body : Runes) (o : Option (List Turn × Reported))
      → l.text ++ l.rest ≡ body
      → (not (is_nil l.text) && not (writes i)) ≡ false
      → Ends o l.rest
      → Ends (before_turns (record { chunk = l.text; ended = false; written = writes i }) o) body
  unfolding forwarded_chunks
  more_Ends l i body o whole takes (ts, (st', (rest, e, eq))) =
      let turn : Turn = record { chunk = l.text; ended = false; written = writes i } in
      (
        turn ∷ ts,
        (
          st',
          (
            rest,
            rw e,
            elim (Bool-cases (is_nil l.text)) [
              | inl q ↦ rw q (eq ∙ sym (ap (λ t. t ++ l.rest) (nil_of l.text q)) ∙ whole)
              | inr q ↦
                  let w : writes i ≡ true = ground (arith, takes) in
                  rw (q, w) (append_assoc l.text _ rest ∙ ap (λ t. l.text ++ t) eq ∙ whole)
            ],
          ),
        ),
      )

module _ (sniff : Reported → Runes → Reported) (writes : ℕ → Bool) where
  -- The loop over Recv ends, with one unit of fuel more than the body is long, whatever the client
  -- takes and whatever the adapter reads; what it has forwarded by then is the body up to some point.
  pub pump-Ends :
      (fuel i : ℕ) (body : Runes) (st : Reported)
      → length body < fuel
      → Ends (pump sniff writes fuel i body st) body
  unfolding pump
  pump-Ends zero i body st h = elim h [ ]
  pump-Ends (suc fuel) i body st h =
      let l = read_line body in
      let st' = sniff_line sniff st l.text in
      elim (Bool-cases (not (is_nil l.text) && not (writes i))) [
        | inl q ↦ rw q (refused_Ends writes l i st' body (ground (arith, q)) (ground (arith, q)))
        | inr q ↦ rw q (elim (Bool-cases l.ended) [
          | inl e ↦ rw e (last_Ends writes l i st' body (read_line-whole body))
          | inr e ↦
              let shorter = read_line-shorter body e in
              rw e (
                more_Ends writes l i body _ (read_line-whole body) q
                  (pump-Ends fuel (i + 1) l.rest st' (omega (arith, shorter))))
        ])
      ]

-- A chunk that the client takes goes before the chunks after it.
taken_chunk :
    (x : Turn) (ts : List Turn)
    → x.written ≡ true
    → concat (forwarded_chunks (x ∷ ts))
      ≡ x.chunk ++ (if x.ended then [] else concat (forwarded_chunks ts))
unfolding forwarded_chunks
taken_chunk x ts w = elim (Bool-cases (is_nil x.chunk)) [
  | inl q ↦ rw q (elim (Bool-cases x.ended) [
    | inl e ↦ rw (e, nil_of x.chunk q)
    | inr e ↦ rw (e, nil_of x.chunk q)
  ])
  | inr q ↦ rw (q, w) (elim (Bool-cases x.ended) [ inl e ↦ rw e | inr e ↦ rw e ])
]

zero_or_suc : (n : ℕ) → (n ≡ 0) ⊎ ((m : ℕ) × (n ≡ suc m))
zero_or_suc zero = inl refl
zero_or_suc (suc m) = inr (m, refl)

abbrev pub take_lines : ℕ → List Runes → List Runes
take_lines zero ls = []
take_lines (suc n) [] = []
take_lines (suc n) (l ∷ ls) = l ∷ take_lines n ls

-- What has been reported when the loop ends comes from the first `k` lines.
abbrev pub ReportsOf :
    (Reported → Runes → Reported) → Reported → Option (List Turn × Reported) → ℕ → Runes → Type 0
ReportsOf sniff st o k body =
    (ts : List Turn) × ((o ≡ some (ts, report sniff st (take_lines k (split 10 body)))))

module _ (sniff : Reported → Runes → Reported) (writes : ℕ → Bool)
    (newline : (st : Reported) (s : Runes) → sniff st (s ++ (10 ∷ [])) ≡ sniff st s)
    (blank : (st : Reported) → sniff st [] ≡ st) where
  sniff_line_lem : (st : Reported) (s : Runes) → sniff_line sniff st s ≡ sniff st s
  sniff_line_lem st [] = sym (blank st)
  sniff_line_lem st (c ∷ s) = refl

  -- The first line of the body, and the lines after it.
  abbrev FirstLine : Reported → Runes → Line → Type 0
  FirstLine st body l =
      (t : Runes) × ((ls : List Runes) × (split 10 body ≡ t ∷ ls)
        × (sniff_line sniff st l.text ≡ sniff st t)
        × (l.ended ≡ true → ls ≡ [])
        × (l.ended ≡ false → ls ≡ split 10 l.rest))

  first_line : (st : Reported) (body : Runes) → FirstLine st body (read_line body)
  first_line st body = elim (read_line-Parts body) [
    | inl (ended, parts) ↦
        ((read_line body).text, ([], parts, sniff_line_lem st _, λ e. refl, λ more. cc))
    | inr (more, (t, text, parts)) ↦
        let same = sniff_line_lem st _ ∙ ap (sniff st) text ∙ newline st t in
        (t, (split 10 (read_line body).rest, parts, same, λ ended. cc, λ e. refl))
  ]

  -- Where the client refuses the chunk `j`, what is reported comes from the lines up to that one.
  pub pump_cut :
      (fuel i j : ℕ) (body : Runes) (st : Reported)
      → length body < fuel
      → writes (i + j) ≡ false
      → (k : ℕ) × (k ≤ suc j) × ReportsOf sniff st (pump sniff writes fuel i body st) k body
  unfolding pump report
  pump_cut zero i j body st h w = elim h [ ]
  pump_cut (suc fuel) i j body st h w =
      let l = read_line body in
      let turn : Turn = record { chunk = l.text; ended = l.ended; written = writes i } in
      let (t, (ls, parts, same, last, more)) = first_line st body in
      elim (Bool-cases (not (is_nil l.text) && not (writes i))) [
        | inl q ↦ (1, omega arith, (turn ∷ [], rw (q, parts) (rw same)))
        | inr q ↦ elim (Bool-cases l.ended) [
          | inl e ↦ (1, omega arith, (turn ∷ [], rw (q, parts) (rw (e, same))))
          | inr e ↦
              let full = read_line-more body e in
              let takes : writes i ≡ true = ground (arith, q, full) in
              elim (zero_or_suc j) [
                | inl z ↦
                    let here : i + j ≡ i = omega (arith, z) in
                    let refused : writes i ≡ false = ap writes (sym here) ∙ w in
                    let clash : true ≡ false = sym takes ∙ refused in cc
                | inr (j', z) ↦
                    let shorter = read_line-shorter body e in
                    let there : i + 1 + j' ≡ i + j = omega (arith, z) in
                    let (k, le, (ts, eq)) =
                      pump_cut fuel (i + 1) j' l.rest (sniff_line sniff st l.text)
                        (omega (arith, shorter)) (ap writes there ∙ w) in
                    (
                      suc k,
                      omega (arith, le, z),
                      (turn ∷ ts, rw (q, parts) (rw (e, eq) (rw (more e, same)))),
                    )
              ]
        ]
      ]

  -- Where the client takes every chunk, it is sent the whole body, and what is reported comes from
  -- every line.
  pub pump_reports_all :
      ((j : ℕ) → writes j ≡ true)
      → (fuel i : ℕ) (body : Runes) (st : Reported) → length body < fuel
      → (ts : List Turn) × (pump sniff writes fuel i body st
          ≡ some (ts, report sniff st (split 10 body)))
        × (concat (forwarded_chunks ts) ≡ body)
  unfolding pump report
  pump_reports_all takes zero i body st h = elim h [ ]
  pump_reports_all takes (suc fuel) i body st h =
      let l = read_line body in
      let turn : Turn = record { chunk = l.text; ended = l.ended; written = writes i } in
      let (t, (ls, parts, same, last, more)) = first_line st body in
      let q : (not (is_nil l.text) && not (writes i)) ≡ false = rw (takes i) (ground arith) in
      elim (Bool-cases l.ended) [
        | inl e ↦ (
          turn ∷ [],
          rw (q, parts) (rw (e, same, last e)),
          taken_chunk turn [] (takes i)
              ∙ (rw e (ap (λ s. l.text ++ s) (sym (read_line-last body e)) ∙ read_line-whole body)),
        )
        | inr e ↦
            let shorter = read_line-shorter body e in
            let st' = sniff_line sniff st l.text in
            let (ts, eq, whole) =
              pump_reports_all takes fuel (i + 1) l.rest st' (omega (arith, shorter)) in
            (
              turn ∷ ts,
              rw (q, parts) (rw (e, eq) (rw (more e, same))),
              taken_chunk turn ts (takes i) ∙ (rw (e, whole) (read_line-whole body)),
            )
      ]
