-- ===== src/Audit/Tests.antt =====
-- internal/audit/compliance.go: a concrete export. Its JSON is a prefix code, and its hash keeps the
-- whole text and moves it off the brace.
use Prim.Native.Char.{code}
use Prim.Native.String as Chars
use text.Mathlib.TextEquality.{Char-path}
use riskkernel.Base.{
  ℕ, ◌+◌, ℤ, pos, negsuc, ◌≡◌, refl, ◌⊎◌, String, none, List, [], ◌∷◌, map, arith,
}
use riskkernel.Storage.{ToolCallRecord}
use riskkernel.Audit.{
  Detail, model_call, tool_call, approval, Event, Hashing, RunData, collected, sort_stable,
  link_events, count_gated, count_blocked, build_controls, build_events, build_report, verify_chain,
}
use riskkernel.Audit.Chain.{NoBrace, Plain, AllPlain, IsEncoding, Collision, verify_chain_unique}
use riskkernel.Audit.Built.{verify_chain-build_report}
use riskkernel.Runs.{record_of}
use riskkernel.Sample.{live_run}

abbrev put_int : ℤ → List ℕ → List ℕ
put_int (pos n) rest = 0 ∷ n ∷ rest
put_int (negsuc n) rest = 1 ∷ n ∷ rest

put_int_unique : (a b : ℤ) (s t : List ℕ) → put_int a s ≡ put_int b t → (a ≡ b) × (s ≡ t)
put_int_unique (pos n) (pos m) s t e = (cc, cc)
put_int_unique (pos n) (negsuc m) s t e = cc
put_int_unique (negsuc n) (pos m) s t e = cc
put_int_unique (negsuc n) (negsuc m) s t e = (cc, cc)

abbrev put_text : String → List ℕ → List ℕ
put_text Chars.[] rest = 0 ∷ rest
put_text (Chars.◌∷◌ c s) rest = 1 ∷ code c ∷ put_text s rest

put_text_unique : (a b : String) (s t : List ℕ) → put_text a s ≡ put_text b t → (a ≡ b) × (s ≡ t)
put_text_unique Chars.[] Chars.[] s t e = (refl, cc)
put_text_unique Chars.[] (Chars.◌∷◌ d b) s t e = cc
put_text_unique (Chars.◌∷◌ c a) Chars.[] s t e = cc
put_text_unique (Chars.◌∷◌ c a) (Chars.◌∷◌ d b) s t e =
    let (p, q) = put_text_unique a b s t (cc) in let r = Char-path c d (cc) in (cc, q)

abbrev put_detail : Detail ℕ → List ℕ
put_detail (model_call i p m a b d) =
    2 ∷ put_int i (put_text p (put_text m (put_int a (put_int b (d ∷ [])))))
put_detail (tool_call i t s st) = 3 ∷ put_int i (put_text t (put_text s (put_text st [])))
put_detail (approval t s st by) = 4 ∷ put_text t (put_text s (put_text st (put_text by [])))

tail_eq : {x y : ℕ} {s t : List ℕ} → x ∷ s ≡ y ∷ t → s ≡ t
tail_eq e = cc

put_detail_unique : (a b : Detail ℕ) → put_detail a ≡ put_detail b → a ≡ b
put_detail_unique (model_call i p m a b d) (model_call i' p' m' a' b' d') e =
    let end = d ∷ [] in
    let end' = d' ∷ [] in
    let x4 = put_int b end in
    let y4 = put_int b' end' in
    let x3 = put_int a x4 in
    let y3 = put_int a' y4 in
    let (e0, r0) =
      put_int_unique i i' (put_text p (put_text m x3)) (put_text p' (put_text m' y3)) (tail_eq e) in
    let (e1, r1) = put_text_unique p p' (put_text m x3) (put_text m' y3) r0 in
    let (e2, r2) = put_text_unique m m' x3 y3 r1 in
    let (e3, r3) = put_int_unique a a' x4 y4 r2 in
    let (e4, r4) = put_int_unique b b' end end' r3 in cc
put_detail_unique (model_call i p m a b d) (tool_call i' t s st) e = cc
put_detail_unique (model_call i p m a b d) (approval t s st by) e = cc
put_detail_unique (tool_call i t s st) (model_call i' p m a b d) e = cc
put_detail_unique (tool_call i t s st) (tool_call i' t' s' st') e =
    let (e0, r0) = put_int_unique i i' _ _ (tail_eq e) in
    let (e1, r1) = put_text_unique t t' _ _ r0 in
    let (e2, r2) = put_text_unique s s' _ _ r1 in
    let (e3, r3) = put_text_unique st st' [] [] r2 in cc
put_detail_unique (tool_call i t s st) (approval t' s' st' by) e = cc
put_detail_unique (approval t s st by) (model_call i' p m a b d) e = cc
put_detail_unique (approval t s st by) (tool_call i' t' s' st') e = cc
put_detail_unique (approval t s st by) (approval t' s' st' by') e =
    let (e1, r1) = put_text_unique t t' _ _ (tail_eq e) in
    let (e2, r2) = put_text_unique s s' _ _ r1 in
    let (e3, r3) = put_text_unique st st' _ _ r2 in
    let (e4, r4) = put_text_unique by by' [] [] r3 in cc

abbrev lifted : List ℕ → List ℕ
lifted = map (λ (c : ℕ). 124 + c)

lifted-NoBrace : (s : List ℕ) → NoBrace (lifted s)
lifted-NoBrace [] = tt
lifted-NoBrace (c ∷ s) = (λ e. omega (arith, e), lifted-NoBrace s)

instance abbrev hashing : Hashing ℕ
hashing = record {
  sha256_hex = λ s. b'0' ∷ lifted s;
  canonical_json = λ n k t d. b'{' ∷ put_int n (put_text k (put_int t (put_detail d)));
}

-- A codec that writes every payload.
abbrev any_payload : Plain ℕ
any_payload n k t d = Unit

all-AllPlain : (evs : List (Event ℕ)) → AllPlain any_payload evs
all-AllPlain [] = tt
all-AllPlain (ev ∷ evs) = (tt, all-AllPlain evs)

hashing-IsEncoding : IsEncoding hashing any_payload
hashing-IsEncoding = record {
  hex_nonempty = λ s e. cc;
  hex_plain = λ s. (λ e. omega (arith, e), lifted-NoBrace s);
  json_opens = λ n k t d j. (_, refl);
  json_reads = λ n n' k k' t t' d d' j j' e.
      let (e0, r0) = put_int_unique n n' _ _ (cc) in
      let (e1, r1) = put_text_unique k k' _ _ r0 in
      let (e2, r2) = put_int_unique t t' _ _ r1 in (e0, e1, e2, put_detail_unique d d' r2);
}

abbrev call_row : String → ℤ → ToolCallRecord
call_row status at = record {
  id = "tc-1";
  run_id = "run-1";
  step_index = pos 1;
  tool = "search";
  side_effect = "";
  arguments = "{}";
  status = status;
  created_at = at;
}

abbrev exported : RunData ℕ
exported = record {
  run = record_of live_run;
  ledger = [];
  totals = record {
    run_id = "run-1";
    calls = pos 0;
    prompt_tokens = pos 0;
    completion_tokens = pos 0;
    dollars = 0;
  };
  tool_calls = call_row "blocked" (pos 7) ∷ call_row "approved" (pos 5) ∷ [];
  approvals = [];
}

abbrev times : List (Event ℕ) → List ℤ
times [] = []
times (ev ∷ evs) = ev.at ∷ times evs

in_order : times (build_events exported) ≡ pos 5 ∷ pos 7 ∷ []
unfolding build_events collected sort_stable link_events record_of
in_order = refl

-- A read-only call counts as gated: the gate was never asked about it.
counted : ((build_controls exported).gated ≡ 1) × ((build_controls exported).blocked ≡ 1)
unfolding build_controls count_gated count_blocked record_of
counted = (refl, refl)

verify_chain-build_report_example :
    verify_chain (build_report exported (pos 9)).events (build_report exported (pos 9)).chain_head
    ≡ none
verify_chain-build_report_example = verify_chain-build_report exported (pos 9)

verify_chain_unique_example :
    (build_events exported ≡ build_events exported)
    ⊎ Collision (build_events exported) (build_events exported)
verify_chain_unique_example =
    verify_chain_unique any_payload (build_events exported) (build_events exported)
      (build_report exported (pos 9)).chain_head hashing-IsEncoding (all-AllPlain _)
      (all-AllPlain _) (unfold build_report in verify_chain-build_report exported (pos 9))
      (unfold build_report in verify_chain-build_report exported (pos 9))
