-- ===== src/Http/Kill.antt =====
-- internal/httpapi/runs.go: a halted run stays halted for every client of the API.
use riskkernel.Base.{
  ◌≡◌, ◌≢◌, refl, sym, subst, ap, ◌∙◌, String, str_eq, str_eq_iff, false, Bool-cases, inl, inr,
  Option, none, some, List, [], ◌∷◌, arith, Float64, Time,
}
use riskkernel.Governor
use riskkernel.Governor.{HaltReason, halt_none, halt_cancelled, HaltError, pre_step}
use riskkernel.Governor.Trace.{run_events, halted_stays}
use riskkernel.Storage.{Store}
use riskkernel.Runs.{Run, reason_text, begin_step, cancel, persist_halt}
use riskkernel.Runs.Writes.{RunEvent, run_step, governed, run_step-governed}
use riskkernel.Runs.Manager.{Manager, find_run, put_run, get, create, checkpoint}
use riskkernel.Runs.Registry.{find_run-put_run, find_run-put_run_other}
use riskkernel.Http.{
  Response, problem, CreateBody, Referenced, referenced, unusable, referenced_policy, create_with,
  create_run, begin_found, handle_begin_step, cancel_found, handle_cancel, save_found,
  handle_save_checkpoint, step_response,
}

-- A request that changes runs, with what the clocks answer and the id that a new run is given.
pub data Request (D : Type 0) : Type 0 where
  creates : Option (CreateBody D) → String → Time → Request D
  begins : String → Time → Time → Request D
  cancels : String → Time → Request D
  saves : String → Option (String × String) → Time → Request D

-- No new run is given the id.
abbrev pub KeepsId : {D : Type 0} → String → List (Request D) → Type 0
KeepsId rid [] = Unit
KeepsId rid (creates body uuid now ∷ qs) = (str_eq uuid rid ≡ false) × KeepsId rid qs
KeepsId rid (_ ∷ qs) = KeepsId rid qs

module _ {D S : Type 0} ⦃F : Float64 D⦄ ⦃B : Store D S⦄ where
  unfoldable pub handle : Request D → Manager D S → Manager D S × Response D
  handle (creates body uuid now) m = create_run body uuid now m
  handle (begins rid now stamp) m = handle_begin_step rid now stamp m
  handle (cancels rid stamp) m = handle_cancel rid stamp m
  handle (saves rid body stamp) m = handle_save_checkpoint rid body stamp m

  unfoldable pub handle_all : List (Request D) → Manager D S → Manager D S
  handle_all [] m = m
  handle_all (q ∷ qs) m = handle_all qs (handle q m).0

  -- The manager's run under the id is halted with the reason.
  abbrev pub HoldsHalted : String → HaltReason → Manager D S → Type 0
  HoldsHalted rid h m = (r : Run D) × (find_run rid m.runs ≡ some r) × (r.gov.halted ≡ h)

  event_keeps :
      (e : RunEvent D) (r : Run D) (s : Option S) (h : HaltReason)
      → h ≢ halt_none
      → r.gov.halted ≡ h
      → (run_step e r s).0.gov.halted ≡ h
  event_keeps e r s h ne same =
      let (g, o) = run_step-governed e r s in
      ap (λ (x : Governor.Run D). x.halted) g
      ∙ unfold run_events in
        (halted_stays (governed e ∷ []) r.gov (λ z. ne (sym same ∙ z))).0 ∙ same

  -- Another run is put back, or this one with the reason kept.
  put_keeps :
      (rid j : String) (h : HaltReason) (m : Manager D S) (q q' : Run D) (s : Option S)
      → HoldsHalted rid h m
      → find_run j m.runs ≡ some q
      → (q.gov.halted ≡ h → q'.gov.halted ≡ h)
      → HoldsHalted rid h (record m { runs = put_run j q' m.runs; store = s })
  put_keeps rid j h m q q' s (r, found, same) at_j kept = elim (Bool-cases (str_eq j rid)) [
    | inl e ↦
        let p : j ≡ rid = (str_eq_iff j rid).0 e in
        let two : some q ≡ some r = sym at_j ∙ ap (λ k. find_run k m.runs) p ∙ found in
        (
          q',
          subst (λ k. find_run k (put_run j q' m.runs) ≡ some q') p (find_run-put_run j q' m.runs),
          kept (some_subst q r two same),
        )
    | inr e ↦ (r, find_run-put_run_other j rid q' m.runs e ∙ found, same)
  ]
    where
      some_subst : (a b : Run D) → some a ≡ some b → b.gov.halted ≡ h → a.gov.halted ≡ h
      some_subst a b e p = cc

  begin_keeps :
      (o : Option (Run D)) (rid j : String) (h : HaltReason) (now stamp : Time) (m : Manager D S)
      → h ≢ halt_none
      → HoldsHalted rid h m
      → find_run j m.runs ≡ o
      → HoldsHalted rid h (begin_found o j now stamp m).0
  begin_keeps none rid j h now stamp m ne held e = held
  begin_keeps (some q) rid j h now stamp m ne held e =
      put_keeps rid j h m q (begin_step q now stamp m.store).0 (begin_step q now stamp m.store).1
        held e (λ p. unfold run_step in event_keeps (RunEvent.begins now stamp) q m.store h ne p)

  cancel_keeps :
      (o : Option (Run D)) (rid j : String) (h : HaltReason) (stamp : Time) (m : Manager D S)
      → h ≢ halt_none
      → HoldsHalted rid h m
      → find_run j m.runs ≡ o
      → HoldsHalted rid h (cancel_found o j stamp m).0
  cancel_keeps none rid j h stamp m ne held e = held
  cancel_keeps (some q) rid j h stamp m ne held e =
      put_keeps rid j h m q (cancel q stamp m.store).0 (cancel q stamp m.store).1 held e
        (λ p. unfold run_step in event_keeps (RunEvent.cancels stamp) q m.store h ne p)

  checkpoint-runs :
      (rid name payload : String) (stamp : Time) (m : Manager D S)
      → (checkpoint rid name payload stamp m).0.runs ≡ m.runs
  unfolding checkpoint
  checkpoint-runs rid name payload stamp m = ground arith

  save_keeps :
      (o : Option (Run D)) (rid j : String) (h : HaltReason) (body : Option (String × String))
      (stamp : Time) (m : Manager D S)
      → HoldsHalted rid h m
      → HoldsHalted rid h (save_found o j body stamp m).0
  save_keeps none rid j h body stamp m held = held
  save_keeps (some q) rid j h none stamp m held = held
  save_keeps (some q) rid j h (some (name, payload)) stamp m (r, found, same) =
      (r, ap (λ l. find_run rid l) (checkpoint-runs j name payload stamp m) ∙ found, same)

  create_keeps :
      (p : Referenced D) (body : CreateBody D) (rid uuid : String) (h : HaltReason) (now : Time)
      (m : Manager D S)
      → str_eq uuid rid ≡ false
      → HoldsHalted rid h m
      → HoldsHalted rid h (create_with p body uuid now m).0
  unfolding create
  create_keeps (unusable x) body rid uuid h now m ne held = held
  create_keeps (referenced under) body rid uuid h now m ne (r, found, same) =
      (r, find_run-put_run_other uuid rid _ m.runs ne ∙ found, same)

  handle_keeps :
      (q : Request D) (qs : List (Request D)) (rid : String) (h : HaltReason) (m : Manager D S)
      → h ≢ halt_none
      → KeepsId rid (q ∷ qs)
      → HoldsHalted rid h m
      → HoldsHalted rid h (handle q m).0 × KeepsId rid qs
  unfolding handle create_run handle_begin_step handle_cancel handle_save_checkpoint get
  handle_keeps (creates none uuid now) qs rid h m ne k held = (held, k.1)
  handle_keeps (creates (some body) uuid now) qs rid h m ne k held =
      (create_keeps (referenced_policy body.policy_ref m.store) body rid uuid h now m k.0 held, k.1)
  handle_keeps (begins j now stamp) qs rid h m ne k held =
      (begin_keeps (find_run j m.runs) rid j h now stamp m ne held refl, k)
  handle_keeps (cancels j stamp) qs rid h m ne k held =
      (cancel_keeps (find_run j m.runs) rid j h stamp m ne held refl, k)
  handle_keeps (saves j body stamp) qs rid h m ne k held =
      (save_keeps (find_run j m.runs) rid j h body stamp m held, k)

  all_keep :
      (qs : List (Request D)) (rid : String) (h : HaltReason) (m : Manager D S)
      → h ≢ halt_none
      → KeepsId rid qs
      → HoldsHalted rid h m
      → HoldsHalted rid h (handle_all qs m)
  unfolding handle_all
  all_keep [] rid h m ne k held = held
  all_keep (q ∷ qs) rid h m ne k held =
      let (held', k') = handle_keeps q qs rid h m ne k held in
      all_keep qs rid h (handle q m).0 ne k' held'

  refused_answer :
      (r : Run D) (now stamp : Time) (s : Option S)
      → r.gov.halted ≢ halt_none
      → (begin_step r now stamp s).3 ≡ some (record { reason = r.gov.halted; usage = r.gov.usage })
  unfolding begin_step pre_step persist_halt
  refused_answer r now stamp s ne = ground arith

  cancelled_gov :
      (r : Run D) (stamp : Time) (s : Option S)
      → r.gov.halted ≡ halt_none
      → (cancel r stamp s).0.gov.halted ≡ halt_cancelled
  unfolding cancel Governor.cancel persist_halt
  cancelled_gov r stamp s live = ground arith

  -- A run that the manager holds halted stays so for every client: after any requests that create
  -- runs under other ids, begin steps, cancel or checkpoint, on this run or on others, a step of it is
  -- answered 402 with the reason of the halt.
  pub halted_run_refuses :
      (rid : String) (h : HaltReason) (m : Manager D S) (qs : List (Request D)) (now stamp : Time)
      → h ≢ halt_none
      → HoldsHalted rid h m
      → KeepsId rid qs
      → (handle_begin_step rid now stamp (handle_all qs m)).1 ≡ problem 402 (reason_text h)
  unfolding handle_begin_step get
  halted_run_refuses rid h m qs now stamp ne held k =
      let (r, found, same) = all_keep qs rid h m ne k held in
      let halted = refused_answer r now stamp (handle_all qs m).store (λ z. ne (sym same ∙ z)) in
      rw (found, begin_found)
        (rw (halted, step_response) (ap (λ x. problem 402 (reason_text x)) same))

  -- The kill switch holds: after a cancel request on a live run and any further requests that create
  -- no run under its id, a step of it is answered 402 with the code "cancelled".
  pub cancelled_run_refuses :
      (rid : String) (r : Run D) (m : Manager D S) (qs : List (Request D)) (now stamp later : Time)
      → find_run rid m.runs ≡ some r
      → r.gov.halted ≡ halt_none
      → KeepsId rid qs
      → (handle_begin_step rid now later (handle_all qs (handle_cancel rid stamp m).0)).1
        ≡ problem 402 "cancelled"
  unfolding handle_cancel get
  cancelled_run_refuses rid r m qs now stamp later found live k =
      halted_run_refuses rid halt_cancelled _ qs now later (λ z. cc)
        (rw (found, cancel_found) (held_now)) k
    where
      held_now : HoldsHalted rid halt_cancelled (record m {
        runs = put_run rid (cancel r stamp m.store).0 m.runs;
        store = (cancel r stamp m.store).1;
      })
      held_now = (
        (cancel r stamp m.store).0,
        find_run-put_run rid (cancel r stamp m.store).0 m.runs,
        cancelled_gov r stamp m.store live,
      )
