-- ===== src/Http/Owned.antt =====
-- internal/httpapi/approvals.go: a decision sent to one run decides nothing of another.
use riskkernel.Base.{
  ◌≡◌, ◌⊎◌, inl, inr, refl, sym, ap, subst, ◌∙◌, String, str_eq, str_eq_iff, Bool, true, false,
  Bool-cases, Option-cases, Option, none, some, List, [], ◌∷◌, arith, if◌then◌else◌, Time,
}
use riskkernel.Storage.{
  ApprovalRecord, approval_pending, approval_approved, approval_denied, Result, ok, err,
}
use riskkernel.Storage.Sqlite.{
  Engine, Db, select, select_one, update, insert_newest, newest_first, found, is_pending_row,
  decided, sqlite, sqlite_approvals, get_approval, list_approvals, resolve_approval,
}
use riskkernel.Approval.Gate.{
  Decision, find_waiter, Gate, write_decision, after_decision, deliver, resolve,
}
use riskkernel.Http.Approvals.{
  ApprovalDecision, decision_to_bool, rows_of_run, Target, target, no_target, single_pending,
  pending_for_run, read_approval, find_target, decide_target, approve_decoded, handle_approve,
}

-- No row of the run has the id.
abbrev pub NotOf : String → String → ApprovalRecord → Type 0
NotOf rid k a = (str_eq a.run_id rid ≡ false) ⊎ (str_eq a.id k ≡ false)

abbrev pub AllNotOf : String → String → List ApprovalRecord → Type 0
AllNotOf rid k [] = Unit
AllNotOf rid k (a ∷ rows) = NotOf rid k a × AllNotOf rid k rows

module _ (rid k : String) where
  select-AllNotOf :
      (keep : ApprovalRecord → Bool) (rows : List ApprovalRecord)
      → AllNotOf rid k rows
      → AllNotOf rid k (select keep rows)
  select-AllNotOf keep [] h = tt
  select-AllNotOf keep (a ∷ rows) h = elim (Bool-cases (keep a)) [
    | inl e ↦ rw e (h.0, select-AllNotOf keep rows h.1)
    | inr e ↦ rw e (select-AllNotOf keep rows h.1)
  ]

  insert_newest-AllNotOf :
      (before : Time → Time → Bool) (at : ApprovalRecord → Time) (a : ApprovalRecord)
      (rows : List ApprovalRecord)
      → NotOf rid k a
      → AllNotOf rid k rows
      → AllNotOf rid k (insert_newest before at a rows)
  insert_newest-AllNotOf before at a [] n h = (n, tt)
  insert_newest-AllNotOf before at a (q ∷ rows) n h = elim (Bool-cases (before (at a) (at q))) [
    | inl e ↦ rw e (h.0, insert_newest-AllNotOf before at a rows n h.1)
    | inr e ↦ rw e (n, (h.0, h.1))
  ]

  newest_first-AllNotOf :
      (before : Time → Time → Bool) (at : ApprovalRecord → Time) (rows : List ApprovalRecord)
      → AllNotOf rid k rows
      → AllNotOf rid k (newest_first before at rows)
  newest_first-AllNotOf before at [] h = tt
  newest_first-AllNotOf before at (a ∷ rows) h =
      insert_newest-AllNotOf before at a (newest_first before at rows) h.0
        (newest_first-AllNotOf before at rows h.1)

  own_row :
      (a : ApprovalRecord) → NotOf rid k a → str_eq a.run_id rid ≡ true → str_eq a.id k ≡ false
  own_row a (inl e) h = cc
  own_row a (inr e) h = e

  -- A row that is picked for the run has another id.
  picked_of_run :
      (rows : List ApprovalRecord) (a : ApprovalRecord) (rest : List ApprovalRecord)
      → AllNotOf rid k rows
      → rows_of_run rid rows ≡ a ∷ rest
      → str_eq a.id k ≡ false
  picked_of_run [] a rest h e = cc
  picked_of_run (q ∷ rows) a rest h e = elim (Bool-cases (str_eq q.run_id rid)) [
    | inl p ↦ same_row q a (cc (rw p at e)) (own_row q h.0 p)
    | inr p ↦ picked_of_run rows a rest h.1 (rw p at e)
  ]
    where
      same_row : (q a : ApprovalRecord) → q ≡ a → str_eq q.id k ≡ false → str_eq a.id k ≡ false
      same_row q a e h = subst (λ x. str_eq x.id k ≡ false) e h

  named_row :
      (t : String) (rows : List ApprovalRecord) (a : ApprovalRecord)
      → AllNotOf rid k rows
      → select_one (λ q. str_eq q.id t) rows ≡ some a
      → str_eq a.run_id rid ≡ true
      → str_eq t k ≡ false
  named_row t [] a h e own = cc
  named_row t (q ∷ rows) a h e own = elim (Bool-cases (str_eq q.id t)) [
    | inl p ↦ same_row q a (cc (rw p at e)) h.0 p own
    | inr p ↦ named_row t rows a h.1 (rw p at e) own
  ]
    where
      same_row :
          (q a : ApprovalRecord)
          → q ≡ a
          → NotOf rid k q
          → str_eq q.id t ≡ true
          → str_eq a.run_id rid ≡ true
          → str_eq t k ≡ false
      same_row q a e n p own =
          subst (λ x. str_eq x k ≡ false) ((str_eq_iff q.id t).0 p)
            (own_row q n (subst (λ x. str_eq x.run_id rid ≡ true) (sym e) own))

  update-other :
      (t : String) (change : ApprovalRecord → ApprovalRecord) (rows : List ApprovalRecord)
      → ((a : ApprovalRecord) → (change a).id ≡ a.id)
      → str_eq t k ≡ false
      → select_one (λ a. str_eq a.id k) (update (is_pending_row t) change rows)
        ≡ select_one (λ a. str_eq a.id k) rows
  update-other t change [] same ne = refl
  update-other t change (a ∷ rows) same ne =
      let ih = update-other t change rows same ne in
      elim (Bool-cases (is_pending_row t a)) [
        | inr e ↦ rw e (elim (Bool-cases (str_eq a.id k)) [ inl p ↦ rw p | inr p ↦ rw p ih ])
        | inl e ↦
            let p : str_eq a.id k ≡ false = not_hit a e in
            let p' : str_eq (change a).id k ≡ false =
              ap (λ (x : String). str_eq x k) (same a) ∙ p in
            rw e (rw (p, p') ih)
      ]
    where
      not_hit : (a : ApprovalRecord) → is_pending_row t a ≡ true → str_eq a.id k ≡ false
      not_hit a e = subst (λ x. str_eq x k ≡ false) (sym ((str_eq_iff a.id t).0 (ground arith))) ne

module _ {D : Type 0} ⦃E : Engine D⦄ (rid k : String) where
  listed-AllNotOf :
      (status : String) (db : Db D) (rows : List ApprovalRecord)
      → AllNotOf rid k db.approvals
      → list_approvals status db ≡ ok rows
      → AllNotOf rid k rows
  unfolding list_approvals
  listed-AllNotOf status db rows h e = elim (Bool-cases (str_eq status "")) [
    | inl p ↦
        rows_eq (rw p at e)
          (newest_first-AllNotOf rid k E.text_before (λ a. a.created_at) db.approvals h)
    | inr p ↦ rows_eq (rw p at e) (
        newest_first-AllNotOf rid k E.text_before (λ a. a.created_at) _
          (select-AllNotOf rid k (λ a. str_eq a.status status) db.approvals h))
  ]
    where
      rows_eq :
          {x y : List ApprovalRecord}
          → ◌≡◌ {A = Result (List ApprovalRecord)} (ok x) (ok y)
          → AllNotOf rid k x
          → AllNotOf rid k y
      rows_eq e h = subst (AllNotOf rid k) (cc) h

  -- An approval that a decision for the run is about has another id.
  single-other :
      (rows : List ApprovalRecord) (t : String)
      → AllNotOf rid k rows
      → single_pending {D = D} (ok (rows_of_run rid rows)) ≡ target t
      → str_eq t k ≡ false
  single-other rows t h e = go (rows_of_run rid rows) refl e
    where
      go :
          (own : List ApprovalRecord)
          → rows_of_run rid rows ≡ own
          → single_pending {D = D} (ok own) ≡ target t
          → str_eq t k ≡ false
      go [] p e = cc
      go (a ∷ []) p e =
          let q = picked_of_run rid k rows a [] h p in subst (λ x. str_eq x k ≡ false) (cc) q
      go (a ∷ b ∷ own) p e = cc

  target-other :
      (aid t : String) (db : Db D)
      → AllNotOf rid k db.approvals
      → find_target {D = D} rid aid (some db) ≡ target t
      → str_eq t k ≡ false
  unfolding find_target pending_for_run get_approval list_approvals
  target-other aid t db h e = elim (Bool-cases (str_eq aid "")) [
    | inl p ↦ single-other _ t (listed-AllNotOf approval_pending db _ h refl) (rw p at e)
    | inr p ↦ elim (Option-cases (select_one (λ a. str_eq a.id aid) db.approvals)) [
      | inl q ↦ cc (rw q at (rw p at e))
      | inr (a, q) ↦ elim (Bool-cases (str_eq a.run_id rid)) [
        | inr own ↦ cc (rw own at (rw q at (rw p at e)))
        | inl own ↦
            let same = named_row rid k aid db.approvals a h q own in
            subst (λ x. str_eq x k ≡ false) (target_eq (rw own at (rw q at (rw p at e)))) same
      ]
    ]
  ]
    where
      target_eq : {x y : String} → ◌≡◌ {A = Target D} (target x) (target y) → x ≡ y
      target_eq e = cc

  deliver-store :
      (o : Option (Option Decision)) (t : String) (d : Decision) (g : Gate (Db D))
      → (deliver o t d g).store ≡ g.store
  deliver-store none t d g = refl
  deliver-store (some none) t d g = refl
  deliver-store (some (some c)) t d g = refl

  after_decision-store :
      (res : Result (Unit {0})) (t : String) (d : Decision) (g : Gate (Db D))
      → (after_decision res t d g).0.store ≡ g.store
  after_decision-store (ok u) t d g = deliver-store (find_waiter t g.waiters) t d g
  after_decision-store (err e) t d g = refl

  resolve-other :
      (t why who : String) (approve : Bool) (stamp : Time) (g : Gate (Db D)) (db : Db D)
      → g.store ≡ some db
      → str_eq t k ≡ false
      → read_approval k (resolve t approve why who stamp g).0.store ≡ read_approval k (some db)
  unfolding resolve resolve_approval get_approval
  resolve-other t why who approve stamp g db e ne =
      let status = if approve then approval_approved else approval_denied in
      let d : Decision = record { approved = approve; reason = why; by = who } in
      let w = write_decision t approve why who stamp g.store in
      ap (λ (o : Option (Db D)). read_approval k o)
        (after_decision-store w.0 t d (record g { store = w.1 })
          ∙ ap (λ (o : Option (Db D)). (write_decision t approve why who stamp o).1) e)
      ∙ ap (λ (o : Option ApprovalRecord). found o)
          (update-other rid k t (decided status why who stamp) db.approvals (λ a. refl) ne)

  decide-other :
      (o : Target D) (dec : ApprovalDecision) (approve : Bool) (stamp : Time) (g : Gate (Db D))
      (db : Db D)
      → g.store ≡ some db
      → ((t : String) → o ≡ target t → str_eq t k ≡ false)
      → read_approval k (decide_target o rid approve dec stamp g).0.store
        ≡ read_approval k (some db)
  decide-other (no_target r) dec approve stamp g db e h =
      ap (λ (s : Option (Db D)). read_approval k s) e
  decide-other (target t) dec approve stamp g db e h =
      resolve-other t dec.reason dec.decided_by approve stamp g db e (h t refl)

  decoded-other :
      (o : Option Bool) (dec : ApprovalDecision) (stamp : Time) (g : Gate (Db D)) (db : Db D)
      → g.store ≡ some db
      → AllNotOf rid k db.approvals
      → read_approval k (approve_decoded {D = D} o rid dec stamp g).0.store
        ≡ read_approval k (some db)
  decoded-other none dec stamp g db e h = ap (λ (s : Option (Db D)). read_approval k s) e
  decoded-other (some approve) dec stamp g db e h =
      decide-other (find_target rid dec.approval_id g.store) dec approve stamp g db e (λ t p.
        target-other dec.approval_id t db h
          (sym (ap (λ (s : Option (Db D)). find_target {D = D} rid dec.approval_id s) e) ∙ p))

  -- An approve request for a run leaves the approvals of other runs: over SQLite, whatever its body
  -- names and decides, an approval whose id no row of the run has reads as before.
  pub approve_leaves_others :
      (body : Option ApprovalDecision) (stamp : Time) (g : Gate (Db D)) (db : Db D)
      → g.store ≡ some db
      → AllNotOf rid k db.approvals
      → read_approval k (handle_approve {D = D} rid body stamp g).0.store
        ≡ read_approval k (some db)
  unfolding handle_approve
  approve_leaves_others none stamp g db e h = ap (λ (s : Option (Db D)). read_approval k s) e
  approve_leaves_others (some dec) stamp g db e h =
      decoded-other (decision_to_bool dec.decision) dec stamp g db e h
