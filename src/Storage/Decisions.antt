-- ===== src/Storage/Decisions.antt =====
-- internal/storage/{approvals,postgres}.go: ResolveApproval on the two backends.
use riskkernel.Base.{
  ◌≡◌, refl, sym, ap, ◌∙◌, ℕ, inl, inr, String, str_eq, str_eq_iff, Bool-cases, Option, none, some,
  arith, if◌then◌else◌, Time,
}
use riskkernel.Storage.{ApprovalRecord}
use riskkernel.Storage.Sqlite
use riskkernel.Storage.Sqlite.{
  Db, select_one, decided, is_pending_row, update, affected, resolution,
}
use riskkernel.Storage.Postgres
use riskkernel.Storage.Postgres.{is_approval, place, without, resolve_row}
use riskkernel.Storage.Lookups.{
  select_one-IsHit, select_one-moved, select_one-moved_other, is_pending, changed, pending_rows,
  affected-pending, select_one-update, update-HasUniqueIds,
}
use riskkernel.Storage.Agreement.{AgreesWith, Agreed}

module _ {D : Type 0} (s p : Db D) where
  -- A decision, with the row that its key finds in PostgreSQL.
  module _ (aid : String) (at : ℕ) (decide : ApprovalRecord → ApprovalRecord)
      (keeps : (a : ApprovalRecord) → (decide a).id ≡ a.id) where
    lookup_updated :
        (o : Option ApprovalRecord)
        → select_one (is_approval aid) p.approvals ≡ o
        → AgreesWith s p
        → (k : String)
        → select_one (is_approval k) (update (is_pending_row aid) decide s.approvals)
          ≡ (if str_eq k aid then changed aid decide o else select_one (is_approval k) p.approvals)
    lookup_updated o e (rows, logs, approvals, unique) k =
        select_one-update aid decide keeps k s.approvals ∙ elim (Bool-cases (str_eq k aid)) [
          | inl q ↦ rw (q, (str_eq_iff k aid).0 q, approvals aid, e) refl
          | inr q ↦ rw (q, approvals k) refl
        ]

    count_agrees :
        (o : Option ApprovalRecord)
        → select_one (is_approval aid) p.approvals ≡ o
        → AgreesWith s p
        → affected (is_pending_row aid) s.approvals ≡ pending_rows aid decide o
    count_agrees o e (rows, logs, approvals, unique) =
        affected-pending aid decide s.approvals unique
        ∙ ap (pending_rows aid decide) (approvals aid ∙ e)

    -- The row that was moved reads as the decided one under its key, and no other key reads otherwise.
    lookup_moved :
        (a : ApprovalRecord)
        → select_one (is_approval aid) p.approvals ≡ some a
        → (k : String)
        → select_one (is_approval k) (place at (decide a) (without (is_approval a.id) p.approvals))
          ≡ (if str_eq k aid then some (decide a) else select_one (is_approval k) p.approvals)
    lookup_moved a e k =
        let of_key : a.id ≡ aid =
          (str_eq_iff a.id aid).0 (select_one-IsHit (is_approval aid) p.approvals a e) in
        elim (Bool-cases (str_eq k aid)) [
          | inl q ↦ rw q (
              select_one-moved (is_approval k) (is_approval a.id) (decide a)
                (rw (keeps a, of_key, (str_eq_iff k aid).0 q) ((str_eq_iff aid aid).1 refl))
                (λ r. rw (of_key, (str_eq_iff k aid).0 q) refl) at p.approvals)
          | inr q ↦ rw q (
              select_one-moved_other (is_approval k) (is_approval a.id) (decide a)
                (rw (keeps a, of_key) (ground (arith, q, str_eq_iff aid k, str_eq_iff k aid)))
                (λ r h.
                  ground (
                    arith,
                    h,
                    of_key,
                    q,
                    str_eq_iff r.id a.id,
                    str_eq_iff r.id k,
                    str_eq_iff k aid,
                  ))
                at p.approvals)
        ]

    -- The key of a row that is not there, or is decided, reads as it did.
    lookup_kept :
        (o : Option ApprovalRecord)
        → select_one (is_approval aid) p.approvals ≡ o
        → (k : String)
        → (if str_eq k aid then o else select_one (is_approval k) p.approvals)
          ≡ select_one (is_approval k) p.approvals
    lookup_kept o e k = elim (Bool-cases (str_eq k aid)) [
      | inl q ↦ rw (q, (str_eq_iff k aid).0 q) (sym e)
      | inr q ↦ rw q refl
    ]

    row_agrees :
        (o : Option ApprovalRecord)
        → select_one (is_approval aid) p.approvals ≡ o
        → AgreesWith s p
        → Agreed s p
            (
              resolution (affected (is_pending_row aid) s.approvals),
              record s { approvals = update (is_pending_row aid) decide s.approvals },
            )
            (resolve_row at decide o p)
    row_agrees none e (rows, logs, approvals, unique) =
        let g : AgreesWith s p = (rows, logs, approvals, unique) in
        (
          ap resolution (count_agrees none e g),
          (
            rows,
            logs,
            λ k. lookup_updated none e g k ∙ lookup_kept none e k,
            update-HasUniqueIds aid decide keeps s.approvals unique,
          ),
        )
    row_agrees (some a) e (rows, logs, approvals, unique) =
        let g : AgreesWith s p = (rows, logs, approvals, unique) in
        let counted : (n : ℕ)
            → pending_rows aid decide (some a) ≡ n
            → affected (is_pending_row aid) s.approvals ≡ n =
          λ n h. count_agrees (some a) e g ∙ h in
        elim (Bool-cases (is_pending a)) [
          | inl q ↦ rw q (
            ap resolution (counted 1 (rw q refl)),
            (
              rows,
              logs,
              λ k. lookup_updated (some a) e g k ∙ (rw q refl ∙ sym (lookup_moved a e k)),
              update-HasUniqueIds aid decide keeps s.approvals unique,
            ),
          )
          | inr q ↦ rw q (
            ap resolution (counted 0 (rw q refl)),
            (
              rows,
              logs,
              λ k. lookup_updated (some a) e g k ∙ (rw q refl ∙ lookup_kept (some a) e k),
              update-HasUniqueIds aid decide keeps s.approvals unique,
            ),
          )
        ]

  pub decisions_agree :
      (at : ℕ) (aid status reason by : String) (now : Time)
      → AgreesWith s p
      → Agreed s p
          (Sqlite.resolve_approval aid status reason by now s)
          (Postgres.resolve_approval at aid status reason by now p)
  unfolding Sqlite.resolve_approval Postgres.resolve_approval
  decisions_agree at aid status reason by now g =
      row_agrees aid at (decided status reason by now) (λ a. refl) _ refl g
