-- ===== src/Storage/Tables.antt =====
-- internal/storage/{sqlite,checkpoints,approvals}.go: what a write does to later reads.
use riskkernel.Base.{
  ◌≡◌, refl, String, str_eq, str_eq_iff, Bool, true, false, Option, none, some, List, [], ◌∷◌, ◌++◌,
  arith, if◌then◌else◌, Time,
}
use riskkernel.Storage.{
  RunRecord, StepRecord, CheckpointRecord, approval_pending, ApprovalRecord, not_found, ok, err,
}
use riskkernel.Storage.Sqlite.{
  Db, select, select_one, select_last, upsert, update, affected, has_run, upsert_run, get_run,
  upsert_step, save_checkpoint, latest_checkpoint, is_pending_row, decided, resolve_approval,
}

-- The row that `UpsertRun` leaves: the new one, but for the creation time and the policy of a row
-- that was there.
module _ {D : Type 0} where
  abbrev pub merged : Option (RunRecord D) → RunRecord D → RunRecord D
  merged none r = r
  merged (some old) r = record r { created_at = old.created_at; policy_ref = old.policy_ref }

  select-upsert :
      (j : String) (r : RunRecord D) (rows : List (RunRecord D))
      → select_one
          (λ q. str_eq q.id j)
          (upsert
            (λ old. str_eq old.id r.id)
            (λ old. record r { created_at = old.created_at; policy_ref = old.policy_ref })
            r
            rows)
        ≡ (if str_eq r.id j
            then some (merged (select_one (λ q. str_eq q.id j) rows) r)
            else select_one (λ q. str_eq q.id j) rows)
  select-upsert j r [] = refl
  select-upsert j r (q ∷ rows) =
      ground
        (arith, str_eq_iff r.id j, str_eq_iff q.id r.id, str_eq_iff q.id j, select-upsert j r rows)

  -- After `UpsertRun` the row reads back, and no other row has changed.
  pub get_run-upsert_run :
      (j : String) (r : RunRecord D) (db : Db D)
      → get_run j (upsert_run r db).1 ≡ (
          if str_eq r.id j
          then ok (merged (select_one (λ q. str_eq q.id j) db.runs) r)
          else get_run j db)
  unfolding get_run upsert_run
  get_run-upsert_run j r db = rw (select-upsert j r db.runs) (ground arith)

  pub has_run-upsert_run :
      (j : String) (r : RunRecord D) (db : Db D)
      → has_run j (upsert_run r db).1 ≡ (if str_eq r.id j then true else has_run j db)
  unfolding upsert_run
  has_run-upsert_run j r db = rw (select-upsert j r db.runs) (ground arith)

module _ {R : Type 0} (keep : R → Bool) where
  pub select_last-append :
      (rows : List R) (r : R)
      → select_last keep (rows ++ r ∷ []) ≡ (if keep r then some r else select_last keep rows)
  select_last-append [] r = refl
  select_last-append (q ∷ rows) r = rw (select_last-append rows r) (ground arith)

  pub select-append :
      (rows : List R) (r : R)
      → select keep (rows ++ r ∷ []) ≡ select keep rows ++ (if keep r then r ∷ [] else [])
  select-append [] r = refl
  select-append (q ∷ rows) r = ground (arith, select-append rows r)

module _ {D : Type 0} where
  -- For a run that has its row, the checkpoint that was saved last is the one that
  -- `LatestCheckpoint` reads, and a checkpoint of another run does not hide it.
  pub latest-save_checkpoint :
      (j : String) (c : CheckpointRecord D) (db : Db D)
      → has_run c.run_id db ≡ true
      → latest_checkpoint j (save_checkpoint c db).1
        ≡ (if str_eq c.run_id j then ok c else latest_checkpoint j db)
  unfolding latest_checkpoint save_checkpoint
  latest-save_checkpoint j c db h =
      rw (h, if◌then◌else◌)
        (rw (select_last-append (λ q. str_eq q.run_id j) db.checkpoints c) (ground arith))

-- Decisions on approvals.
module _ (hit : ApprovalRecord → Bool) (change : ApprovalRecord → ApprovalRecord) where
  affected-update :
      ((a : ApprovalRecord) → hit (change a) ≡ false)
      → (rows : List ApprovalRecord) → affected hit (update hit change rows) ≡ 0
  affected-update clear [] = refl
  affected-update clear (a ∷ rows) = ground (arith, clear a, affected-update clear rows)

  pub update-unaffected :
      (rows : List ApprovalRecord) → affected hit rows ≡ 0 → update hit change rows ≡ rows
  update-unaffected [] h = refl
  update-unaffected (a ∷ rows) h = ground (arith, update-unaffected rows)

module _ {D : Type 0} where
  -- A decision is taken once: after any decision on an id with a status other than pending,
  -- whether or not there was a pending row for it, a second one answers `ErrNotFound` and changes
  -- nothing.
  pub resolve_approval_once :
      (aid status reason by status' reason' by' : String) (at at' : Time) (db : Db D)
      → str_eq status approval_pending ≡ false
      → let db' = (resolve_approval aid status reason by at db).1 in
        resolve_approval aid status' reason' by' at' db' ≡ (err not_found, db')
  unfolding resolve_approval
  resolve_approval_once aid status reason by status' reason' by' at at' db h =
      let none_left =
        affected-update (is_pending_row aid) (decided status reason by at)
          (not_pending aid status reason by at h) db.approvals in
      rw none_left
        (rw (update-unaffected (is_pending_row aid) (decided status' reason' by' at') _ none_left))
    where
      not_pending :
          (aid status reason by : String) (at : Time)
          → str_eq status approval_pending ≡ false
          → (a : ApprovalRecord) → is_pending_row aid (decided status reason by at a) ≡ false
      not_pending aid status reason by at h a = rw h (ground arith)

-- What a write of one table leaves alone in the reads of another.
module _ {D : Type 0} where
  pub get_run-save_checkpoint :
      (j : String) (c : CheckpointRecord D) (db : Db D)
      → get_run j (save_checkpoint c db).1 ≡ get_run j db
  unfolding get_run save_checkpoint
  get_run-save_checkpoint j c db = ground arith

  pub latest-upsert_run :
      (j : String) (r : RunRecord D) (db : Db D)
      → latest_checkpoint j (upsert_run r db).1 ≡ latest_checkpoint j db
  unfolding latest_checkpoint upsert_run
  latest-upsert_run j r db = refl

  pub latest-upsert_step :
      (j : String) (st : StepRecord D) (db : Db D)
      → latest_checkpoint j (upsert_step st db).1 ≡ latest_checkpoint j db
  unfolding latest_checkpoint upsert_step
  latest-upsert_step j st db = ground arith
