-- ===== src/Storage/Lookups.antt =====
-- internal/storage/{sqlite,postgres,approvals}.go: what the statements of the two backends leave for a
-- lookup by key.
use riskkernel.Base.{
  ◌≡◌, refl, sym, ◌∙◌, ℕ, zero, suc, inl, inr, String, str_eq, str_eq_iff, Bool, Bool-cases, true,
  false, Option, none, some, List, [], ◌∷◌, ◌++◌, arith, if◌then◌else◌,
}
use riskkernel.Storage.{ApprovalRecord, approval_pending}
use riskkernel.Storage.Sqlite.{select_one, upsert, update, affected, is_pending_row}
use riskkernel.Storage.Postgres.{place, merged_row, without, upsert_version, is_approval}

module _ {R : Type 0} (hit : R → Bool) where
  -- A row of another key does not change a lookup, wherever it is placed.
  pub select_one-place_other :
      (n : ℕ) (r : R) (rs : List R)
      → hit r ≡ false
      → select_one hit (place n r rs) ≡ select_one hit rs
  select_one-place_other n r [] h = ground arith
  select_one-place_other zero r (q ∷ qs) h = ground arith
  select_one-place_other (suc n) r (q ∷ qs) h = ground (arith, select_one-place_other n r qs h)

  -- A row that is the only one of its key is found, wherever it is placed.
  pub select_one-place :
      (n : ℕ) (r : R) (rs : List R)
      → hit r ≡ true
      → select_one hit rs ≡ none
      → select_one hit (place n r rs) ≡ some r
  select_one-place n r [] h none_there = ground arith
  select_one-place zero r (q ∷ qs) h none_there = ground arith
  select_one-place (suc n) r (q ∷ qs) h none_there = ground (arith, select_one-place n r qs h)

  pub select_one-IsHit : (rs : List R) (r : R) → select_one hit rs ≡ some r → hit r ≡ true
  select_one-IsHit [] r h = ground (arith, h)
  select_one-IsHit (q ∷ rs) r h = ground (arith, select_one-IsHit rs r)

  pub select_one-snoc :
      (rs : List R) (r : R)
      → select_one hit (rs ++ r ∷ [])
        ≡ elim (select_one hit rs) [ none ↦ if hit r then some r else none | some q ↦ some q ]
  select_one-snoc [] r = refl
  select_one-snoc (q ∷ rs) r = elim (Bool-cases (hit q)) [
    | inl p ↦ rw p refl
    | inr p ↦ rw p (select_one-snoc rs r)
  ]

module _ {R : Type 0} (hit same : R → Bool) where
  pub select_one-without_other :
      ((q : R) → same q ≡ true → hit q ≡ false)
      → (rs : List R) → select_one hit (without same rs) ≡ select_one hit rs
  select_one-without_other apart [] = refl
  select_one-without_other apart (q ∷ rs) =
      ground (arith, apart q, select_one-without_other apart rs)

  pub select_one-without :
      ((q : R) → same q ≡ false → hit q ≡ false)
      → (rs : List R) → select_one hit (without same rs) ≡ none
  select_one-without covers [] = refl
  select_one-without covers (q ∷ rs) = ground (arith, covers q, select_one-without covers rs)

  select_one-covered :
      ((q : R) → hit q ≡ same q) → (rs : List R) → select_one hit rs ≡ select_one same rs
  select_one-covered agree [] = refl
  select_one-covered agree (q ∷ rs) = rw (agree q, select_one-covered agree rs)

-- An upsert of `new`, read by a key: `same` holds of the rows of the key of `new`, and a merge keeps it.
module _ {R : Type 0} (hit same : R → Bool) (merge : R → R) (new : R)
    (of_key : (q : R) → same q ≡ true → hit q ≡ hit new)
    (of_other : hit new ≡ true → (q : R) → hit q ≡ same q)
    (of_merge : (q : R) → hit (merge q) ≡ hit new) where
  abbrev pub upserted : List R → Option R
  upserted rs =
      if hit new then some (merged_row merge new (select_one same rs)) else select_one hit rs

  pub select_one-upsert : (rs : List R) → select_one hit (upsert same merge new rs) ≡ upserted rs
  select_one-upsert [] = refl
  select_one-upsert (q ∷ rs) = elim (Bool-cases (hit new)) [
    | inl p ↦ ground (arith, of_other p q, of_merge q, select_one-upsert rs)
    | inr p ↦ ground (arith, of_key q, of_merge q, select_one-upsert rs)
  ]

  hit-merged_row : (old : Option R) → hit (merged_row merge new old) ≡ hit new
  hit-merged_row none = refl
  hit-merged_row (some q) = of_merge q

  pub select_one-upsert_version :
      (at : ℕ) (rs : List R) → select_one hit (upsert_version at same merge new rs) ≡ upserted rs
  select_one-upsert_version at rs = elim (Bool-cases (hit new)) [
    | inl p ↦
        rw (p, if◌then◌else◌)
          (select_one-place hit at _ _ (hit-merged_row _ ∙ p)
            (select_one-without hit same (λ q h. of_other p q ∙ h) rs))
    | inr p ↦
        rw (p, if◌then◌else◌)
          (select_one-place_other hit at _ _ (hit-merged_row _ ∙ p)
            ∙ select_one-without_other hit same (λ q h. of_key q h ∙ p) rs)
  ]

  -- Two tables in which every key reads the same still do after the upsert of each backend.
  pub upserts_agree :
      (at : ℕ) (ss ps : List R)
      → select_one hit ss ≡ select_one hit ps
      → select_one same ss ≡ select_one same ps
      → select_one hit (upsert same merge new ss)
        ≡ select_one hit (upsert_version at same merge new ps)
  upserts_agree at ss ps h k =
      select_one-upsert ss ∙ (rw (h, k) refl ∙ sym (select_one-upsert_version at ps))

-- A row of a key, taken out and placed elsewhere with the same key.
module _ {R : Type 0} (hit same : R → Bool) (new : R) where
  pub select_one-moved :
      hit new ≡ true
      → ((q : R) → hit q ≡ same q)
      → (at : ℕ) (rs : List R) → select_one hit (place at new (without same rs)) ≡ some new
  select_one-moved h covers at rs =
      select_one-place hit at new _ h (select_one-without hit same (λ q e. covers q ∙ e) rs)

  pub select_one-moved_other :
      hit new ≡ false
      → ((q : R) → same q ≡ true → hit q ≡ false)
      → (at : ℕ) (rs : List R) → select_one hit (place at new (without same rs)) ≡ select_one hit rs
  select_one-moved_other h apart at rs =
      select_one-place_other hit at new _ h ∙ select_one-without_other hit same apart rs

-- Approvals: no two rows have one id.
abbrev pub HasUniqueIds : List ApprovalRecord → Type 0
HasUniqueIds [] = Unit
HasUniqueIds (a ∷ rows) = (select_one (is_approval a.id) rows ≡ none) × HasUniqueIds rows

pub snoc-HasUniqueIds :
    (rows : List ApprovalRecord) (a : ApprovalRecord)
    → select_one (is_approval a.id) rows ≡ none
    → HasUniqueIds rows
    → HasUniqueIds (rows ++ a ∷ [])
snoc-HasUniqueIds [] a fresh u = (refl, tt)
snoc-HasUniqueIds (q ∷ rows) a fresh (head, tail) = elim (Bool-cases (str_eq q.id a.id)) [
  | inl p ↦ ground (arith, p, fresh)
  | inr p ↦ (
    select_one-snoc (is_approval q.id) rows a
        ∙ rw head (ground (arith, str_eq_iff a.id q.id, str_eq_iff q.id a.id)),
    snoc-HasUniqueIds rows a (ground (arith, fresh)) tail,
  )
]

-- A decision on the row of an id.
abbrev pub is_pending : ApprovalRecord → Bool
is_pending a = str_eq a.status approval_pending

module _ (aid : String) (change : ApprovalRecord → ApprovalRecord) where
  abbrev pub changed : Option ApprovalRecord → Option ApprovalRecord
  changed none = none
  changed (some a) = some (if is_pending a then change a else a)

  abbrev pub pending_rows : Option ApprovalRecord → ℕ
  pending_rows none = 0
  pending_rows (some a) = if is_pending a then 1 else 0

  affected-none :
      (rows : List ApprovalRecord)
      → select_one (is_approval aid) rows ≡ none
      → affected (is_pending_row aid) rows ≡ 0
  affected-none [] h = refl
  affected-none (a ∷ rows) h = ground (arith, affected-none rows)

  -- The rows that the update affects are those of the key.
  pub affected-pending :
      (rows : List ApprovalRecord)
      → HasUniqueIds rows
      → affected (is_pending_row aid) rows ≡ pending_rows (select_one (is_approval aid) rows)
  affected-pending [] u = refl
  affected-pending (a ∷ rows) (head, tail) = elim (Bool-cases (str_eq a.id aid)) [
    | inl p ↦ ground (arith, p, affected-none rows (rw (sym ((str_eq_iff a.id aid).0 p)) head))
    | inr p ↦ ground (arith, p, affected-pending rows tail)
  ]

  -- A change that keeps the id.
  module _ (keeps : (a : ApprovalRecord) → (change a).id ≡ a.id) where
    pub select_one-update :
        (k : String) (rows : List ApprovalRecord)
        → select_one (is_approval k) (update (is_pending_row aid) change rows) ≡ (
            if str_eq k aid
            then changed (select_one (is_approval k) rows)
            else select_one (is_approval k) rows)
    select_one-update k [] = ground arith
    select_one-update k (a ∷ rows) = ground (
      arith,
      keeps a,
      str_eq_iff k aid,
      str_eq_iff a.id aid,
      str_eq_iff a.id k,
      select_one-update k rows,
    )

    kept_id : (a : ApprovalRecord) → (if is_pending_row aid a then change a else a).id ≡ a.id
    kept_id a = ground (arith, keeps a)

    pub update-HasUniqueIds :
        (rows : List ApprovalRecord)
        → HasUniqueIds rows
        → HasUniqueIds (update (is_pending_row aid) change rows)
    update-HasUniqueIds [] u = tt
    update-HasUniqueIds (a ∷ rows) (head, tail) = (
      rw (kept_id a) (select_one-update a.id rows ∙ rw head (ground arith)),
      update-HasUniqueIds rows tail,
    )
