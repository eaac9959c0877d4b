-- ===== src/Runs/Reload.antt =====
-- internal/runs/manager.go over the SQLite backend: the runs that a manager reloads when it starts.
use riskkernel.Base.{
  Bool, if◌then◌else◌, ◌||◌, ℤ, pos, ◌+ℤ◌, ◌<ℤ◌, ◌≤ℤ◌, ltb_ℤ, ◌≡◌, refl, sym, ap, ◌∙◌, ◌⊎◌, String,
  str_eq, str_eq_iff, Bool-cases, true, false, Option, none, some, List, [], ◌∷◌, arith, is_some,
  Option-cases, inl, inr, Float64, Time,
}
use riskkernel.Governor.{Usage, halt_none}
use riskkernel.Storage.{RunRecord, CheckpointRecord, Result, ok, err}
use riskkernel.Storage.Sqlite.{Db, Engine, sqlite, latest_checkpoint, list_runs_by_status}
use riskkernel.Storage.Tables.{latest-upsert_run}
use riskkernel.Runs.{Run, reason_of_text}
use riskkernel.Runs.Manager.{
  Manager, resume_point, find_run, put_run, reload_run, reload_from, reload_listed, reload_all,
  reload,
}
use riskkernel.Runs.Registry.{find_run-put_run, find_run-put_run_other}
use riskkernel.Runs.Resume.{new-restored}

abbrev IsIn : {A : Type 0} → A → List A → Type 0
IsIn a [] = ⊥
IsIn a (x ∷ xs) = (a ≡ x) ⊎ IsIn a xs

module _ {D : Type 0} where
  abbrev has_ended : RunRecord D → Bool
  has_ended rec = str_eq rec.status "halted" || str_eq rec.status "cancelled"

  abbrev row_counts : RunRecord D → Usage D
  row_counts rec = record {
    prompt_tokens = rec.usage_prompt_tokens;
    completion_tokens = rec.usage_completion_tokens;
    dollars = rec.usage_dollars;
    loops = rec.usage_loops;
  }

  -- The usage that a row is resumed with: that of its last checkpoint where the row is not terminal and
  -- counts more loops than the checkpoint, so that the crash was in mid-step, else the row's.
  abbrev ResumedWith : RunRecord D → Result (CheckpointRecord D) → Usage D → Type 0
  ResumedWith rec (err e) u = u ≡ row_counts rec
  ResumedWith rec (ok cp) u =
      ((has_ended rec ≡ false)
        × (cp.usage_loops <ℤ rec.usage_loops)
        × (u ≡ record {
          prompt_tokens = cp.usage_prompt_tokens;
          completion_tokens = cp.usage_completion_tokens;
          dollars = cp.usage_dollars;
          loops = cp.usage_loops;
        }))
      ⊎ (((has_ended rec ≡ true) ⊎ (rec.usage_loops ≤ℤ cp.usage_loops)) × (u ≡ row_counts rec))

  -- A run that is rebuilt from a row of `db`.
  abbrev pub Rebuilt : Db D → RunRecord D → Run D → Type 0
  Rebuilt db rec r =
      (r.id ≡ rec.id)
      × (r.budget ≡ record {
        tokens = rec.budget_tokens;
        dollars = rec.budget_dollars;
        loops = rec.budget_loops;
        seconds = rec.budget_seconds;
      })
      × (r.policy_ref ≡ rec.policy_ref)
      × ResumedWith rec (latest_checkpoint rec.id db) r.gov.usage
      × (r.gov.halted ≡ (if has_ended rec then reason_of_text rec.halt_reason else halt_none))

  -- Every row has a live run under its id.
  abbrev pub Covered : {V : Type 0} → List (RunRecord D) → List (String × V) → Type 0
  Covered [] live = Unit
  Covered (rec ∷ recs) live = (is_some (find_run rec.id live) ≡ true) × Covered recs live

  -- What stands under an id that was free: nothing, or the run that is rebuilt from a row of the id.
  abbrev IsRebuilt : Db D → List (RunRecord D) → String → Option (Run D) → Type 0
  IsRebuilt db recs rid none = Unit
  IsRebuilt db recs rid (some r) =
      (rec : RunRecord D) × IsIn rec recs × (rec.id ≡ rid) × Rebuilt db rec r

  -- What stands under an id after a reload, by what stood there before.
  abbrev pub Reloaded :
      Db D → List (RunRecord D) → String → Option (Run D) → Option (Run D) → Type 0
  Reloaded db recs rid (some q) after = after ≡ some q
  Reloaded db recs rid none after = IsRebuilt db recs rid after

  resumes :
      (rec : RunRecord D) (res : Result (CheckpointRecord D))
      → ResumedWith rec res (resume_point rec res).0
  resumes rec (err e) = refl
  resumes rec (ok cp) = elim (Bool-cases (has_ended rec)) [
    | inl e ↦ inr (inl e, rw e refl)
    | inr e ↦ elim (Bool-cases (ltb_ℤ cp.usage_loops rec.usage_loops)) [
      | inl q ↦ inl (e, ground (arith, q), rw (e, q) refl)
      | inr q ↦ inr (inr (ground (arith, q)), rw (e, q) refl)
    ]
  ]

module _ {D : Type 0} ⦃F : Float64 D⦄ ⦃E : Engine D⦄ where
  -- A reloaded row does not change the checkpoints.
  abbrev SameCheckpoints : Db D → Db D → Type 0
  SameCheckpoints s db = (j : String) → latest_checkpoint j s ≡ latest_checkpoint j db

  rebuilds :
      (rec : RunRecord D) (now : Time) (s db : Db D)
      → SameCheckpoints s db
      → Rebuilt db rec (reload_run rec now s).0
  unfolding reload_run
  rebuilds rec now s db same =
      let res = latest_checkpoint rec.id s in
      let (usage, halted) = new-restored rec (resume_point rec res).0 now in
      (
        refl,
        refl,
        refl,
        rw (usage, same rec.id) (resumes rec (latest_checkpoint rec.id db)),
        halted,
      )

  reload_keeps_checkpoints :
      (rec : RunRecord D) (now : Time) (s db : Db D)
      → SameCheckpoints s db
      → SameCheckpoints (reload_run rec now s).1 db
  unfolding reload_run
  reload_keeps_checkpoints rec now s db same j =
      elim (Bool-cases (resume_point rec (latest_checkpoint rec.id s)).1) [
        | inl e ↦ rw e (latest-upsert_run j _ s ∙ same j)
        | inr e ↦ rw e (same j)
      ]

  reload_all_keeps :
      (recs : List (RunRecord D)) (now : Time) (live : List (String × Run D)) (s : Db D) (n : ℤ)
      (rid : String) (q : Run D)
      → find_run rid live ≡ some q
      → find_run rid (reload_all recs now live s n).0 ≡ some q
  unfolding reload_all
  reload_all_keeps [] now live s n rid q h = h
  reload_all_keeps (rec ∷ recs) now live s n rid q h = elim (Option-cases (find_run rec.id live)) [
    | inl e ↦
        let (r, s') = reload_run rec now s in
        rw e (
          reload_all_keeps recs now (put_run rec.id r live) s' (n +ℤ pos 1) rid q
            (other_key rec.id rid r q live e h))
    | inr (x, e) ↦ rw e (reload_all_keeps recs now live s n rid q h)
  ]
    where
      other_key :
          (k j : String) (r q : Run D) (m : List (String × Run D))
          → find_run k m ≡ none
          → find_run j m ≡ some q
          → find_run j (put_run k r m) ≡ some q
      other_key k j r q m miss there = elim (Bool-cases (str_eq k j)) [
        | inl e ↦
            let same : k ≡ j = (str_eq_iff k j).0 e in
            cc (ap (λ i. find_run i m) (sym same) ∙ miss, there)
        | inr e ↦ find_run-put_run_other k j r m e ∙ there
      ]

  reload_all-Covered :
      (recs : List (RunRecord D)) (now : Time) (live : List (String × Run D)) (s : Db D) (n : ℤ)
      → Covered recs (reload_all recs now live s n).0
  unfolding reload_all
  reload_all-Covered [] now live s n = tt
  reload_all-Covered (rec ∷ recs) now live s n = elim (Option-cases (find_run rec.id live)) [
    | inl e ↦
        let (r, s') = reload_run rec now s in
        let live' = put_run rec.id r live in
        rw e (
          ap is_some (
              reload_all_keeps recs now live' s' (n +ℤ pos 1) rec.id r
                (find_run-put_run rec.id r live)),
          reload_all-Covered recs now live' s' (n +ℤ pos 1),
        )
    | inr (x, e) ↦ rw e (
      ap is_some (reload_all_keeps recs now live s n rec.id x e),
      reload_all-Covered recs now live s n,
    )
  ]

  also_later :
      (db : Db D) (rec : RunRecord D) (recs : List (RunRecord D)) (rid : String)
      (o : Option (Run D))
      → IsRebuilt db recs rid o
      → IsRebuilt db (rec ∷ recs) rid o
  also_later db rec recs rid none h = tt
  also_later db rec recs rid (some r) (x, m, same, built) = (x, inr m, same, built)

  reload_all-IsRebuilt :
      (recs : List (RunRecord D)) (now : Time) (live : List (String × Run D)) (s db : Db D) (n : ℤ)
      (rid : String)
      → SameCheckpoints s db
      → find_run rid live ≡ none
      → IsRebuilt db recs rid (find_run rid (reload_all recs now live s n).0)
  unfolding reload_all
  reload_all-IsRebuilt [] now live s db n rid same h = rw h tt
  reload_all-IsRebuilt (rec ∷ recs) now live s db n rid same h =
      elim (Option-cases (find_run rec.id live)) [
        | inr (x, e) ↦
            rw e
              (also_later db rec recs rid _ (reload_all-IsRebuilt recs now live s db n rid same h))
        | inl e ↦
            let (r, s') = reload_run rec now s in
            let live' = put_run rec.id r live in
            let kept = reload_keeps_checkpoints rec now s db same in
            elim (Bool-cases (str_eq rec.id rid)) [
              | inl q ↦
                  let own : rec.id ≡ rid = (str_eq_iff rec.id rid).0 q in
                  let there : find_run rid live' ≡ some r =
                    ap (λ i. find_run i live') (sym own) ∙ find_run-put_run rec.id r live in
                  rw e (
                    rw (reload_all_keeps recs now live' s' (n +ℤ pos 1) rid r there)
                      (rec, inl refl, own, rebuilds rec now s db same))
              | inr q ↦ rw e (
                  also_later db rec recs rid _ (
                    reload_all-IsRebuilt recs now live' s' db (n +ℤ pos 1) rid kept
                      (find_run-put_run_other rec.id rid r live q ∙ h)))
            ]
      ]

  -- If a SQLite store lists its running rows, Reload succeeds and every such row has a live run
  -- afterwards. Under an id that was live before stands the run that stood there, whatever the store
  -- says of it; under an id that was not, as every id is when the program starts, stands no run or one
  -- that is rebuilt from a listed row of that id, with the row's budget, policy and halt, and the row's
  -- usage, or that of its last checkpoint if the row is not terminal and counts a loop that the
  -- checkpoint does not.
  pub reload-Covered :
      (now : Time) (m : Manager D (Db D)) (db : Db D) (recs : List (RunRecord D)) (rid : String)
      → m.store ≡ some db
      → list_runs_by_status "running" db ≡ ok recs
      → let (m', res) = reload now m in
        Covered recs m'.runs
        × Reloaded db recs rid (find_run rid m.runs) (find_run rid m'.runs)
        × ((n : ℤ) × (res ≡ ok n))
  unfolding reload
  reload-Covered now m db recs rid stored listed =
      rw (stored, reload_from)
        (rw (listed, reload_listed)
          (reload_all-Covered recs now m.runs db (pos 0), reloaded, (_, refl)))
    where
      reloaded :
          Reloaded db recs rid
            (find_run rid m.runs)
            (find_run rid (reload_all recs now m.runs db (pos 0)).0)
      reloaded = elim (Option-cases (find_run rid m.runs)) [
        | inl e ↦ rw e (reload_all-IsRebuilt recs now m.runs db db (pos 0) rid (λ j. refl) e)
        | inr (q, e) ↦ rw e (reload_all_keeps recs now m.runs db (pos 0) rid q e)
      ]
