-- ===== src/Runs/Registry.antt =====
-- internal/runs/manager.go: one live run for each id, and what a restarted manager hands out.
use riskkernel.Base.{
  ◌≡◌, refl, ◌≢◌, subst, String, str_eq, str_eq_iff, Option-cases, inl, inr, false, Option, none,
  some, List, [], ◌∷◌, arith, Float64, Time,
}
use riskkernel.Governor.{Budget, Usage, HaltReason, halt_none}
use riskkernel.Governor.Trace.{Event, AllRefuse, halted_stays}
use riskkernel.Storage.{Store}
use riskkernel.Storage.Sqlite.{Engine, Db, sqlite}
use riskkernel.Runs.{Run}
use riskkernel.Runs.Writes.{RunEvent, run_step}
use riskkernel.Runs.Manager.{
  Manager, find_run, put_run, new_run, restore_from_store, commit_found, commit, get_found,
  get_or_create,
}
use riskkernel.Runs.Resume.{Restores}
use riskkernel.Runs.Halted.{halt_survives_crash}

pub find_run-put_run :
    {V : Type 0} (k : String) (v : V) (m : List (String × V)) → find_run k (put_run k v m) ≡ some v
find_run-put_run k v [] = rw ((str_eq_iff k k).1 refl)
find_run-put_run k v ((j, w) ∷ m) =
    ground (arith, str_eq_iff k k, str_eq_iff j k, find_run-put_run k v m)

pub find_run-put_run_other :
    {V : Type 0} (j k : String) (v : V) (m : List (String × V))
    → str_eq j k ≡ false
    → find_run k (put_run j v m) ≡ find_run k m
find_run-put_run_other j k v [] h = rw h
find_run-put_run_other j k v ((i, w) ∷ m) h =
    ground (arith, h, str_eq_iff i j, find_run-put_run_other j k v m h)

module _ {D S : Type 0} ⦃F : Float64 D⦄ ⦃B : Store D S⦄ where
  commit_found-live :
      (o : Option (Run D)) (rid : String) (restored : Option (Run D)) (now : Time) (m : Manager D S)
      → find_run rid m.runs ≡ o
      → let (m', r) = commit_found o rid restored now m in find_run rid m'.runs ≡ some r
  commit_found-live (some q) rid restored now m e = e
  commit_found-live none rid (some q) now m e = find_run-put_run rid q m.runs
  commit_found-live none rid none now m e =
      find_run-put_run rid (new_run rid "" m.default_budget [] now) m.runs

  -- What `GetOrCreate` answers is what the map holds.
  commit-live :
      (rid : String) (restored : Option (Run D)) (now : Time) (m : Manager D S)
      → let (m', r) = commit rid restored now m in find_run rid m'.runs ≡ some r
  unfolding commit
  commit-live rid restored now m = commit_found-live (find_run rid m.runs) rid restored now m refl

  commit_hit :
      (rid : String) (yours : Option (Run D)) (now : Time) (m : Manager D S) (r : Run D)
      → find_run rid m.runs ≡ some r
      → commit rid yours now m ≡ (m, r)
  unfolding commit
  commit_hit rid yours now m r e = rw (e, commit_found)

  -- Two callers that both missed the map and race for one id get one run: whichever commits second
  -- is given the run of the first, and changes nothing, whatever it restored from the store itself.
  pub commit_race :
      (rid : String) (mine yours : Option (Run D)) (now now' : Time) (m : Manager D S)
      → let (m', r) = commit rid mine now m in commit rid yours now' m' ≡ (m', r)
  commit_race rid mine yours now now' m = commit_hit rid yours now' _ _ (commit-live rid mine now m)

  get_found-live :
      (o : Option (Run D)) (rid : String) (now : Time) (m : Manager D S)
      → find_run rid m.runs ≡ o
      → let (m', r) = get_found o rid now m in find_run rid m'.runs ≡ some r
  get_found-live (some q) rid now m e = e
  get_found-live none rid now m e =
      let (restored, s') = restore_from_store rid now m.store in
      commit-live rid restored now (record m { store = s' })

  -- What `GetOrCreate` answers is what the manager holds.
  pub get_or_create-live :
      (rid : String) (now : Time) (m : Manager D S)
      → let (m', r) = get_or_create rid now m in find_run rid m'.runs ≡ some r
  unfolding get_or_create
  get_or_create-live rid now m = get_found-live (find_run rid m.runs) rid now m refl

  commit_found-other :
      (o restored : Option (Run D)) (rid k : String) (now : Time) (m : Manager D S)
      → str_eq rid k ≡ false
      → find_run k (commit_found o rid restored now m).0.runs ≡ find_run k m.runs
  commit_found-other (some q) restored rid k now m h = refl
  commit_found-other none (some q) rid k now m h = find_run-put_run_other rid k q m.runs h
  commit_found-other none none rid k now m h =
      find_run-put_run_other rid k (new_run rid "" m.default_budget [] now) m.runs h

  -- `GetOrCreate` of one id leaves the runs of the others.
  pub get_or_create-other :
      (rid k : String) (now : Time) (m : Manager D S)
      → str_eq rid k ≡ false
      → find_run k (get_or_create rid now m).0.runs ≡ find_run k m.runs
  unfolding get_or_create commit
  get_or_create-other rid k now m h = elim (Option-cases (find_run rid m.runs)) [
    | inr (r, e) ↦ rw e
    | inl e ↦
        let (restored, s') = restore_from_store rid now m.store in
        rw (e, get_found)
          (rw e (commit_found-other none restored rid k now (record m { store = s' }) h))
  ]

  -- A second `GetOrCreate` of an id answers the run of the first and changes nothing.
  pub get_or_create_again :
      (rid : String) (now later : Time) (m : Manager D S)
      → let (m', r) = get_or_create rid now m in get_or_create rid later m' ≡ (m', r)
  unfolding get_or_create
  get_or_create_again rid now later m =
      rw (get_found-live (find_run rid m.runs) rid now m refl, get_found)

module _ {D : Type 0} ⦃F : Float64 D⦄ ⦃E : Engine D⦄ where
  -- A manager that has just started over a store, with no live runs.
  abbrev pub restarted : Budget D → Option (Db D) → Manager D (Db D)
  restarted b s = record { default_budget = b; store = s; runs = [] }

  restored_refuses :
      (rid : String) (b : Budget D) (later : Time) (s : Option (Db D)) (u : Usage D)
      (h : HaltReason) (es : List (Event D))
      → Restores (restore_from_store rid later s).0 u h
      → h ≢ halt_none
      → let (m', q) = get_or_create rid later (restarted b s) in
        (q.gov.usage ≡ u) × (q.gov.halted ≡ h) × AllRefuse h es q.gov
  unfolding get_or_create commit
  restored_refuses rid b later s u h es = go (restore_from_store {D = D} {S = Db D} rid later s).0
    where
      go :
          (o : Option (Run D))
          → Restores o u h
          → h ≢ halt_none
          → let q =
              (commit_found none rid o later
                (restarted b (restore_from_store {D = D} {S = Db D} rid later s).1)).1 in
            (q.gov.usage ≡ u) × (q.gov.halted ≡ h) × AllRefuse h es q.gov
      go none r ne = absurd r
      go (some q) r ne =
          let (same, loops, refused) = halted_stays es q.gov (rw r.1 ne) in
          (r.0, r.1, subst (λ w. AllRefuse w es q.gov) r.1 refused)

  -- A reused id is handed no fresh budget after a restart over SQLite: if a call halted a live run over
  -- a SQLite store that takes its writes, whatever the store held before, a manager that starts on the
  -- database that it left answers for that id a run with the same usage, which is halted for the same
  -- reason and refuses every guard call of every further sequence of calls.
  pub reused_id_stays_halted :
      (e : RunEvent D) (r : Run D) (b : Budget D) (later : Time) (db : Db D) (es : List (Event D))
      → r.gov.halted ≡ halt_none
      → (run_step e r (some db)).0.gov.halted ≢ halt_none
      → let (r', s', halt) = run_step e r (some db) in
        let (m', q) = get_or_create r.id later (restarted b s') in
        (q.gov.usage ≡ r'.gov.usage)
        × (q.gov.halted ≡ r'.gov.halted)
        × AllRefuse r'.gov.halted es q.gov
  reused_id_stays_halted e r b later db es live halted =
      restored_refuses r.id b later _ _ _ es (halt_survives_crash e r later db live halted) halted
