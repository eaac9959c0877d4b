-- ===== src/Runs/Manager.antt =====
-- internal/runs/manager.go: the manager of the live runs, and crash-resume from the store.
use riskkernel.Base.{
  ℤ, pos, ◌+ℤ◌, ltb_ℤ, String, str_eq, Bool, true, false, not, ◌&&◌, ◌||◌, Option, none, some, List,
  [], ◌∷◌, map, is_some, if◌then◌else◌, Float64, Time, background,
}
use riskkernel.Governor
use riskkernel.Governor.{Budget, Usage, RunOption, with_restored_usage, with_restored_halt}
use riskkernel.Storage.{RunRecord, CheckpointRecord, failed, Result, ok, err, Store}
use riskkernel.Runs.{Run, View, reason_of_text, view, record_of, snapshot, persist_run}

-- `Manager`. The map of live runs holds one entry for each id.
pub record Manager (D S : Type 0) : Type 0 where
  pub default_budget : Budget D
  pub store : Option S
  pub runs : List (String × Run D)

pub record CreateOptions (D : Type 0) : Type 0 where
  pub id : String
  pub name : String
  pub budget : Option (Budget D)
  pub policy_ref : String
  pub metadata : List (String × String)

module _ {V : Type 0} where
  abbrev pub find_run : String → List (String × V) → Option V
  find_run k [] = none
  find_run k ((j, v) ∷ m) = if str_eq j k then some v else find_run k m

  abbrev pub put_run : String → V → List (String × V) → List (String × V)
  put_run k v [] = (k, v) ∷ []
  put_run k v ((j, w) ∷ m) = if str_eq j k then (k, v) ∷ m else (j, w) ∷ put_run k v m

abbrev pub or_else {ℓ} : {A : Type ℓ} → Option A → A → A
or_else none d = d
or_else (some a) d = a

module _ {D : Type 0} where
  abbrev pub budget_of : RunRecord D → Budget D
  budget_of rec = record {
    tokens = rec.budget_tokens;
    dollars = rec.budget_dollars;
    loops = rec.budget_loops;
    seconds = rec.budget_seconds;
  }

  abbrev pub row_usage : RunRecord D → Usage D
  row_usage rec = record {
    prompt_tokens = rec.usage_prompt_tokens;
    completion_tokens = rec.usage_completion_tokens;
    dollars = rec.usage_dollars;
    loops = rec.usage_loops;
  }

  abbrev pub checkpoint_usage : CheckpointRecord D → Usage D
  checkpoint_usage cp = record {
    prompt_tokens = cp.usage_prompt_tokens;
    completion_tokens = cp.usage_completion_tokens;
    dollars = cp.usage_dollars;
    loops = cp.usage_loops;
  }

  abbrev pub is_terminal : RunRecord D → Bool
  is_terminal rec = str_eq rec.status "halted" || str_eq rec.status "cancelled"

  -- The usage that a reloaded run starts from, and whether it was rolled back to a checkpoint.
  abbrev pub resume_point : RunRecord D → Result (CheckpointRecord D) → Usage D × Bool
  resume_point rec (err e) = (row_usage rec, false)
  resume_point rec (ok cp) =
      if not (is_terminal rec) && ltb_ℤ cp.usage_loops rec.usage_loops
      then (checkpoint_usage cp, true)
      else (row_usage rec, false)

  abbrev pub restore_options : RunRecord D → Usage D → List (RunOption D)
  restore_options rec usage =
      if is_terminal rec
      then with_restored_usage usage ∷ with_restored_halt (reason_of_text rec.halt_reason) ∷ []
      else with_restored_usage usage ∷ []

module _ {D : Type 0} ⦃F : Float64 D⦄ where
  -- `newRun`.
  unfoldable pub new_run : String → String → Budget D → List (String × String) → Time → Run D
  new_run rid name budget meta now = record {
    id = rid;
    name = name;
    budget = budget;
    policy_ref = "";
    metadata = meta;
    gov = Governor.new background budget [] now now;
    created_at = now;
    updated_at = now;
    cur_step_started = pos 0;
  }

module _ {D S : Type 0} ⦃F : Float64 D⦄ ⦃B : Store D S⦄ where
  -- `Create`; `uuid` is the id that `NewUUID` mints.
  unfoldable pub create : CreateOptions D → String → Time → Manager D S → Manager D S × Run D
  create opts uuid now m =
      let budget = or_else opts.budget m.default_budget in
      let rid = if str_eq opts.id "" then uuid else opts.id in
      let r = record (new_run rid opts.name budget opts.metadata now) {
        policy_ref = opts.policy_ref;
      } in
      (record m { runs = put_run rid r m.runs; store = persist_run r m.store }, r)

  -- `Get`.
  unfoldable pub get : String → Manager D S → Option (Run D)
  get rid m = find_run rid m.runs

  -- `reloadRun`, over a store: the run, and the store with the row of a rolled-back run rewritten.
  unfoldable pub reload_run : RunRecord D → Time → S → Run D × S
  reload_run rec now s =
      let (usage, rolled_back) = resume_point rec (B.latest_checkpoint rec.id s) in
      let r : Run D = record {
        id = rec.id;
        name = rec.name;
        budget = budget_of rec;
        policy_ref = rec.policy_ref;
        metadata = rec.metadata;
        gov = Governor.new background (budget_of rec) (restore_options rec usage) now now;
        created_at = rec.created_at;
        updated_at = rec.updated_at;
        cur_step_started = pos 0;
      } in
      (r, if rolled_back then (B.upsert_run (record_of r) s).1 else s)

  -- `restoreFromStore`: `none` if there is no store, no such row, or the lookup fails.
  abbrev pub restore_found : Result (RunRecord D) → Time → S → Option (Run D) × Option S
  restore_found (err e) now s = (none, some s)
  restore_found (ok rec) now s = let (r, s') = reload_run rec now s in (some r, some s')

  unfoldable pub restore_from_store : String → Time → Option S → Option (Run D) × Option S
  restore_from_store rid now none = (none, none)
  restore_from_store rid now (some s) = restore_found (B.get_run rid s) now s

  -- `GetOrCreate` from its write lock on: another caller may have put a run under the id since the
  -- first look, and then that one is returned and the restored one is dropped.
  abbrev pub commit_found :
      Option (Run D) → String → Option (Run D) → Time → Manager D S → Manager D S × Run D
  commit_found (some r) rid restored now m = (m, r)
  commit_found none rid (some r) now m = (record m { runs = put_run rid r m.runs }, r)
  commit_found none rid none now m =
      let r = new_run rid "" m.default_budget [] now in
      (record m { runs = put_run rid r m.runs; store = persist_run r m.store }, r)

  unfoldable pub commit : String → Option (Run D) → Time → Manager D S → Manager D S × Run D
  commit rid restored now m = commit_found (find_run rid m.runs) rid restored now m

  -- `GetOrCreate` with no other caller in between.
  abbrev pub get_found : Option (Run D) → String → Time → Manager D S → Manager D S × Run D
  get_found (some r) rid now m = (m, r)
  get_found none rid now m =
      let (restored, s') = restore_from_store rid now m.store in
      commit rid restored now (record m { store = s' })

  unfoldable pub get_or_create : String → Time → Manager D S → Manager D S × Run D
  get_or_create rid now m = get_found (find_run rid m.runs) rid now m

  -- The loop of `Reload`, with the number of runs reloaded so far.
  unfoldable pub reload_all :
      List (RunRecord D) → Time → List (String × Run D) → S → ℤ → List (String × Run D) × S × ℤ
  reload_all [] now live s n = (live, s, n)
  reload_all (rec ∷ recs) now live s n =
      let skip = reload_all recs now live s n in
      let (r, s') = reload_run rec now s in
      let load = reload_all recs now (put_run rec.id r live) s' (n +ℤ pos 1) in
      if is_some (find_run rec.id live) then skip else load

  -- `Reload`, from its listing on.
  abbrev pub reload_listed :
      Result (List (RunRecord D)) → Time → Manager D S → S → Manager D S × Result ℤ
  reload_listed (err e) now m s = (m, err e)
  reload_listed (ok recs) now m s =
      let (live, s', n) = reload_all recs now m.runs s (pos 0) in
      (record m { runs = live; store = some s' }, ok n)

  abbrev pub reload_from : Option S → Time → Manager D S → Manager D S × Result ℤ
  reload_from none now m = (m, ok (pos 0))
  reload_from (some s) now m = reload_listed (B.list_runs_by_status "running" s) now m s

  -- `Reload`.
  unfoldable pub reload : Time → Manager D S → Manager D S × Result ℤ
  reload now m = reload_from m.store now m

  -- `Checkpoint`: the run must be live; with no store nothing is kept.
  unfoldable pub checkpoint :
      String → String → String → Time → Manager D S → Manager D S × Result (Unit {0})
  checkpoint rid name payload stamp m = elim (find_run rid m.runs) [
    | none ↦ (m, err failed)
    | some r ↦ elim m.store [
      | none ↦ (m, ok tt)
      | some s ↦
          let (res, s') = B.save_checkpoint (snapshot r r.gov.usage.loops name payload stamp) s in
          (record m { store = some s' }, res)
    ]
  ]

  -- `List`.
  unfoldable pub list : Manager D S → List (View D)
  list m = map (λ (e : String × Run D). view e.1) m.runs
