-- ===== src/Storage/Agreement.antt =====
-- internal/storage/{sqlite,postgres}.go: two databases that hold the same rows, and the writes of the two
-- backends, but for the decisions on approvals.
use riskkernel.Base.{
  ◌≡◌, refl, sym, ap, ◌∙◌, ℕ, ℤ, leb_ℤ, int_laws, String, str_eq_iff, Bool, true, false, not, ◌&&◌,
  is_some, Option, none, some, List, [], ◌∷◌, ◌++◌, arith, if◌then◌else◌,
}
use riskkernel.Storage.{
  RunRecord, StepRecord, LedgerEntry, ToolCallRecord, CheckpointRecord, ApprovalRecord,
  PolicyRecord, Fact, Result, ok, err, failed,
}
use riskkernel.Storage.Sqlite
use riskkernel.Storage.Sqlite.{Db, select_one, has_run}
use riskkernel.Storage.Postgres
use riskkernel.Storage.Postgres.{is_run, is_step, is_policy, is_approval, is_call}
use riskkernel.Storage.Listings
use riskkernel.Storage.Listings.{is_fact}
use riskkernel.Storage.Lookups.{upserts_agree, HasUniqueIds, snoc-HasUniqueIds, select_one-snoc}

-- Two tables in which every key reads the same row, if any.
abbrev pub ReadAlike : {K R : Type 0} → (K → R → Bool) → List R → List R → Type 0
ReadAlike {K = K} of_key ss ps = (k : K) → select_one (of_key k) ss ≡ select_one (of_key k) ps

abbrev pub step_of : {D : Type 0} → String × ℤ → StepRecord D → Bool
step_of (rid, i) = is_step rid i

abbrev pub fact_of : String × String → Fact → Bool
fact_of (ns, k) = is_fact ns k

-- The two databases hold the same rows: the tables with a key read alike, and those that only grow are
-- equal.
abbrev pub SameRows : {D : Type 0} → Db D → Db D → Type 0
SameRows s p =
    ReadAlike is_run s.runs p.runs
    × ReadAlike step_of s.steps p.steps
    × ReadAlike is_policy s.policies p.policies
    × ReadAlike fact_of s.facts p.facts

abbrev pub SameLogs : {D : Type 0} → Db D → Db D → Type 0
SameLogs s p =
    (s.ledger ≡ p.ledger) × (s.tool_calls ≡ p.tool_calls) × (s.checkpoints ≡ p.checkpoints)

-- With that, the ids of SQLite's approvals are unique, so that a decision concerns one row.
abbrev pub AgreesWith : {D : Type 0} → Db D → Db D → Type 0
AgreesWith s p =
    SameRows s p
    × SameLogs s p
    × ReadAlike is_approval s.approvals p.approvals
    × HasUniqueIds s.approvals

same_int : (a i : ℤ) → (leb_ℤ a i && leb_ℤ i a) ≡ true → a ≡ i
same_int a i h = grind int_laws

module _ {D : Type 0} (s p : Db D) where
  -- A write answers the same on both, and leaves them in agreement.
  abbrev pub Agreed : Result (Unit {0}) × Db D → Result (Unit {0}) × Db D → Type 0
  Agreed a b = (a.0 ≡ b.0) × AgreesWith a.1 b.1

  pub runs_agree :
      (at : ℕ) (r : RunRecord D)
      → AgreesWith s p
      → Agreed (Sqlite.upsert_run r s) (Postgres.upsert_run at r p)
  unfolding Sqlite.upsert_run Postgres.upsert_run
  runs_agree at r ((runs, steps, policies, facts), logs, approvals, unique) = (
    refl,
    (
      (
        λ k.
            upserts_agree (is_run k) (is_run r.id)
              (λ old. record r { created_at = old.created_at; policy_ref = old.policy_ref }) r
              (λ q e. rw ((str_eq_iff q.id r.id).0 e) refl)
              (λ e q. rw ((str_eq_iff r.id k).0 e) refl) (λ q. refl) at s.runs p.runs (runs k)
              (runs r.id),
        steps,
        policies,
        facts,
      ),
      logs,
      approvals,
      unique,
    ),
  )

  pub policies_agree :
      (at : ℕ) (l : PolicyRecord D)
      → AgreesWith s p
      → Agreed (Sqlite.upsert_policy l s) (Postgres.upsert_policy at l p)
  unfolding Sqlite.upsert_policy Postgres.upsert_policy
  policies_agree at l ((runs, steps, policies, facts), logs, approvals, unique) = (
    refl,
    (
      (
        runs,
        steps,
        λ k.
            upserts_agree (is_policy k) (is_policy l.name)
              (λ old. record l { created_at = old.created_at }) l
              (λ q e. rw ((str_eq_iff q.name l.name).0 e) refl)
              (λ e q. rw ((str_eq_iff l.name k).0 e) refl) (λ q. refl) at s.policies p.policies
              (policies k) (policies l.name),
        facts,
      ),
      logs,
      approvals,
      unique,
    ),
  )

  pub facts_agree :
      (at : ℕ) (f : Fact)
      → AgreesWith s p
      → Agreed (Listings.put_fact f s) (Postgres.put_fact at f p)
  unfolding Listings.put_fact Postgres.put_fact
  facts_agree at f ((runs, steps, policies, facts), logs, approvals, unique) = (
    refl,
    (
      (
        runs,
        steps,
        policies,
        λ (ns, k).
            upserts_agree (is_fact ns k) (is_fact f.namespace f.key) (λ old. f) f
              (λ q e. ground (arith, str_eq_iff q.namespace f.namespace, str_eq_iff q.key f.key))
              (λ e q. ground (arith, str_eq_iff f.namespace ns, str_eq_iff f.key k)) (λ q. refl) at
              s.facts p.facts (facts (ns, k)) (facts (f.namespace, f.key)),
      ),
      logs,
      approvals,
      unique,
    ),
  )

  has_run-agree : (k : String) → AgreesWith s p → has_run k s ≡ has_run k p
  has_run-agree k ((runs, steps, policies, facts), logs, approvals, unique) = ap is_some (runs k)

  -- A write behind a test that both make alike.
  guarded_agree :
      (b c : Bool) (x y : Db D)
      → b ≡ c
      → (b ≡ true → AgreesWith x y)
      → AgreesWith s p
      → Agreed
          (if b then (ok tt, x) else (err failed, s))
          (if c then (ok tt, y) else (err failed, p))
  guarded_agree true c x y e h g = rw (sym e) (refl, h refl)
  guarded_agree false c x y e h g = rw (sym e) (refl, g)

  pub steps_agree :
      (at : ℕ) (st : StepRecord D)
      → AgreesWith s p
      → Agreed (Sqlite.upsert_step st s) (Postgres.upsert_step at st p)
  unfolding Sqlite.upsert_step Postgres.upsert_step
  steps_agree at st ((runs, steps, policies, facts), logs, approvals, unique) =
      let g : AgreesWith s p = ((runs, steps, policies, facts), logs, approvals, unique) in
      guarded_agree _ _ _ _ (has_run-agree st.run_id g)
        (λ q. (
          (
            runs,
            λ (rid, i).
                upserts_agree (is_step rid i) (is_step st.run_id st.index)
                  (λ old. record st { started_at = old.started_at }) st
                  (λ r e. ground (arith, str_eq_iff r.run_id st.run_id, same_int r.index st.index))
                  (λ e r. ground (arith, str_eq_iff st.run_id rid, same_int st.index i)) (λ r. refl)
                  at s.steps p.steps (steps (rid, i)) (steps (st.run_id, st.index)),
            policies,
            facts,
          ),
          logs,
          approvals,
          unique,
        ))
        g

  pub ledger_agrees :
      (e : LedgerEntry D)
      → AgreesWith s p
      → Agreed (Sqlite.append_ledger e s) (Postgres.append_ledger e p)
  unfolding Sqlite.append_ledger Postgres.append_ledger
  ledger_agrees e (rows, (ledger, calls, checkpoints), approvals, unique) =
      let g : AgreesWith s p = (rows, (ledger, calls, checkpoints), approvals, unique) in
      guarded_agree _ _ _ _ (has_run-agree e.run_id g)
        (λ q. (rows, (ap (λ l. l ++ e ∷ []) ledger, calls, checkpoints), approvals, unique)) g

  pub checkpoints_agree :
      (c : CheckpointRecord D)
      → AgreesWith s p
      → Agreed (Sqlite.save_checkpoint c s) (Postgres.save_checkpoint c p)
  unfolding Sqlite.save_checkpoint Postgres.save_checkpoint
  checkpoints_agree c (rows, (ledger, calls, checkpoints), approvals, unique) =
      let g : AgreesWith s p = (rows, (ledger, calls, checkpoints), approvals, unique) in
      guarded_agree _ _ _ _ (has_run-agree c.run_id g)
        (λ q. (rows, (ledger, calls, ap (λ l. l ++ c ∷ []) checkpoints), approvals, unique)) g

  -- Two tests in a row, as SQLite's model has them, are one.
  nested_tests :
      {A : Type 0} (a b : Bool) (x y : A)
      → (if a then (if b then x else y) else x) ≡ (if a && not b then y else x)
  nested_tests true true x y = refl
  nested_tests true false x y = refl
  nested_tests false b x y = refl

  pub tool_calls_agree :
      (t : ToolCallRecord)
      → AgreesWith s p
      → Agreed (Sqlite.append_tool_call t s) (Postgres.append_tool_call t p)
  unfolding Sqlite.append_tool_call Postgres.append_tool_call
  tool_calls_agree t (rows, (ledger, calls, checkpoints), approvals, unique) =
      let g : AgreesWith s p = (rows, (ledger, calls, checkpoints), approvals, unique) in
      rw (nested_tests (has_run t.run_id s) (is_some (select_one (is_call t.id) s.tool_calls))) (
        guarded_agree _ _ _ _ (rw (has_run-agree t.run_id g, calls) refl)
          (λ q. (rows, (ledger, ap (λ l. l ++ t ∷ []) calls, checkpoints), approvals, unique)) g)

  fresh_of : {A : Type 0} (b : Bool) (o : Option A) → (b && not (is_some o)) ≡ true → o ≡ none
  fresh_of b none h = refl
  fresh_of b (some x) h = ground (arith, h)

  pub approvals_agree :
      (a : ApprovalRecord)
      → AgreesWith s p
      → Agreed (Sqlite.create_approval a s) (Postgres.create_approval a p)
  unfolding Sqlite.create_approval Postgres.create_approval
  approvals_agree a (rows, logs, approvals, unique) =
      let g : AgreesWith s p = (rows, logs, approvals, unique) in
      rw (nested_tests (has_run a.run_id s) (is_some (select_one (is_approval a.id) s.approvals))) (
        guarded_agree _ _ _ _ (rw (has_run-agree a.run_id g, approvals a.id) refl)
          (λ q. (
            rows,
            logs,
            λ k.
                select_one-snoc (is_approval k) s.approvals a
                ∙ (rw (approvals k) refl ∙ sym (select_one-snoc (is_approval k) p.approvals a)),
            snoc-HasUniqueIds s.approvals a (fresh_of _ _ q) unique,
          ))
          g)
