-- ===== src/Http/Registered.antt =====
-- internal/httpapi/policies.go and runs.go over the SQLite backend: a policy that a client registers
-- is the one that later requests read.
use riskkernel.Base.{
  ◌≡◌, refl, sym, ap, ◌∙◌, pos, String, codes, str_eq, str_eq_iff, Bool-cases, inl, inr, true,
  false, Option, none, some, List, [], ◌∷◌, arith, if◌then◌else◌, Float64, Time,
}
use riskkernel.Governor.{Budget}
use riskkernel.Storage.{ApprovalRule, PolicyRecord, ok}
use riskkernel.Storage.Sqlite.{Db, Engine, sqlite, select_one, upsert, upsert_policy, get_policy}
use riskkernel.Policy.{all_space}
use riskkernel.Runs.{view}
use riskkernel.Runs.Manager.{Manager, new_run, create}
use riskkernel.Http.{
  Response, run_created, CreateBody, policy_budget, referenced_policy, create_run,
}
use riskkernel.Http.Policies.{
  PolicyBody, PolicyView, to_approval_rules, policy_shown, policy_view, body_record, declared,
  shown, register_policy, handle_get_policy, sqlite_policies,
}

-- What a response shows of a new run's budget.
abbrev pub budget_of : {D : Type 0} → Response D → Option (Budget D)
budget_of (run_created v) = some v.budget
budget_of _ = none

module _ {D : Type 0} where
  -- The row that is left: the new one, with the creation time of a row that was there.
  abbrev pub updated : Option (PolicyRecord D) → PolicyRecord D → PolicyRecord D
  updated none p = p
  updated (some old) p = record p { created_at = old.created_at }

  updated_budget :
      (o : Option (PolicyRecord D)) (p : PolicyRecord D)
      → policy_budget (updated o p) ≡ policy_budget p
  updated_budget none p = refl
  updated_budget (some old) p = refl

  select-upsert_policy :
      (q : String) (p : PolicyRecord D) (rows : List (PolicyRecord D))
      → select_one
          (λ x. str_eq x.name q)
          (upsert
            (λ old. str_eq old.name p.name)
            (λ old. record p { created_at = old.created_at })
            p
            rows)
        ≡ (if str_eq p.name q
            then some (updated (select_one (λ x. str_eq x.name q) rows) p)
            else select_one (λ x. str_eq x.name q) rows)
  select-upsert_policy q p [] = refl
  select-upsert_policy q p (x ∷ rows) = ground (
    arith,
    str_eq_iff p.name q,
    str_eq_iff x.name p.name,
    str_eq_iff x.name q,
    select-upsert_policy q p rows,
  )

  get_policy-upsert_policy :
      (q : String) (p : PolicyRecord D) (db : Db D)
      → get_policy q (upsert_policy p db).1 ≡ (
          if str_eq p.name q
          then ok (updated (select_one (λ x. str_eq x.name q) db.policies) p)
          else get_policy q db)
  unfolding get_policy upsert_policy
  get_policy-upsert_policy q p db = rw (select-upsert_policy q p db.policies) (ground arith)

abbrev stated_rules : Option (List ApprovalRule) → List ApprovalRule
stated_rules none = []
stated_rules (some rules) = rules

same_rules : (o : Option (List ApprovalRule)) → stated_rules o ≡ to_approval_rules o
same_rules none = refl
same_rules (some rules) = refl

same_name : (a : String) → str_eq a a ≡ true
same_name a = ground (arith, str_eq_iff a a)

not_blank : (a : String) → all_space (codes a) ≡ false → str_eq a "" ≡ false
unfolding all_space
not_blank a h = elim (Bool-cases (str_eq a "")) [
  | inl e ↦
      let same : a ≡ "" = (str_eq_iff a "").0 e in
      let blank : true ≡ false = ap (λ n. all_space (codes n)) (sym same) ∙ h in
      ground (arith, blank)
  | inr e ↦ e
]

module _ {D : Type 0} ⦃F : Float64 D⦄ ⦃E : Engine D⦄ where
  -- The row of `body` over `db`.
  abbrev pub row_of : PolicyBody D → Time → Db D → PolicyRecord D
  row_of body now db =
      let old = select_one (λ (x : PolicyRecord D). str_eq x.name body.name) db.policies in
      updated old (body_record body now)

  -- What a body asks for: no limits without a budget, no rules without a policy.
  unfoldable pub stated : Option (Budget D) → Budget D
  stated none = record { tokens = pos 0; dollars = F.zero_f; loops = pos 0; seconds = pos 0 }
  stated (some b) = b

  abbrev first_written : Option (PolicyRecord D) → Time → Time
  first_written none now = now
  first_written (some old) now = old.created_at

  -- The row that a body leaves over `db`, as it is shown.
  unfoldable pub registered_view : PolicyBody D → Time → Db D → PolicyView D
  unfolding stated
  registered_view body now db = record {
    name = body.name;
    budget = stated body.budget;
    tool_allowlist = body.tool_allowlist;
    require_for = stated_rules body.approval_policy;
    created_at =
        first_written (select_one (λ (x : PolicyRecord D). str_eq x.name body.name) db.policies)
          now;
    updated_at = now;
  }

  stated-declared : (b : Option (Budget D)) → stated b ≡ declared b
  unfolding stated
  stated-declared none = refl
  stated-declared (some b) = refl

  view_same :
      (body : PolicyBody D) (now : Time) (db : Db D)
      → registered_view body now db ≡ policy_view (row_of body now db)
  unfolding registered_view
  view_same body now db =
      go (select_one (λ (x : PolicyRecord D). str_eq x.name body.name) db.policies)
    where
      go :
          (o : Option (PolicyRecord D))
          → record {
            name = body.name;
            budget = stated body.budget;
            tool_allowlist = body.tool_allowlist;
            require_for = stated_rules body.approval_policy;
            created_at = first_written o now;
            updated_at = now;
          }
            ≡ policy_view (updated o (body_record body now))
      go none = rw (stated-declared body.budget, same_rules body.approval_policy) refl
      go (some old) = rw (stated-declared body.budget, same_rules body.approval_policy) refl

  reads_back :
      (body : PolicyBody D) (now : Time) (db : Db D)
      → get_policy body.name (upsert_policy (body_record body now) db).1 ≡ ok (row_of body now db)
  reads_back body now db =
      rw (get_policy-upsert_policy body.name (body_record body now) db)
        (rw (same_name body.name) refl)

  registers :
      (body : PolicyBody D) (now : Time) (db : Db D)
      → all_space (codes body.name) ≡ false
      → register_policy (some body) now (some db) ≡ (
        some (upsert_policy (body_record body now) db).1,
        policy_shown (policy_view (row_of body now db)),
      )
  unfolding register_policy upsert_policy
  registers body now db h = rw h (rw (reads_back body now db) refl)

  answers :
      (body : PolicyBody D) (now : Time) (db : Db D) (q : String)
      → handle_get_policy q (some (upsert_policy (body_record body now) db).1) ≡ (
          if str_eq body.name q
          then policy_shown (policy_view (row_of body now db))
          else handle_get_policy q (some db))
  unfolding handle_get_policy
  answers body now db q = elim (Bool-cases (str_eq body.name q)) [
    | inl e ↦
        let same : body.name ≡ q = (str_eq_iff body.name q).0 e in
        let db' = (upsert_policy (body_record body now) db).1 in
        rw e (ap (λ n. shown (get_policy n db')) (sym same) ∙ ap shown (reads_back body now db))
    | inr e ↦ rw (get_policy-upsert_policy q (body_record body now) db) (rw e refl)
  ]

  governs :
      (body : PolicyBody D) (now : Time) (db : Db D) (m : Manager D (Db D)) (ask : CreateBody D)
      (uuid : String) (later : Time)
      → all_space (codes body.name) ≡ false
      → ask.policy_ref ≡ body.name
      → ask.budget ≡ none
      → budget_of
          (create_run
            (some ask)
            uuid
            later
            (record m { store = some (upsert_policy (body_record body now) db).1 })).1
        ≡ some (declared body.budget)
  unfolding create_run create referenced_policy view new_run
  governs body now db m ask uuid later h named inline =
      let old = select_one (λ (x : PolicyRecord D). str_eq x.name body.name) db.policies in
      rw named (
        rw inline (
          rw (not_blank body.name h)
            (rw (reads_back body now db) (ap some (updated_budget old (body_record body now))))))

  -- After a policy is registered in a SQLite backend that takes the write, under a name that is not
  -- blank, the row that is left has the body's name, limits, allowlist and rules, with the creation time
  -- of a row of that name that was there, and no limits or rules where the body has none; the answer
  -- shows that row; reading any name answers that row for this name and what it answered
  -- before for every other; and a run created under the name with no budget of its own gets the
  -- budget of the body as it is, with negative limits too, and no limit where the body has no budget.
  pub registered_policy_governs :
      (body : PolicyBody D) (now : Time) (db : Db D) (q : String) (m : Manager D (Db D))
      (ask : CreateBody D) (uuid : String) (later : Time)
      → all_space (codes body.name) ≡ false
      → ask.policy_ref ≡ body.name
      → ask.budget ≡ none
      → let after = register_policy (some body) now (some db) in
        let row = registered_view body now db in
        (after.1 ≡ policy_shown row)
        × (handle_get_policy q after.0
            ≡ (if str_eq body.name q then policy_shown row else handle_get_policy q (some db)))
        × (budget_of (create_run (some ask) uuid later (record m { store = after.0 })).1
            ≡ some (stated body.budget))
  registered_policy_governs body now db q m ask uuid later h named inline =
      rw (registers body now db h, view_same body now db, stated-declared body.budget)
        (refl, answers body now db q, governs body now db m ask uuid later h named inline)
