-- ===== src/Http/Policies.antt =====
-- internal/httpapi/policies.go: the handlers that register, list and show policy bundles, from the
-- decoded body on (`none` is a body that does not decode).
use riskkernel.Base.{
  ℕ, String, codes, Option, none, some, List, [], map, if◌then◌else◌, Float64, Time,
}
use riskkernel.Governor.{Budget}
use riskkernel.Storage.{ApprovalRule, PolicyRecord, not_found, failed, Result, ok, err}
use riskkernel.Storage.Sqlite.{Db, Engine, sqlite, upsert_policy, get_policy, list_policies}
use riskkernel.Policy.{all_space}
use riskkernel.Http.{no_budget, policy_budget}

-- A rule of a body has the fields of a stored one.
pub record PolicyBody (D : Type 0) : Type 0 where
  pub name : String
  pub budget : Option (Budget D)
  pub tool_allowlist : List String
  pub approval_policy : Option (List ApprovalRule)

-- What `policyView` shows.
pub record PolicyView (D : Type 0) : Type 0 where
  pub name : String
  pub budget : Budget D
  pub tool_allowlist : List String
  pub require_for : List ApprovalRule
  pub created_at : Time
  pub updated_at : Time

pub data PolicyReply (D : Type 0) : Type 0 where
  rejected : ℕ → String → PolicyReply D
  policy_shown : PolicyView D → PolicyReply D
  policies_listed : List (PolicyView D) → PolicyReply D

-- The methods of `Store` on policies.
pub record PolicyStore (D : Type 0) (S : Type 0) : Type 0 where
  pub put_policy : PolicyRecord D → S → Result (Unit {0}) × S
  pub read_policy : String → S → Result (PolicyRecord D)
  pub all_policies : S → Result (List (PolicyRecord D))

abbrev pub to_approval_rules : Option (List ApprovalRule) → List ApprovalRule
to_approval_rules none = []
to_approval_rules (some rules) = rules

module _ {D : Type 0} where
  abbrev pub policy_view : PolicyRecord D → PolicyView D
  policy_view p = record {
    name = p.name;
    budget = policy_budget p;
    tool_allowlist = p.tool_allowlist;
    require_for = p.approval_rules;
    created_at = p.created_at;
    updated_at = p.updated_at;
  }

  -- `saved`, or the record that was written where it cannot be read back.
  abbrev pub saved_policy : PolicyRecord D → Result (PolicyRecord D) → PolicyRecord D
  saved_policy rec (ok p) = p
  saved_policy rec (err e) = rec

  abbrev pub shown : Result (PolicyRecord D) → PolicyReply D
  shown (ok p) = policy_shown (policy_view p)
  shown (err not_found) = rejected 404 "not_found"
  shown (err failed) = rejected 500 "internal_error"

  abbrev pub listed : Result (List (PolicyRecord D)) → PolicyReply D
  listed (ok rows) = policies_listed (map policy_view rows)
  listed (err e) = rejected 500 "internal_error"

module _ {D : Type 0} ⦃F : Float64 D⦄ where
  abbrev pub declared : Option (Budget D) → Budget D
  declared none = no_budget
  declared (some b) = b

  abbrev pub body_record : PolicyBody D → Time → PolicyRecord D
  body_record body now =
      let b = declared body.budget in
      record {
        name = body.name;
        budget_tokens = b.tokens;
        budget_dollars = b.dollars;
        budget_loops = b.loops;
        budget_seconds = b.seconds;
        tool_allowlist = body.tool_allowlist;
        approval_rules = to_approval_rules body.approval_policy;
        created_at = now;
        updated_at = now;
      }

module _ {D S : Type 0} ⦃F : Float64 D⦄ ⦃P : PolicyStore D S⦄ where
  abbrev pub after_write : PolicyRecord D → Result (Unit {0}) × S → Option S × PolicyReply D
  after_write rec (err e, s) = (some s, rejected 500 "internal_error")
  after_write rec (ok u, s) =
      (some s, policy_shown (policy_view (saved_policy rec (P.read_policy rec.name s))))

  abbrev pub register_named : PolicyBody D → Time → Option S → Option S × PolicyReply D
  register_named body now none = (none, rejected 503 "no_store")
  register_named body now (some s) =
      let rec = body_record body now in after_write rec (P.put_policy rec s)

  -- `handleRegisterPolicy`.
  unfoldable pub register_policy :
      Option (PolicyBody D) → Time → Option S → Option S × PolicyReply D
  register_policy none now s = (s, rejected 400 "bad_request")
  register_policy (some body) now s =
      if all_space (codes body.name)
      then (s, rejected 400 "bad_request")
      else register_named body now s

module _ {D S : Type 0} ⦃P : PolicyStore D S⦄ where
  -- `handleListPolicies`.
  unfoldable pub handle_list_policies : Option S → PolicyReply D
  handle_list_policies none = rejected 503 "no_store"
  handle_list_policies (some s) = listed (P.all_policies s)

  -- `handleGetPolicy`.
  unfoldable pub handle_get_policy : String → Option S → PolicyReply D
  handle_get_policy name none = rejected 503 "no_store"
  handle_get_policy name (some s) = shown (P.read_policy name s)

module _ {D : Type 0} ⦃E : Engine D⦄ where
  instance abbrev pub sqlite_policies : PolicyStore D (Db D)
  sqlite_policies = record {
    put_policy = upsert_policy;
    read_policy = get_policy;
    all_policies = list_policies;
  }
