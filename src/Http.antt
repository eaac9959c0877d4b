-- ===== src/Http.antt =====
-- internal/httpapi/server.go and runs.go: the handlers of a run's life over the run manager, from the
-- decoded body on (`none` is a body that does not decode), and the bearer token in front of them.
-- A response is its status with the error code, or with what the JSON body is made of.
pub mod Auth
pub mod Budgets
pub mod Kill
pub mod Approvals
pub mod Owned
pub mod Policies
pub mod Registered
mod Tests
use riskkernel.Base.{
  ℕ, ltb, length, ℤ, pos, ltb_ℤ, String, codes, codes_eq, str_eq, has_prefix, drop_prefix, Runes,
  is_nil, Bool, true, false, not, ◌&&◌, ◌||◌, Option, none, some, List, [], ◌∷◌, if◌then◌else◌,
  Float64, Time,
}
use riskkernel.Governor.{Budget, HaltError}
use riskkernel.Storage.{
  PolicyRecord, CheckpointRecord, ApprovalRecord, RunRecord, not_found, failed, Result, ok, err,
  Store,
}
use riskkernel.Runs
use riskkernel.Runs.{Run, View, view, reason_text, begin_step, cancel}
use riskkernel.Runs.Manager.{Manager, CreateOptions, create, get, put_run, checkpoint}

pub data Response (D : Type 0) : Type 0 where
  problem : ℕ → String → Response D
  run_created : View D → Response D
  step_started : ℤ → Response D
  checkpoint_saved : Response D
  run_cancelled : View D → Response D
  checkpoint_read : CheckpointRecord D → Response D
  approval_allowed : Response D
  approval_required : ApprovalRecord → Response D
  approval_read : ApprovalRecord → Response D
  approvals_listed : List ApprovalRecord → Response D
  run_read : RunRecord D → Option ApprovalRecord → Response D
  resolved : Result ApprovalRecord → Response D

-- The test of `requireAuth` on the configured token and the request's header.
unfoldable pub authorized : Runes → Runes → Bool
authorized token header =
    is_nil token
    || (ltb 7 (length header)
        && (has_prefix header (codes "Bearer ")
            && codes_eq (drop_prefix header (codes "Bearer ")) token))

-- `requireAuth` around a handler.
unfoldable pub require_auth :
    {D M : Type 0} → Runes → Runes → (M → M × Response D) → M → M × Response D
require_auth token header next m =
    if authorized token header then next m else (m, problem 401 "unauthorized")

pub record CreateBody (D : Type 0) : Type 0 where
  pub name : String
  pub budget : Option (Budget D)
  pub policy_ref : String
  pub metadata : List (String × String)

-- `n != 0`; a decoded number is not NaN.
abbrev pub or_int : ℤ → ℤ → ℤ
or_int n other = if ltb_ℤ n (pos 0) || ltb_ℤ (pos 0) n then n else other

module _ {D : Type 0} where
  abbrev pub policy_budget : PolicyRecord D → Budget D
  policy_budget p = record {
    tokens = p.budget_tokens;
    dollars = p.budget_dollars;
    loops = p.budget_loops;
    seconds = p.budget_seconds;
  }

module _ {D : Type 0} ⦃F : Float64 D⦄ where
  abbrev pub no_budget : Budget D
  no_budget = record { tokens = pos 0; dollars = F.zero_f; loops = pos 0; seconds = pos 0 }

  abbrev pub or_float : D → D → D
  or_float x other = if F.lt_f x F.zero_f || F.lt_f F.zero_f x then x else other

  -- The inline budget's fields over the policy's.
  abbrev pub overlaid : Budget D → Budget D → Budget D
  overlaid inline under = record {
    tokens = or_int inline.tokens under.tokens;
    dollars = or_float inline.dollars under.dollars;
    loops = or_int inline.loops under.loops;
    seconds = or_int inline.seconds under.seconds;
  }

  abbrev pub under_inline : Option (Budget D) → Option (Budget D) → Option (Budget D)
  under_inline none under = under
  under_inline (some inline) none = some (overlaid inline no_budget)
  under_inline (some inline) (some p) = some (overlaid inline p)

-- The policy's budget, or the response.
pub data Referenced (D : Type 0) : Type 0 where
  referenced : Option (Budget D) → Referenced D
  unusable : Response D → Referenced D

module _ {D : Type 0} where
  abbrev pub found_policy : Result (PolicyRecord D) → Referenced D
  found_policy (ok p) = referenced (some (policy_budget p))
  found_policy (err not_found) = unusable (problem 400 "unknown_policy")
  found_policy (err failed) = unusable (problem 500 "internal_error")

  -- `writeHalt`, and the answer of a step.
  abbrev pub step_response : ℤ → Option (HaltError D) → Response D
  step_response step none = step_started step
  step_response step (some e) = problem 402 (reason_text e.reason)

  abbrev pub checkpoint_response : Result (CheckpointRecord D) → Response D
  checkpoint_response (ok cp) = checkpoint_read cp
  checkpoint_response (err not_found) = problem 404 "not_found"
  checkpoint_response (err failed) = problem 500 "internal_error"

module _ {D S : Type 0} ⦃F : Float64 D⦄ ⦃B : Store D S⦄ where
  abbrev pub policy_in : Option S → String → Referenced D
  policy_in none ref = unusable (problem 503 "no_store")
  policy_in (some s) ref = found_policy (B.get_policy ref s)

  unfoldable pub referenced_policy : String → Option S → Referenced D
  referenced_policy ref s = if str_eq ref "" then referenced none else policy_in s ref

  abbrev pub create_with :
      Referenced D → CreateBody D → String → Time → Manager D S → Manager D S × Response D
  create_with (unusable r) body uuid now m = (m, r)
  create_with (referenced under) body uuid now m =
      let opts : CreateOptions D = record {
        id = "";
        name = body.name;
        budget = under_inline body.budget under;
        policy_ref = body.policy_ref;
        metadata = body.metadata;
      } in
      let (m', r) = create opts uuid now m in (m', run_created (view r))

  -- `handleCreateRun`.
  unfoldable pub create_run :
      Option (CreateBody D) → String → Time → Manager D S → Manager D S × Response D
  create_run none uuid now m = (m, problem 400 "bad_request")
  create_run (some body) uuid now m =
      create_with (referenced_policy body.policy_ref m.store) body uuid now m

  -- `handleBeginStep`; `now` is the governor's clock, `stamp` the time that is written.
  abbrev pub begin_found :
      Option (Run D) → String → Time → Time → Manager D S → Manager D S × Response D
  begin_found none rid now stamp m = (m, problem 404 "not_found")
  begin_found (some r) rid now stamp m =
      let (r', s', step, e) = begin_step r now stamp m.store in
      (record m { runs = put_run rid r' m.runs; store = s' }, step_response step e)

  unfoldable pub handle_begin_step : String → Time → Time → Manager D S → Manager D S × Response D
  handle_begin_step rid now stamp m = begin_found (get rid m) rid now stamp m

  -- `handleCancelRun`.
  abbrev pub cancel_found : Option (Run D) → String → Time → Manager D S → Manager D S × Response D
  cancel_found none rid stamp m = (m, problem 404 "not_found")
  cancel_found (some r) rid stamp m =
      let (r', s') = cancel r stamp m.store in
      (record m { runs = put_run rid r' m.runs; store = s' }, run_cancelled (view r'))

  unfoldable pub handle_cancel : String → Time → Manager D S → Manager D S × Response D
  handle_cancel rid stamp m = cancel_found (get rid m) rid stamp m

  -- `handleSaveCheckpoint`: the body's name and payload.
  abbrev pub save_found :
      Option (Run D)
      → String
      → Option (String × String)
      → Time
      → Manager D S
      → Manager D S × Response D
  save_found none rid body stamp m = (m, problem 404 "not_found")
  save_found (some r) rid none stamp m = (m, problem 400 "bad_request")
  save_found (some r) rid (some (name, payload)) stamp m =
      let (m', res) = checkpoint rid name payload stamp m in
      (m', elim res [ ok u ↦ checkpoint_saved | err e ↦ problem 500 "internal_error" ])

  unfoldable pub handle_save_checkpoint :
      String → Option (String × String) → Time → Manager D S → Manager D S × Response D
  handle_save_checkpoint rid body stamp m = save_found (get rid m) rid body stamp m

  -- `handleGetCheckpoint`.
  unfoldable pub handle_get_checkpoint : String → Manager D S → Response D
  handle_get_checkpoint rid m = elim m.store [
    | none ↦ problem 503 "no_store"
    | some s ↦ checkpoint_response (B.latest_checkpoint rid s)
  ]
