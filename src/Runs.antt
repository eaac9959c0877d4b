-- ===== src/Runs.antt =====
-- internal/runs/manager.go: a governed run around its governor, the manager of the live runs, the
-- write-through persistence and crash-resume. The backend is any `Store`, and `none` stands for
-- the nil store of an in-memory manager. `now` is the governor's clock in a call, `stamp` the time
-- that the call writes. A method on *Run returns the run as it leaves it; the
-- caller puts it back under its id in the map of the manager (Runs/Manager.antt).
pub mod Manager
pub mod Text
pub mod Writes
pub mod Resume
pub mod Rollback
pub mod Halted
pub mod Registry
pub mod Reload
mod Tests
use riskkernel.Base.{
  ℤ, pos, ◌+ℤ◌, ltb_ℤ, String, str_eq, Bool, true, false, not, ◌&&◌, ◌||◌, Option, none, some, List,
  [], ◌∷◌, map, if◌then◌else◌, Float64, Time, Context, background,
}
use riskkernel.Governor
use riskkernel.Governor.{
  Budget, Usage, HaltReason, halt_none, halt_token_budget, halt_dollar_budget, halt_loop_budget,
  halt_time_budget, halt_cancelled, halt_other, HaltError, RunOption, with_restored_usage,
  with_restored_halt,
}
use riskkernel.Storage.{
  RunRecord, StepRecord, LedgerEntry, CheckpointRecord, StoreError, not_found, failed, Result, ok,
  err, Store,
}

pub record Run (D : Type 0) : Type 0 where
  pub id : String
  pub name : String
  pub budget : Budget D
  pub policy_ref : String
  pub metadata : List (String × String)
  pub gov : Governor.Run D
  pub created_at : Time
  pub updated_at : Time
  pub cur_step_started : Time

pub record Call (D : Type 0) : Type 0 where
  pub step_index : ℤ
  pub provider : String
  pub model : String
  pub prompt_tokens : ℤ
  pub completion_tokens : ℤ
  pub dollars : D
  pub priced : Bool
  pub response_id : String

pub record View (D : Type 0) : Type 0 where
  pub id : String
  pub name : String
  pub status : String
  pub policy_ref : String
  pub budget : Budget D
  pub usage : Usage D
  pub halt_reason : HaltReason
  pub created_at : Time
  pub updated_at : Time
  pub metadata : List (String × String)

-- `statusFor`.
abbrev pub status_for : HaltReason → String
status_for halt_none = "running"
status_for halt_cancelled = "cancelled"
status_for _ = "halted"

-- The conversions between a HaltReason and its text.
abbrev pub reason_text : HaltReason → String
reason_text halt_none = ""
reason_text halt_token_budget = "token_budget_exceeded"
reason_text halt_dollar_budget = "dollar_budget_exceeded"
reason_text halt_loop_budget = "loop_budget_exceeded"
reason_text halt_time_budget = "time_budget_exceeded"
reason_text halt_cancelled = "cancelled"
reason_text (halt_other s) = s

abbrev pub reason_of_text : String → HaltReason
reason_of_text s =
    if str_eq s ""
    then halt_none
    else if str_eq s "token_budget_exceeded"
    then halt_token_budget
    else if str_eq s "dollar_budget_exceeded"
    then halt_dollar_budget
    else if str_eq s "loop_budget_exceeded"
    then halt_loop_budget
    else if str_eq s "time_budget_exceeded"
    then halt_time_budget
    else if str_eq s "cancelled"
    then halt_cancelled
    else halt_other s

module _ {D : Type 0} where
  -- `View` and `record`.
  unfoldable pub view : Run D → View D
  view r = record {
    id = r.id;
    name = r.name;
    status = status_for r.gov.halted;
    policy_ref = r.policy_ref;
    budget = r.budget;
    usage = r.gov.usage;
    halt_reason = r.gov.halted;
    created_at = r.created_at;
    updated_at = r.updated_at;
    metadata = r.metadata;
  }

  unfoldable pub record_of : Run D → RunRecord D
  unfolding view
  record_of r =
      let v = view r in
      record {
        id = v.id;
        name = v.name;
        status = v.status;
        halt_reason = reason_text v.halt_reason;
        policy_ref = v.policy_ref;
        budget_tokens = v.budget.tokens;
        budget_dollars = v.budget.dollars;
        budget_loops = v.budget.loops;
        budget_seconds = v.budget.seconds;
        usage_prompt_tokens = v.usage.prompt_tokens;
        usage_completion_tokens = v.usage.completion_tokens;
        usage_dollars = v.usage.dollars;
        usage_loops = v.usage.loops;
        metadata = v.metadata;
        created_at = v.created_at;
        updated_at = v.updated_at;
      }

  abbrev pub touch : Time → Run D → Run D
  touch stamp r = record r { updated_at = stamp }

  -- The checkpoint that is taken of a run's usage.
  abbrev pub snapshot : Run D → ℤ → String → String → Time → CheckpointRecord D
  snapshot r step name payload stamp = record {
    run_id = r.id;
    step_index = step;
    name = name;
    usage_prompt_tokens = r.gov.usage.prompt_tokens;
    usage_completion_tokens = r.gov.usage.completion_tokens;
    usage_dollars = r.gov.usage.dollars;
    usage_loops = r.gov.usage.loops;
    payload = payload;
    created_at = stamp;
  }

  abbrev pub ledger_entry : Run D → Call D → Time → LedgerEntry D
  ledger_entry r c stamp = record {
    run_id = r.id;
    step_index = c.step_index;
    provider = c.provider;
    model = c.model;
    prompt_tokens = c.prompt_tokens;
    completion_tokens = c.completion_tokens;
    dollars = c.dollars;
    priced = c.priced;
    response_id = c.response_id;
    created_at = stamp;
  }

  abbrev pub step_status : Option (HaltError D) → String
  step_status none = "completed"
  step_status (some _) = "halted"

  abbrev pub step_record : Run D → Call D → Option (HaltError D) → Time → StepRecord D
  step_record r c halt stamp = record {
    run_id = r.id;
    index = c.step_index;
    status = step_status halt;
    prompt_tokens = c.prompt_tokens;
    completion_tokens = c.completion_tokens;
    dollars = c.dollars;
    started_at = r.cur_step_started;
    ended_at = some stamp;
  }

-- A best-effort write: the error is only logged.
abbrev pub try_write : {S : Type 0} → (S → Result (Unit {0}) × S) → Option S → Option S
try_write write none = none
try_write write (some s) = some (write s).1

module _ {D S : Type 0} ⦃F : Float64 D⦄ ⦃B : Store D S⦄ where
  -- `persistRun`, `persistStepStart` and `persistCall`.
  unfoldable pub persist_run : Run D → Option S → Option S
  persist_run r = try_write (B.upsert_run (record_of r))

  unfoldable pub persist_step_start : Run D → ℤ → Time → Option S → Option S
  persist_step_start r idx started s =
      let st : StepRecord D = record {
        run_id = r.id;
        index = idx;
        status = "running";
        prompt_tokens = pos 0;
        completion_tokens = pos 0;
        dollars = F.zero_f;
        started_at = started;
        ended_at = none;
      } in
      persist_run r (try_write (B.upsert_step st) s)

  unfoldable pub persist_call : Run D → Call D → Option (HaltError D) → Time → Option S → Option S
  persist_call r c halt stamp s =
      let s₁ = try_write (B.append_ledger (ledger_entry r c stamp)) s in
      let s₂ = try_write (B.upsert_step (step_record r c halt stamp)) s₁ in
      let s₃ = persist_run r s₂ in
      try_write (B.save_checkpoint (snapshot r c.step_index "" "" stamp)) s₃

  -- `persistHalt`.
  unfoldable pub persist_halt : Run D → Time → Option S → Run D × Option S
  persist_halt r stamp s = let r' = touch stamp r in (r', persist_run r' s)

  -- `BeginStep`: the step index, or the halt.
  abbrev pub after_pre_step :
      Option (HaltError D) → Run D → Time → Option S → Run D × Option S × ℤ × Option (HaltError D)
  after_pre_step (some halt) r stamp s =
      let (r', s') = persist_halt r stamp s in (r', s', pos 0, some halt)
  after_pre_step none r stamp s =
      let r' = record r { updated_at = stamp; cur_step_started = stamp } in
      (r', persist_step_start r' r'.gov.usage.loops stamp s, r'.gov.usage.loops, none)

  unfoldable pub begin_step :
      Run D → Time → Time → Option S → Run D × Option S × ℤ × Option (HaltError D)
  begin_step r now stamp s =
      let (gov, e) = Governor.pre_step r.gov now in
      after_pre_step e (record r { gov = gov }) stamp s

  -- `CanProceed`.
  abbrev pub after_check :
      Option (HaltError D) → Run D → Time → Option S → Run D × Option S × Option (HaltError D)
  after_check (some halt) r stamp s = let (r', s') = persist_halt r stamp s in (r', s', some halt)
  after_check none r stamp s = (r, s, none)

  unfoldable pub can_proceed :
      Run D → Time → Time → Option S → Run D × Option S × Option (HaltError D)
  can_proceed r now stamp s =
      let (gov, e) = Governor.can_proceed r.gov now in
      after_check e (record r { gov = gov }) stamp s

  -- `RecordCall`.
  unfoldable pub record_call :
      Run D → Call D → Time → Time → Option S → Run D × Option S × Option (HaltError D)
  record_call r c now stamp s =
      let (gov, e) =
        Governor.record_usage c.prompt_tokens c.completion_tokens c.dollars r.gov now in
      let r' = touch stamp (record r { gov = gov }) in (r', persist_call r' c e stamp s, e)

  -- `Cancel`.
  unfoldable pub cancel : Run D → Time → Option S → Run D × Option S
  cancel r stamp s = persist_halt (record r { gov = Governor.cancel r.gov }) stamp s
