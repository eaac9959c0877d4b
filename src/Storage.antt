-- ===== src/Storage.antt =====
-- internal/storage/store.go: the records that persist, and the Store interface. A JSON payload
-- (arguments, checkpoint payload) is opaque to the program and is carried as its text.
pub mod Sqlite
pub mod Tables
pub mod Summary
pub mod Conserved
pub mod Listings
pub mod Postgres
pub mod Lookups
pub mod Backends
pub mod Agreement
pub mod Decisions
pub mod Backed
mod Tests
use riskkernel.Base.{ℤ, String, Bool, Option, List, Time}

pub record RunRecord (D : Type 0) : Type 0 where
  pub id : String
  pub name : String
  pub status : String
  pub halt_reason : String
  pub policy_ref : String
  pub budget_tokens : ℤ
  pub budget_dollars : D
  pub budget_loops : ℤ
  pub budget_seconds : ℤ
  pub usage_prompt_tokens : ℤ
  pub usage_completion_tokens : ℤ
  pub usage_dollars : D
  pub usage_loops : ℤ
  pub metadata : List (String × String)
  pub created_at : Time
  pub updated_at : Time

pub record StepRecord (D : Type 0) : Type 0 where
  pub run_id : String
  pub index : ℤ
  pub status : String
  pub prompt_tokens : ℤ
  pub completion_tokens : ℤ
  pub dollars : D
  pub started_at : Time
  pub ended_at : Option Time

pub record LedgerEntry (D : Type 0) : Type 0 where
  pub run_id : String
  pub step_index : ℤ
  pub provider : String
  pub model : String
  pub prompt_tokens : ℤ
  pub completion_tokens : ℤ
  pub dollars : D
  pub priced : Bool
  pub response_id : String
  pub created_at : Time

pub record ToolCallRecord : Type 0 where
  pub id : String
  pub run_id : String
  pub step_index : ℤ
  pub tool : String
  pub side_effect : String
  pub arguments : String
  pub status : String
  pub created_at : Time

pub record CheckpointRecord (D : Type 0) : Type 0 where
  pub run_id : String
  pub step_index : ℤ
  pub name : String
  pub usage_prompt_tokens : ℤ
  pub usage_completion_tokens : ℤ
  pub usage_dollars : D
  pub usage_loops : ℤ
  pub payload : String
  pub created_at : Time

abbrev pub approval_pending : String
approval_pending = "pending"

abbrev pub approval_approved : String
approval_approved = "approved"

abbrev pub approval_denied : String
approval_denied = "denied"

pub record ApprovalRecord : Type 0 where
  pub id : String
  pub run_id : String
  pub step_index : ℤ
  pub tool : String
  pub side_effect : String
  pub arguments : String
  pub status : String
  pub reason : String
  pub decided_by : String
  pub created_at : Time
  pub decided_at : Option Time

pub record ApprovalRule : Type 0 where
  pub tool : String
  pub side_effect : String

pub record PolicyRecord (D : Type 0) : Type 0 where
  pub name : String
  pub budget_tokens : ℤ
  pub budget_dollars : D
  pub budget_loops : ℤ
  pub budget_seconds : ℤ
  pub tool_allowlist : List String
  pub approval_rules : List ApprovalRule
  pub created_at : Time
  pub updated_at : Time

-- A fact of episodic memory.
pub record Fact : Type 0 where
  pub namespace : String
  pub key : String
  pub value : String
  pub run_id : String
  pub updated_at : Time

pub record LedgerTotals (D : Type 0) : Type 0 where
  pub run_id : String
  pub calls : ℤ
  pub prompt_tokens : ℤ
  pub completion_tokens : ℤ
  pub dollars : D

-- `ErrNotFound`, and every other error of a backend.
pub data StoreError : Type 0 where
  not_found : StoreError
  failed : StoreError

pub data Result {ℓ} (A : Type ℓ) : Type ℓ where
  ok : A → Result A
  err : StoreError → Result A

-- The methods of `Store` that runs, the gates and the gateways call, over a backend of state `S`.
-- A write may fail; it answers with the state that it leaves.
pub record Store (D : Type 0) (S : Type 0) : Type 0 where
  pub upsert_run : RunRecord D → S → Result (Unit {0}) × S
  pub get_run : String → S → Result (RunRecord D)
  pub list_runs_by_status : String → S → Result (List (RunRecord D))
  pub upsert_step : StepRecord D → S → Result (Unit {0}) × S
  pub append_ledger : LedgerEntry D → S → Result (Unit {0}) × S
  pub append_tool_call : ToolCallRecord → S → Result (Unit {0}) × S
  pub get_policy : String → S → Result (PolicyRecord D)
  pub save_checkpoint : CheckpointRecord D → S → Result (Unit {0}) × S
  pub latest_checkpoint : String → S → Result (CheckpointRecord D)

-- The methods of `Store` on approvals, which have no dollar amounts in them.
pub record ApprovalStore (S : Type 0) : Type 0 where
  pub create_approval : ApprovalRecord → S → Result (Unit {0}) × S
  pub get_approval : String → S → Result ApprovalRecord
  pub resolve_approval : String → String → String → String → Time → S → Result (Unit {0}) × S
  pub list_approvals : String → S → Result (List ApprovalRecord)
