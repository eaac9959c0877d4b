-- ===== src/Audit.antt =====
-- internal/audit/compliance.go: the compliance export of a run: the evidence for its controls, and
-- the hash-chained log of its events. SHA-256 with its hex digits and the JSON encoding of an event
-- are a parameter; the fixed wording of the report is left out.
pub mod Chain
pub mod Order
pub mod Built
mod Tests
use riskkernel.Base.{
  ℕ, suc, ℤ, pos, ◌+ℤ◌, wrap64, ltb_ℤ, leb_ℤ, ltb, String, codes, codes_eq, str_eq, Bool, true,
  false, ◌&&◌, ◌||◌, not, Option, none, some, List, [], ◌∷◌, ◌++◌, map, length, if◌then◌else◌, Time,
}
use riskkernel.Storage.{RunRecord, LedgerEntry, LedgerTotals, ToolCallRecord, ApprovalRecord}

-- What an event says in detail: one of the three maps that `buildEvents` makes.
pub data Detail (D : Type 0) : Type 0 where
  model_call : ℤ → String → String → ℤ → ℤ → D → Detail D
  tool_call : ℤ → String → String → String → Detail D
  approval : String → String → String → String → Detail D

pub record Event (D : Type 0) : Type 0 where
  pub seq : ℤ
  pub kind : String
  pub at : Time
  pub detail : Detail D
  pub hash : List ℕ

-- `hex(sha256(bytes))`, and what `json.Marshal` gives of the hashed part of an event, whose error
-- `chainHash` discards.
pub record Hashing (D : Type 0) : Type 0 where
  pub sha256_hex : List ℕ → List ℕ
  pub canonical_json : ℤ → String → Time → Detail D → List ℕ

-- `RunData`.
pub record RunData (D : Type 0) : Type 0 where
  pub run : RunRecord D
  pub ledger : List (LedgerEntry D)
  pub totals : LedgerTotals D
  pub tool_calls : List ToolCallRecord
  pub approvals : List ApprovalRecord

-- `raw`: an event before it has its number and its hash.
pub record Raw (D : Type 0) : Type 0 where
  pub at : Time
  pub kind : String
  pub detail : Detail D

-- Go's `<` on strings.
abbrev pub text_lt : List ℕ → List ℕ → Bool
text_lt [] [] = false
text_lt [] (y ∷ t) = true
text_lt (x ∷ s) [] = false
text_lt (x ∷ s) (y ∷ t) = ltb x y || (not (ltb y x) && text_lt s t)

-- Why `VerifyChain` refuses: the event at a position, or the head.
pub data ChainError : Type 0 where
  hash_mismatch : ℕ → ChainError
  head_mismatch : ChainError

abbrev pub decision_time : Time → Option Time → Time
decision_time created none = created
decision_time created (some decided) = decided

module _ {D : Type 0} where
  abbrev pub raw_call : LedgerEntry D → Raw D
  raw_call e = record {
    at = e.created_at;
    kind = "model_call";
    detail =
        model_call e.step_index e.provider e.model e.prompt_tokens e.completion_tokens e.dollars;
  }

  abbrev pub raw_tool : ToolCallRecord → Raw D
  raw_tool t = record {
    at = t.created_at;
    kind = "tool_call";
    detail = tool_call t.step_index t.tool t.side_effect t.status;
  }

  abbrev pub raw_approval : ApprovalRecord → Raw D
  raw_approval a = record {
    at = decision_time a.created_at a.decided_at;
    kind = "approval";
    detail = approval a.tool a.side_effect a.status a.decided_by;
  }

  -- The three loops at the start of `buildEvents`.
  unfoldable pub collected : RunData D → List (Raw D)
  collected d = map raw_call d.ledger ++ (map raw_tool d.tool_calls ++ map raw_approval d.approvals)

  -- The `less` of the sort.
  abbrev pub earlier : Raw D → Raw D → Bool
  earlier r q =
      if ltb_ℤ r.at q.at || ltb_ℤ q.at r.at
      then ltb_ℤ r.at q.at
      else text_lt (codes r.kind) (codes q.kind)

  -- `sort.SliceStable`.
  abbrev pub insert_event : Raw D → List (Raw D) → List (Raw D)
  insert_event r [] = r ∷ []
  insert_event r (q ∷ qs) =
      let rest = insert_event r qs in if earlier q r then q ∷ rest else r ∷ q ∷ qs

  unfoldable pub sort_stable : List (Raw D) → List (Raw D)
  sort_stable [] = []
  sort_stable (r ∷ rs) = insert_event r (sort_stable rs)

module _ {D : Type 0} ⦃H : Hashing D⦄ where
  -- `chainHash`.
  abbrev pub chain_hash : List ℕ → ℤ → String → Time → Detail D → List ℕ
  chain_hash prev seq kind at detail = H.sha256_hex (prev ++ H.canonical_json seq kind at detail)

  -- The second loop of `buildEvents`, from number `i`.
  unfoldable pub link_events : List ℕ → ℕ → List (Raw D) → List (Event D)
  link_events prev i [] = []
  link_events prev i (r ∷ rs) =
      let h = chain_hash prev (pos i) r.kind r.at r.detail in
      record { seq = pos i; kind = r.kind; at = r.at; detail = r.detail; hash = h }
      ∷ link_events h (suc i) rs

  -- `buildEvents`.
  unfoldable pub build_events : RunData D → List (Event D)
  unfolding collected sort_stable link_events
  build_events d = link_events [] 0 (sort_stable (collected d))

  -- The hash of the last event, or the text before any event.
  unfoldable pub last_hash : List ℕ → List (Event D) → List ℕ
  last_hash prev [] = prev
  last_hash prev (ev ∷ evs) = last_hash ev.hash evs

  -- The loop of `VerifyChain` from position `i`, and its test of the head.
  unfoldable pub verify_from : List ℕ → ℕ → List (Event D) → List ℕ → Option ChainError
  verify_from prev i [] head = if codes_eq prev head then none else some head_mismatch
  verify_from prev i (ev ∷ evs) head =
      let rest = verify_from ev.hash (suc i) evs head in
      if codes_eq (chain_hash prev ev.seq ev.kind ev.at ev.detail) ev.hash
      then rest
      else some (hash_mismatch i)

  -- `VerifyChain`.
  unfoldable pub verify_chain : List (Event D) → List ℕ → Option ChainError
  unfolding verify_from
  verify_chain evs head = verify_from [] 0 evs head

-- The loop of `buildControls`: the calls that are counted as gated, and those that were blocked.
unfoldable pub count_gated : List ToolCallRecord → ℕ
count_gated [] = 0
count_gated (t ∷ ts) =
    let rest = count_gated ts in
    if str_eq t.status "approved" || str_eq t.status "denied" then suc rest else rest

unfoldable pub count_blocked : List ToolCallRecord → ℕ
count_blocked [] = 0
count_blocked (t ∷ ts) =
    let rest = count_blocked ts in if str_eq t.status "blocked" then suc rest else rest

-- The evidence of the four controls, without the copies of the run's own columns.
pub record Evidence : Type 0 where
  pub halted : Bool
  pub approvals : ℕ
  pub tool_calls : ℕ
  pub gated : ℕ
  pub blocked : ℕ
  pub ledger_entries : ℕ

pub record Report (D : Type 0) : Type 0 where
  pub generated_at : Time
  pub run : RunRecord D
  pub tokens : ℤ
  pub calls : ℤ
  pub evidence : Evidence
  pub events : List (Event D)
  pub event_count : ℕ
  pub chain_head : List ℕ

module _ {D : Type 0} where
  -- `buildControls`.
  unfoldable pub build_controls : RunData D → Evidence
  unfolding count_gated count_blocked
  build_controls d = record {
    halted = str_eq d.run.status "halted";
    approvals = length d.approvals;
    tool_calls = length d.tool_calls;
    gated = count_gated d.tool_calls;
    blocked = count_blocked d.tool_calls;
    ledger_entries = length d.ledger;
  }

  -- `BuildReport`.
  unfoldable pub build_report : ⦃H : Hashing D⦄ → RunData D → Time → Report D
  unfolding build_controls build_events last_hash
  build_report d now =
      let events = build_events d in
      record {
        generated_at = now;
        run = d.run;
        tokens = wrap64 (d.run.usage_prompt_tokens +ℤ d.run.usage_completion_tokens);
        calls = d.totals.calls;
        evidence = build_controls d;
        events = events;
        event_count = length events;
        chain_head = last_hash [] events;
      }
