-- ===== src/Storage/Listings.antt =====
-- internal/storage/{sqlite,facts}.go: the facts, and the listings that the admin page and the audit
-- read.
use riskkernel.Base.{
  ltb_ℤ, String, str_eq, Bool, not, ◌&&◌, ◌||◌, List, [], ◌∷◌, if◌then◌else◌, Time,
}
use riskkernel.Storage.{RunRecord, StepRecord, ToolCallRecord, Fact, Result, ok}
use riskkernel.Storage.Sqlite.{Engine, Db, select, select_one, upsert, found, newest_first}
use riskkernel.Storage.Summary.{Texts}

-- `ORDER BY`, by what comes before what.
module _ {R : Type 0} (before : R → R → Bool) where
  unfoldable pub insert_row : R → List R → List R
  insert_row r [] = r ∷ []
  insert_row r (q ∷ qs) = let rest = insert_row r qs in if before q r then q ∷ rest else r ∷ q ∷ qs

  unfoldable pub order_by : List R → List R
  order_by [] = []
  order_by (r ∷ rs) = insert_row r (order_by rs)

abbrev pub is_fact : String → String → Fact → Bool
is_fact ns key f = str_eq f.namespace ns && str_eq f.key key

module _ {D : Type 0} where
  -- `PutFact`: on conflict the value, the run and the time are replaced.
  unfoldable pub put_fact : Fact → Db D → Result (Unit {0}) × Db D
  put_fact f db =
      (ok tt, record db { facts = upsert (is_fact f.namespace f.key) (λ old. f) f db.facts })

  unfoldable pub get_fact : String → String → Db D → Result Fact
  get_fact ns key db = found (select_one (is_fact ns key) db.facts)

  unfoldable pub list_facts : ⦃T : Texts⦄ → String → Db D → Result (List Fact)
  unfolding order_by insert_row
  list_facts ⦃T⦄ ns db =
      ok (order_by (λ f g. T.key_before f.key g.key) (select (λ f. str_eq f.namespace ns) db.facts))

  -- `ListSteps`: by index.
  unfoldable pub list_steps : String → Db D → Result (List (StepRecord D))
  unfolding order_by insert_row
  list_steps rid db = ok (
      order_by (λ (s t : StepRecord D). ltb_ℤ s.index t.index)
        (select (λ (s : StepRecord D). str_eq s.run_id rid) db.steps))

-- The order of `ListToolCalls`: by step, then time, then id.
abbrev pub call_before :
    (Time → Time → Bool) → (String → String → Bool) → ToolCallRecord → ToolCallRecord → Bool
call_before time_before text_before s t =
    ltb_ℤ s.step_index t.step_index
    || (not (ltb_ℤ t.step_index s.step_index)
        && (time_before s.created_at t.created_at
            || (not (time_before t.created_at s.created_at) && text_before s.id t.id)))

module _ {D : Type 0} ⦃E : Engine D⦄ where
  -- `ListRuns`: newest first.
  unfoldable pub list_runs : Db D → Result (List (RunRecord D))
  list_runs db = ok (newest_first E.text_before (λ (r : RunRecord D). r.created_at) db.runs)

  -- `ListToolCalls`.
  unfoldable pub list_tool_calls : ⦃T : Texts⦄ → String → Db D → Result (List ToolCallRecord)
  unfolding order_by insert_row
  list_tool_calls ⦃T⦄ rid db = ok (
      order_by (call_before E.text_before T.key_before)
        (select (λ (t : ToolCallRecord). str_eq t.run_id rid) db.tool_calls))
