-- ===== src/Storage/Postgres/Reports.antt =====
-- internal/storage/postgres.go: the queries that list and sum, by what the engine makes of texts and of
-- a SUM of dollars.
use riskkernel.Base.{
  pos, length, map, String, str_eq, ◌&&◌, Option, none, some, List, [], if◌then◌else◌, Float64,
}
use riskkernel.Storage.{
  RunRecord, LedgerEntry, ToolCallRecord, ApprovalRecord, PolicyRecord, LedgerTotals, failed,
  Result, ok, err,
}
use riskkernel.Storage.Sqlite.{Db, Engine, select, newest_first, sum_of, fits_int64}
use riskkernel.Storage.Summary.{
  Texts, Dimension, SummarizeOptions, UsageSummary, dimension_of, group_key, group_rows,
  aggregate_all, in_range, summary_of,
}
use riskkernel.Storage.Listings.{order_by, insert_row, call_before}

module _ {D : Type 0} ⦃E : Engine D⦄ where
  unfoldable pub list_runs : Db D → Result (List (RunRecord D))
  list_runs db = ok (newest_first E.text_before (λ (r : RunRecord D). r.created_at) db.runs)

  unfoldable pub list_runs_by_status : String → Db D → Result (List (RunRecord D))
  list_runs_by_status status db = ok (
      newest_first E.text_before (λ (r : RunRecord D). r.created_at)
        (select (λ (r : RunRecord D). str_eq r.status status) db.runs))

  -- `Totals`: a SUM is a numeric, which the scan refuses beyond int64.
  unfoldable pub totals : String → Db D → Result (LedgerTotals D)
  totals rid db =
      let rows = select (λ (e : LedgerEntry D). str_eq e.run_id rid) db.ledger in
      let prompt = sum_of (λ e. e.prompt_tokens) rows in
      let completion = sum_of (λ e. e.completion_tokens) rows in
      if fits_int64 prompt && fits_int64 completion
      then ok (record {
        run_id = rid;
        calls = pos (length rows);
        prompt_tokens = prompt;
        completion_tokens = completion;
        dollars = E.sum_dollars (map (λ e. e.dollars) rows);
      })
      else err failed

  unfoldable pub list_tool_calls : ⦃T : Texts⦄ → String → Db D → Result (List ToolCallRecord)
  unfolding order_by insert_row
  list_tool_calls ⦃T⦄ rid db = ok (
      order_by (call_before E.text_before T.key_before)
        (select (λ (t : ToolCallRecord). str_eq t.run_id rid) db.tool_calls))

  -- `ListApprovals`: an empty status lists all.
  unfoldable pub list_approvals : String → Db D → Result (List ApprovalRecord)
  list_approvals status db =
      let rows =
        if str_eq status ""
        then db.approvals
        else select (λ (a : ApprovalRecord). str_eq a.status status) db.approvals in
      ok (newest_first E.text_before (λ (a : ApprovalRecord). a.created_at) rows)

  unfoldable pub list_policies : Db D → Result (List (PolicyRecord D))
  list_policies db =
      ok (newest_first E.text_before (λ (p : PolicyRecord D). p.created_at) db.policies)

module _ {D : Type 0} ⦃F : Float64 D⦄ ⦃T : Texts⦄ ⦃E : Engine D⦄ where
  abbrev pub summarize_by : Option Dimension → SummarizeOptions → Db D → Result (UsageSummary D)
  summarize_by none opts db = err failed
  summarize_by (some dim) opts db =
      summary_of opts.by
        (aggregate_all (group_rows (group_key db.runs dim) (select (in_range opts) db.ledger) []))

  -- `SummarizeLedger`.
  unfoldable pub summarize_ledger : SummarizeOptions → Db D → Result (UsageSummary D)
  summarize_ledger opts db = summarize_by (dimension_of opts.by) opts db
