-- ===== src/Runs/Text.antt =====
-- internal/runs/manager.go: what the persisted row of a run says of it.
use riskkernel.Base.{◌≡◌, refl, not, ◌||◌, str_eq}
use riskkernel.Governor.{
  HaltReason, halt_none, halt_token_budget, halt_dollar_budget, halt_loop_budget, halt_time_budget,
  halt_cancelled, halt_other, is_running,
}
use riskkernel.Runs.{Run, record_of, status_for, reason_text, reason_of_text}
use riskkernel.Runs.Manager.{is_terminal}

-- One of the constants that the program uses.
abbrev pub IsNamed : HaltReason → Type 0
IsNamed (halt_other _) = ⊥
IsNamed _ = Unit

-- Each of the six halt reasons reads back from the text that is stored for it.
pub reason_of_text-reason_text : (h : HaltReason) → IsNamed h → reason_of_text (reason_text h) ≡ h
reason_of_text-reason_text halt_none n = refl
reason_of_text-reason_text halt_token_budget n = refl
reason_of_text-reason_text halt_dollar_budget n = refl
reason_of_text-reason_text halt_loop_budget n = refl
reason_of_text-reason_text halt_time_budget n = refl
reason_of_text-reason_text halt_cancelled n = refl
reason_of_text-reason_text (halt_other s) n = absurd n

terminal_status :
    (h : HaltReason)
    → (str_eq (status_for h) "halted" || str_eq (status_for h) "cancelled") ≡ not (is_running h)
terminal_status halt_none = refl
terminal_status halt_token_budget = refl
terminal_status halt_dollar_budget = refl
terminal_status halt_loop_budget = refl
terminal_status halt_time_budget = refl
terminal_status halt_cancelled = refl
terminal_status (halt_other s) = refl

-- The row of a run reads as terminal exactly when the run is halted, whatever its reason.
pub is_terminal-record_of :
    {D : Type 0} (r : Run D) → is_terminal (record_of r) ≡ not (is_running r.gov.halted)
unfolding record_of
is_terminal-record_of r = terminal_status r.gov.halted
