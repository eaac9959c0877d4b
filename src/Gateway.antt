-- ===== src/Gateway.antt =====
-- internal/gateway/gateway.go and internal/provider/registry.go: the governed cycle around one
-- provider call. What the provider answers, what other callers do to the run while it answers, and
-- what the clocks say are arguments; spans and message texts are left out.
pub mod Calls
pub mod Streams
pub mod Streamed
mod Tests
use riskkernel.Base.{
  ℕ, ℤ, pos, ◌+ℤ◌, wrap64, String, codes, str_eq, has_prefix, to_lower, Runes, Unicode, Bool, true,
  false, ◌||◌, Option, none, some, List, [], ◌∷◌, if◌then◌else◌, Float64, Time,
}
use riskkernel.Governor
use riskkernel.Governor.{HaltReason, halt_none, HaltError}
use riskkernel.Pricing
use riskkernel.Pricing.{Rates}
use riskkernel.Storage.{Store}
use riskkernel.Runs.{Run, Call, reason_text, begin_step, can_proceed, record_call}
use riskkernel.Runs.Writes.{RunEvent, run_all}
use riskkernel.Runs.Manager.{Manager, CreateOptions, create, get_or_create}

-- A provider: its name, and whether it implements `Streamer`.
pub record Provider : Type 0 where
  pub name : String
  pub streams : Bool

pub record Registry : Type 0 where
  pub providers : List (String × Provider)
  pub default_name : String

abbrev pub find_provider : String → List (String × Provider) → Option Provider
find_provider k [] = none
find_provider k ((j, p) ∷ m) = if str_eq j k then some p else find_provider k m

abbrev pub put_provider : String → Provider → List (String × Provider) → List (String × Provider)
put_provider k p [] = (k, p) ∷ []
put_provider k p ((j, q) ∷ m) = if str_eq j k then (k, p) ∷ m else (j, q) ∷ put_provider k p m

abbrev add_providers : List (Option Provider) → List (String × Provider) → List (String × Provider)
add_providers [] m = m
add_providers (none ∷ ps) m = add_providers ps m
add_providers (some p ∷ ps) m = add_providers ps (put_provider p.name p m)

-- `NewRegistry`: nil providers are dropped, and the default must be registered.
unfoldable pub new_registry : String → List (Option Provider) → Option Registry
new_registry default ps =
    let m = add_providers ps [] in
    elim (find_provider default m) [
      | none ↦ none
      | some p ↦ some (record { providers = m; default_name = default })
    ]

-- `Registry.Get`: an empty name is the default's.
unfoldable pub get_provider : String → Registry → Option Provider
get_provider name reg =
    find_provider (if str_eq name "" then reg.default_name else name) reg.providers

-- `routeModel`.
unfoldable pub route_model : ⦃U : Unicode⦄ → String → String
route_model model =
    let m = to_lower (codes model) in
    if has_prefix m (codes "claude")
    then "anthropic"
    else if has_prefix m (codes "gpt") || (has_prefix m (codes "o1") || has_prefix m (codes "o3"))
    then "openai"
    else ""

-- `gwError`, without its message.
pub record GwError : Type 0 where
  pub status : ℕ
  pub code : String

-- `haltGWError`, `budgetError`.
abbrev pub halt_gw_error : HaltReason → GwError
halt_gw_error halt_none = record { status = 500; code = "internal_error" }
halt_gw_error reason = record { status = 402; code = reason_text reason }

abbrev pub budget_error : {D : Type 0} → HaltError D → GwError
budget_error e = halt_gw_error e.reason

abbrev pub unknown_provider : GwError
unknown_provider = record { status = 400; code = "unknown_provider" }

abbrev pub provider_error : GwError
provider_error = record { status = 502; code = "provider_error" }

-- `haltReasonOf` what RecordCall returns.
abbrev pub halt_reason_of : {D : Type 0} → Option (HaltError D) → HaltReason
halt_reason_of none = halt_none
halt_reason_of (some e) = e.reason

pub record Response : Type 0 where
  pub id : String
  pub model : String
  pub content : Runes
  pub finish_reason : String
  pub prompt_tokens : ℤ
  pub completion_tokens : ℤ

pub record CallMeta (D : Type 0) : Type 0 where
  pub step : ℤ
  pub cost : D
  pub priced : Bool
  pub halt : HaltReason

-- How a governed call ends: refused before the provider is called, failed in the provider, or
-- answered.
pub data Outcome (D : Type 0) : Type 0 where
  refused : GwError → Outcome D
  failed : GwError → Outcome D
  answered : Response → CallMeta D → Outcome D

-- The governor's clock and the written times of the three calls on the run.
pub record Moments : Type 0 where
  pub begin_at : Time
  pub begin_stamp : Time
  pub check_at : Time
  pub check_stamp : Time
  pub record_at : Time
  pub record_stamp : Time

module _ {D : Type 0} ⦃F : Float64 D⦄ ⦃U : Unicode⦄ where
  abbrev pub call_of : Option (Rates D) → Provider → ℤ → Response → Call D
  call_of prices prov step resp =
      let (dollars, priced) =
        Pricing.cost prices resp.model resp.prompt_tokens resp.completion_tokens in
      record {
        step_index = step;
        provider = prov.name;
        model = resp.model;
        prompt_tokens = resp.prompt_tokens;
        completion_tokens = resp.completion_tokens;
        dollars = dollars;
        priced = priced;
        response_id = resp.id;
      }

module _ {D S : Type 0} ⦃F : Float64 D⦄ ⦃U : Unicode⦄ ⦃B : Store D S⦄ (prices : Option (Rates D))
    (t : Moments) where
  -- After the provider has answered, or failed (`none`).
  abbrev pub after_chat :
      Option Response → Provider → ℤ → Run D → Option S → Run D × Option S × Outcome D
  after_chat none prov step r s = (
    r,
    s,
    failed (if Governor.is_halted r.gov then halt_gw_error r.gov.halted else provider_error),
  )
  after_chat (some resp) prov step r s =
      let c = call_of prices prov step resp in
      let (r', s', e) = record_call r c t.record_at t.record_stamp s in
      (
        r',
        s',
        answered resp
            (record { step = step; cost = c.dollars; priced = c.priced; halt = halt_reason_of e }),
      )

  -- The call goes to the routed provider; meanwhile other callers of the run go on.
  abbrev pub after_route :
      Option Provider
      → List (RunEvent D)
      → Option Response
      → ℤ
      → Run D
      → Option S
      → Run D × Option S × Outcome D
  after_route none during chat step r s = (r, s, refused unknown_provider)
  after_route (some prov) during chat step r s =
      let (r', s') = run_all during r s in after_chat chat prov step r' s'

  abbrev pub after_guard :
      Option (HaltError D)
      → Option Provider
      → List (RunEvent D)
      → Option Response
      → ℤ
      → Run D
      → Option S
      → Run D × Option S × Outcome D
  after_guard (some e) prov during chat step r s = (r, s, refused (budget_error e))
  after_guard none prov during chat step r s = after_route prov during chat step r s

  abbrev pub after_begin :
      Option (HaltError D)
      → Option Provider
      → List (RunEvent D)
      → Option Response
      → ℤ
      → Run D
      → Option S
      → Run D × Option S × Outcome D
  after_begin (some e) prov during chat step r s = (r, s, refused (budget_error e))
  after_begin none prov during chat step r s =
      let (r', s', e) = can_proceed r t.check_at t.check_stamp s in
      after_guard e prov during chat step r' s'

  -- `governedCall`.
  unfoldable pub governed_call :
      Registry
      → String
      → List (RunEvent D)
      → Option Response
      → Run D
      → Option S
      → Run D × Option S × Outcome D
  governed_call reg model during chat r s =
      let (r', s', step, e) = begin_step r t.begin_at t.begin_stamp s in
      after_begin e (get_provider (route_model model) reg) during chat step r' s'

module _ {D S : Type 0} ⦃F : Float64 D⦄ ⦃B : Store D S⦄ where
  -- `resolveRun`: the run that the header names, or a fresh one.
  unfoldable pub resolve_run : String → String → Time → Manager D S → Manager D S × Run D
  resolve_run header uuid now m =
      let fresh : CreateOptions D = record {
        id = "";
        name = "proxy";
        budget = none;
        policy_ref = "";
        metadata = [];
      } in
      if str_eq header "" then create fresh uuid now m else get_or_create header now m
