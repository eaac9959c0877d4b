-- ===== src/Approval/Slack.antt =====
-- internal/approval/slack.go and internal/httpapi/slack.go: the answer to a click in Slack. The HMAC of
-- a text as hex digits is a parameter, a body is its text, and a payload is what the decoder yields.
use Prim.Native.String.{◌++◌ as append}
use riskkernel.Base.{
  ℕ, ℤ, pos, negsuc, ◌-ℤ◌, wrap64, ltb_ℤ, String, codes, codes_eq, str_eq, Runes, is_nil,
  trim_space, Bool, true, false, not, ◌&&◌, ◌||◌, Option, none, some, List, [], ◌∷◌, ◌++◌,
  if◌then◌else◌, Time,
}
use riskkernel.Storage.{ApprovalRecord, failed, Result, ok, err, ApprovalStore}
use riskkernel.Approval.Gate.{Gate, resolve}
use riskkernel.Config.{parse_int}

-- `hex(hmac_sha256(secret, text))`.
pub record Mac : Type 0 where
  pub hmac_hex : Runes → Runes → Runes

-- Where `VerifySignature` tests the time: `now` is in seconds, and the difference is int64.
abbrev pub is_fresh : ℤ → Option ℤ → Bool
is_fresh now none = false
is_fresh now (some ts) =
    let d = wrap64 (now -ℤ ts) in not (ltb_ℤ (pos 300) d || ltb_ℤ d (negsuc 299))

abbrev pub signed_text : Runes → Runes → Runes
signed_text timestamp body = codes "v0:" ++ (timestamp ++ (b':' ∷ body))

-- `VerifySignature`.
unfoldable pub verify_signature : ⦃M : Mac⦄ → Runes → ℤ → Runes → Runes → Runes → Bool
verify_signature ⦃M⦄ secret now timestamp signature body =
    not (is_nil secret)
    && (is_fresh now (parse_int (trim_space timestamp))
        && codes_eq (codes "v0=" ++ M.hmac_hex secret (signed_text timestamp body)) signature)

-- The payload of an interaction.
pub record Interaction : Type 0 where
  pub kind : String
  pub user_id : String
  pub username : String
  pub user_name : String
  pub channel : String
  pub message_ts : String
  pub actions : List (String × String)

-- `SlackAction`; `by` lacks its prefix "slack:".
pub record SlackAction : Type 0 where
  pub approval_id : String
  pub approve : Bool
  pub by : String
  pub channel : String
  pub message_ts : String

abbrev action_decision : String → Option Bool
action_decision id =
    if str_eq id "riskkernel_approve"
    then some true
    else if str_eq id "riskkernel_deny"
    then some false
    else none

abbrev clicked_by : Interaction → String
clicked_by p =
    if not (str_eq p.username "")
    then p.username
    else if not (str_eq p.user_name "")
    then p.user_name
    else p.user_id

abbrev action_with : Interaction → String → Option Bool → Option SlackAction
action_with p value none = none
action_with p value (some approve) = some (record {
  approval_id = value;
  approve = approve;
  by = clicked_by p;
  channel = p.channel;
  message_ts = p.message_ts;
})

abbrev first_action : Interaction → List (String × String) → Option SlackAction
first_action p [] = none
first_action p ((id, value) ∷ rest) = action_with p value (action_decision id)

-- `ParseInteraction` on a decoded payload.
unfoldable pub parse_interaction : Option Interaction → Option SlackAction
parse_interaction none = none
parse_interaction (some p) =
    if str_eq p.kind "block_actions" then first_action p p.actions else none

-- The message that `UpdateResolved` writes: whether it says approved, and of which approval.
pub record Update : Type 0 where
  pub says_approved : Bool
  pub approval : ApprovalRecord

unfoldable pub update_resolved : SlackAction → ApprovalRecord → Option Update
update_resolved act a =
    if str_eq act.channel "" || str_eq act.message_ts ""
    then none
    else some (record { says_approved = act.approve; approval = a })

-- The callback's headers and body, and what decoding makes of the body: no form, or a form with a
-- payload that decodes or not.
pub record Callback : Type 0 where
  pub timestamp : Runes
  pub signature : Runes
  pub body : Runes

-- The status of the answer, and the message that is rewritten.
pub record Reply : Type 0 where
  pub status : ℕ
  pub update : Option Update

abbrev pub plain_reply : ℕ → Reply
plain_reply n = record { status = n; update = none }

abbrev pub slack_name : String → String
slack_name by = append "slack:" by

module _ {S : Type 0} ⦃B : ApprovalStore S⦄ where
  -- `handleSlackInteraction` once the body is read; the reader of a gate with no store fails.
  abbrev pub read_approval : Option S → String → Result ApprovalRecord
  read_approval none aid = err failed
  read_approval (some s) aid = B.get_approval aid s

  abbrev pub act_on : SlackAction → Result ApprovalRecord → Time → Gate S → Gate S × Reply
  act_on act (err e) stamp g = (g, plain_reply 200)
  act_on act (ok a) stamp g =
      let (g', res) = resolve act.approval_id act.approve "via Slack" (slack_name act.by) stamp g in
      (g', record { status = 200; update = update_resolved act a })

  abbrev pub act_parsed : Option SlackAction → Time → Gate S → Gate S × Reply
  act_parsed none stamp g = (g, plain_reply 200)
  act_parsed (some act) stamp g = act_on act (read_approval g.store act.approval_id) stamp g

  abbrev pub act_decoded : Option (Option Interaction) → Time → Gate S → Gate S × Reply
  act_decoded none stamp g = (g, plain_reply 400)
  act_decoded (some payload) stamp g = act_parsed (parse_interaction payload) stamp g

module _ {S : Type 0} ⦃M : Mac⦄ ⦃B : ApprovalStore S⦄ where
  unfoldable pub handle_slack :
      Runes → ℤ → Time → (Runes → Option (Option Interaction)) → Callback → Gate S → Gate S × Reply
  handle_slack secret now stamp decode c g =
      if verify_signature secret now c.timestamp c.signature c.body
      then act_decoded (decode c.body) stamp g
      else (g, plain_reply 401)
