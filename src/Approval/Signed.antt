-- ===== src/Approval/Signed.antt =====
-- internal/approval/slack.go and internal/httpapi/slack.go: what a callback must carry to decide.
use riskkernel.Base.{
  ℕ, ◌<◌, ◌≡◌, ◌≢◌, refl, sym, ◌≤ℤ◌, ◌-ℤ◌, ◌+ℤ◌, ℤ, pos, negsuc, wrap64, IsInt64, codes,
  codes_eq→eq, Runes, is_nil, trim_space, Bool, true, false, not, ◌&&◌, Bool-cases, inl, inr,
  Option, none, some, ◌++◌, arith, Time,
}
use riskkernel.Storage.{ApprovalStore}
use riskkernel.Config.{parse_int}
use riskkernel.Config.Bounds.{parse_int-IsInt64}
use riskkernel.Approval.Gate.{Gate}
use riskkernel.Approval.Slack.{
  Mac, is_fresh, signed_text, verify_signature, Interaction, Callback, handle_slack,
}

-- The two times are at most 300 seconds apart.
abbrev pub Near : ℤ → ℤ → Type 0
Near now ts = (now ≤ℤ ts +ℤ pos 300) × (ts ≤ℤ now +ℤ pos 300)

-- The int64 difference may wrap around, but not into the window.
fresh-Near :
    (n : ℕ) (ts : ℤ)
    → n < 4611686018427387904
    → IsInt64 ts
    → is_fresh (pos n) (some ts) ≡ true
    → Near (pos n) ts
unfolding wrap64 ◌-ℤ◌ ◌+ℤ◌
fresh-Near n (pos t) small fits h = ground arith
fresh-Near n (negsuc t) small fits h = ground arith

and_left : (a b : Bool) → a && b ≡ true → a ≡ true
and_left true b e = refl
and_left false b e = cc

and_right : (a b : Bool) → a && b ≡ true → b ≡ true
and_right true b e = e
and_right false b e = cc

negated : (a : Bool) → not a ≡ true → a ≡ false
negated true e = cc
negated false e = refl

-- What a callback that decides must carry.
pub record IsSigned ⦃M : Mac⦄ (secret : Runes) (now : ℤ) (c : Callback) : Type 0 where
  pub time : ℤ
  pub read : parse_int (trim_space c.timestamp) ≡ some time
  pub near : Near now time
  pub configured : is_nil secret ≡ false
  pub mac : c.signature ≡ codes "v0=" ++ M.hmac_hex secret (signed_text c.timestamp c.body)

module _ ⦃M : Mac⦄ where
  fresh_time :
      (o : Option ℤ) (n : ℕ)
      → n < 4611686018427387904
      → ((t : ℤ) → o ≡ some t → IsInt64 t)
      → is_fresh (pos n) o ≡ true
      → (t : ℤ) × (o ≡ some t) × Near (pos n) t
  fresh_time none n small fits h = cc
  fresh_time (some t) n small fits h = (t, refl, fresh-Near n t small (fits t refl) h)

  verified-IsSigned :
      (secret : Runes) (n : ℕ) (c : Callback)
      → n < 4611686018427387904
      → verify_signature secret (pos n) c.timestamp c.signature c.body ≡ true
      → IsSigned secret (pos n) c
  unfolding verify_signature
  verified-IsSigned secret n c small h =
      let o = parse_int (trim_space c.timestamp) in
      let f : is_fresh (pos n) o ≡ true = and_left _ _ (and_right _ _ h) in
      let (t, read, near) = fresh_time o n small (parse_int-IsInt64 (trim_space c.timestamp)) f in
      record {
        time = t;
        read = read;
        near = near;
        configured = negated _ (and_left _ _ h);
        mac = sym (codes_eq→eq _ c.signature (and_right _ _ (and_right _ _ h)));
      }

module _ {S : Type 0} ⦃M : Mac⦄ ⦃B : ApprovalStore S⦄ where
  -- A callback that changes the gate is signed: a signing secret is configured, its signature is the
  -- HMAC under that secret of its own timestamp and body, and the timestamp is a number within 300
  -- seconds of the daemon's clock, although the difference is taken in int64 (for a clock from 0 to
  -- below 2^62 seconds).
  pub slack_decides-IsSigned :
      (secret : Runes) (n : ℕ) (stamp : Time) (decode : Runes → Option (Option Interaction))
      (c : Callback) (g : Gate S)
      → n < 4611686018427387904
      → (handle_slack secret (pos n) stamp decode c g).0 ≢ g
      → IsSigned secret (pos n) c
  unfolding handle_slack
  slack_decides-IsSigned secret n stamp decode c g small moved =
      elim (Bool-cases (verify_signature secret (pos n) c.timestamp c.signature c.body)) [
        | inl e ↦ verified-IsSigned secret n c small e
        | inr e ↦ absurd (moved (rw e))
      ]
