-- ===== src/Mcp/Allowed.antt =====
-- internal/mcp/gateway.go: which tools the allowlist has, and which the gate is not asked about.
use riskkernel.Base.{
  ◌≡◌, refl, ◌↔◌, ◌⊎◌, inl, inr, String, codes, str_eq_iff, Bool, true, false, ◌||◌, Option, none,
  some, List, [], ◌∷◌, is_nil, path_match, if◌then◌else◌, Bool-cases,
}
use riskkernel.Storage.{PolicyRecord}
use riskkernel.Approval.{requires}
use riskkernel.Mcp.{
  Gateway, match_pattern, match_allow, member, bundle_policy, side_effect, allowed_for,
  needs_approval,
}

-- A pattern of a list is the tool's name, or matches it.
abbrev pub Matches : String → List String → Type 0
Matches tool [] = ⊥
Matches tool (pat ∷ pats) =
    ((pat ≡ tool) ⊎ (path_match (codes pat) (codes tool) ≡ true)) ⊎ Matches tool pats

abbrev pub IsListed : String → List String → Type 0
IsListed tool [] = ⊥
IsListed tool (t ∷ ts) = (t ≡ tool) ⊎ IsListed tool ts

-- A list that is empty allows every tool.
abbrev pub IsAllowed : String → List String → Type 0
IsAllowed tool pats = (pats ≡ []) ⊎ Matches tool pats

pub apart : {b : Bool} → b ≡ false → b ≡ true → ⊥
apart h k = cc

or_iff :
    {A B : Type 0} (b rest : Bool)
    → (b ≡ true) ↔ A
    → (rest ≡ true) ↔ B
    → ((b || rest) ≡ true) ↔ (A ⊎ B)
or_iff {A} {B} true rest x y = (λ h. inl (x.0 refl), λ h. refl)
or_iff {A} {B} false rest x y = (λ h. inr (y.0 h), from)
  where
    from : A ⊎ B → rest ≡ true
    from (inl a) = absurd (apart refl (x.1 a))
    from (inr m) = y.1 m

match_pattern-Matches :
    (tool : String) (pats : List String) → (match_pattern pats tool ≡ true) ↔ Matches tool pats
unfolding match_pattern
match_pattern-Matches tool [] = (λ h. cc, λ h. absurd h)
match_pattern-Matches tool (pat ∷ pats) =
    or_iff _ _ (or_iff _ _ (str_eq_iff pat tool) (λ h. h, λ h. h)) (match_pattern-Matches tool pats)

match_allow-IsAllowed :
    (tool : String) (pats : List String) → (match_allow pats tool ≡ true) ↔ IsAllowed tool pats
unfolding match_allow match_pattern
match_allow-IsAllowed tool [] = (λ h. inl refl, λ h. refl)
match_allow-IsAllowed tool (pat ∷ pats) =
    let iff = match_pattern-Matches tool (pat ∷ pats) in (λ h. inr (iff.0 h), from)
  where
    from : IsAllowed tool (pat ∷ pats) → match_pattern (pat ∷ pats) tool ≡ true
    from (inl e) = cc
    from (inr m) = (match_pattern-Matches tool (pat ∷ pats)).1 m

member-IsListed :
    (tool : String) (names : List String) → (member tool names ≡ true) ↔ IsListed tool names
member-IsListed tool [] = (λ h. cc, λ h. absurd h)
member-IsListed tool (t ∷ ts) = or_iff _ _ (str_eq_iff t tool) (member-IsListed tool ts)

-- The bundle's allowlist, or the global one where it has none.
abbrev or_global : List String → List String → List String
or_global global [] = global
or_global global (pat ∷ pats) = pat ∷ pats

same_list :
    (global pats : List String) → (if is_nil pats then global else pats) ≡ or_global global pats
same_list global [] = refl
same_list global (pat ∷ pats) = refl

module _ {D : Type 0} where
  abbrev pub allowlist : Gateway → Option (PolicyRecord D) → List String
  allowlist gw none = gw.allow
  allowlist gw (some p) = or_global gw.allow p.tool_allowlist

  -- A tool that is listed as read-only, and that the rules of a bundle do not name.
  abbrev NoRule : String → Option (PolicyRecord D) → Type 0
  NoRule tool none = Unit
  NoRule tool (some p) = requires (bundle_policy p) tool "" ≡ false

  abbrev pub IsUngated : Gateway → String → Option (PolicyRecord D) → Type 0
  IsUngated gw tool bundle = IsListed tool gw.readonly × NoRule tool bundle

  pub allowed_for-IsAllowed :
      (gw : Gateway) (tool : String) (bundle : Option (PolicyRecord D))
      → (allowed_for gw tool bundle ≡ true) ↔ IsAllowed tool (allowlist gw bundle)
  unfolding allowed_for
  allowed_for-IsAllowed gw tool none = match_allow-IsAllowed tool gw.allow
  allowed_for-IsAllowed gw tool (some p) =
      rw (same_list gw.allow p.tool_allowlist)
        (match_allow-IsAllowed tool (or_global gw.allow p.tool_allowlist))

  no_rule :
      (tool : String) (bundle : Option (PolicyRecord D))
      → (needs_approval tool "" bundle ≡ false) ↔ NoRule tool bundle
  unfolding needs_approval
  no_rule tool none = (λ h. tt, λ h. refl)
  no_rule tool (some p) = (λ h. h, λ h. h)

  is_gated :
      (tool : String) (o : Option (PolicyRecord D)) → needs_approval tool "tool" o ≡ false → ⊥
  unfolding needs_approval
  is_gated tool none h = cc
  is_gated tool (some p) h = cc

  -- The gate is not asked exactly about these.
  pub needs_approval-IsUngated :
      (gw : Gateway) (tool : String) (bundle : Option (PolicyRecord D))
      → (needs_approval tool (side_effect gw tool) bundle ≡ false) ↔ IsUngated gw tool bundle
  unfolding side_effect
  needs_approval-IsUngated gw tool bundle =
      let listed = member-IsListed tool gw.readonly in
      elim (Bool-cases (member tool gw.readonly)) [
        | inl e ↦
            rw e (λ h. (listed.0 e, (no_rule tool bundle).0 h), λ h. (no_rule tool bundle).1 (h.1))
        | inr e ↦
            rw e (λ h. absurd (is_gated tool bundle h), λ h. absurd (apart e (listed.1 (h.0))))
      ]
