-- ===== src/Http/Auth.antt =====
-- internal/httpapi/server.go: what the bearer token lets through.
use riskkernel.Base.{
  ◌≡◌, ◌↔◌, ◌⊎◌, inl, inr, refl, sym, ap, ◌∙◌, codes, codes_eq, codes_eq→eq, codes_eq_refl,
  has_prefix, has_prefix-drop_prefix, drop_prefix, Runes, is_nil, Bool, true, false, ◌||◌, [], ◌∷◌,
  ◌++◌, arith, if◌then◌else◌,
}
use riskkernel.Http.{Response, problem, authorized, require_auth}

-- A request is let through exactly when no token is configured, or its Authorization header is the
-- word Bearer, one space and the token.
authorized_iff :
    (token header : Runes)
    → (authorized token header ≡ true) ↔ ((token ≡ []) ⊎ (header ≡ codes "Bearer " ++ token))
unfolding authorized
authorized_iff [] header = (λ h. inl refl, λ h. refl)
authorized_iff (t ∷ ts) header = (
  λ h.
      let p : has_prefix header (codes "Bearer ") ≡ true = ground arith in
      let q : codes_eq (drop_prefix header (codes "Bearer ")) (t ∷ ts) ≡ true = ground arith in
      inr (
        has_prefix-drop_prefix header (codes "Bearer ") p
        ∙ ap (λ s. codes "Bearer " ++ s)
            (codes_eq→eq (drop_prefix header (codes "Bearer ")) (t ∷ ts) q)),
  λ h. elim h [ inl e ↦ cc | inr e ↦ rw e (ground (arith, codes_eq_refl (t ∷ ts))) ],
)

-- Two tests that hold of the same things.
both_true : (a b : Bool) → (a ≡ true → b ≡ true) → (b ≡ true → a ≡ true) → a ≡ b
both_true true b f g = sym (f refl)
both_true false true f g = g refl
both_true false false f g = refl

abbrev let_through : Runes → Runes → Bool
let_through token header = is_nil token || codes_eq header (codes "Bearer " ++ token)

authorized-let_through : (token header : Runes) → authorized token header ≡ let_through token header
authorized-let_through token header =
    both_true (authorized token header) (let_through token header)
      (λ h. elim ((authorized_iff token header).0 h) [
        | inl e ↦ rw e
        | inr e ↦ rw e (ground (arith, codes_eq_refl token))
      ])
      (λ h. (authorized_iff token header).1 (named token header h))
  where
    named :
        (token header : Runes)
        → let_through token header ≡ true
        → (token ≡ []) ⊎ (header ≡ codes "Bearer " ++ token)
    named [] header h = inl refl
    named (t ∷ ts) header h = inr (codes_eq→eq header (codes "Bearer " ++ (t ∷ ts)) h)

module _ {D M : Type 0} where
  -- A handler runs exactly when no token is configured or the request's Authorization header is the
  -- word Bearer, one space and the token; any other request is answered 401 and changes nothing.
  pub require_auth_iff :
      (token header : Runes) (next : M → M × Response D) (m : M)
      → require_auth token header next m ≡ (
          if is_nil token || codes_eq header (codes "Bearer " ++ token)
          then next m
          else (m, problem 401 "unauthorized"))
  unfolding require_auth
  require_auth_iff token header next m = rw (authorized-let_through token header)
