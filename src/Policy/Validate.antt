-- ===== src/Policy/Validate.antt =====
-- internal/policy/policy.go: what `Validate` accepts, and that a bundle is then found by its name.
use riskkernel.Base.{
  ℕ, suc, pos, ◌≤ℤ◌, eq_of_parts, ◌≡◌, refl, ◌≢◌, ◌↔◌, ◌⊎◌, inl, inr, String, codes, str_eq_iff,
  false, none, some, List, [], ◌∷◌, arith, Float64,
}
use riskkernel.Policy.{
  Bundle, File, current_schema, all_space, has_tool, find_bundle, validate_from, validate,
}

abbrev pub NotIn : String → List String → Type 0
NotIn name [] = Unit
NotIn name (s ∷ ss) = (s ≢ name) × NotIn name ss

has_tool-NotIn : (name : String) (ss : List String) → has_tool ss name ≡ false → NotIn name ss
unfolding has_tool
has_tool-NotIn name [] h = tt
has_tool-NotIn name (s ∷ ss) h =
    (λ e. ground (arith, str_eq_iff s name), has_tool-NotIn name ss (ground arith))

NotIn-has_tool : (name : String) (ss : List String) → NotIn name ss → has_tool ss name ≡ false
unfolding has_tool
NotIn-has_tool name [] h = refl
NotIn-has_tool name (s ∷ ss) h = ground (arith, str_eq_iff s name, NotIn-has_tool name ss h.1)

module _ {D : Type 0} ⦃F : Float64 D⦄ where
  -- A bundle that may stand behind the names seen: it has a name, which is new, and no budget value
  -- below zero.
  abbrev pub IsSound : Bundle D → Type 0
  IsSound b =
      (all_space (codes b.name) ≡ false)
      × (pos 0 ≤ℤ b.budget.tokens)
      × (F.lt_f b.budget.dollars F.zero_f ≡ false)
      × (pos 0 ≤ℤ b.budget.loops)
      × (pos 0 ≤ℤ b.budget.seconds)

  -- Every bundle is sound, and no name is in the list or stands twice.
  abbrev pub IsFresh : List String → List (Bundle D) → Type 0
  IsFresh seen [] = Unit
  IsFresh seen (b ∷ bs) = IsSound b × NotIn b.name seen × IsFresh (b.name ∷ seen) bs

  validate_from_there :
      (bs : List (Bundle D)) (i : ℕ) (seen : List String)
      → validate_from bs i seen ≡ none
      → IsFresh seen bs
  unfolding validate_from
  validate_from_there [] i seen h = tt
  validate_from_there (b ∷ bs) i seen h =
      ground (arith, has_tool-NotIn b.name seen, validate_from_there bs (suc i) (b.name ∷ seen))

  validate_from_back :
      (bs : List (Bundle D)) (i : ℕ) (seen : List String)
      → IsFresh seen bs
      → validate_from bs i seen ≡ none
  unfolding validate_from
  validate_from_back [] i seen h = refl
  validate_from_back (b ∷ bs) i seen h =
      ground
        (arith, NotIn-has_tool b.name seen h.1, validate_from_back bs (suc i) (b.name ∷ seen) h.2)

  -- A file is accepted exactly when it has the current schema version, at least one bundle, and only
  -- bundles with a name of their own and no negative budget.
  pub validate_iff :
      (f : File D)
      → (validate f ≡ none)
        ↔ ((f.schema_version ≡ current_schema) × (f.policies ≢ []) × IsFresh [] f.policies)
  unfolding validate
  validate_iff f = (
    λ h. (
      ground (arith, eq_of_parts f.schema_version (pos 1)),
      (λ e. ground arith),
      ground (arith, validate_from_there f.policies 0 []),
    ),
    λ h. ground (arith, validate_from_back f.policies 0 [] h.2),
  )

  -- The bundle stands in the list.
  abbrev pub Stands : Bundle D → List (Bundle D) → Type 0
  Stands b [] = ⊥
  Stands b (c ∷ cs) = (b ≡ c) ⊎ Stands b cs

  not_seen :
      (seen : List String) (b : Bundle D) (bs : List (Bundle D))
      → IsFresh seen bs
      → Stands b bs
      → NotIn b.name seen
  not_seen seen b [] h s = absurd s
  not_seen seen b (c ∷ cs) h (inl e) = rw e h.1
  not_seen seen b (c ∷ cs) h (inr s) = (not_seen (c.name ∷ seen) b cs h.2 s).1

  find_of_fresh :
      (seen : List String) (b : Bundle D) (bs : List (Bundle D))
      → IsFresh seen bs
      → Stands b bs
      → find_bundle b.name bs ≡ some b
  unfolding find_bundle has_tool
  find_of_fresh seen b [] h s = absurd s
  find_of_fresh seen b (c ∷ cs) h (inl e) = rw (← e) (rw ((str_eq_iff b.name b.name).1 refl))
  find_of_fresh seen b (c ∷ cs) h (inr s) = ground (
    arith,
    str_eq_iff c.name b.name,
    (not_seen (c.name ∷ seen) b cs h.2 s).0,
    find_of_fresh (c.name ∷ seen) b cs h.2 s,
  )

  -- In an accepted file each bundle is the one that is found by its name.
  pub find_bundle-validate :
      (f : File D) (b : Bundle D)
      → validate f ≡ none
      → Stands b f.policies
      → find_bundle b.name f.policies ≡ some b
  find_bundle-validate f b h s = find_of_fresh [] b f.policies ((validate_iff f).0 h).2 s
