-- ===== src/Pricing/Prefix.antt =====
-- internal/pricing/pricing.go: the search for the longest matching prefix.
use riskkernel.Base.{
  ℕ, ◌≤◌, ◌≡◌, refl, ◌⊎◌, inl, inr, true, ◌&&◌, List, [], ◌∷◌, arith, ltb, length, has_prefix,
  Bool-cases,
}
use riskkernel.Pricing.{better, best_prefix}

has_prefix_nil : (m : List ℕ) → has_prefix m [] ≡ true
has_prefix_nil [] = refl
has_prefix_nil (x ∷ m) = refl

-- `k` is a key of the map.
abbrev pub IsKey : {V : Type 0} → List ℕ → List (List ℕ × V) → Type 0
IsKey k [] = ⊥
IsKey k ((j, v) ∷ m) = (k ≡ j) ⊎ IsKey k m

-- Two prefixes of one text that are as long as each other are one text.
pub prefix_unique :
    (s p q : List ℕ) → has_prefix s p ≡ true → has_prefix s q ≡ true → length p ≡ length q → p ≡ q
prefix_unique s [] [] hp hq e = refl
prefix_unique s [] (y ∷ q) hp hq e = absurd (omega arith)
prefix_unique s (x ∷ p) [] hp hq e = absurd (omega arith)
prefix_unique [] (x ∷ p) (y ∷ q) hp hq e = cc
prefix_unique (c ∷ s) (x ∷ p) (y ∷ q) hp hq e = ground (arith, prefix_unique s p q)

module _ {V : Type 0} (m : List ℕ) where
  -- What the loop has of the keys seen, from a start `best`.
  pub best_prefix-le :
      (rates : List (List ℕ × V)) (best : List ℕ) → length best ≤ length (best_prefix m rates best)
  unfolding best_prefix
  best_prefix-le [] best = omega arith
  best_prefix-le ((k, v) ∷ rates) best = ground (arith, best_prefix-le rates (better m k best))

  pub best_prefix_longest :
      (rates : List (List ℕ × V)) (best : List ℕ) (k : List ℕ)
      → IsKey k rates
      → has_prefix m k ≡ true
      → length k ≤ length (best_prefix m rates best)
  unfolding best_prefix
  best_prefix_longest [] best k h p = absurd h
  best_prefix_longest ((j, v) ∷ rates) best k (inl e) p =
      ground (arith, best_prefix-le rates (better m j best))
  best_prefix_longest ((j, v) ∷ rates) best k (inr h) p =
      best_prefix_longest rates (better m j best) k h p

  pub best_prefix_found :
      (rates : List (List ℕ × V)) (best : List ℕ)
      → (best_prefix m rates best ≡ best)
        ⊎ (IsKey (best_prefix m rates best) rates
            × (has_prefix m (best_prefix m rates best) ≡ true))
  unfolding best_prefix
  best_prefix_found [] best = inl refl
  best_prefix_found ((k, v) ∷ rates) best = elim (best_prefix_found rates (better m k best)) [
    | inl same ↦ elim (Bool-cases (has_prefix m k && ltb (length best) (length k))) [
      | inl longer ↦ ground arith
      | inr not_longer ↦ ground arith
    ]
    | inr (key, pre) ↦ inr (inr key, pre)
  ]

module _ {V : Type 0} (m : List ℕ) where
  best_prefix_is_prefix : (rates : List (List ℕ × V)) → has_prefix m (best_prefix m rates []) ≡ true
  best_prefix_is_prefix rates = elim (best_prefix_found m rates []) [
    | inl e ↦ rw e (has_prefix_nil m)
    | inr (key, pre) ↦ pre
  ]

  best_prefix-le-order :
      (xs ys : List (List ℕ × V))
      → ((k : List ℕ) → IsKey k xs → IsKey k ys)
      → length (best_prefix m xs []) ≤ length (best_prefix m ys [])
  best_prefix-le-order xs ys sub = elim (best_prefix_found m xs []) [
    | inl e ↦ rw e (omega arith)
    | inr (key, pre) ↦ best_prefix_longest m ys [] _ (sub _ key) pre
  ]

  -- The key that the loop of `Rate` ends with is the same for any two listings with the same keys.
  pub best_prefix_any_order :
      (xs ys : List (List ℕ × V))
      → ((k : List ℕ) → IsKey k xs → IsKey k ys)
      → ((k : List ℕ) → IsKey k ys → IsKey k xs)
      → best_prefix m xs [] ≡ best_prefix m ys []
  best_prefix_any_order xs ys there back =
      prefix_unique m _ _ (best_prefix_is_prefix xs) (best_prefix_is_prefix ys)
        (omega (arith, best_prefix-le-order xs ys there, best_prefix-le-order ys xs back))
