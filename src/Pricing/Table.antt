-- ===== src/Pricing/Table.antt =====
-- internal/pricing/pricing.go: what `Rate` answers, and how overrides layer on the built-in rates.
use riskkernel.Base.{
  ℕ, ◌≤◌, ◌≡◌, refl, ◌∙◌, sym, ◌≢◌, ◌⊎◌, inl, inr, true, false, Option, none, some, List, [], ◌∷◌,
  ◌++◌, arith, length, String, codes, codes_eq, codes_eq→eq, codes_eq_refl, has_prefix, Unicode,
  to_lower, Bool-cases, if◌then◌else◌, Float64,
}
use riskkernel.Pricing.{
  Rate, Rates, find_rate, put_rate, layer, best_prefix, is_empty, new_table, rate,
}
use riskkernel.Pricing.Prefix.{
  IsKey, best_prefix_longest, best_prefix_found, best_prefix_any_order, prefix_unique,
}

nil_of_length : (j : List ℕ) → length j ≤ 0 → j ≡ []
nil_of_length [] h = refl
nil_of_length (x ∷ j) h = absurd (omega arith)

full_prefix : (m : List ℕ) → has_prefix m m ≡ true
full_prefix [] = refl
full_prefix (x ∷ m) = ground (arith, full_prefix m)

prefix-length : (m k : List ℕ) → has_prefix m k ≡ true → length k ≤ length m
prefix-length m [] h = omega arith
prefix-length [] (y ∷ k) h = cc
prefix-length (x ∷ m) (y ∷ k) h = ground (arith, prefix-length m k)

not_empty : (m : List ℕ) → m ≢ [] → is_empty m ≡ false
not_empty [] h = absurd (h refl)
not_empty (x ∷ m) h = refl

module _ {V : Type 0} where
  IsKey-find_rate :
      (k : List ℕ) (m : List (List ℕ × V)) → IsKey k m → (v : V) × (find_rate k m ≡ some v)
  IsKey-find_rate k [] h = absurd h
  IsKey-find_rate k ((j, v) ∷ m) h = elim (Bool-cases (codes_eq j k)) [
    | inl e ↦ (v, rw e)
    | inr ne ↦ elim h [
      | inl same ↦ absurd (differ j k ne (sym same))
      | inr later ↦ rw ne (IsKey-find_rate k m later)
    ]
  ]
    where
      differ : (j k : List ℕ) → codes_eq j k ≡ false → j ≢ k
      differ j k ne e = cc (rw e at ne, codes_eq_refl k)

  find_rate-IsKey :
      (k : List ℕ) (m : List (List ℕ × V)) {v : V} → find_rate k m ≡ some v → IsKey k m
  find_rate-IsKey k [] h = cc
  find_rate-IsKey k ((j, v) ∷ m) h = elim (Bool-cases (codes_eq j k)) [
    | inl e ↦ inl (sym (codes_eq→eq j k e))
    | inr ne ↦ inr (find_rate-IsKey k m (rw ne at h))
  ]

  find_rate-put_rate :
      (k : List ℕ) (v : V) (m : List (List ℕ × V)) → find_rate k (put_rate k v m) ≡ some v
  find_rate-put_rate k v [] = rw (codes_eq_refl k)
  find_rate-put_rate k v ((j, w) ∷ m) = ground (arith, codes_eq_refl k, find_rate-put_rate k v m)

  layer-append :
      ⦃U : Unicode⦄ (xs ys : List (String × V)) (m : List (List ℕ × V))
      → layer (xs ++ ys) m ≡ layer ys (layer xs m)
  unfolding layer
  layer-append [] ys m = refl
  layer-append ((k, v) ∷ xs) ys m = layer-append xs ys (put_rate (to_lower (codes k)) v m)

  layer-snoc :
      ⦃U : Unicode⦄ (kvs : List (String × V)) (k : String) (v : V) (m : List (List ℕ × V))
      → find_rate (to_lower (codes k)) (layer (kvs ++ (k, v) ∷ []) m) ≡ some v
  unfolding layer
  layer-snoc kvs k v m =
      rw (layer-append kvs ((k, v) ∷ []) m)
        (find_rate-put_rate (to_lower (codes k)) v (layer kvs m))

to_lower_nonempty : ⦃U : Unicode⦄ (s : List ℕ) → s ≢ [] → to_lower s ≢ []
to_lower_nonempty [] h = absurd (h refl)
to_lower_nonempty (c ∷ s) h = λ e. cc

-- What the answer of `Rate` says of the map: the entry found belongs to a nonempty key that the
-- model begins with, and no such key is longer; no entry is found only if there is no such key.
module _ {D : Type 0} ⦃F : Float64 D⦄ ⦃U : Unicode⦄ where
  abbrev pub IsPriceOf : Rates D → List ℕ → Option (Rate D) → Type 0
  IsPriceOf rates m none = (j : List ℕ) → IsKey j rates → has_prefix m j ≡ true → j ≡ []
  IsPriceOf rates m (some r) =
      (k : List ℕ) × (k ≢ [])
      × (has_prefix m k ≡ true)
      × (find_rate k rates ≡ some r)
      × ((j : List ℕ) → IsKey j rates → has_prefix m j ≡ true → length j ≤ length k)

  pick-IsPriceOf :
      (rates : Rates D) (m best : List ℕ)
      → ((j : List ℕ) → IsKey j rates → has_prefix m j ≡ true → length j ≤ length best)
      → (best ≡ []) ⊎ (IsKey best rates × (has_prefix m best ≡ true))
      → IsPriceOf rates m (if is_empty best then none else find_rate best rates)
  pick-IsPriceOf rates m [] longest found = λ j key pre. nil_of_length j (longest j key pre)
  pick-IsPriceOf rates m (c ∷ cs) longest (inl e) = cc
  pick-IsPriceOf rates m (c ∷ cs) longest (inr (key, pre)) =
      let (v, e) = IsKey-find_rate (c ∷ cs) rates key in rw e (c ∷ cs, (λ q. cc), pre, e, longest)

  -- `Rate` finds the longest nonempty key that the lower-cased model name begins with.
  pub rate-IsPriceOf :
      (rates : Rates D) (model : String)
      → IsPriceOf rates (to_lower (codes model)) (rate (some rates) model)
  unfolding rate
  rate-IsPriceOf rates model =
      pick-IsPriceOf rates (to_lower (codes model)) _
        (best_prefix_longest (to_lower (codes model)) rates [])
        (best_prefix_found (to_lower (codes model)) rates [])

  -- The answer of `Rate` does not depend on the order in which `range` visits the map: it is the
  -- same for two listings of one map.
  pub rate_any_order :
      (xs ys : Rates D) (model : String)
      → ((k : List ℕ) → find_rate k xs ≡ find_rate k ys)
      → rate (some xs) model ≡ rate (some ys) model
  unfolding rate
  rate_any_order xs ys model same =
      let e : best_prefix (to_lower (codes model)) xs []
          ≡ best_prefix (to_lower (codes model)) ys [] =
        best_prefix_any_order (to_lower (codes model)) xs ys (keys xs ys same)
          (keys ys xs (λ k. sym (same k))) in
      rw e (rw (same (best_prefix (to_lower (codes model)) ys [])))
    where
      keys :
          (xs ys : Rates D)
          → ((k : List ℕ) → find_rate k xs ≡ find_rate k ys)
          → (k : List ℕ) → IsKey k xs
          → IsKey k ys
      keys xs ys same k h =
          let (v, e) = IsKey-find_rate k xs h in find_rate-IsKey k ys (sym (same k) ∙ e)

  best_of_key : (rates : Rates D) (m : List ℕ) → m ≢ [] → IsKey m rates → best_prefix m rates [] ≡ m
  best_of_key rates m ne key = elim (best_prefix_found m rates []) [
    | inl e ↦
        absurd
          (ne (nil_of_length m (rw e at (best_prefix_longest m rates [] m key (full_prefix m)))))
    | inr (k, pre) ↦
        prefix_unique m _ _ pre (full_prefix m) (
          omega
            (arith, prefix-length m _ pre, best_prefix_longest m rates [] m key (full_prefix m)))
  ]

  rate_of_entry :
      (rates : Rates D) (model : String) (r : Rate D)
      → codes model ≢ []
      → find_rate (to_lower (codes model)) rates ≡ some r
      → rate (some rates) model ≡ some r
  unfolding rate
  rate_of_entry rates model r ne e =
      let ne' = to_lower_nonempty (codes model) ne in
      rw (best_of_key rates (to_lower (codes model)) ne' (find_rate-IsKey _ rates e))
        (rw (not_empty _ ne', if◌then◌else◌) e)

  -- The last override of a model's own name, if that is not empty, decides its price, whatever
  -- else the overrides and the built-in rates hold.
  pub rate-new_table :
      (overrides : List (String × Rate D)) (model : String) (r : Rate D)
      → codes model ≢ []
      → rate (some (new_table (overrides ++ (model, r) ∷ []))) model ≡ some r
  unfolding new_table
  rate-new_table overrides model r ne = rate_of_entry _ model r ne (layer-snoc overrides model r _)
