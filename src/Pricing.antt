-- ===== src/Pricing.antt =====
-- internal/pricing/pricing.go: the price table and what a call costs. A Go map is a list of its
-- entries in the order in which `range` visits them, which Go leaves open.
pub mod Prefix
pub mod Table
mod Tests
use riskkernel.Base.{
  ℕ, ◌<◌, ℤ, String, codes, codes_eq, has_prefix, to_lower, Unicode, Bool, true, false, ◌&&◌, ◌||◌,
  Option, none, some, List, [], ◌∷◌, length, ltb, if◌then◌else◌, Float64,
}

pub record Rate (D : Type 0) : Type 0 where
  pub input_per_m : D
  pub output_per_m : D

abbrev pub Rates : Type 0 → Type 0
Rates D = List (List ℕ × Rate D)

-- The loop body of `Rate`: the longest key so far that the model begins with.
abbrev pub better : List ℕ → List ℕ → List ℕ → List ℕ
better m k best = if has_prefix m k && ltb (length best) (length k) then k else best

-- `m[k]`, and `m[k] = v`, which keeps one entry for each key.
module _ {V : Type 0} where
  abbrev pub find_rate : List ℕ → List (List ℕ × V) → Option V
  find_rate k [] = none
  find_rate k ((j, v) ∷ m) = if codes_eq j k then some v else find_rate k m

  abbrev pub put_rate : List ℕ → V → List (List ℕ × V) → List (List ℕ × V)
  put_rate k v [] = (k, v) ∷ []
  put_rate k v ((j, w) ∷ m) = if codes_eq j k then (k, v) ∷ m else (j, w) ∷ put_rate k v m

  -- `for k, v := range kvs { m[strings.ToLower(k)] = v }`
  pub layer : ⦃U : Unicode⦄ → List (String × V) → List (List ℕ × V) → List (List ℕ × V)
  layer [] m = m
  layer ((k, v) ∷ kvs) m = layer kvs (put_rate (to_lower (codes k)) v m)

  unfoldable pub best_prefix : List ℕ → List (List ℕ × V) → List ℕ → List ℕ
  best_prefix m [] best = best
  best_prefix m ((k, v) ∷ rates) best = best_prefix m rates (better m k best)

abbrev is_empty : List ℕ → Bool
is_empty [] = true
is_empty (_ ∷ _) = false

module _ {D : Type 0} ⦃F : Float64 D⦄ where
  -- `defaultRates`, in tenths and hundredths of a dollar where they are not whole.
  abbrev pub default_rates : List (String × Rate D)
  default_rates =
      ("claude-fable-5", record { input_per_m = F.decimal 100 1; output_per_m = F.decimal 500 1 })
      ∷ ("claude-opus-4-8", record { input_per_m = F.decimal 50 1; output_per_m = F.decimal 250 1 })
      ∷ ("claude-opus-4-7", record { input_per_m = F.decimal 50 1; output_per_m = F.decimal 250 1 })
      ∷ ("claude-opus-4-6", record { input_per_m = F.decimal 50 1; output_per_m = F.decimal 250 1 })
      ∷ ("claude-opus-4-5", record { input_per_m = F.decimal 50 1; output_per_m = F.decimal 250 1 })
      ∷ ("claude-opus-4", record { input_per_m = F.decimal 150 1; output_per_m = F.decimal 750 1 })
      ∷ ("claude-sonnet-4", record { input_per_m = F.decimal 30 1; output_per_m = F.decimal 150 1 })
      ∷ ("claude-haiku-4", record { input_per_m = F.decimal 10 1; output_per_m = F.decimal 50 1 })
      ∷ ("claude-3-5-haiku", record { input_per_m = F.decimal 8 1; output_per_m = F.decimal 40 1 })
      ∷ ("gpt-5.5", record { input_per_m = F.decimal 50 1; output_per_m = F.decimal 300 1 })
      ∷ ("gpt-5.4-mini", record { input_per_m = F.decimal 75 2; output_per_m = F.decimal 45 1 })
      ∷ ("gpt-5.4-nano", record { input_per_m = F.decimal 2 1; output_per_m = F.decimal 125 2 })
      ∷ ("gpt-5.4", record { input_per_m = F.decimal 25 1; output_per_m = F.decimal 150 1 })
      ∷ ("gpt-4o-mini", record { input_per_m = F.decimal 15 2; output_per_m = F.decimal 6 1 })
      ∷ ("gpt-4o", record { input_per_m = F.decimal 25 1; output_per_m = F.decimal 100 1 })
      ∷ []

  -- `lowerDefaults`.
  unfoldable pub lower_defaults : ⦃U : Unicode⦄ → Rates D
  unfolding layer
  lower_defaults = layer default_rates []

  -- `NewTable`.
  unfoldable pub new_table : ⦃U : Unicode⦄ → List (String × Rate D) → Rates D
  unfolding layer
  new_table overrides = layer overrides (layer default_rates [])

  -- `LoadOverrides` after the file is read and decoded: a negative rate is an error.
  abbrev is_negative : Rate D → Bool
  is_negative r = F.lt_f r.input_per_m F.zero_f || F.lt_f r.output_per_m F.zero_f

  abbrev pub has_negative : List (String × Rate D) → Bool
  has_negative [] = false
  has_negative ((k, r) ∷ rest) = is_negative r || has_negative rest

  unfoldable pub load_overrides : List (String × Rate D) → Option (List (String × Rate D))
  load_overrides overrides = if has_negative overrides then none else some overrides

  -- `Table.Rate`; a nil table has the built-in rates.
  unfoldable pub rate : ⦃U : Unicode⦄ → Option (Rates D) → String → Option (Rate D)
  unfolding lower_defaults best_prefix
  rate table model =
      let rates : Rates D = elim table [ none ↦ lower_defaults | some rs ↦ rs ] in
      let best = best_prefix (to_lower (codes model)) rates [] in
      if is_empty best then none else find_rate best rates

  -- `Table.Cost`: the dollars, and whether the model is priced.
  unfoldable pub cost : ⦃U : Unicode⦄ → Option (Rates D) → String → ℤ → ℤ → D × Bool
  unfolding rate
  cost table model prompt completion =
      let million = F.decimal 1000000 0 in
      elim (rate table model) [
        | none ↦ (F.zero_f, false)
        | some r ↦ (
          F.add_f (F.mul_f (F.div_f (F.of_int prompt) million) r.input_per_m)
              (F.mul_f (F.div_f (F.of_int completion) million) r.output_per_m),
          true,
        )
      ]
