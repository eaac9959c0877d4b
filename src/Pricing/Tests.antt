-- ===== src/Pricing/Tests.antt =====
-- internal/pricing/pricing.go: prices on concrete tables.
use riskkernel.Base.{
  ℕ, ◌≡◌, refl, ◌≢◌, inl, inr, codes, to_lower, none, some, List, [], ◌∷◌, subst, Bool-cases,
  codes_eq, codes_eq→eq,
}
use riskkernel.Pricing.{Rate, Rates, find_rate, best_prefix, rate, lower_defaults, layer}
use riskkernel.Pricing.Table.{IsPriceOf, rate-IsPriceOf}
use riskkernel.Sample.{float, unicode}

abbrev cheap : Rate ℕ
cheap = record { input_per_m = 2000000; output_per_m = 4000000 }

abbrev dear : Rate ℕ
dear = record { input_per_m = 15000000; output_per_m = 75000000 }

abbrev table : Rates ℕ
table = (codes "opus-4", dear) ∷ (codes "opus-4-8", cheap) ∷ []

abbrev swapped : Rates ℕ
swapped = (codes "opus-4-8", cheap) ∷ (codes "opus-4", dear) ∷ []

dated_model : rate (some table) "Opus-4-8-20260101" ≡ some cheap
unfolding rate best_prefix
dated_model = refl

default_price :
    rate {D = ℕ} none "gpt-4o-mini-2026"
    ≡ some (record { input_per_m = 150000; output_per_m = 600000 })
unfolding rate best_prefix lower_defaults layer
default_price = refl

rate-IsPriceOf_example :
    IsPriceOf table (to_lower (codes "Opus-4-8-b")) (rate (some table) "Opus-4-8-b")
rate-IsPriceOf_example = rate-IsPriceOf table "Opus-4-8-b"

same_entries : (k : List ℕ) → find_rate k table ≡ find_rate k swapped
same_entries k = elim (Bool-cases (codes_eq (codes "opus-4") k)) [
  | inl e ↦
      subst (λ j. find_rate j table ≡ find_rate j swapped) (codes_eq→eq (codes "opus-4") k e) refl
  | inr e ↦ rw e refl
]

named : codes "gpt-4o" ≢ []
named = λ e. cc
