-- ===== src/Audit/Order.antt =====
-- internal/audit/compliance.go: the order of the exported log.
use mathlib.Core.List.{Perm}
use mathlib.Core.List.Perm
use riskkernel.Base.{
  ℕ, suc, pos, ◌≡◌, refl, ap, codes, true, false, inl, inr, List, [], ◌∷◌, map, arith, Bool-cases,
}
use riskkernel.Audit.{
  Event, Raw, Hashing, RunData, collected, text_lt, earlier, insert_event, sort_stable, chain_hash,
  link_events, build_events,
}

text_lt_asymm : (s t : List ℕ) → text_lt s t ≡ true → text_lt t s ≡ false
text_lt_asymm [] [] h = cc
text_lt_asymm [] (y ∷ t) h = refl
text_lt_asymm (x ∷ s) [] h = cc
text_lt_asymm (x ∷ s) (y ∷ t) h = ground (arith, text_lt_asymm s t)

module _ {D : Type 0} where
  earlier_asymm : (r q : Raw D) → earlier r q ≡ true → earlier q r ≡ false
  earlier_asymm r q h = ground (arith, text_lt_asymm (codes r.kind) (codes q.kind))

  -- No record stands directly behind one that it comes before.
  abbrev pub IsOrdered : List (Raw D) → Type 0
  IsOrdered [] = Unit
  IsOrdered (r ∷ []) = Unit
  IsOrdered (r ∷ q ∷ rs) = (earlier q r ≡ false) × IsOrdered (q ∷ rs)

  insert_event-IsOrdered :
      (r : Raw D) (rs : List (Raw D)) → IsOrdered rs → IsOrdered (insert_event r rs)
  insert_event-IsOrdered r [] h = tt
  insert_event-IsOrdered r (q ∷ []) h = ground (arith, earlier_asymm q r)
  insert_event-IsOrdered r (q ∷ p ∷ rs) h =
      ground (arith, earlier_asymm q r, insert_event-IsOrdered r (p ∷ rs) h.1)

  sort_stable-IsOrdered : (rs : List (Raw D)) → IsOrdered (sort_stable rs)
  unfolding sort_stable
  sort_stable-IsOrdered [] = tt
  sort_stable-IsOrdered (r ∷ rs) =
      insert_event-IsOrdered r (sort_stable rs) (sort_stable-IsOrdered rs)

  insert_event-perm : (r : Raw D) (rs : List (Raw D)) → Perm (insert_event r rs) (r ∷ rs)
  insert_event-perm r [] = Perm.rfl
  insert_event-perm r (q ∷ qs) = elim (Bool-cases (earlier q r)) [
    | inl e ↦ rw e (Perm.trans (Perm.cons q (insert_event-perm r qs)) (Perm.swap r q qs))
    | inr e ↦ rw e Perm.rfl
  ]

  sort_stable-perm : (rs : List (Raw D)) → Perm (sort_stable rs) rs
  unfolding sort_stable
  sort_stable-perm [] = Perm.rfl
  sort_stable-perm (r ∷ rs) =
      Perm.trans (insert_event-perm r (sort_stable rs)) (Perm.cons r (sort_stable-perm rs))

  -- The record that an event was made of.
  abbrev pub raw_of : Event D → Raw D
  raw_of ev = record { at = ev.at; kind = ev.kind; detail = ev.detail }

  -- The events are numbered from `i` on.
  abbrev pub Numbered : ℕ → List (Event D) → Type 0
  Numbered i [] = Unit
  Numbered i (ev ∷ evs) = (ev.seq ≡ pos i) × Numbered (suc i) evs

module _ {D : Type 0} ⦃H : Hashing D⦄ where
  link_events-raw :
      (prev : List ℕ) (i : ℕ) (rs : List (Raw D)) → map raw_of (link_events prev i rs) ≡ rs
  unfolding link_events
  link_events-raw prev i [] = refl
  link_events-raw prev i (r ∷ rs) =
      ap (λ l. r ∷ l) (link_events-raw (chain_hash prev (pos i) r.kind r.at r.detail) (suc i) rs)

  link_events-Numbered :
      (prev : List ℕ) (i : ℕ) (rs : List (Raw D)) → Numbered i (link_events prev i rs)
  unfolding link_events
  link_events-Numbered prev i [] = tt
  link_events-Numbered prev i (r ∷ rs) =
      (refl, link_events-Numbered (chain_hash prev (pos i) r.kind r.at r.detail) (suc i) rs)

  -- The exported log has one event for each ledger entry, tool call and approval of the run, and no
  -- other; it is in order of time, and of kind where times are equal; and it is numbered from 0.
  pub build_events-IsOrdered :
      (d : RunData D)
      → Perm (map raw_of (build_events d)) (collected d)
        × IsOrdered (map raw_of (build_events d))
        × Numbered 0 (build_events d)
  unfolding build_events
  build_events-IsOrdered d =
      let rs = sort_stable (collected d) in
      (
        rw (link_events-raw [] 0 rs) (sort_stable-perm (collected d)),
        rw (link_events-raw [] 0 rs) (sort_stable-IsOrdered (collected d)),
        link_events-Numbered [] 0 rs,
      )
