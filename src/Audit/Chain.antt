-- ===== src/Audit/Chain.antt =====
-- internal/audit/compliance.go: what a verified chain says. Two logs that verify against one head are
-- the same log, or they exhibit two different hashed texts with one SHA-256 value.
use riskkernel.Base.{
  ℕ, suc, ℤ, ◌≡◌, refl, sym, ap, subst, ◌∙◌, ◌≢◌, ◌⊎◌, inl, inr, String, codes_eq, codes_eq→eq,
  codes_eq_refl, false, none, some, List, [], ◌∷◌, ◌++◌, arith, Bool-cases, if◌then◌else◌, Time,
}
use mathlib.Core.List.{append-nil}
use riskkernel.Audit.{Detail, Event, Hashing, chain_hash, verify_from, verify_chain, head_mismatch}

abbrev pub NoBrace : List ℕ → Type 0
NoBrace [] = Unit
NoBrace (c ∷ cs) = (c ≢ b'{') × NoBrace cs

-- Payloads that JSON can write and read back: finite amounts, years from 0 to 9999, valid UTF-8.
abbrev pub Plain : Type 0 → Type 1
Plain D = ℤ → String → Time → Detail D → Type 0

-- What the chain relies on: hex digits are not empty and hold no brace; the JSON of a plain payload is
-- an object, and it reads back.
pub record IsEncoding {D : Type 0} (H : Hashing D) (P : Plain D) : Type 0 where
  pub hex_nonempty : (s : List ℕ) → H.sha256_hex s ≢ []
  pub hex_plain : (s : List ℕ) → NoBrace (H.sha256_hex s)
  pub json_opens :
      (n : ℤ) (k : String) (t : Time) (d : Detail D)
      → P n k t d
      → (rest : List ℕ) × (H.canonical_json n k t d ≡ b'{' ∷ rest)
  pub json_reads :
      (n n' : ℤ) (k k' : String) (t t' : Time) (d d' : Detail D)
      → P n k t d
      → P n' k' t' d'
      → H.canonical_json n k t d ≡ H.canonical_json n' k' t' d'
      → (n ≡ n') × (k ≡ k') × (t ≡ t') × (d ≡ d')

-- The payload of every event of a log is plain.
abbrev pub AllPlain : {D : Type 0} → Plain D → List (Event D) → Type 0
AllPlain P [] = Unit
AllPlain P (ev ∷ evs) = P ev.seq ev.kind ev.at ev.detail × AllPlain P evs

abbrev pub IsIn : List ℕ → List (List ℕ) → Type 0
IsIn a [] = ⊥
IsIn a (b ∷ bs) = (a ≡ b) ⊎ IsIn a bs

-- Two different texts with one hash, of two kinds.
abbrev Collide : {D : Type 0} → Hashing D → (List ℕ → Type 0) → (List ℕ → Type 0) → Type 0
Collide H P Q =
    (a : List ℕ) × (b : List ℕ) × P a × Q b × (a ≢ b) × (H.sha256_hex a ≡ H.sha256_hex b)

-- A text splits at its first brace in one way.
split_unique :
    (p q s t : List ℕ)
    → NoBrace p
    → NoBrace q
    → p ++ (b'{' ∷ s) ≡ q ++ (b'{' ∷ t)
    → (p ≡ q) × (s ≡ t)
split_unique [] [] s t h k e = (refl, cc)
split_unique [] (y ∷ q) s t h k e = absurd (k.0 (cc))
split_unique (x ∷ p) [] s t h k e = absurd (h.0 (cc))
split_unique (x ∷ p) (y ∷ q) s t h k e = let (a, b) = split_unique p q s t h.1 k.1 (cc) in (cc, b)

module _ {D : Type 0} ⦃H : Hashing D⦄ where
  -- The texts that `VerifyChain` hashes in a log.
  abbrev pub hashed : List ℕ → List (Event D) → List (List ℕ)
  hashed prev [] = []
  hashed prev (ev ∷ evs) =
      (prev ++ H.canonical_json ev.seq ev.kind ev.at ev.detail) ∷ hashed ev.hash evs

  -- A text that is hashed in one log and another that is hashed in the other have one hash.
  abbrev pub Collision : List (Event D) → List (Event D) → Type 0
  Collision evs evs' = Collide H (λ a. IsIn a (hashed [] evs)) (λ b. IsIn b (hashed [] evs'))

module _ {D : Type 0} ⦃H : Hashing D⦄ (J : Plain D) where
  -- The links of a log that is read from its end: `h` is the hash of its last event, `P` holds of the
  -- texts that are hashed, and the payloads are plain.
  abbrev Links : (List ℕ → Type 0) → List (Event D) → List ℕ → Type 0
  Links P [] h = h ≡ []
  Links P (ev ∷ older) h =
      (prev : List ℕ) × P (prev ++ H.canonical_json ev.seq ev.kind ev.at ev.detail)
      × (chain_hash prev ev.seq ev.kind ev.at ev.detail ≡ h)
      × (ev.hash ≡ h)
      × J ev.seq ev.kind ev.at ev.detail
      × Links P older prev

  abbrev onto : List (Event D) → List (Event D) → List (Event D)
  onto [] ys = ys
  onto (x ∷ xs) ys = onto xs (x ∷ ys)

  onto-onto : (xs ys zs : List (Event D)) → onto (onto xs ys) zs ≡ onto ys (xs ++ zs)
  onto-onto [] ys zs = refl
  onto-onto (x ∷ xs) ys zs = onto-onto xs (x ∷ ys) zs

  Links-of_verified :
      (P : List ℕ → Type 0) (evs older : List (Event D)) (prev : List ℕ) (i : ℕ) (head : List ℕ)
      → ((a : List ℕ) → IsIn a (hashed prev evs) → P a)
      → Links P older prev
      → AllPlain J evs
      → verify_from prev i evs head ≡ none
      → Links P (onto evs older) head
  unfolding verify_from
  Links-of_verified P [] older prev i head cover l j v = elim (Bool-cases (codes_eq prev head)) [
    | inl e ↦ subst (λ h. Links P older h) (codes_eq→eq prev head e) l
    | inr e ↦ absurd (wrong prev head v e)
  ]
    where
      wrong :
          (prev head : List ℕ)
          → (if codes_eq prev head then none else some head_mismatch) ≡ none
          → codes_eq prev head ≡ false
          → ⊥
      wrong prev head v e = cc (rw e at v)
  Links-of_verified P (ev ∷ evs) older prev i head cover l (j, js) v =
      let h = chain_hash prev ev.seq ev.kind ev.at ev.detail in
      elim (Bool-cases (codes_eq h ev.hash)) [
        | inl e ↦
            Links-of_verified P evs (ev ∷ older) ev.hash (suc i) head (λ a m. cover a (inr m))
              (prev, cover _ (inl refl), codes_eq→eq h ev.hash e, refl, j, l) js (rw e at v)
        | inr e ↦ absurd (ground arith)
      ]

  plain_prev :
      (P : List ℕ → Type 0) (evs : List (Event D)) (h : List ℕ)
      → IsEncoding H J
      → Links P evs h
      → NoBrace h
  plain_prev P [] h enc l = subst NoBrace (sym l) tt
  plain_prev P (ev ∷ older) h enc (prev, p, e, same, j, l) =
      subst NoBrace e (enc.hex_plain (prev ++ H.canonical_json ev.seq ev.kind ev.at ev.detail))

  -- The same text under two links: the links, and the events, are the same.
  same_link :
      (ev ev' : Event D) (prev prev' h : List ℕ)
      → IsEncoding H J
      → NoBrace prev
      → NoBrace prev'
      → J ev.seq ev.kind ev.at ev.detail
      → J ev'.seq ev'.kind ev'.at ev'.detail
      → prev ++ H.canonical_json ev.seq ev.kind ev.at ev.detail
        ≡ prev' ++ H.canonical_json ev'.seq ev'.kind ev'.at ev'.detail
      → ev.hash ≡ h
      → ev'.hash ≡ h
      → (prev ≡ prev') × (ev ≡ ev')
  same_link ev ev' prev prev' h enc plain plain' j j' e same same' =
      let (s, opens) = enc.json_opens ev.seq ev.kind ev.at ev.detail j in
      let (t, opens') = enc.json_opens ev'.seq ev'.kind ev'.at ev'.detail j' in
      let (p, rest) =
        split_unique prev prev' s t plain plain'
          (ap (λ j. prev ++ j) (sym opens) ∙ e ∙ ap (λ j. prev' ++ j) opens') in
      let (a, b, c, d) =
        enc.json_reads ev.seq ev'.seq ev.kind ev'.kind ev.at ev'.at ev.detail ev'.detail j j'
          (opens ∙ ap (λ j. b'{' ∷ j) rest ∙ sym opens') in
      (p, cc)

  same_log :
      (P Q : List ℕ → Type 0) (evs evs' : List (Event D)) (h : List ℕ)
      → IsEncoding H J
      → Links P evs h
      → Links Q evs' h
      → (evs ≡ evs') ⊎ Collide H P Q
  same_log P Q [] [] h enc l l' = inl refl
  same_log P Q [] (ev ∷ older) h enc l (prev, q, e, same, j, l') =
      absurd (enc.hex_nonempty _ (e ∙ l))
  same_log P Q (ev ∷ older) [] h enc (prev, p, e, same, j, l) l' =
      absurd (enc.hex_nonempty _ (e ∙ l'))
  same_log P Q (ev ∷ older) (ev' ∷ older') h enc (prev, pa, e, same, j, l)
        (prev', qb, e', same', j', l') =
      let a = prev ++ H.canonical_json ev.seq ev.kind ev.at ev.detail in
      let b = prev' ++ H.canonical_json ev'.seq ev'.kind ev'.at ev'.detail in
      elim (Bool-cases (codes_eq a b)) [
        | inl eq ↦
            let (p, q) =
              same_link ev ev' prev prev' h enc (plain_prev P older prev enc l)
                (plain_prev Q older' prev' enc l') j j' (codes_eq→eq a b eq) same same' in
            elim (same_log P Q older older' prev enc l (subst (λ x. Links Q older' x) (sym p) l')) [
              | inl t ↦ inl (cc)
              | inr c ↦ inr c
            ]
        | inr ne ↦ inr (a, b, pa, qb, (λ eq. cc (rw eq at ne, codes_eq_refl b)), e ∙ sym e')
      ]

  -- A log is tamper-evident: two logs that `VerifyChain` accepts with one head are the same log, to
  -- the last field of the last event (so none is altered, reordered, dropped or added), unless two
  -- different texts have one SHA-256 value, one that is hashed in the first log and one that is hashed
  -- in the second. The payloads of both logs are values that JSON can write and read back; one that it
  -- cannot write is hashed as no text at all.
  pub verify_chain_unique :
      (evs evs' : List (Event D)) (head : List ℕ)
      → IsEncoding H J
      → AllPlain J evs
      → AllPlain J evs'
      → verify_chain evs head ≡ none
      → verify_chain evs' head ≡ none
      → (evs ≡ evs') ⊎ Collision evs evs'
  unfolding verify_chain
  verify_chain_unique evs evs' head enc j j' v v' =
      elim (same_log _ _ (onto evs []) (onto evs' []) head enc
        (Links-of_verified (λ a. IsIn a (hashed [] evs)) evs [] [] 0 head (λ a m. m) refl j v)
        (Links-of_verified (λ a. IsIn a (hashed [] evs')) evs' [] [] 0 head (λ a m. m) refl j'
          v')) [ inl e ↦ inl (back evs ∙ ap (λ l. onto l []) e ∙ sym (back evs')) | inr c ↦ inr c ]
    where
      back : (l : List (Event D)) → l ≡ onto (onto l []) []
      back l = sym (onto-onto l [] [] ∙ append-nil l)
