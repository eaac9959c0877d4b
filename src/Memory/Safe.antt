-- ===== src/Memory/Safe.antt =====
-- internal/memory/reader.go: no path that the reader opens is outside its root.
use riskkernel.Base.{
  ℕ, ◌≡◌, ◌⊎◌, refl, sym, subst, ◌∙◌, ap, codes_eq, codes_eq→eq, has_prefix, drop_prefix,
  has_prefix-drop_prefix, Runes, is_nil, split, split-append, split-join_with, split_first,
  split-AllWithout, join_with, Without, AllWithout, true, false, ◌||◌, Bool-cases, inl, inr, List,
  [], ◌∷◌, ◌++◌, arith, Unicode, to_lower,
}
use mathlib.Core.List.{append_assoc}
use riskkernel.Memory.Path.{
  dot, dot_dot, is_abs, pop_part, add_part, clean_parts, unwind, clean, is_local, join_path, ext,
}
use riskkernel.Memory.{
  Result, ok, err, safe_join, FileSystem, try_path, try_exts, resolve_file, resolve_from,
  resolve_readable, read_resolved, read, is_file, is_known, ext_order, memory_ext,
}

-- A part that names an entry of the directory before it.
pub record IsPlain (p : Runes) : Type 0 where
  pub nonempty : is_nil p ≡ false
  pub no_dot : codes_eq p dot ≡ false
  pub no_dot_dot : codes_eq p dot_dot ≡ false
  pub no_slash : Without b'/' p

abbrev pub AllPlain : List Runes → Type 0
AllPlain [] = Unit
AllPlain (p ∷ ps) = IsPlain p × AllPlain ps

AllPlain-AllWithout : (ps : List Runes) → AllPlain ps → AllWithout b'/' ps
AllPlain-AllWithout [] h = tt
AllPlain-AllWithout (p ∷ ps) h = (h.0.no_slash, AllPlain-AllWithout ps h.1)

AllPlain-last : (ps qs : List Runes) → AllPlain (ps ++ qs) → AllPlain qs
AllPlain-last [] qs h = h
AllPlain-last (p ∷ ps) qs h = AllPlain-last ps qs h.1

pop_part-AllPlain : (stack : List Runes) → AllPlain stack → AllPlain (pop_part true stack)
pop_part-AllPlain [] h = tt
pop_part-AllPlain (p ∷ stack) h = rw (h.0.no_dot_dot) (h.1)

add_part-AllPlain :
    (p : Runes) (stack : List Runes)
    → Without b'/' p
    → AllPlain stack
    → AllPlain (add_part true p stack)
add_part-AllPlain p stack w h = elim (Bool-cases (is_nil p || codes_eq p dot)) [
  | inl q ↦ rw q h
  | inr q ↦ elim (Bool-cases (codes_eq p dot_dot)) [
    | inl r ↦ rw (q, r) (pop_part-AllPlain stack h)
    | inr r ↦
        rw (q, r)
          (
            record { nonempty = ground arith; no_dot = ground arith; no_dot_dot = r; no_slash = w },
            h,
          )
  ]
]

clean_parts-AllPlain :
    (ps stack : List Runes)
    → AllWithout b'/' ps
    → AllPlain stack
    → AllPlain (clean_parts true ps stack)
unfolding clean_parts
clean_parts-AllPlain [] stack w h = h
clean_parts-AllPlain (p ∷ ps) stack w h =
    clean_parts-AllPlain ps (add_part true p stack) w.1 (add_part-AllPlain p stack w.0 h)

unwind-AllPlain :
    (stack out : List Runes) → AllPlain stack → AllPlain out → AllPlain (unwind stack out)
unfolding unwind
unwind-AllPlain [] out h k = k
unwind-AllPlain (p ∷ stack) out h k = unwind-AllPlain stack (p ∷ out) h.1 (h.0, k)

-- A cleaned absolute path is a slash before plain parts.
clean_abs :
    (s : Runes)
    → is_abs s ≡ true
    → (ps : List Runes) × AllPlain ps × (clean s ≡ b'/' ∷ join_with b'/' ps)
unfolding clean
clean_abs [] e = cc
clean_abs (c ∷ s) e =
    let ps = unwind (clean_parts true (split b'/' (c ∷ s)) []) [] in
    (
      ps,
      unwind-AllPlain _ []
          (clean_parts-AllPlain (split b'/' (c ∷ s)) [] (split-AllWithout b'/' (c ∷ s)) tt) tt,
      rw e refl,
    )

not_longer : (r : List Runes) (p : Runes) (ps : List Runes) → [] ≡ r ++ (p ∷ ps) → ⊥
not_longer [] p ps e = cc
not_longer (x ∷ r) p ps e = cc

split_abs : (s : Runes) → split b'/' (b'/' ∷ s) ≡ [] ∷ split b'/' s
unfolding split
split_abs s = refl

-- What follows `root/` in such a path is plain parts too.
plain_parts :
    (ps : List Runes) (root c : Runes)
    → AllPlain ps
    → split b'/' (join_with b'/' ps) ≡ split b'/' root ++ split b'/' c
    → AllPlain (split b'/' c)
unfolding join_with split
plain_parts [] root c h e =
    let (x, r, p) = split_first b'/' root in
    let (y, t, q) = split_first b'/' c in absurd (not_longer r y t (cc (rw (p, q) at e)))
plain_parts (p ∷ ps) root c h e =
    let same = sym (split-join_with b'/' p ps (AllPlain-AllWithout (p ∷ ps) h)) ∙ e in
    AllPlain-last (split b'/' root) (split b'/' c) (subst AllPlain same h)

plain_below :
    (ps : List Runes) (root c : Runes)
    → AllPlain ps
    → is_abs root ≡ true
    → b'/' ∷ join_with b'/' ps ≡ root ++ (b'/' ∷ c)
    → AllPlain (split b'/' c)
plain_below ps [] c h e j = cc
plain_below ps (x ∷ root) c h e j =
    let parts : split b'/' (join_with b'/' ps) ≡ split b'/' root ++ split b'/' c =
      ap (λ s. split b'/' s) (tail_eq j) ∙ split-append b'/' root c in
    plain_parts ps root c h parts
  where
    tail_eq : {a b : ℕ} {s t : Runes} → a ∷ s ≡ b ∷ t → s ≡ t
    tail_eq e = cc

-- The root itself, or a path of plain parts below it.
abbrev pub IsUnder : Runes → Runes → Type 0
IsUnder root p = (p ≡ root) ⊎ ((c : Runes) × (p ≡ root ++ (b'/' ∷ c)) × AllPlain (split b'/' c))

joined-IsUnder :
    (root s : Runes)
    → is_abs root ≡ true
    → has_prefix (join_path root s) (root ++ (b'/' ∷ [])) ≡ true
    → IsUnder root (join_path root s)
unfolding join_path
joined-IsUnder [] s e h = cc
joined-IsUnder (x ∷ root) s e h =
    let t = (x ∷ root) ++ (b'/' ∷ s) in
    let (ps, plain, eq) = clean_abs t e in
    let c = drop_prefix (clean t) ((x ∷ root) ++ (b'/' ∷ [])) in
    let below : clean t ≡ (x ∷ root) ++ (b'/' ∷ c) =
      has_prefix-drop_prefix (clean t) ((x ∷ root) ++ (b'/' ∷ [])) h
      ∙ append_assoc (x ∷ root) (b'/' ∷ []) c in
    inr (c, below, plain_below ps (x ∷ root) c plain e (sym eq ∙ below))

ok_eq : {x y : Runes} → ◌≡◌ {A = Result Runes} (ok x) (ok y) → x ≡ y
ok_eq e = cc

-- `safeJoin` never leaves the root: under an absolute root, a path that it returns, for any text, is
-- the root, or the root, a slash, and parts of which none is empty, "." or "..".
pub safe_join-IsUnder :
    (root rel p : Runes) → is_abs root ≡ true → safe_join root rel ≡ ok p → IsUnder root p
unfolding safe_join
safe_join-IsUnder root rel p e h = elim (Bool-cases (codes_eq (clean rel) dot)) [
  | inl q ↦ inl (ok_eq (sym (rw q at h)))
  | inr q ↦ elim (Bool-cases (is_local (clean rel))) [
    | inr r ↦ cc (rw (q, r) at h)
    | inl r ↦
        let j = join_path root (clean rel) in
        elim (Bool-cases (codes_eq j root)) [
          | inl a ↦ inl (ok_eq (sym (rw (q, r, a) at h)) ∙ codes_eq→eq j root a)
          | inr a ↦ elim (Bool-cases (has_prefix j (root ++ (b'/' ∷ [])))) [
            | inl b ↦
                subst (IsUnder root) (ok_eq (rw (q, r, a, b) at h))
                  (joined-IsUnder root (clean rel) e b)
            | inr b ↦ cc (rw (q, r, a, b) at h)
          ]
        ]
  ]
]

-- The file systems answer alike at the root and below it.
abbrev pub Agree : Runes → FileSystem → FileSystem → Type 0
Agree root F G =
    (p : Runes) → IsUnder root p → (F.stat p ≡ G.stat p) × (F.read_file p ≡ G.read_file p)

-- What a resolution yields is under the root.
abbrev pub Resolves : Runes → Result (Runes × Runes) → Type 0
Resolves root (err e) = Unit
Resolves root (ok (p, n)) = IsUnder root p

module _ ⦃U : Unicode⦄ where
  try_path-Agree :
      (F G : FileSystem) (root cand : Runes) (o : Result Runes) (a b : Result (Runes × Runes))
      → Agree root F G
      → ((p : Runes) → o ≡ ok p → IsUnder root p)
      → (a ≡ b) × Resolves root b
      → (try_path ⦃F = F⦄ o cand a ≡ try_path ⦃F = G⦄ o cand b)
        × Resolves root (try_path ⦃F = G⦄ o cand b)
  try_path-Agree F G root cand (err x) a b h under e = e
  try_path-Agree F G root cand (ok p) a b h under e =
      let u = under p refl in
      let s = (h p u).0 in
      elim (Bool-cases (is_file (G.stat p))) [
        | inl q ↦ (rw s (rw q), rw q u)
        | inr q ↦ (rw s (rw q (e.0)), rw q (e.1))
      ]

  try_exts-Agree :
      (F G : FileSystem) (root namespace name : Runes) (es : List Runes)
      → is_abs root ≡ true
      → Agree root F G
      → (try_exts ⦃F = F⦄ root namespace name es ≡ try_exts ⦃F = G⦄ root namespace name es)
        × Resolves root (try_exts ⦃F = G⦄ root namespace name es)
  unfolding try_exts
  try_exts-Agree F G root namespace name [] e h = (refl, tt)
  try_exts-Agree F G root namespace name (x ∷ es) e h =
      let cand = name ++ x in
      try_path-Agree F G root cand (resolve_file root namespace cand) _ _ h
        (λ p. safe_join-IsUnder root (join_path namespace cand) p e)
        (try_exts-Agree F G root namespace name es e h)

  resolve_from-Agree :
      (F G : FileSystem) (root namespace name : Runes) (o : Result Runes)
      → is_abs root ≡ true
      → Agree root F G
      → ((p : Runes) → o ≡ ok p → IsUnder root p)
      → (resolve_from ⦃F = F⦄ o root namespace name ≡ resolve_from ⦃F = G⦄ o root namespace name)
        × Resolves root (resolve_from ⦃F = G⦄ o root namespace name)
  resolve_from-Agree F G root namespace name (err x) e h under = (refl, tt)
  resolve_from-Agree F G root namespace name (ok p) e h under =
      let u = under p refl in
      let s = (h p u).0 in
      let t = try_exts-Agree F G root namespace name ext_order e h in
      elim (Bool-cases (is_file (G.stat p))) [
        | inl q ↦ (rw s (rw q), rw q u)
        | inr q ↦ elim (Bool-cases (is_known (memory_ext (to_lower (ext name))))) [
          | inl k ↦ (rw s (rw q (rw k)), rw q (rw k tt))
          | inr k ↦ (rw s (rw q (rw k (t.0))), rw q (rw k (t.1)))
        ]
      ]

  read_resolved-Agree :
      (F G : FileSystem) (root namespace : Runes) (o : Result (Runes × Runes))
      → Agree root F G
      → Resolves root o
      → read_resolved ⦃F = F⦄ namespace o ≡ read_resolved ⦃F = G⦄ namespace o
  read_resolved-Agree F G root namespace (err x) h u = refl
  read_resolved-Agree F G root namespace (ok (p, n)) h u = let (s, r) = h p u in rw (s, r)

  -- A read depends on nothing outside the root: under an absolute root, whatever namespace and name
  -- are asked for, two file systems that answer alike at the root and below it give the same answer.
  pub read_within_root :
      (F G : FileSystem) (root namespace name : Runes)
      → is_abs root ≡ true
      → Agree root F G
      → read ⦃F = F⦄ root namespace name ≡ read ⦃F = G⦄ root namespace name
  unfolding read resolve_readable
  read_within_root F G root namespace name e h =
      let o = resolve_file root namespace name in
      let (same, u) =
        resolve_from-Agree F G root namespace name o e h
          (λ p. safe_join-IsUnder root (join_path namespace name) p e) in
      ap (λ (x : Result (Runes × Runes)). read_resolved ⦃F = F⦄ namespace x) same
      ∙ read_resolved-Agree F G root namespace (resolve_from ⦃F = G⦄ o root namespace name) h u
