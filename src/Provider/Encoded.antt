-- ===== src/Provider/Encoded.antt =====
-- internal/provider/sigv4.go and bedrock.go: a model's name comes back from its path segment.
use riskkernel.Base.{
  ℕ, ◌+◌, ◌-◌, ◌*◌, ◌/◌, ◌%◌, ◌<◌, ltb, ◌==◌, ◌≡◌, refl, ap, ◌∙◌, inl, inr, Runes, Bool-cases, true,
  false, ◌||◌, [], ◌∷◌, arith, if◌then◌else◌,
}
use riskkernel.Provider.SigV4.{is_unreserved, hex_digit, uri_encode}

abbrev digit_value : ℕ → ℕ
digit_value d = if ltb d 58 then d - 48 else d - 55

-- What a server does with a segment: a percent sign and two digits stand for a byte.
unfoldable pub uri_decode : Runes → Runes
uri_decode [] = []
uri_decode (c ∷ []) = c ∷ []
uri_decode (c ∷ d ∷ []) = c ∷ uri_decode (d ∷ [])
uri_decode (c ∷ d ∷ e ∷ s) =
    let plain = c ∷ uri_decode (d ∷ e ∷ s) in
    let byte = (digit_value d * 16 + digit_value e) ∷ uri_decode s in
    if c == b'%' then byte else plain

-- Every element is a byte.
abbrev pub IsBytes : Runes → Type 0
IsBytes [] = Unit
IsBytes (c ∷ s) = (c < 256) × IsBytes s

-- What may stand in a path segment: unreserved bytes and percent signs.
abbrev pub IsSafe : Runes → Type 0
IsSafe [] = Unit
IsSafe (c ∷ s) = ((is_unreserved c || (c == b'%')) ≡ true) × IsSafe s

decode-plain : (c : ℕ) (s : Runes) → (c == b'%') ≡ false → uri_decode (c ∷ s) ≡ c ∷ uri_decode s
unfolding uri_decode
decode-plain c [] h = refl
decode-plain c (d ∷ []) h = refl
decode-plain c (d ∷ e ∷ s) h = rw h

decode-byte :
    (c : ℕ) (s : Runes)
    → c < 256
    → uri_decode (b'%' ∷ hex_digit (c / 16) ∷ hex_digit (c % 16) ∷ s) ≡ c ∷ uri_decode s
unfolding uri_decode
decode-byte c s h = ap (λ x. x ∷ uri_decode s) value
  where
    value : digit_value (hex_digit (c / 16)) * 16 + digit_value (hex_digit (c % 16)) ≡ c
    value = ground arith

not_percent : (c : ℕ) → is_unreserved c ≡ true → (c == b'%') ≡ false
not_percent c h = ground arith

digit-IsSafe : (n : ℕ) → n < 16 → (is_unreserved (hex_digit n) || (hex_digit n == b'%')) ≡ true
digit-IsSafe n h = ground arith

-- A segment of bytes comes back from its encoding, which has unreserved bytes and percent signs only.
pub uri_decode-uri_encode :
    (s : Runes) → IsBytes s → (uri_decode (uri_encode s) ≡ s) × IsSafe (uri_encode s)
unfolding uri_encode uri_decode
uri_decode-uri_encode [] h = (refl, tt)
uri_decode-uri_encode (c ∷ s) h =
    let (back, safe) = uri_decode-uri_encode s h.1 in
    elim (Bool-cases (is_unreserved c)) [
      | inl q ↦
          rw q
            (decode-plain c (uri_encode s) (not_percent c q) ∙ ap (λ x. c ∷ x) back, (rw q, safe))
      | inr q ↦ rw q (
        decode-byte c (uri_encode s) h.0 ∙ ap (λ x. c ∷ x) back,
        (
          refl,
          (digit-IsSafe (c / 16) (omega (arith, h.0)), (digit-IsSafe (c % 16) (omega arith), safe)),
        ),
      )
    ]
