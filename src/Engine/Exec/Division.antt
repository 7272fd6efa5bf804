-- ===== src/Engine/Exec/Division.antt =====
-- The RV32M divisions: the quotient and the remainder fit together at every pair of words, the
-- division by zero and the overflow included.
use purv.Base.{
  ℕ, zero, suc, ◌+◌, ◌*◌, ◌/◌, ◌%◌, ◌^◌, ◌<◌, ◌≡◌, refl, ap, ◌≢◌, ◌⊎◌, inl, inr, true, false, ◌==◌,
  arith, u32, Bool-cases,
}
use purv.Base.Int.{
  ℤ, pos, neg_ℕ, signed, wrap, ◌/ℤ◌, ◌%ℤ◌, wrap-neg_sum, opposite, Sign, signed_cases, magnitude,
  is_negative, magnitude-neg_ℕ, signed-wrap_pos, signed-wrap_neg,
}
use native.Mathlib.Nat.{div-add-mod', mod-lt, div-le_self, mod-le}
use purv.Engine.Exec.Arith.{
  div_signed, div_unsigned, rem_signed, rem_unsigned, div_overflows, mul_result,
}

-- Division of the magnitudes, with each sign of the dividend `a` and the divisor `b`.
module _ (a b A B : ℕ) where
  whole : A / B * B + A % B ≡ A
  whole = div-add-mod' A B

  pos_by_pos : A < 2 ^ 32 → a ≡ A → b ≡ B → u32 (A / B % 2 ^ 32 * b + A % B % 2 ^ 32) ≡ a
  pos_by_pos h ea eb =
      let q_same : A / B % 2 ^ 32 ≡ A / B = omega (arith, div-le_self A B) in
      let r_same : A % B % 2 ^ 32 ≡ A % B = omega (arith, mod-le A B) in
      rw (q_same, r_same, eb, whole, ea) (omega arith)

  pos_by_neg :
      A < 2 ^ 32 → a ≡ A → b + B ≡ 2 ^ 32 → u32 (wrap (neg_ℕ (A / B)) * b + A % B % 2 ^ 32) ≡ a
  pos_by_neg h ea eb =
      let q = wrap (neg_ℕ (A / B)) in
      let image = wrap-neg_sum (A / B) (omega (arith, div-le_self A B)) in
      omega (arith, mod-le A B, whole, ap (λ (t : ℕ). t * b) image.1, ap (λ (t : ℕ). A / B * t) eb)

  neg_by_pos :
      a < 2 ^ 32
      → A < 2 ^ 32
      → a + A ≡ 2 ^ 32
      → b ≡ B
      → u32 (wrap (neg_ℕ (A / B)) * b + wrap (neg_ℕ (A % B))) ≡ a
  neg_by_pos ha h ea eb =
      let q_image = wrap-neg_sum (A / B) (omega (arith, div-le_self A B)) in
      let r_image = wrap-neg_sum (A % B) (omega (arith, mod-le A B)) in
      rw eb (omega (arith, whole, ap (λ (t : ℕ). t * B) q_image.1, r_image.1))

  neg_by_neg :
      a < 2 ^ 32
      → A < 2 ^ 32
      → a + A ≡ 2 ^ 32
      → b + B ≡ 2 ^ 32
      → u32 (A / B % 2 ^ 32 * b + wrap (neg_ℕ (A % B))) ≡ a
  neg_by_neg ha h ea eb =
      let q_same : A / B % 2 ^ 32 ≡ A / B = omega (arith, div-le_self A B) in
      let r_image = wrap-neg_sum (A % B) (omega (arith, mod-le A B)) in
      rw q_same (omega (arith, whole, ap (λ (t : ℕ). A / B * t) eb, r_image.1))

-- `r` is smaller than the divisor `j`, and has the sign of the dividend `i` unless it is 0.
abbrev pub IsRemainder : ℤ → ℤ → ℤ → Type 0
IsRemainder i j r = (magnitude r < magnitude j) × ((r ≡ pos 0) ⊎ (is_negative r ≡ is_negative i))

neg_ℕ_sign : (n : ℕ) → (neg_ℕ n ≡ pos 0) ⊎ (is_negative (neg_ℕ n) ≡ true)
neg_ℕ_sign zero = inl refl
neg_ℕ_sign (suc n) = inr refl

module _ (a b : ℕ) (ha : a < 2 ^ 32) (hb : b < 2 ^ 32) where
  div_rem_in_range : u32 (wrap (signed a /ℤ signed b) * b + wrap (signed a %ℤ signed b)) ≡ a
  div_rem_in_range = by_sign (signed_cases a ha) (signed_cases b hb)
    where
      by_sign :
          Sign a → Sign b → u32 (wrap (signed a /ℤ signed b) * b + wrap (signed a %ℤ signed b)) ≡ a
      by_sign (inl (la, ea)) (inl (lb, eb)) = rw (ea, eb) (pos_by_pos a b a b ha refl refl)
      by_sign (inl (la, ea)) (inr (gb, eb)) =
          rw (ea, eb) (pos_by_neg a b a (opposite b) ha refl (omega arith))
      by_sign (inr (ga, ea)) (inl (lb, eb)) =
          rw (ea, eb) (neg_by_pos a b (opposite a) b ha (omega arith) (omega arith) refl)
      by_sign (inr (ga, ea)) (inr (gb, eb)) =
          rw (ea, eb)
            (neg_by_neg a b (opposite a) (opposite b) ha (omega arith) (omega arith) (omega arith))

  div_rem_signed : u32 (div_signed a b * b + rem_signed a b) ≡ a
  unfolding div_signed rem_signed
  div_rem_signed = elim (Bool-cases (b == 0)) [
    | inl by_zero ↦ ground arith
    | inr not_zero ↦ elim (Bool-cases (div_overflows a b)) [
      | inl over ↦ ground arith
      | inr fits ↦ rw (div_signed, rem_signed, not_zero, fits) div_rem_in_range
    ]
  ]

  div_rem_unsigned : u32 (div_unsigned a b * b + rem_unsigned a b) ≡ a
  unfolding div_unsigned rem_unsigned
  div_rem_unsigned = ground (arith, div-add-mod' a b)

  -- The remainder of the two numbers fits a word.
  rem_in_range : b ≢ 0 → IsRemainder (signed a) (signed b) (signed (wrap (signed a %ℤ signed b)))
  rem_in_range nz = by_sign (signed_cases a ha) (signed_cases b hb)
    where
      by_sign :
          Sign a → Sign b → IsRemainder (signed a) (signed b) (signed (wrap (signed a %ℤ signed b)))
      by_sign (inl (la, ea)) (inl (lb, eb)) =
          rw (ea, eb, signed-wrap_pos (a % b) (omega (arith, mod-le a b)))
            (mod-lt a (ground arith), inr refl)
      by_sign (inl (la, ea)) (inr (gb, eb)) =
          rw (ea, eb, signed-wrap_pos (a % opposite b) (omega (arith, mod-le a (opposite b))))
            (mod-lt a (omega arith), inr refl)
      by_sign (inr (ga, ea)) (inl (lb, eb)) =
          rw
            (
              ea,
              eb,
              signed-wrap_neg (opposite a % b) (omega (arith, mod-le (opposite a) b)),
              magnitude-neg_ℕ,
            )
            (mod-lt (opposite a) (ground arith), neg_ℕ_sign (opposite a % b))
      by_sign (inr (ga, ea)) (inr (gb, eb)) =
          rw
            (
              ea,
              eb,
              signed-wrap_neg (opposite a % opposite b)
                  (omega (arith, mod-le (opposite a) (opposite b))),
              magnitude-neg_ℕ,
            )
            (mod-lt (opposite a) (omega arith), neg_ℕ_sign (opposite a % opposite b))

-- DIV with REM, and DIVU with REMU: quotient times divisor plus remainder is the dividend, as
-- 32-bit words, for every pair of words, a divisor of 0 and the overflowing quotient included.
pub div_rem_lem :
    (a b : ℕ)
    → a < 2 ^ 32
    → b < 2 ^ 32
    → (u32 (mul_result 4 a b * b + mul_result 6 a b) ≡ a)
      × (u32 (mul_result 5 a b * b + mul_result 7 a b) ≡ a)
unfolding mul_result
div_rem_lem a b ha hb = (div_rem_signed a b ha hb, div_rem_unsigned a b ha hb)

-- REM by a divisor other than 0 is smaller than the divisor in magnitude, and is 0 or has the sign
-- of the dividend; REMU is smaller than the divisor.
pub rem_bounds :
    (a b : ℕ)
    → a < 2 ^ 32
    → b < 2 ^ 32
    → b ≢ 0
    → IsRemainder (signed a) (signed b) (signed (mul_result 6 a b)) × (mul_result 7 a b < b)
unfolding mul_result rem_signed rem_unsigned
rem_bounds a b ha hb nz = (signed_part, ground (arith, mod-lt a {m = b}))
  where
    signed_part : IsRemainder (signed a) (signed b) (signed (rem_signed a b))
    signed_part = elim (Bool-cases (div_overflows a b)) [
      | inl over ↦ ground arith
      | inr fits ↦
          let no : (b == 0) ≡ false = ground arith in
          rw (rem_signed, no, fits) (rem_in_range a b ha hb nz)
    ]
