-- ===== src/Engine/Exec/Products.antt =====
-- The RV32M multiplications: the two halves of a product make the exact 64-bit product.
use purv.Base.{ℕ, zero, suc, ◌+◌, ◌-◌, ◌*◌, ◌%◌, ◌^◌, ◌≤◌, ◌<◌, ◌≡◌, ap, inl, inr, arith, u32, u64}
use purv.Base.Int.{
  pos, negsuc, neg_ℕ, signed, signed64, wrap, wrap64, asr, ◌*ℤ◌, opposite, Sign, signed_cases,
}
use purv.Engine.Exec.Arith.{mulh, mulhsu, mulhu, mul_result}

-- A number with its halves taken apart by an arithmetic shift.
halves_pos :
    (product low j k : ℕ)
    → product < 2 ^ 64
    → low + 2 ^ 32 * j ≡ product + 2 ^ 32 * k
    → wrap (asr (pos product) 32) * 2 ^ 32 + low % 2 ^ 32 ≡ wrap64 (pos product)
halves_pos product low j k lt e = omega arith

halves_neg :
    (product low k : ℕ)
    → product ≤ 2 ^ 63
    → low + product ≡ 2 ^ 32 * k
    → wrap (asr (neg_ℕ product) 32) * 2 ^ 32 + low % 2 ^ 32 ≡ wrap64 (neg_ℕ product)
halves_neg zero low k lt e = omega arith
halves_neg (suc p) low k lt e = omega arith

signed64_residue :
    (t product b : ℕ)
    → t + product ≡ 2 ^ 64 * b
    → product ≤ 2 ^ 63
    → signed64 (u64 t) ≡ neg_ℕ product
signed64_residue t zero b e h = ground arith
signed64_residue t (suc p) b e h = ground arith

mul_bound : (a b m n : ℕ) → a ≤ m → b ≤ n → a * b ≤ m * n
mul_bound a b m n p q = grind arith

opposite_mul : (a b : ℕ) → a < 2 ^ 32 → a * b + opposite a * b ≡ 2 ^ 32 * b
opposite_mul a b h =
    let whole : a + opposite a ≡ 2 ^ 32 = omega arith in omega (arith, ap (λ (t : ℕ). t * b) whole)

mul-opposite : (a b : ℕ) → b < 2 ^ 32 → a * b + a * opposite b ≡ 2 ^ 32 * a
mul-opposite a b h =
    let whole : b + opposite b ≡ 2 ^ 32 = omega arith in omega (arith, ap (λ (t : ℕ). a * t) whole)

module _ (a b : ℕ) (ha : a < 2 ^ 32) (hb : b < 2 ^ 32) where
  mulhu_halves : mulhu a b * 2 ^ 32 + u32 (a * b) ≡ a * b
  unfolding mulhu
  mulhu_halves = omega (arith, mul_bound a b (2 ^ 32 - 1) (2 ^ 32 - 1) (omega arith) (omega arith))

  mulh_halves : mulh a b * 2 ^ 32 + u32 (a * b) ≡ wrap64 (signed a *ℤ signed b)
  unfolding mulh
  mulh_halves = by_sign (signed_cases a ha) (signed_cases b hb)
    where
      by_sign :
          Sign a
          → Sign b
          → wrap (asr (signed a *ℤ signed b) 32) * 2 ^ 32 + u32 (a * b)
            ≡ wrap64 (signed a *ℤ signed b)
      by_sign (inl (la, ea)) (inl (lb, eb)) =
          let bound = mul_bound a b (2 ^ 31) (2 ^ 31) (omega arith) (omega arith) in
          rw (ea, eb) (halves_pos (a * b) (a * b) 0 0 (omega (arith, bound)) (omega arith))
      by_sign (inl (la, ea)) (inr (gb, eb)) =
          let bound = mul_bound a (opposite b) (2 ^ 31) (2 ^ 31) (omega arith) (omega arith) in
          rw (ea, eb)
            (halves_neg (a * opposite b) (a * b) a (omega (arith, bound)) (mul-opposite a b hb))
      by_sign (inr (ga, ea)) (inl (lb, eb)) =
          let bound = mul_bound (opposite a) b (2 ^ 31) (2 ^ 31) (omega arith) (omega arith) in
          rw (ea, eb)
            (halves_neg (opposite a * b) (a * b) b (omega (arith, bound)) (opposite_mul a b ha))
      by_sign (inr (ga, ea)) (inr (gb, eb)) =
          let bound =
            mul_bound (opposite a) (opposite b) (2 ^ 31) (2 ^ 31) (omega arith) (omega arith) in
          rw (ea, eb)
            (halves_pos (opposite a * opposite b) (a * b) (2 ^ 32) (a + b) (omega (arith, bound))
              (omega (arith, opposite_mul a b ha, mul-opposite (opposite a) b hb)))

  -- The 64-bit product of a signed and an unsigned word is read back as the product of the two.
  signed64_product : Sign a → signed64 (u64 (wrap64 (signed a) * b)) ≡ signed a *ℤ pos b
  signed64_product (inl (la, ea)) =
      let bound = mul_bound a b (2 ^ 31 - 1) (2 ^ 32 - 1) (omega arith) (omega arith) in
      let same : a % 2 ^ 64 ≡ a = omega arith in rw ea (rw same (ground (arith, bound)))
  signed64_product (inr (ga, ea)) =
      let bound = mul_bound (opposite a) b (2 ^ 31) (2 ^ 32 - 1) (omega arith) (omega arith) in
      let image = wrap64 (negsuc (2 ^ 32 - 1 - a)) in
      let whole : image + opposite a ≡ 2 ^ 64 = omega arith in
      rw ea (
        signed64_residue (image * b) (opposite a * b) b (omega (arith, ap (λ (t : ℕ). t * b) whole))
          (omega (arith, bound)))

  mulhsu_halves : mulhsu a b * 2 ^ 32 + u32 (a * b) ≡ wrap64 (signed a *ℤ pos b)
  unfolding mulhsu
  mulhsu_halves = by_sign (signed_cases a ha)
    where
      by_sign : Sign a → mulhsu a b * 2 ^ 32 + u32 (a * b) ≡ wrap64 (signed a *ℤ pos b)
      by_sign (inl (la, ea)) =
          let bound = mul_bound a b (2 ^ 31) (2 ^ 32) (omega arith) (omega arith) in
          rw (mulhsu, signed64_product (inl (la, ea)), ea)
            (halves_pos (a * b) (a * b) 0 0 (omega (arith, bound)) (omega arith))
      by_sign (inr (ga, ea)) =
          let bound = mul_bound (opposite a) b (2 ^ 31) (2 ^ 32) (omega arith) (omega arith) in
          rw (mulhsu, signed64_product (inr (ga, ea)), ea)
            (halves_neg (opposite a * b) (a * b) b (omega (arith, bound)) (opposite_mul a b ha))

-- MULH, MULHSU and MULHU with MUL give the exact 64-bit product of the signed, the mixed and the
-- unsigned reading of two words: the high half times 2 ^ 32, and the low half.
pub mul_halves :
    (a b : ℕ)
    → a < 2 ^ 32
    → b < 2 ^ 32
    → (mul_result 1 a b * 2 ^ 32 + mul_result 0 a b ≡ wrap64 (signed a *ℤ signed b))
      × (mul_result 2 a b * 2 ^ 32 + mul_result 0 a b ≡ wrap64 (signed a *ℤ pos b))
      × (mul_result 3 a b * 2 ^ 32 + mul_result 0 a b ≡ a * b)
unfolding mul_result
mul_halves a b ha hb = (mulh_halves a b ha hb, mulhsu_halves a b ha hb, mulhu_halves a b ha hb)
