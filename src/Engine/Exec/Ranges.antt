-- ===== src/Engine/Exec/Ranges.antt =====
-- The values that the action bodies compute are 32-bit words.
use purv.Base.{
  ℕ, ◌+◌, ◌*◌, ◌/◌, ◌%◌, ◌^◌, ◌<◌, Bool, true, false, ltb, ◌==◌, if◌then◌else◌, arith, u64,
}
use purv.Base.Int.{
  signed, signed8, signed16, signed64, wrap64, asr, lt_ℤ, ◌*ℤ◌, ◌/ℤ◌, ◌%ℤ◌, wrap-lt,
}
use purv.Base.Bits.{bit_or-lt, bit_and-lt, bit_xor-lt}
use purv.Engine.Memory.{read16, read32}
use purv.Engine.Decode.Shape.{sext-lt}
use purv.Engine.Exec.Arith.{
  alu_result, mul_result, mulh, mulhsu, mulhu, div_signed, div_unsigned, rem_signed, rem_unsigned,
  load_value, miss_value,
}
use native.Mathlib.Nat.{mod-le}

if-lt : (c : Bool) (a b m : ℕ) → a < m → b < m → (if c then a else b) < m
if-lt true a b m p q = p
if-lt false a b m p q = q

div-lt : (a k m : ℕ) → a < m → a / k < m
div-lt a k m h = grind arith

mod-lt_of_lt : (v k : ℕ) → v < 2 ^ 32 → v % k < 2 ^ 32
mod-lt_of_lt v k h = omega (arith, mod-le v k)

module _ (a b : ℕ) (ha : a < 2 ^ 32) (hb : b < 2 ^ 32) where
  pub alu_result-lt : (f3 f7 : ℕ) → alu_result f3 f7 a b < 2 ^ 32
  unfolding alu_result
  alu_result-lt f3 f7 =
      if-lt (f3 == 0) _ _ _ (if-lt (f7 == 0x20) _ _ _ (omega arith) (omega arith)) (
        if-lt (f3 == 1) _ _ _ (omega arith) (
          if-lt (f3 == 2) _ _ _
            (if-lt (lt_ℤ (signed a) (signed b)) _ _ _ (omega arith) (omega arith))
            (if-lt (f3 == 3) _ _ _ (if-lt (ltb a b) _ _ _ (omega arith) (omega arith)) (
              if-lt (f3 == 4) _ _ _ (bit_xor-lt 32 a b ha hb) (
                if-lt (f3 == 5) _ _ _
                  (if-lt (f7 == 0x20) _ _ _ (wrap-lt _) (div-lt a (2 ^ (b % 32)) (2 ^ 32) ha))
                  (if-lt (f3 == 6) _ _ _ (bit_or-lt 32 a b ha hb) (bit_and-lt 32 a b ha hb)))))))

  pub mul_result-lt : (f3 : ℕ) → mul_result f3 a b < 2 ^ 32
  unfolding mul_result mulh mulhsu mulhu div_signed div_unsigned rem_signed rem_unsigned
  mul_result-lt f3 = ground (
    arith,
    wrap-lt (asr (signed a *ℤ signed b) 32),
    wrap-lt (asr (signed64 (u64 (wrap64 (signed a) * b))) 32),
    wrap-lt (signed a /ℤ signed b),
    wrap-lt (signed a %ℤ signed b),
    div-lt a b (2 ^ 32) ha,
    mod-lt_of_lt a b ha,
  )

-- What a load delivers is a word, if memory holds bytes.
module _ (host : ℕ → ℕ) (bytes : (p : ℕ) → host p < 256) where
  pub read16-lt : (p : ℕ) → read16 host p < 2 ^ 16
  unfolding read16
  read16-lt p = bit_or-lt 16 _ _ (omega (arith, bytes p)) (omega (arith, bytes (p + 1)))

  pub read32-lt : (p : ℕ) → read32 host p < 2 ^ 32
  unfolding read32
  read32-lt p =
      bit_or-lt 32 _ _
        (bit_or-lt 32 _ _ (bit_or-lt 32 _ _ (omega (arith, bytes p)) (omega (arith, bytes (p + 1))))
          (omega (arith, bytes (p + 2))))
        (omega (arith, bytes (p + 3)))

  pub load_value-lt : (p f3 : ℕ) → load_value host p f3 < 2 ^ 32
  unfolding load_value
  load_value-lt p f3 = ground (
    arith,
    wrap-lt (signed8 (host p)),
    wrap-lt (signed16 (read16 host p)),
    read32-lt p,
    bytes p,
    read16-lt p,
  )

pub miss_value-lt : (f3 n v : ℕ) → v < 2 ^ 32 → miss_value f3 n v < 2 ^ 32
unfolding miss_value
miss_value-lt f3 n v h = ground (arith, sext-lt v (8 * n), mod-lt_of_lt v (2 ^ (8 * n)) h)
