-- ===== src/Base/Bits.antt =====
-- Laws of `|`, `&` and `^` at variables: one equation for the lowest binary digit, the ranges,
-- and `|` of disjoint fields as a sum.
use Prim.Native.Nat.{
  ℕ, zero, suc, ◌+◌, ◌*◌, ◌/◌, ◌%◌, ◌^◌, ◌≤◌, ◌<◌, min, max, bit_and, bit_or, bit_xor,
}
use Prim.Native.Nat.{digits, differ, bit_and-bitwise, bit_or-bitwise, bit_xor-bitwise}
use mathlib.Core.Path.{◌≡◌, refl, sym, ap, ap₂, ◌∙◌}
use native.Mathlib.Nat.{pow-suc, zero-mul}
use native.Mathlib.Omega.{arith}

-- The fuel of the digit recursion does not matter once it reaches the first number.
fuel_irrelevant :
    (z : ℕ → ℕ) (f : ℕ → ℕ → ℕ) (n m a b : ℕ) → a ≤ n → a ≤ m → digits z f n a b ≡ digits z f m a b
fuel_irrelevant z f zero zero a b p q = refl
fuel_irrelevant z f zero (suc m) zero b p q = refl
fuel_irrelevant z f zero (suc m) (suc a) b p q = absurd (omega arith)
fuel_irrelevant z f (suc n) zero zero b p q = refl
fuel_irrelevant z f (suc n) zero (suc a) b p q = absurd (omega arith)
fuel_irrelevant z f (suc n) (suc m) zero b p q = refl
fuel_irrelevant z f (suc n) (suc m) (suc a) b p q =
    ap (λ (t : ℕ). t * 2 + f (suc a % 2) (b % 2))
      (fuel_irrelevant z f n m (suc a / 2) (b / 2) (omega arith) (omega arith))

pub bit_or-digit : (a b : ℕ) → bit_or a b ≡ bit_or (a / 2) (b / 2) * 2 + max (a % 2) (b % 2)
bit_or-digit zero b = omega (arith, bit_or-bitwise 0 b, bit_or-bitwise 0 (b / 2))
bit_or-digit (suc a) b = omega (
  arith,
  bit_or-bitwise (suc a) b,
  bit_or-bitwise (suc a / 2) (b / 2),
  fuel_irrelevant (λ y. y) max a (suc a / 2) (suc a / 2) (b / 2) (omega arith) (omega arith),
)

pub bit_and-digit : (a b : ℕ) → bit_and a b ≡ bit_and (a / 2) (b / 2) * 2 + min (a % 2) (b % 2)
bit_and-digit zero b = omega (arith, bit_and-bitwise 0 b, bit_and-bitwise 0 (b / 2))
bit_and-digit (suc a) b = omega (
  arith,
  bit_and-bitwise (suc a) b,
  bit_and-bitwise (suc a / 2) (b / 2),
  fuel_irrelevant (λ y. 0) min a (suc a / 2) (suc a / 2) (b / 2) (omega arith) (omega arith),
)

differ_bit : (a b : ℕ) → a < 2 → b < 2 → differ a b < 2
differ_bit zero b h k = k
differ_bit (suc a) zero h k = h
differ_bit (suc zero) (suc zero) h k = omega arith
differ_bit (suc zero) (suc (suc b)) h k = absurd (omega arith)
differ_bit (suc (suc a)) (suc b) h k = absurd (omega arith)

pub bit_xor-digit : (a b : ℕ) → bit_xor a b ≡ bit_xor (a / 2) (b / 2) * 2 + differ (a % 2) (b % 2)
bit_xor-digit zero b = omega (arith, bit_xor-bitwise 0 b, bit_xor-bitwise 0 (b / 2))
bit_xor-digit (suc a) b = omega (
  arith,
  bit_xor-bitwise (suc a) b,
  bit_xor-bitwise (suc a / 2) (b / 2),
  fuel_irrelevant (λ y. y) differ a (suc a / 2) (suc a / 2) (b / 2) (omega arith) (omega arith),
)

-- The operations stay within the width of their operands.
pub bit_or-lt : (k a b : ℕ) → a < 2 ^ k → b < 2 ^ k → bit_or a b < 2 ^ k
bit_or-lt zero zero b h p = omega (arith, bit_or-bitwise 0 b)
bit_or-lt zero (suc a) b h p = absurd (omega arith)
bit_or-lt (suc k) a b h p = omega (
  arith,
  bit_or-digit a b,
  pow-suc 2 k,
  bit_or-lt k (a / 2) (b / 2) (omega (arith, pow-suc 2 k)) (omega (arith, pow-suc 2 k)),
)

pub bit_and-lt : (k a b : ℕ) → a < 2 ^ k → b < 2 ^ k → bit_and a b < 2 ^ k
bit_and-lt zero zero b h p = omega (arith, bit_and-bitwise 0 b)
bit_and-lt zero (suc a) b h p = absurd (omega arith)
bit_and-lt (suc k) a b h p = omega (
  arith,
  bit_and-digit a b,
  pow-suc 2 k,
  bit_and-lt k (a / 2) (b / 2) (omega (arith, pow-suc 2 k)) (omega (arith, pow-suc 2 k)),
)

pub bit_xor-lt : (k a b : ℕ) → a < 2 ^ k → b < 2 ^ k → bit_xor a b < 2 ^ k
bit_xor-lt zero zero b h p = omega (arith, bit_xor-bitwise 0 b)
bit_xor-lt zero (suc a) b h p = absurd (omega arith)
bit_xor-lt (suc k) a b h p = omega (
  arith,
  bit_xor-digit a b,
  differ_bit (a % 2) (b % 2) (omega arith) (omega arith),
  pow-suc 2 k,
  bit_xor-lt k (a / 2) (b / 2) (omega (arith, pow-suc 2 k)) (omega (arith, pow-suc 2 k)),
)

bit_or-zero_below : (n a : ℕ) → a ≤ n → bit_or a 0 ≡ a
bit_or-zero_below zero zero h = refl
bit_or-zero_below zero (suc a) h = absurd (omega arith)
bit_or-zero_below (suc n) zero h = refl
bit_or-zero_below (suc n) (suc a) h =
    omega (arith, bit_or-digit (suc a) 0, bit_or-zero_below n (suc a / 2) (omega arith))

pub bit_or-zero : (a : ℕ) → bit_or a 0 ≡ a
bit_or-zero a = bit_or-zero_below a a (omega arith)

pub double_power : (q k : ℕ) → q * 2 ^ suc k ≡ q * 2 ^ k * 2
double_power q k = omega (arith, ap (λ (t : ℕ). q * t) (pow-suc 2 k))

-- `high | low` of fields that do not overlap is their sum.
pub bit_or_sum : (k q low : ℕ) → low < 2 ^ k → bit_or (q * 2 ^ k) low ≡ q * 2 ^ k + low
bit_or_sum zero q low h = let e : low ≡ 0 = omega arith in rw e (bit_or-zero (q * 1) ∙ omega arith)
bit_or_sum (suc k) q low h = omega (
  arith,
  bit_or-digit (q * 2 ^ suc k) low,
  double_power q k,
  pow-suc 2 k,
  ap (λ (t : ℕ). bit_or t (low / 2)) halved,
  bit_or_sum k q (low / 2) (omega (arith, pow-suc 2 k)),
)
  where
    halved : q * 2 ^ suc k / 2 ≡ q * 2 ^ k
    halved = omega (arith, double_power q k)

-- A field that goes into a gap: `high | rest` below it and above it, and zeros where it goes.
pub bit_or_between :
    (lo k q r m : ℕ)
    → r < 2 ^ lo
    → m < 2 ^ k
    → bit_or (q * 2 ^ k * 2 ^ lo + r) (m * 2 ^ lo) ≡ q * 2 ^ k * 2 ^ lo + r + m * 2 ^ lo
bit_or_between zero k q r m hr hm =
    let a : q * 2 ^ k * 1 + r ≡ q * 2 ^ k = omega arith in
    let b : m * 1 ≡ m = omega arith in rw (a, b) (bit_or_sum k q m hm)
bit_or_between (suc lo) k q r m hr hm = omega (
  arith,
  bit_or-digit (q * 2 ^ k * 2 ^ suc lo + r) (m * 2 ^ suc lo),
  double_power (q * 2 ^ k) lo,
  double_power m lo,
  pow-suc 2 lo,
  ap₂ bit_or left right,
  bit_or_between lo k q (r / 2) m (omega (arith, pow-suc 2 lo)) hm,
)
  where
    left : (q * 2 ^ k * 2 ^ suc lo + r) / 2 ≡ q * 2 ^ k * 2 ^ lo + r / 2
    left = omega (arith, double_power (q * 2 ^ k) lo)

    right : m * 2 ^ suc lo / 2 ≡ m * 2 ^ lo
    right = omega (arith, double_power m lo)

-- The same, with the gap in `a` given by an equation: `q` above it and `r` below.
pub bit_or_add :
    (lo k q r a m : ℕ)
    → a ≡ q * 2 ^ k * 2 ^ lo + r
    → r < 2 ^ lo
    → m < 2 ^ k
    → bit_or a (m * 2 ^ lo) ≡ a + m * 2 ^ lo
bit_or_add lo k q r a m e hr hm =
    ap (λ (t : ℕ). bit_or t (m * 2 ^ lo)) e
    ∙ bit_or_between lo k q r m hr hm
    ∙ ap (λ (t : ℕ). t + m * 2 ^ lo) (sym e)

-- A digit placed above the bits of `r`.
pub bit_or_at : (lo k r m : ℕ) → r < 2 ^ lo → m < 2 ^ k → bit_or r (m * 2 ^ lo) ≡ r + m * 2 ^ lo
bit_or_at lo k r m hr hm =
    let none_above : 0 * 2 ^ k * 2 ^ lo ≡ 0 = rw (zero-mul, zero-mul) in
    let below : 0 * 2 ^ k * 2 ^ lo + r ≡ r = omega (arith, none_above) in
    rw below at (bit_or_between lo k 0 r m hr hm)
