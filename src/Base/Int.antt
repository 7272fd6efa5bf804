-- ===== src/Base/Int.antt =====
-- Signed integers of C: the number that a bit pattern stands for, and back. The conversions, the
-- shift and the division are those of a two's complement machine.
use Prim.Native.Nat.{ℕ, zero, suc, ◌+◌, ◌-◌, ◌*◌, ◌/◌, ◌%◌, ◌^◌, ◌≤◌, ◌<◌}
use mathlib.Core.Path.{◌≡◌, refl}
use mathlib.Core.Logic.{◌⊎◌}
use mathlib.Core.Bool.{Bool, true, false}
use native.Mathlib.Omega.{arith}
use package.purv.Base.Tests.{ltb, if◌then◌else◌}

-- `negsuc n` is -(n + 1).
pub data ℤ : Type 0 where
  pos : ℕ → ℤ
  negsuc : ℕ → ℤ

-- -n
abbrev pub neg_ℕ : ℕ → ℤ
neg_ℕ zero = pos zero
neg_ℕ (suc n) = negsuc n

-- `(int32_t)w`
abbrev pub signed : ℕ → ℤ
signed w = if ltb w (2 ^ 31) then pos w else negsuc (2 ^ 32 - 1 - w)

-- `(uint32_t)i`
abbrev pub wrap : ℤ → ℕ
wrap (pos n) = n % 2 ^ 32
wrap (negsuc n) = 2 ^ 32 - 1 - n % 2 ^ 32

-- `(int8_t)b`, `(int16_t)h` and `(int64_t)d`.
abbrev pub signed8 : ℕ → ℤ
signed8 b = if ltb b (2 ^ 7) then pos b else negsuc (2 ^ 8 - 1 - b)

abbrev pub signed16 : ℕ → ℤ
signed16 h = if ltb h (2 ^ 15) then pos h else negsuc (2 ^ 16 - 1 - h)

abbrev pub signed64 : ℕ → ℤ
signed64 d = if ltb d (2 ^ 63) then pos d else negsuc (2 ^ 64 - 1 - d)

-- `(uint64_t)i`
abbrev pub wrap64 : ℤ → ℕ
wrap64 (pos n) = n % 2 ^ 64
wrap64 (negsuc n) = 2 ^ 64 - 1 - n % 2 ^ 64

-- `i >> k`: the sign is kept, the result is rounded down.
abbrev pub asr : ℤ → ℕ → ℤ
asr (pos n) k = pos (n / 2 ^ k)
asr (negsuc n) k = negsuc (n / 2 ^ k)

-- `i < j`
abbrev pub lt_ℤ : ℤ → ℤ → Bool
lt_ℤ (pos a) (pos b) = ltb a b
lt_ℤ (pos a) (negsuc b) = false
lt_ℤ (negsuc a) (pos b) = true
lt_ℤ (negsuc a) (negsuc b) = ltb b a

infixl 70 ◌*ℤ◌ ◌/ℤ◌ ◌%ℤ◌
abbrev pub ◌*ℤ◌ : ℤ → ℤ → ℤ
pos a *ℤ pos b = pos (a * b)
pos a *ℤ negsuc b = neg_ℕ (a * suc b)
negsuc a *ℤ pos b = neg_ℕ (suc a * b)
negsuc a *ℤ negsuc b = pos (suc a * suc b)

-- `i / j`, rounded towards zero.
abbrev pub ◌/ℤ◌ : ℤ → ℤ → ℤ
pos a /ℤ pos b = pos (a / b)
pos a /ℤ negsuc b = neg_ℕ (a / suc b)
negsuc a /ℤ pos b = neg_ℕ (suc a / b)
negsuc a /ℤ negsuc b = pos (suc a / suc b)

-- `i % j`, with the sign of `i`.
abbrev pub ◌%ℤ◌ : ℤ → ℤ → ℤ
pos a %ℤ pos b = pos (a % b)
pos a %ℤ negsuc b = pos (a % suc b)
negsuc a %ℤ pos b = neg_ℕ (suc a % b)
negsuc a %ℤ negsuc b = neg_ℕ (suc a % suc b)

abbrev pub magnitude : ℤ → ℕ
magnitude (pos n) = n
magnitude (negsuc n) = suc n

abbrev pub is_negative : ℤ → Bool
is_negative (pos n) = false
is_negative (negsuc n) = true

-- The magnitude of a negative word, and the two signs of a word.
abbrev pub opposite : ℕ → ℕ
opposite a = suc (2 ^ 32 - 1 - a)

abbrev pub Sign : ℕ → Type 0
Sign a = ((a < 2 ^ 31) × (signed a ≡ pos a)) ⊎ ((2 ^ 31 ≤ a) × (signed a ≡ negsuc (2 ^ 32 - 1 - a)))

pub signed_cases : (a : ℕ) → a < 2 ^ 32 → Sign a
signed_cases a h = ground arith

pub wrap-lt : (i : ℤ) → wrap i < 2 ^ 32
wrap-lt (pos n) = omega arith
wrap-lt (negsuc n) = omega arith

pub wrap-signed : (w : ℕ) → w < 2 ^ 32 → wrap (signed w) ≡ w
wrap-signed w h = ground arith

pub wrap-neg_ℕ : (n : ℕ) → wrap (neg_ℕ n) ≡ (2 ^ 32 - n % 2 ^ 32) % 2 ^ 32
wrap-neg_ℕ zero = refl
wrap-neg_ℕ (suc n) = omega arith

-- A negated number and its image add up to a multiple of the modulus.
pub wrap-neg_sum : (n : ℕ) → n ≤ 2 ^ 32 → (u : ℕ) × (wrap (neg_ℕ n) + n ≡ 2 ^ 32 * u) × (u ≤ 1)
wrap-neg_sum zero h = (0, omega arith, omega arith)
wrap-neg_sum (suc n) h = (1, omega arith, omega arith)

-- What fits is read back.
pub signed-wrap_pos : (n : ℕ) → n < 2 ^ 31 → signed (wrap (pos n)) ≡ pos n
signed-wrap_pos n h = ground arith

pub signed-wrap_neg : (n : ℕ) → n ≤ 2 ^ 31 → signed (wrap (neg_ℕ n)) ≡ neg_ℕ n
signed-wrap_neg zero h = refl
signed-wrap_neg (suc n) h = ground arith

pub magnitude-neg_ℕ : (n : ℕ) → magnitude (neg_ℕ n) ≡ n
magnitude-neg_ℕ zero = refl
magnitude-neg_ℕ (suc n) = refl
