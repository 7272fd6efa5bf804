-- ===== src/Engine/Exec/Arith.antt =====
-- emu/purv.c, the values that the bodies `alu`, `mul`, `load` and `branch` compute.
use purv.Base.{
  ℕ, ◌*◌, ◌/◌, ◌%◌, ◌^◌, bit_and, bit_or, bit_xor, Bool, not, ◌&&◌, Option, none, some, ltb, ◌==◌,
  if◌then◌else◌, add32, sub32, u32, u64, field, ◌<<<◌, ◌>>>◌,
}
use purv.Base.Int.{signed, signed8, signed16, signed64, wrap, wrap64, asr, lt_ℤ, ◌*ℤ◌, ◌/ℤ◌, ◌%ℤ◌}
use purv.Engine.Memory.{read16, read32}
use purv.Engine.Decode.Fields.{sext}

-- `alu`
unfoldable pub alu_result : ℕ → ℕ → ℕ → ℕ → ℕ
alu_result f3 f7 a b =
    if f3 == 0
    then (if f7 == 0x20 then sub32 a b else add32 a b)
    else if f3 == 1
    then u32 (a <<< (b % 2 ^ 5))
    else if f3 == 2
    then (if lt_ℤ (signed a) (signed b) then 1 else 0)
    else if f3 == 3
    then (if ltb a b then 1 else 0)
    else if f3 == 4
    then bit_xor a b
    else if f3 == 5
    then (if f7 == 0x20 then wrap (asr (signed a) (b % 2 ^ 5)) else a >>> (b % 2 ^ 5))
    else if f3 == 6
    then bit_or a b
    else bit_and a b

-- `(int32_t)b == -1` beside the smallest integer: the one quotient that does not fit.
abbrev pub div_overflows : ℕ → ℕ → Bool
div_overflows a b = a == 0x8000_0000 && b == 0xffff_ffff

unfoldable pub mulh : ℕ → ℕ → ℕ
mulh a b = wrap (asr (signed a *ℤ signed b) 32)

unfoldable pub mulhsu : ℕ → ℕ → ℕ
mulhsu a b = wrap (asr (signed64 (u64 (wrap64 (signed a) * b))) 32)

unfoldable pub mulhu : ℕ → ℕ → ℕ
mulhu a b = u32 (u64 (a * b) >>> 32)

unfoldable pub div_signed : ℕ → ℕ → ℕ
div_signed a b =
    if b == 0 then 0xffff_ffff else if div_overflows a b then a else wrap (signed a /ℤ signed b)

unfoldable pub div_unsigned : ℕ → ℕ → ℕ
div_unsigned a b = if b == 0 then 0xffff_ffff else a / b

unfoldable pub rem_signed : ℕ → ℕ → ℕ
rem_signed a b = if b == 0 then a else if div_overflows a b then 0 else wrap (signed a %ℤ signed b)

unfoldable pub rem_unsigned : ℕ → ℕ → ℕ
rem_unsigned a b = if b == 0 then a else a % b

-- `mul`
unfoldable pub mul_result : ℕ → ℕ → ℕ → ℕ
mul_result f3 a b =
    if f3 == 0
    then u32 (a * b)
    else if f3 == 1
    then mulh a b
    else if f3 == 2
    then mulhsu a b
    else if f3 == 3
    then mulhu a b
    else if f3 == 4
    then div_signed a b
    else if f3 == 5
    then div_unsigned a b
    else if f3 == 6
    then rem_signed a b
    else rem_unsigned a b

-- `load`, the value at a pointer: by width and sign.
unfoldable pub load_value : (ℕ → ℕ) → ℕ → ℕ → ℕ
load_value host p f3 =
    if f3 == 0
    then wrap (signed8 (host p))
    else if f3 == 1
    then wrap (signed16 (read16 host p))
    else if f3 == 2
    then read32 host p
    else if f3 == 4
    then host p
    else read16 host p

-- `load`, what becomes of the word that the callback supplies.
unfoldable pub miss_value : ℕ → ℕ → ℕ → ℕ
miss_value f3 n v =
    if field f3 2 1 == 1 then (if n == 4 then v else v % 2 ^ (8 * n)) else sext v (8 * n)

-- `branch`: whether it is taken; `none` is an illegal instruction.
unfoldable pub branch_taken : ℕ → ℕ → ℕ → Option Bool
branch_taken f3 a b =
    if f3 == 0
    then some (a == b)
    else if f3 == 1
    then some (not (a == b))
    else if f3 == 4
    then some (lt_ℤ (signed a) (signed b))
    else if f3 == 5
    then some (not (lt_ℤ (signed a) (signed b)))
    else if f3 == 6
    then some (ltb a b)
    else if f3 == 7
    then some (not (ltb a b))
    else none
