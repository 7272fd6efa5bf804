-- ===== src/Engine/Decode/Fields.antt =====
-- emu/purv.c, the immediates of the 32-bit and the compressed formats.
use purv.Base.{ℕ, ◌-◌, ◌*◌, ◌/◌, ◌^◌, bit_or, u32, field, ◌<<<◌}
use purv.Base.Int.{signed, wrap, asr}

-- `sext`: the low `bits` of `v`, sign-extended.
unfoldable pub sext : ℕ → ℕ → ℕ
sext v bits = wrap (asr (signed (u32 (v <<< (32 - bits)))) (32 - bits))

-- `(uint32_t)((int32_t)w >> 20)`
unfoldable pub imm_i : ℕ → ℕ
imm_i w = wrap (asr (signed w) 20)

unfoldable pub imm_s : ℕ → ℕ
imm_s w = bit_or (u32 (wrap (asr (signed w) 25) <<< 5)) (field w 7 5)

-- The argument of `sext` for a branch.
unfoldable pub bits_b : ℕ → ℕ
bits_b w =
    bit_or (bit_or (bit_or (field w 31 1 <<< 12) (field w 7 1 <<< 11)) (field w 25 6 <<< 5))
      (field w 8 4 <<< 1)

unfoldable pub imm_b : ℕ → ℕ
unfolding bits_b
imm_b w = sext (bits_b w) 13

-- The argument of `sext` for a `jal`.
unfoldable pub bits_j : ℕ → ℕ
bits_j w =
    bit_or (bit_or (bit_or (field w 31 1 <<< 20) (field w 12 8 <<< 12)) (field w 20 1 <<< 11))
      (field w 21 10 <<< 1)

unfoldable pub imm_j : ℕ → ℕ
unfolding bits_j
imm_j w = sext (bits_j w) 21

-- `w & 0xfffff000`
unfoldable pub imm_u : ℕ → ℕ
imm_u w = w / 2 ^ 12 * 2 ^ 12

-- `shamt` of the compressed shifts, and `ci`, the 6-bit immediate of the CI format.
unfoldable pub shamt_ci : ℕ → ℕ
shamt_ci c = bit_or (field c 2 5) (field c 12 1 <<< 5)

unfoldable pub imm_ci : ℕ → ℕ
unfolding shamt_ci
imm_ci c = sext (shamt_ci c) 6

unfoldable pub imm_addi4spn : ℕ → ℕ
imm_addi4spn c =
    bit_or (bit_or (bit_or (field c 11 2 <<< 4) (field c 7 4 <<< 6)) (field c 6 1 <<< 2))
      (field c 5 1 <<< 3)

-- C.LW and C.SW.
unfoldable pub imm_clw : ℕ → ℕ
imm_clw c = bit_or (bit_or (field c 10 3 <<< 3) (field c 6 1 <<< 2)) (field c 5 1 <<< 6)

-- C.JAL and C.J.
unfoldable pub bits_cj : ℕ → ℕ
bits_cj c =
    let a = bit_or (bit_or (field c 12 1 <<< 11) (field c 11 1 <<< 4)) (field c 9 2 <<< 8) in
    let b = bit_or (bit_or a (field c 8 1 <<< 10)) (field c 7 1 <<< 6) in
    bit_or (bit_or (bit_or b (field c 6 1 <<< 7)) (field c 3 3 <<< 1)) (field c 2 1 <<< 5)

unfoldable pub imm_cj : ℕ → ℕ
unfolding bits_cj
imm_cj c = sext (bits_cj c) 12

unfoldable pub bits_addi16sp : ℕ → ℕ
bits_addi16sp c =
    bit_or
      (bit_or (bit_or (bit_or (field c 6 1 <<< 4) (field c 2 1 <<< 5)) (field c 5 1 <<< 6))
        (field c 3 2 <<< 7))
      (field c 12 1 <<< 9)

unfoldable pub imm_addi16sp : ℕ → ℕ
unfolding bits_addi16sp
imm_addi16sp c = sext (bits_addi16sp c) 10

unfoldable pub imm_clui : ℕ → ℕ
imm_clui c = sext (bit_or (field c 2 5 <<< 12) (field c 12 1 <<< 17)) 18

-- C.BEQZ and C.BNEZ.
unfoldable pub bits_cb : ℕ → ℕ
bits_cb c =
    bit_or
      (bit_or (bit_or (bit_or (field c 12 1 <<< 8) (field c 10 2 <<< 3)) (field c 5 2 <<< 6))
        (field c 3 2 <<< 1))
      (field c 2 1 <<< 5)

unfoldable pub imm_cb : ℕ → ℕ
unfolding bits_cb
imm_cb c = sext (bits_cb c) 9

unfoldable pub imm_lwsp : ℕ → ℕ
imm_lwsp c = bit_or (bit_or (field c 4 3 <<< 2) (field c 2 2 <<< 6)) (field c 12 1 <<< 5)

unfoldable pub imm_swsp : ℕ → ℕ
imm_swsp c = bit_or (field c 9 4 <<< 2) (field c 7 2 <<< 6)
