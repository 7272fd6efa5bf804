-- ===== src/Purva/Replay/Values.antt =====
-- The values that the two engines compute, op by op.
use purv.Base.{
  ℕ, zero, suc, ◌+◌, ◌*◌, ◌%◌, ◌^◌, ◌<◌, ◌≡◌, ap, ◌∙◌, refl, bit_or, some, ◌==◌, false,
  if◌then◌else◌, arith, u8, u16, u32, ◌<<<◌,
}
use purv.Base.Int.{signed8, signed16, wrap}
use purv.Base.Bits.{bit_or_at}
use purv.Engine.Memory.{read16, read32}
use purv.Engine.Decode.Fields.{sext}
use purv.Engine.Exec.Arith.{alu_result, mul_result, load_value, miss_value, branch_taken}
use purv.Engine.Exec.Ranges.{read16-lt, read32-lt}
use purv.Purva.Op
use purv.Purva.Packed.{tc_imm}
use purv.Purva.Transcode.{branch_op, load_op}
use purv.Purva.Eval.Memory.{cast_load, load_size, ld_le}
use purv.Purva.Eval.Ops.{reg_reg, reg_imm, taken}

pub reg_reg-mul : (f3 a b : ℕ) → f3 < 8 → reg_reg (Op.mul + f3) a b ≡ mul_result f3 a b
unfolding reg_reg mul_result
reg_reg-mul zero a b h = refl
reg_reg-mul (suc zero) a b h = refl
reg_reg-mul (suc (suc zero)) a b h = refl
reg_reg-mul (suc (suc (suc zero))) a b h = refl
reg_reg-mul (suc (suc (suc (suc zero)))) a b h = refl
reg_reg-mul (suc (suc (suc (suc (suc zero))))) a b h = refl
reg_reg-mul (suc (suc (suc (suc (suc (suc zero)))))) a b h = refl
reg_reg-mul (suc (suc (suc (suc (suc (suc (suc zero))))))) a b h = refl
reg_reg-mul (suc (suc (suc (suc (suc (suc (suc (suc f3)))))))) a b h = absurd (omega arith)

pub reg_reg-alu :
    (f3 f7 a b : ℕ) → f3 < 8 → (f7 == 0x20) ≡ false → reg_reg f3 a b ≡ alu_result f3 f7 a b
unfolding reg_reg alu_result
reg_reg-alu f3 f7 a b h e = ground arith

pub reg_reg-sub : (a b : ℕ) → reg_reg Op.sub a b ≡ alu_result 0 0x20 a b
unfolding reg_reg alu_result
reg_reg-sub a b = refl

pub reg_reg-sra : (a b : ℕ) → reg_reg Op.sra a b ≡ alu_result 5 0x20 a b
unfolding reg_reg alu_result
reg_reg-sra a b = refl

pub reg_imm-alu :
    (f3 a b : ℕ)
    → f3 < 8
    → (f3 == 1) ≡ false
    → (f3 == 5) ≡ false
    → reg_imm (Op.addi + f3) a b ≡ alu_result f3 0 a b
unfolding reg_imm alu_result
reg_imm-alu f3 a b h e1 e5 = ground arith

pub reg_imm-slli : (f7 a b : ℕ) → reg_imm Op.slli a b ≡ alu_result 1 f7 a b
unfolding reg_imm alu_result
reg_imm-slli f7 a b = refl

pub reg_imm-shift_right :
    (f7 a b : ℕ) → reg_imm (if f7 == 0x20 then Op.srai else Op.srli) a b ≡ alu_result 5 f7 a b
unfolding reg_imm alu_result
reg_imm-shift_right f7 a b = ground arith

pub taken-branch :
    (f3 a b : ℕ)
    → (branch_op f3 == Op.illegal) ≡ false
    → branch_taken f3 a b ≡ some (taken (branch_op f3) a b)
unfolding branch_op branch_taken taken
taken-branch f3 a b h = ground arith

-- What a load reads at a pointer to bytes.
module _ (host : ℕ → ℕ) (q : ℕ) (bytes : (p : ℕ) → host p < 256) where
  -- A word read in two halves is the word read byte by byte.
  pub ld_le-4 : ld_le host q 4 ≡ read32 host q
  unfolding ld_le read32
  ld_le-4 =
      let b0 = host q in
      let b1 = host (q + 1) in
      let b2 = host (q + 2) in
      let b3 = host (q + 3) in
      let low : bit_or b0 (b1 <<< 8) ≡ b0 + b1 * 2 ^ 8 =
        bit_or_at 8 8 b0 b1 (bytes q) (bytes (q + 1)) in
      let high : bit_or (b2 <<< 16) (b3 <<< 24) ≡ (b2 + b3 * 2 ^ 8) * 2 ^ 16 =
        bit_or_at 24 8 (b2 * 2 ^ 16) b3 (omega (arith, bytes (q + 2))) (bytes (q + 3))
        ∙ omega arith in
      rw (low, high)
        (bit_or_at 16 16 (b0 + b1 * 2 ^ 8) (b2 + b3 * 2 ^ 8) (omega (arith, bytes q, bytes (q + 1)))
            (omega (arith, bytes (q + 2), bytes (q + 3)))
          ∙ rw
              (
                bit_or_at 16 8 (b0 + b1 * 2 ^ 8) b2 (omega (arith, bytes q, bytes (q + 1)))
                    (bytes (q + 2)),
                bit_or_at 24 8 (b0 + b1 * 2 ^ 8 + b2 * 2 ^ 16) b3
                    (omega (arith, bytes q, bytes (q + 1), bytes (q + 2))) (bytes (q + 3)),
              )
              (omega arith))

  ld_le-2 : ld_le host q 2 ≡ read16 host q
  unfolding ld_le read16
  ld_le-2 = refl

  ld_le-1 : ld_le host q 1 ≡ host q
  unfolding ld_le
  ld_le-1 = refl

  pub cast_load-value :
      (f3 : ℕ)
      → (load_op f3 == Op.illegal) ≡ false
      → cast_load (load_op f3) (ld_le host q (load_size (load_op f3))) ≡ load_value host q f3
  unfolding cast_load load_op load_value load_size
  cast_load-value zero e =
      ap (λ (t : ℕ). wrap (signed8 (u8 t))) ld_le-1
      ∙ ap (λ (t : ℕ). wrap (signed8 t)) {x = u8 (host q)} (omega (arith, bytes q))
  cast_load-value (suc zero) e =
      ap (λ (t : ℕ). wrap (signed16 (u16 t))) ld_le-2
      ∙ ap (λ (t : ℕ). wrap (signed16 t)) {x = u16 (read16 host q)}
          (omega (arith, read16-lt host bytes q))
  cast_load-value (suc (suc zero)) e = omega (arith, ld_le-4, read32-lt host bytes q)
  cast_load-value (suc (suc (suc zero))) e = cc
  cast_load-value (suc (suc (suc (suc zero)))) e = omega (arith, ld_le-1, bytes q)
  cast_load-value (suc (suc (suc (suc (suc zero))))) e =
      omega (arith, ld_le-2, read16-lt host bytes q)
  cast_load-value (suc (suc (suc (suc (suc (suc f3)))))) e = absurd (ground arith)

-- The word of the callback for a load that misses.
sext_8 : (v : ℕ) → wrap (signed8 (u8 v)) ≡ sext v 8
unfolding sext
sext_8 v = ground arith

sext_16 : (v : ℕ) → wrap (signed16 (u16 v)) ≡ sext v 16
unfolding sext
sext_16 v = ground arith

sext_32 : (v : ℕ) → u32 v ≡ sext v 32
unfolding sext
sext_32 v = ground arith

pub cast_load-miss :
    (f3 v : ℕ)
    → (load_op f3 == Op.illegal) ≡ false
    → cast_load (load_op f3) v ≡ miss_value f3 (load_size (load_op f3)) v
unfolding cast_load load_op miss_value load_size
cast_load-miss zero v e = sext_8 v
cast_load-miss (suc zero) v e = sext_16 v
cast_load-miss (suc (suc zero)) v e = sext_32 v
cast_load-miss (suc (suc (suc zero))) v e = cc
cast_load-miss (suc (suc (suc (suc zero)))) v e = refl
cast_load-miss (suc (suc (suc (suc (suc zero))))) v e = refl
cast_load-miss (suc (suc (suc (suc (suc (suc f3)))))) v e = absurd (ground arith)

-- A 16-bit immediate that came from a 12-bit one, and from a shift amount.
pub tc_imm_of : (w i : ℕ) → w % 2 ^ 16 ≡ i % 2 ^ 16 → (i < 2 ^ 11) → tc_imm w ≡ i
unfolding tc_imm
tc_imm_of w i e h = ground arith
