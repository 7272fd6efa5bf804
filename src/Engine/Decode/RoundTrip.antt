-- ===== src/Engine/Decode/RoundTrip.antt =====
-- The decoder of 32-bit instructions against the formats of the ISA manual.
use purv.Base.{ℕ, ◌≡◌, refl, ap, ◌∙◌, true, ◌||◌, ◌==◌, if◌then◌else◌, field, arith}
use purv.Engine.{State}
use purv.Engine.Decode.{alu, mul}
use purv.Engine.Decode.Fields.{sext, imm_b, imm_j, imm_u, bits_b, bits_j}
use purv.Engine.Decode.Wide.{decode32, decode_opimm, decode_op, decode_miscmem, wide_fields}
use purv.Engine.Decode.Encode.{
  Instr, reg, imm, shift, ld, st, br, jump_link, jump_reg, upper, upper_pc, fence, env_call,
  env_break, encode, IsEncodable, Means,
}
use purv.Engine.Decode.Words.{
  imm_i_sign, sext_13, sext_21, imm_s_sign, bits_b_sum, bits_j_sum, decode32_op, decode32_opimm,
  decode32_load, decode32_store, decode32_branch, decode32-jal, decode32-jalr, decode32-lui,
  decode32-auipc,
}

Means-reg :
    (s : State) (f7 f3 rd rs1 rs2 : ℕ)
    → IsEncodable (reg f7 f3 rd rs1 rs2)
    → Means s (reg f7 f3 rd rs1 rs2) (decode32 s (encode (reg f7 f3 rd rs1 rs2)))
Means-reg s f7 f3 rd rs1 rs2 h =
    let w = encode (reg f7 f3 rd rs1 rs2) in
    rw (decode32_op s w (omega arith)) (
      unfold decode_op wide_fields in
      (
        ap (λ (t : ℕ). if t == 1 then mul else alu) (omega arith),
        omega arith,
        ap s.x (omega arith),
        ap s.x (omega arith),
        omega arith,
        omega arith,
      ))

Means-imm :
    (s : State) (f3 rd rs1 i : ℕ)
    → IsEncodable (imm f3 rd rs1 i)
    → Means s (imm f3 rd rs1 i) (decode32 s (encode (imm f3 rd rs1 i)))
unfolding decode_opimm wide_fields
Means-imm s f3 rd rs1 i h =
    let w = encode (imm f3 rd rs1 i) in
    let at_f3 : field w 12 3 ≡ f3 = omega arith in
    rw (decode32_opimm s w (omega arith), decode_opimm, at_f3, h.4, h.5)
      (
        refl,
        omega arith,
        ap s.x (omega arith),
        imm_i_sign w i (omega arith) (omega arith),
        refl,
        refl,
      )

Means-shift :
    (s : State) (f7 f3 rd rs1 shamt : ℕ)
    → IsEncodable (shift f7 f3 rd rs1 shamt)
    → Means s (shift f7 f3 rd rs1 shamt) (decode32 s (encode (shift f7 f3 rd rs1 shamt)))
unfolding decode_opimm wide_fields
Means-shift s f7 f3 rd rs1 shamt h =
    let w = encode (shift f7 f3 rd rs1 shamt) in
    let at_f3 : field w 12 3 ≡ f3 = omega arith in
    let is_shift : (f3 == 1 || f3 == 5) ≡ true = ground arith in
    rw (decode32_opimm s w (omega arith), decode_opimm, at_f3, is_shift)
      (refl, omega arith, ap s.x (omega arith), omega arith, refl, omega arith)

Means-ld :
    (s : State) (f3 rd rs1 i : ℕ)
    → IsEncodable (ld f3 rd rs1 i)
    → Means s (ld f3 rd rs1 i) (decode32 s (encode (ld f3 rd rs1 i)))
unfolding wide_fields
Means-ld s f3 rd rs1 i h =
    let w = encode (ld f3 rd rs1 i) in
    rw (decode32_load s w (omega arith)) (
      refl,
      omega arith,
      ap s.x (omega arith),
      imm_i_sign w i (omega arith) (omega arith),
      omega arith,
    )

Means-st :
    (s : State) (f3 rs1 rs2 i : ℕ)
    → IsEncodable (st f3 rs1 rs2 i)
    → Means s (st f3 rs1 rs2 i) (decode32 s (encode (st f3 rs1 rs2 i)))
unfolding wide_fields
Means-st s f3 rs1 rs2 i h =
    let w = encode (st f3 rs1 rs2 i) in
    rw (decode32_store s w (omega arith)) (
      refl,
      ap s.x (omega arith),
      ap s.x (omega arith),
      imm_s_sign w i (omega arith) (omega arith),
      omega arith,
    )

Means-br :
    (s : State) (f3 rs1 rs2 off : ℕ)
    → IsEncodable (br f3 rs1 rs2 off)
    → Means s (br f3 rs1 rs2 off) (decode32 s (encode (br f3 rs1 rs2 off)))
unfolding wide_fields imm_b
Means-br s f3 rs1 rs2 off h =
    let w = encode (br f3 rs1 rs2 off) in
    let bits : bits_b w ≡ off = omega (arith, bits_b_sum w) in
    rw (decode32_branch s w (omega arith)) (
      refl,
      ap s.x (omega arith),
      ap s.x (omega arith),
      ap (λ (t : ℕ). sext t 13) bits ∙ sext_13 off h.3,
      omega arith,
    )

Means-jump_link :
    (s : State) (rd off : ℕ)
    → IsEncodable (jump_link rd off)
    → Means s (jump_link rd off) (decode32 s (encode (jump_link rd off)))
unfolding wide_fields imm_j
Means-jump_link s rd off h =
    let w = encode (jump_link rd off) in
    let bits : bits_j w ≡ off = omega (arith, bits_j_sum w) in
    rw (decode32-jal s w (omega arith))
      (refl, omega arith, ap (λ (t : ℕ). sext t 21) bits ∙ sext_21 off h.1)

Means-jump_reg :
    (s : State) (f3 rd rs1 i : ℕ)
    → IsEncodable (jump_reg f3 rd rs1 i)
    → Means s (jump_reg f3 rd rs1 i) (decode32 s (encode (jump_reg f3 rd rs1 i)))
unfolding wide_fields
Means-jump_reg s f3 rd rs1 i h =
    let w = encode (jump_reg f3 rd rs1 i) in
    rw (decode32-jalr s w (omega arith))
      (refl, omega arith, ap s.x (omega arith), imm_i_sign w i (omega arith) (omega arith))

Means-upper :
    (s : State) (rd u : ℕ)
    → IsEncodable (upper rd u)
    → Means s (upper rd u) (decode32 s (encode (upper rd u)))
unfolding wide_fields imm_u
Means-upper s rd u h =
    rw (decode32-lui s (encode (upper rd u)) (omega arith)) (refl, omega arith, omega arith)

Means-upper_pc :
    (s : State) (rd u : ℕ)
    → IsEncodable (upper_pc rd u)
    → Means s (upper_pc rd u) (decode32 s (encode (upper_pc rd u)))
unfolding wide_fields imm_u
Means-upper_pc s rd u h =
    rw (decode32-auipc s (encode (upper_pc rd u)) (omega arith)) (refl, omega arith, omega arith)

Means-fence :
    (s : State) (f3 i : ℕ)
    → IsEncodable (fence f3 i)
    → Means s (fence f3 i) (decode32 s (encode (fence f3 i)))
unfolding decode32 decode_miscmem wide_fields
Means-fence s f3 i h =
    let w = encode (fence f3 i) in
    let opcode : field w 0 7 ≡ 0x0f = omega arith in
    let rd : field w 7 5 ≡ 0 = omega arith in
    let rs1 : field w 15 5 ≡ 0 = omega arith in
    let at_f3 : field w 12 3 ≡ f3 = omega arith in ground arith

Means-env_call : (s : State) → Means s env_call (decode32 s (encode env_call))
unfolding decode32 wide_fields
Means-env_call s = (refl, refl, refl, refl, refl)

Means-env_break : (s : State) → Means s env_break (decode32 s (encode env_break))
unfolding decode32 wide_fields
Means-env_break s = (refl, refl, refl, refl, refl)

-- Every RV32IM instruction, the register, immediate, shift, load, store, branch, jump and upper-immediate
-- instructions, FENCE and FENCE.I, ECALL and EBREAK, encoded as the ISA manual says with fields of
-- their widths, is decoded to its own body with its own registers and immediate; FENCE and FENCE.I
-- to the end of the step, ECALL and EBREAK to the body of SYSTEM with the number that tells them apart.
pub decode32-encode : (s : State) (i : Instr) → IsEncodable i → Means s i (decode32 s (encode i))
decode32-encode s (reg f7 f3 rd rs1 rs2) h = Means-reg s f7 f3 rd rs1 rs2 h
decode32-encode s (imm f3 rd rs1 i) h = Means-imm s f3 rd rs1 i h
decode32-encode s (shift f7 f3 rd rs1 shamt) h = Means-shift s f7 f3 rd rs1 shamt h
decode32-encode s (ld f3 rd rs1 i) h = Means-ld s f3 rd rs1 i h
decode32-encode s (st f3 rs1 rs2 i) h = Means-st s f3 rs1 rs2 i h
decode32-encode s (br f3 rs1 rs2 off) h = Means-br s f3 rs1 rs2 off h
decode32-encode s (jump_link rd off) h = Means-jump_link s rd off h
decode32-encode s (jump_reg f3 rd rs1 i) h = Means-jump_reg s f3 rd rs1 i h
decode32-encode s (upper rd u) h = Means-upper s rd u h
decode32-encode s (upper_pc rd u) h = Means-upper_pc s rd u h
decode32-encode s (fence f3 i) h = Means-fence s f3 i h
decode32-encode s env_call h = Means-env_call s
decode32-encode s env_break h = Means-env_break s
