-- ===== src/Purva/Replay/Registers.antt =====
-- An instruction that only writes a register.
use purv.Base.{
  ℕ, ◌+◌, ◌/◌, ◌%◌, ◌^◌, ◌<◌, ◌≡◌, inl, inr, ap, ◌∙◌, sym, refl, true, false, ◌||◌, leb, ◌==◌,
  if◌then◌else◌, Bool-cases, ==_iff, field, u32, ◌<<<◌, arith,
}
use purv.Engine.{State, MemOp, Handlers, wr}
use purv.Engine.Decode.Fields.{imm_i, imm_u}
use purv.Engine.Decode.Wide.{decode32, decode_op, decode_opimm, wide_fields}
use purv.Engine.Decode.Words.{decode32_op, decode32_opimm, decode32-lui}
use purv.Engine.Exec.{done}
use purv.Engine.Exec.Arith.{alu_result}
use purv.Engine.Exec.Bodies.{exec}
use purv.Purva.Op
use purv.Purva.Packed.{tc_imm, tc_uimm}
use purv.Purva.Transcode.{DecodedInst, word_fields, op_op, drop_x0, decode_word}
use purv.Purva.Transcode.Opcodes.{decode_switch-op, decode_switch-opimm, decode_switch-lui}
use purv.Purva.Transcode.Emit.{first_word}
use purv.Purva.Eval.Ops.{reg_reg, reg_imm}
use purv.Purva.Replay.Values.{reg_imm-slli, reg_imm-shift_right, reg_imm-alu}
use purv.Purva.Replay.Fields.{
  is_reg_reg, is_reg_imm, HasRegs, first_word-reg_reg, handler-reg_reg, first_word-reg_imm,
  handler-reg_imm, first_word-lui, handler-lui, tc_imm-shamt,
}
use purv.Purva.Replay.Parts.{
  replay, as_effect, is_standard, op_op-IsRegReg, op_value, reg_reg-op_op, wr_zero, wr-set_x,
  not_nop, word_fields-HasRegs, opimm_case-left, opimm_case-right, opimm_case-imm, tc_imm-imm_i,
}

module _ (h : Handlers) (callback : State → MemOp → ℕ → ℕ → State × ℕ) (s : State)
    (pc idx w w1 off disp : ℕ) where
  -- A write to x0 is dropped by one engine, and discarded by the other.
  pub replay-dropped :
      (d : DecodedInst) (v : ℕ)
      → (d.rd == 0) ≡ true
      → (leb d.op Op.remu || (d.op == Op.lui || d.op == Op.auipc)) ≡ true
      → replay callback s idx w1 disp (drop_x0 d) ≡ as_effect (done (wr s d.rd v))
  unfolding drop_x0
  replay-dropped d v e k = rw (e, k, wr_zero s d.rd v e)

  pub drop_x0-kept : (d : DecodedInst) → (d.rd == 0) ≡ false → drop_x0 d ≡ d
  unfolding drop_x0
  drop_x0-kept d e = rw e

  pub replay-reg_reg :
      (d : DecodedInst)
      → HasRegs d
      → is_reg_reg d.op ≡ true
      → replay callback s idx w1 disp (drop_x0 d)
        ≡ as_effect (done (wr s d.rd (reg_reg d.op (s.x d.rs1) (s.x d.rs2))))
  replay-reg_reg d regs e =
      let v = reg_reg d.op (s.x d.rs1) (s.x d.rs2) in
      let fs = first_word-reg_reg d disp regs e in
      elim (Bool-cases (d.rd == 0)) [
        | inl z ↦ replay-dropped d v z (ground arith)
        | inr n ↦
            rw (drop_x0-kept d n, not_nop d.op (ground arith), wr-set_x s d.rd v n)
              (handler-reg_reg callback s idx (first_word d disp) w1 (ap is_reg_reg fs.0 ∙ e)
                ∙ rw (fs.0, fs.1, fs.2, fs.3))
      ]

  pub replay-reg_imm :
      (d : DecodedInst)
      → HasRegs d
      → is_reg_imm d.op ≡ true
      → tc_imm (first_word d disp) ≡ d.imm
      → replay callback s idx w1 disp (drop_x0 d)
        ≡ as_effect (done (wr s d.rd (reg_imm d.op (s.x d.rs1) d.imm)))
  replay-reg_imm d regs e i =
      let v = reg_imm d.op (s.x d.rs1) d.imm in
      let fs = first_word-reg_imm d disp regs e in
      elim (Bool-cases (d.rd == 0)) [
        | inl z ↦ replay-dropped d v z (ground arith)
        | inr n ↦
            rw (drop_x0-kept d n, not_nop d.op (ground arith), wr-set_x s d.rd v n)
              (handler-reg_imm callback s idx (first_word d disp) w1 (ap is_reg_imm fs.0 ∙ e)
                ∙ rw (fs.0, fs.1, fs.2, i))
      ]

  pub exec-decode_op :
      exec h s pc (decode_op s w)
      ≡ done (
          wr s
            (field w 7 5)
            (op_value (field w 12 3) (w / 2 ^ 25) (s.x (field w 15 5)) (s.x (field w 20 5))))
  unfolding exec decode_op wide_fields
  exec-decode_op = ground arith

  pub exec-shift :
      (field w 12 3 == 1 || field w 12 3 == 5) ≡ true
      → exec h s pc (decode_opimm s w)
        ≡ done (
            wr s
              (field w 7 5)
              (alu_result (field w 12 3) (w / 2 ^ 25) (s.x (field w 15 5)) (field w 20 5)))
  unfolding exec decode_opimm wide_fields
  exec-shift e = rw e

  pub exec-imm :
      (field w 12 3 == 1 || field w 12 3 == 5) ≡ false
      → exec h s pc (decode_opimm s w)
        ≡ done (wr s (field w 7 5) (alu_result (field w 12 3) 0 (s.x (field w 15 5)) (imm_i w)))
  unfolding exec decode_opimm wide_fields
  exec-imm e = rw e

  -- The cases of the opcodes.
  pub plain-op :
      field w 0 7 ≡ 0x33
      → is_standard (field w 12 3) (w / 2 ^ 25) ≡ true
      → replay callback s idx w1 disp (decode_word w off) ≡ as_effect (exec h s pc (decode32 s w))
  unfolding decode_word word_fields
  plain-op e std =
      let f3 = field w 12 3 in
      let f7 = w / 2 ^ 25 in
      let d = record (word_fields w) { op = op_op f3 f7 } in
      let write = λ (v : ℕ). as_effect (done (wr s d.rd v)) in
      rw (decode_switch-op w off e, decode32_op s w e)
        (replay-reg_reg d (word_fields-HasRegs w) (op_op-IsRegReg f3 f7 (omega arith))
          ∙ ap write (reg_reg-op_op f3 f7 (s.x d.rs1) (s.x d.rs2) (omega arith) std)
          ∙ ap as_effect (sym exec-decode_op))

  -- The immediate operations, with the immediate `i` that the op word has to bring through.
  pub plain-imm :
      (op i f3 f7 : ℕ)
      → is_reg_imm op ≡ true
      → ((v : ℕ) → v % 2 ^ 16 ≡ i % 2 ^ 16 → tc_imm v ≡ i)
      → reg_imm op (s.x (field w 15 5)) i ≡ alu_result f3 f7 (s.x (field w 15 5)) i
      → replay callback s idx w1 disp (drop_x0 (record (word_fields w) { op = op; imm = i }))
        ≡ as_effect (done (wr s (field w 7 5) (alu_result f3 f7 (s.x (field w 15 5)) i)))
  unfolding word_fields
  plain-imm op i f3 f7 e through same =
      let d = record (word_fields w) { op = op; imm = i } in
      let regs = word_fields-HasRegs w in
      replay-reg_imm d regs e (through (first_word d disp) ((first_word-reg_imm d disp regs e).3))
      ∙ ap (λ (v : ℕ). as_effect (done (wr s (field w 7 5) v))) same

  pub plain-opimm :
      w < 2 ^ 32
      → field w 0 7 ≡ 0x13
      → replay callback s idx w1 disp (decode_word w off) ≡ as_effect (exec h s pc (decode32 s w))
  unfolding decode_word
  plain-opimm hw e =
      let f3 = field w 12 3 in
      let f7 = w / 2 ^ 25 in
      let a = s.x (field w 15 5) in
      let shamt = field w 20 5 in
      rw (decode_switch-opimm w off e, decode32_opimm s w e)
        (elim (Bool-cases (f3 == 1)) [
          | inl left ↦
              rw (opimm_case-left w (word_fields w) left, exec-shift (rw left))
                (plain-imm Op.slli shamt f3 f7 refl (λ v. tc_imm-shamt v shamt (omega arith))
                  (reg_imm-slli f7 a shamt
                    ∙ ap (λ (t : ℕ). alu_result t f7 a shamt) (sym ((==_iff f3 1).0 left))))
          | inr other ↦ elim (Bool-cases (f3 == 5)) [
            | inl right ↦
                rw (opimm_case-right w (word_fields w) right, exec-shift (rw (other, right)))
                  (plain-imm (if f7 == 0x20 then Op.srai else Op.srli) shamt f3 f7 (ground arith)
                    (λ v. tc_imm-shamt v shamt (omega arith))
                    (reg_imm-shift_right f7 a shamt
                      ∙ ap (λ (t : ℕ). alu_result t f7 a shamt) (sym ((==_iff f3 5).0 right))))
            | inr neither ↦
                rw (opimm_case-imm w (word_fields w) other neither, exec-imm (rw (other, neither)))
                  (plain-imm (Op.addi + f3) (imm_i w) f3 0 (ground arith) (λ v. tc_imm-imm_i v w hw)
                    (reg_imm-alu f3 a (imm_i w) (omega arith) other neither))
          ]
        ])

  -- LUI
  pub exec-lui :
      field w 0 7 ≡ 0x37 → exec h s pc (decode32 s w) ≡ done (wr s (field w 7 5) (imm_u w))
  unfolding exec wide_fields
  exec-lui e = ap (exec h s pc) (decode32-lui s w e)

  pub lui_value :
      (v : ℕ) → v % 2 ^ 21 ≡ field w 12 20 % 2 ^ 20 → w < 2 ^ 32 → u32 (tc_uimm v <<< 12) ≡ imm_u w
  unfolding imm_u
  lui_value v e hw = omega arith

  pub plain-lui :
      w < 2 ^ 32
      → field w 0 7 ≡ 0x37
      → replay callback s idx w1 disp (decode_word w off) ≡ as_effect (exec h s pc (decode32 s w))
  unfolding decode_word word_fields
  plain-lui hw e =
      let d = record (word_fields w) { op = Op.lui; imm = field w 12 20 } in
      let fs = first_word-lui d disp (word_fields-HasRegs w) refl in
      rw (decode_switch-lui w off e, exec-lui e)
        (elim (Bool-cases (d.rd == 0)) [
          | inl z ↦ replay-dropped d (imm_u w) z refl
          | inr n ↦
              rw (drop_x0-kept d n, wr-set_x s d.rd (imm_u w) n)
                (handler-lui callback s idx (first_word d disp) w1 (fs.0)
                  ∙ rw (fs.1, lui_value (first_word d disp) (fs.2) hw))
        ])
