-- ===== src/Purva/Transcode/Opcodes.antt =====
-- The transcoder's decoder at each opcode.
use purv.Base.{ℕ, ◌/◌, ◌^◌, ◌≡◌, field, add32, arith}
use purv.Engine.Decode.Fields.{imm_i, imm_s, imm_b, imm_j}
use purv.Purva.Op
use purv.Purva.Transcode.{
  word_fields, op_op, opimm_case, load_op, store_op, branch_op, miscmem_op, decode_switch,
}

module _ (w off : ℕ) where
  pub decode_switch-opimm : field w 0 7 ≡ 0x13 → decode_switch w off ≡ opimm_case w (word_fields w)
  unfolding decode_switch
  decode_switch-opimm e = ground arith

  pub decode_switch-op :
      field w 0 7 ≡ 0x33
      → decode_switch w off ≡ record (word_fields w) { op = op_op (field w 12 3) (w / 2 ^ 25) }
  unfolding decode_switch
  decode_switch-op e = ground arith

  pub decode_switch-load :
      field w 0 7 ≡ 0x03
      → decode_switch w off ≡ record (word_fields w) { op = load_op (field w 12 3); imm = imm_i w }
  unfolding decode_switch
  decode_switch-load e = ground arith

  pub decode_switch-store :
      field w 0 7 ≡ 0x23
      → decode_switch w off ≡ record (word_fields w) { op = store_op (field w 12 3); imm = imm_s w }
  unfolding decode_switch
  decode_switch-store e = ground arith

  pub decode_switch-branch :
      field w 0 7 ≡ 0x63
      → decode_switch w off
        ≡ record (word_fields w) { op = branch_op (field w 12 3); target = add32 off (imm_b w) }
  unfolding decode_switch
  decode_switch-branch e = ground arith

  pub decode_switch-jal :
      field w 0 7 ≡ 0x6f
      → decode_switch w off ≡ record (word_fields w) { op = Op.jal; target = add32 off (imm_j w) }
  unfolding decode_switch
  decode_switch-jal e = ground arith

  pub decode_switch-jalr :
      field w 0 7 ≡ 0x67
      → decode_switch w off ≡ record (word_fields w) { op = Op.jalr; imm = imm_i w }
  unfolding decode_switch
  decode_switch-jalr e = ground arith

  pub decode_switch-lui :
      field w 0 7 ≡ 0x37
      → decode_switch w off ≡ record (word_fields w) { op = Op.lui; imm = field w 12 20 }
  unfolding decode_switch
  decode_switch-lui e = ground arith

  pub decode_switch-auipc :
      field w 0 7 ≡ 0x17
      → decode_switch w off ≡ record (word_fields w) { op = Op.auipc; imm = field w 12 20 }
  unfolding decode_switch
  decode_switch-auipc e = ground arith

  pub decode_switch-miscmem :
      field w 0 7 ≡ 0x0f
      → decode_switch w off ≡ record (word_fields w) { op = miscmem_op w (word_fields w) }
  unfolding decode_switch
  decode_switch-miscmem e = ground arith
