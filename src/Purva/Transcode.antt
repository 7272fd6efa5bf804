-- ===== src/Purva/Transcode.antt =====
-- emu/purva/transcode.c: one instruction taken apart. The children are the targets, the fusions, and
-- the two passes.
pub mod Targets
pub mod Fuse
pub mod Emit
pub mod Passes
pub mod Opcodes
pub mod Layout
pub mod Contract
use purv.Base.{ℕ, ◌+◌, ◌/◌, ◌^◌, not, ◌&&◌, ◌||◌, leb, ◌==◌, if◌then◌else◌, add32, field}
use purv.Engine.Memory.{read32}
use purv.Engine.Decode.Fields.{imm_i, imm_s, imm_b, imm_j}
use purv.Engine.Decode.Wide.{
  opcode_load, opcode_miscmem, opcode_opimm, opcode_auipc, opcode_store, opcode_op, opcode_lui,
  opcode_branch, opcode_jalr, opcode_jal, opcode_system,
}
use purv.Purva.Op

abbrev pub opcode_custom0 : ℕ
opcode_custom0 = 0x0b

unfoldable pub load_op : ℕ → ℕ
load_op f3 =
    if f3 == 0
    then Op.lb
    else if f3 == 1
    then Op.lh
    else if f3 == 2
    then Op.lw
    else if f3 == 4
    then Op.lbu
    else if f3 == 5
    then Op.lhu
    else Op.illegal

unfoldable pub store_op : ℕ → ℕ
store_op f3 =
    if f3 == 0 then Op.sb else if f3 == 1 then Op.sh else if f3 == 2 then Op.sw else Op.illegal

unfoldable pub branch_op : ℕ → ℕ
branch_op f3 =
    if f3 == 0
    then Op.beq
    else if f3 == 1
    then Op.bne
    else if f3 == 4
    then Op.blt
    else if f3 == 5
    then Op.bge
    else if f3 == 6
    then Op.bltu
    else if f3 == 7
    then Op.bgeu
    else Op.illegal

-- `Dec`
pub record DecodedInst : Type 0 where
  pub op : ℕ
  pub rd : ℕ
  pub rs1 : ℕ
  pub rs2 : ℕ
  pub imm : ℕ
  pub target : ℕ
  pub width : ℕ

-- The case OPIMM.
unfoldable pub opimm_case : ℕ → DecodedInst → DecodedInst
opimm_case w d =
    let f3 = field w 12 3 in
    if f3 == 1
    then record d { op = Op.slli; imm = field w 20 5 }
    else if f3 == 5
    then record d { op = if w / 2 ^ 25 == 0x20 then Op.srai else Op.srli; imm = field w 20 5 }
    else record d { op = Op.addi + f3; imm = imm_i w }

-- The case OP.
unfoldable pub op_op : ℕ → ℕ → ℕ
op_op f3 f7 =
    if f7 == 1
    then Op.mul + f3
    else if f7 == 0x20
    then (if f3 == 0 then Op.sub else Op.sra)
    else Op.add + f3

-- The case SYSTEM.
unfoldable pub system_op : ℕ → DecodedInst → ℕ
system_op w d =
    let plain = field w 12 3 == 0 && (d.rd == 0 && d.rs1 == 0) in
    if plain && field w 20 12 == 0
    then Op.ecall
    else if plain && field w 20 12 == 1
    then Op.ebreak
    else Op.illegal

-- The case MISCMEM.
unfoldable pub miscmem_op : ℕ → DecodedInst → ℕ
miscmem_op w d =
    let f3 = field w 12 3 in
    if not (d.rd == 0) || (not (d.rs1 == 0) || (not (f3 == 0) && not (f3 == 1)))
    then Op.illegal
    else Op.nop

-- What `decode` sets before the switch.
unfoldable pub word_fields : ℕ → DecodedInst
word_fields w = record {
  op = Op.illegal;
  rd = field w 7 5;
  rs1 = field w 15 5;
  rs2 = field w 20 5;
  imm = 0;
  target = 0;
  width = 4;
}

-- `switch (w & 0x7f)`
unfoldable pub decode_switch : ℕ → ℕ → DecodedInst
decode_switch w off =
    let d = word_fields w in
    let f3 = field w 12 3 in
    let opcode = field w 0 7 in
    if opcode == opcode_opimm
    then opimm_case w d
    else if opcode == opcode_op
    then record d { op = op_op f3 (w / 2 ^ 25) }
    else if opcode == opcode_load
    then record d { op = load_op f3; imm = imm_i w }
    else if opcode == opcode_store
    then record d { op = store_op f3; imm = imm_s w }
    else if opcode == opcode_branch
    then record d { op = branch_op f3; target = add32 off (imm_b w) }
    else if opcode == opcode_jal
    then record d { op = Op.jal; target = add32 off (imm_j w) }
    else if opcode == opcode_jalr
    then record d { op = Op.jalr; imm = imm_i w }
    else if opcode == opcode_lui
    then record d { op = Op.lui; imm = field w 12 20 }
    else if opcode == opcode_auipc
    then record d { op = Op.auipc; imm = field w 12 20 }
    else if opcode == opcode_custom0
    then (if w / 2 ^ 25 == 0 then record d { op = Op.memop; imm = f3 } else d)
    else if opcode == opcode_miscmem
    then record d { op = miscmem_op w d }
    else if opcode == opcode_system
    then record d { op = system_op w d }
    else d

-- A pure register write to x0 becomes a NOP.
unfoldable pub drop_x0 : DecodedInst → DecodedInst
drop_x0 d =
    if d.rd == 0 && (leb d.op Op.remu || (d.op == Op.lui || d.op == Op.auipc))
    then record d { op = Op.nop }
    else d

-- `decode` of the word `w` at `off`, and of the four bytes there.
unfoldable pub decode_word : ℕ → ℕ → DecodedInst
decode_word w off = drop_x0 (decode_switch w off)

unfoldable pub decode : (ℕ → ℕ) → ℕ → DecodedInst
decode code off = decode_word (read32 code off) off

-- How many op words an op takes.
unfoldable pub op_words : ℕ → ℕ
op_words op = if op == Op.nop then 0 else if op == Op.lw_bz || op == Op.lbu_bz then 2 else 1
