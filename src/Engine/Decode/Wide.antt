-- ===== src/Engine/Decode/Wide.antt =====
-- emu/purv.c, the switch on the opcode of a 32-bit instruction.
use purv.Base.{ℕ, ◌/◌, ◌^◌, not, ◌&&◌, ◌||◌, ◌==◌, if◌then◌else◌, field}
use purv.Engine.{State}
use purv.Engine.Decode.{
  alu, mul, load, store, branch, jal, jalr, lui, auipc, system, illegal, done, Decoded,
}
use purv.Engine.Decode.Fields.{imm_i, imm_s, imm_b, imm_j, imm_u}

-- Base opcodes (instruction[6:0]).
abbrev pub opcode_load : ℕ
opcode_load = 0x03

abbrev pub opcode_miscmem : ℕ
opcode_miscmem = 0x0f

abbrev pub opcode_opimm : ℕ
opcode_opimm = 0x13

abbrev pub opcode_auipc : ℕ
opcode_auipc = 0x17

abbrev pub opcode_store : ℕ
opcode_store = 0x23

abbrev pub opcode_op : ℕ
opcode_op = 0x33

abbrev pub opcode_lui : ℕ
opcode_lui = 0x37

abbrev pub opcode_branch : ℕ
opcode_branch = 0x63

abbrev pub opcode_jalr : ℕ
opcode_jalr = 0x67

abbrev pub opcode_jal : ℕ
opcode_jal = 0x6f

abbrev pub opcode_system : ℕ
opcode_system = 0x73

-- What the code sets before the switch: `rd`, `rs1`, `f3`, `width` and `inst`.
unfoldable pub wide_fields : ℕ → Decoded
wide_fields w = record {
  action = illegal;
  rd = field w 7 5;
  rs1 = field w 15 5;
  a = 0;
  b = 0;
  f3 = field w 12 3;
  f7 = 0;
  imm = 0;
  width = 4;
  inst = w;
}

-- `b` and `f7` of a register-immediate operation: a shift amount with a funct7, or an immediate.
unfoldable pub decode_opimm : State → ℕ → Decoded
unfolding wide_fields
decode_opimm s w =
    let d = wide_fields w in
    if d.f3 == 1 || d.f3 == 5
    then record d { action = alu; a = s.x d.rs1; b = field w 20 5; f7 = w / 2 ^ 25 }
    else record d { action = alu; a = s.x d.rs1; b = imm_i w }

unfoldable pub decode_op : State → ℕ → Decoded
unfolding wide_fields
decode_op s w =
    let d = wide_fields w in
    record d {
      action = if w / 2 ^ 25 == 1 then mul else alu;
      a = s.x d.rs1;
      b = s.x (field w 20 5);
      f7 = w / 2 ^ 25;
    }

-- FENCE and FENCE.I are nops.
unfoldable pub decode_miscmem : ℕ → Decoded
unfolding wide_fields
decode_miscmem w =
    let d = wide_fields w in
    if not (d.rd == 0) || (not (d.rs1 == 0) || (not (d.f3 == 0) && not (d.f3 == 1)))
    then d
    else record d { action = done }

-- `switch (w & 0x7f)`
unfoldable pub decode32 : State → ℕ → Decoded
unfolding wide_fields
decode32 s w =
    let d = wide_fields w in
    let op = field w 0 7 in
    let a = s.x d.rs1 in
    let b = s.x (field w 20 5) in
    if op == opcode_opimm
    then decode_opimm s w
    else if op == opcode_op
    then decode_op s w
    else if op == opcode_load
    then record d { action = load; a = a; imm = imm_i w }
    else if op == opcode_store
    then record d { action = store; a = a; b = b; imm = imm_s w }
    else if op == opcode_branch
    then record d { action = branch; a = a; b = b; imm = imm_b w }
    else if op == opcode_jal
    then record d { action = jal; imm = imm_j w }
    else if op == opcode_jalr
    then record d { action = jalr; a = a; imm = imm_i w }
    else if op == opcode_lui
    then record d { action = lui; imm = imm_u w }
    else if op == opcode_auipc
    then record d { action = auipc; imm = imm_u w }
    else if op == opcode_miscmem
    then decode_miscmem w
    else if op == opcode_system
    then record d { action = system; imm = field w 20 12 }
    else d
