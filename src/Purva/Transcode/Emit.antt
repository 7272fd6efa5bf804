-- ===== src/Purva/Transcode/Emit.antt =====
-- emu/purva/transcode.c, `emit`: the op words of one unit.
use purv.Base.{
  ℕ, ◌*◌, ◌/◌, ◌%◌, ◌^◌, bit_or, ◌&&◌, ◌||◌, leb, ◌==◌, if◌then◌else◌, add32, sub32, u32, ◌<<<◌,
}
use purv.Engine.{update}
use purv.Purva.Op
use purv.Purva.Transcode.{DecodedInst}

-- `TC_SENTINEL`
abbrev pub tc_sentinel : ℕ
tc_sentinel = 0xffff_ffff

-- A branch or jump target to its op-word offset.
unfoldable pub target_word : (ℕ → ℕ) → ℕ → ℕ → ℕ → ℕ
target_word map len target at =
    let tw = map (target / 2) in if leb len target then at else if tw == tc_sentinel then at else tw

-- `(uint32_t)(delta * 4)`
unfoldable pub displacement : (ℕ → ℕ) → ℕ → ℕ → ℕ → ℕ
displacement map len target at = u32 (sub32 (target_word map len target at) at * 4)

-- `op << 26 | a << 21`, with two registers, and with three.
abbrev pub pack_a : ℕ → ℕ → ℕ
pack_a op a = bit_or (op <<< 26) (a <<< 21)

abbrev pub pack_ab : ℕ → ℕ → ℕ → ℕ
pack_ab op a b = bit_or (pack_a op a) (b <<< 16)

abbrev pub pack_abc : ℕ → ℕ → ℕ → ℕ → ℕ
pack_abc op a b c = bit_or (pack_ab op a b) (c <<< 11)

-- The first op word, `disp` the displacement if there is one.
unfoldable pub first_word : DecodedInst → ℕ → ℕ
first_word d disp =
    let op = d.op in
    if leb op Op.sra || leb Op.mul op && leb op Op.remu
    then pack_abc op d.rd d.rs1 d.rs2
    else if leb Op.addi op && leb op Op.srai
    then bit_or (pack_ab op d.rd d.rs1) (d.imm % 2 ^ 16)
    else if leb Op.lb op && leb op Op.lhu
    then bit_or (pack_ab op d.rd d.rs1) (d.imm % 2 ^ 16)
    else if leb Op.sb op && leb op Op.sw
    then bit_or (pack_ab op d.rs2 d.rs1) (d.imm % 2 ^ 16)
    else if op == Op.prologue || op == Op.epilogue
    then bit_or (op <<< 26) (d.imm % 2 ^ 26)
    else if op == Op.li_lo || op == Op.li_hi
    then bit_or (pack_a op d.rd) (d.imm % 2 ^ 21)
    else if op == Op.shadd
    then bit_or (pack_abc op d.rd d.rs1 d.rs2) ((d.imm % 2 ^ 5) <<< 6)
    else if op == Op.lwx
    then bit_or (pack_abc op d.rd d.rs1 d.rs2) (d.imm % 2 ^ 11)
    else if op == Op.lwsw
    then bit_or (pack_abc op d.rd d.rs1 d.rs2) (d.imm % 2 ^ 11)
    else if op == Op.memop
    then bit_or (pack_abc op d.rd d.rs1 d.rs2) (d.imm % 2 ^ 3)
    else if op == Op.lwlw || op == Op.vcall
    then bit_or (pack_ab op d.rd d.rs1) (d.imm % 2 ^ 16)
    else if op == Op.lw_bz || op == Op.lbu_bz
    then bit_or (pack_ab op d.rd d.rs1) (d.imm % 2 ^ 16)
    else if leb Op.beq op && leb op Op.bgeu
    then bit_or (pack_ab op d.rs1 d.rs2) (disp % 2 ^ 16)
    else if op == Op.jal
    then bit_or (pack_a op d.rd) (disp % 2 ^ 21)
    else if op == Op.jalr
    then bit_or (pack_ab op d.rd d.rs1) (d.imm % 2 ^ 16)
    else if op == Op.lui || op == Op.auipc
    then bit_or (pack_a op d.rd) (d.imm % 2 ^ 20)
    else op <<< 26

-- The op words so far, and the next offset.
pub record Ops : Type 0 where
  pub ops : ℕ → ℕ
  pub at : ℕ

-- `ops[at++] = w`
abbrev pub push_word : Ops → ℕ → Ops
push_word o w = record { ops = update o.ops o.at w; at = add32 o.at 1 }

unfoldable pub emit : Ops → DecodedInst → (ℕ → ℕ) → ℕ → Ops
emit o d map len =
    let disp = displacement map len d.target o.at in
    let first = push_word o (first_word d disp) in
    if d.op == Op.nop
    then o
    else if d.op == Op.lw_bz || d.op == Op.lbu_bz
    then push_word first (bit_or disp (d.rs2 % 2))
    else first
