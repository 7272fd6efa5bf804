-- ===== src/Purva/Transcode/Passes/Words.antt =====
-- How many op words an op takes: at most two, and at most one for a single instruction.
use purv.Base.{ℕ, ◌/◌, ◌^◌, ◌≤◌, ◌<◌, ◌≡◌, field, ◌/◌, ◌^◌, arith}
use purv.Engine.Memory.{read32}
use purv.Purva.Op
use purv.Purva.Transcode.{
  DecodedInst, decode, op_words, decode_word, drop_x0, decode_switch, opimm_case, op_op, load_op,
  store_op, branch_op, miscmem_op, system_op, word_fields,
}
use purv.Purva.Transcode.Passes.{lone_auipc}

pub op_words-le : (op : ℕ) → op_words op ≤ 2
unfolding op_words
op_words-le op = ground arith

-- A single instruction has one op word at most.
op_words-op_op : (f3 f7 : ℕ) → f3 < 8 → op_words (op_op f3 f7) ≤ 1
unfolding op_words op_op
op_words-op_op f3 f7 h = ground arith

op_words-load_op : (f3 : ℕ) → op_words (load_op f3) ≤ 1
unfolding op_words load_op
op_words-load_op f3 = ground arith

op_words-store_op : (f3 : ℕ) → op_words (store_op f3) ≤ 1
unfolding op_words store_op
op_words-store_op f3 = ground arith

op_words-branch_op : (f3 : ℕ) → op_words (branch_op f3) ≤ 1
unfolding op_words branch_op
op_words-branch_op f3 = ground arith

op_words-opimm_case : (w : ℕ) (d : DecodedInst) → op_words (opimm_case w d).op ≤ 1
unfolding op_words opimm_case
op_words-opimm_case w d = ground arith

op_words-miscmem_op : (w : ℕ) (d : DecodedInst) → op_words (miscmem_op w d) ≤ 1
unfolding op_words miscmem_op
op_words-miscmem_op w d = ground arith

op_words-system_op : (w : ℕ) (d : DecodedInst) → op_words (system_op w d) ≤ 1
unfolding op_words system_op
op_words-system_op w d = ground arith

op_words_literal :
    (op_words Op.illegal ≤ 1)
    × (op_words Op.jal ≤ 1)
    × (op_words Op.jalr ≤ 1)
    × (op_words Op.lui ≤ 1)
    × (op_words Op.auipc ≤ 1)
    × (op_words Op.memop ≤ 1)
    × (op_words Op.nop ≤ 1)
unfolding op_words
op_words_literal = omega arith

op_words-decode_switch : (w off : ℕ) → op_words (decode_switch w off).op ≤ 1
unfolding decode_switch word_fields
op_words-decode_switch w off = ground (
  arith,
  op_words-op_op (field w 12 3) (w / 2 ^ 25) (omega arith),
  op_words-load_op (field w 12 3),
  op_words-store_op (field w 12 3),
  op_words-branch_op (field w 12 3),
  op_words-opimm_case w (word_fields w),
  op_words-miscmem_op w (word_fields w),
  op_words-system_op w (word_fields w),
  op_words_literal,
)

pub op_words-decode : (code : ℕ → ℕ) (off : ℕ) → op_words (decode code off).op ≤ 1
unfolding decode decode_word drop_x0
op_words-decode code off =
    ground (arith, op_words-decode_switch (read32 code off) off, op_words_literal)

pub op_words-lone_auipc :
    (off : ℕ) (d : DecodedInst) → op_words d.op ≤ 1 → op_words (lone_auipc off d).op ≤ 1
unfolding op_words lone_auipc
op_words-lone_auipc off d h = ground arith

pub width-decode : (code : ℕ → ℕ) (off : ℕ) → (decode code off).width ≡ 4
unfolding decode decode_word drop_x0 decode_switch opimm_case word_fields
width-decode code off = ground arith
