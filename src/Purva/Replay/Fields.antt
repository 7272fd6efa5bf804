-- ===== src/Purva/Replay/Fields.antt =====
-- The op word that a decoded instruction becomes, class by class, and the handler that it selects.
use purv.Base.{ℕ, ◌%◌, ◌^◌, ◌<◌, ◌≡◌, Bool, true, false, ◌&&◌, ◌||◌, leb, ◌==◌, u32, ◌<<<◌, arith}
use purv.Engine.{State, MemOp}
use purv.Engine.Decode.Encode.{sign_extend}
use purv.Bulk.{set_x}
use purv.Purva.Op
use purv.Purva.Packed.{tc_op, tc_a, tc_b, tc_c, tc_imm, tc_uimm}
use purv.Purva.Transcode.{DecodedInst}
use purv.Purva.Transcode.Emit.{first_word}
use purv.Purva.Eval.Memory.{load_reg, store_reg}
use purv.Purva.Eval.Ops.{fall, reg_reg, reg_imm, handler, h_branch}
use purv.Purva.Replay.Words.{tc-pack_a, tc-pack_ab, tc-pack_abc}

-- The classes of ops that have one shape of word.
abbrev pub is_reg_reg : ℕ → Bool
is_reg_reg op = leb op Op.sra || leb Op.mul op && leb op Op.remu

abbrev pub is_reg_imm : ℕ → Bool
is_reg_imm op = leb Op.addi op && leb op Op.srai

abbrev pub is_load : ℕ → Bool
is_load op = leb Op.lb op && leb op Op.lhu

abbrev pub is_store : ℕ → Bool
is_store op = leb Op.sb op && leb op Op.sw

abbrev pub is_branch : ℕ → Bool
is_branch op = leb Op.beq op && leb op Op.bgeu

-- The registers of a decoded instruction are numbers of registers.
abbrev pub HasRegs : DecodedInst → Type 0
HasRegs d = (d.rd < 2 ^ 5) × (d.rs1 < 2 ^ 5) × (d.rs2 < 2 ^ 5)

-- A word whose op, first and second register are these, with `i` in the low 16 bits.
abbrev pub Packs : ℕ → ℕ → ℕ → ℕ → ℕ → Type 0
Packs w op a b i = (tc_op w ≡ op) × (tc_a w ≡ a) × (tc_b w ≡ b) × (w % 2 ^ 16 ≡ i)

-- A branch is none of the fused ops that `emit` tests for first.
fused_tests :
    (op : ℕ)
    → is_branch op ≡ true
    → ((op == Op.prologue || op == Op.epilogue) ≡ false)
      × ((op == Op.li_lo || op == Op.li_hi) ≡ false)
      × ((op == Op.shadd) ≡ false)
      × ((op == Op.lwx) ≡ false)
      × ((op == Op.lwsw) ≡ false)
      × ((op == Op.memop) ≡ false)
      × ((op == Op.lwlw || op == Op.vcall) ≡ false)
      × ((op == Op.lw_bz || op == Op.lbu_bz) ≡ false)
fused_tests op e = ground arith

module _ (d : DecodedInst) (disp : ℕ) (regs : HasRegs d) where
  pub first_word-reg_reg :
      is_reg_reg d.op ≡ true
      → (tc_op (first_word d disp) ≡ d.op)
        × (tc_a (first_word d disp) ≡ d.rd)
        × (tc_b (first_word d disp) ≡ d.rs1)
        × (tc_c (first_word d disp) ≡ d.rs2)
  unfolding first_word
  first_word-reg_reg e = rw e (tc-pack_abc d.op d.rd (regs.0) d.rs1 (regs.1) d.rs2 (regs.2))

  pub first_word-reg_imm :
      is_reg_imm d.op ≡ true → Packs (first_word d disp) d.op d.rd d.rs1 (d.imm % 2 ^ 16)
  unfolding first_word
  first_word-reg_imm e =
      let f : is_reg_reg d.op ≡ false = ground arith in
      rw (f, e) (tc-pack_ab d.op d.rd (regs.0) d.rs1 (regs.1) (d.imm % 2 ^ 16) (omega arith))

  pub first_word-load :
      is_load d.op ≡ true → Packs (first_word d disp) d.op d.rd d.rs1 (d.imm % 2 ^ 16)
  unfolding first_word
  first_word-load e =
      let f : is_reg_reg d.op ≡ false = ground arith in
      let g : is_reg_imm d.op ≡ false = ground arith in
      rw (f, g, e) (tc-pack_ab d.op d.rd (regs.0) d.rs1 (regs.1) (d.imm % 2 ^ 16) (omega arith))

  pub first_word-store :
      is_store d.op ≡ true → Packs (first_word d disp) d.op d.rs2 d.rs1 (d.imm % 2 ^ 16)
  unfolding first_word
  first_word-store e =
      let f : is_reg_reg d.op ≡ false = ground arith in
      let g : is_reg_imm d.op ≡ false = ground arith in
      let k : is_load d.op ≡ false = ground arith in
      rw (f, g, k, e) (tc-pack_ab d.op d.rs2 (regs.2) d.rs1 (regs.1) (d.imm % 2 ^ 16) (omega arith))

  pub first_word-branch :
      is_branch d.op ≡ true → Packs (first_word d disp) d.op d.rs1 d.rs2 (disp % 2 ^ 16)
  unfolding first_word
  first_word-branch e =
      let f : is_reg_reg d.op ≡ false = ground arith in
      let g : is_reg_imm d.op ≡ false = ground arith in
      let k : is_load d.op ≡ false = ground arith in
      let l : is_store d.op ≡ false = ground arith in
      let others = fused_tests d.op e in
      rw
        (
          f, g, k, l, others.0, others.1, others.2, others.3, others.4, others.5, others.6,
          others.7, e,
        )
        (tc-pack_ab d.op d.rs1 (regs.1) d.rs2 (regs.2) (disp % 2 ^ 16) (omega arith))

  pub first_word-lui :
      d.op ≡ Op.lui
      → (tc_op (first_word d disp) ≡ Op.lui)
        × (tc_a (first_word d disp) ≡ d.rd)
        × (first_word d disp % 2 ^ 21 ≡ d.imm % 2 ^ 20)
  unfolding first_word
  first_word-lui e = rw e (tc-pack_a Op.lui d.rd (regs.0) (d.imm % 2 ^ 20) (omega arith))

-- The immediate that a handler reads: 16 bits hold a sign-extended 12-bit immediate, and a shift
-- amount.
pub tc_imm-sign_extend :
    (w i : ℕ) → i < 2 ^ 12 → w % 2 ^ 16 ≡ sign_extend 12 i % 2 ^ 16 → tc_imm w ≡ sign_extend 12 i
unfolding tc_imm
tc_imm-sign_extend w i h e = ground arith

pub tc_imm-shamt : (w i : ℕ) → i < 2 ^ 5 → w % 2 ^ 16 ≡ i % 2 ^ 16 → tc_imm w ≡ i
unfolding tc_imm
tc_imm-shamt w i h e = ground arith

-- The row of the table that the op selects.
module _ (callback : State → MemOp → ℕ → ℕ → State × ℕ) (s : State) (idx w w1 : ℕ) where
  pub handler-reg_reg :
      is_reg_reg (tc_op w) ≡ true
      → handler callback s idx w w1
        ≡ fall 1 1 (set_x s (tc_a w) (reg_reg (tc_op w) (s.x (tc_b w)) (s.x (tc_c w))))
  unfolding handler
  handler-reg_reg e = rw e

  pub handler-reg_imm :
      is_reg_imm (tc_op w) ≡ true
      → handler callback s idx w w1
        ≡ fall 1 1 (set_x s (tc_a w) (reg_imm (tc_op w) (s.x (tc_b w)) (tc_imm w)))
  unfolding handler
  handler-reg_imm e = let f : is_reg_reg (tc_op w) ≡ false = ground arith in rw (f, e)

  pub handler-load :
      is_load (tc_op w) ≡ true
      → handler callback s idx w w1 ≡ fall 1 1 (load_reg callback s (tc_op w) w)
  unfolding handler
  handler-load e =
      let f : is_reg_reg (tc_op w) ≡ false = ground arith in
      let g : is_reg_imm (tc_op w) ≡ false = ground arith in rw (f, g, e)

  pub handler-store :
      is_store (tc_op w) ≡ true
      → handler callback s idx w w1 ≡ fall 1 1 (store_reg callback s (tc_op w) w)
  unfolding handler
  handler-store e =
      let f : is_reg_reg (tc_op w) ≡ false = ground arith in
      let g : is_reg_imm (tc_op w) ≡ false = ground arith in
      let k : is_load (tc_op w) ≡ false = ground arith in rw (f, g, k, e)

  pub handler-branch : is_branch (tc_op w) ≡ true → handler callback s idx w w1 ≡ h_branch s idx w
  unfolding handler
  handler-branch e =
      let f : is_reg_reg (tc_op w) ≡ false = ground arith in
      let g : is_reg_imm (tc_op w) ≡ false = ground arith in
      let k : is_load (tc_op w) ≡ false = ground arith in
      let l : is_store (tc_op w) ≡ false = ground arith in rw (f, g, k, l, e)

  pub handler-lui :
      tc_op w ≡ Op.lui
      → handler callback s idx w w1 ≡ fall 1 1 (set_x s (tc_a w) (u32 (tc_uimm w <<< 12)))
  unfolding handler
  handler-lui e = rw e
