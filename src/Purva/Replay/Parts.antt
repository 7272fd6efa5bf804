-- ===== src/Purva/Replay/Parts.antt =====
-- Where the two engines take an instruction apart differently: the op that stands for opcode and
-- funct3, the write to x0, and the immediate of the op word.
use purv.Base.{
  ℕ, ◌+◌, ◌*◌, ◌/◌, ◌%◌, ◌^◌, ◌<◌, ◌≡◌, ap, ◌∙◌, sym, refl, Bool, true, false, not, ◌||◌, ◌==◌,
  if◌then◌else◌, field, arith,
}
use purv.Engine.{MemOp, State, wr}
use purv.Engine.Decode.Fields.{imm_i, imm_s}
use purv.Engine.Decode.Words.{imm_i_sign, imm_s_sign}
use purv.Engine.Exec.{Outcome, done, jump, out}
use purv.Engine.Exec.Arith.{alu_result, mul_result}
use purv.Bulk.{set_x}
use purv.Purva.Op
use purv.Purva.Packed.{tc_imm}
use purv.Purva.Transcode.{DecodedInst, word_fields, op_op, opimm_case, load_op, store_op}
use purv.Purva.Transcode.Emit.{first_word}
use purv.Purva.Eval.Ops.{handler, Effect, fall, leap, trapped, reg_reg}
use purv.Purva.Replay.Values.{reg_reg-mul, reg_reg-alu, reg_reg-sub, reg_reg-sra}
use purv.Purva.Replay.Fields.{is_reg_reg, HasRegs, is_load, is_store, tc_imm-sign_extend}

-- What an outcome of the interpreter is for the evaluator.
abbrev pub as_effect : Outcome → Effect
as_effect (done s) = fall 1 1 s
as_effect (jump pc s) = leap pc 1 s
as_effect (out s) = trapped s

-- Not `funct7 == 0x20` where the ISA reserves it.
abbrev pub is_standard : ℕ → ℕ → Bool
is_standard f3 f7 = not (f7 == 0x20) || (f3 == 0 || f3 == 5)

pub op_op-IsRegReg : (f3 f7 : ℕ) → f3 < 8 → is_reg_reg (op_op f3 f7) ≡ true
unfolding op_op
op_op-IsRegReg f3 f7 h = ground arith

abbrev pub op_value : ℕ → ℕ → ℕ → ℕ → ℕ
op_value f3 f7 a b = if f7 == 1 then mul_result f3 a b else alu_result f3 f7 a b

pub reg_reg-op_op :
    (f3 f7 a b : ℕ)
    → f3 < 8
    → is_standard f3 f7 ≡ true
    → reg_reg (op_op f3 f7) a b ≡ op_value f3 f7 a b
unfolding op_op
reg_reg-op_op f3 f7 a b h e =
    ground (arith, reg_reg-mul f3 a b, reg_reg-alu f3 f7 a b, reg_reg-sub a b, reg_reg-sra a b)

pub wr_zero : (s : State) (i v : ℕ) → (i == 0) ≡ true → wr s i v ≡ s
unfolding wr
wr_zero s i v e = rw e

pub wr-set_x : (s : State) (i v : ℕ) → (i == 0) ≡ false → wr s i v ≡ set_x s i v
unfolding wr
wr-set_x s i v e = rw e

pub not_nop : (op : ℕ) → op < Op.nop → (op == Op.nop) ≡ false
not_nop op h = ground arith

pub word_fields-HasRegs : (w : ℕ) → HasRegs (word_fields w)
unfolding word_fields
word_fields-HasRegs w = (omega arith, omega arith, omega arith)

pub opimm_case-left :
    (w : ℕ) (d : DecodedInst)
    → (field w 12 3 == 1) ≡ true
    → opimm_case w d ≡ record d { op = Op.slli; imm = field w 20 5 }
unfolding opimm_case
opimm_case-left w d e = rw e

pub opimm_case-right :
    (w : ℕ) (d : DecodedInst)
    → (field w 12 3 == 5) ≡ true
    → opimm_case w d
      ≡ record d { op = if w / 2 ^ 25 == 0x20 then Op.srai else Op.srli; imm = field w 20 5 }
unfolding opimm_case
opimm_case-right w d e = ground arith

pub opimm_case-imm :
    (w : ℕ) (d : DecodedInst)
    → (field w 12 3 == 1) ≡ false
    → (field w 12 3 == 5) ≡ false
    → opimm_case w d ≡ record d { op = Op.addi + field w 12 3; imm = imm_i w }
unfolding opimm_case
opimm_case-imm w d e f = rw (e, f)

pub load_op-IsLoad : (f3 : ℕ) → (load_op f3 == Op.illegal) ≡ false → is_load (load_op f3) ≡ true
unfolding load_op
load_op-IsLoad f3 e = ground arith

pub store_op-IsStore :
    (f3 : ℕ) → (store_op f3 == Op.illegal) ≡ false → is_store (store_op f3) ≡ true
unfolding store_op
store_op-IsStore f3 e = ground arith

-- The immediates come through the 16 bits of the op word.
pub tc_imm-imm_i : (v w : ℕ) → w < 2 ^ 32 → v % 2 ^ 16 ≡ imm_i w % 2 ^ 16 → tc_imm v ≡ imm_i w
tc_imm-imm_i v w hw e =
    let i = w / 2 ^ 20 in
    let sign = imm_i_sign w i hw refl in
    tc_imm-sign_extend v i (omega arith) (e ∙ ap (λ (t : ℕ). t % 2 ^ 16) sign) ∙ sym sign

pub tc_imm-imm_s : (v w : ℕ) → w < 2 ^ 32 → v % 2 ^ 16 ≡ imm_s w % 2 ^ 16 → tc_imm v ≡ imm_s w
tc_imm-imm_s v w hw e =
    let i = w / 2 ^ 25 * 2 ^ 5 + w / 2 ^ 7 % 2 ^ 5 in
    let sign = imm_s_sign w i hw refl in
    tc_imm-sign_extend v i (omega arith) (e ∙ ap (λ (t : ℕ). t % 2 ^ 16) sign) ∙ sym sign

-- What the evaluator does for a decoded instruction: one that is dropped has no op.
abbrev pub replay : (State → MemOp → ℕ → ℕ → State × ℕ) → State → ℕ → ℕ → ℕ → DecodedInst → Effect
replay callback s idx w1 disp d =
    if d.op == Op.nop then fall 1 1 s else handler callback s idx (first_word d disp) w1
