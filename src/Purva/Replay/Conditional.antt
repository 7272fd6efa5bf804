-- ===== src/Purva/Replay/Conditional.antt =====
-- A load that is fused with a branch on zero against the interpreter on the two instructions.
use purv.Base.{
  ℕ, ◌+◌, ◌/◌, ◌^◌, ◌<◌, ◌≡◌, ap, ◌∙◌, sym, Bool, true, false, ◌||◌, some, ◌==◌, if◌then◌else◌,
  field, add32, arith,
}
use purv.Engine.{State, MemOp, Handlers}
use purv.Engine.Decode.Fields.{imm_b}
use purv.Engine.Decode.Wide.{decode32}
use purv.Engine.Exec.{done, jump}
use purv.Engine.Exec.Bodies.{exec}
use purv.Purva.Op
use purv.Purva.Transcode.{
  DecodedInst, decode_word, decode_switch, drop_x0, word_fields, opimm_case, op_op, load_op,
  store_op, branch_op, miscmem_op, system_op,
}
use purv.Purva.Transcode.Opcodes.{decode_switch-branch}
use purv.Purva.Transcode.Emit.{target_word, Ops, emit}
use purv.Purva.Transcode.Fuse.Pairs.{pair_op, is_load_bz}
use purv.Purva.Eval.Ops.{fall, reloc, taken, handler}
use purv.Purva.Replay.Pairs.{IsDevice}
use purv.Purva.Replay.Branches.{branch_dec, decode_word-branch, exec-branch, branch_op-IsBranch}
use purv.Purva.Replay.Composite.{is_half, decode_word-HasRegs, decode_word-HasImm, exec-half}
use purv.Purva.Replay.LoadBranch.{merge-load_bz}

abbrev is_zero_branch : ℕ → Bool
is_zero_branch op = op == Op.beq || op == Op.bne

-- No other case of the decoder makes these.
opimm_case-other : (w : ℕ) (d : DecodedInst) → is_zero_branch (opimm_case w d).op ≡ false
unfolding opimm_case
opimm_case-other w d = ground arith

op_op-other : (f3 f7 : ℕ) → f3 < 8 → is_zero_branch (op_op f3 f7) ≡ false
unfolding op_op
op_op-other f3 f7 h = ground arith

access_other :
    (f3 : ℕ) → (is_zero_branch (load_op f3) ≡ false) × (is_zero_branch (store_op f3) ≡ false)
unfolding load_op store_op
access_other f3 = (ground arith, ground arith)

rest_other :
    (w : ℕ) (d : DecodedInst)
    → (is_zero_branch (miscmem_op w d) ≡ false) × (is_zero_branch (system_op w d) ≡ false)
unfolding miscmem_op system_op
rest_other w d = (ground arith, ground arith)

branch_op-legal :
    (f3 : ℕ) → is_zero_branch (branch_op f3) ≡ true → (branch_op f3 == Op.illegal) ≡ false
branch_op-legal f3 e = ground arith

decode_switch-kept :
    (w off : ℕ)
    → is_zero_branch (decode_word w off).op ≡ true
    → is_zero_branch (decode_switch w off).op ≡ true
unfolding decode_word drop_x0
decode_switch-kept w off e = ground arith

branch_opcode : (w off : ℕ) → is_zero_branch (decode_switch w off).op ≡ true → field w 0 7 ≡ 0x63
unfolding decode_switch word_fields
branch_opcode w off e =
    let low : field w 12 3 < 8 = omega arith in
    let op = op_op-other (field w 12 3) (w / 2 ^ 25) low in
    let access = access_other (field w 12 3) in
    let rest = rest_other w (word_fields w) in
    let imm = opimm_case-other w (word_fields w) in
    ground (arith, op, access.0, access.1, rest.0, rest.1, imm)

-- The instruction words that the transcoder makes `beq` and `bne` of.
branch_word :
    (w off : ℕ)
    → is_zero_branch (decode_word w off).op ≡ true
    → (field w 0 7 ≡ 0x63) × ((branch_op (field w 12 3) == Op.illegal) ≡ false)
branch_word w off e =
    let e' = decode_switch-kept w off e in
    let opcode = branch_opcode w off e' in
    let own = ap (λ (d : DecodedInst). is_zero_branch d.op) (decode_switch-branch w off opcode) in
    (opcode, branch_op-legal (field w 12 3) (sym own ∙ e'))

module _ (h : Handlers) (callback : State → MemOp → ℕ → ℕ → State × ℕ)
    (installed : h.callback ≡ some callback) where
  -- An instruction word `wa` before a branch `wb` at the address `off`, of which `pair_op` makes the op
  -- of a load with a branch on zero, in any state with bytes in memory and 0 in x0, with a host callback
  -- that is a device; `emit` writes the two op words of `d` at an op index below 2 ^ 29, and the map has
  -- the target of the branch there too. Then purv runs the load, and the branch either jumps or falls
  -- through, and the handler of the fused op does the same with the state that purv ends in: it jumps to
  -- the op index of the address to which purv goes, or goes two op words on, with two instructions
  -- counted. What the op `d0` held before does not matter.
  pub replay-load_bz :
      (s : State) (wa wb off off' pc : ℕ) (o : Ops) (map : ℕ → ℕ) (len : ℕ) (d0 d : DecodedInst)
      → IsDevice callback
      → ((p : ℕ) → s.host p < 256)
      → s.x 0 ≡ 0
      → wa < 2 ^ 32
      → pair_op (decode_word wa off') (decode_word wb off) d0 ≡ some d
      → is_load_bz (decode_word wa off') (decode_word wb off) ≡ true
      → o.at < 2 ^ 29
      → target_word map len (add32 off (imm_b wb)) o.at < 2 ^ 29
      → (s1 : State) × (take : Bool) × (exec h s pc (decode32 s wa) ≡ done s1)
        × (exec h s1 off (decode32 s1 wb)
            ≡ (if take then jump (add32 off (imm_b wb)) s1 else done s1))
        × (handler callback s o.at ((emit o d map len).ops o.at) ((emit o d map len).ops (o.at + 1))
            ≡ (if take
                then reloc (target_word map len (add32 off (imm_b wb)) o.at) 2 s1
                else fall 2 2 s1))
  unfolding word_fields
  replay-load_bz s wa wb off off' pc o map len d0 d device bytes ez hw e fused ha hg =
      let a = decode_word wa off' in
      let half : is_half a.op ≡ true = ground arith in
      let (opcode, legal) = branch_word wb off (ground arith) in
      let b_is = decode_word-branch wb off opcode (branch_op-IsBranch (field wb 12 3) legal) in
      let (s1, load, both) =
        merge-load_bz callback s a (branch_dec wb off) d0 d (decode_word-HasRegs wa off')
          (decode_word-HasImm wa off' hw half)
          (sym (ap (λ (b : DecodedInst). pair_op a b d0) b_is) ∙ e)
          (sym (ap (is_load_bz a) b_is) ∙ fused) o map len 0 0 0 device ez ha hg in
      (
        s1,
        taken (branch_op (field wb 12 3)) (s1.x (field wb 15 5)) (s1.x (field wb 20 5)),
        exec-half h callback installed s wa off' pc 0 0 0 s1 bytes hw half load,
        exec-branch h s1 wb off opcode legal,
        both,
      )
