-- ===== src/Purva/Replay/Branches.antt =====
-- Branches: the two engines take the same ones, and go to the same instruction.
use purv.Base.{
  ℕ, ◌+◌, ◌*◌, ◌%◌, ◌^◌, ◌≤◌, ◌<◌, ◌≡◌, ap, ◌∙◌, refl, Bool, true, false, ◌==◌, if◌then◌else◌,
  field, add32, sub32, u32, arith,
}
use purv.Engine.{State, MemOp, Handlers}
use purv.Engine.Decode.Fields.{imm_b}
use purv.Engine.Decode.Wide.{decode32, wide_fields}
use purv.Engine.Decode.Words.{decode32_branch}
use purv.Engine.Exec.{done, jump}
use purv.Engine.Exec.Bodies.{exec, exec_branch}
use purv.Purva.Op
use purv.Purva.Packed.{tc_op, tc_a, tc_b, tc_imm}
use purv.Purva.Transcode.{DecodedInst, word_fields, branch_op, decode_word, drop_x0}
use purv.Purva.Transcode.Opcodes.{decode_switch-branch}
use purv.Purva.Transcode.Emit.{first_word, displacement, target_word}
use purv.Purva.Eval.Ops.{fall, reloc, taken, relocated, handler, h_branch}
use purv.Purva.Replay.Values.{taken-branch}
use purv.Purva.Replay.Fields.{is_branch, handler-branch, first_word-branch}
use purv.Purva.Replay.Parts.{word_fields-HasRegs}

-- The 16-bit displacement, read back and added to the cursor, is the op index it was made for, if that
-- is less than 8192 op words away.
pub relocated-displacement :
    (w at goal : ℕ)
    → at < 2 ^ 30
    → goal < 2 ^ 30
    → goal < at + 2 ^ 13
    → at ≤ goal + 2 ^ 13
    → w % 2 ^ 16 ≡ u32 (sub32 goal at * 4) % 2 ^ 16
    → relocated at (tc_imm w) ≡ goal
unfolding relocated tc_imm
relocated-displacement w at goal ha hg up down e = ground arith

pub branch_op-IsBranch :
    (f3 : ℕ) → (branch_op f3 == Op.illegal) ≡ false → is_branch (branch_op f3) ≡ true
unfolding branch_op
branch_op-IsBranch f3 e = ground arith

-- A branch as the transcoder decodes it.
abbrev pub branch_dec : ℕ → ℕ → DecodedInst
branch_dec w off = record (word_fields w) {
  op = branch_op (field w 12 3);
  target = add32 off (imm_b w);
}

pub decode_word-branch :
    (w off : ℕ)
    → field w 0 7 ≡ 0x63
    → is_branch (branch_op (field w 12 3)) ≡ true
    → decode_word w off ≡ branch_dec w off
unfolding decode_word drop_x0
decode_word-branch w off e in_range = rw (decode_switch-branch w off e) (ground arith)

pub exec-branch :
    (h : Handlers) (s : State) (w off : ℕ)
    → field w 0 7 ≡ 0x63
    → (branch_op (field w 12 3) == Op.illegal) ≡ false
    → exec h s off (decode32 s w) ≡ (
        if taken (branch_op (field w 12 3)) (s.x (field w 15 5)) (s.x (field w 20 5))
        then jump (add32 off (imm_b w)) s
        else done s)
unfolding exec exec_branch wide_fields
exec-branch h s w off e legal =
    ap (exec h s off) (decode32_branch s w e)
    ∙ ground (arith, taken-branch (field w 12 3) (s.x (field w 15 5)) (s.x (field w 20 5)) legal)

-- A branch handler at a word of these fields.
h_branch-Packs :
    (s : State) (at w op a b goal : ℕ)
    → tc_op w ≡ op
    → tc_a w ≡ a
    → tc_b w ≡ b
    → relocated at (tc_imm w) ≡ goal
    → h_branch s at w ≡ (if taken op (s.x a) (s.x b) then reloc goal 1 s else fall 1 1 s)
unfolding h_branch
h_branch-Packs s at w op a b goal e0 e1 e2 e3 = rw (e0, e1, e2, e3)

module _ (h : Handlers) (callback : State → MemOp → ℕ → ℕ → State × ℕ) (s : State)
    (w w1 off at len : ℕ) (map : ℕ → ℕ) where
  -- A branch instruction `w` at the address `off` whose op word stands at the index `at`, with a target
  -- that the map sends less than 8192 op words away: the handler jumps in exactly the states in which
  -- purv's body jumps, and then to the op index of the address to which that one goes; else both fall
  -- through. Neither changes registers or memory.
  pub replay-branch :
      field w 0 7 ≡ 0x63
      → (branch_op (field w 12 3) == Op.illegal) ≡ false
      → at < 2 ^ 30
      → target_word map len (add32 off (imm_b w)) at < 2 ^ 30
      → target_word map len (add32 off (imm_b w)) at < at + 2 ^ 13
      → at ≤ target_word map len (add32 off (imm_b w)) at + 2 ^ 13
      → (take : Bool) × (handler callback s at
            (first_word (decode_word w off) (displacement map len (decode_word w off).target at))
            w1
          ≡ (if take then reloc (target_word map len (add32 off (imm_b w)) at) 1 s else fall 1 1 s))
        × (exec h s off (decode32 s w) ≡ (if take then jump (add32 off (imm_b w)) s else done s))
  replay-branch e legal ha hg up down =
      let op = branch_op (field w 12 3) in
      let in_range = branch_op-IsBranch (field w 12 3) legal in
      let d = branch_dec w off in
      let goal = target_word map len (add32 off (imm_b w)) at in
      let disp = displacement map len (add32 off (imm_b w)) at in
      let word = first_word d disp in
      let fs = first_word-branch d disp (word_fields-HasRegs w) in_range in
      let low : word % 2 ^ 16 ≡ u32 (sub32 goal at * 4) % 2 ^ 16 =
        fs.3 ∙ unfold displacement in refl in
      let there = relocated-displacement word at goal ha hg up down low in
      let rs1 : d.rs1 ≡ field w 15 5 = unfold word_fields in refl in
      let rs2 : d.rs2 ≡ field w 20 5 = unfold word_fields in refl in
      let a = field w 15 5 in
      let b = field w 20 5 in
      (
        taken op (s.x a) (s.x b),
        rw (decode_word-branch w off e in_range) (
            handler-branch callback s at word w1 (ap is_branch fs.0 ∙ in_range)
            ∙ h_branch-Packs s at word op a b goal fs.0 (fs.1 ∙ rs1) (fs.2 ∙ rs2) there),
        exec-branch h s w off e legal,
      )
