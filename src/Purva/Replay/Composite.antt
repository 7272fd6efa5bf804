-- ===== src/Purva/Replay/Composite.antt =====
-- A fused pair against the interpreter on the two instructions.
use purv.Base.{
  ℕ, ◌^◌, ◌<◌, ◌≡◌, inl, inr, ap, ◌∙◌, sym, refl, Bool, true, false, ◌||◌, some, ◌==◌, Bool-cases,
  field, arith,
}
use purv.Engine.{State, MemOp, Handlers}
use purv.Engine.Decode.Fields.{imm_i, imm_s}
use purv.Engine.Decode.Wide.{decode32}
use purv.Engine.Exec.{Outcome, done, jump, out}
use purv.Engine.Exec.Bodies.{exec}
use purv.Purva.Op
use purv.Purva.Packed.{tc_imm}
use purv.Purva.Transcode.{
  DecodedInst, decode_word, decode_switch, drop_x0, word_fields, opimm_case, op_op,
}
use purv.Purva.Transcode.Emit.{first_word}
use purv.Purva.Transcode.Fuse.Pairs.{pair_op, is_load_bz}
use purv.Purva.Eval.Ops.{Effect, fall, reloc, leap, trapped, handler}
use purv.Purva.Replay.Fields.{HasRegs, tc_imm-shamt}
use purv.Purva.Replay.Parts.{as_effect, tc_imm-imm_i, tc_imm-imm_s}
use purv.Purva.Replay.Agree.{is_plain, is_defined, replay-exec}
use purv.Purva.Replay.Pairs.{IsDevice, HasImm}
use purv.Purva.Replay.Merged.{merge-pair_op}

-- The ops that pairs are made of, a branch apart.
abbrev pub is_half : ℕ → Bool
is_half op = op == Op.slli || (op == Op.add || (op == Op.lw || (op == Op.lbu || op == Op.sw)))

pub decode_word-HasRegs : (w off : ℕ) → HasRegs (decode_word w off)
unfolding decode_word drop_x0 decode_switch opimm_case word_fields
decode_word-HasRegs w off = ground arith

pub decode_word-HasImm :
    (w off : ℕ) → w < 2 ^ 32 → is_half (decode_word w off).op ≡ true → HasImm (decode_word w off)
unfolding decode_word drop_x0 decode_switch opimm_case op_op word_fields
decode_word-HasImm w off hw half =
    let load = tc_imm-imm_i (imm_i w) w hw refl in
    let store = tc_imm-imm_s (imm_s w) w hw refl in
    let shamt = tc_imm-shamt (field w 20 5) (field w 20 5) (omega arith) refl in
    let zero : tc_imm 0 ≡ 0 = unfold tc_imm in refl in ground (arith, load, store, shamt, zero)

decode_word-IsDefined : (w off : ℕ) → is_half (decode_word w off).op ≡ true → is_defined w ≡ true
unfolding decode_word drop_x0 decode_switch op_op
decode_word-IsDefined w off half = ground arith

-- A head that writes a register writes one that is not x0.
decode_word-visible :
    (w off : ℕ)
    → ((decode_word w off).op == Op.slli || (decode_word w off).op == Op.add) ≡ true
    → ((decode_word w off).rd == 0) ≡ false
unfolding decode_word drop_x0
decode_word-visible w off e = ground arith

-- The two halves of a pair.
halves :
    (a b d0 d : DecodedInst)
    → pair_op a b d0 ≡ some d
    → is_load_bz a b ≡ false
    → (is_half a.op ≡ true)
      × (is_half b.op ≡ true)
      × ((a.op == Op.slli || a.op == Op.add) ≡ false → (a.rd == 0) ≡ false)
unfolding pair_op
halves a b d0 d e no_branch = (ground arith, ground arith, λ k. ground arith)

is_half-IsPlain : (op : ℕ) → is_half op ≡ true → (is_plain op ≡ true) × ((op == Op.nop) ≡ false)
is_half-IsPlain op e = (ground arith, ground arith)

-- An outcome is known from its effect.
abbrev outcome_of : Effect → Outcome
outcome_of (fall n c s) = done s
outcome_of (reloc i c s) = done s
outcome_of (leap t c s) = jump t s
outcome_of (trapped s) = out s

outcome_of-as_effect : (o : Outcome) → outcome_of (as_effect o) ≡ o
outcome_of-as_effect (done s) = refl
outcome_of-as_effect (jump t s) = refl
outcome_of-as_effect (out s) = refl

pub as_effect-done : (o : Outcome) (s : State) → as_effect o ≡ fall 1 1 s → o ≡ done s
as_effect-done o s e = sym (outcome_of-as_effect o) ∙ ap outcome_of e

module _ (h : Handlers) (callback : State → MemOp → ℕ → ℕ → State × ℕ)
    (installed : h.callback ≡ some callback) where
  -- The interpreter on a half, from the handler of its op word.
  pub exec-half :
      (s : State) (w off pc idx w1 disp : ℕ) (s' : State)
      → ((p : ℕ) → s.host p < 256)
      → w < 2 ^ 32
      → is_half (decode_word w off).op ≡ true
      → handler callback s idx (first_word (decode_word w off) disp) w1 ≡ fall 1 1 s'
      → exec h s pc (decode32 s w) ≡ done s'
  exec-half s w off pc idx w1 disp s' bytes hw half e =
      let plain = is_half-IsPlain (decode_word w off).op half in
      as_effect-done (exec h s pc (decode32 s w)) s' (
        sym (
          replay-exec h callback installed s bytes pc idx w w1 off disp hw
            (decode_word-IsDefined w off half) plain.0)
        ∙ rw plain.1 e)

  -- Two instruction words that `pair_op` makes one op of, other than a load before a branch, in any
  -- state with bytes in memory, with a host callback that is a device: purv runs the first, and then the
  -- second, without a jump or a stop, and the handler that the fused op word selects goes one op word on
  -- and counts two instructions, with the state that purv ends in after both: registers, memory and the
  -- callback's effects. What the op `d0` held before does not matter.
  pub replay-pair_op :
      (s : State) (wa wb off off' pc pc' idx w1 disp : ℕ) (d0 d : DecodedInst)
      → IsDevice callback
      → ((p : ℕ) → s.host p < 256)
      → wa < 2 ^ 32
      → wb < 2 ^ 32
      → pair_op (decode_word wa off) (decode_word wb off') d0 ≡ some d
      → is_load_bz (decode_word wa off) (decode_word wb off') ≡ false
      → (s1 : State) × (s2 : State) × (exec h s pc (decode32 s wa) ≡ done s1)
        × (exec h s1 pc' (decode32 s1 wb) ≡ done s2)
        × (handler callback s idx (first_word d disp) w1 ≡ fall 1 2 s2)
  replay-pair_op s wa wb off off' pc pc' idx w1 disp d0 d device bytes ha hb e no_branch =
      let a = decode_word wa off in
      let b = decode_word wb off' in
      let (half_a, half_b, loaded) = halves a b d0 d e no_branch in
      let visible : (a.rd == 0) ≡ false = elim (Bool-cases (a.op == Op.slli || a.op == Op.add)) [
        | inl written ↦ decode_word-visible wa off written
        | inr other ↦ loaded other
      ] in
      let (s1, s2, kept, first, second, both) =
        merge-pair_op callback s bytes device a b d0 (decode_word-HasRegs wa off)
          (decode_word-HasRegs wb off') (decode_word-HasImm wa off ha half_a)
          (decode_word-HasImm wb off' hb half_b) visible d e no_branch in
      (
        s1,
        s2,
        exec-half s wa off pc idx w1 disp s1 bytes ha half_a (first idx w1 disp),
        exec-half s1 wb off' pc' idx w1 disp s2 kept hb half_b (second idx w1 disp),
        both idx w1 disp,
      )
