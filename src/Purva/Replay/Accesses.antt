-- ===== src/Purva/Replay/Accesses.antt =====
-- Loads and stores: decoded, packed and run by the evaluator, or interpreted.
use purv.Base.{
  ℕ, ◌%◌, ◌^◌, ◌<◌, ◌≡◌, ap, ◌∙◌, sym, true, false, ◌&&◌, some, leb, ◌==◌, field, arith,
}
use purv.Engine.{State, MemOp, Handlers}
use purv.Engine.Decode.{load, store}
use purv.Engine.Decode.Fields.{imm_i, imm_s}
use purv.Engine.Decode.Wide.{decode32, wide_fields}
use purv.Engine.Decode.Words.{decode32_load, decode32_store}
use purv.Engine.Exec.{done}
use purv.Engine.Exec.Bodies.{exec}
use purv.Purva.Op
use purv.Purva.Packed.{tc_a, tc_b}
use purv.Purva.Transcode.{DecodedInst, word_fields, load_op, store_op, drop_x0, decode_word}
use purv.Purva.Transcode.Opcodes.{decode_switch-load, decode_switch-store}
use purv.Purva.Transcode.Emit.{first_word}
use purv.Purva.Eval.Memory.{load_reg, store_reg}
use purv.Purva.Replay.Regions.{exec_load-lem, exec_store-lem}
use purv.Purva.Replay.Fields.{
  first_word-load, first_word-store, handler-load, handler-store, is_load, is_store,
}
use purv.Purva.Replay.Parts.{
  replay, as_effect, not_nop, word_fields-HasRegs, load_op-IsLoad, store_op-IsStore, tc_imm-imm_i,
  tc_imm-imm_s,
}

module _ (h : Handlers) (callback : State → MemOp → ℕ → ℕ → State × ℕ)
    (installed : h.callback ≡ some callback) (s : State) (bytes : (p : ℕ) → s.host p < 256)
    (pc idx w w1 off disp : ℕ) where
  -- The interpreter's load at the operands that the op word `word` brings through.
  pub exec_load_word :
      (word : ℕ)
      → w < 2 ^ 32
      → field w 0 7 ≡ 0x03
      → tc_a word ≡ field w 7 5
      → tc_b word ≡ field w 15 5
      → word % 2 ^ 16 ≡ imm_i w % 2 ^ 16
      → (load_op (field w 12 3) == Op.illegal) ≡ false
      → exec h s pc (decode32 s w) ≡ done (load_reg callback s (load_op (field w 12 3)) word)
  unfolding exec wide_fields
  exec_load_word word hw e ea eb ei legal =
      ap (exec h s pc) (decode32_load s w e)
      ∙ exec_load-lem h callback installed s pc word
          (record (wide_fields w) { action = load; a = s.x (field w 15 5); imm = imm_i w })
          (ap s.x (sym eb)) (sym (tc_imm-imm_i word w hw ei)) bytes (sym ea) legal

  pub exec_store_word :
      (word : ℕ)
      → w < 2 ^ 32
      → field w 0 7 ≡ 0x23
      → tc_a word ≡ field w 20 5
      → tc_b word ≡ field w 15 5
      → word % 2 ^ 16 ≡ imm_s w % 2 ^ 16
      → (store_op (field w 12 3) == Op.illegal) ≡ false
      → exec h s pc (decode32 s w) ≡ done (store_reg callback s (store_op (field w 12 3)) word)
  unfolding exec wide_fields
  exec_store_word word hw e ea eb ei legal =
      ap (exec h s pc) (decode32_store s w e)
      ∙ exec_store-lem h callback installed s pc word
          (record (wide_fields w) {
            action = store;
            a = s.x (field w 15 5);
            b = s.x (field w 20 5);
            imm = imm_s w;
          })
          (ap s.x (sym eb)) (sym (tc_imm-imm_s word w hw ei)) (ap s.x (sym ea)) legal

  -- An op that writes memory, or loads, is never dropped.
  pub drop_x0-access : (d : DecodedInst) → leb Op.lb d.op && leb d.op Op.sw ≡ true → drop_x0 d ≡ d
  unfolding drop_x0
  drop_x0-access d e = ground arith

  pub plain-load :
      w < 2 ^ 32
      → field w 0 7 ≡ 0x03
      → (load_op (field w 12 3) == Op.illegal) ≡ false
      → replay callback s idx w1 disp (decode_word w off) ≡ as_effect (exec h s pc (decode32 s w))
  unfolding decode_word word_fields
  plain-load hw e legal =
      let op = load_op (field w 12 3) in
      let d = record (word_fields w) { op = op; imm = imm_i w } in
      let word = first_word d disp in
      let in_range : is_load op ≡ true = load_op-IsLoad (field w 12 3) legal in
      let fs = first_word-load d disp (word_fields-HasRegs w) in_range in
      rw
        (
          decode_switch-load w off e,
          drop_x0-access d (ground arith),
          not_nop op (ground arith),
          exec_load_word word hw e (fs.1) (fs.2) (fs.3) legal,
        )
        (handler-load callback s idx word w1 (ap is_load fs.0 ∙ in_range) ∙ rw (fs.0))

  pub plain-store :
      w < 2 ^ 32
      → field w 0 7 ≡ 0x23
      → (store_op (field w 12 3) == Op.illegal) ≡ false
      → replay callback s idx w1 disp (decode_word w off) ≡ as_effect (exec h s pc (decode32 s w))
  unfolding decode_word word_fields
  plain-store hw e legal =
      let op = store_op (field w 12 3) in
      let d = record (word_fields w) { op = op; imm = imm_s w } in
      let word = first_word d disp in
      let in_range : is_store op ≡ true = store_op-IsStore (field w 12 3) legal in
      let fs = first_word-store d disp (word_fields-HasRegs w) in_range in
      rw
        (
          decode_switch-store w off e,
          drop_x0-access d (ground arith),
          not_nop op (ground arith),
          exec_store_word word hw e (fs.1) (fs.2) (fs.3) legal,
        )
        (handler-store callback s idx word w1 (ap is_store fs.0 ∙ in_range) ∙ rw (fs.0))
