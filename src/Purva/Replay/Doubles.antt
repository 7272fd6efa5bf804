-- ===== src/Purva/Replay/Doubles.antt =====
-- The handlers of the fused pairs, at the fields that the op words bring through.
use purv.Base.{
  ℕ, ◌%◌, ◌^◌, ◌<◌, ◌≡◌, ap, ◌∙◌, true, ◌&&◌, bit_or, ltb, ◌==◌, add32, u32, ◌<<<◌, ◌>>>◌,
}
use purv.Engine.{State, MemOp}
use purv.Bulk.{set_x}
use purv.Purva.Op
use purv.Purva.Transcode.{DecodedInst}
use purv.Purva.Transcode.Emit.{first_word}
use purv.Purva.Transcode.Fuse.Pairs.{fits_signed}
use purv.Purva.Eval.Memory.{load_le, store_le}
use purv.Purva.Eval.Ops.{fall, handler, h_shadd, h_lwx, h_lwlw, h_lwsw, load_twice}
use purv.Purva.Replay.Fields.{HasRegs}
use purv.Purva.Replay.Fused.{
  first_word-shadd, first_word-lwx, first_word-lwlw, first_word-lwsw, tc_sh-shamt, tc_off11-imm,
  tc_offsets-imm, tc_words-imm, handler-shadd, handler-lwx, handler-lwlw, handler-lwsw,
}

module _ (callback : State → MemOp → ℕ → ℕ → State × ℕ) where
  module _ (s : State) (idx w1 disp : ℕ) (d : DecodedInst) (regs : HasRegs d) where
    pub run-shadd :
        d.op ≡ Op.shadd
        → handler callback s idx (first_word d disp) w1
          ≡ fall 1 2 (set_x s d.rd (add32 (s.x d.rs1) (u32 (s.x d.rs2 <<< (d.imm % 2 ^ 5)))))
    unfolding h_shadd
    run-shadd e =
        let w = first_word d disp in
        let fs = first_word-shadd d disp regs e in
        handler-shadd callback s idx w w1 fs.0 ∙ rw (fs.1, fs.2, fs.3, tc_sh-shamt w d.imm fs.4)

    pub run-lwx :
        d.op ≡ Op.lwx
        → d.imm < 2 ^ 32
        → fits_signed 1024 d.imm ≡ true
        → handler callback s idx (first_word d disp) w1
          ≡ fall 1 2 (
              set_x
                (load_le callback s (add32 (add32 (s.x d.rs1) (s.x d.rs2)) d.imm) 4).0
                d.rd
                (load_le callback s (add32 (add32 (s.x d.rs1) (s.x d.rs2)) d.imm) 4).1)
    unfolding h_lwx
    run-lwx e h fits =
        let w = first_word d disp in
        let fs = first_word-lwx d disp regs e in
        handler-lwx callback s idx w w1 fs.0
        ∙ rw (fs.1, fs.2, fs.3, tc_off11-imm w d.imm h fits fs.4)

    pub run-lwsw :
        (i j : ℕ)
        → d.op ≡ Op.lwsw
        → (ltb i 128 && (i % 4 == 0 && (ltb j 256 && j % 4 == 0))) ≡ true
        → d.imm ≡ bit_or ((i >>> 2) <<< 6) (j >>> 2)
        → handler callback s idx (first_word d disp) w1 ≡ (
            let first = load_le callback s (add32 (s.x d.rs1) i) 4 in
            let s' = set_x first.0 d.rd first.1 in
            fall 1 2 (store_le callback s' (add32 (s'.x d.rs2) j) 4 first.1))
    unfolding h_lwsw
    run-lwsw i j e fits packed =
        let w = first_word d disp in
        let fs = first_word-lwsw d disp regs e in
        let offs = tc_words-imm w i j fits (fs.4 ∙ ap (λ (t : ℕ). t % 2 ^ 11) packed) in
        handler-lwsw callback s idx w w1 fs.0 ∙ rw (fs.1, fs.2, fs.3, offs.0, offs.1)

  pub run-lwlw :
      (s : State) (idx w1 disp : ℕ) (d : DecodedInst) (i j : ℕ)
      → d.op ≡ Op.lwlw
      → d.rd < 2 ^ 5
      → d.rs1 < 2 ^ 5
      → i < 2 ^ 32
      → j < 2 ^ 32
      → fits_signed 128 i ≡ true
      → fits_signed 128 j ≡ true
      → d.imm ≡ bit_or ((i % 2 ^ 8) <<< 8) (j % 2 ^ 8)
      → handler callback s idx (first_word d disp) w1 ≡ (
          let first = load_le callback s (add32 (s.x d.rs1) i) 4 in
          let second = load_le callback first.0 (add32 first.1 j) 4 in
          fall 1 2 (set_x second.0 d.rd second.1))
  unfolding h_lwlw load_twice
  run-lwlw s idx w1 disp d i j e rd rs1 hi hj fi fj packed =
      let w = first_word d disp in
      let fs = first_word-lwlw d disp e rd rs1 in
      let offs = tc_offsets-imm w i j hi hj fi fj (fs.3 ∙ ap (λ (t : ℕ). t % 2 ^ 16) packed) in
      handler-lwlw callback s idx w w1 fs.0 ∙ rw (fs.1, fs.2, offs.0, offs.1)
