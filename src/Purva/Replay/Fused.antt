-- ===== src/Purva/Replay/Fused.antt =====
-- The op words of the pairs that fuse, and the handlers that they select.
use purv.Base.{
  ℕ, ◌+◌, ◌*◌, ◌/◌, ◌%◌, ◌^◌, ◌<◌, ◌≡◌, ap, ◌∙◌, true, ◌&&◌, bit_or, ltb, ◌==◌, field, ◌<<<◌, ◌>>>◌,
  arith,
}
use purv.Base.Bits.{bit_or_sum}
use purv.Engine.{State, MemOp}
use purv.Purva.Op
use purv.Purva.Packed.{tc_op, tc_a, tc_b, tc_c, tc_sh, tc_off11, tc_o1, tc_o2, tc_w1, tc_w2}
use purv.Purva.Transcode.{DecodedInst}
use purv.Purva.Transcode.Emit.{first_word, pack_abc}
use purv.Purva.Transcode.Fuse.Pairs.{fits_signed}
use purv.Purva.Eval.Ops.{fall, handler, h_shadd, h_lwx, h_lwlw, h_lwsw}
use purv.Purva.Replay.Words.{pack_abc_sum, tc-pack_ab}
use purv.Purva.Replay.Fields.{HasRegs, Packs}

-- A word with three registers and `i` in the low 11 bits.
abbrev pub Packs3 : ℕ → ℕ → ℕ → ℕ → ℕ → ℕ → Type 0
Packs3 w op a b c i = (tc_op w ≡ op) × (tc_a w ≡ a) × (tc_b w ≡ b) × (tc_c w ≡ c) × (w % 2 ^ 11 ≡ i)

pack_abc-Packs3 :
    (op a b c i : ℕ)
    → a < 2 ^ 5
    → b < 2 ^ 5
    → c < 2 ^ 5
    → i < 2 ^ 11
    → Packs3 (bit_or (pack_abc op a b c) i) op a b c i
pack_abc-Packs3 op a b c i ha hb hc hi =
    let q = ((op * 2 ^ 5 + a) * 2 ^ 5 + b) * 2 ^ 5 + c in
    let high : pack_abc op a b c ≡ q * 2 ^ 11 = omega (arith, pack_abc_sum op a ha b hb c hc) in
    let sum : bit_or (pack_abc op a b c) i ≡ q * 2 ^ 11 + i =
      ap (λ (t : ℕ). bit_or t i) high ∙ bit_or_sum 11 q i hi in
    rw sum (omega arith, omega arith, omega arith, omega arith, omega arith)

module _ (d : DecodedInst) (disp : ℕ) (regs : HasRegs d) where
  pub first_word-shadd :
      d.op ≡ Op.shadd → Packs3 (first_word d disp) Op.shadd d.rd d.rs1 d.rs2 ((d.imm % 2 ^ 5) <<< 6)
  unfolding first_word
  first_word-shadd e = rw e (
      pack_abc-Packs3 Op.shadd d.rd d.rs1 d.rs2 ((d.imm % 2 ^ 5) <<< 6) (regs.0) (regs.1) (regs.2)
        (omega arith))

  pub first_word-lwx :
      d.op ≡ Op.lwx → Packs3 (first_word d disp) Op.lwx d.rd d.rs1 d.rs2 (d.imm % 2 ^ 11)
  unfolding first_word
  first_word-lwx e = rw e (
      pack_abc-Packs3 Op.lwx d.rd d.rs1 d.rs2 (d.imm % 2 ^ 11) (regs.0) (regs.1) (regs.2)
        (omega arith))

  pub first_word-lwsw :
      d.op ≡ Op.lwsw → Packs3 (first_word d disp) Op.lwsw d.rd d.rs1 d.rs2 (d.imm % 2 ^ 11)
  unfolding first_word
  first_word-lwsw e = rw e (
      pack_abc-Packs3 Op.lwsw d.rd d.rs1 d.rs2 (d.imm % 2 ^ 11) (regs.0) (regs.1) (regs.2)
        (omega arith))

pub first_word-lwlw :
    (d : DecodedInst) (disp : ℕ)
    → d.op ≡ Op.lwlw
    → d.rd < 2 ^ 5
    → d.rs1 < 2 ^ 5
    → Packs (first_word d disp) Op.lwlw d.rd d.rs1 (d.imm % 2 ^ 16)
unfolding first_word
first_word-lwlw d disp e rd rs1 =
    rw e (tc-pack_ab Op.lwlw d.rd rd d.rs1 rs1 (d.imm % 2 ^ 16) (omega arith))

-- The immediates come through the narrower fields.
pub tc_sh-shamt : (w i : ℕ) → w % 2 ^ 11 ≡ (i % 2 ^ 5) <<< 6 → tc_sh w ≡ i % 2 ^ 5
tc_sh-shamt w i e = omega arith

pub tc_off11-imm :
    (w i : ℕ) → i < 2 ^ 32 → fits_signed 1024 i ≡ true → w % 2 ^ 11 ≡ i % 2 ^ 11 → tc_off11 w ≡ i
unfolding tc_off11
tc_off11-imm w i h fits e = ground arith

offsets_sum : (i j : ℕ) → bit_or ((i % 2 ^ 8) <<< 8) (j % 2 ^ 8) ≡ i % 2 ^ 8 * 2 ^ 8 + j % 2 ^ 8
offsets_sum i j = bit_or_sum 8 (i % 2 ^ 8) (j % 2 ^ 8) (omega arith)

pub tc_offsets-imm :
    (w i j : ℕ)
    → i < 2 ^ 32
    → j < 2 ^ 32
    → fits_signed 128 i ≡ true
    → fits_signed 128 j ≡ true
    → w % 2 ^ 16 ≡ bit_or ((i % 2 ^ 8) <<< 8) (j % 2 ^ 8) % 2 ^ 16
    → (tc_o1 w ≡ i) × (tc_o2 w ≡ j)
unfolding tc_o1 tc_o2
tc_offsets-imm w i j hi hj fi fj e =
    let low : w % 2 ^ 16 ≡ i % 2 ^ 8 * 2 ^ 8 + j % 2 ^ 8 = omega (arith, offsets_sum i j) in
    let first : field w 8 8 ≡ i % 2 ^ 8 = omega arith in
    let second : w % 2 ^ 8 ≡ j % 2 ^ 8 = omega arith in (ground arith, ground arith)

pub tc_words-imm :
    (w i j : ℕ)
    → (ltb i 128 && (i % 4 == 0 && (ltb j 256 && j % 4 == 0))) ≡ true
    → w % 2 ^ 11 ≡ bit_or ((i >>> 2) <<< 6) (j >>> 2) % 2 ^ 11
    → (tc_w1 w ≡ i) × (tc_w2 w ≡ j)
tc_words-imm w i j fits e =
    let bounds : (i < 128) × (i % 4 ≡ 0) × (j < 256) × (j % 4 ≡ 0) =
      (ground arith, ground arith, ground arith, ground arith) in
    let sum = bit_or_sum 6 (i / 2 ^ 2) (j / 2 ^ 2) (omega (arith, bounds.2)) in
    (
      omega (arith, bounds.0, bounds.1, bounds.2, bounds.3, sum),
      omega (arith, bounds.0, bounds.1, bounds.2, bounds.3, sum),
    )

-- The rows of the table.
module _ (callback : State → MemOp → ℕ → ℕ → State × ℕ) (s : State) (idx w w1 : ℕ) where
  pub handler-shadd : tc_op w ≡ Op.shadd → handler callback s idx w w1 ≡ fall 1 2 (h_shadd s w)
  unfolding handler
  handler-shadd e = rw e

  pub handler-lwx : tc_op w ≡ Op.lwx → handler callback s idx w w1 ≡ fall 1 2 (h_lwx callback s w)
  unfolding handler
  handler-lwx e = rw e

  pub handler-lwlw :
      tc_op w ≡ Op.lwlw → handler callback s idx w w1 ≡ fall 1 2 (h_lwlw callback s w)
  unfolding handler
  handler-lwlw e = rw e

  pub handler-lwsw :
      tc_op w ≡ Op.lwsw → handler callback s idx w w1 ≡ fall 1 2 (h_lwsw callback s w)
  unfolding handler
  handler-lwsw e = rw e
