-- ===== src/Engine/Decode/Words.antt =====
-- The parts of a 32-bit instruction word, as sums of its fields, and the decoder at each opcode.
use purv.Base.{ℕ, ◌+◌, ◌*◌, ◌/◌, ◌%◌, ◌^◌, ◌<◌, ◌≡◌, bit_or, field, u32, ◌<<<◌, arith}
use purv.Base.Int.{signed, wrap, asr}
use purv.Base.Bits.{bit_or_add, bit_or_sum}
use purv.Engine.{State}
use purv.Engine.Decode.{Decoded, load, store, branch, jal, jalr, lui, auipc}
use purv.Engine.Decode.Fields.{sext, imm_i, imm_s, imm_b, imm_j, imm_u, bits_b, bits_j}
use purv.Engine.Decode.Wide.{decode32, decode_opimm, decode_op, wide_fields}
use purv.Engine.Decode.Encode.{sign_extend}

-- The immediates of a word with the fields in place.
pub imm_i_sign : (w i : ℕ) → w < 2 ^ 32 → w / 2 ^ 20 ≡ i → imm_i w ≡ sign_extend 12 i
unfolding imm_i
imm_i_sign w i h e = ground arith

pub sext_13 : (v : ℕ) → v < 2 ^ 13 → sext v 13 ≡ sign_extend 13 v
unfolding sext
sext_13 v h = ground arith

pub sext_21 : (v : ℕ) → v < 2 ^ 21 → sext v 21 ≡ sign_extend 21 v
unfolding sext
sext_21 v h = ground arith

pub imm_s_sign :
    (w i : ℕ) → w < 2 ^ 32 → w / 2 ^ 25 * 2 ^ 5 + w / 2 ^ 7 % 2 ^ 5 ≡ i → imm_s w ≡ sign_extend 12 i
unfolding imm_s
imm_s_sign w i h e =
    let high = u32 (wrap (asr (signed w) 25) <<< 5) in
    let sum : bit_or (high / 2 ^ 5 * 2 ^ 5) (field w 7 5) ≡ high / 2 ^ 5 * 2 ^ 5 + field w 7 5 =
      bit_or_sum 5 (high / 2 ^ 5) (field w 7 5) (omega arith) in
    let whole : high / 2 ^ 5 * 2 ^ 5 ≡ high = omega arith in ground (arith, rw whole at sum)

pub bits_b_sum :
    (w : ℕ)
    → bits_b w
      ≡ field w 31 1 * 2 ^ 12 + field w 7 1 * 2 ^ 11 + field w 25 6 * 2 ^ 5 + field w 8 4 * 2
unfolding bits_b
bits_b_sum w =
    let a = field w 31 1 in
    let b = field w 7 1 in
    let c = field w 25 6 in
    let d = field w 8 4 in
    rw (
      bit_or_add 11 1 a 0 (a * 2 ^ 12) b (omega arith) (omega arith) (omega arith),
      bit_or_add 5 6 (a * 2 + b) 0 (a * 2 ^ 12 + b * 2 ^ 11) c (omega arith) (omega arith)
          (omega arith),
      bit_or_add 1 4 ((a * 2 + b) * 2 ^ 6 + c) 0 (a * 2 ^ 12 + b * 2 ^ 11 + c * 2 ^ 5) d
          (omega arith) (omega arith) (omega arith),
    )

pub bits_j_sum :
    (w : ℕ)
    → bits_j w
      ≡ field w 31 1 * 2 ^ 20 + field w 12 8 * 2 ^ 12 + field w 20 1 * 2 ^ 11 + field w 21 10 * 2
unfolding bits_j
bits_j_sum w =
    let a = field w 31 1 in
    let b = field w 12 8 in
    let c = field w 20 1 in
    let d = field w 21 10 in
    rw (
      bit_or_add 12 8 a 0 (a * 2 ^ 20) b (omega arith) (omega arith) (omega arith),
      bit_or_add 11 1 (a * 2 ^ 8 + b) 0 (a * 2 ^ 20 + b * 2 ^ 12) c (omega arith) (omega arith)
          (omega arith),
      bit_or_add 1 10 ((a * 2 ^ 8 + b) * 2 + c) 0 (a * 2 ^ 20 + b * 2 ^ 12 + c * 2 ^ 11) d
          (omega arith) (omega arith) (omega arith),
    )

-- The decoder at each opcode.
module _ (s : State) (w : ℕ) where
  pub decode32_op : field w 0 7 ≡ 0x33 → decode32 s w ≡ decode_op s w
  unfolding decode32
  decode32_op e = ground arith

  pub decode32_opimm : field w 0 7 ≡ 0x13 → decode32 s w ≡ decode_opimm s w
  unfolding decode32
  decode32_opimm e = ground arith

  abbrev pub fields : Decoded
  fields = wide_fields w

  pub decode32_load :
      field w 0 7 ≡ 0x03
      → decode32 s w ≡ record fields { action = load; a = s.x fields.rs1; imm = imm_i w }
  unfolding decode32
  decode32_load e = ground arith

  pub decode32_store :
      field w 0 7 ≡ 0x23
      → decode32 s w ≡ record fields {
        action = store;
        a = s.x fields.rs1;
        b = s.x (field w 20 5);
        imm = imm_s w;
      }
  unfolding decode32
  decode32_store e = ground arith

  pub decode32_branch :
      field w 0 7 ≡ 0x63
      → decode32 s w ≡ record fields {
        action = branch;
        a = s.x fields.rs1;
        b = s.x (field w 20 5);
        imm = imm_b w;
      }
  unfolding decode32
  decode32_branch e = ground arith

  pub decode32-jal :
      field w 0 7 ≡ 0x6f → decode32 s w ≡ record fields { action = jal; imm = imm_j w }
  unfolding decode32
  decode32-jal e = ground arith

  pub decode32-jalr :
      field w 0 7 ≡ 0x67
      → decode32 s w ≡ record fields { action = jalr; a = s.x fields.rs1; imm = imm_i w }
  unfolding decode32
  decode32-jalr e = ground arith

  pub decode32-lui :
      field w 0 7 ≡ 0x37 → decode32 s w ≡ record fields { action = lui; imm = imm_u w }
  unfolding decode32
  decode32-lui e = ground arith

  pub decode32-auipc :
      field w 0 7 ≡ 0x17 → decode32 s w ≡ record fields { action = auipc; imm = imm_u w }
  unfolding decode32
  decode32-auipc e = ground arith
