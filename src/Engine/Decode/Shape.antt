-- ===== src/Engine/Decode/Shape.antt =====
-- What every case of the decoder guarantees of its locals: register numbers name one of the 32
-- registers, and the operands are 32-bit words.
use purv.Base.{ℕ, ◌+◌, ◌^◌, ◌<◌, ◌≡◌, refl, bit_or, field, arith}
use purv.Base.Int.{wrap-lt}
use purv.Base.Bits.{bit_or-lt}
use purv.Engine.{State}
use purv.Engine.Decode.{Decoded}
use purv.Engine.Decode.Fields.{
  sext, imm_i, imm_s, imm_b, imm_j, imm_u, shamt_ci, imm_ci, imm_addi4spn, imm_clw, imm_cj,
  imm_addi16sp, imm_clui, imm_cb, imm_lwsp, imm_swsp,
}
use purv.Engine.Decode.Wide.{decode32, decode_opimm, decode_op, decode_miscmem}
use purv.Engine.Decode.Compressed.{
  decode16, c_addi4spn, c_lui, c_misc_alu, c_misc_reg, misc_fields, c_jr_mv_add,
}

pub record IsSane (width : ℕ) (d : Decoded) : Type 0 where
  pub width_is : d.width ≡ width
  pub rd_in : d.rd < 32
  pub a_in : d.a < 2 ^ 32
  pub b_in : d.b < 2 ^ 32
  pub imm_in : d.imm < 2 ^ 32

pub IsSane-own : {width : ℕ} {d : Decoded} → IsSane width d → IsSane d.width d
IsSane-own k = record {
  width_is = refl;
  rd_in = k.rd_in;
  a_in = k.a_in;
  b_in = k.b_in;
  imm_in = k.imm_in;
}

abbrev pub AreWords : State → Type 0
AreWords s = (i : ℕ) → s.x i < 2 ^ 32

or_word : (a b : ℕ) → a < 2 ^ 32 → b < 2 ^ 32 → bit_or a b < 2 ^ 32
or_word = bit_or-lt 32

pub sext-lt : (v bits : ℕ) → sext v bits < 2 ^ 32
unfolding sext
sext-lt v bits = wrap-lt _

pub imm_i-lt : (w : ℕ) → imm_i w < 2 ^ 32
unfolding imm_i
imm_i-lt w = wrap-lt _

imm_s-lt : (w : ℕ) → imm_s w < 2 ^ 32
unfolding imm_s
imm_s-lt w = or_word _ _ (omega arith) (omega arith)

imm_b-lt : (w : ℕ) → imm_b w < 2 ^ 32
unfolding imm_b
imm_b-lt w = sext-lt _ 13

imm_j-lt : (w : ℕ) → imm_j w < 2 ^ 32
unfolding imm_j
imm_j-lt w = sext-lt _ 21

shamt_ci-lt : (c : ℕ) → shamt_ci c < 2 ^ 32
unfolding shamt_ci
shamt_ci-lt c = or_word _ _ (omega arith) (omega arith)

imm_ci-lt : (c : ℕ) → imm_ci c < 2 ^ 32
unfolding imm_ci
imm_ci-lt c = sext-lt _ 6

imm_addi4spn-lt : (c : ℕ) → imm_addi4spn c < 2 ^ 32
unfolding imm_addi4spn
imm_addi4spn-lt c =
    or_word _ _ (or_word _ _ (or_word _ _ (omega arith) (omega arith)) (omega arith)) (omega arith)

imm_clw-lt : (c : ℕ) → imm_clw c < 2 ^ 32
unfolding imm_clw
imm_clw-lt c = or_word _ _ (or_word _ _ (omega arith) (omega arith)) (omega arith)

imm_cj-lt : (c : ℕ) → imm_cj c < 2 ^ 32
unfolding imm_cj
imm_cj-lt c = sext-lt _ 12

imm_addi16sp-lt : (c : ℕ) → imm_addi16sp c < 2 ^ 32
unfolding imm_addi16sp
imm_addi16sp-lt c = sext-lt _ 10

imm_clui-lt : (c : ℕ) → imm_clui c < 2 ^ 32
unfolding imm_clui
imm_clui-lt c = sext-lt _ 18

imm_cb-lt : (c : ℕ) → imm_cb c < 2 ^ 32
unfolding imm_cb
imm_cb-lt c = sext-lt _ 9

imm_lwsp-lt : (c : ℕ) → imm_lwsp c < 2 ^ 32
unfolding imm_lwsp
imm_lwsp-lt c = or_word _ _ (or_word _ _ (omega arith) (omega arith)) (omega arith)

imm_swsp-lt : (c : ℕ) → imm_swsp c < 2 ^ 32
unfolding imm_swsp
imm_swsp-lt c = or_word _ _ (omega arith) (omega arith)

module _ (s : State) where
  width-c_misc_reg : (c : ℕ) (d : Decoded) → (c_misc_reg s c d).width ≡ d.width
  unfolding c_misc_reg
  width-c_misc_reg c d = ground arith

  width-c_misc_alu : (c : ℕ) → (c_misc_alu s c).width ≡ 2
  unfolding c_misc_alu
  width-c_misc_alu c = ground (arith, width-c_misc_reg c (misc_fields s c))

  width-c_addi4spn : (c : ℕ) → (c_addi4spn s c).width ≡ 2
  unfolding c_addi4spn
  width-c_addi4spn c = ground arith

  width-c_lui : (c : ℕ) → (c_lui s c).width ≡ 2
  unfolding c_lui
  width-c_lui c = ground arith

  width-c_jr_mv_add : (c : ℕ) → (c_jr_mv_add s c).width ≡ 2
  unfolding c_jr_mv_add
  width-c_jr_mv_add c = ground arith

  -- Every case of the decoder keeps the width that it starts with.
  pub width-decode16 : (c : ℕ) → (decode16 s c).width ≡ 2
  unfolding decode16
  width-decode16 c =
      ground (arith, width-c_misc_alu c, width-c_addi4spn c, width-c_lui c, width-c_jr_mv_add c)

  pub width-decode32 : (w : ℕ) → (decode32 s w).width ≡ 4
  unfolding decode32 decode_opimm decode_op decode_miscmem
  width-decode32 w = ground arith

module _ (s : State) (words : AreWords s) where
  decode_opimm-IsSane : (w : ℕ) → w < 2 ^ 32 → IsSane 4 (decode_opimm s w)
  unfolding decode_opimm
  decode_opimm-IsSane w h = ground (arith, words (field w 15 5), imm_i-lt w)

  decode_op-IsSane : (w : ℕ) → IsSane 4 (decode_op s w)
  unfolding decode_op
  decode_op-IsSane w = ground (arith, words (field w 15 5), words (field w 20 5))

  decode_miscmem-IsSane : (w : ℕ) → IsSane 4 (decode_miscmem w)
  unfolding decode_miscmem
  decode_miscmem-IsSane w = ground arith

  pub decode32-IsSane : (w : ℕ) → w < 2 ^ 32 → IsSane 4 (decode32 s w)
  unfolding decode32 imm_u
  decode32-IsSane w h = ground (
    arith,
    words (field w 15 5),
    words (field w 20 5),
    decode_opimm-IsSane w h,
    decode_op-IsSane w,
    decode_miscmem-IsSane w,
    imm_i-lt w,
    imm_s-lt w,
    imm_b-lt w,
    imm_j-lt w,
  )

  c_addi4spn-IsSane : (c : ℕ) → IsSane 2 (c_addi4spn s c)
  unfolding c_addi4spn
  c_addi4spn-IsSane c = ground (arith, words 2, imm_addi4spn-lt c)

  c_lui-IsSane : (c : ℕ) → IsSane 2 (c_lui s c)
  unfolding c_lui
  c_lui-IsSane c = ground (arith, words 2, imm_addi16sp-lt c, imm_clui-lt c)

  c_misc_reg-IsSane : (c : ℕ) (d : Decoded) → IsSane 2 d → IsSane 2 (c_misc_reg s c d)
  unfolding c_misc_reg
  c_misc_reg-IsSane c d h = ground (arith, words (field c 2 3 + 8))

  misc_fields-IsSane : (c : ℕ) → IsSane 2 (misc_fields s c)
  unfolding misc_fields
  misc_fields-IsSane c = ground (arith, words (field c 7 3 + 8))

  c_misc_alu-IsSane : (c : ℕ) → IsSane 2 (c_misc_alu s c)
  unfolding c_misc_alu
  c_misc_alu-IsSane c = ground (
    arith,
    words (field c 7 3 + 8),
    shamt_ci-lt c,
    imm_ci-lt c,
    c_misc_reg-IsSane c (misc_fields s c) (misc_fields-IsSane c),
  )

  c_jr_mv_add-IsSane : (c : ℕ) → IsSane 2 (c_jr_mv_add s c)
  unfolding c_jr_mv_add
  c_jr_mv_add-IsSane c = ground (arith, words (field c 7 5), words (field c 2 5))

  pub decode16-IsSane : (c : ℕ) → IsSane 2 (decode16 s c)
  unfolding decode16
  decode16-IsSane c = ground (
    arith,
    words 2,
    words (field c 7 5),
    words (field c 2 5),
    words (field c 7 3 + 8),
    words (field c 2 3 + 8),
    c_addi4spn-IsSane c,
    c_lui-IsSane c,
    c_misc_alu-IsSane c,
    c_jr_mv_add-IsSane c,
    shamt_ci-lt c,
    imm_ci-lt c,
    imm_clw-lt c,
    imm_cj-lt c,
    imm_cb-lt c,
    imm_lwsp-lt c,
    imm_swsp-lt c,
  )
