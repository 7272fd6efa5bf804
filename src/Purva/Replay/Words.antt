-- ===== src/Purva/Replay/Words.antt =====
-- The packed op words as sums of their fields, and the fields read back.
use purv.Base.{ℕ, ◌+◌, ◌*◌, ◌%◌, ◌^◌, ◌<◌, ◌≡◌, ap, ◌∙◌, bit_or, arith}
use purv.Base.Bits.{bit_or_sum, bit_or_add}
use purv.Purva.Packed.{tc_op, tc_a, tc_b, tc_c}
use purv.Purva.Transcode.Emit.{pack_a, pack_ab, pack_abc}

module _ (op a : ℕ) (ha : a < 2 ^ 5) where
  pub pack_a_sum : pack_a op a ≡ op * 2 ^ 26 + a * 2 ^ 21
  pack_a_sum = bit_or_sum 26 op (a * 2 ^ 21) (omega arith)

  module _ (b : ℕ) (hb : b < 2 ^ 5) where
    pub pack_ab_sum : pack_ab op a b ≡ op * 2 ^ 26 + a * 2 ^ 21 + b * 2 ^ 16
    pack_ab_sum = rw pack_a_sum (
        bit_or_add 16 5 (op * 2 ^ 5 + a) 0 (op * 2 ^ 26 + a * 2 ^ 21) b (omega arith) (omega arith)
          hb)

    pub pack_abc_sum :
        (c : ℕ) → c < 2 ^ 5 → pack_abc op a b c ≡ op * 2 ^ 26 + a * 2 ^ 21 + b * 2 ^ 16 + c * 2 ^ 11
    pack_abc_sum c hc = rw pack_ab_sum (
        bit_or_add 11 5 ((op * 2 ^ 5 + a) * 2 ^ 5 + b) 0 (op * 2 ^ 26 + a * 2 ^ 21 + b * 2 ^ 16) c
          (omega arith) (omega arith) hc)

    -- The fields of a word with three registers.
    pub tc-pack_abc :
        (c : ℕ)
        → c < 2 ^ 5
        → (tc_op (pack_abc op a b c) ≡ op)
          × (tc_a (pack_abc op a b c) ≡ a)
          × (tc_b (pack_abc op a b c) ≡ b)
          × (tc_c (pack_abc op a b c) ≡ c)
    tc-pack_abc c hc = rw (pack_abc_sum c hc) (omega arith, omega arith, omega arith, omega arith)

    -- The fields of a word with two registers and a 16-bit immediate.
    pub tc-pack_ab :
        (i : ℕ)
        → i < 2 ^ 16
        → (tc_op (bit_or (pack_ab op a b) i) ≡ op)
          × (tc_a (bit_or (pack_ab op a b) i) ≡ a)
          × (tc_b (bit_or (pack_ab op a b) i) ≡ b)
          × (bit_or (pack_ab op a b) i % 2 ^ 16 ≡ i)
    tc-pack_ab i hi =
        let q = (op * 2 ^ 5 + a) * 2 ^ 5 + b in
        let high : pack_ab op a b ≡ q * 2 ^ 16 = omega (arith, pack_ab_sum) in
        let sum : bit_or (pack_ab op a b) i ≡ q * 2 ^ 16 + i =
          ap (λ (t : ℕ). bit_or t i) high ∙ bit_or_sum 16 q i hi in
        rw sum (omega arith, omega arith, omega arith, omega arith)

  -- The fields of a word with one register and a 21-bit immediate.
  pub tc-pack_a :
      (i : ℕ)
      → i < 2 ^ 21
      → (tc_op (bit_or (pack_a op a) i) ≡ op)
        × (tc_a (bit_or (pack_a op a) i) ≡ a)
        × (bit_or (pack_a op a) i % 2 ^ 21 ≡ i)
  tc-pack_a i hi =
      let q = op * 2 ^ 5 + a in
      let high : pack_a op a ≡ q * 2 ^ 21 = omega (arith, pack_a_sum) in
      let sum : bit_or (pack_a op a) i ≡ q * 2 ^ 21 + i =
        ap (λ (t : ℕ). bit_or t i) high ∙ bit_or_sum 21 q i hi in
      rw sum (omega arith, omega arith, omega arith)
