-- ===== src/Purva/Packed.antt =====
-- emu/purva/transcode.h: the fields of a packed op word. Signed fields are given as the 32-bit
-- pattern that they become.
use purv.Base.{ℕ, ◌/◌, ◌%◌, ◌^◌, field, u16, u32, ◌<<<◌}
use purv.Base.Int.{signed, signed8, signed16, wrap, asr}

abbrev pub tc_op : ℕ → ℕ
tc_op w = w / 2 ^ 26

abbrev pub tc_a : ℕ → ℕ
tc_a w = field w 21 5

abbrev pub tc_b : ℕ → ℕ
tc_b w = field w 16 5

abbrev pub tc_c : ℕ → ℕ
tc_c w = field w 11 5

unfoldable pub tc_imm : ℕ → ℕ
tc_imm w = wrap (signed16 (u16 w))

unfoldable pub tc_joff : ℕ → ℕ
tc_joff w = wrap (asr (signed (u32 ((w % 2 ^ 21) <<< 11))) 11)

abbrev pub tc_uimm : ℕ → ℕ
tc_uimm w = w % 2 ^ 20

abbrev pub tc_sh : ℕ → ℕ
tc_sh w = field w 6 5

unfoldable pub tc_off11 : ℕ → ℕ
tc_off11 w = wrap (asr (signed (u32 (w <<< 21))) 21)

unfoldable pub tc_o1 : ℕ → ℕ
tc_o1 w = wrap (signed8 (field w 8 8))

unfoldable pub tc_o2 : ℕ → ℕ
tc_o2 w = wrap (signed8 (w % 2 ^ 8))

abbrev pub tc_w1 : ℕ → ℕ
tc_w1 w = field w 6 5 <<< 2

abbrev pub tc_w2 : ℕ → ℕ
tc_w2 w = (w % 2 ^ 6) <<< 2
