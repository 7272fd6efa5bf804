-- ===== src/Purva/Eval/Ops.antt =====
-- emu/purva/purva.c: the op handlers of `RiscvEmulatorLoop`, up to the macro that each ends in.
use purv.Base.{
  ℕ, ◌+◌, ◌*◌, ◌/◌, ◌%◌, ◌^◌, bit_and, bit_or, bit_xor, Bool, not, ◌&&◌, ◌||◌, ltb, leb, ◌==◌,
  if◌then◌else◌, add32, sub32, u32, ◌<<<◌, ◌>>>◌,
}
use purv.Base.Int.{signed, wrap, asr, lt_ℤ}
use purv.Engine.{State, MemOp, riscv_half}
use purv.Engine.Exec.Arith.{mulh, mulhsu, mulhu, div_signed, div_unsigned, rem_signed, rem_unsigned}
use purv.Bulk.{set_x, purv_memop}
use purv.Purva.Op
use purv.Purva.Packed.{
  tc_op, tc_a, tc_b, tc_c, tc_imm, tc_joff, tc_uimm, tc_sh, tc_off11, tc_o1, tc_o2, tc_w1, tc_w2,
}
use purv.Purva.Eval.Memory.{cast_load, load_size, load_le, store_le, load_reg, store_reg}
use purv.Purva.Eval.Frames.{prologue, epilogue}

-- `fall n c`: `n` op words forward, `c` instructions counted. `reloc i c`: to op index `i` after the
-- check of the budget. `leap t c`: to the address `t`, which a register held.
pub data Effect : Type 0 where
  fall : (n c : ℕ) (s : State) → Effect
  reloc : (i c : ℕ) (s : State) → Effect
  leap : (t c : ℕ) (s : State) → Effect
  trapped : State → Effect

-- The right-hand sides of the register-register handlers.
unfoldable pub reg_reg : ℕ → ℕ → ℕ → ℕ
unfolding mulh mulhsu mulhu div_signed div_unsigned rem_signed rem_unsigned
reg_reg op a b =
    if op == Op.add
    then add32 a b
    else if op == Op.sll
    then u32 (a <<< (b % 2 ^ 5))
    else if op == Op.slt
    then (if lt_ℤ (signed a) (signed b) then 1 else 0)
    else if op == Op.sltu
    then (if ltb a b then 1 else 0)
    else if op == Op.xor
    then bit_xor a b
    else if op == Op.srl
    then a >>> (b % 2 ^ 5)
    else if op == Op.or
    then bit_or a b
    else if op == Op.and
    then bit_and a b
    else if op == Op.sub
    then sub32 a b
    else if op == Op.sra
    then wrap (asr (signed a) (b % 2 ^ 5))
    else if op == Op.mul
    then u32 (a * b)
    else if op == Op.mulh
    then mulh a b
    else if op == Op.mulhsu
    then mulhsu a b
    else if op == Op.mulhu
    then mulhu a b
    else if op == Op.div
    then div_signed a b
    else if op == Op.divu
    then div_unsigned a b
    else if op == Op.rem
    then rem_signed a b
    else rem_unsigned a b

-- The register-immediate handlers; `i` is `TC_IMM(w)`.
unfoldable pub reg_imm : ℕ → ℕ → ℕ → ℕ
reg_imm op a i =
    if op == Op.addi
    then add32 a i
    else if op == Op.slli
    then u32 (a <<< (i % 2 ^ 5))
    else if op == Op.slti
    then (if lt_ℤ (signed a) (signed i) then 1 else 0)
    else if op == Op.sltiu
    then (if ltb a i then 1 else 0)
    else if op == Op.xori
    then bit_xor a i
    else if op == Op.srli
    then a >>> (i % 2 ^ 5)
    else if op == Op.ori
    then bit_or a i
    else if op == Op.andi
    then bit_and a i
    else wrap (asr (signed a) (i % 2 ^ 5))

-- The conditions of the branch handlers.
unfoldable pub taken : ℕ → ℕ → ℕ → Bool
taken op a b =
    if op == Op.beq
    then a == b
    else if op == Op.bne
    then not (a == b)
    else if op == Op.blt
    then lt_ℤ (signed a) (signed b)
    else if op == Op.bge
    then not (lt_ℤ (signed a) (signed b))
    else if op == Op.bltu
    then ltb a b
    else not (ltb a b)

-- `idx + (uint32_t)(disp >> 2)` for a displacement with a sign.
unfoldable pub relocated : ℕ → ℕ → ℕ
relocated idx disp = add32 idx (wrap (asr (signed disp) 2))

-- The link register, which may be x0.
abbrev pub link : State → ℕ → ℕ → State
link s rd idx = if rd == 0 then s else set_x s rd (add32 (u32 (idx * 4)) 4)

unfoldable pub h_branch : State → ℕ → ℕ → Effect
unfolding taken relocated
h_branch s idx w =
    if taken (tc_op w) (s.x (tc_a w)) (s.x (tc_b w))
    then reloc (relocated idx (tc_imm w)) 1 s
    else fall 1 1 s

unfoldable pub h_jal : State → ℕ → ℕ → Effect
unfolding relocated
h_jal s idx w = reloc (relocated idx (tc_joff w)) 1 (link s (tc_a w) idx)

unfoldable pub h_jalr : State → ℕ → ℕ → Effect
h_jalr s idx w = leap (add32 (s.x (tc_b w)) (tc_imm w) / 2 * 2) 1 (link s (tc_a w) idx)

unfoldable pub h_shadd : State → ℕ → State
h_shadd s w = set_x s (tc_a w) (add32 (s.x (tc_b w)) (u32 (s.x (tc_c w) <<< tc_sh w)))

module _ (callback : State → MemOp → ℕ → ℕ → State × ℕ) where
  unfoldable pub h_lwx : State → ℕ → State
  unfolding load_le
  h_lwx s w =
      let (s', v) =
        load_le callback s (add32 (add32 (s.x (tc_b w)) (s.x (tc_c w))) (tc_off11 w)) 4 in
      set_x s' (tc_a w) v

  -- The two loads of LWLW and VCALL, with the word that they end with.
  unfoldable pub load_twice : State → ℕ → State × ℕ
  unfolding load_le
  load_twice s w =
      let (s', v) = load_le callback s (add32 (s.x (tc_b w)) (tc_o1 w)) 4 in
      load_le callback s' (add32 v (tc_o2 w)) 4

  unfoldable pub h_lwlw : State → ℕ → State
  unfolding load_twice
  h_lwlw s w = let (s', v) = load_twice s w in set_x s' (tc_a w) v

  unfoldable pub h_lwsw : State → ℕ → State
  unfolding load_le store_le
  h_lwsw s w =
      let (s', v) = load_le callback s (add32 (s.x (tc_b w)) (tc_w1 w)) 4 in
      let s'' = set_x s' (tc_a w) v in store_le callback s'' (add32 (s''.x (tc_c w)) (tc_w2 w)) 4 v

  unfoldable pub h_vcall : State → ℕ → ℕ → Effect
  unfolding load_twice
  h_vcall s idx w =
      let (s', v) = load_twice s w in
      let t = v / 2 * 2 in leap t 3 (set_x (set_x s' (tc_a w) t) 1 (add32 (u32 (idx * 4)) 4))

  -- `LOADBZ(T)`; `w1` is the second word.
  unfoldable pub load_bz : State → ℕ → ℕ → ℕ → Effect
  unfolding load_le cast_load load_size relocated
  load_bz s idx w w1 =
      let op = if tc_op w == Op.lw_bz then Op.lw else Op.lbu in
      let (s', v) = load_le callback s (add32 (s.x (tc_b w)) (tc_imm w)) (load_size op) in
      let s'' = set_x s' (tc_a w) (cast_load op v) in
      let zero_bit : ℕ = if cast_load op v == 0 then 1 else 0 in
      if zero_bit == w1 % 2 then reloc (relocated idx w1) 2 s'' else fall 2 2 s''

  unfoldable pub h_prologue : State → ℕ → Effect
  unfolding prologue
  h_prologue s w = let (s', cnt) = prologue callback s w in fall 1 (cnt + 1) s'

  unfoldable pub h_epilogue : State → ℕ → Effect
  unfolding epilogue
  h_epilogue s w = let (s', cnt) = epilogue callback s w in leap (s'.x 1 / 2 * 2) (cnt + 2) s'

  unfoldable pub h_memop : State → ℕ → Effect
  unfolding purv_memop
  h_memop s w =
      let (s', charge) = purv_memop callback s (w % 2 ^ 3) (tc_a w) (tc_b w) (tc_c w) in
      fall 1 (charge + 1) s'

  -- The table of handlers.
  unfoldable pub handler : State → ℕ → ℕ → ℕ → Effect
  unfolding reg_reg reg_imm h_branch h_jal h_jalr h_shadd h_lwx h_lwlw h_lwsw h_vcall load_bz
      h_prologue h_epilogue h_memop load_reg store_reg
  handler s idx w w1 =
      let op = tc_op w in
      let rd = tc_a w in
      if leb op Op.sra || leb Op.mul op && leb op Op.remu
      then fall 1 1 (set_x s rd (reg_reg op (s.x (tc_b w)) (s.x (tc_c w))))
      else if leb Op.addi op && leb op Op.srai
      then fall 1 1 (set_x s rd (reg_imm op (s.x (tc_b w)) (tc_imm w)))
      else if leb Op.lb op && leb op Op.lhu
      then fall 1 1 (load_reg callback s op w)
      else if leb Op.sb op && leb op Op.sw
      then fall 1 1 (store_reg callback s op w)
      else if leb Op.beq op && leb op Op.bgeu
      then h_branch s idx w
      else if op == Op.jal
      then h_jal s idx w
      else if op == Op.jalr
      then h_jalr s idx w
      else if op == Op.lui
      then fall 1 1 (set_x s rd (u32 (tc_uimm w <<< 12)))
      else if op == Op.auipc
      then fall 1 1 (set_x s rd (add32 (u32 (idx * 4)) (u32 (tc_uimm w <<< 12))))
      else if op == Op.nop
      then fall 1 1 s
      else if op == Op.prologue
      then h_prologue s w
      else if op == Op.epilogue
      then h_epilogue s w
      else if op == Op.li_lo
      then fall 1 1 (set_x s rd (tc_joff w))
      else if op == Op.li_hi
      then fall 1 1 (set_x s rd (add32 (tc_joff w) riscv_half))
      else if op == Op.shadd
      then fall 1 2 (h_shadd s w)
      else if op == Op.lwx
      then fall 1 2 (h_lwx s w)
      else if op == Op.lwlw
      then fall 1 2 (h_lwlw s w)
      else if op == Op.lw_bz || op == Op.lbu_bz
      then load_bz s idx w w1
      else if op == Op.lwsw
      then fall 1 2 (h_lwsw s w)
      else if op == Op.vcall
      then h_vcall s idx w
      else if op == Op.memop
      then h_memop s w
      else trapped s
