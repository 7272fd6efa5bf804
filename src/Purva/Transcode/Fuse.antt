-- ===== src/Purva/Transcode/Fuse.antt =====
-- emu/purva/transcode.c: runs of instructions that become one op. `none` is that nothing fuses,
-- `return 0`; else the bytes consumed come with the op. A field of `*out` that a fusion does not set
-- keeps what it held.
pub mod Pairs
use purv.Base.{
  ℕ, zero, suc, ◌+◌, ◌-◌, ◌*◌, ◌/◌, ◌%◌, ◌^◌, bit_or, Bool, not, ◌&&◌, ◌||◌, Option, none, some,
  List, [], ◌∷◌, length, ltb, leb, ◌==◌, if◌then◌else◌, add32, sub32, u32, ◌<<<◌,
}
use purv.Base.Int.{signed, lt_ℤ, neg_ℕ, pos}
use purv.Engine.{riscv_half}
use purv.Purva.Op
use purv.Purva.Transcode.{DecodedInst, decode}
use purv.Purva.Transcode.Targets.{Targets, targets_has}

-- `(int32_t)x < 0`
abbrev pub is_negative : ℕ → Bool
is_negative x = lt_ℤ (signed x) (pos 0)

-- `(int32_t)x >= -k && (int32_t)x < k`
abbrev pub within : ℕ → ℕ → Bool
within k x = not (lt_ℤ (signed x) (neg_ℕ k)) && lt_ℤ (signed x) (pos k)

-- The rank of a callee-saved register; `none` is -1.
unfoldable pub rank_of : ℕ → Option ℕ
rank_of r =
    if r == 1
    then some 0
    else if r == 8
    then some 1
    else if r == 9
    then some 2
    else if leb 18 r && leb r 27
    then some (3 + (r - 18))
    else none

abbrev pub has_rank : ℕ → Bool
has_rank r = elim (rank_of r) [ none ↦ Bool.false | some k ↦ Bool.true ]

-- `regs[found]` for the first slot whose offset is `want`; `none` is `found < 0`.
unfoldable pub find_slot : ℕ → List (ℕ × ℕ) → Option ℕ
find_slot want [] = none
find_slot want ((r, o) ∷ slots) = if o == want then some r else find_slot want slots

-- The loop of `frame_canonical` over the slot numbers from `p` on, `left` to go. `next` is
-- `prev + 1`, and `m` the mask so far; the result is `*rmask`, or `none` for `return 0`.
unfoldable pub canonical_from : List (ℕ × ℕ) → ℕ → ℕ → ℕ → ℕ → ℕ → Option ℕ
canonical_from slots frame zero p next m = some m
canonical_from slots frame (suc left) p next m =
    elim (find_slot (sub32 (sub32 frame 4) (4 * p)) slots) [
      | none ↦ none
      | some r ↦ elim (rank_of r) [
        | none ↦ none
        | some rk ↦
            if ltb rk next
            then none
            else canonical_from slots frame left (p + 1) (rk + 1) (bit_or m (1 <<< rk))
      ]
    ]

-- `slots` are `regs` and `offs`, and `cnt` their length.
unfoldable pub frame_canonical : List (ℕ × ℕ) → ℕ → Option ℕ
frame_canonical slots frame = canonical_from slots frame (length slots) 0 0 0

unfoldable pub frame_enc : ℕ → ℕ → ℕ
frame_enc rmask frame = bit_or (u32 (rmask <<< 13)) (frame % 2 ^ 13)

module _ (code : ℕ → ℕ) (len : ℕ) (targets : Targets) where
  -- The run of saves at `o`, at most `left` of them.
  unfoldable pub saves_from : ℕ → ℕ → List (ℕ × ℕ)
  saves_from zero o = []
  saves_from (suc left) o =
      let s = decode code o in
      let rest = saves_from left (add32 o 4) in
      if not (leb (add32 o 4) len) || targets_has targets o
      then []
      else if not (s.op == Op.sw) || (not (s.rs1 == 2) || not (has_rank s.rs2))
      then []
      else (s.rs2, s.imm) ∷ rest

  unfoldable pub try_fuse_prologue : ℕ → DecodedInst → Option (DecodedInst × ℕ)
  try_fuse_prologue off out =
      let a = decode code off in
      let frame = sub32 0 a.imm in
      let slots = saves_from 13 (add32 off 4) in
      if not (a.op == Op.addi) || (not (a.rd == 2) || (not (a.rs1 == 2) || not (is_negative a.imm)))
      then none
      else if frame == 0 || ltb 0x1fff frame
      then none
      else if length slots == 0
      then none
      else elim (frame_canonical slots frame) [
        | none ↦ none
        | some rmask ↦
            some
              (record out { op = Op.prologue; imm = frame_enc rmask frame }, 4 * (1 + length slots))
      ]

  -- The run of restores at `o` for an epilogue at `off`.
  unfoldable pub restores_from : ℕ → ℕ → ℕ → List (ℕ × ℕ)
  restores_from off zero o = []
  restores_from off (suc left) o =
      let l = decode code o in
      let rest = restores_from off left (add32 o 4) in
      if not (leb (add32 o 4) len) || not (o == off) && targets_has targets o
      then []
      else if not (l.op == Op.lw) || (not (l.rs1 == 2) || not (has_rank l.rd))
      then []
      else (l.rd, l.imm) ∷ rest

  unfoldable pub try_fuse_epilogue : ℕ → DecodedInst → Option (DecodedInst × ℕ)
  try_fuse_epilogue off out =
      let slots = restores_from off 13 off in
      let o = u32 (off + 4 * length slots) in
      let ad = decode code o in
      let rt = decode code (add32 o 4) in
      if length slots == 0 || ltb len (add32 o 8)
      then none
      else if targets_has targets o || targets_has targets (add32 o 4)
      then none
      else if not (ad.op == Op.addi)
          || (not (ad.rd == 2) || (not (ad.rs1 == 2) || (is_negative ad.imm || ad.imm == 0)))
      then none
      else if ltb 0x1fff ad.imm
      then none
      else if not (rt.op == Op.jalr)
          || (not (rt.rd == 0) || (not (rt.rs1 == 1) || not (rt.imm == 0)))
      then none
      else elim (frame_canonical slots ad.imm) [
        | none ↦ none
        | some rmask ↦
            some
              (record out { op = Op.epilogue; imm = frame_enc rmask ad.imm }, sub32 (add32 o 8) off)
      ]

  -- The load-immediate for the address `final`.
  unfoldable pub fuse_address : ℕ → ℕ → DecodedInst → Option (DecodedInst × ℕ)
  fuse_address final rd out =
      let hi = sub32 final riscv_half in
      if within (2 ^ 20) final
      then some (record out { op = Op.li_lo; imm = final % 2 ^ 21; rd = rd }, 8)
      else if within (2 ^ 20) hi
      then some (record out { op = Op.li_hi; imm = hi % 2 ^ 21; rd = rd }, 8)
      else none

  unfoldable pub try_fuse_la : ℕ → DecodedInst → Option (DecodedInst × ℕ)
  try_fuse_la off out =
      let a = decode code off in
      let b = decode code (add32 off 4) in
      let final = add32 (add32 off (u32 (a.imm <<< 12))) b.imm in
      if ltb len (add32 off 8) || targets_has targets (add32 off 4)
      then none
      else if not (a.op == Op.auipc)
      then none
      else if not (b.op == Op.addi) || (not (b.rd == a.rd) || not (b.rs1 == a.rd))
      then none
      else if ltb final len
      then none
      else fuse_address final a.rd out
