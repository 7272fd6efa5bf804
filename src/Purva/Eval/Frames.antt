-- ===== src/Purva/Eval/Frames.antt =====
-- emu/purva/purva.c: the fused prologue and epilogue, with one check for the whole band of saved
-- registers, and the fallbacks that go slot by slot.
pub mod Masks
pub mod Bands
use purv.Base.{
  ℕ, zero, suc, ◌+◌, ◌-◌, ◌/◌, ◌%◌, ◌^◌, bit_and, Option, none, some, List, [], ◌∷◌, get_or, leb,
  ◌==◌, if◌then◌else◌, add32, sub32, field,
}
use purv.Engine.{Region, State, MemOp}
use purv.Bulk.{set_x}
use purv.Purva.Eval.Memory.{mem_w, mem_r, ld_le, st_le, load_le, store_le}

abbrev pub rank2reg : List ℕ
rank2reg = 1 ∷ 8 ∷ 9 ∷ 18 ∷ 19 ∷ 20 ∷ 21 ∷ 22 ∷ 23 ∷ 24 ∷ 25 ∷ 26 ∷ 27 ∷ []

-- `FRAME_SAVE_SPAN`
abbrev pub frame_save_span : ℕ
frame_save_span = 52

unfoldable pub frame_top : State → ℕ → Option ℕ
frame_top s top =
    let rel = sub32 top s.writable.base in
    if leb (sub32 rel frame_save_span) (sub32 s.writable.len frame_save_span)
    then some (s.writable.ptr + rel)
    else none

-- `__builtin_ctz` of a number that is not 0, in at most `n` rounds.
unfoldable pub ctz : ℕ → ℕ → ℕ
ctz zero m = 0
ctz (suc n) m = let rest = ctz n (m / 2) in if m % 2 == 1 then 0 else suc rest

-- The macro `SAVE` for the registers `regs` from `bit` on: the state and `cnt`.
unfoldable pub save_fast : List ℕ → ℕ → ℕ → ℕ → State → ℕ → State × ℕ
save_fast [] bit rmask q s cnt = (s, cnt)
save_fast (r ∷ regs) bit rmask q s cnt =
    if field rmask bit 1 == 1
    then save_fast regs (bit + 1) rmask (q - 4) (record s { host = st_le s.host (q - 4) 4 (s.x r) })
        (cnt + 1)
    else save_fast regs (bit + 1) rmask q s cnt

-- The macro `REST`.
unfoldable pub restore_fast : List ℕ → ℕ → ℕ → ℕ → State → ℕ → State × ℕ
restore_fast [] bit rmask q s cnt = (s, cnt)
restore_fast (r ∷ regs) bit rmask q s cnt =
    if field rmask bit 1 == 1
    then restore_fast regs (bit + 1) rmask (q - 4) (set_x s r (ld_le s.host (q - 4) 4)) (cnt + 1)
    else restore_fast regs (bit + 1) rmask q s cnt

module _ (callback : State → MemOp → ℕ → ℕ → State × ℕ) where
  -- The loops `while (m)`; each round clears a bit, so `fuel` is a bound on the bits of `m`.
  unfoldable pub prologue_slow : ℕ → ℕ → ℕ → State → ℕ → State × ℕ
  prologue_slow zero m addr s cnt = (s, cnt)
  prologue_slow (suc fuel) m addr s cnt =
      let v = s.x (get_or rank2reg (ctz 32 m) 0) in
      let rest =
        prologue_slow fuel (bit_and m (m - 1)) (sub32 addr 4)
          (store_le callback s (sub32 addr 4) 4 v) (cnt + 1) in
      if m == 0 then (s, cnt) else rest

  unfoldable pub epilogue_slow : ℕ → ℕ → ℕ → State → ℕ → State × ℕ
  epilogue_slow zero m addr s cnt = (s, cnt)
  epilogue_slow (suc fuel) m addr s cnt =
      let (s', v) = load_le callback s (sub32 addr 4) 4 in
      let rest =
        epilogue_slow fuel (bit_and m (m - 1)) (sub32 addr 4)
          (set_x s' (get_or rank2reg (ctz 32 m) 0) v) (cnt + 1) in
      if m == 0 then (s, cnt) else rest

  -- The saves of `h_prologue` below `top`, and the restores of `h_epilogue`.
  unfoldable pub save_frame : State → ℕ → ℕ → State × ℕ
  save_frame s rmask top = elim (frame_top s top) [
    | none ↦ prologue_slow 13 rmask top s 0
    | some q ↦ save_fast rank2reg 0 rmask q s 0
  ]

  unfoldable pub restore_frame : State → ℕ → ℕ → State × ℕ
  restore_frame s rmask top = elim (frame_top s top) [
    | none ↦ epilogue_slow 13 rmask top s 0
    | some q ↦ restore_fast rank2reg 0 rmask q s 0
  ]

  -- `h_prologue` and `h_epilogue` up to the jump.
  unfoldable pub prologue : State → ℕ → State × ℕ
  prologue s w =
      let (s', cnt) = save_frame s (field w 13 13) (s.x 2) in
      (set_x s' 2 (sub32 (s.x 2) (w % 2 ^ 13)), cnt)

  unfoldable pub epilogue : State → ℕ → State × ℕ
  epilogue s w =
      let top = add32 (s.x 2) (w % 2 ^ 13) in
      let (s', cnt) = restore_frame s (field w 13 13) top in (set_x s' 2 top, cnt)
