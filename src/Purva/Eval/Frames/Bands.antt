-- ===== src/Purva/Eval/Frames/Bands.antt =====
-- The one check of the prologue and the epilogue against the checks of the single slots.
use purv.Base.{
  ℕ, zero, suc, ◌+◌, ◌-◌, ◌*◌, ◌^◌, ◌≤◌, ◌<◌, ◌≡◌, refl, ap, sym, ◌∙◌, bit_and, inl, inr, some,
  List, [], ◌∷◌, length, get_or, ◌==◌, Bool-cases, Option-cases, field, sub32, arith,
}
use mathlib.Core.Path.{subst}
use purv.Engine.{State, MemOp}
use purv.Bulk.{set_x}
use purv.Purva.Eval.Memory.{mem_w, mem_r, region_block, ld_le, st_le, load_le, store_le}
use purv.Purva.Eval.Frames.{
  rank2reg, frame_top, ctz, save_fast, restore_fast, prologue_slow, epilogue_slow, save_frame,
  restore_frame,
}
use purv.Purva.Eval.Frames.Masks.{
  selected, drained, drained_none, drained_done, drained-more, drained-eq-selected, length-selected,
}

-- The loops over the registers themselves: from the pointer `q`, and from the address `addr`.
save_at : List ℕ → ℕ → State → ℕ → State × ℕ
save_at [] q s cnt = (s, cnt)
save_at (r ∷ regs) q s cnt =
    save_at regs (q - 4) (record s { host = st_le s.host (q - 4) 4 (s.x r) }) (cnt + 1)

restore_at : List ℕ → ℕ → State → ℕ → State × ℕ
restore_at [] q s cnt = (s, cnt)
restore_at (r ∷ regs) q s cnt =
    restore_at regs (q - 4) (set_x s r (ld_le s.host (q - 4) 4)) (cnt + 1)

save_fast-eq-save_at :
    (regs : List ℕ) (bit m q : ℕ) (s : State) (cnt : ℕ)
    → save_fast regs bit m q s cnt ≡ save_at (selected regs bit m) q s cnt
unfolding save_fast save_at selected
save_fast-eq-save_at [] bit m q s cnt = refl
save_fast-eq-save_at (r ∷ regs) bit m q s cnt = elim (Bool-cases (field m bit 1 == 1)) [
  | inl set ↦ rw set (
      save_fast-eq-save_at regs (bit + 1) m (q - 4)
        (record s { host = st_le s.host (q - 4) 4 (s.x r) }) (cnt + 1))
  | inr clear ↦ rw clear (save_fast-eq-save_at regs (bit + 1) m q s cnt)
]

restore_fast-eq-restore_at :
    (regs : List ℕ) (bit m q : ℕ) (s : State) (cnt : ℕ)
    → restore_fast regs bit m q s cnt ≡ restore_at (selected regs bit m) q s cnt
unfolding restore_fast restore_at selected
restore_fast-eq-restore_at [] bit m q s cnt = refl
restore_fast-eq-restore_at (r ∷ regs) bit m q s cnt = elim (Bool-cases (field m bit 1 == 1)) [
  | inl set ↦ rw set (
      restore_fast-eq-restore_at regs (bit + 1) m (q - 4) (set_x s r (ld_le s.host (q - 4) 4))
        (cnt + 1))
  | inr clear ↦ rw clear (restore_fast-eq-restore_at regs (bit + 1) m q s cnt)
]

abbrev reg_of_rank : ℕ → ℕ
reg_of_rank r = get_or rank2reg r 0

-- `q` is the host pointer to `addr`, with room for `n` slots below it in the writable region.
abbrev IsBand : State → ℕ → ℕ → ℕ → Type 0
IsBand s addr q n =
    (q ≡ s.writable.ptr + sub32 addr s.writable.base)
    × (4 * n ≤ sub32 addr s.writable.base)
    × (sub32 addr s.writable.base ≤ s.writable.len)
    × (addr < 2 ^ 32)
    × (s.writable.base < 2 ^ 32)

mem_w-band :
    (s : State) (addr q n : ℕ) → IsBand s addr q (suc n) → mem_w s (sub32 addr 4) 4 ≡ some (q - 4)
unfolding mem_w region_block
mem_w-band s addr q n band = ground arith

mem_r-band :
    (s : State) (addr q n : ℕ) → IsBand s addr q (suc n) → mem_r s (sub32 addr 4) 4 ≡ some (q - 4)
unfolding mem_r
mem_r-band s addr q n band = rw (mem_w-band s addr q n band, mem_r)

IsBand-next :
    (s : State) (addr q n : ℕ) → IsBand s addr q (suc n) → IsBand s (sub32 addr 4) (q - 4) n
IsBand-next s addr q n band = (omega arith, omega arith, omega arith, omega arith, omega arith)

-- A hit of `frame_top` has room for all 13 registers.
frame_top-IsBand :
    (s : State) (top q : ℕ)
    → 52 ≤ s.writable.len
    → s.writable.len < 2 ^ 32
    → s.writable.base < 2 ^ 32
    → top < 2 ^ 32
    → frame_top s top ≡ some q
    → IsBand s top q 13
unfolding frame_top
frame_top-IsBand s top q room lt base ht e = ground arith

module _ (callback : State → MemOp → ℕ → ℕ → State × ℕ) where
  store_le-band :
      (s : State) (addr q n v : ℕ)
      → IsBand s addr q (suc n)
      → store_le callback s (sub32 addr 4) 4 v ≡ record s { host = st_le s.host (q - 4) 4 v }
  unfolding store_le
  store_le-band s addr q n v band = ground (arith, mem_w-band s addr q n band)

  load_le-band :
      (s : State) (addr q n : ℕ)
      → IsBand s addr q (suc n)
      → load_le callback s (sub32 addr 4) 4 ≡ (s, ld_le s.host (q - 4) 4)
  unfolding load_le
  load_le-band s addr q n band = ground (arith, mem_r-band s addr q n band)

  -- Slot by slot, with every slot in the region.
  prologue_slow-lem :
      (fuel m addr q : ℕ) (s : State) (cnt : ℕ)
      → IsBand s addr q (length (drained reg_of_rank 32 fuel m))
      → prologue_slow callback fuel m addr s cnt ≡ save_at (drained reg_of_rank 32 fuel m) q s cnt
  unfolding prologue_slow save_at
  prologue_slow-lem zero m addr q s cnt band = rw (drained_none reg_of_rank 32 m)
  prologue_slow-lem (suc fuel) m addr q s cnt band = elim (Bool-cases (m == 0)) [
    | inl empty ↦ rw (empty, drained_done reg_of_rank 32 fuel m empty)
    | inr more ↦
        let rest = bit_and m (m - 1) in
        let v = s.x (reg_of_rank (ctz 32 m)) in
        let regs = drained-more reg_of_rank 32 fuel m more in
        let here = subst (λ t. IsBand s addr q (length t)) regs band in
        let left = length (drained reg_of_rank 32 fuel rest) in
        rw (more, regs, store_le-band s addr q left v here)
          (prologue_slow-lem fuel rest (sub32 addr 4) (q - 4)
            (record s { host = st_le s.host (q - 4) 4 v }) (cnt + 1)
            (IsBand-next s addr q left here))
  ]

  epilogue_slow-lem :
      (fuel m addr q : ℕ) (s : State) (cnt : ℕ)
      → IsBand s addr q (length (drained reg_of_rank 32 fuel m))
      → epilogue_slow callback fuel m addr s cnt
        ≡ restore_at (drained reg_of_rank 32 fuel m) q s cnt
  unfolding epilogue_slow restore_at
  epilogue_slow-lem zero m addr q s cnt band = rw (drained_none reg_of_rank 32 m)
  epilogue_slow-lem (suc fuel) m addr q s cnt band = elim (Bool-cases (m == 0)) [
    | inl empty ↦ rw (empty, drained_done reg_of_rank 32 fuel m empty)
    | inr more ↦
        let rest = bit_and m (m - 1) in
        let v = ld_le s.host (q - 4) 4 in
        let regs = drained-more reg_of_rank 32 fuel m more in
        let here = subst (λ t. IsBand s addr q (length t)) regs band in
        let left = length (drained reg_of_rank 32 fuel rest) in
        rw (more, regs, load_le-band s addr q left here)
          (epilogue_slow-lem fuel rest (sub32 addr 4) (q - 4) (set_x s (reg_of_rank (ctz 32 m)) v)
            (cnt + 1) (IsBand-next s addr q left here))
  ]

  shorter-IsBand :
      (s : State) (m top q : ℕ)
      → m < 2 ^ 13
      → IsBand s top q 13
      → IsBand s top q (length (drained reg_of_rank 32 13 m))
  shorter-IsBand s m top q hm band =
      let few : length (drained reg_of_rank 32 13 m) ≤ 13 =
        subst (λ t. length t ≤ 13) (sym (drained-eq-selected m hm))
          (length-selected rank2reg 0 m) in
      (band.0, omega arith, band.2, band.3, band.4)

  -- In a state whose writable region has at least the 52 bytes of the band, and for every 13-bit mask
  -- of callee-saved registers and every frame top: the fused prologue saves, and the fused epilogue
  -- restores, exactly what the slot-by-slot loops do, with the same count of instructions, whether the
  -- one check of the whole band succeeds or not.
  pub frames-eq-slow :
      (s : State) (m top : ℕ)
      → 52 ≤ s.writable.len
      → s.writable.len < 2 ^ 32
      → s.writable.base < 2 ^ 32
      → top < 2 ^ 32
      → m < 2 ^ 13
      → (save_frame callback s m top ≡ prologue_slow callback 13 m top s 0)
        × (restore_frame callback s m top ≡ epilogue_slow callback 13 m top s 0)
  unfolding save_frame restore_frame
  frames-eq-slow s m top room lt base ht hm = elim (Option-cases (frame_top s top)) [
    | inl miss ↦ (ground (arith, miss), ground (arith, miss))
    | inr (q, hit) ↦
        let band = shorter-IsBand s m top q hm (frame_top-IsBand s top q room lt base ht hit) in
        let regs = drained-eq-selected m hm in
        (
          rw (hit, save_frame)
              (save_fast-eq-save_at rank2reg 0 m q s 0
                ∙ ap (λ t. save_at t q s 0) (sym regs)
                ∙ sym (prologue_slow-lem 13 m top q s 0 band)),
          rw (hit, restore_frame)
              (restore_fast-eq-restore_at rank2reg 0 m q s 0
                ∙ ap (λ t. restore_at t q s 0) (sym regs)
                ∙ sym (epilogue_slow-lem 13 m top q s 0 band)),
        )
  ]
