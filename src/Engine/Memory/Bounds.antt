-- ===== src/Engine/Memory/Bounds.antt =====
-- Which host bytes `mem_xlate` gives out, and what a store can change.
use purv.Base.{
  ℕ, ◌+◌, ◌^◌, ◌≤◌, ◌<◌, ◌≡◌, ◌↔◌, ◌⊎◌, inl, inr, Bool, true, false, none, some, sub32, u32, arith,
  Option-cases,
}
use purv.Engine.{Region, State}
use purv.Engine.Memory.{region_xlate, mem_xlate, write8, write16, write32}

-- The guest bytes `[addr, addr + n)` lie in the region, and `p` is the host address of the first.
pub record Holds (r : Region) (addr n p : ℕ) : Type 0 where
  pub rel : ℕ
  pub starts : rel < r.len
  pub fits : rel + n ≤ r.len
  pub guest : u32 (r.base + rel) ≡ addr
  pub at : p ≡ r.ptr + rel

-- A region of the 32-bit address space.
abbrev pub IsRegion : Region → Type 0
IsRegion r = (r.base < 2 ^ 32) × (r.len < 2 ^ 32)

module _ (r : Region) (addr n : ℕ) (ok : IsRegion r) (word : addr < 2 ^ 32) where
  region_xlate-Holds : (p : ℕ) → region_xlate r addr n ≡ some p → Holds r addr n p
  unfolding region_xlate
  region_xlate-Holds p e = record {
    rel = sub32 addr r.base;
    starts = ground arith;
    fits = ground arith;
    guest = omega arith;
    at = ground arith;
  }

  Holds-region_xlate : (p : ℕ) → Holds r addr n p → region_xlate r addr n ≡ some p
  unfolding region_xlate
  Holds-region_xlate p k =
      let same : sub32 addr r.base ≡ k.rel = omega (arith, k.starts, k.guest, ok) in
      ground (arith, same, k.starts, k.fits, k.at)

  region_xlate-none : region_xlate r addr n ≡ none → (p : ℕ) → ¬ Holds r addr n p
  region_xlate-none e p k = ground (arith, Holds-region_xlate p k)

-- `mem_xlate` gives a pointer exactly where it should: the whole access lies in the writable
-- region, or, for a read that does not, in the read-only region; and it is the address of the
-- byte at that offset. The bases and lengths are 32-bit numbers, and so is the address.
pub mem_xlate_iff :
    (s : State) (addr n : ℕ) (write : Bool) (p : ℕ)
    → IsRegion s.writable
    → IsRegion s.readonly
    → addr < 2 ^ 32
    → (mem_xlate s addr n write ≡ some p) ↔ (
        Holds s.writable addr n p
        ⊎ (write ≡ false) × ((q : ℕ) → ¬ Holds s.writable addr n q) × Holds s.readonly addr n p)
unfolding mem_xlate
mem_xlate_iff s addr n write p w r word = (there, back)
  where
    there :
        mem_xlate s addr n write ≡ some p
        → Holds s.writable addr n p
          ⊎ (write ≡ false) × ((q : ℕ) → ¬ Holds s.writable addr n q) × Holds s.readonly addr n p
    there e = elim (Option-cases (region_xlate s.writable addr n)) [
      | inl miss ↦ inr (
        ground (arith, e, miss),
        region_xlate-none s.writable addr n w word miss,
        region_xlate-Holds s.readonly addr n r word p (ground (arith, e, miss)),
      )
      | inr (q, hit) ↦ inl (region_xlate-Holds s.writable addr n w word p (ground (arith, e, hit)))
    ]

    back :
        Holds s.writable addr n p
          ⊎ (write ≡ false) × ((q : ℕ) → ¬ Holds s.writable addr n q) × Holds s.readonly addr n p
        → mem_xlate s addr n write ≡ some p
    back (inl k) = ground (arith, Holds-region_xlate s.writable addr n w word p k)
    back (inr (reading, miss, k)) = elim (Option-cases (region_xlate s.writable addr n)) [
      | inl e ↦ ground (arith, e, reading, Holds-region_xlate s.readonly addr n r word p k)
      | inr (q, e) ↦ absurd (miss q (region_xlate-Holds s.writable addr n w word q e))
    ]

-- A pointer for a write lies in the host's storage of the writable region, with all `n` bytes.
pub mem_xlate_write_bounds :
    (s : State) (addr n p : ℕ)
    → mem_xlate s addr n true ≡ some p
    → (s.writable.ptr ≤ p) × (p + n ≤ s.writable.ptr + s.writable.len)
unfolding mem_xlate region_xlate
mem_xlate_write_bounds s addr n p e = ground arith

-- The stores change the bytes from `p` on, up to their width, and no others.
pub write8_outside : (host : ℕ → ℕ) (p b q : ℕ) → (q < p) ⊎ (p + 1 ≤ q) → write8 host p b q ≡ host q
unfolding write8
write8_outside host p b q h = ground arith

pub write16_outside :
    (host : ℕ → ℕ) (p b q : ℕ) → (q < p) ⊎ (p + 2 ≤ q) → write16 host p b q ≡ host q
unfolding write16
write16_outside host p b q h = ground arith

pub write32_outside :
    (host : ℕ → ℕ) (p b q : ℕ) → (q < p) ⊎ (p + 4 ≤ q) → write32 host p b q ≡ host q
unfolding write32
write32_outside host p b q h = ground arith
