-- ===== src/Engine/Memory.antt =====
-- emu/purv.c, `mem_xlate`, and the accesses of one to four bytes at the pointer that it gives.
pub mod Bounds
pub mod RoundTrip
use purv.Base.{
  ℕ, ◌+◌, ◌-◌, bit_or, Bool, ◌&&◌, Option, none, some, ltb, leb, if◌then◌else◌, sub32, u8, ◌<<<◌,
  ◌>>>◌,
}
use purv.Engine.{Region, State, update}

-- One region's check, `rel < len && n <= len - rel`, with the host pointer that it gives.
unfoldable pub region_xlate : Region → ℕ → ℕ → Option ℕ
region_xlate r addr n =
    let rel = sub32 addr r.base in
    if ltb rel r.len && leb n (r.len - rel) then some (r.ptr + rel) else none

-- `mem_xlate`: `none` is the NULL of a miss, or of a write to the read-only region.
unfoldable pub mem_xlate : State → ℕ → ℕ → Bool → Option ℕ
mem_xlate s addr n write = elim (region_xlate s.writable addr n) [
  | some p ↦ some p
  | none ↦ if write then none else region_xlate s.readonly addr n
]

-- `p[0] | p[1] << 8`
unfoldable pub read16 : (ℕ → ℕ) → ℕ → ℕ
read16 host p = bit_or (host p) (host (p + 1) <<< 8)

-- `p[0] | p[1] << 8 | p[2] << 16 | p[3] << 24`
unfoldable pub read32 : (ℕ → ℕ) → ℕ → ℕ
read32 host p =
    bit_or (bit_or (bit_or (host p) (host (p + 1) <<< 8)) (host (p + 2) <<< 16))
      (host (p + 3) <<< 24)

unfoldable pub write8 : (ℕ → ℕ) → ℕ → ℕ → ℕ → ℕ
write8 host p b = update host p (u8 b)

unfoldable pub write16 : (ℕ → ℕ) → ℕ → ℕ → ℕ → ℕ
unfolding write8
write16 host p b = write8 (write8 host p b) (p + 1) (b >>> 8)

unfoldable pub write32 : (ℕ → ℕ) → ℕ → ℕ → ℕ → ℕ
unfolding write8
write32 host p b =
    write8 (write8 (write8 (write8 host p b) (p + 1) (b >>> 8)) (p + 2) (b >>> 16)) (p + 3)
      (b >>> 24)
