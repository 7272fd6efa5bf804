-- ===== src/Engine/Memory/RoundTrip.antt =====
-- What a store writes, a load of the same width and address reads back.
use purv.Base.{
  ℕ, ◌+◌, ◌*◌, ◌%◌, ◌^◌, ◌<◌, ◌≡◌, ap, ◌≢◌, ◌⊎◌, true, false, some, arith, ◌<<<◌, add32,
}
use purv.Base.Int.{signed8, signed16, wrap}
use purv.Base.Bits.{bit_or_between, bit_or_at}
use purv.Engine.{State, Handlers, wr}
use purv.Engine.Memory.{mem_xlate, read16, read32, write8, write16, write32}
use purv.Engine.Decode.{Decoded}
use purv.Engine.Decode.Fields.{sext}
use purv.Engine.Exec.{done}
use purv.Engine.Exec.Arith.{load_value}
use purv.Engine.Exec.Bodies.{store_at, exec_store, exec_load}

read16_sum :
    (host : ℕ → ℕ) (p : ℕ)
    → host p < 256
    → host (p + 1) < 256
    → read16 host p ≡ host p + host (p + 1) * 2 ^ 8
unfolding read16
read16_sum host p h₀ h₁ = ground (arith, bit_or_between 8 8 0 (host p) (host (p + 1)))

read32_sum :
    (host : ℕ → ℕ) (p : ℕ)
    → host p < 256
    → host (p + 1) < 256
    → host (p + 2) < 256
    → host (p + 3) < 256
    → read32 host p ≡ host p + host (p + 1) * 2 ^ 8 + host (p + 2) * 2 ^ 16 + host (p + 3) * 2 ^ 24
unfolding read32
read32_sum host p h₀ h₁ h₂ h₃ =
    let a = host p in
    let b = host (p + 1) in
    let c = host (p + 2) in
    let d = host (p + 3) in
    rw (
      bit_or_at 8 8 a b h₀ h₁,
      bit_or_at 16 8 (a + b * 2 ^ 8) c (omega arith) h₂,
      bit_or_at 24 8 (a + b * 2 ^ 8 + c * 2 ^ 16) d (omega arith) h₃,
    )

-- `sext` at the widths of a load.
sext_byte : (b : ℕ) → wrap (signed8 (b % 2 ^ 8)) ≡ sext b 8
unfolding sext
sext_byte b = ground arith

sext_half : (b : ℕ) → wrap (signed16 (b % 2 ^ 16)) ≡ sext b 16
unfolding sext
sext_half b = ground arith

sext_word : (b : ℕ) → b < 2 ^ 32 → b ≡ sext b 32
unfolding sext
sext_word b h = ground arith

module _ (host : ℕ → ℕ) (p b : ℕ) where
  read8-write8 : write8 host p b p ≡ b % 2 ^ 8
  unfolding write8
  read8-write8 = ground arith

  read16-write16 : read16 (write16 host p b) p ≡ b % 2 ^ 16
  unfolding write16 write8
  read16-write16 = ground (arith, read16_sum (write16 host p b) p)

  read32-write32 : b < 2 ^ 32 → read32 (write32 host p b) p ≡ b
  unfolding write32 write8
  read32-write32 h = ground (arith, read32_sum (write32 host p b) p)

-- The value that a load of the store's width, with sign extension, finds where the store wrote.
load_value-store_at :
    (s : State) (p : ℕ) (d : Decoded)
    → d.f3 < 3
    → d.b < 2 ^ 32
    → load_value (store_at s p d).host p d.f3 ≡ sext d.b (8 * (1 <<< d.f3))
unfolding load_value store_at
load_value-store_at s p d narrow word = by_width (ground arith)
  where
    by_width :
        (d.f3 ≡ 0) ⊎ (d.f3 ≡ 1) ⊎ (d.f3 ≡ 2)
        → load_value (store_at s p d).host p d.f3 ≡ sext d.b (8 * (1 <<< d.f3))
    by_width c = ground (
      arith,
      c,
      ap (λ (t : ℕ). sext d.b (8 * (1 <<< t))) {x = d.f3} {y = 0},
      ap (λ (t : ℕ). sext d.b (8 * (1 <<< t))) {x = d.f3} {y = 1},
      ap (λ (t : ℕ). sext d.b (8 * (1 <<< t))) {x = d.f3} {y = 2},
      read8-write8 s.host p d.b,
      read16-write16 s.host p d.b,
      read32-write32 s.host p d.b word,
      sext_byte d.b,
      sext_half d.b,
      sext_word d.b word,
    )

-- The bodies, where the translation hits.
exec_store_hit :
    (h : Handlers) (s : State) (pc p : ℕ) (d : Decoded)
    → d.f3 < 3
    → mem_xlate s (add32 d.a d.imm) (1 <<< d.f3) true ≡ some p
    → exec_store h s pc d ≡ done (store_at s p d)
unfolding exec_store
exec_store_hit h s pc p d narrow hit = ground arith

exec_load_hit :
    (h : Handlers) (s : State) (pc p : ℕ) (d : Decoded)
    → d.f3 < 3
    → d.rd ≢ 0
    → mem_xlate s (add32 d.a d.imm) (1 <<< (d.f3 % 2 ^ 2)) false ≡ some p
    → exec_load h s pc d ≡ done (wr s d.rd (load_value s.host p d.f3))
unfolding exec_load
exec_load_hit h s pc p d narrow not_x0 hit = ground arith

-- What a write may touch a read finds, before and after the store.
mem_xlate_read_back :
    (s : State) (addr n p : ℕ) (d : Decoded)
    → mem_xlate s addr n true ≡ some p
    → mem_xlate (store_at s p d) addr n false ≡ some p
unfolding mem_xlate store_at
mem_xlate_read_back s addr n p d hit = ground arith

-- A store whose bytes lie in the writable region, and then a load of the same width and address,
-- with sign extension, into a register other than x0: the load delivers the low bytes of what was
-- stored, sign-extended, whatever pc the two instructions stand at.
pub exec_load-exec_store :
    (h : Handlers) (s : State) (pc pc' p : ℕ) (st ld : Decoded)
    → st.f3 < 3
    → st.b < 2 ^ 32
    → mem_xlate s (add32 st.a st.imm) (1 <<< st.f3) true ≡ some p
    → ld.f3 ≡ st.f3
    → ld.rd ≢ 0
    → add32 ld.a ld.imm ≡ add32 st.a st.imm
    → (s' : State) × (exec_store h s pc st ≡ done s')
      × (exec_load h s' pc' ld ≡ done (wr s' ld.rd (sext st.b (8 * (1 <<< st.f3)))))
exec_load-exec_store h s pc pc' p st ld narrow word hit same_width not_x0 same_addr = (
  store_at s p st,
  exec_store_hit h s pc p st narrow hit,
  rw (
    exec_load_hit h (store_at s p st) pc' p ld (omega arith) not_x0 found,
    same_width,
    load_value-store_at s p st narrow word,
  ),
)
  where
    width : 1 <<< st.f3 ≡ 1 <<< (ld.f3 % 2 ^ 2)
    width = let small : st.f3 ≡ ld.f3 % 2 ^ 2 = omega arith in ap (λ (t : ℕ). 1 <<< t) small

    found : mem_xlate (store_at s p st) (add32 ld.a ld.imm) (1 <<< (ld.f3 % 2 ^ 2)) false ≡ some p
    found =
        rw (same_addr, ← width) (mem_xlate_read_back s (add32 st.a st.imm) (1 <<< st.f3) p st hit)
