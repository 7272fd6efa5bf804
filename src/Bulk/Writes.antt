-- ===== src/Bulk/Writes.antt =====
-- Where the instruction may write.
use purv.Base.{
  ℕ, zero, suc, ◌+◌, ◌-◌, ◌≤◌, ◌<◌, ◌≡◌, ◌⊎◌, refl, ◌∙◌, ltb, if◌then◌else◌, add32, arith,
}
use purv.Engine.{Region, State, MemOp, mem_load, mem_store}
use purv.Bulk.{
  load_byte, store_byte, copy_byte, copy_loop, set_loop, memop_memcpy, memop_memset, purv_memop,
}

-- A host address outside the storage of a region.
abbrev pub IsOutside : Region → ℕ → Type 0
IsOutside r p = (p < r.ptr) ⊎ (r.ptr + r.len ≤ p)

-- The byte at `p` and the writable region are those of `s`.
abbrev pub Spares : ℕ → State → State → Type 0
Spares p s s' = (s'.writable ≡ s.writable) × (s'.host p ≡ s.host p)

module _ (callback : State → MemOp → ℕ → ℕ → State × ℕ) (p : ℕ)
    (polite : (s : State) (op : MemOp) (a v : ℕ) → Spares p s (callback s op a v).0) where
  load_byte-Spares : (s : State) (a : ℕ) → Spares p s (load_byte callback s a).0
  unfolding load_byte
  load_byte-Spares s a = ground (arith, polite s mem_load a 0)

  store_byte-Spares :
      (s : State) (a v : ℕ) → IsOutside s.writable p → Spares p s (store_byte callback s a v)
  unfolding store_byte
  store_byte-Spares s a v out = ground (arith, polite s mem_store a v)

  copy_byte-Spares :
      (s : State) (a b j : ℕ) → IsOutside s.writable p → Spares p s (copy_byte callback s a b j)
  unfolding copy_byte
  copy_byte-Spares s a b j out =
      let loaded = load_byte callback s (add32 b j) in
      let first = load_byte-Spares s (add32 b j) in
      let next = store_byte-Spares loaded.0 (add32 a j) loaded.1 (rw (first.0) out) in
      (next.0 ∙ first.0, next.1 ∙ first.1)

  copy_loop-Spares :
      (k i n a b : ℕ) (s : State)
      → IsOutside s.writable p
      → Spares p s (copy_loop callback k i n a b s)
  unfolding copy_loop
  copy_loop-Spares zero i n a b s out = (refl, refl)
  copy_loop-Spares (suc k) i n a b s out =
      let j = if ltb b a then n - 1 - i else i in
      let first = copy_byte-Spares s a b j out in
      let rest = copy_loop-Spares k (i + 1) n a b (copy_byte callback s a b j) (rw (first.0) out) in
      (rest.0 ∙ first.0, rest.1 ∙ first.1)

  set_loop-Spares :
      (k i a c : ℕ) (s : State) → IsOutside s.writable p → Spares p s (set_loop callback k i a c s)
  unfolding set_loop
  set_loop-Spares zero i a c s out = (refl, refl)
  set_loop-Spares (suc k) i a c s out =
      let first = store_byte-Spares s (add32 a i) c out in
      let rest =
        set_loop-Spares k (i + 1) a c (store_byte callback s (add32 a i) c) (rw (first.0) out) in
      (rest.0 ∙ first.0, rest.1 ∙ first.1)

  memcpy-Spares :
      (s : State) (a b n : ℕ) → IsOutside s.writable p → Spares p s (memop_memcpy callback s a b n)
  unfolding memop_memcpy
  memcpy-Spares s a b n out = ground (arith, copy_loop-Spares n 0 n a b s out)

  memset-Spares :
      (s : State) (a c n : ℕ) → IsOutside s.writable p → Spares p s (memop_memset callback s a c n)
  unfolding memop_memset
  memset-Spares s a c n out = ground (arith, set_loop-Spares n 0 a c s out)

  -- Whatever the subtype, the operands and the ranges: a host byte outside the storage of the writable
  -- region, which the host's memory callback leaves alone, is not changed, nor is the region.
  pub purv_memop-Spares :
      (s : State) (f3 rd rs1 rs2 : ℕ)
      → IsOutside s.writable p
      → Spares p s (purv_memop callback s f3 rd rs1 rs2).0
  unfolding purv_memop
  purv_memop-Spares s f3 rd rs1 rs2 out = ground (
    arith,
    memcpy-Spares s (s.x rd) (s.x rs1) (s.x rs2) out,
    memset-Spares s (s.x rd) (s.x rs1) (s.x rs2) out,
  )
