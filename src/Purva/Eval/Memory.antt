-- ===== src/Purva/Eval/Memory.antt =====
-- emu/purva/purva.c: the two regions, and the accesses at a host pointer.
use purv.Base.{
  ℕ, ◌+◌, ◌-◌, bit_or, ◌&&◌, ◌||◌, Option, none, some, ltb, leb, ◌==◌, if◌then◌else◌, add32, sub32,
  u8, u16, u32, ◌<<<◌, ◌>>>◌,
}
use purv.Base.Int.{signed8, signed16, wrap}
use purv.Engine.{Region, State, MemOp, mem_load, mem_store, update}
use purv.Bulk.{set_x}
use purv.Purva.Op
use purv.Purva.Packed.{tc_a, tc_b, tc_imm}

-- `rel < len && n <= len - rel`
unfoldable pub region_block : Region → ℕ → ℕ → Option ℕ
region_block r a n =
    let rel = sub32 a r.base in
    if ltb rel r.len && leb n (r.len - rel) then some (r.ptr + rel) else none

unfoldable pub mem_w : State → ℕ → ℕ → Option ℕ
unfolding region_block
mem_w s a n = region_block s.writable a n

unfoldable pub mem_r : State → ℕ → ℕ → Option ℕ
unfolding mem_w region_block
mem_r s a n = elim (mem_w s a n) [ some q ↦ some q | none ↦ region_block s.readonly a n ]

-- Little-endian words of 1, 2 or 4 bytes.
unfoldable pub ld_le : (ℕ → ℕ) → ℕ → ℕ → ℕ
ld_le host q n =
    let v = host q in
    let v' = if ltb 1 n then bit_or v (host (q + 1) <<< 8) else v in
    if ltb 2 n then bit_or v' (bit_or (host (q + 2) <<< 16) (host (q + 3) <<< 24)) else v'

unfoldable pub st_le : (ℕ → ℕ) → ℕ → ℕ → ℕ → ℕ → ℕ
st_le host q n v =
    let h1 = update host q (u8 v) in
    let h2 = if ltb 1 n then update h1 (q + 1) (u8 (v >>> 8)) else h1 in
    if ltb 2 n then update (update h2 (q + 2) (u8 (v >>> 16))) (q + 3) (u8 (v >>> 24)) else h2

-- `(uint32_t)(int32_t)(T)v` for the type T of a load, and `sizeof(T)`.
unfoldable pub cast_load : ℕ → ℕ → ℕ
cast_load op v =
    if op == Op.lb
    then wrap (signed8 (u8 v))
    else if op == Op.lh
    then wrap (signed16 (u16 v))
    else if op == Op.lw
    then u32 v
    else if op == Op.lbu
    then u8 v
    else u16 v

unfoldable pub load_size : ℕ → ℕ
load_size op = if op == Op.lw then 4 else if op == Op.lb || op == Op.lbu then 1 else 2

-- `n` of STORE(n).
unfoldable pub store_size : ℕ → ℕ
store_size op = if op == Op.sb then 1 else if op == Op.sh then 2 else 4

module _ (callback : State → MemOp → ℕ → ℕ → State × ℕ) where
  -- `q ? ld_le(q, n) : s->callback(s, RISCV_MEM_LOAD, a, 0)`
  unfoldable pub load_le : State → ℕ → ℕ → State × ℕ
  load_le s a n = elim (mem_r s a n) [
    | none ↦ callback s mem_load a 0
    | some q ↦ (s, ld_le s.host q n)
  ]

  -- `if (q) st_le(q, n, v); else s->callback(s, RISCV_MEM_STORE, a, v)`
  unfoldable pub store_le : State → ℕ → ℕ → ℕ → State
  store_le s a n v = elim (mem_w s a n) [
    | none ↦ (callback s mem_store a v).0
    | some q ↦ record s { host = st_le s.host q n v }
  ]

  -- `LOAD(T)`
  unfoldable pub load_reg : State → ℕ → ℕ → State
  unfolding load_le cast_load load_size
  load_reg s op w =
      let (s', v) = load_le s (add32 (s.x (tc_b w)) (tc_imm w)) (load_size op) in
      if tc_a w == 0 then s else set_x s' (tc_a w) (cast_load op v)

  -- `STORE(n)`
  unfoldable pub store_reg : State → ℕ → ℕ → State
  unfolding store_le store_size
  store_reg s op w = store_le s (add32 (s.x (tc_b w)) (tc_imm w)) (store_size op) (s.x (tc_a w))
