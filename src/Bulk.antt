-- ===== src/Bulk.antt =====
-- emu/purvmemop.h: the instruction that does the work of a whole libc call, with its charge of fuel.
-- `memmove`, `memset` and `memchr` are those of C.
pub mod Scans
pub mod Writes
mod Tests
use purv.Base.{
  ℕ, zero, suc, ◌+◌, ◌-◌, ◌/◌, ◌%◌, ◌^◌, Bool, true, false, not, ◌&&◌, ◌||◌, Option, none, some,
  ltb, leb, ◌==◌, if◌then◌else◌, min, u8, add32, sub32, ◌>>>◌,
}
use purv.Engine.{Region, State, MemOp, mem_load, mem_store, update}

-- `pmo_span` and `pmo_wspan`: the host pointer, or NULL, and the bytes from there to the region's end.
unfoldable pub region_span : Region → ℕ → Option (ℕ × ℕ)
region_span r a =
    let rel = sub32 a r.base in if ltb rel r.len then some (r.ptr + rel, r.len - rel) else none

unfoldable pub pmo_span : State → ℕ → Option (ℕ × ℕ)
unfolding region_span
pmo_span s a = elim (region_span s.writable a) [ some p ↦ some p | none ↦ region_span s.readonly a ]

unfoldable pub pmo_wspan : State → ℕ → Option (ℕ × ℕ)
unfolding region_span
pmo_wspan s a = region_span s.writable a

-- The pointer and `avail`; NULL has 0 bytes.
abbrev pub pointer : Option (ℕ × ℕ) → ℕ
pointer none = 0
pointer (some (p, n)) = p

abbrev pub avail : Option (ℕ × ℕ) → ℕ
avail none = 0
avail (some (p, n)) = n

abbrev pub memmove : (ℕ → ℕ) → ℕ → ℕ → ℕ → ℕ → ℕ
memmove host d q n i = if leb d i && ltb i (d + n) then host (q + (i - d)) else host i

abbrev pub memset : (ℕ → ℕ) → ℕ → ℕ → ℕ → ℕ → ℕ
memset host d c n i = if leb d i && ltb i (d + n) then u8 c else host i

-- `memchr` from byte `i` on, with `n` to go: the index of the first byte that is `c`.
unfoldable pub memchr : (ℕ → ℕ) → ℕ → ℕ → ℕ → ℕ → Option ℕ
memchr host p c zero i = none
memchr host p c (suc n) i =
    let rest = memchr host p c n (i + 1) in if host (p + i) == u8 c then some i else rest

-- The loops of the compares, with `n` bytes to go: where the loop ends, and `res`. `nul` is whether a
-- NUL ends it.
unfoldable pub compare_loop : Bool → (ℕ → ℕ) → ℕ → ℕ → ℕ → ℕ → ℕ × ℕ
compare_loop nul host x y zero i = (i, 0)
compare_loop nul host x y (suc n) i =
    let a = host (x + i) in
    let b = host (y + i) in
    let rest = compare_loop nul host x y n (i + 1) in
    if not (a == b) || nul && a == 0 then (i, sub32 a b) else rest

-- The loop of strchr: where it ends, and whether the byte there is `c`.
unfoldable pub strchr_loop : (ℕ → ℕ) → ℕ → ℕ → ℕ → ℕ → ℕ × Bool
strchr_loop host p c zero i = (i, false)
strchr_loop host p c (suc n) i =
    let b = host (p + i) in
    let rest = strchr_loop host p c n (i + 1) in
    if b == u8 c then (i, true) else if b == 0 then (i, false) else rest

-- `s->x[rd] = v`: x0 is written like any other.
abbrev pub set_x : State → ℕ → ℕ → State
set_x s rd v = record s { x = update s.x rd v }

-- `i < n ? i + 1 : n`
abbrev pub examined : ℕ → ℕ → ℕ
examined i n = if ltb i n then i + 1 else n

-- memcmp, strcmp and strncmp of at most `n` bytes.
unfoldable pub memop_compare : Bool → State → ℕ → ℕ → ℕ → ℕ → State × ℕ
unfolding pmo_span compare_loop
memop_compare nul s rd a b n =
    let x = pmo_span s a in
    let y = pmo_span s b in
    let m = min (min n (avail x)) (avail y) in
    let (i, res) = compare_loop nul s.host (pointer x) (pointer y) m 0 in
    (set_x s rd res, examined i m)

unfoldable pub memop_memchr : State → ℕ → ℕ → ℕ → ℕ → State × ℕ
unfolding pmo_span memchr
memop_memchr s rd a c n =
    let x = pmo_span s a in
    let m = min n (avail x) in
    elim (memchr s.host (pointer x) c m 0) [
      | none ↦ (set_x s rd 0, m)
      | some i ↦ (set_x s rd (add32 a i), add32 i 1)
    ]

-- The branch on `end`.
abbrev pub strlen_result : State → ℕ → ℕ → Option ℕ → State × ℕ
strlen_result s rd n none = (set_x s rd n, add32 n 1)
strlen_result s rd n (some i) = (set_x s rd i, add32 i 1)

unfoldable pub memop_strlen : State → ℕ → ℕ → State × ℕ
unfolding pmo_span memchr
memop_strlen s rd a =
    let x = pmo_span s a in strlen_result s rd (avail x) (memchr s.host (pointer x) 0 (avail x) 0)

unfoldable pub memop_strchr : State → ℕ → ℕ → ℕ → State × ℕ
unfolding pmo_span strchr_loop
memop_strchr s rd a c =
    let x = pmo_span s a in
    let (i, hit) = strchr_loop s.host (pointer x) c (avail x) 0 in
    (set_x s rd (if hit then add32 a i else 0), examined i (avail x))

module _ (callback : State → MemOp → ℕ → ℕ → State × ℕ) where
  -- One byte of the slow path of memcpy.
  unfoldable pub load_byte : State → ℕ → State × ℕ
  unfolding pmo_span
  load_byte s a = elim (pmo_span s a) [
    | none ↦ callback s mem_load a 0
    | some (p, n) ↦ (s, s.host p)
  ]

  unfoldable pub store_byte : State → ℕ → ℕ → State
  unfolding pmo_wspan
  store_byte s a v = elim (pmo_wspan s a) [
    | none ↦ (callback s mem_store a v).0
    | some (p, n) ↦ record s { host = update s.host p (u8 v) }
  ]

  unfoldable pub copy_byte : State → ℕ → ℕ → ℕ → State
  unfolding load_byte store_byte
  copy_byte s a b j = let (s', v) = load_byte s (add32 b j) in store_byte s' (add32 a j) v

  -- The slow path of memcpy from byte `i` on, with `k` to go.
  unfoldable pub copy_loop : ℕ → ℕ → ℕ → ℕ → ℕ → State → State
  unfolding copy_byte
  copy_loop zero i n a b s = s
  copy_loop (suc k) i n a b s =
      copy_loop k (i + 1) n a b (copy_byte s a b (if ltb b a then n - 1 - i else i))

  -- The slow path of memset.
  unfoldable pub set_loop : ℕ → ℕ → ℕ → ℕ → State → State
  unfolding store_byte
  set_loop zero i a c s = s
  set_loop (suc k) i a c s = set_loop k (i + 1) a c (store_byte s (add32 a i) c)

  unfoldable pub memop_memcpy : State → ℕ → ℕ → ℕ → State
  unfolding pmo_span pmo_wspan
  memop_memcpy s a b n =
      let d = pmo_wspan s a in
      let q = pmo_span s b in
      let slow = copy_loop n 0 n a b s in
      elim d [
        | none ↦ slow
        | some (dp, da) ↦ elim q [
          | none ↦ slow
          | some (qp, qa) ↦
              if leb n da && leb n qa then record s { host = memmove s.host dp qp n } else slow
        ]
      ]

  unfoldable pub memop_memset : State → ℕ → ℕ → ℕ → State
  unfolding pmo_wspan
  memop_memset s a c n =
      let slow = set_loop n 0 a c s in
      elim (pmo_wspan s a) [
        | none ↦ slow
        | some (dp, da) ↦ if leb n da then record s { host = memset s.host dp c n } else slow
      ]

  -- The state and the charge.
  unfoldable pub purv_memop : State → ℕ → ℕ → ℕ → ℕ → State × ℕ
  unfolding memop_memcpy memop_memset memop_compare memop_memchr memop_strlen memop_strchr
  purv_memop s f3 rd rs1 rs2 =
      let a = s.x rd in
      let b = s.x rs1 in
      let n = s.x rs2 in
      if f3 == 0
      then (memop_memcpy s a b n, n >>> 2)
      else if f3 == 1
      then (memop_memset s a b n, n >>> 2)
      else if f3 == 2
      then memop_compare false s rd a b n
      else if f3 == 3
      then memop_memchr s rd a b n
      else if f3 == 4
      then memop_strlen s rd a
      else if f3 == 5 || f3 == 7
      then memop_compare true s rd a b (if f3 == 7 then n else 0xffff_ffff)
      else if f3 == 6
      then memop_strchr s rd a b
      else (s, 0)
