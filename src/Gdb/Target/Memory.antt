-- ===== src/Gdb/Target/Memory.antt =====
-- The debugger sees the memory that the engine sees.
use purv.Base.{
  ℕ, zero, suc, ◌+◌, ◌^◌, ◌≤◌, ◌<◌, ◌≡◌, ◌⊎◌, refl, ap, ◌∙◌, Bool, List, [], ◌∷◌, length, add32,
  sub32, arith,
}
use mathlib.Core.Path.{ap₂}
use purv.Engine.{State, update}
use purv.Engine.Memory.{region_xlate, mem_xlate}
use purv.Gdb.Target.{byte_at, peek, mem_read, poke, mem_write}

-- The stub resolves a byte as the engine resolves an access of one byte: the same regions in the
-- same order, the same host address, and NULL for the same addresses, for reads and for writes.
pub byte_at-eq-mem_xlate :
    (s : State) (a : ℕ) (write : Bool) → byte_at s a write ≡ mem_xlate s a 1 write
unfolding byte_at mem_xlate region_xlate
byte_at-eq-mem_xlate s a write = ground arith

-- `len` guest bytes from `addr` lie in the writable region.
abbrev pub IsWritable : State → ℕ → ℕ → Type 0
IsWritable s addr len = sub32 addr s.writable.base + len ≤ s.writable.len

abbrev pub blit : (ℕ → ℕ) → ℕ → List ℕ → ℕ → ℕ
blit host p [] = host
blit host p (b ∷ src) = blit (update host p b) (p + 1) src

abbrev pub slice : (ℕ → ℕ) → ℕ → ℕ → List ℕ
slice host p zero = []
slice host p (suc n) = host p ∷ slice host (p + 1) n

pub blit-below : (src : List ℕ) (host : ℕ → ℕ) (p q : ℕ) → p < q → blit host q src p ≡ host p
blit-below [] host p q h = refl
blit-below (b ∷ src) host p q h =
    blit-below src (update host q b) p (q + 1) (omega arith) ∙ ground arith

slice-blit : (src : List ℕ) (host : ℕ → ℕ) (p : ℕ) → slice (blit host p src) p (length src) ≡ src
slice-blit [] host p = refl
slice-blit (b ∷ src) host p =
    let kept = blit-below src (update host p b) p (p + 1) (omega arith) in
    let here : update host p b p ≡ b = ground arith in
    rw (kept, here, slice-blit src (update host p b) (p + 1))

sub32-next :
    (a base : ℕ)
    → base < 2 ^ 32
    → sub32 a base + 2 ≤ 2 ^ 32
    → sub32 (add32 a 1) base ≡ sub32 a base + 1
sub32-next a base low h = omega arith

poke_hit :
    (s : State) (addr b n : ℕ)
    → IsWritable s addr (suc n)
    → poke s addr b
      ≡ record s { host = update s.host (s.writable.ptr + sub32 addr s.writable.base) b }
unfolding poke byte_at
poke_hit s addr b n h = ground arith

peek_hit :
    (s : State) (addr n : ℕ)
    → IsWritable s addr (suc n)
    → peek s addr ≡ s.host (s.writable.ptr + sub32 addr s.writable.base)
unfolding peek byte_at
peek_hit s addr n h = ground arith

-- Of bytes that lie in the writable region, the host's memory takes all, in order.
pub mem_write_hit :
    (src : List ℕ) (s : State) (addr : ℕ)
    → s.writable.len ≤ 2 ^ 32
    → s.writable.base < 2 ^ 32
    → IsWritable s addr (length src)
    → mem_write s addr src
      ≡ record s { host = blit s.host (s.writable.ptr + sub32 addr s.writable.base) src }
unfolding mem_write
mem_write_hit [] s addr small low h = refl
mem_write_hit (b ∷ []) s addr small low h = poke_hit s addr b 0 h
mem_write_hit (b ∷ b' ∷ src) s addr small low h =
    let next = sub32-next addr s.writable.base low (omega arith) in
    let p = s.writable.ptr + sub32 addr s.writable.base in
    let s' : State = record s { host = update s.host p b } in
    rw (poke_hit s addr b (length (b' ∷ src)) h) (
      mem_write_hit (b' ∷ src) s' (add32 addr 1) small low (omega arith)
      ∙ ap (λ (q : ℕ). record s { host = blit (update s.host p b) q (b' ∷ src) })
          {x = s.writable.ptr + sub32 (add32 addr 1) s.writable.base} {y = p + 1} (omega arith))

mem_read_hit :
    (n : ℕ) (s : State) (addr : ℕ)
    → s.writable.len ≤ 2 ^ 32
    → s.writable.base < 2 ^ 32
    → IsWritable s addr n
    → mem_read s addr n ≡ slice s.host (s.writable.ptr + sub32 addr s.writable.base) n
unfolding mem_read
mem_read_hit zero s addr small low h = refl
mem_read_hit (suc zero) s addr small low h = ap (λ (b : ℕ). b ∷ []) (peek_hit s addr 0 h)
mem_read_hit (suc (suc n)) s addr small low h =
    let next = sub32-next addr s.writable.base low (omega arith) in
    let p = s.writable.ptr + sub32 addr s.writable.base in
    ap₂ ◌∷◌ (peek_hit s addr (suc n) h) (
      mem_read_hit (suc n) s (add32 addr 1) small low (omega arith)
      ∙ ap (λ (q : ℕ). slice s.host q (suc n))
          {x = s.writable.ptr + sub32 (add32 addr 1) s.writable.base} {y = p + 1} (omega arith))

-- Bytes that `mem_write` is given at addresses of the writable region, `mem_read` reads back from the
-- same address, all of them and in order.
pub mem_read-mem_write :
    (s : State) (addr : ℕ) (src : List ℕ)
    → s.writable.len ≤ 2 ^ 32
    → s.writable.base < 2 ^ 32
    → IsWritable s addr (length src)
    → mem_read (mem_write s addr src) addr (length src) ≡ src
mem_read-mem_write s addr src small low h =
    let p = s.writable.ptr + sub32 addr s.writable.base in
    rw (mem_write_hit src s addr small low h) (
      mem_read_hit (length src) (record s { host = blit s.host p src }) addr small low h
      ∙ slice-blit src s.host p)

pub poke-writable : (s : State) (a b : ℕ) → (poke s a b).writable ≡ s.writable
unfolding poke
poke-writable s a b = ground arith

pub mem_write-writable :
    (src : List ℕ) (s : State) (addr : ℕ) → (mem_write s addr src).writable ≡ s.writable
unfolding mem_write
mem_write-writable [] s addr = refl
mem_write-writable (b ∷ src) s addr =
    mem_write-writable src (poke s addr b) (add32 addr 1) ∙ poke-writable s addr b

poke_confined :
    (s : State) (a b p : ℕ)
    → (p < s.writable.ptr) ⊎ (s.writable.ptr + s.writable.len ≤ p)
    → (poke s a b).host p ≡ s.host p
unfolding poke byte_at
poke_confined s a b p h = ground arith

-- Wherever the address is and however many bytes there are: nothing but the host bytes in the storage
-- of the writable region can change.
pub mem_write_confined :
    (src : List ℕ) (s : State) (addr p : ℕ)
    → (p < s.writable.ptr) ⊎ (s.writable.ptr + s.writable.len ≤ p)
    → (mem_write s addr src).host p ≡ s.host p
unfolding mem_write
mem_write_confined [] s addr p h = refl
mem_write_confined (b ∷ src) s addr p h =
    let s' = poke s addr b in
    let outside : (p < s'.writable.ptr) ⊎ (s'.writable.ptr + s'.writable.len ≤ p) =
      rw (poke-writable s addr b) h in
    mem_write_confined src s' (add32 addr 1) p outside ∙ poke_confined s addr b p h
