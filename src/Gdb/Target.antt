-- ===== src/Gdb/Target.antt =====
-- emu/gdbstub.c, registers and memory: the machine as the debugger sees it.
pub mod Memory
pub mod Registers
use purv.Base.{
  ℕ, zero, suc, ◌+◌, Bool, true, false, Option, none, some, List, [], ◌∷◌, ◌++◌, length, drop, ltb,
  leb, ◌==◌, if◌then◌else◌, add32, sub32, u8,
}
use purv.Engine.{State, update}
use purv.Gdb.Hex.{reg_to_hex, reg_from_hex}

-- `GDB_NREG`: x0 to x31, and pc.
abbrev pub gdb_nreg : ℕ
gdb_nreg = 33

unfoldable pub reg_get : State → ℕ → ℕ
reg_get s i = if ltb i 32 then s.x i else s.pc

-- x0 stays zero.
unfoldable pub reg_set : State → ℕ → ℕ → State
reg_set s i v =
    if ltb i 32
    then (if i == 0 then s else record s { x = update s.x i v })
    else record s { pc = v }

-- The host address of a guest byte, or NULL.
unfoldable pub byte_at : State → ℕ → Bool → Option ℕ
byte_at s a write =
    let rel = sub32 a s.writable.base in
    let rel' = sub32 a s.readonly.base in
    if ltb rel s.writable.len
    then some (s.writable.ptr + rel)
    else if write
    then none
    else if ltb rel' s.readonly.len
    then some (s.readonly.ptr + rel')
    else none

-- One byte of `mem_read`: an unmapped one reads as zero.
unfoldable pub peek : State → ℕ → ℕ
unfolding byte_at
peek s a = elim (byte_at s a false) [ none ↦ 0 | some p ↦ s.host p ]

unfoldable pub mem_read : State → ℕ → ℕ → List ℕ
unfolding peek
mem_read s addr zero = []
mem_read s addr (suc len) = peek s addr ∷ mem_read s (add32 addr 1) len

-- One byte of `mem_write`: outside the writable region nothing is written.
unfoldable pub poke : State → ℕ → ℕ → State
unfolding byte_at
poke s a b = elim (byte_at s a true) [ none ↦ s | some p ↦ record s { host = update s.host p b } ]

unfoldable pub mem_write : State → ℕ → List ℕ → State
unfolding poke
mem_write s addr [] = s
mem_write s addr (b ∷ src) = mem_write (poke s addr b) (add32 addr 1) src

-- The loop of a `g` packet, from register `i` with `n` to go.
unfoldable pub regs_from : ℕ → ℕ → State → List ℕ
unfolding reg_get reg_to_hex
regs_from zero i s = []
regs_from (suc n) i s = reg_to_hex (reg_get s i) ++ regs_from n (i + 1) s

-- The loop of a `G` packet, from register `i` with `n` to go. `p - buf + 8 <= n + 1` counts the NUL
-- in, so seven characters are enough.
unfoldable pub set_regs_from : ℕ → ℕ → List ℕ → State → State
unfolding reg_set reg_from_hex
set_regs_from zero i p s = s
set_regs_from (suc n) i p s =
    let rest = set_regs_from n (i + 1) (drop 8 p) (reg_set s i (reg_from_hex p)) in
    if leb 7 (length p) then rest else s
