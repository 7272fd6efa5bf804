-- ===== src/Gdb/Breakpoints.antt =====
-- emu/gdbstub.c, the table of breakpoints: the first `g_nbp` entries of `g_bp`, as a list.
pub mod Table
use purv.Base.{ℕ, Bool, true, false, ◌||◌, List, [], ◌∷◌, ◌++◌, length, leb, ◌==◌, if◌then◌else◌}

-- `GDB_MAX_BP`
abbrev pub gdb_max_bp : ℕ
gdb_max_bp = 64

unfoldable pub bp_hit : List ℕ → ℕ → Bool
bp_hit [] addr = false
bp_hit (b ∷ bs) addr = b == addr || bp_hit bs addr

unfoldable pub bp_add : List ℕ → ℕ → List ℕ
unfolding bp_hit
bp_add bs addr = if bp_hit bs addr || leb gdb_max_bp (length bs) then bs else bs ++ addr ∷ []

-- A list with its last entry put first: what an array is after `a[0] = a[--n]`, were there a free
-- entry before it.
unfoldable pub second : ℕ → List ℕ → List ℕ
second b [] = b ∷ []
second b (c ∷ bs) = c ∷ b ∷ bs

unfoldable pub last_first : List ℕ → List ℕ
unfolding second
last_first [] = []
last_first (b ∷ bs) = second b (last_first bs)

-- The last entry takes the place of the one that goes.
unfoldable pub bp_del : List ℕ → ℕ → List ℕ
unfolding last_first
bp_del [] addr = []
bp_del (b ∷ bs) addr = if b == addr then last_first bs else b ∷ bp_del bs addr
