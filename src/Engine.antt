-- ===== src/Engine.antt =====
-- emu/purv.h: the whole state of the virtual machine, and the hooks that the host puts into it.
pub mod Memory
pub mod Decode
pub mod Exec
pub mod Loop
pub mod Init
mod Tests
use purv.Base.{ℕ, ◌^◌, Bool, Option, none, some, ◌==◌, if◌then◌else◌}

-- `RiscvEmulatorRegion_t`. `ptr` is a host address; 0 is NULL.
pub record Region : Type 0 where
  pub ptr : ℕ
  pub len : ℕ
  pub base : ℕ

-- `struct RiscvEmulatorState` without its function pointers. `host` is the host's memory, byte by
-- byte: both regions point into it, and may overlap there. `x` is read at 0 to 31 only.
pub record State : Type 0 where
  pub pc : ℕ
  pub inst : ℕ
  pub x : ℕ → ℕ
  pub readonly : Region
  pub writable : Region
  pub host : ℕ → ℕ

-- `RISCV_MEM_LOAD` and `RISCV_MEM_STORE`.
pub data MemOp : Type 0 where
  mem_load mem_store : MemOp

-- The function pointers of the state; `none` is NULL. A trap handler returns the state and whether
-- its `int` is nonzero; the memory callback returns the state and the word for a load.
pub record Handlers : Type 0 where
  pub ecall : Option (State → State × Bool)
  pub ebreak : Option (State → State × Bool)
  pub illegal : Option (State → State × Bool)
  pub callback : Option (State → MemOp → ℕ → ℕ → State × ℕ)

-- The stack and heap boundary, `RISCV_HALF`.
abbrev pub riscv_half : ℕ
riscv_half = 0x8000_0000

-- One element of an array or of a memory is replaced.
abbrev pub update : (ℕ → ℕ) → ℕ → ℕ → ℕ → ℕ
update f i v j = if j == i then v else f j

-- `wr`: x0 is never written.
unfoldable pub wr : State → ℕ → ℕ → State
wr s i v = if i == 0 then s else record s { x = update s.x i v }
