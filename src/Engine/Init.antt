-- ===== src/Engine/Init.antt =====
-- emu/purv.c, `RiscvEmulatorInit` and the default memory callback.
use purv.Base.{ℕ, ◌<◌, ◌^◌, ◌≡◌, refl, none, some, ◌==◌, if◌then◌else◌, arith}
use purv.Engine.{Region, State, Handlers, MemOp, riscv_half}
use purv.Engine.Exec.Keeps.{Respects, TrapKeeps-none, CallbackKeeps-some}
use purv.Engine.Loop.{loop}
use purv.Engine.Loop.Safety.{IsWellFormed, Confined, loop-Confined}

-- A no-op that delivers zero to a missed load.
unfoldable pub default_callback : State → MemOp → ℕ → ℕ → State × ℕ
default_callback s op addr value = (s, 0)

-- `memset`, then the two regions, the callback, sp and pc.
unfoldable pub init : Region → Region → (ℕ → ℕ) → State × Handlers
unfolding default_callback
init readonly writable host = (
  record {
    pc = 0;
    inst = 0;
    x = λ i. if i == 2 then riscv_half else 0;
    readonly = readonly;
    writable = writable;
    host = host;
  },
  record { ecall = none; ebreak = none; illegal = none; callback = some default_callback },
)

module _ (readonly writable : Region) (host : ℕ → ℕ) where
  init-IsWellFormed : ((p : ℕ) → host p < 256) → IsWellFormed (init readonly writable host).0
  unfolding init
  init-IsWellFormed bytes = record { zero_reg = refl; words = λ i. ground arith; bytes = bytes }

  -- The hooks that `RiscvEmulatorInit` installs keep everything.
  init-Respects : (P : State → Type 0) → Respects P (init readonly writable host).1
  unfolding init default_callback
  init-Respects P = record {
    ecall = TrapKeeps-none P;
    ebreak = TrapKeeps-none P;
    illegal = TrapKeeps-none P;
    callback = CallbackKeeps-some P default_callback (λ s op addr v p. (p, omega arith));
  }

  -- A machine as `RiscvEmulatorInit` leaves it, with any two regions and any bytes in memory: every
  -- run returns, leaves the registers and the memory well formed, and has changed no host byte
  -- outside the storage of the writable region. The length of the code is a 32-bit number.
  pub init-loop_safe :
      ((p : ℕ) → host p < 256)
      → readonly.len < 2 ^ 32
      → (max : ℕ)
      → let (s, h) = init readonly writable host in
        (s' : State) × (k : ℕ) × (loop h s max ≡ some (s', k)) × Confined s s'
  init-loop_safe bytes small max =
      let (s, h) = init readonly writable host in
      loop-Confined h s max (unfold init in small) (unfold init in omega arith)
        (init-Respects (Confined s)) (init-IsWellFormed bytes)
