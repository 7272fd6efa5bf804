-- ===== src/Engine/Exec.antt =====
-- emu/purv.c, the executing half of `RiscvEmulatorLoop`: the shared action bodies. An instruction
-- ends by `done` (pc advances, the window goes on), by `jump` (pc is assigned, the window is left)
-- or by `out` (the run stops at this pc).
pub mod Arith
pub mod Bodies
pub mod Ranges
pub mod Products
pub mod Division
pub mod Keeps
use purv.Base.{ℕ}
use purv.Engine.{State}

pub data Outcome : Type 0 where
  done : State → Outcome
  jump : ℕ → State → Outcome
  out : State → Outcome
