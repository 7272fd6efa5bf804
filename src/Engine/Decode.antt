-- ===== src/Engine/Decode.antt =====
-- emu/purv.c, the decoding half of `RiscvEmulatorLoop`: the locals that every instruction fills
-- in, and the shared action body that it goes to. The two encodings are the children.
pub mod Fields
pub mod Wide
pub mod Compressed
pub mod Shape
pub mod Encode
pub mod Words
pub mod RoundTrip
use purv.Base.{ℕ}

-- The labels of the shared action bodies.
pub data Action : Type 0 where
  alu mul load store branch jal jalr lui auipc ebreak system illegal done : Action

-- The locals at the `goto`: `rd`, `rs1`, `a`, `b`, `f3`, `f7`, `imm`, `width`, `inst`.
pub record Decoded : Type 0 where
  pub action : Action
  pub rd : ℕ
  pub rs1 : ℕ
  pub a : ℕ
  pub b : ℕ
  pub f3 : ℕ
  pub f7 : ℕ
  pub imm : ℕ
  pub width : ℕ
  pub inst : ℕ
