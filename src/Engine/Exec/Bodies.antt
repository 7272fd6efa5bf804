-- ===== src/Engine/Exec/Bodies.antt =====
-- emu/purv.c, the shared action bodies with their effects.
use purv.Base.{
  ℕ, ◌*◌, ◌/◌, ◌%◌, ◌^◌, Bool, true, false, ◌&&◌, ◌||◌, Option, none, some, ltb, ◌==◌,
  if◌then◌else◌, add32, ◌<<<◌,
}
use purv.Engine.{State, Handlers, mem_load, mem_store, wr}
use purv.Engine.Memory.{mem_xlate, write8, write16, write32}
use purv.Engine.Decode.{
  alu, mul, load, store, branch, jal, jalr, lui, auipc, ebreak, system, illegal, Decoded,
}
use purv.Engine.Decode
use purv.Engine.Exec.{Outcome, done, jump, out}
use purv.Engine.Exec.Arith.{alu_result, mul_result, load_value, miss_value, branch_taken}

-- The state as a trap handler finds it: `s->pc = pc; s->inst = inst`.
abbrev pub at_trap : State → ℕ → Decoded → State
at_trap s pc d = record s { pc = pc; inst = d.inst }

-- A handler that may be missing: `missing` says whether the run then stops.
unfoldable pub trap : Option (State → State × Bool) → Bool → State → Outcome
trap none missing s = if missing then out s else done s
trap (some f) missing s = let (s', stop) = f s in if stop then out s' else done s'

-- The bytes of a store, by width.
unfoldable pub store_at : State → ℕ → Decoded → State
unfolding write8 write16 write32
store_at s p d = record s {
  host =
      if d.f3 == 0
      then write8 s.host p d.b
      else if d.f3 == 1
      then write16 s.host p d.b
      else write32 s.host p d.b;
}

module _ (h : Handlers) where
  unfoldable pub exec_illegal : State → ℕ → Decoded → Outcome
  exec_illegal s pc d = trap h.illegal true (at_trap s pc d)

  unfoldable pub exec_ebreak : State → ℕ → Decoded → Outcome
  exec_ebreak s pc d = trap h.ebreak true (at_trap s pc d)

  unfoldable pub exec_ecall : State → ℕ → Decoded → Outcome
  exec_ecall s pc d = trap h.ecall false (at_trap s pc d)

  unfoldable pub exec_system : State → ℕ → Decoded → Outcome
  exec_system s pc d =
      let plain = d.f3 == 0 && (d.rd == 0 && d.rs1 == 0) in
      if plain && d.imm == 0
      then exec_ecall s pc d
      else if plain && d.imm == 1
      then exec_ebreak s pc d
      else exec_illegal s pc d

  -- The word for a load that misses, with the state that the callback leaves.
  unfoldable pub miss_load : State → ℕ → State × ℕ
  miss_load s addr = elim h.callback [ none ↦ (s, 0) | some f ↦ f s mem_load addr 0 ]

  unfoldable pub exec_load : State → ℕ → Decoded → Outcome
  exec_load s pc d =
      let addr = add32 d.a d.imm in
      let n = 1 <<< (d.f3 % 2 ^ 2) in
      if d.f3 == 3 || ltb 5 d.f3
      then exec_illegal s pc d
      else if d.rd == 0
      then done s
      else elim (mem_xlate s addr n false) [
        | some p ↦ done (wr s d.rd (load_value s.host p d.f3))
        | none ↦ let (s', v) = miss_load s addr in done (wr s' d.rd (miss_value d.f3 n v))
      ]

  unfoldable pub exec_store : State → ℕ → Decoded → Outcome
  exec_store s pc d =
      let addr = add32 d.a d.imm in
      if ltb 2 d.f3 then exec_illegal s pc d else elim (mem_xlate s addr (1 <<< d.f3) true) [
        | some p ↦ done (store_at s p d)
        | none ↦ elim h.callback [ none ↦ done s | some f ↦ done (f s mem_store addr d.b).0 ]
      ]

  unfoldable pub exec_branch : State → ℕ → Decoded → Outcome
  exec_branch s pc d = elim (branch_taken d.f3 d.a d.b) [
    | none ↦ exec_illegal s pc d
    | some take ↦ if take then jump (add32 pc d.imm) s else done s
  ]

  -- `(a + imm) & ~1u`
  unfoldable pub exec_jalr : State → ℕ → Decoded → Outcome
  exec_jalr s pc d = jump (add32 d.a d.imm / 2 * 2) (wr s d.rd (add32 pc d.width))

  unfoldable pub exec_jal : State → ℕ → Decoded → Outcome
  exec_jal s pc d = jump (add32 pc d.imm) (wr s d.rd (add32 pc d.width))

  -- The body that the decoder goes to.
  unfoldable pub exec : State → ℕ → Decoded → Outcome
  exec s pc d = elim d.action [
    | alu ↦ done (wr s d.rd (alu_result d.f3 d.f7 d.a d.b))
    | mul ↦ done (wr s d.rd (mul_result d.f3 d.a d.b))
    | load ↦ exec_load s pc d
    | store ↦ exec_store s pc d
    | branch ↦ exec_branch s pc d
    | jal ↦ exec_jal s pc d
    | jalr ↦ exec_jalr s pc d
    | lui ↦ done (wr s d.rd d.imm)
    | auipc ↦ done (wr s d.rd (add32 pc d.imm))
    | ebreak ↦ exec_ebreak s pc d
    | system ↦ exec_system s pc d
    | illegal ↦ exec_illegal s pc d
    | Decode.done ↦ done s
  ]
