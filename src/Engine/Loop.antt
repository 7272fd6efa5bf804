-- ===== src/Engine/Loop.antt =====
-- emu/purv.c, `RiscvEmulatorLoop`: an outer loop that validates pc and sizes a window of
-- instructions, and an inner loop that runs the window without checking the fetch. `budget` is
-- `max - k`; an instruction fetched outside the code window is a fault, which C leaves undefined.
pub mod Reference
pub mod Fetch
pub mod Windows
pub mod Invariant
pub mod Safety
use purv.Base.{
  ℕ, zero, suc, ◌+◌, ◌-◌, ◌*◌, ◌/◌, ◌%◌, ◌^◌, bit_or, Bool, ◌&&◌, ◌||◌, Option, none, some, ltb,
  leb, ◌==◌, if◌then◌else◌, add32, u16, ◌<<<◌,
}
use purv.Engine.{Region, State, Handlers}
use purv.Engine.Memory.{read16}
use purv.Engine.Decode.{Decoded}
use purv.Engine.Decode.Wide.{decode32}
use purv.Engine.Decode.Compressed.{decode16}
use purv.Engine.Exec.{Outcome, done, jump, out}
use purv.Engine.Exec.Bodies.{exec}

pub data Status : Type 0 where
  running stopped fault : Status

-- Where a loop ends: with the budget left, the local `pc`, and the state.
pub record Exit : Type 0 where
  pub budget : ℕ
  pub pc : ℕ
  pub state : State
  pub status : Status

abbrev pub exit_at : Status → ℕ → ℕ → State → Exit
exit_at status budget pc s = record { budget = budget; pc = pc; state = s; status = status }

-- Whether a fetched half word begins a 32-bit instruction: `(lo & 3) == 3`.
abbrev pub is_wide : ℕ → Bool
is_wide lo = lo % 2 ^ 2 == 3

-- `w` is the cached window: `s->readonly` at the start of the run.
module _ (w : Region) where
  -- `code[off] | code[off + 1] << 8`
  unfoldable pub half_at : (ℕ → ℕ) → ℕ → Option ℕ
  unfolding read16
  half_at host off = if leb (off + 2) w.len then some (u16 (read16 host (w.ptr + off))) else none

  unfoldable pub fetch : State → ℕ → Option Decoded
  fetch s pc = elim (half_at s.host pc) [
    | none ↦ none
    | some lo ↦
        if is_wide lo
        then elim (half_at s.host (pc + 2)) [
          | none ↦ none
          | some hi ↦ some (decode32 s (bit_or lo (hi <<< 16)))
        ]
        else some (decode16 s lo)
  ]

  -- `safe`: how many instructions from `base` need no check; `none` is the `break`.
  unfoldable pub window_size : (ℕ → ℕ) → ℕ → Option ℕ
  unfolding read16
  window_size host base =
      if w.ptr == 0 || (leb w.len base || ltb (w.len - base) 2)
      then none
      else if ltb (w.len - base) 4
      then (if is_wide (read16 host (w.ptr + base)) then none else some 1)
      else some ((w.len - base) / 4)

  module _ (h : Handlers) where
    -- The inner loop; `left` is `safe - i`.
    unfoldable pub run_window : ℕ → ℕ → ℕ → State → Exit
    run_window zero budget pc s = exit_at running budget pc s
    run_window (suc left) zero pc s = exit_at running zero pc s
    run_window (suc left) (suc budget) pc s = elim (fetch s pc) [
      | none ↦ exit_at fault budget pc s
      | some d ↦ elim (exec h s pc d) [
        | done s' ↦ run_window left budget (add32 pc d.width) s'
        | jump pc' s' ↦ exit_at running budget pc' s'
        | out s' ↦ exit_at stopped budget pc s'
      ]
    ]

    -- The outer loop goes on where the inner loop left off, unless a handler stopped the run.
    unfoldable pub go_on : (ℕ → ℕ → State → Option Exit) → Exit → Option Exit
    go_on again e = elim e.status [
      | running ↦ again e.budget e.pc e.state
      | stopped ↦ some e
      | fault ↦ some e
    ]

    -- The outer loop, on fuel; `none` is that the fuel ran out.
    unfoldable pub run : ℕ → ℕ → ℕ → State → Option Exit
    run zero budget pc s = none
    run (suc fuel) zero pc s = some (exit_at running zero pc s)
    run (suc fuel) (suc budget) pc s = elim (window_size s.host pc) [
      | none ↦ some (exit_at running (suc budget) pc s)
      | some safe ↦ go_on (run fuel) (run_window safe (suc budget) pc s)
    ]

-- `out:`: the resume point is left in the state, and the number of instructions is returned.
abbrev pub leave : ℕ → Exit → State × ℕ
leave max e = (record (e.state) { pc = e.pc }, max - e.budget)

-- `RiscvEmulatorLoop`. `Windows` shows that this fuel is enough.
unfoldable pub loop : Handlers → State → ℕ → Option (State × ℕ)
loop h s max = elim (run s.readonly h (suc max) max s.pc s) [
  | none ↦ none
  | some e ↦ some (leave max e)
]
