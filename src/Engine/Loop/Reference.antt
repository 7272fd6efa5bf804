-- ===== src/Engine/Loop/Reference.antt =====
-- What `RiscvEmulatorLoop` promises, without its windows: pc is validated before every single
-- instruction.
use purv.Base.{ℕ, zero, suc, ◌+◌, Bool, true, false, not, ◌&&◌, ◌||◌, none, some, leb, ◌==◌, add32}
use purv.Engine.{Region, State, Handlers}
use purv.Engine.Memory.{read16}
use purv.Engine.Exec.{done, jump, out}
use purv.Engine.Exec.Bodies.{exec}
use purv.Engine.Loop.{Exit, exit_at, running, stopped, fault, is_wide, fetch}

module _ (w : Region) where
  -- A whole instruction lies inside the code window at `pc`.
  unfoldable pub fetchable : (ℕ → ℕ) → ℕ → Bool
  fetchable host pc =
      not (w.ptr == 0)
      && (leb (pc + 4) w.len || (leb (pc + 2) w.len && not (is_wide (read16 host (w.ptr + pc)))))

  module _ (h : Handlers) where
    unfoldable pub step_by_step : ℕ → ℕ → State → Exit
    step_by_step zero pc s = exit_at running zero pc s
    step_by_step (suc budget) pc s = elim (fetchable s.host pc) [
      | false ↦ exit_at running (suc budget) pc s
      | true ↦ elim (fetch w s pc) [
        | none ↦ exit_at fault budget pc s
        | some d ↦ elim (exec h s pc d) [
          | done s' ↦ step_by_step budget (add32 pc d.width) s'
          | jump pc' s' ↦ step_by_step budget pc' s'
          | out s' ↦ exit_at stopped budget pc s'
        ]
      ]
    ]
