-- ===== src/Engine/Loop/Windows.antt =====
-- The windowed loop of `RiscvEmulatorLoop` against the loop that checks every fetch.
use purv.Base.{
  ℕ, zero, suc, ◌+◌, ◌*◌, ◌^◌, ◌≤◌, ◌<◌, ◌≡◌, refl, sym, ap, ◌∙◌, ◌≢◌, ◌⊎◌, inl, inr, true, false,
  Option, none, some, add32, min, arith, Option-cases,
}
use purv.Engine.{Region, State, Handlers}
use purv.Engine.Decode.{Decoded}
use purv.Engine.Exec.{Outcome, done, jump, out}
use purv.Engine.Exec.Bodies.{exec}
use purv.Engine.Loop.{
  Exit, exit_at, running, stopped, fault, fetch, window_size, run_window, go_on, run, loop, leave,
}
use purv.Engine.Loop.Reference.{fetchable, step_by_step}
use purv.Engine.Loop.Fetch.{Fetched, fetchable-Fetched}

module _ (w : Region) (h : Handlers) (small : w.len < 2 ^ 32) where
  -- The window of `left` instructions at `pc` needs no check.
  abbrev Covers : ℕ → ℕ → State → Type 0
  Covers left pc s =
      (w.ptr ≢ 0) × ((pc + 4 * left ≤ w.len) ⊎ ((left ≡ 1) × (fetchable w s.host pc ≡ true)))

  Covers-fetchable :
      (left pc : ℕ) (s : State) → Covers (suc left) pc s → fetchable w s.host pc ≡ true
  unfolding fetchable
  Covers-fetchable left pc s c = ground arith

  Covers-next :
      (left pc width : ℕ) (s s' : State)
      → Covers (suc left) pc s
      → pc + width ≤ w.len
      → (width ≡ 2) ⊎ (width ≡ 4)
      → Covers left (add32 pc width) s'
  Covers-next left pc width s s' c inside two_or_four = (c.0, inl (omega arith))

  -- What the checking loop makes of the rest, after a window.
  resume : Exit → Exit
  resume e = elim e.status [
    | running ↦ step_by_step w h e.budget e.pc e.state
    | stopped ↦ e
    | fault ↦ e
  ]

  run_window-steps :
      (left budget pc : ℕ) (s : State)
      → Covers left pc s
      → step_by_step w h budget pc s ≡ resume (run_window w h left budget pc s)
  unfolding run_window step_by_step resume
  run_window-steps zero budget pc s c = refl
  run_window-steps (suc left) zero pc s c = refl
  run_window-steps (suc left) (suc budget) pc s c =
      go (exec h s pc f.d) refl (run_window-steps left)
    where
      f : Fetched w s pc
      f = fetchable-Fetched w s pc (Covers-fetchable left pc s c)

      go :
          (o : Outcome)
          → exec h s pc f.d ≡ o
          → ((b pc' : ℕ) (s' : State)
              → Covers left pc' s'
              → step_by_step w h b pc' s' ≡ resume (run_window w h left b pc' s'))
          → step_by_step w h (suc budget) pc s
            ≡ resume (run_window w h (suc left) (suc budget) pc s)
      go (done s') e ih = ground (
        arith,
        Covers-fetchable left pc s c,
        f.is,
        ih budget (add32 pc f.d.width) s' (Covers-next left pc f.d.width s s' c f.inside f.width),
      )
      go (jump pc' s') e ih = ground (arith, Covers-fetchable left pc s c, f.is)
      go (out s') e ih = ground (arith, Covers-fetchable left pc s c, f.is)

  -- A window is sized by what is left of the code.
  window_size-Covers :
      (pc : ℕ) (s : State) {safe : ℕ}
      → window_size w s.host pc ≡ some safe
      → Covers safe pc s × (1 ≤ safe)
  unfolding window_size fetchable
  window_size-Covers pc s {safe} e = ground arith

  window_size-none :
      (pc : ℕ) (s : State) → window_size w s.host pc ≡ none → fetchable w s.host pc ≡ false
  unfolding window_size fetchable
  window_size-none pc s e = ground arith

  -- A window never adds to the budget, and uses some of it up unless one of the two is empty.
  budget-run_window :
      (left budget pc : ℕ) (s : State)
      → (run_window w h left budget pc s).budget + min 1 (min left budget) ≤ budget
  unfolding run_window
  budget-run_window zero budget pc s = omega arith
  budget-run_window (suc left) zero pc s = omega arith
  budget-run_window (suc left) (suc budget) pc s = ran (fetch w s pc) refl (budget-run_window left)
    where
      ended :
          (d : Decoded) (o : Outcome)
          → fetch w s pc ≡ some d
          → exec h s pc d ≡ o
          → ((b pc' : ℕ) (s' : State)
              → (run_window w h left b pc' s').budget + min 1 (min left b) ≤ b)
          → (run_window w h (suc left) (suc budget) pc s).budget ≤ budget
      ended d (done s') e f ih = ground (arith, ih budget (add32 pc d.width) s')
      ended d (jump pc' s') e f ih = ground arith
      ended d (out s') e f ih = ground arith

      ran :
          (o : Option Decoded)
          → fetch w s pc ≡ o
          → ((b pc' : ℕ) (s' : State)
              → (run_window w h left b pc' s').budget + min 1 (min left b) ≤ b)
          → (run_window w h (suc left) (suc budget) pc s).budget
              + min 1 (min (suc left) (suc budget))
            ≤ suc budget
      ran none e ih = ground arith
      ran (some d) e ih = omega (arith, ended d (exec h s pc d) e refl ih)

  step_by_step_stuck :
      (budget pc : ℕ) (s : State)
      → fetchable w s.host pc ≡ false
      → step_by_step w h (suc budget) pc s ≡ exit_at running (suc budget) pc s
  unfolding step_by_step
  step_by_step_stuck budget pc s e = ground arith

  go_on-resume :
      (again : ℕ → ℕ → State → Option Exit) (e : Exit)
      → (e.status ≡ running
          → again e.budget e.pc e.state ≡ some (step_by_step w h e.budget e.pc e.state))
      → go_on w h again e ≡ some (resume e)
  unfolding go_on resume
  go_on-resume again e ih = ground (arith, ih)

  -- With more fuel than budget the outer loop ends, and ends as the checking loop does.
  pub run-steps :
      (fuel budget pc : ℕ) (s : State)
      → budget < fuel
      → run w h fuel budget pc s ≡ some (step_by_step w h budget pc s)
  unfolding run
  run-steps zero budget pc s lt = absurd (omega arith)
  run-steps (suc fuel) zero pc s lt = unfold step_by_step in refl
  run-steps (suc fuel) (suc budget) pc s lt = elim (Option-cases (window_size w s.host pc)) [
    | inl shut ↦ ground (arith, step_by_step_stuck budget pc s (window_size-none pc s shut))
    | inr (safe, open_at) ↦ opened safe open_at (run-steps fuel)
  ]
    where
      opened :
          (safe : ℕ)
          → window_size w s.host pc ≡ some safe
          → ((b pc' : ℕ) (s' : State)
              → b < fuel
              → run w h fuel b pc' s' ≡ some (step_by_step w h b pc' s'))
          → run w h (suc fuel) (suc budget) pc s ≡ some (step_by_step w h (suc budget) pc s)
      opened zero e ih = absurd (omega (arith, (window_size-Covers pc s e).1))
      opened (suc left) e ih =
          let x = run_window w h (suc left) (suc budget) pc s in
          let covers = (window_size-Covers pc s e).0 in
          let fewer : x.budget < fuel =
            omega (arith, budget-run_window (suc left) (suc budget) pc s) in
          rw (e, run)
            (go_on-resume (run w h fuel) x (λ _. ih x.budget x.pc x.state fewer)
              ∙ ap some (sym (run_window-steps (suc left) (suc budget) pc s covers)))

-- `RiscvEmulatorLoop` always returns, and validating pc once for a whole window of instructions
-- makes no difference: the state and the count are those of the loop that validates pc before
-- every instruction, for every hook, budget and state whose code length is a 32-bit number.
pub loop-eq-step_by_step :
    (h : Handlers) (s : State) (max : ℕ)
    → s.readonly.len < 2 ^ 32
    → loop h s max ≡ some (leave max (step_by_step s.readonly h max s.pc s))
unfolding loop
loop-eq-step_by_step h s max small =
    rw (loop, run-steps s.readonly h small (suc max) max s.pc s (omega arith)) refl
