-- ===== src/Engine/Loop/Invariant.antt =====
-- What holds of every run: an invariant of the instructions is one of the loop, no fetch is out of
-- range, and why a run ends.
use purv.Base.{
  ℕ, zero, suc, ◌≤◌, ◌<◌, ◌^◌, ◌≡◌, refl, ◌≢◌, ◌⊎◌, inl, inr, Bool, true, false, add32, arith,
}
use purv.Engine.{Region, State, Handlers}
use purv.Engine.Decode.{Decoded}
use purv.Engine.Exec.{Outcome, done, jump, out}
use purv.Engine.Exec.Bodies.{exec}
use purv.Engine.Loop.{Exit, exit_at, running, stopped, fault}
use purv.Engine.Exec.Keeps.{Kept, Respects, Stable, exec-Kept}
use purv.Engine.Decode.Shape.{AreWords}
use purv.Engine.Loop.Reference.{fetchable, step_by_step}
use purv.Engine.Loop.Fetch.{Fetched, fetchable-Fetched}

module _ {ℓ} (P : ℕ → ℕ → State → Type ℓ) (Q : Exit → Type ℓ) where
  -- What an instruction at `pc` has to give: the loop's invariant `P`, or the claim `Q` of an exit.
  abbrev pub Gives : ℕ → ℕ → ℕ → Outcome → Type ℓ
  Gives budget pc width (done s) = P budget (add32 pc width) s
  Gives budget pc width (jump pc' s) = P budget pc' s
  Gives budget pc width (out s) = Q (exit_at stopped budget pc s)

-- The one induction on runs: the loop ends out of budget, at a pc that holds no instruction, or
-- by a handler.
module _ {ℓ} (w : Region) (h : Handlers) (P : ℕ → ℕ → State → Type ℓ) (Q : Exit → Type ℓ)
    (at_end : (pc : ℕ) (s : State) → P zero pc s → Q (exit_at running zero pc s))
    (no_fetch : (budget pc : ℕ) (s : State)
      → P (suc budget) pc s
      → fetchable w s.host pc ≡ false
      → Q (exit_at running (suc budget) pc s))
    (step : (budget pc : ℕ) (s : State) (f : Fetched w s pc)
      → P (suc budget) pc s
      → Gives P Q budget pc f.d.width (exec h s pc f.d)) where
  pub step_by_step_rule :
      (budget pc : ℕ) (s : State) → P budget pc s → Q (step_by_step w h budget pc s)
  unfolding step_by_step
  step_by_step_rule zero pc s p = at_end pc s p
  step_by_step_rule (suc budget) pc s p =
      check (fetchable w s.host pc) refl (step_by_step_rule budget)
    where
      ran :
          (yes_fetch : fetchable w s.host pc ≡ true) (f : Fetched w s pc) (o : Outcome)
          → exec h s pc f.d ≡ o
          → Gives P Q budget pc f.d.width o
          → ((pc' : ℕ) (s' : State) → P budget pc' s' → Q (step_by_step w h budget pc' s'))
          → Q (step_by_step w h (suc budget) pc s)
      ran can f (done s') e g ih = rw (step_by_step, can, f.is, e) (ih (add32 pc f.d.width) s' g)
      ran can f (jump pc' s') e g ih = rw (step_by_step, can, f.is, e) (ih pc' s' g)
      ran can f (out s') e g ih = rw (step_by_step, can, f.is, e) g

      check :
          (b : Bool)
          → fetchable w s.host pc ≡ b
          → ((pc' : ℕ) (s' : State) → P budget pc' s' → Q (step_by_step w h budget pc' s'))
          → Q (step_by_step w h (suc budget) pc s)
      check false e ih = rw (step_by_step, e) (no_fetch budget pc s p e)
      check true e ih =
          let f = fetchable-Fetched w s pc e in
          ran e f (exec h s pc f.d) refl (step budget pc s f p) ih

-- How a run ends: never by a fetch outside the code window; by a handler, with the budget used up,
-- or at a pc where the window holds no whole instruction.
pub record Ended (w : Region) (max : ℕ) (e : Exit) : Type 0 where
  pub no_fault : e.status ≢ fault
  pub reason : (e.status ≡ stopped) ⊎ ((e.budget ≡ 0) ⊎ (fetchable w e.state.host e.pc ≡ false))
  pub within : e.budget ≤ max

module _ (w : Region) (h : Handlers) (max : ℕ) where
  abbrev WithinMax : ℕ → ℕ → State → Type 0
  WithinMax budget pc s = budget ≤ max

  Ended-step :
      (budget pc width : ℕ) (o : Outcome)
      → suc budget ≤ max
      → Gives WithinMax (Ended w max) budget pc width o
  Ended-step budget pc width (done s) p = omega arith
  Ended-step budget pc width (jump pc' s) p = omega arith
  Ended-step budget pc width (out s) p = record {
    no_fault = λ e. cc;
    reason = inl refl;
    within = omega arith;
  }

  pub step_by_step-Ended : (pc : ℕ) (s : State) → Ended w max (step_by_step w h max pc s)
  step_by_step-Ended pc s =
      step_by_step_rule w h WithinMax (Ended w max)
        (λ pc s p. record { no_fault = λ e. cc; reason = inr (inl refl); within = p })
        (λ budget pc s p shut. record { no_fault = λ e. cc; reason = inr (inr shut); within = p })
        (λ budget pc s f p. Ended-step budget pc f.d.width (exec h s pc f.d) p) max pc s
        (omega arith)

-- A property of the state that the engine's effects and the host's hooks keep holds at every exit.
module _ (w : Region) (h : Handlers) (P : State → Type 0) (words : (s : State) → P s → AreWords s)
    (r : Respects P h) (st : Stable P) where
  abbrev Good : ℕ → ℕ → State → Type 0
  Good budget pc s = (pc < 2 ^ 32) × P s

  abbrev GoodExit : Exit → Type 0
  GoodExit e = (e.pc < 2 ^ 32) × P e.state

  Kept-Gives :
      (budget pc : ℕ) (d : Decoded) (o : Outcome)
      → pc < 2 ^ 32
      → Kept P o
      → Gives Good GoodExit budget pc d.width o
  Kept-Gives budget pc d o lt (Kept.done s p) = (omega arith, p)
  Kept-Gives budget pc d o lt (Kept.jump pc' s lt' p) = (lt', p)
  Kept-Gives budget pc d o lt (Kept.out s p) = (lt, p)

  pub step_by_step-keeps :
      (budget pc : ℕ) (s : State) → pc < 2 ^ 32 → P s → GoodExit (step_by_step w h budget pc s)
  step_by_step-keeps budget pc s lt p =
      step_by_step_rule w h Good GoodExit (λ pc s g. g) (λ budget pc s g shut. g)
        (λ budget pc s f g.
          Kept-Gives budget pc f.d (exec h s pc f.d) g.0
            (exec-Kept P h r st s pc f.d g.1 g.0 (f.sane (words s g.1))))
        budget pc s (lt, p)
