-- ===== src/Purva/Transcode/Passes/Runs.antt =====
-- The runs of saves and restores that the fusions of frames collapse.
use purv.Base.{
  ℕ, zero, suc, ◌+◌, ◌%◌, ◌^◌, ◌≤◌, ◌<◌, ◌≡◌, ◌⊎◌, refl, false, inl, inr, List, [], ◌∷◌, length,
  not, ◌&&◌, ◌||◌, ◌==◌, leb, Bool-cases, add32, arith,
}
use mathlib.Core.Path.{subst}
use purv.Purva.Op
use purv.Purva.Transcode.{decode}
use purv.Purva.Transcode.Targets.{Targets, targets_has}
use purv.Purva.Transcode.Fuse.{saves_from, restores_from, has_rank}
use purv.Purva.Transcode.Passes.Spared.{IsRun, IsRun-zero, IsRun-suc}

-- How a loop over a run goes on: it ends, or takes the instruction at `o`, which is in the code and no
-- target.
abbrev GoesOn : ℕ → Targets → ℕ → List (ℕ × ℕ) → List (ℕ × ℕ) → Type 0
GoesOn len targets o run rest =
    (run ≡ [])
    ⊎ (x : ℕ × ℕ) × (run ≡ x ∷ rest) × (add32 o 4 ≤ len) × (targets_has targets o ≡ false)

IsRun-GoesOn :
    (len : ℕ) (targets : Targets) (o : ℕ) (run rest : List (ℕ × ℕ))
    → len + 64 ≤ 2 ^ 32
    → o ≤ len
    → o % 4 ≡ 0
    → GoesOn len targets o run rest
    → (add32 o 4 ≤ len → IsRun len targets (add32 o 4) (length rest))
    → IsRun len targets o (length run)
IsRun-GoesOn len targets o run rest small h al (inl end) ih = rw end (IsRun-zero len targets o h)
IsRun-GoesOn len targets o run rest small h al (inr (x, more, inside, free)) ih =
    let next : add32 o 4 ≡ o + 4 = omega arith in
    rw more (
      IsRun-suc len targets o (length rest) al free
        (subst (λ (t : ℕ). IsRun len targets t (length rest)) next (ih inside)))

module _ (code : ℕ → ℕ) (len : ℕ) (targets : Targets) where
  saves_from-GoesOn :
      (left o : ℕ)
      → GoesOn len targets o
          (saves_from code len targets (suc left) o)
          (saves_from code len targets left (add32 o 4))
  unfolding saves_from
  saves_from-GoesOn left o =
      let s = decode code o in
      elim (Bool-cases (not (leb (add32 o 4) len) || targets_has targets o)) [
        | inl stop ↦ inl (rw stop)
        | inr go ↦
            elim (Bool-cases (not (s.op == Op.sw) || (not (s.rs1 == 2) || not (has_rank s.rs2)))) [
              | inl stop ↦ inl (rw (go, stop))
              | inr take ↦ inr ((s.rs2, s.imm), rw (go, take), ground arith, ground arith)
            ]
      ]

  -- An epilogue that starts at `off` itself is asked for targets only after its first load.
  restores_from-GoesOn :
      (off left o : ℕ)
      → (o == off) ≡ false
      → GoesOn len targets o
          (restores_from code len targets off (suc left) o)
          (restores_from code len targets off left (add32 o 4))
  unfolding restores_from
  restores_from-GoesOn off left o later =
      let l = decode code o in
      elim (Bool-cases (not (leb (add32 o 4) len) || not (o == off) && targets_has targets o)) [
        | inl stop ↦ inl (rw stop)
        | inr go ↦
            elim (Bool-cases (not (l.op == Op.lw) || (not (l.rs1 == 2) || not (has_rank l.rd)))) [
              | inl stop ↦ inl (rw (go, stop))
              | inr take ↦ inr ((l.rd, l.imm), rw (go, take), ground arith, ground arith)
            ]
      ]

  pub restores_from-first :
      (off left : ℕ)
      → (restores_from code len targets off (suc left) off ≡ [])
        ⊎ (x : ℕ × ℕ) × (restores_from code len targets off (suc left) off
            ≡ x ∷ restores_from code len targets off left (add32 off 4))
          × (add32 off 4 ≤ len)
  unfolding restores_from
  restores_from-first off left =
      let l = decode code off in
      elim (Bool-cases
        (not (leb (add32 off 4) len) || not (off == off) && targets_has targets off)) [
          | inl stop ↦ inl (rw stop)
          | inr go ↦
              elim (Bool-cases (not (l.op == Op.lw) || (not (l.rs1 == 2) || not (has_rank l.rd)))) [
                | inl stop ↦ inl (rw (go, stop))
                | inr take ↦ inr ((l.rd, l.imm), rw (go, take), ground arith)
              ]
        ]

  module _ (small : len + 64 ≤ 2 ^ 32) where
    pub saves_from-IsRun :
        (left o : ℕ)
        → o ≤ len
        → o % 4 ≡ 0
        → IsRun len targets o (length (saves_from code len targets left o))
    saves_from-IsRun zero o h al =
        let end : saves_from code len targets 0 o ≡ [] = unfold saves_from in refl in
        rw end (IsRun-zero len targets o h)
    saves_from-IsRun (suc left) o h al =
        IsRun-GoesOn len targets o (saves_from code len targets (suc left) o)
          (saves_from code len targets left (add32 o 4)) small h al (saves_from-GoesOn left o)
          (λ inside. saves_from-IsRun left (add32 o 4) inside (omega arith))

    pub restores_from-IsRun :
        (off left o : ℕ)
        → off < o
        → o ≤ len
        → o % 4 ≡ 0
        → IsRun len targets o (length (restores_from code len targets off left o))
    restores_from-IsRun off zero o lt h al =
        let end : restores_from code len targets off 0 o ≡ [] = unfold restores_from in refl in
        rw end (IsRun-zero len targets o h)
    restores_from-IsRun off (suc left) o lt h al =
        IsRun-GoesOn len targets o (restores_from code len targets off (suc left) o)
          (restores_from code len targets off left (add32 o 4)) small h al
          (restores_from-GoesOn off left o (ground arith))
          (λ inside. restores_from-IsRun off left (add32 o 4) (omega arith) inside (omega arith))
