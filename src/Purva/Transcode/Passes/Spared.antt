-- ===== src/Purva/Transcode/Passes/Spared.antt =====
-- Stretches of code inside the program with no target in them.
use purv.Base.{
  ℕ, suc, ◌+◌, ◌*◌, ◌%◌, ◌≤◌, ◌<◌, ◌≡◌, ap, ◌∙◌, false, inl, inr, ◌==◌, ltb, ltb→lt, ltb-false→le,
  ==_iff, Bool-cases, arith,
}
use mathlib.Core.Path.{subst}
use purv.Purva.Transcode.Targets.{Targets, targets_has}

-- The instructions from `o` to `e` are in the code, and none is a target.
pub record IsSpared (len : ℕ) (targets : Targets) (o e : ℕ) : Type 0 where
  pub inside : e ≤ len
  pub spared : (p : ℕ) → o ≤ p → p < e → p % 4 ≡ 0 → targets_has targets p ≡ false

module _ (len : ℕ) (targets : Targets) (o : ℕ) where
  pub IsSpared-empty : o ≤ len → IsSpared len targets o o
  IsSpared-empty h = record { inside = h; spared = λ p a b c. absurd (omega arith) }

  pub IsSpared-cons :
      (e : ℕ)
      → o % 4 ≡ 0
      → targets_has targets o ≡ false
      → IsSpared len targets (o + 4) e
      → IsSpared len targets o e
  IsSpared-cons e al free rest = record {
    inside = rest.inside;
    spared = λ p a b c. elim (Bool-cases (p == o)) [
      | inl same ↦ ap (targets_has targets) ((==_iff p o).0 same) ∙ free
      | inr other ↦ rest.spared p (ground arith) b c
    ];
  }

  pub IsSpared-one :
      o % 4 ≡ 0 → targets_has targets o ≡ false → o + 4 ≤ len → IsSpared len targets o (o + 4)
  IsSpared-one al free h =
      IsSpared-cons (o + 4) al free
        (record { inside = h; spared = λ p a b c. absurd (omega arith) })

  pub IsSpared-append :
      (m e : ℕ) → IsSpared len targets o m → IsSpared len targets m e → IsSpared len targets o e
  IsSpared-append m e first rest = record {
    inside = rest.inside;
    spared = λ p a b c. elim (Bool-cases (ltb p m)) [
      | inl below ↦ first.spared p a (ltb→lt p m below) c
      | inr above ↦ rest.spared p (ltb-false→le p m above) b c
    ];
  }

  -- A run of `n` instructions from `o` on, or one more in front of it.
  abbrev pub IsRun : ℕ → Type 0
  IsRun n = IsSpared len targets o (o + 4 * n)

pub IsRun-zero : (len : ℕ) (targets : Targets) (o : ℕ) → o ≤ len → IsRun len targets o 0
IsRun-zero len targets o h =
    let here : o ≡ o + 4 * 0 = omega arith in
    subst (IsSpared len targets o) here (IsSpared-empty len targets o h)

pub IsRun-suc :
    (len : ℕ) (targets : Targets) (o n : ℕ)
    → o % 4 ≡ 0
    → targets_has targets o ≡ false
    → IsRun len targets (o + 4) n
    → IsRun len targets o (suc n)
IsRun-suc len targets o n al free rest =
    let end : o + 4 + 4 * n ≡ o + 4 * suc n = omega arith in
    subst (IsSpared len targets o) end (IsSpared-cons len targets o (o + 4 + 4 * n) al free rest)
