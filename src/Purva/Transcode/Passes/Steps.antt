-- ===== src/Purva/Transcode/Passes/Steps.antt =====
-- `step`: each unit is one of code that a jump may not enter, and what the uninitialised local held
-- does not matter.
use purv.Base.{
  ℕ, ◌+◌, ◌%◌, ◌^◌, ◌≤◌, ◌≡◌, refl, inl, inr, Option, none, some, Option-cases, add32, arith,
}
use mathlib.Core.Option
use purv.Purva.Transcode.{DecodedInst, decode}
use purv.Purva.Transcode.Targets.{Targets}
use purv.Purva.Transcode.Fuse.{try_fuse_prologue, try_fuse_epilogue, try_fuse_la, fuse_address}
use purv.Purva.Transcode.Fuse.Pairs.{try_fuse_pair, pair_op}
use purv.Purva.Transcode.Passes.{step}
use purv.Purva.Transcode.Passes.Units.{
  IsUnit, prologue-IsUnit, epilogue-IsUnit, la-IsUnit, pair-IsUnit, lone-IsUnit,
}

-- The op and the width of a unit, and of a fusion.
abbrev pub op_width : DecodedInst × ℕ → ℕ × ℕ
op_width (d, wd) = (d.op, wd)

abbrev shape : Option (DecodedInst × ℕ) → Option (ℕ × ℕ)
shape none = none
shape (some r) = some (op_width r)

-- The fusion, or what else becomes of the instruction.
abbrev pick : Option (DecodedInst × ℕ) → DecodedInst × ℕ → DecodedInst × ℕ
pick o k = elim o [ some r ↦ r | none ↦ k ]

op_width-pick :
    (o o' : Option (DecodedInst × ℕ)) (k k' : DecodedInst × ℕ)
    → shape o ≡ shape o'
    → op_width k ≡ op_width k'
    → op_width (pick o k) ≡ op_width (pick o' k')
op_width-pick none none k k' e f = f
op_width-pick none (some r) k k' e f = cc
op_width-pick (some r) none k k' e f = cc
op_width-pick (some r) (some r') k k' e f = cc

module _ (code : ℕ → ℕ) (len : ℕ) (targets : Targets) where
  pub step-IsUnit :
      (off : ℕ) (out : DecodedInst)
      → len + 64 ≤ 2 ^ 32
      → off + 4 ≤ len
      → off % 4 ≡ 0
      → IsUnit len targets off
          (step code len targets off out).0.op
          (step code len targets off out).1
  unfolding step
  step-IsUnit off out small here al =
      elim (Option-cases (try_fuse_prologue code len targets off out)) [
        | inr ((d, wd), e) ↦
            rw (e, step) (prologue-IsUnit code len targets small off here al out d wd e)
        | inl p ↦ elim (Option-cases (try_fuse_epilogue code len targets off out)) [
          | inr ((d, wd), e) ↦
              rw (p, e, step) (epilogue-IsUnit code len targets small off here al out d wd e)
          | inl q ↦ elim (Option-cases (try_fuse_la code len targets off out)) [
            | inr ((d, wd), e) ↦
                rw (p, q, e, step) (la-IsUnit code len targets small off here al out d wd e)
            | inl r ↦ elim (Option-cases (try_fuse_pair code len targets off out)) [
              | inr ((d, wd), e) ↦
                  rw (p, q, r, e, step) (pair-IsUnit code len targets small off here al out d wd e)
              | inl t ↦
                  rw (p, q, r, t, step) (lone-IsUnit code len targets small off here al out out 0)
            ]
          ]
        ]
      ]

module _ (code : ℕ → ℕ) (len : ℕ) (targets : Targets) (off : ℕ) (d d' : DecodedInst) where
  prologue_stale :
      shape (try_fuse_prologue code len targets off d)
      ≡ shape (try_fuse_prologue code len targets off d')
  unfolding try_fuse_prologue
  prologue_stale = ground arith

  epilogue_stale :
      shape (try_fuse_epilogue code len targets off d)
      ≡ shape (try_fuse_epilogue code len targets off d')
  unfolding try_fuse_epilogue
  epilogue_stale = ground arith

  la_stale :
      shape (try_fuse_la code len targets off d) ≡ shape (try_fuse_la code len targets off d')
  unfolding try_fuse_la fuse_address
  la_stale = ground arith

  pair_op_stale :
      (a b : DecodedInst)
      → Option.map (λ (r : DecodedInst). r.op) (pair_op a b d)
        ≡ Option.map (λ (r : DecodedInst). r.op) (pair_op a b d')
  unfolding pair_op
  pair_op_stale a b = ground arith

  pair_stale :
      shape (try_fuse_pair code len targets off d) ≡ shape (try_fuse_pair code len targets off d')
  unfolding try_fuse_pair
  pair_stale = ground (arith, pair_op_stale (decode code off) (decode code (add32 off 4)))

  -- What the uninitialised local held changes neither the op nor the width.
  pub step_stale : op_width (step code len targets off d) ≡ op_width (step code len targets off d')
  unfolding step
  step_stale = op_width-pick _ _ _ _ prologue_stale (
      op_width-pick _ _ _ _ epilogue_stale
        (op_width-pick _ _ _ _ la_stale (op_width-pick _ _ _ _ pair_stale refl)))
