-- ===== src/Purva/Transcode/Passes/Units.antt =====
-- What a unit may be: a whole number of instructions inside the code, none of them a target but the
-- first, and no more op words than instructions.
use purv.Base.{
  ℕ, suc, ◌+◌, ◌*◌, ◌%◌, ◌^◌, ◌≤◌, ◌≡◌, ◌⊎◌, ap, sym, ◌∙◌, false, inl, inr, some, length, add32,
  sub32, u32, ◌^◌, arith,
}
use mathlib.Core.Path.{subst}
use purv.Purva.Transcode.{DecodedInst, decode, op_words}
use purv.Purva.Transcode.Targets.{Targets, targets_has}
use purv.Purva.Transcode.Fuse.{
  saves_from, restores_from, try_fuse_prologue, try_fuse_epilogue, try_fuse_la, fuse_address,
}
use purv.Purva.Transcode.Fuse.Pairs.{try_fuse_pair}
use purv.Purva.Transcode.Passes.{lone_auipc}
use purv.Purva.Transcode.Passes.Spared.{
  IsSpared, IsSpared-empty, IsSpared-one, IsSpared-append, IsRun,
}
use purv.Purva.Transcode.Passes.Runs.{saves_from-IsRun, restores_from-IsRun, restores_from-first}
use purv.Purva.Transcode.Passes.Words.{
  op_words-le, op_words-decode, op_words-lone_auipc, width-decode,
}

-- A unit of `wd` bytes at `off` with the op `op`.
pub record IsUnit (len : ℕ) (targets : Targets) (off op wd : ℕ) : Type 0 where
  pub interior : IsSpared len targets (off + 4) (off + wd)
  pub progress : 4 ≤ wd
  pub whole : wd % 4 ≡ 0
  pub words : 4 * op_words op ≤ wd

module _ (code : ℕ → ℕ) (len : ℕ) (targets : Targets) (off : ℕ) (out d : DecodedInst) (wd : ℕ) where
  prologue_parts :
      try_fuse_prologue code len targets off out ≡ some (d, wd)
      → (wd ≡ 4 * (1 + length (saves_from code len targets 13 (add32 off 4))))
        × (1 ≤ length (saves_from code len targets 13 (add32 off 4)))
  unfolding try_fuse_prologue
  prologue_parts e = ground arith

  -- How many loads an epilogue has, and where its `addi` is.
  abbrev restored : ℕ
  restored = length (restores_from code len targets off 13 off)

  abbrev dealloc : ℕ
  dealloc = u32 (off + 4 * restored)

  epilogue_parts :
      try_fuse_epilogue code len targets off out ≡ some (d, wd)
      → (wd ≡ sub32 (add32 dealloc 8) off)
        × (1 ≤ restored)
        × (add32 dealloc 8 ≤ len)
        × (targets_has targets dealloc ≡ false)
        × (targets_has targets (add32 dealloc 4) ≡ false)
  unfolding try_fuse_epilogue
  epilogue_parts e = ground arith

  la_parts :
      try_fuse_la code len targets off out ≡ some (d, wd)
      → (wd ≡ 8) × (add32 off 8 ≤ len) × (targets_has targets (add32 off 4) ≡ false)
  unfolding try_fuse_la fuse_address
  la_parts e = ground arith

  pair_parts :
      try_fuse_pair code len targets off out ≡ some (d, wd)
      → (add32 off 8 ≤ len)
        × (targets_has targets (add32 off 4) ≡ false)
        × ((wd ≡ 8)
            ⊎ (wd ≡ 12) × (add32 off 12 ≤ len) × (targets_has targets (add32 off 8) ≡ false))
  unfolding try_fuse_pair
  pair_parts e = ground arith

fused-IsUnit :
    (len : ℕ) (targets : Targets) (off op wd : ℕ)
    → IsSpared len targets (off + 4) (off + wd)
    → 8 ≤ wd
    → wd % 4 ≡ 0
    → IsUnit len targets off op wd
fused-IsUnit len targets off op wd interior h al = record {
  interior = interior;
  progress = omega arith;
  whole = al;
  words = omega (arith, op_words-le op);
}

module _ (code : ℕ → ℕ) (len : ℕ) (targets : Targets) (small : len + 64 ≤ 2 ^ 32) (off : ℕ)
    (here : off + 4 ≤ len) (al : off % 4 ≡ 0) (out d : DecodedInst) (wd : ℕ) where
  abbrev Spared : ℕ → ℕ → Type 0
  Spared o e = IsSpared len targets o e

  pub prologue-IsUnit :
      try_fuse_prologue code len targets off out ≡ some (d, wd) → IsUnit len targets off d.op wd
  prologue-IsUnit e =
      let parts = prologue_parts code len targets off out d wd e in
      let n = length (saves_from code len targets 13 (add32 off 4)) in
      let run : IsRun len targets (add32 off 4) n =
        saves_from-IsRun code len targets small 13 (add32 off 4) (omega arith) (omega arith) in
      let start : add32 off 4 ≡ off + 4 = omega arith in
      let end : add32 off 4 + 4 * n ≡ off + wd = omega (arith, parts.0) in
      fused-IsUnit len targets off d.op wd
        (subst (λ (t : ℕ). Spared t (off + wd)) start (subst (Spared (add32 off 4)) end run))
        (omega (arith, parts.0, parts.1)) (omega (arith, parts.0))

  pub la-IsUnit :
      try_fuse_la code len targets off out ≡ some (d, wd) → IsUnit len targets off d.op wd
  la-IsUnit e =
      let parts = la_parts code len targets off out d wd e in
      let start : add32 off 4 ≡ off + 4 = omega arith in
      let free = ap (targets_has targets) (sym start) ∙ parts.2 in
      let end : off + 4 + 4 ≡ off + wd = omega (arith, parts.0) in
      fused-IsUnit len targets off d.op wd
        (subst (Spared (off + 4)) end
          (IsSpared-one len targets (off + 4) (omega arith) free (omega (arith, parts.1))))
        (omega (arith, parts.0)) (omega (arith, parts.0))

  pub pair-IsUnit :
      try_fuse_pair code len targets off out ≡ some (d, wd) → IsUnit len targets off d.op wd
  pair-IsUnit e =
      let parts = pair_parts code len targets off out d wd e in
      let start : add32 off 4 ≡ off + 4 = omega arith in
      let second = ap (targets_has targets) (sym start) ∙ parts.1 in
      let pair = IsSpared-one len targets (off + 4) (omega arith) second (omega (arith, parts.0)) in
      elim (parts.2) [
        | inl two ↦
            let end : off + 4 + 4 ≡ off + wd = omega (arith, two) in
            fused-IsUnit len targets off d.op wd (subst (Spared (off + 4)) end pair)
              (omega (arith, two)) (omega (arith, two))
        | inr three ↦
            let middle : add32 off 8 ≡ off + 4 + 4 = omega arith in
            let third = ap (targets_has targets) (sym middle) ∙ three.2 in
            let end : off + 4 + 4 + 4 ≡ off + wd = omega (arith, three.0) in
            let tail =
              IsSpared-one len targets (off + 4 + 4) (omega arith) third (omega (arith, three.1)) in
            fused-IsUnit len targets off d.op wd
              (subst (Spared (off + 4)) end
                (IsSpared-append len targets (off + 4) (off + 4 + 4) (off + 4 + 4 + 4) pair tail))
              (omega (arith, three.0)) (omega (arith, three.0))
      ]

  pub epilogue-IsUnit :
      try_fuse_epilogue code len targets off out ≡ some (d, wd) → IsUnit len targets off d.op wd
  epilogue-IsUnit e =
      let parts = epilogue_parts code len targets off out d wd e in
      elim (restores_from-first code len targets off 12) [
        | inl none_at_all ↦ absurd (omega (arith, parts.1, ap length none_at_all))
        | inr (x, more, inside) ↦
            let rest = length (restores_from code len targets off 12 (add32 off 4)) in
            let count : restored code len targets off out d wd ≡ suc rest = ap length more in
            let start : add32 off 4 ≡ off + 4 = omega arith in
            let run : IsRun len targets (add32 off 4) rest =
              restores_from-IsRun code len targets small off 12 (add32 off 4) (omega arith)
                (omega arith) (omega arith) in
            let o = dealloc code len targets off out d wd in
            let inside_run : add32 off 4 + 4 * rest ≤ len = run.inside in
            let place : o ≡ off + 4 + 4 * rest = omega (arith, count) in
            let step_two : add32 off 4 + 4 * rest ≡ o = omega (arith, place) in
            let base : off + 4 ≤ o = omega (arith, place) in
            let bound : o + 8 ≤ len = omega (arith, parts.2, place) in
            let ret : add32 o 4 ≡ o + 4 = omega (arith, bound) in
            let end : o + 4 + 4 ≡ off + wd = omega (arith, parts.0, bound, base) in
            let first =
              IsSpared-one len targets o (omega (arith, place)) (parts.3) (omega (arith, bound)) in
            let second =
              IsSpared-one len targets (o + 4) (omega (arith, place))
                (ap (targets_has targets) (sym ret) ∙ parts.4) (omega (arith, bound)) in
            fused-IsUnit len targets off d.op wd
              (subst (Spared (off + 4)) end (
                IsSpared-append len targets (off + 4) o (o + 4 + 4)
                  (subst (λ (t : ℕ). Spared t o) start (subst (Spared (add32 off 4)) step_two run))
                  (IsSpared-append len targets o (o + 4) (o + 4 + 4) first second)))
              (omega (arith, end, base)) (omega (arith, end, place))
      ]

  pub lone-IsUnit :
      IsUnit len targets off (lone_auipc off (decode code off)).op (decode code off).width
  lone-IsUnit =
      let single : (decode code off).width ≡ 4 = width-decode code off in
      record {
        interior = rw single (IsSpared-empty len targets (off + 4) here);
        progress = omega (arith, single);
        whole = omega (arith, single);
        words =
            omega
              (arith, single, op_words-lone_auipc off (decode code off) (op_words-decode code off));
      }
