-- ===== src/Purva/Transcode/Targets.antt =====
-- emu/purva/transcode.c: the set of addresses that keep an op of their own, a bit for each
-- instruction of the code.
pub mod Marks
use purv.Base.{
  ℕ, zero, suc, ◌/◌, ◌%◌, ◌^◌, bit_and, bit_or, Bool, not, ◌&&◌, ◌||◌, Option, none, some, List, [],
  ◌∷◌, ltb, leb, ◌==◌, if◌then◌else◌, add32, u8,
}
use purv.Engine.{update}
use purv.Purva.Op
use purv.Purva.Transcode.{decode}

-- `Targets`: `n` slots of four bytes are covered.
pub record Targets : Type 0 where
  pub bits : ℕ → ℕ
  pub n : ℕ

unfoldable pub targets_new : ℕ → Targets
targets_new len = record { bits = λ i. 0; n = len / 4 }

unfoldable pub targets_mark : Targets → ℕ → Targets
targets_mark t addr =
    let i = addr / 4 in
    if ltb i t.n
    then record t { bits = update t.bits (i / 8) (bit_or (t.bits (i / 8)) (u8 (2 ^ (i % 8)))) }
    else t

unfoldable pub targets_has : Targets → ℕ → Bool
targets_has t addr =
    let i = addr / 4 in ltb i t.n && not (bit_and (t.bits (i / 8)) (2 ^ (i % 8)) == 0)

-- Whether an instruction has a target of its own.
abbrev pub is_direct : ℕ → Bool
is_direct op = op == Op.jal || leb Op.beq op && leb op Op.bgeu

-- The direct targets from `off` on, on fuel.
unfoldable pub direct_targets : (ℕ → ℕ) → ℕ → ℕ → ℕ → Targets → Option Targets
direct_targets code len zero off t = none
direct_targets code len (suc fuel) off t =
    let d = decode code off in
    let t' = if is_direct d.op then targets_mark t d.target else t in
    let rest = direct_targets code len fuel (add32 off 4) t' in
    if leb (add32 off 4) len then rest else some t

-- The addresses of the caller, `ext`.
unfoldable pub mark_all : List ℕ → Targets → Targets
mark_all [] t = t
mark_all (a ∷ as') t = mark_all as' (targets_mark t a)

-- `collect_targets`; a NULL `ext` is the empty list.
unfoldable pub collect_targets : (ℕ → ℕ) → ℕ → List ℕ → Option Targets
collect_targets code len ext = elim (direct_targets code len (suc (len / 4)) 0 (targets_new len)) [
  | none ↦ none
  | some t ↦ some (mark_all ext t)
]
