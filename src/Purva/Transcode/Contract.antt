-- ===== src/Purva/Transcode/Contract.antt =====
-- The contract of fusion: no address that a jump may come to is hidden inside a unit.
use purv.Base.{
  ℕ, zero, suc, ◌+◌, ◌*◌, ◌/◌, ◌%◌, ◌^◌, ◌≤◌, ◌<◌, ◌≡◌, ◌⊎◌, ap, sym, ◌∙◌, true, false, inl, inr,
  some, List, ◌∷◌, ◌++◌, ◌==◌, ==_iff, Bool-cases, add32, arith,
}
use mathlib.Core.Path.{subst}
use purv.Purva.Op
use purv.Purva.Transcode.{DecodedInst, decode}
use purv.Purva.Transcode.Targets.{Targets, targets_has, is_direct, collect_targets}
use purv.Purva.Transcode.Targets.Marks.{collected, collected_marks, collected_external}
use purv.Purva.Transcode.Emit.{first_word, displacement, target_word}
use purv.Purva.Transcode.Passes.{step, at_end, Layout, Transcoded, transcode_ex, transcode_map_ex}
use purv.Purva.Transcode.Passes.Steps.{step-IsUnit, step_stale}
use purv.Purva.Transcode.Passes.Sweep.{Visits, IsPlaced, at_end-lem}
use purv.Purva.Transcode.Layout.{run, program, transcode_ex-run, transcode_map_ex-run}

-- The sweep comes to every instruction that is a target, and to the first.
Visits-target :
    (code : ℕ → ℕ) (len : ℕ) (targets : Targets) (x : ℕ)
    → len + 64 ≤ 2 ^ 32
    → len % 4 ≡ 0
    → x % 4 ≡ 0
    → x < len
    → (fuel off : ℕ) (d : DecodedInst) → off % 4 ≡ 0
    → off ≤ x
    → len / 4 < fuel + off / 4
    → (x ≡ off) ⊎ (targets_has targets x ≡ true)
    → Visits code len targets fuel off d x
Visits-target code len targets x small whole al inside zero off d al' before enough h =
    absurd (omega arith)
Visits-target code len targets x small whole al inside (suc fuel) off d al' before enough h =
    let u = step-IsUnit code len targets off d small (omega arith) al' in
    let wd = (step code len targets off d).1 in
    let next : add32 off wd ≡ off + wd = omega (arith, u.interior.inside) in
    let more : at_end code len targets off ≡ false =
      at_end-lem code len targets off small whole al' (omega arith) ∙ ground arith in
    elim (Bool-cases (x == off)) [
      | inl here ↦ (more, inl ((==_iff x off).0 here))
      | inr later ↦
          let marked : targets_has targets x ≡ true = ground arith in
          let past : off + wd ≤ x = ground (arith, u.interior.spared x) in
          (
            more,
            inr (
                Visits-target code len targets x small whole al inside fuel (add32 off wd)
                  (step code len targets off d).0 (omega (arith, next, u.whole))
                  (omega (arith, next)) (omega (arith, next, u.progress, u.whole)) (inr marked)),
          )
    ]

-- The packed op word of a unit at `x`, as `IsPlaced` has it, for a unit that is not dropped, is at the
-- place and made from the local that `IsPlaced` names.
word_at :
    (code : ℕ → ℕ) (len : ℕ) (targets : Targets) (x : ℕ) (d : DecodedInst) (map final ops : ℕ → ℕ)
    → ((step code len targets x d).0.op == Op.nop) ≡ false
    → (placed : IsPlaced code len targets map final ops x)
    → ops (final (x / 2))
      ≡ first_word
          (step code len targets x placed.0).0
          (displacement map len (step code len targets x placed.0).0.target (final (x / 2)))
word_at code len targets x d map final ops visible placed =
    let same = ap (λ (p : ℕ × ℕ). p.0) (step_stale code len targets x placed.0 d) in
    placed.2 (rw same visible)

-- A jump may come to `x`: an instruction of the code is a branch or `jal` to it, or it is one of the
-- addresses that the caller gives.
abbrev pub IsTarget : (ℕ → ℕ) → ℕ → List ℕ → ℕ → Type 0
IsTarget code len ext x =
    ((y : ℕ) × (y % 4 ≡ 0)
      × (y < len)
      × (((decode code y).op ≡ Op.jal)
          ⊎ ((Op.beq ≤ (decode code y).op) × ((decode code y).op ≤ Op.bgeu)))
      × ((decode code y).target ≡ x))
    ⊎ ((before : List ℕ) × (after : List ℕ) × (ext ≡ before ++ x ∷ after))

collected-IsTarget :
    (code : ℕ → ℕ) (len : ℕ) (ext : List ℕ) (targets : Targets) (x : ℕ)
    → len + 64 ≤ 2 ^ 32
    → len % 4 ≡ 0
    → collect_targets code len ext ≡ some targets
    → x < len
    → IsTarget code len ext x
    → targets_has targets x ≡ true
collected-IsTarget code len ext targets x small whole found inside
      (inl (y, al, in_code, jumps, e)) =
    let direct : is_direct (decode code y).op ≡ true = ground arith in
    subst (λ (t : ℕ). targets_has targets t ≡ true) e
      (collected_marks code len small ext targets y found al (omega arith) direct
        (omega (arith, e)))
collected-IsTarget code len ext targets x small whole found inside (inr (before, after, e)) =
    collected_external code len small before after targets x
      (sym (ap (collect_targets code len) e) ∙ found) (omega arith)

-- Every instruction of the code that a direct branch or `jal` comes to, or that is one of the external
-- addresses, keeps an op word of its own: the unit that `step` makes of the code from there on is the
-- one whose first word the program has at the op index that the map gives for the address, and that
-- index is at most the index of the instruction. Units that are dropped have no word. `d` is what the
-- uninitialised local holds in the first pass; `c` is what it holds in the second when it comes to the
-- unit. The code is of whole instructions and ends 64 bytes below the end of the address space.
pub target_keeps_op :
    (code : ℕ → ℕ) (len : ℕ) (ext : List ℕ) (d d' d0 : DecodedInst) (fresh : ℕ → ℕ) (x : ℕ)
    → len + 64 ≤ 2 ^ 32
    → len % 4 ≡ 0
    → IsTarget code len ext x
    → x % 4 ≡ 0
    → x < len
    → (targets : Targets) × (collect_targets code len ext ≡ some targets)
      × (t : Transcoded) × (l : Layout) × (c : DecodedInst) × (transcode_ex code len ext d d' fresh
          ≡ some t)
      × (transcode_map_ex code len ext d0 ≡ some l)
      × (4 * l.map (x / 2) ≤ x)
      × (((step code len targets x d).0.op ≡ Op.nop)
          ⊎ (t.ops (l.map (x / 2))
              ≡ first_word
                  (step code len targets x c).0
                  (displacement l.map len (step code len targets x c).0.target (l.map (x / 2)))))
target_keeps_op code len ext d d' d0 fresh x small whole target al inside =
    let (targets, found) = collected code len small ext in
    let r = run code len d d' fresh targets small whole in
    let visit =
      Visits-target code len targets x small whole al inside (suc ((len + 3) / 4)) 0 d (omega arith)
        (omega arith) (omega arith)
        (inr (collected-IsTarget code len ext targets x small whole found inside target)) in
    let final = r.swept.layout.map in
    let ops = r.swept.ops.ops in
    let placed : IsPlaced code len targets final final ops x =
      subst (λ (m : ℕ → ℕ). IsPlaced code len targets m final ops x) (sym r.own)
        (r.swept.units x visit) in
    (
      targets,
      found,
      program code len d d' fresh ext targets found r,
      r.swept.layout,
      placed.0,
      transcode_ex-run code len d d' fresh ext targets found r,
      transcode_map_ex-run code len d d' fresh ext targets found r d0,
      placed.1,
      elim (Bool-cases ((step code len targets x d).0.op == Op.nop)) [
        | inl dropped ↦ inl ((==_iff (step code len targets x d).0.op Op.nop).0 dropped)
        | inr visible ↦ inr (word_at code len targets x d final final ops visible placed)
      ],
    )

-- A branch or `jal` whose target is an instruction of the code is resolved: the map has an op index for
-- the target, not the sentinel, and the displacement is taken to that index from any op index `at`,
-- never to `at` itself for want of one.
pub direct_target_resolves :
    (code : ℕ → ℕ) (len : ℕ) (ext : List ℕ) (d0 : DecodedInst) (x at : ℕ)
    → len + 64 ≤ 2 ^ 32
    → len % 4 ≡ 0
    → x % 4 ≡ 0
    → x < len
    → is_direct (decode code x).op ≡ true
    → (decode code x).target % 4 ≡ 0
    → (decode code x).target < len
    → (l : Layout) × (transcode_map_ex code len ext d0 ≡ some l)
      × (4 * l.map ((decode code x).target / 2) ≤ (decode code x).target)
      × (target_word l.map len (decode code x).target at ≡ l.map ((decode code x).target / 2))
unfolding target_word
direct_target_resolves code len ext d0 x at small whole al inside direct al' inside' =
    let (targets, found) = collected code len small ext in
    let goal = (decode code x).target in
    let r = run code len d0 d0 (λ i. 0) targets small whole in
    let marked : targets_has targets goal ≡ true =
      collected_marks code len small ext targets x found al (omega arith) direct (omega arith) in
    let visit =
      Visits-target code len targets goal small whole al' inside' (suc ((len + 3) / 4)) 0 d0
        (omega arith) (omega arith) (omega arith) (inr marked) in
    let placed = r.swept.units goal visit in
    (
      r.swept.layout,
      transcode_map_ex-run code len d0 d0 (λ i. 0) ext targets found r d0,
      placed.1,
      ground (arith, placed.1),
    )
