-- ===== src/Purva/Replay/LoadBranch.antt =====
-- A load before a branch on zero, as the two op words that stand for both.
use purv.Base.{
  ℕ, ◌+◌, ◌*◌, ◌%◌, ◌^◌, ◌<◌, ◌≡◌, ◌⊎◌, fun_ext, inl, inr, ap, ◌∙◌, sym, true, false, bit_or, some,
  ◌==◌, if◌then◌else◌, Option-cases, add32, sub32, u32, arith,
}
use mathlib.Core.Path.{subst}
use mathlib.Core.Option.{some-injective}
use purv.Base.Bits.{bit_or_sum}
use purv.Engine.{State, MemOp, mem_load}
use purv.Bulk.{set_x}
use purv.Purva.Op
use purv.Purva.Packed.{tc_op}
use purv.Purva.Transcode.{DecodedInst}
use purv.Purva.Transcode.Emit.{first_word, displacement, target_word, Ops, emit}
use purv.Purva.Transcode.Fuse.Pairs.{pair_op, is_shadd, is_lwx, is_lwlw, is_lwsw, is_load_bz}
use purv.Purva.Eval.Memory.{mem_r, load_le, load_reg, load_size, cast_load}
use purv.Purva.Eval.Ops.{fall, reloc, taken, relocated, handler, load_bz}
use purv.Purva.Replay.Words.{tc-pack_ab}
use purv.Purva.Replay.Fields.{HasRegs, Packs, is_load, first_word-load, handler-load}
use purv.Purva.Replay.Pairs.{IsDevice, HasImm, tc_imm-low}

-- The second word: its condition bit, and where its displacement leads.
second_word :
    (map : ℕ → ℕ) (len target at c : ℕ)
    → c < 2
    → bit_or (displacement map len target at) c ≡ displacement map len target at + c
unfolding displacement
second_word map len target at c h =
    let k = sub32 (target_word map len target at) at % 2 ^ 30 in
    let scaled : displacement map len target at ≡ k * 2 ^ 2 = omega arith in
    ap (λ (t : ℕ). bit_or t c) scaled
    ∙ bit_or_sum 2 k c (omega arith)
    ∙ ap (λ (t : ℕ). t + c) (sym scaled)

second_word-bit :
    (map : ℕ → ℕ) (len target at c : ℕ) → c < 2 → bit_or (displacement map len target at) c % 2 ≡ c
unfolding displacement
second_word-bit map len target at c h = omega (arith, second_word map len target at c h)

second_word-relocated :
    (map : ℕ → ℕ) (len target at c : ℕ)
    → c < 2
    → at < 2 ^ 29
    → target_word map len target at < 2 ^ 29
    → relocated at (bit_or (displacement map len target at) c) ≡ target_word map len target at
unfolding displacement relocated
second_word-relocated map len target at c h ha hg =
    let goal = target_word map len target at in
    let sum = second_word map len target at c h in
    let word : bit_or (displacement map len target at) c ≡ u32 (sub32 goal at * 4) + c = sum in
    rw word (ground arith)

first_word-load_bz :
    (d : DecodedInst) (disp : ℕ)
    → (d.op ≡ Op.lw_bz) ⊎ (d.op ≡ Op.lbu_bz)
    → d.rd < 2 ^ 5
    → d.rs1 < 2 ^ 5
    → Packs (first_word d disp) d.op d.rd d.rs1 (d.imm % 2 ^ 16)
unfolding first_word
first_word-load_bz d disp (inl e) rd rs1 =
    rw e (tc-pack_ab Op.lw_bz d.rd rd d.rs1 rs1 (d.imm % 2 ^ 16) (omega arith))
first_word-load_bz d disp (inr e) rd rs1 =
    rw e (tc-pack_ab Op.lbu_bz d.rd rd d.rs1 rs1 (d.imm % 2 ^ 16) (omega arith))

-- The two words as `emit` writes them.
emit-load_bz :
    (o : Ops) (d : DecodedInst) (map : ℕ → ℕ) (len : ℕ)
    → (d.op ≡ Op.lw_bz) ⊎ (d.op ≡ Op.lbu_bz)
    → o.at + 1 < 2 ^ 32
    → ((emit o d map len).ops o.at ≡ first_word d (displacement map len d.target o.at))
      × ((emit o d map len).ops (o.at + 1)
          ≡ bit_or (displacement map len d.target o.at) (d.rs2 % 2))
unfolding emit
emit-load_bz o d map len two small = ground arith

handler-load_bz :
    (callback : State → MemOp → ℕ → ℕ → State × ℕ) (s : State) (idx w w1 : ℕ)
    → (tc_op w ≡ Op.lw_bz) ⊎ (tc_op w ≡ Op.lbu_bz)
    → handler callback s idx w w1 ≡ load_bz callback s idx w w1
unfolding handler
handler-load_bz callback s idx w w1 (inl e) = rw e
handler-load_bz callback s idx w w1 (inr e) = rw e

-- A device leaves every register as it is.
load_le-x :
    (callback : State → MemOp → ℕ → ℕ → State × ℕ) (s : State) (a n r : ℕ)
    → IsDevice callback
    → (load_le callback s a n).0.x r ≡ s.x r
unfolding load_le
load_le-x callback s a n r device = elim (Option-cases (mem_r s a n)) [
  | inl miss ↦
      let same : set_x s r (s.x r) ≡ s =
        ap (λ (x : ℕ → ℕ). record s { x = x }) (fun_ext (λ (j : ℕ). ground arith)) in
      let moved = device.blind s r (s.x r) mem_load a 0 in
      let kept : callback s mem_load a 0
          ≡ (set_x (callback s mem_load a 0).0 r (s.x r), (callback s mem_load a 0).1) =
        sym (ap (λ (t : State). callback t mem_load a 0) same) ∙ moved in
      rw (miss, load_le) (ap (λ (p : State × ℕ). p.0.x r) kept ∙ ground arith)
  | inr (p, hit) ↦ rw (hit, load_le)
]

module _ (callback : State → MemOp → ℕ → ℕ → State × ℕ) (s : State) (a b d0 d : DecodedInst)
    (ra : HasRegs a) (ia : HasImm a) (e : pair_op a b d0 ≡ some d)
    (fused : is_load_bz a b ≡ true) where
  -- The load on its own.
  run-load :
      (idx w1 disp : ℕ)
      → handler callback s idx (first_word a disp) w1 ≡ (
          let found = load_le callback s (add32 (s.x a.rs1) a.imm) (load_size a.op) in
          fall 1 1 (set_x found.0 a.rd (cast_load a.op found.1)))
  unfolding load_reg
  run-load idx w1 disp =
      let loads : is_load a.op ≡ true = ground arith in
      let visible : (a.rd == 0) ≡ false = ground arith in
      let fs = first_word-load a disp ra loads in
      handler-load callback s idx (first_word a disp) w1 (ap is_load fs.0 ∙ loads)
      ∙ rw (fs.0, fs.1, fs.2, tc_imm-low (first_word a disp) a ia fs.3, visible)

  -- The pair as one op.
  abbrev pub fused_inst : DecodedInst
  fused_inst = record d0 {
    op = if a.op == Op.lw then Op.lw_bz else Op.lbu_bz;
    rd = a.rd;
    rs1 = a.rs1;
    imm = a.imm;
    target = b.target;
    rs2 = if b.op == Op.beq then 1 else 0;
  }

  fused_inst-lem : d ≡ fused_inst
  unfolding pair_op
  fused_inst-lem =
      let f0 : is_shadd a b ≡ false = ground arith in
      let f1 : is_lwx a b ≡ false = ground arith in
      let f2 : is_lwlw a b ≡ false = ground arith in
      let f3 : is_lwsw a b ≡ false = ground arith in
      let own : pair_op a b d0 ≡ some fused_inst = rw (f0, f1, f2, f3, fused) in
      some-injective d fused_inst (sym e ∙ own)

  -- The handler at the fields that the words bring through.
  run-load_bz :
      (idx w1 disp : ℕ)
      → handler callback s idx (first_word fused_inst disp) w1 ≡ (
          let found = load_le callback s (add32 (s.x a.rs1) a.imm) (load_size a.op) in
          let v = cast_load a.op found.1 in
          let s1 = set_x found.0 a.rd v in
          let zero_bit : ℕ = if v == 0 then 1 else 0 in
          if zero_bit == w1 % 2 then reloc (relocated idx w1) 2 s1 else fall 2 2 s1)
  unfolding load_bz
  run-load_bz idx w1 disp =
      let w = first_word fused_inst disp in
      let two : (fused_inst.op ≡ Op.lw_bz) ⊎ (fused_inst.op ≡ Op.lbu_bz) = ground arith in
      let fs = first_word-load_bz fused_inst disp two ra.0 ra.1 in
      let same : (if fused_inst.op == Op.lw_bz then Op.lw else Op.lbu) ≡ a.op = ground arith in
      let kind : (if tc_op w == Op.lw_bz then Op.lw else Op.lbu) ≡ a.op =
        ap (λ (t : ℕ). if t == Op.lw_bz then Op.lw else Op.lbu) fs.0 ∙ same in
      handler-load_bz callback s idx w w1
        (subst (λ (t : ℕ). (t ≡ Op.lw_bz) ⊎ (t ≡ Op.lbu_bz)) (sym fs.0) two)
      ∙ rw (kind, fs.1, fs.2, tc_imm-low w a ia fs.3)

  -- The condition bit against the branch.
  condition :
      (s1 : State) (v : ℕ)
      → s1.x a.rd ≡ v
      → s1.x 0 ≡ 0
      → ((if v == 0 then 1 else 0) == (if b.op == Op.beq then 1 else 0))
        ≡ taken b.op (s1.x b.rs1) (s1.x b.rs2)
  unfolding taken
  condition s1 v ev ez =
      let sides : ((b.rs1 ≡ a.rd) × (b.rs2 ≡ 0)) ⊎ ((b.rs2 ≡ a.rd) × (b.rs1 ≡ 0)) = ground arith in
      elim sides [
        | inl (l, r) ↦
            let el : s1.x b.rs1 ≡ v = ap s1.x l ∙ ev in
            let er : s1.x b.rs2 ≡ 0 = ap s1.x r ∙ ez in rw (el, er) (ground arith)
        | inr (r, l) ↦
            let el : s1.x b.rs1 ≡ 0 = ap s1.x l ∙ ez in
            let er : s1.x b.rs2 ≡ v = ap s1.x r ∙ ev in rw (el, er) (ground arith)
      ]

  -- The two handlers, and the two words of the pair as `emit` writes them behind `o`.
  pub merge-load_bz :
      (o : Ops) (map : ℕ → ℕ) (len idx w1 disp : ℕ)
      → IsDevice callback
      → s.x 0 ≡ 0
      → o.at < 2 ^ 29
      → target_word map len b.target o.at < 2 ^ 29
      → (s1 : State) × (handler callback s idx (first_word a disp) w1 ≡ fall 1 1 s1)
        × (handler callback s o.at ((emit o d map len).ops o.at) ((emit o d map len).ops (o.at + 1))
            ≡ (if taken b.op (s1.x b.rs1) (s1.x b.rs2)
                then reloc (target_word map len b.target o.at) 2 s1
                else fall 2 2 s1))
  merge-load_bz o map len idx w1 disp device ez ha hg =
      let found = load_le callback s (add32 (s.x a.rs1) a.imm) (load_size a.op) in
      let v = cast_load a.op found.1 in
      let s1 = set_x found.0 a.rd v in
      let c : ℕ = if b.op == Op.beq then 1 else 0 in
      let small : c < 2 = ground arith in
      let disp' = displacement map len b.target o.at in
      let word = bit_or disp' (c % 2) in
      let own : c % 2 ≡ c = omega (arith, small) in
      let bit : word % 2 ≡ c =
        ap (λ (t : ℕ). bit_or disp' t % 2) own ∙ second_word-bit map len b.target o.at c small in
      let there : relocated o.at word ≡ target_word map len b.target o.at =
        ap (λ (t : ℕ). relocated o.at (bit_or disp' t)) own
        ∙ second_word-relocated map len b.target o.at c small ha hg in
      let visible : (a.rd == 0) ≡ false = ground arith in
      let still : s1.x 0 ≡ 0 =
        ground (arith, load_le-x callback s (add32 (s.x a.rs1) a.imm) (load_size a.op) 0 device) in
      let test = condition s1 v (ground arith) still in
      let words = emit-load_bz o fused_inst map len (ground arith) (omega arith) in
      (
        s1,
        run-load idx w1 disp,
        rw (fused_inst-lem, words.0, words.1) (run-load_bz o.at word disp' ∙ rw (bit, there, test)),
      )
