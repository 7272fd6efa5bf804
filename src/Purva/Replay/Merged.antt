-- ===== src/Purva/Replay/Merged.antt =====
-- A fused pair against the two ops that it stands for.
use purv.Base.{
  ℕ, ◌%◌, ◌^◌, ◌<◌, ◌≡◌, inl, inr, ap, ◌∙◌, sym, refl, true, false, ◌&&◌, bit_or, none, some, ltb,
  ◌==◌, Bool-cases, add32, u32, ◌<<<◌, ◌>>>◌, arith,
}
use mathlib.Core.Path.{subst}
use mathlib.Core.Option.{some-injective, none-ne-some}
use purv.Engine.{State, MemOp}
use purv.Bulk.{set_x}
use purv.Purva.Op
use purv.Purva.Transcode.{DecodedInst}
use purv.Purva.Transcode.Emit.{first_word}
use purv.Purva.Transcode.Fuse.Pairs.{
  pair_op, is_shadd, is_lwx, is_lwlw, is_lwsw, is_load_bz, other_operand, fits_signed,
}
use purv.Purva.Eval.Memory.{load_le, store_le}
use purv.Purva.Eval.Ops.{fall, handler}
use purv.Purva.Replay.Fields.{HasRegs}
use purv.Purva.Replay.Doubles.{run-shadd, run-lwx, run-lwlw, run-lwsw}
use purv.Purva.Replay.Pairs.{
  IsDevice, HasImm, tc_imm-lt, set_x-set_x, load_le-set_x, load_le-bytes, run-add, run-slli, run-lw,
  run-sw,
}

module _ (callback : State → MemOp → ℕ → ℕ → State × ℕ) where
  -- The op `d` leads from `s` to where `b` leads after `a`, with bytes in memory between the two.
  abbrev pub Merges : State → DecodedInst → DecodedInst → DecodedInst → Type 0
  Merges s a b d =
      (s1 : State) × (s2 : State) × ((p : ℕ) → s1.host p < 256)
      × ((idx w1 disp : ℕ) → handler callback s idx (first_word a disp) w1 ≡ fall 1 1 s1)
      × ((idx w1 disp : ℕ) → handler callback s1 idx (first_word b disp) w1 ≡ fall 1 1 s2)
      × ((idx w1 disp : ℕ) → handler callback s idx (first_word d disp) w1 ≡ fall 1 2 s2)

  module _ (s : State) (bytes : (p : ℕ) → s.host p < 256) (device : IsDevice callback)
      (a b out : DecodedInst) (ra : HasRegs a) (rb : HasRegs b) (ia : HasImm a) (ib : HasImm b)
      (visible : (a.rd == 0) ≡ false) where
    -- A load into its own base register, which held `u`.
    load_clobbers :
        (t : State) (u : ℕ)
        → b.rd ≡ a.rd
        → b.rs1 ≡ a.rd
        → (let found = load_le callback t (add32 u b.imm) 4 in
            let t' = set_x t a.rd u in
            let again = load_le callback t' (add32 (t'.x b.rs1) b.imm) 4 in
            set_x found.0 a.rd found.1 ≡ set_x again.0 b.rd again.1)
    load_clobbers t u rd rs1 =
        let found = load_le callback t (add32 u b.imm) 4 in
        let t' = set_x t a.rd u in
        let base : t'.x b.rs1 ≡ u = ap t'.x rs1 ∙ ground arith in
        let again = load_le callback t' (add32 (t'.x b.rs1) b.imm) 4 in
        let same : again ≡ (set_x found.0 a.rd u, found.1) =
          ap (λ (r : ℕ). load_le callback t' (add32 r b.imm) 4) base
          ∙ load_le-set_x callback device t a.rd u (add32 u b.imm) 4 in
        sym (set_x-set_x found.0 a.rd u found.1)
        ∙ sym (ap (λ (p : State × ℕ). set_x p.0 a.rd p.1) same)
        ∙ ap (λ (r : ℕ). set_x again.0 r again.1) (sym rd)

    -- `slli` and `add`.
    merge-shadd :
        is_shadd a b ≡ true
        → Merges s a b (record out {
          op = Op.shadd;
          rd = a.rd;
          rs1 = other_operand a b;
          rs2 = a.rs1;
          imm = a.imm;
        })
    merge-shadd e =
        let shifted = u32 (s.x a.rs1 <<< (a.imm % 2 ^ 5)) in
        let s1 = set_x s a.rd shifted in
        let total = add32 (s1.x b.rs1) (s1.x b.rs2) in
        let d : DecodedInst = record out {
          op = Op.shadd;
          rd = a.rd;
          rs1 = other_operand a b;
          rs2 = a.rs1;
          imm = a.imm;
        } in
        let ops : (a.op ≡ Op.slli) × (b.op ≡ Op.add) × (b.rd ≡ a.rd) =
          (ground arith, ground arith, ground arith) in
        let regs : HasRegs d = (ra.0, ground arith, ra.1) in
        let value : add32 (s.x (other_operand a b)) shifted ≡ total = ground arith in
        let there : set_x s a.rd (add32 (s.x (other_operand a b)) shifted) ≡ set_x s1 b.rd total =
          ap (set_x s a.rd) value
          ∙ sym (set_x-set_x s a.rd shifted total)
          ∙ ap (λ (r : ℕ). set_x s1 r total) (sym ops.2) in
        (
          s1,
          set_x s1 b.rd total,
          bytes,
          λ idx w1 disp. run-slli callback s idx w1 disp a ra ops.0 ia,
          λ idx w1 disp. run-add callback s1 idx w1 disp b rb ops.1,
          λ idx w1 disp. run-shadd callback s idx w1 disp d regs refl ∙ ap (fall 1 2) there,
        )

    -- `add` and `lw`.
    merge-lwx :
        is_lwx a b ≡ true
        → Merges s a b
            (record out { op = Op.lwx; rd = a.rd; rs1 = a.rs1; rs2 = a.rs2; imm = b.imm })
    merge-lwx e =
        let sum = add32 (s.x a.rs1) (s.x a.rs2) in
        let s1 = set_x s a.rd sum in
        let d : DecodedInst = record out {
          op = Op.lwx;
          rd = a.rd;
          rs1 = a.rs1;
          rs2 = a.rs2;
          imm = b.imm;
        } in
        let ops : (a.op ≡ Op.add) × (b.op ≡ Op.lw) × (b.rd ≡ a.rd) × (b.rs1 ≡ a.rd) =
          (ground arith, ground arith, ground arith, ground arith) in
        let fits : fits_signed 1024 b.imm ≡ true = ground arith in
        let small : b.imm < 2 ^ 32 = omega (arith, tc_imm-lt b.imm, ib) in
        let again = load_le callback s1 (add32 (s1.x b.rs1) b.imm) 4 in
        (
          s1,
          set_x again.0 b.rd again.1,
          bytes,
          λ idx w1 disp. run-add callback s idx w1 disp a ra ops.0,
          λ idx w1 disp.
              run-lw callback s1 idx w1 disp b rb ops.1 ib (ap (λ (r : ℕ). r == 0) ops.2 ∙ visible)
                bytes device,
          λ idx w1 disp.
              run-lwx callback s idx w1 disp d ra refl small fits
              ∙ ap (fall 1 2) (load_clobbers s sum ops.2 ops.3),
        )

    -- Two `lw`.
    merge-lwlw :
        is_lwlw a b ≡ true
        → Merges s a b (record out {
          op = Op.lwlw;
          rd = a.rd;
          rs1 = a.rs1;
          imm = bit_or ((a.imm % 2 ^ 8) <<< 8) (b.imm % 2 ^ 8);
        })
    merge-lwlw e =
        let first = load_le callback s (add32 (s.x a.rs1) a.imm) 4 in
        let s1 = set_x first.0 a.rd first.1 in
        let again = load_le callback s1 (add32 (s1.x b.rs1) b.imm) 4 in
        let kept = load_le-bytes callback device s (add32 (s.x a.rs1) a.imm) 4 bytes in
        let d : DecodedInst = record out {
          op = Op.lwlw;
          rd = a.rd;
          rs1 = a.rs1;
          imm = bit_or ((a.imm % 2 ^ 8) <<< 8) (b.imm % 2 ^ 8);
        } in
        let ops : (a.op ≡ Op.lw) × (b.op ≡ Op.lw) × (b.rd ≡ a.rd) × (b.rs1 ≡ a.rd) =
          (ground arith, ground arith, ground arith, ground arith) in
        let fit_a : fits_signed 128 a.imm ≡ true = ground arith in
        let fit_b : fits_signed 128 b.imm ≡ true = ground arith in
        let small_a : a.imm < 2 ^ 32 = omega (arith, tc_imm-lt a.imm, ia) in
        let small_b : b.imm < 2 ^ 32 = omega (arith, tc_imm-lt b.imm, ib) in
        (
          s1,
          set_x again.0 b.rd again.1,
          kept,
          λ idx w1 disp. run-lw callback s idx w1 disp a ra ops.0 ia visible bytes device,
          λ idx w1 disp.
              run-lw callback s1 idx w1 disp b rb ops.1 ib (ap (λ (r : ℕ). r == 0) ops.2 ∙ visible)
                kept device,
          λ idx w1 disp.
              run-lwlw callback s idx w1 disp d a.imm b.imm refl ra.0 ra.1 small_a small_b fit_a
                fit_b refl
              ∙ ap (fall 1 2) (load_clobbers first.0 first.1 ops.2 ops.3),
        )

    -- `lw` and `sw`.
    merge-lwsw :
        is_lwsw a b ≡ true
        → Merges s a b (record out {
          op = Op.lwsw;
          rd = a.rd;
          rs1 = a.rs1;
          rs2 = b.rs1;
          imm = bit_or ((a.imm >>> 2) <<< 6) (b.imm >>> 2);
        })
    merge-lwsw e =
        let first = load_le callback s (add32 (s.x a.rs1) a.imm) 4 in
        let s1 = set_x first.0 a.rd first.1 in
        let d : DecodedInst = record out {
          op = Op.lwsw;
          rd = a.rd;
          rs1 = a.rs1;
          rs2 = b.rs1;
          imm = bit_or ((a.imm >>> 2) <<< 6) (b.imm >>> 2);
        } in
        let ops : (a.op ≡ Op.lw) × (b.op ≡ Op.sw) × (b.rs2 ≡ a.rd) =
          (ground arith, ground arith, ground arith) in
        let fits : (ltb a.imm 128 && (a.imm % 4 == 0 && (ltb b.imm 256 && b.imm % 4 == 0))) ≡ true =
          ground arith in
        let stored : s1.x b.rs2 ≡ first.1 = ap s1.x ops.2 ∙ ground arith in
        (
          s1,
          store_le callback s1 (add32 (s1.x b.rs1) b.imm) 4 (s1.x b.rs2),
          load_le-bytes callback device s (add32 (s.x a.rs1) a.imm) 4 bytes,
          λ idx w1 disp. run-lw callback s idx w1 disp a ra ops.0 ia visible bytes device,
          λ idx w1 disp. run-sw callback s1 idx w1 disp b rb ops.1 ib,
          λ idx w1 disp.
              run-lwsw callback s idx w1 disp d (ra.0, ra.1, rb.1) a.imm b.imm refl fits refl
              ∙ ap (λ (v : ℕ). fall 1 2 (store_le callback s1 (add32 (s1.x b.rs1) b.imm) 4 v))
                  (sym stored),
        )

    -- Every pair but a load before a branch.
    pub merge-pair_op :
        (d : DecodedInst) → pair_op a b out ≡ some d → is_load_bz a b ≡ false → Merges s a b d
    unfolding pair_op
    merge-pair_op d e no_branch =
        let merged = λ (x : DecodedInst) (own : pair_op a b out ≡ some x) (m : Merges s a b x).
          subst (Merges s a b) (some-injective x d (sym own ∙ e)) m in
        elim (Bool-cases (is_shadd a b)) [
          | inl shadd ↦ merged _ (rw shadd) (merge-shadd shadd)
          | inr f ↦ elim (Bool-cases (is_lwx a b)) [
            | inl lwx ↦ merged _ (rw (f, lwx)) (merge-lwx lwx)
            | inr g ↦ elim (Bool-cases (is_lwlw a b)) [
              | inl lwlw ↦ merged _ (rw (f, g, lwlw)) (merge-lwlw lwlw)
              | inr k ↦ elim (Bool-cases (is_lwsw a b)) [
                | inl lwsw ↦ merged _ (rw (f, g, k, lwsw)) (merge-lwsw lwsw)
                | inr l ↦
                    let nothing : pair_op a b out ≡ none = rw (f, g, k, l, no_branch) in
                    absurd (none-ne-some d (sym nothing ∙ e))
              ]
            ]
          ]
        ]
