-- ===== src/Purva/Replay/Pairs.antt =====
-- The ops that fuse in pairs, on their own, and what a pair asks of the host's memory callback.
use purv.Base.{
  ℕ, ◌%◌, ◌^◌, ◌<◌, ◌≡◌, fun_ext, inl, inr, ap, ◌∙◌, refl, false, ◌==◌, Option-cases, add32, u16,
  u32, ◌<<<◌, arith,
}
use purv.Base.Int.{signed16, wrap, wrap-lt}
use purv.Engine.{State, MemOp, mem_load}
use purv.Engine.Exec.Ranges.{read32-lt}
use purv.Bulk.{set_x}
use purv.Purva.Op
use purv.Purva.Packed.{tc_imm}
use purv.Purva.Transcode.{DecodedInst}
use purv.Purva.Transcode.Emit.{first_word}
use purv.Purva.Eval.Memory.{
  mem_r, mem_w, load_le, store_le, load_reg, store_reg, load_size, store_size, cast_load,
}
use purv.Purva.Eval.Ops.{fall, handler, reg_reg, reg_imm}
use purv.Purva.Replay.Values.{ld_le-4}
use purv.Purva.Replay.Fields.{
  HasRegs, is_reg_reg, is_reg_imm, is_load, is_store, first_word-reg_reg, first_word-reg_imm,
  first_word-load, first_word-store, handler-reg_reg, handler-reg_imm, handler-load, handler-store,
}

-- A memory callback that is a device: it neither reads nor writes the registers, returns a word, and
-- leaves bytes in memory.
pub record IsDevice (callback : State → MemOp → ℕ → ℕ → State × ℕ) : Type 0 where
  pub blind :
      (s : State) (r u : ℕ) (op : MemOp) (a v : ℕ)
      → callback (set_x s r u) op a v ≡ (set_x (callback s op a v).0 r u, (callback s op a v).1)
  pub word : (s : State) (op : MemOp) (a v : ℕ) → (callback s op a v).1 < 2 ^ 32
  pub bytes :
      (s : State) (op : MemOp) (a v : ℕ)
      → ((p : ℕ) → s.host p < 256)
      → (p : ℕ) → (callback s op a v).0.host p < 256

-- The immediate is one that 16 bits hold.
abbrev pub HasImm : DecodedInst → Type 0
HasImm d = tc_imm d.imm ≡ d.imm

pub tc_imm-lt : (w : ℕ) → tc_imm w < 2 ^ 32
unfolding tc_imm
tc_imm-lt w = wrap-lt (signed16 (u16 w))

pub tc_imm-low :
    (v : ℕ) (d : DecodedInst) → HasImm d → v % 2 ^ 16 ≡ d.imm % 2 ^ 16 → tc_imm v ≡ d.imm
unfolding tc_imm
tc_imm-low v d own e = ap (λ (t : ℕ). wrap (signed16 t)) e ∙ own

pub set_x-set_x : (s : State) (r u v : ℕ) → set_x (set_x s r u) r v ≡ set_x s r v
set_x-set_x s r u v = ap (λ (x : ℕ → ℕ). record s { x = x }) (fun_ext (λ (j : ℕ). ground arith))

module _ (callback : State → MemOp → ℕ → ℕ → State × ℕ) where
  -- A load by a device does not depend on the registers.
  pub load_le-set_x :
      IsDevice callback
      → (s : State) (r u a n : ℕ)
      → load_le callback (set_x s r u) a n
        ≡ (set_x (load_le callback s a n).0 r u, (load_le callback s a n).1)
  unfolding load_le mem_r mem_w
  load_le-set_x device s r u a n =
      let same : mem_r (set_x s r u) a n ≡ mem_r s a n = refl in
      elim (Option-cases (mem_r s a n)) [
        | inl miss ↦ rw (same, miss, load_le) (device.blind s r u mem_load a 0)
        | inr (p, hit) ↦ rw (same, hit, load_le)
      ]

  pub load_le-word :
      IsDevice callback
      → (s : State) (a : ℕ) → ((p : ℕ) → s.host p < 256)
      → (load_le callback s a 4).1 < 2 ^ 32
  unfolding load_le
  load_le-word device s a bytes = elim (Option-cases (mem_r s a 4)) [
    | inl miss ↦ rw (miss, load_le) (device.word s mem_load a 0)
    | inr (p, hit) ↦
        rw (hit, load_le) (omega (arith, ld_le-4 s.host p bytes, read32-lt s.host bytes p))
  ]

  pub load_le-bytes :
      IsDevice callback
      → (s : State) (a n : ℕ) → ((p : ℕ) → s.host p < 256)
      → (p : ℕ) → (load_le callback s a n).0.host p < 256
  unfolding load_le
  load_le-bytes device s a n bytes p = elim (Option-cases (mem_r s a n)) [
    | inl miss ↦ rw (miss, load_le) (device.bytes s mem_load a 0 bytes p)
    | inr (q, hit) ↦ rw (hit, load_le) (bytes p)
  ]

  -- What the ops of the pairs do on their own.
  module _ (s : State) (idx w1 disp : ℕ) (d : DecodedInst) (regs : HasRegs d) where
    pub run-add :
        d.op ≡ Op.add
        → handler callback s idx (first_word d disp) w1
          ≡ fall 1 1 (set_x s d.rd (add32 (s.x d.rs1) (s.x d.rs2)))
    unfolding reg_reg
    run-add e =
        let fs = first_word-reg_reg d disp regs (ap is_reg_reg e) in
        handler-reg_reg callback s idx (first_word d disp) w1 (ap is_reg_reg (fs.0 ∙ e))
        ∙ rw (fs.0, fs.1, fs.2, fs.3, e)

    pub run-slli :
        d.op ≡ Op.slli
        → HasImm d
        → handler callback s idx (first_word d disp) w1
          ≡ fall 1 1 (set_x s d.rd (u32 (s.x d.rs1 <<< (d.imm % 2 ^ 5))))
    unfolding reg_imm
    run-slli e own =
        let fs = first_word-reg_imm d disp regs (ap is_reg_imm e) in
        handler-reg_imm callback s idx (first_word d disp) w1 (ap is_reg_imm (fs.0 ∙ e))
        ∙ rw (fs.0, fs.1, fs.2, tc_imm-low (first_word d disp) d own fs.3, e)

    pub run-lw :
        d.op ≡ Op.lw
        → HasImm d
        → (d.rd == 0) ≡ false
        → ((p : ℕ) → s.host p < 256)
        → IsDevice callback
        → handler callback s idx (first_word d disp) w1
          ≡ fall 1 1 (
              set_x
                (load_le callback s (add32 (s.x d.rs1) d.imm) 4).0
                d.rd
                (load_le callback s (add32 (s.x d.rs1) d.imm) 4).1)
    unfolding load_reg load_size cast_load
    run-lw e own visible bytes device =
        let fs = first_word-load d disp regs (ap is_load e) in
        let a = add32 (s.x d.rs1) d.imm in
        let word : u32 (load_le callback s a 4).1 ≡ (load_le callback s a 4).1 =
          omega (arith, load_le-word device s a bytes) in
        handler-load callback s idx (first_word d disp) w1 (ap is_load (fs.0 ∙ e))
        ∙ rw (fs.0, fs.1, fs.2, tc_imm-low (first_word d disp) d own fs.3, e, visible, word)

    pub run-sw :
        d.op ≡ Op.sw
        → HasImm d
        → handler callback s idx (first_word d disp) w1
          ≡ fall 1 1 (store_le callback s (add32 (s.x d.rs1) d.imm) 4 (s.x d.rs2))
    unfolding store_reg store_size
    run-sw e own =
        let fs = first_word-store d disp regs (ap is_store e) in
        handler-store callback s idx (first_word d disp) w1 (ap is_store (fs.0 ∙ e))
        ∙ rw (fs.0, fs.1, fs.2, tc_imm-low (first_word d disp) d own fs.3, e)
