-- ===== src/Purva/Replay/Regions.antt =====
-- Loads and stores: a region hit reads and writes the same bytes in both engines, and a miss makes the
-- same call of the host.
use purv.Base.{
  ℕ, zero, suc, ◌%◌, ◌^◌, ◌<◌, ◌≡◌, inl, inr, ap, refl, true, false, ◌||◌, none, some, ltb, ◌==◌,
  if◌then◌else◌, Option-cases, arith, add32, ◌<<<◌,
}
use purv.Engine.{State, MemOp, Handlers, wr, mem_load, mem_store}
use purv.Engine.Memory.{mem_xlate, region_xlate, write8, write16, write32}
use purv.Engine.Decode.{Decoded}
use purv.Engine.Exec.{done}
use purv.Engine.Exec.Bodies.{exec_load, exec_store, miss_load, store_at}
use purv.Purva.Op
use purv.Purva.Packed.{tc_a, tc_b, tc_imm}
use purv.Purva.Transcode.{load_op, store_op}
use purv.Purva.Eval.Memory.{
  mem_r, mem_w, region_block, load_le, load_reg, store_reg, store_le, st_le, load_size, store_size,
  ld_le,
}
use purv.Purva.Replay.Values.{cast_load-value, cast_load-miss}

mem_r-lem : (s : State) (a n : ℕ) → mem_r s a n ≡ mem_xlate s a n false
unfolding mem_r mem_w region_block mem_xlate region_xlate
mem_r-lem s a n = ground arith

mem_w-lem : (s : State) (a n : ℕ) → mem_w s a n ≡ mem_xlate s a n true
unfolding mem_w region_block mem_xlate region_xlate
mem_w-lem s a n = ground arith

legal_load : (f3 : ℕ) → (load_op f3 == Op.illegal) ≡ false → (f3 == 3 || ltb 5 f3) ≡ false
unfolding load_op
legal_load f3 e = ground arith

load_size-lem :
    (f3 : ℕ) → (load_op f3 == Op.illegal) ≡ false → load_size (load_op f3) ≡ 1 <<< (f3 % 2 ^ 2)
unfolding load_op load_size
load_size-lem zero e = refl
load_size-lem (suc zero) e = refl
load_size-lem (suc (suc zero)) e = refl
load_size-lem (suc (suc (suc zero))) e = cc
load_size-lem (suc (suc (suc (suc zero)))) e = refl
load_size-lem (suc (suc (suc (suc (suc zero))))) e = refl
load_size-lem (suc (suc (suc (suc (suc (suc f3)))))) e = absurd (ground arith)

legal_store : (f3 : ℕ) → (store_op f3 == Op.illegal) ≡ false → ltb 2 f3 ≡ false
unfolding store_op
legal_store f3 e = ground arith

store_size-lem :
    (f3 : ℕ) → (store_op f3 == Op.illegal) ≡ false → store_size (store_op f3) ≡ 1 <<< f3
unfolding store_op store_size
store_size-lem zero e = refl
store_size-lem (suc zero) e = refl
store_size-lem (suc (suc zero)) e = refl
store_size-lem (suc (suc (suc f3))) e = absurd (ground arith)

-- The memory that an access finds, or the call of the host.
module _ (callback : State → MemOp → ℕ → ℕ → State × ℕ) (s : State) (a n : ℕ) where
  load_le-hit :
      (p : ℕ) → mem_xlate s a n false ≡ some p → load_le callback s a n ≡ (s, ld_le s.host p n)
  unfolding load_le
  load_le-hit p e = ground (arith, mem_r-lem s a n)

  load_le-miss : mem_xlate s a n false ≡ none → load_le callback s a n ≡ callback s mem_load a 0
  unfolding load_le
  load_le-miss e = ground (arith, mem_r-lem s a n)

  store_le-hit :
      (v p : ℕ)
      → mem_xlate s a n true ≡ some p
      → store_le callback s a n v ≡ record s { host = st_le s.host p n v }
  unfolding store_le
  store_le-hit v p e = ground (arith, mem_w-lem s a n)

  store_le-miss :
      (v : ℕ)
      → mem_xlate s a n true ≡ none
      → store_le callback s a n v ≡ (callback s mem_store a v).0
  unfolding store_le
  store_le-miss v e = ground (arith, mem_w-lem s a n)

store_bytes :
    (host : ℕ → ℕ) (p v f3 : ℕ)
    → (store_op f3 == Op.illegal) ≡ false
    → (if f3 == 0 then write8 host p v else if f3 == 1 then write16 host p v else write32 host p v)
      ≡ st_le host p (1 <<< f3) v
unfolding st_le store_op write8 write16 write32
store_bytes host p v zero e = refl
store_bytes host p v (suc zero) e = refl
store_bytes host p v (suc (suc zero)) e = refl
store_bytes host p v (suc (suc (suc f3))) e = absurd (ground arith)

store_at-lem :
    (s : State) (p : ℕ) (d : Decoded)
    → (store_op d.f3 == Op.illegal) ≡ false
    → store_at s p d ≡ record s { host = st_le s.host p (1 <<< d.f3) d.b }
unfolding store_at
store_at-lem s p d legal =
    ap (λ (t : ℕ → ℕ). record s { host = t }) (store_bytes s.host p d.b d.f3 legal)

module _ (h : Handlers) (callback : State → MemOp → ℕ → ℕ → State × ℕ)
    (installed : h.callback ≡ some callback) (s : State) (pc w : ℕ) (d : Decoded)
    (base : d.a ≡ s.x (tc_b w)) (offset : d.imm ≡ tc_imm w) where
  miss_load-lem : (a : ℕ) → miss_load h s a ≡ callback s mem_load a 0
  unfolding miss_load
  miss_load-lem a = rw installed

  pub exec_load-lem :
      ((p : ℕ) → s.host p < 256)
      → d.rd ≡ tc_a w
      → (load_op d.f3 == Op.illegal) ≡ false
      → exec_load h s pc d ≡ done (load_reg callback s (load_op d.f3) w)
  unfolding exec_load load_reg wr
  exec_load-lem bytes rd legal =
      let a = add32 (s.x (tc_b w)) (tc_imm w) in
      let n = load_size (load_op d.f3) in
      let size : n ≡ 1 <<< (d.f3 % 2 ^ 2) = load_size-lem d.f3 legal in
      elim (Option-cases (mem_xlate s a n false)) [
        | inl miss ↦ ground (
          arith,
          size,
          legal_load d.f3 legal,
          miss_load-lem a,
          load_le-miss callback s a n miss,
          cast_load-miss d.f3 (callback s mem_load a 0).1 legal,
        )
        | inr (p, hit) ↦ ground (
          arith,
          size,
          legal_load d.f3 legal,
          load_le-hit callback s a n p hit,
          cast_load-value s.host p bytes d.f3 legal,
        )
      ]

  pub exec_store-lem :
      d.b ≡ s.x (tc_a w)
      → (store_op d.f3 == Op.illegal) ≡ false
      → exec_store h s pc d ≡ done (store_reg callback s (store_op d.f3) w)
  unfolding exec_store store_reg
  exec_store-lem value legal =
      let a = add32 (s.x (tc_b w)) (tc_imm w) in
      let n = store_size (store_op d.f3) in
      let size : n ≡ 1 <<< d.f3 = store_size-lem d.f3 legal in
      elim (Option-cases (mem_xlate s a n true)) [
        | inl miss ↦ ground (
          arith,
          size,
          installed,
          legal_store d.f3 legal,
          store_le-miss callback s a n (s.x (tc_a w)) miss,
        )
        | inr (p, hit) ↦ ground (
          arith,
          size,
          legal_store d.f3 legal,
          store_at-lem s p d legal,
          store_le-hit callback s a n (s.x (tc_a w)) p hit,
        )
      ]
