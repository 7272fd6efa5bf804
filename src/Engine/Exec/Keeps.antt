-- ===== src/Engine/Exec/Keeps.antt =====
-- A property of the state that the primitive effects keep is kept by every action body.
use purv.Base.{
  ℕ, ◌^◌, ◌≤◌, ◌<◌, ◌≡◌, refl, Bool, true, false, ltb, Option, none, some, if◌then◌else◌, ◌<<<◌,
  ◌%◌, add32, arith, Bool-cases, ltb-false→le, inl, inr,
}
use mathlib.Core.Path.{subst}
use mathlib.Core.Option.{some-injective}
use purv.Engine.{State, Handlers, MemOp, mem_load, mem_store, wr}
use purv.Engine.Memory.{mem_xlate}
use purv.Engine.Decode.{
  Decoded, Action, alu, mul, load, store, branch, jal, jalr, lui, auipc, ebreak, system, illegal,
}
use purv.Engine.Decode
use purv.Engine.Decode.Shape.{IsSane}
use purv.Engine.Exec.{Outcome}
use purv.Engine.Exec.Arith.{alu_result, mul_result, load_value, miss_value, branch_taken}
use purv.Engine.Exec.Ranges.{alu_result-lt, mul_result-lt, miss_value-lt}
use purv.Engine.Exec.Bodies.{
  trap, exec_illegal, exec_ebreak, exec_ecall, exec_system, miss_load, exec_load, store_at,
  exec_store, exec_branch, exec_jalr, exec_jal, exec,
}

-- `P` holds of the state in which an instruction leaves the machine, and a jump goes to a 32-bit
-- address.
pub data Kept (P : State → Type 0) : Outcome → Type 0 where
  done : (s : State) → P s → Kept P (Outcome.done s)
  jump : (pc : ℕ) (s : State) → pc < 2 ^ 32 → P s → Kept P (Outcome.jump pc s)
  out : (s : State) → P s → Kept P (Outcome.out s)

abbrev pub TrapKeeps : (State → Type 0) → Option (State → State × Bool) → Type 0
TrapKeeps P o = (f : State → State × Bool) → o ≡ some f → (s : State) → P s → P (f s).0

abbrev pub MemFn : Type 0
MemFn = State → MemOp → ℕ → ℕ → State × ℕ

abbrev pub CallbackKeeps : (State → Type 0) → Option MemFn → Type 0
CallbackKeeps P o =
    (f : MemFn)
    → o ≡ some f
    → (s : State) (op : MemOp) (addr v : ℕ) → P s
    → P (f s op addr v).0 × ((f s op addr v).1 < 2 ^ 32)

-- The host's hooks keep `P`, and its callback delivers 32-bit words.
pub record Respects (P : State → Type 0) (h : Handlers) : Type 0 where
  pub ecall : TrapKeeps P h.ecall
  pub ebreak : TrapKeeps P h.ebreak
  pub illegal : TrapKeeps P h.illegal
  pub callback : CallbackKeeps P h.callback

-- A hook that is there keeps `P` if its function does; one that is not keeps everything.
module _ (P : State → Type 0) where
  pub TrapKeeps-none : TrapKeeps P none
  TrapKeeps-none f e = cc

  pub TrapKeeps-some :
      (g : State → State × Bool) → ((s : State) → P s → P (g s).0) → TrapKeeps P (some g)
  TrapKeeps-some g k f e s p = subst (λ u. P (u s).0) (some-injective g f e) (k s p)

  pub CallbackKeeps-some :
      (g : MemFn)
      → ((s : State) (op : MemOp) (addr v : ℕ)
          → P s
          → P (g s op addr v).0 × ((g s op addr v).1 < 2 ^ 32))
      → CallbackKeeps P (some g)
  CallbackKeeps-some g k f e s op addr v p =
      subst (λ u. P (u s op addr v).0 × ((u s op addr v).1 < 2 ^ 32)) (some-injective g f e)
        (k s op addr v p)

-- The engine's own effects keep `P`: a note for a trap, a register write, a load, a store.
pub record Stable (P : State → Type 0) : Type 0 where
  pub note : (s : State) (pc inst : ℕ) → P s → P (record s { pc = pc; inst = inst })
  pub write : (s : State) (i v : ℕ) → i < 32 → v < 2 ^ 32 → P s → P (wr s i v)
  pub loads : (s : State) (i p f3 : ℕ) → i < 32 → P s → P (wr s i (load_value s.host p f3))
  pub stores :
      (s : State) (addr p : ℕ) (d : Decoded)
      → d.f3 < 3
      → mem_xlate s addr (1 <<< d.f3) true ≡ some p
      → P s
      → P (store_at s p d)

module _ (P : State → Type 0) where
  if-Kept : (c : Bool) (a b : Outcome) → Kept P a → Kept P b → Kept P (if c then a else b)
  if-Kept true a b p q = p
  if-Kept false a b p q = q

  trap-Kept :
      (o : Option (State → State × Bool)) (missing : Bool) (s : State)
      → TrapKeeps P o
      → P s
      → Kept P (trap o missing s)
  unfolding trap
  trap-Kept none true s k p = out s p
  trap-Kept none false s k p = done s p
  trap-Kept (some f) missing s k p =
      if-Kept (f s).1 _ _ (out (f s).0 (k f refl s p)) (done (f s).0 (k f refl s p))

module _ (P : State → Type 0) (h : Handlers) (r : Respects P h) (st : Stable P) (s : State) (pc : ℕ)
    (d : Decoded) (p : P s) where
  illegal-Kept : Kept P (exec_illegal h s pc d)
  unfolding exec_illegal
  illegal-Kept = trap-Kept P h.illegal true _ r.illegal (st.note s pc d.inst p)

  ebreak-Kept : Kept P (exec_ebreak h s pc d)
  unfolding exec_ebreak
  ebreak-Kept = trap-Kept P h.ebreak true _ r.ebreak (st.note s pc d.inst p)

  ecall-Kept : Kept P (exec_ecall h s pc d)
  unfolding exec_ecall
  ecall-Kept = trap-Kept P h.ecall false _ r.ecall (st.note s pc d.inst p)

  system-Kept : Kept P (exec_system h s pc d)
  unfolding exec_system
  system-Kept = if-Kept P _ _ _ ecall-Kept (if-Kept P _ _ _ ebreak-Kept illegal-Kept)

  miss_load-keeps : (addr : ℕ) → P (miss_load h s addr).0 × ((miss_load h s addr).1 < 2 ^ 32)
  unfolding miss_load
  miss_load-keeps addr = called h.callback refl
    where
      called :
          (o : Option MemFn)
          → h.callback ≡ o
          → P (miss_load h s addr).0 × ((miss_load h s addr).1 < 2 ^ 32)
      called none e = rw (miss_load, e) (p, omega arith)
      called (some f) e = rw (miss_load, e) (r.callback f e s mem_load addr 0 p)

  load-Kept : d.rd < 32 → Kept P (exec_load h s pc d)
  unfolding exec_load
  load-Kept rd =
      if-Kept P _ _ _ illegal-Kept (if-Kept P _ _ _ (done s p) (found (mem_xlate s addr n false)))
    where
      addr : ℕ
      addr = add32 d.a d.imm

      n : ℕ
      n = 1 <<< (d.f3 % 2 ^ 2)

      missed : P (miss_load h s addr).0 × ((miss_load h s addr).1 < 2 ^ 32)
      missed = miss_load-keeps addr

      found :
          (o : Option ℕ)
          → Kept P (elim o as (λ _. Outcome) [
            | some q ↦ Outcome.done (wr s d.rd (load_value s.host q d.f3))
            | none ↦
                let (s', v) = miss_load h s addr in Outcome.done (wr s' d.rd (miss_value d.f3 n v))
          ])
      found (some q) = done _ (st.loads s d.rd q d.f3 rd p)
      found none = done _ (st.write _ d.rd _ rd (miss_value-lt d.f3 n _ missed.1) missed.0)

  store-Kept : Kept P (exec_store h s pc d)
  unfolding exec_store
  store-Kept = elim (Bool-cases (ltb 2 d.f3)) [
    | inl wide ↦ rw (exec_store, wide) illegal-Kept
    | inr narrow ↦
        rw (exec_store, narrow)
          (found (ltb-false→le 2 d.f3 narrow) (mem_xlate s addr (1 <<< d.f3) true) refl (h.callback)
            refl)
  ]
    where
      addr : ℕ
      addr = add32 d.a d.imm

      found :
          d.f3 ≤ 2
          → (o : Option ℕ) → mem_xlate s addr (1 <<< d.f3) true ≡ o
          → (c : Option MemFn) → h.callback ≡ c
          → Kept P (elim o as (λ _. Outcome) [
            | some q ↦ Outcome.done (store_at s q d)
            | none ↦ elim c as (λ _. Outcome) [
              | none ↦ Outcome.done s
              | some f ↦ Outcome.done (f s mem_store addr d.b).0
            ]
          ])
      found small (some q) e c k = done _ (st.stores s addr q d (omega arith) e p)
      found small none e none k = done s p
      found small none e (some f) k = done _ (r.callback f k s mem_store addr d.b p).0

  branch-Kept : Kept P (exec_branch h s pc d)
  unfolding exec_branch
  branch-Kept = taken (branch_taken d.f3 d.a d.b)
    where
      taken :
          (o : Option Bool)
          → Kept P (elim o as (λ _. Outcome) [
            | none ↦ exec_illegal h s pc d
            | some take ↦ if take then Outcome.jump (add32 pc d.imm) s else Outcome.done s
          ])
      taken none = illegal-Kept
      taken (some take) = if-Kept P take _ _ (jump _ s (omega arith) p) (done s p)

  -- Every action body keeps `P`.
  pub exec-Kept : {width : ℕ} → pc < 2 ^ 32 → IsSane width d → Kept P (exec h s pc d)
  unfolding exec exec_jal exec_jalr
  exec-Kept {width} pc_in sane = body d.action
    where
      link : P (wr s d.rd (add32 pc d.width))
      link = st.write s d.rd _ sane.rd_in (omega arith) p

      body :
          (act : Action)
          → Kept P (elim act as (λ _. Outcome) [
            | alu ↦ Outcome.done (wr s d.rd (alu_result d.f3 d.f7 d.a d.b))
            | mul ↦ Outcome.done (wr s d.rd (mul_result d.f3 d.a d.b))
            | load ↦ exec_load h s pc d
            | store ↦ exec_store h s pc d
            | branch ↦ exec_branch h s pc d
            | jal ↦ exec_jal h s pc d
            | jalr ↦ exec_jalr h s pc d
            | lui ↦ Outcome.done (wr s d.rd d.imm)
            | auipc ↦ Outcome.done (wr s d.rd (add32 pc d.imm))
            | ebreak ↦ exec_ebreak h s pc d
            | system ↦ exec_system h s pc d
            | illegal ↦ exec_illegal h s pc d
            | Decode.done ↦ Outcome.done s
          ])
      body alu =
          done _
            (st.write s d.rd _ sane.rd_in (alu_result-lt d.a d.b sane.a_in sane.b_in d.f3 d.f7) p)
      body mul =
          done _ (st.write s d.rd _ sane.rd_in (mul_result-lt d.a d.b sane.a_in sane.b_in d.f3) p)
      body load = load-Kept sane.rd_in
      body store = store-Kept
      body branch = branch-Kept
      body jal = jump _ _ (omega arith) link
      body jalr = jump _ _ (omega arith) link
      body lui = done _ (st.write s d.rd _ sane.rd_in sane.imm_in p)
      body auipc = done _ (st.write s d.rd _ sane.rd_in (omega arith) p)
      body ebreak = ebreak-Kept
      body system = system-Kept
      body illegal = illegal-Kept
      body Decode.done = done s p
