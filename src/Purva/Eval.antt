-- ===== src/Purva/Eval.antt =====
-- emu/purva/purva.c: the evaluator. The cursor is an op index; `Memory` and `Frames` are what the
-- handlers are built on, `Handlers` the op handlers, and here is the dispatch between them.
pub mod Memory
pub mod Frames
pub mod Ops
use purv.Base.{
  ℕ, zero, suc, ◌+◌, ◌*◌, ◌/◌, ◌%◌, ◌^◌, Bool, true, false, ◌||◌, Option, none, some, leb, ◌==◌,
  if◌then◌else◌, add32, u32, u64,
}
use purv.Engine.{Region, State, MemOp, Handlers, riscv_half, update}
use purv.Engine.Exec.{Outcome, done, jump, out}
use purv.Engine.Exec.Bodies.{trap}
use purv.Purva.Op
use purv.Purva.Packed.{tc_op}
use purv.Purva.Transcode.Passes.{Transcoded}
use purv.Purva.Eval.Ops.{Effect, fall, reloc, leap, trapped, handler}

-- Where the loop is after a handler: at an op with a count and a state, or out of the loop.
pub data Cursor : Type 0 where
  go : (idx k : ℕ) (s : State) → Cursor
  stop : (k : ℕ) (s : State) → Cursor

-- `h_trap`, after the handler of the host.
unfoldable pub trap_exit : ℕ → ℕ → ℕ → Outcome → Cursor
trap_exit max idx k (out s) = stop k s
trap_exit max idx k (jump pc s) = stop k s
trap_exit max idx k (done s) =
    if leb max k then stop k (record s { pc = add32 (u32 (idx * 4)) 4 }) else go (idx + 1) k s

-- `h_trap`: the op word stands where the engine has the instruction.
unfoldable pub h_trap : Handlers → ℕ → ℕ → ℕ → State → ℕ → Cursor
unfolding trap_exit trap
h_trap h max idx k s w =
    let s' = record s { pc = u32 (idx * 4); inst = w } in
    trap_exit max idx (u64 (k + 1)) (
      if tc_op w == Op.ecall
      then trap h.ecall false s'
      else if tc_op w == Op.ebreak
      then trap h.ebreak true s'
      else trap h.illegal true s')

-- `NEXT`, `RELOC` and the tails of the indirect jumps.
unfoldable pub advance : Transcoded → Handlers → ℕ → ℕ → ℕ → ℕ → Effect → Cursor
unfolding h_trap
advance prog h max idx k w (fall n c s) = go (idx + n) (u64 (k + c)) s
advance prog h max idx k w (reloc i c s) =
    if leb max (u64 (k + c))
    then stop (u64 (k + c)) (record s { pc = u32 (i * 4) })
    else go i (u64 (k + c)) s
advance prog h max idx k w (leap t c s) =
    if leb prog.code_len t || leb max (u64 (k + c))
    then stop (u64 (k + c)) (record s { pc = t })
    else go (t / 4) (u64 (k + c)) s
advance prog h max idx k w (trapped s) = h_trap h max idx k s w

module _ (prog : Transcoded) (h : Handlers) (callback : State → MemOp → ℕ → ℕ → State × ℕ)
    (max : ℕ) where
  -- One op.
  unfoldable pub dispatch : ℕ → ℕ → State → Cursor
  unfolding advance handler
  dispatch idx k s =
      let w = prog.ops idx in
      advance prog h max idx k w (handler callback s idx w (prog.ops (idx + 1)))

  -- The threaded dispatch, on fuel: the count and the state that are left.
  unfoldable pub run : ℕ → Cursor → Option (ℕ × State)
  unfolding dispatch
  run fuel (stop k s) = some (k, s)
  run zero (go idx k s) = none
  run (suc fuel) (go idx k s) = run fuel (dispatch idx k s)

  -- `RiscvEmulatorLoop` with a program installed.
  unfoldable pub loop : ℕ → State → Option (ℕ × State)
  unfolding run
  loop fuel s = if leb prog.code_len s.pc then some (0, s) else run fuel (go (s.pc / 4) 0 s)

-- `default_callback`
abbrev pub default_callback : State → MemOp → ℕ → ℕ → State × ℕ
default_callback s op addr value = (s, 0)

-- `RiscvEmulatorInit`; `host` is the memory that the regions point into.
unfoldable pub init : Region → Region → (ℕ → ℕ) → State
init readonly writable host = record {
  pc = 0;
  inst = 0;
  x = update (λ i. 0) 2 riscv_half;
  readonly = readonly;
  writable = writable;
  host = host;
}
