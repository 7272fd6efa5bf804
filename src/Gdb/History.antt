-- ===== src/Gdb/History.antt =====
-- emu/gdbstub.c, the history for reverse execution: a ring of frames, each with the registers before
-- a step and the bytes that the step's stores overwrote.
pub mod Undo
pub mod Ring
pub mod Rewind
use purv.Base.{
  ℕ, zero, suc, ◌+◌, ◌-◌, ◌%◌, ◌^◌, Bool, true, false, not, ◌&&◌, ◌||◌, Option, none, some, List,
  [], ◌∷◌, ◌++◌, length, ltb, leb, ◌==◌, if◌then◌else◌,
}
use purv.Engine.{State, Handlers}
use purv.Engine.Loop.{loop}
use purv.Gdb.Target.{mem_write}

-- `HIST_FRAMES` and `FRAME_WRITES`.
abbrev pub hist_frames : ℕ
hist_frames = 2 ^ 16

abbrev pub frame_writes : ℕ
frame_writes = 4

-- An entry of `w`; `len` is the length of `old`.
pub record Overwrite : Type 0 where
  pub addr : ℕ
  pub old : List ℕ

-- `Frame`; `nw` is the length of `writes`.
pub record Frame : Type 0 where
  pub reg : ℕ → ℕ
  pub writes : List Overwrite
  pub overflow : Bool

-- `g_hist`, which is NULL if `malloc` failed, `g_head`, `g_count`, and `g_cur` as an index.
pub record History : Type 0 where
  pub allocated : Bool
  pub ring : ℕ → Frame
  pub head : ℕ
  pub count : ℕ
  pub cur : Option ℕ

abbrev pub set_frame : (ℕ → Frame) → ℕ → Frame → ℕ → Frame
set_frame ring i f j = if j == i then f else ring j

-- A frame with one more write, if there is room for it.
unfoldable pub add_write : Frame → Overwrite → Frame
add_write f w =
    if leb frame_writes (length f.writes) || ltb 8 (length w.old)
    then record f { overflow = true }
    else record f { writes = f.writes ++ w ∷ [] }

-- `RiscvEmulatorGdbRecordStore`
unfoldable pub record_store : History → Overwrite → History
unfolding add_write
record_store hist w = elim (hist.cur) [
  | none ↦ hist
  | some i ↦ record hist { ring = set_frame hist.ring i (add_write (hist.ring i) w) }
]

unfoldable pub record_stores : History → List Overwrite → History
unfolding record_store
record_stores hist [] = hist
record_stores hist (w ∷ ws) = record_stores (record_store hist w) ws

-- The frame as a step begins.
unfoldable pub new_frame : State → Frame
new_frame s = record { reg = λ i. if ltb i 32 then s.x i else s.pc; writes = []; overflow = false }

-- `step_record` up to the step: a frame is taken, the oldest one if the ring is full.
unfoldable pub begin_frame : History → State → History
unfolding new_frame
begin_frame hist s =
    let slot = (hist.head + hist.count) % hist_frames in
    let full = hist.count == hist_frames in
    record hist {
      ring = set_frame hist.ring slot (new_frame s);
      head = if full then (hist.head + 1) % hist_frames else hist.head;
      count = if full then hist.count else hist.count + 1;
      cur = some slot;
    }

-- `step_one`
unfoldable pub step_one : Handlers → State → Option State
step_one h s = elim (loop h s 1) [ none ↦ none | some (s', k) ↦ some s' ]

-- `stores` is what the host's store hook reports of the step that begins in a state.
module _ (h : Handlers) (stores : State → List Overwrite) where
  unfoldable pub step_record : History → State → Option (History × State)
  unfolding begin_frame record_stores step_one
  step_record hist s =
      let taken = record_stores (begin_frame hist s) (stores s) in
      let kept : History = if hist.allocated then record taken { cur = none } else hist in
      elim (step_one h s) [ none ↦ none | some s' ↦ some (kept, s') ]

-- The memory writes undone, the last one first.
unfoldable pub undo_writes : List Overwrite → State → State
unfolding mem_write
undo_writes [] s = s
undo_writes (w ∷ ws) s = mem_write (undo_writes ws s) w.addr w.old

-- The registers put back; x0 is left out.
unfoldable pub restore_regs : Frame → State → State
restore_regs f s = record s {
  x = λ i. if ltb 0 i && ltb i 32 then f.reg i else s.x i;
  pc = f.reg 32;
}

-- The results 0, -1 and 1 of `step_reverse`.
pub data Reversal : Type 0 where
  at_start lost undone : Reversal

unfoldable pub step_reverse : History → State → History × State × Reversal
unfolding undo_writes restore_regs
step_reverse hist s =
    let f = hist.ring ((hist.head + hist.count - 1) % hist_frames) in
    let shorter : History = record hist { count = hist.count - 1 } in
    if hist.count == 0
    then (hist, s, at_start)
    else if f.overflow
    then (shorter, s, lost)
    else (shorter, restore_regs f (undo_writes f.writes s), undone)
