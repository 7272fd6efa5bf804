-- ===== src/Gdb/Control.antt =====
-- emu/gdbstub.c, execution control: run forward and back to a breakpoint.
pub mod Runs
pub mod Stops
use purv.Base.{
  ℕ, zero, suc, ◌+◌, ◌%◌, ◌^◌, Bool, true, false, not, ◌&&◌, ◌||◌, Option, none, some, List, [],
  ◌∷◌, ◌==◌, if◌then◌else◌, u32,
}
use purv.Engine.{State, Handlers}
use purv.Engine.Memory.{read32}
use purv.Gdb.Packet.{Conn}
use purv.Gdb.Breakpoints.{bp_hit}
use purv.Gdb.History.{
  History, Overwrite, step_record, step_reverse, Reversal, at_start, lost, undone,
}

-- `STOP_TRAP`, `STOP_INT` and `STOP_EXIT`.
pub data Stop : Type 0 where
  stop_trap stop_int stop_exit : Stop

-- What a run changes.
pub record Target : Type 0 where
  pub history : History
  pub machine : State
  pub conn : Conn

-- `gdb_read_byte`; `none` is -1.
unfoldable pub gdb_read_byte : Conn → Conn × Option ℕ
gdb_read_byte c = elim (c.incoming) [ [] ↦ (c, none) | b ∷ s ↦ (record c { incoming = s }, some b) ]

-- Whether a character is the interrupt, 0x03.
abbrev pub is_interrupt : Option ℕ → Bool
is_interrupt none = false
is_interrupt (some b) = b == 3

-- `halted` is the host address of the flag that the host sets when the program ends; `ready` is
-- whether `gdb_pollin` finds a character, at each count of the run.
module _ (h : Handlers) (stores : State → List Overwrite) (halted : ℕ) (ready : ℕ → Bool) where
  -- The tests after a step, with the connection after them; `none` is to go on.
  unfoldable pub after_step : Bool → List ℕ → ℕ → State → Conn → Option Stop × Conn
  unfolding gdb_read_byte read32 bp_hit
  after_step cont bs tick s c =
      let (c', byte) = gdb_read_byte c in
      if not (read32 s.host halted == 0)
      then (some stop_exit, c)
      else if not cont || bp_hit bs s.pc
      then (some stop_trap, c)
      else if tick % 2 ^ 10 == 0 && ready tick
      then ((if is_interrupt byte then some stop_int else none), c')
      else (none, c)

  -- `gdb_run` on fuel; `none` is that the fuel ran out.
  unfoldable pub gdb_run : ℕ → ℕ → Bool → List ℕ → Target → Option (Stop × Target)
  gdb_run zero tick cont bs t = none
  gdb_run (suc fuel) tick cont bs t = elim (step_record h stores t.history t.machine) [
    | none ↦ none
    | some (hist, s) ↦
        let tick' = u32 (tick + 1) in
        let (stop, c) = after_step cont bs tick' s t.conn in
        let t' : Target = record { history = hist; machine = s; conn = c } in
        elim stop [ none ↦ gdb_run fuel tick' cont bs t' | some why ↦ some (why, t') ]
  ]

-- `step_reverse(st) == 0`
abbrev pub is_at_start : Reversal → Bool
is_at_start at_start = true
is_at_start lost = false
is_at_start undone = false

-- `gdb_reverse` on fuel.
unfoldable pub gdb_reverse : ℕ → Bool → List ℕ → History → State → Option (History × State)
gdb_reverse zero cont bs hist s = none
gdb_reverse (suc fuel) cont bs hist s =
    let (hist', s', r) = step_reverse hist s in
    let again = gdb_reverse fuel cont bs hist' s' in
    if is_at_start r || (not cont || bp_hit bs s'.pc) then some (hist', s') else again
