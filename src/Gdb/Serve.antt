-- ===== src/Gdb/Serve.antt =====
-- emu/gdbstub.c, `RiscvEmulatorGdbServe`: one packet after the other until the debugger leaves.
pub mod Packets
pub mod Effects
pub mod Answers
use purv.Base.{ℕ, zero, suc, Bool, false, Option, none, some, List, [], ◌∷◌, codes}
use purv.Engine.{State, Handlers}
use purv.Gdb.Packet.{Conn, gdb_buf, gdb_recv}
use purv.Gdb.History.{History, Overwrite}
use purv.Gdb.Control.{Target}
use purv.Gdb.Serve.Packets.{Stub, Served, goes_on, ends, runs_on, astray, reply, serve_packet}

-- `gdb_recv`, and an empty packet's empty reply.
module _ (h : Handlers) (stores : State → List Overwrite) (halted exitcode : ℕ) (ready : ℕ → Bool)
    (fuel : ℕ) where
  unfoldable pub serve_next : Stub → Served
  unfolding serve_packet reply
  serve_next st =
      let (c, packet) = gdb_recv st.target.conn gdb_buf in
      let st' : Stub = record st { target = record (st.target) { conn = c } } in
      elim packet [
        | none ↦ ends st'
        | some [] ↦ goes_on (reply st' [])
        | some (b ∷ buf) ↦ serve_packet h stores halted exitcode ready fuel b buf st'
      ]

  -- The loop, for a number of packets.
  unfoldable pub serve_loop : ℕ → Stub → Served
  unfolding serve_next
  serve_loop zero st = goes_on st
  serve_loop (suc n) st = elim (serve_next st) [
    | goes_on st' ↦ serve_loop n st'
    | ends st' ↦ ends st'
    | runs_on ↦ runs_on
    | astray ↦ astray
  ]

-- The session begins with no breakpoint and no history, in ack mode. `allocated` is whether there is
-- memory for the ring.
unfoldable pub serve_begin : Conn → State → (ring : History) → Bool → Stub
serve_begin c s ring allocated = record {
  target = record {
    history = record ring { allocated = allocated; head = 0; count = 0; cur = none };
    machine = s;
    conn = record c { noack = false };
  };
  breakpoints = [];
  exited = false;
  wmsg = codes "S05";
}
