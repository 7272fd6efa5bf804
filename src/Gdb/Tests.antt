-- ===== src/Gdb/Tests.antt =====
-- A debugger's session with a small machine, and the theorems of the stub at concrete inputs.
mod Wire
use purv.Base.{
  ℕ, zero, suc, ◌+◌, ◌-◌, ◌≤◌, ◌<◌, ◌≡◌, ◌⊎◌, ◌↔◌, refl, true, false, Option, none, some, List, [],
  ◌∷◌, min, ltb, ◌==◌, if◌then◌else◌, arith,
}
use purv.Engine.{State, Handlers, riscv_half, wr}
use purv.Engine.Memory.{mem_xlate, region_xlate, read16, read32, write32}
use purv.Engine.Decode.Fields.{sext, imm_i, imm_s}
use purv.Engine.Decode.Wide.{decode32, decode_opimm}
use purv.Engine.Exec.Arith.{alu_result}
use purv.Engine.Exec.Bodies.{exec, exec_store, store_at}
use purv.Engine.Loop.{half_at, fetch, window_size, run_window, go_on, run, loop}
use purv.Gdb.Packet.{Conn}
use purv.Gdb.Breakpoints.{bp_hit}
use purv.Gdb.History.{Overwrite, History, step_record, record_stores, begin_frame}
use purv.Gdb.History.Undo.{no_store, store}
use purv.Gdb.History.Ring.{frames, newest, IsRing, filled, frames-begin_frame}
use purv.Gdb.History.Rewind.{
  Session, here, then_step, Alike, IsRecorded, backward, backward-Session,
}
use purv.Gdb.Control.{stop_trap, Target, after_step, gdb_run, gdb_reverse}
use purv.Gdb.Control.Runs.{Runs, gdb_run-Runs}
use purv.Gdb.Control.Stops.{rewound, PassesOver, gdb_reverse_stops}

-- addi x5, x0, 77; sw x5, -4(sp)
abbrev code_bytes : List ℕ
code_bytes = 0x93 ∷ 0x02 ∷ 0xd0 ∷ 0x04 ∷ 0x23 ∷ 0x2e ∷ 0x51 ∷ 0xfe ∷ []

abbrev byte_of : List ℕ → ℕ → ℕ
byte_of [] i = 0
byte_of (b ∷ bs) zero = b
byte_of (b ∷ bs) (suc i) = byte_of bs i

abbrev pub host : ℕ → ℕ
host p = if ltb p 4096 then 0 else byte_of code_bytes (p - 4096)

abbrev pub machine : State
machine = record {
  pc = 0;
  inst = 0;
  x = λ i. if i == 2 then riscv_half else 0;
  readonly = record { ptr = 4096; len = 8; base = 0 };
  writable = record { ptr = 8192; len = 64; base = riscv_half - 32 };
  host = host;
}

abbrev pub hooks : Handlers
hooks = record { ecall = none; ebreak = none; illegal = none; callback = none }

-- The host's store hook: the second instruction overwrites four zeros.
abbrev pub reported : State → List Overwrite
reported s =
    if s.pc == 4 then record { addr = riscv_half - 4; old = 0 ∷ 0 ∷ 0 ∷ 0 ∷ [] } ∷ [] else []

abbrev pub fresh : History
fresh = record {
  allocated = true;
  ring = λ i. record { reg = λ j. 0; writes = []; overflow = false };
  head = 0;
  count = 0;
  cur = none;
}

abbrev stepped : Option (History × State) → History × State
stepped none = (fresh, machine)
stepped (some p) = p

abbrev after_addi : History × State
after_addi = stepped (step_record hooks reported fresh machine)

abbrev after_sw : History × State
after_sw = stepped (step_record hooks reported after_addi.0 after_addi.1)

sw_stores : after_sw.1.host (8192 + 28) ≡ 77
unfolding step_record loop run window_size run_window go_on fetch half_at decode32 decode_opimm
    imm_i imm_s sext exec exec_store store_at alu_result mem_xlate region_xlate read16 read32
    write32 wr
sw_stores = refl

addi-IsRecorded : IsRecorded (reported machine) machine after_addi.1
unfolding step_record loop run window_size run_window go_on fetch half_at decode32 decode_opimm
    imm_i imm_s sext exec exec_store store_at alu_result mem_xlate region_xlate read16 read32
    write32 wr
addi-IsRecorded = record { fixed = refl; logged = no_store; few = omega arith; short = tt }

sw-IsRecorded : IsRecorded (reported after_addi.1) after_addi.1 after_sw.1
unfolding step_record loop run window_size run_window go_on fetch half_at decode32 decode_opimm
    imm_i imm_s sext exec exec_store store_at alu_result mem_xlate region_xlate read16 read32
    write32 wr
sw-IsRecorded = record {
  fixed = refl;
  logged =
      store (riscv_half - 4) (0 ∷ 0 ∷ 0 ∷ 0 ∷ []) (77 ∷ 0 ∷ 0 ∷ 0 ∷ []) (omega arith) refl refl
        no_store;
  few = omega arith;
  short = (omega arith, tt);
}

two_steps : Session hooks reported fresh machine 2 after_sw.0 after_sw.1
unfolding step_record loop run window_size run_window go_on fetch half_at decode32 decode_opimm
    imm_i imm_s sext exec exec_store store_at alu_result mem_xlate region_xlate read16 read32
    write32 wr
two_steps = then_step (then_step here refl addi-IsRecorded) refl sw-IsRecorded

backward-Session_example : Alike machine (backward 2 after_sw.0 after_sw.1)
backward-Session_example =
    backward-Session hooks reported two_steps (omega arith) refl (omega arith) (omega arith)
      (omega arith)

after_sw_count : after_sw.0.count < 3
unfolding step_record loop run window_size run_window go_on fetch half_at decode32 decode_opimm
    imm_i imm_s sext exec exec_store store_at alu_result mem_xlate region_xlate read16 read32
    write32 wr
after_sw_count = omega arith

-- A connection on which the debugger sends the given characters.
abbrev pub conn_with : List ℕ → Conn
conn_with s = record { incoming = s; outgoing = []; up = 9; noack = false }

frames-begin_frame_example :
    let hist' = record_stores (begin_frame fresh machine) [] in
    (frames hist' ≡ filled machine [] ∷ newest (min 0 65535) (0 + 0) fresh.ring) × IsRing hist'
frames-begin_frame_example = frames-begin_frame fresh machine [] (omega arith)

gdb_reverse_stops_example :
    (k : ℕ) × (k ≤ after_sw.0.count)
    × (gdb_reverse 3 true (0 ∷ []) after_sw.0 after_sw.1
        ≡ some (rewound (suc k) after_sw.0 after_sw.1))
    × ((rewound (suc k) after_sw.0 after_sw.1).0.count ≡ after_sw.0.count - suc k)
    × PassesOver k true (0 ∷ []) after_sw.0 after_sw.1
    × (◌⊎◌ (true ≡ false) (
        ((rewound k after_sw.0 after_sw.1).0.count ≡ 0)
        ⊎ (bp_hit (0 ∷ []) (rewound (suc k) after_sw.0 after_sw.1).1.pc ≡ true)))
gdb_reverse_stops_example = gdb_reverse_stops 3 true (0 ∷ []) after_sw.0 after_sw.1 after_sw_count

-- The beginning of a run, and the run up to a breakpoint at 4.
abbrev pub begun : Target
begun = record { history = fresh; machine = machine; conn = conn_with [] }

abbrev at_four : Target
at_four = record { history = after_addi.0; machine = after_addi.1; conn = conn_with [] }

to_four : gdb_run hooks reported 0 (λ i. false) 9 0 true (4 ∷ []) begun ≡ some (stop_trap, at_four)
unfolding gdb_run after_step step_record loop run window_size run_window go_on fetch half_at
    decode32 decode_opimm imm_i imm_s sext exec exec_store store_at alu_result mem_xlate
    region_xlate read16 read32 write32 wr
to_four = refl

gdb_run-Runs_example :
    (gdb_run hooks reported 0 (λ i. false) 9 0 true (4 ∷ []) begun ≡ some (stop_trap, at_four)) ↔ (
      (n : ℕ) × (n ≤ 9)
      × Runs hooks reported 0 (λ i. false) true (4 ∷ []) 0 begun n stop_trap at_four)
gdb_run-Runs_example =
    gdb_run-Runs hooks reported 0 (λ i. false) true (4 ∷ []) 9 0 begun at_four stop_trap
