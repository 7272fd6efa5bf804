-- ===== src/Lib.antt =====
-- A model of purv, a user-level RV32IMC emulator in C (emu/).
--
-- The engine (emu/purv.c, emu/purv.h) runs instructions out of a read-only region of host memory, keeps
-- registers and pc in one state, and calls the host's handlers for an ecall, an ebreak, an illegal
-- instruction and a data access that misses both memory regions. The gdb stub (emu/gdbstub.c) serves the
-- GDB remote protocol on a connection: it reads and sets the engine's registers and memory, steps the
-- engine by RiscvEmulatorLoop with a count of one, stops at breakpoints, and undoes steps from a ring of
-- saved frames. The bulk memory instruction (emu/purvmemop.h), which other engines execute and which a host of
-- this one serves from the illegal-instruction handler, does the work of one libc call on the regions.
-- purva runs programs ahead of time: the transcoder (emu/purva/transcode.c) turns RV32IM code into packed
-- op words, fusing runs of instructions that no jump lands in, and the evaluator (emu/purva/purva.c) runs
-- the op words on the same state as the engine.
--
--   Base               numbers and lists: C's unsigned and signed integers, bit patterns
--   Engine             purv.h: RiscvEmulatorState and its regions, the hooks, `wr`
--   Engine.Memory      purv.c: mem_xlate and the byte accesses
--   Engine.Decode      purv.c: the two switches of RiscvEmulatorLoop that fill in the locals and go to an
--                      action body; Fields has the immediates, Wide the 32-bit encodings, Compressed the
--                      16-bit ones, Encode the formats of the ISA manual
--   Engine.Exec        purv.c: the shared action bodies (alu, mul, load, store, branch, ...)
--   Engine.Loop        purv.c: the outer and the inner loop of RiscvEmulatorLoop; Reference is the loop
--                      that validates pc before every instruction
--   Engine.Init        purv.c: RiscvEmulatorInit
--   Gdb.Hex            gdbstub.c: hexval, parse_hex, reg_from_hex, reg_to_hex
--   Gdb.Packet         gdbstub.c: gdb_recv and gdb_send over a connection
--   Gdb.Target         gdbstub.c: reg_get, reg_set, byte_at, mem_read, mem_write
--   Gdb.Breakpoints    gdbstub.c: bp_hit, bp_add, bp_del
--   Gdb.History        gdbstub.c: RiscvEmulatorGdbRecordStore, step_record, step_reverse
--   Gdb.Control        gdbstub.c: gdb_run, gdb_reverse
--   Gdb.Query          gdbstub.c: target_xml, handle_q
--   Gdb.Serve          gdbstub.c: RiscvEmulatorGdbServe; Packets has the cases of its switch
--   Bulk               purvmemop.h: pmo_span, pmo_wspan and purv_memop, one function for each subtype
--   Purva.Op           transcode.h: the op vocabulary; Packed has the field accessors TC_*
--   Purva.Transcode    transcode.c: decode and op_words
--     .Targets         the set of addresses that must keep an op: targets_mark, collect_targets
--     .Fuse            try_fuse_prologue, try_fuse_epilogue, try_fuse_la; Pairs has try_fuse_pair
--     .Emit            target_word and emit
--     .Passes          step, build_map, transcode_map_ex, transcode_ex
--   Purva.Eval         purva.c: the dispatch of RiscvEmulatorLoop, and RiscvEmulatorInit
--     .Memory          mem_w, mem_r, ld_le, st_le and the macros LOAD and STORE
--     .Frames          the fused prologue and epilogue, with prologue_slow and epilogue_slow
--     .Ops             the op handlers, each with the way that it ends (NEXT, RELOC, a jump, a trap)
--   Purva.Replay       the transcoder and the evaluator together against the engine
--
-- A uint32_t is a native number below 2 ^ 32, with the wrap-around written out; an int32_t operation
-- goes through the number that the pattern stands for (Base.Int). Host memory is one function from
-- addresses to bytes, so that regions may overlap, and a pointer is a host address with 0 for NULL. The
-- function pointers of the state stand in a record of their own, `Handlers`: the code never assigns
-- them, and a handler of the model cannot. A `goto` to an action body is the `action` of the decoded
-- instruction, and a body's end is an `Outcome`: `done`, a jump out of the window, or the stop of the
-- run. The count `k` is kept as the budget `max - k`.
--
-- Fuel: the outer loop of RiscvEmulatorLoop recurs on fuel, one more than its budget, which is enough
-- since each window that is entered runs at least one instruction. A fetch outside the code window is a
-- `fault` of the model. gdb_run has fuel for as long as the guest may run without a stop, since the guest
-- need not stop; gdb_reverse has one more than there are frames.
--
-- The debugger is the list of the characters that it still sends, with what was sent to it; how many
-- writes go through before the connection breaks is a number in the connection. When poll finds a
-- character is an argument of gdb_run, and so is what the host's store hook reports of a step: nothing in
-- the repository calls that hook. `halted` and `exitcode` are host addresses. No region
-- that is hit has its storage at NULL. A packet is the list of its
-- characters; the end of the list is the NUL, and code that reads on behind it ends `astray`.
--
-- In purva the code is a function from addresses to bytes, and an array is a function from indexes.
-- What malloc returns and what the local `d` of a pass holds before it is set are arguments: a fusion sets
-- only some fields of it. The passes of the transcoder have a round for every four bytes begun
-- and one more, which is enough since every unit consumes at least four bytes. The loops of
-- prologue_slow and epilogue_slow have a round for each of the 13 mask bits, which is enough since each
-- round clears one. The evaluator need not stop, and has fuel for its ops. Its count `k` is kept as it
-- is. A fused op calls the host's memory callback before the register that its first half writes has its
-- value, so the results on pairs take a callback that is a device: one that neither reads nor writes
-- registers.
--
-- Not modelled: the installation of a program in purva's global (the program is an argument), the
-- counters of its profiling build, the other engines (emu/purvs, emu/purg.c), the hosts and tools, what
-- C leaves undefined beside the fetch (a NULL handler called, a left shift of a
-- negative number, which the supported compilers define), and time.
pub mod Base
pub mod Engine
pub mod Gdb
pub mod Bulk
pub mod Purva
