-- ===== src/Gdb.antt =====
-- emu/gdbstub.c: the GDB remote protocol on top of the engine's public state. A character is its
-- code, a C string the list of its characters without the final NUL.
pub mod Hex
pub mod Packet
pub mod Target
pub mod Breakpoints
pub mod History
pub mod Control
pub mod Query
pub mod Serve
mod Tests
