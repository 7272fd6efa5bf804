-- ===== src/Purva.antt =====
-- emu/purva: the ahead-of-time engine. A tool rewrites RV32IM code into packed op words, and an
-- evaluator runs them on the state of emu/purv.h.
pub mod Op
pub mod Packed
pub mod Transcode
pub mod Eval
pub mod Replay
mod Tests
