-- ===== src/Purva/Replay.antt =====
-- emu/purva against emu/purv.c: the evaluator on a packed op word, and the interpreter on the
-- instruction that the word was made from.
pub mod Words
pub mod Values
pub mod Fields
pub mod Regions
pub mod Parts
pub mod Registers
pub mod Accesses
pub mod Agree
pub mod Fused
pub mod Pairs
pub mod Doubles
pub mod Merged
pub mod Composite
pub mod Branches
pub mod LoadBranch
pub mod Conditional
