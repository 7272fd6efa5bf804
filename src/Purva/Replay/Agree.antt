-- ===== src/Purva/Replay/Agree.antt =====
-- Every instruction that is neither a jump nor a trap.
use purv.Base.{
  ℕ, ◌/◌, ◌^◌, ◌<◌, ◌≡◌, ◌⊎◌, inl, inr, Bool, true, false, not, ◌||◌, some, leb, ◌==◌, field, arith,
}
use purv.Engine.{State, MemOp, Handlers, wr}
use purv.Engine.Decode.Wide.{decode32, decode_miscmem, wide_fields}
use purv.Engine.Decode.Words.{decode32-auipc}
use purv.Engine.Exec.Bodies.{exec}
use purv.Purva.Op
use purv.Purva.Transcode.{
  word_fields, decode_word, decode_switch, drop_x0, load_op, store_op, branch_op, miscmem_op,
  system_op,
}
use purv.Purva.Transcode.Opcodes.{
  decode_switch-auipc, decode_switch-miscmem, decode_switch-load, decode_switch-store,
}
use purv.Purva.Replay.Parts.{as_effect, is_standard, replay}
use purv.Purva.Replay.Registers.{plain-op, plain-opimm, plain-lui}
use purv.Purva.Replay.Accesses.{plain-load, plain-store}

-- The ops of the register instructions, the loads and the stores.
abbrev pub is_plain : ℕ → Bool
is_plain op = leb op Op.sw || (op == Op.lui || op == Op.nop)

drop_x0-illegal :
    (w off : ℕ) → (decode_switch w off).op ≡ Op.illegal → (decode_word w off).op ≡ Op.illegal
unfolding decode_word drop_x0
drop_x0-illegal w off e = ground arith

legal_load :
    (w off : ℕ)
    → field w 0 7 ≡ 0x03
    → is_plain (decode_word w off).op ≡ true
    → (load_op (field w 12 3) == Op.illegal) ≡ false
legal_load w off e k = ground (arith, drop_x0-illegal w off, decode_switch-load w off e)

legal_store :
    (w off : ℕ)
    → field w 0 7 ≡ 0x23
    → is_plain (decode_word w off).op ≡ true
    → (store_op (field w 12 3) == Op.illegal) ≡ false
legal_store w off e k = ground (arith, drop_x0-illegal w off, decode_switch-store w off e)

-- Which opcodes the plain ops come from.
pub plain_opcodes :
    (w off : ℕ)
    → is_plain (decode_word w off).op ≡ true
    → (field w 0 7 ≡ 0x13)
      ⊎ (field w 0 7 ≡ 0x33)
      ⊎ (field w 0 7 ≡ 0x03)
      ⊎ (field w 0 7 ≡ 0x23)
      ⊎ (field w 0 7 ≡ 0x37)
      ⊎ (field w 0 7 ≡ 0x17)
      ⊎ (field w 0 7 ≡ 0x0f)
unfolding decode_word drop_x0 decode_switch branch_op system_op word_fields
plain_opcodes w off k = ground arith

-- An operation of two registers whose funct7 the ISA defines, or another instruction.
abbrev pub is_defined : ℕ → Bool
is_defined w = not (field w 0 7 == 0x33) || is_standard (field w 12 3) (w / 2 ^ 25)

module _ (h : Handlers) (callback : State → MemOp → ℕ → ℕ → State × ℕ)
    (installed : h.callback ≡ some callback) (s : State) (bytes : (p : ℕ) → s.host p < 256)
    (pc idx w w1 off disp : ℕ) where
  -- FENCE, and an `auipc` of x0, do nothing.
  plain-miscmem :
      field w 0 7 ≡ 0x0f
      → is_plain (decode_word w off).op ≡ true
      → replay callback s idx w1 disp (decode_word w off) ≡ as_effect (exec h s pc (decode32 s w))
  unfolding decode_word drop_x0 miscmem_op word_fields exec decode32 decode_miscmem wide_fields
  plain-miscmem e k = ground (arith, decode_switch-miscmem w off e)

  plain-auipc :
      field w 0 7 ≡ 0x17
      → is_plain (decode_word w off).op ≡ true
      → replay callback s idx w1 disp (decode_word w off) ≡ as_effect (exec h s pc (decode32 s w))
  unfolding decode_word drop_x0 word_fields exec wide_fields wr
  plain-auipc e k = ground (arith, decode_switch-auipc w off e, decode32-auipc s w e)

  -- An instruction word that the transcoder makes a plain op of (RV32IM's register operations, loads,
  -- stores, LUI and FENCE, with any operands, x0 included), is run alike by the two engines in every
  -- state with bytes in memory and a memory callback installed: the handler that the packed word
  -- selects goes one word on with the state that purv's action body ends with, registers, memory and
  -- the callback's effects included; an instruction that is dropped leaves the state there. Excluded
  -- are the funct7 0x20 encodings that the ISA reserves.
  pub replay-exec :
      w < 2 ^ 32
      → is_defined w ≡ true
      → is_plain (decode_word w off).op ≡ true
      → replay callback s idx w1 disp (decode_word w off) ≡ as_effect (exec h s pc (decode32 s w))
  replay-exec hw std k = elim (plain_opcodes w off k) [
    | inl imm ↦ plain-opimm h callback s pc idx w w1 off disp hw imm
    | inr (inl op) ↦ plain-op h callback s pc idx w w1 off disp op (ground arith)
    | inr (inr (inl load)) ↦
        plain-load h callback installed s bytes pc idx w w1 off disp hw load
          (legal_load w off load k)
    | inr (inr (inr (inl store))) ↦
        plain-store h callback installed s bytes pc idx w w1 off disp hw store
          (legal_store w off store k)
    | inr (inr (inr (inr (inl lui)))) ↦ plain-lui h callback s pc idx w w1 off disp hw lui
    | inr (inr (inr (inr (inr (inl auipc))))) ↦ plain-auipc auipc k
    | inr (inr (inr (inr (inr (inr fence))))) ↦ plain-miscmem fence k
  ]
