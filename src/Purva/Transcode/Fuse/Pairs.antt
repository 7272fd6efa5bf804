-- ===== src/Purva/Transcode/Fuse/Pairs.antt =====
-- emu/purva/transcode.c, `try_fuse_pair`: two or three instructions that one op word replays.
use purv.Base.{
  ℕ, ◌%◌, ◌^◌, bit_or, Bool, not, ◌&&◌, ◌||◌, Option, none, some, ltb, leb, ◌==◌, if◌then◌else◌,
  add32, ◌<<<◌, ◌>>>◌,
}
use purv.Base.Int.{signed, lt_ℤ, neg_ℕ, pos}
use purv.Purva.Op
use purv.Purva.Transcode.{DecodedInst, decode}
use purv.Purva.Transcode.Targets.{Targets, targets_has}

-- `(int32_t)x >= -k && (int32_t)x < k`
abbrev pub fits_signed : ℕ → ℕ → Bool
fits_signed k x = not (lt_ℤ (signed x) (neg_ℕ k)) && lt_ℤ (signed x) (pos k)

-- The register that `add T, ...` adds to T; 32 if the add does not read T.
abbrev pub other_operand : DecodedInst → DecodedInst → ℕ
other_operand a b = if b.rs1 == a.rd then b.rs2 else if b.rs2 == a.rd then b.rs1 else 32

abbrev pub is_shadd : DecodedInst → DecodedInst → Bool
is_shadd a b =
    a.op == Op.slli
    && (b.op == Op.add
        && (b.rd == a.rd && (ltb (other_operand a b) 32 && not (other_operand a b == a.rd))))

abbrev pub is_lwx : DecodedInst → DecodedInst → Bool
is_lwx a b =
    a.op == Op.add
    && (b.op == Op.lw
        && (not (a.rd == 0) && (b.rd == a.rd && (b.rs1 == a.rd && fits_signed 1024 b.imm))))

-- The tests of LWLW and LWSW below `a.op == RISCV_OP_LW && a.rd != 0`.
abbrev pub is_lwlw : DecodedInst → DecodedInst → Bool
is_lwlw a b =
    a.op == Op.lw
    && not (a.rd == 0)
    && (b.op == Op.lw
        && (b.rd == a.rd && (b.rs1 == a.rd && (fits_signed 128 a.imm && fits_signed 128 b.imm))))

abbrev pub is_lwsw : DecodedInst → DecodedInst → Bool
is_lwsw a b =
    a.op == Op.lw
    && not (a.rd == 0)
    && (b.op == Op.sw
        && (b.rs2 == a.rd
            && (ltb a.imm 128 && (a.imm % 4 == 0 && (ltb b.imm 256 && b.imm % 4 == 0)))))

abbrev pub is_vcall_tail : DecodedInst → DecodedInst → Bool
is_vcall_tail a c = c.op == Op.jalr && (c.rd == 1 && (c.rs1 == a.rd && c.imm == 0))

abbrev pub is_load_bz : DecodedInst → DecodedInst → Bool
is_load_bz a b =
    (a.op == Op.lw || a.op == Op.lbu)
    && (not (a.rd == 0)
        && ((b.op == Op.beq || b.op == Op.bne)
            && (b.rs1 == a.rd && b.rs2 == 0 || b.rs2 == a.rd && b.rs1 == 0)))

-- The pair as one op, where it is not a vtable call.
unfoldable pub pair_op : DecodedInst → DecodedInst → DecodedInst → Option DecodedInst
pair_op a b out =
    if is_shadd a b
    then some
        (record out { op = Op.shadd; rd = a.rd; rs1 = other_operand a b; rs2 = a.rs1; imm = a.imm })
    else if is_lwx a b
    then some (record out { op = Op.lwx; rd = a.rd; rs1 = a.rs1; rs2 = a.rs2; imm = b.imm })
    else if is_lwlw a b
    then some (record out {
      op = Op.lwlw;
      rd = a.rd;
      rs1 = a.rs1;
      imm = bit_or ((a.imm % 2 ^ 8) <<< 8) (b.imm % 2 ^ 8);
    })
    else if is_lwsw a b
    then some (record out {
      op = Op.lwsw;
      rd = a.rd;
      rs1 = a.rs1;
      rs2 = b.rs1;
      imm = bit_or ((a.imm >>> 2) <<< 6) (b.imm >>> 2);
    })
    else if is_load_bz a b
    then some (record out {
      op = if a.op == Op.lw then Op.lw_bz else Op.lbu_bz;
      rd = a.rd;
      rs1 = a.rs1;
      imm = a.imm;
      target = b.target;
      rs2 = if b.op == Op.beq then 1 else 0;
    })
    else none

-- A double load before a `jalr ra, 0(T)` that no jump lands on takes all three.
abbrev pub takes_call : (ℕ → ℕ) → ℕ → Targets → ℕ → DecodedInst → DecodedInst → Bool
takes_call code len targets off a d =
    d.op == Op.lwlw
    && (leb (add32 off 12) len
        && (not (targets_has targets (add32 off 8)) && is_vcall_tail a (decode code (add32 off 8))))

unfoldable pub try_fuse_pair : (ℕ → ℕ) → ℕ → Targets → ℕ → DecodedInst → Option (DecodedInst × ℕ)
try_fuse_pair code len targets off out =
    let a = decode code off in
    let b = decode code (add32 off 4) in
    if ltb len (add32 off 8) || targets_has targets (add32 off 4)
    then none
    else elim (pair_op a b out) [
      | none ↦ none
      | some d ↦
          if takes_call code len targets off a d
          then some (record d { op = Op.vcall }, 12)
          else some (d, 8)
    ]
