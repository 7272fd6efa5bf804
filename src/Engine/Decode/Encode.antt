-- ===== src/Engine/Decode/Encode.antt =====
-- The RV32IM instruction formats of the ISA manual, independent of the decoder: an instruction by
-- its fields, the word that the manual gives it, and what a decoder has to find there.
use purv.Base.{ℕ, ◌+◌, ◌-◌, ◌*◌, ◌/◌, ◌%◌, ◌^◌, ◌<◌, ◌≡◌, ◌⊎◌, Bool, ltb, ◌==◌, if◌then◌else◌}
use purv.Engine.{State}
use purv.Engine.Decode.{alu, mul, load, store, branch, jal, jalr, lui, auipc, system, done, Decoded}

-- Immediates are two's complement patterns of their format's width; `shift` is a shift by a
-- constant, with the funct7 in front, and `fence` is FENCE or FENCE.I by its funct3.
pub data Instr : Type 0 where
  reg : (f7 f3 rd rs1 rs2 : ℕ) → Instr
  imm : (f3 rd rs1 i : ℕ) → Instr
  shift : (f7 f3 rd rs1 shamt : ℕ) → Instr
  ld : (f3 rd rs1 i : ℕ) → Instr
  st : (f3 rs1 rs2 i : ℕ) → Instr
  br : (f3 rs1 rs2 off : ℕ) → Instr
  jump_link : (rd off : ℕ) → Instr
  jump_reg : (f3 rd rs1 i : ℕ) → Instr
  upper : (rd u : ℕ) → Instr
  upper_pc : (rd u : ℕ) → Instr
  fence : (f3 i : ℕ) → Instr
  env_call : Instr
  env_break : Instr

-- The formats R, I, S, B, U and J.
abbrev pub format_r : ℕ → ℕ → ℕ → ℕ → ℕ → ℕ → ℕ
format_r op rd f3 rs1 rs2 f7 =
    op + rd * 2 ^ 7 + f3 * 2 ^ 12 + rs1 * 2 ^ 15 + rs2 * 2 ^ 20 + f7 * 2 ^ 25

abbrev pub format_i : ℕ → ℕ → ℕ → ℕ → ℕ → ℕ
format_i op rd f3 rs1 i = op + rd * 2 ^ 7 + f3 * 2 ^ 12 + rs1 * 2 ^ 15 + i * 2 ^ 20

abbrev pub format_s : ℕ → ℕ → ℕ → ℕ → ℕ → ℕ
format_s op f3 rs1 rs2 i = format_r op (i % 2 ^ 5) f3 rs1 rs2 (i / 2 ^ 5)

-- imm[4:1|11] in place of rd, imm[12|10:5] in place of funct7.
abbrev pub format_b : ℕ → ℕ → ℕ → ℕ → ℕ → ℕ
format_b op f3 rs1 rs2 off =
    format_r op (off / 2 % 2 ^ 4 * 2 + off / 2 ^ 11 % 2) f3 rs1 rs2
      (off / 2 ^ 12 * 2 ^ 6 + off / 2 ^ 5 % 2 ^ 6)

abbrev pub format_u : ℕ → ℕ → ℕ → ℕ
format_u op rd u = op + rd * 2 ^ 7 + u * 2 ^ 12

-- imm[20|10:1|11|19:12]
abbrev pub format_j : ℕ → ℕ → ℕ → ℕ
format_j op rd off = format_u op rd (
    off / 2 ^ 20 * 2 ^ 19
    + off / 2 % 2 ^ 10 * 2 ^ 9
    + off / 2 ^ 11 % 2 * 2 ^ 8
    + off / 2 ^ 12 % 2 ^ 8)

abbrev pub encode : Instr → ℕ
encode (reg f7 f3 rd rs1 rs2) = format_r 0x33 rd f3 rs1 rs2 f7
encode (imm f3 rd rs1 i) = format_i 0x13 rd f3 rs1 i
encode (shift f7 f3 rd rs1 shamt) = format_r 0x13 rd f3 rs1 shamt f7
encode (ld f3 rd rs1 i) = format_i 0x03 rd f3 rs1 i
encode (st f3 rs1 rs2 i) = format_s 0x23 f3 rs1 rs2 i
encode (br f3 rs1 rs2 off) = format_b 0x63 f3 rs1 rs2 off
encode (jump_link rd off) = format_j 0x6f rd off
encode (jump_reg f3 rd rs1 i) = format_i 0x67 rd f3 rs1 i
encode (upper rd u) = format_u 0x37 rd u
encode (upper_pc rd u) = format_u 0x17 rd u
encode (fence f3 i) = format_i 0x0f 0 f3 0 i
encode env_call = format_i 0x73 0 0 0 0
encode env_break = format_i 0x73 0 0 0 1

-- A field of `k` bits.
abbrev Fits : ℕ → ℕ → Type 0
Fits k v = v < 2 ^ k

-- Every field has its width; a jump offset is even, and a constant shift has its funct3.
abbrev pub IsEncodable : Instr → Type 0
IsEncodable (reg f7 f3 rd rs1 rs2) = Fits 7 f7 × Fits 3 f3 × Fits 5 rd × Fits 5 rs1 × Fits 5 rs2
IsEncodable (imm f3 rd rs1 i) =
    Fits 3 f3
    × Fits 5 rd
    × Fits 5 rs1
    × Fits 12 i
    × ((f3 == 1) ≡ Bool.false)
    × ((f3 == 5) ≡ Bool.false)
IsEncodable (shift f7 f3 rd rs1 shamt) =
    Fits 7 f7 × Fits 5 rd × Fits 5 rs1 × Fits 5 shamt × ((f3 ≡ 1) ⊎ (f3 ≡ 5))
IsEncodable (ld f3 rd rs1 i) = Fits 3 f3 × Fits 5 rd × Fits 5 rs1 × Fits 12 i
IsEncodable (st f3 rs1 rs2 i) = Fits 3 f3 × Fits 5 rs1 × Fits 5 rs2 × Fits 12 i
IsEncodable (br f3 rs1 rs2 off) = Fits 3 f3 × Fits 5 rs1 × Fits 5 rs2 × Fits 13 off × (off % 2 ≡ 0)
IsEncodable (jump_link rd off) = Fits 5 rd × Fits 21 off × (off % 2 ≡ 0)
IsEncodable (jump_reg f3 rd rs1 i) = Fits 3 f3 × Fits 5 rd × Fits 5 rs1 × Fits 12 i
IsEncodable (upper rd u) = Fits 5 rd × Fits 20 u
IsEncodable (upper_pc rd u) = Fits 5 rd × Fits 20 u
IsEncodable (fence f3 i) = Fits 1 f3 × Fits 12 i
IsEncodable env_call = Unit {0}
IsEncodable env_break = Unit {0}

-- A two's complement pattern of `bits` bits, as a 32-bit one.
abbrev pub sign_extend : ℕ → ℕ → ℕ
sign_extend bits v = if ltb v (2 ^ (bits - 1)) then v else v + 2 ^ 32 - 2 ^ bits

-- The body that an instruction belongs to, and the operands that this body uses.
abbrev pub Means : State → Instr → Decoded → Type 0
Means s (reg f7 f3 rd rs1 rs2) d =
    (d.action ≡ (if f7 == 1 then mul else alu))
    × (d.rd ≡ rd)
    × (d.a ≡ s.x rs1)
    × (d.b ≡ s.x rs2)
    × (d.f3 ≡ f3)
    × (d.f7 ≡ f7)
Means s (imm f3 rd rs1 i) d =
    (d.action ≡ alu)
    × (d.rd ≡ rd)
    × (d.a ≡ s.x rs1)
    × (d.b ≡ sign_extend 12 i)
    × (d.f3 ≡ f3)
    × (d.f7 ≡ 0)
Means s (shift f7 f3 rd rs1 shamt) d =
    (d.action ≡ alu) × (d.rd ≡ rd) × (d.a ≡ s.x rs1) × (d.b ≡ shamt) × (d.f3 ≡ f3) × (d.f7 ≡ f7)
Means s (ld f3 rd rs1 i) d =
    (d.action ≡ load) × (d.rd ≡ rd) × (d.a ≡ s.x rs1) × (d.imm ≡ sign_extend 12 i) × (d.f3 ≡ f3)
Means s (st f3 rs1 rs2 i) d =
    (d.action ≡ store)
    × (d.a ≡ s.x rs1)
    × (d.b ≡ s.x rs2)
    × (d.imm ≡ sign_extend 12 i)
    × (d.f3 ≡ f3)
Means s (br f3 rs1 rs2 off) d =
    (d.action ≡ branch)
    × (d.a ≡ s.x rs1)
    × (d.b ≡ s.x rs2)
    × (d.imm ≡ sign_extend 13 off)
    × (d.f3 ≡ f3)
Means s (jump_link rd off) d = (d.action ≡ jal) × (d.rd ≡ rd) × (d.imm ≡ sign_extend 21 off)
Means s (jump_reg f3 rd rs1 i) d =
    (d.action ≡ jalr) × (d.rd ≡ rd) × (d.a ≡ s.x rs1) × (d.imm ≡ sign_extend 12 i)
Means s (upper rd u) d = (d.action ≡ lui) × (d.rd ≡ rd) × (d.imm ≡ u * 2 ^ 12)
Means s (upper_pc rd u) d = (d.action ≡ auipc) × (d.rd ≡ rd) × (d.imm ≡ u * 2 ^ 12)
Means s (fence f3 i) d = d.action ≡ done
Means s env_call d = (d.action ≡ system) × (d.f3 ≡ 0) × (d.rd ≡ 0) × (d.rs1 ≡ 0) × (d.imm ≡ 0)
Means s env_break d = (d.action ≡ system) × (d.f3 ≡ 0) × (d.rd ≡ 0) × (d.rs1 ≡ 0) × (d.imm ≡ 1)
