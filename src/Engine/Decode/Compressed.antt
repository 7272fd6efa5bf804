-- ===== src/Engine/Decode/Compressed.antt =====
-- emu/purv.c, the switch on the quadrant and funct3 of a compressed instruction, one function for
-- each case that does more than fill in operands.
use purv.Base.{ℕ, ◌+◌, bit_or, ◌&&◌, ◌==◌, if◌then◌else◌, field, ◌<<<◌}
use purv.Engine.{State}
use purv.Engine.Decode.{alu, load, store, branch, jal, jalr, lui, ebreak, illegal, Decoded}
use purv.Engine.Decode.Fields.{
  shamt_ci, imm_ci, imm_addi4spn, imm_clw, imm_cj, imm_addi16sp, imm_clui, imm_cb, imm_lwsp,
  imm_swsp,
}

-- What the code sets before the switch; the other locals keep their initial 0.
unfoldable pub compressed_fields : ℕ → Decoded
compressed_fields c = record {
  action = illegal;
  rd = field c 7 5;
  rs1 = 0;
  a = 0;
  b = 0;
  f3 = 0;
  f7 = 0;
  imm = 0;
  width = 2;
  inst = c;
}

-- `rdp` and `rsp`: the three-bit fields name x8 to x15.
abbrev pub rdp : ℕ → ℕ
rdp c = field c 2 3 + 8

abbrev pub rsp : ℕ → ℕ
rsp c = field c 7 3 + 8

unfoldable pub c_addi4spn : State → ℕ → Decoded
unfolding compressed_fields
c_addi4spn s c =
    let d = compressed_fields c in
    let imm = imm_addi4spn c in
    if imm == 0
    then record d { imm = imm }
    else record d { action = alu; rd = rdp c; a = s.x 2; b = imm; imm = imm }

-- C.LUI and C.ADDI16SP.
unfoldable pub c_lui : State → ℕ → Decoded
unfolding compressed_fields
c_lui s c =
    let d = compressed_fields c in
    let sp = imm_addi16sp c in
    let imm = imm_clui c in
    if d.rd == 2
    then (if sp == 0
        then record d { imm = sp }
        else record d { action = alu; a = s.x 2; b = sp; imm = sp })
    else (if imm == 0 then record d { imm = imm } else record d { action = lui; imm = imm })

-- The register-register half of C.MISC-ALU: C.SUB, C.XOR, C.OR and C.AND.
unfoldable pub c_misc_reg : State → ℕ → Decoded → Decoded
c_misc_reg s c d =
    let e = record d { action = alu; b = s.x (rdp c) } in
    let which = field c 5 2 in
    if field c 12 1 == 1
    then d
    else if which == 0
    then record e { f7 = 0x20 }
    else if which == 1
    then record e { f3 = 4 }
    else if which == 2
    then record e { f3 = 6 }
    else record e { f3 = 7 }

-- `rd = rsp; a = s->x[rsp]`
unfoldable pub misc_fields : State → ℕ → Decoded
unfolding compressed_fields
misc_fields s c = record (compressed_fields c) { rd = rsp c; a = s.x (rsp c) }

unfoldable pub c_misc_alu : State → ℕ → Decoded
unfolding misc_fields
c_misc_alu s c =
    let e = misc_fields s c in
    let which = field c 10 2 in
    if which == 0
    then record e { action = alu; f3 = 5; b = shamt_ci c }
    else if which == 1
    then record e { action = alu; f3 = 5; f7 = 0x20; b = shamt_ci c }
    else if which == 2
    then record e { action = alu; f3 = 7; b = imm_ci c }
    else c_misc_reg s c e

-- C.JR, C.JALR, C.MV, C.ADD and C.EBREAK.
unfoldable pub c_jr_mv_add : State → ℕ → Decoded
unfolding compressed_fields
c_jr_mv_add s c =
    let d = compressed_fields c in
    let rs2 = field c 2 5 in
    if field c 12 1 == 0
    then (if rs2 == 0
        then record d { action = jalr; a = s.x d.rd; rd = 0 }
        else record d { action = alu; b = s.x rs2 })
    else if d.rd == 0 && rs2 == 0
    then record d { action = ebreak }
    else if rs2 == 0
    then record d { action = jalr; a = s.x d.rd; rd = 1 }
    else record d { action = alu; a = s.x d.rd; b = s.x rs2 }

-- `switch (((c >> 13) & 7) << 2 | (c & 3))`
unfoldable pub decode16 : State → ℕ → Decoded
unfolding compressed_fields
decode16 s c =
    let d = compressed_fields c in
    let which = bit_or (field c 13 3 <<< 2) (field c 0 2) in
    let lw = record d { f3 = 2; imm = imm_clw c; a = s.x (rsp c) } in
    if which == 0
    then c_addi4spn s c
    else if which == 8
    then record lw { action = load; rd = rdp c }
    else if which == 24
    then record lw { action = store; b = s.x (rdp c) }
    else if which == 1
    then record d { action = alu; a = s.x d.rd; b = imm_ci c }
    else if which == 5
    then record d { action = jal; rd = 1; imm = imm_cj c }
    else if which == 21
    then record d { action = jal; rd = 0; imm = imm_cj c }
    else if which == 9
    then record d { action = alu; b = imm_ci c }
    else if which == 13
    then c_lui s c
    else if which == 17
    then c_misc_alu s c
    else if which == 25
    then record d { action = branch; a = s.x (rsp c); imm = imm_cb c }
    else if which == 29
    then record d { action = branch; a = s.x (rsp c); f3 = 1; imm = imm_cb c }
    else if which == 2
    then record d { action = alu; a = s.x d.rd; f3 = 1; b = shamt_ci c }
    else if which == 10
    then record d { action = load; a = s.x 2; f3 = 2; imm = imm_lwsp c }
    else if which == 18
    then c_jr_mv_add s c
    else if which == 26
    then record d { action = store; a = s.x 2; b = s.x (field c 2 5); f3 = 2; imm = imm_swsp c }
    else d
