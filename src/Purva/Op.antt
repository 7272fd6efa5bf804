-- ===== src/Purva/Op.antt =====
-- emu/purva/transcode.h: the op vocabulary, one number for each handler of the evaluator, in the order
-- that the range tests of the transcoder depend on.
use purv.Base.{ℕ}

abbrev pub add : ℕ
add = 0

abbrev pub sll : ℕ
sll = 1

abbrev pub slt : ℕ
slt = 2

abbrev pub sltu : ℕ
sltu = 3

abbrev pub xor : ℕ
xor = 4

abbrev pub srl : ℕ
srl = 5

abbrev pub or : ℕ
or = 6

abbrev pub and : ℕ
and = 7

abbrev pub sub : ℕ
sub = 8

abbrev pub sra : ℕ
sra = 9

abbrev pub addi : ℕ
addi = 10

abbrev pub slli : ℕ
slli = 11

abbrev pub slti : ℕ
slti = 12

abbrev pub sltiu : ℕ
sltiu = 13

abbrev pub xori : ℕ
xori = 14

abbrev pub srli : ℕ
srli = 15

abbrev pub ori : ℕ
ori = 16

abbrev pub andi : ℕ
andi = 17

abbrev pub srai : ℕ
srai = 18

abbrev pub mul : ℕ
mul = 19

abbrev pub mulh : ℕ
mulh = 20

abbrev pub mulhsu : ℕ
mulhsu = 21

abbrev pub mulhu : ℕ
mulhu = 22

abbrev pub div : ℕ
div = 23

abbrev pub divu : ℕ
divu = 24

abbrev pub rem : ℕ
rem = 25

abbrev pub remu : ℕ
remu = 26

abbrev pub lb : ℕ
lb = 27

abbrev pub lh : ℕ
lh = 28

abbrev pub lw : ℕ
lw = 29

abbrev pub lbu : ℕ
lbu = 30

abbrev pub lhu : ℕ
lhu = 31

abbrev pub sb : ℕ
sb = 32

abbrev pub sh : ℕ
sh = 33

abbrev pub sw : ℕ
sw = 34

abbrev pub beq : ℕ
beq = 35

abbrev pub bne : ℕ
bne = 36

abbrev pub blt : ℕ
blt = 37

abbrev pub bge : ℕ
bge = 38

abbrev pub bltu : ℕ
bltu = 39

abbrev pub bgeu : ℕ
bgeu = 40

abbrev pub jal : ℕ
jal = 41

abbrev pub jalr : ℕ
jalr = 42

abbrev pub lui : ℕ
lui = 43

abbrev pub auipc : ℕ
auipc = 44

abbrev pub nop : ℕ
nop = 45

abbrev pub ecall : ℕ
ecall = 46

abbrev pub ebreak : ℕ
ebreak = 47

abbrev pub illegal : ℕ
illegal = 48

abbrev pub prologue : ℕ
prologue = 49

abbrev pub epilogue : ℕ
epilogue = 50

abbrev pub li_lo : ℕ
li_lo = 51

abbrev pub li_hi : ℕ
li_hi = 52

abbrev pub shadd : ℕ
shadd = 53

abbrev pub lwx : ℕ
lwx = 54

abbrev pub lwlw : ℕ
lwlw = 55

abbrev pub lw_bz : ℕ
lw_bz = 56

abbrev pub lbu_bz : ℕ
lbu_bz = 57

abbrev pub lwsw : ℕ
lwsw = 58

abbrev pub vcall : ℕ
vcall = 59

abbrev pub memop : ℕ
memop = 60
