-- ===== src/Engine/Tests.antt =====
-- Runs of a small machine, and the theorems of the engine at concrete inputs.
use purv.Base.{
  ℕ, zero, suc, ◌+◌, ◌-◌, ◌*◌, ◌/◌, ◌%◌, ◌^◌, ◌≤◌, ◌<◌, ◌≡◌, refl, ◌⊎◌, ◌↔◌, Bool, true, false,
  Option, none, some, List, [], ◌∷◌, ◌==◌, ltb, if◌then◌else◌, u32, ◌<<<◌, arith,
}
use purv.Base.Int.{signed, pos, wrap64, ◌*ℤ◌}
use purv.Engine.{Region, State, Handlers, MemOp, wr, riscv_half}
use purv.Engine.Memory.{region_xlate, mem_xlate, read16, read32, write32}
use purv.Engine.Memory.Bounds.{Holds, mem_xlate_iff}
use purv.Engine.Memory.RoundTrip.{exec_load-exec_store}
use purv.Engine.Decode.{Decoded, load, store}
use purv.Engine.Decode.Fields.{sext, imm_i, imm_s, imm_b, imm_ci, shamt_ci}
use purv.Engine.Decode.Wide.{decode32, decode_opimm}
use purv.Engine.Decode.Compressed.{decode16, c_jr_mv_add}
use purv.Engine.Decode.Encode.{imm, ld, st, br, encode, Means}
use purv.Engine.Decode.RoundTrip.{decode32-encode}
use purv.Engine.Exec.{done}
use purv.Engine.Exec.Arith.{alu_result, mul_result, load_value, branch_taken}
use purv.Engine.Exec.Products.{mul_halves}
use purv.Engine.Exec.Division.{div_rem_lem, rem_bounds, IsRemainder}
use purv.Engine.Exec.Bodies.{exec, exec_load, exec_store, exec_branch, exec_ebreak, store_at, trap}
use purv.Engine.Exec.Keeps.{Respects, TrapKeeps-none, TrapKeeps-some, CallbackKeeps-some}
use purv.Engine.Loop.{Exit, half_at, fetch, window_size, run_window, go_on, run, loop, leave}
use purv.Engine.Loop.Reference.{step_by_step}
use purv.Engine.Loop.Windows.{loop-eq-step_by_step}
use purv.Engine.Loop.Invariant.{Ended}
use purv.Engine.Loop.Safety.{
  IsWellFormed, Confined, run_ends, loop-IsWellFormed, loop-Confined, wr-IsWellFormed, wr-Confined,
}
use purv.Engine.Init.{init, init-loop_safe}

-- The bytes of a word, lowest first.
abbrev word_bytes : List ℕ → List ℕ
word_bytes [] = []
word_bytes (w ∷ ws) =
    (w % 256) ∷ (w / 256 % 256) ∷ (w / 2 ^ 16 % 256) ∷ (w / 2 ^ 24 % 256) ∷ word_bytes ws

abbrev byte_of : List ℕ → ℕ → ℕ
byte_of [] i = 0
byte_of (b ∷ bs) zero = b % 256
byte_of (b ∷ bs) (suc i) = byte_of bs i

-- addi x5, x0, 77; sw x5, -4(sp); lw x6, -4(sp); beq x5, x6, +8; ebreak; c.addi x6, 1; c.ebreak
abbrev program : List ℕ
program =
    encode (imm 0 5 0 77)
    ∷ encode (st 2 2 5 0xffc)
    ∷ encode (ld 2 6 2 0xffc)
    ∷ encode (br 0 5 6 8)
    ∷ 0x0010_0073
    ∷ 0x9002_0305
    ∷ []

-- The code at host address 4096, and 64 bytes of stack and heap at 8192.
abbrev host : ℕ → ℕ
host p = if ltb p 4096 then 0 else byte_of (word_bytes program) (p - 4096)

abbrev code : Region
code = record { ptr = 4096; len = 24; base = 0 }

abbrev data_region : Region
data_region = record { ptr = 8192; len = 64; base = riscv_half - 32 }

-- What a test looks at: the count, pc, two registers and a byte of the stack.
abbrev seen : Option (State × ℕ) → List ℕ
seen none = []
seen (some (s, k)) = k ∷ s.pc ∷ s.x 5 ∷ s.x 6 ∷ s.host (8192 + 28) ∷ []

machine_run :
    seen (loop (init code data_region host).1 (init code data_region host).0 100)
    ≡ 6 ∷ 22 ∷ 77 ∷ 78 ∷ 77 ∷ []
unfolding init loop run window_size run_window go_on fetch half_at decode32 decode_opimm decode16
    c_jr_mv_add imm_i imm_s imm_b sext imm_ci shamt_ci exec exec_load exec_store exec_branch
    alu_result mem_xlate region_xlate load_value read16 read32 write32 wr branch_taken store_at
    exec_ebreak trap
machine_run = refl

-- A host that stops at an ecall with a result in x10, and reads 42 where nothing is mapped.
exit_hook : State → State × Bool
exit_hook s = (wr s 10 1, true)

mapped_io : State → MemOp → ℕ → ℕ → State × ℕ
mapped_io s op addr v = (s, 42)

abbrev hooks : Handlers
hooks = record { ecall = some exit_hook; ebreak = none; illegal = none; callback = some mapped_io }

abbrev machine : State
machine = record {
  pc = 0;
  inst = 0;
  x = λ i. if i == 2 then riscv_half else 0;
  readonly = code;
  writable = data_region;
  host = host;
}

byte_of-lt : (bs : List ℕ) (i : ℕ) → byte_of bs i < 256
byte_of-lt [] i = omega arith
byte_of-lt (b ∷ bs) zero = omega arith
byte_of-lt (b ∷ bs) (suc i) = byte_of-lt bs i

host-lt : (p : ℕ) → host p < 256
host-lt p = ground (arith, byte_of-lt (word_bytes program) (p - 4096))

machine-IsWellFormed : IsWellFormed machine
machine-IsWellFormed = record { zero_reg = refl; words = λ i. ground arith; bytes = host-lt }

hooks-IsWellFormed : Respects IsWellFormed hooks
unfolding exit_hook mapped_io
hooks-IsWellFormed = record {
  ecall = TrapKeeps-some IsWellFormed exit_hook (λ s k. wr-IsWellFormed s k 10 1 (omega arith));
  ebreak = TrapKeeps-none IsWellFormed;
  illegal = TrapKeeps-none IsWellFormed;
  callback = CallbackKeeps-some IsWellFormed mapped_io (λ s op addr v k. (k, omega arith));
}

hooks-Confined : Respects (Confined machine) hooks
unfolding exit_hook mapped_io
hooks-Confined = record {
  ecall =
      TrapKeeps-some (Confined machine) exit_hook
        (λ s c. wr-Confined machine s 10 1 (omega arith) c);
  ebreak = TrapKeeps-none (Confined machine);
  illegal = TrapKeeps-none (Confined machine);
  callback = CallbackKeeps-some (Confined machine) mapped_io (λ s op addr v c. (c, omega arith));
}

-- A store of x5 through sp, and the load of the same word into x6.
abbrev store_word : Decoded
store_word = record {
  action = store;
  rd = 0;
  rs1 = 2;
  a = riscv_half;
  b = 0xdead_beef;
  f3 = 2;
  f7 = 0;
  imm = 0xffff_fffc;
  width = 4;
  inst = 0;
}

abbrev load_word : Decoded
load_word = record store_word { action = load; rd = 6; b = 0 }

exec_load-exec_store_example :
    (s' : State) × (exec_store hooks machine 0 store_word ≡ done s')
    × (exec_load hooks s' 4 load_word ≡ done (wr s' 6 (sext 0xdead_beef (8 * (1 <<< 2)))))
unfolding mem_xlate region_xlate
exec_load-exec_store_example =
    exec_load-exec_store hooks machine 0 4 8220 store_word load_word (omega arith) (omega arith)
      refl refl (λ e. absurd (omega arith)) refl

loop-eq-step_by_step_example :
    loop hooks machine 100 ≡ some (leave 100 (step_by_step code hooks 100 0 machine))
loop-eq-step_by_step_example = loop-eq-step_by_step hooks machine 100 (omega arith)

run_ends_example : (e : Exit) × (run code hooks 101 100 0 machine ≡ some e) × Ended code 100 e
run_ends_example = run_ends hooks code 100 0 machine (omega arith)

loop-IsWellFormed_example :
    (s' : State) × (k : ℕ) × (loop hooks machine 100 ≡ some (s', k))
    × IsWellFormed s'
    × (s'.pc < 2 ^ 32)
    × (k ≤ 100)
loop-IsWellFormed_example =
    loop-IsWellFormed hooks machine 100 (omega arith) (omega arith) hooks-IsWellFormed
      machine-IsWellFormed

loop-Confined_example :
    (s' : State) × (k : ℕ) × (loop hooks machine 100 ≡ some (s', k)) × Confined machine s'
loop-Confined_example =
    loop-Confined hooks machine 100 (omega arith) (omega arith) hooks-Confined machine-IsWellFormed

init-loop_safe_example :
    let (s, h) = init code data_region host in
    (s' : State) × (k : ℕ) × (loop h s 100 ≡ some (s', k)) × Confined s s'
init-loop_safe_example = init-loop_safe code data_region host host-lt (omega arith) 100

mem_xlate_iff_example : (mem_xlate machine riscv_half 4 true ≡ some 8224) ↔ (
    Holds data_region riscv_half 4 8224
    ⊎ (true ≡ false)
      × ((q : ℕ) → ¬ Holds data_region riscv_half 4 q)
      × Holds code riscv_half 4 8224)
mem_xlate_iff_example =
    mem_xlate_iff machine riscv_half 4 true 8224 (omega arith) (omega arith) (omega arith)

decode32-encode_example :
    Means machine (br 1 5 6 0x1ff0) (decode32 machine (encode (br 1 5 6 0x1ff0)))
decode32-encode_example = decode32-encode machine (br 1 5 6 0x1ff0) (omega arith)

mul_halves_example :
    (mul_result 1 0xffff_fffe 3 * 2 ^ 32 + mul_result 0 0xffff_fffe 3
      ≡ wrap64 (signed 0xffff_fffe *ℤ signed 3))
    × (mul_result 2 0xffff_fffe 3 * 2 ^ 32 + mul_result 0 0xffff_fffe 3
        ≡ wrap64 (signed 0xffff_fffe *ℤ pos 3))
    × (mul_result 3 0xffff_fffe 3 * 2 ^ 32 + mul_result 0 0xffff_fffe 3 ≡ 0xffff_fffe * 3)
mul_halves_example = mul_halves 0xffff_fffe 3 (omega arith) (omega arith)

div_rem_lem_example :
    (u32 (mul_result 4 0x8000_0000 0xffff_ffff * 0xffff_ffff + mul_result 6 0x8000_0000 0xffff_ffff)
      ≡ 0x8000_0000)
    × (u32 (
          mul_result 5 0x8000_0000 0xffff_ffff * 0xffff_ffff + mul_result 7 0x8000_0000 0xffff_ffff)
        ≡ 0x8000_0000)
div_rem_lem_example = div_rem_lem 0x8000_0000 0xffff_ffff (omega arith) (omega arith)

rem_bounds_example :
    IsRemainder (signed 0xffff_fff9) (signed 2) (signed (mul_result 6 0xffff_fff9 2))
    × (mul_result 7 0xffff_fff9 2 < 2)
rem_bounds_example =
    rem_bounds 0xffff_fff9 2 (omega arith) (omega arith) (λ e. absurd (omega arith))
