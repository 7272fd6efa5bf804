-- ===== src/Purva/Tests.antt =====
-- Runs of the evaluator against the interpreter, and their theorems at concrete inputs.
mod Passes
use purv.Base.{ℕ, ◌-◌, ◌/◌, ◌%◌, ◌≡◌, refl, Bool, none, some, ◌==◌, if◌then◌else◌, add32, arith}
use purv.Engine.{State, Handlers, MemOp, riscv_half}
use purv.Engine.Decode.Fields.{sext, imm_i, imm_b, bits_b}
use purv.Engine.Decode.Wide.{decode32}
use purv.Engine.Decode.Encode.{ld, br, encode}
use purv.Engine.Exec.{done, jump}
use purv.Engine.Exec.Bodies.{exec}
use purv.Purva.Transcode.{
  DecodedInst, decode_word, decode_switch, drop_x0, load_op, branch_op, word_fields,
}
use purv.Purva.Transcode.Fuse.Pairs.{pair_op}
use purv.Purva.Transcode.Emit.{Ops, emit, first_word, displacement, target_word}
use purv.Purva.Eval.Frames.{save_frame, restore_frame, prologue_slow, epilogue_slow}
use purv.Purva.Eval.Frames.Bands.{frames-eq-slow}
use purv.Purva.Eval.Ops.{fall, reloc, handler}
use purv.Purva.Replay.Parts.{as_effect, replay}
use purv.Purva.Replay.Agree.{replay-exec}
use purv.Purva.Replay.Branches.{replay-branch}
use purv.Purva.Replay.Pairs.{IsDevice}
use purv.Purva.Replay.Composite.{replay-pair_op}
use purv.Purva.Replay.Conditional.{replay-load_bz}

abbrev junk : DecodedInst
junk = record { op = 7; rd = 9; rs1 = 11; rs2 = 12; imm = 13; target = 14; width = 15 }

abbrev fresh : ℕ → ℕ
fresh i = 0xdead

-- A stack and heap of 128 bytes around the boundary, at host address 8192, no read-only data, and a
-- host that reads 42 where nothing is mapped.
abbrev machine : State
machine = record {
  pc = 0;
  inst = 0;
  x = λ i. if i == 2 then riscv_half else i;
  readonly = record { ptr = 4096; len = 0; base = 0 };
  writable = record { ptr = 8192; len = 128; base = riscv_half - 64 };
  host = λ p. p % 256;
}

mapped_io : State → MemOp → ℕ → ℕ → State × ℕ
mapped_io s op addr v = (s, 42)

abbrev hooks : Handlers
hooks = record { ecall = none; ebreak = none; illegal = none; callback = some mapped_io }

-- lw x8, -4(sp), at address 4 and op index 1.
abbrev load_word : ℕ
load_word = encode (ld 2 8 2 0xffc)

replay-exec_example :
    replay mapped_io machine 1 0 0 (decode_word load_word 4)
    ≡ as_effect (exec hooks machine 4 (decode32 machine load_word))
unfolding decode_word decode_switch drop_x0 load_op word_fields
replay-exec_example =
    replay-exec hooks mapped_io refl machine (λ p. omega arith) 4 1 load_word 0 4 0 (omega arith)
      refl refl

mapped_io-IsDevice : IsDevice mapped_io
unfolding mapped_io
mapped_io-IsDevice = record {
  blind = λ s r u op a v. refl;
  word = λ s op a v. omega arith;
  bytes = λ s op a v b. b;
}

-- lw x8, 8(x8) behind it: the first load hits the stack, the second misses.
abbrev load_again : ℕ
load_again = encode (ld 2 8 8 8)

abbrev double_load : DecodedInst
double_load = record { op = 55; rd = 8; rs1 = 2; rs2 = 12; imm = 0xfc08; target = 14; width = 15 }

replay-pair_op_example :
    (s1 : State) × (s2 : State) × (exec hooks machine 4 (decode32 machine load_word) ≡ done s1)
    × (exec hooks s1 8 (decode32 s1 load_again) ≡ done s2)
    × (handler mapped_io machine 1 (first_word double_load 0) 0 ≡ fall 1 2 s2)
unfolding decode_word decode_switch drop_x0 load_op word_fields imm_i pair_op
replay-pair_op_example =
    replay-pair_op hooks mapped_io refl machine load_word load_again 4 8 4 8 1 0 0 junk double_load
      mapped_io-IsDevice (λ p. omega arith) (omega arith) (omega arith) refl refl

-- bne x5, x6, +8, at address 4, with the ops where the instructions are.
abbrev branch_word : ℕ
branch_word = encode (br 1 5 6 8)

replay-branch_example :
    (take : Bool) × (handler mapped_io machine 1
        (first_word
          (decode_word branch_word 4)
          (displacement (λ i. i / 2) 64 (decode_word branch_word 4).target 1))
        0
      ≡ (if take
          then reloc (target_word (λ i. i / 2) 64 (add32 4 (imm_b branch_word)) 1) 1 machine
          else fall 1 1 machine))
    × (exec hooks machine 4 (decode32 machine branch_word)
        ≡ (if take then jump (add32 4 (imm_b branch_word)) machine else done machine))
unfolding branch_op target_word imm_b bits_b sext
replay-branch_example =
    replay-branch hooks mapped_io machine branch_word 0 4 1 64 (λ i. i / 2) refl refl (omega arith)
      (omega arith) (omega arith) (omega arith)

-- ra, s0 and s1, below the top of the stack.
frames-eq-slow_example :
    (save_frame mapped_io machine 7 riscv_half ≡ prologue_slow mapped_io 13 7 riscv_half machine 0)
    × (restore_frame mapped_io machine 7 riscv_half
        ≡ epilogue_slow mapped_io 13 7 riscv_half machine 0)
frames-eq-slow_example =
    frames-eq-slow mapped_io machine 7 riscv_half (omega arith) (omega arith) (omega arith)
      (omega arith) (omega arith)

-- lw x8, -4(sp); bne x8, x0, +16, at address 8 and op index 1, with the target at op 3.
abbrev exit_branch : ℕ
exit_branch = encode (br 1 8 0 16)

abbrev load_and_branch : DecodedInst
load_and_branch = record {
  op = 56;
  rd = 8;
  rs1 = 2;
  rs2 = 0;
  imm = 0xffff_fffc;
  target = 24;
  width = 15;
}

abbrev one_word : Ops
one_word = record { ops = fresh; at = 1 }

replay-load_bz_example :
    (s1 : State) × (take : Bool) × (exec hooks machine 4 (decode32 machine load_word) ≡ done s1)
    × (exec hooks s1 8 (decode32 s1 exit_branch)
        ≡ (if take then jump (add32 8 (imm_b exit_branch)) s1 else done s1))
    × (handler mapped_io machine 1
          ((emit one_word load_and_branch (λ i. 3) 64).ops 1)
          ((emit one_word load_and_branch (λ i. 3) 64).ops 2)
        ≡ (if take
            then reloc (target_word (λ i. 3) 64 (add32 8 (imm_b exit_branch)) 1) 2 s1
            else fall 2 2 s1))
unfolding decode_word decode_switch drop_x0 load_op branch_op word_fields imm_i imm_b bits_b sext
    pair_op target_word
replay-load_bz_example =
    replay-load_bz hooks mapped_io refl machine load_word exit_branch 8 4 4 one_word (λ i. 3) 64
      junk load_and_branch mapped_io-IsDevice (λ p. omega arith) refl (omega arith) refl refl
      (omega arith) (omega arith)
