-- ===== src/Bulk/Tests.antt =====
-- Runs of the instruction on small strings, and its theorems at concrete inputs.
use purv.Base.{ℕ, ◌≡◌, refl, inl, ◌||◌, ◌==◌, if◌then◌else◌, arith}
use purv.Engine.{State, MemOp}
use purv.Bulk.{purv_memop}
use purv.Bulk.Writes.{Spares, purv_memop-Spares}

-- "abc" at 0x100 and "abd" at 0x104, each with its NUL, in writable memory at host address 8192.
abbrev strings : State
strings = record {
  pc = 0;
  inst = 0;
  x = λ i. if i == 10 then 0x100 else if i == 11 then 0x104 else if i == 12 then 2 else 0;
  readonly = record { ptr = 4096; len = 8; base = 0 };
  writable = record { ptr = 8192; len = 16; base = 0x100 };
  host = λ p.
      if p == 8192 || p == 8196
      then b'a'
      else if p == 8193 || p == 8197
      then b'b'
      else if p == 8194
      then b'c'
      else if p == 8198
      then b'd'
      else 0;
}

-- A host with no device: a load reads as zero.
abbrev no_device : State → MemOp → ℕ → ℕ → State × ℕ
no_device s op a v = (s, 0)

strlen_run : (purv_memop no_device strings 4 10 0 0).0.x 10 ≡ 3
unfolding purv_memop
strlen_run = refl

-- 'c' - 'd', after three bytes.
strcmp_run : (purv_memop no_device strings 5 10 11 0).0.x 10 ≡ 0xffff_ffff
unfolding purv_memop
strcmp_run = refl

strncmp_run : (purv_memop no_device strings 7 10 11 12).0.x 10 ≡ 0
unfolding purv_memop
strncmp_run = refl

memcpy_run : (purv_memop no_device strings 0 11 10 12).0.host 8197 ≡ b'b'
unfolding purv_memop
memcpy_run = refl

purv_memop-Spares_example : Spares 4096 strings (purv_memop no_device strings 0 11 10 12).0
purv_memop-Spares_example =
    purv_memop-Spares no_device 4096 (λ s op a v. (refl, refl)) strings 0 11 10 12
      (inl (omega arith))
