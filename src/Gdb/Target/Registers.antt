-- ===== src/Gdb/Target/Registers.antt =====
-- What the debugger writes into the registers.
use purv.Base.{
  ℕ, zero, suc, ◌+◌, ◌^◌, ◌<◌, ◌≡◌, refl, ◌∙◌, true, not, ◌&&◌, List, ◌++◌, length, drop, leb, ◌==◌,
  if◌then◌else◌, arith,
}
use purv.Engine.{State}
use purv.Gdb.Hex.{reg_to_hex, reg_from_hex}
use purv.Gdb.Hex.RoundTrip.{reg_from_hex-reg_to_hex}
use purv.Gdb.Target.{gdb_nreg, reg_get, reg_set, regs_from, set_regs_from}

-- A write to a register is seen in that register and in no other, except that x0 keeps its value.
reg_get-reg_set :
    (s : State) (i j v : ℕ)
    → i < gdb_nreg
    → j < gdb_nreg
    → reg_get (reg_set s i v) j ≡ (if i == j && not (i == 0) then v else reg_get s j)
unfolding reg_get reg_set
reg_get-reg_set s i j v hi hj = ground arith

reg_set-host : (s : State) (i v : ℕ) → (reg_set s i v).host ≡ s.host
unfolding reg_set
reg_set-host s i v = ground arith

-- One register's characters.
set_regs_from-next :
    (n i v : ℕ) (p : List ℕ) (t : State)
    → v < 2 ^ 32
    → set_regs_from (suc n) i (reg_to_hex v ++ p) t ≡ set_regs_from n (i + 1) p (reg_set t i v)
unfolding reg_to_hex set_regs_from
set_regs_from-next n i v p t h =
    let long : leb 7 (length (reg_to_hex v ++ p)) ≡ true = ground arith in
    rw (long, reg_from_hex-reg_to_hex v p h)

-- All the registers from `i` on.
set_regs_from-regs_from :
    (n i : ℕ) (s t : State)
    → ((k : ℕ) → reg_get s k < 2 ^ 32)
    → n + i ≡ gdb_nreg
    → (j : ℕ) → j < gdb_nreg
    → reg_get (set_regs_from n i (regs_from n i s) t) j
      ≡ (if leb i j && not (j == 0) then reg_get s j else reg_get t j)
unfolding regs_from set_regs_from
set_regs_from-regs_from zero i s t words e j hj = ground arith
set_regs_from-regs_from (suc n) i s t words e j hj =
    let v = reg_get s i in
    rw (set_regs_from-next n i v (regs_from n (i + 1) s) t (words i)) (
      set_regs_from-regs_from n (i + 1) s (reg_set t i v) words (omega arith) j hj
      ∙ ground (arith, reg_get-reg_set t i j v))

set_regs_from-host : (n i : ℕ) (p : List ℕ) (t : State) → (set_regs_from n i p t).host ≡ t.host
unfolding set_regs_from
set_regs_from-host zero i p t = refl
set_regs_from-host (suc n) i p t =
    let step = reg_set t i (reg_from_hex p) in
    ground (arith, set_regs_from-host n (i + 1) (drop 8 p) step, reg_set-host t i (reg_from_hex p))

-- What a `g` packet reads out of one machine, a `G` packet writes into another: every register but
-- x0, pc included, then has the value it has in the first machine, x0 its own, and the memory is
-- untouched. The values are 32-bit numbers.
pub set_regs-regs :
    (s t : State) (j : ℕ)
    → ((k : ℕ) → reg_get s k < 2 ^ 32)
    → j < gdb_nreg
    → let t' = set_regs_from gdb_nreg 0 (regs_from gdb_nreg 0 s) t in
      (reg_get t' j ≡ (if j == 0 then reg_get t 0 else reg_get s j)) × (t'.host ≡ t.host)
set_regs-regs s t j words hj = (
  set_regs_from-regs_from gdb_nreg 0 s t words (omega arith) j hj ∙ ground arith,
  set_regs_from-host gdb_nreg 0 (regs_from gdb_nreg 0 s) t,
)
