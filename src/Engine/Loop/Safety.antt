-- ===== src/Engine/Loop/Safety.antt =====
-- What every run of `RiscvEmulatorLoop` guarantees: it ends and says why, it keeps the machine's
-- registers and memory well formed, and it writes to nothing but the writable region.
use purv.Base.{ℕ, suc, ◌+◌, ◌*◌, ◌≤◌, ◌<◌, ◌^◌, ◌≡◌, refl, ap, ◌∙◌, ◌⊎◌, true, some, arith, ◌<<<◌}
use purv.Engine.{Region, State, Handlers, wr}
use purv.Engine.Memory.{mem_xlate, write8, write16, write32}
use purv.Engine.Memory.Bounds.{
  mem_xlate_write_bounds, write8_outside, write16_outside, write32_outside,
}
use purv.Engine.Decode.{Decoded}
use purv.Engine.Exec.Ranges.{load_value-lt}
use purv.Engine.Exec.Bodies.{store_at}
use purv.Engine.Exec.Keeps.{Respects, Stable}
use purv.Engine.Loop.{Exit, run, loop, leave}
use purv.Engine.Loop.Reference.{step_by_step}
use purv.Engine.Loop.Windows.{run-steps, loop-eq-step_by_step}
use purv.Engine.Loop.Invariant.{Ended, step_by_step-Ended, step_by_step-keeps}

-- x0 reads as zero, registers are 32-bit words, and host memory holds bytes.
pub record IsWellFormed (s : State) : Type 0 where
  pub zero_reg : s.x 0 ≡ 0
  pub words : (i : ℕ) → s.x i < 2 ^ 32
  pub bytes : (p : ℕ) → s.host p < 256

module _ (s : State) (k : IsWellFormed s) where
  pub wr-IsWellFormed : (i v : ℕ) → v < 2 ^ 32 → IsWellFormed (wr s i v)
  unfolding wr
  wr-IsWellFormed i v lt = record {
    zero_reg = ground (arith, k.zero_reg);
    words = λ j. ground (arith, k.words j);
    bytes = λ p. ground (arith, k.bytes p);
  }

  store_at-IsWellFormed : (p : ℕ) (d : Decoded) → IsWellFormed (store_at s p d)
  unfolding store_at write8 write16 write32
  store_at-IsWellFormed p d = record {
    zero_reg = k.zero_reg;
    words = k.words;
    bytes = λ q. ground (arith, k.bytes q);
  }

IsWellFormed-Stable : Stable IsWellFormed
IsWellFormed-Stable = record {
  note = λ s pc inst k. record { zero_reg = k.zero_reg; words = k.words; bytes = k.bytes };
  write = λ s i v lt word k. wr-IsWellFormed s k i v word;
  loads = λ s i p f3 lt k. wr-IsWellFormed s k i _ (load_value-lt s.host k.bytes p f3);
  stores = λ s addr p d narrow e k. store_at-IsWellFormed s k p d;
}

-- Beside that: the regions stay, and so does every byte outside the storage of the writable one.
pub record Confined (s₀ s : State) : Type 0 where
  pub formed : IsWellFormed s
  pub same_readonly : s.readonly ≡ s₀.readonly
  pub same_writable : s.writable ≡ s₀.writable
  pub outside :
      (p : ℕ)
      → (p < s₀.writable.ptr) ⊎ (s₀.writable.ptr + s₀.writable.len ≤ p)
      → s.host p ≡ s₀.host p

module _ (s₀ : State) where
  pub wr-Confined : (s : State) (i v : ℕ) → v < 2 ^ 32 → Confined s₀ s → Confined s₀ (wr s i v)
  wr-Confined s i v lt c = record {
    formed = wr-IsWellFormed s c.formed i v lt;
    same_readonly = unfold wr in ground (arith, c.same_readonly);
    same_writable = unfold wr in ground (arith, c.same_writable);
    outside = λ p far. unfold wr in ground (arith, c.outside p far);
  }

  f3_cases : (f3 : ℕ) → f3 < 3 → (f3 ≡ 0) ⊎ (f3 ≡ 1) ⊎ (f3 ≡ 2)
  f3_cases f3 h = ground arith

  store_at_far :
      (s : State) (addr p q : ℕ) (d : Decoded)
      → d.f3 < 3
      → mem_xlate s addr (1 <<< d.f3) true ≡ some p
      → (q < s.writable.ptr) ⊎ (s.writable.ptr + s.writable.len ≤ q)
      → (store_at s p d).host q ≡ s.host q
  unfolding store_at
  store_at_far s addr p q d narrow e far = by_width (f3_cases d.f3 narrow)
    where
      by_width : (d.f3 ≡ 0) ⊎ (d.f3 ≡ 1) ⊎ (d.f3 ≡ 2) → (store_at s p d).host q ≡ s.host q
      by_width c = ground (
        arith,
        c,
        mem_xlate_write_bounds s addr (1 <<< d.f3) p e,
        ap (λ (t : ℕ). 1 * 2 ^ t) {x = d.f3} {y = 0},
        ap (λ (t : ℕ). 1 * 2 ^ t) {x = d.f3} {y = 1},
        ap (λ (t : ℕ). 1 * 2 ^ t) {x = d.f3} {y = 2},
        write8_outside s.host p d.b q,
        write16_outside s.host p d.b q,
        write32_outside s.host p d.b q,
      )

  store_at-Confined :
      (s : State) (addr p : ℕ) (d : Decoded)
      → d.f3 < 3
      → mem_xlate s addr (1 <<< d.f3) true ≡ some p
      → Confined s₀ s
      → Confined s₀ (store_at s p d)
  unfolding store_at
  store_at-Confined s addr p d narrow e c = record {
    formed = store_at-IsWellFormed s c.formed p d;
    same_readonly = c.same_readonly;
    same_writable = c.same_writable;
    outside =
        λ q far. store_at_far s addr p q d narrow e (rw c.same_writable far) ∙ c.outside q far;
  }

  Confined-Stable : Stable (Confined s₀)
  Confined-Stable = record {
    note = λ s pc inst c. record {
      formed = record {
        zero_reg = c.formed.zero_reg;
        words = c.formed.words;
        bytes = c.formed.bytes;
      };
      same_readonly = c.same_readonly;
      same_writable = c.same_writable;
      outside = c.outside;
    };
    write = λ s i v lt word c. wr-Confined s i v word c;
    loads = λ s i p f3 lt c. wr-Confined s i _ (load_value-lt s.host c.formed.bytes p f3) c;
    stores = λ s addr p d narrow e c. store_at-Confined s addr p d narrow e c;
  }

-- `RiscvEmulatorLoop` returns, with fuel for one more round than its budget; it never fetches
-- outside the code window, and it ends because a handler stopped it, or the default where there is no
-- handler, the budget is used up, or the window holds no whole instruction at pc. The code length is a
-- 32-bit number.
pub run_ends :
    (h : Handlers) (w : Region) (max pc : ℕ) (s : State)
    → w.len < 2 ^ 32
    → (e : Exit) × (run w h (suc max) max pc s ≡ some e) × Ended w max e
run_ends h w max pc s small = (
  step_by_step w h max pc s,
  run-steps w h small (suc max) max pc s (omega arith),
  step_by_step-Ended w h max pc s,
)

module _ (h : Handlers) (s : State) (max : ℕ) (small : s.readonly.len < 2 ^ 32)
    (pc_in : s.pc < 2 ^ 32) where
  final : Exit
  final = step_by_step s.readonly h max s.pc s

  -- If the hooks keep the machine well formed, so does a whole run: it leaves x0 at zero, 32-bit
  -- registers and pc, and a count of at most `max`.
  pub loop-IsWellFormed :
      Respects IsWellFormed h
      → IsWellFormed s
      → (s' : State) × (k : ℕ) × (loop h s max ≡ some (s', k))
        × IsWellFormed s'
        × (s'.pc < 2 ^ 32)
        × (k ≤ max)
  unfolding final
  loop-IsWellFormed r k =
      let good =
        step_by_step-keeps s.readonly h IsWellFormed (λ s k. k.words) r IsWellFormed-Stable max s.pc
          s pc_in k in
      let formed = good.1 in
      (
        (leave max final).0,
        (leave max final).1,
        loop-eq-step_by_step h s max small,
        record { zero_reg = formed.zero_reg; words = formed.words; bytes = formed.bytes },
        good.0,
        omega arith,
      )

  -- If the hooks change nothing of the host's memory outside the writable region, nor the regions, and
  -- keep the machine well formed, then neither does a whole run from a well-formed machine change any
  -- of it: no store of the guest reaches any other byte.
  pub loop-Confined :
      Respects (Confined s) h
      → IsWellFormed s
      → (s' : State) × (k : ℕ) × (loop h s max ≡ some (s', k)) × Confined s s'
  unfolding final
  loop-Confined r k =
      let start : Confined s s = record {
        formed = k;
        same_readonly = refl;
        same_writable = refl;
        outside = λ p far. refl;
      } in
      let good =
        step_by_step-keeps s.readonly h (Confined s) (λ s c. c.formed.words) r (Confined-Stable s)
          max s.pc s pc_in start in
      let c = good.1 in
      (
        (leave max final).0,
        (leave max final).1,
        loop-eq-step_by_step h s max small,
        record {
          formed = record {
            zero_reg = c.formed.zero_reg;
            words = c.formed.words;
            bytes = c.formed.bytes;
          };
          same_readonly = c.same_readonly;
          same_writable = c.same_writable;
          outside = c.outside;
        },
      )
