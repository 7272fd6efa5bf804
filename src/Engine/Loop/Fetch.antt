-- ===== src/Engine/Loop/Fetch.antt =====
-- What `RiscvEmulatorLoop` reads as an instruction, where the code window holds it.
use purv.Base.{
  ℕ, ◌+◌, ◌≤◌, ◌≡◌, ◌⊎◌, inl, inr, true, false, some, u16, bit_or, ◌<<<◌, arith, Bool-cases,
}
use purv.Engine.{Region, State}
use purv.Engine.Memory.{read16}
use purv.Engine.Decode.{Decoded}
use purv.Engine.Decode.Wide.{decode32}
use purv.Engine.Decode.Compressed.{decode16}
use purv.Base.Bits.{bit_or-lt}
use purv.Engine.Decode.Shape.{
  width-decode16, width-decode32, IsSane, AreWords, IsSane-own, decode16-IsSane, decode32-IsSane,
}
use purv.Engine.Loop.{is_wide, half_at, fetch}
use purv.Engine.Loop.Reference.{fetchable}

-- A half word below the end of the window is there.
half_at-some :
    (w : Region) (host : ℕ → ℕ) (off : ℕ)
    → off + 2 ≤ w.len
    → half_at w host off ≡ some (u16 (read16 host (w.ptr + off)))
unfolding half_at
half_at-some w host off h = ground arith

-- A fetch that starts inside the window and does not run past its end.
pub record Fetched (w : Region) (s : State) (pc : ℕ) : Type 0 where
  pub d : Decoded
  pub is : fetch w s pc ≡ some d
  pub width : (d.width ≡ 2) ⊎ (d.width ≡ 4)
  pub inside : pc + d.width ≤ w.len
  pub sane : AreWords s → IsSane d.width d

module _ (w : Region) (s : State) (pc : ℕ) where
  lo : ℕ
  lo = u16 (read16 s.host (w.ptr + pc))

  narrow_fetch : is_wide lo ≡ false → pc + 2 ≤ w.len → Fetched w s pc
  unfolding fetch lo
  narrow_fetch narrow h = record {
    d = decode16 s lo;
    is = ground (arith, half_at-some w s.host pc h);
    width = inl (width-decode16 s lo);
    inside = omega (arith, width-decode16 s lo);
    sane = λ words. IsSane-own (decode16-IsSane s words lo);
  }

  wide_fetch : is_wide lo ≡ true → pc + 4 ≤ w.len → Fetched w s pc
  unfolding fetch lo
  wide_fetch wide h =
      let hi = u16 (read16 s.host (w.ptr + (pc + 2))) in
      record {
        d = decode32 s (bit_or lo (hi <<< 16));
        is = ground (
          arith,
          half_at-some w s.host pc (omega arith),
          half_at-some w s.host (pc + 2) (omega arith),
        );
        width = inr (width-decode32 s (bit_or lo (hi <<< 16)));
        inside = omega (arith, width-decode32 s (bit_or lo (hi <<< 16)));
        sane = λ words. IsSane-own (
            decode32-IsSane s words (bit_or lo (hi <<< 16))
              (bit_or-lt 32 lo (hi <<< 16) (omega arith) (omega arith)));
      }

  -- What the check before a single instruction is good for.
  pub fetchable-Fetched : fetchable w s.host pc ≡ true → Fetched w s pc
  unfolding fetchable lo
  fetchable-Fetched h = elim (Bool-cases (is_wide lo)) [
    | inl wide ↦ wide_fetch wide (ground arith)
    | inr narrow ↦ narrow_fetch narrow (ground arith)
  ]
