-- ===== src/Gdb/Control/Stops.antt =====
-- Where a reverse run stops, and that it does.
use purv.Base.{
  ℕ, zero, suc, ◌-◌, ◌≤◌, ◌<◌, ◌≡◌, ◌⊎◌, inl, inr, Bool, true, false, not, ◌||◌, some, List,
  Bool-cases, arith,
}
use purv.Engine.{State}
use purv.Gdb.Breakpoints.{bp_hit}
use purv.Gdb.History.{History, step_reverse}
use purv.Gdb.Control.{is_at_start, gdb_reverse}

-- One step back makes the history shorter, unless it is empty.
step_reverse-count :
    (hist : History) (s : State)
    → let (hist', s', r) = step_reverse hist s in
      (hist'.count ≡ hist.count - 1)
      × (((is_at_start r ≡ true) × (hist.count ≡ 0)) ⊎ ((is_at_start r ≡ false) × (0 < hist.count)))
unfolding step_reverse
step_reverse-count hist s = ground arith

-- So many steps back.
abbrev pub rewound : ℕ → History → State → History × State
rewound zero hist s = (hist, s)
rewound (suc k) hist s = let (hist', s', r) = step_reverse hist s in rewound k hist' s'

-- So many steps back, none of which is a place to stop at: the run is to continue, there is a frame for
-- each step, and the state after each is at no breakpoint.
abbrev pub PassesOver : ℕ → Bool → List ℕ → History → State → Type 0
PassesOver zero cont bs hist s = Unit
PassesOver (suc k) cont bs hist s =
    let (hist', s', r) = step_reverse hist s in
    (cont ≡ true) × (0 < hist.count) × (bp_hit bs s'.pc ≡ false) × PassesOver k cont bs hist' s'

-- With more fuel than there are frames `gdb_reverse` returns the state some steps back, at least one
-- and at most one for each frame and one more, and the history without a frame for each of them. It
-- passes over all but the last of them: those are steps of a continue, each with a frame, and none to
-- a breakpoint. The last is where it has to stop: the run is a single step, or the history is used up
-- before it, or the state after it is at a breakpoint.
pub gdb_reverse_stops :
    (fuel : ℕ) (cont : Bool) (bs : List ℕ) (hist : History) (s : State)
    → hist.count < fuel
    → (k : ℕ) × (k ≤ hist.count)
      × (gdb_reverse fuel cont bs hist s ≡ some (rewound (suc k) hist s))
      × ((rewound (suc k) hist s).0.count ≡ hist.count - suc k)
      × PassesOver k cont bs hist s
      × ((cont ≡ false)
          ⊎ ((rewound k hist s).0.count ≡ 0)
          ⊎ (bp_hit bs (rewound (suc k) hist s).1.pc ≡ true))
unfolding gdb_reverse
gdb_reverse_stops zero cont bs hist s h = absurd (omega arith)
gdb_reverse_stops (suc fuel) cont bs hist s h =
    let (hist', s', r) = step_reverse hist s in
    let back = step_reverse-count hist s in
    elim (Bool-cases (is_at_start r || (not cont || bp_hit bs s'.pc))) [
      | inl stop ↦ (0, omega arith, rw stop, back.0, tt, ground (arith, back))
      | inr more ↦
          let frames : 0 < hist.count = ground (arith, back) in
          let (k, few, e, count, passed, why) =
            gdb_reverse_stops fuel cont bs hist' s' (omega (arith, back.0)) in
          let going : cont ≡ true = ground arith in
          let clear : bp_hit bs s'.pc ≡ false = ground arith in
          (
            suc k,
            omega (arith, back.0),
            rw more e,
            omega (arith, back.0, count),
            (going, frames, clear, passed),
            why,
          )
    ]
