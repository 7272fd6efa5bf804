-- ===== src/Gdb/History/Rewind.antt =====
-- Steps that were recorded are undone, one by one.
use purv.Base.{
  ℕ, zero, suc, ◌+◌, ◌-◌, ◌%◌, ◌^◌, ◌≤◌, ◌<◌, ◌≡◌, refl, sym, ap, ◌∙◌, Bool, true, false, Option,
  none, some, List, ◌∷◌, length, ◌==◌, if◌then◌else◌, min, arith,
}
use purv.Engine.{State, Handlers}
use purv.Gdb.History.{
  Overwrite, Frame, History, hist_frames, frame_writes, new_frame, step_one, step_record,
  undo_writes, restore_regs, Reversal, undone, step_reverse,
}
use purv.Gdb.History.Undo.{Logged, undo_writes-Logged, undo_writes-writable}
use purv.Gdb.History.Ring.{
  newest, newest-suc, IsRing, filled, AreShort, add_writes_fit, pushed, begin_frame-pushed,
  newest-pushed, IsRing-pushed,
}

-- What the debugger sees of a state: pc, x1 to x31 and the memory.
pub record Alike (s t : State) : Type 0 where
  pub same_pc : t.pc ≡ s.pc
  pub same_x : (i : ℕ) → 0 < i → i < 32 → t.x i ≡ s.x i
  pub same_host : t.host ≡ s.host
  pub same_writable : t.writable ≡ s.writable

-- A step whose stores the host's hook reports, and that fits into a frame.
pub record IsRecorded (ws : List Overwrite) (s s' : State) : Type 0 where
  pub fixed : s'.writable ≡ s.writable
  pub logged : Logged s.writable s.host ws s'.host
  pub few : length ws ≤ frame_writes
  pub short : AreShort ws

filled_lem :
    (s : State) (ws : List Overwrite)
    → length ws ≤ frame_writes
    → AreShort ws
    → filled s ws ≡ record (new_frame s) { writes = ws }
unfolding new_frame
filled_lem s ws few short = add_writes_fit ws (new_frame s) (omega arith) short

-- One frame undone, from any state that looks like the one after the step.
undo_frame :
    (s s' t : State) (ws : List Overwrite)
    → IsRecorded ws s s'
    → Alike s' t
    → s.writable.len ≤ 2 ^ 32
    → s.writable.base < 2 ^ 32
    → Alike s (restore_regs (record (new_frame s) { writes = ws }) (undo_writes ws t))
unfolding restore_regs new_frame
undo_frame s s' t ws r a small low = record {
  same_pc = refl;
  same_x = λ i pos below. ground arith;
  same_host = undo_writes-Logged r.logged t (a.same_writable ∙ r.fixed) a.same_host small low;
  same_writable = undo_writes-writable ws t ∙ a.same_writable ∙ r.fixed;
}

step_reverse-newest :
    (hist : History) (t : State) (f : Frame) (fs : List Frame) (n : ℕ)
    → n < hist.count
    → newest (suc n) (hist.head + hist.count) hist.ring ≡ f ∷ fs
    → f.overflow ≡ false
    → (step_reverse hist t
        ≡ (record hist { count = hist.count - 1 }, restore_regs f (undo_writes f.writes t), undone))
      × (newest n (hist.head + (hist.count - 1)) hist.ring ≡ fs)
unfolding step_reverse
step_reverse-newest hist t f fs n enough e fine =
    let parts = sym (newest-suc n (hist.head + hist.count) hist.ring) ∙ e in
    let newest_frame : hist.ring ((hist.head + hist.count - 1) % hist_frames) ≡ f = cc parts in
    let others : newest n (hist.head + hist.count - 1) hist.ring ≡ fs = cc parts in
    let nonempty : (hist.count == 0) ≡ false = ground arith in
    (
      rw (nonempty, newest_frame, fine),
      ap (λ (k : ℕ). newest n k hist.ring) {x = hist.head + (hist.count - 1)}
            {y = hist.head + hist.count - 1} (omega arith)
          ∙ others,
    )

-- Inversion of `step_record`.
stepped :
    (o : Option State) (hist' : History) (s' : State) {kept : History}
    → ◌≡◌ {A = Option (History × State)}
        (elim o [ none ↦ none | some u ↦ some (kept, u) ])
        (some (hist', s'))
    → kept ≡ hist'
stepped none hist' s' e = cc
stepped (some u) hist' s' e = cc

taken : (on : Bool) (k hist : History) → on ≡ true → (if on then k else hist) ≡ k
taken on k hist e = rw e

-- `n` steps undone.
pub backward : ℕ → History → State → State
backward zero hist s = s
backward (suc n) hist s = let (hist', s', r) = step_reverse hist s in backward n hist' s'

module _ (h : Handlers) (stores : State → List Overwrite) where
  -- `n` recorded steps, from a history and a state to a history and a state.
  pub data Session (hist : History) (s : State) : ℕ → History → State → Type 0 where
    here : Session hist s 0 hist s
    then_step :
        {n : ℕ} {hist' hist'' : History} {s' s'' : State}
        → Session hist s n hist' s'
        → step_record h stores hist' s' ≡ some (hist'', s'')
        → IsRecorded (stores s') s' s''
        → Session hist s (suc n) hist'' s''

  -- What a session keeps.
  abbrev Kept : State → ℕ → History → State → Type 0
  Kept s n hist' s' =
      IsRing hist'
      × (hist'.allocated ≡ true)
      × (s'.writable ≡ s.writable)
      × (min n hist_frames ≤ hist'.count)

  step_record_lem :
      (hist hist' : History) (s s' : State)
      → hist.allocated ≡ true
      → step_record h stores hist s ≡ some (hist', s')
      → hist' ≡ record (pushed hist (filled s (stores s))) { cur = none }
  unfolding step_record
  step_record_lem hist hist' s s' on e =
      sym (stepped (step_one h s) hist' s' e)
      ∙ taken hist.allocated _ hist on
      ∙ ap (λ (k : History). record k { cur = none }) (begin_frame-pushed hist s (stores s))

  Session-Kept :
      {hist : History} {s : State} {n : ℕ} {hist' : History} {s' : State}
      → Session hist s n hist' s'
      → hist.allocated ≡ true
      → IsRing hist
      → Kept s n hist' s'
  Session-Kept here on r = (r, on, refl, omega arith)
  Session-Kept (then_step {n} {hist'} {hist''} {s'} {s''} before e rec) on r =
      let (ring, on', same, many) = Session-Kept before on r in
      let f = filled s' (stores s') in
      let grown = IsRing-pushed hist' f ring in
      rw (step_record_lem hist' hist'' s' s'' on' e)
        (grown.0, on', rec.fixed ∙ same, omega (arith, grown.1))

  Session-Alike :
      {hist : History} {s : State} {n : ℕ} {hist' : History} {s' : State}
      → Session hist s n hist' s'
      → n ≤ hist_frames
      → hist.allocated ≡ true
      → IsRing hist
      → s.writable.len ≤ 2 ^ 32
      → s.writable.base < 2 ^ 32
      → (ring : History) (t : State) → n ≤ ring.count
      → newest n (ring.head + ring.count) ring.ring ≡ newest n (hist'.head + hist'.count) hist'.ring
      → Alike s' t
      → Alike s (backward n ring t)
  unfolding backward new_frame
  Session-Alike here fits on r small low ring t enough same a = a
  Session-Alike (then_step {n} {hist'} {hist''} {s'} {s''} before e rec) fits on r small low ring t
        enough same a =
      let (r', on', fixed, many) = Session-Kept before on r in
      let ws = stores s' in
      let f : Frame = record (new_frame s') { writes = ws } in
      let taken_frame =
        ap (λ (k : History). newest (suc n) (k.head + k.count) k.ring)
          (step_record_lem hist' hist'' s' s'' on' e)
        ∙ newest-pushed n hist' (filled s' ws) r' (omega arith) (omega arith)
        ∙ ap (λ (g : Frame). g ∷ newest n (hist'.head + hist'.count) hist'.ring)
            (filled_lem s' ws rec.few rec.short) in
      let (reversed, others) =
        step_reverse-newest ring t f (newest n (hist'.head + hist'.count) hist'.ring) n
          (omega arith) (same ∙ taken_frame) refl in
      let earlier = undo_frame s' s'' t ws rec a (rw fixed small) (rw fixed low) in
      rw (ap (λ (q : History × State × Reversal). backward n q.0 q.1) reversed) (
        Session-Alike before (omega arith) on r small low (record ring { count = ring.count - 1 })
          (restore_regs f (undo_writes ws t)) (omega arith) others earlier)

  -- A session of at most as many recorded steps as the ring has frames, each with at most four stores
  -- of at most eight bytes that the host's hook reports, from any history: reversing as many steps
  -- gives the state at the session's beginning back, as far as pc, x1 to x31, the memory and the
  -- writable region go.
  pub backward-Session :
      {hist : History} {s : State} {n : ℕ} {hist' : History} {s' : State}
      → Session hist s n hist' s'
      → n ≤ hist_frames
      → hist.allocated ≡ true
      → IsRing hist
      → s.writable.len ≤ 2 ^ 32
      → s.writable.base < 2 ^ 32
      → Alike s (backward n hist' s')
  backward-Session {hist' = hist'} {s' = s'} session fits on r small low =
      let (r', on', fixed, many) = Session-Kept session on r in
      Session-Alike session fits on r small low hist' s' (omega arith) refl (record {
        same_pc = refl;
        same_x = λ i pos below. refl;
        same_host = refl;
        same_writable = refl;
      })
