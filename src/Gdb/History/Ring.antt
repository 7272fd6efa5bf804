-- ===== src/Gdb/History/Ring.antt =====
-- The ring as a list of frames, the newest first.
use purv.Base.{
  ℕ, zero, suc, ◌+◌, ◌-◌, ◌%◌, ◌≤◌, ◌<◌, ◌≡◌, ◌≢◌, refl, sym, ap, ◌∙◌, fun_ext, false, some, List,
  [], ◌∷◌, ◌++◌, length, length-append, ◌==◌, if◌then◌else◌, min, inl, inr, Bool-cases, arith,
}
use mathlib.Core.Path.{ap₂}
use mathlib.Core.List.{append_assoc, append-nil}
use purv.Engine.{State}
use purv.Gdb.History.{
  Overwrite, Frame, History, hist_frames, frame_writes, set_frame, add_write, record_store,
  record_stores, new_frame, begin_frame,
}

-- The `k` frames before position `e`, which the ring keeps modulo its size.
unfoldable pub newest : ℕ → ℕ → (ℕ → Frame) → List Frame
newest zero e ring = []
newest (suc k) e ring = ring ((e - 1) % hist_frames) ∷ newest k (e - 1) ring

abbrev pub frames : History → List Frame
frames hist = newest hist.count (hist.head + hist.count) hist.ring

abbrev pub IsRing : History → Type 0
IsRing hist = (hist.head < hist_frames) × (hist.count ≤ hist_frames)

pub newest-suc :
    (k e : ℕ) (ring : ℕ → Frame)
    → newest (suc k) e ring ≡ ring ((e - 1) % hist_frames) ∷ newest k (e - 1) ring
unfolding newest
newest-suc k e ring = refl

-- The position counts modulo the size only.
newest_mod :
    (k e e' : ℕ) (ring : ℕ → Frame)
    → k ≤ e
    → k ≤ e'
    → e % hist_frames ≡ e' % hist_frames
    → newest k e ring ≡ newest k e' ring
unfolding newest
newest_mod zero e e' ring h h' same = refl
newest_mod (suc k) e e' ring h h' same =
    let before : (e - 1) % hist_frames ≡ (e' - 1) % hist_frames = omega arith in
    rw (before, newest_mod k (e - 1) (e' - 1) ring (omega arith) (omega arith) before)

-- A frame that is written at another place is not seen.
newest-set_frame :
    (k e i d : ℕ) (f : Frame) (ring : ℕ → Frame)
    → i ≡ (e + d) % hist_frames
    → k + d < hist_frames
    → k ≤ e
    → newest k e (set_frame ring i f) ≡ newest k e ring
unfolding newest
newest-set_frame zero e i d f ring at small h = refl
newest-set_frame (suc k) e i d f ring at small h =
    let apart : (e - 1) % hist_frames ≢ i = λ q. omega arith in
    let other : ((e - 1) % hist_frames == i) ≡ false = ground arith in
    rw
      (other, newest-set_frame k (e - 1) i (d + 1) f ring (omega arith) (omega arith) (omega arith))

-- The stores of a step, all put into the frame that is being filled.
abbrev pub add_writes : Frame → List Overwrite → Frame
add_writes f [] = f
add_writes f (w ∷ ws) = add_writes (add_write f w) ws

set_frame_same : (ring : ℕ → Frame) (i : ℕ) → set_frame ring i (ring i) ≡ ring
set_frame_same ring i = fun_ext (λ j. ground arith)

set_frame-set_frame :
    (ring : ℕ → Frame) (i : ℕ) (f g : Frame)
    → set_frame (set_frame ring i f) i g ≡ set_frame ring i g
set_frame-set_frame ring i f g = fun_ext (λ j. ground arith)

record_store_at :
    (hist : History) (i : ℕ) (w : Overwrite)
    → hist.cur ≡ some i
    → record_store hist w ≡ record hist { ring = set_frame hist.ring i (add_write (hist.ring i) w) }
unfolding record_store
record_store_at hist i w e = ground arith

record_stores-add_writes :
    (ws : List Overwrite) (hist : History) (i : ℕ)
    → hist.cur ≡ some i
    → record_stores hist ws
      ≡ record hist { ring = set_frame hist.ring i (add_writes (hist.ring i) ws) }
unfolding record_stores
record_stores-add_writes [] hist i e = rw (set_frame_same hist.ring i)
record_stores-add_writes (w ∷ ws) hist i e =
    let f = add_write (hist.ring i) w in
    let next : History = record hist { ring = set_frame hist.ring i f } in
    let found : set_frame hist.ring i f i ≡ f = ground arith in
    ap (λ (k : History). record_stores k ws) (record_store_at hist i w e)
    ∙ record_stores-add_writes ws next i e
    ∙ ap (λ (g : Frame). record hist { ring = set_frame (set_frame hist.ring i f) i g })
        (ap (λ (g : Frame). add_writes g ws) found)
    ∙ ap (λ (r : ℕ → Frame). record hist { ring = r })
        (set_frame-set_frame hist.ring i f (add_writes f ws))

-- Room for all of them.
abbrev pub AreShort : List Overwrite → Type 0
AreShort [] = Unit {0}
AreShort (w ∷ ws) = (length w.old ≤ 8) × AreShort ws

add_write_fits :
    (f : Frame) (w : Overwrite)
    → length f.writes < frame_writes
    → length w.old ≤ 8
    → add_write f w ≡ record f { writes = f.writes ++ w ∷ [] }
unfolding add_write
add_write_fits f w room short = ground arith

pub add_writes_fit :
    (ws : List Overwrite) (f : Frame)
    → length f.writes + length ws ≤ frame_writes
    → AreShort ws
    → add_writes f ws ≡ record f { writes = f.writes ++ ws }
add_writes_fit [] f room short =
    ap (λ (l : List Overwrite). record f { writes = l }) (sym (append-nil f.writes))
add_writes_fit (w ∷ ws) f room short =
    let g : Frame = record f { writes = f.writes ++ w ∷ [] } in
    ap (λ (k : Frame). add_writes k ws) (add_write_fits f w (omega arith) short.0)
    ∙ add_writes_fit ws g (omega (arith, length-append f.writes (w ∷ []))) short.1
    ∙ ap (λ (l : List Overwrite). record f { writes = l }) (append_assoc f.writes (w ∷ []) ws)

-- The frame of a step, filled.
abbrev pub filled : State → List Overwrite → Frame
filled s ws = add_writes (new_frame s) ws

newest_push :
    (k e e' i : ℕ) (f : Frame) (ring : ℕ → Frame)
    → k < hist_frames
    → k ≤ e
    → k < e'
    → i ≡ e % hist_frames
    → (e' - 1) % hist_frames ≡ e % hist_frames
    → newest (suc k) e' (set_frame ring i f) ≡ f ∷ newest k e ring
newest_push k e e' i f ring small h h' at same =
    let found : set_frame ring i f ((e' - 1) % hist_frames) ≡ f = ground arith in
    newest-suc k e' (set_frame ring i f)
    ∙ ap₂ ◌∷◌ found (
        newest_mod k (e' - 1) e (set_frame ring i f) (omega arith) h same
        ∙ newest-set_frame k e i 0 f ring (at ∙ omega arith) (omega arith) h)

-- The ring with a frame taken and filled.
abbrev pub pushed : History → Frame → History
pushed hist f =
    let slot = (hist.head + hist.count) % hist_frames in
    let full = hist.count == hist_frames in
    record hist {
      ring = set_frame hist.ring slot f;
      head = if full then (hist.head + 1) % hist_frames else hist.head;
      count = if full then hist.count else hist.count + 1;
      cur = some slot;
    }

pub begin_frame-pushed :
    (hist : History) (s : State) (ws : List Overwrite)
    → record_stores (begin_frame hist s) ws ≡ pushed hist (filled s ws)
unfolding begin_frame
begin_frame-pushed hist s ws =
    let slot = (hist.head + hist.count) % hist_frames in
    let f = new_frame s in
    let found : set_frame hist.ring slot f slot ≡ f = ground arith in
    record_stores-add_writes ws (pushed hist f) slot refl
    ∙ ap (λ (r : ℕ → Frame). record (pushed hist f) { ring = r })
        (ap (λ (g : Frame). set_frame (set_frame hist.ring slot f) slot (add_writes g ws)) found
          ∙ set_frame-set_frame hist.ring slot f (filled s ws))

pub newest-pushed :
    (n : ℕ) (hist : History) (f : Frame)
    → IsRing hist
    → n < hist_frames
    → n ≤ hist.count
    → newest (suc n) ((pushed hist f).head + (pushed hist f).count) (pushed hist f).ring
      ≡ f ∷ newest n (hist.head + hist.count) hist.ring
newest-pushed n hist f r small old = elim (Bool-cases (hist.count == hist_frames)) [
  | inl full ↦
      let all : hist.count ≡ hist_frames = ground arith in
      rw full (
        newest_push n end ((hist.head + 1) % hist_frames + hist.count) slot f hist.ring small
          (omega arith) (omega arith) refl (omega arith))
  | inr room ↦
      let some_left : hist.count ≢ hist_frames = ground arith in
      rw room (
        newest_push n end (hist.head + (hist.count + 1)) slot f hist.ring small (omega arith)
          (omega arith) refl (omega arith))
]
  where
    end : ℕ
    end = hist.head + hist.count

    slot : ℕ
    slot = end % hist_frames

pub IsRing-pushed :
    (hist : History) (f : Frame)
    → IsRing hist
    → IsRing (pushed hist f) × ((pushed hist f).count ≡ min (hist.count + 1) hist_frames)
IsRing-pushed hist f r = (ground arith, ground arith)

-- A step's frame becomes the newest; all the others stay, but for the oldest of a full ring.
pub frames-begin_frame :
    (hist : History) (s : State) (ws : List Overwrite)
    → IsRing hist
    → let hist' = record_stores (begin_frame hist s) ws in
      let kept = min hist.count (hist_frames - 1) in
      (frames hist' ≡ filled s ws ∷ newest kept (hist.head + hist.count) hist.ring) × IsRing hist'
frames-begin_frame hist s ws r =
    let f = filled s ws in
    let kept = min hist.count (hist_frames - 1) in
    let p = pushed hist f in
    let grown : p.count ≡ suc kept = (IsRing-pushed hist f r).1 ∙ omega arith in
    rw (begin_frame-pushed hist s ws) (
      ap (λ (k : ℕ). newest k (p.head + p.count) p.ring) grown
          ∙ newest-pushed kept hist f r (omega arith) (omega arith),
      (IsRing-pushed hist f r).0,
    )
