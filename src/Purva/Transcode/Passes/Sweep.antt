-- ===== src/Purva/Transcode/Passes/Sweep.antt =====
-- The two passes sweep the code alike.
use purv.Base.{
  ℕ, zero, suc, ◌+◌, ◌*◌, ◌/◌, ◌%◌, ◌^◌, ◌≤◌, ◌<◌, ◌≡◌, ◌⊎◌, refl, ap, sym, ◌∙◌, true, false, inl,
  inr, some, ltb, ◌==◌, if◌then◌else◌, Bool-cases, ltb→lt, ltb-false→le, add32, arith,
}
use mathlib.Core.Path.{subst}
use purv.Engine.{update}
use purv.Purva.Op
use purv.Purva.Transcode.{DecodedInst, op_words}
use purv.Purva.Transcode.Targets.{Targets}
use purv.Purva.Transcode.Emit.{Ops, emit, first_word, displacement}
use purv.Purva.Transcode.Passes.{step, at_end, place_units, emit_units, Layout}
use purv.Purva.Transcode.Passes.Units.{IsUnit}
use purv.Purva.Transcode.Passes.Steps.{step-IsUnit, step_stale}

-- Emission takes as many words as the first pass set aside, keeps the words before, and puts the
-- first word of the unit where the unit begins.
at-emit :
    (o : Ops) (d : DecodedInst) (map : ℕ → ℕ) (len : ℕ)
    → o.at + 2 < 2 ^ 32
    → (emit o d map len).at ≡ o.at + op_words d.op
unfolding emit op_words
at-emit o d map len h = ground arith

ops-emit_below :
    (o : Ops) (d : DecodedInst) (map : ℕ → ℕ) (len i : ℕ)
    → o.at + 2 < 2 ^ 32
    → i < o.at
    → (emit o d map len).ops i ≡ o.ops i
unfolding emit
ops-emit_below o d map len i h lt = ground arith

ops-emit_at :
    (o : Ops) (d : DecodedInst) (map : ℕ → ℕ) (len : ℕ)
    → o.at + 2 < 2 ^ 32
    → (d.op == Op.nop) ≡ false
    → (emit o d map len).ops o.at ≡ first_word d (displacement map len d.target o.at)
unfolding emit
ops-emit_at o d map len h e = ground arith

words_of_visible : (op : ℕ) → (op == Op.nop) ≡ false → 1 ≤ op_words op
unfolding op_words
words_of_visible op e = ground arith

module _ (code : ℕ → ℕ) (len : ℕ) (targets : Targets) where
  abbrev unit_width : ℕ → DecodedInst → ℕ
  unit_width off d = (step code len targets off d).1

  -- The sweep from `off` in at most `fuel` units comes to `x`; `d` is what the local holds.
  abbrev pub Visits : ℕ → ℕ → DecodedInst → ℕ → Type 0
  Visits zero off d x = ◌≡◌ {A = ℕ} 0 1
  Visits (suc fuel) off d x =
      (at_end code len targets off ≡ false)
      × ((x ≡ off) ⊎ Visits fuel (add32 off (unit_width off d)) (step code len targets off d).0 x)

  pub at_end-lem :
      (off : ℕ)
      → len + 64 ≤ 2 ^ 32
      → len % 4 ≡ 0
      → off % 4 ≡ 0
      → off ≤ len
      → at_end code len targets off ≡ (if ltb off len then false else true)
  unfolding at_end
  at_end-lem off small al al' h = ground arith

  -- The op word of the unit at `x`, where the map has it; `c` is what the local held there.
  abbrev pub IsPlaced : (ℕ → ℕ) → (ℕ → ℕ) → (ℕ → ℕ) → ℕ → Type 0
  IsPlaced map final ops x =
      (c : DecodedInst) × (4 * final (x / 2) ≤ x)
      × (((step code len targets x c).0.op == Op.nop) ≡ false
          → ops (final (x / 2))
            ≡ first_word (step code len targets x c).0
                (displacement map len (step code len targets x c).0.target (final (x / 2))))

  -- What both passes do from `off` on.
  pub record Swept (map : ℕ → ℕ) (fuel off : ℕ) (d e : DecodedInst) (l : Layout) (o : Ops)
      : Type 0 where
    pub layout : Layout
    pub ops : Ops
    pub placed : place_units code len targets fuel off d l ≡ some layout
    pub emitted : emit_units code len targets map fuel off e o ≡ some ops
    pub agree : layout.at ≡ ops.at
    pub size : 4 * layout.at ≤ len
    pub map_below : (i : ℕ) → i < off / 2 → layout.map i ≡ l.map i
    pub ops_below : (i : ℕ) → i < o.at → ops.ops i ≡ o.ops i
    pub units : (x : ℕ) → Visits fuel off d x → IsPlaced map layout.map ops.ops x

  module _ (small : len + 64 ≤ 2 ^ 32) (al : len % 4 ≡ 0) (map : ℕ → ℕ) where
    Swept-end :
        (fuel off : ℕ) (d e : DecodedInst) (l : Layout) (o : Ops)
        → at_end code len targets off ≡ true
        → l.at ≡ o.at
        → 4 * l.at ≤ len
        → Swept map (suc fuel) off d e l o
    unfolding place_units emit_units
    Swept-end fuel off d e l o end same size = record {
      layout = l;
      ops = o;
      placed = rw end;
      emitted = rw end;
      agree = same;
      size = size;
      map_below = λ i h. refl;
      ops_below = λ i h. refl;
      units = λ x v. absurd (ground (arith, v.0));
    }

    -- One unit, and the rest of the sweep.
    module _ (fuel off : ℕ) (d e : DecodedInst) (l : Layout) (o : Ops)
        (more : at_end code len targets off ≡ false) (same : l.at ≡ o.at) (fits : 4 * l.at ≤ off)
        (inside : off + 4 ≤ len) (whole : off % 4 ≡ 0) where
      abbrev d' : DecodedInst
      d' = (step code len targets off d).0

      abbrev wd : ℕ
      wd = (step code len targets off d).1

      abbrev e' : DecodedInst
      e' = (step code len targets off e).0

      abbrev l1 : Layout
      l1 = record { map = update l.map (off / 2) l.at; at = add32 l.at (op_words d'.op) }

      abbrev o1 : Ops
      o1 = emit o e' map len

      unit : IsUnit len targets off d'.op wd
      unit = step-IsUnit code len targets off d small inside whole

      same_op : d'.op ≡ e'.op
      same_op = ap (λ (p : ℕ × ℕ). p.0) (step_stale code len targets off d e)

      same_width : (step code len targets off e).1 ≡ wd
      same_width = ap (λ (p : ℕ × ℕ). p.1) (step_stale code len targets off e d)

      -- Where the next unit is, and its first op word.
      next : add32 off wd ≡ off + wd
      next = omega (arith, unit.interior.inside)

      next_place : l1.at ≡ l.at + op_words d'.op
      next_place = omega (arith, unit.words, unit.interior.inside)

      next_emit : o1.at ≡ o.at + op_words d'.op
      next_emit =
          at-emit o e' map len (omega arith)
          ∙ ap (λ (t : ℕ). o.at + op_words t) {x = e'.op} {y = d'.op} (sym same_op)

      module _ (rest : Swept map fuel (add32 off wd) d' e' l1 o1) where
        map_here : rest.layout.map (off / 2) ≡ l.at
        map_here = rest.map_below (off / 2) (omega (arith, next, unit.progress)) ∙ ground arith

        op_here :
            (e'.op == Op.nop) ≡ false
            → rest.ops.ops (rest.layout.map (off / 2))
              ≡ first_word e' (displacement map len e'.target (rest.layout.map (off / 2)))
        op_here visible =
            let place : rest.layout.map (off / 2) ≡ o.at = map_here ∙ same in
            let one : 1 ≤ op_words d'.op = words_of_visible d'.op (rw same_op visible) in
            rw place (
              rest.ops_below o.at (omega (arith, next_emit, one))
              ∙ ops-emit_at o e' map len (omega arith) visible)

        unit_here : IsPlaced map rest.layout.map rest.ops.ops off
        unit_here = (e, omega (arith, map_here), op_here)

        Swept-unit : Swept map (suc fuel) off d e l o
        unfolding place_units emit_units
        Swept-unit = record {
          layout = rest.layout;
          ops = rest.ops;
          placed = rw more (rest.placed);
          emitted = rw more (
              ap (λ (t : ℕ). emit_units code len targets map fuel (add32 off t) e' o1) same_width
              ∙ rest.emitted);
          agree = rest.agree;
          size = rest.size;
          map_below = λ i h. rest.map_below i (omega (arith, next)) ∙ ground arith;
          ops_below = λ i h.
              rest.ops_below i (omega (arith, next_emit))
              ∙ ops-emit_below o e' map len i (omega arith) h;
          units = λ x v. elim (v.1) [
            | inl here ↦ subst (IsPlaced map rest.layout.map rest.ops.ops) (sym here) unit_here
            | inr later ↦ rest.units x later
          ];
        }

    -- Both passes come to the end of the code, if the fuel is more than the instructions left.
    pub sweep :
        (fuel off : ℕ) (d e : DecodedInst) (l : Layout) (o : Ops)
        → off % 4 ≡ 0
        → off ≤ len
        → len / 4 < fuel + off / 4
        → l.at ≡ o.at
        → 4 * l.at ≤ off
        → Swept map fuel off d e l o
    sweep zero off d e l o whole h enough same fits = absurd (omega arith)
    sweep (suc fuel) off d e l o whole h enough same fits = elim (Bool-cases (ltb off len)) [
      | inl inside ↦
          let more : at_end code len targets off ≡ false =
            at_end-lem off small al whole h ∙ rw inside in
          let here : off + 4 ≤ len = omega (arith, ltb→lt off len inside) in
          let width = wd fuel off d e l o more same fits here whole in
          let start = next fuel off d e l o more same fits here whole in
          let u = unit fuel off d e l o more same fits here whole in
          Swept-unit fuel off d e l o more same fits here whole (
            sweep fuel (add32 off width) (d' fuel off d e l o more same fits here whole)
              (e' fuel off d e l o more same fits here whole)
              (l1 fuel off d e l o more same fits here whole)
              (o1 fuel off d e l o more same fits here whole) (omega (arith, start, u.whole))
              (omega (arith, start, u.interior.inside)) (omega (arith, start, u.progress, u.whole))
              (omega (
                arith,
                next_place fuel off d e l o more same fits here whole,
                next_emit fuel off d e l o more same fits here whole,
              ))
              (omega
                (arith, start, next_place fuel off d e l o more same fits here whole, u.words)))
      | inr end ↦
          Swept-end fuel off d e l o (at_end-lem off small al whole h ∙ rw end) same
            (omega (arith, ltb-false→le off len end))
    ]
