-- ===== src/Purva/Transcode/Layout.antt =====
-- The whole transcoder: it ends, and its two passes agree.
use purv.Base.{
  ℕ, zero, suc, ◌+◌, ◌*◌, ◌/◌, ◌%◌, ◌^◌, ◌≤◌, ◌≡◌, refl, ap, sym, ◌∙◌, inl, inr, some, List,
  Bool-cases, add32, u32, arith,
}
use mathlib.Core.Option.{some-injective}
use purv.Engine.{update}
use purv.Purva.Transcode.{DecodedInst, op_words}
use purv.Purva.Transcode.Targets.{Targets, collect_targets}
use purv.Purva.Transcode.Targets.Marks.{collected}
use purv.Purva.Transcode.Emit.{Ops, tc_sentinel}
use purv.Purva.Transcode.Passes.{
  step, at_end, place_units, emit_units, build_map, Layout, Transcoded, transcode_ex,
  transcode_map_ex,
}
use purv.Purva.Transcode.Passes.Steps.{step_stale}
use purv.Purva.Transcode.Passes.Sweep.{Swept, sweep}

-- The map does not depend on what the uninitialised local held.
place_units_stale :
    (code : ℕ → ℕ) (len : ℕ) (targets : Targets) (fuel off : ℕ) (d e : DecodedInst) (l : Layout)
    → place_units code len targets fuel off d l ≡ place_units code len targets fuel off e l
unfolding place_units
place_units_stale code len targets zero off d e l = refl
place_units_stale code len targets (suc fuel) off d e l =
    elim (Bool-cases (at_end code len targets off)) [
      | inl end ↦ rw end
      | inr more ↦
          let unit = step code len targets off d in
          let unit' = step code len targets off e in
          let l' : Layout = record {
            map = update l.map (off / 2) l.at;
            at = add32 l.at (op_words unit.0.op);
          } in
          let next = λ (p : ℕ × ℕ).
            place_units code len targets fuel (add32 off p.1) unit'.0
              (record { map = update l.map (off / 2) l.at; at = add32 l.at (op_words p.0) }) in
          rw more (
            place_units_stale code len targets fuel (add32 off unit.1) unit.0 unit'.0 l'
            ∙ ap next (step_stale code len targets off d e))
    ]

-- Both passes over the whole code.
abbrev pub empty_layout : Layout
empty_layout = record { map = λ i. tc_sentinel; at = 0 }

abbrev pub no_ops : (ℕ → ℕ) → Ops
no_ops fresh = record { ops = fresh; at = 0 }

module _ (code : ℕ → ℕ) (len : ℕ) (d d' : DecodedInst) (fresh : ℕ → ℕ) where
  -- A run of the transcoder with the set of targets `targets`: what the two passes leave.
  pub record Run (targets : Targets) : Type 0 where
    pub map : ℕ → ℕ
    pub swept : Swept code len targets map (suc ((len + 3) / 4)) 0 d d' empty_layout (no_ops fresh)
    pub own : swept.layout.map ≡ map

  pub run : (targets : Targets) → len + 64 ≤ 2 ^ 32 → len % 4 ≡ 0 → Run targets
  run targets small whole =
      let pass = λ (map : ℕ → ℕ).
        sweep code len targets small whole map (suc ((len + 3) / 4)) 0 d d' empty_layout
          (no_ops fresh) (omega arith) (omega arith) (omega arith) refl (omega arith) in
      let map = (pass (λ i. 0)).layout.map in
      let same : some (pass map).layout ≡ some (pass (λ i. 0)).layout =
        sym (pass map).placed ∙ (pass (λ i. 0)).placed in
      record {
        map = map;
        swept = pass map;
        own =
            ap (λ (l : Layout). l.map)
              (some-injective (pass map).layout (pass (λ i. 0)).layout same);
      }

  module _ (ext : List ℕ) (targets : Targets) (found : collect_targets code len ext ≡ some targets)
      (r : Run targets) where
    -- What `transcode_ex` and `transcode_map_ex` return.
    abbrev pub program : Transcoded
    program = record {
      ops = r.swept.ops.ops;
      n_ops = r.swept.layout.at;
      code_len = u32 (r.swept.layout.at * 4);
    }

    -- The second pass with the map of the first.
    pub emit_units-run :
        emit_units code len targets r.swept.layout.map (suc ((len + 3) / 4)) 0 d' (no_ops fresh)
        ≡ some r.swept.ops
    emit_units-run =
        ap (λ (m : ℕ → ℕ). emit_units code len targets m (suc ((len + 3) / 4)) 0 d' (no_ops fresh))
          r.own
        ∙ r.swept.emitted

    pub transcode_ex-run : transcode_ex code len ext d d' fresh ≡ some program
    unfolding transcode_ex build_map
    transcode_ex-run = rw (found, r.swept.placed, emit_units-run, transcode_ex)

    pub transcode_map_ex-run :
        (d0 : DecodedInst) → transcode_map_ex code len ext d0 ≡ some r.swept.layout
    unfolding transcode_map_ex build_map
    transcode_map_ex-run d0 =
        rw (found, transcode_map_ex)
          (place_units_stale code len targets (suc ((len + 3) / 4)) 0 d0 d empty_layout
            ∙ r.swept.placed)

-- For code of whole instructions, up to 64 bytes below the end of the address space, with any external
-- targets, and whatever the uninitialised locals and the fresh memory hold: the transcoder returns a
-- program. The map that `transcode_map_ex` builds of the same code has the same count of op words; the
-- emission with that map writes exactly that many, one after the other from 0; and there are no more
-- of them than instructions.
pub transcode_ex-layout :
    (code : ℕ → ℕ) (len : ℕ) (ext : List ℕ) (d d' d0 : DecodedInst) (fresh : ℕ → ℕ)
    → len + 64 ≤ 2 ^ 32
    → len % 4 ≡ 0
    → (t : Transcoded) × (l : Layout) × (targets : Targets) × (transcode_ex code len ext d d' fresh
        ≡ some t)
      × (transcode_map_ex code len ext d0 ≡ some l)
      × (collect_targets code len ext ≡ some targets)
      × (emit_units code len targets l.map (suc ((len + 3) / 4)) 0 d' (no_ops fresh)
          ≡ some (record { ops = t.ops; at = t.n_ops }))
      × (t.n_ops ≡ l.at)
      × (t.code_len ≡ 4 * t.n_ops)
      × (4 * t.n_ops ≤ len)
transcode_ex-layout code len ext d d' d0 fresh small whole =
    let (targets, found) = collected code len small ext in
    let r = run code len d d' fresh targets small whole in
    (
      program code len d d' fresh ext targets found r,
      r.swept.layout,
      targets,
      transcode_ex-run code len d d' fresh ext targets found r,
      transcode_map_ex-run code len d d' fresh ext targets found r d0,
      found,
      emit_units-run code len d d' fresh ext targets found r
          ∙ ap (λ (a : ℕ). some (record { ops = r.swept.ops.ops; at = a })) (sym r.swept.agree),
      refl,
      omega (arith, r.swept.size),
      r.swept.size,
    )
