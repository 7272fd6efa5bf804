-- ===== src/Purva/Transcode/Passes.antt =====
-- emu/purva/transcode.c: the unit at an offset, and the two passes.
pub mod Spared
pub mod Runs
pub mod Words
pub mod Units
pub mod Steps
pub mod Sweep
use purv.Base.{
  ℕ, zero, suc, ◌+◌, ◌*◌, ◌/◌, ◌%◌, ◌^◌, Bool, not, ◌&&◌, ◌||◌, Option, none, some, List, [], ltb,
  leb, ◌==◌, if◌then◌else◌, add32, sub32, u16, u32, ◌<<<◌,
}
use purv.Base.Int.{signed, lt_ℤ, neg_ℕ}
use purv.Engine.{update, riscv_half}
use purv.Engine.Memory.{read16}
use purv.Purva.Op
use purv.Purva.Transcode.{DecodedInst, decode, op_words}
use purv.Purva.Transcode.Emit.{tc_sentinel, Ops, emit}
use purv.Purva.Transcode.Targets.{Targets, collect_targets}
use purv.Purva.Transcode.Fuse.{within, try_fuse_prologue, try_fuse_epilogue, try_fuse_la}
use purv.Purva.Transcode.Fuse.Pairs.{try_fuse_pair}

-- The map and the count of op words.
pub record Layout : Type 0 where
  pub map : ℕ → ℕ
  pub at : ℕ

-- `Transcoded`
pub record Transcoded : Type 0 where
  pub ops : ℕ → ℕ
  pub n_ops : ℕ
  pub code_len : ℕ

-- A lone `auipc` of a data address.
unfoldable pub lone_auipc : ℕ → DecodedInst → DecodedInst
lone_auipc off d =
    let val = add32 off (u32 (d.imm <<< 12)) in
    let sh = sub32 val riscv_half in
    if not (d.op == Op.auipc)
    then d
    else if lt_ℤ (signed val) (neg_ℕ 2048) && not (lt_ℤ (signed val) (neg_ℕ (2 ^ 20)))
    then record d { op = Op.li_lo; imm = val % 2 ^ 21 }
    else if within (2 ^ 20) sh
    then record d { op = Op.li_hi; imm = sh % 2 ^ 21 }
    else d

module _ (code : ℕ → ℕ) (len : ℕ) (targets : Targets) where
  -- `step`: the unit at `off`, and the bytes that it consumes.
  unfoldable pub step : ℕ → DecodedInst → DecodedInst × ℕ
  step off d = elim (try_fuse_prologue code len targets off d) [
    | some r ↦ r
    | none ↦ elim (try_fuse_epilogue code len targets off d) [
      | some r ↦ r
      | none ↦ elim (try_fuse_la code len targets off d) [
        | some r ↦ r
        | none ↦ elim (try_fuse_pair code len targets off d) [
          | some r ↦ r
          | none ↦ (lone_auipc off (decode code off), (decode code off).width)
        ]
      ]
    ]
  ]

  -- The test of both loops: `off + 2 <= len`, and the width of the first instruction.
  unfoldable pub at_end : ℕ → Bool
  at_end off =
      let wd = if u16 (read16 code off) % 2 ^ 2 == 3 then 4 else 2 in
      not (leb (add32 off 2) len) || ltb len (add32 off wd)

  -- The loop of `build_map`, on fuel.
  unfoldable pub place_units : ℕ → ℕ → DecodedInst → Layout → Option Layout
  place_units zero off d l = none
  place_units (suc fuel) off d l =
      let (d', wd) = step off d in
      let l' : Layout = record {
        map = update l.map (off / 2) l.at;
        at = add32 l.at (op_words d'.op);
      } in
      let rest = place_units fuel (add32 off wd) d' l' in if at_end off then some l else rest

  -- The second pass, on fuel.
  unfoldable pub emit_units : (ℕ → ℕ) → ℕ → ℕ → DecodedInst → Ops → Option Ops
  emit_units map zero off d o = none
  emit_units map (suc fuel) off d o =
      let (d', wd) = step off d in
      let rest = emit_units map fuel (add32 off wd) d' (emit o d' map len) in
      if at_end off then some o else rest

  -- `build_map`; `d` is the uninitialised local.
  unfoldable pub build_map : DecodedInst → Option Layout
  build_map d = place_units (suc ((len + 3) / 4)) 0 d (record { map = λ i. tc_sentinel; at = 0 })

-- `transcode_map_ex`: the map and the count.
unfoldable pub transcode_map_ex : (ℕ → ℕ) → ℕ → List ℕ → DecodedInst → Option Layout
transcode_map_ex code len ext d = elim (collect_targets code len ext) [
  | none ↦ none
  | some targets ↦ build_map code len targets d
]

-- `transcode_ex`; `fresh` is what `malloc` gives, `d` and `d'` the uninitialised locals of the passes.
unfoldable pub transcode_ex :
    (ℕ → ℕ) → ℕ → List ℕ → DecodedInst → DecodedInst → (ℕ → ℕ) → Option Transcoded
transcode_ex code len ext d d' fresh = elim (collect_targets code len ext) [
  | none ↦ none
  | some targets ↦ elim (build_map code len targets d) [
    | none ↦ none
    | some l ↦
        elim (emit_units code len targets l.map (suc ((len + 3) / 4)) 0 d'
          (record { ops = fresh; at = 0 })) [
            | none ↦ none
            | some o ↦ some (record { ops = o.ops; n_ops = l.at; code_len = u32 (l.at * 4) })
          ]
  ]
]

-- `transcode` and `transcode_map`: without external targets.
unfoldable pub transcode : (ℕ → ℕ) → ℕ → DecodedInst → DecodedInst → (ℕ → ℕ) → Option Transcoded
transcode code len d d' fresh = transcode_ex code len [] d d' fresh

unfoldable pub transcode_map : (ℕ → ℕ) → ℕ → DecodedInst → Option Layout
transcode_map code len d = transcode_map_ex code len [] d
