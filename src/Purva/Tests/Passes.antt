-- ===== src/Purva/Tests/Passes.antt =====
-- Runs of the transcoder's passes, and their theorems at concrete inputs.
use purv.Base.{
  ℕ, zero, suc, ◌+◌, ◌*◌, ◌/◌, ◌%◌, ◌^◌, ◌≤◌, ◌≡◌, ◌⊎◌, inr, refl, Option, none, some, List, [],
  ◌∷◌, arith,
}
use purv.Engine.Memory.{read16, read32}
use purv.Engine.Decode.Fields.{sext, imm_i, imm_b, bits_b}
use purv.Engine.Decode.Encode.{reg, shift, ld, br, encode}
use purv.Purva.Op
use purv.Purva.Transcode.{
  DecodedInst, decode, decode_word, decode_switch, drop_x0, opimm_case, op_op, load_op, branch_op,
  word_fields, op_words,
}
use purv.Purva.Transcode.Targets.{
  Targets, targets_has, targets_new, targets_mark, direct_targets, mark_all, collect_targets,
}
use purv.Purva.Transcode.Fuse.{
  try_fuse_prologue, try_fuse_epilogue, try_fuse_la, saves_from, restores_from, rank_of,
}
use purv.Purva.Transcode.Fuse.Pairs.{try_fuse_pair, pair_op}
use purv.Purva.Transcode.Emit.{emit, first_word, displacement, target_word}
use purv.Purva.Transcode.Passes.{
  step, at_end, lone_auipc, Layout, Transcoded, transcode_ex, transcode_map_ex, emit_units,
  build_map, place_units,
}
use purv.Purva.Transcode.Layout.{transcode_ex-layout, no_ops}
use purv.Purva.Transcode.Contract.{target_keeps_op, direct_target_resolves}
use purv.Purva.Tests.{junk, fresh}

-- The bytes of a word, lowest first.
abbrev word_bytes : List ℕ → List ℕ
word_bytes [] = []
word_bytes (w ∷ ws) =
    (w % 256) ∷ (w / 256 % 256) ∷ (w / 2 ^ 16 % 256) ∷ (w / 2 ^ 24 % 256) ∷ word_bytes ws

abbrev byte_of : List ℕ → ℕ → ℕ
byte_of [] i = 0
byte_of (b ∷ bs) zero = b
byte_of (b ∷ bs) (suc i) = byte_of bs i

-- slli x5, x6, 2; add x5, x7, x5; beq x5, x0, -4; lw x8, 4(x5)
abbrev code : ℕ → ℕ
code = byte_of (
    word_bytes (
      encode (shift 0 1 5 6 2)
      ∷ encode (reg 0 0 5 7 5)
      ∷ encode (br 0 5 0 0x1ffc)
      ∷ encode (ld 2 8 5 4)
      ∷ []))

-- What a test looks at: the count of op words and the words themselves.
abbrev words : Option Transcoded → List ℕ
words none = []
words (some t) = t.n_ops ∷ t.ops 0 ∷ t.ops 1 ∷ t.ops 2 ∷ t.ops 3 ∷ []

-- The branch goes to the `add`, so the pair before it stays two ops.
transcoded :
    words (transcode_ex code 16 [] junk junk fresh)
    ≡ 4
      ∷ (11 * 2 ^ 26 + 5 * 2 ^ 21 + 6 * 2 ^ 16 + 2)
      ∷ (5 * 2 ^ 21 + 7 * 2 ^ 16 + 5 * 2 ^ 11)
      ∷ (35 * 2 ^ 26 + 5 * 2 ^ 21 + 0xfffc)
      ∷ (29 * 2 ^ 26 + 8 * 2 ^ 21 + 5 * 2 ^ 16 + 4)
      ∷ []
unfolding transcode_ex collect_targets direct_targets targets_new targets_mark targets_has mark_all
    build_map place_units emit_units emit first_word displacement target_word step at_end lone_auipc
    op_words decode decode_word decode_switch drop_x0 opimm_case op_op load_op branch_op word_fields
    read16 read32 imm_i imm_b bits_b sext try_fuse_prologue try_fuse_epilogue try_fuse_la
    try_fuse_pair pair_op saves_from restores_from rank_of
transcoded = refl

transcode_ex-layout_example :
    (t : Transcoded) × (l : Layout) × (targets : Targets) × (transcode_ex code 16
        (8 ∷ [])
        junk
        junk
        fresh
      ≡ some t)
    × (transcode_map_ex code 16 (8 ∷ []) junk ≡ some l)
    × (collect_targets code 16 (8 ∷ []) ≡ some targets)
    × (emit_units code 16 targets l.map 5 0 junk (no_ops fresh)
        ≡ some (record { ops = t.ops; at = t.n_ops }))
    × (t.n_ops ≡ l.at)
    × (t.code_len ≡ 4 * t.n_ops)
    × (4 * t.n_ops ≤ 16)
transcode_ex-layout_example =
    transcode_ex-layout code 16 (8 ∷ []) junk junk junk fresh (omega arith) (omega arith)

-- The second instruction of a pair, as an address from outside.
target_keeps_op_example :
    (targets : Targets) × (collect_targets code 16 (4 ∷ []) ≡ some targets)
    × (t : Transcoded) × (l : Layout) × (c : DecodedInst) × (transcode_ex code 16
          (4 ∷ [])
          junk
          junk
          fresh
        ≡ some t)
    × (transcode_map_ex code 16 (4 ∷ []) junk ≡ some l)
    × (4 * l.map 2 ≤ 4)
    × (((step code 16 targets 4 junk).0.op ≡ Op.nop)
        ⊎ (t.ops (l.map 2)
            ≡ first_word
                (step code 16 targets 4 c).0
                (displacement l.map 16 (step code 16 targets 4 c).0.target (l.map 2))))
target_keeps_op_example =
    target_keeps_op code 16 (4 ∷ []) junk junk junk fresh 4 (omega arith) (omega arith)
      (inr ([], [], refl)) (omega arith) (omega arith)

direct_target_resolves_example :
    (l : Layout) × (transcode_map_ex code 16 [] junk ≡ some l)
    × (4 * l.map ((decode code 8).target / 2) ≤ (decode code 8).target)
    × (target_word l.map 16 (decode code 8).target 3 ≡ l.map ((decode code 8).target / 2))
unfolding decode decode_word decode_switch drop_x0 branch_op word_fields read32 imm_b bits_b sext
direct_target_resolves_example =
    direct_target_resolves code 16 [] junk 8 3 (omega arith) (omega arith) (omega arith)
      (omega arith) refl (omega arith) (omega arith)
