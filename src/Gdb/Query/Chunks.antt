-- ===== src/Gdb/Query/Chunks.antt =====
-- A debugger that asks for the target description piece by piece gets it whole.
use purv.Base.{
  ℕ, zero, suc, ◌+◌, ◌-◌, ◌≤◌, ◌<◌, ◌≡◌, refl, sym, ap, ◌∙◌, true, false, Option, none, some, List,
  [], ◌∷◌, ◌++◌, length, length-take, length-drop, take, drop, take_append_drop, take_all,
  drop-drop, ltb, leb, min, ◌==◌, if◌then◌else◌, inl, inr, ◌⊎◌, lt→ltb, Bool-cases, arith,
}
use purv.Gdb.Packet.{gdb_buf}
use purv.Gdb.Query.{xfer_chunk}

-- What a debugger does with one answer: `again` asks for what follows.
abbrev pub gather : (ℕ → Option (List ℕ)) → ℕ → List ℕ → Option (List ℕ)
gather again off [] = none
gather again off (tag ∷ piece) =
    if tag == b'l'
    then some piece
    else elim (again (off + length piece)) [ none ↦ none | some rest ↦ some (piece ++ rest) ]

-- It asks for `want` characters at a time.
abbrev pub fetch_document : ℕ → List ℕ → ℕ → ℕ → Option (List ℕ)
fetch_document zero xml want off = none
fetch_document (suc rounds) xml want off =
    gather (fetch_document rounds xml want) off (xfer_chunk xml off want)

drop_past : (n : ℕ) (xs : List ℕ) → length xs ≤ n → drop n xs ≡ []
drop_past zero [] h = refl
drop_past zero (x ∷ xs) h = absurd (omega arith)
drop_past (suc n) [] h = refl
drop_past (suc n) (x ∷ xs) h = drop_past n xs (omega arith)

le_or_lt : (m n : ℕ) → (m ≤ n) ⊎ (n < m)
le_or_lt m n = ground arith

-- The answer to one request: the last piece, or a piece that is not empty and is not the last.
xfer_chunk-last :
    (xml : List ℕ) (off want : ℕ)
    → length xml ≤ off + min want (gdb_buf - 8)
    → xfer_chunk xml off want ≡ b'l' ∷ drop off xml
unfolding xfer_chunk
xfer_chunk-last xml off want h =
    let chunk = min (min (length xml - off) want) (gdb_buf - 8) in
    let bound : length (drop off xml) ≤ chunk = omega (arith, length-drop off xml) in
    elim (Bool-cases (leb (length xml) off)) [
      | inl past ↦ rw (past, drop_past off xml (ground arith))
      | inr inside ↦
          let final : ltb (off + chunk) (length xml) ≡ false = ground arith in
          rw (inside, final, take_all chunk (drop off xml) bound)
    ]

xfer_chunk-more :
    (xml : List ℕ) (off want : ℕ)
    → off + min want (gdb_buf - 8) < length xml
    → xfer_chunk xml off want ≡ b'm' ∷ take (min want (gdb_buf - 8)) (drop off xml)
unfolding xfer_chunk
xfer_chunk-more xml off want h =
    let chunk = min (min (length xml - off) want) (gdb_buf - 8) in
    let whole : chunk ≡ min want (gdb_buf - 8) = omega arith in
    let inside : leb (length xml) off ≡ false = ground arith in
    let further : ltb (off + chunk) (length xml) ≡ true = rw whole (lt→ltb _ _ h) in
    rw (inside, further, whole)

-- Whatever the document and the size of the pieces, if it is not zero: asking from an offset on, for
-- more rounds than there are characters left, gives exactly the document from the
-- offset on.
pub fetch_document_whole :
    (rounds : ℕ) (xml : List ℕ) (want off : ℕ)
    → 0 < want
    → length xml - off < rounds
    → fetch_document rounds xml want off ≡ some (drop off xml)
fetch_document_whole zero xml want off pos h = absurd (omega arith)
fetch_document_whole (suc rounds) xml want off pos h =
    let k = min want (gdb_buf - 8) in
    let piece = take k (drop off xml) in
    elim (le_or_lt (length xml) (off + k)) [
      | inl final ↦
          ap (gather (fetch_document rounds xml want) off) (xfer_chunk-last xml off want final)
      | inr more ↦
          let size : length piece ≡ k =
            length-take k (drop off xml) ∙ omega (arith, length-drop off xml) in
          let rest = fetch_document_whole rounds xml want (off + length piece) pos (omega arith) in
          ap (gather (fetch_document rounds xml want) off) (xfer_chunk-more xml off want more)
          ∙ rw rest (
              ap (λ (l : List ℕ). some (piece ++ l))
                (sym (drop-drop off (length piece) xml)
                  ∙ ap (λ (n : ℕ). drop n (drop off xml)) size)
              ∙ ap (λ (l : List ℕ). some l) (take_append_drop k (drop off xml)))
    ]
