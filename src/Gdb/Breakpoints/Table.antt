-- ===== src/Gdb/Breakpoints/Table.antt =====
-- The table stands for a set of addresses.
use purv.Base.{
  ℕ, suc, ◌+◌, ◌≤◌, ◌<◌, ◌≡◌, refl, ap, ◌∙◌, Bool, false, not, ◌&&◌, ◌||◌, List, [], ◌∷◌, ◌++◌,
  length, length-append, leb, ◌==◌, inl, inr, Bool-cases, arith,
}
use purv.Gdb.Breakpoints.{gdb_max_bp, bp_hit, bp_add, second, last_first, bp_del}

-- No address stands twice.
abbrev pub AreDistinct : List ℕ → Type 0
AreDistinct [] = Unit {0}
AreDistinct (b ∷ bs) = (bp_hit bs b ≡ false) × AreDistinct bs

-- A table as the stub keeps it.
abbrev pub IsTable : List ℕ → Type 0
IsTable bs = AreDistinct bs × (length bs ≤ gdb_max_bp)

bp_hit-append :
    (bs : List ℕ) (a addr : ℕ) → bp_hit (bs ++ a ∷ []) addr ≡ (bp_hit bs addr || a == addr)
unfolding bp_hit
bp_hit-append [] a addr = ground arith
bp_hit-append (b ∷ bs) a addr = ground (arith, bp_hit-append bs a addr)

AreDistinct-append :
    (bs : List ℕ) (a : ℕ) → AreDistinct bs → bp_hit bs a ≡ false → AreDistinct (bs ++ a ∷ [])
unfolding bp_hit
AreDistinct-append [] a d h = (refl, tt)
AreDistinct-append (b ∷ bs) a d h =
    (ground (arith, bp_hit-append bs a b), AreDistinct-append bs a d.1 (ground arith))

-- `last_first` is a rearrangement.
bp_hit-second :
    (b : ℕ) (bs : List ℕ) (addr : ℕ) → bp_hit (second b bs) addr ≡ (b == addr || bp_hit bs addr)
unfolding bp_hit second
bp_hit-second b [] addr = refl
bp_hit-second b (c ∷ bs) addr = ground arith

bp_hit-last_first : (bs : List ℕ) (addr : ℕ) → bp_hit (last_first bs) addr ≡ bp_hit bs addr
unfolding last_first bp_hit
bp_hit-last_first [] addr = refl
bp_hit-last_first (b ∷ bs) addr =
    ground (arith, bp_hit-second b (last_first bs) addr, bp_hit-last_first bs addr)

AreDistinct-second :
    (b : ℕ) (bs : List ℕ) → AreDistinct bs → bp_hit bs b ≡ false → AreDistinct (second b bs)
unfolding bp_hit second
AreDistinct-second b [] d h = (refl, tt)
AreDistinct-second b (c ∷ bs) d h = (ground arith, (ground arith, d.1))

AreDistinct-last_first : (bs : List ℕ) → AreDistinct bs → AreDistinct (last_first bs)
unfolding last_first
AreDistinct-last_first [] d = d
AreDistinct-last_first (b ∷ bs) d =
    AreDistinct-second b (last_first bs) (AreDistinct-last_first bs d.1)
      (bp_hit-last_first bs b ∙ d.0)

length-second : (b : ℕ) (bs : List ℕ) → length (second b bs) ≡ suc (length bs)
unfolding second
length-second b [] = refl
length-second b (c ∷ bs) = refl

length-last_first : (bs : List ℕ) → length (last_first bs) ≡ length bs
unfolding last_first
length-last_first [] = refl
length-last_first (b ∷ bs) = omega (arith, length-second b (last_first bs), length-last_first bs)

bp_hit-bp_add :
    (bs : List ℕ) (a addr : ℕ)
    → length bs < gdb_max_bp
    → bp_hit (bp_add bs a) addr ≡ (a == addr || bp_hit bs addr)
unfolding bp_add
bp_hit-bp_add bs a addr room = ground (arith, bp_hit-append bs a addr)

bp_hit-bp_del :
    (bs : List ℕ) (a addr : ℕ)
    → AreDistinct bs
    → bp_hit (bp_del bs a) addr ≡ (not (a == addr) && bp_hit bs addr)
unfolding bp_del bp_hit
bp_hit-bp_del [] a addr d = ground arith
bp_hit-bp_del (b ∷ bs) a addr d =
    ground (arith, bp_hit-bp_del bs a addr d.1, bp_hit-last_first bs addr)

bp_add-IsTable : (bs : List ℕ) (a : ℕ) → IsTable bs → IsTable (bp_add bs a)
unfolding bp_add
bp_add-IsTable bs a t = elim (Bool-cases (bp_hit bs a || leb gdb_max_bp (length bs))) [
  | inl kept ↦ rw kept t
  | inr added ↦
      rw added
        (AreDistinct-append bs a t.0 (ground arith), ground (arith, length-append bs (a ∷ [])))
]

AreDistinct-bp_del : (bs : List ℕ) (a : ℕ) → AreDistinct bs → AreDistinct (bp_del bs a)
unfolding bp_del
AreDistinct-bp_del [] a d = d
AreDistinct-bp_del (b ∷ bs) a d = elim (Bool-cases (b == a)) [
  | inl gone ↦ rw gone (AreDistinct-last_first bs d.1)
  | inr kept ↦ rw kept (ground (arith, bp_hit-bp_del bs a b d.1), AreDistinct-bp_del bs a d.1)
]

length-bp_del : (bs : List ℕ) (a : ℕ) → length (bp_del bs a) ≤ length bs
unfolding bp_del
length-bp_del [] a = omega arith
length-bp_del (b ∷ bs) a = ground (arith, length-last_first bs, length-bp_del bs a)

bp_del-IsTable : (bs : List ℕ) (a : ℕ) → IsTable bs → IsTable (bp_del bs a)
bp_del-IsTable bs a t = (AreDistinct-bp_del bs a t.0, omega (arith, length-bp_del bs a))

-- The `Z` and `z` packets of a session.
pub data Request : Type 0 where
  insert remove : ℕ → Request

abbrev pub serve_requests : List Request → List ℕ → List ℕ
serve_requests [] bs = bs
serve_requests (insert a ∷ rs) bs = serve_requests rs (bp_add bs a)
serve_requests (remove a ∷ rs) bs = serve_requests rs (bp_del bs a)

-- Whether the address is in the set, if it is to begin with: the last request about it counts.
abbrev pub stands : ℕ → List Request → Bool → Bool
stands addr [] now = now
stands addr (insert a ∷ rs) now = stands addr rs (a == addr || now)
stands addr (remove a ∷ rs) now = stands addr rs (not (a == addr) && now)

abbrev pub inserts : List Request → ℕ
inserts [] = 0
inserts (insert a ∷ rs) = suc (inserts rs)
inserts (remove a ∷ rs) = inserts rs

length-bp_add : (bs : List ℕ) (a : ℕ) → length (bp_add bs a) ≤ length bs + 1
unfolding bp_add
length-bp_add bs a = ground (arith, length-append bs (a ∷ []))

-- After any sequence of insertions and removals the table has no more entries than the array, and no
-- address twice.
pub serve_requests-IsTable :
    (rs : List Request) (bs : List ℕ) → IsTable bs → IsTable (serve_requests rs bs)
serve_requests-IsTable [] bs t = t
serve_requests-IsTable (insert a ∷ rs) bs t =
    serve_requests-IsTable rs (bp_add bs a) (bp_add-IsTable bs a t)
serve_requests-IsTable (remove a ∷ rs) bs t =
    serve_requests-IsTable rs (bp_del bs a) (bp_del-IsTable bs a t)

-- As long as the insertions fit into the array, whatever they are mixed with: an address is hit
-- exactly if the last request about it was an insertion, or there was none and it was hit before.
pub bp_hit-serve_requests :
    (rs : List Request) (bs : List ℕ) (addr : ℕ)
    → IsTable bs
    → length bs + inserts rs ≤ gdb_max_bp
    → bp_hit (serve_requests rs bs) addr ≡ stands addr rs (bp_hit bs addr)
bp_hit-serve_requests [] bs addr t room = refl
bp_hit-serve_requests (insert a ∷ rs) bs addr t room =
    bp_hit-serve_requests rs (bp_add bs a) addr (bp_add-IsTable bs a t)
      (omega (arith, length-bp_add bs a))
    ∙ ap (stands addr rs) (bp_hit-bp_add bs a addr (omega arith))
bp_hit-serve_requests (remove a ∷ rs) bs addr t room =
    bp_hit-serve_requests rs (bp_del bs a) addr (bp_del-IsTable bs a t)
      (omega (arith, length-bp_del bs a))
    ∙ ap (stands addr rs) (bp_hit-bp_del bs a addr t.0)
