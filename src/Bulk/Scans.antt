-- ===== src/Bulk/Scans.antt =====
-- What the scans and the compares find.
use purv.Base.{
  ℕ, zero, suc, ◌+◌, ◌-◌, ◌%◌, ◌^◌, ◌<◌, if◌then◌else◌, ◌≡◌, ◌≢◌, ◌⊎◌, Bool, true, false, not, ◌&&◌,
  ◌||◌, Option, none, some, ltb, ◌==◌,
}
use purv.Base.Int.{signed, lt_ℤ, pos}

-- None of the `m` bytes from index `i` on is `c`.
abbrev pub Lack : (ℕ → ℕ) → ℕ → ℕ → ℕ → ℕ → Type 0
Lack host p c i zero = Unit {0}
Lack host p c i (suc m) = (host (p + i) ≢ c) × Lack host p c (i + 1) m

-- The first of `n` bytes that is `c`, after `m` others; or none.
abbrev pub Found : (ℕ → ℕ) → ℕ → ℕ → ℕ → ℕ → Option ℕ → Type 0
Found host p c n i none = Lack host p c i n
Found host p c n i (some k) =
    (m : ℕ) × (m < n) × (k ≡ i + m) × Lack host p c i m × (host (p + k) ≡ c)

-- The bytes at the same index in two places: the same, and not a NUL if a NUL ends the compare.
abbrev pub Agree : Bool → (ℕ → ℕ) → ℕ → ℕ → ℕ → ℕ → Type 0
Agree nul host x y i zero = Unit {0}
Agree nul host x y i (suc m) =
    (host (x + i) ≡ host (y + i))
    × ((nul && host (x + i) == 0) ≡ false)
    × Agree nul host x y (i + 1) m

-- Whether the loop ends at these two bytes.
abbrev pub decides : Bool → ℕ → ℕ → Bool
decides nul a b = not (a == b) || nul && a == 0

-- What a compare of two bytes says: zero exactly if they are equal, negative as a signed number
-- exactly if the first is less.
abbrev pub Orders : ℕ → ℕ → ℕ → Type 0
Orders a b res = ((res == 0) ≡ (a == b)) × (lt_ℤ (signed res) (pos 0) ≡ ltb a b)

-- The difference of two bytes as a 32-bit pattern: two's complement where it is negative.
abbrev pub difference : ℕ → ℕ → ℕ
difference a b = if ltb a b then 2 ^ 32 - (b - a) else a - b

-- The end of a compare of `n` bytes from index `i` on: after `m` bytes that agree, all of them and a
-- zero, or a byte that decides.
abbrev pub Compared : Bool → (ℕ → ℕ) → ℕ → ℕ → ℕ → ℕ → ℕ × ℕ → Type 0
Compared nul host x y n i (k, res) =
    (m : ℕ) × (k ≡ i + m)
    × Agree nul host x y i m
    × (((m ≡ n) × (res ≡ 0))
        ⊎ ((m < n)
            × (decides nul (host (x + k)) (host (y + k)) ≡ true)
            × Orders (host (x + k)) (host (y + k)) res
            × (res ≡ difference (host (x + k)) (host (y + k)))))

-- What strlen says of a length and a charge, at a pointer with `n` bytes.
abbrev pub Counts : (ℕ → ℕ) → ℕ → ℕ → ℕ → ℕ → Type 0
Counts host p n len charge =
    Lack host p 0 0 len
    × (charge ≡ (len + 1) % 2 ^ 32)
    × ((len ≡ n) ⊎ ((len < n) × (host (p + len) ≡ 0)))

-- What a compare of at most `m` bytes that ends at index `k` is charged: the bytes looked at, which are
-- all of them, or those up to the one that decides.
abbrev pub Charged : ℕ → ℕ → ℕ → Type 0
Charged m k charge = ((k ≡ m) × (charge ≡ m)) ⊎ ((k < m) × (charge ≡ k + 1))
