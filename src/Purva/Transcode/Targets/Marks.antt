-- ===== src/Purva/Transcode/Targets/Marks.antt =====
-- The set of targets: a mark stays, and both scans end.
use Prim.Native.Nat.{max}
use native.Mathlib.Nat.{pow-suc, div-div-eq-div-mul, div_self}
use purv.Base.{
  ℕ, zero, suc, ◌+◌, ◌*◌, ◌/◌, ◌%◌, ◌^◌, ◌≤◌, ◌<◌, ◌≡◌, refl, ap, sym, ◌∙◌, bit_and, bit_or, true,
  not, ◌&&◌, inl, inr, some, List, [], ◌∷◌, ◌++◌, leb, leb→le, ltb, ◌==◌, ==_iff, if◌then◌else◌,
  Bool-cases, u8, add32, arith,
}
use mathlib.Core.Path.{subst}
use purv.Base.Bits.{bit_and-digit, bit_or-digit, double_power}
use purv.Purva.Transcode.{decode}
use purv.Purva.Transcode.Targets.{
  Targets, targets_new, targets_mark, targets_has, is_direct, direct_targets, mark_all,
  collect_targets,
}

half_power : (v k : ℕ) → v / 2 ^ suc k ≡ v / 2 / 2 ^ k
half_power v k =
    ap (λ (t : ℕ). v / t) {x = 2 ^ suc k} {y = 2 * 2 ^ k} (omega (arith, pow-suc 2 k))
    ∙ sym (div-div-eq-div-mul v 2 (2 ^ k))

bit_and-zero_below : (n a : ℕ) → a ≤ n → bit_and a 0 ≡ 0
bit_and-zero_below zero zero h = refl
bit_and-zero_below zero (suc a) h = absurd (omega arith)
bit_and-zero_below (suc n) zero h = refl
bit_and-zero_below (suc n) (suc a) h =
    omega (arith, bit_and-digit (suc a) 0, bit_and-zero_below n (suc a / 2) (omega arith))

-- One bit of `&` and of `|`.
bit_and_power : (k v : ℕ) → bit_and v (2 ^ k) ≡ v / 2 ^ k % 2 * 2 ^ k
bit_and_power zero v =
    omega (arith, bit_and-digit v 1, bit_and-zero_below (v / 2) (v / 2) (omega arith))
bit_and_power (suc k) v =
    let t = v / 2 / 2 ^ k % 2 in
    let half : 2 ^ suc k / 2 ≡ 2 ^ k = omega (arith, pow-suc 2 k) in
    let shift : bit_and v (2 ^ suc k) ≡ bit_and (v / 2) (2 ^ k) * 2 =
      omega (arith, pow-suc 2 k, bit_and-digit v (2 ^ suc k), ap (bit_and (v / 2)) half) in
    shift
    ∙ ap (λ (r : ℕ). r * 2) (bit_and_power k (v / 2))
    ∙ sym (double_power t k)
    ∙ ap (λ (r : ℕ). r % 2 * 2 ^ suc k) (sym (half_power v k))

bit_or_bit : (k v w : ℕ) → bit_or v w / 2 ^ k % 2 ≡ max (v / 2 ^ k % 2) (w / 2 ^ k % 2)
bit_or_bit zero v w = omega (arith, bit_or-digit v w)
bit_or_bit (suc k) v w =
    let half : bit_or v w / 2 ≡ bit_or (v / 2) (w / 2) = omega (arith, bit_or-digit v w) in
    rw (half_power (bit_or v w) k, half_power v k, half_power w k, half)
      (bit_or_bit k (v / 2) (w / 2))

power_pos : (k : ℕ) → 0 < 2 ^ k
power_pos zero = omega arith
power_pos (suc k) = omega (arith, pow-suc 2 k, power_pos k)

small_power : (k : ℕ) → k < 8 → u8 (2 ^ k) ≡ 2 ^ k
small_power zero h = refl
small_power (suc zero) h = refl
small_power (suc (suc zero)) h = refl
small_power (suc (suc (suc zero))) h = refl
small_power (suc (suc (suc (suc zero)))) h = refl
small_power (suc (suc (suc (suc (suc zero))))) h = refl
small_power (suc (suc (suc (suc (suc (suc zero)))))) h = refl
small_power (suc (suc (suc (suc (suc (suc (suc zero))))))) h = refl
small_power (suc (suc (suc (suc (suc (suc (suc (suc k)))))))) h = absurd (omega arith)

-- A test of one bit.
test_bit : (v k : ℕ) → not (bit_and v (2 ^ k) == 0) ≡ (v / 2 ^ k % 2 == 1)
test_bit v k = elim (Bool-cases (v / 2 ^ k % 2 == 1)) [
  | inl one ↦
      let bit : v / 2 ^ k % 2 ≡ 1 = (==_iff (v / 2 ^ k % 2) 1).0 one in
      let value : bit_and v (2 ^ k) ≡ 2 ^ k =
        bit_and_power k v ∙ ap (λ (t : ℕ). t * 2 ^ k) bit ∙ omega arith in
      ground (arith, value, power_pos k)
  | inr nothing ↦
      let bit : v / 2 ^ k % 2 ≡ 0 = ground arith in
      let value : bit_and v (2 ^ k) ≡ 0 =
        bit_and_power k v ∙ ap (λ (t : ℕ). t * 2 ^ k) bit ∙ omega arith in
      ground (arith, value)
]

targets_has-lem :
    (t : Targets) (a : ℕ)
    → targets_has t a ≡ (ltb (a / 4) t.n && (t.bits (a / 4 / 8) / 2 ^ (a / 4 % 8) % 2 == 1))
unfolding targets_has
targets_has-lem t a = ap (◌&&◌ (ltb (a / 4) t.n)) (test_bit (t.bits (a / 4 / 8)) (a / 4 % 8))

n-targets_mark : (t : Targets) (a : ℕ) → (targets_mark t a).n ≡ t.n
unfolding targets_mark
n-targets_mark t a = ground arith

-- The bit that is set, and one that was set before.
bit_set : (v k : ℕ) → k < 8 → bit_or v (u8 (2 ^ k)) / 2 ^ k % 2 ≡ 1
bit_set v k h =
    let own : 2 ^ k / 2 ^ k ≡ 1 = div_self (power_pos k) in
    rw (small_power k h) (omega (arith, bit_or_bit k v (2 ^ k), own))

bit_kept : (v w k : ℕ) → v / 2 ^ k % 2 ≡ 1 → bit_or v w / 2 ^ k % 2 ≡ 1
bit_kept v w k h = omega (arith, bit_or_bit k v w)

-- An address is in the set once it is marked, and whatever else is marked then.
targets_has-mark : (t : Targets) (a : ℕ) → a / 4 < t.n → targets_has (targets_mark t a) a ≡ true
unfolding targets_mark
targets_has-mark t a h = ground (
  arith,
  targets_has-lem (targets_mark t a) a,
  bit_set (t.bits (a / 4 / 8)) (a / 4 % 8) (omega arith),
)

targets_has-mark_other :
    (t : Targets) (a b : ℕ) → targets_has t b ≡ true → targets_has (targets_mark t a) b ≡ true
unfolding targets_mark
targets_has-mark_other t a b h = ground (
  arith,
  targets_has-lem t b,
  targets_has-lem (targets_mark t a) b,
  bit_kept (t.bits (a / 4 / 8)) (u8 (2 ^ (a / 4 % 8))) (b / 4 % 8),
)

-- The caller's addresses are added, and lose nothing.
pub targets_has-mark_all :
    (ext : List ℕ) (t : Targets) (b : ℕ)
    → targets_has t b ≡ true
    → targets_has (mark_all ext t) b ≡ true
unfolding mark_all
targets_has-mark_all [] t b h = h
targets_has-mark_all (a ∷ ext) t b h =
    targets_has-mark_all ext (targets_mark t a) b (targets_has-mark_other t a b h)

-- An address of the list is marked, wherever it stands there.
mark_all-has :
    (before after : List ℕ) (a : ℕ) (t : Targets)
    → a / 4 < t.n
    → targets_has (mark_all (before ++ a ∷ after) t) a ≡ true
unfolding mark_all
mark_all-has [] after a t inside =
    targets_has-mark_all after (targets_mark t a) a (targets_has-mark t a inside)
mark_all-has (b ∷ before) after a t inside =
    mark_all-has before after a (targets_mark t b) (rw (n-targets_mark t b) inside)

-- The scan for direct targets ends, and has marked the target of every branch and `jal` from `off` on.
module _ (code : ℕ → ℕ) (len : ℕ) (small : len + 64 ≤ 2 ^ 32) where
  abbrev marked_here : ℕ → Targets → Targets
  marked_here off t =
      let d = decode code off in if is_direct d.op then targets_mark t d.target else t

  n-marked_here : (off : ℕ) (t : Targets) → (marked_here off t).n ≡ t.n
  n-marked_here off t = ground (arith, n-targets_mark t (decode code off).target)

  marked_here-keeps :
      (off : ℕ) (t : Targets) (b : ℕ)
      → targets_has t b ≡ true
      → targets_has (marked_here off t) b ≡ true
  marked_here-keeps off t b h =
      ground (arith, targets_has-mark_other t (decode code off).target b h)

  marked_here-has :
      (off : ℕ) (t : Targets)
      → is_direct (decode code off).op ≡ true
      → (decode code off).target / 4 < t.n
      → targets_has (marked_here off t) (decode code off).target ≡ true
  marked_here-has off t direct inside =
      rw direct (targets_has-mark t (decode code off).target inside)

  -- The targets are marked after those of `t`; `n` never changes.
  pub record Scanned (fuel off : ℕ) (t : Targets) : Type 0 where
    pub set : Targets
    pub found : direct_targets code len fuel off t ≡ some set
    pub same : set.n ≡ t.n
    pub kept : (b : ℕ) → targets_has t b ≡ true → targets_has set b ≡ true
    pub marked :
        (x : ℕ)
        → off ≤ x
        → x % 4 ≡ 0
        → x + 4 ≤ len
        → is_direct (decode code x).op ≡ true
        → (decode code x).target / 4 < t.n
        → targets_has set (decode code x).target ≡ true

  scan_more :
      (fuel off : ℕ) (t : Targets)
      → off % 4 ≡ 0
      → off + 4 ≤ len
      → Scanned fuel (add32 off 4) (marked_here off t)
      → Scanned (suc fuel) off t
  unfolding direct_targets
  scan_more fuel off t whole h rest =
      let inside : leb (add32 off 4) len ≡ true = ground arith in
      let n = n-marked_here off t in
      record {
        set = rest.set;
        found = rw inside (rest.found);
        same = rest.same ∙ n;
        kept = λ b k. rest.kept b (marked_here-keeps off t b k);
        marked = λ x from al in_code direct bound. elim (Bool-cases (x == off)) [
          | inl here ↦
              let e : x ≡ off = (==_iff x off).0 here in
              rest.kept (decode code x).target (rw (sym e) (marked_here-has x t direct bound))
          | inr later ↦ rest.marked x (ground arith) al in_code direct (rw n bound)
        ];
      }

  pub scan :
      (fuel off : ℕ) (t : Targets)
      → off % 4 ≡ 0
      → off ≤ len
      → len / 4 < fuel + off / 4
      → Scanned fuel off t
  unfolding direct_targets
  scan zero off t whole h enough = absurd (omega arith)
  scan (suc fuel) off t whole h enough = elim (Bool-cases (leb (add32 off 4) len)) [
    | inl inside ↦
        let next : off + 4 ≤ len = omega (arith, leb→le (add32 off 4) len inside) in
        scan_more fuel off t whole next
          (scan fuel (add32 off 4) (marked_here off t) (omega arith) (omega arith) (omega arith))
    | inr end ↦ record {
      set = t;
      found = rw end;
      same = refl;
      kept = λ b k. k;
      marked = λ x from al in_code direct bound. absurd (ground arith);
    }
  ]

  -- `collect_targets` ends, with every direct target inside the code in the set.
  pub collected : (ext : List ℕ) → (t : Targets) × (collect_targets code len ext ≡ some t)
  unfolding collect_targets
  collected ext =
      let s = scan (suc (len / 4)) 0 (targets_new len) (omega arith) (omega arith) (omega arith) in
      (mark_all ext s.set, rw (s.found, collect_targets))

  pub collected_marks :
      (ext : List ℕ) (t : Targets) (x : ℕ)
      → collect_targets code len ext ≡ some t
      → x % 4 ≡ 0
      → x + 4 ≤ len
      → is_direct (decode code x).op ≡ true
      → (decode code x).target / 4 < len / 4
      → targets_has t (decode code x).target ≡ true
  unfolding collect_targets
  collected_marks ext t x e al in_code direct bound =
      let s = scan (suc (len / 4)) 0 (targets_new len) (omega arith) (omega arith) (omega arith) in
      let all : mark_all ext s.set ≡ t = ground (arith, s.found) in
      let here : targets_has s.set (decode code x).target ≡ true =
        s.marked x (omega arith) al in_code direct (unfold targets_new in bound) in
      subst (λ (r : Targets). targets_has r (decode code x).target ≡ true) all
        (targets_has-mark_all ext s.set (decode code x).target here)

  -- So is every address of the caller.
  pub collected_external :
      (before after : List ℕ) (t : Targets) (a : ℕ)
      → collect_targets code len (before ++ a ∷ after) ≡ some t
      → a / 4 < len / 4
      → targets_has t a ≡ true
  unfolding collect_targets
  collected_external before after t a e bound =
      let s = scan (suc (len / 4)) 0 (targets_new len) (omega arith) (omega arith) (omega arith) in
      let all : mark_all (before ++ a ∷ after) s.set ≡ t = ground (arith, s.found) in
      let slots : a / 4 < s.set.n = rw s.same (unfold targets_new in bound) in
      subst (λ (r : Targets). targets_has r a ≡ true) all (mark_all-has before after a s.set slots)
