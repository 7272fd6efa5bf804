-- ===== src/Purva/Eval/Frames/Masks.antt =====
-- The registers that a mask selects, in the two ways that the evaluator walks it.
use purv.Base.{
  ℕ, zero, suc, ◌+◌, ◌-◌, ◌*◌, ◌/◌, ◌%◌, ◌^◌, ◌≤◌, ◌<◌, ◌≡◌, refl, ap, sym, ◌∙◌, bit_and, true,
  false, inl, inr, List, [], ◌∷◌, length, get_or, ◌==◌, if◌then◌else◌, Bool-cases, field, arith,
}
use native.Mathlib.Numerals.{add-one}
use native.Mathlib.Nat.{pow-suc, div-div-eq-div-mul}
use purv.Base.Bits.{bit_and-digit}
use purv.Purva.Eval.Frames.{rank2reg, ctz}

-- The registers of `regs` whose bit is set, `regs` standing at `bit` and above.
unfoldable pub selected : List ℕ → ℕ → ℕ → List ℕ
selected [] bit m = []
selected (r ∷ regs) bit m =
    if field m bit 1 == 1 then r ∷ selected regs (bit + 1) m else selected regs (bit + 1) m

-- The same, with the mask shifted along.
shifted : List ℕ → ℕ → List ℕ
shifted [] q = []
shifted (r ∷ regs) q = if q % 2 == 1 then r ∷ shifted regs (q / 2) else shifted regs (q / 2)

shift_one : (m bit : ℕ) → m / 2 ^ (bit + 1) ≡ m / 2 ^ bit / 2
shift_one m bit =
    ap (λ (t : ℕ). m / t) {x = 2 ^ (bit + 1)} {y = 2 ^ bit * 2} (rw add-one (pow-suc 2 bit))
    ∙ sym (div-div-eq-div-mul m (2 ^ bit) 2)

selected-eq-shifted : (regs : List ℕ) (bit m : ℕ) → selected regs bit m ≡ shifted regs (m / 2 ^ bit)
unfolding selected shifted
selected-eq-shifted [] bit m = refl
selected-eq-shifted (r ∷ regs) bit m =
    ground (arith, selected-eq-shifted regs (bit + 1) m, ap (shifted regs) (shift_one m bit))

pub length-selected : (regs : List ℕ) (bit m : ℕ) → length (selected regs bit m) ≤ length regs
unfolding selected
length-selected [] bit m = omega arith
length-selected (r ∷ regs) bit m = ground (arith, length-selected regs (bit + 1) m)

-- What `while (m)` meets, in `fuel` rounds: `reg` of the lowest bit, found in at most `n` steps.
unfoldable pub drained : (ℕ → ℕ) → ℕ → ℕ → ℕ → List ℕ
drained reg n zero m = []
drained reg n (suc fuel) m =
    let rest = reg (ctz n m) ∷ drained reg n fuel (bit_and m (m - 1)) in if m == 0 then [] else rest

pub drained_none : (reg : ℕ → ℕ) (n m : ℕ) → drained reg n 0 m ≡ []
unfolding drained
drained_none reg n m = refl

pub drained_done : (reg : ℕ → ℕ) (n fuel m : ℕ) → (m == 0) ≡ true → drained reg n (suc fuel) m ≡ []
unfolding drained
drained_done reg n fuel m e = rw e

pub drained-more :
    (reg : ℕ → ℕ) (n fuel m : ℕ)
    → (m == 0) ≡ false
    → drained reg n (suc fuel) m ≡ reg (ctz n m) ∷ drained reg n fuel (bit_and m (m - 1))
unfolding drained
drained-more reg n fuel m more = rw more

bit_and_self_below : (n a : ℕ) → a ≤ n → bit_and a a ≡ a
bit_and_self_below zero zero h = refl
bit_and_self_below zero (suc a) h = absurd (omega arith)
bit_and_self_below (suc n) zero h = refl
bit_and_self_below (suc n) (suc a) h =
    omega (arith, bit_and-digit (suc a) (suc a), bit_and_self_below n (suc a / 2) (omega arith))

-- `m & (m - 1)` clears the lowest bit.
clear_odd : (p : ℕ) → bit_and (p * 2 + 1) (p * 2 + 1 - 1) ≡ p * 2
clear_odd p =
    let whole : (p * 2 + 1) / 2 ≡ p = omega arith in
    let below : (p * 2 + 1 - 1) / 2 ≡ p = omega arith in
    omega (
      arith,
      bit_and-digit (p * 2 + 1) (p * 2 + 1 - 1),
      bit_and_self_below p p (omega arith),
      ap (bit_and ((p * 2 + 1) / 2)) below,
      ap (λ (t : ℕ). bit_and t p) whole,
    )

clear_even : (p : ℕ) → 0 < p → bit_and (p * 2) (p * 2 - 1) ≡ bit_and p (p - 1) * 2
clear_even p h =
    let whole : p * 2 / 2 ≡ p = omega arith in
    let below : (p * 2 - 1) / 2 ≡ p - 1 = omega arith in
    omega (
      arith,
      bit_and-digit (p * 2) (p * 2 - 1),
      ap (bit_and (p * 2 / 2)) below,
      ap (λ (t : ℕ). bit_and t (p - 1)) whole,
    )

ctz-even : (n p : ℕ) → ctz (suc n) (p * 2) ≡ suc (ctz n p)
unfolding ctz
ctz-even n p = ground (arith, ap (ctz n) {x = p * 2 / 2} {y = p} (omega arith))

ctz-odd : (n p : ℕ) → ctz (suc n) (p * 2 + 1) ≡ 0
unfolding ctz
ctz-odd n p = ground arith

drained-double :
    (reg : ℕ → ℕ) (n fuel p : ℕ)
    → drained reg (suc n) fuel (p * 2) ≡ drained (λ r. reg (suc r)) n fuel p
unfolding drained
drained-double reg n zero p = refl
drained-double reg n (suc fuel) p = elim (Bool-cases (p == 0)) [
  | inl z ↦ let double : (p * 2 == 0) ≡ true = ground arith in rw (double, z)
  | inr more ↦
      let double : (p * 2 == 0) ≡ false = ground arith in
      rw (double, more, ctz-even n p, clear_even p (ground arith))
        (ap (◌∷◌ (reg (suc (ctz n p)))) (drained-double reg n fuel (bit_and p (p - 1))))
]

drained-odd :
    (reg : ℕ → ℕ) (n fuel p : ℕ)
    → drained reg (suc n) (suc fuel) (p * 2 + 1) ≡ reg 0 ∷ drained reg (suc n) fuel (p * 2)
unfolding drained
drained-odd reg n fuel p =
    let some_bit : (p * 2 + 1 == 0) ≡ false = ground arith in
    rw (some_bit, ctz-odd n p, clear_odd p)

drained-zero : (reg : ℕ → ℕ) (n fuel : ℕ) → drained reg n fuel 0 ≡ []
unfolding drained
drained-zero reg n zero = refl
drained-zero reg n (suc fuel) = refl

-- The first registers of a table.
registers : (ℕ → ℕ) → ℕ → List ℕ
registers reg zero = []
registers reg (suc n) = reg 0 ∷ registers (λ r. reg (suc r)) n

drained-eq-shifted :
    (k n fuel : ℕ) (reg : ℕ → ℕ) (q : ℕ)
    → q < 2 ^ k
    → k ≤ n
    → k ≤ fuel
    → drained reg n fuel q ≡ shifted (registers reg k) q
unfolding registers shifted
drained-eq-shifted zero n fuel reg q h hn hf =
    ap (drained reg n fuel) {x = q} {y = 0} (omega arith) ∙ drained-zero reg n fuel
drained-eq-shifted (suc k) zero fuel reg q h hn hf = absurd (omega arith)
drained-eq-shifted (suc k) (suc n) zero reg q h hn hf = absurd (omega arith)
drained-eq-shifted (suc k) (suc n) (suc fuel) reg q h hn hf =
    let p = q / 2 in
    let small : p < 2 ^ k = omega (arith, pow-suc 2 k) in
    let next = λ (r : ℕ). reg (suc r) in
    elim (Bool-cases (q % 2 == 1)) [
      | inl odd ↦ rw odd (
          ap (drained reg (suc n) (suc fuel)) {x = q} {y = p * 2 + 1} (ground arith)
          ∙ drained-odd reg n fuel p
          ∙ ap (◌∷◌ (reg 0)) (
              drained-double reg n fuel p
              ∙ drained-eq-shifted k n fuel next p small (omega arith) (omega arith)))
      | inr even ↦ rw even (
          ap (drained reg (suc n) (suc fuel)) {x = q} {y = p * 2} (ground arith)
          ∙ drained-double reg n (suc fuel) p
          ∙ drained-eq-shifted k n (suc fuel) next p small (omega arith) (omega arith))
    ]

-- `while (m)` meets the registers of a mask of 13 bits in the order of their ranks.
pub drained-eq-selected :
    (m : ℕ) → m < 2 ^ 13 → drained (λ r. get_or rank2reg r 0) 32 13 m ≡ selected rank2reg 0 m
unfolding registers
drained-eq-selected m h =
    drained-eq-shifted 13 32 13 (λ r. get_or rank2reg r 0) m h (omega arith) (omega arith)
    ∙ sym (
        selected-eq-shifted rank2reg 0 m
        ∙ ap (shifted rank2reg) {x = m / 2 ^ 0} {y = m} (omega arith))
