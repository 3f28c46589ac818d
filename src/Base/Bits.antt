-- ===== src/Base/Bits.antt =====
-- Single bits of a word, and how the bit operations act on them.
use Prim.Native.Nat.{
  bit_and, bit_and-bitwise, bit_or, bit_or-bitwise, digits, max, min, suc, zero, ℕ, ◌%◌, ◌*◌, ◌+◌,
  ◌-◌, ◌/◌, ◌<◌, ◌^◌, ◌≤◌,
}
use mathlib.Core.Bool.{Bool, false, not, true, ◌&&◌, ◌||◌}
use mathlib.Core.Logic.{inl, inr, ◌≢◌}
use mathlib.Core.Path.{ap, refl, sym, ◌∙◌, ◌≡◌}
use native.Mathlib.Nat.{pow-suc}
use native.Mathlib.Omega.{arith}
use linux_0_11_lab.Base.Tests.{Bool-cases, ◌==◌}

-- Bit `i` of the word `x`.
unfoldable pub test_bit : ℕ → ℕ → Bool
test_bit x zero = x % 2 == 1
test_bit x (suc i) = test_bit (x / 2) i

-- The recursion on digits that the bit operations stand for, with more fuel than digits.
module _ (z : ℕ → ℕ) (f : ℕ → ℕ → ℕ) where
  digits-zero : (n b : ℕ) → digits z f n zero b ≡ z b
  digits-zero zero b = refl
  digits-zero (suc n) b = refl

  more_fuel :
      (n m a b : ℕ) → suc a ≤ n → suc a ≤ m → digits z f n (suc a) b ≡ digits z f m (suc a) b
  more_fuel zero m a b l k = absurd (omega arith)
  more_fuel (suc n) zero a b l k = absurd (omega arith)
  more_fuel (suc n) (suc m) a b l k = elim (Bool-cases (suc a / 2 == 0)) [
    | inl e ↦
        let e' : suc a / 2 ≡ 0 = ground arith in
        rw (e', digits-zero n (b / 2), digits-zero m (b / 2)) refl
    | inr e ↦
        let e' : suc a / 2 ≡ suc (suc a / 2 - 1) = ground arith in
        rw e' (
          ap (λ d. d * 2 + f (suc a % 2) (b % 2))
            (more_fuel n m (suc a / 2 - 1) (b / 2) (omega arith) (omega arith)))
  ]

  -- Peeling off the lowest digit.
  first_digit :
      (a b : ℕ)
      → digits z f (suc a) (suc a) b
        ≡ digits z f (suc a / 2) (suc a / 2) (b / 2) * 2 + f (suc a % 2) (b % 2)
  first_digit zero b = refl
  first_digit (suc a) b =
      let e : suc (suc a) / 2 ≡ suc (a / 2) = omega arith in
      rw e (
        ap (λ d. d * 2 + f (suc (suc a) % 2) (b % 2))
          (more_fuel (suc a) (suc (a / 2)) (a / 2) (b / 2) (omega arith) (omega arith)))

pub bit_and_step : (a b : ℕ) → bit_and a b ≡ bit_and (a / 2) (b / 2) * 2 + min (a % 2) (b % 2)
bit_and_step zero b = omega (arith, bit_and-bitwise 0 b, bit_and-bitwise 0 (b / 2))
bit_and_step (suc a) b =
    bit_and-bitwise (suc a) b
    ∙ first_digit (λ _. zero) min a b
    ∙ ap (λ d. d * 2 + min (suc a % 2) (b % 2)) (sym (bit_and-bitwise (suc a / 2) (b / 2)))

pub bit_or_step : (a b : ℕ) → bit_or a b ≡ bit_or (a / 2) (b / 2) * 2 + max (a % 2) (b % 2)
bit_or_step zero b = omega (arith, bit_or-bitwise 0 b, bit_or-bitwise 0 (b / 2))
bit_or_step (suc a) b =
    bit_or-bitwise (suc a) b
    ∙ first_digit (λ d. d) max a b
    ∙ ap (λ d. d * 2 + max (suc a % 2) (b % 2)) (sym (bit_or-bitwise (suc a / 2) (b / 2)))

pub test_bit-and : (i a b : ℕ) → test_bit (bit_and a b) i ≡ (test_bit a i && test_bit b i)
unfolding test_bit
test_bit-and zero a b = ground (arith, bit_and_step a b)
test_bit-and (suc i) a b =
    let e : bit_and a b / 2 ≡ bit_and (a / 2) (b / 2) = omega (arith, bit_and_step a b) in
    rw e (test_bit-and i (a / 2) (b / 2))

pub test_bit-or : (i a b : ℕ) → test_bit (bit_or a b) i ≡ (test_bit a i || test_bit b i)
unfolding test_bit
test_bit-or zero a b = ground (arith, bit_or_step a b)
test_bit-or (suc i) a b =
    let e : bit_or a b / 2 ≡ bit_or (a / 2) (b / 2) = omega (arith, bit_or_step a b) in
    rw e (test_bit-or i (a / 2) (b / 2))

pub test_bit-zero : (i : ℕ) → test_bit 0 i ≡ false
unfolding test_bit
test_bit-zero zero = refl
test_bit-zero (suc i) = test_bit-zero i

test_bit-one : (i : ℕ) → test_bit 1 i ≡ (0 == i)
unfolding test_bit
test_bit-one zero = refl
test_bit-one (suc i) = test_bit-zero i ∙ ground arith

-- The word with the single bit `k`.
pub test_bit-pow : (k i : ℕ) → test_bit (2 ^ k) i ≡ (k == i)
unfolding test_bit
test_bit-pow zero i = test_bit-one i
test_bit-pow (suc k) zero = ground (arith, pow-suc 2 k)
test_bit-pow (suc k) (suc i) =
    let e : 2 ^ suc k / 2 ≡ 2 ^ k = omega (arith, pow-suc 2 k) in
    rw e (test_bit-pow k i ∙ ground arith)

-- `~x` on words of `w` bits.
unfoldable pub complement : ℕ → ℕ → ℕ
complement w x = 2 ^ w - 1 - x

pub test_bit-complement :
    (w i x : ℕ) → x < 2 ^ w → i < w → test_bit (complement w x) i ≡ not (test_bit x i)
unfolding test_bit complement
test_bit-complement zero i x h l = absurd (omega arith)
test_bit-complement (suc w) zero x h l = ground (arith, pow-suc 2 w)
test_bit-complement (suc w) (suc i) x h l =
    let e : (2 ^ suc w - 1 - x) / 2 ≡ 2 ^ w - 1 - x / 2 = omega (arith, pow-suc 2 w) in
    rw e (test_bit-complement w i (x / 2) (omega (arith, pow-suc 2 w)) (omega arith))

bit_fuel : (n x : ℕ) → x ≤ n → x ≢ 0 → (i : ℕ) × (test_bit x i ≡ true)
unfolding test_bit
bit_fuel zero x h ne = absurd (ne (omega arith))
bit_fuel (suc n) zero h ne = absurd (ne refl)
bit_fuel (suc n) (suc x) h ne = elim (Bool-cases (suc x % 2 == 1)) [
  | inl e ↦ (0, e)
  | inr e ↦ let rest = bit_fuel n (suc x / 2) (omega arith) (ground arith) in (suc rest.0, rest.1)
]

-- A word that is not 0 has a bit.
pub bit_of_ne_zero : (x : ℕ) → x ≢ 0 → (i : ℕ) × (test_bit x i ≡ true)
bit_of_ne_zero x ne = bit_fuel x x (omega arith) ne

pub ne_zero_of_bit : (x i : ℕ) → test_bit x i ≡ true → x ≢ 0
ne_zero_of_bit x i h e = let z : test_bit x i ≡ false = rw e (test_bit-zero i) in absurd (cc (h, z))

pub test_bit-past : (w i x : ℕ) → x < 2 ^ w → w ≤ i → test_bit x i ≡ false
unfolding test_bit
test_bit-past zero i x h l = let e : x ≡ 0 = omega arith in rw e (test_bit-zero i)
test_bit-past (suc w) zero x h l = absurd (omega arith)
test_bit-past (suc w) (suc i) x h l =
    test_bit-past w i (x / 2) (omega (arith, pow-suc 2 w)) (omega arith)

bit_or-zero_below : (n x : ℕ) → x ≤ n → bit_or x 0 ≡ x
bit_or-zero_below n zero h = refl
bit_or-zero_below zero (suc x) h = absurd (omega arith)
bit_or-zero_below (suc n) (suc x) h =
    omega (arith, bit_or_step (suc x) 0, bit_or-zero_below n (suc x / 2) (omega arith))

pub bit_or-zero : (x : ℕ) → bit_or x 0 ≡ x
bit_or-zero x = bit_or-zero_below x x (omega arith)

-- `x | 2` touches bit 1 only.
pub bit_or-two : (x : ℕ) → bit_or x 2 ≡ x / 4 * 4 + 2 + x % 2
bit_or-two x = omega (arith, bit_or_step x 2, bit_or_step (x / 2) 1, bit_or-zero (x / 2 / 2))

-- `x | 7` sets the three low bits.
pub bit_or_seven : (x : ℕ) → bit_or x 7 ≡ x / 8 * 8 + 7
bit_or_seven x = omega (
  arith,
  bit_or_step x 7,
  bit_or_step (x / 2) 3,
  bit_or_step (x / 2 / 2) 1,
  bit_or-zero (x / 2 / 2 / 2),
)
