-- ===== src/Kernel/Number/Digits.antt =====
-- The digits that number makes.
use linux_0_11_lab.Base.{
  Bool, List, [], ap, arith, false, get_or, if◌then◌else◌, inl, inr, length, length-append, ltb,
  refl, suc, sym, true, zero, ℕ, ◌%◌, ◌*◌, ◌++◌, ◌+◌, ◌-◌, ◌/◌, ◌<◌, ◌==◌, ◌∙◌, ◌∷◌, ◌≡◌, ◌≢◌, ◌≤◌,
  ◌⊎◌,
}
use native.Mathlib.Decide.{ℕ_discrete}
use linux_0_11_lab.Kernel.Number.{backwards, digit, digits_loop}

-- The bases that vsprintf prints in.
abbrev pub IsBase : ℕ → Type 0
IsBase base = (base ≡ 8) ⊎ ((base ≡ 10) ⊎ (base ≡ 16))

record Divided (n base : ℕ) : Type 0 where
  whole : n / base * base + n % base ≡ n
  small : n % base < base
  half : n / base ≤ n / 2
  digits : base ≤ 16

divided : (n base : ℕ) → IsBase base → Divided n base
divided n base (inl e) =
    rw e (record {
      whole = omega arith;
      small = omega arith;
      half = omega arith;
      digits = omega arith;
    })
divided n base (inr (inl e)) =
    rw e (record {
      whole = omega arith;
      small = omega arith;
      half = omega arith;
      digits = omega arith;
    })
divided n base (inr (inr e)) =
    rw e (record {
      whole = omega arith;
      small = omega arith;
      half = omega arith;
      digits = omega arith;
    })

-- What a digit stands for, in either case of letters.
abbrev pub digit_value : ℕ → ℕ
digit_value c = if ltb c 58 then c - 48 else if ltb c 97 then c - 55 else c - 87

-- The value of digits that are read from left to right.
unfoldable pub read_digits : ℕ → ℕ → List ℕ → ℕ
read_digits base acc [] = acc
read_digits base acc (c ∷ cs) = read_digits base (acc * base + digit_value c) cs

unfoldable pub AllDigits : ℕ → Bool → List ℕ → Type 0
AllDigits base small [] = base ≡ base
AllDigits base small (c ∷ cs) =
    ((d : ℕ) × (d < base) × (c ≡ digit small d)) × AllDigits base small cs

pub digit_value-digit : (small : Bool) (d : ℕ) → d < 16 → digit_value (digit small d) ≡ d
digit_value-digit true d l = ground arith
digit_value-digit false d l = ground arith

read_digits-append :
    (base acc : ℕ) (xs : List ℕ) (c : ℕ)
    → read_digits base acc (xs ++ (c ∷ [])) ≡ read_digits base acc xs * base + digit_value c
unfolding read_digits
read_digits-append base acc [] c = refl
read_digits-append base acc (x ∷ xs) c = read_digits-append base (acc * base + digit_value x) xs c

AllDigits-append :
    (base : ℕ) (small : Bool) (xs : List ℕ) (d : ℕ)
    → AllDigits base small xs
    → d < base
    → AllDigits base small (xs ++ (digit small d ∷ []))
unfolding AllDigits
AllDigits-append base small [] d a l = ((d, l, refl), refl)
AllDigits-append base small (x ∷ xs) d a l = (a.0, AllDigits-append base small xs d a.1 l)

abbrev power2 : ℕ → ℕ
power2 zero = 1
power2 (suc k) = power2 k + power2 k

digits_loop-zero : (fuel : ℕ) (small : Bool) (base : ℕ) → digits_loop fuel small base 0 ≡ []
unfolding digits_loop
digits_loop-zero zero small base = refl
digits_loop-zero (suc fuel) small base = refl

-- The digits of a number are read back as that number, are digits of the base, and do not start with
-- 0. A number that is not 0 has some.
pub record Shown (small : Bool) (base n : ℕ) (tmp : List ℕ) : Type 0 where
  pub value : read_digits base 0 (backwards tmp) ≡ n
  pub all : AllDigits base small (backwards tmp)
  pub some_digits : n ≢ 0 → 1 ≤ length (backwards tmp)
  pub first : n ≢ 0 → get_or (backwards tmp) 0 48 ≢ 48

get_or-snoc : (xs : List ℕ) (c : ℕ) → 1 ≤ length xs → get_or (xs ++ (c ∷ [])) 0 48 ≡ get_or xs 0 48
get_or-snoc [] c l = absurd (omega arith)
get_or-snoc (x ∷ xs) c l = refl

pub shown :
    (fuel : ℕ) (small : Bool) (base n : ℕ)
    → IsBase base
    → n < power2 fuel
    → Shown small base n (digits_loop fuel small base n)
unfolding digits_loop backwards read_digits AllDigits
shown zero small base n is l =
    let z : n ≡ 0 = omega arith in
    record {
      value = sym z;
      all = refl;
      some_digits = λ nz. absurd (nz z);
      first = λ nz. absurd (nz z);
    }
shown (suc fuel) small base n is l = elim (ℕ_discrete n 0) [
  | yes z ↦ rw z (record {
    value = refl;
    all = refl;
    some_digits = λ nz. absurd (nz refl);
    first = λ nz. absurd (nz refl);
  })
  | no nz ↦
      let t : (n == 0) ≡ false = ground (arith, nz) in
      let d = divided n base is in
      let rest = shown fuel small base (n / base) is (let h = d.half in omega (arith, h)) in
      let xs : List ℕ = backwards (digits_loop fuel small base (n / base)) in
      let c : ℕ = digit small (n % base) in
      let lt : n % base < 16 = let a = d.small in let b = d.digits in omega (arith, a, b) in
      rw t (record {
        value =
            read_digits-append base 0 xs c
            ∙ ap (λ v. v * base + digit_value c) rest.value
            ∙ ap (λ v. n / base * base + v) (digit_value-digit small (n % base) lt)
            ∙ d.whole;
        all = AllDigits-append base small xs (n % base) rest.all d.small;
        some_digits = λ _. omega (arith, length-append xs (c ∷ []));
        first = λ _. elim (ℕ_discrete (n / base) 0) [
          | no more ↦ λ e. rest.first more (sym (get_or-snoc xs c (rest.some_digits more)) ∙ e)
          | yes z ↦
              let none_left : xs ≡ [] =
                ap (λ q. backwards (digits_loop fuel small base q)) z
                ∙ ap backwards (digits_loop-zero fuel small base) in
              let is_n : n % base ≢ 0 = λ m. nz (sym d.whole ∙ rw (z, m) (omega arith)) in
              λ e.
                let e' : c ≡ 48 = rw none_left at e in
                is_n (sym (digit_value-digit small (n % base) lt) ∙ ap digit_value e')
        ];
      })
]

-- The number 0.
pub zero-Shown : (small : Bool) (base : ℕ) → IsBase base → Shown small base 0 (48 ∷ [])
unfolding backwards read_digits AllDigits
zero-Shown small base is = record {
  value =
      let e : (if ltb 48 58 then 48 - 48 else if ltb 48 97 then 48 - 55 else 48 - 87) ≡ 0 = refl in
      omega arith;
  all = (
    (
      0,
      elim is [
        | inl e ↦ omega (arith, e)
        | inr (inl e) ↦ omega (arith, e)
        | inr (inr e) ↦ omega (arith, e)
      ],
      refl,
    ),
    refl,
  );
  some_digits = λ _. omega arith;
  first = λ nz. absurd (nz refl);
}
