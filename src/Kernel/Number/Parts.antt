-- ===== src/Kernel/Number/Parts.antt =====
-- The parts of what number puts into the buffer, by the code's own sign, prefix and magnitude.
use linux_0_11_lab.Base.{
  Bool, Bool-cases, List, [], ap, arith, false, get_or, inl, inr, leb, length, length-append,
  length-replicate, ltb, max, not, refl, replicate, some, suc, sym, true, zero, ℕ, ◌&&◌, ◌++◌, ◌+◌,
  ◌-◌, ◌/◌, ◌<◌, ◌==◌, ◌^◌, ◌||◌, ◌∙◌, ◌∷◌, ◌≡◌, ◌≢◌, ◌≤◌,
}
use native.Mathlib.Decide.{ℕ_discrete}
use linux_0_11_lab.Base.Int.{neg_part, negsuc, pos, pos_part, wrap32-small, ℤ, ◌-ℤ◌}
use linux_0_11_lab.Kernel.Number.{
  Flags, at_least, backwards, digits_loop, less, magnitude, number, prefix_of, sign_of, tmp_of,
}
use linux_0_11_lab.Kernel.Number.Digits.{AllDigits, IsBase, Shown, read_digits, shown, zero-Shown}

-- `out` is blanks, the sign, the prefix, zeros, the digits, and blanks again.
pub record IsLaidOut (num base : ℕ) (size precision : ℤ) (type : Flags) (out : List ℕ)
    : Type 0 where
  pub before : ℕ
  pub zeros : ℕ
  pub digits : List ℕ
  pub behind : ℕ
  pub parts :
      out
      ≡ replicate before 32
        ++ (sign_of type num
            ++ (prefix_of type base ++ (replicate zeros 48 ++ (digits ++ replicate behind 32))))
  pub value : read_digits base 0 digits ≡ magnitude type num
  pub all : AllDigits base type.small digits
  pub some_digits : 1 ≤ length digits
  pub first : magnitude type num ≢ 0 → get_or digits 0 48 ≢ 48
  pub width :
      length out
      ≡ max (pos_part size) (
          length (sign_of type num)
          + length (prefix_of type base)
          + max (length digits) (pos_part precision))
  pub precise : pos_part precision ≤ zeros + length digits
  pub right : type.left ≡ false → behind ≡ 0
  pub left : type.left ≡ true → (before ≡ 0) × (zeros ≡ pos_part precision - length digits)
  pub padded : type.zeropad ≡ true → before ≡ 0
  pub plain : type.zeropad ≡ false → zeros ≡ pos_part precision - length digits

replicate-append : (a b x : ℕ) → replicate a x ++ replicate b x ≡ replicate (a + b) x
replicate-append zero b x = ap (λ n. replicate n x) (omega arith)
replicate-append (suc a) b x =
    let e : suc a + b ≡ suc (a + b) = omega arith in
    rw e (ap (λ xs. x ∷ xs) (replicate-append a b x))

append-append : (xs ys zs : List ℕ) → (xs ++ ys) ++ zs ≡ xs ++ (ys ++ zs)
append-append [] ys zs = refl
append-append (x ∷ xs) ys zs = ap (λ l. x ∷ l) (append-append xs ys zs)

sub_parts :
    (a : ℤ) (n : ℕ)
    → (pos_part (a -ℤ pos n) ≡ pos_part a - n) × (neg_part (a -ℤ pos n) ≤ neg_part a + n)
unfolding ◌-ℤ◌
sub_parts (pos k) n = (ground arith, ground arith)
sub_parts (negsuc k) n = (ground arith, ground arith)

abbrev room_of : ℤ → ℕ → ℕ → ℕ → ℕ
room_of size a b c = pos_part (less (less (less size a) b) c)

-- A difference that does not wrap.
less_lem :
    (size : ℤ) (n : ℕ)
    → pos_part size < 2 ^ 31
    → neg_part size + n ≤ 2 ^ 31
    → (pos_part (less size n) ≡ pos_part size - n) × (neg_part (less size n) ≤ neg_part size + n)
less_lem size n h l =
    let (a, b) = sub_parts size n in
    let e = wrap32-small (size -ℤ pos n) (omega (arith, a, h)) (omega (arith, b, l)) in rw e (a, b)

room_of_lem :
    (size : ℤ) (a b c : ℕ)
    → pos_part size < 2 ^ 31
    → neg_part size ≤ 1
    → a ≤ 1
    → b ≤ 2
    → c + 4 ≤ 2 ^ 31
    → room_of size a b c ≡ pos_part size - a - b - c
room_of_lem size a b c h l la lb lc =
    let (e1, n1) = less_lem size a h (omega (arith, l, la)) in
    let (e2, n2) = less_lem (less size a) b (omega (arith, e1, h)) (omega (arith, n1, l, la, lb)) in
    let (e3, n3) =
      less_lem (less (less size a) b) c (omega (arith, e1, e2, h))
        (omega (arith, n1, n2, l, la, lb, lc)) in
    omega (arith, e1, e2, e3)

at_least_lem :
    (i : ℕ) (precision : ℤ) → pos_part (at_least i precision) ≡ max i (pos_part precision)
at_least_lem i (pos n) = ground arith
at_least_lem i (negsuc n) = ground arith

length-sign_of : (type : Flags) (num : ℕ) → length (sign_of type num) ≤ 1
length-sign_of type num = ground arith

length-prefix_of : (type : Flags) (base : ℕ) → length (prefix_of type base) ≤ 2
length-prefix_of type base = ground arith

length-digits_loop :
    (fuel : ℕ) (small : Bool) (base num : ℕ) → length (digits_loop fuel small base num) ≤ fuel
unfolding digits_loop
length-digits_loop zero small base num = omega arith
length-digits_loop (suc fuel) small base num =
    let h = length-digits_loop fuel small base (num / base) in
    elim (Bool-cases (num == 0)) [ inl t ↦ rw t (omega arith) | inr t ↦ rw t (omega (arith, h)) ]

length-tmp_of : (type : Flags) (num base : ℕ) → length (tmp_of type num base) ≤ 32
length-tmp_of type num base =
    let h = length-digits_loop 32 type.small base (magnitude type num) in
    elim (Bool-cases (magnitude type num == 0)) [ inl t ↦ rw t (omega arith) | inr t ↦ rw t h ]

length-backwards : (cs : List ℕ) → length (backwards cs) ≡ length cs
unfolding backwards
length-backwards [] = refl
length-backwards (c ∷ cs) =
    length-append (backwards cs) (c ∷ []) ∙ (let e = length-backwards cs in omega (arith, e))

magnitude_small : (type : Flags) (num : ℕ) → num < 2 ^ 32 → magnitude type num < 2 ^ 32
magnitude_small type num l = elim (Bool-cases (type.sign && leb (2 ^ 31) num)) [
  | inl t ↦ rw t (omega arith)
  | inr t ↦ rw t l
]

pub tmp_of-Shown :
    (type : Flags) (num base : ℕ)
    → IsBase base
    → num < 2 ^ 32
    → Shown type.small base (magnitude type num) (tmp_of type num base)
      × (1 ≤ length (backwards (tmp_of type num base)))
unfolding backwards
tmp_of-Shown type num base is l =
    let n : ℕ = magnitude type num in
    elim (ℕ_discrete n 0) [
      | yes z ↦ rw z (zero-Shown type.small base is, omega arith)
      | no nz ↦
          let t : (n == 0) ≡ false = ground (arith, nz) in
          let s = shown 32 type.small base n is (magnitude_small type num l) in
          rw t (s, s.some_digits nz)
    ]

length_of_parts :
    (a : ℕ) (sign prefix : List ℕ) (z : ℕ) (digits : List ℕ) (b : ℕ)
    → length
        (replicate a 32 ++ (sign ++ (prefix ++ (replicate z 48 ++ (digits ++ replicate b 32)))))
      ≡ a + (length sign + (length prefix + (z + (length digits + b))))
length_of_parts a sign prefix z digits b =
    length-append (replicate a 32) _
    ∙ ap (λ n. n + length (sign ++ (prefix ++ (replicate z 48 ++ (digits ++ replicate b 32)))))
        (length-replicate a 32)
    ∙ ap (λ n. a + n) (length-append sign _)
    ∙ ap (λ n. a + (length sign + n)) (length-append prefix _)
    ∙ ap (λ n. a + (length sign + (length prefix + n))) (length-append (replicate z 48) _)
    ∙ ap (λ n. a + (length sign + (length prefix + (n + length (digits ++ replicate b 32)))))
        (length-replicate z 48)
    ∙ ap (λ n. a + (length sign + (length prefix + (z + n)))) (length-append digits _)
    ∙ ap (λ n. a + (length sign + (length prefix + (z + (length digits + n)))))
        (length-replicate b 32)

hidden : (b : Bool) → (b && not true) ≡ false
hidden true = refl
hidden false = refl

-- Zeros that fill the width stand before those that fill the precision.
zeros_join :
    (room z : ℕ) (digits : List ℕ)
    → replicate room 48 ++ (replicate z 48 ++ (digits ++ []))
      ≡ replicate (room + z) 48 ++ (digits ++ [])
zeros_join room z digits =
    sym (append-append (replicate room 48) (replicate z 48) (digits ++ []))
    ∙ ap (λ zs. zs ++ (digits ++ [])) (replicate-append room z 48)

-- An `int` that is -1 or more.
abbrev pub IsFieldWidth : ℤ → Type 0
IsFieldWidth size = (pos_part size < 2 ^ 31) × (neg_part size ≤ 1)

-- Far enough below the greatest `int` that no size wraps.
abbrev pub IsPrecision : ℤ → Type 0
IsPrecision precision = pos_part precision + 4 ≤ 2 ^ 31

pub number_parts :
    (num base : ℕ) (size precision : ℤ) (type : Flags)
    → num < 2 ^ 32
    → IsBase base
    → IsFieldWidth size
    → IsPrecision precision
    → (out : List ℕ) × (number num base size precision type ≡ some out)
      × IsLaidOut num base size precision type out
unfolding number
number_parts num base size precision type l is (w, w') p =
    let t : (ltb base 2 || ltb 36 base) ≡ false = elim is [
      | inl e ↦ rw e refl
      | inr (inl e) ↦ rw e refl
      | inr (inr e) ↦ rw e refl
    ] in
    let (s, n) = tmp_of-Shown type num base is l in
    let sign : List ℕ = sign_of type num in
    let prefix : List ℕ = prefix_of type base in
    let tmp : List ℕ = tmp_of type num base in
    let same = length-backwards tmp in
    let prec : ℕ = pos_part (at_least (length tmp) precision) in
    let at = at_least_lem (length tmp) precision in
    let room : ℕ = room_of size (length sign) (length prefix) prec in
    let z : ℕ = prec - length tmp in
    let few = length-tmp_of type num base in
    let r =
      room_of_lem size (length sign) (length prefix) prec w w' (length-sign_of type num)
        (length-prefix_of type base) (omega (arith, at, few, p)) in
    elim (Bool-cases type.left) [
      | inl left ↦
          let parts = length_of_parts 0 sign prefix z (backwards tmp) room in
          (
            _,
            rw (t, left, hidden type.zeropad) refl,
            record {
              before = 0;
              zeros = z;
              digits = backwards tmp;
              behind = room;
              parts = refl;
              value = s.value;
              all = s.all;
              some_digits = n;
              first = s.first;
              width = parts ∙ omega (arith, r, same, at);
              precise = omega (arith, same, at);
              right = λ f. absurd (cc (f, left));
              left = λ _. (refl, omega (arith, same, at));
              padded = λ _. refl;
              plain = λ _. omega (arith, same, at);
            },
          )
      | inr right ↦ elim (Bool-cases type.zeropad) [
        | inl pad ↦
            let parts = length_of_parts 0 sign prefix (room + z) (backwards tmp) 0 in
            (
              _,
              rw (t, right, pad) refl,
              record {
                before = 0;
                zeros = room + z;
                digits = backwards tmp;
                behind = 0;
                parts = ap (λ zs. sign ++ (prefix ++ zs)) (zeros_join room z (backwards tmp));
                value = s.value;
                all = s.all;
                some_digits = n;
                first = s.first;
                width =
                    ap (λ zs. length (sign ++ (prefix ++ zs))) (zeros_join room z (backwards tmp))
                    ∙ parts
                    ∙ omega (arith, r, same, at);
                precise = omega (arith, same, at);
                right = λ _. refl;
                left = λ f. absurd (cc (f, right));
                padded = λ _. refl;
                plain = λ f. absurd (cc (f, pad));
              },
            )
        | inr plain ↦
            let parts = length_of_parts room sign prefix z (backwards tmp) 0 in
            (
              _,
              rw (t, right, plain) refl,
              record {
                before = room;
                zeros = z;
                digits = backwards tmp;
                behind = 0;
                parts = refl;
                value = s.value;
                all = s.all;
                some_digits = n;
                first = s.first;
                width = parts ∙ omega (arith, r, same, at);
                precise = omega (arith, same, at);
                right = λ _. refl;
                left = λ f. absurd (cc (f, right));
                padded = λ f. absurd (cc (f, plain));
                plain = λ _. omega (arith, same, at);
              },
            )
      ]
    ]
