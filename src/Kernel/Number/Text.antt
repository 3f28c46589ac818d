-- ===== src/Kernel/Number/Text.antt =====
-- What number puts into the buffer.
use linux_0_11_lab.Base.{
  Bool, List, [], arith, false, get_or, leb, length, max, refl, replicate, some, sym, true, ℕ, ◌&&◌,
  ◌++◌, ◌+◌, ◌-◌, ◌<◌, ◌^◌, ◌∙◌, ◌∷◌, ◌≡◌, ◌≢◌, ◌≤◌, ◌⊎◌,
}
use mathlib.Core.Path.{subst}
use linux_0_11_lab.Base.Int.{pos_part, ℤ}
use linux_0_11_lab.Kernel.Number.{Flags, digit, magnitude, number, prefix_of, sign_of}
use linux_0_11_lab.Kernel.Number.Digits.{
  AllDigits, IsBase, digit_value, digit_value-digit, read_digits,
}
use linux_0_11_lab.Kernel.Number.Parts.{IsFieldWidth, IsPrecision, number_parts}

-- A negative number has a minus, any other one what the flags ask for.
pub record IsSign (num : ℕ) (type : Flags) (sign : List ℕ) : Type 0 where
  pub minus : type.sign ≡ true → 2 ^ 31 ≤ num → sign ≡ 45 ∷ []
  pub plus : (type.sign ≡ false) ⊎ (num < 2 ^ 31) → type.plus ≡ true → sign ≡ 43 ∷ []
  pub space :
      (type.sign ≡ false) ⊎ (num < 2 ^ 31) → type.plus ≡ false → type.space ≡ true → sign ≡ 32 ∷ []
  pub no_sign :
      (type.sign ≡ false) ⊎ (num < 2 ^ 31) → type.plus ≡ false → type.space ≡ false → sign ≡ []

-- "0" for octal numbers, "0x" or "0X" for those to base 16.
pub record IsPrefix (base : ℕ) (type : Flags) (prefix : List ℕ) : Type 0 where
  pub without : type.special ≡ false → prefix ≡ []
  pub octal : type.special ≡ true → base ≡ 8 → prefix ≡ 48 ∷ []
  pub decimal : type.special ≡ true → base ≡ 10 → prefix ≡ []
  pub hex : type.special ≡ true → base ≡ 16 → type.small ≡ true → prefix ≡ 48 ∷ 120 ∷ []
  pub hex_large : type.special ≡ true → base ≡ 16 → type.small ≡ false → prefix ≡ 48 ∷ 88 ∷ []

-- A word as a signed number or not: what its digits stand for, without the sign.
pub record IsValue (num : ℕ) (type : Flags) (value : ℕ) : Type 0 where
  pub negated : type.sign ≡ true → 2 ^ 31 ≤ num → value + num ≡ 2 ^ 32
  pub same : (type.sign ≡ false) ⊎ (num < 2 ^ 31) → value ≡ num

-- '0'..'9', and 'a'..'f' or 'A'..'F'.
abbrev pub IsDigit : Bool → ℕ → Type 0
IsDigit small c =
    ((48 ≤ c) × (c ≤ 57))
    ⊎ ((small ≡ true) × (97 ≤ c) × (c ≤ 102))
    ⊎ ((small ≡ false) × (65 ≤ c) × (c ≤ 70))

pub data AreDigits (base : ℕ) (small : Bool) : List ℕ → Type 0 where
  no_digit : AreDigits base small []
  one_more :
      (c : ℕ) (cs : List ℕ)
      → IsDigit small c
      → digit_value c < base
      → AreDigits base small cs
      → AreDigits base small (c ∷ cs)

-- `out` is the number `n`: blanks, the sign, the prefix, zeros, the digits, and blanks again.
pub record IsNumber (num base : ℕ) (size precision : ℤ) (type : Flags) (out : List ℕ) : Type 0 where
  pub before : ℕ
  pub sign : List ℕ
  pub prefix : List ℕ
  pub zeros : ℕ
  pub digits : List ℕ
  pub behind : ℕ
  pub parts :
      out
      ≡ replicate before 32
        ++ (sign ++ (prefix ++ (replicate zeros 48 ++ (digits ++ replicate behind 32))))
  pub its_sign : IsSign num type sign
  pub its_prefix : IsPrefix base type prefix
  pub value : IsValue num type (read_digits base 0 digits)
  pub all : AreDigits base type.small digits
  pub some_digits : 1 ≤ length digits
  pub first : read_digits base 0 digits ≢ 0 → get_or digits 0 48 ≢ 48
  pub width :
      length out
      ≡ max (pos_part size) (length sign + length prefix + max (length digits) (pos_part precision))
  pub precise : pos_part precision ≤ zeros + length digits
  pub right : type.left ≡ false → behind ≡ 0
  pub left : type.left ≡ true → (before ≡ 0) × (zeros ≡ pos_part precision - length digits)
  pub padded : type.zeropad ≡ true → before ≡ 0
  pub plain : type.zeropad ≡ false → zeros ≡ pos_part precision - length digits

sign_of-IsSign : (num : ℕ) (type : Flags) → IsSign num type (sign_of type num)
sign_of-IsSign num type = record {
  minus = λ s n. let t : leb (2 ^ 31) num ≡ true = ground (arith, n) in rw (s, t) refl;
  plus = λ n p. let t = positive n in rw (t, p) refl;
  space = λ n p s. let t = positive n in rw (t, p, s) refl;
  no_sign = λ n p s. let t = positive n in rw (t, p, s) refl;
}
  where
    positive : (type.sign ≡ false) ⊎ (num < 2 ^ 31) → (type.sign && leb (2 ^ 31) num) ≡ false
    positive n = ground (arith, n)

prefix_of-IsPrefix : (base : ℕ) (type : Flags) → IsPrefix base type (prefix_of type base)
prefix_of-IsPrefix base type = record {
  without = λ s. rw s refl;
  octal = λ s b. rw (s, b) refl;
  decimal = λ s b. rw (s, b) refl;
  hex = λ s b m. rw (s, b, m) refl;
  hex_large = λ s b m. rw (s, b, m) refl;
}

magnitude-IsValue : (num : ℕ) (type : Flags) → num < 2 ^ 32 → IsValue num type (magnitude type num)
magnitude-IsValue num type l = record {
  negated =
      λ s n. let t : leb (2 ^ 31) num ≡ true = ground (arith, n) in rw (s, t) (omega (arith, n, l));
  same = λ n. let t : (type.sign && leb (2 ^ 31) num) ≡ false = ground (arith, n) in rw t refl;
}

digit-IsDigit : (small : Bool) (d : ℕ) → d < 16 → IsDigit small (digit small d)
digit-IsDigit true d l = ground arith
digit-IsDigit false d l = ground arith

AllDigits-AreDigits :
    (base : ℕ) (small : Bool) (cs : List ℕ)
    → base ≤ 16
    → AllDigits base small cs
    → AreDigits base small cs
unfolding AllDigits
AllDigits-AreDigits base small [] l all = no_digit
AllDigits-AreDigits base small (c ∷ cs) l ((d, b, e), all) =
    let i = digit-IsDigit small d (omega (arith, b, l)) in
    let v = digit_value-digit small d (omega (arith, b, l)) in
    one_more c cs (rw e i) (rw (e, v) b) (AllDigits-AreDigits base small cs l all)

-- number, for a word of 32 bits and a base that vsprintf uses, gives the text of the number: digits
-- of the base that are read back as the word, or as the word negated where it is to be signed and is
-- negative, and do not start with 0 but for the number 0; with zeros up to the precision, the sign
-- and the prefix of the flags before them, and padding. The text is as long as the width asks, or as
-- its parts need if that is more; the padding is on the side of the flags, and of zeros with ZEROPAD
-- and without LEFT. The width is an `int` from -1 on, and the precision one below 2 ^ 31 - 3.
pub number_lem :
    (num base : ℕ) (size precision : ℤ) (type : Flags)
    → num < 2 ^ 32
    → IsBase base
    → IsFieldWidth size
    → IsPrecision precision
    → (out : List ℕ) × (number num base size precision type ≡ some out)
      × IsNumber num base size precision type out
number_lem num base size precision type l is w p =
    let (out, e, n) = number_parts num base size precision type l is w p in
    (
      out,
      e,
      record {
        before = n.before;
        sign = sign_of type num;
        prefix = prefix_of type base;
        zeros = n.zeros;
        digits = n.digits;
        behind = n.behind;
        parts = n.parts;
        its_sign = sign_of-IsSign num type;
        its_prefix = prefix_of-IsPrefix base type;
        value = subst (IsValue num type) (sym n.value) (magnitude-IsValue num type l);
        all = AllDigits-AreDigits base type.small n.digits (IsBase-small base is) n.all;
        some_digits = n.some_digits;
        first = λ nz. n.first (λ z. nz (n.value ∙ z));
        width = n.width;
        precise = n.precise;
        right = n.right;
        left = n.left;
        padded = n.padded;
        plain = n.plain;
      },
    )
  where
    IsBase-small : (base : ℕ) → IsBase base → base ≤ 16
    IsBase-small base b = ground (arith, b)
