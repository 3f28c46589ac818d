-- ===== src/Kernel/Vsprintf/Parse.antt =====
-- Parsing what a directive shows.
use linux_0_11_lab.Base.{
  Bool, List, Option, [], ap, arith, false, get_or, inl, inr, leb, length, none, refl, some, sym,
  true, ℕ, ◌%◌, ◌*◌, ◌++◌, ◌+◌, ◌-◌, ◌<◌, ◌==◌, ◌^◌, ◌∙◌, ◌∷◌, ◌≡◌, ◌≢◌, ◌≤◌,
}
use linux_0_11_lab.Base.Int.{pos, pos_part}
use linux_0_11_lab.Kernel.Number.{Flags, digit, is_digit, skip_atoi, skip_atoi_from, to_int}
use linux_0_11_lab.Kernel.Number.Digits.{AllDigits, digit_value, read_digits}
use linux_0_11_lab.Kernel.Number.Parts.{tmp_of-Shown}
use linux_0_11_lab.Kernel.Vsprintf.{
  no_flags, parse_digits, parse_flags, parse_precision, parse_width,
}
use linux_0_11_lab.Kernel.Vsprintf.Show.{
  decimal, given_or_unset, put_flag, show_flags, show_precision, show_width,
}

flag_left :
    (b : Bool) (cs : List ℕ) (fl : Flags)
    → fl.left ≡ false
    → parse_flags (put_flag b 45 cs) fl ≡ parse_flags cs (record fl { left = b })
unfolding parse_flags
flag_left true cs fl e = refl
flag_left false cs fl e = ap (λ x. parse_flags cs (record fl { left = x })) e

flag_plus :
    (b : Bool) (cs : List ℕ) (fl : Flags)
    → fl.plus ≡ false
    → parse_flags (put_flag b 43 cs) fl ≡ parse_flags cs (record fl { plus = b })
unfolding parse_flags
flag_plus true cs fl e = refl
flag_plus false cs fl e = ap (λ x. parse_flags cs (record fl { plus = x })) e

flag_space :
    (b : Bool) (cs : List ℕ) (fl : Flags)
    → fl.space ≡ false
    → parse_flags (put_flag b 32 cs) fl ≡ parse_flags cs (record fl { space = b })
unfolding parse_flags
flag_space true cs fl e = refl
flag_space false cs fl e = ap (λ x. parse_flags cs (record fl { space = x })) e

flag_special :
    (b : Bool) (cs : List ℕ) (fl : Flags)
    → fl.special ≡ false
    → parse_flags (put_flag b 35 cs) fl ≡ parse_flags cs (record fl { special = b })
unfolding parse_flags
flag_special true cs fl e = refl
flag_special false cs fl e = ap (λ x. parse_flags cs (record fl { special = x })) e

flag_zeropad :
    (b : Bool) (cs : List ℕ) (fl : Flags)
    → fl.zeropad ≡ false
    → parse_flags (put_flag b 48 cs) fl ≡ parse_flags cs (record fl { zeropad = b })
unfolding parse_flags
flag_zeropad true cs fl e = refl
flag_zeropad false cs fl e = ap (λ x. parse_flags cs (record fl { zeropad = x })) e

abbrev pub IsPlain : ℕ → Type 0
IsPlain c = (c ≢ 45) × (c ≢ 43) × (c ≢ 32) × (c ≢ 35) × (c ≢ 48)

parse_flags_stop :
    (c : ℕ) (cs : List ℕ) (fl : Flags) → IsPlain c → parse_flags (c ∷ cs) fl ≡ (fl, c ∷ cs)
unfolding parse_flags
parse_flags_stop c cs fl (a, b, d, e, f) =
    let ta : (c == 45) ≡ false = ground (arith, a) in
    let tb : (c == 43) ≡ false = ground (arith, b) in
    let td : (c == 32) ≡ false = ground (arith, d) in
    let te : (c == 35) ≡ false = ground (arith, e) in
    let tf : (c == 48) ≡ false = ground (arith, f) in rw (ta, tb, td, te, tf) refl

pub parse_flags-show_flags :
    (flags : Flags) (c : ℕ) (cs : List ℕ)
    → IsPlain c
    → parse_flags (show_flags flags (c ∷ cs)) no_flags
      ≡ (record flags { sign = false; small = false }, c ∷ cs)
parse_flags-show_flags flags c cs plain =
    flag_left flags.left _ no_flags refl
    ∙ flag_plus flags.plus _ _ refl
    ∙ flag_space flags.space _ _ refl
    ∙ flag_special flags.special _ _ refl
    ∙ flag_zeropad flags.zeropad _ _ refl
    ∙ parse_flags_stop c cs _ plain

read_digits_grows : (i : ℕ) (xs : List ℕ) → i ≤ read_digits 10 i xs
unfolding read_digits
read_digits_grows i [] = omega arith
read_digits_grows i (x ∷ xs) =
    let l = read_digits_grows (i * 10 + digit_value x) xs in omega (arith, l)

digit_of_ten :
    (d : ℕ)
    → d < 10
    → (digit false d ≡ d + 48)
      × (is_digit (digit false d) ≡ true)
      × (digit_value (digit false d) ≡ d)
digit_of_ten d l = (ground arith, ground arith, ground arith)

-- skip_atoi reads digits up to what is no digit.
pub skip_atoi_digits :
    (i : ℕ) (xs : List ℕ) (c : ℕ) (cs : List ℕ)
    → AllDigits 10 false xs
    → read_digits 10 i xs < 2 ^ 32
    → is_digit c ≡ false
    → skip_atoi_from i (xs ++ (c ∷ cs)) ≡ (read_digits 10 i xs, c ∷ cs)
unfolding skip_atoi_from read_digits AllDigits
skip_atoi_digits i [] c cs all small stop = rw stop refl
skip_atoi_digits i (x ∷ xs) c cs ((d, l, e), all) small stop =
    let (is, t, v) = digit_of_ten d l in
    let t' : is_digit x ≡ true = rw e t in
    let v' : digit_value x ≡ d = ap digit_value e ∙ v in
    let grows = read_digits_grows (i * 10 + digit_value x) xs in
    let next_value : (i * 10 + x - 48) % 2 ^ 32 ≡ i * 10 + digit_value x =
      omega (arith, e, is, v', grows, small) in
    rw (t', next_value) (skip_atoi_digits (i * 10 + digit_value x) xs c cs all small stop)

-- skip_atoi reads the digits that number writes.
pub skip_atoi-decimal :
    (n c : ℕ) (cs : List ℕ)
    → n < 2 ^ 32
    → is_digit c ≡ false
    → skip_atoi (decimal n ++ (c ∷ cs)) ≡ (n, c ∷ cs)
skip_atoi-decimal n c cs l stop =
    let (s, some_digits) = tmp_of-Shown no_flags n 10 (inr (inl refl)) l in
    skip_atoi_digits 0 (decimal n) c cs s.all (let v = s.value in omega (arith, v, l)) stop
    ∙ ap (λ v. (v, c ∷ cs)) s.value

first_digit :
    (xs : List ℕ)
    → AllDigits 10 false xs
    → 1 ≤ length xs
    → (y : ℕ) × (ys : List ℕ) × (xs ≡ y ∷ ys) × (is_digit y ≡ true)
unfolding AllDigits
first_digit [] all l = absurd (omega arith)
first_digit (x ∷ xs) ((d, small, e), all) l =
    (x, xs, refl, let (_, t, _) = digit_of_ten d small in rw e t)

-- The first character of a number.
pub decimal_first :
    (n : ℕ)
    → n < 2 ^ 32
    → (y : ℕ) × (ys : List ℕ) × (decimal n ≡ y ∷ ys) × (is_digit y ≡ true) × (n ≢ 0 → y ≢ 48)
decimal_first n l =
    let (s, some_digits) = tmp_of-Shown no_flags n 10 (inr (inl refl)) l in
    let (y, ys, e, t) = first_digit (decimal n) s.all some_digits in
    (y, ys, e, t, λ nz z. s.first nz (ap (λ xs. get_or xs 0 48) e ∙ z))

to_int_small : (n : ℕ) → n < 2 ^ 31 → to_int n ≡ pos n
to_int_small n l = let t : leb (2 ^ 31) n ≡ false = ground arith in rw t refl

pub parse_width-show_width :
    (args : ℕ → ℕ) (fl : Flags) (k : ℕ) (width : Option ℕ) (c : ℕ) (cs : List ℕ)
    → ((w : ℕ) → width ≡ some w → w < 2 ^ 31)
    → is_digit c ≡ false
    → c ≢ 42
    → parse_width args fl k (show_width width (c ∷ cs)) ≡ (fl, given_or_unset width, k, c ∷ cs)
unfolding parse_width
parse_width-show_width args fl k none c cs small stop star =
    let t : (c == 42) ≡ false = ground (arith, star) in rw (stop, t) refl
parse_width-show_width args fl k (some w) c cs small stop star =
    let l : w < 2 ^ 31 = small w refl in
    let (y, ys, e, t, _) = decimal_first w (omega (arith, l)) in
    let read = skip_atoi-decimal w c cs (omega (arith, l)) stop in
    let read' : skip_atoi (y ∷ (ys ++ (c ∷ cs))) ≡ (w, c ∷ cs) =
      ap (λ xs. skip_atoi (xs ++ (c ∷ cs))) (sym e) ∙ read in
    ap (λ xs. parse_width args fl k (xs ++ (c ∷ cs))) e
    ∙ rw (t, read') (ap (λ v. (fl, v, k, c ∷ cs)) (to_int_small w l))

pub parse_precision-show_precision :
    (args : ℕ → ℕ) (k : ℕ) (precision : Option ℕ) (c : ℕ) (cs : List ℕ)
    → ((p : ℕ) → precision ≡ some p → p < 2 ^ 31)
    → is_digit c ≡ false
    → c ≢ 46
    → parse_precision args k (show_precision precision (c ∷ cs))
      ≡ (given_or_unset precision, k, c ∷ cs)
unfolding parse_precision parse_digits
parse_precision-show_precision args k none c cs small stop dot =
    let t : (c == 46) ≡ false = ground (arith, dot) in rw t refl
parse_precision-show_precision args k (some p) c cs small stop dot =
    let l : p < 2 ^ 31 = small p refl in
    let (y, ys, e, t, _) = decimal_first p (omega (arith, l)) in
    let read = skip_atoi-decimal p c cs (omega (arith, l)) stop in
    let read' : skip_atoi (y ∷ (ys ++ (c ∷ cs))) ≡ (p, c ∷ cs) =
      ap (λ xs. skip_atoi (xs ++ (c ∷ cs))) (sym e) ∙ read in
    ap (λ xs. parse_digits args k (xs ++ (c ∷ cs))) e
    ∙ rw (t, read') (ap (λ v. (pos (pos_part v), k, c ∷ cs)) (to_int_small p l))
