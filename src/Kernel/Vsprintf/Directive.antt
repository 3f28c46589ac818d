-- ===== src/Kernel/Vsprintf/Directive.antt =====
-- vsprintf on the directives for numbers.
use linux_0_11_lab.Base.{
  List, Option, [], ap, arith, false, inl, inr, length, none, refl, some, suc, sym, ℕ, ◌++◌, ◌+◌,
  ◌<◌, ◌^◌, ◌∙◌, ◌∷◌, ◌≡◌, ◌≢◌, ◌≤◌,
}
use linux_0_11_lab.Base.Int.{ℤ}
use linux_0_11_lab.Kernel.Number.{Flags, is_digit}
use linux_0_11_lab.Kernel.Number.Digits.{IsBase}
use linux_0_11_lab.Kernel.Number.Parts.{IsFieldWidth, IsPrecision}
use linux_0_11_lab.Kernel.Number.Text.{IsNumber, number_lem}
use linux_0_11_lab.Kernel.Vsprintf.{
  convert, convert_at, directive, format_loop, no_flags, or_nothing, parse_flags, parse_precision,
  pass, put_before, put_number, skip_qualifier,
}
use linux_0_11_lab.Kernel.Vsprintf.Parse.{
  IsPlain, decimal_first, parse_flags-show_flags, parse_precision-show_precision,
  parse_width-show_width,
}
use linux_0_11_lab.Kernel.Vsprintf.Show.{
  Letter, base_of, char_of, given_or_unset, letter_X, letter_d, letter_i, letter_o, letter_u,
  letter_x, show_directive, show_flags, show_precision, show_width, type_of,
}

letter_high : (letter : Letter) → (88 ≤ char_of letter) × (IsBase (base_of letter))
letter_high letter_d = (omega arith, inr (inl refl))
letter_high letter_i = (omega arith, inr (inl refl))
letter_high letter_u = (omega arith, inr (inl refl))
letter_high letter_o = (omega arith, inl refl)
letter_high letter_x = (omega arith, inr (inr refl))
letter_high letter_X = (omega arith, inr (inr refl))

-- What may stand behind a width.
abbrev IsStop : ℕ → Type 0
IsStop c = IsPlain c × (is_digit c ≡ false) × (c ≢ 42)

high-IsStop : (c : ℕ) → 88 ≤ c → IsStop c
high-IsStop c l = (
  (
    (λ e. omega (arith, e, l)),
    (λ e. omega (arith, e, l)),
    (λ e. omega (arith, e, l)),
    (λ e. omega (arith, e, l)),
    (λ e. omega (arith, e, l)),
  ),
  ground (arith, l),
  (λ e. omega (arith, e, l)),
)

dot-IsStop : IsStop 46
dot-IsStop = (
  (
    (λ e. omega (arith, e)),
    (λ e. omega (arith, e)),
    (λ e. omega (arith, e)),
    (λ e. omega (arith, e)),
    (λ e. omega (arith, e)),
  ),
  refl,
  (λ e. omega (arith, e)),
)

behind_width :
    (precision : Option ℕ) (letter : Letter) (rest : List ℕ)
    → (c : ℕ) × (cs : List ℕ) × (show_precision precision (char_of letter ∷ rest) ≡ c ∷ cs)
      × IsStop c
behind_width none letter rest =
    (char_of letter, rest, refl, high-IsStop (char_of letter) (letter_high letter).0)
behind_width (some p) letter rest = (46, _, refl, dot-IsStop)

behind_flags :
    (width : Option ℕ) (c : ℕ) (cs : List ℕ)
    → ((w : ℕ) → width ≡ some w → (1 ≤ w) × (w < 2 ^ 31))
    → IsStop c
    → (y : ℕ) × (ys : List ℕ) × (show_width width (c ∷ cs) ≡ y ∷ ys) × IsPlain y
behind_flags none c cs small stop = (c, cs, refl, stop.0)
behind_flags (some w) c cs small stop =
    let (one, l) = small w refl in
    let (y, ys, e, t, first) = decimal_first w (omega (arith, l)) in
    let ne : y ≢ 48 = first (λ z. omega (arith, z, one)) in
    (
      y,
      ys ++ (c ∷ cs),
      ap (λ xs. xs ++ (c ∷ cs)) e,
      (
        (λ q. ground (arith, q, t)),
        (λ q. ground (arith, q, t)),
        (λ q. ground (arith, q, t)),
        (λ q. ground (arith, q, t)),
        ne,
      ),
    )

converted :
    (args : ℕ → ℕ) (text : ℕ → List ℕ) (k written : ℕ) (w p : ℤ) (flags : Flags) (letter : Letter)
    (rest : List ℕ)
    → convert_at args text k written w p
        (record flags { sign = false; small = false })
        (skip_qualifier (char_of letter ∷ rest))
      ≡ (put_number k (args k) (base_of letter) w p (type_of letter flags), rest)
unfolding skip_qualifier convert
converted args text k written w p flags letter_d rest = refl
converted args text k written w p flags letter_i rest = refl
converted args text k written w p flags letter_u rest = refl
converted args text k written w p flags letter_o rest = refl
converted args text k written w p flags letter_x rest = refl
converted args text k written w p flags letter_X rest = refl

directive_lem :
    (args : ℕ → ℕ) (text : ℕ → List ℕ) (k written : ℕ) (flags : Flags) (width precision : Option ℕ)
    (letter : Letter) (rest : List ℕ)
    → ((w : ℕ) → width ≡ some w → (1 ≤ w) × (w < 2 ^ 31))
    → ((p : ℕ) → precision ≡ some p → p < 2 ^ 31)
    → directive args text k written
        (show_flags flags (show_width width (show_precision precision (char_of letter ∷ rest))))
      ≡ (
        put_number k
            (args k)
            (base_of letter)
            (given_or_unset width)
            (given_or_unset precision)
            (type_of letter flags),
        rest,
      )
unfolding directive
directive_lem args text k written flags width precision letter rest small small' =
    let (c, cs, e, stop) = behind_width precision letter rest in
    let (y, ys, e', plain) = behind_flags width c cs small stop in
    let (high, _) = letter_high letter in
    let fl : Flags = record flags { sign = false; small = false } in
    let flags_read : parse_flags
          (show_flags flags (show_width width (show_precision precision (char_of letter ∷ rest))))
          no_flags
        ≡ (fl, show_width width (c ∷ cs)) =
      ap (λ xs. parse_flags (show_flags flags xs) no_flags) (ap (show_width width) e ∙ e')
      ∙ parse_flags-show_flags flags y ys plain
      ∙ ap (λ xs. (fl, xs)) (sym e') in
    let width_read =
      parse_width-show_width args fl k width c cs (λ w q. (small w q).1) stop.1 stop.2 in
    let precision_read : parse_precision args k (c ∷ cs)
        ≡ (given_or_unset precision, k, char_of letter ∷ rest) =
      ap (parse_precision args k) (sym e)
      ∙ parse_precision-show_precision args k precision (char_of letter) rest small'
          (ground (arith, high)) (λ q. omega (arith, q, high)) in
    rw (flags_read, width_read, precision_read)
      (converted args text k written (given_or_unset width) (given_or_unset precision) flags letter
        rest)

width_lem :
    (width : Option ℕ)
    → ((w : ℕ) → width ≡ some w → (1 ≤ w) × (w < 2 ^ 31))
    → IsFieldWidth (given_or_unset width)
width_lem none small = (omega arith, omega arith)
width_lem (some w) small = ((small w refl).1, omega arith)

precision_lem :
    (precision : Option ℕ)
    → ((p : ℕ) → precision ≡ some p → p + 4 ≤ 2 ^ 31)
    → IsPrecision (given_or_unset precision)
precision_lem none small = omega arith
precision_lem (some p) small = small p refl

-- vsprintf at a directive for a number: '%', any of the flags, a width of 1 or more or none, a
-- precision below 2 ^ 31 - 3 or none, and one of d, i, u, o, x and X. It puts the text of the next argument, with the
-- base of the letter and with these flags, width and precision, into the buffer, and goes on behind the
-- letter and with the argument after it.
pub format_loop-show_directive :
    (fuel : ℕ) (args : ℕ → ℕ) (text : ℕ → List ℕ) (k written : ℕ) (flags : Flags)
    (width precision : Option ℕ) (letter : Letter) (rest : List ℕ)
    → args k < 2 ^ 32
    → ((w : ℕ) → width ≡ some w → (1 ≤ w) × (w < 2 ^ 31))
    → ((p : ℕ) → precision ≡ some p → p + 4 ≤ 2 ^ 31)
    → (out : List ℕ) × IsNumber
        (args k)
        (base_of letter)
        (given_or_unset width)
        (given_or_unset precision)
        (type_of letter flags)
        out
      × (format_loop
            (suc fuel)
            args
            text
            (show_directive flags width precision letter rest)
            k
            written
          ≡ put_before out [] (format_loop fuel args text rest (k + 1) (written + length out)))
unfolding format_loop pass
format_loop-show_directive fuel args text k written flags width precision letter rest word small
      small' =
    let (out, e, is) =
      number_lem (args k) (base_of letter) (given_or_unset width) (given_or_unset precision)
        (type_of letter flags) word (letter_high letter).1 (width_lem width small)
        (precision_lem precision small') in
    let done : put_number k (args k) (base_of letter) (given_or_unset width)
          (given_or_unset precision) (type_of letter flags)
        ≡ record { text = out; stores = []; next_arg = k + 1 } =
      ap (λ o. record { text = or_nothing o; stores = []; next_arg = k + 1 }) e in
    let whole =
      directive_lem args text k written flags width precision letter rest small
        (λ p e. let l = small' p e in omega (arith, l))
      ∙ ap (λ d. (d, rest)) done in
    (out, is, rw whole refl)
