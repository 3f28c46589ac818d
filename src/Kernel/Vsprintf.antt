-- ===== src/Kernel/Vsprintf.antt =====
-- Formatted output: vsprintf of linux-0.11/kernel/vsprintf.c, over Kernel.Number. Strings are lists of
-- bytes, without the 0 at their end; the output is what stands in the buffer. The arguments are the
-- words that va_arg finds one behind the other, and `text` gives the string at an address.
pub mod Show
pub mod Parse
pub mod Directive
pub mod Ends
mod Tests
use linux_0_11_lab.Base.{
  Bool, List, Option, [], false, if◌then◌else◌, length, none, not, replicate, some, suc, take, true,
  zero, ℕ, ◌%◌, ◌++◌, ◌+◌, ◌-◌, ◌==◌, ◌^◌, ◌||◌, ◌∷◌,
}
use linux_0_11_lab.Base.Int.{eqb_ℤ, negsuc, pos, pos_part, ℤ}
use linux_0_11_lab.Kernel.Number.{Flags, is_digit, is_negative, number, skip_atoi, to_int}

-- The flag that a character sets.
abbrev pub flag_of : ℕ → Flags → Option Flags
flag_of c flags =
    if c == 45
    then some (record flags { left = true })
    else if c == 43
    then some (record flags { plus = true })
    else if c == 32
    then some (record flags { space = true })
    else if c == 35
    then some (record flags { special = true })
    else if c == 48
    then some (record flags { zeropad = true })
    else none

abbrev pub if_flag : Option Flags → Flags × List ℕ → (Flags → Flags × List ℕ) → Flags × List ℕ
if_flag none stop go = stop
if_flag (some flags) stop go = go flags

-- `repeat:`
pub parse_flags : List ℕ → Flags → Flags × List ℕ
parse_flags [] flags = (flags, [])
parse_flags (c ∷ cs) flags = if_flag (flag_of c flags) (flags, c ∷ cs) (parse_flags cs)

abbrev pub no_flags : Flags
no_flags = record {
  zeropad = false;
  sign = false;
  plus = false;
  space = false;
  left = false;
  special = false;
  small = false;
}

-- The field width, with the number of the next argument. The length of a negative one is taken modulo
-- 2 ^ 32.
pub parse_width : (ℕ → ℕ) → Flags → ℕ → List ℕ → Flags × ℤ × ℕ × List ℕ
parse_width args flags k [] = (flags, negsuc 0, k, [])
parse_width args flags k (c ∷ cs) =
    if is_digit c
    then (let (width, rest) = skip_atoi (c ∷ cs) in (flags, to_int width, k, rest))
    else if c == 42
    then if is_negative (args k)
      then (record flags { left = true }, to_int ((2 ^ 32 - args k) % 2 ^ 32), k + 1, cs)
      else (flags, to_int (args k), k + 1, cs)
    else (flags, negsuc 0, k, c ∷ cs)

-- `if (precision < 0) precision = 0`
abbrev at_least_0 : ℤ → ℤ
at_least_0 p = pos (pos_part p)

-- The precision behind a dot.
pub parse_digits : (ℕ → ℕ) → ℕ → List ℕ → ℤ × ℕ × List ℕ
parse_digits args k [] = (pos 0, k, [])
parse_digits args k (c ∷ cs) =
    if is_digit c
    then (let (precision, rest) = skip_atoi (c ∷ cs) in (at_least_0 (to_int precision), k, rest))
    else if c == 42
    then (at_least_0 (to_int (args k)), k + 1, cs)
    else (pos 0, k, c ∷ cs)

pub parse_precision : (ℕ → ℕ) → ℕ → List ℕ → ℤ × ℕ × List ℕ
parse_precision args k [] = (negsuc 0, k, [])
parse_precision args k (c ∷ cs) = if c == 46 then parse_digits args k cs else (negsuc 0, k, c ∷ cs)

-- 'h', 'l' and 'L' are passed over.
pub skip_qualifier : List ℕ → List ℕ
skip_qualifier [] = []
skip_qualifier (c ∷ cs) = if c == 104 || c == 108 || c == 76 then cs else c ∷ cs

pub data Conversion : Type 0 where
  character : Conversion
  string : Conversion
  octal : Conversion
  pointer : Conversion
  hex_small : Conversion
  hex : Conversion
  signed : Conversion
  unsigned : Conversion
  count : Conversion
  literal : Conversion

abbrev pub conversion_of : ℕ → Conversion
conversion_of c =
    if c == 99
    then character
    else if c == 115
    then string
    else if c == 111
    then octal
    else if c == 112
    then pointer
    else if c == 120
    then hex_small
    else if c == 88
    then hex
    else if c == 100 || c == 105
    then signed
    else if c == 117
    then unsigned
    else if c == 110
    then count
    else literal

-- What a conversion gives: its text, what it stores at which address, and the next argument.
pub record Converted : Type 0 where
  pub text : List ℕ
  pub stores : List (ℕ × ℕ)
  pub next_arg : ℕ

abbrev pub or_nothing : Option (List ℕ) → List ℕ
or_nothing none = []
or_nothing (some out) = out

-- The base is one that number takes.
abbrev pub put_number : ℕ → ℕ → ℕ → ℤ → ℤ → Flags → Converted
put_number k num base width precision flags = record {
  text = or_nothing (number num base width precision flags);
  stores = [];
  next_arg = k + 1;
}

-- 'p' without a width has 8 digits with zeros.
abbrev is_unset : ℤ → Bool
is_unset w = eqb_ℤ w (negsuc 0)

-- `<NULL>`
abbrev null_text : List ℕ
null_text = 60 ∷ 78 ∷ 85 ∷ 76 ∷ 76 ∷ 62 ∷ []

abbrev string_at : (ℕ → List ℕ) → ℕ → ℤ → List ℕ
string_at text p precision =
    let s = (if p == 0 then null_text else text p) in
    elim precision [ pos n ↦ take n s | negsuc _ ↦ s ]

-- The blanks that fill text of length `n` up to the width.
abbrev padded : Flags → ℤ → ℕ → List ℕ → List ℕ
padded flags width n s =
    let blanks = replicate (pos_part width - n) 32 in
    if flags.left then s ++ blanks else blanks ++ s

pub convert : (ℕ → ℕ) → (ℕ → List ℕ) → ℕ → ℕ → ℤ → ℤ → Flags → ℕ → Conversion → Converted
convert args text k written width precision flags c character = record {
  text = padded flags width 1 (args k % 256 ∷ []);
  stores = [];
  next_arg = k + 1;
}
convert args text k written width precision flags c string =
    let s = string_at text (args k) precision in
    record { text = padded flags width (length s) s; stores = []; next_arg = k + 1 }
convert args text k written width precision flags c octal =
    put_number k (args k) 8 width precision flags
convert args text k written width precision flags c pointer =
    put_number k (args k) 16 (if is_unset width then pos 8 else width) precision
      (if is_unset width then record flags { zeropad = true } else flags)
convert args text k written width precision flags c hex_small =
    put_number k (args k) 16 width precision (record flags { small = true })
convert args text k written width precision flags c hex =
    put_number k (args k) 16 width precision flags
convert args text k written width precision flags c signed =
    put_number k (args k) 10 width precision (record flags { sign = true })
convert args text k written width precision flags c unsigned =
    put_number k (args k) 10 width precision flags
convert args text k written width precision flags c count = record {
  text = [];
  stores = (args k, written) ∷ [];
  next_arg = k + 1;
}
convert args text k written width precision flags c literal = record {
  text = (if c == 37 then 37 ∷ [] else 37 ∷ c ∷ []);
  stores = [];
  next_arg = k;
}

-- At the end of the format the last of it is a '%'.
abbrev pub convert_at : (ℕ → ℕ) → (ℕ → List ℕ) → ℕ → ℕ → ℤ → ℤ → Flags → List ℕ → Converted × List ℕ
convert_at args text k written width precision flags [] =
    (record { text = 37 ∷ []; stores = []; next_arg = k }, [])
convert_at args text k written width precision flags (c ∷ rest) =
    (convert args text k written width precision flags c (conversion_of c), rest)

-- A directive, behind its '%', and what is left of the format.
pub directive : (ℕ → ℕ) → (ℕ → List ℕ) → ℕ → ℕ → List ℕ → Converted × List ℕ
directive args text k written cs =
    let (flags0, cs1) = parse_flags cs no_flags in
    let (flags, width, k1, cs2) = parse_width args flags0 k cs1 in
    let (precision, k2, cs3) = parse_precision args k1 cs2 in
    convert_at args text k2 written width precision flags (skip_qualifier cs3)

-- What is behind the rest of the loop.
abbrev pub put_before :
    List ℕ → List (ℕ × ℕ) → Option (List ℕ × List (ℕ × ℕ)) → Option (List ℕ × List (ℕ × ℕ))
put_before out stores none = none
put_before out stores (some r) = some (out ++ r.0, stores ++ r.1)

-- One pass of `for (str=buf ; *fmt ; ++fmt)`.
pub pass : (ℕ → ℕ) → (ℕ → List ℕ) → ℕ → ℕ → ℕ → List ℕ → Converted × List ℕ
pass args text k written c cs =
    if not (c == 37)
    then (record { text = c ∷ []; stores = []; next_arg = k }, cs)
    else directive args text k written cs

-- The loop; `none` is the end of the fuel.
pub format_loop : ℕ → (ℕ → ℕ) → (ℕ → List ℕ) → List ℕ → ℕ → ℕ → Option (List ℕ × List (ℕ × ℕ))
format_loop zero args text [] k written = some ([], [])
format_loop zero args text (c ∷ cs) k written = none
format_loop (suc fuel) args text [] k written = some ([], [])
format_loop (suc fuel) args text (c ∷ cs) k written =
    let (done, rest) = pass args text k written c cs in
    put_before done.text done.stores
      (format_loop fuel args text rest done.next_arg (written + length done.text))

-- The text in the buffer, and the stores of `%n`. The value is the length of the text.
pub vsprintf : (ℕ → ℕ) → (ℕ → List ℕ) → List ℕ → Option (List ℕ × List (ℕ × ℕ))
vsprintf args text fmt = format_loop (length fmt) args text fmt 0 0
