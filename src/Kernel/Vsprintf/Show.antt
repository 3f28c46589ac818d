-- ===== src/Kernel/Vsprintf/Show.antt =====
-- Directives as a programmer writes them.
use linux_0_11_lab.Base.{Bool, List, Option, false, if◌then◌else◌, none, some, true, ℕ, ◌++◌, ◌∷◌}
use linux_0_11_lab.Base.Int.{negsuc, pos, ℤ}
use linux_0_11_lab.Kernel.Number.{Flags, backwards, tmp_of}
use linux_0_11_lab.Kernel.Vsprintf.{no_flags}

abbrev pub put_flag : Bool → ℕ → List ℕ → List ℕ
put_flag b c cs = if b then c ∷ cs else cs

-- The flags that stand in a format.
abbrev pub show_flags : Flags → List ℕ → List ℕ
show_flags flags cs = put_flag flags.left 45 (
    put_flag flags.plus 43
      (put_flag flags.space 32 (put_flag flags.special 35 (put_flag flags.zeropad 48 cs))))

abbrev pub decimal : ℕ → List ℕ
decimal n = backwards (tmp_of no_flags n 10)

abbrev pub show_width : Option ℕ → List ℕ → List ℕ
show_width none cs = cs
show_width (some w) cs = decimal w ++ cs

abbrev pub show_precision : Option ℕ → List ℕ → List ℕ
show_precision none cs = cs
show_precision (some p) cs = 46 ∷ (decimal p ++ cs)

-- The letters of numbers.
pub data Letter : Type 0 where
  letter_d : Letter
  letter_i : Letter
  letter_u : Letter
  letter_o : Letter
  letter_x : Letter
  letter_X : Letter

abbrev pub char_of : Letter → ℕ
char_of letter_d = 100
char_of letter_i = 105
char_of letter_u = 117
char_of letter_o = 111
char_of letter_x = 120
char_of letter_X = 88

abbrev pub base_of : Letter → ℕ
base_of letter_d = 10
base_of letter_i = 10
base_of letter_u = 10
base_of letter_o = 8
base_of letter_x = 16
base_of letter_X = 16

-- The flags of a format, and those of a letter.
abbrev pub type_of : Letter → Flags → Flags
type_of letter_d flags = record flags { sign = true; small = false }
type_of letter_i flags = record flags { sign = true; small = false }
type_of letter_u flags = record flags { sign = false; small = false }
type_of letter_o flags = record flags { sign = false; small = false }
type_of letter_x flags = record flags { sign = false; small = true }
type_of letter_X flags = record flags { sign = false; small = false }

abbrev pub given_or_unset : Option ℕ → ℤ
given_or_unset none = negsuc 0
given_or_unset (some n) = pos n

-- A directive for a number, with the rest of the format.
abbrev pub show_directive : Flags → Option ℕ → Option ℕ → Letter → List ℕ → List ℕ
show_directive flags width precision letter rest =
    37 ∷ show_flags flags (show_width width (show_precision precision (char_of letter ∷ rest)))
