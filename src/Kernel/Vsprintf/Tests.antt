-- ===== src/Kernel/Vsprintf/Tests.antt =====
-- Formats with concrete arguments.
use linux_0_11_lab.Base.{
  List, [], arith, if◌then◌else◌, inl, inr, length, none, refl, some, true, ℕ, ◌+◌, ◌==◌, ◌∷◌, ◌≡◌,
}
use linux_0_11_lab.Base.Int.{negsuc, pos}
use linux_0_11_lab.Kernel.Number.{Flags, number}
use linux_0_11_lab.Kernel.Number.Text.{IsNumber, number_lem}
use linux_0_11_lab.Kernel.Vsprintf.{format_loop, no_flags, put_before}
use linux_0_11_lab.Kernel.Vsprintf.Directive.{format_loop-show_directive}
use linux_0_11_lab.Kernel.Vsprintf.Show.{letter_d, show_directive}

abbrev zero_flags : Flags
zero_flags = record no_flags { zeropad = true }

abbrev values : ℕ → ℕ
values k = if k == 0 then 42 else 4294967295

abbrev strings : ℕ → List ℕ
strings p = []

number_lem_example :
    (out : List ℕ) × (number 4294967295 10 (pos 4) (negsuc 0) (record no_flags { sign = true })
      ≡ some out)
    × IsNumber 4294967295 10 (pos 4) (negsuc 0) (record no_flags { sign = true }) out
number_lem_example =
    number_lem 4294967295 10 (pos 4) (negsuc 0) (record no_flags { sign = true }) (omega arith)
      (inr (inl refl)) (omega arith, omega arith) (omega arith)

format_loop-show_directive_example :
    (out : List ℕ) × IsNumber 42 10
      (pos 4)
      (negsuc 0)
      (record no_flags { zeropad = true; sign = true })
      out
    × (format_loop 9 values strings (show_directive zero_flags (some 4) none letter_d (33 ∷ [])) 0 0
        ≡ put_before out [] (format_loop 8 values strings (33 ∷ []) 1 (0 + length out)))
format_loop-show_directive_example =
    format_loop-show_directive 8 values strings 0 0 zero_flags (some 4) none letter_d (33 ∷ [])
      (omega arith) (λ w e. let e' : 4 ≡ w = cc e in (omega (arith, e'), omega (arith, e')))
      (λ p e. absurd (cc e))
