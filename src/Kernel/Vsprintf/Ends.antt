-- ===== src/Kernel/Vsprintf/Ends.antt =====
-- The loop of vsprintf ends, as each pass takes a character of the format at least.
use linux_0_11_lab.Base.{
  Bool-cases, List, Option-cases, [], arith, inl, inr, length, refl, some, suc, zero, ℕ, ◌%◌, ◌*◌,
  ◌++◌, ◌+◌, ◌-◌, ◌==◌, ◌^◌, ◌||◌, ◌∷◌, ◌≡◌, ◌≤◌,
}
use linux_0_11_lab.Base.Int.{ℤ}
use linux_0_11_lab.Kernel.Number.{Flags, is_digit, is_negative, skip_atoi_from}
use linux_0_11_lab.Kernel.Vsprintf.{
  convert_at, directive, flag_of, format_loop, no_flags, parse_digits, parse_flags, parse_precision,
  parse_width, pass, skip_qualifier, vsprintf,
}

skip_atoi_shorter : (i : ℕ) (cs : List ℕ) → length (skip_atoi_from i cs).1 ≤ length cs
unfolding skip_atoi_from
skip_atoi_shorter i [] = omega arith
skip_atoi_shorter i (c ∷ cs) = elim (Bool-cases (is_digit c)) [
  | inl t ↦ rw t (let l = skip_atoi_shorter ((i * 10 + c - 48) % 2 ^ 32) cs in omega (arith, l))
  | inr t ↦ rw t (omega arith)
]

parse_flags_shorter : (cs : List ℕ) (flags : Flags) → length (parse_flags cs flags).1 ≤ length cs
unfolding parse_flags
parse_flags_shorter [] flags = omega arith
parse_flags_shorter (c ∷ cs) flags = elim (Option-cases (flag_of c flags)) [
  | inl t ↦ rw t (omega arith)
  | inr (flags', t) ↦ rw t (let l = parse_flags_shorter cs flags' in omega (arith, l))
]

parse_width_shorter :
    (args : ℕ → ℕ) (flags : Flags) (k : ℕ) (cs : List ℕ)
    → length (parse_width args flags k cs).3 ≤ length cs
unfolding parse_width
parse_width_shorter args flags k [] = omega arith
parse_width_shorter args flags k (c ∷ cs) = elim (Bool-cases (is_digit c)) [
  | inl t ↦ rw t (skip_atoi_shorter 0 (c ∷ cs))
  | inr t ↦ elim (Bool-cases (c == 42)) [
    | inr u ↦ rw (t, u) (omega arith)
    | inl u ↦ elim (Bool-cases (is_negative (args k))) [
      | inl n ↦ rw (t, u, n) (omega arith)
      | inr n ↦ rw (t, u, n) (omega arith)
    ]
  ]
]

parse_digits_shorter :
    (args : ℕ → ℕ) (k : ℕ) (cs : List ℕ) → length (parse_digits args k cs).2 ≤ length cs
unfolding parse_digits
parse_digits_shorter args k [] = omega arith
parse_digits_shorter args k (c ∷ cs) = elim (Bool-cases (is_digit c)) [
  | inl t ↦ rw t (skip_atoi_shorter 0 (c ∷ cs))
  | inr t ↦ elim (Bool-cases (c == 42)) [
    | inr u ↦ rw (t, u) (omega arith)
    | inl u ↦ rw (t, u) (omega arith)
  ]
]

parse_precision_shorter :
    (args : ℕ → ℕ) (k : ℕ) (cs : List ℕ) → length (parse_precision args k cs).2 ≤ length cs
unfolding parse_precision
parse_precision_shorter args k [] = omega arith
parse_precision_shorter args k (c ∷ cs) = elim (Bool-cases (c == 46)) [
  | inl t ↦ rw t (let l = parse_digits_shorter args k cs in omega (arith, l))
  | inr t ↦ rw t (omega arith)
]

skip_qualifier_shorter : (cs : List ℕ) → length (skip_qualifier cs) ≤ length cs
unfolding skip_qualifier
skip_qualifier_shorter [] = omega arith
skip_qualifier_shorter (c ∷ cs) = elim (Bool-cases (c == 104 || c == 108 || c == 76)) [
  | inl t ↦ rw t (omega arith)
  | inr t ↦ rw t (omega arith)
]

convert_at_shorter :
    (args : ℕ → ℕ) (text : ℕ → List ℕ) (k written : ℕ) (width precision : ℤ) (flags : Flags)
    (cs : List ℕ) (n : ℕ)
    → length cs ≤ n
    → length (convert_at args text k written width precision flags cs).1 ≤ n
convert_at_shorter args text k written width precision flags [] n l = omega arith
convert_at_shorter args text k written width precision flags (c ∷ cs) n l = omega arith

directive_shorter :
    (args : ℕ → ℕ) (text : ℕ → List ℕ) (k written : ℕ) (cs : List ℕ)
    → length (directive args text k written cs).1 ≤ length cs
unfolding directive
directive_shorter args text k written cs =
    let (flags0, cs1) = parse_flags cs no_flags in
    let (flags, width, k1, cs2) = parse_width args flags0 k cs1 in
    let (precision, k2, cs3) = parse_precision args k1 cs2 in
    let l1 = parse_flags_shorter cs no_flags in
    let l2 = parse_width_shorter args flags0 k cs1 in
    let l3 = parse_precision_shorter args k1 cs2 in
    convert_at_shorter args text k2 written width precision flags (skip_qualifier cs3) (length cs)
      (let l4 = skip_qualifier_shorter cs3 in omega (arith, l1, l2, l3, l4))

pass_shorter :
    (args : ℕ → ℕ) (text : ℕ → List ℕ) (k written c : ℕ) (cs : List ℕ)
    → length (pass args text k written c cs).1 ≤ length cs
unfolding pass
pass_shorter args text k written c cs = elim (Bool-cases (c == 37)) [
  | inl t ↦ rw t (directive_shorter args text k written cs)
  | inr t ↦ rw t (omega arith)
]

format_loop_ends :
    (fuel : ℕ) (args : ℕ → ℕ) (text : ℕ → List ℕ) (fmt : List ℕ) (k written : ℕ)
    → length fmt ≤ fuel
    → (r : List ℕ × List (ℕ × ℕ)) × (format_loop fuel args text fmt k written ≡ some r)
unfolding format_loop
format_loop_ends zero args text [] k written l = (([], []), refl)
format_loop_ends zero args text (c ∷ cs) k written l = absurd (omega arith)
format_loop_ends (suc fuel) args text [] k written l = (([], []), refl)
format_loop_ends (suc fuel) args text (c ∷ cs) k written l =
    let d = pass args text k written c cs in
    let (r, e) =
      format_loop_ends fuel args text d.1 d.0.next_arg (written + length d.0.text)
        (let m = pass_shorter args text k written c cs in omega (arith, m)) in
    ((d.0.text ++ r.0, d.0.stores ++ r.1), rw e refl)

-- vsprintf ends on every format and all arguments.
vsprintf_ends :
    (args : ℕ → ℕ) (text : ℕ → List ℕ) (fmt : List ℕ)
    → (r : List ℕ × List (ℕ × ℕ)) × (vsprintf args text fmt ≡ some r)
unfolding vsprintf
vsprintf_ends args text fmt = format_loop_ends (length fmt) args text fmt 0 0 (omega arith)
