-- ===== src/Kernel/Tty/Lines.antt =====
-- Editing of lines as lists of characters.
use linux_0_11_lab.Base.{
  Bool, Bool-cases, List, Option, [], ap, arith, false, if◌then◌else◌, inl, inr, leb, length, none,
  not, refl, some, suc, true, ℕ, ◌&&◌, ◌++◌, ◌+◌, ◌==◌, ◌||◌, ◌∙◌, ◌∷◌, ◌≡◌, ◌≤◌,
}
use linux_0_11_lab.Kernel.Tty.{Termios, ends_line, is_char, translate}

pub has_end : Termios → List ℕ → Bool
has_end m [] = false
has_end m (x ∷ xs) = ends_line m x || has_end m xs

-- All up to the last end of a line, and that.
pub drop_line : Termios → List ℕ → List ℕ
drop_line m [] = []
drop_line m (x ∷ xs) =
    if has_end m xs then x ∷ drop_line m xs else if ends_line m x then x ∷ [] else []

-- Without the last character, unless that is the end of a line.
pub drop_last : Termios → List ℕ → List ℕ
drop_last m [] = []
drop_last m (x ∷ []) = if ends_line m x then x ∷ [] else []
drop_last m (x ∷ y ∷ ys) = x ∷ drop_last m (y ∷ ys)

-- The number of lines.
unfoldable pub count_ends : Termios → List ℕ → ℕ
count_ends m [] = 0
count_ends m (x ∷ xs) = if ends_line m x then suc (count_ends m xs) else count_ends m xs

-- What a character from the line counts as: with ICRNL a return is a new line, and else IGNCR leaves it
-- out; with INLCR a new line is a return; IUCLC makes small letters of large ones.
pub heard : Termios → ℕ → Option ℕ
heard m c =
    if c == 13 && not m.icrnl && m.igncr
    then none
    else if (c == 13 && m.icrnl) || (c == 10 && not m.inlcr)
    then some 10
    else if (c == 13 && not m.icrnl) || (c == 10 && m.inlcr)
    then some 13
    else if m.iuclc && leb 65 c && leb c 90
    then some (c + 32)
    else some c

pub translate-heard : (m : Termios) (c : ℕ) → translate m c ≡ heard m c
unfolding translate heard
translate-heard m c = elim (Bool-cases (c == 13)) [
  | inl t ↦
      let e : c ≡ 13 = ground (arith, t) in
      elim (Bool-cases m.icrnl) [
        | inl i ↦ elim (Bool-cases m.iuclc) [
          | inl u ↦ rw (e, i, u) refl
          | inr u ↦ rw (e, i, u) refl
        ]
        | inr i ↦ elim (Bool-cases m.igncr) [
          | inl g ↦ rw (e, i, g) refl
          | inr g ↦ elim (Bool-cases m.iuclc) [
            | inl u ↦ rw (e, i, g, u) refl
            | inr u ↦ rw (e, i, g, u) refl
          ]
        ]
      ]
  | inr t ↦ elim (Bool-cases (c == 10)) [
    | inl n ↦
        let e : c ≡ 10 = ground (arith, n) in
        elim (Bool-cases m.inlcr) [
          | inl i ↦ elim (Bool-cases m.iuclc) [
            | inl u ↦ rw (e, i, u) refl
            | inr u ↦ rw (e, i, u) refl
          ]
          | inr i ↦ elim (Bool-cases m.iuclc) [
            | inl u ↦ rw (e, i, u) refl
            | inr u ↦ rw (e, i, u) refl
          ]
        ]
    | inr n ↦ elim (Bool-cases m.iuclc) [
      | inr u ↦ rw (t, n, u) refl
      | inl u ↦ elim (Bool-cases (leb 65 c && leb c 90)) [
        | inl l ↦ rw (t, n, u, l) refl
        | inr l ↦ rw (t, n, u, l) refl
      ]
    ]
  ]
]

-- What a character does to the characters that wait for the readers.
abbrev pub edit : Termios → ℕ → List ℕ → List ℕ
edit m c s =
    if m.icanon && is_char c m.kill_char
    then drop_line m s
    else if m.icanon && is_char c m.erase_char
    then drop_last m s
    else if m.icanon && is_char c m.stop_char
    then s
    else if m.icanon && is_char c m.start_char
    then s
    else if m.isig && is_char c m.intr_char
    then s
    else if m.isig && is_char c m.quit_char
    then s
    else s ++ (c ∷ [])

abbrev pub edit_or_skip : Termios → Option ℕ → List ℕ → List ℕ
edit_or_skip m none s = s
edit_or_skip m (some c) s = edit m c s

unfoldable pub edits : Termios → List ℕ → List ℕ → List ℕ
edits m [] s = s
edits m (c ∷ cs) s = edits m cs (edit_or_skip m (heard m c) s)

has_end-snoc :
    (m : Termios) (xs : List ℕ) (c : ℕ)
    → has_end m (xs ++ (c ∷ [])) ≡ (has_end m xs || ends_line m c)
unfolding has_end
has_end-snoc m [] c = elim (Bool-cases (ends_line m c)) [ inl t ↦ rw t refl | inr t ↦ rw t refl ]
has_end-snoc m (x ∷ xs) c = elim (Bool-cases (ends_line m x)) [
  | inl t ↦ rw t refl
  | inr t ↦ rw t (has_end-snoc m xs c)
]

or_true : (b : Bool) → (b || true) ≡ true
or_true true = refl
or_true false = refl

or_false : (b : Bool) → (b || false) ≡ b
or_false true = refl
or_false false = refl

pub drop_line_end :
    (m : Termios) (xs : List ℕ) (c : ℕ)
    → ends_line m c ≡ true
    → drop_line m (xs ++ (c ∷ [])) ≡ xs ++ (c ∷ [])
unfolding drop_line has_end
drop_line_end m [] c e = rw e refl
drop_line_end m (x ∷ xs) c e =
    rw (has_end-snoc m xs c, e, or_true (has_end m xs)) (ap (λ ys. x ∷ ys) (drop_line_end m xs c e))

pub drop_line_more :
    (m : Termios) (xs : List ℕ) (c : ℕ)
    → ends_line m c ≡ false
    → drop_line m (xs ++ (c ∷ [])) ≡ drop_line m xs
unfolding drop_line has_end
drop_line_more m [] c e = rw e refl
drop_line_more m (x ∷ xs) c e =
    rw (has_end-snoc m xs c, e, or_false (has_end m xs))
      (ap (λ ys. if has_end m xs then x ∷ ys else if ends_line m x then x ∷ [] else [])
        (drop_line_more m xs c e))

pub drop_last-snoc :
    (m : Termios) (xs : List ℕ) (c : ℕ)
    → drop_last m (xs ++ (c ∷ [])) ≡ (if ends_line m c then xs ++ (c ∷ []) else xs)
unfolding drop_last
drop_last-snoc m [] c = refl
drop_last-snoc m (x ∷ []) c = elim (Bool-cases (ends_line m c)) [
  | inl t ↦ rw t refl
  | inr t ↦ rw t refl
]
drop_last-snoc m (x ∷ y ∷ ys) c =
    ap (λ zs. x ∷ zs) (drop_last-snoc m (y ∷ ys) c)
    ∙ elim (Bool-cases (ends_line m c)) [ inl t ↦ rw t refl | inr t ↦ rw t refl ]

pub count_ends-snoc :
    (m : Termios) (xs : List ℕ) (c : ℕ)
    → count_ends m (xs ++ (c ∷ []))
      ≡ (if ends_line m c then suc (count_ends m xs) else count_ends m xs)
unfolding count_ends
count_ends-snoc m [] c = refl
count_ends-snoc m (x ∷ xs) c = elim (Bool-cases (ends_line m x)) [
  | inl t ↦
      rw (t, count_ends-snoc m xs c)
        (elim (Bool-cases (ends_line m c)) [ inl u ↦ rw u refl | inr u ↦ rw u refl ])
  | inr t ↦ rw t (count_ends-snoc m xs c)
]

pub count_ends_bound : (m : Termios) (xs : List ℕ) → count_ends m xs ≤ length xs
unfolding count_ends
count_ends_bound m [] = omega arith
count_ends_bound m (x ∷ xs) =
    let l = count_ends_bound m xs in
    elim (Bool-cases (ends_line m x)) [
      | inl t ↦ rw t (omega (arith, l))
      | inr t ↦ rw t (omega (arith, l))
    ]

pub drop_line_nil : (m : Termios) → (drop_line m [] ≡ []) × (drop_last m [] ≡ [])
unfolding drop_line drop_last
drop_line_nil m = (refl, refl)
