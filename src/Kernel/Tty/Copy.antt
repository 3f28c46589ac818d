-- ===== src/Kernel/Tty/Copy.antt =====
-- The loop of copy_to_cooked.
use linux_0_11_lab.Base.{
  Bool, Bool-cases, List, Option, Option-cases, [], ap, arith, false, if◌then◌else◌, inl, inr, leb,
  length, none, refl, some, some_injective, suc, sym, true, zero, ℕ, ◌&&◌, ◌++◌, ◌<◌, ◌==◌, ◌∙◌,
  ◌∷◌, ◌≡◌, ◌≤◌, ◌⊎◌,
}
use linux_0_11_lab.Kernel.Task.{Tasks}
use linux_0_11_lab.Kernel.Tty.{
  Termios, Tty, buf_size, cook, cook_or_skip, copy_loop, copy_to_cooked, empty, full, getch,
  is_char, pass, returned, tolower, translate,
}
use linux_0_11_lab.Kernel.Tty.Cook.{
  Edited, IsTty, KeepsInput, accept_lem, erase_lem, kill_loop_lem, unedited,
}
use linux_0_11_lab.Kernel.Tty.Lines.{edit, edit_or_skip, edits, translate-heard}
use linux_0_11_lab.Kernel.Tty.Ring.{
  IsQueue-getch, content, content-empty, content-full, content-getch, length-content,
}

stopped_lem :
    (t : Tty) (b : Bool) → IsTty t → Edited t (content t.secondary) (record t { stopped = b })
stopped_lem t b is = record {
  sound = record { read = is.read; cooked = is.cooked; count = is.count };
  same_termios = refl;
  same_read = refl;
  now = refl;
}

given_byte : (x d : ℕ) → x < 256 → some x ≡ some d → d < 256
given_byte x d l e = let e' = some_injective e in omega (arith, e', l)

returned_byte : (m : Termios) (c d : ℕ) → c < 256 → returned m c ≡ some d → d < 256
returned_byte m c d l e = elim (Bool-cases (c == 13)) [
  | inl t ↦ elim (Bool-cases m.icrnl) [
    | inl u ↦ given_byte 10 d (omega arith) (rw (t, u) at e)
    | inr u ↦ elim (Bool-cases m.igncr) [
      | inl w ↦ let e' = rw (t, u, w) at e in absurd (cc e')
      | inr w ↦ given_byte 13 d (omega arith) (rw (t, u, w) at e)
    ]
  ]
  | inr t ↦ elim (Bool-cases (c == 10 && m.inlcr)) [
    | inl u ↦ given_byte 13 d (omega arith) (rw (t, u) at e)
    | inr u ↦ given_byte c d l (rw (t, u) at e)
  ]
]

lowered_byte : (b : Bool) (x : ℕ) → x < 256 → (if b then tolower x else x) < 256
lowered_byte false x l = l
lowered_byte true x l = elim (Bool-cases (leb 65 x && leb x 90)) [
  | inl t ↦ rw t (ground (arith, t))
  | inr t ↦ rw t l
]

translate_byte : (m : Termios) (c d : ℕ) → c < 256 → translate m c ≡ some d → d < 256
unfolding translate
translate_byte m c d l e = elim (Option-cases (returned m c)) [
  | inl t ↦ let e' = rw t at e in absurd (cc e')
  | inr (x, t) ↦
      given_byte (if m.iuclc then tolower x else x) d
        (lowered_byte m.iuclc x (returned_byte m c x l t)) (rw t at e)
]

-- `t'` is `t` after the characters `taken` of its read queue.
pub record Copied (t : Tty) (taken : List ℕ) (t' : Tty) : Type 0 where
  pub sound : IsTty t'
  pub same_termios : t'.termios ≡ t.termios
  pub taken_first : content t.read_q ≡ taken ++ content t'.read_q
  pub edited : content t'.secondary ≡ edits t.termios taken (content t.secondary)
  pub until_done : (content t'.read_q ≡ []) ⊎ (length (content t'.secondary) ≡ 1023)

module _ (write : Tty → Tty) (keeps : KeepsInput write) where
  cook_lem :
      (c : ℕ) (t : Tty) (ts : Tasks)
      → IsTty t
      → full t.secondary ≡ false
      → c < 256
      → Edited t (edit t.termios c (content t.secondary)) ((cook write c t ts).0)
  unfolding cook
  cook_lem c t ts is free byte =
      let m = t.termios in
      elim (Bool-cases (m.icanon && is_char c m.kill_char)) [
        | inl a ↦ rw a (
            kill_loop_lem write keeps buf_size t is
              (let n = length-content t.secondary in omega (arith, n)))
        | inr a ↦ elim (Bool-cases (m.icanon && is_char c m.erase_char)) [
          | inl b ↦ rw (a, b) (erase_lem write keeps t is)
          | inr b ↦ elim (Bool-cases (m.icanon && is_char c m.stop_char)) [
            | inl d ↦ rw (a, b, d) (stopped_lem t true is)
            | inr d ↦ elim (Bool-cases (m.icanon && is_char c m.start_char)) [
              | inl e ↦ rw (a, b, d, e) (stopped_lem t false is)
              | inr e ↦ elim (Bool-cases (m.isig && is_char c m.intr_char)) [
                | inl f ↦ rw (a, b, d, e, f) (unedited t (content t.secondary) is refl)
                | inr f ↦ elim (Bool-cases (m.isig && is_char c m.quit_char)) [
                  | inl g ↦ rw (a, b, d, e, f, g) (unedited t (content t.secondary) is refl)
                  | inr g ↦ rw (a, b, d, e, f, g) (accept_lem write keeps c t is free byte)
                ]
              ]
            ]
          ]
        ]
      ]

  cook_or_skip_lem :
      (o : Option ℕ) (t : Tty) (ts : Tasks)
      → IsTty t
      → full t.secondary ≡ false
      → ((c : ℕ) → o ≡ some c → c < 256)
      → Edited t (edit_or_skip t.termios o (content t.secondary)) ((cook_or_skip write o t ts).0)
  cook_or_skip_lem none t ts is free byte = unedited t (content t.secondary) is refl
  cook_or_skip_lem (some c) t ts is free byte = cook_lem c t ts is free (byte c refl)

  abbrev Copies : ℕ → Tty → Tasks → Type 0
  Copies fuel t ts = (taken : List ℕ) × Copied t taken ((copy_loop write fuel t ts).0)

  stop_here :
      (t : Tty)
      → IsTty t
      → (content t.read_q ≡ []) ⊎ (length (content t.secondary) ≡ 1023)
      → Copied t [] t
  unfolding edits
  stop_here t is why = record {
    sound = is;
    same_termios = refl;
    taken_first = refl;
    edited = refl;
    until_done = why;
  }

  copy_loop_lem :
      (fuel : ℕ) (t : Tty) (ts : Tasks)
      → IsTty t
      → length (content t.read_q) ≤ fuel
      → Copies fuel t ts
  unfolding copy_loop edits
  copy_loop_lem zero t ts is l =
      ([], stop_here t is (inl (nothing (content t.read_q) (omega (arith, l)))))
    where
      nothing : (xs : List ℕ) → length xs ≡ 0 → xs ≡ []
      nothing [] e = refl
      nothing (x ∷ xs) e = absurd (omega (arith, e))
  copy_loop_lem (suc fuel) t ts is l = elim (Bool-cases (empty t.read_q)) [
    | inl e ↦ ([], rw e (stop_here t is (inl (content-empty t.read_q is.read e))))
    | inr e ↦ elim (Bool-cases (full t.secondary)) [
      | inl f ↦ ([], rw (e, f) (stop_here t is (inr (content-full t.secondary is.cooked f))))
      | inr f ↦
          let (c, q) = getch t.read_q in
          let first = content-getch t.read_q is.read e in
          let t1 : Tty = record t { read_q = q } in
          let is1 : IsTty t1 = record {
            read = IsQueue-getch t.read_q is.read;
            cooked = is.cooked;
            count = is.count;
          } in
          let one =
            cook_or_skip_lem (translate t.termios c) t1 ts is1 f
              (λ d q'. translate_byte t.termios c d (omega arith) q') in
          let next = pass write t ts in
          let read = one.same_read in
          let shorter : length (content next.0.read_q) ≤ fuel =
            let n = ap length first in
            let n' = ap (λ r. length (content r)) read in omega (arith, n, n', l) in
          let (taken, rest) = copy_loop_lem fuel next.0 next.1 one.sound shorter in
          (
            c ∷ taken,
            rw (e, f)
                (record {
                  sound = rest.sound;
                  same_termios = rest.same_termios ∙ one.same_termios;
                  taken_first =
                      first ∙ ap (λ xs. c ∷ xs) (sym (ap content read) ∙ rest.taken_first);
                  edited =
                      rest.edited
                      ∙ ap (λ m. edits m taken (content next.0.secondary)) one.same_termios
                      ∙ ap (edits t.termios taken) (
                          one.now
                          ∙ ap (λ o. edit_or_skip t.termios o (content t.secondary))
                              (translate-heard t.termios c));
                  until_done = rest.until_done;
                }),
          )
    ]
  ]

-- Where the function of the terminal changes no more than its write queue, copy_to_cooked takes characters from the front of the read queue until that is empty or the queue of
-- the readers is full. The readers find what editing makes of the characters: a kill character takes
-- back all behind the last end of a line, an erase character the last one if it ends no line, stop,
-- start and signal characters leave nothing, and all others go to the end. The queues stay sound, and
-- the count of lines stays the number of ends of lines that wait for the readers.
pub copy_to_cooked_lem :
    (write : Tty → Tty) (t : Tty) (ts : Tasks)
    → KeepsInput write
    → IsTty t
    → (taken : List ℕ) × Copied t taken ((copy_to_cooked write t ts).0)
unfolding copy_to_cooked
copy_to_cooked_lem write t ts keeps is =
    copy_loop_lem write keeps buf_size t ts is (let n = length-content t.read_q in omega (arith, n))
