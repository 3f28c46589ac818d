-- ===== src/Kernel/Tty/Cook.antt =====
-- What copy_to_cooked makes of the queues.
use linux_0_11_lab.Base.{
  Bool, Bool-cases, List, [], ap, arith, false, if◌then◌else◌, inl, inr, length, length-append, not,
  refl, suc, sym, true, zero, ℕ, ◌%◌, ◌++◌, ◌<◌, ◌∙◌, ◌∷◌, ◌≡◌, ◌≤◌, ◌⊎◌,
}
use linux_0_11_lab.Kernel.Tty.{
  Queue, Tty, accept, at_line_start, count_line, echo_char, echo_erase, empty, ends_line, full,
  kill_loop, last, putch, take_back, unput,
}
use linux_0_11_lab.Kernel.Tty.Lines.{
  count_ends, count_ends-snoc, count_ends_bound, drop_last, drop_last-snoc, drop_line,
  drop_line_end, drop_line_more, drop_line_nil,
}
use linux_0_11_lab.Kernel.Tty.Ring.{
  IsQueue, IsQueue-putch, IsQueue-unput, content, content-empty, content-putch, content-unput,
  length-content,
}

-- The queues are sound, and the count of lines is that of the secondary queue.
pub record IsTty (t : Tty) : Type 0 where
  pub read : IsQueue t.read_q
  pub cooked : IsQueue t.secondary
  pub count : t.secondary.lines ≡ count_ends t.termios (content t.secondary)

-- `t'` is `t` with the characters `s` for the readers.
pub record Edited (t : Tty) (s : List ℕ) (t' : Tty) : Type 0 where
  pub sound : IsTty t'
  pub same_termios : t'.termios ≡ t.termios
  pub same_read : t'.read_q ≡ t.read_q
  pub now : content t'.secondary ≡ s

pub unedited : (t : Tty) (s : List ℕ) → IsTty t → content t.secondary ≡ s → Edited t s t
unedited t s is e = record { sound = is; same_termios = refl; same_read = refl; now = e }

-- What input consists of is the same.
record Kept (t e : Tty) : Type 0 where
  termios : e.termios ≡ t.termios
  read_q : e.read_q ≡ t.read_q
  secondary : e.secondary ≡ t.secondary

-- `write` changes no more of a terminal than its write queue. rs_write does not, and con_write does not
-- unless the characters hold a request for the status, whose answer it puts into the read queue.
abbrev pub KeepsInput : (Tty → Tty) → Type 0
KeepsInput write =
    (t : Tty)
    → ((write t).termios ≡ t.termios)
      × ((write t).read_q ≡ t.read_q)
      × ((write t).secondary ≡ t.secondary)

-- A change of the secondary queue behind an echo.
behind_echo :
    (t e : Tty) (s : List ℕ) (change : Queue → Queue)
    → Kept t e
    → Edited t s (record t { secondary = change t.secondary })
    → Edited t s (record e { secondary = change e.secondary })
behind_echo t e s change k x = record {
  sound = record {
    read = rw k.read_q x.sound.read;
    cooked = rw k.secondary x.sound.cooked;
    count = rw (k.secondary, k.termios) x.sound.count;
  };
  same_termios = k.termios;
  same_read = k.read_q;
  now = ap (λ q. content (change q)) k.secondary ∙ x.now;
}

-- The last character stands at the end of the queue, unless that is empty.
last_cases :
    (q : Queue)
    → IsQueue q
    → ((empty q ≡ true) × (content q ≡ []))
      ⊎ ((empty q ≡ false) × (content q ≡ content (unput q) ++ (last q ∷ [])))
last_cases q is = elim (Bool-cases (empty q)) [
  | inl t ↦ inl (t, content-empty q is t)
  | inr t ↦ inr (t, content-unput q is t)
]

-- A character at the end, and its line counted.
accepted :
    (c : ℕ) (t : Tty)
    → IsTty t
    → full t.secondary ≡ false
    → c < 256
    → let t1 = count_line (λ w. w) c t in
      Edited t (content t.secondary ++ (c ∷ [])) (record t1 { secondary = putch c t1.secondary })
accepted c t is free byte =
    let same : c % 256 ≡ c = omega arith in
    let now' =
      content-putch t.secondary c is.cooked free ∙ ap (λ b. content t.secondary ++ (b ∷ [])) same in
    let q = IsQueue-putch t.secondary c is.cooked in
    let n = is.count in
    let bound = count_ends_bound t.termios (content t.secondary) in
    let short = length-content t.secondary in
    record {
      sound = record {
        read = is.read;
        cooked = record { head = q.head; tail = q.tail; whole = q.whole };
        count = sym (
            ap (count_ends t.termios) now'
            ∙ count_ends-snoc t.termios (content t.secondary) c
            ∙ elim (Bool-cases (ends_line t.termios c)) [
              | inl u ↦ rw u (omega (arith, n, bound, short))
              | inr u ↦ rw u (sym n)
            ]);
      };
      same_termios = refl;
      same_read = refl;
      now = now';
    }

module _ (write : Tty → Tty) (keeps : KeepsInput write) where
  written : (t x : Tty) → Kept t x → Kept t (write x)
  written t x k =
      let (a, b, d) = keeps x in
      record { termios = a ∙ k.termios; read_q = b ∙ k.read_q; secondary = d ∙ k.secondary }

  written_if : (b : Bool) (t x : Tty) → Kept t x → Kept t (if b then write x else t)
  written_if true t x k = written t x k
  written_if false t x k = record { termios = refl; read_q = refl; secondary = refl }

  written_unless : (b : Bool) (t x : Tty) → Kept t x → Kept t (if b then t else write x)
  written_unless false t x k = written t x k
  written_unless true t x k = record { termios = refl; read_q = refl; secondary = refl }

  echo_erase-Kept : (c : ℕ) (t : Tty) → Kept t (echo_erase write c t)
  echo_erase-Kept c t =
      written_if t.termios.echo t _ (record { termios = refl; read_q = refl; secondary = refl })

  echo_char-Kept : (c : ℕ) (t : Tty) → Kept t (echo_char write c t)
  echo_char-Kept c t =
      written_unless (not t.termios.echo) t _
        (record { termios = refl; read_q = refl; secondary = refl })

  IsTty-take_back :
      (t : Tty)
      → IsTty t
      → content t.secondary ≡ content (unput t.secondary) ++ (last t.secondary ∷ [])
      → ends_line t.termios (last t.secondary) ≡ false
      → Edited t (content (unput t.secondary)) (take_back write t)
  IsTty-take_back t is e inside =
      behind_echo t (echo_erase write (last t.secondary) t) (content (unput t.secondary)) unput
        (echo_erase-Kept (last t.secondary) t)
        (record {
          sound = record {
            read = is.read;
            cooked =
                let s = IsQueue-unput t.secondary is.cooked in
                record { head = s.head; tail = s.tail; whole = s.whole };
            count =
                is.count
                ∙ ap (count_ends t.termios) e
                ∙ count_ends-snoc t.termios (content (unput t.secondary)) (last t.secondary)
                ∙ rw inside refl;
          };
          same_termios = refl;
          same_read = refl;
          now = refl;
        })

  pub kill_loop_lem :
      (fuel : ℕ) (t : Tty)
      → IsTty t
      → length (content t.secondary) ≤ fuel
      → Edited t (drop_line t.termios (content t.secondary)) (kill_loop write fuel t)
  unfolding kill_loop
  kill_loop_lem zero t is l = unedited t _ is (nothing (content t.secondary) (omega (arith, l)))
    where
      nothing : (xs : List ℕ) → length xs ≡ 0 → xs ≡ drop_line t.termios xs
      nothing [] e = sym (drop_line_nil t.termios).0
      nothing (x ∷ xs) e = absurd (omega (arith, e))
  kill_loop_lem (suc fuel) t is l = elim (last_cases t.secondary is.cooked) [
    | inl (e, c) ↦
        rw e (unedited t _ is (c ∙ sym (ap (drop_line t.termios) c ∙ (drop_line_nil t.termios).0)))
    | inr (e, c) ↦ elim (Bool-cases (ends_line t.termios (last t.secondary))) [
      | inl u ↦
          rw (e, u)
            (unedited t _ is (
              sym (
                ap (drop_line t.termios) c
                ∙ drop_line_end t.termios (content (unput t.secondary)) (last t.secondary) u
                ∙ sym c)))
      | inr u ↦
          let back = IsTty-take_back t is c u in
          let left = ap length back.now in
          let shorter =
            ap length c ∙ length-append (content (unput t.secondary)) (last t.secondary ∷ []) in
          let rest =
            kill_loop_lem fuel (take_back write t) back.sound (omega (arith, left, shorter, l)) in
          rw (e, u)
            (record {
              sound = rest.sound;
              same_termios = rest.same_termios ∙ back.same_termios;
              same_read = rest.same_read ∙ back.same_read;
              now =
                  rest.now
                  ∙ ap (λ m. drop_line m (content (take_back write t).secondary)) back.same_termios
                  ∙ ap (drop_line t.termios) back.now
                  ∙ sym (
                      ap (drop_line t.termios) c
                      ∙ drop_line_more t.termios (content (unput t.secondary)) (last t.secondary)
                          u);
            })
    ]
  ]

  pub erase_lem :
      (t : Tty)
      → IsTty t
      → Edited t
          (drop_last t.termios (content t.secondary))
          (if at_line_start write t then t else take_back write t)
  erase_lem t is = elim (last_cases t.secondary is.cooked) [
    | inl (e, c) ↦
        rw e (unedited t _ is (c ∙ sym (ap (drop_last t.termios) c ∙ (drop_line_nil t.termios).1)))
    | inr (e, c) ↦
        let same =
          ap (drop_last t.termios) c
          ∙ drop_last-snoc t.termios (content (unput t.secondary)) (last t.secondary) in
        elim (Bool-cases (ends_line t.termios (last t.secondary))) [
          | inl u ↦ rw (e, u) (unedited t _ is (sym (rw u at same ∙ sym c)))
          | inr u ↦
              let back = IsTty-take_back t is c u in
              rw (e, u)
                (record {
                  sound = back.sound;
                  same_termios = back.same_termios;
                  same_read = back.same_read;
                  now = back.now ∙ sym (rw u at same);
                })
        ]
  ]

  pub accept_lem :
      (c : ℕ) (t : Tty)
      → IsTty t
      → full t.secondary ≡ false
      → c < 256
      → Edited t (content t.secondary ++ (c ∷ [])) (accept write c t)
  accept_lem c t is free byte =
      let t1 : Tty = count_line write c t in
      let e : Tty = echo_char write c t1 in
      let k = echo_char-Kept c t1 in
      let x = accepted c t is free byte in
      let y =
        behind_echo t1 e (content t.secondary ++ (c ∷ [])) (putch c) k
          (record { sound = x.sound; same_termios = refl; same_read = refl; now = x.now }) in
      record {
        sound = y.sound;
        same_termios = y.same_termios;
        same_read = y.same_read;
        now = y.now;
      }
