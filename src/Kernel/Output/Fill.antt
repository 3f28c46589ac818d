-- ===== src/Kernel/Output/Fill.antt =====
-- What tty_write puts into the write queue.
use linux_0_11_lab.Base.{
  Bool, Bool-cases, List, [], ap, arith, false, if◌then◌else◌, inl, inr, leb, length, length-append,
  not, refl, suc, sym, true, zero, ℕ, ◌%◌, ◌&&◌, ◌++◌, ◌+◌, ◌-◌, ◌==◌, ◌||◌, ◌∙◌, ◌∷◌, ◌≡◌, ◌≤◌,
  ◌⊎◌,
}
use linux_0_11_lab.Kernel.Output.{Filled, Oflags, fill_loop, fill_queue, needs_cr, put_out}
use linux_0_11_lab.Kernel.Tty.{Queue, full, putch}
use linux_0_11_lab.Kernel.Tty.Ring.{
  IsQueue, IsQueue-putch, content, content-full, content-putch, length-content,
}

-- With OPOST, ONLRET makes a return of a new line and OCRNL a new line of a return.
abbrev pub is_newline : Oflags → ℕ → Bool
is_newline m c = m.opost && ((c == 10 && not m.onlret) || (c == 13 && m.ocrnl))

abbrev pub is_return : Oflags → ℕ → Bool
is_return m c = m.opost && ((c == 13 && not m.ocrnl) || (c == 10 && m.onlret))

abbrev is_lower : ℕ → Bool
is_lower c = leb 97 c && leb c 122

-- What one byte stands for: a new line is a return and a new line with ONLCR, OLCUC turns `a`..`z` into
-- `A`..`Z`, and without OPOST each byte is itself. The byte has had its return with `cr_flag`.
pub shown : Oflags → Bool → ℕ → List ℕ
shown m cr_flag c =
    if is_newline m c
    then (if m.onlcr && not cr_flag then 13 ∷ 10 ∷ [] else 10 ∷ [])
    else if is_return m c
    then 13 ∷ []
    else if m.opost && m.olcuc && is_lower c
    then ((c - 32) % 256) ∷ []
    else (c % 256) ∷ []

-- The characters that bytes stand for on the terminal.
unfoldable pub post : Oflags → Bool → List ℕ → List ℕ
post m cr_flag [] = []
post m cr_flag (c ∷ cs) = shown m cr_flag c ++ post m false cs

-- The byte is below 256; the pass that sends the return keeps it.
shown_cr :
    (m : Oflags) (cr_flag : Bool) (c : ℕ)
    → needs_cr m cr_flag c ≡ true
    → shown m cr_flag c ≡ 13 ∷ shown m true c
unfolding shown
shown_cr m cr_flag c t =
    let n : is_newline m c ≡ true = ground (arith, t) in
    let w : (m.onlcr && not cr_flag) ≡ true = ground (arith, t) in
    let v : (m.onlcr && not true) ≡ false = ground arith in rw (n, w, v) refl

shown_one :
    (m : Oflags) (cr_flag : Bool) (c : ℕ)
    → needs_cr m cr_flag c ≡ false
    → shown m cr_flag c ≡ (put_out m c % 256) ∷ []
unfolding shown
shown_one m cr_flag c t = elim (Bool-cases (is_newline m c)) [
  | inl n ↦
      let w : (m.onlcr && not cr_flag) ≡ false = ground (arith, n, t) in
      let y : 10 ≡ put_out m c % 256 = ground (arith, n) in rw (n, w) (ap (λ k. k ∷ []) y)
  | inr n ↦ elim (Bool-cases (is_return m c)) [
    | inl r ↦ let y : 13 ≡ put_out m c % 256 = ground (arith, r) in rw (n, r) (ap (λ k. k ∷ []) y)
    | inr r ↦ elim (Bool-cases (m.opost && m.olcuc && is_lower c)) [
      | inl l ↦
          let y : (c - 32) % 256 ≡ put_out m c % 256 = ground (arith, n, r, l) in
          rw (n, r, l) (ap (λ k. k ∷ []) y)
      | inr l ↦
          let y : c % 256 ≡ put_out m c % 256 = ground (arith, n, r, l) in
          rw (n, r, l) (ap (λ k. k ∷ []) y)
    ]
  ]
]

-- The queue has got `out`, and the bytes that are left stand for the rest.
pub record IsFilled (m : Oflags) (cr_flag : Bool) (bytes : List ℕ) (q : Queue) (out : List ℕ)
    (r : Filled) : Type 0 where
  pub sound : IsQueue r.write_q
  pub put : content r.write_q ≡ content q ++ out
  pub rest : post m cr_flag bytes ≡ out ++ post m r.cr_flag r.bytes
  pub until_done : (r.bytes ≡ []) ⊎ (length (content r.write_q) ≡ 1023)

append_nil : (xs : List ℕ) → xs ++ [] ≡ xs
append_nil [] = refl
append_nil (x ∷ xs) = ap (λ ys. x ∷ ys) (append_nil xs)

append_one : (xs : List ℕ) (y : ℕ) (zs : List ℕ) → (xs ++ (y ∷ [])) ++ zs ≡ xs ++ (y ∷ zs)
append_one [] y zs = refl
append_one (x ∷ xs) y zs = ap (λ ys. x ∷ ys) (append_one xs y zs)

stopped :
    (m : Oflags) (cr_flag : Bool) (bytes : List ℕ) (q : Queue)
    → IsQueue q
    → (bytes ≡ []) ⊎ (length (content q) ≡ 1023)
    → IsFilled m cr_flag bytes q [] (record { cr_flag = cr_flag; bytes = bytes; write_q = q })
stopped m cr_flag bytes q is why = record {
  sound = is;
  put = sym (append_nil (content q));
  rest = refl;
  until_done = why;
}

-- One character, and the rest of the loop.
pass_on :
    (m : Oflags) (cr_flag cr : Bool) (bytes left : List ℕ) (q : Queue) (y : ℕ) (out : List ℕ)
    (r : Filled)
    → content (putch y q) ≡ content q ++ ((y % 256) ∷ [])
    → post m cr_flag bytes ≡ (y % 256) ∷ post m cr left
    → IsFilled m cr left (putch y q) out r
    → IsFilled m cr_flag bytes q ((y % 256) ∷ out) r
pass_on m cr_flag cr bytes left q y out r one step more = record {
  sound = more.sound;
  put = more.put ∙ ap (λ xs. xs ++ out) one ∙ append_one (content q) (y % 256) out;
  rest = step ∙ ap (λ xs. (y % 256) ∷ xs) more.rest;
  until_done = more.until_done;
}

fill_loop_lem :
    (fuel : ℕ) (m : Oflags) (cr_flag : Bool) (bytes : List ℕ) (q : Queue)
    → IsQueue q
    → 1023 ≤ length (content q) + fuel
    → (out : List ℕ) × IsFilled m cr_flag bytes q out (fill_loop fuel m cr_flag bytes q)
unfolding fill_loop post
fill_loop_lem zero m cr_flag bytes q is l =
    let n = length-content q in ([], stopped m cr_flag bytes q is (inr (omega (arith, l, n))))
fill_loop_lem (suc fuel) m cr_flag [] q is l = ([], stopped m cr_flag [] q is (inl refl))
fill_loop_lem (suc fuel) m cr_flag (c ∷ cs) q is l = elim (Bool-cases (full q)) [
  | inl f ↦ ([], rw f (stopped m cr_flag (c ∷ cs) q is (inr (content-full q is f))))
  | inr f ↦ elim (Bool-cases (needs_cr m cr_flag c)) [
    | inl t ↦
        let one = content-putch q 13 is f in
        let n = ap length one ∙ length-append (content q) (13 ∷ []) in
        let step : post m cr_flag (c ∷ cs) ≡ 13 ∷ post m true (c ∷ cs) =
          ap (λ xs. xs ++ post m false cs) (shown_cr m cr_flag c t) in
        let (out, more) =
          fill_loop_lem fuel m true (c ∷ cs) (putch 13 q) (IsQueue-putch q 13 is)
            (omega (arith, n, l)) in
        (13 ∷ out, rw (f, t) (pass_on m cr_flag true (c ∷ cs) (c ∷ cs) q 13 out _ one step more))
    | inr t ↦
        let y : ℕ = put_out m c in
        let one = content-putch q y is f in
        let n = ap length one ∙ length-append (content q) ((y % 256) ∷ []) in
        let step : post m cr_flag (c ∷ cs) ≡ (y % 256) ∷ post m false cs =
          ap (λ xs. xs ++ post m false cs) (shown_one m cr_flag c t) in
        let (out, more) =
          fill_loop_lem fuel m false cs (putch y q) (IsQueue-putch q y is) (omega (arith, n, l)) in
        ((y % 256) ∷ out, rw (f, t) (pass_on m cr_flag false (c ∷ cs) cs q y out _ one step more))
  ]
]

-- The loop puts into the write queue what the first of the bytes stand for with the flags of the
-- terminal, and keeps in cr_flag whether the first byte that is left has had its return. It ends with
-- no bytes left or with a full queue.
pub fill_lem :
    (m : Oflags) (cr_flag : Bool) (bytes : List ℕ) (q : Queue)
    → IsQueue q
    → (out : List ℕ) × IsFilled m cr_flag bytes q out (fill_queue m cr_flag bytes q)
unfolding fill_queue
fill_lem m cr_flag bytes q is = fill_loop_lem 1024 m cr_flag bytes q is (omega arith)
