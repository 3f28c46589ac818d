-- ===== src/Kernel/Tty/Ring.antt =====
-- The queues of terminals as lists.
use linux_0_11_lab.Base.{
  List, [], ap, arith, false, get_or, get_or-set_ne, get_or-set_self, length, length-set, refl, set,
  suc, true, zero, ℕ, ◌%◌, ◌++◌, ◌+◌, ◌-◌, ◌<◌, ◌^◌, ◌∙◌, ◌∷◌, ◌≡◌, ◌≢◌, ◌≤◌,
}
use linux_0_11_lab.Kernel.Tty.{Queue, chars, empty, full, getch, last, putch, unput}

pub record IsQueue (q : Queue) : Type 0 where
  pub head : q.head < 1024
  pub tail : q.tail < 1024
  pub whole : length q.buf ≡ 1024

-- `n` characters from place `t` on.
unfoldable pub ring : List ℕ → ℕ → ℕ → List ℕ
ring buf t zero = []
ring buf t (suc n) = get_or buf t 0 % 256 ∷ ring buf ((t + 1) % 1024) n

abbrev pub content : Queue → List ℕ
content q = ring q.buf q.tail (chars q)

length-ring : (buf : List ℕ) (t n : ℕ) → length (ring buf t n) ≡ n
unfolding ring
length-ring buf t zero = refl
length-ring buf t (suc n) = ap suc (length-ring buf ((t + 1) % 1024) n)

pub length-content : (q : Queue) → length (content q) ≡ chars q
length-content q = length-ring q.buf q.tail (chars q)

ring_snoc :
    (buf : List ℕ) (t n : ℕ)
    → t < 1024
    → ring buf t (suc n) ≡ ring buf t n ++ ((get_or buf ((t + n) % 1024) 0 % 256) ∷ [])
unfolding ring
ring_snoc buf t zero l = ap (λ i. (get_or buf i 0 % 256) ∷ []) (omega arith)
ring_snoc buf t (suc n) l =
    ap (λ xs. (get_or buf t 0 % 256) ∷ xs)
      (ring_snoc buf ((t + 1) % 1024) n (omega arith)
        ∙ ap (λ i. ring buf ((t + 1) % 1024) n ++ ((get_or buf i 0 % 256) ∷ [])) (omega arith))

ring-set :
    (buf : List ℕ) (t n h c : ℕ)
    → t < 1024
    → h < 1024
    → n ≤ (h + 1024 - t) % 1024
    → ring (set buf h c) t n ≡ ring buf t n
unfolding ring
ring-set buf t zero h c lt lh free = refl
ring-set buf t (suc n) h c lt lh free =
    let ne : h ≢ t = λ e. omega (arith, e, free) in
    ap (λ x. x % 256 ∷ ring (set buf h c) ((t + 1) % 1024) n) (get_or-set_ne buf c 0 ne)
    ∙ ap (λ xs. (get_or buf t 0 % 256) ∷ xs)
        (ring-set buf ((t + 1) % 1024) n h c (omega arith) lh (omega arith))

pub IsQueue-putch : (q : Queue) (c : ℕ) → IsQueue q → IsQueue (putch c q)
IsQueue-putch q c is = record {
  head = omega arith;
  tail = is.tail;
  whole = length-set q.buf q.head (c % 256) ∙ is.whole;
}

pub content-putch :
    (q : Queue) (c : ℕ)
    → IsQueue q
    → full q ≡ false
    → content (putch c q) ≡ content q ++ ((c % 256) ∷ [])
content-putch q c is not_full =
    let h = is.head in
    let t = is.tail in
    let w = is.whole in
    let more : chars (putch c q) ≡ suc (chars q) = ground (arith, h, t, not_full) in
    let free : chars q ≤ (q.head + 1024 - q.tail) % 1024 = omega (arith, h, t) in
    let place : (q.tail + chars q) % 1024 ≡ q.head = omega (arith, h, t) in
    let byte : get_or (set q.buf q.head (c % 256)) ((q.tail + chars q) % 1024) 0 % 256 ≡ c % 256 =
      rw (place, get_or-set_self q.buf q.head (c % 256) 0 (omega (arith, h, w))) (omega arith) in
    ap (ring (set q.buf q.head (c % 256)) q.tail) more
    ∙ ring_snoc (set q.buf q.head (c % 256)) q.tail (chars q) t
    ∙ ap (λ b. ring (set q.buf q.head (c % 256)) q.tail (chars q) ++ (b ∷ [])) byte
    ∙ ap (λ xs. xs ++ ((c % 256) ∷ [])) (ring-set q.buf q.tail (chars q) q.head (c % 256) t h free)

pub IsQueue-getch : (q : Queue) → IsQueue q → IsQueue ((getch q).1)
IsQueue-getch q is = record { head = is.head; tail = omega arith; whole = is.whole }

pub content-getch :
    (q : Queue) → IsQueue q → empty q ≡ false → content q ≡ (getch q).0 ∷ content ((getch q).1)
unfolding ring
content-getch q is some_chars =
    let h = is.head in
    let t = is.tail in
    let more : chars q ≡ suc (chars (getch q).1) = ground (arith, h, t, some_chars) in
    ap (ring q.buf q.tail) more

pub IsQueue-unput : (q : Queue) → IsQueue q → IsQueue (unput q)
IsQueue-unput q is = record { head = omega arith; tail = is.tail; whole = is.whole }

pub content-unput :
    (q : Queue) → IsQueue q → empty q ≡ false → content q ≡ content (unput q) ++ (last q ∷ [])
content-unput q is some_chars =
    let h = is.head in
    let t = is.tail in
    let more : chars q ≡ suc (chars (unput q)) = ground (arith, h, t, some_chars) in
    let place : (q.tail + chars (unput q)) % 1024 ≡ (q.head + 2 ^ 32 - 1) % 2 ^ 32 % 1024 =
      ground (arith, h, t, some_chars) in
    ap (ring q.buf q.tail) more
    ∙ ring_snoc q.buf q.tail (chars (unput q)) t
    ∙ ap (λ i. content (unput q) ++ ((get_or q.buf i 0 % 256) ∷ [])) place

pub content-empty : (q : Queue) → IsQueue q → empty q ≡ true → content q ≡ []
unfolding ring
content-empty q is e =
    let none_there : chars q ≡ 0 = let h = is.head in let t = is.tail in ground (arith, h, t, e) in
    ap (ring q.buf q.tail) none_there

pub content-full : (q : Queue) → IsQueue q → full q ≡ true → length (content q) ≡ 1023
content-full q is e =
    length-content q ∙ (let h = is.head in let t = is.tail in ground (arith, h, t, e))
