-- ===== src/Fs/Pipe/Queue.antt =====
-- A pipe as a queue of bytes.
use linux_0_11_lab.Base.{
  Bool-cases, List, [], ap, append_assoc, append_nil, arith, drop, drop-append, drop-nil, drop_add,
  inl, inr, length, length-append, length-drop, min, none, refl, some, suc, sym, take, take-append,
  take-nil, take_add, zero, ℕ, ◌%◌, ◌++◌, ◌+◌, ◌-◌, ◌<◌, ◌==◌, ◌||◌, ◌∙◌, ◌≡◌, ◌≤◌, ◌⊎◌,
}
use native.Mathlib.Decide.{dec_lt, ℕ_discrete}
use linux_0_11_lab.Fs.Pipe.{
  Pipe, chars_of, get_bytes, page_size, pipe_size, put_bytes, read_pass, read_passes, write_pass,
  write_passes,
}
use linux_0_11_lab.Fs.Pipe.Ring.{
  get_bytes-ring, length-put_bytes, length-ring, ring, ring-put_inside, ring-put_outside, ring_add,
  ring_around,
}

-- Head and tail lie in the page.
pub record IsPipe (p : Pipe) : Type 0 where
  pub head_in : p.head < page_size
  pub tail_in : p.tail < page_size
  pub whole_page : length p.page ≡ page_size

-- The bytes in the pipe, the oldest first.
abbrev pub contents : Pipe → List ℕ
contents p = ring p.page p.tail (pipe_size p)

read_pass_lem :
    (count : ℕ) (p : Pipe)
    → IsPipe p
    → ((read_pass count p ≡ none) × ((count ≡ 0) ⊎ (contents p ≡ [])))
      ⊎ ((bytes : List ℕ) × (p' : Pipe) × (read_pass count p ≡ some (bytes, p'))
          × (contents p ≡ bytes ++ contents p')
          × (1 ≤ length bytes)
          × (length bytes ≤ count)
          × IsPipe p')
unfolding read_pass ring
read_pass_lem count p valid = elim (Bool-cases (count == 0 || pipe_size p == 0)) [
  | inl t ↦ elim (ℕ_discrete count 0) [
    | yes e ↦ inl (rw t refl, inl e)
    | no ne ↦ let z : pipe_size p ≡ 0 = ground arith in inl (rw t refl, inr (rw z refl))
  ]
  | inr t ↦
      let chars = chars_of (page_size - p.tail) count (pipe_size p) in
      let q = record p { tail = (p.tail + chars) % page_size } in
      let hin = valid.head_in in
      let tin = valid.tail_in in
      let some_count : 1 ≤ count = ground arith in
      let some_size : 1 ≤ pipe_size p = ground arith in
      let bytes = get_bytes-ring chars p.tail p.page (omega arith) in
      let long : length (get_bytes chars p.tail p.page) ≡ chars =
        ap length bytes ∙ length-ring p.page p.tail chars in
      let split : pipe_size p ≡ chars + pipe_size q = omega arith in
      inr (
        get_bytes chars p.tail p.page,
        q,
        rw t refl,
        ap (ring p.page p.tail) split
            ∙ ring_add p.page p.tail chars (pipe_size q)
            ∙ ap (λ xs. xs ++ ring p.page (p.tail + chars) (pipe_size q)) (sym bytes)
            ∙ ap (λ ys. get_bytes chars p.tail p.page ++ ys)
                (ring_around p.page (p.tail + chars) q.tail (pipe_size q) (omega arith)),
        omega (arith, long),
        omega (arith, long),
        record { head_in = hin; tail_in = omega arith; whole_page = valid.whole_page },
      )
]

write_pass_lem :
    (buf : List ℕ) (p : Pipe)
    → IsPipe p
    → ((write_pass buf p ≡ none) × ((length buf ≡ 0) ⊎ (pipe_size p ≡ 4095)))
      ⊎ ((chars : ℕ) × (p' : Pipe) × (write_pass buf p ≡ some (chars, p'))
          × (contents p' ≡ contents p ++ take chars buf)
          × (1 ≤ chars)
          × (chars ≤ length buf)
          × (pipe_size p' ≡ pipe_size p + chars)
          × (pipe_size p + chars ≤ 4095)
          × IsPipe p')
unfolding write_pass
write_pass_lem buf p valid =
    elim (Bool-cases (length buf == 0 || page_size - 1 - pipe_size p == 0)) [
      | inl t ↦ inl (rw t refl, ground (arith, t))
      | inr t ↦
          let chars = chars_of (page_size - p.head) (length buf) (page_size - 1 - pipe_size p) in
          let page = put_bytes chars p.head buf p.page in
          let q : Pipe = record p { head = (p.head + chars) % page_size; page = page } in
          let hin = valid.head_in in
          let tin = valid.tail_in in
          let some_count : 1 ≤ length buf = ground arith in
          let some_space : 1 ≤ page_size - 1 - pipe_size p = ground arith in
          let grown : pipe_size q ≡ pipe_size p + chars = omega arith in
          inr (
            chars,
            q,
            rw t refl,
            ap (ring page p.tail) grown
                ∙ ring_add page p.tail (pipe_size p) chars
                ∙ ap (λ xs. xs ++ ring page (p.tail + pipe_size p) chars)
                    (ring-put_outside chars p.head buf p.page p.tail (pipe_size p) (λ k l.
                      elim (dec_lt ((p.tail + k) % page_size) p.head) [
                        | yes below ↦ inl below
                        | no above ↦ inr (omega arith)
                      ]))
                ∙ ap (λ ys. contents p ++ ys)
                    (ring_around page (p.tail + pipe_size p) p.head chars (omega arith)
                      ∙ ring-put_inside chars p.head buf p.page (omega arith) valid.whole_page
                          (omega arith)),
            omega arith,
            omega arith,
            grown,
            omega arith,
            record {
              head_in = omega arith;
              tail_in = tin;
              whole_page = length-put_bytes chars p.head buf p.page ∙ valid.whole_page;
            },
          )
    ]

-- What the loop of read_pipe leaves when it returns or is about to sleep.
pub record Taken (count : ℕ) (p : Pipe) (r : List ℕ × ℕ × Pipe) : Type 0 where
  pub oldest : r.0 ≡ take count (contents p)
  pub rest : contents r.2 ≡ drop count (contents p)
  pub missing : r.1 + length r.0 ≡ count
  pub valid : IsPipe r.2

-- read_pipe returns, or is about to sleep, after at most as many passes as it was asked for bytes.
-- It gives the oldest bytes of the pipe in the order in which they stand there, as many as asked
-- for or all; the rest stays in the pipe, and what is left of the count is what was not there.
pub read_passes_lem :
    (fuel count : ℕ) (p : Pipe) → IsPipe p → count ≤ fuel → Taken count p (read_passes fuel count p)
unfolding read_passes
read_passes_lem zero count p valid h =
    let e : count ≡ 0 = omega arith in
    rw e (record { oldest = refl; rest = refl; missing = refl; valid = valid })
read_passes_lem (suc fuel) count p valid h = elim (read_pass_lem count p valid) [
  | inl (e, why) ↦
      rw (e, read_passes)
        (record {
          oldest = elim why [ inl z ↦ rw z refl | inr z ↦ rw z (sym (take-nil count)) ];
          rest = elim why [ inl z ↦ rw z refl | inr z ↦ rw z (sym (drop-nil count)) ];
          missing = omega arith;
          valid = valid;
        })
  | inr (bytes, p', e, split, some_byte, few, valid') ↦
      let left = count - length bytes in
      let ih = read_passes_lem fuel left p' valid' (omega arith) in
      let sum = length-append bytes (read_passes fuel left p').0 in
      let missing_there = ih.missing in
      rw (e, read_passes)
        (record {
          oldest =
              rw (split, take-append count bytes (contents p') few)
                (ap (λ xs. bytes ++ xs) ih.oldest);
          rest = rw (split, drop-append count bytes (contents p') few) ih.rest;
          missing = omega (arith, sum, missing_there);
          valid = ih.valid;
        })
]

-- What the loop of write_pipe leaves when it returns or is about to sleep.
pub record Given (buf : List ℕ) (p : Pipe) (r : ℕ × List ℕ × Pipe) : Type 0 where
  pub amount : r.0 ≡ min (length buf) (4095 - pipe_size p)
  pub queued : contents r.2 ≡ contents p ++ take r.0 buf
  pub left : r.1 ≡ drop r.0 buf
  pub valid : IsPipe r.2

-- write_pipe returns, or is about to sleep, after at most as many passes as it has bytes to write.
-- It puts the bytes behind those in the pipe in their order, all of them or as many as make the
-- pipe hold 4095.
pub write_passes_lem :
    (fuel : ℕ) (buf : List ℕ) (p : Pipe)
    → IsPipe p
    → length buf ≤ fuel
    → Given buf p (write_passes fuel buf p)
unfolding write_passes
write_passes_lem zero buf p valid h = record {
  amount = omega arith;
  queued = sym (append_nil (contents p));
  left = refl;
  valid = valid;
}
write_passes_lem (suc fuel) buf p valid h = elim (write_pass_lem buf p valid) [
  | inl (e, why) ↦
      rw (e, write_passes)
        (record {
          amount = ground (arith, why);
          queued = sym (append_nil (contents p));
          left = refl;
          valid = valid;
        })
  | inr (chars, p', e, grown, some_char, few, size, fits, valid') ↦
      let shorter = length-drop chars buf in
      let ih = write_passes_lem fuel (drop chars buf) p' valid' (omega arith) in
      let more = (write_passes fuel (drop chars buf) p').0 in
      let amount_there = ih.amount in
      rw (e, write_passes)
        (record {
          amount = omega arith;
          queued =
              ih.queued
              ∙ ap (λ xs. xs ++ take more (drop chars buf)) grown
              ∙ append_assoc (contents p) (take chars buf) (take more (drop chars buf))
              ∙ ap (λ xs. contents p ++ xs) (sym (take_add chars more buf));
          left = ih.left ∙ sym (drop_add chars more buf);
          valid = ih.valid;
        })
]
