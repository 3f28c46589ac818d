-- ===== src/Fs/Buffer/Choose.antt =====
-- The scan of the free list for a buffer to use.
use linux_0_11_lab.Base.{
  In, Bool-cases, List, Option, [], arith, false, get_or, inl, inr, none, refl, some, sym, true, ℕ,
  ◌&&◌, ◌==◌, ◌∷◌, ◌≡◌, ◌≢◌, ◌≤◌, ◌⊎◌,
}
use linux_0_11_lab.Block.{Buffer}
use linux_0_11_lab.Fs.Buffer.{badness, choose, is_better, no_buffer}

-- No buffer of the list is unused.
abbrev pub AllUsed : List Buffer → List ℕ → Type 0
AllUsed buffers free = (z : ℕ) → In z free → (get_or buffers z no_buffer).b_count ≢ 0

-- An unused buffer of the list, than which no unused one is better.
pub record Chosen (buffers : List Buffer) (free : List ℕ) (y : ℕ) : Type 0 where
  pub listed : In y free
  pub unused : (get_or buffers y no_buffer).b_count ≡ 0
  pub best :
      (z : ℕ)
      → In z free
      → (get_or buffers z no_buffer).b_count ≡ 0
      → badness (get_or buffers y no_buffer) ≤ badness (get_or buffers z no_buffer)

-- What the loop leaves that begins with `start`.
record Scanned (buffers : List Buffer) (free : List ℕ) (start : Option ℕ) (y : ℕ) : Type 0 where
  origin : (start ≡ some y) ⊎ (In y free × ((get_or buffers y no_buffer).b_count ≡ 0))
  least :
      (z : ℕ)
      → In z free
      → (get_or buffers z no_buffer).b_count ≡ 0
      → badness (get_or buffers y no_buffer) ≤ badness (get_or buffers z no_buffer)
  not_worse :
      (b : ℕ)
      → start ≡ some b
      → badness (get_or buffers y no_buffer) ≤ badness (get_or buffers b no_buffer)

not_better :
    (buffers : List Buffer) (tmp : Buffer) (start : Option ℕ)
    → is_better buffers tmp start ≡ false
    → (b : ℕ) × (start ≡ some b) × (badness (get_or buffers b no_buffer) ≤ badness tmp)
unfolding is_better
not_better buffers tmp none e = absurd (cc e)
not_better buffers tmp (some b) e = (b, refl, ground (arith, e))

better :
    (buffers : List Buffer) (tmp : Buffer) (start : Option ℕ) (b : ℕ)
    → is_better buffers tmp start ≡ true
    → start ≡ some b
    → badness tmp ≤ badness (get_or buffers b no_buffer)
unfolding is_better
better buffers tmp none b e h = absurd (cc h)
better buffers tmp (some c) b e h = let same : c ≡ b = cc h in rw (← same) (ground (arith, e))

choose-some :
    (buffers : List Buffer) (x : ℕ) (free : List ℕ) (start : Option ℕ) (y : ℕ)
    → (get_or buffers x no_buffer).b_count ≡ 0
    → is_better buffers (get_or buffers x no_buffer) start ≡ true
    → Scanned buffers free (some x) y
    → Scanned buffers (x ∷ free) start y
choose-some buffers x free start y c t s =
    let low = s.not_worse x refl in
    record {
      origin = inr (elim s.origin [
        | inl e ↦ let same : x ≡ y = cc e in (inl (sym same), rw (← same) c)
        | inr (i, f) ↦ (inr i, f)
      ]);
      least = λ z i f. elim i [ inl e ↦ rw e low | inr j ↦ s.least z j f ];
      not_worse =
          λ b e. let h = better buffers (get_or buffers x no_buffer) start b t e in omega arith;
    }

choose-skip :
    (buffers : List Buffer) (x : ℕ) (free : List ℕ) (start : Option ℕ) (y : ℕ)
    → ((get_or buffers x no_buffer).b_count == 0
        && is_better buffers (get_or buffers x no_buffer) start)
      ≡ false
    → Scanned buffers free start y
    → Scanned buffers (x ∷ free) start y
choose-skip buffers x free start y t s = record {
  origin = elim s.origin [ inl e ↦ inl e | inr (i, f) ↦ inr (inr i, f) ];
  least = λ z i f. elim i [
    | inl e ↦
        let c : (get_or buffers x no_buffer).b_count ≡ 0 = rw e at f in
        let n : is_better buffers (get_or buffers x no_buffer) start ≡ false =
          ground (arith, t, c) in
        let (b, eb, h) = not_better buffers (get_or buffers x no_buffer) start n in
        let k = s.not_worse b eb in rw e (omega arith)
    | inr j ↦ s.least z j f
  ];
  not_worse = s.not_worse;
}

first_used :
    (buffers : List Buffer) (x : ℕ) (start : Option ℕ)
    → start ≡ none
    → ((get_or buffers x no_buffer).b_count == 0
        && is_better buffers (get_or buffers x no_buffer) start)
      ≡ false
    → (get_or buffers x no_buffer).b_count ≢ 0
unfolding is_better
first_used buffers x none n t c = ground (arith, t, c)
first_used buffers x (some y) n t c = absurd (cc n)

choose_scan :
    (buffers : List Buffer) (free : List ℕ) (start : Option ℕ)
    → ((choose buffers free start ≡ none) × (start ≡ none) × AllUsed buffers free)
      ⊎ ((y : ℕ) × (choose buffers free start ≡ some y) × Scanned buffers free start y)
unfolding choose
choose_scan buffers [] none = inl (refl, refl, λ z i. absurd i)
choose_scan buffers [] (some y) = inr (
  y,
  refl,
  record {
    origin = inl refl;
    least = λ z i f. absurd i;
    not_worse = λ b e. let same : y ≡ b = cc e in rw same (omega arith);
  },
)
choose_scan buffers (x ∷ free) start =
    let tmp = get_or buffers x no_buffer in
    elim (Bool-cases (tmp.b_count == 0 && is_better buffers tmp start)) [
      | inr t ↦ elim (choose_scan buffers free start) [
        | inl (e, n, all) ↦ inl (
          rw (t, choose) e,
          n,
          λ z i. elim i [
            | inl same ↦ λ f. first_used buffers x start n t (rw same at f)
            | inr j ↦ all z j
          ],
        )
        | inr (y, e, s) ↦ inr (y, rw (t, choose) e, choose-skip buffers x free start y t s)
      ]
      | inl t ↦
          let c : tmp.b_count ≡ 0 = ground (arith, t) in
          let u : is_better buffers tmp start ≡ true = ground (arith, t) in
          elim (Bool-cases (badness tmp == 0)) [
            | inl b ↦ inr (
              x,
              rw (t, b, choose) refl,
              choose-some buffers x free start x c u (record {
                origin = inl refl;
                least = λ z i f. ground (arith, b);
                not_worse = λ d e. let same : x ≡ d = cc e in rw same (omega arith);
              }),
            )
            | inr b ↦ elim (choose_scan buffers free (some x)) [
              | inl (e, n, all) ↦ absurd (cc n)
              | inr (y, e, s) ↦
                  inr (y, rw (t, b, choose) e, choose-some buffers x free start y c u s)
            ]
          ]
    ]

pub choose_lem :
    (buffers : List Buffer) (free : List ℕ)
    → ((choose buffers free none ≡ none) × AllUsed buffers free)
      ⊎ ((y : ℕ) × (choose buffers free none ≡ some y) × Chosen buffers free y)
choose_lem buffers free = elim (choose_scan buffers free none) [
  | inl (e, _, all) ↦ inl (e, all)
  | inr (y, e, s) ↦ elim s.origin [
    | inl n ↦ absurd (cc n)
    | inr (i, f) ↦ inr (y, e, record { listed = i; unused = f; best = s.least })
  ]
]
