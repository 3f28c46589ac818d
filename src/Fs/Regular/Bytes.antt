-- ===== src/Fs/Regular/Bytes.antt =====
-- The bytes of a block behind put_bytes.
use linux_0_11_lab.Base.{
  Bool-cases, List, [], ap, arith, false, get_or, if◌then◌else◌, inl, inr, length, refl, suc, sym,
  true, zero, ℕ, ◌%◌, ◌+◌, ◌/◌, ◌<◌, ◌==◌, ◌∙◌, ◌∷◌, ◌≡◌, ◌≢◌, ◌≤◌, ◌⊎◌,
}
use native.Mathlib.Decide.{ℕ_discrete}
use linux_0_11_lab.Fs.Regular.{byte_at, put_byte, put_bytes, with_byte}
use linux_0_11_lab.Fs.Zones.{Volume}

abbrev byte_of : ℕ → ℕ → ℕ
byte_of k w = w / (if k % 2 == 0 then 1 else 256) % 256

with_byte_self : (k c w : ℕ) → byte_of k (with_byte k c w) ≡ c % 256
with_byte_self k c w = elim (Bool-cases (k % 2 == 0)) [
  | inl t ↦ rw t (omega arith)
  | inr t ↦ rw t (omega arith)
]

-- The other byte of the same word.
with_byte_other : (k j c w : ℕ) → k / 2 ≡ j / 2 → j ≢ k → byte_of j (with_byte k c w) ≡ byte_of j w
with_byte_other k j c w e ne = elim (Bool-cases (k % 2 == 0)) [
  | inl t ↦ let u : (j % 2 == 0) ≡ false = ground (arith, t, e, ne) in rw (t, u) (omega arith)
  | inr t ↦ let u : (j % 2 == 0) ≡ true = ground (arith, t, e, ne) in rw (t, u) (omega arith)
]

put_byte_self : (b k c : ℕ) (v : Volume) → byte_at b k (put_byte b k c v) ≡ c % 256
put_byte_self b k c v =
    let t : (b == b) ≡ true = ground arith in
    let u : (k / 2 == k / 2) ≡ true = ground arith in
    rw (t, u) (with_byte_self k c (v.words b (k / 2)))

put_byte_words :
    (b k c : ℕ) (v : Volume) (b' i : ℕ) → b' ≢ b → (put_byte b k c v).words b' i ≡ v.words b' i
put_byte_words b k c v b' i ne = let t : (b' == b) ≡ false = ground (arith, ne) in rw t refl

put_byte_other :
    (b k c : ℕ) (v : Volume) (j : ℕ) → j ≢ k → byte_at b j (put_byte b k c v) ≡ byte_at b j v
put_byte_other b k c v j ne =
    let t : (b == b) ≡ true = ground arith in
    elim (ℕ_discrete (j / 2) (k / 2)) [
      | yes e ↦
          let u : (j / 2 == k / 2) ≡ true = ground (arith, e) in
          rw (t, u)
            (ap (λ i. byte_of j (with_byte k c (v.words b i))) (sym e)
              ∙ with_byte_other k j c (v.words b (j / 2)) (sym e) ne)
      | no far ↦ let u : (j / 2 == k / 2) ≡ false = ground (arith, far) in rw (t, u) refl
    ]

pub put_bytes-sb : (b k : ℕ) (cs : List ℕ) (v : Volume) → (put_bytes b k cs v).sb ≡ v.sb
unfolding put_bytes
put_bytes-sb b k [] v = refl
put_bytes-sb b k (c ∷ cs) v = put_bytes-sb b (k + 1) cs (put_byte b k c v)

pub put_bytes-readable :
    (b k : ℕ) (cs : List ℕ) (v : Volume) → (put_bytes b k cs v).readable ≡ v.readable
unfolding put_bytes
put_bytes-readable b k [] v = refl
put_bytes-readable b k (c ∷ cs) v = put_bytes-readable b (k + 1) cs (put_byte b k c v)

pub put_bytes-words :
    (b k : ℕ) (cs : List ℕ) (v : Volume) (b' i : ℕ)
    → b' ≢ b
    → (put_bytes b k cs v).words b' i ≡ v.words b' i
unfolding put_bytes
put_bytes-words b k [] v b' i ne = refl
put_bytes-words b k (c ∷ cs) v b' i ne =
    put_bytes-words b (k + 1) cs (put_byte b k c v) b' i ne ∙ put_byte_words b k c v b' i ne

pub put_bytes_outside :
    (b k : ℕ) (cs : List ℕ) (v : Volume) (j : ℕ)
    → (j < k) ⊎ (k + length cs ≤ j)
    → byte_at b j (put_bytes b k cs v) ≡ byte_at b j v
unfolding put_bytes
put_bytes_outside b k [] v j out = refl
put_bytes_outside b k (c ∷ cs) v j out =
    let further : (j < k + 1) ⊎ (k + 1 + length cs ≤ j) = elim out [
      | inl l ↦ inl (omega arith)
      | inr l ↦ inr (omega arith)
    ] in
    let ne : j ≢ k = λ e. elim out [ inl l ↦ omega (arith, e, l) | inr l ↦ omega (arith, e, l) ] in
    put_bytes_outside b (k + 1) cs (put_byte b k c v) j further ∙ put_byte_other b k c v j ne

pub put_bytes_inside :
    (b k : ℕ) (cs : List ℕ) (v : Volume) (i : ℕ)
    → i < length cs
    → byte_at b (k + i) (put_bytes b k cs v) ≡ get_or cs i 0 % 256
unfolding put_bytes
put_bytes_inside b k [] v i l = absurd (omega arith)
put_bytes_inside b k (c ∷ cs) v zero l =
    let e : k + 0 ≡ k = omega arith in
    rw e (
      put_bytes_outside b (k + 1) cs (put_byte b k c v) k (inl (omega arith))
      ∙ put_byte_self b k c v)
put_bytes_inside b k (c ∷ cs) v (suc i) l =
    let e : k + suc i ≡ k + 1 + i = omega arith in
    rw e (put_bytes_inside b (k + 1) cs (put_byte b k c v) i (omega arith))
