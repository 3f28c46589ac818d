-- ===== src/Fs/Buffer/Queues.antt =====
-- Membership in the queues of buffers, and the removal of a buffer.
use linux_0_11_lab.Base.{
  In, IsNodup, List, [], arith, false, inl, inr, sym, true, ℕ, ◌++◌, ◌==◌, ◌∙◌, ◌∷◌, ◌≡◌, ◌≢◌, ◌⊎◌,
}
use native.Mathlib.Decide.{ℕ_discrete}
use linux_0_11_lab.Fs.Buffer.{erase}

pub In-append : (x : ℕ) (xs ys : List ℕ) → In x (xs ++ ys) → In x xs ⊎ In x ys
In-append x [] ys i = inr i
In-append x (y ∷ xs) ys (inl e) = inl (inl e)
In-append x (y ∷ xs) ys (inr i) = elim (In-append x xs ys i) [ inl a ↦ inl (inr a) | inr b ↦ inr b ]

pub In-append_left : (x : ℕ) (xs ys : List ℕ) → In x xs → In x (xs ++ ys)
In-append_left x [] ys i = absurd i
In-append_left x (y ∷ xs) ys (inl e) = inl e
In-append_left x (y ∷ xs) ys (inr i) = inr (In-append_left x xs ys i)

pub In-append_right : (x : ℕ) (xs ys : List ℕ) → In x ys → In x (xs ++ ys)
In-append_right x [] ys i = i
In-append_right x (y ∷ xs) ys i = inr (In-append_right x xs ys i)

-- The element that an erase takes out, and those that it leaves.
pub erase_other : (x y : ℕ) (xs : List ℕ) → y ≢ x → In y xs → In y (erase x xs)
unfolding erase
erase_other x y [] ne i = absurd i
erase_other x y (z ∷ xs) ne i = elim (ℕ_discrete x z) [
  | yes e ↦
      let t : (x == z) ≡ true = ground arith in
      rw t (elim i [ inl f ↦ absurd (ne (f ∙ sym e)) | inr j ↦ j ])
  | no n ↦
      let t : (x == z) ≡ false = ground arith in
      rw t (elim i [ inl f ↦ inl f | inr j ↦ inr (erase_other x y xs ne j) ])
]

pub erase_part : (x y : ℕ) (xs : List ℕ) → In y (erase x xs) → In y xs
unfolding erase
erase_part x y [] i = i
erase_part x y (z ∷ xs) i = elim (ℕ_discrete x z) [
  | yes e ↦ let t : (x == z) ≡ true = ground arith in inr (rw t at i)
  | no n ↦
      let t : (x == z) ≡ false = ground arith in
      let j : (y ≡ z) ⊎ In y (erase x xs) = rw t at i in
      elim j [ inl f ↦ inl f | inr k ↦ inr (erase_part x y xs k) ]
]

pub erase_self : (x : ℕ) (xs : List ℕ) → IsNodup xs → In x (erase x xs) → ⊥
unfolding erase
erase_self x [] nd i = i
erase_self x (z ∷ xs) nd i = elim (ℕ_discrete x z) [
  | yes e ↦ let t : (x == z) ≡ true = ground arith in nd.0 (rw e at (rw t at i))
  | no n ↦
      let t : (x == z) ≡ false = ground arith in
      let j : (x ≡ z) ⊎ In x (erase x xs) = rw t at i in
      elim j [ inl f ↦ n f | inr k ↦ erase_self x xs nd.1 k ]
]

pub erase-IsNodup : (x : ℕ) (xs : List ℕ) → IsNodup xs → IsNodup (erase x xs)
unfolding erase
erase-IsNodup x [] nd = tt
erase-IsNodup x (z ∷ xs) nd = elim (ℕ_discrete x z) [
  | yes e ↦ let t : (x == z) ≡ true = ground arith in rw t nd.1
  | no n ↦
      let t : (x == z) ≡ false = ground arith in
      rw t (λ i. nd.0 (erase_part x z xs i), erase-IsNodup x xs nd.1)
]

pub append_one-IsNodup :
    (xs : List ℕ) (x : ℕ) → IsNodup xs → (In x xs → ⊥) → IsNodup (xs ++ (x ∷ []))
append_one-IsNodup [] x nd out = (λ i. i, tt)
append_one-IsNodup (y ∷ xs) x nd out = (
  λ i. elim (In-append y xs (x ∷ []) i) [
    | inl j ↦ nd.0 j
    | inr j ↦ elim j [ inl e ↦ out (inl (sym e)) | inr k ↦ k ]
  ],
  append_one-IsNodup xs x nd.1 (λ i. out (inr i)),
)
