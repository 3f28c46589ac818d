-- ===== src/Fs/Pipe/Ring.antt =====
-- The page of a pipe as a ring of bytes.
use linux_0_11_lab.Base.{
  List, [], ap, arith, get_or, get_or-set_ne, get_or-set_self, inl, length, length-set, refl, set,
  suc, take, zero, ℕ, ◌%◌, ◌++◌, ◌+◌, ◌<◌, ◌∙◌, ◌∷◌, ◌≡◌, ◌≤◌, ◌⊎◌,
}
use linux_0_11_lab.Fs.Pipe.{get_bytes, page_size, put_bytes}

-- `n` bytes of the ring from position `at` on.
unfoldable pub ring : List ℕ → ℕ → ℕ → List ℕ
ring page at zero = []
ring page at (suc n) = get_or page (at % page_size) 0 ∷ ring page (at + 1) n

pub length-ring : (page : List ℕ) (at n : ℕ) → length (ring page at n) ≡ n
unfolding ring
length-ring page at zero = refl
length-ring page at (suc n) = ap suc (length-ring page (at + 1) n)

pub ring_around :
    (page : List ℕ) (a b n : ℕ) → a % page_size ≡ b % page_size → ring page a n ≡ ring page b n
unfolding ring
ring_around page a b zero e = refl
ring_around page a b (suc n) e =
    let rest = ring_around page (a + 1) (b + 1) n (omega (arith, e)) in rw (e, rest) refl

pub ring_add :
    (page : List ℕ) (at a b : ℕ) → ring page at (a + b) ≡ ring page at a ++ ring page (at + a) b
unfolding ring
ring_add page at zero b =
    let e : at + 0 ≡ at = omega arith in let f : 0 + b ≡ b = omega arith in rw (e, f) refl
ring_add page at (suc a) b =
    let e : at + suc a ≡ at + 1 + a = omega arith in
    let g : suc a + b ≡ suc (a + b) = omega arith in rw (g, ring_add page (at + 1) a b, e) refl

pub get_bytes-ring :
    (chars size : ℕ) (page : List ℕ)
    → size + chars ≤ page_size
    → get_bytes chars size page ≡ ring page size chars
unfolding get_bytes ring
get_bytes-ring zero size page h = refl
get_bytes-ring (suc chars) size page h =
    let e : size % page_size ≡ size = omega arith in
    rw (get_bytes-ring chars (size + 1) page (omega arith), e) refl

pub length-put_bytes :
    (chars size : ℕ) (buf page : List ℕ) → length (put_bytes chars size buf page) ≡ length page
unfolding put_bytes
length-put_bytes zero size buf page = refl
length-put_bytes (suc chars) size [] page = refl
length-put_bytes (suc chars) size (b ∷ buf) page =
    length-put_bytes chars (size + 1) buf (set page size b) ∙ length-set page size b

-- The bytes outside of the written range stay.
pub put_bytes-outside :
    (chars size : ℕ) (buf page : List ℕ) (j : ℕ)
    → (j < size) ⊎ (size + chars ≤ j)
    → get_or (put_bytes chars size buf page) j 0 ≡ get_or page j 0
unfolding put_bytes
put_bytes-outside zero size buf page j out = refl
put_bytes-outside (suc chars) size [] page j out = refl
put_bytes-outside (suc chars) size (b ∷ buf) page j out =
    let further : (j < size + 1) ⊎ (size + 1 + chars ≤ j) = ground (arith, out) in
    put_bytes-outside chars (size + 1) buf (set page size b) j further
    ∙ get_or-set_ne page b 0 (ground (arith, out))

pub ring-put_outside :
    (chars size : ℕ) (buf page : List ℕ) (at n : ℕ)
    → ((k : ℕ) → k < n → ((at + k) % page_size < size) ⊎ (size + chars ≤ (at + k) % page_size))
    → ring (put_bytes chars size buf page) at n ≡ ring page at n
unfolding ring
ring-put_outside chars size buf page at zero out = refl
ring-put_outside chars size buf page at (suc n) out =
    let e : at + 0 ≡ at = omega arith in
    let here =
      put_bytes-outside chars size buf page (at % page_size) (rw e at (out 0 (omega arith))) in
    let rest = ring-put_outside chars size buf page (at + 1) n (λ k l.
      let f : at + suc k ≡ at + 1 + k = omega arith in rw f at (out (suc k) (omega arith))) in
    rw (here, rest) refl

pub ring-put_inside :
    (chars size : ℕ) (buf page : List ℕ)
    → size + chars ≤ page_size
    → length page ≡ page_size
    → chars ≤ length buf
    → ring (put_bytes chars size buf page) size chars ≡ take chars buf
unfolding ring put_bytes
ring-put_inside zero size buf page fits long enough = refl
ring-put_inside (suc chars) size [] page fits long enough = absurd (omega arith)
ring-put_inside (suc chars) size (b ∷ buf) page fits long enough =
    let e : size % page_size ≡ size = omega arith in
    let first =
      put_bytes-outside chars (size + 1) buf (set page size b) size (inl (omega arith))
      ∙ get_or-set_self page size b 0 (omega arith) in
    let rest =
      ring-put_inside chars (size + 1) buf (set page size b) (omega arith)
        (length-set page size b ∙ long) (omega arith) in
    rw (e, first, rest) refl
