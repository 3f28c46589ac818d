-- ===== src/Fs/Buffer/Start.antt =====
-- buffer_init.
use linux_0_11_lab.Base.{
  In, IsNodup, List, [], ap, arith, get_or, if◌then◌else◌, inl, inr, leb, length-replicate, refl,
  replicate, suc, zero, ℕ, ◌&&◌, ◌*◌, ◌+◌, ◌-◌, ◌/◌, ◌<◌, ◌==◌, ◌^◌, ◌∷◌, ◌≡◌, ◌≤◌,
}
use native.Mathlib.Decide.{ℕ_discrete}
use linux_0_11_lab.Fs.Buffer.{Cache, buffer_at, no_buffer, nr_hash}
use linux_0_11_lab.Fs.Buffer.Find.{IsCache}

-- How many buffers fit between their heads, which grow up from `h` by the 36 bytes of a
-- buffer_head, and their blocks, which come down from `b` past the 384 KB of video memory and BIOS.
unfoldable pub count_buffers : ℕ → ℕ → ℕ → ℕ
count_buffers zero b h = 0
count_buffers (suc fuel) b h =
    let lower = b - 1024 in
    let rest = count_buffers fuel (if lower == 0x100000 then 0xa0000 else lower) (h + 36) in
    if leb (h + 36) lower && leb 1024 b then 1 + rest else 0

pub numbers : ℕ → ℕ → List ℕ
numbers i zero = []
numbers i (suc n) = i ∷ numbers (i + 1) n

-- `end` is the end of the kernel, where the heads begin.
unfoldable pub buffer_init : ℕ → ℕ → Cache
buffer_init end buffer_end =
    let top : ℕ = (if buffer_end == 2 ^ 20 then 640 * 1024 else buffer_end) in
    let n = count_buffers (top / 1024) top end in
    record {
      buffers = replicate n no_buffer;
      hash_table = replicate nr_hash [];
      free_list = numbers 0 n;
    }

In-numbers : (n i x : ℕ) → In x (numbers i n) → (i ≤ x) × (x < i + n)
unfolding numbers
In-numbers zero i x j = absurd j
In-numbers (suc n) i x (inl e) = (omega arith, omega arith)
In-numbers (suc n) i x (inr j) = let r = In-numbers n (i + 1) x j in (omega arith, omega arith)

numbers-In : (n i x : ℕ) → i ≤ x → x < i + n → In x (numbers i n)
unfolding numbers
numbers-In zero i x a b = absurd (omega arith)
numbers-In (suc n) i x a b = elim (ℕ_discrete x i) [
  | yes e ↦ inl e
  | no ne ↦ inr (numbers-In n (i + 1) x (omega arith) (omega arith))
]

numbers-IsNodup : (n i : ℕ) → IsNodup (numbers i n)
unfolding numbers
numbers-IsNodup zero i = tt
numbers-IsNodup (suc n) i =
    (λ j. let r = In-numbers n (i + 1) i j in absurd (omega arith), numbers-IsNodup n (i + 1))

get_or-replicate {ℓ} : {A : Type ℓ} (n : ℕ) (v : A) (j : ℕ) → get_or (replicate n v) j v ≡ v
get_or-replicate zero v j = refl
get_or-replicate (suc n) v zero = refl
get_or-replicate (suc n) v (suc j) = get_or-replicate n v j

-- buffer_init makes a sound cache, in which no buffer has a device or a user.
pub buffer_init-IsCache :
    (end buffer_end : ℕ)
    → IsCache (buffer_init end buffer_end)
      × ((x : ℕ) → buffer_at (buffer_init end buffer_end) x ≡ no_buffer)
unfolding buffer_init
buffer_init-IsCache end buffer_end =
    let top : ℕ = (if buffer_end == 2 ^ 20 then 640 * 1024 else buffer_end) in
    let n = count_buffers (top / 1024) top end in
    let long = length-replicate n no_buffer in
    let blank : (x : ℕ) → get_or (replicate n no_buffer) x no_buffer ≡ no_buffer =
      get_or-replicate n no_buffer in
    let nothing : List ℕ = [] in
    let none_queued : (h : ℕ) → get_or (replicate nr_hash nothing) h [] ≡ [] =
      get_or-replicate nr_hash nothing in
    (
      record {
        hashes = length-replicate nr_hash nothing;
        queued = λ x l nz. absurd (nz (ap (λ b. b.b_dev) (blank x)));
        placed = λ h x i. absurd (rw (none_queued h) at i);
        unique = λ x y lx ly nz e e'. absurd (nz (ap (λ b. b.b_dev) (blank x)));
        nodup = λ h. rw (none_queued h) tt;
        all_free = λ x l. numbers-In n 0 x (omega arith) (omega (arith, long));
        only_free = λ x i. let r = In-numbers n 0 x i in omega (arith, long);
        free_nodup = numbers-IsNodup n 0;
      },
      blank,
    )
