-- ===== src/Fs/Regular/Reading.antt =====
-- What file_read and the branch of sys_read give.
use linux_0_11_lab.Base.{
  Bool, Bool-cases, List, [], ap, arith, false, get_or, if◌then◌else◌, inl, inr, length,
  length-replicate, ltb, min, none, not, refl, replicate, some, suc, sym, true, zero, ℕ, ◌%◌, ◌&&◌,
  ◌*◌, ◌++◌, ◌+◌, ◌-◌, ◌/◌, ◌<◌, ◌==◌, ◌∙◌, ◌∷◌, ◌≡◌, ◌≢◌, ◌≤◌, ◌⊎◌,
}
use native.Mathlib.Decide.{ℕ_discrete}
use linux_0_11_lab.Base.Int.{negsuc, pos, ℤ}
use linux_0_11_lab.Fs.Bitmap.{ok}
use linux_0_11_lab.Fs.Regular.{
  Opened, byte_at, file_read, get_bytes, read_file, read_loop, with_atime,
}
use linux_0_11_lab.Fs.Regular.Content.{before, content, readable_bytes}
use linux_0_11_lab.Fs.Zones.{File, Volume, and_then, bmap}
use linux_0_11_lab.Fs.Zones.Lookup.{bmap_lem, lookup}

pub in_block_of :
    (p i : ℕ) → p % 1024 + i < 1024 → ((p + i) / 1024 ≡ p / 1024) × ((p + i) % 1024 ≡ p % 1024 + i)
in_block_of p i l = (omega arith, omega arith)

pub length-get_bytes : (b k n : ℕ) (v : Volume) → length (get_bytes b k n v) ≡ n
unfolding get_bytes
length-get_bytes b k zero v = refl
length-get_bytes b k (suc n) v = ap suc (length-get_bytes b (k + 1) n v)

get_or-get_bytes :
    (b k n : ℕ) (v : Volume) (i : ℕ) → i < n → get_or (get_bytes b k n v) i 0 ≡ byte_at b (k + i) v
unfolding get_bytes
get_or-get_bytes b k zero v i l = absurd (omega arith)
get_or-get_bytes b k (suc n) v zero l = ap (λ j. byte_at b j v) (omega arith)
get_or-get_bytes b k (suc n) v (suc i) l =
    get_or-get_bytes b (k + 1) n v i (omega arith) ∙ ap (λ j. byte_at b j v) (omega arith)

pub get_or-replicate : (n : ℕ) (a : ℕ) (i : ℕ) → get_or (replicate n a) i a ≡ a
get_or-replicate zero a i = refl
get_or-replicate (suc n) a zero = refl
get_or-replicate (suc n) a (suc i) = get_or-replicate n a i

pub content_hole : (q : ℕ) (f : File) → lookup (q / 1024) f ≡ 0 → content q f ≡ some 0
unfolding content
content_hole q f z = rw z refl

pub content_there :
    (q b : ℕ) (f : File)
    → lookup (q / 1024) f ≡ b
    → b ≢ 0
    → f.volume.readable b ≡ true
    → content q f ≡ some (byte_at b (q % 1024) f.volume)
unfolding content
content_there q b f e nz r = let t : (b == 0) ≡ false = ground (arith, nz) in rw (e, t, r) refl

pub content_bad :
    (q b : ℕ) (f : File)
    → lookup (q / 1024) f ≡ b
    → b ≢ 0
    → f.volume.readable b ≡ false
    → content q f ≡ none
unfolding content
content_bad q b f e nz r = let t : (b == 0) ≡ false = ground (arith, nz) in rw (e, t, r) refl

-- A run of bytes that the file has, and what is behind it.
pub readable_bytes_run :
    (f : File) (xs : List ℕ) (p n : ℕ)
    → ((i : ℕ) → i < length xs → content (p + i) f ≡ some (get_or xs i 0))
    → readable_bytes f p (length xs + n) ≡ xs ++ readable_bytes f (p + length xs) n
unfolding readable_bytes
readable_bytes_run f [] p n h =
    let e : 0 + n ≡ n = omega arith in let e' : p + 0 ≡ p = omega arith in rw (e, e') refl
readable_bytes_run f (x ∷ xs) p n h =
    let e : suc (length xs) + n ≡ suc (length xs + n) = omega arith in
    let here : content p f ≡ some x = ap (λ q. content q f) (omega arith) ∙ h 0 (omega arith) in
    let e' : p + suc (length xs) ≡ p + 1 + length xs = omega arith in
    let rest =
      readable_bytes_run f xs (p + 1) n
        (λ i l. ap (λ q. content q f) (omega arith) ∙ h (suc i) (omega arith)) in
    rw (e, e')
      (ap (λ o. before o (readable_bytes f (p + 1) (length xs + n))) here ∙ ap (λ ys. x ∷ ys) rest)

run_of_block :
    (f : File) (p b k : ℕ)
    → lookup (p / 1024) f ≡ b
    → p % 1024 + k ≤ 1024
    → (b ≡ 0) ⊎ (f.volume.readable b ≡ true)
    → (i : ℕ) → i < k
    → content (p + i) f
      ≡ some (get_or (if b == 0 then replicate k 0 else get_bytes b (p % 1024) k f.volume) i 0)
run_of_block f p b k e l how i small =
    let (same, offset) = in_block_of p i (omega arith) in
    let e' : lookup ((p + i) / 1024) f ≡ b = ap (λ n. lookup n f) same ∙ e in
    elim (ℕ_discrete b 0) [
      | yes z ↦ rw z (content_hole (p + i) f (e' ∙ z) ∙ ap some (sym (get_or-replicate k 0 i)))
      | no nz ↦ elim how [
        | inl z ↦ absurd (nz z)
        | inr r ↦
            let t : (b == 0) ≡ false = ground (arith, nz) in
            rw t (
              content_there (p + i) b f e' nz r
              ∙ ap (λ j. some (byte_at b j f.volume)) offset
              ∙ ap some (sym (get_or-get_bytes b (p % 1024) k f.volume i small)))
      ]
    ]

length_run :
    (b k m : ℕ) (v : Volume) → length (if b == 0 then replicate k 0 else get_bytes b m k v) ≡ k
length_run b k m v = elim (Bool-cases (b == 0)) [
  | inl t ↦ rw t (length-replicate k 0)
  | inr t ↦ rw t (length-get_bytes b m k v)
]

stop_not : (b : ℕ) (good : Bool) → (b ≡ 0) ⊎ (good ≡ true) → (not (b == 0) && not good) ≡ false
stop_not b good (inl z) = rw z refl
stop_not b good (inr r) =
    rw r (elim (Bool-cases (b == 0)) [ inl t ↦ rw t refl | inr t ↦ rw t refl ])

-- One pass of the loop, if the rest of the loop does what it should.
read_loop_pass :
    (fuel now : ℕ) (f : File) (p left b : ℕ)
    → p + suc left ≤ 1024 * (7 + 512 + 512 * 512)
    → lookup (p / 1024) f ≡ b
    → (b ≡ 0) ⊎ (f.volume.readable b ≡ true)
    → (let chars : ℕ = min (1024 - p % 1024) (suc left) in
        read_loop fuel now f (p + chars) (suc left - chars)
        ≡ ok (readable_bytes f (p + chars) (suc left - chars)))
    → read_loop (suc fuel) now f p (suc left) ≡ ok (readable_bytes f p (suc left))
unfolding read_loop and_then
read_loop_pass fuel now f p left b bound e how rest =
    let found : bmap now (p / 1024) f ≡ ok (b, f) =
      bmap_lem now (p / 1024) f (omega arith) ∙ ap (λ x. ok (x, f)) e in
    let chars : ℕ = min (1024 - p % 1024) (suc left) in
    let small : p % 1024 + chars ≤ 1024 = omega arith in
    let xs : List ℕ =
      (if b == 0 then replicate chars 0 else get_bytes b (p % 1024) chars f.volume) in
    let n : length xs ≡ chars = length_run b chars (p % 1024) f.volume in
    let whole : length xs + (suc left - chars) ≡ suc left = omega (arith, n) in
    let run =
      readable_bytes_run f xs p (suc left - chars)
        (λ i l. run_of_block f p b chars e small how i (omega (arith, n, l))) in
    rw (found, stop_not b (f.volume.readable b) how, rest)
      (ap ok (
        ap (λ c. xs ++ readable_bytes f (p + c) (suc left - chars)) (sym n)
        ∙ sym run
        ∙ ap (readable_bytes f p) whole))

read_loop_stop :
    (fuel now : ℕ) (f : File) (p left b : ℕ)
    → p + suc left ≤ 1024 * (7 + 512 + 512 * 512)
    → lookup (p / 1024) f ≡ b
    → b ≢ 0
    → f.volume.readable b ≡ false
    → read_loop (suc fuel) now f p (suc left) ≡ ok (readable_bytes f p (suc left))
unfolding read_loop readable_bytes and_then
read_loop_stop fuel now f p left b bound e nz r =
    let found : bmap now (p / 1024) f ≡ ok (b, f) =
      bmap_lem now (p / 1024) f (omega arith) ∙ ap (λ x. ok (x, f)) e in
    let t : (b == 0) ≡ false = ground (arith, nz) in
    rw (found, t, r)
      (ap ok (sym (ap (λ o. before o (readable_bytes f (p + 1) left)) (content_bad p b f e nz r))))

-- The loop gives the bytes of the file up to the first that cannot be read.
pub read_loop_lem :
    (fuel now : ℕ) (f : File) (p left : ℕ)
    → left ≤ fuel
    → p + left ≤ 1024 * (7 + 512 + 512 * 512)
    → read_loop fuel now f p left ≡ ok (readable_bytes f p left)
unfolding read_loop readable_bytes
read_loop_lem zero now f p zero l bound = refl
read_loop_lem zero now f p (suc left) l bound = absurd (omega arith)
read_loop_lem (suc fuel) now f p zero l bound = refl
read_loop_lem (suc fuel) now f p (suc left) l bound =
    let b : ℕ = lookup (p / 1024) f in
    let chars : ℕ = min (1024 - p % 1024) (suc left) in
    let rest =
      read_loop_lem fuel now f (p + chars) (suc left - chars) (omega arith) (omega arith) in
    elim (ℕ_discrete b 0) [
      | yes z ↦ read_loop_pass fuel now f p left b bound refl (inl z) rest
      | no nz ↦ elim (Bool-cases (f.volume.readable b)) [
        | inl r ↦ read_loop_pass fuel now f p left b bound refl (inr r) rest
        | inr r ↦ read_loop_stop fuel now f p left b bound refl nz r
      ]
    ]

abbrev result : ℕ → ℤ
result n = if n == 0 then negsuc 98 else pos n

-- file_read of at least one byte, of a range that the block numbers of a file reach, gives the bytes
-- of the file from the position on, 0 for those in holes, up to the count or to the first byte whose
-- block cannot be read. The position grows by their number, which is the value, or -ERROR if there
-- are none.
pub file_read_lem :
    (now : ℕ) (f : File) (filp : Opened) (count : ℕ)
    → 1 ≤ count
    → filp.f_pos + count ≤ 1024 * (7 + 512 + 512 * 512)
    → let bytes : List ℕ = readable_bytes f filp.f_pos count in
      file_read now f filp count
      ≡ ok (
        result (length bytes),
        bytes,
        with_atime now f,
        record filp { f_pos = filp.f_pos + length bytes },
      )
unfolding file_read and_then
file_read_lem now f filp count l bound =
    let t : (count == 0) ≡ false = ground arith in
    rw (t, read_loop_lem count now f filp.f_pos count (omega arith) bound) refl

-- sys_read of a file: no byte from behind the end of the file, and 0 at the end. Before that the
-- bytes of the file from the position on, 0 for those in holes, up to the count, the end, or the first
-- byte whose block cannot be read. The position grows by their number, which is the value, or -ERROR
-- if there are none. The range is one that the block numbers of a file reach.
pub read_file_lem :
    (now : ℕ) (f : File) (filp : Opened) (count : ℕ)
    → filp.f_pos + count ≤ 1024 * (7 + 512 + 512 * 512)
    → let n : ℕ = min count (f.inode.i_size - filp.f_pos) in
      let bytes : List ℕ = readable_bytes f filp.f_pos n in
      read_file now f filp count
      ≡ ok (
          if n == 0 then (pos 0, [], f, filp) else (
            result (length bytes),
            bytes,
            with_atime now f,
            record filp { f_pos = filp.f_pos + length bytes },
          ))
unfolding read_file
read_file_lem now f filp count bound =
    let n : ℕ = min count (f.inode.i_size - filp.f_pos) in
    let same : (if ltb f.inode.i_size (count + filp.f_pos)
          then f.inode.i_size - filp.f_pos
          else count)
        ≡ n =
      elim (Bool-cases (ltb f.inode.i_size (count + filp.f_pos))) [
        | inl t ↦ rw t (ground (arith, t))
        | inr t ↦ rw t (ground (arith, t))
      ] in
    rw same (elim (Bool-cases (n == 0)) [
      | inl t ↦ rw t refl
      | inr t ↦ rw t (file_read_lem now f filp n (ground (arith, t)) (omega arith))
    ])
