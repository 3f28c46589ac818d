-- ===== src/Fs/Regular/Trip.antt =====
-- file_read gives back what file_write wrote.
use linux_0_11_lab.Base.{
  List, [], ap, arith, false, get_or, length, map, refl, some, suc, sym, zero, ℕ, ◌%◌, ◌*◌, ◌++◌,
  ◌+◌, ◌==◌, ◌∙◌, ◌∷◌, ◌≡◌, ◌≤◌,
}
use mathlib.Core.Path.{subst}
use linux_0_11_lab.Base.Int.{pos, ℤ}
use linux_0_11_lab.Fs.Bitmap.{Outcome, ok}
use linux_0_11_lab.Fs.Regular.{Opened, file_read, file_write, start, with_atime}
use linux_0_11_lab.Fs.Regular.Content.{readable_bytes}
use linux_0_11_lab.Fs.Regular.Reading.{file_read_lem, readable_bytes_run}
use linux_0_11_lab.Fs.Regular.Writing.{file_write_lem, written}
use linux_0_11_lab.Fs.Regular.Wrote.{Wrote}
use linux_0_11_lab.Fs.Zones.{File}
use linux_0_11_lab.Fs.Zones.Tree.{IsTree}

-- What the machine keeps of the bytes of the buffer.
abbrev pub low_bytes : List ℕ → List ℕ
low_bytes = map (λ c. c % 256)

length-low_bytes : (cs : List ℕ) → length (low_bytes cs) ≡ length cs
length-low_bytes [] = refl
length-low_bytes (c ∷ cs) = ap suc (length-low_bytes cs)

get_or-low_bytes : (cs : List ℕ) (i : ℕ) → get_or (low_bytes cs) i 0 ≡ get_or cs i 0 % 256
get_or-low_bytes [] i = omega arith
get_or-low_bytes (c ∷ cs) zero = refl
get_or-low_bytes (c ∷ cs) (suc i) = get_or-low_bytes cs i

append_nil : (xs : List ℕ) → xs ++ [] ≡ xs
append_nil [] = refl
append_nil (x ∷ xs) = ap (λ ys. x ∷ ys) (append_nil xs)

readable_bytes-Wrote :
    (cs : List ℕ) (p : ℕ) (f g : File)
    → Wrote cs p f (length cs) g
    → readable_bytes g p (length cs) ≡ low_bytes cs
unfolding readable_bytes
readable_bytes-Wrote cs p f g w =
    let n = length-low_bytes cs in
    let whole : length (low_bytes cs) + 0 ≡ length cs = omega (arith, n) in
    sym (ap (readable_bytes g p) whole)
    ∙ readable_bytes_run g (low_bytes cs) p 0
        (λ i l. w.inside i (omega (arith, l, n)) ∙ ap some (sym (get_or-low_bytes cs i)))
    ∙ append_nil (low_bytes cs)

-- If file_write wrote the whole of a buffer that is not empty, then file_read of as many bytes at the
-- position where it started gives the bytes of the buffer.
pub file_read-file_write :
    (now later : ℕ) (f : File) (filp : Opened) (buf : List ℕ) (g : File) (filp' : Opened)
    → IsTree f
    → start f filp + length buf ≤ 1024 * (7 + 512 + 512 * 512)
    → 1 ≤ length buf
    → file_write now f filp buf ≡ ok (pos (length buf), g, filp')
    → file_read later g (record filp' { f_pos = start f filp }) (length buf)
      ≡ ok (
        pos (length buf),
        low_bytes buf,
        with_atime later g,
        record filp' { f_pos = start f filp + length buf },
      )
file_read-file_write now later f filp buf g filp' tree bound some_bytes e =
    let (i, h, e', w) = file_write_lem now f filp buf tree bound in
    let same = sym e' ∙ e in
    let whole : i ≡ length buf = count_of i (length buf) some_bytes (ap value same) in
    let file : h ≡ g = ap file_of same in
    let bytes = readable_bytes-Wrote buf (start f filp) f g (
      subst (λ k. Wrote buf (start f filp) f (length buf) k) file
        (subst (λ j. Wrote buf (start f filp) f j h) whole w)) in
    let n = length-low_bytes buf in
    let t : (length buf == 0) ≡ false = ground (arith, some_bytes) in
    file_read_lem later g (record filp' { f_pos = start f filp }) (length buf) some_bytes bound
    ∙ rw (bytes, n, t) refl
  where
    value : Outcome (ℤ × File × Opened) → ℤ
    value o = elim o [ ok x ↦ x.0 | _ ↦ pos 0 ]

    file_of : Outcome (ℤ × File × Opened) → File
    file_of o = elim o [ ok x ↦ x.1 | _ ↦ f ]

    count_of : (i n : ℕ) → 1 ≤ n → written i ≡ pos n → i ≡ n
    count_of zero n l q = absurd (cc q)
    count_of (suc i) n l q = ground (arith, q)
