-- ===== src/Fs/Regular/Writing.antt =====
-- What file_write does to the bytes of a file.
use linux_0_11_lab.Base.{
  Bool, Bool-cases, List, [], ap, arith, drop, false, if◌then◌else◌, inl, inr, length, length-drop,
  length-take, min, not, refl, suc, sym, take, true, zero, ℕ, ◌%◌, ◌*◌, ◌+◌, ◌-◌, ◌/◌, ◌==◌, ◌||◌,
  ◌∙◌, ◌∷◌, ◌≡◌, ◌≢◌, ◌≤◌, ◌⊎◌,
}
use mathlib.Core.Path.{subst}
use native.Mathlib.Decide.{dec_lt, ℕ_discrete}
use linux_0_11_lab.Base.Int.{negsuc, pos, ℤ}
use linux_0_11_lab.Fs.Bitmap.{ok}
use linux_0_11_lab.Fs.Regular.{
  Opened, file_write, put_bytes, start, with_size, with_volume, write_loop,
}
use linux_0_11_lab.Fs.Regular.Passed.{passed, passed-Pass}
use linux_0_11_lab.Fs.Regular.Wrote.{Wrote, Wrote-stamped, passes, stamped, stops, take-drop}
use linux_0_11_lab.Fs.Zones.{File, and_then}
use linux_0_11_lab.Fs.Zones.Extends.{create_block-Extends}
use linux_0_11_lab.Fs.Zones.Tree.{IsTree, name, node_of}

abbrev Writes : ℕ → ℕ → List ℕ → ℕ → File → Type 0
Writes fuel now cs p f =
    (i : ℕ) × (g : File) × (write_loop fuel now cs p f ≡ ok (i, g)) × Wrote cs p f i g

nothing : (p : ℕ) (f : File) → IsTree f → Wrote [] p f 0 f
nothing p f tree = record {
  tree = tree;
  bound = omega arith;
  size = refl;
  inside = λ j l. absurd (omega arith);
  outside = λ q out. inl refl;
  stopped = λ l. absurd (omega arith);
}

stop_not : (b : ℕ) (good : Bool) → b ≢ 0 → good ≡ true → (b == 0 || not good) ≡ false
stop_not b good nz g = let t : (b == 0) ≡ false = ground (arith, nz) in rw (t, g) refl

stop_yes : (b : ℕ) (good : Bool) → (b ≡ 0) ⊎ (good ≡ false) → (b == 0 || not good) ≡ true
stop_yes b good (inl z) = rw z refl
stop_yes b good (inr g) =
    rw g (elim (Bool-cases (b == 0)) [ inl t ↦ rw t refl | inr t ↦ rw t refl ])

pub write_loop_lem :
    (fuel now : ℕ) (cs : List ℕ) (p : ℕ) (f : File)
    → IsTree f
    → length cs ≤ fuel
    → p + length cs ≤ 1024 * (7 + 512 + 512 * 512)
    → Writes fuel now cs p f
unfolding write_loop and_then
write_loop_lem zero now [] p f tree l bound = (0, f, refl, nothing p f tree)
write_loop_lem zero now (c0 ∷ cs) p f tree l bound = absurd (omega arith)
write_loop_lem (suc fuel) now [] p f tree l bound = (0, f, refl, nothing p f tree)
write_loop_lem (suc fuel) now (c0 ∷ cs) p f tree l bound =
    let (r, g, e, ext, here) = create_block-Extends now (p / 1024) f tree (omega arith) in
    let c : ℕ = min (1024 - p % 1024) (length (c0 ∷ cs)) in
    let xs : List ℕ = take c (c0 ∷ cs) in
    let ys : List ℕ = drop c (c0 ∷ cs) in
    let nx : length xs ≡ c = length-take c (c0 ∷ cs) ∙ omega arith in
    let ny : length ys ≡ length (c0 ∷ cs) - c = length-drop c (c0 ∷ cs) in
    let aligned : (length ys ≡ 0) ⊎ ((p + length xs) % 1024 ≡ 0) =
      elim (dec_lt (length (c0 ∷ cs)) (1024 - p % 1024)) [
        | yes small ↦ inl (omega (arith, ny, small))
        | no big ↦ inr (omega (arith, nx, big))
      ] in
    let stop : (name (node_of (p / 1024)) g ≡ 0)
          ⊎ (g.volume.readable (name (node_of (p / 1024)) g) ≡ false)
        → Writes (suc fuel) now (c0 ∷ cs) p f =
      λ why. (
        0,
        g,
        rw (e, stop_yes r (g.volume.readable r) (rw here at why)) refl,
        stops c0 cs p f g ext why,
      ) in
    elim (ℕ_discrete r 0) [
      | yes z ↦ stop (inl (here ∙ z))
      | no nz ↦ elim (Bool-cases (g.volume.readable r)) [
        | inr bad ↦ stop (inr (ap (λ b. g.volume.readable b) here ∙ bad))
        | inl good ↦
            let pass = passed-Pass g ext.tree p r here nz good xs (omega (arith, nx)) in
            let (i, k, e', rest) =
              write_loop_lem fuel now ys (p + length xs) (passed r p xs g) pass.tree
                (omega (arith, ny)) (omega (arith, nx, ny)) in
            (
              length xs + i,
              k,
              rw (e, stop_not r (g.volume.readable r) nz good)
                  (ap
                      (λ m.
                        let sized = with_size (p + m) g in
                        and_then
                          (write_loop fuel now ys (p + m)
                            (with_volume (put_bytes r (p % 1024) xs sized.volume) sized))
                          (λ s. ok (m + s.0, s.1)))
                      (sym nx)
                    ∙ ap (λ o. and_then o (λ s. ok (length xs + s.0, s.1))) e'),
              subst (λ zs. Wrote zs p f (length xs + i) k) (take-drop c (c0 ∷ cs))
                  (passes xs ys p (p / 1024) f g (passed r p xs g) k i refl (omega (arith, nx))
                    aligned ext (ap (λ b. g.volume.readable b) here ∙ good) pass rest),
            )
      ]
    ]

abbrev pub written : ℕ → ℤ
written n = if n == 0 then negsuc 0 else pos n

-- file_write does not fail on a file whose blocks form a tree, within what the block numbers of a file
-- reach. It writes the first `i` bytes of the buffer at the position, or with O_APPEND at the end of
-- the file. All other bytes keep their values, save those of the block where it stopped if that cannot
-- be read. It stops before the end of the buffer only where the file has no block or one that cannot
-- be read. The size grows to the end of what it wrote, the blocks form a tree again, the value is `i`,
-- or -1 for none, and the position grows by `i` except with O_APPEND.
pub file_write_lem :
    (now : ℕ) (f : File) (filp : Opened) (buf : List ℕ)
    → IsTree f
    → start f filp + length buf ≤ 1024 * (7 + 512 + 512 * 512)
    → (i : ℕ) × (g : File) × (file_write now f filp buf
        ≡ ok (
          written i,
          g,
          if filp.o_append then filp else record filp { f_pos = start f filp + i },
        ))
      × Wrote buf (start f filp) f i g
unfolding file_write and_then
file_write_lem now f filp buf tree bound =
    let (i, g, e, w) =
      write_loop_lem (length buf) now buf (start f filp) f tree (omega arith) bound in
    (i, stamped now filp.o_append g, rw e refl, Wrote-stamped now filp.o_append g i w)
