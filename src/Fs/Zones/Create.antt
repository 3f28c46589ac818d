-- ===== src/Fs/Zones/Create.antt =====
-- bmap finds what create_block gives.
use linux_0_11_lab.Base.{
  ap, arith, false, get_or, inl, inr, leb, ltb, sym, true, ℕ, ◌%◌, ◌*◌, ◌+◌, ◌-◌, ◌/◌, ◌<◌, ◌∙◌,
  ◌≡◌, ◌≢◌, ◌≤◌, ◌⊎◌,
}
use native.Mathlib.Decide.{dec_lt, ℕ_discrete}
use linux_0_11_lab.Fs.Bitmap.{Outcome, fault, ok, panic}
use linux_0_11_lab.Fs.Zones.{File, _bmap, and_then, bmap, create_block, zone}
use linux_0_11_lab.Fs.Zones.Allocate.{IsVolume, in_use}
use linux_0_11_lab.Fs.Zones.Kept.{Step-used, apart, not_before, second_after, word_kept, words_kept}
use linux_0_11_lab.Fs.Zones.Lookup.{IsFile, bmap_lem, lookup, lookup_double, word_in}
use linux_0_11_lab.Fs.Zones.Missing.{
  Missing, double-Missing, need_zone_none, no_room, single-Missing,
}
use linux_0_11_lab.Fs.Zones.Steps.{Step, in_block_lem, need_zone_lem}

-- What create_block leaves for block `n` of `f`.
pub record Created (n : ℕ) (f : File) (r : ℕ) (f' : File) : Type 0 where
  pub sound : IsVolume f'.volume
  pub found : lookup n f' ≡ r
  pub reuses : lookup n f ≢ 0 → (r ≡ lookup n f) × (f' ≡ f)
  pub fresh :
      lookup n f ≡ 0 → (r ≡ 0) ⊎ ((in_use f.volume.sb r ≡ false) × (in_use f'.volume.sb r ≡ true))
  pub missing : r ≡ 0 → Missing n f f'

abbrev Creates : ℕ → ℕ → File → Type 0
Creates now n f = (r : ℕ) × (f' : File) × (create_block now n f ≡ ok (r, f')) × Created n f r f'

direct : (now n : ℕ) (f : File) → IsFile f → n < 7 → Creates now n f
unfolding _bmap lookup
direct now n f valid l =
    let t : leb (7 + 512 + 512 * 512) n ≡ false = ground arith in
    let u : ltb n 7 ≡ true = ground arith in
    let (r, f', e, s, here, others) =
      need_zone_lem now n f valid.volume (let z = valid.zones in omega arith) in
    (
      r,
      f',
      rw (t, u) e,
      record {
        sound = s.sound;
        found = rw u here;
        reuses = rw u s.reuses;
        fresh = rw u (λ z. elim (s.fresh z) [ inl q ↦ inl q | inr h ↦ inr (h.0, h.1) ]);
        missing = λ z. no_room (need_zone_none now n f r f' valid.volume e z);
      },
    )

single : (now n : ℕ) (f : File) → IsFile f → 7 ≤ n → n < 519 → Creates now n f
unfolding _bmap lookup and_then
single now n f valid low high =
    let t : leb (7 + 512 + 512 * 512) n ≡ false = ground arith in
    let u : ltb n 7 ≡ false = ground arith in
    let w : ltb (n - 7) 512 ≡ true = ground arith in
    let w' : ltb n 519 ≡ true = ground arith in
    let (z, f1, e1, s1, here1, others1) =
      need_zone_lem now 7 f valid.volume (let k = valid.zones in omega arith) in
    let (r, f2, e2, s2, inode2, here2, others2) =
      in_block_lem z (n - 7) f1 s1.sound (Step-used (zone 7 f) f z f1 s1 valid.single) in
    let zone_7 : zone 7 f2 ≡ z = ap (λ i. get_or i.i_zone 7 0) inode2 ∙ here1 in
    let kept = word_kept (zone 7 f) f z f1 (n - 7) s1 in
    (
      r,
      f2,
      rw (t, u, w, e1) e2,
      record {
        sound = s2.sound;
        found = rw (u, w', zone_7) here2;
        reuses =
            rw (u, w')
              (λ nz.
                let (er, same) = s2.reuses (λ q. nz (sym kept ∙ q)) in
                (er ∙ kept, same ∙ (s1.reuses (λ q. nz (ap (λ b. word_in b (n - 7) f) q))).1));
        fresh =
            rw (u, w')
              (λ q. elim (s2.fresh (kept ∙ q)) [
                | inl zero_there ↦ inl zero_there
                | inr (unused, used, _) ↦ inr (not_before f f1 r s1.still_used unused, used)
              ]);
        missing =
            single-Missing now n f z f1 r f2 low high valid.volume s1.sound s1.still_used e1 e2
              zone_7;
      },
    )

double : (now n : ℕ) (f : File) → IsFile f → 519 ≤ n → n < 7 + 512 + 512 * 512 → Creates now n f
unfolding _bmap and_then
double now n f valid low high =
    let t : leb (7 + 512 + 512 * 512) n ≡ false = ground arith in
    let u : ltb n 7 ≡ false = ground arith in
    let w : ltb (n - 7) 512 ≡ false = ground arith in
    let way = lookup_double n f low in
    let j : ℕ = (n - 519) / 512 in
    let k : ℕ = (n - 519) % 512 in
    let (z, f1, e1, s1, here1, others1) =
      need_zone_lem now 8 f valid.volume (let l = valid.zones in omega arith) in
    let z_used = Step-used (zone 8 f) f z f1 s1 valid.double in
    let (i, f2, e2, s2', inode2, here2, others2) = in_block_lem z j f1 s1.sound z_used in
    let s2 : Step (word_in (zone 8 f) j f) f1 i f2 = rw (word_kept (zone 8 f) f z f1 j s1) at s2' in
    let (r, f3, e3, s3, inode3, here3, others3) =
      in_block_lem i k f2 s2.sound (second_after f z f1 s1 i f2 j s2 valid) in
    let zone_8 : zone 8 f3 ≡ z = ap (λ x. get_or x.i_zone 8 0) (inode3 ∙ inode2) ∙ here1 in
    let second : word_in z j f3 ≡ i = elim (ℕ_discrete z 0) [
      | yes e ↦ ap (λ b. word_in b j f3) e ∙ sym (ap (λ b. word_in b j f2) e) ∙ here2
      | no nz ↦
          let z_in : in_use f2.volume.sb z ≡ true = elim z_used [
            | inl e ↦ absurd (nz e)
            | inr x ↦ s2.still_used z x
          ] in
          let same = others3 z j z_in (inl (λ q. apart f z f1 s1 i f2 j s2 valid nz (sym q))) in
          rw (s3.same_readable, same) here2
    ] in
    let kept = words_kept f z f1 s1 i f2 j s2 valid k in
    (
      r,
      f3,
      rw (t, u, w, e1, and_then, e2, and_then) e3,
      record {
        sound = s3.sound;
        found =
            lookup_double n f3 low
            ∙ ap (λ x. word_in (word_in x j f3) k f3) zone_8
            ∙ ap (λ x. word_in x k f3) second
            ∙ here3;
        reuses = λ nz.
            let (er, same3) = s3.reuses (λ q. nz (way ∙ (sym kept ∙ q))) in
            let nz2 : word_in (zone 8 f) j f ≢ 0 = λ q. nz (way ∙ ap (λ b. word_in b k f) q) in
            let same1 = (s1.reuses (λ q. nz2 (ap (λ b. word_in b j f) q))).1 in
            (er ∙ (kept ∙ sym way), same3 ∙ (s2.reuses nz2).1 ∙ same1);
        fresh = λ q. elim (s3.fresh (kept ∙ (sym way ∙ q))) [
          | inl zero_there ↦ inl zero_there
          | inr (unused, used, _) ↦
              inr (not_before f f1 r s1.still_used (not_before f1 f2 r s2.still_used unused), used)
        ];
        missing =
            double-Missing now n f z f1 i f2 r f3 low valid.volume s1.sound s2.sound s1.still_used
              s2.still_used e1 e2 e3 zone_8 second;
      },
    )

-- create_block of a block number of a file whose way to it is sound does not fail. bmap then finds
-- exactly what it gave. If bmap found a block before, it gives that block and changes nothing; if
-- not, it gives a block that was free in the zone map before and is taken after; or 0, and then
-- new_block has given 0 at last, or a block on the way cannot be read.
pub create_block-bmap :
    (now n : ℕ) (f : File)
    → IsFile f
    → n < 7 + 512 + 512 * 512
    → (r : ℕ) × (f' : File) × (create_block now n f ≡ ok (r, f'))
      × (bmap now n f' ≡ ok (r, f'))
      × (((r' : ℕ) → bmap now n f ≡ ok (r', f) → r' ≢ 0 → (r ≡ r') × (f' ≡ f))
          × (bmap now n f ≡ ok (0, f)
              → ((r ≡ 0) × Missing n f f')
                ⊎ ((in_use f.volume.sb r ≡ false) × (in_use f'.volume.sb r ≡ true))))
create_block-bmap now n f valid l =
    let (r, f', e, c) = created in
    (
      r,
      f',
      e,
      bmap_lem now n f' l ∙ ap (λ x. ok (x, f')) c.found,
      (
        λ r' b nz.
            let same = found_before r' b in
            let (er, ef) = c.reuses (λ q. nz (sym same ∙ q)) in (er ∙ same, ef),
        λ b. elim (c.fresh (found_before 0 b)) [ inl z ↦ inl (z, c.missing z) | inr h ↦ inr h ],
      ),
    )
  where
    created : Creates now n f
    created = elim (dec_lt n 7) [
      | yes a ↦ direct now n f valid a
      | no a ↦ elim (dec_lt n 519) [
        | yes b ↦ single now n f valid (omega arith) b
        | no b ↦ double now n f valid (omega arith) l
      ]
    ]

    found_before : (r' : ℕ) → bmap now n f ≡ ok (r', f) → lookup n f ≡ r'
    found_before r' b = ap given (sym (bmap_lem now n f l) ∙ b)
      where
        given : Outcome (ℕ × File) → ℕ
        given (ok x) = x.0
        given panic = 0
        given fault = 0
