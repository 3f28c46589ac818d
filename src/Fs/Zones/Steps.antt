-- ===== src/Fs/Zones/Steps.antt =====
-- The steps of create_block: zones of the inode, and words of blocks.
use linux_0_11_lab.Base.{
  Bool-cases, ap, arith, false, get_or-set_ne, get_or-set_self, inl, inr, length, length-set, not,
  refl, sym, true, ℕ, ◌%◌, ◌&&◌, ◌<◌, ◌==◌, ◌^◌, ◌||◌, ◌∙◌, ◌≡◌, ◌≢◌, ◌⊎◌,
}
use native.Mathlib.Decide.{ℕ_discrete}
use linux_0_11_lab.Fs.Bitmap.{ok}
use linux_0_11_lab.Fs.Zones.{File, Volume, in_block, need_word, need_zone, put_word, put_zone, zone}
use linux_0_11_lab.Fs.Zones.Allocate.{IsVolume, allocate_lem, in_use}
use linux_0_11_lab.Fs.Zones.Lookup.{word_in}

-- `f'` is `f` after a step that may have allocated `r` for what was `old`.
pub record Step (old : ℕ) (f : File) (r : ℕ) (f' : File) : Type 0 where
  pub sound : IsVolume f'.volume
  pub same_readable : f'.volume.readable ≡ f.volume.readable
  pub still_used : (c : ℕ) → in_use f.volume.sb c ≡ true → in_use f'.volume.sb c ≡ true
  pub reuses : old ≢ 0 → (r ≡ old) × (f' ≡ f)
  pub fresh :
      old ≡ 0
      → (r ≡ 0)
        ⊎ ((in_use f.volume.sb r ≡ false)
            × (in_use f'.volume.sb r ≡ true)
            × ((j : ℕ) → f'.volume.words r j ≡ 0))

-- What a step for zone `k` leaves of the rest.
pub record ZoneKept (k : ℕ) (f f' : File) : Type 0 where
  pub words : (c j : ℕ) → in_use f.volume.sb c ≡ true → f'.volume.words c j ≡ f.volume.words c j
  pub other_zones : (i : ℕ) → i ≢ k → zone i f' ≡ zone i f
  pub same_count : length f'.inode.i_zone ≡ length f.inode.i_zone
  pub same_size : f'.inode.i_size ≡ f.inode.i_size

pub need_zone_lem :
    (now k : ℕ) (f : File)
    → IsVolume f.volume
    → k < length f.inode.i_zone
    → (r : ℕ) × (f' : File) × (need_zone true now k f ≡ ok (r, f'))
      × Step (zone k f) f r f'
      × (zone k f' ≡ r)
      × ZoneKept k f f'
unfolding need_zone
need_zone_lem now k f valid l = elim (Bool-cases (zone k f == 0)) [
  | inr t ↦ (
    zone k f,
    f,
    rw t refl,
    record {
      sound = valid;
      same_readable = refl;
      still_used = λ c u. u;
      reuses = λ nz. (refl, refl);
      fresh = λ z. absurd (ground (arith, t, z));
    },
    refl,
    record {
      words = λ c j u. refl;
      other_zones = λ i ne. refl;
      same_count = refl;
      same_size = refl;
    },
  )
  | inl t ↦
      let (block, v, e, a) = allocate_lem f.volume valid in
      let stored : ℕ = block % 2 ^ 16 in
      let f' : File = record { inode = put_zone now k stored f.inode; volume = v } in
      (
        stored,
        f',
        rw (t, e) refl,
        record {
          sound = a.sound;
          same_readable = a.same_readable;
          still_used = a.still_used;
          reuses = λ nz. absurd (ground (arith, t, nz));
          fresh = λ z. elim a.its_words [
            | inl (zero_there, _) ↦ inl (rw zero_there refl)
            | inr (nz, small, unused, used, clear) ↦
                let same : stored ≡ block = omega arith in inr (rw same (unused, used, clear))
          ];
        },
        zone_after now k stored f l v,
        zone_kept now k stored f v a.other_words,
      )
]
  where
    zone_after :
        (now k stored : ℕ) (f : File)
        → k < length f.inode.i_zone
        → (v : Volume)
        → zone k (record { inode = put_zone now k stored f.inode; volume = v }) ≡ stored
    zone_after now k stored f l v = elim (Bool-cases (stored == 0)) [
      | inl t ↦ rw t (get_or-set_self f.inode.i_zone k stored 0 l)
      | inr t ↦ rw t (get_or-set_self f.inode.i_zone k stored 0 l)
    ]

    zone_kept :
        (now k stored : ℕ) (f : File) (v : Volume)
        → ((c j : ℕ) → in_use f.volume.sb c ≡ true → v.words c j ≡ f.volume.words c j)
        → ZoneKept k f (record { inode = put_zone now k stored f.inode; volume = v })
    zone_kept now k stored f v words = elim (Bool-cases (stored == 0)) [
      | inl t ↦ rw t (record {
        words = words;
        other_zones = λ i ne. get_or-set_ne f.inode.i_zone stored 0 (λ q. ne (sym q));
        same_count = length-set f.inode.i_zone k stored;
        same_size = refl;
      })
      | inr t ↦ rw t (record {
        words = words;
        other_zones = λ i ne. get_or-set_ne f.inode.i_zone stored 0 (λ q. ne (sym q));
        same_count = length-set f.inode.i_zone k stored;
        same_size = refl;
      })
    ]

need_word_lem :
    (b j : ℕ) (f : File)
    → IsVolume f.volume
    → in_use f.volume.sb b ≡ true
    → (r : ℕ) × (f' : File) × (need_word true b j f ≡ ok (r, f'))
      × Step (f.volume.words b j) f r f'
      × (f'.inode ≡ f.inode)
      × (f'.volume.words b j ≡ r)
      × ((c i : ℕ)
          → in_use f.volume.sb c ≡ true
          → (c ≢ b) ⊎ (i ≢ j)
          → f'.volume.words c i ≡ f.volume.words c i)
unfolding need_word
need_word_lem b j f valid used = elim (Bool-cases (f.volume.words b j == 0)) [
  | inr t ↦ (
    f.volume.words b j,
    f,
    rw t refl,
    record {
      sound = valid;
      same_readable = refl;
      still_used = λ c u. u;
      reuses = λ nz. (refl, refl);
      fresh = λ z. absurd (ground (arith, t, z));
    },
    refl,
    refl,
    λ c i u ne. refl,
  )
  | inl t ↦
      let (block, v, e, a) = allocate_lem f.volume valid in
      let was_zero : f.volume.words b j ≡ 0 = ground (arith, t) in
      elim a.its_words [
        | inl (zero_there, same) ↦
            let y : (block == 0) ≡ true = ground arith in
            (
              0,
              record f { volume = v },
              rw (t, e, y) (λ z. ok (zero_there z, record f { volume = v })),
              record {
                sound = a.sound;
                same_readable = a.same_readable;
                still_used = a.still_used;
                reuses = λ nz. absurd (nz was_zero);
                fresh = λ z. inl refl;
              },
              refl,
              ap (λ w. w b j) same ∙ was_zero,
              λ c i u ne. a.other_words c i u,
            )
        | inr (nz, small, unused, now_used, clear) ↦
            let y : (block == 0) ≡ false = ground arith in
            let fits : block % 2 ^ 16 ≡ block = omega arith in
            let v' : Volume = put_word b j (block % 2 ^ 16) v in
            let self : (b == b && j == j) ≡ true = ground arith in
            (
              block,
              record f { volume = v' },
              rw (t, e, y) refl,
              record {
                sound = record {
                  whole = a.sound.whole;
                  first = a.sound.first;
                  bit_0 = a.sound.bit_0;
                  short = a.sound.short;
                };
                same_readable = a.same_readable;
                still_used = a.still_used;
                reuses = λ nz. absurd (nz was_zero);
                fresh = λ z. inr (
                  unused,
                  now_used,
                  λ k.
                      let away : (block == b) ≡ false = elim (ℕ_discrete block b) [
                        | no ne ↦ ground arith
                        | yes same ↦ let u = rw same at unused in absurd (cc (u, used))
                      ] in
                      rw away (clear k),
                );
              },
              refl,
              rw self fits,
              λ c i u ne.
                  let away : (c == b && i == j) ≡ false = elim ne [
                    | inl n ↦ ground (arith, n)
                    | inr n ↦ ground (arith, n)
                  ] in
                  rw away (a.other_words c i u),
            )
      ]
]

pub in_block_lem :
    (b j : ℕ) (f : File)
    → IsVolume f.volume
    → (b ≡ 0) ⊎ (in_use f.volume.sb b ≡ true)
    → (r : ℕ) × (f' : File) × (in_block true b j f ≡ ok (r, f'))
      × Step (word_in b j f) f r f'
      × (f'.inode ≡ f.inode)
      × (word_in b j f' ≡ r)
      × ((c i : ℕ)
          → in_use f.volume.sb c ≡ true
          → (c ≢ b) ⊎ (i ≢ j)
          → f'.volume.words c i ≡ f.volume.words c i)
unfolding in_block
in_block_lem b j f valid used = elim (Bool-cases (b == 0 || not (f.volume.readable b))) [
  | inl t ↦ (
    0,
    f,
    rw t refl,
    rw t (record {
      sound = valid;
      same_readable = refl;
      still_used = λ c u. u;
      reuses = λ nz. absurd (nz refl);
      fresh = λ z. inl refl;
    }),
    refl,
    rw t refl,
    λ c i u ne. refl,
  )
  | inr t ↦
      let there : in_use f.volume.sb b ≡ true = elim used [
        | inl z ↦ absurd (ground (arith, t, z))
        | inr u ↦ u
      ] in
      let (r, f', e, step, same, here, others) = need_word_lem b j f valid there in
      let t' : (b == 0 || not (f'.volume.readable b)) ≡ false = rw step.same_readable t in
      (r, f', rw t e, rw t step, same, rw t' here, others)
]
