-- ===== src/Fs/Descriptors/Counts.antt =====
-- Reference counts: a file's f_count and the slots of a task's table that hold the file.
use linux_0_11_lab.Base.{
  Bool-cases, List, Option, Option-cases, [], arith, false, get_or, get_or-past, if◌then◌else◌, inl,
  inr, leb, length, none, refl, set, some, suc, true, zero, ℕ, ◌+◌, ◌-◌, ◌<◌, ◌==◌, ◌^◌, ◌∷◌, ◌≡◌,
  ◌≢◌, ◌≤◌, ◌⊎◌,
}
use native.Mathlib.Decide.{dec_lt, ℕ_discrete}
use linux_0_11_lab.Base.Int.{pos}
use linux_0_11_lab.Fs.Descriptors.{
  Files, count_of, dupfd, ebadf, einval, emfile, next_unused, nr_open, share_file,
}

-- 1 if the slot holds the file.
abbrev pub holds : ℕ → Option ℕ → ℕ
holds file none = 0
holds file (some g) = if file == g then 1 else 0

-- How many slots hold the file.
abbrev pub references : ℕ → List (Option ℕ) → ℕ
references file [] = 0
references file (slot ∷ slots) = holds file slot + references file slots

pub references-set :
    (file : ℕ) (filp : List (Option ℕ)) (i : ℕ) (v : Option ℕ)
    → i < length filp
    → references file (set filp i v) + holds file (get_or filp i none)
      ≡ references file filp + holds file v
references-set file [] i v h = absurd (omega arith)
references-set file (slot ∷ slots) zero v h = omega arith
references-set file (slot ∷ slots) (suc i) v h =
    omega (arith, references-set file slots i v (omega arith))

-- Every slot of the table names a file of file_table, whose count covers the slots that hold it and
-- has room for one more.
pub record IsTable (s : Files) : Type 0 where
  pub slots : length s.filp ≡ nr_open
  pub known : (i f : ℕ) → get_or s.filp i none ≡ some f → f < length s.f_count
  pub counted : (f : ℕ) → references f s.filp ≤ count_of s f
  pub small : (f : ℕ) → count_of s f + 1 < 2 ^ 16

-- A call gives and takes exactly as many references as it changes counts.
abbrev pub Balanced : Files → Files → Type 0
Balanced s s' =
    (file : ℕ)
    → count_of s' file + references file s.filp ≡ count_of s file + references file s'.filp

-- What the search of dupfd finds.
pub record FirstUnused (arg n : ℕ) (filp : List (Option ℕ)) (found : ℕ) : Type 0 where
  pub from : arg ≤ found
  pub upto : found ≤ arg + n
  pub free : found < arg + n → get_or filp found none ≡ none
  pub taken : (j : ℕ) → arg ≤ j → j < found → get_or filp j none ≢ none

next_unused-taken :
    (n arg : ℕ) (filp : List (Option ℕ)) (file : ℕ)
    → get_or filp arg none ≡ some file
    → next_unused (suc n) arg filp ≡ next_unused n (arg + 1) filp
unfolding next_unused
next_unused-taken n arg filp file e = rw (e, next_unused) refl

next_unused-free :
    (n arg : ℕ) (filp : List (Option ℕ))
    → get_or filp arg none ≡ none
    → next_unused (suc n) arg filp ≡ arg
unfolding next_unused
next_unused-free n arg filp e = rw (e, next_unused) refl

pub next_unused_lem :
    (n arg : ℕ) (filp : List (Option ℕ)) → FirstUnused arg n filp (next_unused n arg filp)
unfolding next_unused
next_unused_lem zero arg filp = record {
  from = omega arith;
  upto = omega arith;
  free = λ h. absurd (omega arith);
  taken = λ j a b. absurd (omega arith);
}
next_unused_lem (suc n) arg filp = elim (Option-cases (get_or filp arg none)) [
  | inl e ↦ rw (next_unused-free n arg filp e) (record {
    from = omega arith;
    upto = omega arith;
    free = λ h. e;
    taken = λ j a b. absurd (omega arith);
  })
  | inr (file, e) ↦
      let rest = next_unused_lem n (arg + 1) filp in
      let low = rest.from in
      let high = rest.upto in
      rw (next_unused-taken n arg filp file e) (record {
        from = omega arith;
        upto = omega arith;
        free = λ h. rest.free (omega arith);
        taken = λ j a b. elim (ℕ_discrete arg j) [
          | yes same ↦ λ z. let w : get_or filp arg none ≡ none = rw same z in cc
          | no other ↦ rest.taken j (omega arith) b
        ];
      })
]

-- dupfd, given an open descriptor, answers with the first unused one from `arg` on, which then
-- names the same file, and does not change the other slots; with -EINVAL when `arg` is out of
-- range; or with -EMFILE when every descriptor from `arg` on is in use. On an error, and on a
-- descriptor that is not open, which is answered with -EBADF, it changes nothing.
pub dupfd_lem :
    (fd arg : ℕ) (s : Files)
    → IsTable s
    → ((found file : ℕ) × (dupfd fd arg s ≡ (pos found, share_file found file s))
        × (get_or s.filp fd none ≡ some file)
        × (found < nr_open)
        × FirstUnused arg (nr_open - arg) s.filp found
        × (get_or s.filp found none ≡ none))
      ⊎ ((dupfd fd arg s ≡ (ebadf, s)) × (get_or s.filp fd none ≡ none))
      ⊎ ((dupfd fd arg s ≡ (einval, s)) × (nr_open ≤ arg))
      ⊎ ((dupfd fd arg s ≡ (emfile, s))
          × ((j : ℕ) → arg ≤ j → j < nr_open → get_or s.filp j none ≢ none))
unfolding dupfd
dupfd_lem fd arg s table = elim (Option-cases (get_or s.filp fd none)) [
  | inl e ↦
      inr
        (inl (elim (Bool-cases (leb nr_open fd)) [ inl t ↦ rw t refl | inr t ↦ rw (t, e) refl ], e))
  | inr (file, e) ↦ elim (dec_lt fd nr_open) [
    | no past ↦
        let slots = table.slots in
        let z = get_or-past s.filp fd none (omega arith) in absurd (cc (e, z))
    | yes l ↦
        let t : leb nr_open fd ≡ false = ground arith in
        let first = next_unused_lem (nr_open - arg) arg s.filp in
        let found = next_unused (nr_open - arg) arg s.filp in
        elim (dec_lt arg nr_open) [
          | no past ↦
              let u : leb nr_open arg ≡ true = ground arith in
              inr (inr (inl (rw (t, e, u) refl, omega arith)))
          | yes low ↦
              let u : leb nr_open arg ≡ false = ground arith in
              elim (dec_lt found nr_open) [
                | yes in_range ↦
                    let v : leb nr_open found ≡ false = ground arith in
                    inl (
                      found,
                      file,
                      rw (t, e, u, v) refl,
                      e,
                      in_range,
                      first,
                      first.free (omega arith),
                    )
                | no out ↦
                    let v : leb nr_open found ≡ true = ground arith in
                    inr (inr (inr (rw (t, e, u, v) refl, λ j a b. first.taken j a (omega arith))))
              ]
        ]
  ]
]
