-- ===== src/Fs/Descriptors/Balance.antt =====
-- dupfd and sys_close keep the counts of files in step with the slots that hold them.
use linux_0_11_lab.Base.{
  Bool-cases, ap, arith, false, get_or, get_or-past, get_or-set_ne, get_or-set_self, if◌then◌else◌,
  inl, inr, leb, length, length-set, none, refl, set, some, sym, true, ℕ, ◌%◌, ◌+◌, ◌-◌, ◌<◌, ◌==◌,
  ◌^◌, ◌∙◌, ◌≡◌, ◌≤◌,
}
use native.Mathlib.Decide.{dec_lt, ℕ_discrete}
use linux_0_11_lab.Base.Int.{pos}
use linux_0_11_lab.Fs.Descriptors.{
  Files, count_of, done, dupfd, nr_open, share_file, sys_close, without_bit,
}
use linux_0_11_lab.Fs.Descriptors.Counts.{
  Balanced, IsTable, dupfd_lem, holds, references, references-set,
}

count_of-set :
    (s : Files) (file v g : ℕ)
    → file < length s.f_count
    → get_or (set s.f_count file v) g 0 ≡ (if g == file then v else count_of s g)
count_of-set s file v g h = elim (ℕ_discrete file g) [
  | yes e ↦
      let self = get_or-set_self s.f_count file v 0 h in
      let z : (g == file) ≡ true = ground arith in rw (z, ← e) self
  | no ne ↦ let z : (g == file) ≡ false = ground arith in rw z (get_or-set_ne s.f_count v 0 ne)
]

pub share_file-Balanced :
    (arg file : ℕ) (s : Files)
    → IsTable s
    → arg < nr_open
    → get_or s.filp arg none ≡ none
    → file < length s.f_count
    → Balanced s (share_file arg file s)
share_file-Balanced arg file s table l e known g =
    let slots = table.slots in
    let small = table.small file in
    let refs = references-set g s.filp arg (some file) (omega arith) in
    let refs' : references g (set s.filp arg (some file)) + 0
        ≡ references g s.filp + holds g (some file) =
      rw (ap (holds g) e) at refs in
    let c = count_of-set s file ((count_of s file + 1) % 2 ^ 16) g known in
    elim (ℕ_discrete g file) [
      | yes same ↦
          let z : (g == file) ≡ true = ground arith in
          let here : count_of s g ≡ count_of s file = ap (count_of s) same in
          let c' = rw z at c in let refs'' = rw z at refs' in omega arith
      | no other ↦
          let z : (g == file) ≡ false = ground arith in
          let c' = rw z at c in let refs'' = rw z at refs' in omega arith
    ]

-- Whatever dupfd answers, each file's count grows by as many as there are new slots that hold it.
pub dupfd-Balanced : (fd arg : ℕ) (s : Files) → IsTable s → Balanced s (dupfd fd arg s).1
dupfd-Balanced fd arg s table = elim (dupfd_lem fd arg s table) [
  | inl (found, file, e, holder, l, first, free) ↦
      rw e (share_file-Balanced found file s table l free (table.known fd file holder))
  | inr (inl (e, _)) ↦ rw e (λ g. refl)
  | inr (inr (inl (e, _))) ↦ rw e (λ g. refl)
  | inr (inr (inr (e, _))) ↦ rw e (λ g. refl)
]

pub slot_in_range :
    (s : Files) (fd file : ℕ) → IsTable s → get_or s.filp fd none ≡ some file → fd < nr_open
slot_in_range s fd file table e = elim (dec_lt fd nr_open) [
  | yes l ↦ l
  | no past ↦
      let slots = table.slots in
      let z = get_or-past s.filp fd none (omega arith) in absurd (cc (e, z))
]

-- The tables after a close of descriptor `fd`, which holds `file`.
abbrev pub closed : ℕ → ℕ → Files → Files
closed fd file s = record s {
  close_on_exec = without_bit fd s.close_on_exec;
  filp = set s.filp fd none;
  f_count = set s.f_count file (count_of s file - 1);
}

pub held_count :
    (s : Files) (fd file : ℕ) → IsTable s → get_or s.filp fd none ≡ some file → 1 ≤ count_of s file
held_count s fd file table e =
    let slots = table.slots in
    let covered = table.counted file in
    let l = slot_in_range s fd file table e in
    let refs = references-set file s.filp fd none (omega arith) in
    let one : holds file (get_or s.filp fd none) ≡ 1 =
      rw e (let z : (file == file) ≡ true = ground arith in rw z refl) in
    omega arith

closed-Balanced :
    (s : Files) (fd file : ℕ)
    → IsTable s
    → get_or s.filp fd none ≡ some file
    → Balanced s (closed fd file s)
closed-Balanced s fd file table e g =
    let slots = table.slots in
    let l = slot_in_range s fd file table e in
    let used_there = held_count s fd file table e in
    let refs = references-set g s.filp fd none (omega arith) in
    let refs' : references g (set s.filp fd none) + holds g (some file) ≡ references g s.filp + 0 =
      rw (ap (holds g) e) at refs in
    let c = count_of-set s file (count_of s file - 1) g (table.known fd file e) in
    elim (ℕ_discrete g file) [
      | yes same ↦
          let z : (g == file) ≡ true = ground arith in
          let here : count_of s g ≡ count_of s file = ap (count_of s) same in
          let c' = rw z at c in let refs'' = rw z at refs' in omega arith
      | no other ↦
          let z : (g == file) ≡ false = ground arith in
          let c' = rw z at c in let refs'' = rw z at refs' in omega arith
    ]

pub closed-IsTable :
    (s : Files) (fd file : ℕ)
    → IsTable s
    → get_or s.filp fd none ≡ some file
    → IsTable (closed fd file s)
closed-IsTable s fd file table e =
    let l = slot_in_range s fd file table e in
    let slots = table.slots in
    record {
      slots = length-set s.filp fd none ∙ table.slots;
      known = λ i f h. elim (ℕ_discrete fd i) [
        | yes same ↦
            let z : get_or (set s.filp fd none) i none ≡ none =
              rw (← same) (get_or-set_self s.filp fd none none (omega arith)) in
            absurd (cc (h, z))
        | no other ↦
            let k = table.known i f (sym (get_or-set_ne s.filp none none other) ∙ h) in
            omega (arith, k, length-set s.f_count file (count_of s file - 1))
      ];
      counted = λ f.
          let b = closed-Balanced s fd file table e f in let k = table.counted f in omega arith;
      small = λ f.
          let c = count_of-set s file (count_of s file - 1) f (table.known fd file e) in
          let k = table.small f in let k' = table.small file in ground (arith, c, k, k');
    }

-- What sys_close does with an open descriptor: it empties the slot and takes one from the count of
-- the file, never panics, names the file for iput exactly when this was its last count, and keeps
-- the counts in step with the slots.
pub sys_close_lem :
    (s : Files) (fd file : ℕ)
    → IsTable s
    → get_or s.filp fd none ≡ some file
    → (sys_close fd s
        ≡ done (pos 0) (if count_of s file == 1 then some file else none) (closed fd file s))
      × Balanced s (closed fd file s)
      × IsTable (closed fd file s)
unfolding sys_close
sys_close_lem s fd file table e =
    let l = slot_in_range s fd file table e in
    let t : leb nr_open fd ≡ false = ground arith in
    let used_there = held_count s fd file table e in
    let z : (count_of s file == 0) ≡ false = ground arith in
    (
      elim (Bool-cases (count_of s file == 1)) [
        | inl o ↦ rw (t, e, z, o) refl
        | inr o ↦ rw (t, e, z, o) refl
      ],
      closed-Balanced s fd file table e,
      closed-IsTable s fd file table e,
    )
