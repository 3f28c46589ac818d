-- ===== src/Fs/Descriptors/Dup2.antt =====
-- sys_dup2: a close followed by dupfd.
use linux_0_11_lab.Base.{
  Option, Option-cases, arith, false, get_or, get_or-set_ne, get_or-set_self, if◌then◌else◌, inl,
  inr, leb, length, none, refl, some, sym, ℕ, ◌<◌, ◌==◌, ◌∙◌, ◌≡◌, ◌≢◌,
}
use native.Mathlib.Decide.{ℕ_discrete}
use linux_0_11_lab.Base.Int.{pos, ℤ}
use linux_0_11_lab.Fs.Descriptors.{
  Closed, Files, count_of, done, dupfd, ebadf, einval, nr_open, share_file, sys_close, sys_dup2,
  without_bit,
}
use linux_0_11_lab.Fs.Descriptors.Balance.{
  closed, share_file-Balanced, slot_in_range, sys_close_lem,
}
use linux_0_11_lab.Fs.Descriptors.Counts.{Balanced, IsTable, dupfd_lem}

-- `r` is a call that answered `value`, with no panic, and left tables with the property.
abbrev pub Answers {ℓ} : ℤ → (Files → Type ℓ) → Closed → Type ℓ
Answers value P r = (released : Option ℕ) × (s' : Files) × (r ≡ done value released s') × P s'

dup2_after :
    (oldfd newfd : ℕ) (s s1 : Files) (v : ℤ) (released : Option ℕ)
    → sys_close newfd s ≡ done v released s1
    → sys_dup2 oldfd newfd s ≡ done (dupfd oldfd newfd s1).0 released (dupfd oldfd newfd s1).1
unfolding sys_dup2
dup2_after oldfd newfd s s1 v released e = rw (e, sys_dup2) refl

-- What sys_dup2 promises: the new descriptor names the file of the old one and the other slots
-- stay.
pub record Dup2 (s : Files) (newfd file : ℕ) (s' : Files) : Type 0 where
  pub names : get_or s'.filp newfd none ≡ some file
  pub others : (j : ℕ) → j ≢ newfd → get_or s'.filp j none ≡ get_or s.filp j none
  pub balanced : Balanced s s'

-- dupfd into the first unused descriptor, when the one asked for is unused.
dupfd-unused :
    (fd arg file : ℕ) (s : Files)
    → IsTable s
    → arg < nr_open
    → get_or s.filp fd none ≡ some file
    → get_or s.filp arg none ≡ none
    → dupfd fd arg s ≡ (pos arg, share_file arg file s)
dupfd-unused fd arg file s table l e free = elim (dupfd_lem fd arg s table) [
  | inl (found, file', d, e', _, first, _) ↦
      let low = first.from in
      let same : arg ≡ found = elim (ℕ_discrete arg found) [
        | yes z ↦ z
        | no ne ↦ absurd (first.taken arg (omega arith) (omega arith) free)
      ] in
      let same_file : file' ≡ file = cc (e, e') in d ∙ rw (← same, same_file) refl
  | inr (inl (_, z)) ↦ absurd (cc (e, z))
  | inr (inr (inl (_, past))) ↦ absurd (omega arith)
  | inr (inr (inr (_, full))) ↦ absurd (full arg (omega arith) l free)
]

share_file-Dup2 :
    (s s1 : Files) (newfd file : ℕ)
    → IsTable s1
    → newfd < nr_open
    → get_or s1.filp newfd none ≡ none
    → file < length s1.f_count
    → ((j : ℕ) → j ≢ newfd → get_or s1.filp j none ≡ get_or s.filp j none)
    → Balanced s s1
    → Dup2 s newfd file (share_file newfd file s1)
share_file-Dup2 s s1 newfd file table l free known others before =
    let slots = table.slots in
    record {
      names = get_or-set_self s1.filp newfd (some file) none (omega arith);
      others = λ j ne. get_or-set_ne s1.filp (some file) none (λ z. ne (sym z)) ∙ others j ne;
      balanced = λ g.
          let a = before g in
          let b = share_file-Balanced newfd file s1 table l free known g in omega arith;
    }

-- sys_dup2 of an open descriptor to a different number below 20 answers that number, whether it
-- was open or not: it then names the file of the old descriptor, all other slots stay, and the
-- counts of files stay in step with the slots.
pub sys_dup2_lem :
    (oldfd newfd file : ℕ) (s : Files)
    → IsTable s
    → get_or s.filp oldfd none ≡ some file
    → newfd < nr_open
    → oldfd ≢ newfd
    → Answers (pos newfd) (Dup2 s newfd file) (sys_dup2 oldfd newfd s)
unfolding sys_close
sys_dup2_lem oldfd newfd file s table e l ne = elim (Option-cases (get_or s.filp newfd none)) [
  | inl free ↦
      let s1 : Files = record s { close_on_exec = without_bit newfd s.close_on_exec } in
      let table1 : IsTable s1 = record {
        slots = table.slots;
        known = table.known;
        counted = table.counted;
        small = table.small;
      } in
      let t : leb nr_open newfd ≡ false = ground arith in
      let d = dupfd-unused oldfd newfd file s1 table1 l e free in
      (
        none,
        share_file newfd file s1,
        dup2_after oldfd newfd s s1 einval none (rw (t, free, sys_close) refl) ∙ rw d refl,
        share_file-Dup2 s s1 newfd file table1 l free (table.known oldfd file e) (λ j h. refl)
            (λ g. refl),
      )
  | inr (old_file, held) ↦
      let slots = table.slots in
      let s1 = closed newfd old_file s in
      let (close, balanced, table1) = sys_close_lem s newfd old_file table held in
      let free = get_or-set_self s.filp newfd none none (omega arith) in
      let e1 = get_or-set_ne s.filp none none (λ z. ne (sym z)) ∙ e in
      let d = dupfd-unused oldfd newfd file s1 table1 l e1 free in
      (
        (if count_of s old_file == 1 then some old_file else none),
        share_file newfd file s1,
        dup2_after oldfd newfd s s1 (pos 0) _ close ∙ rw d refl,
        share_file-Dup2 s s1 newfd file table1 l free (table1.known oldfd file e1)
            (λ j h. get_or-set_ne s.filp none none (λ z. h (sym z))) balanced,
      )
]

-- sys_dup2 of an open descriptor to itself closes it and answers -EBADF.
pub sys_dup2_self :
    (fd file : ℕ) (s : Files)
    → IsTable s
    → get_or s.filp fd none ≡ some file
    → Answers ebadf (λ s'. get_or s'.filp fd none ≡ none) (sys_dup2 fd fd s)
sys_dup2_self fd file s table e =
    let slots = table.slots in
    let l = slot_in_range s fd file table e in
    let s1 = closed fd file s in
    let (close, balanced, table1) = sys_close_lem s fd file table e in
    let free = get_or-set_self s.filp fd none none (omega arith) in
    let d : dupfd fd fd s1 ≡ (ebadf, s1) = elim (dupfd_lem fd fd s1 table1) [
      | inl (found, file', _, e', _, _, _) ↦ absurd (cc (free, e'))
      | inr (inl (d, _)) ↦ d
      | inr (inr (inl (_, past))) ↦ absurd (omega arith)
      | inr (inr (inr (_, full))) ↦ absurd (full fd (omega arith) l free)
    ] in
    (
      (if count_of s file == 1 then some file else none),
      s1,
      dup2_after fd fd s s1 (pos 0) _ close ∙ rw d refl,
      free,
    )
