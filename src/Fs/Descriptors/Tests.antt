-- ===== src/Fs/Descriptors/Tests.antt =====
-- A task that has file 3 open as descriptors 0 and 1.
use linux_0_11_lab.Base.{
  List, Option, [], arith, false, get_or, if◌then◌else◌, none, refl, replicate, some, suc, zero, ℕ,
  ◌<◌, ◌==◌, ◌∷◌, ◌≡◌,
}
use linux_0_11_lab.Base.Int.{pos}
use linux_0_11_lab.Fs.Descriptors.{
  Files, count_of, dupfd, f_getfd, first_free, sys_dup2, sys_fcntl, sys_pipe,
}
use linux_0_11_lab.Fs.Descriptors.Balance.{dupfd-Balanced}
use linux_0_11_lab.Fs.Descriptors.Counts.{Balanced, IsTable}
use linux_0_11_lab.Fs.Descriptors.Dup2.{Answers, Dup2, sys_dup2_lem}

abbrev no_slot : Option ℕ
no_slot = none

abbrev counts : List ℕ
counts = 0 ∷ 0 ∷ 0 ∷ 2 ∷ 0 ∷ []

abbrev two_open : Files
two_open = record {
  filp = some 3 ∷ some 3 ∷ replicate 18 no_slot;
  close_on_exec = 2;
  f_count = counts;
  f_flags = counts;
  f_mode = counts;
  f_inode = counts;
  f_pos = counts;
}

get_or-empty : (n i : ℕ) → get_or (replicate n no_slot) i none ≡ none
get_or-empty zero i = refl
get_or-empty (suc n) zero = refl
get_or-empty (suc n) (suc i) = get_or-empty n i

slots_known : (i f : ℕ) → get_or two_open.filp i none ≡ some f → f < 5
slots_known zero f e = let z : 3 ≡ f = cc in omega arith
slots_known (suc zero) f e = let z : 3 ≡ f = cc in omega arith
slots_known (suc (suc i)) f e = let z = get_or-empty 18 i in absurd (cc (e, z))

count_at : (f : ℕ) → count_of two_open f ≡ (if f == 3 then 2 else 0)
count_at zero = refl
count_at (suc zero) = refl
count_at (suc (suc zero)) = refl
count_at (suc (suc (suc zero))) = refl
count_at (suc (suc (suc (suc zero)))) = refl
count_at (suc (suc (suc (suc (suc f))))) =
    let z : (suc (suc (suc (suc (suc f)))) == 3) ≡ false = ground arith in rw z refl

two_open-IsTable : IsTable two_open
two_open-IsTable = record {
  slots = refl;
  known = slots_known;
  counted = λ f. let c = count_at f in ground (arith, c);
  small = λ f. let c = count_at f in ground (arith, c);
}

-- The descriptor that is duplicated to 1 and the flag of 1.
dup_to_one : sys_fcntl 1 f_getfd 0 two_open ≡ (pos 1, two_open)
unfolding sys_fcntl
dup_to_one = refl

pipe_descriptors : (sys_pipe (some 7) two_open).0 ≡ some (2, 3)
unfolding sys_pipe first_free
pipe_descriptors = refl

dupfd-Balanced_example : Balanced two_open (dupfd 0 1 two_open).1
dupfd-Balanced_example = dupfd-Balanced 0 1 two_open two_open-IsTable

sys_dup2_lem_example : Answers (pos 5) (Dup2 two_open 5 3) (sys_dup2 0 5 two_open)
sys_dup2_lem_example = sys_dup2_lem 0 5 3 two_open two_open-IsTable refl (omega arith) (omega arith)
