-- ===== src/Fs/Path.antt =====
-- The walk over a path: get_dir of linux-0.11/fs/namei.c, over find_entry and permission of Fs.Names.
-- An inode is known by its slot in the inode table. What the slots hold does not change in the walk;
-- the counts of their users do. What iget finds is an argument, and so are the mounts.
pub mod Leads
mod Tests
use mathlib.Core.Option
use linux_0_11_lab.Base.{
  Bool, List, Option, [], bit_and, if◌then◌else◌, length, min, none, not, some, suc, zero, ℕ, ◌&&◌,
  ◌+◌, ◌-◌, ◌==◌, ◌||◌, ◌∷◌,
}
use linux_0_11_lab.Fs.Bitmap.{Inode, Outcome, ok, panic}
use linux_0_11_lab.Fs.Names.{Directory, find_entry, is_dotdot, name_len, permission}

-- `current->root` and `current->pwd` are null pointers where has_root and has_pwd are false.
pub record Places : Type 0 where
  pub inode : ℕ → Inode
  pub dir : ℕ → Directory
  pub covered : ℕ → Option ℕ
  pub iget : ℕ → ℕ → Option ℕ
  pub root : ℕ
  pub pwd : ℕ
  pub has_root : Bool
  pub has_pwd : Bool
  pub euid : ℕ
  pub egid : ℕ

abbrev pub slash : ℕ
slash = 47

-- `i_count++`, and what iput does to the count.
abbrev pub take_count : ℕ → (ℕ → ℕ) → ℕ → ℕ
take_count s counts i = if i == s then counts i + 1 else counts i

abbrev pub put_count : ℕ → (ℕ → ℕ) → ℕ → ℕ
put_count s counts i = if i == s then counts i - 1 else counts i

-- The bytes before the next '/', and those behind it.
pub next_slash : List ℕ → Option (List ℕ × List ℕ)
next_slash [] = none
next_slash (c ∷ cs) =
    if c == slash then some ([], cs) else Option.map (λ r. (c ∷ r.0, r.1)) (next_slash cs)

-- S_ISDIR, and permission with MAY_EXEC
abbrev pub is_searchable : Places → ℕ → Bool
is_searchable p s =
    bit_and (p.inode s).i_mode 61440 == 16384 && permission p.euid p.egid (p.inode s) 1

-- The slot of the directory that find_entry searches.
abbrev pub searched : Places → ℕ → ℕ → List ℕ → ℕ
searched p s namelen name =
    if not (namelen == 0) && (is_dotdot (min namelen name_len) name && not (s == p.root))
    then elim (p.covered s) [ none ↦ s | some c ↦ c ]
    else s

abbrev pub found_number : Places → ℕ → ℕ → List ℕ → Option ℕ
found_number p s namelen name =
    let (d, e) = find_entry (s == p.root) (Option.map p.dir (p.covered s)) (p.dir s) namelen name in
    Option.map (λ i. (d.entry i).inode_nr) e

-- The counts behind find_entry, which gives up the directory for the one that it exchanges it for.
abbrev pub exchange : ℕ → ℕ → (ℕ → ℕ) → ℕ → ℕ
exchange s t counts = if s == t then counts else take_count t (put_count s counts)

abbrev pub Walked : Type 0
Walked = Option ℕ × (ℕ → ℕ)

abbrev pub enter : (ℕ → ℕ) → Option ℕ → (ℕ → (ℕ → ℕ) → Walked) → Walked
enter counts none go = (none, counts)
enter counts (some t) go = go t (take_count t counts)

abbrev pub look_up : Places → (ℕ → ℕ) → ℕ → Option ℕ → (ℕ → (ℕ → ℕ) → Walked) → Walked
look_up p counts s none go = (none, put_count s counts)
look_up p counts s (some number) go =
    enter (put_count s counts) (p.iget (p.inode s).i_dev number) go

abbrev pub descend :
    Places
    → (ℕ → ℕ)
    → ℕ
    → List ℕ
    → Option (List ℕ × List ℕ)
    → (List ℕ → ℕ → (ℕ → ℕ) → Walked)
    → Walked
descend p counts s path none go = (some s, counts)
descend p counts s path (some r) go =
    let n = length r.0 in
    let t = searched p s n path in
    look_up p (exchange s t counts) t (found_number p s n path) (go r.1)

-- `while (1)`; each pass but the last takes a '/' of the path. The fuel is its length and one.
pub walk : ℕ → Places → List ℕ → ℕ → (ℕ → ℕ) → Walked
walk zero p path s counts = (none, counts)
walk (suc fuel) p path s counts =
    if not (is_searchable p s)
    then (none, put_count s counts)
    else descend p counts s path (next_slash path) (walk fuel p)

pub walk_from : Places → List ℕ → (ℕ → ℕ) → Walked
walk_from p [] counts = (none, counts)
walk_from p (c ∷ cs) counts =
    if c == slash
    then walk (length cs + 1) p cs p.root (take_count p.root counts)
    else walk (length (c ∷ cs) + 1) p (c ∷ cs) p.pwd (take_count p.pwd counts)

-- No root or no working directory, or one without a user.
abbrev pub is_lost : Places → (ℕ → ℕ) → Bool
is_lost p counts = not p.has_root || counts p.root == 0 || not p.has_pwd || counts p.pwd == 0

pub get_dir : Places → List ℕ → (ℕ → ℕ) → Outcome Walked
get_dir p path counts = if is_lost p counts then panic else ok (walk_from p path counts)
