-- ===== src/Kernel/Exit/Orphans.antt =====
-- The children of a task that ends.
use linux_0_11_lab.Base.{
  Bool, Bool-cases, Option, Option-cases, ap, arith, false, get_or, get_or-past, get_or-set_ne,
  get_or-set_self, if◌then◌else◌, inl, inr, leb, length, length-set, ltb, none, refl, set, some,
  some_injective, suc, sym, true, zero, ℕ, ◌&&◌, ◌+◌, ◌<◌, ◌==◌, ◌||◌, ◌∙◌, ◌≡◌, ◌≢◌,
}
use native.Mathlib.Decide.{dec_lt, ℕ_discrete}
use linux_0_11_lab.Base.Int.{eqb_ℤ, ltb_ℤ, pos, ℤ}
use linux_0_11_lab.Kernel.Exit.{adopt, has_father, is_zombie, orphans, sigchld}
use linux_0_11_lab.Kernel.Kill.{send_sig}
use linux_0_11_lab.Kernel.Task.{Task, Tasks, suser}

-- The father of the task in a slot.
abbrev pub father_of : Option Task → Option ℤ
father_of none = none
father_of (some p) = some p.father

has_father-father_of :
    (pid : ℤ) (o o' : Option Task)
    → father_of o ≡ father_of o'
    → has_father pid o ≡ has_father pid o'
has_father-father_of pid none none e = refl
has_father-father_of pid none (some p) e = absurd (cc e)
has_father-father_of pid (some p) none e = absurd (cc e)
has_father-father_of pid (some p) (some p') e = ap (λ f. eqb_ℤ f pid) (some_injective e)

send_sig-father :
    (sig : ℤ) (o : Option Task) (priv : Bool) (me : Task)
    → father_of (send_sig sig o priv me).1 ≡ father_of o
unfolding send_sig
send_sig-father sig none priv me = refl
send_sig-father sig (some p) priv me = elim (Bool-cases (ltb_ℤ sig (pos 1) || ltb_ℤ (pos 32) sig)) [
  | inl t ↦ rw t refl
  | inr t ↦ elim (Bool-cases (priv || me.euid == p.euid || suser me)) [
    | inl u ↦ rw (t, u) refl
    | inr u ↦ rw (t, u) refl
  ]
]

-- A signal to slot `k` changes no father.
signalled-father :
    (sig : ℤ) (k j : ℕ) (ts : Tasks) (priv : Bool) (me : Task)
    → father_of (get_or (set ts k (send_sig sig (get_or ts k none) priv me).1) j none)
      ≡ father_of (get_or ts j none)
signalled-father sig k j ts priv me = elim (ℕ_discrete k j) [
  | yes same ↦ elim (dec_lt k (length ts)) [
    | yes l ↦
        rw (← same, get_or-set_self ts k (send_sig sig (get_or ts k none) priv me).1 none l)
          (send_sig-father sig (get_or ts k none) priv me)
    | no past ↦
        let long = length-set ts k (send_sig sig (get_or ts k none) priv me).1 in
        ap father_of (
          get_or-past (set ts k (send_sig sig (get_or ts k none) priv me).1) j none (omega arith)
          ∙ sym (get_or-past ts j none (omega arith)))
  ]
  | no ne ↦ ap father_of (get_or-set_ne ts _ none ne)
]

module _ (pid : ℤ) where
  abbrev pub after : Option Task → Option ℤ
  after o = if has_father pid o then some (pos 1) else father_of o

  given-father :
      (i j : ℕ) (ts : Tasks) (p : Task)
      → get_or ts i none ≡ some p
      → has_father pid (some p) ≡ true
      → father_of (get_or (set ts i (some (record p { father = pos 1 }))) j none)
        ≡ (if i == j then after (get_or ts j none) else father_of (get_or ts j none))
  given-father i j ts p e mine = elim (ℕ_discrete i j) [
    | yes same ↦
        let z : (i == j) ≡ true = ground arith in
        let e' : get_or ts j none ≡ some p = rw (← same) e in
        elim (dec_lt i (length ts)) [
          | yes l ↦
              rw (z, e', mine)
                (ap father_of (
                  ap (λ k. get_or (set ts i (some (record p { father = pos 1 }))) k none) (sym same)
                  ∙ get_or-set_self ts i _ none l))
          | no past ↦ let w = get_or-past ts i none (omega arith) in absurd (cc (e, w))
        ]
    | no ne ↦
        let z : (i == j) ≡ false = ground arith in rw z (ap father_of (get_or-set_ne ts _ none ne))
  ]

  kept-father :
      (i j : ℕ) (ts : Tasks)
      → has_father pid (get_or ts i none) ≡ false
      → father_of (get_or ts j none)
        ≡ (if i == j then after (get_or ts j none) else father_of (get_or ts j none))
  kept-father i j ts e = elim (ℕ_discrete i j) [
    | yes same ↦
        let z : (i == j) ≡ true = ground arith in
        let e' : has_father pid (get_or ts j none) ≡ false = rw (← same) e in rw (z, e') refl
    | no ne ↦ let z : (i == j) ≡ false = ground arith in rw z refl
  ]

  adopt-father :
      (i j : ℕ) (ts : Tasks)
      → father_of (get_or (adopt pid i ts) j none)
        ≡ (if i == j then after (get_or ts j none) else father_of (get_or ts j none))
  unfolding adopt
  adopt-father i j ts = elim (Option-cases (get_or ts i none)) [
    | inl e ↦
        let q : adopt pid i ts ≡ ts = rw (e, adopt) refl in
        rw q (kept-father i j ts (ap (has_father pid) e))
    | inr (p, e) ↦ elim (Bool-cases (eqb_ℤ p.father pid)) [
      | inr f ↦
          let q : adopt pid i ts ≡ ts = rw (e, f, adopt) refl in
          rw q (kept-father i j ts (ap (has_father pid) e ∙ f))
      | inl f ↦
          let ts' = set ts i (some (record p { father = pos 1 })) in
          elim (Bool-cases (is_zombie p.state)) [
            | inl z ↦
                let q : adopt pid i ts
                    ≡ set ts' 1 (send_sig (pos sigchld) (get_or ts' 1 none) true p).1 =
                  rw (e, f, z, adopt) refl in
                rw q (signalled-father (pos sigchld) 1 j ts' true p ∙ given-father i j ts p e f)
            | inr z ↦
                let q : adopt pid i ts ≡ ts' = rw (e, f, z, adopt) refl in
                rw q (given-father i j ts p e f)
          ]
    ]
  ]

  -- The slots other than `i`, as far as has_father goes.
  adopt-has_father :
      (i j : ℕ) (ts : Tasks)
      → i ≢ j
      → has_father pid (get_or (adopt pid i ts) j none) ≡ has_father pid (get_or ts j none)
  adopt-has_father i j ts ne =
      let z : (i == j) ≡ false = ground arith in
      let a = adopt-father i j ts in has_father-father_of pid _ _ (rw z at a)

  orphans-above :
      (n i j : ℕ) (ts : Tasks)
      → j < i
      → father_of (get_or (orphans n i pid ts) j none) ≡ father_of (get_or ts j none)
  unfolding orphans
  orphans-above zero i j ts l = refl
  orphans-above (suc n) i j ts l =
      let z : (i == j) ≡ false = ground arith in
      let a = adopt-father i j ts in
      orphans-above n (i + 1) j (adopt pid i ts) (omega arith) ∙ (rw z at a)

  -- The loop of do_exit gives every child of the task that ends, in the slots that it has passed,
  -- to task 1; every other task keeps its father, and no task comes or goes.
  pub orphans_lem :
      (n i j : ℕ) (ts : Tasks)
      → father_of (get_or (orphans n i pid ts) j none) ≡ (
          if leb i j && ltb j (i + n) && has_father pid (get_or ts j none)
          then some (pos 1)
          else father_of (get_or ts j none))
  unfolding orphans
  orphans_lem zero i j ts =
      let z : (leb i j && ltb j (i + 0) && has_father pid (get_or ts j none)) ≡ false =
        ground arith in
      rw z refl
  orphans_lem (suc n) i j ts = elim (ℕ_discrete i j) [
    | yes same ↦
        let up = orphans-above n (i + 1) j (adopt pid i ts) (omega arith) in
        let z : (i == j) ≡ true = ground arith in
        let a = adopt-father i j ts in
        let b = rw z at a in
        let w : (leb i j && ltb j (i + suc n) && has_father pid (get_or ts j none))
            ≡ has_father pid (get_or ts j none) =
          ground arith in
        rw w (up ∙ b)
    | no ne ↦
        let ih = orphans_lem n (i + 1) j (adopt pid i ts) in
        let z : (i == j) ≡ false = ground arith in
        let a = adopt-father i j ts in
        let b = rw z at a in
        let h = adopt-has_father i j ts ne in
        let w : (leb (i + 1) j && ltb j (i + 1 + n) && has_father pid (get_or ts j none))
            ≡ (leb i j && ltb j (i + suc n) && has_father pid (get_or ts j none)) =
          ground (arith, ne) in
        let ih' = rw (h, b, w) at ih in ih'
  ]
