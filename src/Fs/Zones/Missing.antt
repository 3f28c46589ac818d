-- ===== src/Fs/Zones/Missing.antt =====
-- When the steps of create_block give no block.
use linux_0_11_lab.Base.{
  Bool-cases, ap, arith, false, inl, inr, not, refl, sym, true, ℕ, ◌%◌, ◌-◌, ◌/◌, ◌<◌, ◌==◌, ◌^◌,
  ◌||◌, ◌∙◌, ◌≡◌, ◌≢◌, ◌≤◌, ◌⊎◌,
}
use mathlib.Core.Path.{subst}
use native.Mathlib.Decide.{ℕ_discrete}
use linux_0_11_lab.Fs.Bitmap.{Outcome, SuperBlock, fault, new_block, ok, panic}
use linux_0_11_lab.Fs.Zones.{File, Volume, allocate, in_block, need_word, need_zone, zone}
use linux_0_11_lab.Fs.Zones.Allocate.{IsVolume, allocate_lem, in_use}
use linux_0_11_lab.Fs.Zones.Lookup.{word_in}

-- new_block gave 0 for a zone map in which all blocks that were in use still are, and left that of
-- `f'`.
pub record NoRoom (f f' : File) : Type 0 where
  pub sb : SuperBlock
  pub kept : (c : ℕ) → in_use f.volume.sb c ≡ true → in_use sb c ≡ true
  pub gave : new_block 1 sb ≡ ok (0, f'.volume.sb)

pub NoRoom-before :
    (f f1 f' : File)
    → ((c : ℕ) → in_use f.volume.sb c ≡ true → in_use f1.volume.sb c ≡ true)
    → NoRoom f1 f'
    → NoRoom f f'
NoRoom-before f f1 f' used room = record {
  sb = room.sb;
  kept = λ c u. room.kept c (used c u);
  gave = room.gave;
}

pub NoRoom-same : (f f1 f' : File) → f' ≡ f1 → NoRoom f f1 → NoRoom f f'
NoRoom-same f f1 f' same room = subst (NoRoom f) (sym same) room

Outcome-cases :
    (o : Outcome (ℕ × SuperBlock)) → ((r : ℕ × SuperBlock) × (o ≡ ok r)) ⊎ (o ≡ panic) ⊎ (o ≡ fault)
Outcome-cases (ok r) = inl (r, refl)
Outcome-cases panic = inr (inl refl)
Outcome-cases fault = inr (inr refl)

ok_injective : {A : Type 0} (a b : A) → ok a ≡ ok b → a ≡ b
ok_injective {A} a b e = ap pick_ok e
  where
    pick_ok : Outcome A → A
    pick_ok (ok x) = x
    pick_ok panic = a
    pick_ok fault = a

allocate-new_block :
    (v : Volume) (block : ℕ) (v' : Volume)
    → allocate v ≡ ok (block, v')
    → new_block 1 v.sb ≡ ok (block, v'.sb)
unfolding allocate
allocate-new_block v block v' e = elim (Outcome-cases (new_block 1 v.sb)) [
  | inr (inl p) ↦ let z = rw (p, allocate) at e in absurd (cc z)
  | inr (inr p) ↦ let z = rw (p, allocate) at e in absurd (cc z)
  | inl ((b, sb), p) ↦
      let z = ok_injective _ _ (rw (p, allocate) at e) in
      p ∙ ap (λ (x : ℕ × Volume). ok (x.0, x.1.sb)) z
]

-- An allocation whose block is 0 as an unsigned short.
allocate_none :
    (v : Volume)
    → IsVolume v
    → (block : ℕ) (v' : Volume) → allocate v ≡ ok (block, v')
    → block % 2 ^ 16 ≡ 0
    → new_block 1 v.sb ≡ ok (0, v'.sb)
allocate_none v valid block v' e z =
    let (b, w, e', a) = allocate_lem v valid in
    let same : b ≡ block = ap (λ (x : ℕ × Volume). x.0) (ok_injective _ _ (sym e' ∙ e)) in
    let zero_block : block ≡ 0 = elim a.its_words [
      | inl (b0, _) ↦ sym same ∙ b0
      | inr (nz, small, _, _, _) ↦ omega (arith, same, small, z)
    ] in
    allocate-new_block v block v' e ∙ ap (λ n. ok (n, v'.sb)) zero_block

pub need_zone_none :
    (now k : ℕ) (f : File) (r : ℕ) (f' : File)
    → IsVolume f.volume
    → need_zone true now k f ≡ ok (r, f')
    → r ≡ 0
    → NoRoom f f'
unfolding need_zone
need_zone_none now k f r f' valid e z = elim (Bool-cases (zone k f == 0)) [
  | inr t ↦
      let q : zone k f ≡ r = ap (λ (x : ℕ × File). x.0) (ok_injective _ _ (rw t at e)) in
      absurd (ground (arith, t, q, z))
  | inl t ↦
      let (block, v, e', a) = allocate_lem f.volume valid in
      let q = ok_injective _ _ (rw (t, e') at e) in
      let z' : block % 2 ^ 16 ≡ 0 = ap (λ (x : ℕ × File). x.0) q ∙ z in
      record {
        sb = f.volume.sb;
        kept = λ c u. u;
        gave =
            allocate_none f.volume valid block v e' z'
            ∙ ap (λ (x : ℕ × File). ok (0, x.1.volume.sb)) q;
      }
]

need_word_none :
    (b j : ℕ) (f : File) (r : ℕ) (f' : File)
    → IsVolume f.volume
    → need_word true b j f ≡ ok (r, f')
    → r ≡ 0
    → NoRoom f f'
unfolding need_word
need_word_none b j f r f' valid e z = elim (Bool-cases (f.volume.words b j == 0)) [
  | inr t ↦
      let q : f.volume.words b j ≡ r = ap (λ (x : ℕ × File). x.0) (ok_injective _ _ (rw t at e)) in
      absurd (ground (arith, t, q, z))
  | inl t ↦
      let (block, v, e', a) = allocate_lem f.volume valid in
      let q = ok_injective _ _ (rw (t, e') at e) in
      let z' : block ≡ 0 = ap (λ (x : ℕ × File). x.0) q ∙ z in
      let y : (block == 0) ≡ true = ground (arith, z') in
      record {
        sb = f.volume.sb;
        kept = λ c u. u;
        gave =
            allocate_none f.volume valid block v e' (omega (arith, z'))
            ∙ ap (λ (x : ℕ × File). ok (0, x.1.volume.sb)) (rw y at q);
      }
]

-- The block of words is not there, cannot be read, or has no word and gets none.
pub in_block_none :
    (b j : ℕ) (f : File) (r : ℕ) (f' : File)
    → IsVolume f.volume
    → in_block true b j f ≡ ok (r, f')
    → r ≡ 0
    → ((f' ≡ f) × ((b ≡ 0) ⊎ (f.volume.readable b ≡ false))) ⊎ NoRoom f f'
unfolding in_block
in_block_none b j f r f' valid e z = elim (Bool-cases (b == 0 || not (f.volume.readable b))) [
  | inl t ↦
      let q = ok_injective _ _ (rw t at e) in
      inl (sym (ap (λ (x : ℕ × File). x.1) q), ground (arith, t))
  | inr t ↦ inr (need_word_none b j f r f' valid (rw t at e) z)
]

-- The blocks of words on the way to block `n` of a file.
abbrev pub IsOnWay : ℕ → File → ℕ → Type 0
IsOnWay n f b =
    ((7 ≤ n) × (n < 519) × (b ≡ zone 7 f))
    ⊎ ((519 ≤ n) × (b ≡ zone 8 f))
    ⊎ ((519 ≤ n) × (b ≡ word_in (zone 8 f) ((n - 519) / 512) f))

-- Why create_block gives no block.
pub data Missing (n : ℕ) (f f' : File) : Type 0 where
  no_room : NoRoom f f' → Missing n f f'
  unreadable : (b : ℕ) → b ≢ 0 → IsOnWay n f' b → f'.volume.readable b ≡ false → Missing n f f'

pub single-Missing :
    (now n : ℕ) (f : File) (z : ℕ) (f1 : File) (r : ℕ) (f2 : File)
    → 7 ≤ n
    → n < 519
    → IsVolume f.volume
    → IsVolume f1.volume
    → ((c : ℕ) → in_use f.volume.sb c ≡ true → in_use f1.volume.sb c ≡ true)
    → need_zone true now 7 f ≡ ok (z, f1)
    → in_block true z (n - 7) f1 ≡ ok (r, f2)
    → zone 7 f2 ≡ z
    → r ≡ 0
    → Missing n f f2
single-Missing now n f z f1 r f2 low high valid valid1 used e1 e2 zone_7 q =
    elim (in_block_none z (n - 7) f1 r f2 valid1 e2 q) [
      | inr room ↦ no_room (NoRoom-before f f1 f2 used room)
      | inl (same, why) ↦ elim (ℕ_discrete z 0) [
        | yes z0 ↦ no_room (NoRoom-same f f1 f2 same (need_zone_none now 7 f z f1 valid e1 z0))
        | no nz ↦ elim why [
          | inl z0 ↦ absurd (nz z0)
          | inr dark ↦
              unreadable z nz (inl (low, high, sym zone_7))
                (ap (λ g. g.volume.readable z) same ∙ dark)
        ]
      ]
    ]

-- The way by block `z` of words, the first of two.
first-Missing :
    (now n j : ℕ) (f : File) (z : ℕ) (f1 : File) (i : ℕ) (f2 f3 : File)
    → 519 ≤ n
    → IsVolume f.volume
    → IsVolume f1.volume
    → ((c : ℕ) → in_use f.volume.sb c ≡ true → in_use f1.volume.sb c ≡ true)
    → need_zone true now 8 f ≡ ok (z, f1)
    → in_block true z j f1 ≡ ok (i, f2)
    → zone 8 f3 ≡ z
    → f3 ≡ f2
    → i ≡ 0
    → Missing n f f3
first-Missing now n j f z f1 i f2 f3 low valid valid1 used e1 e2 zone_8 same i0 =
    elim (in_block_none z j f1 i f2 valid1 e2 i0) [
      | inr room ↦ no_room (NoRoom-same f f2 f3 same (NoRoom-before f f1 f2 used room))
      | inl (same2, why2) ↦ elim (ℕ_discrete z 0) [
        | yes z0 ↦
            no_room (NoRoom-same f f1 f3 (same ∙ same2) (need_zone_none now 8 f z f1 valid e1 z0))
        | no nz ↦ elim why2 [
          | inl z0 ↦ absurd (nz z0)
          | inr dark ↦
              unreadable z nz (inr (inl (low, sym zone_8)))
                (ap (λ g. g.volume.readable z) (same ∙ same2) ∙ dark)
        ]
      ]
    ]

pub double-Missing :
    (now n : ℕ) (f : File) (z : ℕ) (f1 : File) (i : ℕ) (f2 : File) (r : ℕ) (f3 : File)
    → 519 ≤ n
    → IsVolume f.volume
    → IsVolume f1.volume
    → IsVolume f2.volume
    → ((c : ℕ) → in_use f.volume.sb c ≡ true → in_use f1.volume.sb c ≡ true)
    → ((c : ℕ) → in_use f1.volume.sb c ≡ true → in_use f2.volume.sb c ≡ true)
    → need_zone true now 8 f ≡ ok (z, f1)
    → in_block true z ((n - 519) / 512) f1 ≡ ok (i, f2)
    → in_block true i ((n - 519) % 512) f2 ≡ ok (r, f3)
    → zone 8 f3 ≡ z
    → word_in z ((n - 519) / 512) f3 ≡ i
    → r ≡ 0
    → Missing n f f3
double-Missing now n f z f1 i f2 r f3 low valid valid1 valid2 used used1 e1 e2 e3 zone_8 second q =
    elim (in_block_none i ((n - 519) % 512) f2 r f3 valid2 e3 q) [
      | inr room ↦ no_room (NoRoom-before f f1 f3 used (NoRoom-before f1 f2 f3 used1 room))
      | inl (same, why) ↦ elim (ℕ_discrete i 0) [
        | yes i0 ↦
            first-Missing now n ((n - 519) / 512) f z f1 i f2 f3 low valid valid1 used e1 e2 zone_8
              same i0
        | no nz ↦ elim why [
          | inl z0 ↦ absurd (nz z0)
          | inr dark ↦
              unreadable i nz
                (inr (inr (low, sym (ap (λ b. word_in b ((n - 519) / 512) f3) zone_8 ∙ second))))
                (ap (λ g. g.volume.readable i) same ∙ dark)
        ]
      ]
    ]
