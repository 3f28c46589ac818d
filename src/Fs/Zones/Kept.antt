-- ===== src/Fs/Zones/Kept.antt =====
-- What the steps of create_block leave of the words on the way to a block.
use linux_0_11_lab.Base.{
  Bool-cases, ap, arith, false, inl, inr, not, refl, sym, true, ℕ, ◌==◌, ◌||◌, ◌∙◌, ◌≡◌, ◌≢◌, ◌⊎◌,
}
use native.Mathlib.Decide.{ℕ_discrete}
use linux_0_11_lab.Fs.Zones.{File, zone}
use linux_0_11_lab.Fs.Zones.Allocate.{in_use}
use linux_0_11_lab.Fs.Zones.Lookup.{IsFile, word_in}
use linux_0_11_lab.Fs.Zones.Steps.{Step}

-- A block that a later state does not have in use was not in use before.
pub not_before :
    (f f' : File) (r : ℕ)
    → ((c : ℕ) → in_use f.volume.sb c ≡ true → in_use f'.volume.sb c ≡ true)
    → in_use f'.volume.sb r ≡ false
    → in_use f.volume.sb r ≡ false
not_before f f' r kept h = elim (Bool-cases (in_use f.volume.sb r)) [
  | inr no_use ↦ no_use
  | inl used ↦ let u = kept r used in absurd (cc (u, h))
]

-- A step leaves no block, or one that is in use.
pub Step-used :
    (old : ℕ) (f : File) (r : ℕ) (f' : File)
    → Step old f r f'
    → (old ≡ 0) ⊎ (in_use f.volume.sb old ≡ true)
    → (r ≡ 0) ⊎ (in_use f'.volume.sb r ≡ true)
Step-used old f r f' s used = elim (ℕ_discrete old 0) [
  | yes z ↦ elim (s.fresh z) [ inl e ↦ inl e | inr h ↦ inr h.1 ]
  | no nz ↦ elim used [
    | inl z ↦ absurd (nz z)
    | inr u ↦ let (e, same) = s.reuses nz in inr (rw (e, same) u)
  ]
]

-- What a step leaves has the words of what it found; a new block's are 0.
pub word_kept :
    (old : ℕ) (f : File) (r : ℕ) (f' : File) (j : ℕ)
    → Step old f r f'
    → word_in r j f' ≡ word_in old j f
word_kept old f r f' j s = elim (ℕ_discrete old 0) [
  | no nz ↦ let (e, same) = s.reuses nz in λ i. word_in (e i) j (same i)
  | yes z ↦ elim (s.fresh z) [
    | inl e ↦ rw (e, z) refl
    | inr (_, _, clear) ↦ rw z (elim (Bool-cases (r == 0 || not (f'.volume.readable r))) [
      | inl t ↦ rw t refl
      | inr t ↦ rw t (clear j)
    ])
  ]
]

-- The second block on the way to a block behind zone 8.
pub second_used :
    (f : File) (j : ℕ)
    → IsFile f
    → (word_in (zone 8 f) j f ≡ 0)
      ⊎ ((in_use f.volume.sb (word_in (zone 8 f) j f) ≡ true) × (word_in (zone 8 f) j f ≢ zone 8 f))
second_used f j valid = elim (Bool-cases (zone 8 f == 0 || not (f.volume.readable (zone 8 f)))) [
  | inl t ↦ rw t (inl refl)
  | inr t ↦ rw t (valid.second (ground (arith, t)) j)
]

module _ (f : File) (z : ℕ) (f1 : File) (s1 : Step (zone 8 f) f z f1) (i : ℕ) (f2 : File) (j : ℕ)
    (s2 : Step (word_in (zone 8 f) j f) f1 i f2) (valid : IsFile f) where
  -- The second block is not the first.
  pub apart : z ≢ 0 → i ≢ z
  apart nz same = elim (ℕ_discrete (word_in (zone 8 f) j f) 0) [
    | yes q ↦ elim (s2.fresh q) [
      | inl e ↦ nz (sym same ∙ e)
      | inr (unused, _, _) ↦ elim (Step-used (zone 8 f) f z f1 s1 valid.double) [
        | inl e ↦ nz e
        | inr u ↦ let unused' = rw same at unused in absurd (cc (u, unused'))
      ]
    ]
    | no q ↦
        let z8 : z ≡ zone 8 f = (s1.reuses (λ e. q (ap (λ b. word_in b j f) e))).0 in
        elim (second_used f j valid) [
          | inl e ↦ q e
          | inr (_, ne) ↦ ne (sym (s2.reuses q).0 ∙ same ∙ z8)
        ]
  ]

  pub second_after : (i ≡ 0) ⊎ (in_use f2.volume.sb i ≡ true)
  second_after =
      Step-used (word_in (zone 8 f) j f) f1 i f2 s2
        (elim (second_used f j valid) [ inl e ↦ inl e | inr (u, _) ↦ inr (s1.still_used _ u) ])

  -- The words of the second block.
  pub words_kept : (k : ℕ) → word_in i k f2 ≡ word_in (word_in (zone 8 f) j f) k f
  words_kept k = elim (ℕ_discrete (zone 8 f) 0) [
    | no nz ↦
        word_kept (word_in (zone 8 f) j f) f1 i f2 k s2
        ∙ ap (word_in (word_in (zone 8 f) j f) k) (s1.reuses nz).1
    | yes e ↦
        let nothing : word_in (zone 8 f) j f ≡ 0 = ap (λ b. word_in b j f) e in
        word_kept (word_in (zone 8 f) j f) f1 i f2 k s2
        ∙ ap (λ b. word_in b k f1) nothing
        ∙ sym (ap (λ b. word_in b k f) nothing)
  ]
