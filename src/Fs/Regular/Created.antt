-- ===== src/Fs/Regular/Created.antt =====
-- The bytes of a file behind create_block.
use linux_0_11_lab.Base.{
  Bool-cases, Option, ap, arith, false, if◌then◌else◌, inl, inr, none, refl, some, sym, ℕ, ◌%◌, ◌/◌,
  ◌==◌, ◌∙◌, ◌≡◌, ◌≢◌, ◌⊎◌,
}
use native.Mathlib.Decide.{ℕ_discrete}
use linux_0_11_lab.Fs.Regular.{byte_at}
use linux_0_11_lab.Fs.Regular.Content.{content}
use linux_0_11_lab.Fs.Regular.Reading.{content_hole, content_there}
use linux_0_11_lab.Fs.Zones.{File, Volume}
use linux_0_11_lab.Fs.Zones.Extends.{Extends}
use linux_0_11_lab.Fs.Zones.Lookup.{lookup}
use linux_0_11_lab.Fs.Zones.Tree.{lookup-name, name, node_of, node_of-is_data, node_of_injective}

-- The byte in a block.
abbrev byte_in : ℕ → ℕ → Volume → Option ℕ
byte_in b k v = if b == 0 then some 0 else if v.readable b then some (byte_at b k v) else none

content_in :
    (q b : ℕ) (f : File) → lookup (q / 1024) f ≡ b → content q f ≡ byte_in b (q % 1024) f.volume
unfolding content
content_in q b f e = rw e refl

-- A block that keeps its words keeps its bytes.
pub content_same :
    (q : ℕ) (f g : File)
    → g.volume.readable ≡ f.volume.readable
    → lookup (q / 1024) g ≡ lookup (q / 1024) f
    → (lookup (q / 1024) f ≢ 0
        → byte_at (lookup (q / 1024) f) (q % 1024) g.volume
          ≡ byte_at (lookup (q / 1024) f) (q % 1024) f.volume)
    → content q g ≡ content q f
content_same q f g r e bytes =
    let b : ℕ = lookup (q / 1024) f in
    content_in q b g e ∙ elim (ℕ_discrete b 0) [
      | yes z ↦ ap (λ x. byte_in x (q % 1024) g.volume) z ∙ sym (content_hole q f z)
      | no nz ↦
          ap
            (λ rd.
              if b == 0
              then some 0
              else if rd b
              then some (byte_at b (q % 1024) g.volume)
              else none)
            r
          ∙ ap (λ c. if b == 0 then some 0 else if f.volume.readable b then some c else none)
              (bytes nz)
          ∙ sym (content_in q b f refl)
    ]

-- All bytes are kept, those of a new block that cannot be read excepted.
pub content-Extends :
    (n : ℕ) (f g : File)
    → Extends (node_of n) f g
    → (q : ℕ)
    → (content q g ≡ content q f)
      ⊎ ((q / 1024 ≡ n)
          × (name (node_of n) g ≢ 0)
          × (g.volume.readable (name (node_of n) g) ≡ false))
content-Extends n f g s q = elim (ℕ_discrete (q / 1024) n) [
  | no away ↦ inl (
      kept (
        s.others (node_of (q / 1024)) (node_of-is_data (q / 1024))
          (λ e. away (node_of_injective (q / 1024) n e))))
  | yes e ↦ elim (ℕ_discrete (name (node_of n) f) 0) [
    | no nz ↦
        inl (
          kept
            (ap (λ m. name (node_of m) g) e ∙ s.reuses nz ∙ sym (ap (λ m. name (node_of m) f) e)))
    | yes z ↦
        let hole =
          content_hole q f (lookup-name (q / 1024) f ∙ ap (λ m. name (node_of m) f) e ∙ z) in
        let found : lookup (q / 1024) g ≡ name (node_of n) g =
          lookup-name (q / 1024) g ∙ ap (λ m. name (node_of m) g) e in
        elim (ℕ_discrete (name (node_of n) g) 0) [
          | yes z' ↦ inl (content_hole q g (found ∙ z') ∙ sym hole)
          | no nz' ↦ elim (Bool-cases (g.volume.readable (name (node_of n) g))) [
            | inr bad ↦ inr (e, nz', bad)
            | inl good ↦
                let c = s.cleared z nz' (q % 1024 / 2) in
                let byte : byte_at (name (node_of n) g) (q % 1024) g.volume ≡ 0 =
                  rw c (omega arith) in
                inl
                  (content_there q (name (node_of n) g) g found nz' good ∙ ap some byte ∙ sym hole)
          ]
        ]
  ]
]
  where
    kept : name (node_of (q / 1024)) g ≡ name (node_of (q / 1024)) f → content q g ≡ content q f
    kept same =
        content_same q f g s.same_readable
          (lookup-name (q / 1024) g ∙ same ∙ sym (lookup-name (q / 1024) f))
          (λ nz.
            let look = lookup-name (q / 1024) f in
            let w =
              s.words (node_of (q / 1024)) (node_of-is_data (q / 1024)) (λ z. nz (look ∙ z))
                (q % 1024 / 2) in
            ap (λ b. byte_at b (q % 1024) g.volume) look
            ∙ ap (λ x. x / (if q % 1024 % 2 == 0 then 1 else 256) % 256) w
            ∙ sym (ap (λ b. byte_at b (q % 1024) f.volume) look))
