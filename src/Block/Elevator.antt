-- ===== src/Block/Elevator.antt =====
-- The order in which a device serves its requests.
use linux_0_11_lab.Base.{
  Bool, Bool-cases, List, [], ap, arith, drop, false, inl, inr, not, refl, sym, true, ℕ, ◌&&◌, ◌++◌,
  ◌||◌, ◌∙◌, ◌∷◌, ◌≡◌, ◌⊎◌,
}
use linux_0_11_lab.Block.{Request, add_request, elevator, in_order, slot_of}

module _ {ℓ} {A : Type ℓ} (before : A → A → Bool) where
  -- Each one of the chain is before the one behind it.
  abbrev pub Rising : A → List A → Type 0
  Rising tmp [] = Unit
  Rising tmp (behind ∷ rest) = (before tmp behind ≡ true) × Rising behind rest

  -- The chain rises, but for one place at most.
  abbrev pub OneSweep : A → List A → Type 0
  OneSweep tmp [] = Unit
  OneSweep tmp (behind ∷ rest) =
      ((before tmp behind ≡ true) × OneSweep behind rest) ⊎ Rising behind rest

  -- The order tells the new one from each of the chain.
  abbrev pub Distinct : A → List A → Type 0
  Distinct req [] = Unit
  Distinct req (x ∷ xs) = ((before x req ≡ true) ⊎ (before req x ≡ true)) × Distinct req xs

  Rising-OneSweep : (tmp : A) (rest : List A) → Rising tmp rest → OneSweep tmp rest
  Rising-OneSweep tmp [] h = h
  Rising-OneSweep tmp (behind ∷ rest) (l, h) = inr h

  -- A request that is before its successor takes the new one only if that comes in between.
  elevator-Rising :
      (tmp : A) (rest : List A) (req : A)
      → before tmp req ≡ true
      → Rising tmp rest
      → Distinct req rest
      → (ys : List A) × (elevator before tmp rest req ≡ tmp ∷ ys) × Rising tmp ys
  unfolding elevator
  elevator-Rising tmp [] req l rising distinct = (req ∷ [], refl, (l, tt))
  elevator-Rising tmp (behind ∷ rest) req l (step, rising) (apart, distinct) =
      elim (Bool-cases (before req behind)) [
        | inl h ↦ (req ∷ behind ∷ rest, rw (l, h) refl, (l, (h, rising)))
        | inr h ↦
            let above : before behind req ≡ true = elim apart [
              | inl a ↦ a
              | inr b ↦ absurd (cc (b, h))
            ] in
            let (ys, e, up) = elevator-Rising behind rest req above rising distinct in
            (behind ∷ ys, rw (l, h, e) refl, (step, up))
      ]

  -- The chain rises here, and what follows keeps to one sweep.
  elevator-step :
      (tmp behind : A) (rest : List A) (req : A)
      → before tmp behind ≡ true
      → OneSweep behind rest
      → ((ys : List A) × (elevator before behind rest req ≡ behind ∷ ys) × OneSweep behind ys)
      → (ys : List A) × (elevator before tmp (behind ∷ rest) req ≡ tmp ∷ ys) × OneSweep tmp ys
  unfolding elevator
  elevator-step tmp behind rest req step sweep (ys, e, ih) =
      elim (Bool-cases ((before tmp req || not (before tmp behind)) && before req behind)) [
        | inl t ↦
            let g : before tmp req ≡ true = ground (arith, t, step) in
            let h : before req behind ≡ true = ground (arith, t, step) in
            (req ∷ behind ∷ rest, rw t refl, inl (g, inl (h, sweep)))
        | inr t ↦ (behind ∷ ys, rw (t, e) refl, inl (step, ih))
      ]

  -- A chain that rises but for one place is, after the insertion of a request that the order tells
  -- from all behind the first, again such a chain with the same first request.
  pub elevator-OneSweep :
      (tmp : A) (rest : List A) (req : A)
      → OneSweep tmp rest
      → Distinct req rest
      → (ys : List A) × (elevator before tmp rest req ≡ tmp ∷ ys) × OneSweep tmp ys
  unfolding elevator
  elevator-OneSweep tmp [] req sweep distinct = (req ∷ [], refl, inr tt)
  elevator-OneSweep tmp (behind ∷ rest) req (inl (step, sweep)) (apart, distinct) =
      elevator-step tmp behind rest req step sweep
        (elevator-OneSweep behind rest req sweep distinct)
  elevator-OneSweep tmp (behind ∷ rest) req (inr rising) (apart, distinct) =
      elim (Bool-cases (before tmp behind)) [
        | inl step ↦
            let sweep = Rising-OneSweep behind rest rising in
            elevator-step tmp behind rest req step sweep
              (elevator-OneSweep behind rest req sweep distinct)
        | inr drop ↦ elim (Bool-cases (before req behind)) [
          | inl h ↦
              let t : ((before tmp req || not (before tmp behind)) && before req behind) ≡ true =
                ground (arith, drop, h) in
              (req ∷ behind ∷ rest, rw t refl, inr (h, rising))
          | inr h ↦
              let t : ((before tmp req || not (before tmp behind)) && before req behind) ≡ false =
                ground (arith, drop, h) in
              let above : before behind req ≡ true = elim apart [
                | inl a ↦ a
                | inr b ↦ absurd (cc (b, h))
              ] in
              let (ys, e, up) = elevator-Rising behind rest req above rising distinct in
              (behind ∷ ys, rw (t, e) refl, inr up)
        ]
      ]

  -- The new request comes in at one place behind the first, and all others keep their order.
  pub elevator_inserts :
      (tmp : A) (rest : List A) (req : A)
      → (pre post : List A) × (rest ≡ pre ++ post)
        × (elevator before tmp rest req ≡ tmp ∷ (pre ++ (req ∷ post)))
  unfolding elevator
  elevator_inserts tmp [] req = ([], [], refl, refl)
  elevator_inserts tmp (behind ∷ rest) req =
      elim (Bool-cases ((before tmp req || not (before tmp behind)) && before req behind)) [
        | inl t ↦ ([], behind ∷ rest, refl, rw t refl)
        | inr t ↦
            let (pre, post, e, f) = elevator_inserts behind rest req in
            (behind ∷ pre, post, ap (λ xs. behind ∷ xs) e, rw (t, f) refl)
      ]

-- The chain of a device, by the requests in its slots.
abbrev pub slots_in_order : List Request → ℕ → ℕ → Bool
slots_in_order request a b = in_order (slot_of request a) (slot_of request b)

-- add_request leaves the request that is being served first, puts the new one in at one place
-- behind it, and keeps the order of the others. If the chain was one sweep over the disk, rising
-- in the order reads before writes, device, sector, but for one place at most, and the order tells
-- the new request from each that waits, the new chain is one sweep too.
pub add_request-OneSweep :
    (request : List Request) (tmp : ℕ) (rest : List ℕ) (req : ℕ)
    → OneSweep (slots_in_order request) tmp rest
    → Distinct (slots_in_order request) req rest
    → (pre post : List ℕ) × (rest ≡ pre ++ post)
      × (add_request request (tmp ∷ rest) req ≡ (tmp ∷ (pre ++ (req ∷ post)), false))
      × OneSweep (slots_in_order request) tmp (pre ++ (req ∷ post))
unfolding add_request
add_request-OneSweep request tmp rest req sweep distinct =
    let (pre, post, split, e) = elevator_inserts (slots_in_order request) tmp rest req in
    let (ys, f, one) = elevator-OneSweep (slots_in_order request) tmp rest req sweep distinct in
    let same : ys ≡ pre ++ (req ∷ post) = cons_tail (sym f ∙ e) in
    (pre, post, split, ap (λ c. (c, false)) e, rw same at one)
  where
    cons_tail : {x y : ℕ} {xs ys : List ℕ} → x ∷ xs ≡ y ∷ ys → xs ≡ ys
    cons_tail e = cc
