-- ===== src/Malloc/Objects.antt =====
-- The objects of a new bucket.
use linux_0_11_lab.Base.{
  In, IsNodup, List, ap, arith, false, get_or, inl, inr, length, refl, suc, sym, zero, ℕ, ◌%◌, ◌*◌,
  ◌+◌, ◌∙◌, ◌∷◌, ◌≡◌, ◌≢◌, ◌≤◌,
}
use linux_0_11_lab.Malloc.{Bucket, freeptr, has_page, objects, use_object}
use linux_0_11_lab.Malloc.Chains.{AllIn, Held, IsChain, Popped, pop}
use linux_0_11_lab.Malloc.Heaps.{IsSize, objects_in}
use linux_0_11_lab.Malloc.Pages.{fresh}

pub first_object : (n size cp : ℕ) → n ≢ 0 → get_or (objects n size cp) 0 0 ≡ cp
unfolding objects
first_object zero size cp nz = absurd (nz refl)
first_object (suc n) size cp nz = refl

length-objects : (n size cp : ℕ) → length (objects n size cp) ≡ n
unfolding objects
length-objects zero size cp = refl
length-objects (suc n) size cp = ap suc (length-objects n size (cp + size))

objects-AllIn :
    (n size cp page : ℕ)
    → 1 ≤ size
    → page % 4096 ≡ 0
    → page ≢ 0
    → page ≤ cp
    → cp + n * size ≤ page + 4096
    → AllIn page (objects n size cp)
unfolding objects
objects-AllIn zero size cp page one_at_least whole nz lo hi = tt
objects-AllIn (suc n) size cp page one_at_least whole nz lo hi =
    let m : suc n * size ≡ size + n * size = omega arith in
    (
      omega arith,
      omega arith,
      objects-AllIn n size (cp + size) page one_at_least whole nz (omega arith) (omega (arith, m)),
    )

In-objects : (n size cp a : ℕ) → In a (objects n size cp) → cp ≤ a
unfolding objects
In-objects zero size cp a i = absurd i
In-objects (suc n) size cp a (inl e) = omega arith
In-objects (suc n) size cp a (inr i) = let r = In-objects n size (cp + size) a i in omega arith

objects-IsNodup : (n size cp : ℕ) → 1 ≤ size → IsNodup (objects n size cp)
unfolding objects
objects-IsNodup zero size cp one_at_least = tt
objects-IsNodup (suc n) size cp one_at_least = (
  (λ i. let r = In-objects n size (cp + size) cp i in absurd (omega arith)),
  objects-IsNodup n size (cp + size) one_at_least,
)

-- The new bucket of a page, in front of a chain, with its first object taken.
pub record Started (n : ℕ) (b : Bucket) (chain : List Bucket) : Type 0 where
  pub sound : IsChain n (use_object b ∷ chain)
  pub now_held : Held (freeptr b) (use_object b ∷ chain)

pub fresh-Started :
    (size page : ℕ) (chain : List Bucket)
    → IsSize size
    → page % 4096 ≡ 0
    → page ≢ 0
    → has_page page chain ≡ false
    → IsChain (objects_in size) chain
    → Started (objects_in size) (fresh size page) chain
fresh-Started size page chain valid whole nz absent rest =
    let n : ℕ = objects_in size in
    let first : freeptr (fresh size page) ≡ page = first_object n size page valid.some_fit in
    let p : Popped page (objects n size page) =
      pop page (objects n size page) (λ z. nz (sym first ∙ z))
        (objects-AllIn n size page page valid.positive whole nz (omega arith)
          (let f = valid.fit in omega arith))
        (objects-IsNodup n size page valid.positive) in
    let all : length (objects n size page) ≡ n = length-objects n size page in
    let long = p.long in
    record {
      sound = (
        record {
          inside = p.inside;
          distinct = p.distinct;
          in_use = omega arith;
          counted = omega (arith, long, all);
        },
        absent,
        rest,
      );
      now_held = inl (sym p.on_page, p.absent);
    }
