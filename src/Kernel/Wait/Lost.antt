-- ===== src/Kernel/Wait/Lost.antt =====
-- A task that sleep_on() loses: it went to sleep after a wake_up() and before the woken task ran.
use linux_0_11_lab.Base.{
  Bool, Bool-cases, List, Option, Option-cases, [], ap, arith, false, inl, inr, none, refl, some,
  some_injective, suc, true, zero, ℕ, ◌==◌, ◌∙◌, ◌∷◌, ◌≡◌, ◌≢◌,
}
use mathlib.Core.Path.{subst}
use linux_0_11_lab.Kernel.Wait.{
  Waiting, forget, resume, saved_of, set_state, sleep_on, wake_task, wake_up,
}

-- One event of the queue. Whoever resumes sleeps on the queue, and whoever goes to sleep runs and
-- does not.
pub data Step (w : Waiting) : Waiting → Type 0 where
  sleeps :
      (p : ℕ) {w' : Waiting}
      → w.runs p ≡ true
      → saved_of p w.saved ≡ none
      → sleep_on p w ≡ some w'
      → Step w w'
  wakes : {w' : Waiting} → wake_up w ≡ w' → Step w w'
  resumes : (p : ℕ) {w' : Waiting} → resume p w ≡ some w' → Step w w'

pub data Reach (w : Waiting) : Waiting → Type 0 where
  here : Reach w w
  next : {u v : Waiting} → Reach w u → Step u v → Reach w v

-- No entry of the list has `p` for its `tmp`.
abbrev pub NotNext : ℕ → List (ℕ × Option ℕ) → Type 0
NotNext p [] = Unit {0}
NotNext p ((q, tmp) ∷ l) = (tmp ≢ some p) × NotNext p l

pub record IsLost (p : ℕ) (w : Waiting) : Type 0 where
  pub asleep : w.runs p ≡ false
  pub not_head : w.head ≢ some p
  pub not_next : NotNext p w.saved

NotNext-forget : (p r : ℕ) (l : List (ℕ × Option ℕ)) → NotNext p l → NotNext p (forget r l)
NotNext-forget p r [] h = tt
NotNext-forget p r ((q, tmp) ∷ l) h = elim (Bool-cases (q == r)) [
  | inl e ↦ rw e (h.1)
  | inr e ↦ rw e (h.0, NotNext-forget p r l (h.1))
]

NotNext-saved_of :
    (p r : ℕ) (l : List (ℕ × Option ℕ)) (tmp : Option ℕ)
    → NotNext p l
    → saved_of r l ≡ some tmp
    → tmp ≢ some p
NotNext-saved_of p r [] tmp h e = cc
NotNext-saved_of p r ((q, tmp') ∷ l) tmp h e = elim (Bool-cases (q == r)) [
  | inl z ↦ let same : some tmp' ≡ some tmp = (rw z at e) in λ i. h.0 (some_injective same ∙ i)
  | inr z ↦ NotNext-saved_of p r l tmp (h.1) (rw z at e)
]

wake_task-ne : (p : ℕ) (o : Option ℕ) (runs : ℕ → Bool) → o ≢ some p → wake_task o runs p ≡ runs p
unfolding wake_task
wake_task-ne p none runs h = refl
wake_task-ne p (some q) runs h = let z : (q == p) ≡ false = ground arith in rw z refl

resume-cases :
    (r : ℕ) (w w' : Waiting)
    → resume r w ≡ some w'
    → (w.runs r ≡ true)
      × (tmp : Option ℕ) × (saved_of r w.saved ≡ some tmp)
      × (record { head = tmp; saved = forget r w.saved; runs = wake_task tmp w.runs } ≡ w')
unfolding resume
resume-cases r w w' e = elim (Bool-cases (w.runs r)) [
  | inl a ↦ elim (Option-cases (saved_of r w.saved)) [
    | inl n ↦ absurd (ground (arith, e, a, n))
    | inr (tmp, s) ↦ (a, tmp, s, ground (arith, e, a, s))
  ]
  | inr a ↦ absurd (ground (arith, e, a))
]

sleep_on-IsLost :
    (p r : ℕ) (w w' : Waiting) → w.runs r ≡ true → sleep_on r w ≡ some w' → IsLost p w → IsLost p w'
unfolding sleep_on
sleep_on-IsLost p zero w w' a e l = cc
sleep_on-IsLost p (suc r) w w' a e l =
    let ne : suc r ≢ p = λ i. ground (arith, a, l.asleep, ap w.runs i) in
    let z : (suc r == p) ≡ false = ground arith in
    subst (IsLost p) (some_injective e) (record {
      asleep = rw z (l.asleep);
      not_head = λ i. ne (some_injective i);
      not_next = (l.not_head, l.not_next);
    })

resume-IsLost : (p r : ℕ) (w w' : Waiting) → resume r w ≡ some w' → IsLost p w → IsLost p w'
resume-IsLost p r w w' e l =
    let (a, tmp, s, f) = resume-cases r w w' e in
    let ne = NotNext-saved_of p r w.saved tmp l.not_next s in
    subst (IsLost p) f (record {
      asleep = wake_task-ne p tmp w.runs ne ∙ l.asleep;
      not_head = ne;
      not_next = NotNext-forget p r w.saved l.not_next;
    })

Step-IsLost : (p : ℕ) {w w' : Waiting} → Step w w' → IsLost p w → IsLost p w'
unfolding wake_up
Step-IsLost p {w} {w'} (sleeps r a n e) l = sleep_on-IsLost p r w w' a e l
Step-IsLost p {w} {w'} (wakes e) l = subst (IsLost p) e (record {
  asleep = wake_task-ne p w.head w.runs l.not_head ∙ l.asleep;
  not_head = λ i. cc;
  not_next = l.not_next;
})
Step-IsLost p {w} {w'} (resumes r e) l = resume-IsLost p r w w' e l

-- Nothing that happens on the queue wakes a lost task.
Reach-IsLost : (p : ℕ) {w w' : Waiting} → IsLost p w → Reach w w' → IsLost p w'
Reach-IsLost p l here = l
Reach-IsLost p l (next r s) = Step-IsLost p s (Reach-IsLost p l r)

-- Let task `q` be the last that went to sleep on the queue, and let `p` be another task, which runs
-- and is not on the queue. If wake_up() runs, then `p` calls sleep_on(), and then `q` resumes, then
-- `p` is lost: whatever tasks go to sleep, wake up or resume on the queue afterwards, `p` sleeps.
pub sleeper_lost :
    (p q : ℕ) (tmp : Option ℕ) (rest : List (ℕ × Option ℕ)) (w : Waiting)
    → w.head ≡ some q
    → w.saved ≡ (q, tmp) ∷ rest
    → suc p ≢ q
    → tmp ≢ some (suc p)
    → NotNext (suc p) rest
    → (v u : Waiting) × (sleep_on (suc p) (wake_up w) ≡ some v)
      × (resume q v ≡ some u)
      × ((u' : Waiting) → Reach u u' → u'.runs (suc p) ≡ false)
unfolding wake_up sleep_on resume
sleeper_lost p q tmp rest w hd sv ne nt nr =
    let v : Waiting = record {
      head = some (suc p);
      saved = (suc p, none) ∷ w.saved;
      runs = set_state (wake_task w.head w.runs) (suc p) false;
    } in
    let u : Waiting = record {
      head = tmp;
      saved = (suc p, none) ∷ rest;
      runs = wake_task tmp v.runs;
    } in
    let a : (suc p == q) ≡ false = ground arith in
    let b : (q == q) ≡ true = ground arith in
    let c : (suc p == suc p) ≡ true = ground arith in
    let l : IsLost (suc p) u = record {
      asleep = wake_task-ne (suc p) tmp v.runs nt ∙ rw c refl;
      not_head = nt;
      not_next = (λ i. cc, nr);
    } in
    (v, u, refl, rw (hd, sv, a, b) refl, λ u' r. (Reach-IsLost (suc p) l r).asleep)
