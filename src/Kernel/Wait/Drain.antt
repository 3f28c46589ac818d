-- ===== src/Kernel/Wait/Drain.antt =====
-- One wake_up() reaches every sleeper, if nobody joins the queue before the last has resumed.
use linux_0_11_lab.Base.{
  Bool, List, Option, [], arith, false, none, refl, some, suc, true, zero, ℕ, ◌==◌, ◌∷◌, ◌≡◌, ◌≤◌,
}
use linux_0_11_lab.Kernel.Wait.{Waiting, resume, set_state, sleep_on, wake_task, wake_up}

abbrev pub top : List ℕ → Option ℕ
top [] = none
top (p ∷ ps) = some p

-- The stack of `tmp` pointers, the last sleeper first.
abbrev pub chain : List ℕ → List (ℕ × Option ℕ)
chain [] = []
chain (p ∷ ps) = (p, top ps) ∷ chain ps

-- The tasks go to sleep one after the other, the last of the list first.
unfoldable pub sleep_all : List ℕ → Waiting → Option Waiting
sleep_all [] w = some w
sleep_all (p ∷ ps) w = elim (sleep_all ps w) [ none ↦ none | some v ↦ sleep_on p v ]

unfoldable pub resume_all : List ℕ → Waiting → Option Waiting
resume_all [] w = some w
resume_all (p ∷ ps) w = elim (resume p w) [ none ↦ none | some v ↦ resume_all ps v ]

abbrev pub AllIn : List ℕ → (ℕ → Bool) → Bool → Type 0
AllIn [] runs b = Unit {0}
AllIn (p ∷ ps) runs b = (runs p ≡ b) × AllIn ps runs b

-- No task of the list is task[0].
abbrev pub AllPos : List ℕ → Type 0
AllPos [] = Unit {0}
AllPos (p ∷ ps) = (1 ≤ p) × AllPos ps

sleep_all-chain :
    (ps : List ℕ) (w : Waiting)
    → AllPos ps
    → w.head ≡ none
    → w.saved ≡ []
    → (v : Waiting) × (sleep_all ps w ≡ some v) × (v.head ≡ top ps) × (v.saved ≡ chain ps)
unfolding sleep_all sleep_on
sleep_all-chain [] w a h s = (w, refl, h, s)
sleep_all-chain (zero ∷ ps) w a h s = absurd (omega arith)
sleep_all-chain (suc p ∷ ps) w a h s =
    let (v, e, hd, sv) = sleep_all-chain ps w (a.1) h s in
    let v' : Waiting = record {
      head = some (suc p);
      saved = (suc p, v.head) ∷ v.saved;
      runs = set_state v.runs (suc p) false;
    } in
    (v', rw (e, sleep_all) refl, refl, rw (hd, sv) refl)

resume-top :
    (p : ℕ) (ps : List ℕ) (w : Waiting)
    → w.saved ≡ chain (p ∷ ps)
    → w.runs p ≡ true
    → resume p w
      ≡ some (record { head = top ps; saved = chain ps; runs = wake_task (top ps) w.runs })
unfolding resume
resume-top p ps w s r = let c : (p == p) ≡ true = ground arith in rw (s, r, c) refl

wake_task_mono :
    (o : Option ℕ) (runs : ℕ → Bool) (q : ℕ) → runs q ≡ true → wake_task o runs q ≡ true
unfolding wake_task
wake_task_mono none runs q h = h
wake_task_mono (some r) runs q h = ground arith

wake_task_self : (p : ℕ) (runs : ℕ → Bool) → wake_task (some p) runs p ≡ true
unfolding wake_task
wake_task_self p runs = ground arith

-- With the first of the chain awake, resuming them in order leaves the queue empty, and no task
-- that ran stops.
drain :
    (p : ℕ) (ps : List ℕ) (w : Waiting)
    → w.saved ≡ chain (p ∷ ps)
    → w.runs p ≡ true
    → (v : Waiting) × (resume_all (p ∷ ps) w ≡ some v)
      × (v.head ≡ none)
      × (v.saved ≡ [])
      × AllIn (p ∷ ps) v.runs true
      × ((q : ℕ) → w.runs q ≡ true → v.runs q ≡ true)
unfolding resume_all wake_task
drain p [] w s r = (
  record { head = none; saved = []; runs = w.runs },
  rw (resume-top p [] w s r, resume_all) refl,
  refl,
  refl,
  (r, tt),
  λ q h. h,
)
drain p (q ∷ ps) w s r =
    let w' : Waiting = record {
      head = some q;
      saved = chain (q ∷ ps);
      runs = wake_task (some q) w.runs;
    } in
    let (v, e, h, sv, all, mono) = drain q ps w' refl (wake_task_self q w.runs) in
    (
      v,
      rw (resume-top p (q ∷ ps) w s r, resume_all) e,
      h,
      sv,
      (mono p (wake_task_mono (some q) w.runs p r), all),
      λ k hk. mono k (wake_task_mono (some q) w.runs k hk),
    )

-- Tasks that go to sleep one after the other on an empty queue are all brought back by one
-- wake_up(), when they then resume in turn, the last sleeper first, with nothing in between: each
-- can resume, in the end they all run, and the queue is empty.
pub wake_up_all :
    (p : ℕ) (ps : List ℕ) (w : Waiting)
    → AllPos (p ∷ ps)
    → w.head ≡ none
    → w.saved ≡ []
    → (v u : Waiting) × (sleep_all (p ∷ ps) w ≡ some v)
      × (resume_all (p ∷ ps) (wake_up v) ≡ some u)
      × (u.head ≡ none)
      × (u.saved ≡ [])
      × AllIn (p ∷ ps) u.runs true
unfolding wake_up
wake_up_all p ps w a h s =
    let (v, e, hd, sv) = sleep_all-chain (p ∷ ps) w a h s in
    let woken : Waiting = record { head = none; saved = v.saved; runs = wake_task v.head v.runs } in
    let r : woken.runs p ≡ true = rw hd (wake_task_self p v.runs) in
    let (u, e', h', s', all, _) = drain p ps woken sv r in (v, u, e, e', h', s', all)
