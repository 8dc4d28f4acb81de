-- ===== src/Sender/Timers/Deadline.antt =====
-- `nextDeadline` of src/raop_sender.cpp picks the earliest of the timers that run.
use airplay2_sender_cpp.Base.{
  ◌⊎◌, ℕ, ◌≤◌, ◌≡◌, refl, true, false, List, [], ◌∷◌, Option, none, some, arith, ltb, Bool-cases,
  ltb→lt, ltb_false→le, inl, inr,
}
use airplay2_sender_cpp.Sender.State.{Timer, Timers}
use airplay2_sender_cpp.Sender.Timers.{sooner, next_deadline}

abbrev pub All : (Timer → Type 0) → List Timer → Type 0
All P [] = Unit {0}
All P (t ∷ ts) = P t × All P ts

abbrev pub Any : (Timer → Type 0) → List Timer → Type 0
Any P [] = ⊥
Any P (t ∷ ts) = P t ⊎ Any P ts

-- Nothing, if no timer runs; otherwise the due time of one that runs, and no later than any.
abbrev pub Earliest : List Timer → Option ℕ → Type 0
Earliest ts none = All (λ t. t.active ≡ false) ts
Earliest ts (some d) =
    Any (λ t. (t.active ≡ true) × (t.due ≡ d)) ts × All (λ t. t.active ≡ true → d ≤ t.due) ts

All-off :
    (d : ℕ) (ts : List Timer)
    → All (λ t. t.active ≡ false) ts
    → All (λ t. t.active ≡ true → d ≤ t.due) ts
All-off d [] h = tt
All-off d (t ∷ ts) h = (λ on. cc, All-off d ts h.1)

All-sooner :
    (d e : ℕ) (ts : List Timer)
    → d ≤ e
    → All (λ t. t.active ≡ true → e ≤ t.due) ts
    → All (λ t. t.active ≡ true → d ≤ t.due) ts
All-sooner d e [] h k = tt
All-sooner d e (t ∷ ts) h k = (λ on. omega (arith, k.0 on), All-sooner d e ts h k.1)

sooner-Earliest :
    (t : Timer) (ts : List Timer) (best : Option ℕ)
    → Earliest ts best
    → Earliest (t ∷ ts) (sooner best t)
unfolding sooner
sooner-Earliest t ts none h = elim (Bool-cases t.active) [
  | inl on ↦ rw on ((inl (refl, refl), (λ a. omega arith, All-off t.due ts h)))
  | inr off ↦ rw off (refl, h)
]
sooner-Earliest t ts (some best) h = elim (Bool-cases t.active) [
  | inl on ↦ elim (Bool-cases (ltb t.due best)) [
    | inl lt ↦
        rw (on, lt)
          ((
            inl (refl, refl),
            (λ a. omega arith, All-sooner t.due best ts (omega (arith, ltb→lt t.due best lt)) h.1),
          ))
    | inr ge ↦ rw (on, ge) (inr h.0, (λ a. ltb_false→le t.due best ge, h.1))
  ]
  | inr off ↦ rw off (inr h.0, (λ a. cc, h.1))
]

-- The next deadline is nothing exactly if no timer runs, and otherwise the due time of a running
-- timer that no running timer precedes.
pub next_deadline-Earliest :
    (ts : Timers)
    → Earliest
        (ts.feedback_timer ∷ (ts.pin_timeout ∷ (ts.timeout ∷ (ts.sync_timer ∷ (ts.pacer ∷ [])))))
        (next_deadline ts)
unfolding next_deadline
next_deadline-Earliest ts =
    let b1 = sooner none ts.pacer in
    let b2 = sooner b1 ts.sync_timer in
    let b3 = sooner b2 ts.timeout in
    let b4 = sooner b3 ts.pin_timeout in
    let l1 = ts.pacer ∷ [] in
    let l2 = ts.sync_timer ∷ l1 in
    let l3 = ts.timeout ∷ l2 in
    let l4 = ts.pin_timeout ∷ l3 in
    sooner-Earliest ts.feedback_timer l4 b4 (
      sooner-Earliest ts.pin_timeout l3 b3 (
        sooner-Earliest ts.timeout l2 b2
          (sooner-Earliest ts.sync_timer l1 b1 (sooner-Earliest ts.pacer [] none tt))))
