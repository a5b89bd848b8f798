-- ===== src/Timer/Sorted.antt =====
-- The list of timers stays sorted by the clocks that are left.
use own_os.Prelude.{
  ℕ, ◌+◌, ◌≡◌, refl, List, [], ◌∷◌, arith, if◌then◌else◌, Bool-cases, inl, inr, All,
}
use own_os.Prelude.Int.{ℤ, pos, ◌-ℤ◌, ◌≤ℤ◌, ltb_ℤ, -ℤ_parts}
use own_os.Timer.{
  Entry, Timer, TimerType, entry, place, set, pass, pass_clocks, drop_task_switch, reset_quantum,
  is_task_switch, task_switch,
}

abbrev pub Above : ℤ → List Entry → Type 0
Above c ps = All (λ (e : Entry). c ≤ℤ e.clocks) ps

abbrev pub IsSorted : List Entry → Type 0
IsSorted [] = Unit
IsSorted (p ∷ ps) = Above p.clocks ps × IsSorted ps

Above-mono : (c d : ℤ) (ps : List Entry) → c ≤ℤ d → Above d ps → Above c ps
Above-mono c d [] h a = tt
Above-mono c d (p ∷ ps) h a = (omega arith, Above-mono c d ps h a.1)

Above-place :
    (c : ℤ) (e : Entry) (ps : List Entry) → c ≤ℤ e.clocks → Above c ps → Above c (place e ps)
unfolding place
Above-place c e [] h a = (h, tt)
Above-place c e (p ∷ ps) h a = elim (Bool-cases (ltb_ℤ e.clocks p.clocks)) [
  | inl l ↦ rw l (h, a)
  | inr l ↦ rw l (a.0, Above-place c e ps h a.1)
]

place-IsSorted : (e : Entry) (ps : List Entry) → IsSorted ps → IsSorted (place e ps)
unfolding place
place-IsSorted e [] s = (tt, tt)
place-IsSorted e (p ∷ ps) (a, s) = elim (Bool-cases (ltb_ℤ e.clocks p.clocks)) [
  | inl l ↦
      let h : e.clocks ≤ℤ p.clocks = ground arith in
      rw l ((h, Above-mono e.clocks p.clocks ps h a), (a, s))
  | inr l ↦ rw l (Above-place p.clocks e ps (ground arith) a, place-IsSorted e ps s)
]

Above-pass :
    (n : ℕ) (c d : ℤ) (ps : List Entry)
    → ((e : ℤ) → d ≤ℤ e → c ≤ℤ e -ℤ pos n)
    → Above d ps
    → Above c (pass n ps)
unfolding pass
Above-pass n c d [] h a = tt
Above-pass n c d (p ∷ ps) h a = (h p.clocks a.0, Above-pass n c d ps h a.1)

pub pass-IsSorted : (n : ℕ) (ps : List Entry) → IsSorted ps → IsSorted (pass n ps)
unfolding pass
pass-IsSorted n [] s = tt
pass-IsSorted n (p ∷ ps) (a, s) = (
  Above-pass n (p.clocks -ℤ pos n) p.clocks ps
      (λ e h. omega (arith, -ℤ_parts p.clocks (pos n), -ℤ_parts e (pos n))) a,
  pass-IsSorted n ps s,
)

Above-drop : (c : ℤ) (ps : List Entry) → Above c ps → Above c (drop_task_switch ps)
unfolding drop_task_switch
Above-drop c [] a = tt
Above-drop c (p ∷ ps) a = elim (Bool-cases (is_task_switch p.type)) [
  | inl h ↦ rw h (Above-drop c ps a.1)
  | inr h ↦ rw h (a.0, Above-drop c ps a.1)
]

drop-IsSorted : (ps : List Entry) → IsSorted ps → IsSorted (drop_task_switch ps)
unfolding drop_task_switch
drop-IsSorted [] s = tt
drop-IsSorted (p ∷ ps) (a, s) = elim (Bool-cases (is_task_switch p.type)) [
  | inl h ↦ rw h (drop-IsSorted ps s)
  | inr h ↦ rw h (Above-drop p.clocks ps a, drop-IsSorted ps s)
]

module _ (timer : Timer) (s : IsSorted timer.head) where
  -- A timer that is set in a sorted list leaves it sorted.
  pub set-IsSorted : (c : ℤ) (t : TimerType) (id : ℕ) → IsSorted (set c t id timer).head
  unfolding set
  set-IsSorted c t id = place-IsSorted (entry c t id) timer.head s

  pub pass_clocks-IsSorted : (n : ℕ) → IsSorted (pass_clocks n timer).head
  unfolding pass_clocks
  pass_clocks-IsSorted n = pass-IsSorted n timer.head s

  -- A new quantum leaves a sorted list sorted.
  pub reset_quantum-IsSorted : (c : ℤ) (id : ℕ) → IsSorted (reset_quantum c id timer).head
  unfolding reset_quantum
  reset_quantum-IsSorted c id =
      place-IsSorted (entry c task_switch id) (drop_task_switch timer.head)
        (drop-IsSorted timer.head s)

-- The number of timers that make the scheduler run.
pub task_switches : List Entry → ℕ
task_switches [] = 0
task_switches (p ∷ ps) = (if is_task_switch p.type then 1 else 0) + task_switches ps

task_switches-place :
    (e : Entry) (ps : List Entry)
    → task_switches (place e ps) ≡ (if is_task_switch e.type then 1 else 0) + task_switches ps
unfolding task_switches place
task_switches-place e [] = refl
task_switches-place e (p ∷ ps) = elim (Bool-cases (ltb_ℤ e.clocks p.clocks)) [
  | inl l ↦ rw l
  | inr l ↦ rw l (omega (arith, task_switches-place e ps))
]

task_switches-drop : (ps : List Entry) → task_switches (drop_task_switch ps) ≡ 0
unfolding task_switches drop_task_switch
task_switches-drop [] = refl
task_switches-drop (p ∷ ps) = ground (arith, task_switches-drop ps)

-- However many quanta were set before, `reset_quantum` leaves one timer for a quantum.
pub task_switches-reset_quantum :
    (c : ℤ) (id : ℕ) (timer : Timer) → task_switches (reset_quantum c id timer).head ≡ 1
unfolding reset_quantum
task_switches-reset_quantum c id timer = omega (
  arith,
  task_switches-place (entry c task_switch id) (drop_task_switch timer.head),
  task_switches-drop timer.head,
)

pub quantum_exceeded-reset_quantum :
    (c : ℤ) (id : ℕ) (timer : Timer)
    → (reset_quantum c id timer).quantum_exceeded ≡ timer.quantum_exceeded
unfolding reset_quantum set
quantum_exceeded-reset_quantum c id timer = refl
