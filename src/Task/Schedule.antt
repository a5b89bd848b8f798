-- ===== src/Task/Schedule.antt =====
-- What one call of `schedule` does to a state in order.
use own_os.Prelude.{
  ℕ, zero, suc, ◌+◌, ◌<◌, ◌≤◌, ◌≡◌, ◌∙◌, refl, sym, subst, ap, true, false, ◌||◌, List, [], ◌∷◌,
  ◌++◌, ◌==◌, if◌then◌else◌, arith, Bool-cases, ==_iff, inl, inr,
}
use own_os.Process.{PManager, put_head, put_status, append, task_stopped}
use own_os.Process.Queues.{
  IsState, total, count, count-cons, due, change-IsState, total-put_head, enque-append, target,
}
use own_os.Task.{
  Kernel, Result, returned, switched, failed, settle, next_level, switch_to, start, pick, schedule,
  acknowledged,
}
use own_os.Timer.Sorted.{task_switches, task_switches-reset_quantum, quantum_exceeded-reset_quantum}

-- The state in which `start` calls `enque`.
abbrev taken : ℕ → List ℕ → ℕ → PManager → PManager
taken p ps i m = record m {
  procs = put_status p task_stopped m.procs;
  heads = put_head i ps m.heads;
}

-- What taking `p` from the head of its queue does to the number of places of every process.
taken-total :
    (q p i : ℕ) (ps : List ℕ) (m : PManager)
    → i < 4
    → m.heads i ≡ p ∷ ps
    → total q (put_head i ps m.heads) + (if q == p then 1 else 0) ≡ total q m.heads
taken-total q p i ps m b e =
    let t = total-put_head q i ps m.heads b in
    let c : count q (m.heads i) ≡ (if q == p then 1 else 0) + count q ps =
      ap (count q) e ∙ count-cons q p ps in
    omega arith

head-due :
    (p : ℕ) (ps : List ℕ) (i : ℕ) (m : PManager)
    → IsState m
    → i < 4
    → m.heads i ≡ p ∷ ps
    → due (m.procs p).status ≡ 1
head-due p ps i m s b e = ground (arith, taken-total p p i ps m b e, s p)

taken-IsState :
    (p : ℕ) (ps : List ℕ) (i : ℕ) (m : PManager)
    → IsState m
    → i < 4
    → m.heads i ≡ p ∷ ps
    → IsState (taken p ps i m)
taken-IsState p ps i m s b e =
    let d = head-due p ps i m s b e in
    change-IsState p task_stopped m (taken p ps i m) s refl
      (λ q. rw d (taken-total q p i ps m b e ∙ ground arith))

-- The switch to `p`, which runs at level `n` from now on.
abbrev pub Switches : ℕ → (ℕ → List ℕ) → Result → Type 0
Switches p h (switched k es) =
    IsState k.manager
    × (k.manager.heads ≡ h)
    × (k.manager.current ≡ p)
    × (task_switches k.timer.head ≡ 1)
    × (k.sched_req ≡ false)
    × (k.timer.quantum_exceeded ≡ false)
Switches p h (returned k) = ⊥
Switches p h failed = ⊥

-- The queues after process `p` has moved from the head of level `i` to the end of the next.
abbrev pub moved : ℕ → List ℕ → ℕ → (ℕ → List ℕ) → ℕ → List ℕ
moved p ps i h =
    let h' = put_head i ps h in put_head (next_level i) (h' (next_level i) ++ (p ∷ [])) h'

switch_to-Switches :
    (kernel2user p n : ℕ) (k : Kernel) (m : PManager)
    → IsState m
    → k.sched_req ≡ false
    → k.timer.quantum_exceeded ≡ false
    → Switches p m.heads (switch_to kernel2user p n k m)
unfolding switch_to
switch_to-Switches kernel2user p n k m s a b = elim (Bool-cases (p == m.current)) [
  | inl h ↦ rw h (
    s,
    refl,
    sym ((==_iff p m.current).0 h),
    task_switches-reset_quantum _ _ k.timer,
    a,
    quantum_exceeded-reset_quantum _ _ k.timer ∙ b,
  )
  | inr h ↦ rw h (
    λ q. elim (Bool-cases (q == p)) [ inl x ↦ rw x (s q) | inr x ↦ rw x (s q) ],
    refl,
    refl,
    task_switches-reset_quantum _ _ k.timer,
    a,
    quantum_exceeded-reset_quantum _ _ k.timer ∙ b,
  )
]

level-lem :
    (i p : ℕ) (m : PManager) → (target p (next_level i) m ≡ next_level i) × (next_level i < 4)
level-lem i p m = let z : (next_level i == 0) ≡ false = ground arith in (rw z refl, ground arith)

start-Switches :
    (kernel2user p i : ℕ) (ps : List ℕ) (k : Kernel)
    → IsState k.manager
    → k.sched_req ≡ false
    → k.timer.quantum_exceeded ≡ false
    → i < 4
    → k.manager.heads i ≡ p ∷ ps
    → Switches p (moved p ps i k.manager.heads) (start kernel2user p ps i k)
unfolding start settle append
start-Switches kernel2user p i ps k s a q b e =
    let m = taken p ps i k.manager in
    let (t, l) = level-lem i p m in
    let st : (m.procs p).status ≡ task_stopped = ground arith in
    let (x, y) =
      enque-append p (next_level i) m (taken-IsState p ps i k.manager s b e) st
        (subst (λ n. n < 4) (sym t) l) in
    rw (x, t)
      (switch_to-Switches kernel2user p (next_level i) k (append p (next_level i) m)
        (subst (λ n. IsState (append p n m)) t y) a q)

pick-none :
    (kernel2user n j : ℕ) (k : Kernel)
    → k.manager.heads j ≡ []
    → pick kernel2user (suc n) j k ≡ pick kernel2user n (suc j) k
unfolding pick
pick-none kernel2user n j k e = rw (e, pick) refl

pick-some :
    (kernel2user n j p : ℕ) (ps : List ℕ) (k : Kernel)
    → k.manager.heads j ≡ p ∷ ps
    → pick kernel2user (suc n) j k ≡ start kernel2user p ps j k
unfolding pick
pick-some kernel2user n j p ps k e = rw (e, pick) refl

pick-Switches :
    (kernel2user p i : ℕ) (ps : List ℕ) (k : Kernel)
    → IsState k.manager
    → k.sched_req ≡ false
    → k.timer.quantum_exceeded ≡ false
    → ((j : ℕ) → j < i → k.manager.heads j ≡ [])
    → k.manager.heads i ≡ p ∷ ps
    → (n j : ℕ) → j ≤ i
    → i < j + n
    → j + n ≤ 4
    → Switches p (moved p ps i k.manager.heads) (pick kernel2user n j k)
unfolding pick
pick-Switches kernel2user p i ps k s a q none_above e zero j x y z = omega arith
pick-Switches kernel2user p i ps k s a q none_above e (suc n) j x y z = elim (Bool-cases (j == i)) [
  | inl h ↦
      let r : k.manager.heads j ≡ p ∷ ps = ap k.manager.heads ((==_iff j i).0 h) ∙ e in
      rw (pick-some kernel2user n j p ps k r, (==_iff j i).0 h)
        (start-Switches kernel2user p i ps k s a q (omega arith) e)
  | inr h ↦ rw (pick-none kernel2user n j k (none_above j (ground arith))) (
      pick-Switches kernel2user p i ps k s a q none_above e n (suc j) (ground arith) (omega arith)
        (omega arith))
]

-- Where a switch is asked for and some queue has a process, `schedule` switches to the process `p`
-- at the head of the first such queue, and moves it to the end of the next level, or of the same at
-- the lowest. The state stays in order, one timer is left to end the quantum, and the switch is no
-- longer asked for.
pub schedule-Switches :
    (kernel2user p i : ℕ) (ps : List ℕ) (k : Kernel)
    → IsState k.manager
    → (k.sched_req || k.timer.quantum_exceeded) ≡ true
    → i < 4
    → ((j : ℕ) → j < i → k.manager.heads j ≡ [])
    → k.manager.heads i ≡ p ∷ ps
    → Switches p (moved p ps i k.manager.heads) (schedule kernel2user k)
unfolding schedule
schedule-Switches kernel2user p i ps k s r b none_above e = rw r (
    pick-Switches kernel2user p i ps (acknowledged k) s refl refl none_above e 4 0 (omega arith) b
      (omega arith))
