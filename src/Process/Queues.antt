-- ===== src/Process/Queues.antt =====
-- A process stands in the run queues once if it is running, and else not at all.
use own_os.Prelude.{
  ◌≢◌, ℕ, zero, suc, ◌+◌, ◌<◌, ◌≤◌, ◌≡◌, refl, sym, Bool, true, false, Option, none, some, List, [],
  ◌∷◌, ◌++◌, ltb, ◌==◌, if◌then◌else◌, arith, Bool-cases, ◌⊎◌, ==_iff, subst, inl, inr,
}
use own_os.Process.{
  Status, PManager, put_head, put_status, append, enque_at, enque_stopped, enque, remove,
  deque_loop, dequeued, deque, nr_level, task_running, task_stopped, done,
}

unfoldable pub count : ℕ → List ℕ → ℕ
count q [] = 0
count q (p ∷ ps) = (if q == p then 1 else 0) + count q ps

-- How often a process stands in the queues.
abbrev pub total : ℕ → (ℕ → List ℕ) → ℕ
total q h = count q (h 0) + count q (h 1) + count q (h 2) + count q (h 3)

abbrev pub is_running : Status → Bool
is_running task_running = true
is_running _ = false

abbrev pub IsState : PManager → Type 0
IsState m = (q : ℕ) → total q m.heads ≡ (if is_running (m.procs q).status then 1 else 0)

pub count-cons : (q p : ℕ) (ps : List ℕ) → count q (p ∷ ps) ≡ (if q == p then 1 else 0) + count q ps
unfolding count
count-cons q p ps = refl

pub count-append :
    (q p : ℕ) (ps : List ℕ) → count q (ps ++ (p ∷ [])) ≡ count q ps + (if q == p then 1 else 0)
unfolding count
count-append q p [] = omega arith
count-append q p (x ∷ ps) = omega (arith, count-append q p ps)

pub total-put_head :
    (q i : ℕ) (l : List ℕ) (h : ℕ → List ℕ)
    → i < 4
    → total q (put_head i l h) + count q (h i) ≡ total q h + count q l
total-put_head q zero l h b = omega arith
total-put_head q (suc zero) l h b = omega arith
total-put_head q (suc (suc zero)) l h b = omega arith
total-put_head q (suc (suc (suc zero))) l h b = omega arith
total-put_head q (suc (suc (suc (suc i)))) l h b = omega arith

-- How often a process with a status has to stand in the queues.
abbrev pub due : Status → ℕ
due s = if is_running s then 1 else 0

-- The queues and the status of one process change together.
pub change-IsState :
    (p : ℕ) (s : Status) (m m' : PManager)
    → IsState m
    → m'.procs ≡ put_status p s m.procs
    → ((q : ℕ)
        → total q m'.heads + (if q == p then due (m.procs p).status else 0)
          ≡ total q m.heads + (if q == p then due s else 0))
    → IsState m'
change-IsState p s m m' st e t q = elim (Bool-cases (q == p)) [
  | inl h ↦
      let r : q ≡ p = (==_iff q p).0 h in
      let u : total q m.heads ≡ due (m.procs p).status =
        subst (λ x. total x m.heads ≡ due (m.procs p).status) (sym r) (st p) in
      let v = given true h in rw (e, h) (omega arith)
  | inr h ↦ let v = given false h in let u = st q in rw (e, h) (omega arith)
]
  where
    given :
        (b : Bool)
        → (q == p) ≡ b
        → total q m'.heads + (if b then due (m.procs p).status else 0)
          ≡ total q m.heads + (if b then due s else 0)
    given b h =
        subst
          (λ b.
            total q m'.heads + (if b then due (m.procs p).status else 0)
            ≡ total q m.heads + (if b then due s else 0))
          h (t q)

-- Adding a process that is in no queue.
append-IsState :
    (p level : ℕ) (m : PManager)
    → IsState m
    → level < 4
    → (m.procs p).status ≡ task_stopped
    → IsState (append p level m)
unfolding append
append-IsState p level m s b st = change-IsState p task_running m (append p level m) s refl (λ q.
    let c = count-append q p (m.heads level) in
    let t = total-put_head q level (m.heads level ++ (p ∷ [])) m.heads b in rw st (ground arith))

-- The queue without a process that is in it.
abbrev Removed : ℕ → List ℕ → Option (List ℕ) → Type 0
Removed p l none = count p l ≡ 0
Removed p l (some r) = (q : ℕ) → count q l ≡ (if q == p then 1 else 0) + count q r

remove-Removed : (p : ℕ) (l : List ℕ) → Removed p l (remove p l)
unfolding remove count
remove-Removed p [] = refl
remove-Removed p (x ∷ xs) = elim (Bool-cases (x == p)) [
  | inl h ↦ rw h (λ q. ground arith)
  | inr h ↦ rw h (go h (remove p xs) (remove-Removed p xs))
]
  where
    go :
        (x == p) ≡ false
        → (rest : Option (List ℕ)) → Removed p xs rest
        → Removed p (x ∷ xs) (elim rest [ none ↦ none | some l ↦ some (x ∷ l) ])
    go h none r = ground arith
    go h (some l) r = λ q. omega (arith, r q)

abbrev DequeLoop : ℕ → ℕ → ℕ → (ℕ → List ℕ) → Option (ℕ → List ℕ) → Type 0
DequeLoop p n i h none = (j : ℕ) → i ≤ j → j < i + n → count p (h j) ≡ 0
DequeLoop p n i h (some h') = (q : ℕ) → total q h ≡ (if q == p then 1 else 0) + total q h'

deque_loop-DequeLoop :
    (p n i : ℕ) (h : ℕ → List ℕ) → i + n ≤ 4 → DequeLoop p n i h (deque_loop p n i h)
unfolding deque_loop
deque_loop-DequeLoop p zero i h b = λ j x y. omega arith
deque_loop-DequeLoop p (suc n) i h b =
    go (remove p (h i)) (remove-Removed p (h i)) (deque_loop p n (suc i) h)
      (deque_loop-DequeLoop p n (suc i) h (omega arith))
  where
    go :
        (r : Option (List ℕ))
        → Removed p (h i) r
        → (rest : Option (ℕ → List ℕ)) → DequeLoop p n (suc i) h rest
        → DequeLoop p (suc n) i h (elim r [ none ↦ rest | some l ↦ some (put_head i l h) ])
    go none r none e = λ j x y. elim (Bool-cases (j == i)) [
      | inl k ↦ subst (λ x. count p (h x) ≡ 0) (sym ((==_iff j i).0 k)) r
      | inr k ↦ e j (ground arith) (omega arith)
    ]
    go none r (some h') e = e
    go (some l) r rest e = λ q. let t = total-put_head q i l h (omega arith) in omega (arith, r q)

-- The state after `deque` of a process, with the queues that it leaves.
abbrev pub stopped : ℕ → (ℕ → List ℕ) → PManager → PManager
stopped p h m = record m { heads = h; procs = put_status p task_stopped m.procs }

-- In a state in order `deque` finds every running process and stops it, and the state that is left
-- is in order: the process is in no queue, and the places of all the others are as many as before.
pub deque-done :
    (p : ℕ) (m : PManager)
    → IsState m
    → (m.procs p).status ≡ task_running
    → (h : ℕ → List ℕ) × ((deque p m ≡ done (stopped p h m)) × IsState (stopped p h m))
unfolding deque dequeued
deque-done p m s e =
    rw (e, deque)
      (removed (deque_loop p nr_level 0 m.heads) (deque_loop-DequeLoop p 4 0 m.heads (omega arith)))
  where
    removed :
        (r : Option (ℕ → List ℕ))
        → DequeLoop p 4 0 m.heads r
        → (h : ℕ → List ℕ) × ((dequeued p m r ≡ done (stopped p h m)) × IsState (stopped p h m))
    removed none d =
        let u : total p m.heads ≡ 1 = subst (λ st. total p m.heads ≡ due st) e (s p) in
        let z = d 0 (omega arith) (omega arith) in
        let o = d 1 (omega arith) (omega arith) in
        let t = d 2 (omega arith) (omega arith) in
        let r = d 3 (omega arith) (omega arith) in absurd (omega arith)
    removed (some h) d = (
      h,
      (
        refl,
        change-IsState p task_stopped m (stopped p h m) s refl (λ q. rw e (ground (arith, d q))),
      ),
    )

-- The level `enque` appends at.
abbrev pub target : ℕ → ℕ → PManager → ℕ
target p level m = if level == 0 then (m.procs p).prior else level

-- Appending a stopped process at its level is what `enque` does, and leaves the state in order.
pub enque-append :
    (p level : ℕ) (m : PManager)
    → IsState m
    → (m.procs p).status ≡ task_stopped
    → target p level m < 4
    → (enque p level m ≡ done (append p (target p level m) m))
      × IsState (append p (target p level m) m)
unfolding enque enque_stopped enque_at
enque-append p level m s e b = (
  rw (e, enque) (at_target (Bool-cases (level == 0))),
  append-IsState p (target p level m) m s b e,
)
  where
    at_target :
        ((level == 0) ≡ true) ⊎ ((level == 0) ≡ false)
        → enque_stopped p level m ≡ done (append p (target p level m) m)
    at_target (inl z) = let l : ltb (m.procs p).prior 4 ≡ true = ground arith in rw (z, l) refl
    at_target (inr z) =
        let l : ltb level 4 ≡ true = ground arith in
        let g : ltb 4 level ≡ false = ground arith in rw (z, g, l) refl

-- The state `m'` is `m` with the process `p` running, at the end of the queue of `level`.
abbrev pub Appended : (p level : ℕ) → PManager → PManager → Type 0
Appended p level m m' =
    (m'.heads level ≡ m.heads level ++ (p ∷ []))
    × ((j : ℕ) → j ≢ level → m'.heads j ≡ m.heads j)
    × ((m'.procs p).status ≡ task_running)
    × ((m'.procs p).prior ≡ (m.procs p).prior)
    × ((q : ℕ) → q ≢ p → m'.procs q ≡ m.procs q)
    × (m'.current ≡ m.current)

pub append-Appended : (p level : ℕ) (m : PManager) → Appended p level m (append p level m)
unfolding append
append-Appended p level m =
    let u : (p == p) ≡ true = ground arith in
    let v : (level == level) ≡ true = ground arith in
    (
      rw v refl,
      λ j n. let e : (j == level) ≡ false = ground arith in rw e refl,
      rw u refl,
      rw u refl,
      λ q n. let e : (q == p) ≡ false = ground arith in rw e refl,
      refl,
    )

-- In a state in order, a stopped process is appended to the queue of its level, its own level for the level 0, where
-- that level is one of the four: it runs at the end of that queue, the other queues and processes are as they were,
-- and the state stays in order.
pub enque-appends :
    (p level : ℕ) (m : PManager)
    → IsState m
    → (m.procs p).status ≡ task_stopped
    → target p level m < 4
    → (m' : PManager) × ((enque p level m ≡ done m')
        × IsState m'
        × Appended p (target p level m) m m')
enque-appends p level m s e b =
    let (x, y) = enque-append p level m s e b in
    (append p (target p level m) m, (x, y, append-Appended p (target p level m) m))
