-- ===== src/Fork/Init/Ready.antt =====
-- The state that `init_tasks` begins the first task in.
use own_os.Prelude.{
  ℕ, ◌≡◌, ◌∙◌, refl, ap, true, false, Option, some, [], ◌∷◌, ◌==◌, arith, Bool-cases, inl, inr,
  ==_iff,
}
use own_os.Process.{Proc, PManager, task_stopped, task_running, enque, append, get_proc, find_loop}
use own_os.Process.Queues.{IsState, count, enque-append}
use own_os.Prelude.Int.{pos}
use own_os.Timer.{reset_quantum}
use own_os.VarMem.Enable.{Always}
use own_os.Fork.Init.Make.{IsMade, make_sys_proc-Adds}
use own_os.Fork.Init.{Start, first_pid}
use own_os.Fork.{World, alloc_proc, get_loop}
use own_os.Fork.Table.{IsOrdered}
use own_os.Fork.Init.{
  new_proc, new_manager, begins, begin_tasks, begin_made, make_kernel, init_tasks, numbered,
  begin_first, begin_at,
}

-- The two processes of the system are made, in the rooms 0 and 1, and nothing else.
abbrev IsBare : {F : Type 0} → (a : ℕ) → World F → Type 0
IsBare a w =
    let procs = w.kernel.manager.procs in
    IsMade (procs 0)
    × IsMade (procs 1)
    × ((q : ℕ) → (q == 0) ≡ false → (q == 1) ≡ false → procs q ≡ new_proc a)
    × (w.kernel.manager.heads ≡ (λ i. []))
    × (w.num ≡ 100)

-- The first task runs as process 1, in the room 0, and `PID_KERNEL` names the process in the room 1, which is
-- stopped; the state is in order.
abbrev pub IsReady : {F : Type 0} → World F → Type 0
IsReady w =
    let m = w.kernel.manager in
    IsOrdered w
    × (m.current ≡ 0)
    × (get_proc 1 m ≡ some 0)
    × (get_proc 0xffffffff m ≡ some 1)
    × ((m.procs 0).status ≡ task_running)
    × ((m.procs 1).status ≡ task_stopped)
    × (m.heads 1 ≡ 0 ∷ [])

-- The two processes, with their numbers, before the first one is put in its queue.
abbrev IsPair : (a : ℕ) → PManager → Type 0
IsPair a m =
    (IsMade (m.procs 0) × IsMade (m.procs 1))
    × ((m.procs 0).id ≡ 1)
    × ((m.procs 1).id ≡ 0xffffffff)
    × ((q : ℕ) → (q == 0) ≡ false → (q == 1) ≡ false → m.procs q ≡ new_proc a)
    × (m.heads ≡ (λ i. []))

numbered-IsPair :
    {F : Type 0} (a : ℕ) (w : World F) → IsBare a w → IsPair a (numbered 0 1 w).kernel.manager
numbered-IsPair a w (x, y, o, h, n) = ((x, y), refl, refl, λ q e g. rw (e, g) (o q e g), h)

IsPair-IsState : (a : ℕ) (m : PManager) → IsPair a m → IsState m
unfolding count
IsPair-IsState a m (((_, s, _), (_, t, _)), _, _, o, h) q = elim (Bool-cases (q == 0)) [
  | inl e ↦ let k : q ≡ 0 = (==_iff q 0).0 e in rw (k, h, s) refl
  | inr e ↦ elim (Bool-cases (q == 1)) [
    | inl g ↦ let k : q ≡ 1 = (==_iff q 1).0 g in rw (k, h, t) refl
    | inr g ↦ rw (h, o q e g) refl
  ]
]

begun-IsReady :
    {F : Type 0} (a : ℕ) (m : PManager) (w : World F)
    → IsPair a m
    → IsState (append 0 1 m)
    → w.kernel.manager ≡ record (append 0 1 m) { current = 0 }
    → w.num ≡ 100
    → IsReady w
unfolding append get_proc find_loop
begun-IsReady a m w (((f0, s0, _), (f1, s1, _)), i0, i1, o, h) s e n = (
  (
    rw e s,
    λ q x. elim (Bool-cases (q == 0)) [
      | inl c ↦
          let k : q ≡ 0 = (==_iff q 0).0 c in
          let z : (m.procs 0).is_free ≡ true = rw (e, k) at x in absurd cc
      | inr c ↦ elim (Bool-cases (q == 1)) [
        | inl d ↦
            let k : q ≡ 1 = (==_iff q 1).0 d in
            let z : (m.procs 1).is_free ≡ true = rw (e, k) at x in absurd cc
        | inr d ↦ rw (e, c, o q c d) refl
      ]
    ],
    λ q x. elim (Bool-cases (q == 0)) [
      | inl c ↦ let k : q ≡ 0 = (==_iff q 0).0 c in rw (e, k, n, i0) (inl (omega arith))
      | inr c ↦ elim (Bool-cases (q == 1)) [
        | inl d ↦ let k : q ≡ 1 = (==_iff q 1).0 d in rw (e, k, i1) (inr refl)
        | inr d ↦ let z : true ≡ false = rw (e, c, o q c d) at x in absurd cc
      ]
    ],
  ),
  rw e refl,
  rw (e, f0, i0) refl,
  rw (e, f0, i0, f1, i1) refl,
  rw e refl,
  rw e s1,
  rw (e, h) refl,
)

begin_first-IsReady :
    {F : Type 0} (a t : ℕ) (w : World F)
    → w.num ≡ 100
    → IsPair a w.kernel.manager
    → (start : Start) × (w' : World F) × ((begin_first t 0 w (enque 0 0 w.kernel.manager)
          ≡ begins start w')
        × IsReady w')
unfolding begin_first begin_at
begin_first-IsReady a t w n p =
    let m = w.kernel.manager in
    let ((_, s, l), _) = p.0 in
    let (e, s') = enque-append 0 0 m (IsPair-IsState a m p) s (rw l (omega arith)) in
    let r = rw l at e in
    let v = rw l at s' in
    let w' = record w {
      kernel = record (w.kernel) {
        manager = record (append 0 1 m) { current = 0 };
        timer = reset_quantum (pos ((append 0 1 m).quantum 0)) 1 w.kernel.timer;
      };
    } in
    (_, w', (ap (begin_first t 0 w) r, begun-IsReady a m w' p v refl n))

first_room : (procs : ℕ → Proc) → (procs 0).is_free ≡ true → alloc_proc procs ≡ some 0
unfolding alloc_proc get_loop
first_room procs h = rw h refl

second_room :
    (procs : ℕ → Proc)
    → (procs 0).is_free ≡ false
    → (procs 1).is_free ≡ true
    → alloc_proc procs ≡ some 1
unfolding alloc_proc get_loop
second_room procs h g = rw (h, g) refl

module _ {F : Type 0} (alloc_chunk : F → Option (ℕ × F)) (always : Always alloc_chunk)
    (kernel2user mem_size kpdir first_task a : ℕ) where
  -- From a world in which no process has been made, and with an allocator that always gives a frame, `init_tasks`
  -- begins the first task: in a state in order, in which the two processes of the system have their numbers.
  pub init_tasks-IsReady :
      (w : World F)
      → w.kernel.manager ≡ new_manager a
      → w.num ≡ first_pid
      → (start : Start) × (w' : World F) × ((init_tasks alloc_chunk kernel2user mem_size kpdir
              first_task w
            ≡ begins start w')
          × IsReady w')
  unfolding init_tasks make_kernel begin_made begin_tasks
  init_tasks-IsReady w m n =
      let (w1, (e, ((f, s, l), o, h, k))) =
        make_sys_proc-Adds alloc_chunk always kernel2user mem_size kpdir 0 w
          (first_room w.kernel.manager.procs (rw m refl)) in
      let (w2, (e', (p1, o', h', k'))) =
        make_sys_proc-Adds alloc_chunk always kernel2user mem_size kpdir 1 w1
          (second_room w1.kernel.manager.procs f (rw (o 1 refl) (rw m refl))) in
      let bare : IsBare a w2 = (
        (rw (o' 0 refl) (f, s, l)),
        p1,
        λ q x y. o' q y ∙ o q x ∙ ap (λ m. m.procs q) m,
        h' ∙ h ∙ ap (λ m. m.heads) m,
        k' ∙ k ∙ n,
      ) in
      let (start, w', (r, ready)) =
        begin_first-IsReady a first_task (numbered 0 1 w2) bare.4 (numbered-IsPair a w2 bare) in
      (start, w', (rw (init_tasks, e, e') r, ready))
