-- ===== src/Task/Sleep.antt =====
-- Putting a process to sleep and waking it.
use own_os.Prelude.{
  none, ℕ, zero, suc, ◌/◌, ◌<◌, ◌≡◌, ◌∙◌, refl, sym, ap, true, some, ltb, ◌==◌, if◌then◌else◌,
  arith, Bool-cases, inl, inr,
}
use own_os.Process.{
  Status, Proc, PManager, put_status, append, enque, deque, get_proc, find_loop, task_running,
  task_stopped, done,
}
use own_os.Process.Queues.{
  IsState, total, due, stopped, deque-done, enque-append, Appended, append-Appended,
}
use own_os.Prelude.Int.{pos}
use own_os.Timer.{set, interval, wakeup}
use own_os.Task.{failed, Kernel, returned, settle, sleep, wake_up, reschedule}

-- The lookup reads neither the status nor the queues.
pub find_loop-put_status :
    (id p : ℕ) (s : Status) (n i : ℕ) (procs : ℕ → Proc)
    → find_loop id n i (put_status p s procs) ≡ find_loop id n i procs
unfolding find_loop
find_loop-put_status id p s zero i procs = refl
find_loop-put_status id p s (suc n) i procs = elim (Bool-cases (i == p)) [
  | inl h ↦ rw (h, find_loop-put_status id p s n (suc i) procs) refl
  | inr h ↦ rw (h, find_loop-put_status id p s n (suc i) procs) refl
]

-- The state `k'` after process `p` has gone to sleep in the state `k`.
abbrev pub Slept : ℕ → Kernel → Kernel → Type 0
Slept p k k' =
    IsState k'.manager
    × ((k'.manager.procs p).status ≡ task_stopped)
    × ((k'.manager.procs p).prior ≡ (k.manager.procs p).prior)
    × (total p k'.manager.heads ≡ 0)
    × ((pid : ℕ) → get_proc pid k'.manager ≡ get_proc pid k.manager)
    × (k'.sched_req ≡ true)

-- The kernel that `sleep` returns with after `deque` has left the state `m`.
abbrev slept : ℕ → ℕ → Kernel → PManager → Kernel
slept p millisec k m = reschedule (record k {
  manager = m;
  timer =
      if ltb 0 millisec
      then set (pos (millisec / interval)) wakeup (m.procs p).id k.timer
      else k.timer;
})

sleep-done :
    (pid p millisec : ℕ) (k : Kernel) (m : PManager)
    → get_proc pid k.manager ≡ some p
    → deque p k.manager ≡ done m
    → sleep pid millisec k ≡ returned (slept p millisec k m)
unfolding sleep settle
sleep-done pid p millisec k m f d = rw (f, sleep) (rw (d, settle) refl)

-- `sleep` of a running process returns; the process is stopped, at its level and in no queue, the
-- state stays in order, every number still names the same process, and a switch is asked for.
pub sleep-Slept :
    (pid p millisec : ℕ) (k : Kernel)
    → IsState k.manager
    → get_proc pid k.manager ≡ some p
    → (k.manager.procs p).status ≡ task_running
    → (k' : Kernel) × ((sleep pid millisec k ≡ returned k') × Slept p k k')
unfolding reschedule get_proc
sleep-Slept pid p millisec k s f r =
    let (h, (d, t)) = deque-done p k.manager s r in
    let e : (p == p) ≡ true = ground arith in
    let x : (put_status p task_stopped k.manager.procs p).status ≡ task_stopped = rw e refl in
    (
      slept p millisec k (stopped p h k.manager),
      (
        sleep-done pid p millisec k (stopped p h k.manager) f d,
        (
          t,
          x,
          rw e refl,
          t p ∙ ap due x,
          λ id. find_loop-put_status id p task_stopped 32 0 k.manager.procs,
          refl,
        ),
      ),
    )

wake_up-done :
    (pid p : ℕ) (k : Kernel) (m : PManager)
    → get_proc pid k.manager ≡ some p
    → enque p 0 k.manager ≡ done m
    → wake_up pid k ≡ returned (reschedule (record k { manager = m }))
unfolding wake_up settle
wake_up-done pid p k m f d = rw (f, wake_up) (rw (d, settle) refl)

-- Waking a stopped process at one of the four levels appends it there and asks for a switch.
pub wake_up-appends :
    (pid p : ℕ) (k : Kernel)
    → IsState k.manager
    → get_proc pid k.manager ≡ some p
    → (k.manager.procs p).status ≡ task_stopped
    → (k.manager.procs p).prior < 4
    → (k' : Kernel) × ((wake_up pid k ≡ returned k')
        × (k'.manager ≡ append p (k.manager.procs p).prior k.manager)
        × IsState k'.manager
        × (k'.sched_req ≡ true))
unfolding reschedule
wake_up-appends pid p k s f t b =
    let (x, y) = enque-append p 0 k.manager s t b in
    (
      reschedule (record k { manager = append p (k.manager.procs p).prior k.manager }),
      (wake_up-done pid p k _ f x, refl, y, refl),
    )

-- A running process at one of the four levels that is put to sleep can be woken under its number: both calls
-- return. In between the process is stopped, in no queue and known by its number; afterwards it runs at the end
-- of the queue of its level, the state is in order, and a switch is asked for.
pub wake_up-sleep :
    (pid p millisec : ℕ) (k : Kernel)
    → IsState k.manager
    → get_proc pid k.manager ≡ some p
    → (k.manager.procs p).status ≡ task_running
    → (k.manager.procs p).prior < 4
    → (k' k'' : Kernel) × ((sleep pid millisec k ≡ returned k')
        × Slept p k k'
        × (wake_up pid k' ≡ returned k'')
        × IsState k''.manager
        × Appended p (k.manager.procs p).prior k'.manager k''.manager
        × (k''.sched_req ≡ true))
unfolding reschedule
wake_up-sleep pid p millisec k s f r b =
    let (k', (e, (s', t, pr, z, names, q))) = sleep-Slept pid p millisec k s f r in
    let (x, y) = enque-append p 0 k'.manager s' t (rw pr b) in
    (
      k',
      reschedule (record k' { manager = append p (k'.manager.procs p).prior k'.manager }),
      (
        e,
        (s', t, pr, z, names, q),
        wake_up-done pid p k' _ (names pid ∙ f) x,
        y,
        rw (sym pr) (append-Appended p (k'.manager.procs p).prior k'.manager),
        refl,
      ),
    )

-- Nobody to wake.
pub wake_up-none : (pid : ℕ) (k : Kernel) → get_proc pid k.manager ≡ none → wake_up pid k ≡ failed
unfolding wake_up
wake_up-none pid k e = rw (wake_up, e) refl
