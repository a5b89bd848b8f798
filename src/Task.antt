-- ===== src/Task.antt =====
-- kernel/task.cpp: the scheduler, and the operations that put processes to sleep and wake them. What
-- the scheduler does to the processor is a list of effects. `kernel2user` is the address of that
-- function, which the linker gives. `panic` does not return.
pub mod Schedule
pub mod Sleep
mod Tests
use own_os.Prelude.{
  ℕ, zero, suc, ◌+◌, ◌-◌, ◌/◌, Bool, true, false, ◌||◌, Option, none, some, List, [], ◌∷◌, ltb,
  ◌==◌, if◌then◌else◌,
}
use own_os.Prelude.Int.{ℤ, pos}
use own_os.Process.{
  Proc, PManager, Outcome, put_head, put_status, enque, deque, get_proc, nr_level, task_stopped,
  done, warned, not_found, panic, past_array,
}
use own_os.Timer.{Timer, reset_quantum, set, interval, wakeup}

pub record Kernel : Type 0 where
  pub manager : PManager
  pub timer : Timer
  pub sched_req : Bool

pub data Effect : Type 0 where
  set_frame : ℕ → Effect
  load_cr3 : ℕ → Effect
  swap_esp : ℕ → ℕ → Effect
  call : ℕ → Effect
  ret_to_user : Effect

-- `switched` does not return: its last effect leaves the kernel.
pub data Result : Type 0 where
  returned : Kernel → Result
  switched : Kernel → List Effect → Result
  failed : Result

-- What follows an operation on the queues.
pub settle : Outcome → (PManager → Result) → Result
settle (done m) go = go m
settle (warned m) go = go m
settle (not_found m) go = go m
settle panic go = failed
settle past_array go = failed

abbrev pub next_level : ℕ → ℕ
next_level i = if ltb i (nr_level - 1) then i + 1 else nr_level - 1

abbrev pub put_ret_from : ℕ → ℕ → (ℕ → Proc) → ℕ → Proc
put_ret_from p a procs q = if q == p then record (procs q) { ret_from = a } else procs q

-- `sched_req=timer.quantum_exceeded=false`.
abbrev pub acknowledged : Kernel → Kernel
acknowledged k = record k {
  sched_req = false;
  timer = record (k.timer) { quantum_exceeded = false };
}

module _ (kernel2user : ℕ) where
  -- From the call of `reset_quantum` to the end of `schedule`.
  pub switch_to : ℕ → ℕ → Kernel → PManager → Result
  switch_to p level k m =
      let timer = reset_quantum (pos (m.quantum level)) (m.procs p).id k.timer in
      if p == m.current
      then switched (record k { manager = m; timer = timer }) (ret_to_user ∷ [])
      else switched
          (record k {
            manager = record m {
              current = p;
              prev = m.current;
              procs = put_ret_from p kernel2user m.procs;
            };
            timer = timer;
          })
          (set_frame p
            ∷ load_cr3 (m.procs p).cr3
            ∷ swap_esp m.current p
            ∷ call (m.procs p).ret_from
            ∷ ret_to_user
            ∷ [])

  -- The process at the head of level `i` is taken out and put at the end of the next level.
  pub start : ℕ → List ℕ → ℕ → Kernel → Result
  unfolding settle switch_to
  start p ps i k =
      let m = k.manager in
      let taken = record m {
        procs = put_status p task_stopped m.procs;
        heads = put_head i ps m.heads;
      } in
      settle (enque p (next_level i) taken) (switch_to p (next_level i) k)

  -- The loop of `schedule` over `n` levels from level `i` on.
  pub pick : ℕ → ℕ → Kernel → Result
  unfolding start
  pick zero i k = returned k
  pick (suc n) i k =
      let rest = pick n (suc i) k in
      elim (k.manager.heads i) [ [] ↦ rest | p ∷ ps ↦ start p ps i k ]

  pub schedule : Kernel → Result
  unfolding pick
  schedule k =
      if k.sched_req || k.timer.quantum_exceeded
      then pick nr_level 0 (acknowledged k)
      else returned k

pub reschedule : Kernel → Kernel
reschedule k = record k { sched_req = true }

-- `sleep(pid, millisec)`, with 0 for every number of milliseconds that is not positive.
pub sleep : ℕ → ℕ → Kernel → Result
unfolding settle reschedule
sleep pid millisec k = elim (get_proc pid k.manager) [
  | none ↦ failed
  | some p ↦ settle (deque p k.manager) (λ m. returned (
      reschedule (record k {
        manager = m;
        timer =
            if ltb 0 millisec
            then set (pos (millisec / interval)) wakeup (m.procs p).id k.timer
            else k.timer;
      })))
]

pub wake_up : ℕ → Kernel → Result
unfolding settle reschedule
wake_up pid k = elim (get_proc pid k.manager) [
  | none ↦ failed
  | some p ↦ settle (enque p 0 k.manager) (λ m. returned (reschedule (record k { manager = m })))
]
