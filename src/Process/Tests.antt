-- ===== src/Process/Tests.antt =====
-- A small table of processes, and the theorems on the run queues at it.
use own_os.Prelude.{ℕ, ◌≡◌, refl, true, false, List, [], ◌∷◌, ◌==◌, if◌then◌else◌, arith}
use own_os.Process.{
  Proc, PManager, task_running, task_stopped, task_init, done, past_array, enque, deque, Status,
}
use own_os.Process.Queues.{IsState, stopped, deque-done, enque-appends, count, target, Appended}

abbrev proc : ℕ → ℕ → Status → Proc
proc id prior s = record {
  is_free = false;
  id = id;
  prior = prior;
  status = s;
  ret_from = 0x5000;
  cr3 = 0x9000;
}

-- Process 0 runs at level 1, process 1 at level 2, and process 2 is stopped.
abbrev table : ℕ → Proc
table i =
    if i == 0
    then proc 1 2 task_running
    else (if i == 1
        then proc 100 2 task_running
        else (if i == 2
            then proc 101 2 task_stopped
            else record (proc 0 2 task_init) { is_free = true }))

abbrev pub queues : ℕ → List ℕ
queues i = if i == 1 then 0 ∷ [] else (if i == 2 then 1 ∷ [] else [])

abbrev pub small : PManager
small = record { procs = table; heads = queues; quantum = λ i. i; current = 1; prev = 0 }

pub small-IsState : IsState small
unfolding count
small-IsState q = ground arith

deque-done_example :
    (h : ℕ → List ℕ) × ((deque 1 small ≡ done (stopped 1 h small)) × IsState (stopped 1 h small))
deque-done_example = deque-done 1 small small-IsState refl

enque-appends_example :
    (m' : PManager) × ((enque 2 0 small ≡ done m')
      × IsState m'
      × Appended 2 (target 2 0 small) small m')
enque-appends_example = enque-appends 2 0 small small-IsState refl (omega arith)

-- The level 4 is let through, one behind the last.
enque-runs : enque 2 4 small ≡ past_array
unfolding enque
enque-runs = refl
