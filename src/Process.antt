-- ===== src/Process.antt =====
-- kernel/Process.cpp and include/os/Process.h: the table of processes and the run queues. A process
-- is named by its index in the table, and the chains through `next` are lists of these indices: a
-- process is appended only while it is stopped, so that it stands in one chain at most.
pub mod Queues
pub mod Tests
use own_os.Prelude.{
  ℕ, zero, suc, ◌+◌, ◌-◌, Bool, true, false, ◌&&◌, ◌||◌, not, Option, none, some, List, [], ◌∷◌,
  ◌++◌, ltb, leb, ◌==◌, if◌then◌else◌,
}

pub data Status : Type 0 where
  task_init task_sleep task_running task_stopped : Status

-- `sp`, `ret_from` and `cr3` are the parts of `kernel_info` and `mm` that the scheduler uses.
pub record Proc : Type 0 where
  pub is_free : Bool
  pub id : ℕ
  pub prior : ℕ
  pub status : Status
  pub ret_from : ℕ
  pub cr3 : ℕ

pub record PManager : Type 0 where
  pub procs : ℕ → Proc
  pub heads : ℕ → List ℕ
  pub quantum : ℕ → ℕ
  pub current : ℕ
  pub prev : ℕ

abbrev pub nr_proc : ℕ
nr_proc = 32

abbrev pub nr_level : ℕ
nr_level = 4

-- What an operation comes to: `past_array` where the source goes on with the word behind `pHead`,
-- `not_found` where it prints that the process is in no queue.
pub data Outcome : Type 0 where
  done warned not_found : PManager → Outcome
  panic past_array : Outcome

abbrev pub put_head : ℕ → List ℕ → (ℕ → List ℕ) → ℕ → List ℕ
put_head i l h j = if j == i then l else h j

abbrev pub put_status : ℕ → Status → (ℕ → Proc) → ℕ → Proc
put_status p s procs q = if q == p then record (procs q) { status = s } else procs q

-- The end of `enque`, at a level of the array.
unfoldable pub append : ℕ → ℕ → PManager → PManager
append p level m = record m {
  heads = put_head level (m.heads level ++ (p ∷ [])) m.heads;
  procs = put_status p task_running m.procs;
}

pub enque_at : ℕ → ℕ → PManager → Outcome
unfolding append
enque_at p level m = if ltb level nr_level then done (append p level m) else past_array

-- The level 0 stands for the process's own; a level above `nr_level` is refused.
pub enque_stopped : ℕ → ℕ → PManager → Outcome
unfolding enque_at
enque_stopped p level m =
    if level == 0
    then enque_at p (m.procs p).prior m
    else (if ltb nr_level level then panic else enque_at p level m)

pub enque : ℕ → ℕ → PManager → Outcome
unfolding enque_stopped
enque p level m = elim (m.procs p).status [
  | task_stopped ↦ enque_stopped p level m
  | task_running ↦ warned m
  | task_init ↦ panic
  | task_sleep ↦ panic
]

-- The walk of `deque` along one queue.
pub remove : ℕ → List ℕ → Option (List ℕ)
remove p [] = none
remove p (q ∷ qs) =
    let rest = remove p qs in
    if q == p then some qs else elim rest [ none ↦ none | some l ↦ some (q ∷ l) ]

-- The loop of `deque` over `n` levels from level `i` on.
pub deque_loop : ℕ → ℕ → ℕ → (ℕ → List ℕ) → Option (ℕ → List ℕ)
unfolding remove
deque_loop p zero i h = none
deque_loop p (suc n) i h =
    let rest = deque_loop p n (suc i) h in
    elim (remove p (h i)) [ none ↦ rest | some l ↦ some (put_head i l h) ]

pub dequeued : ℕ → PManager → Option (ℕ → List ℕ) → Outcome
dequeued p m none = not_found m
dequeued p m (some h) = done (record m { heads = h; procs = put_status p task_stopped m.procs })

pub deque : ℕ → PManager → Outcome
unfolding deque_loop dequeued
deque p m = elim (m.procs p).status [
  | task_running ↦ dequeued p m (deque_loop p nr_level 0 m.heads)
  | task_stopped ↦ warned m
  | task_init ↦ panic
  | task_sleep ↦ panic
]

-- `ProcL.findProc` over `n` rooms from room `i` on.
unfoldable pub find_loop : ℕ → ℕ → ℕ → (ℕ → Proc) → Option ℕ
find_loop id zero i procs = none
find_loop id (suc n) i procs =
    let rest = find_loop id n (suc i) procs in
    if not (procs i).is_free && ((procs i).id == id) then some i else rest

unfoldable pub get_proc : ℕ → PManager → Option ℕ
unfolding find_loop
get_proc id m = find_loop id nr_proc 0 m.procs
