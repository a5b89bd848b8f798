-- ===== src/Timer.antt =====
-- kernel/Timer.cpp, include/os/Timer.h and kernel/timerHandler.cpp: the list of timers, and the
-- handler of the timer interrupt. A node is reached from the list alone, so the list is a `List` of
-- entries. `kmalloc` panics where it has no memory, so the test for NULL in `set` never holds.
pub mod Sorted
pub mod Handler
mod Tests
use own_os.Prelude.{ℕ, ◌+◌, ◌%◌, Bool, true, false, List, [], ◌∷◌, map, ltb, if◌then◌else◌}
use own_os.Prelude.Int.{ℤ, pos, ◌-ℤ◌, ltb_ℤ}
use own_os.Prelude.Words.{u8_mod, u32_mod}

pub data TimerType : Type 0 where
  invalid watch_dog task_switch wakeup : TimerType

pub record Entry : Type 0 where
  pub clocks : ℤ
  pub type : TimerType
  pub pr_id : ℕ

abbrev pub entry : ℤ → TimerType → ℕ → Entry
entry c t p = record { clocks = c; type = t; pr_id = p }

pub record Timer : Type 0 where
  pub head : List Entry
  pub quantum_exceeded : Bool
  pub msecond : ℕ
  pub second : ℕ

-- The constructor.
pub init : Timer
init = record { head = []; quantum_exceeded = false; msecond = 0; second = 0 }

-- The walk of `set`: in front of the first timer with more clocks left.
pub place : Entry → List Entry → List Entry
place e [] = e ∷ []
place e (p ∷ ps) = if ltb_ℤ e.clocks p.clocks then e ∷ p ∷ ps else p ∷ place e ps

pub set : ℤ → TimerType → ℕ → Timer → Timer
unfolding place
set clocks t pr_id timer = record timer { head = place (entry clocks t pr_id) timer.head }

-- The loop of `passClocks`.
pub pass : ℕ → List Entry → List Entry
pass n [] = []
pass n (p ∷ ps) = record p { clocks = p.clocks -ℤ pos n } ∷ pass n ps

pub pass_clocks : ℕ → Timer → Timer
unfolding pass
pass_clocks n timer = record timer { head = pass n timer.head }

abbrev pub is_task_switch : TimerType → Bool
is_task_switch task_switch = true
is_task_switch _ = false

-- The loop of `reset_quantum`.
pub drop_task_switch : List Entry → List Entry
drop_task_switch [] = []
drop_task_switch (p ∷ ps) =
    let rest = drop_task_switch ps in if is_task_switch p.type then rest else p ∷ rest

pub reset_quantum : ℤ → ℕ → Timer → Timer
unfolding drop_task_switch set
reset_quantum clocks pr_id timer =
    set clocks task_switch pr_id (record timer { head = drop_task_switch timer.head })

abbrev pub interval : ℕ
interval = 10

-- `msecond` is a byte.
pub count_time : Timer → Timer
count_time timer =
    let m = (timer.msecond + interval) % u8_mod in
    if ltb 1000 m
    then record timer { second = (timer.second + 1) % u32_mod; msecond = 0 }
    else record timer { msecond = m }

-- `wakeup` of kernel/task.cpp acts on the rest of the kernel, `P`.
module _ {P : Type 0} (wake : ℕ → P → P) where
  -- The case distinction of `timerHandler` on an expired timer.
  abbrev pub fire : Entry → Timer → P → Timer × P
  fire p timer k = elim (p.type) [
    | invalid ↦ (timer, k)
    | watch_dog ↦ (timer, k)
    | task_switch ↦ (record timer { quantum_exceeded = true }, k)
    | wakeup ↦ (timer, wake p.pr_id k)
  ]

  -- The loop of `timerHandler`, which frees the timers it passes.
  pub expire : List Entry → Timer → P → Timer × P
  expire [] timer k = (record timer { head = [] }, k)
  expire (p ∷ ps) timer k =
      let (timer', k') = fire p timer k in
      let rest = expire ps timer' k' in
      if ltb_ℤ (pos 0) p.clocks then (record timer { head = p ∷ ps }, k) else rest

  pub timer_handler : Timer → P → Timer × P
  unfolding count_time pass_clocks expire
  timer_handler timer k = let timer = pass_clocks 1 (count_time timer) in expire timer.head timer k
