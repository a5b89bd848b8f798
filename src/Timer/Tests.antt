-- ===== src/Timer/Tests.antt =====
-- Runs of the timers, and their theorems at concrete lists.
use own_os.Prelude.{ℕ, ◌+◌, ◌%◌, ◌≡◌, refl, true, false, List, [], ◌∷◌, arith, ◌||◌}
use own_os.Prelude.Int.{pos, negsuc, ◌-ℤ◌}
use own_os.Prelude.Words.{u8_mod}
use own_os.Timer.{
  Timer, Entry, entry, init, set, pass, reset_quantum, timer_handler, task_switch, wakeup,
  watch_dog, interval,
}
use own_os.Timer.Sorted.{
  IsSorted, set-IsSorted, reset_quantum-IsSorted, task_switches, task_switches-reset_quantum,
}
use own_os.Timer.Handler.{
  running, quantum_due, wakes, timer_handler_lem, timer_handler-second, ticks,
}

abbrev three : List Entry
three = entry (pos 1) wakeup 7 ∷ entry (pos 1) task_switch 2 ∷ entry (pos 5) wakeup 9 ∷ []

abbrev clock : Timer
clock = record { head = three; quantum_exceeded = false; msecond = 250; second = 3 }

-- The kernel is the list of the tasks that were woken, the last one first.
abbrev note : ℕ → List ℕ → List ℕ
note id log = id ∷ log

three-IsSorted : IsSorted three
three-IsSorted = ((ground arith, (ground arith, tt)), ((ground arith, tt), (tt, tt)))

-- `set` builds the list of the test.
clock-set :
    (set (pos 5) wakeup 9 (set (pos 1) task_switch 2 (set (pos 1) wakeup 7 init))).head
    ≡ entry (pos 1) wakeup 7 ∷ entry (pos 1) task_switch 2 ∷ entry (pos 5) wakeup 9 ∷ []
unfolding set init
clock-set = refl

timer_handler_lem_example : timer_handler note clock [] ≡ (
  record clock {
    head = running (pass 1 three);
    quantum_exceeded = false || quantum_due (pass 1 three);
    msecond = (250 + interval) % u8_mod;
  },
  wakes note (pass 1 three) [],
)
timer_handler_lem_example = timer_handler_lem note clock [] three-IsSorted

-- What the right-hand side comes to.
timer_handler-runs : timer_handler note clock [] ≡ (
  record { head = entry (pos 4) wakeup 9 ∷ []; quantum_exceeded = true; msecond = 4; second = 3 },
  7 ∷ [],
)
unfolding timer_handler ◌-ℤ◌
timer_handler-runs = refl

timer_handler-second_example : (ticks note 100 clock []).0.second ≡ 3
timer_handler-second_example = timer_handler-second note 100 clock []

reset_quantum-IsSorted_run : IsSorted (reset_quantum (pos 3) 4 clock).head
reset_quantum-IsSorted_run = reset_quantum-IsSorted clock three-IsSorted (pos 3) 4

task_switches-reset_quantum_run : task_switches (reset_quantum (pos 3) 4 clock).head ≡ 1
task_switches-reset_quantum_run = task_switches-reset_quantum (pos 3) 4 clock

set-IsSorted_run : IsSorted (set (negsuc 0) watch_dog 4 clock).head
set-IsSorted_run = set-IsSorted clock three-IsSorted (negsuc 0) watch_dog 4
