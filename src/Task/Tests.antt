-- ===== src/Task/Tests.antt =====
-- Runs of the scheduler, and its theorems at a small state.
use own_os.Prelude.{◌≡◌, refl, true, [], ◌∷◌, arith}
use own_os.Process.Tests.{small, small-IsState, queues}
use own_os.Process.{get_proc}
use own_os.Process.Queues.{IsState}
use own_os.Task.{Kernel, schedule, sleep, wake_up, returned}
use own_os.Process.Queues.{Appended}
use own_os.Task.Sleep.{Slept, sleep-Slept, wake_up-sleep}
use own_os.Task.Schedule.{Switches, moved, schedule-Switches}
use own_os.Timer

abbrev kernel : Kernel
kernel = record { manager = small; timer = own_os.Timer.init; sched_req = true }

schedule-Switches_example : Switches 0 (moved 0 [] 1 queues) (schedule 0x1000 kernel)
schedule-Switches_example =
    schedule-Switches 0x1000 0 1 [] kernel small-IsState refl (omega arith) (λ j h. ground arith)
      refl

-- Process 0 goes to level 2, behind process 1.
schedule-moves : moved 0 [] 1 queues 2 ≡ 1 ∷ 0 ∷ []
schedule-moves = refl

-- Process 1 has the number 100.
sleep-Slept_run : (k' : Kernel) × ((sleep 100 50 kernel ≡ returned k') × Slept 1 kernel k')
unfolding get_proc
sleep-Slept_run = sleep-Slept 100 1 50 kernel small-IsState refl refl

wake_up-sleep_example :
    (k' k'' : Kernel) × ((sleep 100 50 kernel ≡ returned k')
      × Slept 1 kernel k'
      × (wake_up 100 k' ≡ returned k'')
      × IsState k''.manager
      × Appended 1 2 k'.manager k''.manager
      × (k''.sched_req ≡ true))
unfolding get_proc
wake_up-sleep_example = wake_up-sleep 100 1 50 kernel small-IsState refl refl (omega arith)
