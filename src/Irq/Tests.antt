-- ===== src/Irq/Tests.antt =====
-- The kernel calls of the process 1 of a small table.
use own_os.Prelude.{ℕ, ◌≡◌, ◌⊎◌, refl, Option, none, some, ◌==◌, if◌then◌else◌, arith}
use own_os.Que.{Que, init}
use own_os.Ipc.{Message, message_of}
use own_os.Fork.{alloc_proc}
use own_os.Fork.Tests.{world, world-IsOrdered, frame_at, frame_at-Gives}
use own_os.Elf.{Bytes}
use own_os.Elf.Ident.{IsX86}
use own_os.Fork.{stuck}
use own_os.Fork.Birth.{space_of}
use own_os.Irq.{System, served, panics}
use own_os.Irq.Calls.{called, Twice, kernel_call-Twice}
use own_os.Irq.Exec.{IsLost, kernel_call-IsLost}

abbrev no_messages : Que Message
no_messages = init 32 (message_of 0) (λ i. 0) (λ i. message_of 0)

-- The process 1 calls with the number `nr` and the second argument 1.
abbrev calling : (nr : ℕ) → System ℕ
calling nr = record {
  world = record world { mem = λ a. if a == 0x100fe4 then nr else 1 };
  recv_q = λ p. no_messages;
  send_q = λ p. no_messages;
  any_q = λ p. no_messages;
}

-- Every file is full of zeros.
abbrev zero_files : ℕ → Option Bytes
zero_files name = some (λ o. 0)

zero_files-refused : ¬ IsX86 (λ o. 0)
zero_files-refused (h, t, _) = absurd (omega arith)

-- The call of `fork` in a world whose memory is copied.
abbrev forking : System ℕ
forking = record (calling 3) { world = world }

kernel_call-Twice_example :
    ((space_of frame_at 0x9000 0x1000000 0x1000 forking.world ≡ stuck)
      × (called frame_at 1024 0x9000 0x1000000 0x1000 0x9100 7 zero_files message_of forking
          ≡ panics))
    ⊎ ((s' : System ℕ) × ((called frame_at 1024 0x9000 0x1000000 0x1000 0x9100 7 zero_files
              message_of forking
            ≡ served s' none)
          × Twice 3 102 1 s'.world))
unfolding alloc_proc
kernel_call-Twice_example =
    kernel_call-Twice frame_at 1024 0x9000 0x1000000 0x1000 0x9100 7 zero_files message_of 3 forking
      refl refl (omega arith) world-IsOrdered refl (omega arith) frame_at-Gives
      ((omega arith, omega arith), tt)

kernel_call-IsLost_example :
    (s' : System ℕ) × ((called frame_at 1024 0x9000 0x1000000 0x1000 0x9100 7 zero_files message_of
          (calling 0)
        ≡ served s' none)
      × IsLost frame_at 1024 0x9000 0x1000000 0x1000 0x9100 7 zero_files message_of 1
          (calling 0).world
          s'.world)
kernel_call-IsLost_example =
    kernel_call-IsLost frame_at 1024 0x9000 0x1000000 0x1000 0x9100 7 zero_files message_of
      (calling 0) (λ o. 0) refl refl refl zero_files-refused (omega arith)
