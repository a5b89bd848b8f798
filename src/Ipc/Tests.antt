-- ===== src/Ipc/Tests.antt =====
-- Messages between two processes.
use own_os.Prelude.{◌≡◌, refl, arith, [], ◌∷◌, true, false, some}
use own_os.Process.{get_proc}
use own_os.Process.Tests.{small}
use own_os.Task.{Kernel, wake_up}
use own_os.Timer
use own_os.Que.{Que, init, get, enque, deque}
use own_os.Que.Order.{Holds, enque-Holds}
use own_os.Que.Full.{init-Holds}
use own_os.Que.Take.{taken}
use own_os.Ipc.{Message, Mail, Entry, my_id, send, recv, panics, notify, same_irq}
use own_os.Ipc.Deliver.{Sent, send-Sent, recv_any-panics, notify-wakes}

abbrev kernel : Kernel
kernel = record { manager = small; timer = own_os.Timer.init; sched_req = false }

abbrev invalid : Message
invalid = record { id = 0; kind = 0; is_valid = false; p1 = 0; p2 = 0; p3 = 0 }

abbrev empty : Que Message
empty = init 32 invalid (λ i. 0) (λ i. invalid)

abbrev hello : Message
hello = record { id = 0; kind = 1; is_valid = true; p1 = 3; p2 = 0; p3 = 0 }

abbrev mail : Mail
mail = record { kernel = kernel; recv_q = λ p. empty; send_q = λ p. empty; any_q = λ p. empty }

send-Sent_example : Sent 100 1 (record hello { id = my_id mail }) [] mail (send 100 hello mail)
unfolding get_proc
send-Sent_example =
    send-Sent 100 1 hello mail [] refl (init-Holds 32 invalid (λ i. 0) (λ i. invalid)) (omega arith)

-- A message waits in every queue.
abbrev waiting : Mail
waiting = record mail { send_q = λ p. enque 32 hello empty }

hello_waits : (deque 32 (enque 32 hello empty)).0.is_valid ≡ true
unfolding deque enque init get
hello_waits = refl

recv_any-panics_example : recv 0x1000 5 hello waiting ≡ panics
unfolding get_proc
recv_any-panics_example = recv_any-panics 0x1000 hello waiting refl hello_waits

abbrev no_entry : Que Entry
no_entry = init 64 (record { irq = 0; pid = 0 }) (λ i. 0) (λ i. record { irq = 0; pid = 0 })

abbrev disk : Entry
disk = record { irq = 14; pid = 100 }

disk-Holds : Holds 64 (enque 64 disk no_entry) (disk ∷ [])
disk-Holds = enque-Holds 64 disk no_entry [] (init-Holds 64 _ _ _) (omega arith)

disk_taken : taken same_irq (record { irq = 14; pid = 0 }) (disk ∷ []) ≡ some (disk, [])
unfolding taken
disk_taken = refl

disk_wakes :
    ((notify 14 kernel (enque 64 disk no_entry)).0 ≡ wake_up 100 kernel)
    × Holds 64 (notify 14 kernel (enque 64 disk no_entry)).1 []
disk_wakes =
    notify-wakes 14 kernel (enque 64 disk no_entry) (disk ∷ []) [] disk disk-Holds disk_taken
      (λ e. omega arith)
