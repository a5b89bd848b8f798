-- ===== src/Ipc.antt =====
-- kernel/Ipc.cpp, and the waiting for interrupts of kernel/task.cpp: processes that pass messages
-- through queues, and sleep and wake one another. A process identifier is a word; what is printed is
-- left out.
pub mod Deliver
mod Tests
use own_os.Prelude.{ℕ, Bool, true, false, Option, none, some, ◌==◌, if◌then◌else◌}
use own_os.Que.{Que, assign, enque, deque, deque_same}
use own_os.Process.{get_proc}
use own_os.Task.{Kernel, Result, returned, switched, failed, put_ret_from, sleep, wake_up}

-- The body is the longer one of the union.
pub record Message : Type 0 where
  pub id : ℕ
  pub kind : ℕ
  pub is_valid : Bool
  pub p1 : ℕ
  pub p2 : ℕ
  pub p3 : ℕ

abbrev pub same_sender : Message → Message → Bool
same_sender x y = x.id == y.id

-- `Message(id)`.
abbrev pub message_of : ℕ → Message
message_of id = record { id = id; kind = 0; is_valid = true; p1 = 0; p2 = 0; p3 = 0 }

abbrev pub nr_message : ℕ
nr_message = 32

abbrev pub pid_any : ℕ
pid_any = 5

-- The queues of a process stand under its index in the table.
pub record Mail : Type 0 where
  pub kernel : Kernel
  pub recv_q : ℕ → Que Message
  pub send_q : ℕ → Que Message
  pub any_q : ℕ → Que Message

-- `wild` is an access through a process that does not exist.
pub data Delivery : Type 0 where
  delivered : Mail → Message → Delivery
  panics wild : Delivery

-- What follows a call of `sleep` or `wakeup`.
pub after : Result → Mail → Message → Delivery
after (returned k) s mess = delivered (record s { kernel = k }) mess
after (switched k es) s mess = panics
after failed s mess = panics

-- The number of the process that runs, and its identifier.
abbrev pub myself : Mail → ℕ
myself s = s.kernel.manager.current

abbrev pub my_id : Mail → ℕ
my_id s = (s.kernel.manager.procs (myself s)).id

-- `mess` in the queue of the messages sent to the process `p`.
abbrev pub post : (p : ℕ) → Message → Mail → Mail
post p mess s = record s { send_q = assign p (enque nr_message mess (s.send_q p)) s.send_q }

-- From the queue of the receivers on, where `wanted` is what it gave.
pub send_to : (id p : ℕ) → (wanted mess : Message) → Mail → Delivery
unfolding after
send_to id p wanted mess s =
    let (any, aq) = deque nr_message (s.any_q p) in
    let s' = record s { any_q = assign p aq s.any_q } in
    if wanted.is_valid
    then after (wake_up id s.kernel) (post p mess s) mess
    else (if any.is_valid
        then after (wake_up id s.kernel) (post p mess s') mess
        else after (sleep (my_id s) 0 s.kernel) (post p mess s') mess)

pub send : (id : ℕ) → Message → Mail → Delivery
unfolding send_to
send id mess s =
    let me = myself s in
    let (wanted, rq) = deque_same nr_message same_sender (message_of id) (s.recv_q me) in
    let s' = record s { recv_q = assign me rq s.recv_q } in
    elim (get_proc id s.kernel.manager) [
      | none ↦ wild
      | some p ↦ send_to id p wanted (record mess { id = my_id s }) s'
    ]

-- `sleep(callback)`.
pub sleep_then : (callback : ℕ) → Kernel → Result
sleep_then callback k =
    let m = k.manager in
    let m' = record m { procs = put_ret_from m.current callback m.procs } in
    sleep (m.procs m.current).id 0 (record k { manager = m' })

pub recv_later : Mail → Delivery
recv_later s =
    let me = myself s in
    let (message, sq) = deque nr_message (s.send_q me) in
    if message.is_valid
    then delivered (record s { send_q = assign me sq s.send_q }) message
    else panics

-- `callback` is the address of `recv_later`.
module _ (callback : ℕ) where
  pub recv : (id : ℕ) → Message → Mail → Delivery
  unfolding after sleep_then
  recv id mess s =
      let me = myself s in
      let (first, sq) =
        if id == pid_any
        then deque nr_message (s.send_q me)
        else deque_same nr_message same_sender (message_of id) (s.send_q me) in
      let s1 = record s { send_q = assign me sq s.send_q } in
      if first.is_valid
      then after (wake_up id s.kernel) s1 first
      else (if id == pid_any
          then after (sleep_then callback s.kernel)
              (record s1 { any_q = assign me (enque nr_message mess (s1.any_q me)) s1.any_q }) mess
          else elim (get_proc id s.kernel.manager) [
            | none ↦ wild
            | some p ↦
                after (sleep_then callback s.kernel)
                  (record s1 { recv_q = assign p (enque nr_message mess (s1.recv_q p)) s1.recv_q })
                  mess
          ])

-- A process that waits for an interrupt.
pub record Entry : Type 0 where
  pub irq : ℕ
  pub pid : ℕ

abbrev pub same_irq : Entry → Entry → Bool
same_irq x y = x.irq == y.irq

-- -1 and `PID_INVALID`.
abbrev pub invalid_entry : Entry
invalid_entry = record { irq = 0xffffffff; pid = 0xfffffffe }

abbrev pub nr_waiting : ℕ
nr_waiting = 64

pub wait_interrupt : (irq : ℕ) → Kernel → Que Entry → Result × Que Entry
wait_interrupt irq k q =
    let me = (k.manager.procs k.manager.current).id in
    (sleep me 0 k, enque nr_waiting (record { irq = irq; pid = me }) q)

pub notify : (irq : ℕ) → Kernel → Que Entry → Result × Que Entry
notify irq k q =
    let (e, q') = deque_same nr_waiting same_irq (record { irq = irq; pid = 0 }) q in
    if same_irq e invalid_entry then (returned k, q') else (wake_up e.pid k, q')
