-- ===== src/Irq.antt =====
-- kernel/irq.cpp: the kernel calls, which reach the loader, the messages and `fork`. A call comes from a process
-- outside of the kernel, so that its registers stand at the top of its kernel stack. The opening of a file is the
-- parameter `fopen`, by the address of its name, and `message` reads a message at an address; `left` is the value
-- that a call of `exec` leaves, which ends without one. The printing of the calls and faults is left out.
pub mod Calls
pub mod Exec
mod Tests
use own_os.Prelude.{
  ℕ, zero, suc, ◌+◌, ◌-◌, ◌*◌, ◌%◌, Bool, true, false, Option, none, some, List, [], ◌∷◌, ◌==◌,
  if◌then◌else◌,
}
use own_os.Prelude.Memory.{write}
use own_os.Que.{Que}
use own_os.Ipc.{Message, Mail, Delivery, delivered, send, recv}
use own_os.Fork.{World, Forked, forked, fork, regs_of, ax_word}
use own_os.Elf.{Bytes, Loading, refused, loaded, exec}

pub record System (F : Type 0) : Type 0 where
  pub world : World F
  pub recv_q : ℕ → Que Message
  pub send_q : ℕ → Que Message
  pub any_q : ℕ → Que Message

abbrev pub mail_of : {F : Type 0} → System F → Mail
mail_of s = record {
  kernel = s.world.kernel;
  recv_q = s.recv_q;
  send_q = s.send_q;
  any_q = s.any_q;
}

abbrev pub put_mail : {F : Type 0} → Mail → System F → System F
put_mail m s = record {
  world = record (s.world) { kernel = m.kernel };
  recv_q = m.recv_q;
  send_q = m.send_q;
  any_q = m.any_q;
}

-- The places of registers.
abbrev pub bx_word : ℕ
bx_word = 8

abbrev pub cx_word : ℕ
cx_word = 10

abbrev pub cs_word : ℕ
cs_word = 13

abbrev pub sp_word : ℕ
sp_word = 15

abbrev pub nr_k_exec : ℕ
nr_k_exec = 0

abbrev pub nr_k_send : ℕ
nr_k_send = 1

abbrev pub nr_k_recv : ℕ
nr_k_recv = 2

abbrev pub nr_k_fork : ℕ
nr_k_fork = 3

abbrev pub priv_user : ℕ
priv_user = 1

abbrev pub user_stack_end : ℕ
user_stack_end = 0x80000000

-- The registers of the process that runs.
abbrev pub regs : {F : Type 0} → World F → ℕ
regs w = regs_of w.kernel.manager.current w

abbrev pub reg : {F : Type 0} → ℕ → World F → ℕ
reg i w = w.mem (regs w + 4 * i)

abbrev pub put_reg : {F : Type 0} → (at i v : ℕ) → World F → World F
put_reg at i v w = record w { mem = write (at + 4 * i) v w.mem }

-- The registers of a program that begins in user mode: gs to ds and ss, cs, and sp.
pub user_regs : {F : Type 0} → (at : ℕ) → World F → World F
user_regs at w = put_reg at sp_word (user_stack_end - 0x10) (
    put_reg at cs_word (0x28 + 3) (
      put_reg at 0 (0x30 + 3) (
        put_reg at 1 (0x30 + 3)
          (put_reg at 2 (0x30 + 3) (put_reg at 3 (0x30 + 3) (put_reg at 16 (0x30 + 3) w))))))

-- What follows the call of `exec`.
pub after_load : {F : Type 0} → (at pri left : ℕ) → World F → World F
unfolding user_regs
after_load at pri left w = put_reg at ax_word left (if pri == priv_user then user_regs at w else w)

-- `served` has the message that stands at its address after the call; `wild` is an access through a file or a
-- process that does not exist.
pub data Called (F : Type 0) : Type 0 where
  served : System F → Option Message → Called F
  panics wild unfinished : Called F

abbrev pub put_world : {F : Type 0} → World F → System F → System F
put_world w s = record s { world = w }

pub executed : {F : Type 0} → (pri left : ℕ) → Loading F → System F → Called F
unfolding after_load
executed pri left refused s = served (put_world (after_load (regs s.world) pri left s.world) s) none
executed pri left Loading.panics s = panics
executed pri left (loaded w calls) s =
    served (put_world (after_load (regs s.world) pri left w) s) none

pub posted : {F : Type 0} → Delivery → System F → Called F
posted (delivered m mess) s = served (put_mail m s) (some mess)
posted Delivery.panics s = panics
posted Delivery.wild s = wild

-- The number of the child is the answer of its parent.
pub parted : {F : Type 0} → Forked F → System F → Called F
parted (forked pid w) s = served (put_world (put_reg (regs s.world) ax_word pid w) s) none
parted Forked.panics s = panics
parted Forked.wild s = wild
parted Forked.unfinished s = unfinished

module _ {F : Type 0} (alloc_chunk : F → Option (ℕ × F))
    (block_size child_starts mem_size kpdir recv_later left : ℕ) (fopen : ℕ → Option Bytes)
    (message : ℕ → Message) where
  pub call_exec : (name pri : ℕ) → System F → Called F
  unfolding executed
  call_exec name pri s = elim (fopen name) [
    | none ↦ wild
    | some file ↦
        let (r, success) = exec alloc_chunk block_size left file s.world in
        executed pri (if success == 0 then 0 else 1) r s
  ]

  -- The message at the address of an argument, with the number of the process that runs.
  abbrev pub signed : (address : ℕ) → System F → Message
  signed address s = record (message address) {
    id = (s.world.kernel.manager.procs s.world.kernel.manager.current).id;
  }

  -- The call number `nr` with its first two arguments.
  pub dispatch : (nr a b : ℕ) → System F → Called F
  unfolding call_exec posted parted
  dispatch nr a b s =
      if nr == nr_k_exec
      then call_exec a b s
      else (if nr == nr_k_send
          then posted (send a (signed b s) (mail_of s)) s
          else (if nr == nr_k_recv
              then posted (recv recv_later a (signed b s) (mail_of s)) s
              else (if nr == nr_k_fork
                  then parted (fork alloc_chunk child_starts mem_size kpdir s.world) s
                  else served s none)))

  pub kernel_call : System F → Called F
  unfolding dispatch
  kernel_call s = dispatch (reg ax_word s.world) (reg bx_word s.world) (reg cx_word s.world) s
