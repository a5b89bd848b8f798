-- ===== src/Irq/Exec.antt =====
-- The call of `exec` for a file that is no program.
use own_os.Prelude.{
  ℕ, ◌+◌, ◌-◌, ◌≤◌, ◌≡◌, ◌∙◌, refl, ap, Option, none, some, ◌==◌, if◌then◌else◌, arith,
}
use own_os.Prelude.Memory.{Mem, write}
use own_os.Fork.{World, ax_word, pc_word}
use own_os.Ipc.{Message}
use own_os.Elf.{Bytes, exec, sizeof_ehdr}
use own_os.Elf.Ident.{IsX86}
use own_os.Elf.Load.{load_elf_executable-refused}
use own_os.Irq.{
  System, served, reg, regs, put_world, dispatch, bx_word, cx_word, kernel_call, nr_k_exec,
  executed, after_load, user_regs, cs_word, sp_word, user_stack_end, priv_user, call_exec,
}
use own_os.Irq.Calls.{called}

-- The words that `exec` writes for a process in user mode.
abbrev user_words : (r a : ℕ) → Mem → Mem
user_words r a m = write (r + 44) a (
    write (r + 60) 0x7ffffff0 (
      write (r + 52) 0x2b (
        write (r + 0) 0x33
          (write (r + 4) 0x33 (write (r + 8) 0x33 (write (r + 12) 0x33 (write (r + 64) 0x33 m)))))))

lost_words :
    (r a : ℕ) (m : Mem)
    → (user_words r a m (r + 60) ≡ 0x7ffffff0)
      × (user_words r a m (r + 52) ≡ 0x2b)
      × (user_words r a m (r + 0) ≡ 0x33)
      × (user_words r a m (r + 4) ≡ 0x33)
      × (user_words r a m (r + 8) ≡ 0x33)
      × (user_words r a m (r + 12) ≡ 0x33)
      × (user_words r a m (r + 64) ≡ 0x33)
      × (user_words r a m (r + 48) ≡ m (r + 48))
      × (user_words r a m (r + 44) ≡ a)
lost_words r a m = (
  ground arith,
  ground arith,
  ground arith,
  ground arith,
  ground arith,
  ground arith,
  ground arith,
  ground arith,
  ground arith,
)

module _ {F : Type 0} (alloc_chunk : F → Option (ℕ × F))
    (block_size starts mem_size kpdir recv_later left : ℕ) (fopen : ℕ → Option Bytes)
    (message : ℕ → Message) where
  abbrev answer : ℕ
  answer = if left == 0 then 0 else 1

  call_exec-refused :
      (name pri : ℕ) (s : System F) (file : Bytes) (large : sizeof_ehdr ≤ block_size)
      → fopen name ≡ some file
      → ¬ IsX86 file
      → call_exec alloc_chunk block_size starts mem_size kpdir recv_later left fopen message name
          pri s
        ≡ served (put_world (after_load (regs s.world) pri answer s.world) s) none
  unfolding call_exec executed exec
  call_exec-refused name pri s file large o n =
      rw (o, call_exec, load_elf_executable-refused alloc_chunk block_size large file s.world n)
        refl

  -- The registers of the caller after a refused call: a new stack, and the answer `a`; the place where it goes on
  -- is the old one.
  abbrev pub IsLost : (a : ℕ) → World F → World F → Type 0
  IsLost a w w' =
      (reg sp_word w' ≡ user_stack_end - 0x10)
      × (reg cs_word w' ≡ 0x2b)
      × (reg 0 w' ≡ 0x33)
      × (reg 1 w' ≡ 0x33)
      × (reg 2 w' ≡ 0x33)
      × (reg 3 w' ≡ 0x33)
      × (reg 16 w' ≡ 0x33)
      × (reg pc_word w' ≡ reg pc_word w)
      × (reg ax_word w' ≡ a)

  after_load-IsLost : (a : ℕ) (w : World F) → IsLost a w (after_load (regs w) priv_user a w)
  unfolding after_load user_regs
  after_load-IsLost a w = lost_words (regs w) a w.mem

  -- The call of `exec` in user mode for a file that is not an executable for the 386, on blocks that are large enough
  -- for its header, is served, and its caller goes on at its old place with the segments and the stack of a new
  -- program, and without knowing that the program was refused: the answer is whatever stood in the register.
  pub kernel_call-IsLost :
      (s : System F) (file : Bytes)
      → reg ax_word s.world ≡ nr_k_exec
      → reg cx_word s.world ≡ priv_user
      → fopen (reg bx_word s.world) ≡ some file
      → ¬ IsX86 file
      → sizeof_ehdr ≤ block_size
      → (s' : System F) × ((called alloc_chunk block_size starts mem_size kpdir recv_later left
              fopen message s
            ≡ served s' none)
          × IsLost answer s.world s'.world)
  unfolding kernel_call dispatch
  kernel_call-IsLost s file e p o n large =
      let w = after_load (regs s.world) priv_user answer s.world in
      (
        put_world w s,
        (
          ap
                (λ nr.
                  dispatch alloc_chunk block_size starts mem_size kpdir recv_later left fopen
                    message nr (reg bx_word s.world) (reg cx_word s.world) s)
                e
              ∙ ap
                  (λ pri.
                    call_exec alloc_chunk block_size starts mem_size kpdir recv_later left fopen
                      message (reg bx_word s.world) pri s)
                  p
              ∙ call_exec-refused (reg bx_word s.world) priv_user s file large o n,
          after_load-IsLost answer s.world,
        ),
      )
