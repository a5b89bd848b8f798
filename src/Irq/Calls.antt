-- ===== src/Irq/Calls.antt =====
-- What the caller of a kernel call finds.
use own_os.Prelude.{
  ℕ, ◌+◌, ◌*◌, ◌<◌, ◌≤◌, ◌≡◌, ◌≢◌, ◌⊎◌, ◌∙◌, refl, ap, subst, true, false, Option, none, some, ◌==◌,
  arith, inl, inr, All,
}
use own_os.Prelude.Memory.{Mem, write}
use own_os.Fork.{World, fork, regs_of, ax_word, nr_regs, alloc_proc, ret_from_fork, stuck}
use own_os.Fork.Space.{Fits}
use own_os.Fork.Child.{Gives, IsApart}
use own_os.Fork.Table.{IsOrdered}
use own_os.Fork.Birth.{space_of, fork-IsChild}
use own_os.Ipc.{Message}
use own_os.Elf.{Bytes}
use own_os.Irq.{
  System, Called, served, panics, reg, regs, put_reg, put_world, parted, dispatch, bx_word, cx_word,
  kernel_call, nr_k_fork,
}

-- The child when it is switched to: the running process is `c`, and it begins at `ret_from_fork`.
abbrev pub switched_to : {F : Type 0} → (c : ℕ) → World F → World F
switched_to c w =
    let k = w.kernel in
    ret_from_fork (record w { kernel = record k { manager = record (k.manager) { current = c } } })

-- A call of `fork` in the world `w` has two answers: the parent finds the number of the child, which is in the room
-- `c`, and the child finds 0 once it runs; all other registers of the child are those of its parent.
abbrev pub Twice : {F : Type 0} → (c pid me : ℕ) → World F → Type 0
Twice c pid me w =
    let v = switched_to c w in
    (w.mem (regs_of me w + 4 * ax_word) ≡ pid)
    × (v.mem (regs_of c v + 4 * ax_word) ≡ 0)
    × ((i : ℕ)
        → i < nr_regs
        → i ≢ ax_word
        → v.mem (regs_of c v + 4 * i) ≡ w.mem (regs_of me w + 4 * i))

other_word :
    (parent child pid i : ℕ) (m : Mem)
    → (child + 4 * nr_regs ≤ parent) ⊎ (parent + 4 * nr_regs ≤ child)
    → i < nr_regs
    → i ≢ ax_word
    → m (child + 4 * i) ≡ m (parent + 4 * i)
    → write (child + 4 * ax_word) 0 (write (parent + 4 * ax_word) pid m) (child + 4 * i)
      ≡ write (parent + 4 * ax_word) pid m (parent + 4 * i)
other_word parent child pid i m o l n h =
    let x : (child + 4 * i == child + 4 * ax_word) ≡ false = ground arith in
    let y : (child + 4 * i == parent + 4 * ax_word) ≡ false = ground arith in
    let z : (parent + 4 * i == parent + 4 * ax_word) ≡ false = ground arith in rw (x, y, z) h

same_word : (a v : ℕ) (m : Mem) → write a v m a ≡ v
same_word a v m = let t : (a == a) ≡ true = ground arith in rw t refl

Twice-put_reg :
    {F : Type 0} (c pid me : ℕ) (w : World F)
    → IsApart me c w
    → ((i : ℕ) → i < nr_regs → w.mem (regs_of c w + 4 * i) ≡ w.mem (regs_of me w + 4 * i))
    → Twice c pid me (put_reg (regs_of me w) ax_word pid w)
unfolding ret_from_fork
Twice-put_reg c pid me w o h =
    let m = write (regs_of me w + 4 * ax_word) pid w.mem in
    (
      same_word (regs_of me w + 4 * ax_word) pid w.mem,
      same_word (regs_of c w + 4 * ax_word) 0 m,
      λ i l n. other_word (regs_of me w) (regs_of c w) pid i w.mem o l n (h i l),
    )

module _ {F : Type 0} (alloc_chunk : F → Option (ℕ × F))
    (block_size starts mem_size kpdir recv_later left : ℕ) (fopen : ℕ → Option Bytes)
    (message : ℕ → Message) where
  abbrev pub called : System F → Called F
  called = kernel_call alloc_chunk block_size starts mem_size kpdir recv_later left fopen message

  called-fork :
      (s : System F)
      → reg ax_word s.world ≡ nr_k_fork
      → called s ≡ parted (fork alloc_chunk starts mem_size kpdir s.world) s
  unfolding kernel_call dispatch
  called-fork s e =
      ap
        (λ nr.
          dispatch alloc_chunk block_size starts mem_size kpdir recv_later left fopen message nr
            (reg bx_word s.world) (reg cx_word s.world) s)
        e

  -- The call of `fork`, under the conditions under which `fork` comes to an end: where the copy of the memory is stuck
  -- it panics, and else it has two answers, the number of the child for the parent, and 0 for the child once it is
  -- switched to; the other registers of the child are those of its parent.
  pub kernel_call-Twice :
      (c : ℕ) (s : System F)
      → reg ax_word s.world ≡ nr_k_fork
      → alloc_proc s.world.kernel.manager.procs ≡ some c
      → s.world.num < 0xffffffff
      → IsOrdered s.world
      → (s.world.kernel.manager.procs s.world.kernel.manager.current).is_free ≡ false
      → (s.world.kernel.manager.procs s.world.kernel.manager.current).prior < 4
      → Gives alloc_chunk (regs s.world)
      → All Fits (s.world.regions s.world.kernel.manager.current)
      → ((space_of alloc_chunk starts mem_size kpdir s.world ≡ stuck) × (called s ≡ panics))
        ⊎ ((s' : System F) × ((called s ≡ served s' none)
              × Twice c s.world.num s.world.kernel.manager.current s'.world))
  unfolding parted
  kernel_call-Twice c s e a l o u b g f =
      elim (fork-IsChild alloc_chunk starts mem_size kpdir c s.world a l o u b g f) [
        | inl (k, p) ↦ inl (k, called-fork s e ∙ ap (λ x. parted x s) p)
        | inr (w', (p, (_, _, _, _, _, kept, apart, _, same, _))) ↦ inr (
          put_world (put_reg (regs s.world) ax_word s.world.num w') s,
          (
            called-fork s e ∙ ap (λ x. parted x s) p,
            subst
                (λ r.
                  Twice c s.world.num s.world.kernel.manager.current
                    (put_reg r ax_word s.world.num w'))
                kept (Twice-put_reg c s.world.num s.world.kernel.manager.current w' apart same),
          ),
        )
      ]
