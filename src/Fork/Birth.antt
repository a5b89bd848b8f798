-- ===== src/Fork/Birth.antt =====
-- `fork` as a whole.
use own_os.Prelude.{
  ℕ, ◌+◌, ◌*◌, ◌<◌, ◌≡◌, ◌≢◌, ◌⊎◌, ◌∙◌, refl, true, false, Option, some, List, ◌==◌, arith,
  Bool-cases, inl, inr, ==_iff, All,
}
use own_os.Prelude.Memory.{Mem}
use own_os.Process.{task_stopped, task_running, get_proc}
use own_os.Fork.{
  Region, World, Copy, copied, stuck, unfinished, put_at, regs_of, alloc_proc, take_room, clone_mm,
  and_then, copy_process, start_child, fork, forked, panics, nr_regs,
}
use own_os.Fork.Space.{Fits, ends, clone_mm-ends, clone_mm-Keeps}
use own_os.Fork.Rooms.{get_loop-free}
use own_os.Fork.Child.{IsApart, Gives, start_child-Started}
use own_os.Fork.Table.{
  IsOrdered, Adds, Adds-finds, Adds-IsState, Adds-readied, Adds-IsOrdered, Adds-started,
}

module _ {F : Type 0} (alloc_chunk : F → Option (ℕ × F)) (starts mem_size kpdir : ℕ) where
  -- The world after `copy_process`.
  abbrev filled : (src c : ℕ) → World F → ℕ → List Region → Mem → F → World F
  filled src c w pdir rs mem f =
      let m = w.kernel.manager in
      let proc = record (m.procs c) {
        prior = (m.procs src).prior;
        status = task_stopped;
        cr3 = pdir;
      } in
      record w {
        kernel = record (w.kernel) { manager = record m { procs = put_at c proc m.procs } };
        regions = put_at c rs w.regions;
        mem = mem;
        frames = f;
      }

  -- What the copy of the memory of the running process comes to in `fork`.
  abbrev pub space_of : World F → Copy (ℕ × List Region × Mem × F)
  space_of w =
      let m = w.kernel.manager in
      clone_mm alloc_chunk mem_size kpdir (m.procs m.current).cr3 (w.regions m.current) w.mem
        w.frames

  copy_process-space :
      (src c : ℕ) (w : World F)
      → (src == c) ≡ false
      → copy_process alloc_chunk mem_size kpdir src c (take_room c w)
        ≡ and_then
            (clone_mm alloc_chunk mem_size kpdir
              (w.kernel.manager.procs src).cr3
              (w.regions src)
              w.mem
              w.frames)
            (λ (pdir, rs, mem, f). copied (filled src c (take_room c w) pdir rs mem f))
  unfolding copy_process take_room
  copy_process-space src c w n = rw n refl

  fork-stuck :
      (c : ℕ) (w : World F)
      → alloc_proc w.kernel.manager.procs ≡ some c
      → (w.kernel.manager.current == c) ≡ false
      → space_of w ≡ stuck
      → fork alloc_chunk starts mem_size kpdir w ≡ panics
  unfolding and_then fork
  fork-stuck c w a n e =
      let s = copy_process-space w.kernel.manager.current c w n in rw (fork, a, s, e) refl

  fork-copied :
      (c pdir : ℕ) (w : World F) (rs : List Region) (mem : Mem) (f : F)
      → alloc_proc w.kernel.manager.procs ≡ some c
      → (w.kernel.manager.current == c) ≡ false
      → space_of w ≡ copied (pdir, rs, mem, f)
      → fork alloc_chunk starts mem_size kpdir w
        ≡ start_child alloc_chunk starts w.kernel.manager.current c w.num
            (filled w.kernel.manager.current c (take_room c w) pdir rs mem f)
  unfolding and_then fork
  fork-copied c pdir w rs mem f a n e =
      let s = copy_process-space w.kernel.manager.current c w n in rw (fork, a, s, e) refl

  -- The world `w'` is `w` with a child of the running process in the room `c`: it runs under the next
  -- number, its regions and its registers are those of its parent, it begins at `ret_from_fork` with its own
  -- stack, and no other process has changed.
  abbrev pub IsChild : (c : ℕ) → World F → World F → Type 0
  IsChild c w w' =
      let me = w.kernel.manager.current in
      let procs = w'.kernel.manager.procs in
      IsOrdered w'
      × (get_proc w.num w'.kernel.manager ≡ some c)
      × ((procs c).status ≡ task_running)
      × ((procs c).ret_from ≡ starts)
      × ((w'.info c).sp ≡ regs_of c w')
      × (regs_of me w' ≡ regs_of me w)
      × IsApart me c w'
      × (w'.regions c ≡ w.regions me)
      × ((i : ℕ) → i < nr_regs → w'.mem (regs_of c w' + 4 * i) ≡ w'.mem (regs_of me w' + 4 * i))
      × ((q : ℕ) → (q == c) ≡ false → procs q ≡ w.kernel.manager.procs q)

  module _ (c : ℕ) (w : World F) (a : alloc_proc w.kernel.manager.procs ≡ some c)
      (l : w.num < 0xffffffff) (ordered : IsOrdered w)
      (used : (w.kernel.manager.procs w.kernel.manager.current).is_free ≡ false)
      (level : (w.kernel.manager.procs w.kernel.manager.current).prior < 4)
      (gives : Gives alloc_chunk (regs_of w.kernel.manager.current w)) where
    room : ((w.kernel.manager.procs c).is_free ≡ true) × (c < 32)
    unfolding alloc_proc
    room = let (f, _, b) = get_loop-free 32 0 c w.kernel.manager.procs a in (f, b)

    room_other : (w.kernel.manager.current == c) ≡ false
    room_other = elim (Bool-cases (w.kernel.manager.current == c)) [
      | inr e ↦ e
      | inl e ↦
          let k : w.kernel.manager.current ≡ c = (==_iff _ _).0 e in
          let z : (w.kernel.manager.procs c).is_free ≡ false = rw k at used in
          let y = room.0 in absurd cc
    ]

    room_apart : w.kernel.manager.current ≢ c
    room_apart k =
        let o = room_other in
        let t : (w.kernel.manager.current == c) ≡ true = (==_iff _ _).1 k in absurd cc

    filled-Adds :
        (pdir : ℕ) (rs : List Region) (mem : Mem) (f : F)
        → Adds c w l ordered room.0 task_stopped
            (filled w.kernel.manager.current c (take_room c w) pdir rs mem f).kernel.manager.procs
    unfolding take_room
    filled-Adds pdir rs mem f =
        let u : (c == c) ≡ true = ground arith in
        (rw u refl, rw u refl, rw u refl, λ q e. rw e refl)

    copied-IsChild :
        (pdir : ℕ) (rs : List Region) (mem : Mem) (f : F)
        → space_of w ≡ copied (pdir, rs, mem, f)
        → (w' : World F) × ((fork alloc_chunk starts mem_size kpdir w ≡ forked w.num w')
            × IsChild c w w')
    unfolding take_room get_proc
    copied-IsChild pdir rs mem f e =
        let me = w.kernel.manager.current in
        let w1 = filled me c (take_room c w) pdir rs mem f in
        let d = filled-Adds pdir rs mem f in
        let s = Adds-IsState c w l ordered room.0 w1.kernel.manager d refl in
        let u : (c == c) ≡ true = ground arith in
        let r = Adds-readied c w l ordered room.0 starts task_stopped w1.kernel.manager d in
        let found = Adds-finds c w l ordered room.0 task_stopped _ r room.1 in
        let (w', (x, (m, s', num, regions, sp, kept, apart, same))) =
          start_child-Started alloc_chunk starts c w.num w1 room_apart gives s d.2
            (rw (u, room_other) level) found in
        let (d', _, starts', _) = Adds-started c w l ordered room.0 starts w1 w' _ d m in
        (
          w',
          (
            fork-copied c pdir w rs mem f a room_other e ∙ x,
            (
              Adds-IsOrdered c w l ordered room.0 w' d' s' num,
              Adds-finds c w l ordered room.0 task_running _ d' room.1,
              d'.2,
              starts',
              sp,
              kept,
              apart,
              rw (regions, u)
                  (clone_mm-Keeps alloc_chunk mem_size kpdir (w.kernel.manager.procs me).cr3 pdir
                    (w.regions me) rs w.mem mem w.frames f e),
              same,
              d'.3,
            ),
          ),
        )

    -- With a free room and the next number below `PID_KERNEL`, in a state in order, with a parent at one of the
    -- four levels whose regions fit, and with an allocator that gives frames apart from the parent's registers,
    -- `fork` comes to an end: either the copy of the memory is stuck, which panics, or `fork` gives the next number
    -- and a world with a child under it, which runs on its own copy of the registers.
    pub fork-IsChild :
        All Fits (w.regions w.kernel.manager.current)
        → ((space_of w ≡ stuck) × (fork alloc_chunk starts mem_size kpdir w ≡ panics))
          ⊎ ((w' : World F) × ((fork alloc_chunk starts mem_size kpdir w ≡ forked w.num w')
                × IsChild c w w'))
    fork-IsChild fits = comes (space_of w) refl (
        clone_mm-ends alloc_chunk mem_size kpdir
          (w.kernel.manager.procs w.kernel.manager.current).cr3 (w.regions w.kernel.manager.current)
          w.mem w.frames fits)
      where
        comes :
            (s : Copy (ℕ × List Region × Mem × F))
            → space_of w ≡ s
            → ends s ≡ true
            → ((space_of w ≡ stuck) × (fork alloc_chunk starts mem_size kpdir w ≡ panics))
              ⊎ ((w' : World F) × ((fork alloc_chunk starts mem_size kpdir w ≡ forked w.num w')
                    × IsChild c w w'))
        comes (copied (pdir, rs, mem, f)) e t = inr (copied-IsChild pdir rs mem f e)
        comes stuck e t = inl (e, fork-stuck c w a room_other e)
        comes unfinished e t = absurd cc
