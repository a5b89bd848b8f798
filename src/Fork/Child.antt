-- ===== src/Fork/Child.antt =====
-- What `fork` makes of a process.
use own_os.Prelude.{
  ℕ, zero, suc, ◌+◌, ◌-◌, ◌*◌, ◌%◌, ◌<◌, ◌≤◌, ◌≡◌, ◌≢◌, ◌⊎◌, ◌∙◌, refl, sym, subst, true, false,
  Option, some, ◌==◌, arith, Bool-cases, inl, inr, ==_iff,
}
use own_os.Prelude.Words.{u32_mod}
use own_os.Prelude.Memory.{Mem, write}
use own_os.Process.{PManager, task_stopped, append, get_proc}
use own_os.Process.Queues.{IsState, total, due}
use own_os.Task.{Kernel, wake_up, returned}
use own_os.Task.Sleep.{wake_up-appends}
use own_os.Fork.{
  World, copy_words, put_at, frame_of, regs_of, setup_stack, start_child, forked, nr_regs,
}

copy_words-outside :
    (n i src dest x : ℕ) (m : Mem)
    → (x < dest + 4 * i) ⊎ (dest + 4 * (i + n) ≤ x)
    → copy_words n i src dest m x ≡ m x
unfolding copy_words
copy_words-outside zero i src dest x m o = refl
copy_words-outside (suc n) i src dest x m o =
    copy_words-outside n (suc i) src dest x (write (dest + 4 * i) (m (src + 4 * i)) m)
      (ground arith)
    ∙ ground arith

copy_words-copies :
    (n i j src dest : ℕ) (m : Mem)
    → i ≤ j
    → j < i + n
    → (src + 4 * (i + n) ≤ dest) ⊎ (dest + 4 * (i + n) ≤ src)
    → copy_words n i src dest m (dest + 4 * j) ≡ m (src + 4 * j)
unfolding copy_words
copy_words-copies zero i j src dest m l u o = absurd (omega arith)
copy_words-copies (suc n) i j src dest m l u o =
    let m1 = write (dest + 4 * i) (m (src + 4 * i)) m in
    elim (Bool-cases (i == j)) [
      | inl e ↦
          let k : i ≡ j = (==_iff i j).0 e in
          subst (λ j. copy_words n (suc i) src dest m1 (dest + 4 * j) ≡ m (src + 4 * j)) k
            (copy_words-outside n (suc i) src dest (dest + 4 * i) m1 (inl (omega arith))
              ∙ ground arith)
      | inr e ↦
          copy_words-copies n (suc i) j src dest m1 (ground arith) (omega arith) (ground arith)
          ∙ ground arith
    ]

-- The memory that the allocator gives for a stack is a frame below 4 GiB, apart from the registers at `regs`.
abbrev pub Gives : {F : Type 0} → (F → Option (ℕ × F)) → (regs : ℕ) → Type 0
Gives {F} alloc_chunk regs =
    (f : F)
    → (frame : ℕ) × (f' : F) × ((alloc_chunk f ≡ some (frame, f'))
        × (frame % 0x1000 ≡ 0)
        × (frame < u32_mod)
        × ((frame + 0x1000 ≤ regs) ⊎ (regs + 4 * nr_regs ≤ frame)))

pub put_at-same : {A : Type 0} (p : ℕ) (x : A) (f : ℕ → A) → put_at p x f p ≡ x
put_at-same p x f = let e : (p == p) ≡ true = ground arith in rw e refl

pub put_at-other : {A : Type 0} (p q : ℕ) (x : A) (f : ℕ → A) → q ≢ p → put_at p x f q ≡ f q
put_at-other p q x f n = let e : (q == p) ≡ false = ground arith in rw e refl

-- A copy of registers to the end of a frame.
same_regs :
    (stack src i : ℕ) (m : Mem)
    → stack % 0x1000 ≡ 0
    → stack < u32_mod
    → (stack + 0x1000 ≤ src) ⊎ (src + 4 * nr_regs ≤ stack)
    → i < nr_regs
    → let dest = frame_of (stack + 0x1000 - 4) in
      copy_words nr_regs 0 src dest m (dest + 4 * i) ≡ copy_words nr_regs 0 src dest m (src + 4 * i)
same_regs stack src i m al b o l =
    let dest = frame_of (stack + 0x1000 - 4) in
    let t : dest ≡ stack + 0xffc - 68 = omega arith in
    copy_words-copies 17 0 i src dest m (omega arith) (omega arith) (ground arith)
    ∙ sym (copy_words-outside 17 0 src dest (src + 4 * i) m (ground arith))

-- The manager before the child is woken.
abbrev pub readied : (clone starts : ℕ) → PManager → PManager
readied clone starts m = record m {
  procs = put_at clone (record (m.procs clone) { ret_from = starts }) m.procs;
}

-- The registers of two processes have no word in common.
abbrev pub IsApart : {F : Type 0} → (p q : ℕ) → World F → Type 0
IsApart p q w =
    (regs_of q w + 4 * nr_regs ≤ regs_of p w) ⊎ (regs_of p w + 4 * nr_regs ≤ regs_of q w)

abbrev pub Started : {F : Type 0} → (clone starts : ℕ) → World F → World F → Type 0
Started clone starts w w' =
    let m = w.kernel.manager in
    (w'.kernel.manager ≡ append clone (m.procs clone).prior (readied clone starts m))
    × IsState w'.kernel.manager
    × (w'.num ≡ w.num)
    × (w'.regions ≡ w.regions)
    × ((w'.info clone).sp ≡ regs_of clone w')
    × (regs_of m.current w' ≡ regs_of m.current w)
    × IsApart m.current clone w'
    × ((i : ℕ)
        → i < nr_regs
        → w'.mem (regs_of clone w' + 4 * i) ≡ w'.mem (regs_of m.current w' + 4 * i))

readied-IsState : (clone starts : ℕ) (m : PManager) → IsState m → IsState (readied clone starts m)
readied-IsState clone starts m s q = elim (Bool-cases (q == clone)) [
  | inl e ↦
      let k : q ≡ clone = (==_iff q clone).0 e in
      rw e (subst (λ x. total q m.heads ≡ due (m.procs x).status) k (s q))
  | inr e ↦ rw e (s q)
]

apart_regs :
    (stack src : ℕ)
    → stack % 0x1000 ≡ 0
    → stack < u32_mod
    → (stack + 0x1000 ≤ src) ⊎ (src + 4 * nr_regs ≤ stack)
    → let dest = frame_of (stack + 0x1000 - 4) in
      (dest + 4 * nr_regs ≤ src) ⊎ (src + 4 * nr_regs ≤ dest)
apart_regs stack src al b o =
    let t : frame_of (stack + 0x1000 - 4) ≡ stack + 0xffc - 68 = omega arith in ground arith

module _ {F : Type 0} (alloc_chunk : F → Option (ℕ × F)) where
  -- The world `w'` that `setup_stack` leaves: only the child's stack is new, with the registers of the process
  -- that runs in it.
  abbrev StackSet : (current clone : ℕ) → World F → World F → Type 0
  StackSet current clone w w' =
      (w'.kernel ≡ w.kernel)
      × (w'.num ≡ w.num)
      × (w'.regions ≡ w.regions)
      × ((w'.info clone).sp ≡ regs_of clone w')
      × (regs_of current w' ≡ regs_of current w)
      × IsApart current clone w'
      × ((i : ℕ)
          → i < nr_regs
          → w'.mem (regs_of clone w' + 4 * i) ≡ w'.mem (regs_of current w' + 4 * i))

  setup_stack-StackSet :
      (current clone : ℕ) (w : World F)
      → current ≢ clone
      → Gives alloc_chunk (regs_of current w)
      → (w' : World F) × ((setup_stack alloc_chunk current clone w ≡ some w')
          × StackSet current clone w w')
  unfolding setup_stack
  setup_stack-StackSet current clone w n gives =
      let (stack, f, (g, al, b, o)) = gives w.frames in
      let top = stack + 0x1000 - 4 in
      let info = record (w.info clone) { stack_top = top; sp = frame_of top } in
      let src = regs_of current w in
      let t : frame_of top ≡ stack + 0xffc - 68 = omega arith in
      let s = put_at-same clone info w.info in
      let r = put_at-other clone current info w.info n in
      (
        record w {
          info = put_at clone info w.info;
          mem = copy_words nr_regs 0 src (frame_of top) w.mem;
          frames = f;
        },
        (
          rw (setup_stack, g) refl,
          (
            refl,
            refl,
            refl,
            rw s refl,
            rw r refl,
            rw (s, r) (apart_regs stack src al b o),
            λ i l. rw (s, r) (same_regs stack src i w.mem al b o l),
          ),
        ),
      )

  module _ (starts : ℕ) where
    -- The world before the stack of the child is set up.
    abbrev begun : (clone : ℕ) → World F → World F
    begun clone w = record w {
      kernel = record (w.kernel) { manager = readied clone starts w.kernel.manager };
      info = put_at clone (w.info w.kernel.manager.current) w.info;
    }

    start_child-forked :
        (clone pid : ℕ) (w w' : World F) (k : Kernel)
        → setup_stack alloc_chunk w.kernel.manager.current clone (begun clone w) ≡ some w'
        → wake_up pid w'.kernel ≡ returned k
        → start_child alloc_chunk starts w.kernel.manager.current clone pid w
          ≡ forked pid (record w' { kernel = k })
    unfolding start_child
    start_child-forked clone pid w w' k e h = rw (start_child, e, h) refl

    -- `start_child` returns with the child in the run queue of its level, with the registers of its parent.
    pub start_child-Started :
        (clone pid : ℕ) (w : World F)
        → w.kernel.manager.current ≢ clone
        → Gives alloc_chunk (regs_of w.kernel.manager.current w)
        → IsState w.kernel.manager
        → (w.kernel.manager.procs clone).status ≡ task_stopped
        → (w.kernel.manager.procs clone).prior < 4
        → get_proc pid (readied clone starts w.kernel.manager) ≡ some clone
        → (w' : World F) × ((start_child alloc_chunk starts w.kernel.manager.current clone pid w
              ≡ forked pid w')
            × Started clone starts w w')
    unfolding start_child
    start_child-Started clone pid w n gives s st b g =
        let current = w.kernel.manager.current in
        let w1 = begun clone w in
        let o = put_at-other clone current (w.info current) w.info n in
        let (w2, (e, (kept, num, regions, sp, regs, apart, same))) =
          setup_stack-StackSet current clone w1 n (rw o gives) in
        let proc = record (w.kernel.manager.procs clone) { ret_from = starts } in
        let p = put_at-same clone proc w.kernel.manager.procs in
        let (k, (h, m, s', _)) =
          wake_up-appends pid clone w1.kernel (readied-IsState clone starts w.kernel.manager s) g
            (rw p st) (rw p b) in
        (
          record w2 { kernel = k },
          (
            start_child-forked clone pid w w2 k e (rw kept h),
            (rw p at m, s', num, regions, sp, regs ∙ rw o refl, apart, same),
          ),
        )
