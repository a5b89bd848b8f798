-- ===== src/Fork/Init/Make.antt =====
-- `makeSysProc` with an allocator that does not panic.
use own_os.Prelude.{
  ℕ, ◌-◌, ◌≡◌, ◌∙◌, refl, Bool, true, false, Option, some, [], ◌∷◌, ◌++◌, ◌==◌, arith,
}
use own_os.Process.{Proc, task_stopped}
use own_os.VarMem.Enable.{Always, enable_space-given}
use own_os.Fork.{page_type}
use own_os.VarMem.{copy_kernel_dir}
use own_os.Fork.{World, put_at, alloc_proc}
use own_os.Fork.Init.{
  put_proc, put_space, sys_proc, made, register_stack, finish_proc, add_stacks, make_sys_proc, psys,
  region, stack_flags,
}

-- A process that `makeSysProc` has made.
abbrev pub IsMade : Proc → Type 0
IsMade p = (p.is_free ≡ false) × (p.status ≡ task_stopped) × (p.prior ≡ psys)

-- The world `w'` is `w` with such a process in the room `c`.
abbrev pub Adds : {F : Type 0} → (c : ℕ) → World F → World F → Type 0
Adds c w w' =
    IsMade (w'.kernel.manager.procs c)
    × ((q : ℕ) → (q == c) ≡ false → w'.kernel.manager.procs q ≡ w.kernel.manager.procs q)
    × (w'.kernel.manager.heads ≡ w.kernel.manager.heads)
    × (w'.num ≡ w.num)

module _ {F : Type 0} (alloc_chunk : F → Option (ℕ × F)) (always : Always alloc_chunk) where
  register_stack-given :
      (c begin end : ℕ) (u : Bool) (w : World F)
      → (w' : World F) × ((register_stack alloc_chunk c begin end u w ≡ some w')
          × (w'.kernel ≡ w.kernel)
          × (w'.num ≡ w.num))
  unfolding register_stack put_space
  register_stack-given c begin end u w =
      let (m, f, e) =
        enable_space-given alloc_chunk always (w.kernel.manager.procs c).cr3
          (page_type (stack_flags u)) begin (end - begin) w.mem w.frames in
      let r = region (stack_flags u) begin (end - begin) ∷ [] in
      (
        record w { regions = put_at c (w.regions c ++ r) w.regions; mem = m; frames = f },
        (rw (register_stack, e, put_space) refl, refl, refl),
      )

  Adds-kept :
      (c : ℕ) (w w1 w2 : World F)
      → w2.kernel ≡ w1.kernel
      → w2.num ≡ w1.num
      → Adds c w w1
      → Adds c w w2
  Adds-kept c w w1 w2 k n (a, o, h, m) = (rw k a, λ q e. rw k (o q e), rw k h, n ∙ m)

  finish_proc-Adds :
      (kernel2user c stack : ℕ) (w w1 : World F) (f : F)
      → Adds c w w1
      → (w' : World F) × ((finish_proc kernel2user c w1 (some (stack, f)) ≡ made c w')
          × Adds c w w')
  unfolding finish_proc
  finish_proc-Adds kernel2user c stack w w1 f ((a, b, d), o, h, n) =
      let u : (c == c) ≡ true = ground arith in
      (_, (refl, ((rw u a, rw u b, rw u d), λ q e. rw e (o q e), h, n)))

  add_stacks-Adds :
      (kernel2user c : ℕ) (w w1 : World F)
      → Adds c w w1
      → (w' : World F) × ((add_stacks alloc_chunk kernel2user c w1 ≡ made c w') × Adds c w w')
  unfolding add_stacks
  add_stacks-Adds kernel2user c w w1 a =
      let (w2, (e, k, n)) = register_stack-given c 0x3fffe000 0x40000000 true w1 in
      let (w3, (e', k', n')) = register_stack-given c 0x7fffe000 0x80000000 true w2 in
      let (stack, f, g) = always w3.frames in
      let a3 = Adds-kept c w w2 w3 k' n' (Adds-kept c w w1 w2 k n a) in
      let (w', (r, d)) = finish_proc-Adds kernel2user c stack w w3 f a3 in
      (w', (rw (add_stacks, e, e', g) r, d))

  -- The world before the stacks are made.
  abbrev emptied : (mem_size kpdir c pdir : ℕ) → F → World F → World F
  emptied mem_size kpdir c pdir f w =
      put_proc c (sys_proc pdir (w.kernel.manager.procs c)) (record w {
        regions = put_at c [] w.regions;
        mem = copy_kernel_dir mem_size kpdir pdir w.mem;
        frames = f;
      })

  make_sys_proc-given :
      (kernel2user mem_size kpdir c pdir : ℕ) (w : World F) (f : F)
      → alloc_proc w.kernel.manager.procs ≡ some c
      → alloc_chunk w.frames ≡ some (pdir, f)
      → make_sys_proc alloc_chunk kernel2user mem_size kpdir w
        ≡ add_stacks alloc_chunk kernel2user c (emptied mem_size kpdir c pdir f w)
  unfolding make_sys_proc
  make_sys_proc-given kernel2user mem_size kpdir c pdir w f e g = rw (make_sys_proc, e, g) refl

  pub make_sys_proc-Adds :
      (kernel2user mem_size kpdir c : ℕ) (w : World F)
      → alloc_proc w.kernel.manager.procs ≡ some c
      → (w' : World F) × ((make_sys_proc alloc_chunk kernel2user mem_size kpdir w ≡ made c w')
          × Adds c w w')
  make_sys_proc-Adds kernel2user mem_size kpdir c w e =
      let (pdir, f, g) = always w.frames in
      let u : (c == c) ≡ true = ground arith in
      let (w', (r, d)) =
        add_stacks-Adds kernel2user c w (emptied mem_size kpdir c pdir f w)
          ((rw u refl, rw u refl, rw u refl), λ q e. rw e refl, refl, refl) in
      (w', (make_sys_proc-given kernel2user mem_size kpdir c pdir w f e g ∙ r, d))
