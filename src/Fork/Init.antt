-- ===== src/Fork/Init.antt =====
-- The first processes: `makeSysProc` and the constructors of kernel/Process.cpp, `init_tasks` of kernel/task.cpp, and
-- `setFrame2TSS` of kernel/Tss.cpp. `kernel2user` and `first_task` are the addresses of that function and of `taskInit`.
pub mod Make
pub mod Ready
mod Tests
use own_os.Prelude.{
  ℕ, zero, suc, ◌+◌, ◌-◌, ◌*◌, Bool, true, false, Option, none, some, List, [], ◌∷◌, ◌++◌, ◌==◌,
  if◌then◌else◌,
}
use own_os.Prelude.Words.{add32}
use own_os.Prelude.Int.{pos}
use own_os.Prelude.Memory.{Mem}
use own_os.Process.{Proc, PManager, Outcome, done, warned, task_init, task_stopped, enque}
use own_os.Task.{Kernel}
use own_os.Timer.{reset_quantum}
use own_os.VarMem.{enable_space, copy_kernel_dir}
use own_os.Fork.{Region, KernelInfo, World, put_at, alloc_proc, page_type}

-- `Papp` and `Psys`.
abbrev pub papp : ℕ
papp = 2

abbrev pub psys : ℕ
psys = 1

-- The constructor of a process; the constructor of the lessor makes its room free. `a` is what stands in
-- the fields that are not set.
abbrev pub new_proc : (a : ℕ) → Proc
new_proc a = record {
  is_free = true;
  id = 0;
  prior = papp;
  status = task_init;
  ret_from = a;
  cr3 = a;
}

-- The constructor of the manager; `a` stands for the pointers that are not set or NULL.
abbrev pub new_manager : (a : ℕ) → PManager
new_manager a = record {
  procs = λ p. new_proc a;
  heads = λ i. [];
  quantum = λ i. i;
  current = a;
  prev = a;
}

abbrev pub first_pid : ℕ
first_pid = 100

abbrev pub sys_stack_end : ℕ
sys_stack_end = 0x40000000

abbrev pub user_stack_end : ℕ
user_stack_end = 0x80000000

abbrev pub region : (flags begin size : ℕ) → Region
region flags begin size = record { flags = flags; begin = begin; size = size }

-- `READABLE | WRITABLE`, with `SYSTEM` for stacks of the system.
abbrev pub stack_flags : (is_user : Bool) → ℕ
stack_flags is_user = if is_user then 6 else 7

-- The world with the memory and the frames that are left.
pub put_space : {F : Type 0} → World F → Option (Mem × F) → Option (World F)
put_space w none = none
put_space w (some (m, f)) = some (record w { mem = m; frames = f })

-- The fields that `makeSysProc` sets before the stacks.
abbrev pub sys_proc : (pdir : ℕ) → Proc → Proc
sys_proc pdir p = record p { is_free = false; cr3 = pdir; status = task_stopped; prior = psys }

abbrev pub put_proc : {F : Type 0} → ℕ → Proc → World F → World F
put_proc c p w =
    let k = w.kernel in
    record w {
      kernel = record k { manager = record (k.manager) { procs = put_at c p k.manager.procs } };
    }

-- `made` is the process and the world; `wild` is an access through a process that does not exist.
pub data Made (F : Type 0) : Type 0 where
  made : ℕ → World F → Made F
  panics wild : Made F

-- The kernel stack, and what is set after it.
pub finish_proc : {F : Type 0} → (kernel2user c : ℕ) → World F → Option (ℕ × F) → Made F
finish_proc kernel2user c w none = panics
finish_proc kernel2user c w (some (stack, f)) =
    let info = record (w.info c) { ss = 0x10; stack_top = stack + 0x1000 - 4; cs = 0x08 } in
    let proc = record (w.kernel.manager.procs c) { ret_from = kernel2user } in
    made c (put_proc c proc (record w { info = put_at c info w.info; frames = f }))

module _ {F : Type 0} (alloc_chunk : F → Option (ℕ × F)) where
  pub register_stack : (c begin end : ℕ) → (is_user : Bool) → World F → Option (World F)
  unfolding put_space
  register_stack c begin end is_user w =
      let flags = stack_flags is_user in
      put_space
        (record w {
          regions = put_at c (w.regions c ++ (region flags begin (end - begin) ∷ [])) w.regions;
        })
        (enable_space alloc_chunk begin (end - begin) (w.kernel.manager.procs c).cr3
          (page_type flags) w.mem w.frames)

  -- The stacks of the process.
  pub add_stacks : (kernel2user c : ℕ) → World F → Made F
  unfolding register_stack finish_proc
  add_stacks kernel2user c w =
      elim (register_stack c (sys_stack_end - 0x2000) sys_stack_end true w) [
        | none ↦ panics
        | some w ↦ elim (register_stack c (user_stack_end - 0x2000) user_stack_end true w) [
          | none ↦ panics
          | some w ↦ finish_proc kernel2user c w (alloc_chunk w.frames)
        ]
      ]

  module _ (kernel2user mem_size kpdir : ℕ) where
    pub make_sys_proc : World F → Made F
    unfolding alloc_proc add_stacks
    make_sys_proc w = elim (alloc_proc w.kernel.manager.procs) [
      | none ↦ wild
      | some c ↦ elim (alloc_chunk w.frames) [
        | none ↦ panics
        | some (pdir, f) ↦ add_stacks kernel2user c (
            put_proc c (sys_proc pdir (w.kernel.manager.procs c)) (record w {
              regions = put_at c [] w.regions;
              mem = copy_kernel_dir mem_size kpdir pdir w.mem;
              frames = f;
            }))
      ]
    ]

-- The fields of the task state segment for a process.
abbrev pub set_frame2tss : KernelInfo → ℕ × ℕ
set_frame2tss ki = (ki.ss, ki.stack_top)

-- What `init_tasks` does to the processor at its end: the stack of the task state segment, the directory, and the
-- jump to the first task with its segments and its stack.
pub record Start : Type 0 where
  pub tss : ℕ × ℕ
  pub cr3 : ℕ
  pub cs : ℕ
  pub ss : ℕ
  pub pc : ℕ
  pub sp : ℕ

pub data Tasks (F : Type 0) : Type 0 where
  begins : Start → World F → Tasks F
  panics wild : Tasks F

-- The numbers of the two processes.
abbrev pub numbered : {F : Type 0} → (pinit pkernel : ℕ) → World F → World F
numbered pinit pkernel w =
    let procs = w.kernel.manager.procs in
    let w1 = put_proc pkernel (record (procs pkernel) { id = 0xffffffff }) w in
    put_proc pinit (record (w1.kernel.manager.procs pinit) { id = 1 }) w1

-- What follows the call of `enque` that has left the table `m`.
pub begin_at : {F : Type 0} → (first_task pinit : ℕ) → World F → PManager → Tasks F
begin_at first_task pinit w m =
    begins
      (record {
        tss = set_frame2tss (w.info pinit);
        cr3 = (m.procs pinit).cr3;
        cs = 0x40 + 1;
        ss = 0x48 + 1;
        pc = first_task;
        sp = sys_stack_end - 0x10;
      })
      (record w {
        kernel = record (w.kernel) {
          manager = record m { current = pinit };
          timer = reset_quantum (pos (m.quantum 0)) 1 w.kernel.timer;
        };
      })

-- After its warning `enque` returns as well.
pub begin_first : {F : Type 0} → (first_task pinit : ℕ) → World F → Outcome → Tasks F
unfolding begin_at
begin_first first_task pinit w (done m) = begin_at first_task pinit w m
begin_first first_task pinit w (warned m) = begin_at first_task pinit w m
begin_first first_task pinit w _ = Tasks.panics

-- The first process is put in its queue and runs.
pub begin_tasks : {F : Type 0} → (first_task pinit pkernel : ℕ) → World F → Tasks F
unfolding begin_first
begin_tasks first_task pinit pkernel w =
    let w' = numbered pinit pkernel w in
    begin_first first_task pinit w' (enque pinit 0 w'.kernel.manager)

module _ {F : Type 0} (alloc_chunk : F → Option (ℕ × F))
    (kernel2user mem_size kpdir first_task : ℕ) where
  pub begin_made : ℕ → Made F → Tasks F
  unfolding begin_tasks
  begin_made pinit (made pkernel w) = begin_tasks first_task pinit pkernel w
  begin_made pinit Made.panics = Tasks.panics
  begin_made pinit Made.wild = Tasks.wild

  pub make_kernel : Made F → Tasks F
  unfolding begin_made make_sys_proc
  make_kernel (made pinit w) =
      begin_made pinit (make_sys_proc alloc_chunk kernel2user mem_size kpdir w)
  make_kernel Made.panics = Tasks.panics
  make_kernel Made.wild = Tasks.wild

  pub init_tasks : World F → Tasks F
  unfolding make_kernel make_sys_proc
  init_tasks w = make_kernel (make_sys_proc alloc_chunk kernel2user mem_size kpdir w)
