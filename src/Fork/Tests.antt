-- ===== src/Fork/Tests.antt =====
-- A fork of the process 1 of a small table.
use own_os.Prelude.{
  ◌<◌, if◌then◌else◌, ◌==◌, inl, ℕ, suc, ◌+◌, ◌*◌, ◌%◌, ◌≡◌, none, ◌⊎◌, refl, false, Option, some,
  [], ◌∷◌, arith, inr,
}
use own_os.Process.Tests.{small, small-IsState}
use own_os.Fork.{copied, clone_page, Region, World, stuck, alloc_proc, fork, forked, panics}
use own_os.Fork.Table.{IsOrdered}
use own_os.Fork.Child.{Gives}
use own_os.Prelude.Memory.{Mem}
use own_os.VarMem.{vir2phy, enable_space, copy_kernel_dir, disable_loop}
use own_os.Fork.Pages.{Outside, clone_page-Copies, clone_mm-one}
use own_os.Fork.Birth.{IsChild, space_of, fork-IsChild}
use own_os.Timer

-- Frames from 2 MiB on.
abbrev pub frame_at : ℕ → Option (ℕ × ℕ)
frame_at f = some (0x200000 + f % 0x100 * 0x1000, suc f)

-- A region of one page.
abbrev stack_region : Region
stack_region = record { flags = 6; begin = 0x7fffe000; size = 0x1000 }

-- The directory at 0x9000 has the page of the region in the frame 0xb000, and the frame 0x202000 at its own address. The
-- parent calls with the number of `fork`.
abbrev parent_space : Mem
parent_space a =
    if a == 0x97fc
    then 0xa003
    else (if a == 0xaff8
        then 0xb003
        else (if a == 0x9000
            then 0xc003
            else (if a == 0xc808 then 0x202003 else (if a == 0x100fe4 then 3 else a))))

abbrev pub world : World ℕ
world = record {
  kernel = record { manager = small; timer = own_os.Timer.init; sched_req = false };
  num = 102;
  regions = λ p. stack_region ∷ [];
  info = λ p. record { stack_top = 0x100ffc; ss = 0x10; sp = 0x100fb8; cs = 8 };
  mem = parent_space;
  frames = 0;
}

pub world-IsOrdered : IsOrdered world
world-IsOrdered = (small-IsState, λ q x. ground arith, λ q x. ground arith)

pub frame_at-Gives : Gives frame_at 0x100fb8
frame_at-Gives f =
    (0x200000 + f % 0x100 * 0x1000, suc f, (refl, omega arith, omega arith, inr (omega arith)))

fork-IsChild_example :
    ((space_of frame_at 0x9000 0x1000000 0x1000 world ≡ stuck)
      × (fork frame_at 0x9000 0x1000000 0x1000 world ≡ panics))
    ⊎ ((w' : World ℕ) × ((fork frame_at 0x9000 0x1000000 0x1000 world ≡ forked 102 w')
          × IsChild frame_at 0x9000 0x1000000 0x1000 3 world w'))
unfolding alloc_proc
fork-IsChild_example =
    fork-IsChild frame_at 0x9000 0x1000000 0x1000 3 world refl (omega arith) world-IsOrdered refl
      (omega arith) frame_at-Gives ((omega arith, omega arith), tt)

-- The memory after `enableSpace` has mapped the region for the child.
abbrev child_space : Option (Mem × ℕ)
child_space =
    enable_space frame_at 0x7fffe000 0x1000 0x200000 0x017
      (copy_kernel_dir 0x1000000 0x1000 0x200000 parent_space) 1

abbrev space_or : Option (Mem × ℕ) → Mem × ℕ
space_or none = (parent_space, 0)
space_or (some x) = x

child_space-runs : child_space ≡ some (space_or child_space)
unfolding enable_space copy_kernel_dir disable_loop
child_space-runs = refl

child_page-Copies :
    (m' : Mem) × ((clone_page 0x9000 0x200000 (0x7fffe * 0x1000) (space_or child_space).0 ≡ some m')
      × ((j : ℕ) → j < 0x400 → m' (0x202000 + 4 * j) ≡ (space_or child_space).0 (0xb000 + 4 * j))
      × ((x : ℕ) → Outside 0x202000 x → m' x ≡ (space_or child_space).0 x))
unfolding vir2phy enable_space copy_kernel_dir disable_loop
child_page-Copies =
    clone_page-Copies 0x9000 0x7fffe 0xa000 0xb000 0x202 0xc000 (omega arith) (omega arith)
      (inl (omega arith), inl (omega arith)) (inl (omega arith), inl (omega arith))
      (inl (omega arith)) 0x200000 (space_or child_space).0 (refl, refl, refl, refl)
      (refl, refl, refl, refl) refl

-- The copy of the memory of this world is not stuck.
world-copies :
    (m' : Mem) × (space_of frame_at 0x9000 0x1000000 0x1000 world
      ≡ copied (0x200000, stack_region ∷ [], m', (space_or child_space).1))
world-copies =
    let (m', (e, _, _)) = child_page-Copies in
    (
      m',
      clone_mm-one frame_at 0x1000000 0x1000 0x9000 0x200000 stack_region parent_space
          (space_or child_space).0 m' 0 1 (space_or child_space).1 refl child_space-runs refl refl
          e,
    )

-- Page 0 is in the frame 0x3000 for the directory at 0x1000, which has page 7 at its own address, and in 0x7000 for
-- the one at 0x5000.
abbrev two_spaces : Mem
two_spaces a =
    if a == 0x1000
    then 0x2001
    else (if a == 0x2000
        then 0x3007
        else (if a == 0x201c
            then 0x7007
            else (if a == 0x5000 then 0x6001 else (if a == 0x6000 then 0x7007 else a))))

clone_page-Copies_example :
    (m' : Mem) × ((clone_page 0x1000 0x5000 0 two_spaces ≡ some m')
      × ((j : ℕ) → j < 0x400 → m' (0x7000 + 4 * j) ≡ two_spaces (0x3000 + 4 * j))
      × ((x : ℕ) → Outside 0x7000 x → m' x ≡ two_spaces x))
unfolding vir2phy
clone_page-Copies_example =
    clone_page-Copies 0x1000 0 0x2000 0x3000 7 0x2000 (omega arith) (omega arith)
      (inl (omega arith), inl (omega arith)) (inl (omega arith), inl (omega arith))
      (inl (omega arith)) 0x5000 two_spaces (refl, refl, refl, refl) (refl, refl, refl, refl) refl
