-- ===== src/Fork/Init/Tests.antt =====
-- The first processes of a world without any.
use own_os.Prelude.{ℕ, suc, ◌+◌, ◌*◌, ◌%◌, ◌≡◌, refl, false, []}
use own_os.Fork.{World}
use own_os.Fork.Tests.{frame_at}
use own_os.VarMem.Enable.{Always}
use own_os.Fork.Init.{Start, begins, init_tasks, new_manager}
use own_os.Fork.Init.Ready.{IsReady, init_tasks-IsReady}
use own_os.Timer

abbrev nothing : World ℕ
nothing = record {
  kernel = record { manager = new_manager 0; timer = own_os.Timer.init; sched_req = false };
  num = 100;
  regions = λ p. [];
  info = λ p. record { stack_top = 0; ss = 0; sp = 0; cs = 0 };
  mem = λ a. 0;
  frames = 0;
}

frame_at-Always : Always frame_at
frame_at-Always f = (0x200000 + f % 0x100 * 0x1000, suc f, refl)

init_tasks-IsReady_example :
    (start : Start) × (w' : World ℕ) × ((init_tasks frame_at 0x9000 0x1000000 0x1000 0xa000 nothing
        ≡ begins start w')
      × IsReady w')
init_tasks-IsReady_example =
    init_tasks-IsReady frame_at frame_at-Always 0x9000 0x1000000 0x1000 0xa000 0 nothing refl refl
