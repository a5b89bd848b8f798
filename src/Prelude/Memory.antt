-- ===== src/Prelude/Memory.antt =====
-- Memory as a function of the address: bytes for the string routines, words for the page tables.
use own_os.Prelude.{ℕ, ◌==◌, if◌then◌else◌}

abbrev pub Mem : Type 0
Mem = ℕ → ℕ

abbrev pub write : ℕ → ℕ → Mem → Mem
write a v m x = if x == a then v else m x
