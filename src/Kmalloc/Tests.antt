-- ===== src/Kmalloc/Tests.antt =====
-- A heap of three blocks.
use own_os.Prelude.{
  ◌≡◌, ◌++◌, All, refl, arith, ◌==◌, if◌then◌else◌, inl, inr, none, some, [], ◌∷◌, true, false,
}
use own_os.Prelude.Memory.{Mem}
use own_os.Kmalloc.{Heap, returned, kmalloc, kfree, aligned_size, find_prev, unite}
use own_os.Kmalloc.Blocks.{Block, Blocks}
use own_os.Kmalloc.Spec.{alloc, Agrees}
use own_os.Kmalloc.Alloc.{Roomy, kmalloc-Agrees}
use own_os.Kmalloc.Unite.{join, total, first}
use own_os.Kmalloc.Free.{kfree-join}
use own_os.Kmalloc.Exact.{kmalloc_taken-none}

-- At 4096 100 free bytes, 40 bytes in use behind them, and 60 free ones at the end.
abbrev words : Mem
words x =
    if x == 4096
    then 4197
    else (if x == 4100
        then 100
        else (if x == 4196
            then 4236
            else (if x == 4200
                then 40
                else (if x == 4236 then 4096 else (if x == 4240 then 60 else 0)))))

abbrev heap : Heap
heap = record { base = 4096; next_free = 4096; mem = words }

abbrev low : Block
low = record { in_use = false; bytes = 100 }

abbrev middle : Block
middle = record { in_use = true; bytes = 40 }

abbrev high : Block
high = record { in_use = false; bytes = 60 }

heap-Blocks : Blocks 4096 4096 (low ∷ middle ∷ high ∷ []) words
unfolding Blocks
heap-Blocks = (
  omega arith,
  refl,
  refl,
  refl,
  (omega arith, refl, refl, refl, (omega arith, refl, refl, refl, omega arith)),
)

heap-Roomy : All (Roomy 28) (low ∷ middle ∷ high ∷ [])
unfolding Roomy
heap-Roomy = (inr (inr (omega arith)), (inl refl, (inr (inr (omega arith)), tt)))

kmalloc-Agrees_example :
    Agrees 4096 heap (alloc (aligned_size 20) 4096 (low ∷ middle ∷ high ∷ [])) (kmalloc 4 20 heap)
kmalloc-Agrees_example =
    kmalloc-Agrees 4 20 100 (middle ∷ high ∷ []) heap (omega arith) (omega arith) refl refl
      (omega arith) heap-Roomy heap-Blocks

kfree-join_example :
    (h' : Heap) × (kfree 2 4204 heap ≡ some h')
    × (h'.base ≡ 4096)
    × Blocks 4096 4096 ([] ++ join low 40 (high ∷ [])) h'.mem
unfolding total first
kfree-join_example = kfree-join 2 40 [] low (high ∷ []) heap (omega arith) refl refl heap-Blocks

-- The three blocks have become one.
free-merges : join low 40 (high ∷ []) ≡ record { in_use = false; bytes = 200 } ∷ []
unfolding join
free-merges = refl

-- With `next_free` at the last block, which `kfree` unites with those in front, `kmalloc` goes on with
-- the stale header inside the united block.
abbrev at_high : Heap
at_high = record { base = 4096; next_free = 4236; mem = words }

kfree_runs :
    (h' : Heap) × (kfree 2 4204 at_high ≡ some h') × (h'.next_free ≡ 4236) × (h'.mem 4100 ≡ 200)
unfolding kfree find_prev unite
kfree_runs = (record at_high { mem = unite 4196 4096 at_high }, refl, refl, refl)

kmalloc_taken-none_example :
    (h' : Heap) × (kmalloc 1 92 heap ≡ some (returned 4104 h')) × (kmalloc 50 4 h' ≡ none)
kmalloc_taken-none_example =
    kmalloc_taken-none 50 92 4 heap (omega arith) (omega arith) refl (omega arith) refl
