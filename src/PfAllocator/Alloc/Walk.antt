-- ===== src/PfAllocator/Alloc/Walk.antt =====
-- The walk of `allocChunk` along the free list ends, and takes the first range that is large enough.
use own_os.Prelude.{
  ℕ, zero, suc, ◌<◌, ◌≡◌, true, false, Option, none, some, [], ◌∷◌, arith, leb, Bool-cases, inl,
  inr, length,
}
use own_os.PfAllocator.{
  PfAllocator, Run, ok, panic, Slot, np_of, cannot_allocate_segment, deref, used_chunk, and_then,
}
use own_os.PfAllocator.Alloc.{shrink, drop_empty, alloc_loop}
use own_os.PfAllocator.Chain.{Cell, cell, Cells, has, Chain, Outside}
use own_os.PfAllocator.Insert.Walk.{Turns-cons}
use own_os.PfAllocator.Alloc.Take.{remains, keep, behind, take_first, Taken, take_here}

module _ (k n u : ℕ) (slot : Slot) (s : PfAllocator) where
  loop_end : deref slot s ≡ none → alloc_loop (suc k) n u slot s ≡ panic cannot_allocate_segment
  unfolding alloc_loop
  loop_end e = rw (e, alloc_loop)

  loop_take :
      (c : ℕ)
      → deref slot s ≡ some c
      → leb n (s.segs c).blocks ≡ true
      → alloc_loop (suc k) n u slot s
        ≡ and_then
            (used_chunk u (drop_empty c slot (shrink n u c s)))
            (λ _ s. ok (s.segs u).begin s)
  unfolding alloc_loop
  loop_take c e h = rw (e, alloc_loop) (rw h)

  loop_on :
      (c : ℕ)
      → deref slot s ≡ some c
      → leb n (s.segs c).blocks ≡ false
      → alloc_loop (suc k) n u slot s ≡ alloc_loop k n u (np_of c) s
  unfolding alloc_loop
  loop_on c e h = rw (e, alloc_loop) (rw h)

-- What `allocChunk` does once it holds the segment `u`, by what `take_first` says of the free list.
abbrev pub Allocates : (n u : ℕ) → Slot → Cells → PfAllocator → Run ℕ → Option (ℕ × Cells) → Type 0
Allocates n u slot cs s run none = run ≡ panic cannot_allocate_segment
Allocates n u slot cs s run (some (b, ds)) =
    (t : PfAllocator) × (run ≡ and_then (used_chunk u t) (λ _ s. ok (s.segs u).begin s))
    × Taken n u b slot cs ds s t

has-keep :
    (i n : ℕ) (c : Cell) (cs : Cells)
    → has i (c ∷ cs) ≡ false
    → has i (keep (remains n c) cs) ≡ false
has-keep i n c cs h = ground arith

-- The ids in the list that is left were there before.
abbrev pub TakesFrom : Cells → Option (ℕ × Cells) → Type 0
TakesFrom cs none = Unit
TakesFrom cs (some (b, ds)) = (i : ℕ) → has i cs ≡ false → has i ds ≡ false

pub has-take_first : (n : ℕ) (cs : Cells) → TakesFrom cs (take_first n cs)
unfolding take_first
has-take_first n [] = tt
has-take_first n (c ∷ cs) = elim (Bool-cases (leb n c.blocks)) [
  | inl h ↦ rw h (λ i out. has-keep i n c cs out)
  | inr h ↦ rw h (go (take_first n cs) (has-take_first n cs))
]
  where
    go : (r : Option (ℕ × Cells)) → TakesFrom cs r → TakesFrom (c ∷ cs) (behind c r)
    go none f = tt
    go (some (b, ds)) f = λ i out. ground (arith, f i)

pub alloc_loop-Allocates :
    (k n u : ℕ) (cs : Cells) (slot : Slot) (s : PfAllocator)
    → Chain s.segs (deref slot s) cs
    → Outside slot (cell u 0 0 ∷ cs)
    → has u cs ≡ false
    → (s.segs u).free ≡ false
    → length cs < k
    → Allocates n u slot cs s (alloc_loop k n u slot s) (take_first n cs)
unfolding take_first
alloc_loop-Allocates zero n u cs slot s h away out u_free fuel = absurd (omega arith)
alloc_loop-Allocates (suc k) n u [] slot s h away out u_free fuel = loop_end k n u slot s h
alloc_loop-Allocates (suc k) n u (c ∷ cs) slot s (e, at_c, c_out, tail) away out u_free fuel =
    elim (Bool-cases (leb n c.blocks)) [
      | inl h ↦ rw h (
        drop_empty c.id slot (shrink n u c.id s),
        loop_take k n u slot s c.id e (rw at_c.blocks h),
        take_here n u c cs slot s (e, at_c, c_out, tail) away out u_free,
      )
      | inr h ↦ rw h (
          rw (loop_on k n u slot s c.id e (rw at_c.blocks h)) (
            go (take_first n cs) (has-take_first n cs) (
              alloc_loop-Allocates k n u cs (np_of c.id) s tail (ground arith) (ground arith) u_free
                (omega arith))))
    ]
  where
    run : Run ℕ
    run = alloc_loop k n u (np_of c.id) s

    go :
        (r : Option (ℕ × Cells))
        → TakesFrom cs r
        → Allocates n u (np_of c.id) cs s run r
        → Allocates n u slot (c ∷ cs) s run (behind c r)
    go none f a = a
    go (some (b, ds)) f (t, eq, (turns, taken)) = (
      t,
      eq,
      (
        Turns-cons slot c (cell u 0 0) cs ds s t (e, at_c, c_out, tail) (f c.id c_out)
            (ground arith) away turns,
        taken,
      ),
    )
