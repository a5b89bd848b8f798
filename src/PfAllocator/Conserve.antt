-- ===== src/PfAllocator/Conserve.antt =====
-- `allocChunk` as a whole: the memory of the two lists, and when it panics.
use own_os.Prelude.{
  ℕ, ◌+◌, ◌<◌, ◌≡◌, refl, false, Option, none, some, [], ◌∷◌, arith, ◌⊎◌, inl, inr, if◌then◌else◌,
  Bool-cases, All, leb,
}
use own_os.PfAllocator.{
  PfAllocator, Run, ok, panic, cannot_allocate_segment, cannot_find_free_segment, max_num_seg,
}
use own_os.PfAllocator.Alloc.{alloc_chunk}
use own_os.PfAllocator.Alloc.Take.{take_first, behind}
use own_os.PfAllocator.Alloc.Correct.{Outcome, alloc_chunk-Outcome}
use own_os.PfAllocator.Chain.{Cell, cell, Cells}
use own_os.PfAllocator.Insert.{insert_used}
use own_os.PfAllocator.State.{IsState}
use own_os.PfAllocator.Pages.{cover, in_range, Fits, cover-insert_used, Splits, cover-take_first}

-- First fit fails only where every range is too small.
abbrev pub TooSmall : ℕ → Cells → Type 0
TooSmall n cs = All (λ (c : Cell). c.blocks < n) cs

behind-none : (c : Cell) (r : Option (ℕ × Cells)) → behind c r ≡ none → r ≡ none
behind-none c none h = refl
behind-none c (some (b, ds)) h = cc

take_first-none : (n : ℕ) (cs : Cells) → take_first n cs ≡ none → TooSmall n cs
unfolding take_first
take_first-none n [] h = tt
take_first-none n (c ∷ cs) h = elim (Bool-cases (leb n c.blocks)) [
  | inl large ↦ cc (rw large at h)
  | inr small ↦
      (ground arith, take_first-none n cs (behind-none c (take_first n cs) (rw small at h)))
]

-- `run` panics, as all segments are in use or all free ranges are too small, or returns `b`, and the
-- `n` blocks from `b` have left the free list for the used one, which changed in nothing else.
abbrev pub Conserves : ℕ → Cells → Cells → PfAllocator → Run ℕ → Type 0
Conserves n fs us s run =
    ((run ≡ panic cannot_find_free_segment) × ((j : ℕ) → j < max_num_seg → (s.segs j).free ≡ false))
    ⊎ ((run ≡ panic cannot_allocate_segment) × TooSmall n fs)
    ⊎ ((b : ℕ) × (ds : Cells) × (ws : Cells) × (t : PfAllocator) × (run ≡ ok b t)
        × IsState ds ws t
        × ((a : ℕ)
            → ((if in_range a b n then 1 else 0) + cover a ds ≡ cover a fs)
              × (cover a ws ≡ (if in_range a b n then 1 else 0) + cover a us)))

-- `allocChunk` on two separate lists of ranges below 4 GiB panics only where all segments are in use
-- or every free range is too small. Otherwise it returns an address, and moves exactly the `n` blocks
-- there from the free list to the used one, which stay separate.
pub alloc_chunk-Conserves :
    (n : ℕ) (fs us : Cells) (s : PfAllocator)
    → IsState fs us s
    → All Fits fs
    → Conserves n fs us s (alloc_chunk n s)
alloc_chunk-Conserves n fs us s v f = go (alloc_chunk-Outcome n fs us s v)
  where
    split : (a b : ℕ) (ds : Cells) → take_first n fs ≡ some (b, ds) → Splits a n fs (some (b, ds))
    split a b ds e = rw e at (cover-take_first a n fs f)

    go : Outcome n fs us s (alloc_chunk n s) → Conserves n fs us s (alloc_chunk n s)
    go (inl h) = inl h
    go (inr (inl (run, e))) = inr (inl (run, take_first-none n fs e))
    go (inr (inr (u, b, ds, t, run, e, st))) = inr (
        inr (
          b,
          ds,
          insert_used (cell u b n) us,
          t,
          run,
          st,
          λ a. (split a b ds e, cover-insert_used a (cell u b n) us),
        ))
