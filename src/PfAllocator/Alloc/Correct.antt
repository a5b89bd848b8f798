-- ===== src/PfAllocator/Alloc/Correct.antt =====
-- `allocChunk` on the two lists: what it returns or panics with, and the lists that it leaves.
use own_os.Prelude.{
  ℕ, ◌<◌, ◌≡◌, refl, ◌∙◌, true, false, Option, none, some, [], ◌∷◌, arith, ◌⊎◌, inl, inr,
  Bool-cases,
}
use own_os.PfAllocator.{
  Seg, PfAllocator, Run, ok, panic, free_head, used_head, cannot_find_free_segment,
  cannot_allocate_segment, put, used_chunk, max_num_seg, fuel, and_then,
}
use own_os.PfAllocator.Alloc.{alloc_chunk, alloc_loop}
use own_os.PfAllocator.Alloc.Take.{take_first, Taken}
use own_os.PfAllocator.Alloc.Walk.{alloc_loop-Allocates, Allocates, TakesFrom, has-take_first}
use own_os.PfAllocator.Chain.{Cell, cell, Cells, has, Chain, frame, relink}
use own_os.PfAllocator.Insert.{insert_used, fits_between}
use own_os.PfAllocator.Insert.UsedWalk.{used_loop-Turns, has-insert_used}
use own_os.PfAllocator.State.{IsState, length-Chain, not-has_of_free, get_seg_loop-Found}

-- `run` panics as no segment is free, or as no range is large enough, or takes the first that is.
abbrev pub Outcome : ℕ → Cells → Cells → PfAllocator → Run ℕ → Type 0
Outcome n fs us s run =
    ((run ≡ panic cannot_find_free_segment) × ((j : ℕ) → j < max_num_seg → (s.segs j).free ≡ false))
    ⊎ ((run ≡ panic cannot_allocate_segment) × (take_first n fs ≡ none))
    ⊎ ((u : ℕ) × (b : ℕ) × (ds : Cells) × (t : PfAllocator) × (run ≡ ok b t)
        × (take_first n fs ≡ some (b, ds))
        × IsState ds (insert_used (cell u b n) us) t)

begin_of :
    (f : ℕ → Seg) (p : Option ℕ) (c : Cell) (cs : Cells)
    → Chain f p (insert_used c cs)
    → (f c.id).begin ≡ c.begin
unfolding insert_used
begin_of f p c [] h = h.1.begin
begin_of f p c (d ∷ []) h = h.3.1.begin
begin_of f p c (d ∷ n ∷ cs) h = elim (Bool-cases (fits_between c d n)) [
  | inl here ↦ (rw here at h).3.1.begin
  | inr on ↦ begin_of f (f d.id).np c (n ∷ cs) (rw on at h).3
]

module _ (n u : ℕ) (fs us : Cells) (s : PfAllocator) (v : IsState fs us s) (u_in : u < max_num_seg)
    (u_free : (s.segs u).free ≡ true) where
  abbrev s1 : PfAllocator
  s1 = put u (record (s.segs u) { free = false }) s

  u_fs : has u fs ≡ false
  u_fs = not-has_of_free s.segs s.seg_free fs u v.free u_free

  u_us : has u us ≡ false
  u_us = not-has_of_free s.segs s.seg_used us u v.used u_free

  free1 : Chain s1.segs s1.seg_free fs
  free1 = frame s.segs s1.segs s.seg_free fs v.free λ i h. ground (arith, u_fs)

  used1 : Chain s1.segs s1.seg_used us
  used1 = frame s.segs s1.segs s.seg_used us v.used λ i h. ground (arith, u_us)

  -- The taken segment goes to the used list, which the walk along the free list left alone.
  finish :
      (b : ℕ) (ds : Cells) (t : PfAllocator)
      → TakesFrom fs (some (b, ds))
      → Taken n u b free_head fs ds s1 t
      → (t' : PfAllocator) × (and_then (used_chunk u t) (λ _ s. ok (s.segs u).begin s) ≡ ok b t')
        × IsState ds (insert_used (cell u b n) us) t'
  unfolding used_chunk
  finish b ds t from (turns, taken) =
      let kept : Chain t.segs t.seg_used us =
        relink t.segs us
          (frame s1.segs t.segs s.seg_used us used1
            λ i h. ground (arith, turns.framed.others i, v.apart i, u_us))
          turns.framed.used_head in
      let (t', run, r) =
        used_loop-Turns fuel (cell u b n) us used_head t kept (ground arith) (ground arith) tt u_us
          (length-Chain s.segs s.seg_used us v.used v.used_in) in
      (
        t',
        rw run (rw (begin_of t'.segs t'.seg_used (cell u b n) us r.chain)),
        record {
          free =
              relink t'.segs ds
                (frame t.segs t'.segs t.seg_free ds turns.chain
                  λ i h. ground (arith, r.framed.others i, v.apart i, from i, from u u_fs))
                r.framed.free_head;
          used = r.chain;
          apart = λ i h.
              has-insert_used i (cell u b n) us (ground (arith, v.apart i, from i))
                (ground (arith, from u u_fs));
          free_in = λ i h. v.free_in i (ground (arith, from i));
          used_in = λ i h. ground (arith, v.used_in i, has-insert_used i (cell u b n) us);
        },
      )

  with_segment :
      alloc_chunk n s ≡ alloc_loop fuel n u free_head s1 → Outcome n fs us s (alloc_chunk n s)
  with_segment run = rw run (
      go (take_first n fs) refl (has-take_first n fs) (
        alloc_loop-Allocates fuel n u fs free_head s1 free1 tt u_fs (ground arith)
          (length-Chain s.segs s.seg_free fs v.free v.free_in)))
    where
      left : Run ℕ
      left = alloc_loop fuel n u free_head s1

      go :
          (r : Option (ℕ × Cells))
          → take_first n fs ≡ r
          → TakesFrom fs r
          → Allocates n u free_head fs s1 left r
          → Outcome n fs us s left
      go none e from a = inr (inl (a, e))
      go (some (b, ds)) e from (t, eq, taken) =
          let (t', fin, st) = finish b ds t from taken in inr (inr (u, b, ds, t', eq ∙ fin, e, st))

-- `allocChunk` ends, on every branch as `Outcome` says.
pub alloc_chunk-Outcome :
    (n : ℕ) (fs us : Cells) (s : PfAllocator)
    → IsState fs us s
    → Outcome n fs us s (alloc_chunk n s)
unfolding alloc_chunk
alloc_chunk-Outcome n fs us s v = elim (get_seg_loop-Found max_num_seg 0 s) [
  | inl (run, all) ↦ inl (rw run, λ j h. all j (omega arith) (omega arith))
  | inr (u, h, free, run) ↦ with_segment n u fs us s v (omega arith) free (rw run)
]
