-- ===== src/PfAllocator/Insert/UsedWalk.antt =====
-- The walk of `usedChunk` along the used list ends, and computes `insert_used`.
use own_os.Prelude.{
  ℕ, zero, suc, ◌<◌, ◌≡◌, refl, ◌∙◌, true, false, none, some, [], ◌∷◌, arith, ◌==◌, Bool-cases, inl,
  inr, length,
}
use own_os.PfAllocator.{
  PfAllocator, ok, Slot, np_of, deref, assign, is_between, hang_between, used_loop,
}
use own_os.PfAllocator.Chain.{Cell, Cells, has, Holds, Chain, frame, relink, Outside}
use own_os.PfAllocator.Insert.{fits_between, insert_used}
use own_os.PfAllocator.Insert.Walk.{
  Turns, Turns-cons, Turns-stay, Turns-end, Loose-nil, between-agrees,
}

module _ (k seg : ℕ) (slot : Slot) (s : PfAllocator) where
  loop_end : deref slot s ≡ none → used_loop (suc k) seg slot s ≡ ok tt (assign slot (some seg) s)
  unfolding used_loop
  loop_end e = rw (e, used_loop)

  loop_last :
      (c : ℕ)
      → deref slot s ≡ some c
      → (s.segs c).np ≡ none
      → used_loop (suc k) seg slot s ≡ ok tt (assign (np_of c) (some seg) s)
  unfolding used_loop
  loop_last c e e' = rw (e, used_loop) (rw e')

  loop_between :
      (c n : ℕ)
      → deref slot s ≡ some c
      → (s.segs c).np ≡ some n
      → is_between seg c n s ≡ true
      → used_loop (suc k) seg slot s ≡ ok tt (hang_between seg c n s)
  unfolding used_loop
  loop_between c n e e' h = rw (e, used_loop) (rw e' (rw h))

  loop_on :
      (c n : ℕ)
      → deref slot s ≡ some c
      → (s.segs c).np ≡ some n
      → is_between seg c n s ≡ false
      → used_loop (suc k) seg slot s ≡ used_loop k seg (np_of c) s
  unfolding used_loop
  loop_on c n e e' h = rw (e, used_loop) (rw e' (rw h))

pub has-insert_used :
    (i : ℕ) (seg : Cell) (cs : Cells)
    → has i cs ≡ false
    → (seg.id == i) ≡ false
    → has i (insert_used seg cs) ≡ false
unfolding insert_used
has-insert_used i seg [] h k = ground arith
has-insert_used i seg (c ∷ []) h k = ground arith
has-insert_used i seg (c ∷ n ∷ cs) h k = ground (arith, has-insert_used i seg (n ∷ cs))

module _ (seg c : Cell) (s : PfAllocator) (at_c : Holds s.segs c) (at_seg : Holds s.segs seg)
    (ne : (c.id == seg.id) ≡ false) where
  hang_last-Chain :
      (s.segs seg.id).np ≡ none
      → Chain (assign (np_of c.id) (some seg.id) s).segs (some c.id) (c ∷ seg ∷ [])
  hang_last-Chain np =
      (refl, ground arith, ground arith, (ground arith, ground arith, refl, ground arith))

  hang_between-Chain :
      (n : Cell) (cs : Cells)
      → Holds s.segs n
      → has n.id cs ≡ false
      → has c.id (n ∷ cs) ≡ false
      → has seg.id (n ∷ cs) ≡ false
      → Chain s.segs (s.segs n.id).np cs
      → Chain
          (assign (np_of c.id) (some seg.id) (assign (np_of seg.id) (some n.id) s)).segs
          (some c.id)
          (c ∷ seg ∷ n ∷ cs)
  unfolding hang_between
  hang_between-Chain n cs at_n n_out c_out seg_out tail =
      let t = hang_between seg.id c.id n.id s in
      (
        refl,
        ground arith,
        ground arith,
        (
          ground arith,
          ground arith,
          seg_out,
          (
            ground arith,
            ground arith,
            n_out,
            relink t.segs cs (frame s.segs t.segs (s.segs n.id).np cs tail λ i h. ground arith)
                (ground arith),
          ),
        ),
      )

pub used_loop-Turns :
    (k : ℕ) (seg : Cell) (cs : Cells) (slot : Slot) (s : PfAllocator)
    → Chain s.segs (deref slot s) cs
    → Holds s.segs seg
    → (s.segs seg.id).np ≡ none
    → Outside slot (seg ∷ cs)
    → has seg.id cs ≡ false
    → length cs < k
    → (t : PfAllocator) × (used_loop k seg.id slot s ≡ ok tt t)
      × Turns slot cs (insert_used seg cs) seg.id s t
unfolding insert_used hang_between
used_loop-Turns zero seg cs slot s h at_seg np away out fuel = absurd (omega arith)
used_loop-Turns (suc k) seg [] slot s h at_seg np away out fuel = (
  assign slot (some seg.id) s,
  loop_end k seg.id slot s h,
  Turns-end slot seg [] s (Loose-nil slot seg [] s at_seg np) away,
)
used_loop-Turns (suc k) seg (c ∷ []) slot s (e, at_c, _, e') at_seg np away out fuel =
    let t = assign (np_of c.id) (some seg.id) s in
    (
      t,
      loop_last k seg.id slot s c.id e e',
      Turns-stay slot seg (c ∷ []) (c ∷ seg ∷ []) s t (λ i h. ground arith) refl refl away
          (rw e (hang_last-Chain seg c s at_c at_seg (ground arith) np)),
    )
used_loop-Turns (suc k) seg (c ∷ n ∷ cs) slot s (e, at_c, c_out, (e', at_n, n_out, tail)) at_seg np
      away out fuel =
    let agrees = between-agrees seg c s n at_c at_n at_seg in
    elim (Bool-cases (fits_between seg c n)) [
      | inl here ↦
          let t = hang_between seg.id c.id n.id s in
          (
            t,
            loop_between k seg.id slot s c.id n.id e e' (agrees ∙ here),
            rw here (
                Turns-stay slot seg (c ∷ n ∷ cs) (c ∷ seg ∷ n ∷ cs) s t (λ i h. ground arith) refl
                  refl away
                  (rw e (
                    hang_between-Chain seg c s at_c at_seg (ground arith) n cs at_n n_out c_out
                      (ground arith) tail))),
          )
      | inr on ↦
          let (t, run, r) =
            used_loop-Turns k seg (n ∷ cs) (np_of c.id) s (e', at_n, n_out, tail) at_seg np
              (ground arith) (ground arith) (omega arith) in
          (
            t,
            loop_on k seg.id slot s c.id n.id e e' (agrees ∙ on) ∙ run,
            rw on (
                Turns-cons slot c seg (n ∷ cs) (insert_used seg (n ∷ cs)) s t
                  (e, at_c, c_out, (e', at_n, n_out, tail))
                  (has-insert_used c.id seg (n ∷ cs) c_out (ground arith)) (ground arith) away r),
          )
    ]
