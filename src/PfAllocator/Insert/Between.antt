-- ===== src/PfAllocator/Insert/Between.antt =====
-- `addChunk` of kernel/PFAllocator.cpp where the new segment lies between two others.
use own_os.Prelude.{ℕ, ◌≡◌, ◌≢◌, refl, true, false, some, ◌∷◌, arith, ◌==◌, Bool-cases, inl, inr}
use own_os.Prelude.Words.{add32}
use own_os.PfAllocator.{Seg, PfAllocator, segment, end_of, add_between}
use own_os.PfAllocator.Chain.{Cell, Cells, has, Holds, Chain, frame, relink}
use own_os.PfAllocator.Insert.{stop, joined, join_between}

module _ (seg c n : ℕ) (s : PfAllocator) (cn : c ≢ n) (cseg : c ≢ seg) (nseg : n ≢ seg) where
  pub touches : (i : ℕ) → c ≢ i → n ≢ i → seg ≢ i → (add_between seg c n s).segs i ≡ s.segs i
  unfolding add_between
  touches i a b d = ground arith

  join_both :
      (end_of (s.segs c).begin (s.segs c).blocks == (s.segs seg).begin) ≡ true
      → (end_of (s.segs c).begin (add32 (s.segs c).blocks (s.segs seg).blocks) == (s.segs n).begin)
        ≡ true
      → (add_between seg c n s).segs c
        ≡ segment
            (s.segs c).free
            (s.segs c).begin
            (add32 (add32 (s.segs c).blocks (s.segs seg).blocks) (s.segs n).blocks)
            (s.segs n).np
  unfolding add_between
  join_both h k = ground arith

  join_left :
      (end_of (s.segs c).begin (s.segs c).blocks == (s.segs seg).begin) ≡ true
      → (end_of (s.segs c).begin (add32 (s.segs c).blocks (s.segs seg).blocks) == (s.segs n).begin)
        ≡ false
      → ((add_between seg c n s).segs c
          ≡ segment
              (s.segs c).free
              (s.segs c).begin
              (add32 (s.segs c).blocks (s.segs seg).blocks)
              (s.segs c).np)
        × ((add_between seg c n s).segs n ≡ s.segs n)
  unfolding add_between
  join_left h k = ground arith

  join_right :
      (end_of (s.segs c).begin (s.segs c).blocks == (s.segs seg).begin) ≡ false
      → (end_of (s.segs seg).begin (s.segs seg).blocks == (s.segs n).begin) ≡ true
      → ((add_between seg c n s).segs c ≡ s.segs c)
        × ((add_between seg c n s).segs n
            ≡ segment
                (s.segs n).free
                (s.segs seg).begin
                (add32 (s.segs n).blocks (s.segs seg).blocks)
                (s.segs n).np)
  unfolding add_between
  join_right h k = ground arith

  join_none :
      (end_of (s.segs c).begin (s.segs c).blocks == (s.segs seg).begin) ≡ false
      → (end_of (s.segs seg).begin (s.segs seg).blocks == (s.segs n).begin) ≡ false
      → ((add_between seg c n s).segs c ≡ record (s.segs c) { np = some seg })
        × ((add_between seg c n s).segs seg ≡ record (s.segs seg) { np = some n })
        × ((add_between seg c n s).segs n ≡ s.segs n)
  unfolding add_between
  join_none h k = ground arith

module _ (seg c n : Cell) (cs : Cells) (s : PfAllocator) (at_c : Holds s.segs c)
    (at_n : Holds s.segs n) (at_seg : Holds s.segs seg) (c_out : has c.id (n ∷ cs) ≡ false)
    (n_out : has n.id cs ≡ false) (seg_out : has seg.id (c ∷ n ∷ cs) ≡ false)
    (c_np : (s.segs c.id).np ≡ some n.id) (tail : Chain s.segs (s.segs n.id).np cs) where
  abbrev t : ℕ → Seg
  t = (add_between seg.id c.id n.id s).segs

  tail_kept : Chain t (s.segs n.id).np cs
  tail_kept = frame s.segs t (s.segs n.id).np cs tail λ i h.
      touches seg.id c.id n.id s (ground arith) (ground arith) (ground arith) i (ground arith)
        (ground arith) (ground arith)

  pub add_between-Chain : Chain t (some c.id) (join_between seg c n cs)
  unfolding join_between
  add_between-Chain = elim (Bool-cases (stop c == seg.begin)) [
    | inl left ↦ rw left (elim (Bool-cases (stop (joined c seg) == n.begin)) [
      | inl right ↦
          let e = join_both seg.id c.id n.id s in
          rw right
            (refl, ground (arith, e), ground arith, relink t cs tail_kept (ground (arith, e)))
      | inr right ↦
          let e = join_left seg.id c.id n.id s in
          rw right (
            refl,
            ground (arith, e),
            ground arith,
            (
              ground (arith, e),
              ground (arith, e),
              n_out,
              relink t cs tail_kept (ground (arith, e)),
            ),
          )
    ])
    | inr left ↦ rw left (elim (Bool-cases (stop seg == n.begin)) [
      | inl right ↦
          let e = join_right seg.id c.id n.id s in
          rw right (
            refl,
            ground (arith, e),
            ground arith,
            (
              ground (arith, e),
              ground (arith, e),
              n_out,
              relink t cs tail_kept (ground (arith, e)),
            ),
          )
      | inr right ↦
          let e = join_none seg.id c.id n.id s in
          rw right (
            refl,
            ground (arith, e),
            ground arith,
            (
              ground (arith, e),
              ground (arith, e),
              ground arith,
              (
                ground (arith, e),
                ground (arith, e),
                n_out,
                relink t cs tail_kept (ground (arith, e)),
              ),
            ),
          )
    ])
  ]
