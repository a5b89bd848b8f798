-- ===== src/PfAllocator/Alloc/FreeCorrect.antt =====
-- What `freeChunk` leaves, also where the freed segment drags its old successors along.
use own_os.Prelude.{ℕ, ◌≡◌, ◌∙◌, true, false, Option, none, some, ◌∷◌, arith}
use own_os.PfAllocator.{
  PfAllocator, Run, ok, panic, free_head, used_head, invalid_chunk_freed, fuel,
}
use own_os.PfAllocator.Alloc.{free_chunk}
use own_os.PfAllocator.Alloc.Free.{Freed, take_at, Frees, free_loop-Frees}
use own_os.PfAllocator.Chain.{Cell, Cells, has, Chain, frame, relink}
use own_os.PfAllocator.Insert.{insert_onto}
use own_os.PfAllocator.Insert.Walk.{add_loop-Turns, Loose}
use own_os.PfAllocator.State.{IsState, length-Chain}

-- The lists after the call: `ds` and `rest` may share segments.
pub record Lists (ds us : Cells) (t : PfAllocator) : Type 0 where
  pub free : Chain t.segs t.seg_free ds
  pub used : Chain t.segs t.seg_used us

abbrev pub Outcome : ℕ → Cells → Cells → PfAllocator → Run (Unit {0}) → Option Freed → Type 0
Outcome addr fs us s run none = run ≡ panic invalid_chunk_freed
Outcome addr fs us s run (some r) =
    (t : PfAllocator) × (run ≡ ok tt t)
    × Lists (insert_onto r.behind r.tmp fs) r.rest t
    × (has r.tmp.id r.rest ≡ false)

behind_apart :
    (i : ℕ) (tmp : Cell) (fs rest us : Cells)
    → has i rest ≡ true
    → has i us ≡ true
    → has tmp.id rest ≡ false
    → (has i fs ≡ true → has i us ≡ false)
    → has i (tmp ∷ fs) ≡ false
behind_apart i tmp fs rest us h k out apart = ground arith

-- `freeChunk` ends, on every branch: it panics on an address that no used range begins at, or unlinks
-- the range and adds it to the free list, with what its `np` still leads to behind it.
pub free_chunk-Outcome :
    (addr : ℕ) (fs us : Cells) (s : PfAllocator)
    → IsState fs us s
    → Outcome addr fs us s (free_chunk addr s) (take_at addr us)
unfolding free_chunk
free_chunk-Outcome addr fs us s v = go (take_at addr us) (
    free_loop-Frees fuel addr us used_head s v.used tt
      (length-Chain s.segs s.seg_used us v.used v.used_in))
  where
    go :
        (r : Option Freed)
        → Frees addr used_head us s (free_chunk addr s) r
        → Outcome addr fs us s (free_chunk addr s) r
    go none f = f
    go (some r) (t, eq, u) =
        let free_kept : Chain t.segs t.seg_free fs =
          relink t.segs fs
            (frame s.segs t.segs s.seg_free fs v.free λ i h. ground (arith, u.others i, v.apart i))
            u.free_head in
        let loose : Loose free_head r.tmp fs r.behind t = record {
          holds = u.tmp;
          chain = u.behind;
          slot_out = tt;
          apart = λ i h.
              behind_apart i r.tmp fs r.rest us (u.behind_in i h) (u.rest_in i (u.behind_in i h))
                u.tmp_out (v.apart i);
        } in
        let (t', run, turns) =
          add_loop-Turns fuel r.tmp fs r.behind free_head t free_kept loose tt
            (ground (arith, v.apart r.tmp.id, u.tmp_in))
            (length-Chain s.segs s.seg_free fs v.free v.free_in) in
        (
          t',
          eq ∙ run,
          record {
            free = turns.chain;
            used =
                relink t'.segs r.rest
                  (frame t.segs t'.segs t.seg_used r.rest u.rest
                    λ i h. ground (arith, turns.framed.others i, v.apart i, u.rest_in i, u.tmp_out))
                  turns.framed.used_head;
          },
          u.tmp_out,
        )
