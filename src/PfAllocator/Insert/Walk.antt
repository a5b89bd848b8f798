-- ===== src/PfAllocator/Insert/Walk.antt =====
-- The walk of `addChunk` along the free list ends, and computes `insert_free`.
use own_os.Prelude.{
  ℕ, zero, suc, ◌<◌, ◌≡◌, refl, ◌∙◌, true, false, none, some, [], ◌∷◌, arith, ◌==◌, Bool-cases, inl,
  inr, length,
}
use own_os.PfAllocator.{
  PfAllocator, ok, Slot, np_of, deref, assign, is_between, add_between, add_last, add_loop,
}
use own_os.PfAllocator.Chain.{
  Cell, Cells, has, Holds, Chain, frame, relink, Framed, Outside, deref-assign, assign_others,
  unmoved, Outside-nil,
}
use own_os.PfAllocator.Insert.{
  stop, fits_between, join_last, join_between, insert_onto, insert_free,
}
use own_os.PfAllocator.Insert.Between.{touches, add_between-Chain}

module _ (k seg : ℕ) (slot : Slot) (s : PfAllocator) where
  loop_end : deref slot s ≡ none → add_loop (suc k) seg slot s ≡ ok tt (assign slot (some seg) s)
  unfolding add_loop
  loop_end e = rw (e, add_loop)

  loop_last :
      (c : ℕ)
      → deref slot s ≡ some c
      → (s.segs c).np ≡ none
      → add_loop (suc k) seg slot s ≡ ok tt (add_last seg c s)
  unfolding add_loop
  loop_last c e e' = rw (e, add_loop) (rw e')

  loop_between :
      (c n : ℕ)
      → deref slot s ≡ some c
      → (s.segs c).np ≡ some n
      → is_between seg c n s ≡ true
      → add_loop (suc k) seg slot s ≡ ok tt (add_between seg c n s)
  unfolding add_loop
  loop_between c n e e' h = rw (e, add_loop) (rw e' (rw h))

  loop_on :
      (c n : ℕ)
      → deref slot s ≡ some c
      → (s.segs c).np ≡ some n
      → is_between seg c n s ≡ false
      → add_loop (suc k) seg slot s ≡ add_loop k seg (np_of c) s
  unfolding add_loop
  loop_on c n e e' h = rw (e, add_loop) (rw e' (rw h))

module _ (seg c : Cell) (s : PfAllocator) where
  touches_last :
      (i : ℕ)
      → (c.id == i) ≡ false
      → (seg.id == i) ≡ false
      → (add_last seg.id c.id s).segs i ≡ s.segs i
  unfolding add_last
  touches_last i a b = ground arith

  add_last-Chain :
      (tl : Cells)
      → Holds s.segs c
      → Holds s.segs seg
      → Chain s.segs (s.segs seg.id).np tl
      → (s.segs c.id).np ≡ none
      → (c.id == seg.id) ≡ false
      → has c.id tl ≡ false
      → has seg.id tl ≡ false
      → Chain (add_last seg.id c.id s).segs (some c.id) (join_last tl seg c)
  unfolding add_last join_last
  add_last-Chain tl at_c at_seg behind c_np ne c_out seg_out =
      elim (Bool-cases (stop c == seg.begin)) [
        | inl h ↦ rw h (refl, ground arith, refl, ground arith)
        | inr h ↦
            let t = assign (np_of c.id) (some seg.id) s in
            let kept = frame s.segs t.segs (s.segs seg.id).np tl behind λ i h. ground arith in
            ground (arith, kept)
      ]

-- A walk that reaches `t` from `s` turned the list at `slot` from `cs` into `ds`, and changed nothing
-- else but segment `seg`.
pub record Turns (slot : Slot) (cs ds : Cells) (seg : ℕ) (s t : PfAllocator) : Type 0 where
  pub chain : Chain t.segs (deref slot t) ds
  pub framed : Framed slot (deref slot t) cs seg s t

has-insert_onto :
    (i : ℕ) (tl : Cells) (seg : Cell) (cs : Cells)
    → has i cs ≡ false
    → (seg.id == i) ≡ false
    → has i tl ≡ false
    → has i (insert_onto tl seg cs) ≡ false
unfolding insert_onto
has-insert_onto i tl seg [] h k l = ground arith
has-insert_onto i tl seg (c ∷ []) h k l = ground arith
has-insert_onto i tl seg (c ∷ n ∷ cs) h k l = ground (arith, has-insert_onto i tl seg (n ∷ cs))

pub has-insert_free :
    (i : ℕ) (seg : Cell) (cs : Cells)
    → has i cs ≡ false
    → (seg.id == i) ≡ false
    → has i (insert_free seg cs) ≡ false
has-insert_free i seg cs h k = has-insert_onto i [] seg cs h k refl

-- Segment `seg` is in no list at `slot`, and its `np` leads through other segments `tl`.
pub record Loose (slot : Slot) (seg : Cell) (cs tl : Cells) (s : PfAllocator) : Type 0 where
  pub holds : Holds s.segs seg
  pub chain : Chain s.segs (s.segs seg.id).np tl
  pub slot_out : Outside slot tl
  pub apart : (i : ℕ) → has i tl ≡ true → has i (seg ∷ cs) ≡ false

pub Loose-nil :
    (slot : Slot) (seg : Cell) (cs : Cells) (s : PfAllocator)
    → Holds s.segs seg
    → (s.segs seg.id).np ≡ none
    → Loose slot seg cs [] s
Loose-nil slot seg cs s hold np = record {
  holds = hold;
  chain = np;
  slot_out = Outside-nil slot;
  apart = λ i h. cc;
}

-- One step of the walk, over a first node `c` that the new segment does not follow.
pub Turns-cons :
    (slot : Slot) (c seg : Cell) (cs ds : Cells) (s t : PfAllocator)
    → Chain s.segs (deref slot s) (c ∷ cs)
    → has c.id ds ≡ false
    → (c.id == seg.id) ≡ false
    → Outside slot (seg ∷ c ∷ cs)
    → Turns (np_of c.id) cs ds seg.id s t
    → Turns slot (c ∷ cs) (c ∷ ds) seg.id s t
Turns-cons slot c seg cs ds s t (e, holds, out, rest) fresh ne away r =
    let kept =
      unmoved slot (c ∷ cs) seg {s = s} {t = t} (λ i h. ground (arith, r.framed.others i))
        r.framed.free_head r.framed.used_head away in
    let here = r.framed.others c.id out (ground arith) in
    record {
      chain = (kept.0 ∙ e, ground (arith, here), fresh, r.chain);
      framed = rw (kept.0) kept.1;
    }

module _ (seg c : Cell) (s : PfAllocator) where
  pub between-agrees :
      (n : Cell)
      → Holds s.segs c
      → Holds s.segs n
      → Holds s.segs seg
      → is_between seg.id c.id n.id s ≡ fits_between seg c n
  between-agrees n at_c at_n at_seg = rw (at_c.begin, at_n.begin, at_seg.begin)

-- An update of the cells `cs` and `seg` alone, which leaves `slot` as it is.
pub Turns-stay :
    (slot : Slot) (seg : Cell) (cs ds : Cells) (s t : PfAllocator)
    → ((i : ℕ) → has i (seg ∷ cs) ≡ false → t.segs i ≡ s.segs i)
    → t.seg_free ≡ s.seg_free
    → t.seg_used ≡ s.seg_used
    → Outside slot (seg ∷ cs)
    → Chain t.segs (deref slot s) ds
    → Turns slot cs ds seg.id s t
Turns-stay slot seg cs ds s t same f u away h =
    let kept = unmoved slot cs seg {s = s} {t = t} same f u away in
    record { chain = relink t.segs ds h kept.0; framed = rw (kept.0) kept.1 }

-- The end of the walk: the new segment is hung into `slot`.
pub Turns-end :
    (slot : Slot) (seg : Cell) (tl : Cells) (s : PfAllocator)
    → Loose slot seg [] tl s
    → Outside slot (seg ∷ [])
    → Turns slot [] (seg ∷ tl) seg.id s (assign slot (some seg.id) s)
Turns-end slot seg tl s l away =
    let p = some seg.id in
    let here = assign_others p s slot (seg ∷ []) seg.id away (ground arith) in
    let t = assign slot p s in
    let kept =
      frame s.segs t.segs (s.segs seg.id).np tl l.chain
        λ i h. assign_others p s slot tl i l.slot_out h in
    record {
      chain = (
        deref-assign p s slot,
        ground (arith, here, l.holds),
        ground (arith, l.apart seg.id),
        relink t.segs tl kept (ground (arith, here)),
      );
      framed =
          rw (deref-assign p s slot)
            (record { others = λ i h k. refl; free_head = refl; used_head = refl });
    }

module _ (seg c n : ℕ) (s : PfAllocator) where
  add_between-heads :
      ((add_between seg c n s).seg_free ≡ s.seg_free)
      × ((add_between seg c n s).seg_used ≡ s.seg_used)
  unfolding add_between
  add_between-heads = ground arith

module _ (seg c : ℕ) (s : PfAllocator) where
  add_last-heads :
      ((add_last seg c s).seg_free ≡ s.seg_free) × ((add_last seg c s).seg_used ≡ s.seg_used)
  unfolding add_last
  add_last-heads = ground arith

pub add_loop-Turns :
    (k : ℕ) (seg : Cell) (cs tl : Cells) (slot : Slot) (s : PfAllocator)
    → Chain s.segs (deref slot s) cs
    → Loose slot seg cs tl s
    → Outside slot (seg ∷ cs)
    → has seg.id cs ≡ false
    → length cs < k
    → (t : PfAllocator) × (add_loop k seg.id slot s ≡ ok tt t)
      × Turns slot cs (insert_onto tl seg cs) seg.id s t
unfolding insert_onto
add_loop-Turns zero seg cs tl slot s h l away out fuel = absurd (omega arith)
add_loop-Turns (suc k) seg [] tl slot s h l away out fuel =
    (assign slot (some seg.id) s, loop_end k seg.id slot s h, Turns-end slot seg tl s l away)
add_loop-Turns (suc k) seg (c ∷ []) tl slot s (e, at_c, _, e') l away out fuel =
    let t = add_last seg.id c.id s in
    let heads = add_last-heads seg.id c.id s in
    (
      t,
      loop_last k seg.id slot s c.id e e',
      Turns-stay slot seg (c ∷ []) (join_last tl seg c) s t
          (λ i h. touches_last seg c s i (ground arith) (ground arith)) heads.0 heads.1 away
          (rw e (
            add_last-Chain seg c s tl at_c l.holds l.chain e' (ground arith)
              (ground (arith, l.apart c.id)) (ground (arith, l.apart seg.id)))),
    )
add_loop-Turns (suc k) seg (c ∷ n ∷ cs) tl slot s (e, at_c, c_out, (e', at_n, n_out, tail)) l away
      out fuel =
    let agrees = between-agrees seg c s n at_c at_n l.holds in
    elim (Bool-cases (fits_between seg c n)) [
      | inl here ↦
          let t = add_between seg.id c.id n.id s in
          let heads = add_between-heads seg.id c.id n.id s in
          (
            t,
            loop_between k seg.id slot s c.id n.id e e' (agrees ∙ here),
            rw here (
                Turns-stay slot seg (c ∷ n ∷ cs) (join_between seg c n cs) s t
                  (λ i h.
                    touches seg.id c.id n.id s (ground arith) (ground arith) (ground arith) i
                      (ground arith) (ground arith) (ground arith))
                  heads.0 heads.1 away
                  (rw e
                    (add_between-Chain seg c n cs s at_c at_n l.holds c_out n_out out e' tail))),
          )
      | inr on ↦
          let next : Loose (np_of c.id) seg (n ∷ cs) tl s = record {
            holds = l.holds;
            chain = l.chain;
            slot_out = ground (arith, l.apart c.id);
            apart = λ i h. ground (arith, l.apart i h);
          } in
          let (t, run, r) =
            add_loop-Turns k seg (n ∷ cs) tl (np_of c.id) s (e', at_n, n_out, tail) next
              (ground arith) (ground arith) (omega arith) in
          (
            t,
            loop_on k seg.id slot s c.id n.id e e' (agrees ∙ on) ∙ run,
            rw on (
                Turns-cons slot c seg (n ∷ cs) (insert_onto tl seg (n ∷ cs)) s t
                  (e, at_c, c_out, (e', at_n, n_out, tail))
                  (has-insert_onto c.id tl seg (n ∷ cs) c_out (ground arith)
                    (ground (arith, l.apart c.id)))
                  (ground arith) away r),
          )
    ]
