-- ===== src/PfAllocator/Alloc/Take.antt =====
-- `allocChunk` at the range it takes: the segment shrinks, or leaves the free list if it is empty.
use own_os.Prelude.{
  ℕ, ◌≡◌, refl, true, false, Option, none, some, [], ◌∷◌, arith, ◌==◌, leb, if◌then◌else◌,
  Bool-cases, inl, inr,
}
use own_os.Prelude.Words.{add32, sub32, mul32}
use own_os.PfAllocator.{
  PfAllocator, Slot, free_head, used_head, np_of, deref, assign, segment, free_seg, chunk_size,
}
use own_os.PfAllocator.Alloc.{shrink, drop_empty}
use own_os.PfAllocator.Chain.{
  Cell, cell, Cells, has, Chain, frame, relink, Outside, deref-assign, assign_others,
}
use own_os.PfAllocator.Insert.Walk.{Turns, Turns-stay}

-- What is left of `c` when its first `n` blocks are taken.
abbrev pub remains : ℕ → Cell → Cell
remains n c = cell c.id (add32 c.begin (mul32 n chunk_size)) (sub32 c.blocks n)

abbrev pub keep : Cell → Cells → Cells
keep c cs = if c.blocks == 0 then cs else c ∷ cs

abbrev pub behind : Cell → Option (ℕ × Cells) → Option (ℕ × Cells)
behind c none = none
behind c (some (b, ds)) = some (b, c ∷ ds)

-- First fit: the address of the range of `n` blocks, and the free ranges that are left.
unfoldable pub take_first : ℕ → Cells → Option (ℕ × Cells)
take_first n [] = none
take_first n (c ∷ cs) =
    if leb n c.blocks then some (c.begin, keep (remains n c) cs) else behind c (take_first n cs)

-- `s2` agrees with `s` but for the segments `c` and `u`; then `slot` is made to skip `c`.
Turns-drop :
    (slot : Slot) (c : Cell) (cs : Cells) (u : ℕ) (s s2 : PfAllocator)
    → ((i : ℕ) → (c.id == i) ≡ false → (u == i) ≡ false → s2.segs i ≡ s.segs i)
    → s2.seg_free ≡ s.seg_free
    → s2.seg_used ≡ s.seg_used
    → Outside slot (cell u 0 0 ∷ c ∷ cs)
    → has c.id cs ≡ false
    → has u cs ≡ false
    → Chain s.segs (s.segs c.id).np cs
    → Turns slot (c ∷ cs) cs u s (assign slot (s.segs c.id).np s2)
Turns-drop slot c cs u s s2 same f g away c_out u_out tail = go slot away
  where
    p : Option ℕ
    p = (s.segs c.id).np

    go :
        (slot : Slot)
        → Outside slot (cell u 0 0 ∷ c ∷ cs)
        → Turns slot (c ∷ cs) cs u s (assign slot p s2)
    go free_head away = record {
      chain = frame s.segs s2.segs p cs tail λ i h. ground (arith, same i);
      framed = record { others = λ i h k. ground (arith, same i); free_head = refl; used_head = g };
    }
    go used_head away = record {
      chain = frame s.segs s2.segs p cs tail λ i h. ground (arith, same i);
      framed = record { others = λ i h k. ground (arith, same i); free_head = f; used_head = refl };
    }
    go (np_of j) away = record {
      chain =
          relink (assign (np_of j) p s2).segs cs
            (frame s.segs (assign (np_of j) p s2).segs p cs tail λ i h. ground (arith, same i))
            (deref-assign p s2 (np_of j));
      framed = record {
        others = λ i h k. ground (arith, same i, same j);
        free_head = f;
        used_head = g;
      };
    }

module _ (n u c : ℕ) (s : PfAllocator) (ne : (c == u) ≡ false) where
  shrink-segs :
      ((shrink n u c s).segs c
        ≡ segment
            (s.segs c).free
            (add32 (s.segs c).begin (mul32 n chunk_size))
            (sub32 (s.segs c).blocks n)
            (s.segs c).np)
      × ((shrink n u c s).segs u ≡ segment (s.segs u).free (s.segs c).begin n none)
  unfolding shrink
  shrink-segs = ground arith

  shrink-others : (i : ℕ) → (c == i) ≡ false → (u == i) ≡ false → (shrink n u c s).segs i ≡ s.segs i
  unfolding shrink
  shrink-others i h k = ground arith

  shrink-heads : ((shrink n u c s).seg_free ≡ s.seg_free) × ((shrink n u c s).seg_used ≡ s.seg_used)
  unfolding shrink
  shrink-heads = (refl, refl)

  drop_empty-some :
      (slot : Slot)
      → (sub32 (s.segs c).blocks n == 0) ≡ false
      → drop_empty c slot (shrink n u c s) ≡ shrink n u c s
  unfolding drop_empty
  drop_empty-some slot h = ground (arith, shrink-segs)

  drop_empty-none :
      (slot : Slot)
      → (sub32 (s.segs c).blocks n == 0) ≡ true
      → drop_empty c slot (shrink n u c s) ≡ assign slot (s.segs c).np (free_seg c (shrink n u c s))
  unfolding drop_empty
  drop_empty-none slot h = ground (arith, shrink-segs)

-- The first `n` blocks of `c`, at the head of the list at `slot`, become the segment `u`.
abbrev pub Taken : (n u b : ℕ) (slot : Slot) (cs ds : Cells) (s t : PfAllocator) → Type 0
Taken n u b slot cs ds s t = Turns slot cs ds u s t × (t.segs u ≡ segment false b n none)

pub take_here :
    (n u : ℕ) (c : Cell) (cs : Cells) (slot : Slot) (s : PfAllocator)
    → Chain s.segs (deref slot s) (c ∷ cs)
    → Outside slot (cell u 0 0 ∷ c ∷ cs)
    → has u (c ∷ cs) ≡ false
    → (s.segs u).free ≡ false
    → Taken n u c.begin slot
        (c ∷ cs)
        (keep (remains n c) cs)
        s
        (drop_empty c.id slot (shrink n u c.id s))
take_here n u c cs slot s (e, at_c, c_out, tail) away u_out u_free =
    let ne : (c.id == u) ≡ false = ground arith in
    let facts = shrink-segs n u c.id s ne in
    let same = shrink-others n u c.id s ne in
    let heads = shrink-heads n u c.id s ne in
    let t = shrink n u c.id s in
    elim (Bool-cases (sub32 c.blocks n == 0)) [
      | inl gone ↦ rw gone (
          rw (drop_empty-none n u c.id s ne slot (ground arith)) (
            Turns-drop slot c cs u s (free_seg c.id t) (λ i h k. ground (arith, same i)) heads.0
                heads.1 away c_out (ground arith) tail,
            ground (
              arith,
              assign_others (s.segs c.id).np (free_seg c.id t) slot (cell u 0 0 ∷ []) u,
              facts.1,
            ),
          ))
      | inr left ↦ rw left (
          rw (drop_empty-some n u c.id s ne slot (ground arith)) (
            Turns-stay slot (cell u 0 0) (c ∷ cs) (remains n c ∷ cs) s t
                (λ i h. same i (ground arith) (ground arith)) heads.0 heads.1 away
                (
                  e,
                  ground (arith, facts),
                  c_out,
                  relink t.segs cs
                      (frame s.segs t.segs (s.segs c.id).np cs tail
                        λ i h. same i (ground arith) (ground arith))
                      (ground (arith, facts)),
                ),
            ground (arith, facts),
          ))
    ]
