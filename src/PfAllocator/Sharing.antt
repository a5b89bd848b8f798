-- ===== src/PfAllocator/Sharing.antt =====
-- `freeChunk` as a whole: where it keeps the two lists apart, and where it does not, since `addChunk`
-- does not reset the `np` of the segment that it is given.
use own_os.Prelude.{
  ℕ, ◌+◌, ◌≡◌, ◌<◌, refl, ◌∙◌, ap, subst, sym, Bool, true, false, not, Option, none, some, [], ◌∷◌,
  ◌++◌, arith, ◌==◌, ◌⊎◌, inl, inr, if◌then◌else◌, Bool-cases, All,
}
use own_os.PfAllocator.{Seg, PfAllocator, ok}
use own_os.PfAllocator.Alloc.{free_chunk}
use own_os.PfAllocator.Alloc.Free.{Freed, take_at, after}
use own_os.PfAllocator.Alloc.FreeCorrect.{Lists, Outcome, free_chunk-Outcome}
use own_os.PfAllocator.Chain.{Cell, Cells, has, Chain}
use own_os.PfAllocator.Insert.{insert_onto, insert_free, fits_between, stop}
use own_os.PfAllocator.Insert.Walk.{has-insert_free}
use own_os.PfAllocator.State.{IsState}
use own_os.PfAllocator.Pages.{cover, hits, Fits, cover-insert_free}

-- `addChunk` hangs the segment behind the last one.
unfoldable pub comes_last : Cell → Cells → Bool
comes_last seg [] = true
comes_last seg (c ∷ []) = not (stop c == seg.begin)
comes_last seg (c ∷ n ∷ cs) =
    let rest = comes_last seg (n ∷ cs) in if fits_between seg c n then false else rest

insert_onto-last :
    (tl : Cells) (seg : Cell) (cs : Cells)
    → comes_last seg cs ≡ true
    → insert_onto tl seg cs ≡ cs ++ seg ∷ tl
unfolding comes_last insert_onto
insert_onto-last tl seg [] h = refl
insert_onto-last tl seg (c ∷ []) h = ground arith
insert_onto-last tl seg (c ∷ n ∷ cs) h = ground (arith, insert_onto-last tl seg (n ∷ cs))

insert_onto-inside :
    (tl : Cells) (seg : Cell) (cs : Cells)
    → comes_last seg cs ≡ false
    → insert_onto tl seg cs ≡ insert_free seg cs
unfolding comes_last insert_onto
insert_onto-inside tl seg [] h = cc
insert_onto-inside tl seg (c ∷ []) h = ground arith
insert_onto-inside tl seg (c ∷ n ∷ cs) h = ground (arith, insert_onto-inside tl seg (n ∷ cs))

-- The free range lies above the segment.
abbrev pub Below : Cell → Cell → Type 0
Below seg c = seg.begin < c.begin

comes_last-Below :
    (seg : Cell) (cs : Cells) → All Fits cs → All (Below seg) cs → comes_last seg cs ≡ true
unfolding comes_last
comes_last-Below seg [] f b = refl
comes_last-Below seg (c ∷ []) f b = ground arith
comes_last-Below seg (c ∷ n ∷ cs) (f, g) (b, d) = ground (arith, comes_last-Below seg (n ∷ cs) g d)

-- The freed segment was the last of the used list, or does not become the last of the free list.
abbrev pub Clean : Freed → Cells → Type 0
Clean r fs = (r.behind ≡ []) ⊎ (comes_last r.tmp fs ≡ false)

onto-Clean :
    (r : Freed) (fs : Cells) → Clean r fs → insert_onto r.behind r.tmp fs ≡ insert_free r.tmp fs
onto-Clean r fs (inl e) = rw e
onto-Clean r fs (inr h) = insert_onto-inside r.behind r.tmp fs h

-- What `take_at` finds is a range of the list.
record Part (us : Cells) (r : Freed) : Type 0 where
  tmp_in : has r.tmp.id us ≡ true
  rest_in : (i : ℕ) → has i r.rest ≡ true → has i us ≡ true
  covers : (a : ℕ) → hits a r.tmp + cover a r.rest ≡ cover a us
  behind_in : (i : ℕ) → has i r.behind ≡ true → has i r.rest ≡ true
  fits : All Fits us → Fits r.tmp

abbrev IsPart : Cells → Option Freed → Type 0
IsPart us none = Unit
IsPart us (some r) = Part us r

take_at-Part : (addr : ℕ) (us : Cells) → IsPart us (take_at addr us)
unfolding take_at cover
take_at-Part addr [] = tt
take_at-Part addr (c ∷ cs) = elim (Bool-cases (c.begin == addr)) [
  | inl h ↦ rw h (record {
    tmp_in = ground arith;
    rest_in = λ i h. ground arith;
    covers = λ a. refl;
    behind_in = λ i h. h;
    fits = λ f. f.0;
  })
  | inr h ↦ rw h (go (take_at addr cs) (take_at-Part addr cs))
]
  where
    go : (r : Option Freed) → IsPart cs r → IsPart (c ∷ cs) (after c r)
    go none p = tt
    go (some r) p = record {
      tmp_in = ground (arith, p.tmp_in);
      rest_in = λ i h. ground (arith, p.rest_in i);
      covers = λ a. omega (arith, p.covers a);
      behind_in = λ i h. ground (arith, p.behind_in i);
      fits = λ f. p.fits f.1;
    }

-- Chains from one pointer have the same segments.
Chain-has :
    (f : ℕ → Seg) (p : Option ℕ) (cs ds : Cells) (i : ℕ)
    → Chain f p cs
    → Chain f p ds
    → has i cs ≡ has i ds
Chain-has f p [] [] i h k = refl
Chain-has f p [] (d ∷ ds) i h k = ground arith
Chain-has f p (c ∷ cs) [] i h k = ground arith
Chain-has f p (c ∷ cs) (d ∷ ds) i (e, _, _, h) (e', _, _, k) =
    let same : c.id ≡ d.id = ground arith in
    let k' : Chain f (f c.id).np ds = rw same k in
    ground (arith, Chain-has f (f c.id).np cs ds i h k')

has_mid : (fs : Cells) (c y : Cell) (ys : Cells) → has y.id (fs ++ c ∷ y ∷ ys) ≡ true
has_mid [] c y ys = ground arith
has_mid (f ∷ fs) c y ys = ground (arith, has_mid fs c y ys)

module _ (addr : ℕ) (fs us : Cells) (s : PfAllocator) (r : Freed) (v : IsState fs us s)
    (found : take_at addr us ≡ some r) where
  outcome : Outcome addr fs us s (free_chunk addr s) (some r)
  outcome = rw found at (free_chunk-Outcome addr fs us s v)

  part : Part us r
  part = rw found at (take_at-Part addr us)

  state :
      (t : PfAllocator)
      → (r_out : has r.tmp.id r.rest ≡ false) → Lists (insert_free r.tmp fs) r.rest t
      → IsState (insert_free r.tmp fs) r.rest t
  state t r_out lists = record {
    free = lists.free;
    used = lists.used;
    apart = λ i h. ground (arith, has-insert_free i r.tmp fs, v.apart i, part.rest_in i, r_out);
    free_in =
        λ i h. ground (arith, has-insert_free i r.tmp fs, v.free_in i, v.used_in i, part.tmp_in);
    used_in = λ i h. v.used_in i (part.rest_in i h);
  }

  -- `freeChunk` of a range that was the last used one, or does not become a last free one of its own,
  -- returns, moves the range to the free list, and keeps the lists apart and the memory in them the
  -- same. The addresses must stay below 4 GiB.
  pub free_chunk-IsState :
      All Fits fs
      → All Fits us
      → Clean r fs
      → (t : PfAllocator) × (free_chunk addr s ≡ ok tt t)
        × IsState (insert_free r.tmp fs) r.rest t
        × ((a : ℕ) → cover a (insert_free r.tmp fs) + cover a r.rest ≡ cover a fs + cover a us)
  free_chunk-IsState f g clean =
      let (t, run, lists, out) = outcome in
      let e = onto-Clean r fs clean in
      let lists' = subst (λ ds. Lists ds r.rest t) e lists in
      (
        t,
        run,
        state t out lists',
        λ a. omega (arith, cover-insert_free a r.tmp fs (part.fits g) f, part.covers a),
      )

  -- `freeChunk` of a range that becomes the last free one without joining another, and that others
  -- followed in the used list, returns with these others in both lists: no two lists make the state
  -- one in order.
  pub free_chunk_breaks :
      (y : Cell) (ys : Cells)
      → r.behind ≡ y ∷ ys
      → comes_last r.tmp fs ≡ true
      → (t : PfAllocator) × (free_chunk addr s ≡ ok tt t)
        × Chain t.segs t.seg_free (fs ++ r.tmp ∷ y ∷ ys)
        × Chain t.segs t.seg_used r.rest
        × ((ds ws : Cells) → ¬ IsState ds ws t)
  free_chunk_breaks y ys e last =
      let (t, run, lists, out) = outcome in
      let e' : insert_onto r.behind r.tmp fs ≡ fs ++ r.tmp ∷ y ∷ ys =
        insert_onto-last r.behind r.tmp fs last ∙ ap (λ tl. fs ++ r.tmp ∷ tl) e in
      let free = subst (λ ds. Chain t.segs t.seg_free ds) e' lists.free in
      (
        t,
        run,
        free,
        lists.used,
        λ ds ws w.
            let in_free =
              sym (Chain-has t.segs t.seg_free _ ds y.id free w.free) ∙ has_mid fs r.tmp y ys in
            let in_rest = part.behind_in y.id (rw e (ground arith)) in
            let in_used =
              sym (Chain-has t.segs t.seg_used r.rest ws y.id lists.used w.used) ∙ in_rest in
            ground (arith, w.apart y.id, in_free, in_used),
      )

  -- `freeChunk` of a range that was the last used one, and that lies below every free range, returns
  -- with the range at the end of the free list, and not in the order of the addresses. The addresses
  -- must stay below 4 GiB.
  pub free_chunk-Below :
      All Fits fs
      → All Fits us
      → r.behind ≡ []
      → All (Below r.tmp) fs
      → (t : PfAllocator) × (free_chunk addr s ≡ ok tt t) × IsState (fs ++ r.tmp ∷ []) r.rest t
  free_chunk-Below f g e below =
      let (t, run, st, c) = free_chunk-IsState f g (inl e) in
      let d : insert_free r.tmp fs ≡ fs ++ r.tmp ∷ [] =
        insert_onto-last [] r.tmp fs (comes_last-Below r.tmp fs f below) in
      (t, run, subst (λ ds. IsState ds r.rest t) d st)
