-- ===== src/PfAllocator/Alloc/Free.antt =====
-- `freeChunk`: the walk along the used list, and the lists that it leaves.
use own_os.Prelude.{
  ℕ, zero, suc, ◌<◌, ◌≡◌, ◌∙◌, true, false, Option, none, some, [], ◌∷◌, arith, ◌==◌, if◌then◌else◌,
  Bool-cases, inl, inr, length,
}
use own_os.PfAllocator.{
  PfAllocator, Run, panic, Slot, np_of, deref, assign, invalid_chunk_freed, add_seg, fuel,
}
use own_os.PfAllocator.Alloc.{free_loop}
use own_os.PfAllocator.Chain.{
  Cell, Cells, has, Holds, Chain, frame, relink, Outside, deref-assign, assign_others, unmoved,
}

-- The first range that begins at `addr`, the ranges before it and those behind it.
pub record Freed : Type 0 where
  pub tmp : Cell
  pub rest : Cells
  pub behind : Cells

abbrev pub freed : Cell → Cells → Cells → Freed
freed c ds tl = record { tmp = c; rest = ds; behind = tl }

abbrev pub after : Cell → Option Freed → Option Freed
after c none = none
after c (some r) = some (record r { rest = c ∷ r.rest })

unfoldable pub take_at : ℕ → Cells → Option Freed
take_at addr [] = none
take_at addr (c ∷ cs) = if c.begin == addr then some (freed c cs cs) else after c (take_at addr cs)

-- The used list at `slot` is unlinked from `tmp`, whose `np` still leads into it.
pub record Unlinked (slot : Slot) (cs : Cells) (r : Freed) (s t : PfAllocator) : Type 0 where
  pub rest : Chain t.segs (deref slot t) r.rest
  pub tmp : Holds t.segs r.tmp
  pub behind : Chain t.segs (t.segs r.tmp.id).np r.behind
  pub others : (i : ℕ) → has i cs ≡ false → t.segs i ≡ (assign slot (deref slot t) s).segs i
  pub free_head : t.seg_free ≡ (assign slot (deref slot t) s).seg_free
  pub used_head : t.seg_used ≡ (assign slot (deref slot t) s).seg_used
  pub tmp_out : has r.tmp.id r.rest ≡ false
  pub tmp_in : has r.tmp.id cs ≡ true
  pub rest_in : (i : ℕ) → has i r.rest ≡ true → has i cs ≡ true
  pub behind_in : (i : ℕ) → has i r.behind ≡ true → has i r.rest ≡ true

abbrev pub Frees : ℕ → Slot → Cells → PfAllocator → Run (Unit {0}) → Option Freed → Type 0
Frees addr slot cs s run none = run ≡ panic invalid_chunk_freed
Frees addr slot cs s run (some r) =
    (t : PfAllocator) × (run ≡ add_seg r.tmp.id t) × Unlinked slot cs r s t

module _ (k addr : ℕ) (slot : Slot) (s : PfAllocator) where
  loop_end : deref slot s ≡ none → free_loop (suc k) addr slot s ≡ panic invalid_chunk_freed
  unfolding free_loop
  loop_end e = rw (e, free_loop)

  loop_found :
      (c : ℕ)
      → deref slot s ≡ some c
      → ((s.segs c).begin == addr) ≡ true
      → free_loop (suc k) addr slot s ≡ add_seg c (assign slot (s.segs c).np s)
  unfolding free_loop
  loop_found c e h = rw (e, free_loop) (rw h)

  loop_on :
      (c : ℕ)
      → deref slot s ≡ some c
      → ((s.segs c).begin == addr) ≡ false
      → free_loop (suc k) addr slot s ≡ free_loop k addr (np_of c) s
  unfolding free_loop
  loop_on c e h = rw (e, free_loop) (rw h)

Unlinked-here :
    (c : Cell) (cs : Cells) (slot : Slot) (s : PfAllocator)
    → Chain s.segs (deref slot s) (c ∷ cs)
    → Outside slot (c ∷ cs)
    → Unlinked slot (c ∷ cs) (freed c cs cs) s (assign slot (s.segs c.id).np s)
Unlinked-here c cs slot s (e, at_c, c_out, tail) away =
    let p = (s.segs c.id).np in
    let t = assign slot p s in
    let here = assign_others p s slot (c ∷ cs) c.id away (ground arith) in
    let kept =
      frame s.segs t.segs p cs tail λ i h. assign_others p s slot (c ∷ cs) i away (ground arith) in
    record {
      rest = relink t.segs cs kept (deref-assign p s slot);
      tmp = ground (arith, here);
      behind = relink t.segs cs kept (ground (arith, here));
      others = λ i h. rw (deref-assign p s slot);
      free_head = rw (deref-assign p s slot);
      used_head = rw (deref-assign p s slot);
      tmp_out = c_out;
      tmp_in = ground arith;
      rest_in = λ i h. ground arith;
      behind_in = λ i h. h;
    }

Unlinked-cons :
    (c : Cell) (cs : Cells) (slot : Slot) (r : Freed) (s t : PfAllocator)
    → Chain s.segs (deref slot s) (c ∷ cs)
    → Outside slot (c ∷ cs)
    → Unlinked (np_of c.id) cs r s t
    → Unlinked slot (c ∷ cs) (record r { rest = c ∷ r.rest }) s t
Unlinked-cons c cs slot r s t (e, at_c, c_out, tail) away u =
    let kept =
      unmoved slot cs c {s = s} {t = t} (λ i h. ground (arith, u.others i)) u.free_head u.used_head
        away in
    let here = u.others c.id c_out in
    record {
      rest = (kept.0 ∙ e, ground (arith, here), ground (arith, u.rest_in c.id), u.rest);
      tmp = u.tmp;
      behind = u.behind;
      others = λ i h. rw (kept.0) (kept.1.others i (ground arith) (ground arith));
      free_head = rw (kept.0) kept.1.free_head;
      used_head = rw (kept.0) kept.1.used_head;
      tmp_out = ground (arith, u.tmp_out, u.tmp_in);
      tmp_in = ground (arith, u.tmp_in);
      rest_in = λ i h. ground (arith, u.rest_in i);
      behind_in = λ i h. ground (arith, u.behind_in i h);
    }

pub free_loop-Frees :
    (k addr : ℕ) (cs : Cells) (slot : Slot) (s : PfAllocator)
    → Chain s.segs (deref slot s) cs
    → Outside slot cs
    → length cs < k
    → Frees addr slot cs s (free_loop k addr slot s) (take_at addr cs)
unfolding take_at
free_loop-Frees zero addr cs slot s h away fuel = absurd (omega arith)
free_loop-Frees (suc k) addr [] slot s h away fuel = loop_end k addr slot s h
free_loop-Frees (suc k) addr (c ∷ cs) slot s (e, at_c, c_out, tail) away fuel =
    elim (Bool-cases (c.begin == addr)) [
      | inl h ↦ rw h (
        assign slot (s.segs c.id).np s,
        loop_found k addr slot s c.id e (rw at_c.begin h),
        Unlinked-here c cs slot s (e, at_c, c_out, tail) away,
      )
      | inr h ↦ rw h (
          rw (loop_on k addr slot s c.id e (rw at_c.begin h)) (
            go (take_at addr cs)
              (free_loop-Frees k addr cs (np_of c.id) s tail c_out (omega arith))))
    ]
  where
    run : Run (Unit {0})
    run = free_loop k addr (np_of c.id) s

    go :
        (r : Option Freed)
        → Frees addr (np_of c.id) cs s run r
        → Frees addr slot (c ∷ cs) s run (after c r)
    go none f = f
    go (some r) (t, eq, u) = (t, eq, Unlinked-cons c cs slot r s t (e, at_c, c_out, tail) away u)
