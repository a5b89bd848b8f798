-- ===== src/Que/Take.antt =====
-- The two ways to take a value out of a queue.
use own_os.Prelude.{
  ℕ, zero, suc, ◌+◌, ◌-◌, ◌<◌, ◌≡◌, ◌≢◌, ◌∙◌, sym, ap, subst, refl, Bool, true, false, Option, none,
  some, List, [], ◌∷◌, ◌++◌, All, length, length-append, ◌==◌, if◌then◌else◌, arith, Bool-cases,
  inl, inr,
}
use own_os.Que.{Que, assign, give_back, unlink, deque, deque_loop, deque_same}
use own_os.Que.Rooms.{give_back-assign, vacant-given}
use own_os.Que.Links.{
  Links, Fresh, Distinct, All-append, Distinct-append, remove-Links, next-is, last-is,
}
use own_os.Que.Order.{Held, contents, IsQueue, Holds, given-Held}

append_assoc : (bs cs : List ℕ) (c : ℕ) → (bs ++ c ∷ []) ++ cs ≡ bs ++ c ∷ cs
append_assoc [] cs c = refl
append_assoc (b ∷ bs) cs c = ap (λ x. b ∷ x) (append_assoc bs cs c)

Held-room :
    (n p : ℕ) (free : ℕ → Bool)
    → Held n free p
    → (j : ℕ) × (p ≡ suc j) × (j < n + 2) × (free j ≡ false)
unfolding Held
Held-room n zero free (a, b, c) = absurd (omega arith)
Held-room n (suc j) free (a, b, c) =
    let z : suc j - 1 ≡ j = omega arith in (j, refl, omega arith, rw z at c)

module _ {T : Type 0} (n : ℕ) (q : Que T) where
  -- An entry is taken out from between its neighbours.
  unlink-IsQueue :
      (c : ℕ) (bs cs : List ℕ)
      → IsQueue n q (bs ++ c ∷ cs)
      → IsQueue n (unlink n c (q.prev c) (q.next c) q) (bs ++ cs)
  unfolding unlink Distinct
  unlink-IsQueue c bs cs r =
      let ((h, h'), (t', d)) = r.distinct in
      let (hh, (ht, hp)) = r.held in
      let (hr, hc) = All-append (Held n q.free) c bs cs hp in
      let (j, e, l, f) = Held-room n c q.free hc in
      let g : give_back (n + 2) 0 c q.free ≡ assign j true q.free =
        ap (λ x. give_back (n + 2) 0 x q.free) e
        ∙ give_back-assign (n + 2) 0 j q.free (omega arith) (omega arith) in
      let (a1, a2) = All-append (λ p. p ≢ q.head) c bs cs h' in
      let (b1, b2) = All-append (λ p. p ≢ q.tail) c bs cs t' in
      let (d1, d2) = Distinct-append c bs cs d in
      let v = vacant-given (n + 2) 0 j q.free (omega arith) (omega arith) f in
      let m : length (bs ++ c ∷ cs) ≡ suc (length (bs ++ cs)) =
        omega (arith, length-append bs cs, length-append bs (c ∷ cs)) in
      let fc : Fresh c (q.head ∷ q.tail ∷ bs ++ cs) =
        ((λ z. a2 (sym z)), ((λ z. b2 (sym z)), d2)) in
      let fj : Fresh (suc j) (q.head ∷ q.tail ∷ bs ++ cs) =
        subst (λ x. Fresh x (q.head ∷ q.tail ∷ bs ++ cs)) e fc in
      record {
        links = remove-Links q.next q.prev q.tail q.head c bs cs h h' t' d r.links;
        distinct = ((h, a1), (b1, d1));
        held =
            subst (λ f. All (Held n f) (q.head ∷ q.tail ∷ bs ++ cs)) (sym g)
              (given-Held n j q.free (q.head ∷ q.tail ∷ bs ++ cs) fj (hh, (ht, hr)));
        count = omega (arith, r.count);
        room = rw g (omega (arith, r.room, r.count));
      }

contents-append :
    {T : Type 0} (f : ℕ → T) (bs cs : List ℕ)
    → contents f (bs ++ cs) ≡ contents f bs ++ contents f cs
unfolding contents
contents-append f [] cs = refl
contents-append f (b ∷ bs) cs = ap (λ x. f b ∷ x) (contents-append f bs cs)

-- A list that is not empty has a last element.
snoc : (b : ℕ) (bs : List ℕ) → (cs : List ℕ) × (c : ℕ) × (b ∷ bs ≡ cs ++ c ∷ [])
snoc b [] = ([], b, refl)
snoc b (d ∷ ds) = let (cs, c, e) = snoc d ds in (b ∷ cs, c, ap (λ x. b ∷ x) e)

deque-some :
    {T : Type 0} (n : ℕ) (q : Que T) (bs : List ℕ) (c : ℕ)
    → IsQueue n q (bs ++ c ∷ [])
    → deque n q ≡ (q.content c, unlink n c (q.prev c) (q.next c) q)
unfolding deque
deque-some n q bs c r =
    let (k, l) = last-is q.next q.prev q.tail q.head c bs r.links in
    let z : (q.num == 0) ≡ false = ground (arith, r.count, length-append bs (c ∷ [])) in
    rw (z, l, k) refl

append-nil : (bs : List ℕ) → bs ++ [] ≡ bs
append-nil [] = refl
append-nil (b ∷ bs) = ap (λ x. b ∷ x) (append-nil bs)

deque_entry-Holds :
    {T : Type 0} (n : ℕ) (q : Que T) (b : ℕ) (bs : List ℕ)
    → IsQueue n q (b ∷ bs)
    → (zs : List T) × (contents q.content (b ∷ bs) ≡ zs ++ (deque n q).0 ∷ [])
      × Holds n (deque n q).1 zs
unfolding Holds contents unlink
deque_entry-Holds n q b bs r =
    let (cs, c, e) = snoc b bs in
    let r' = subst (IsQueue n q) e r in
    let d = deque-some n q cs c r' in
    let i = unlink-IsQueue n q c cs [] r' in
    rw d (
      contents q.content cs,
      ap (contents q.content) e ∙ contents-append q.content cs (c ∷ []),
      (cs ++ [], i, ap (contents q.content) (append-nil cs)),
    )

-- `deque` takes the oldest value out of a queue that is not empty, which then holds the others in
-- their order.
pub deque-Holds :
    {T : Type 0} (n : ℕ) (q : Que T) (x : T) (xs : List T)
    → Holds n q (x ∷ xs)
    → (zs : List T) × (x ∷ xs ≡ zs ++ (deque n q).0 ∷ []) × Holds n (deque n q).1 zs
unfolding Holds contents
deque-Holds n q x xs ([], r, e) = absurd (ground arith)
deque-Holds n q x xs (b ∷ bs, r, e) =
    let (zs, l, h) = deque_entry-Holds n q b bs r in (zs, sym e ∙ l, h)

module _ {T : Type 0} (same : T → T → Bool) (a : T) where
  unfoldable pub behind : T → Option (T × List T) → Option (T × List T)
  behind x none = none
  behind x (some (y, ys)) = some (y, x ∷ ys)

  -- The newest value that is the same as `a`, and the others.
  unfoldable pub taken : List T → Option (T × List T)
  unfolding behind
  taken [] = none
  taken (x ∷ xs) = let rest = behind x (taken xs) in if same x a then some (x, xs) else rest

  -- What is taken, and what the queue holds afterwards; without a value the queue stays.
  unfoldable pub Took : (n : ℕ) (q : Que T) → Option (T × List T) → T × Que T → Type 0
  Took n q none r = r ≡ (q.invalid, q)
  Took n q (some (y, ys)) r = (r.0 ≡ y) × Holds n r.1 ys

  -- The entry at which the loop stands.
  At : (curr : ℕ) → List ℕ → Type 0
  At curr [] = Unit
  At curr (c ∷ cs) = curr ≡ c

  module _ (n : ℕ) (q : Que T) where
    -- The same for the entries from some entry on, behind `bs`.
    TookFrom : (bs : List ℕ) → Option (T × List T) → T × Que T → Type 0
    TookFrom bs none r = r ≡ (q.invalid, q)
    TookFrom bs (some (y, ys)) r =
        (r.0 ≡ y)
        × ((cs : List ℕ) × IsQueue n r.1 (bs ++ cs)
            × (contents r.1.content cs ≡ ys)
            × (r.1.content ≡ q.content))

    miss-TookFrom :
        (bs : List ℕ) (c : ℕ) (o : Option (T × List T)) (r : T × Que T)
        → TookFrom (bs ++ c ∷ []) o r
        → TookFrom bs (behind (q.content c) o) r
    unfolding TookFrom behind contents
    miss-TookFrom bs c none r h = h
    miss-TookFrom bs c (some (y, ys)) r (e, (cs, i, k, l)) =
        (e, (c ∷ cs, subst (IsQueue n r.1) (append_assoc bs cs c) i, rw (k, l) refl, l))

    next-At : (cs bs : List ℕ) (c : ℕ) → IsQueue n q (bs ++ c ∷ cs) → At (q.next c) cs
    unfolding At
    next-At [] bs c r = tt
    next-At (d ∷ ds) bs c r = next-is q.next q.prev q.tail q.head c d bs ds r.links

    loop-TookFrom :
        (cs bs : List ℕ) (curr : ℕ)
        → IsQueue n q (bs ++ cs)
        → At curr cs
        → TookFrom bs (taken (contents q.content cs)) (deque_loop n same (length cs) curr a q)
    unfolding deque_loop contents At TookFrom taken unlink
    loop-TookFrom [] bs curr r e = refl
    loop-TookFrom (c ∷ cs) bs curr r e = elim (Bool-cases (same (q.content c) a)) [
      | inl s ↦ rw (e, s) (refl, (cs, unlink-IsQueue n q c bs cs r, refl, refl))
      | inr s ↦
          let r' = subst (IsQueue n q) (sym (append_assoc bs cs c)) r in
          let k = loop-TookFrom cs (bs ++ c ∷ []) (q.next c) r' (next-At cs bs c r) in
          rw (e, s) (miss-TookFrom bs c _ _ k)
    ]

    Took-TookFrom : (o : Option (T × List T)) (r : T × Que T) → TookFrom [] o r → Took n q o r
    unfolding TookFrom Took Holds
    Took-TookFrom none r h = h
    Took-TookFrom (some (y, ys)) r (e, (cs, i, k, l)) = (e, (cs, i, k))

    first-At : (ps : List ℕ) → Links q.next q.prev q.tail q.head ps → At (q.next q.head) ps
    unfolding At Links
    first-At [] h = tt
    first-At (p ∷ ps) (h, k, l) = h

    -- `deque` of a value takes the newest value that is the same out of the queue, which holds the others
    -- in their order; without such a value it returns the invalid one, and the queue stays.
    pub deque_same-Took : (xs : List T) → Holds n q xs → Took n q (taken xs) (deque_same n same a q)
    unfolding deque_same Holds
    deque_same-Took xs (ps, r, e) =
        let k = loop-TookFrom ps [] (q.next q.head) r (first-At ps r.links) in
        let k' = Took-TookFrom (taken (contents q.content ps)) _ k in
        let k2 =
          subst
            (λ m.
              Took n q (taken (contents q.content ps)) (deque_loop n same m (q.next q.head) a q))
            (sym r.count) k' in
        subst (λ ys. Took n q (taken ys) (deque_loop n same q.num (q.next q.head) a q)) e k2
