-- ===== src/Que/Order.antt =====
-- The queue against a list of its contents, the newest one first.
use own_os.Prelude.{
  ℕ, suc, ◌+◌, ◌-◌, ◌<◌, ◌≤◌, ◌≡◌, ◌∙◌, sym, ap, refl, Bool, true, false, List, [], ◌∷◌, All,
  length, ltb, ◌==◌, arith,
}
use own_os.Que.{Que, assign, get, enque}
use own_os.Que.Rooms.{vacant, Leased, get-Leased}
use own_os.Que.Links.{Links, Fresh, Distinct, insert-Links}

-- A room that is leased.
unfoldable pub Held : (n : ℕ) → (ℕ → Bool) → ℕ → Type 0
Held n free p = (0 < p) × (p ≤ n + 2) × (free (p - 1) ≡ false)

unfoldable pub contents : {T : Type 0} → (ℕ → T) → List ℕ → List T
contents f [] = []
contents f (p ∷ ps) = f p ∷ contents f ps

-- The entries of a queue that is well formed.
pub record IsQueue {T : Type 0} (n : ℕ) (q : Que T) (ps : List ℕ) : Type 0 where
  pub links : Links q.next q.prev q.tail q.head ps
  pub distinct : Distinct (q.head ∷ q.tail ∷ ps)
  pub held : All (Held n q.free) (q.head ∷ q.tail ∷ ps)
  pub count : q.num ≡ length ps
  pub room : vacant (n + 2) 0 q.free + q.num ≡ n

-- The queue holds a list.
unfoldable pub Holds : {T : Type 0} → (n : ℕ) → Que T → List T → Type 0
Holds n q xs = (ps : List ℕ) × IsQueue n q ps × (contents q.content ps ≡ xs)

leased-Held :
    (n j : ℕ) (free : ℕ → Bool) (ps : List ℕ)
    → All (Held n free) ps
    → All (Held n (assign j false free)) ps
unfolding Held
leased-Held n j free [] h = tt
leased-Held n j free (p ∷ ps) ((a, b, c), h) = ((a, b, ground arith), leased-Held n j free ps h)

free-Fresh :
    (n j : ℕ) (free : ℕ → Bool) (ps : List ℕ)
    → free j ≡ true
    → All (Held n free) ps
    → Fresh (suc j) ps
unfolding Held
free-Fresh n j free [] f h = tt
free-Fresh n j free (p ∷ ps) f ((a, b, c), h) = (
  (λ e. let z : p - 1 ≡ j = omega arith in let c' = rw z at c in ground arith),
  free-Fresh n j free ps f h,
)

pub given-Held :
    (n j : ℕ) (free : ℕ → Bool) (ps : List ℕ)
    → Fresh (suc j) ps
    → All (Held n free) ps
    → All (Held n (assign j true free)) ps
unfolding Held
given-Held n j free [] f h = tt
given-Held n j free (p ∷ ps) (e, f) ((a, b, c), h) =
    ((a, b, ground arith), given-Held n j free ps f h)

contents-Fresh :
    {T : Type 0} (p : ℕ) (t : T) (f : ℕ → T) (ps : List ℕ)
    → Fresh p ps
    → contents (assign p t f) ps ≡ contents f ps
unfolding contents
contents-Fresh p t f [] h = refl
contents-Fresh p t f (r ∷ rs) (e, h) =
    let z : (r == p) ≡ false = ground arith in rw (z, contents-Fresh p t f rs h) refl

pub length-contents : {T : Type 0} (f : ℕ → T) (ps : List ℕ) → length (contents f ps) ≡ length ps
unfolding contents
length-contents f [] = refl
length-contents f (p ∷ ps) = omega (arith, length-contents f ps)

module _ {T : Type 0} (n : ℕ) (t : T) (q : Que T) where
  -- The queue with an entry in the room `j`.
  abbrev entered : ℕ → Que T
  entered j = record q {
    free = assign j false q.free;
    content = assign (suc j) t q.content;
    next = assign q.head (suc j) (assign (suc j) (q.next q.head) q.next);
    prev = assign (q.next q.head) (suc j) (assign (suc j) q.head q.prev);
    num = q.num + 1;
  }

  enque-entered :
      (j p : ℕ) (free : ℕ → Bool)
      → ltb n q.num ≡ false
      → get (n + 2) 0 q.free ≡ (p, free)
      → p ≡ suc j
      → free ≡ assign j false q.free
      → enque n t q ≡ entered j
  unfolding enque
  enque-entered j p free b g e f = rw (b, g, e, f) refl

  entered-IsQueue :
      (j : ℕ) (ps : List ℕ)
      → IsQueue n q ps
      → Leased (n + 2) 0 q.free j (suc j) (assign j false q.free)
      → IsQueue n (entered j) (suc j ∷ ps)
        × (contents (entered j).content (suc j ∷ ps) ≡ t ∷ contents q.content ps)
  unfolding Distinct contents Held
  entered-IsQueue j ps r e =
      let ((h, h'), (t', d)) = r.distinct in
      let (fh, (ft, fp)) = free-Fresh n j q.free (q.head ∷ q.tail ∷ ps) e.was_free r.held in
      let i = insert-Links q.next q.prev q.tail q.head (suc j) ps fh ft h fp h' t' d r.links in
      let (jh, (jt, jp)) = leased-Held n j q.free (q.head ∷ q.tail ∷ ps) r.held in
      let jn : Held n (assign j false q.free) (suc j) =
        (omega arith, omega (arith, e.inside), ground arith) in
      let z : (suc j == suc j) ≡ true = ground arith in
      (
        record {
          links = i;
          distinct = ((h, ((λ z. fh (sym z)), h')), (((λ z. ft (sym z)), t'), (fp, d)));
          held = (jh, (jt, (jn, jp)));
          count = omega (arith, r.count);
          room = omega (arith, r.room, e.counted);
        },
        rw (z, contents-Fresh (suc j) t q.content ps fp) refl,
      )

-- `enque` of a queue that is not full puts the value in front of the others.
pub enque-Holds :
    {T : Type 0} (n : ℕ) (t : T) (q : Que T) (xs : List T)
    → Holds n q xs
    → length xs < n
    → Holds n (enque n t q) (t ∷ xs)
unfolding Holds
enque-Holds n t q xs (ps, r, e) l =
    let g = rw e at (length-contents q.content ps) in
    let k : length ps < n = omega arith in
    let b : ltb n q.num ≡ false = ground (arith, r.count) in
    let some : 0 < vacant (n + 2) 0 q.free = omega (arith, r.room, r.count) in
    let (j, v) = get-Leased (n + 2) 0 q.free some in
    let c' = rw v.taken at v.counted in
    let w : Leased (n + 2) 0 q.free j (suc j) (assign j false q.free) = record {
      pointer = refl;
      inside = v.inside;
      was_free = v.was_free;
      taken = refl;
      counted = c';
    } in
    let (i, c) = entered-IsQueue n t q j ps r w in
    let z = enque-entered n t q j _ _ b refl v.pointer v.taken in
    rw z (suc j ∷ ps, i, c ∙ ap (λ y. t ∷ y) e)
