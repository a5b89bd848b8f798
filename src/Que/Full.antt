-- ===== src/Que/Full.antt =====
-- A new queue, and one that is full.
use own_os.Prelude.{ℕ, zero, suc, ◌+◌, ◌≡◌, refl, true, false, List, [], length, ltb, ◌==◌, arith}
use own_os.Que.{Que, assign, get, init, enque}
use own_os.Que.Rooms.{vacant, vacant-frame, get_none}
use own_os.Que.Links.{Links, Distinct}
use own_os.Que.Order.{Held, contents, length-contents, Holds}

vacant_all : (k i : ℕ) → vacant k i (λ j. true) ≡ k
unfolding vacant
vacant_all zero i = refl
vacant_all (suc k) i = rw (vacant_all k (suc i)) (omega arith)

two_rooms :
    {T : Type 0} (n : ℕ) (invalid : T) (prev : ℕ → ℕ) (content : ℕ → T)
    → init n invalid prev content ≡ record {
      free = assign 1 false (assign 0 false (λ i. true));
      next = assign 2 0 (assign 1 2 (λ i. 0));
      prev = assign 1 0 (assign 2 1 prev);
      content = content;
      head = 1;
      tail = 2;
      num = 0;
      invalid = invalid;
    }
unfolding init get
two_rooms n invalid prev content = let z : n + 2 ≡ suc (suc n) = omega arith in rw z refl

new_room : (n : ℕ) → vacant (n + 2) 0 (assign 1 false (assign 0 false (λ i. true))) ≡ n
unfolding vacant
new_room n =
    let z : n + 2 ≡ suc (suc n) = omega arith in
    rw z (
      rw
        (
          vacant-frame n 2 1 false (assign 0 false (λ i. true)) (omega arith),
          vacant-frame n 2 0 false (λ i. true) (omega arith),
          vacant_all n 2,
        )
        (omega arith))

-- A new queue holds nothing.
pub init-Holds :
    {T : Type 0} (n : ℕ) (invalid : T) (prev : ℕ → ℕ) (content : ℕ → T)
    → Holds n (init n invalid prev content) []
unfolding Holds Links Distinct Held contents
init-Holds n invalid prev content = rw (two_rooms n invalid prev content) (
  [],
  record {
    links = (refl, refl);
    distinct = (((λ z. ground arith), tt), (tt, tt));
    held = ((omega arith, omega arith, refl), ((omega arith, omega arith, refl), tt));
    count = refl;
    room = omega (arith, new_room n);
  },
  refl,
)

-- `enque` of a queue that is full goes on without a room: NULL becomes the first entry, so that the
-- value is written at the address 0.
pub enque-full :
    {T : Type 0} (n : ℕ) (t : T) (q : Que T) (xs : List T)
    → Holds n q xs
    → length xs ≡ n
    → ((enque n t q).next q.head ≡ 0) × ((enque n t q).content 0 ≡ t) × ((enque n t q).num ≡ n + 1)
unfolding Holds enque
enque-full n t q xs (ps, r, e) l =
    let g = rw e at (length-contents q.content ps) in
    let k : q.num ≡ n = omega (arith, r.count) in
    let b : ltb n q.num ≡ false = ground arith in
    let v = get_none (n + 2) 0 q.free (omega (arith, r.room)) in
    let z : (q.head == q.head) ≡ true = ground arith in rw (b, v) (rw z refl, refl, rw k refl)
