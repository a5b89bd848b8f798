-- ===== src/Que.antt =====
-- The classes Lessor and Que of include/os/KType.hpp: a queue in `n` + 2 rooms that are leased. A pointer
-- to a room is the room's number and one, and NULL is 0; what is written through NULL stands at 0. The
-- marks of the two sentinels are never read, and are left out.
pub mod Rooms
pub mod Links
pub mod Order
pub mod Take
pub mod Full
mod Tests
use own_os.Prelude.{ℕ, zero, suc, ◌+◌, ◌-◌, Bool, true, false, ltb, ◌==◌, if◌then◌else◌}

-- An array after an assignment.
abbrev pub assign {ℓ} : {A : Type ℓ} → ℕ → A → (ℕ → A) → ℕ → A
assign i v f j = if j == i then v else f j

-- `Lessor::get` over `k` rooms from room `i` on: the pointer, and which rooms are free.
unfoldable pub get : (k i : ℕ) → (ℕ → Bool) → ℕ × (ℕ → Bool)
get zero i free = (0, free)
get (suc k) i free =
    let rest = get k (suc i) free in if free i then (suc i, assign i false free) else rest

-- `Lessor::free`.
pub give_back : (k i a : ℕ) → (ℕ → Bool) → ℕ → Bool
give_back zero i a free = free
give_back (suc k) i a free =
    let rest = give_back k (suc i) a free in if a == suc i then assign i true free else rest

pub record Que (T : Type 0) : Type 0 where
  pub free : ℕ → Bool
  pub next : ℕ → ℕ
  pub prev : ℕ → ℕ
  pub content : ℕ → T
  pub head : ℕ
  pub tail : ℕ
  pub num : ℕ
  pub invalid : T

module _ {T : Type 0} (n : ℕ) where
  -- The constructor; an entry has no next one at first, and `prev` and `content` hold anything.
  unfoldable pub init : (invalid : T) → (prev : ℕ → ℕ) → (content : ℕ → T) → Que T
  unfolding get
  init invalid prev content =
      let (head, free) = get (n + 2) 0 (λ i. true) in
      let (tail, free) = get (n + 2) 0 free in
      record {
        free = free;
        next = assign tail 0 (assign head tail (λ i. 0));
        prev = assign head 0 (assign tail head prev);
        content = content;
        head = head;
        tail = tail;
        num = 0;
        invalid = invalid;
      }

  unfoldable pub enque : T → Que T → Que T
  unfolding get
  enque t q =
      let first = q.next q.head in
      let (p, free) = get (n + 2) 0 q.free in
      if ltb n q.num then q else record q {
        free = free;
        content = assign p t q.content;
        next = assign q.head p (assign p first q.next);
        prev = assign first p (assign p q.head q.prev);
        num = q.num + 1;
      }

  -- The entry `p` between two others is taken out.
  pub unlink : (p before behind : ℕ) → Que T → Que T
  unfolding give_back
  unlink p before behind q = record q {
    next = assign before behind q.next;
    prev = assign behind before q.prev;
    free = give_back (n + 2) 0 p q.free;
    num = q.num - 1;
  }

  unfoldable pub deque : Que T → T × Que T
  unfolding unlink
  deque q =
      let p = q.prev q.tail in
      if q.num == 0 then (q.invalid, q) else (q.content p, unlink p (q.prev p) q.tail q)

  module _ (same : T → T → Bool) where
    -- The loop of the `deque` with an argument, at the entry `curr`.
    pub deque_loop : (k curr : ℕ) → T → Que T → T × Que T
    unfolding unlink
    deque_loop zero curr a q = (q.invalid, q)
    deque_loop (suc k) curr a q =
        let rest = deque_loop k (q.next curr) a q in
        if same (q.content curr) a
        then (q.content curr, unlink curr (q.prev curr) (q.next curr) q)
        else rest

    pub deque_same : T → Que T → T × Que T
    unfolding deque_loop
    deque_same a q = deque_loop q.num (q.next q.head) a q
