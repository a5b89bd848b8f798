-- ===== src/Ipc/Deliver.antt =====
-- Messages that arrive.
use own_os.Prelude.{
  ℕ, ◌<◌, ◌≡◌, ◌≢◌, sym, subst, inl, inr, refl, true, false, none, some, List, ◌∷◌, length, ◌==◌,
  ◌||◌, if◌then◌else◌, arith, Bool-cases,
}
use own_os.Que.{Que, assign, enque, deque, deque_same}
use own_os.Que.Order.{Holds, enque-Holds}
use own_os.Que.Take.{taken, Took, deque_same-Took}
use own_os.Process.{get_proc}
use own_os.Task.Sleep.{wake_up-none}
use own_os.Task.{Kernel, sleep, wake_up}
use own_os.Ipc.{
  send_to, Message, Mail, same_sender, message_of, Delivery, panics, after, my_id, myself, pid_any,
  nr_message, send, recv, Entry, same_irq, invalid_entry, nr_waiting, notify,
}

assign_same : (p : ℕ) (v : Que Message) (f : ℕ → Que Message) → assign p v f p ≡ v
assign_same p v f = let z : (p == p) ≡ true = ground arith in rw z refl

assign_other : (p q : ℕ) (v : Que Message) (f : ℕ → Que Message) → q ≢ p → assign p v f q ≡ f q
assign_other p q v f n = let z : (q == p) ≡ false = ground arith in rw z refl

-- The oldest message in the queue of those who wait for any message from `p`, and whether a receiver waits.
abbrev pub any_of : (p : ℕ) → Mail → Message × Que Message
any_of p s = deque nr_message (s.any_q p)

abbrev pub wanted_of : (id : ℕ) → Mail → Message × Que Message
wanted_of id s = deque_same nr_message same_sender (message_of id) (s.recv_q (myself s))

-- What `send` comes to: the message in front of those of `p`, the wish that it meets taken out of its queue, and the
-- process `id` woken where there was such a wish, for this sender or for any; else the sender sleeps.
pub Sent : (id p : ℕ) (mess : Message) (xs : List Message) → Mail → Delivery → Type 0
Sent id p mess xs s d =
    let wanted = wanted_of id s in
    let any = any_of p s in
    (s' : Mail) × Holds nr_message (s'.send_q p) (mess ∷ xs)
    × ((q : ℕ) → q ≢ p → s'.send_q q ≡ s.send_q q)
    × (s'.recv_q ≡ assign (myself s) wanted.1 s.recv_q)
    × (s'.any_q ≡ (if wanted.0.is_valid then s.any_q else assign p any.1 s.any_q))
    × (d
        ≡ after
            (if wanted.0.is_valid || any.0.is_valid
              then wake_up id s.kernel
              else sleep (my_id s) 0 s.kernel)
            s' mess)

-- For a process `p` whose queue of messages is not full, `send` puts the message, with the sender's identifier, behind
-- those that wait there and changes no other such queue. Where the queue of wishes to receive has one for the number
-- of `p`, it is taken out and `p` is woken; where it has none, but `p` waits for any message, that wish is taken out
-- and `p` is woken; else the sender goes to sleep.
pub send-Sent :
    (id p : ℕ) (mess : Message) (s : Mail) (xs : List Message)
    → get_proc id s.kernel.manager ≡ some p
    → Holds nr_message (s.send_q p) xs
    → length xs < nr_message
    → Sent id p (record mess { id = my_id s }) xs s (send id mess s)
unfolding send send_to Sent
send-Sent id p mess s xs g h l =
    let mess' = record mess { id = my_id s } in
    let k = enque-Holds nr_message mess' (s.send_q p) xs h l in
    let e = assign_same p (enque nr_message mess' (s.send_q p)) s.send_q in
    let k' = subst (λ q. Holds nr_message q (mess' ∷ xs)) (sym e) k in
    let other : (q : ℕ)
        → q ≢ p
        → assign p (enque nr_message mess' (s.send_q p)) s.send_q q ≡ s.send_q q =
      λ q n. assign_other p q (enque nr_message mess' (s.send_q p)) s.send_q n in
    elim (Bool-cases (wanted_of id s).0.is_valid) [
      | inl v ↦ rw (send, g, v) (_, k', other, refl, refl, refl)
      | inr v ↦ elim (Bool-cases (any_of p s).0.is_valid) [
        | inl w ↦ rw (send, g, v, w) (_, k', other, refl, refl, refl)
        | inr w ↦ rw (send, g, v, w) (_, k', other, refl, refl, refl)
      ]
    ]

-- With a message that waits, `recv` from any process panics, since no process has the identifier
-- `pid_any` that it wakes.
pub recv_any-panics :
    (callback : ℕ) (mess : Message) (s : Mail)
    → get_proc pid_any s.kernel.manager ≡ none
    → (deque nr_message (s.send_q (myself s))).0.is_valid ≡ true
    → recv callback pid_any mess s ≡ panics
unfolding recv after
recv_any-panics callback mess s g v = rw (recv, v, wake_up-none pid_any s.kernel g) refl

-- `notify` takes the process that was the last to wait for the interrupt out of the queue and wakes it;
-- the others stay in their order.
pub notify-wakes :
    (irq : ℕ) (k : Kernel) (q : Que Entry) (xs ys : List Entry) (e : Entry)
    → Holds nr_waiting q xs
    → taken same_irq (record { irq = irq; pid = 0 }) xs ≡ some (e, ys)
    → e.irq ≢ 0xffffffff
    → ((notify irq k q).0 ≡ wake_up e.pid k) × Holds nr_waiting (notify irq k q).1 ys
unfolding notify Took
notify-wakes irq k q xs ys e h t n =
    let a : Entry = record { irq = irq; pid = 0 } in
    let w = deque_same-Took same_irq a nr_waiting q xs h in
    let (f, g) = rw t at w in
    let z : same_irq e invalid_entry ≡ false = ground arith in rw (f, z) (refl, g)
