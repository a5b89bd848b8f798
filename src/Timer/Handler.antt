-- ===== src/Timer/Handler.antt =====
-- What one timer interrupt does to a sorted list of timers.
use own_os.Prelude.{
  ℕ, ◌+◌, ◌%◌, ◌≡◌, refl, ◌∙◌, ap, Bool, true, false, ◌||◌, zero, suc, List, [], ◌∷◌, arith, ltb,
  if◌then◌else◌, Bool-cases, inl, inr,
}
use own_os.Prelude.Int.{ℤ, pos, ltb_ℤ}
use own_os.Prelude.Words.{u8_mod}
use own_os.Timer.{
  interval, Entry, entry, Timer, TimerType, pass, pass_clocks, count_time, fire, expire,
  timer_handler, is_task_switch, wakeup, watch_dog, invalid, task_switch,
}
use own_os.Timer.Sorted.{IsSorted, Above, pass-IsSorted}

abbrev pub is_running : Entry → Bool
is_running e = ltb_ℤ (pos 0) e.clocks

-- The timers with clocks left.
pub running : List Entry → List Entry
running [] = []
running (p ∷ ps) = if is_running p then p ∷ running ps else running ps

-- Whether a quantum is among the timers that have run out.
pub quantum_due : List Entry → Bool
quantum_due [] = false
quantum_due (p ∷ ps) =
    if is_running p then quantum_due ps else is_task_switch p.type || quantum_due ps

-- The wakeups of the timers that have run out, in their order.
module _ {P : Type 0} (wake : ℕ → P → P) where
  pub wakes : List Entry → P → P
  wakes [] k = k
  wakes (p ∷ ps) k =
      wakes ps (if is_running p then k else elim (p.type) [ wakeup ↦ wake p.pr_id k | _ ↦ k ])

  all_running :
      (c : ℤ) (ps : List Entry) (k : P)
      → Above c ps
      → ltb_ℤ (pos 0) c ≡ true
      → (running ps ≡ ps) × (quantum_due ps ≡ false) × (wakes ps k ≡ k)
  unfolding running quantum_due wakes
  all_running c [] k a h = (refl, refl, refl)
  all_running c (p ∷ ps) k a h =
      let r : is_running p ≡ true = ground arith in
      let (x, y, z) = all_running c ps k a.1 h in rw r (rw x, y, z)

  count_time-byte :
      (timer : Timer)
      → count_time timer ≡ record timer { msecond = (timer.msecond + interval) % u8_mod }
  unfolding count_time
  count_time-byte timer =
      let l : ltb 1000 ((timer.msecond + interval) % u8_mod) ≡ false = ground arith in rw l refl

  -- What is left of the handler after one timer that has run out.
  fire_lem :
      (c : ℤ) (t : TimerType) (i : ℕ) (ps : List Entry) (timer : Timer) (k : P)
      → ((timer' : Timer) (k' : P)
          → expire wake ps timer' k' ≡ (
            record timer' {
              head = running ps;
              quantum_exceeded = timer'.quantum_exceeded || quantum_due ps;
            },
            wakes ps k',
          ))
      → expire wake ps (fire wake (entry c t i) timer k).0 (fire wake (entry c t i) timer k).1 ≡ (
        record timer {
          head = running ps;
          quantum_exceeded = timer.quantum_exceeded || (is_task_switch t || quantum_due ps);
        },
        wakes ps (elim t [ wakeup ↦ wake i k | _ ↦ k ]),
      )
  fire_lem c invalid i ps timer k rest = rest timer k
  fire_lem c watch_dog i ps timer k rest = rest timer k
  fire_lem c task_switch i ps timer k rest = rw (rest _ k) (ground arith)
  fire_lem c wakeup i ps timer k rest = rest timer (wake i k)

  fire-time :
      (c : ℤ) (t : TimerType) (i : ℕ) (timer : Timer) (k : P)
      → ((fire wake (entry c t i) timer k).0.second ≡ timer.second)
        × ((fire wake (entry c t i) timer k).0.msecond ≡ timer.msecond)
  fire-time c invalid i timer k = (refl, refl)
  fire-time c watch_dog i timer k = (refl, refl)
  fire-time c task_switch i timer k = (refl, refl)
  fire-time c wakeup i timer k = (refl, refl)

  -- The expired timers are a prefix of the sorted list, so the loop acts on all of them.
  expire_lem :
      (ps : List Entry) (timer : Timer) (k : P)
      → IsSorted ps
      → expire wake ps timer k ≡ (
        record timer {
          head = running ps;
          quantum_exceeded = timer.quantum_exceeded || quantum_due ps;
        },
        wakes ps k,
      )
  unfolding expire running quantum_due wakes
  expire_lem [] timer k s = ground arith
  expire_lem (p ∷ ps) timer k (a, s) = elim (Bool-cases (is_running p)) [
    | inl r ↦ let (x, y, z) = all_running p.clocks ps k a r in rw r (rw (x, y, z) (ground arith))
    | inr r ↦ rw r (fire_lem p.clocks p.type p.pr_id ps timer k (λ t' k'. expire_lem ps t' k' s))
  ]

  expire-time :
      (ps : List Entry) (timer : Timer) (k : P)
      → ((expire wake ps timer k).0.second ≡ timer.second)
        × ((expire wake ps timer k).0.msecond ≡ timer.msecond)
  unfolding expire
  expire-time [] timer k = (refl, refl)
  expire-time (p ∷ ps) timer k =
      let (a, b) = fire-time p.clocks p.type p.pr_id timer k in
      let (x, y) = expire-time ps (fire wake p timer k).0 (fire wake p timer k).1 in
      elim (Bool-cases (is_running p)) [ inl r ↦ rw r (refl, refl) | inr r ↦ rw r (x ∙ a, y ∙ b) ]

  -- The handler runs `expire` on the list after `passClocks`.
  timer_handler-expire :
      (timer : Timer) (k : P)
      → timer_handler wake timer k
        ≡ expire wake
            (pass 1 timer.head)
            (record timer {
              head = pass 1 timer.head;
              msecond = (timer.msecond + interval) % u8_mod;
            })
            k
  unfolding timer_handler pass_clocks
  timer_handler-expire timer k = rw (count_time-byte timer) refl

  -- On a sorted list, one interrupt takes one clock off every timer and keeps exactly the timers
  -- with clocks left; the quantum is exceeded if it was, or if a task switch has run out; the tasks
  -- of the wakeups that have run out are woken in the order of the list. The count of milliseconds
  -- goes on by 10 modulo 256, and the count of seconds stays as it is.
  pub timer_handler_lem :
      (timer : Timer) (k : P)
      → IsSorted timer.head
      → timer_handler wake timer k ≡ (
        record timer {
          head = running (pass 1 timer.head);
          quantum_exceeded = timer.quantum_exceeded || quantum_due (pass 1 timer.head);
          msecond = (timer.msecond + interval) % u8_mod;
        },
        wakes (pass 1 timer.head) k,
      )
  timer_handler_lem timer k s =
      timer_handler-expire timer k
      ∙ expire_lem (pass 1 timer.head) _ k (pass-IsSorted 1 timer.head s)

  -- A number of interrupts one after the other.
  pub ticks : ℕ → Timer → P → Timer × P
  ticks zero timer k = (timer, k)
  ticks (suc n) timer k = let (timer', k') = ticks n timer k in timer_handler wake timer' k'

  -- Whatever the number of interrupts, the count of seconds is the one the timer started with:
  -- the milliseconds are a byte and never pass 1000.
  pub timer_handler-second :
      (n : ℕ) (timer : Timer) (k : P) → (ticks n timer k).0.second ≡ timer.second
  unfolding ticks
  timer_handler-second zero timer k = refl
  timer_handler-second (suc n) timer k =
      let (timer', k') = ticks n timer k in
      ap (λ r. r.0.second) (timer_handler-expire timer' k')
      ∙ (expire-time (pass 1 timer'.head) _ k').0
      ∙ timer_handler-second n timer k
