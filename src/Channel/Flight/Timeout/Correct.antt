-- ===== src/Channel/Flight/Timeout/Correct.antt =====
-- The loop of processInFlightQueue takes out exactly the messages whose time has passed.
use nsq.Base.{
  ℕ, zero, suc, ◌+◌, ◌%◌, ◌≤◌, ◌<◌, ◌≡◌, ◌≢◌, ◌⊎◌, ◌↔◌, inl, inr, refl, ap, ◌∙◌, arith, Option,
  some, Bool, true, false, if◌then◌else◌, Bool-cases, length, u64_mod,
}
use nsq.Base.Map.{find, erase}
use nsq.InFlightQueue.{Pqueue, peek_and_shift, ◌>>=◌}
use nsq.InFlightQueue.Swap.{Holds}
use nsq.InFlightQueue.Cut.{Removed}
use nsq.InFlightQueue.Peek.{Peeked, empty, early, due, peek_and_shift_correct}
use nsq.Channel.Backend.{Backend}
use nsq.Channel.Flight.{MessageState, is_deferred, pris, decrement, Flight, do_requeue}
use nsq.Channel.Flight.Count.{weight}
use nsq.Channel.Flight.Agreed.{IsOther, assign-IsOther, IsAgreed-erase}
use nsq.Channel.Flight.Consistent.{IsConsistent, rest_same}
use nsq.Channel.Flight.Leave.{IsLeft, IsLeft-IsConsistent}
use nsq.Channel.Flight.Settle.{weightless, do_requeue_correct}
use nsq.Channel.Flight.Timeout.{
  timed_out, expire, timeout_step, timeout_loop, process_in_flight_queue,
}

module _ (backend : Backend) where
  -- One turn: it stops, where nothing is due or consuming is disabled, or one message leaves.
  pub data Turns (now : ℕ) (f : Flight backend) : Bool → Flight backend → Type 0 where
    disabled : f.consume_disabled ≡ true → Turns now f false f
    nothing_due : ((p : ℕ) → Holds f.queue p → now < (f.cells p).pri) → Turns now f false f
    one_due :
        (p : ℕ) (f' : Flight backend)
        → f.consume_disabled ≡ false
        → (f.cells p).pri ≤ now
        → length f'.queue.items + 1 ≡ length f.queue.items
        → IsOther p f.cells f'.cells
        → ((q : ℕ) → Holds f'.queue q ↔ (Holds f.queue q × (q ≢ p)))
        → f'.consume_disabled ≡ f.consume_disabled
        → Turns now f true f'

  same_count :
      (m : MessageState) (c rest : ℕ)
      → c ≡ (weight m + rest) % u64_mod
      → (if is_deferred m then decrement c else c) ≡ rest % u64_mod
  same_count m c rest e = elim (Bool-cases (is_deferred m)) [
    | inl was ↦ rw was (omega (arith, rw was at e))
    | inr fresh ↦ rw fresh (weightless backend m c rest (ground arith) e)
  ]

  -- A message of the heap that is due.
  module _ (now : ℕ) (f : Flight backend) (v : IsConsistent backend f) (p : ℕ) (t : Pqueue)
      (on : f.consume_disabled ≡ false) (in_time : (f.cells p).pri ≤ now) (held : Holds f.queue p)
      (r : Removed (pris f.cells) p f.queue t) where
    abbrev taken : Flight backend
    taken = record f { queue = t }

    expired :
        Turns now f (expire backend (some p) taken).0 (expire backend (some p) taken).1
        × IsConsistent backend (expire backend (some p) taken).1
    unfolding expire timed_out
    expired =
        let id = (f.cells p).id in
        let e : find id f.in_flight_messages ≡ some p = v.agreed.held p held in
        let l : IsLeft backend p id f
            (record taken { in_flight_messages = erase id f.in_flight_messages }) =
          record {
            cells = refl;
            map = refl;
            chan = refl;
            exit = refl;
            confirmation = refl;
            gone = λ h. ((r.holds p).0 h).1 refl;
            agreed =
                IsAgreed-erase f.cells f.cells f.in_flight_messages f.queue v.agreed p
                  (λ q ne. refl) id e t r;
            owed =
                v.counted
                ∙ ap (λ n. n % u64_mod) (rest_same backend f v id p f.cells e (λ q ne. refl));
          } in
        let d = do_requeue_correct backend p (timed_out backend p taken) in
        let other : IsOther p f.cells (do_requeue backend p (timed_out backend p taken)).1.cells =
          λ q ne. ap (λ c. c q) d.cells ∙ assign-IsOther f.cells p _ q ne in
        rw e (
          one_due p (do_requeue backend p (timed_out backend p taken)).1 on in_time
              (ap (λ (s : Pqueue). length s.items + 1) d.queue ∙ r.size) other
              (λ q. rw d.queue (r.holds q)) d.disabled,
          IsLeft-IsConsistent backend p id f _ (do_requeue backend p (timed_out backend p taken)).1
              l other d.map d.queue
              (λ rest q. d.count ∙ same_count (f.cells p) f.deferred_count rest q),
        )

  pub timeout_step_correct :
      (now : ℕ) (f : Flight backend)
      → IsConsistent backend f
      → (r : Bool × Flight backend) × (timeout_step backend now f ≡ some r)
        × Turns now f r.0 r.1
        × IsConsistent backend r.1
  unfolding timeout_step expire
  timeout_step_correct now f v = by_switch f.consume_disabled refl
    where
      turn : Option (Bool × Flight backend)
      turn = do
        r ← peek_and_shift (pris f.cells) now f.queue
        some (expire backend r.0 (record f { queue = r.2 }))

      by_peek :
          (r : Option ℕ × ℕ × Pqueue)
          → f.consume_disabled ≡ false
          → Peeked (pris f.cells) now f.queue r
          → Turns now f
              (expire backend r.0 (record f { queue = r.2 })).0
              (expire backend r.0 (record f { queue = r.2 })).1
            × IsConsistent backend (expire backend r.0 (record f { queue = r.2 })).1
      by_peek r on (empty none_held) = (nothing_due (λ p h. omega (arith, h.inside)), v)
      by_peek r on (early x held later first) = (nothing_due (λ p h. omega (arith, first p h)), v)
      by_peek r on (due x t held in_time removed first) =
          expired now f v x t on in_time held removed

      by_switch :
          (b : Bool)
          → f.consume_disabled ≡ b
          → (r : Bool × Flight backend) × ((if b then some (false, f) else turn) ≡ some r)
            × Turns now f r.0 r.1
            × IsConsistent backend r.1
      by_switch true off = ((false, f), refl, disabled off, v)
      by_switch false on =
          let (r, run, peeked) = peek_and_shift_correct (pris f.cells) now f.queue v.agreed.valid in
          let (turns, after) = by_peek r on peeked in
          (expire backend r.0 (record f { queue = r.2 }), rw run refl, turns, after)

  -- What the loop leaves.
  pub record Swept (now : ℕ) (f f' : Flight backend) : Type 0 where
    pub consistent : IsConsistent backend f'
    pub off : f.consume_disabled ≡ true → f' ≡ f
    pub on :
        f.consume_disabled ≡ false
        → (p : ℕ) → Holds f'.queue p ↔ (Holds f.queue p × (now < (f.cells p).pri))
    pub untouched : (p : ℕ) → Holds f'.queue p → f'.cells p ≡ f.cells p

  later_turn :
      (now : ℕ) (f f1 f2 : Flight backend) (p : ℕ)
      → (f.cells p).pri ≤ now
      → IsOther p f.cells f1.cells
      → ((q : ℕ) → Holds f1.queue q ↔ (Holds f.queue q × (q ≢ p)))
      → f1.consume_disabled ≡ f.consume_disabled
      → f.consume_disabled ≡ false
      → Swept now f1 f2
      → Swept now f f2
  later_turn now f f1 f2 p in_time other holds same on s =
      let was : (q : ℕ) → Holds f2.queue q → Holds f.queue q × (q ≢ p) =
        λ q h. (holds q).0 ((s.on (same ∙ on) q).0 h).0 in
      record {
        consistent = s.consistent;
        off = λ b. absurd (cc (b, on));
        on = λ _ q. (
          λ h.
              let time = ((s.on (same ∙ on) q).0 h).1 in
              ((was q h).0, rw (other q (was q h).1) at time),
          λ h.
              let ne : q ≢ p = λ e. omega (arith, h.1, in_time, ap (λ x. (f.cells x).pri) e) in
              (s.on (same ∙ on) q).1 ((holds q).1 (h.0, ne), rw (other q ne) h.1),
        );
        untouched = λ q h. s.untouched q h ∙ other q (was q h).1;
      }

  timeout_loop_correct :
      (fuel now : ℕ) (f : Flight backend)
      → IsConsistent backend f
      → length f.queue.items < fuel
      → (f' : Flight backend) × (timeout_loop backend fuel now f ≡ some f') × Swept now f f'
  unfolding timeout_loop
  timeout_loop_correct zero now f v enough = elim enough [ ]
  timeout_loop_correct (suc fuel) now f v enough =
      let (r, run, turns, after) = timeout_step_correct now f v in
      rw run (go r.0 r.1 turns after (λ g w small. timeout_loop_correct fuel now g w small))
    where
      go :
          (more : Bool) (f1 : Flight backend)
          → Turns now f more f1
          → IsConsistent backend f1
          → ((g : Flight backend)
              → IsConsistent backend g
              → length g.queue.items < fuel
              → (f' : Flight backend) × (timeout_loop backend fuel now g ≡ some f')
                × Swept now g f')
          → (f' : Flight backend) × ((if more then timeout_loop backend fuel now f1 else some f1)
              ≡ some f')
            × Swept now f f'
      go more f1 (disabled off) after again = (
        f,
        refl,
        record {
          consistent = v;
          off = λ _. refl;
          on = λ on. absurd (cc (off, on));
          untouched = λ p h. refl;
        },
      )
      go more f1 (nothing_due later) after again = (
        f,
        refl,
        record {
          consistent = v;
          off = λ _. refl;
          on = λ _ p. (λ h. (h, later p h), λ h. h.0);
          untouched = λ p h. refl;
        },
      )
      go more f1 (one_due p f' on in_time size other holds same) after again =
          let (f2, run2, s) = again f' after (omega (arith, size, enough)) in
          (f2, run2, later_turn now f f' f2 p in_time other holds same on s)

  -- processInFlightQueue in a consistent state, up to its label `exit`, ends in a consistent state,
  -- without a panic. While the channel exits, or where consuming is disabled, nothing changes.
  -- Otherwise exactly the messages whose time has not passed are still in flight, with their fields
  -- unchanged.
  pub process_in_flight_queue_correct :
      (now : ℕ) (f : Flight backend)
      → IsConsistent backend f
      → (f' : Flight backend) × (process_in_flight_queue backend now f ≡ some f')
        × (((f.exiting ≡ true) × (f' ≡ f)) ⊎ ((f.exiting ≡ false) × Swept now f f'))
        × IsConsistent backend f'
  unfolding process_in_flight_queue
  process_in_flight_queue_correct now f v = by_exit f.exiting refl
    where
      by_exit :
          (b : Bool)
          → f.exiting ≡ b
          → (f' : Flight backend) × ((if b
                then some f
                else timeout_loop backend (length f.queue.items + 1) now f)
              ≡ some f')
            × (((f.exiting ≡ true) × (f' ≡ f)) ⊎ ((f.exiting ≡ false) × Swept now f f'))
            × IsConsistent backend f'
      by_exit true e = (f, refl, inl (e, refl), v)
      by_exit false e =
          let (f', run, s) =
            timeout_loop_correct (length f.queue.items + 1) now f v (omega arith) in
          (f', run, inr (e, s), s.consistent)
