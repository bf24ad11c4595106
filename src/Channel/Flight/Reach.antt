-- ===== src/Channel/Flight/Reach.antt =====
-- The operations in any order: what holds in each state that they lead to.
use nsq.Base.{
  ℕ, ◌≡◌, sym, ap, subst, ◌∙◌, arith, Option, some, Bool, ◌==◌, ◌+◌, Bool-cases, inl, inr,
}
use nsq.Base.Map.{find}
use nsq.InFlightQueue.Swap.{Holds}
use nsq.Channel.Backend.{Backend}
use nsq.Channel.Flight.{
  MessageState, FlightError, Flight, assign, start_in_flight_timeout, touch_message,
  requeue_message, init_pq,
}
use nsq.Channel.Flight.Count.{deferred_in}
use nsq.Channel.Flight.Consistent.{IsConsistent, Ends}
use nsq.Channel.Flight.Push.{start_in_flight_timeout_correct, assign-IsConsistent}
use nsq.Channel.Flight.Defer.{touch_message_correct, requeue_later_correct}
use nsq.Channel.Flight.Leave.{Finish, internal_finish_message}
use nsq.Channel.Flight.Settle.{requeue_now_correct}
use nsq.Channel.Flight.Finish.{internal_finish_message_correct}
use nsq.Channel.Flight.Timeout.{timeout_step}
use nsq.Channel.Flight.Timeout.Correct.{timeout_step_correct}
use nsq.Channel.Flight.Scan.{requeue_waiting, requeue_waiting-IsConsistent}

same_result : {A : Type 0} {a b : A} → some a ≡ some b → a ≡ b
same_result e = cc

module _ (backend : Backend) where
  -- One operation under inFlightMutex: of processInFlightQueue one turn of its loop, or its scan of the
  -- waiting messages; or a change elsewhere to a message. A message that is started or changed
  -- elsewhere is not in the heap, and one that is started is not deferred.
  pub data Step (f f' : Flight backend) : Type 0 where
    start :
        (p client now timeout : ℕ) (e : Option FlightError)
        → ¬ Holds f.queue p
        → (f.cells p).deferred_cnt ≡ 0
        → start_in_flight_timeout backend p client now timeout f ≡ some (e, f')
        → Step f f'
    touch :
        (client id now timeout : ℕ) (e : Option FlightError)
        → touch_message backend client id now timeout f ≡ some (e, f')
        → Step f f'
    requeue :
        (client id now timeout waiting : ℕ) (by_client : Bool) (e : Option FlightError)
        → requeue_message backend client id now timeout waiting by_client f ≡ some (e, f')
        → Step f f'
    finish :
        (client id : ℕ) (force : Bool) (e : Finish)
        → internal_finish_message backend client id force f ≡ some (e, f')
        → Step f f'
    time_out : (now : ℕ) (more : Bool) → timeout_step backend now f ≡ some (more, f') → Step f f'
    scan : f' ≡ requeue_waiting backend f → Step f f'
    reset : (mem_queue_size : ℕ) → f' ≡ init_pq backend mem_queue_size f → Step f f'
    elsewhere :
        (p : ℕ) (msg : MessageState)
        → ¬ Holds f.queue p
        → f' ≡ record f { cells = assign f.cells p msg }
        → Step f f'

  pub data Reachable (f : Flight backend) : Flight backend → Type 0 where
    here : Reachable f f
    next : {g h : Flight backend} → Reachable f g → Step g h → Reachable f h

  -- The state after a call that ended.
  after :
      {A : Type 0} {P : A → Flight backend → Type 0} {call : Option (A × Flight backend)}
      {f' : Flight backend} (a : A)
      → Ends backend call P
      → call ≡ some (a, f')
      → IsConsistent backend f'
  after a ends run =
      let same : ends.after ≡ _ = ap (λ r. r.1) (same_result (sym ends.run ∙ run)) in
      subst (IsConsistent backend) same ends.consistent

  init_pq-IsConsistent :
      (mem_queue_size : ℕ) (f : Flight backend)
      → IsConsistent backend (init_pq backend mem_queue_size f)
  unfolding init_pq find deferred_in
  init_pq-IsConsistent mem_queue_size f = record {
    agreed = record {
      valid = record {
        heap = λ c p h. absurd (omega arith);
        indexed = λ i h. absurd (omega arith);
        fits = omega arith;
        room = ground arith;
      };
      listed = λ k p e. absurd (cc e);
      held = λ p h. absurd (omega (arith, h.inside));
      keyed = tt;
    };
    counted = omega arith;
  }

  requeue_message_correct :
      (client id now timeout waiting : ℕ) (by_client : Bool) (f f' : Flight backend)
      (e : Option FlightError)
      → IsConsistent backend f
      → requeue_message backend client id now timeout waiting by_client f ≡ some (e, f')
      → IsConsistent backend f'
  unfolding requeue_message
  requeue_message_correct client id now timeout waiting by_client f f' e v run =
      elim (Bool-cases (timeout == 0)) [
        | inl none_asked ↦
            after e (requeue_now_correct backend client id by_client f v) (rw none_asked at run)
        | inr some_asked ↦
            after e (requeue_later_correct backend client id (now + timeout) waiting f v)
              (rw some_asked at run)
      ]

  Step-IsConsistent :
      (f f' : Flight backend) → IsConsistent backend f → Step f f' → IsConsistent backend f'
  Step-IsConsistent f f' v (start p client now timeout e new fresh run) =
      after e (start_in_flight_timeout_correct backend p client now timeout f v new fresh) run
  Step-IsConsistent f f' v (touch client id now timeout e run) =
      after e (touch_message_correct backend client id now timeout f v) run
  Step-IsConsistent f f' v (requeue client id now timeout waiting by_client e run) =
      requeue_message_correct client id now timeout waiting by_client f f' e v run
  Step-IsConsistent f f' v (finish client id force e run) =
      after e (internal_finish_message_correct backend client id force f v) run
  Step-IsConsistent f f' v (time_out now more run) =
      let (r, run', _, w) = timeout_step_correct backend now f v in
      subst (IsConsistent backend)
        (ap (λ (x : Bool × Flight backend). x.1) (same_result (sym run' ∙ run))) w
  Step-IsConsistent f f' v (scan e) =
      subst (IsConsistent backend) (sym e) (requeue_waiting-IsConsistent backend f v)
  Step-IsConsistent f f' v (reset mem_queue_size e) =
      subst (IsConsistent backend) (sym e) (init_pq-IsConsistent mem_queue_size f)
  Step-IsConsistent f f' v (elsewhere p msg new e) =
      subst (IsConsistent backend) (sym e) (assign-IsConsistent backend p msg f v new)

  -- A state that the operations lead to from a consistent one, in any order, with the turns of
  -- processInFlightQueue between the others, is consistent. A message is started only when it is
  -- not in the heap and not deferred, and what changes elsewhere is not in the heap.
  -- Consistent means: the map of messages in flight and the heap hold the same messages, the heap is in
  -- order of their times, each message knows its place, and deferredCount is the number of deferred
  -- messages in flight, modulo 2 ^ 64.
  pub Reachable-IsConsistent :
      (f g : Flight backend) → IsConsistent backend f → Reachable f g → IsConsistent backend g
  Reachable-IsConsistent f g v here = v
  Reachable-IsConsistent f g v (next {g = h} r s) =
      Step-IsConsistent h g (Reachable-IsConsistent f h v r) s
