-- ===== src/Channel/Flight/Tests.antt =====
-- Runs on a channel with two messages in flight, one of them deferred.
use nsq.Base.{
  ℕ, zero, suc, ◌-◌, ◌/◌, ◌≤◌, ◌<◌, ◌≡◌, ◌⊎◌, inl, inr, refl, sym, arith, true, false, Option, none,
  some, [], ◌∷◌, ◌==◌, if◌then◌else◌,
}
use nsq.Base.Map.{find}
use nsq.InFlightQueue.Array.{at}
use nsq.InFlightQueue.Swap.{Holds}
use nsq.Channel.Tests.{disk, chan}
use nsq.Channel.Flight.{
  MessageState, Flight, pris, start_in_flight_timeout, touch_message, requeue_now, requeue_later,
}
use nsq.Channel.Flight.Count.{deferred_in}
use nsq.Channel.Flight.Consistent.{IsConsistent, Ends}
use nsq.Channel.Flight.Push.{Started, sent, start_in_flight_timeout_correct}
use nsq.Channel.Flight.Defer.{Touched, touch_message_correct, Deferred, requeue_later_correct}
use nsq.Channel.Flight.Leave.{internal_finish_message}
use nsq.Channel.Flight.Settle.{RequeuesTo, requeue_now_correct}
use nsq.Channel.Flight.Finish.{FinishesTo, internal_finish_message_correct}
use nsq.Channel.Flight.Timeout.{process_in_flight_queue}
use nsq.Channel.Flight.Timeout.Correct.{Swept, process_in_flight_queue_correct}
use nsq.Channel.Flight.Reach.{touch, here, next, Reachable-IsConsistent}
use nsq.Channel.Flight.Scan.{Moved, requeue_waiting, requeue_waiting-Moved}

abbrev pub message : ℕ → Option ℕ → ℕ → ℕ → MessageState
message id owner pri deferred_cnt = record {
  id = id;
  attempts = 1;
  owner = owner;
  delivery_ts = 100;
  pri = pri;
  deferred_cnt = deferred_cnt;
  delayed_orig_id = 0;
  position = record {
    offset = 10;
    raw_move_size = 10;
    queue_cnt_index = 2;
    by_channel_delay = false;
  };
}

abbrev pub stored : ℕ → MessageState
stored p =
    if p == 1
    then message 41 (some 5) 200 0
    else if p == 2
    then message 42 none 150 1
    else message 43 none 0 0

abbrev pub flight : Flight disk
flight = record {
  cells = stored;
  in_flight_messages = (41, 1) ∷ (42, 2) ∷ [];
  queue = record {
    items = 2 ∷ 1 ∷ [];
    cap = 2;
    index = λ p. if p == 2 then some 0 else if p == 1 then some 1 else none;
  };
  deferred_count = 1;
  requeue_count = 0;
  timeout_count = 0;
  consume_disabled = false;
  exiting = false;
  requeued_chan = [];
  requeued_cap = 1;
  waiting_requeue_chan = [];
  waiting_requeue = (44, 4) ∷ (45, 5) ∷ [];
  max_msg_timeout = 900;
  max_confirm_win = 500;
  has_delayed_queue = false;
  deferred_from_delay = 0;
  delayed_confirmed = [];
  confirmation = chan;
}

found :
    (k p : ℕ)
    → find k flight.in_flight_messages ≡ some p
    → ((k ≡ 41) × (p ≡ 1)) ⊎ ((k ≡ 42) × (p ≡ 2))
unfolding find
found k p e = ground arith

placed : (p : ℕ) → Holds flight.queue p → (p ≡ 2) ⊎ (p ≡ 1)
unfolding at
placed p h = go h.place h.inside h.here
  where
    go : (i : ℕ) → i < 2 → at flight.queue.items i ≡ p → (p ≡ 2) ⊎ (p ≡ 1)
    go zero h e = inl (sym e)
    go (suc zero) h e = inr (sym e)
    go (suc (suc i)) h e = absurd (omega arith)

flight-IsConsistent : IsConsistent disk flight
unfolding at find deferred_in
flight-IsConsistent = record {
  agreed = record {
    valid = record {
      heap = λ c p h. heap c p h;
      indexed = λ i h. indexed i h;
      fits = omega arith;
      room = omega arith;
    };
    listed = λ k p e. elim (found k p e) [
      | inl (one, two) ↦
          rw (one, two) (refl, record { place = 1; inside = omega arith; here = refl })
      | inr (one, two) ↦
          rw (one, two) (refl, record { place = 0; inside = omega arith; here = refl })
    ];
    held = λ p h. elim (placed p h) [ inl e ↦ rw e refl | inr e ↦ rw e refl ];
    keyed = (refl, (refl, tt));
  };
  counted = refl;
}
  where
    heap :
        (c : ℕ)
        → 0 < c
        → c < 2
        → pris stored (at flight.queue.items ((c - 1) / 2)) ≤ pris stored (at flight.queue.items c)
    heap zero p h = elim p [ ]
    heap (suc zero) p h = omega arith
    heap (suc (suc c)) p h = absurd (omega arith)

    indexed : (i : ℕ) → i < 2 → flight.queue.index (at flight.queue.items i) ≡ some i
    indexed zero h = refl
    indexed (suc zero) h = refl
    indexed (suc (suc i)) h = absurd (omega arith)

third_new : ¬ Holds flight.queue 3
third_new h = elim (placed 3 h) [ inl e ↦ omega arith | inr e ↦ omega arith ]

start_in_flight_timeout_correct_example :
    Ends disk
      (start_in_flight_timeout disk 3 5 120 60 flight)
      (Started disk 3 (sent disk 3 5 120 60 flight))
start_in_flight_timeout_correct_example =
    start_in_flight_timeout_correct disk 3 5 120 60 flight flight-IsConsistent third_new refl

touch_message_correct_example :
    Ends disk (touch_message disk 5 41 180 60 flight) (Touched disk 5 41 180 60 flight)
touch_message_correct_example = touch_message_correct disk 5 41 180 60 flight flight-IsConsistent

requeue_later_correct_example :
    Ends disk (requeue_later disk 5 41 300 2 flight) (Deferred disk 5 41 300 2 flight)
requeue_later_correct_example = requeue_later_correct disk 5 41 300 2 flight flight-IsConsistent

requeue_now_correct_example :
    Ends disk (requeue_now disk 5 41 true flight) (RequeuesTo disk 5 41 flight)
requeue_now_correct_example = requeue_now_correct disk 5 41 true flight flight-IsConsistent

internal_finish_message_correct_example :
    Ends disk (internal_finish_message disk 0 42 true flight) (FinishesTo disk 0 42 true flight)
internal_finish_message_correct_example =
    internal_finish_message_correct disk 0 42 true flight flight-IsConsistent

process_in_flight_queue_correct_example :
    (f' : Flight disk) × (process_in_flight_queue disk 170 flight ≡ some f')
    × (((flight.exiting ≡ true) × (f' ≡ flight))
        ⊎ ((flight.exiting ≡ false) × Swept disk 170 flight f'))
    × IsConsistent disk f'
process_in_flight_queue_correct_example =
    process_in_flight_queue_correct disk 170 flight flight-IsConsistent

abbrev touched : Ends disk (touch_message disk 5 41 180 60 flight) (Touched disk 5 41 180 60 flight)
touched = touch_message_correct disk 5 41 180 60 flight flight-IsConsistent

Reachable-IsConsistent_example : IsConsistent disk touched.after
Reachable-IsConsistent_example =
    Reachable-IsConsistent disk flight touched.after flight-IsConsistent
      (next {g = flight} here (touch 5 41 180 60 touched.value touched.run))

requeue_waiting-Moved_example : Moved disk flight (requeue_waiting disk flight)
unfolding find
requeue_waiting-Moved_example = requeue_waiting-Moved disk flight (refl, (refl, tt))
