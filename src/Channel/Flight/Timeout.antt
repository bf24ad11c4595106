-- ===== src/Channel/Flight/Timeout.antt =====
-- processInFlightQueue: the loop that takes the messages out whose time has passed. Each turn,
-- `timeout_step`, takes inFlightMutex and releases it; the loop is here with nothing between its
-- turns. Where no message is due, the check for one that blocks the confirmation, which may ask the
-- daemon to requeue a copy of it, is left out: it does not change the channel.
pub mod Correct
use nsq.Base.{
  ℕ, zero, suc, ◌+◌, ◌%◌, ◌≤◌, ◌<◌, ◌≡◌, ◌≢◌, ◌⊎◌, ◌↔◌, inl, inr, refl, ap, ◌∙◌, arith, Option,
  none, some, Bool, true, false, if◌then◌else◌, Bool-cases, length, u64_mod,
}
use nsq.Base.Map.{find, erase}
use nsq.InFlightQueue.{Pqueue, peek_and_shift, ◌>>=◌}
use nsq.InFlightQueue.Swap.{Holds}
use nsq.InFlightQueue.Cut.{Removed}
use nsq.InFlightQueue.Peek.{Peeked, empty, early, due, peek_and_shift_correct}
use nsq.Channel.Backend.{Backend}
use nsq.Channel.Flight.{
  MessageState, if_some, is_deferred, assign, pris, decrement, Flight, do_requeue,
}
use nsq.Channel.Flight.Count.{weight}
use nsq.Channel.Flight.Agreed.{IsOther, assign-IsOther, IsAgreed-erase}
use nsq.Channel.Flight.Consistent.{IsConsistent, rest_same}
use nsq.Channel.Flight.Leave.{IsLeft, IsLeft-IsConsistent}
use nsq.Channel.Flight.Settle.{weightless, do_requeue_correct}

module _ (backend : Backend) where
  -- The fields of the channel and of the message at `p` when its time has passed.
  unfoldable pub timed_out : ℕ → Flight backend → Flight backend
  timed_out p f =
      let m = f.cells p in
      record f {
        in_flight_messages = erase m.id f.in_flight_messages;
        deferred_count = if is_deferred m then decrement f.deferred_count else f.deferred_count;
        timeout_count = if is_deferred m then f.timeout_count else (f.timeout_count + 1) % u64_mod;
        cells = assign f.cells p (record m { owner = none; deferred_cnt = 0 });
      }

  -- The rest of one turn, for the message that left the heap. The flag says whether to go on.
  unfoldable pub expire : Option ℕ → Flight backend → Bool × Flight backend
  expire none f = (false, f)
  expire (some p) f =
      let next : Bool × Flight backend = (true, (do_requeue backend p (timed_out p f)).1) in
      if_some (find (f.cells p).id f.in_flight_messages) (false, f) (λ q. next)

  unfoldable pub timeout_step : ℕ → Flight backend → Option (Bool × Flight backend)
  timeout_step now f =
      let turn : Option (Bool × Flight backend) = do
        r ← peek_and_shift (pris f.cells) now f.queue
        some (expire r.0 (record f { queue = r.2 }))
      in if f.consume_disabled then some (false, f) else turn

  unfoldable pub timeout_loop : ℕ → ℕ → Flight backend → Option (Flight backend)
  timeout_loop zero now f = none
  timeout_loop (suc fuel) now f = timeout_step now f >>= λ r.
      let rest = timeout_loop fuel now r.1 in if r.0 then rest else some r.1

  -- The function up to its label `exit`, which what follows does not change.
  unfoldable pub process_in_flight_queue : ℕ → Flight backend → Option (Flight backend)
  process_in_flight_queue now f =
      if f.exiting then some f else timeout_loop (length f.queue.items + 1) now f
