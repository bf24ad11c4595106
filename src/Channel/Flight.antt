-- ===== src/Channel/Flight.antt =====
-- nsqd/channel.go: the messages in flight. A message is a pointer; its fields are read through
-- `cells`, and `index` through the queue's model. TouchMessage, RequeueMessage and FinishMessage hold
-- inFlightMutex while they work. StartInFlightTimeout sets the message's fields before it takes the
-- mutex for pushInFlightMessage; both together are one operation here. `none` as a result is a panic.
pub mod Count
pub mod Agreed
pub mod Consistent
pub mod Defer
pub mod Push
pub mod Leave
pub mod Settle
pub mod Finish
pub mod Timeout
pub mod Reach
pub mod Scan
pub mod Tests
use nsq.Base.{
  ℕ, zero, suc, ◌+◌, ◌-◌, ◌*◌, ◌/◌, ◌%◌, ◌^◌, Bool, true, false, ◌&&◌, ◌||◌, not, Option, none,
  some, List, [], ◌∷◌, ◌++◌, length, ltb, leb, ◌==◌, if◌then◌else◌, u64_mod, u16_mod,
}
use nsq.Base.Map.{Map, find, insert, erase}
use nsq.InFlightQueue.{Pqueue, push, remove, peek_and_shift, ◌>>=◌}
use nsq.Channel.Backend.{Backend}
use nsq.Channel.Confirm.{Finished, Channel, confirm_backend_queue}

-- The fields of a message that serve a channel. `owner` is the id of belongedConsumer.
pub record MessageState : Type 0 where
  pub id : ℕ
  pub attempts : ℕ  -- uint16
  pub owner : Option ℕ
  pub delivery_ts : ℕ
  pub pri : ℕ
  pub deferred_cnt : ℕ
  pub delayed_orig_id : ℕ
  pub position : Finished

pub data FlightError : Type 0 where
  consume_is_disabled : FlightError
  already_in_flight : ℕ → FlightError
  not_in_flight : FlightError
  not_owner : FlightError
  is_deferred_already : FlightError
  deferred_too_much : FlightError
  is_exiting : FlightError

-- A lookup, with what follows where nothing is found and where something is.
abbrev pub if_some {ℓ κ} : {A : Type ℓ} {B : Type κ} → Option A → B → (A → B) → B
if_some none absent present = absent
if_some (some a) absent present = present a

-- What popInFlightMessage returns beside the state.
pub data Popped : Type 0 where
  refused : FlightError → Popped
  popped : ℕ → Popped

-- GetClientID
abbrev pub client_id : MessageState → ℕ
client_id m = if_some m.owner 0 (λ c. c)

-- IsDeferred
abbrev pub is_deferred : MessageState → Bool
is_deferred m = ltb 0 m.deferred_cnt

-- A field of the message at `p` was assigned.
abbrev pub assign : (ℕ → MessageState) → ℕ → MessageState → ℕ → MessageState
assign cells p m q = if p == q then m else cells q

abbrev pub pris : (ℕ → MessageState) → ℕ → ℕ
pris cells p = (cells p).pri

-- atomic.AddInt64(&x, -1), on the bit pattern of x
abbrev pub decrement : ℕ → ℕ
decrement x = (x + (u64_mod - 1)) % u64_mod

-- `if msg.index != -1 { c.inFlightPQ.Remove(msg.index) }`
unfoldable pub take_out : ℕ → (ℕ → MessageState) → Pqueue → Option Pqueue
take_out p cells q = if_some (q.index p) (some q) (λ i. remove (pris cells) i q >>= λ r. some r.1)

module _ (backend : Backend) where
  pub record Flight : Type 0 where
    pub cells : ℕ → MessageState
    pub in_flight_messages : Map ℕ
    pub queue : Pqueue  -- inFlightPQ
    pub deferred_count : ℕ  -- int64
    pub requeue_count : ℕ  -- uint64
    pub timeout_count : ℕ  -- uint64
    pub consume_disabled : Bool
    pub exiting : Bool  -- exitFlag; exitChan is closed after it is set
    pub requeued_chan : List ℕ  -- requeuedMsgChan
    pub requeued_cap : ℕ
    pub waiting_requeue_chan : Map ℕ  -- waitingRequeueChanMsgs
    pub waiting_requeue : Map ℕ  -- waitingRequeueMsgs
    pub max_msg_timeout : ℕ
    pub max_confirm_win : ℕ
    pub has_delayed_queue : Bool
    pub deferred_from_delay : ℕ  -- int64
    pub delayed_confirmed : Map MessageState  -- delayedConfirmedMsgs
    pub confirmation : Channel backend

  -- `msg` gets new fields, among them its time, and moves to its new place.
  unfoldable pub replace : ℕ → MessageState → Flight → Option Flight
  replace p m f = do
    let cells = assign f.cells p m
    q1 ← take_out p cells f.queue
    q2 ← push (pris cells) p q1
    some (record f { cells = cells; queue = q2 })

  unfoldable pub push_in_flight_message : ℕ → Flight → Option (Option FlightError × Flight)
  push_in_flight_message p f =
      let id = (f.cells p).id in
      let placed : Option (Option FlightError × Flight) = do
        q ← push (pris f.cells) p f.queue
        some (
          none,
          record f {
            in_flight_messages = insert id p f.in_flight_messages;
            queue = q;
            waiting_requeue_chan = erase id f.waiting_requeue_chan;
          },
        )
      in if f.consume_disabled
        then some (some consume_is_disabled, f)
        else if_some (find id f.in_flight_messages) placed
            (λ m. some (some (already_in_flight m), f))

  unfoldable pub start_in_flight_timeout :
      ℕ → ℕ → ℕ → ℕ → Flight → Option (Option FlightError × Flight)
  start_in_flight_timeout p client now timeout f =
      let m = record (f.cells p) {
        owner = some client;
        delivery_ts = now;
        pri = now + timeout;
        attempts = ((f.cells p).attempts + 1) % u16_mod;
      } in
      push_in_flight_message p (record f { cells = assign f.cells p m })

  -- What StartInFlightTimeout returns beside its error, read in the state after it: whether to send the
  -- message all the same. One that another message is in flight for, which is deferred or came
  -- from the channel's delayed queue, is not sent.
  unfoldable pub should_send : Option FlightError → Flight → Bool
  should_send none f = true
  should_send (some (already_in_flight old)) f =
      not (is_deferred (f.cells old) || (f.cells old).position.by_channel_delay)
  should_send (some consume_is_disabled) f = true
  should_send (some not_in_flight) f = true
  should_send (some not_owner) f = true
  should_send (some is_deferred_already) f = true
  should_send (some deferred_too_much) f = true
  should_send (some is_exiting) f = true

  unfoldable pub pop_in_flight_message : ℕ → ℕ → Bool → Flight → Option (Popped × Flight)
  pop_in_flight_message client id force f =
      if_some (find id f.in_flight_messages) (some (refused not_in_flight, f)) (λ p.
        let left : Option (Popped × Flight) = do
          q ← take_out p f.cells f.queue
          some
              (popped p, record f { in_flight_messages = erase id f.in_flight_messages; queue = q })
        in if not (client_id (f.cells p) == client)
          then some (refused not_owner, f)
          else if not force && is_deferred (f.cells p)
          then some (refused is_deferred_already, f)
          else left)

  unfoldable pub touch_message : ℕ → ℕ → ℕ → ℕ → Flight → Option (Option FlightError × Flight)
  touch_message client id now timeout f =
      if_some (find id f.in_flight_messages) (some (some not_in_flight, f)) (λ p.
        let m = f.cells p in
        let latest = m.delivery_ts + f.max_msg_timeout in
        let moved : Option (Option FlightError × Flight) = do
          f' ←
              replace p
                (record m { pri = if leb latest (now + timeout) then latest else now + timeout }) f
          some (none, f')
        in if not (client_id m == client) then some (some not_owner, f) else moved)

  -- The channel requeuedMsgChan takes the message if it has room.
  unfoldable pub do_requeue : ℕ → Flight → Option FlightError × Flight
  do_requeue p f =
      let id = (f.cells p).id in
      let counted = record f { requeue_count = (f.requeue_count + 1) % u64_mod } in
      if f.exiting
      then (some is_exiting, f)
      else if ltb (length f.requeued_chan) f.requeued_cap
      then (
        none,
        record counted {
          requeued_chan = f.requeued_chan ++ (p ∷ []);
          waiting_requeue_chan = insert id p f.waiting_requeue_chan;
        },
      )
      else (none, record counted { waiting_requeue = insert id p f.waiting_requeue })

  abbrev requeue_popped : Popped → Bool → Flight → Option (Option FlightError × Flight)
  requeue_popped (refused e) by_client f = some (some e, f)
  requeue_popped (popped p) by_client f =
      let m = f.cells p in
      let m' = record m {
        attempts = if ltb 0 m.attempts && not by_client then m.attempts - 1 else m.attempts;
        owner = none;
      } in
      some (do_requeue p (record f { cells = assign f.cells p m' }))

  -- `timeout == 0`: the message leaves the flight.
  unfoldable pub requeue_now : ℕ → ℕ → Bool → Flight → Option (Option FlightError × Flight)
  requeue_now client id by_client f = do
    r ← pop_in_flight_message client id false f
    requeue_popped r.0 by_client r.1

  -- isTooMuchDeferredInMem, with what GetChannelWaitingConfirmCnt returned
  unfoldable pub too_much_deferred : ℕ → Flight → Bool
  too_much_deferred waiting f =
      leb f.max_confirm_win waiting
      && ltb f.deferred_count (2 ^ 63)
      && ltb waiting (f.deferred_count * 2)

  -- Otherwise it stays in flight until its new time, and belongs to no client.
  unfoldable pub requeue_later : ℕ → ℕ → ℕ → ℕ → Flight → Option (Option FlightError × Flight)
  requeue_later client id until waiting f =
      if_some (find id f.in_flight_messages) (some (some not_in_flight, f)) (λ p.
        let m = f.cells p in
        let moved : Option (Option FlightError × Flight) = do
          f' ←
              replace p (record m { pri = until; deferred_cnt = m.deferred_cnt + 1; owner = none })
                (record f { deferred_count = (f.deferred_count + 1) % u64_mod })
          some (none, f')
        in if is_deferred m
          then some (some is_deferred_already, f)
          else if not (client_id m == client)
          then some (some not_owner, f)
          else if too_much_deferred waiting f
          then some (some deferred_too_much, f)
          else moved)

  unfoldable pub requeue_message :
      ℕ → ℕ → ℕ → ℕ → ℕ → Bool → Flight → Option (Option FlightError × Flight)
  requeue_message client id now timeout waiting by_client f =
      if timeout == 0
      then requeue_now client id by_client f
      else requeue_later client id (now + timeout) waiting f

  -- initPQ
  unfoldable pub init_pq : ℕ → Flight → Flight
  init_pq mem_queue_size f =
      let size = mem_queue_size / 10 in
      record f {
        in_flight_messages = [];
        queue = record f.queue { items = []; cap = if leb size 1 then 1 else size };
        deferred_count = 0;
      }
