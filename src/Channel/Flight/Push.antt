-- ===== src/Channel/Flight/Push.antt =====
-- StartInFlightTimeout: a message is sent to a client, and is in flight from then on.
use nsq.Base.{
  ℕ, ◌+◌, ◌%◌, ◌≡◌, ◌≢◌, inl, inr, refl, sym, ap, subst, ◌∙◌, arith, Option, none, some, true,
  false, Option-cases, u64_mod, u16_mod,
}
use nsq.Base.Map.{find, insert, erase}
use nsq.InFlightQueue.Swap.{Holds}
use nsq.InFlightQueue.Push.{push_correct}
use nsq.Channel.Backend.{Backend}
use nsq.Channel.Flight.{
  MessageState, FlightError, consume_is_disabled, already_in_flight, assign, pris, Flight,
  push_in_flight_message, start_in_flight_timeout,
}
use nsq.Channel.Flight.Count.{weight, deferred_in, deferred_in-same, deferred_in-insert}
use nsq.Channel.Flight.Agreed.{assign-IsOther, assign_same, IsAgreed-outside, IsAgreed-insert}
use nsq.Channel.Flight.Consistent.{IsConsistent, Ends, Ends-unchanged, Ends-if}

module _ (backend : Backend) where
  -- The ways that pushInFlightMessage can end.
  pub data Started (p : ℕ) (f : Flight backend) : Option FlightError → Flight backend → Type 0 where
    disabled : f.consume_disabled ≡ true → Started p f (some consume_is_disabled) f
    already :
        (q : ℕ)
        → f.consume_disabled ≡ false
        → find (f.cells p).id f.in_flight_messages ≡ some q
        → Started p f (some (already_in_flight q)) f
    started :
        (f' : Flight backend)
        → f.consume_disabled ≡ false
        → find (f.cells p).id f.in_flight_messages ≡ none
        → f' ≡ record f {
          in_flight_messages = insert (f.cells p).id p f.in_flight_messages;
          queue = f'.queue;
          waiting_requeue_chan = erase (f.cells p).id f.waiting_requeue_chan;
        }
        → Started p f none f'

  push_in_flight_message_correct :
      (p : ℕ) (f : Flight backend)
      → IsConsistent backend f
      → ¬ Holds f.queue p
      → (f.cells p).deferred_cnt ≡ 0
      → Ends backend (push_in_flight_message backend p f) (Started p f)
  unfolding push_in_flight_message
  push_in_flight_message_correct p f v new fresh =
      Ends-if backend f.consume_disabled
        (λ off. Ends-unchanged backend (some consume_is_disabled) f v (disabled off))
        (λ on. elim (Option-cases (find (f.cells p).id f.in_flight_messages)) [
          | inr (q, e) ↦
              rw e (Ends-unchanged backend (some (already_in_flight q)) f v (already q on e))
          | inl free ↦
              let (q, run, r) = push_correct (pris f.cells) p f.queue v.agreed.valid new in
              let light : weight (f.cells p) ≡ 0 = ground arith in
              let same : deferred_in f.cells f.in_flight_messages
                  ≡ deferred_in f.cells (insert (f.cells p).id p f.in_flight_messages) =
                omega (
                  arith,
                  light,
                  deferred_in-insert f.cells (f.cells p).id p f.in_flight_messages free,
                ) in
              let f' = record f {
                in_flight_messages = insert (f.cells p).id p f.in_flight_messages;
                queue = q;
                waiting_requeue_chan = erase (f.cells p).id f.waiting_requeue_chan;
              } in
              rw free (record {
                value = none;
                after = f';
                run = rw run refl;
                consistent = record {
                  agreed = IsAgreed-insert f.cells f.in_flight_messages f.queue q p v.agreed free r;
                  counted = v.counted ∙ ap (λ n. n % u64_mod) same;
                };
                holds = started f' on free refl;
              })
        ])

  -- The fields that StartInFlightTimeout sets, before it pushes.
  abbrev pub sent : ℕ → ℕ → ℕ → ℕ → Flight backend → Flight backend
  sent p client now timeout f = record f {
    cells = assign f.cells p (record (f.cells p) {
      owner = some client;
      delivery_ts = now;
      pri = now + timeout;
      attempts = ((f.cells p).attempts + 1) % u16_mod;
    });
  }

  -- The fields of a message that is not in the heap may change.
  pub assign-IsConsistent :
      (p : ℕ) (msg : MessageState) (f : Flight backend)
      → IsConsistent backend f
      → ¬ Holds f.queue p
      → IsConsistent backend (record f { cells = assign f.cells p msg })
  assign-IsConsistent p msg f v new =
      let m = f.in_flight_messages in
      let cells = assign f.cells p msg in
      record {
        agreed =
            IsAgreed-outside f.cells cells m f.queue v.agreed p (assign-IsOther f.cells p msg) new;
        counted =
            v.counted
            ∙ ap (λ n. n % u64_mod)
                (deferred_in-same f.cells cells m v.agreed.keyed (λ k s e.
                  let ne : s ≢ p = λ q. new (subst (Holds f.queue) q (v.agreed.listed k s e).1) in
                  ap weight (sym (assign-IsOther f.cells p msg s ne))));
      }

  -- StartInFlightTimeout in a consistent state, on a message that is not in the heap and is not
  -- deferred, ends in a consistent state, without a panic. Where consuming is disabled, or another
  -- message with this id is in flight, it is refused. Otherwise the message is in flight under its
  -- id, no more in the map of those that wait in requeuedMsgChan, and the heap has it. In each case its
  -- owner, its times and its attempts are set, and nothing else changes.
  pub start_in_flight_timeout_correct :
      (p client now timeout : ℕ) (f : Flight backend)
      → IsConsistent backend f
      → ¬ Holds f.queue p
      → (f.cells p).deferred_cnt ≡ 0
      → Ends backend
          (start_in_flight_timeout backend p client now timeout f)
          (Started p (sent p client now timeout f))
  unfolding start_in_flight_timeout
  start_in_flight_timeout_correct p client now timeout f v new fresh =
      push_in_flight_message_correct p (sent p client now timeout f)
        (assign-IsConsistent p _ f v new) new
        (ap (λ (x : MessageState). x.deferred_cnt) (assign_same f.cells p _) ∙ fresh)
