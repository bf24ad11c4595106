-- ===== src/Channel/Flight/Leave.antt =====
-- popInFlightMessage, and what calls it: RequeueMessage without a timeout, and FinishMessage.
use nsq.Base.{
  ℕ, ◌+◌, ◌%◌, ◌<◌, ◌≡◌, ◌≢◌, inl, inr, refl, sym, ap, subst, ◌∙◌, arith, Option, none, some, Bool,
  true, false, ◌&&◌, ◌||◌, not, ◌==◌, ltb, leb, if◌then◌else◌, Bool-cases, Option-cases, ◌^◌,
  u64_mod,
}
use nsq.Base.Map.{find, insert, erase}
use nsq.InFlightQueue.{◌>>=◌}
use nsq.InFlightQueue.Swap.{Holds}
use nsq.Channel.Backend.{Backend}
use nsq.Channel.Confirm.{confirm_backend_queue}
use nsq.Channel.Flight.{
  MessageState, FlightError, not_in_flight, not_owner, is_deferred_already, if_some, client_id,
  is_deferred, assign, decrement, Flight, Popped, refused, popped, pop_in_flight_message,
}
use nsq.Channel.Flight.Count.{weight, deferred_in, deferred_in-same}
use nsq.Channel.Flight.Agreed.{
  IsAgreed, IsOther, IsAgreed-erase, take_out_correct, IsAgreed-outside,
}
use nsq.Channel.Flight.Consistent.{IsConsistent, rest_same}

-- What FinishMessage returns.
pub data Finish : Type 0 where
  finish_refused : FlightError → Finish
  finished : ℕ → ℕ → Bool → ℕ → Finish

module _ (backend : Backend) where
  -- ConfirmDelayedMessage: the disk queue's position is returned, and whether to scan again.
  unfoldable pub confirm_delayed_message :
      MessageState → Flight backend → Flight backend × ℕ × ℕ × Bool
  confirm_delayed_message m f =
      let reader = f.confirmation.reader in
      let left = decrement f.deferred_from_delay in
      let told = record f {
        deferred_from_delay = left;
        delayed_confirmed = insert m.id m f.delayed_confirmed;
      } in
      if ltb 0 m.delayed_orig_id && m.position.by_channel_delay && f.has_delayed_queue
      then (
        told,
        backend.confirmed reader,
        backend.confirmed_cnt reader,
        left == 0 || leb (2 ^ 63) left,
      )
      else (f, backend.confirmed reader, backend.confirmed_cnt reader, false)

  unfoldable pub confirm_popped : MessageState → Flight backend → Flight backend × ℕ × ℕ × Bool
  confirm_popped m f =
      let (c, offset, cnt, changed) = confirm_backend_queue backend f.confirmation m.position in
      if m.position.by_channel_delay
      then confirm_delayed_message m f
      else (record f { confirmation = c }, offset, cnt, changed)

  -- After the confirmation: the message has no owner, and is no longer deferred.
  unfoldable pub settle : ℕ → Flight backend → Flight backend
  settle p f =
      let m = f.cells p in
      if is_deferred m
      then record f {
        cells = assign f.cells p (record m { owner = none; deferred_cnt = 0 });
        deferred_count = decrement f.deferred_count;
      }
      else record f { cells = assign f.cells p (record m { owner = none }) }

  unfoldable pub finish_popped : Popped → Flight backend → Finish × Flight backend
  finish_popped (refused e) f = (finish_refused e, f)
  finish_popped (popped p) f =
      let (f', offset, cnt, changed) = confirm_popped (f.cells p) f in
      (finished offset cnt changed p, settle p f')

  -- With `force`, the message is finished for the client that has it.
  unfoldable pub internal_finish_message :
      ℕ → ℕ → Bool → Flight backend → Option (Finish × Flight backend)
  internal_finish_message client id force f = do
    let owner = if_some (find id f.in_flight_messages) client (λ p. client_id (f.cells p))
    r ← pop_in_flight_message backend (if force then owner else client) id true f
    some (finish_popped r.0 r.1)

  -- The message left the map and the heap; deferredCount still counts it if it is deferred.
  pub record IsLeft (p id : ℕ) (f f' : Flight backend) : Type 0 where
    pub cells : f'.cells ≡ f.cells
    pub map : f'.in_flight_messages ≡ erase id f.in_flight_messages
    pub chan : f'.requeued_chan ≡ f.requeued_chan
    pub exit : f'.exiting ≡ f.exiting
    pub confirmation : f'.confirmation ≡ f.confirmation
    pub gone : ¬ Holds f'.queue p
    pub agreed : IsAgreed f'.cells f'.in_flight_messages f'.queue
    pub owed :
        f'.deferred_count
        ≡ (weight (f'.cells p) + deferred_in f'.cells f'.in_flight_messages) % u64_mod

  -- The ways that popInFlightMessage can end.
  pub data PopsTo (client id : ℕ) (force : Bool) (f : Flight backend)
      : Popped → Flight backend → Type 0 where
    absent :
        find id f.in_flight_messages ≡ none → PopsTo client id force f (refused not_in_flight) f
    foreign :
        (p : ℕ)
        → find id f.in_flight_messages ≡ some p
        → client_id (f.cells p) ≢ client
        → PopsTo client id force f (refused not_owner) f
    early :
        (p : ℕ)
        → find id f.in_flight_messages ≡ some p
        → 0 < (f.cells p).deferred_cnt
        → force ≡ false
        → PopsTo client id force f (refused is_deferred_already) f
    left :
        (p : ℕ) (f' : Flight backend)
        → find id f.in_flight_messages ≡ some p
        → client_id (f.cells p) ≡ client
        → (force ≡ false → (f.cells p).deferred_cnt ≡ 0)
        → IsLeft p id f f'
        → PopsTo client id force f (popped p) f'

  pub pop_in_flight_message_correct :
      (client id : ℕ) (force : Bool) (f : Flight backend)
      → IsConsistent backend f
      → (r : Popped × Flight backend) × (pop_in_flight_message backend client id force f ≡ some r)
        × PopsTo client id force f r.0 r.1
  unfolding pop_in_flight_message
  pop_in_flight_message_correct client id force f v =
      elim (Option-cases (find id f.in_flight_messages)) [
        | inl none_found ↦ ((refused not_in_flight, f), rw none_found refl, absent none_found)
        | inr (p, e) ↦ elim (Bool-cases (client_id (f.cells p) == client)) [
          | inr other ↦ ((refused not_owner, f), rw (e, other) refl, foreign p e (ground arith))
          | inl own ↦ elim (Bool-cases (not force && is_deferred (f.cells p))) [
            | inl was ↦ (
              (refused is_deferred_already, f),
              rw (e, own, was) refl,
              early p e (ground arith) (ground arith),
            )
            | inr free ↦
                let m = f.in_flight_messages in
                let other : IsOther p f.cells f.cells = λ r ne. refl in
                let (q, run, r) =
                  take_out_correct f.cells f.cells m f.queue v.agreed p other id e in
                let f' = record f { in_flight_messages = erase id m; queue = q } in
                (
                  (popped p, f'),
                  rw (e, own, free) (rw run refl),
                  left p f' e (ground arith) (λ h. ground arith)
                      (record {
                        cells = refl;
                        map = refl;
                        chan = refl;
                        exit = refl;
                        confirmation = refl;
                        gone = λ h. ((r.holds p).0 h).1 refl;
                        agreed = IsAgreed-erase f.cells f.cells m f.queue v.agreed p other id e q r;
                        owed =
                            v.counted
                            ∙ ap (λ n. n % u64_mod) (rest_same backend f v id p f.cells e other);
                      }),
                )
          ]
        ]
      ]

  -- A message that left gets new fields, and the count is put right.
  pub IsLeft-IsConsistent :
      (p id : ℕ) (f f' f'' : Flight backend)
      → IsLeft p id f f'
      → IsOther p f'.cells f''.cells
      → f''.in_flight_messages ≡ f'.in_flight_messages
      → f''.queue ≡ f'.queue
      → ((rest : ℕ)
          → f'.deferred_count ≡ (weight (f'.cells p) + rest) % u64_mod
          → f''.deferred_count ≡ rest % u64_mod)
      → IsConsistent backend f''
  IsLeft-IsConsistent p id f f' f'' l other same_map same_queue counted =
      let m = f'.in_flight_messages in
      let same = deferred_in-same f'.cells f''.cells m l.agreed.keyed (λ k s e.
        let ne : s ≢ p = λ q. l.gone (subst (Holds f'.queue) q (l.agreed.listed k s e).1) in
        ap weight (sym (other s ne))) in
      record {
        agreed =
            rw (same_map, same_queue)
              (IsAgreed-outside f'.cells f''.cells m f'.queue l.agreed p other l.gone);
        counted =
            rw same_map (counted (deferred_in f'.cells m) l.owed ∙ ap (λ n. n % u64_mod) same);
      }
