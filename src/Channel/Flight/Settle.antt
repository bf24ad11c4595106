-- ===== src/Channel/Flight/Settle.antt =====
-- RequeueMessage without a timeout.
use nsq.Base.{
  ℕ, ◌+◌, ◌-◌, ◌%◌, ◌≡◌, ◌⊎◌, inl, inr, refl, sym, ap, ◌∙◌, arith, Option, none, some, [], ◌∷◌,
  ◌++◌, Bool, true, false, ◌&&◌, not, ltb, if◌then◌else◌, length, u64_mod,
}
use nsq.Base.Map.{find, erase, find-insert}
use nsq.Channel.Backend.{Backend}
use nsq.Channel.Flight.{
  MessageState, FlightError, not_in_flight, not_owner, is_deferred_already, is_exiting, client_id,
  assign, Flight, Popped, refused, do_requeue, requeue_popped, requeue_now,
}
use nsq.Channel.Flight.Count.{weight}
use nsq.Channel.Flight.Agreed.{assign-IsOther, assign_same}
use nsq.Channel.Flight.Consistent.{IsConsistent, Ends, Ends-unchanged}
use nsq.Channel.Flight.Leave.{
  IsLeft, PopsTo, absent, foreign, early, left, pop_in_flight_message_correct, IsLeft-IsConsistent,
}

module _ (backend : Backend) where
  -- The message waits to be sent again.
  abbrev pub IsWaiting : ℕ → ℕ → Flight backend → Flight backend → Type 0
  IsWaiting p id f f' =
      ((f'.requeued_chan ≡ f.requeued_chan ++ (p ∷ []))
        × (find id f'.waiting_requeue_chan ≡ some p))
      ⊎ (find id f'.waiting_requeue ≡ some p)

  -- doRequeue touches nothing of the messages in flight, and loses the message only at the exit.
  pub record Requeues (p : ℕ) (f : Flight backend) (e : Option FlightError) (f' : Flight backend)
      : Type 0 where
    pub cells : f'.cells ≡ f.cells
    pub map : f'.in_flight_messages ≡ f.in_flight_messages
    pub queue : f'.queue ≡ f.queue
    pub count : f'.deferred_count ≡ f.deferred_count
    pub disabled : f'.consume_disabled ≡ f.consume_disabled
    pub exit : f'.exiting ≡ f.exiting
    pub ends :
        ((f.exiting ≡ true) × (e ≡ some is_exiting))
        ⊎ ((f.exiting ≡ false) × (e ≡ none) × IsWaiting p (f.cells p).id f f')

  Requeues-if :
      (p : ℕ) (f : Flight backend) (b : Bool) {x y : Option FlightError × Flight backend}
      → (b ≡ true → Requeues p f x.0 x.1)
      → (b ≡ false → Requeues p f y.0 y.1)
      → Requeues p f (if b then x else y).0 (if b then x else y).1
  Requeues-if p f true one two = one refl
  Requeues-if p f false one two = two refl

  pub do_requeue_correct :
      (p : ℕ) (f : Flight backend)
      → Requeues p f (do_requeue backend p f).0 (do_requeue backend p f).1
  unfolding do_requeue
  do_requeue_correct p f =
      Requeues-if p f f.exiting
        (λ exits. record {
          cells = refl;
          map = refl;
          queue = refl;
          count = refl;
          disabled = refl;
          exit = refl;
          ends = inl (exits, refl);
        })
        (λ stays.
          Requeues-if p f (ltb (length f.requeued_chan) f.requeued_cap)
            (λ room. record {
              cells = refl;
              map = refl;
              queue = refl;
              count = refl;
              disabled = refl;
              exit = refl;
              ends = inr (
                stays,
                refl,
                inl (
                  refl,
                  ground
                      (arith, find-insert (f.cells p).id (f.cells p).id p f.waiting_requeue_chan),
                ),
              );
            })
            (λ full. record {
              cells = refl;
              map = refl;
              queue = refl;
              count = refl;
              disabled = refl;
              exit = refl;
              ends = inr (
                stays,
                refl,
                inr (ground (arith, find-insert (f.cells p).id (f.cells p).id p f.waiting_requeue)),
              );
            }))

  -- The ways that RequeueMessage without a timeout can end.
  pub data RequeuesTo (client id : ℕ) (f : Flight backend)
      : Option FlightError → Flight backend → Type 0 where
    kept :
        (e : FlightError)
        → PopsTo backend client id false f (refused e) f
        → RequeuesTo client id f (some e) f
    dropped :
        (p : ℕ) (f' : Flight backend)
        → find id f.in_flight_messages ≡ some p
        → client_id (f.cells p) ≡ client
        → (f.cells p).deferred_cnt ≡ 0
        → f.exiting ≡ true
        → f'.in_flight_messages ≡ erase id f.in_flight_messages
        → RequeuesTo client id f (some is_exiting) f'
    queued :
        (p : ℕ) (f' : Flight backend)
        → find id f.in_flight_messages ≡ some p
        → client_id (f.cells p) ≡ client
        → (f.cells p).deferred_cnt ≡ 0
        → f.exiting ≡ false
        → f'.in_flight_messages ≡ erase id f.in_flight_messages
        → IsWaiting p id f f'
        → RequeuesTo client id f none f'

  pub weightless :
      (m : MessageState) (c rest : ℕ)
      → m.deferred_cnt ≡ 0
      → c ≡ (weight m + rest) % u64_mod
      → c ≡ rest % u64_mod
  weightless m c rest e q =
      let light : weight m ≡ 0 = rw e refl in q ∙ ap (λ n. n % u64_mod) (omega (arith, light))

  -- What is waiting is so whether seen from before or after the message left.
  module _ (p id : ℕ) (f f1 f2 f3 : Flight backend) (l : IsLeft backend p id f f1)
      (chan : f2.requeued_chan ≡ f1.requeued_chan) (here : (f2.cells p).id ≡ id) where
    IsWaiting-left : IsWaiting p (f2.cells p).id f2 f3 → IsWaiting p id f f3
    IsWaiting-left (inl (one, two)) =
        inl (one ∙ ap (λ c. c ++ (p ∷ [])) (chan ∙ l.chan), rw here at two)
    IsWaiting-left (inr two) = inr (rw here at two)

  requeue_popped_correct :
      (client id : ℕ) (by_client : Bool) (f : Flight backend) (r : Popped) (f1 : Flight backend)
      → IsConsistent backend f
      → PopsTo backend client id false f r f1
      → Ends backend (requeue_popped backend r by_client f1) (RequeuesTo client id f)
  requeue_popped_correct client id by_client f r f1 v (absent e) =
      Ends-unchanged backend (some not_in_flight) f v (kept not_in_flight (absent e))
  requeue_popped_correct client id by_client f r f1 v (foreign p e ne) =
      Ends-unchanged backend (some not_owner) f v (kept not_owner (foreign p e ne))
  requeue_popped_correct client id by_client f r f1 v (early p e was no_force) =
      Ends-unchanged backend (some is_deferred_already) f v
        (kept is_deferred_already (early p e was no_force))
  requeue_popped_correct client id by_client f r f1 v (left p f' e own fresh l) =
      let m' = record (f'.cells p) {
        attempts =
            if ltb 0 (f'.cells p).attempts && not by_client
            then (f'.cells p).attempts - 1
            else (f'.cells p).attempts;
        owner = none;
      } in
      let f2 = record f' { cells = assign f'.cells p m' } in
      let d = do_requeue_correct p f2 in
      let f3 = (do_requeue backend p f2).1 in
      let was_fresh : (f'.cells p).deferred_cnt ≡ 0 =
        ap (λ c. (c p).deferred_cnt) l.cells ∙ fresh refl in
      let here : (f2.cells p).id ≡ id =
        ap (λ (x : MessageState). x.id) (assign_same f'.cells p m')
        ∙ ap (λ c. (c p).id) l.cells
        ∙ (v.agreed.listed id p e).0 in
      record {
        value = (do_requeue backend p f2).0;
        after = f3;
        run = refl;
        consistent =
            IsLeft-IsConsistent backend p id f f' f3 l
              (λ s ne. ap (λ c. c s) d.cells ∙ assign-IsOther f'.cells p m' s ne) d.map d.queue
              (λ rest q. d.count ∙ weightless (f'.cells p) f'.deferred_count rest was_fresh q);
        holds = elim d.ends [
          | inl (exits, it) ↦
              rw it (dropped p f3 e own (fresh refl) (sym l.exit ∙ exits) (d.map ∙ l.map))
          | inr (stays, it, waits) ↦ rw it (
              queued p f3 e own (fresh refl) (sym l.exit ∙ stays) (d.map ∙ l.map)
                (IsWaiting-left p id f f' f2 f3 l refl here waits))
        ];
      }

  -- RequeueMessage without a timeout, in a consistent state, ends in one, without a panic. A message
  -- that is not in flight, that is deferred, or that another client has, is refused and nothing
  -- changes. Otherwise the message is in flight no more, and waits to be sent again, in the channel
  -- requeuedMsgChan or in the map of those for which it had no room; only while the channel exits it
  -- is dropped, with an error.
  pub requeue_now_correct :
      (client id : ℕ) (by_client : Bool) (f : Flight backend)
      → IsConsistent backend f
      → Ends backend (requeue_now backend client id by_client f) (RequeuesTo client id f)
  unfolding requeue_now
  requeue_now_correct client id by_client f v =
      let (r, run, to) = pop_in_flight_message_correct backend client id false f v in
      rw run (requeue_popped_correct client id by_client f r.0 r.1 v to)
