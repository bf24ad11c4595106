-- ===== src/Channel/Flight/Finish.antt =====
-- FinishMessage: the message leaves the flight, and is confirmed.
use nsq.Base.{
  ℕ, ◌+◌, ◌%◌, ◌≡◌, ◌≢◌, inl, inr, refl, sym, ap, ◌∙◌, arith, none, some, Bool, true, false, ◌&&◌,
  ltb, if◌then◌else◌, Bool-cases, u64_mod,
}
use nsq.Base.Map.{find, erase}
use nsq.Channel.Backend.{Backend}
use nsq.Channel.Confirm.{confirm_backend_queue}
use nsq.Channel.Flight.{
  MessageState, not_in_flight, not_owner, if_some, client_id, is_deferred, decrement, Flight,
  Popped,
}
use nsq.Channel.Flight.Count.{weight}
use nsq.Channel.Flight.Agreed.{IsOther, assign-IsOther}
use nsq.Channel.Flight.Consistent.{IsConsistent, Ends, Ends-unchanged}
use nsq.Channel.Flight.Leave.{
  PopsTo, absent, foreign, early, left, pop_in_flight_message_correct, IsLeft-IsConsistent, Finish,
  finish_refused, finished, confirm_delayed_message, confirm_popped, settle, finish_popped,
  internal_finish_message,
}
use nsq.Channel.Flight.Settle.{weightless}

module _ (backend : Backend) where
  -- A step that touches nothing of the messages in flight.
  record IsApart (f f' : Flight backend) : Type 0 where
    cells : f'.cells ≡ f.cells
    map : f'.in_flight_messages ≡ f.in_flight_messages
    queue : f'.queue ≡ f.queue
    count : f'.deferred_count ≡ f.deferred_count

  confirm_popped-IsApart :
      (m : MessageState) (f : Flight backend) → IsApart f (confirm_popped backend m f).0
  unfolding confirm_popped confirm_delayed_message
  confirm_popped-IsApart m f = elim (Bool-cases m.position.by_channel_delay) [
    | inr plain ↦ rw plain (record { cells = refl; map = refl; queue = refl; count = refl })
    | inl delayed ↦
        elim (Bool-cases
          (ltb 0 m.delayed_orig_id && m.position.by_channel_delay && f.has_delayed_queue)) [
            | inl told ↦ record {
              cells = ground arith;
              map = ground arith;
              queue = ground arith;
              count = ground arith;
            }
            | inr quiet ↦ record {
              cells = ground arith;
              map = ground arith;
              queue = ground arith;
              count = ground arith;
            }
          ]
  ]

  one_less : (c rest : ℕ) → c ≡ (1 + rest) % u64_mod → decrement c ≡ rest % u64_mod
  one_less c rest e = omega arith

  record IsSettled (p : ℕ) (f f' : Flight backend) : Type 0 where
    other : IsOther p f.cells f'.cells
    map : f'.in_flight_messages ≡ f.in_flight_messages
    queue : f'.queue ≡ f.queue
    confirmation : f'.confirmation ≡ f.confirmation
    released : ((f'.cells p).owner ≡ none) × ((f'.cells p).deferred_cnt ≡ 0)
    count :
        (rest : ℕ)
        → f.deferred_count ≡ (weight (f.cells p) + rest) % u64_mod
        → f'.deferred_count ≡ rest % u64_mod

  settle_correct : (p : ℕ) (f : Flight backend) → IsSettled p f (settle backend p f)
  unfolding settle
  settle_correct p f = elim (Bool-cases (is_deferred (f.cells p))) [
    | inl was ↦ rw was (record {
      other = assign-IsOther f.cells p _;
      map = refl;
      queue = refl;
      confirmation = refl;
      released = ground arith;
      count = λ rest q. one_less f.deferred_count rest (rw was at q);
    })
    | inr fresh ↦ rw fresh (record {
      other = assign-IsOther f.cells p _;
      map = refl;
      queue = refl;
      confirmation = refl;
      released = ground arith;
      count = λ rest q. weightless backend (f.cells p) f.deferred_count rest (ground arith) q;
    })
  ]

  -- The ways that FinishMessage can end.
  pub data FinishesTo (client id : ℕ) (force : Bool) (f : Flight backend)
      : Finish → Flight backend → Type 0 where
    missing :
        find id f.in_flight_messages ≡ none
        → FinishesTo client id force f (finish_refused not_in_flight) f
    not_own :
        (p : ℕ)
        → find id f.in_flight_messages ≡ some p
        → force ≡ false
        → client_id (f.cells p) ≢ client
        → FinishesTo client id force f (finish_refused not_owner) f
    done :
        (p offset cnt : ℕ) (changed : Bool) (f' : Flight backend)
        → find id f.in_flight_messages ≡ some p
        → (force ≡ false → client_id (f.cells p) ≡ client)
        → f'.in_flight_messages ≡ erase id f.in_flight_messages
        → ((f'.cells p).owner ≡ none) × ((f'.cells p).deferred_cnt ≡ 0)
        → ((f.cells p).position.by_channel_delay ≡ false
            → (f'.confirmation, offset, cnt, changed)
              ≡ confirm_backend_queue backend f.confirmation (f.cells p).position)
        → FinishesTo client id force f (finished offset cnt changed p) f'

  confirm_popped_plain :
      (m : MessageState) (f : Flight backend)
      → m.position.by_channel_delay ≡ false
      → (let r = confirm_popped backend m f in
          (r.0.confirmation, r.1, r.2, r.3)
          ≡ confirm_backend_queue backend f.confirmation m.position)
  unfolding confirm_popped
  confirm_popped_plain m f plain = rw plain refl

  module _ (client id owner : ℕ) (force : Bool) (f : Flight backend) (v : IsConsistent backend f)
      (forced : (p : ℕ)
        → find id f.in_flight_messages ≡ some p
        → force ≡ true
        → owner ≡ client_id (f.cells p))
      (asked : force ≡ false → owner ≡ client) where
    finish_popped_correct :
        (r : Popped) (f1 : Flight backend)
        → PopsTo backend owner id true f r f1
        → Ends backend (some (finish_popped backend r f1)) (FinishesTo client id force f)
    unfolding finish_popped
    finish_popped_correct r f1 (absent e) =
        Ends-unchanged backend (finish_refused not_in_flight) f v (missing e)
    finish_popped_correct r f1 (foreign p e ne) =
        Ends-unchanged backend (finish_refused not_owner) f v (elim (Bool-cases force) [
          | inl yes_force ↦ absurd (ne (sym (forced p e yes_force)))
          | inr no_force ↦ not_own p e no_force (λ q. ne (q ∙ sym (asked no_force)))
        ])
    finish_popped_correct r f1 (early p e was no_force) = absurd (ground arith)
    finish_popped_correct r f1 (left p f' e own fresh l) =
        let m = f'.cells p in
        let (f2, offset, cnt, changed) = confirm_popped backend m f' in
        let a = confirm_popped-IsApart m f' in
        let s = settle_correct p f2 in
        let same : m ≡ f.cells p = ap (λ c. c p) l.cells in
        record {
          value = finished offset cnt changed p;
          after = settle backend p f2;
          run = refl;
          consistent =
              IsLeft-IsConsistent backend p id f f' (settle backend p f2) l
                (λ q ne. s.other q ne ∙ ap (λ c. c q) a.cells) (s.map ∙ a.map) (s.queue ∙ a.queue)
                (λ rest q. s.count rest (
                  a.count
                  ∙ q
                  ∙ ap (λ x. (weight x + rest) % u64_mod) (sym (ap (λ c. c p) a.cells))));
          holds =
              done p offset cnt changed (settle backend p f2) e (λ no_force. own ∙ asked no_force)
                (s.map ∙ a.map ∙ l.map) s.released
                (λ plain.
                  let q =
                    confirm_popped_plain m f'
                      (ap (λ (x : MessageState). x.position.by_channel_delay) same ∙ plain) in
                  ap (λ c. (c, offset, cnt, changed)) s.confirmation
                  ∙ q
                  ∙ (ap (λ c. confirm_backend_queue backend c m.position) l.confirmation
                      ∙ ap
                          (λ (x : MessageState).
                            confirm_backend_queue backend f.confirmation x.position)
                          same));
        }

  -- FinishMessage in a consistent state ends in one, without a panic. A message that is not in
  -- flight, or that another client has unless the finish is forced, is refused and nothing changes.
  -- Otherwise the message is in flight no more, has no owner, is not deferred, and if it came from
  -- the disk queue it is confirmed there, with what ConfirmBackendQueue returns.
  pub internal_finish_message_correct :
      (client id : ℕ) (force : Bool) (f : Flight backend)
      → IsConsistent backend f
      → Ends backend
          (internal_finish_message backend client id force f)
          (FinishesTo client id force f)
  unfolding internal_finish_message
  internal_finish_message_correct client id force f v =
      let owner =
        if force
        then if_some (find id f.in_flight_messages) client (λ p. client_id (f.cells p))
        else client in
      let forced : (p : ℕ)
          → find id f.in_flight_messages ≡ some p
          → force ≡ true
          → owner ≡ client_id (f.cells p) =
        λ p e q. rw (q, e) refl in
      let asked : force ≡ false → owner ≡ client = λ q. rw q refl in
      let (r, run, to) = pop_in_flight_message_correct backend owner id true f v in
      rw run (finish_popped_correct client id owner force f v forced asked r.0 r.1 to)
