-- ===== src/Channel/Flight/Defer.antt =====
-- TouchMessage, and RequeueMessage with a timeout: the message stays in flight, with a new time.
use nsq.Base.{
  ℕ, ◌+◌, ◌*◌, ◌%◌, ◌^◌, ◌≤◌, ◌<◌, ◌≡◌, ◌≢◌, inl, inr, refl, ap, ◌∙◌, arith, Option, none, some,
  true, false, ◌==◌, leb, if◌then◌else◌, Bool-cases, Option-cases, min, u64_mod,
}
use nsq.Base.Map.{find}
use nsq.Channel.Backend.{Backend}
use nsq.Channel.Flight.{
  FlightError, not_in_flight, not_owner, is_deferred_already, deferred_too_much, client_id,
  is_deferred, assign, Flight, touch_message, too_much_deferred, requeue_later,
}
use nsq.Channel.Flight.Count.{weight}
use nsq.Channel.Flight.Consistent.{IsConsistent, Ends, Ends-unchanged, replace_correct}

module _ (backend : Backend) where
  -- The ways that TouchMessage can end.
  pub data Touched (client id now timeout : ℕ) (f : Flight backend)
      : Option FlightError → Flight backend → Type 0 where
    absent :
        find id f.in_flight_messages ≡ none → Touched client id now timeout f (some not_in_flight) f
    foreign :
        (p : ℕ)
        → find id f.in_flight_messages ≡ some p
        → client_id (f.cells p) ≢ client
        → Touched client id now timeout f (some not_owner) f
    moved :
        (p : ℕ) (f' : Flight backend)
        → find id f.in_flight_messages ≡ some p
        → client_id (f.cells p) ≡ client
        → f' ≡ record f {
          cells = assign f.cells p (record (f.cells p) {
            pri = min (now + timeout) ((f.cells p).delivery_ts + f.max_msg_timeout);
          });
          queue = f'.queue;
        }
        → Touched client id now timeout f none f'

  earlier : (a b : ℕ) → (if leb b a then b else a) ≡ min a b
  earlier a b = ground arith

  -- TouchMessage in a consistent state ends in one, without a panic. A message that is not in
  -- flight, or that another client has, is refused and nothing changes. Otherwise its time is the
  -- new one, but no later than the longest timeout after its delivery, and nothing else changes but
  -- the order of the heap.
  pub touch_message_correct :
      (client id now timeout : ℕ) (f : Flight backend)
      → IsConsistent backend f
      → Ends backend
          (touch_message backend client id now timeout f)
          (Touched client id now timeout f)
  unfolding touch_message
  touch_message_correct client id now timeout f v =
      elim (Option-cases (find id f.in_flight_messages)) [
        | inl none_found ↦
            rw none_found (Ends-unchanged backend (some not_in_flight) f v (absent none_found))
        | inr (p, e) ↦ elim (Bool-cases (client_id (f.cells p) == client)) [
          | inr other ↦
              rw (e, other)
                (Ends-unchanged backend (some not_owner) f v (foreign p e (ground arith)))
          | inl own ↦
              let m = f.cells p in
              let latest = m.delivery_ts + f.max_msg_timeout in
              let time = if leb latest (now + timeout) then latest else now + timeout in
              let (f', run, after, same, cells, frame) =
                replace_correct backend f v id p e (record m { pri = time })
                  (v.agreed.listed id p e).0 f.deferred_count (λ rest q. q) in
              rw (e, own)
                (record {
                  value = none;
                  after = f';
                  run = rw run refl;
                  consistent = after;
                  holds = moved p f' e (ground arith) (
                      frame
                      ∙ ap
                          (λ t. record f {
                            cells = assign f.cells p (record m { pri = t });
                            queue = f'.queue;
                          })
                          (earlier (now + timeout) latest));
                })
        ]
      ]

  -- As many messages wait for a confirmation as may, and more than half of that number is deferred; a
  -- deferredCount that is negative is none.
  abbrev pub IsTooMuch : ℕ → Flight backend → Type 0
  IsTooMuch waiting f =
      (f.max_confirm_win ≤ waiting) × (f.deferred_count < 2 ^ 63) × (waiting < f.deferred_count * 2)

  -- The ways that RequeueMessage with a timeout can end.
  pub data Deferred (client id until waiting : ℕ) (f : Flight backend)
      : Option FlightError → Flight backend → Type 0 where
    absent :
        find id f.in_flight_messages ≡ none
        → Deferred client id until waiting f (some not_in_flight) f
    again :
        (p : ℕ)
        → find id f.in_flight_messages ≡ some p
        → 0 < (f.cells p).deferred_cnt
        → Deferred client id until waiting f (some is_deferred_already) f
    foreign :
        (p : ℕ)
        → find id f.in_flight_messages ≡ some p
        → client_id (f.cells p) ≢ client
        → Deferred client id until waiting f (some not_owner) f
    too_much :
        (p : ℕ)
        → find id f.in_flight_messages ≡ some p
        → client_id (f.cells p) ≡ client
        → (f.cells p).deferred_cnt ≡ 0
        → IsTooMuch waiting f
        → Deferred client id until waiting f (some deferred_too_much) f
    deferred :
        (p : ℕ) (f' : Flight backend)
        → find id f.in_flight_messages ≡ some p
        → client_id (f.cells p) ≡ client
        → (f.cells p).deferred_cnt ≡ 0
        → ¬ IsTooMuch waiting f
        → f' ≡ record f {
          cells =
              assign f.cells p (record (f.cells p) { pri = until; deferred_cnt = 1; owner = none });
          queue = f'.queue;
          deferred_count = (f.deferred_count + 1) % u64_mod;
        }
        → Deferred client id until waiting f none f'

  full_bounds :
      (waiting : ℕ) (f : Flight backend)
      → too_much_deferred backend waiting f ≡ true
      → IsTooMuch waiting f
  unfolding too_much_deferred
  full_bounds waiting f h = (ground arith, ground arith, ground arith)

  room_bounds :
      (waiting : ℕ) (f : Flight backend)
      → too_much_deferred backend waiting f ≡ false
      → ¬ IsTooMuch waiting f
  unfolding too_much_deferred
  room_bounds waiting f h (a, b, c) = ground (arith, h, a, b, c)

  one_more :
      (c a b rest : ℕ)
      → a ≡ 0
      → b ≡ 1
      → c ≡ (a + rest) % u64_mod
      → (c + 1) % u64_mod ≡ (b + rest) % u64_mod
  one_more c a b rest p q e = omega arith

  -- RequeueMessage with a timeout, in a consistent state, ends in one, without a panic. It refuses
  -- a message that is not in flight, one that is deferred already, one of another client, and one
  -- more where too many are deferred; then nothing changes. Otherwise the message stays in flight
  -- until its new time, deferred once, without an owner, deferredCount counts it, and nothing else
  -- changes but the order of the heap.
  pub requeue_later_correct :
      (client id until waiting : ℕ) (f : Flight backend)
      → IsConsistent backend f
      → Ends backend
          (requeue_later backend client id until waiting f)
          (Deferred client id until waiting f)
  unfolding requeue_later
  requeue_later_correct client id until waiting f v =
      elim (Option-cases (find id f.in_flight_messages)) [
        | inl none_found ↦
            rw none_found (Ends-unchanged backend (some not_in_flight) f v (absent none_found))
        | inr (p, e) ↦ elim (Bool-cases (is_deferred (f.cells p))) [
          | inl was ↦
              rw (e, was)
                (Ends-unchanged backend (some is_deferred_already) f v (again p e (ground arith)))
          | inr fresh ↦ elim (Bool-cases (client_id (f.cells p) == client)) [
            | inr other ↦
                rw (e, fresh, other)
                  (Ends-unchanged backend (some not_owner) f v (foreign p e (ground arith)))
            | inl own ↦ elim (Bool-cases (too_much_deferred backend waiting f)) [
              | inl full ↦
                  rw (e, fresh, own, full)
                    (Ends-unchanged backend (some deferred_too_much) f v
                      (too_much p e (ground arith) (ground arith) (full_bounds waiting f full)))
              | inr room ↦
                  let m = f.cells p in
                  let zero_before : m.deferred_cnt ≡ 0 = ground arith in
                  let m' = record m {
                    pri = until;
                    deferred_cnt = m.deferred_cnt + 1;
                    owner = none;
                  } in
                  let light : weight m ≡ 0 = rw fresh refl in
                  let heavy : weight m' ≡ 1 = ground arith in
                  let (f', run, after, same, cells, frame) =
                    replace_correct backend f v id p e m' (v.agreed.listed id p e).0
                      ((f.deferred_count + 1) % u64_mod)
                      (λ rest q.
                        one_more f.deferred_count (weight m) (weight m') rest light heavy q) in
                  rw (e, fresh, own, room)
                    (record {
                      value = none;
                      after = f';
                      run = rw run refl;
                      consistent = after;
                      holds =
                          deferred p f' e (ground arith) zero_before (room_bounds waiting f room) (
                            frame
                            ∙ ap
                                (λ n. record f {
                                  cells = assign f.cells p (record m {
                                    pri = until;
                                    deferred_cnt = n + 1;
                                    owner = none;
                                  });
                                  queue = f'.queue;
                                  deferred_count = (f.deferred_count + 1) % u64_mod;
                                })
                                zero_before);
                    })
            ]
          ]
        ]
      ]
