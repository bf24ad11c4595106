-- ===== src/Channel/Confirmed/Tests.antt =====
-- IsConfirmed and UpdateConfirmedInterval on a record of two intervals.
use nsq.Base.{ℕ, ◌<◌, ◌≡◌, ◌⊎◌, inl, inr, refl, arith, true, some, none, List, [], ◌∷◌}
use nsq.Base.Map.{find}
use nsq.Intervals.{Interval, is_complete_overlap}
use nsq.Intervals.Sound.{IsSound}
use nsq.Intervals.Overlap.{IsSoundHistory}
use nsq.Channel.Confirm.{Channel}
use nsq.Channel.Flight.{Flight}
use nsq.Channel.Flight.Tests.{flight, message}
use nsq.Channel.Tests.{disk, chan}
use nsq.Channel.Confirmed.{is_confirmed, is_confirmed-Inside}

abbrev given : List Interval
given =
    record { start = 10; end = 20; end_cnt = 2 } ∷ record { start = 40; end = 60; end_cnt = 6 } ∷ []

abbrev record_of_two : Channel disk
record_of_two = record chan {
  confirmed_msgs = record {
    elems =
        (20, record { start = 10; end = 20; end_cnt = 2 })
        ∷ (10, record { start = 10; end = 20; end_cnt = 2 })
        ∷ [];
    history_msg = (10, 20) ∷ [];
  };
}

sound : IsSound (λ x. x < 60) record_of_two.confirmed_msgs
unfolding find
sound k v e = elim (two k v e) [
  | inl (p, q) ↦
      rw (p, q)
        (omega arith, omega arith, record { ordered = omega arith; inside = λ x a b. omega arith })
  | inr (p, q) ↦
      rw (p, q)
        (omega arith, omega arith, record { ordered = omega arith; inside = λ x a b. omega arith })
]
  where
    two :
        (k : ℕ) (v : Interval)
        → find k record_of_two.confirmed_msgs.elems ≡ some v
        → ((k ≡ 20) × (v ≡ record { start = 10; end = 20; end_cnt = 2 }))
          ⊎ ((k ≡ 10) × (v ≡ record { start = 10; end = 20; end_cnt = 2 }))
    two k v e = ground arith

sound_history : IsSoundHistory (λ x. x < 60) record_of_two.confirmed_msgs
unfolding find
sound_history s e f x lo hi = let it : e ≡ 20 = ground arith in omega arith

abbrev confirmed_flight : Flight disk
confirmed_flight = record flight { confirmation = record_of_two }

second_is_confirmed : is_confirmed disk (message 42 none 150 1) confirmed_flight ≡ true
unfolding is_confirmed is_complete_overlap find
second_is_confirmed = refl

is_confirmed-Inside_example : 15 < 60
is_confirmed-Inside_example =
    is_confirmed-Inside disk (λ x. x < 60) (message 42 none 150 1) confirmed_flight sound
      sound_history second_is_confirmed 15 (omega arith) (omega arith)
