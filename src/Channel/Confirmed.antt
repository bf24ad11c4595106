-- ===== src/Channel/Confirmed.antt =====
-- nsqd/channel.go: IsConfirmed and UpdateConfirmedInterval.
mod Tests
use nsq.Base.{
  ℕ, ◌≤◌, ◌<◌, ◌≡◌, ◌≢◌, refl, arith, Bool, true, false, ◌&&◌, not, List, [], ◌∷◌, ltb, ◌==◌,
  if◌then◌else◌, Bool-cases, inl, inr,
}
use nsq.Base.Map.{find}
use nsq.Intervals.{
  Interval, IntervalHash, new_interval_hash, add_or_merge, len, is_complete_overlap,
}
use nsq.Intervals.Sound.{Within, IsSound, add_or_merge-IsSound}
use nsq.Intervals.Overlap.{IsSoundHistory, add_or_merge-IsSoundHistory, is_complete_overlap-Inside}
use nsq.Channel.Backend.{Backend}
use nsq.Channel.Confirm.{Finished, extent, Channel}
use nsq.Channel.Flight.{MessageState, Flight}

unfoldable pub add_all : List Interval → IntervalHash → IntervalHash
add_all [] h = h
add_all (qi ∷ more) h = add_all more (add_or_merge qi h).1

module _ (backend : Backend) where
  -- A message of the delayed queue is never confirmed here.
  unfoldable pub is_confirmed : MessageState → Flight backend → Bool
  is_confirmed m f =
      if ltb 0 m.delayed_orig_id && m.position.by_channel_delay && f.has_delayed_queue
      then false
      else is_complete_overlap (extent m.position) f.confirmation.confirmed_msgs

  unfoldable pub update_confirmed_interval : List Interval → Channel backend → Channel backend
  update_confirmed_interval intervals c = record c {
    confirmed_msgs =
        add_all intervals
          (if len c.confirmed_msgs == 0 then c.confirmed_msgs else new_interval_hash);
  }

  module _ (C : ℕ → Type 0) where
    abbrev pub AreWithin : List Interval → Type 0
    AreWithin [] = Unit {0}
    AreWithin (qi ∷ more) = Within C qi × AreWithin more

    add_all-IsSound :
        (intervals : List Interval) (h : IntervalHash)
        → AreWithin intervals
        → IsSound C h
        → IsSoundHistory C h
        → IsSound C (add_all intervals h) × IsSoundHistory C (add_all intervals h)
    unfolding add_all
    add_all-IsSound [] h w s p = (s, p)
    add_all-IsSound (qi ∷ more) h w s p =
        add_all-IsSound more (add_or_merge qi h).1 w.1 (add_or_merge-IsSound C qi h w.0 s).0
          (add_or_merge-IsSoundHistory C qi h w.0 p)

    -- UpdateConfirmedInterval keeps the record sound: if every byte of an interval that is stored or
    -- in the history is finished, and the bytes of the given intervals are, then the same holds
    -- after the call.
    pub update_confirmed_interval-IsSound :
        (intervals : List Interval) (c : Channel backend)
        → AreWithin intervals
        → IsSound C c.confirmed_msgs
        → IsSoundHistory C c.confirmed_msgs
        → IsSound C (update_confirmed_interval intervals c).confirmed_msgs
          × IsSoundHistory C (update_confirmed_interval intervals c).confirmed_msgs
    unfolding update_confirmed_interval new_interval_hash find
    update_confirmed_interval-IsSound intervals c w s p =
        elim (Bool-cases (len c.confirmed_msgs == 0)) [
          | inl kept ↦ rw kept (add_all-IsSound intervals c.confirmed_msgs w s p)
          | inr fresh ↦ rw fresh (
              add_all-IsSound intervals new_interval_hash w (λ k v e. absurd (cc e))
                (λ k v e. absurd (cc e)))
        ]

    -- IsConfirmed says yes only of a message all of whose bytes are finished, if every byte of an
    -- interval that is stored or in the history is.
    pub is_confirmed-Inside :
        (m : MessageState) (f : Flight backend)
        → IsSound C f.confirmation.confirmed_msgs
        → IsSoundHistory C f.confirmation.confirmed_msgs
        → is_confirmed m f ≡ true
        → (x : ℕ) → (extent m.position).start ≤ x
        → x < (extent m.position).end
        → C x
    unfolding is_confirmed
    is_confirmed-Inside m f s p b =
        elim (Bool-cases
          (ltb 0 m.delayed_orig_id && m.position.by_channel_delay && f.has_delayed_queue)) [
            | inl delayed ↦ absurd (ground arith)
            | inr plain ↦
                is_complete_overlap-Inside C (extent m.position) f.confirmation.confirmed_msgs s p
                  (rw plain at b)
          ]
