-- ===== src/Channel/Confirm/Safe.antt =====
-- The confirmed offset passes finished messages only.
use nsq.Base.{
  ℕ, ◌+◌, ◌≤◌, ◌<◌, ◌≡◌, ◌⊎◌, inl, inr, arith, Bool, List, [], ◌∷◌, ltb, leb, Bool-cases,
}
use nsq.Intervals.{Interval, IntervalHash, add_or_merge, len}
use nsq.Intervals.Sound.{Within, IsSound, add_or_merge-IsSound}
use nsq.Intervals.Lower.{delete_lower-IsSound, delete_interval-IsSound}
use nsq.Channel.Backend.{Backend}
use nsq.Channel.Confirm.{
  Finished, extent, Channel, confirm_to, confirm_merged, confirm_backend_queue, confirm_all,
}

module _ (backend : Backend) (C : ℕ → Type 0) where
  -- Every byte below the confirmed offset, and every byte of a stored interval, satisfies `C`.
  pub record IsSafe (c : Channel backend) : Type 0 where
    pub below : (x : ℕ) → x < backend.confirmed c.reader → C x
    pub sound : IsSound C c.confirmed_msgs

  confirm_to-IsSafe :
      (c : Channel backend) (merged : Interval) (r : backend.Reader × Bool)
      → IsSound C c.confirmed_msgs
      → ((x : ℕ) → x < backend.confirmed r.0 → C x)
      → IsSafe (confirm_to backend c merged r).0
  unfolding confirm_to
  confirm_to-IsSafe c merged (reader, failed) s b =
      let left = delete_interval-IsSound C merged c.confirmed_msgs s in
      record { below = ground (arith, b); sound = ground (arith, s, left) }

  -- The confirmed offset after `ConfirmRead` is the one asked for, or the old one.
  moved :
      (r : backend.Reader) (offset cnt : ℕ)
      → backend.confirmed r < offset
      → (backend.confirmed (backend.confirm_read r offset cnt).0 ≡ offset)
        ⊎ (backend.confirmed (backend.confirm_read r offset cnt).0 ≡ backend.confirmed r)
  moved r offset cnt h = elim (Bool-cases (backend.confirm_read r offset cnt).1) [
    | inl failed ↦ inr (backend.stays r offset cnt failed)
    | inr fine ↦ inl (backend.moves r offset cnt h fine)
  ]

  confirm_merged-IsSafe :
      (c : Channel backend) (m : Interval × IntervalHash)
      → IsSafe c
      → IsSound C m.1
      → Within C m.0
      → IsSafe (confirm_merged backend c m).0
  unfolding confirm_merged
  confirm_merged-IsSafe c (merged, msgs) v s w =
      let old = backend.confirmed c.reader in
      elim (Bool-cases (leb merged.end old)) [
        | inl passed ↦
            rw passed (record { below = v.below; sound = delete_lower-IsSound C old msgs s })
        | inr beyond ↦ elim (Bool-cases (leb merged.start old)) [
          | inl reached ↦
              rw (beyond, reached)
                (confirm_to-IsSafe (record c { confirmed_msgs = msgs; waiting_confirm = len msgs })
                  merged (backend.confirm_read c.reader merged.end merged.end_cnt) s
                  (λ x h.
                    ground
                      (arith, moved c.reader merged.end merged.end_cnt, v.below x, w.inside x)))
          | inr gap ↦ rw (beyond, gap) (record { below = v.below; sound = s })
        ]
      ]

  -- ConfirmBackendQueue keeps the confirmed offset within finished bytes: if every byte below the
  -- confirmed offset and every byte of a stored interval is finished, and the message's bytes are,
  -- then the same holds after the call, whether the disk queue accepts the confirmation or not.
  pub confirm_backend_queue-IsSafe :
      (c : Channel backend) (msg : Finished)
      → IsSafe c
      → ((x : ℕ) → msg.offset ≤ x → x < msg.offset + msg.raw_move_size → C x)
      → IsSafe (confirm_backend_queue backend c msg).0
  unfolding confirm_backend_queue
  confirm_backend_queue-IsSafe c msg v finished = elim (Bool-cases msg.by_channel_delay) [
    | inl delayed ↦ rw delayed v
    | inr plain ↦ elim (Bool-cases (ltb msg.offset (backend.confirmed c.reader))) [
      | inl old ↦ rw (plain, old) v
      | inr new ↦
          let bytes : Within C (extent msg) = record { ordered = omega arith; inside = finished } in
          let (sound, within, _, _) =
            add_or_merge-IsSound C (extent msg) c.confirmed_msgs bytes v.sound in
          rw (plain, new)
            (confirm_merged-IsSafe c (add_or_merge (extent msg) c.confirmed_msgs) v sound within)
    ]
  ]

  abbrev pub AllFinished : List Finished → Type 0
  AllFinished [] = Unit {0}
  AllFinished (msg ∷ msgs) =
      ((x : ℕ) → msg.offset ≤ x → x < msg.offset + msg.raw_move_size → C x) × AllFinished msgs

  -- Over any sequence of finished messages, in any order and with repetitions, and whatever the disk
  -- queue refuses: if every byte below the confirmed offset and every byte of a stored interval is
  -- finished, and the bytes of each message are, then the same holds after the sequence.
  pub confirm_all-IsSafe :
      (c : Channel backend) (msgs : List Finished)
      → IsSafe c
      → AllFinished msgs
      → IsSafe (confirm_all backend c msgs)
  unfolding confirm_all
  confirm_all-IsSafe c [] v all = v
  confirm_all-IsSafe c (msg ∷ msgs) v all =
      confirm_all-IsSafe (confirm_backend_queue backend c msg).0 msgs
        (confirm_backend_queue-IsSafe c msg v all.0) all.1
