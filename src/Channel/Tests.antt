-- ===== src/Channel/Tests.antt =====
-- ConfirmBackendQueue on a concrete disk queue and concrete messages.
use nsq.Base.{
  ℕ, ◌<◌, ◌≡◌, ◌≢◌, some, ◌⊎◌, inl, inr, refl, arith, Bool, true, false, [], ◌∷◌, ltb,
  if◌then◌else◌,
}
use nsq.Base.Map.{find, insert, erase}
use nsq.Intervals.{Interval, widen, remove_ends, absorb, add_or_merge, delete_interval, len}
use nsq.Intervals.Exact.{In, Covered}
use nsq.Channel.Backend.{Backend}
use nsq.Channel.Confirm.{
  Finished, extent, Channel, confirm_to, confirm_merged, confirm_backend_queue, confirm_all,
}
use nsq.Channel.Confirm.Safe.{IsSafe, confirm_backend_queue-IsSafe}
use nsq.Channel.Confirm.Exact.{IsExact, confirm_backend_queue-IsExact}

pub confirm_at : ℕ × ℕ → ℕ → ℕ → (ℕ × ℕ) × Bool
confirm_at r offset cnt = if ltb 100 offset then (r, true) else ((offset, cnt), false)

pub confirm_at-moves :
    (r : ℕ × ℕ) (offset cnt : ℕ)
    → (confirm_at r offset cnt).1 ≡ false
    → (confirm_at r offset cnt).0.0 ≡ offset
unfolding confirm_at
confirm_at-moves r offset cnt e = ground arith

pub confirm_at-stays :
    (r : ℕ × ℕ) (offset cnt : ℕ)
    → (confirm_at r offset cnt).1 ≡ true
    → (confirm_at r offset cnt).0.0 ≡ r.0
unfolding confirm_at
confirm_at-stays r offset cnt e = ground arith

-- A queue of 100 bytes, which refuses a confirmation beyond its end.
abbrev pub disk : Backend
disk = record {
  Reader = ℕ × ℕ;
  confirmed = λ r. r.0;
  confirmed_cnt = λ r. r.1;
  confirm_read = confirm_at;
  moves = λ r offset cnt h e. confirm_at-moves r offset cnt e;
  stays = confirm_at-stays;
}

-- The first ten bytes are confirmed.
abbrev pub chan : Channel disk
chan = record {
  reader = (10, 1);
  confirmed_msgs = record { elems = []; history_msg = [] };
  waiting_confirm = 0;
  need_notify_read = true;
  require_order = false;
  try_read_backend = false;
  max_confirm_win = 500;
}

abbrev msg : ℕ → ℕ → Finished
msg offset cnt = record {
  offset = offset;
  raw_move_size = 10;
  queue_cnt_index = cnt;
  by_channel_delay = false;
}

-- The third message is finished before the second: the offset moves once the second is, past both.
out_of_order :
    ((confirm_all disk chan (msg 20 3 ∷ [])).reader ≡ (10, 1))
    × ((confirm_all disk chan (msg 20 3 ∷ msg 10 2 ∷ [])).reader ≡ (30, 3))
unfolding confirm_at confirm_all confirm_backend_queue confirm_merged confirm_to add_or_merge absorb
    widen remove_ends find insert erase delete_interval len
out_of_order = (refl, refl)

empty-find : (k : ℕ) (v : Interval) → find k [] ≢ some v
unfolding find
empty-find k v e = cc

chan-IsSafe : IsSafe disk (λ x. x < 30) chan
chan-IsSafe = record { below = λ x h. omega arith; sound = λ k v e. absurd (empty-find k v e) }

confirm_backend_queue-IsSafe_example :
    IsSafe disk (λ x. x < 30) (confirm_backend_queue disk chan (msg 20 3)).0
confirm_backend_queue-IsSafe_example =
    confirm_backend_queue-IsSafe disk (λ x. x < 30) chan (msg 20 3) chan-IsSafe
      (λ x a b. omega arith)

chan-IsExact : IsExact disk (λ x. x < 10) chan
chan-IsExact = record {
  valid = record {
    entry = λ k v e. absurd (empty-find k v e);
    apart = λ k j v w e f. absurd (empty-find k v e);
  };
  gap = λ k v e. absurd (empty-find k v e);
  bytes = λ x. (inl, back x);
}
  where
    back : (x : ℕ) → (x < 10) ⊎ Covered [] x → x < 10
    back x (inl p) = p
    back x (inr q) = absurd (empty-find q.interval.start q.interval q.stored)

merged_fits :
    let m = (add_or_merge (extent (msg 10 2)) chan.confirmed_msgs).0 in
    (disk.confirm_read chan.reader m.end m.end_cnt).1 ≡ false
unfolding confirm_at add_or_merge absorb find
merged_fits = refl

confirm_backend_queue-IsExact_example :
    IsExact disk
      (λ x. (x < 10) ⊎ In x (extent (msg 10 2)))
      (confirm_backend_queue disk chan (msg 10 2)).0
    × ¬ (
        (disk.confirmed (confirm_backend_queue disk chan (msg 10 2)).0.reader < 10)
        ⊎ In
            (disk.confirmed (confirm_backend_queue disk chan (msg 10 2)).0.reader)
            (extent (msg 10 2)))
confirm_backend_queue-IsExact_example =
    confirm_backend_queue-IsExact disk (λ x. x < 10) chan (msg 10 2) chan-IsExact (omega arith) refl
      (λ x a b. omega arith) merged_fits
