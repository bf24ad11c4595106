-- ===== src/InFlightQueue/Peek.antt =====
-- PeekAndShift of inFlightPqueue, which processInFlightQueue calls until nothing is due.
use nsq.Base.{
  ℕ, ◌-◌, ◌≤◌, ◌<◌, ◌≡◌, inl, inr, refl, arith, Option, none, some, length, ltb, ◌==◌, Bool-cases,
  ltb→lt,
}
use nsq.InFlightQueue.{Pqueue, peek_and_shift}
use nsq.InFlightQueue.Array.{at, get_elem?-at}
use nsq.InFlightQueue.Swap.{Holds}
use nsq.InFlightQueue.Push.{IsValid}
use nsq.InFlightQueue.Cut.{Removed}
use nsq.InFlightQueue.Remove.{root_first, pop_correct}

module _ (pri : ℕ → ℕ) where
  -- The three ways that it can end.
  pub data Peeked (max : ℕ) (s : Pqueue) : Option ℕ × ℕ × Pqueue → Type 0 where
    empty : length s.items ≡ 0 → Peeked max s (none, 0, s)
    early :
        (x : ℕ)
        → Holds s x
        → max < pri x
        → ((p : ℕ) → Holds s p → pri x ≤ pri p)
        → Peeked max s (none, pri x - max, s)
    due :
        (x : ℕ) (t : Pqueue)
        → Holds s x
        → pri x ≤ max
        → Removed pri x s t
        → ((p : ℕ) → Holds s p → pri x ≤ pri p)
        → Peeked max s (some x, 0, t)

  -- PeekAndShift on a valid queue ends without a panic. An empty queue gives nothing, and no time
  -- to wait. If the earliest message is not due, the queue is unchanged and the result is the time
  -- until it is. Otherwise the earliest message is taken out, and the queue stays valid.
  pub peek_and_shift_correct :
      (max : ℕ) (s : Pqueue)
      → IsValid pri s
      → (r : Option ℕ × ℕ × Pqueue) × (peek_and_shift pri max s ≡ some r) × Peeked max s r
  unfolding peek_and_shift
  peek_and_shift_correct max s v = elim (Bool-cases (length s.items == 0)) [
    | inl none_left ↦ ((none, 0, s), rw none_left refl, empty (ground arith))
    | inr some_left ↦
        let h : 0 < length s.items = ground arith in
        let x = at s.items 0 in
        let first : (p : ℕ) → Holds s p → pri x ≤ pri p = λ p held. rw (← held.here) (
          root_first pri (length s.items) (length s.items) s held.place v.heap held.inside
            held.inside) in
        elim (Bool-cases (ltb max (pri x))) [
          | inl wait ↦ (
            (none, pri x - max, s),
            rw (some_left, get_elem?-at s.items 0 h, wait) refl,
            early x (record { place = 0; inside = h; here = refl }) (ltb→lt max (pri x) wait) first,
          )
          | inr ready ↦
              let (t, run, r, _) = pop_correct pri s v h in
              (
                (some x, 0, t),
                rw (some_left, get_elem?-at s.items 0 h, ready, run) refl,
                due x t (record { place = 0; inside = h; here = refl }) (ground arith) r first,
              )
        ]
  ]
