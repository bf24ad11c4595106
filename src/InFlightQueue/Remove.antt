-- ===== src/InFlightQueue/Remove.antt =====
-- Remove and Pop of inFlightPqueue. A caller may have set a new time on the message that it removes:
-- the queue is in order for the old times, `pri`, and the operation runs on the new ones, `now`.
use nsq.Base.{
  ℕ, suc, ◌-◌, ◌/◌, ◌≤◌, ◌<◌, ◌≡◌, ◌≢◌, refl, ◌↔◌, zero, sym, ap, subst, ==_true, ==_false, ◌∙◌,
  arith, false, ◌&&◌, some, length, ltb, ◌==◌, if◌then◌else◌, dec_lt,
}
use nsq.InFlightQueue.{Pqueue, parent, down, pop, remove}
use nsq.InFlightQueue.Array.{at}
use nsq.InFlightQueue.Swap.{
  Holds, Reordered, Reordered-trans, swapped, swap_in_range, at-swapped, swapped-Reordered,
  distinct,
}
use nsq.InFlightQueue.Up.{key, IsHeap, UpInv, up_restores}
use nsq.InFlightQueue.Down.{DownInv, down_restores}
use nsq.InFlightQueue.Push.{IsValid}
use nsq.InFlightQueue.Cut.{Removed, Removed-Reordered, cut, drop_last_lem}

module _ (pri now : ℕ → ℕ) where
  -- The first two steps of Remove and Pop: the message at `i` goes to the end, and the one that
  -- came in its place sinks.
  module _ (s : Pqueue) (v : IsValid pri s) (i k : ℕ) (size : length s.items ≡ suc k)
      (hi : i < length s.items) (agree : (p : ℕ) → p ≢ at s.items i → now p ≡ pri p) where
    abbrev moved : Pqueue
    moved = swapped i k s

    moved_step : Reordered s moved
    moved_step = swapped-Reordered s i k hi (omega arith) v.indexed

    -- A message before the end is not the one that moved there.
    before_end :
        (j : ℕ)
        → j < k
        → key now moved j ≡ (if i == j then pri (at s.items k) else pri (at s.items j))
    before_end j h =
        let apart = distinct s i k hi (omega arith) v.indexed in
        let other : (l : ℕ) → l < length s.items → l ≢ i → now (at s.items l) ≡ pri (at s.items l) =
          λ l q ne. agree (at s.items l) (λ e. ne (apart l i q hi e)) in
        ground (arith, at-swapped s i k hi (omega arith) j, other j, other k)

    moved-DownInv : DownInv now k i moved i
    moved-DownInv = record {
      start = omega arith;
      edges = λ c p q r t.
          ground
            (arith, before_end c, before_end (parent c) (omega arith), v.heap c p (omega arith));
      bridged = λ c p q r t. ground (
        arith,
        before_end c,
        before_end (parent i) (omega arith),
        v.heap c p (omega arith),
        v.heap i,
      );
    }

    pub sink :
        (t : Pqueue) × (down now i k moved ≡ some t)
        × UpInv now k t i
        × Reordered s t
        × (at t.items k ≡ at s.items i)
    sink =
        let (t, run, r) =
          down_restores now k moved i (omega (arith, moved_step.size)) moved_step.indexed
            moved-DownInv in
        (
          t,
          run,
          r.inv,
          Reordered-trans moved_step r.reordered,
          r.beyond k (omega arith) ∙ ground (arith, at-swapped s i k hi (omega arith) k),
        )

    -- Without the last message, if that is the one removed, the order was not touched.
    pub end-IsHeap : i ≡ k → IsHeap now k s
    end-IsHeap same c p q =
        let apart = distinct s i k hi (omega arith) v.indexed in
        let other : (l : ℕ) → l < k → now (at s.items l) ≡ pri (at s.items l) =
          λ l h. agree (at s.items l) (λ e. omega (arith, apart l i (omega arith) hi e)) in
        ground (arith, other c q, other (parent c) (omega arith), v.heap c p (omega arith))

  -- Remove on a valid queue, at a place in it, ends without a panic: it returns the message there,
  -- and the queue that is left is valid, holds the other messages, and the returned one knows of
  -- no place. This holds too when the time of that message, and of no other, was changed before.
  pub remove_correct :
      (s : Pqueue) (i : ℕ)
      → IsValid pri s
      → i < length s.items
      → ((p : ℕ) → p ≢ at s.items i → now p ≡ pri p)
      → (t : Pqueue) × (remove now i s ≡ some (at s.items i, t)) × Removed now (at s.items i) s t
  unfolding remove
  remove_correct s i v hi agree =
      let k = length s.items - 1 in
      let size : length s.items ≡ suc k = omega arith in
      let some_left : (length s.items == 0) ≡ false = ground arith in
      elim (dec_lt i k) [
        | no end ↦
            let same : i ≡ k = omega arith in
            let (run, r) =
              drop_last_lem now s k size v.indexed (length s.items) size
                (end-IsHeap s v i k size hi agree same) (omega (arith, v.fits)) v.room in
            let e : at s.items i ≡ at s.items k = ap (at s.items) same in
            (
              cut now s k size v.indexed,
              rw (some_left, ==_true (length s.items - 1) i (sym same), e) run,
              subst (λ y. Removed now y s (cut now s k size v.indexed)) (sym e) r,
            )
        | yes inner ↦
            let (t, run, inv, step, there) = sink s v i k size hi agree in
            let (u, run', r) =
              up_restores now k t i (omega (arith, step.size)) inner step.indexed inv in
            let at_k : at u.items k ≡ at s.items i = r.beyond k inner ∙ there in
            let (run'', q) =
              drop_last_lem now u k (r.reordered.size ∙ step.size ∙ size) r.reordered.indexed
                (length s.items) size r.heap (omega (arith, r.reordered.room, step.room, v.fits))
                (omega (arith, r.reordered.room, step.room, v.room)) in
            let left = cut now u k (r.reordered.size ∙ step.size ∙ size) r.reordered.indexed in
            (
              left,
              rw
                  (
                    some_left,
                    ==_false (length s.items - 1) i (omega arith),
                    swap_in_range s i k hi (omega arith),
                    run,
                    run',
                    run'',
                  )
                  (ap (λ y. some (y, left)) at_k),
              subst (λ y. Removed now y s left) at_k
                  (Removed-Reordered now (r.reordered.size ∙ step.size)
                    (Reordered-trans step r.reordered).holds q),
            )
      ]

module _ (pri : ℕ → ℕ) where
  -- The root of a heap is due first.
  pub root_first :
      (fuel n : ℕ) (s : Pqueue) (i : ℕ)
      → IsHeap pri n s
      → i < fuel
      → i < n
      → key pri s 0 ≤ key pri s i
  root_first zero n s i heap f h = elim f [ ]
  root_first (suc fuel) n s i heap f h = ground (arith, heap i, root_first fuel n s (parent i) heap)

  -- Pop on a valid queue with a message ends without a panic: it returns a message that is due
  -- no later than any other, and the queue that is left is valid and holds the others.
  pub pop_correct :
      (s : Pqueue)
      → IsValid pri s
      → 0 < length s.items
      → (t : Pqueue) × (pop pri s ≡ some (at s.items 0, t))
        × Removed pri (at s.items 0) s t
        × ((p : ℕ) → Holds s p → pri (at s.items 0) ≤ pri p)
  unfolding pop
  pop_correct s v h =
      let k = length s.items - 1 in
      let size : length s.items ≡ suc k = omega arith in
      let some_left : (length s.items == 0) ≡ false = ground arith in
      let (t, run, inv, step, there) = sink pri pri s v 0 k size h (λ p ne. refl) in
      let heap : IsHeap pri k t = λ c p q. inv.edges c p q (omega arith) in
      let first : (p : ℕ) → Holds s p → pri (at s.items 0) ≤ pri p = λ p held. rw (← held.here) (
        root_first (length s.items) (length s.items) s held.place v.heap held.inside held.inside) in
      let size' = step.size ∙ size in
      let t' = record t {
        cap = if ltb (length s.items) (s.cap / 2) && ltb 25 s.cap then s.cap / 2 else s.cap;
      } in
      let (run', q) =
        drop_last_lem pri t' k size' step.indexed (length s.items) size heap
          (ground (arith, v.fits)) (ground (arith, v.room)) in
      let left = cut pri t' k size' step.indexed in
      let holds : (p : ℕ) → Holds t' p ↔ Holds s p = λ p. (
        λ g. (step.holds p).0 (record { place = g.place; inside = g.inside; here = g.here }),
        λ g.
            let g' = (step.holds p).1 g in
            record { place = g'.place; inside = g'.inside; here = g'.here },
      ) in
      (
        left,
        rw (some_left, swap_in_range s 0 k h (omega arith), run, run')
            (ap (λ y. some (y, left)) there),
        subst (λ y. Removed pri y s left) there (Removed-Reordered pri step.size holds q),
        first,
      )
