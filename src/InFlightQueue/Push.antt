-- ===== src/InFlightQueue/Push.antt =====
-- The invariant of inFlightPqueue, and Push.
use nsq.Base.{
  ℕ, ◌+◌, ◌*◌, ◌≤◌, ◌<◌, ◌≡◌, ◌≢◌, ◌⊎◌, ◌↔◌, inl, inr, sym, ap, ◌∙◌, arith, some, [], ◌∷◌, ◌++◌,
  length, length-append, ltb, if◌then◌else◌, dec_lt,
}
use nsq.InFlightQueue.{Pqueue, update, parent, push}
use nsq.InFlightQueue.Array.{at, at-append, at-length}
use nsq.InFlightQueue.Swap.{IsIndexed, Holds}
use nsq.InFlightQueue.Up.{IsHeap, UpInv, up_restores}

module _ (pri : ℕ → ℕ) where
  -- In heap order, each message knows its place, and the slice has room.
  pub record IsValid (s : Pqueue) : Type 0 where
    pub heap : IsHeap pri (length s.items) s
    pub indexed : IsIndexed s
    pub fits : length s.items ≤ s.cap
    pub room : 0 < s.cap

  -- The place of a message that is held is the one that it knows.
  pub Holds-index : (s : Pqueue) (p : ℕ) → IsIndexed s → (h : Holds s p) → s.index p ≡ some h.place
  Holds-index s p x h = rw h.here at (x h.place h.inside)

  -- What Push leaves.
  pub record Pushed (x : ℕ) (s t : Pqueue) : Type 0 where
    pub valid : IsValid t
    pub size : length t.items ≡ length s.items + 1
    pub holds : (p : ℕ) → Holds t p ↔ (Holds s p ⊎ (p ≡ x))

  module _ (x : ℕ) (s : Pqueue) (v : IsValid s) (new : ¬ Holds s x) where
    abbrev placed : Pqueue
    placed = record {
      items = s.items ++ (x ∷ []);
      cap = if ltb s.cap (length s.items + 1) then s.cap * 2 else s.cap;
      index = update s.index x (some (length s.items));
    }

    placed_size : length placed.items ≡ length s.items + 1
    placed_size = length-append s.items (x ∷ [])

    placed_old : (k : ℕ) → k < length s.items → at placed.items k ≡ at s.items k
    placed_old k h = at-append s.items (x ∷ []) k h

    placed_new : at placed.items (length s.items) ≡ x
    placed_new = at-length s.items x

    placed-IsIndexed : IsIndexed placed
    placed-IsIndexed k h = elim (dec_lt k (length s.items)) [
      | yes old ↦
          let other : x ≢ at s.items k =
            λ e. new (record { place = k; inside = old; here = sym e }) in
          rw (placed_old k old) (ground (arith, v.indexed k old))
      | no last ↦
          let same : k ≡ length s.items = omega (arith, placed_size) in
          rw (same, placed_new) (ground arith)
    ]

    placed-UpInv : UpInv pri (length placed.items) placed (length s.items)
    placed-UpInv = record {
      edges = λ c p q r.
          let old : c < length s.items = omega (arith, placed_size) in
          rw (placed_old c old, placed_old (parent c) (omega arith)) (v.heap c p old);
      bridged = λ c p q r t. absurd (omega (arith, placed_size));
    }

    placed-Holds : (p : ℕ) → Holds placed p ↔ (Holds s p ⊎ (p ≡ x))
    placed-Holds p = (there, back)
      where
        there : Holds placed p → Holds s p ⊎ (p ≡ x)
        there h = elim (dec_lt h.place (length s.items)) [
          | yes old ↦ inl (record {
            place = h.place;
            inside = old;
            here = sym (placed_old h.place old) ∙ h.here;
          })
          | no last ↦
              let same : h.place ≡ length s.items = omega (arith, placed_size, h.inside) in
              inr (sym h.here ∙ ap (at placed.items) same ∙ placed_new)
        ]

        back : (Holds s p ⊎ (p ≡ x)) → Holds placed p
        back (inl h) = record {
          place = h.place;
          inside = omega (arith, placed_size, h.inside);
          here = placed_old h.place h.inside ∙ h.here;
        }
        back (inr e) = record {
          place = length s.items;
          inside = omega (arith, placed_size);
          here = placed_new ∙ sym e;
        }

    -- Push on a valid queue that does not hold the message adds it and no other, without a panic.
    pub push_correct : (t : Pqueue) × (push pri x s ≡ some t) × Pushed x s t
    unfolding push
    push_correct =
        let room : length s.items + 1 ≤ placed.cap = ground (arith, v.fits, v.room) in
        let (t, run, r) =
          up_restores pri (length placed.items) placed (length s.items) (omega (arith, placed_size))
            (omega (arith, placed_size)) placed-IsIndexed placed-UpInv in
        (
          t,
          ground (arith, run, room),
          record {
            valid = record {
              heap = rw r.reordered.size r.heap;
              indexed = r.reordered.indexed;
              fits = omega (arith, r.reordered.size, placed_size, room, r.reordered.room);
              room = omega (arith, room, r.reordered.room);
            };
            size = r.reordered.size ∙ placed_size;
            holds = λ p. (
              λ h. (placed-Holds p).0 ((r.reordered.holds p).0 h),
              λ h. (r.reordered.holds p).1 ((placed-Holds p).1 h),
            );
          },
        )
