-- ===== src/InFlightQueue/Cut.antt =====
-- The last message leaves the slice.
use nsq.Base.{
  ℕ, suc, ◌+◌, ◌-◌, ◌≤◌, ◌<◌, ◌≡◌, ◌≢◌, ◌↔◌, sym, ap, ◌∙◌, arith, none, some, length, length-take,
  take, dec_lt,
}
use nsq.InFlightQueue.{Pqueue, update, parent, drop_last}
use nsq.InFlightQueue.Array.{at, get_elem?-at, at-take}
use nsq.InFlightQueue.Swap.{IsIndexed, Holds, distinct}
use nsq.InFlightQueue.Up.{IsHeap}
use nsq.InFlightQueue.Push.{IsValid}

module _ (pri : ℕ → ℕ) where
  -- What a removal of `x` leaves.
  pub record Removed (x : ℕ) (s t : Pqueue) : Type 0 where
    pub valid : IsValid pri t
    pub size : length t.items + 1 ≡ length s.items
    pub holds : (p : ℕ) → Holds t p ↔ (Holds s p × (p ≢ x))
    pub cleared : t.index x ≡ none

  module _ (s : Pqueue) (k : ℕ) (size : length s.items ≡ suc k) (x : IsIndexed s) where
    abbrev last : ℕ
    last = at s.items k

    abbrev pub cut : Pqueue
    cut = record s { items = take k s.items; index = update s.index last none }

    cut_size : length cut.items ≡ k
    cut_size = length-take k s.items ∙ omega arith

    cut-at : (j : ℕ) → j < k → at cut.items j ≡ at s.items j
    cut-at j h = at-take k s.items j h

    before_last : (j : ℕ) → j < k → at s.items j ≢ last
    before_last j h e =
        omega
          (arith, distinct s j j (omega arith) (omega arith) x j k (omega arith) (omega arith) e)

    cut-IsIndexed : IsIndexed cut
    cut-IsIndexed j h =
        let hj : j < k = omega (arith, cut_size) in
        let other = before_last j hj in rw (cut-at j hj) (ground (arith, x j (omega arith)))

    cut-Holds : (p : ℕ) → Holds cut p ↔ (Holds s p × (p ≢ last))
    cut-Holds p = (there, back)
      where
        there : Holds cut p → Holds s p × (p ≢ last)
        there h =
            let hk : h.place < k = omega (arith, cut_size, h.inside) in
            let here = sym (cut-at h.place hk) ∙ h.here in
            (
              record { place = h.place; inside = omega arith; here = here },
              λ e. before_last h.place hk (here ∙ e),
            )

        back : (Holds s p × (p ≢ last)) → Holds cut p
        back (h, ne) =
            let hk : h.place < k = elim (dec_lt h.place k) [
              | yes q ↦ q
              | no q ↦
                  let same : h.place ≡ k = omega (arith, h.inside) in
                  absurd (ne (sym h.here ∙ ap (at s.items) same))
            ] in
            record {
              place = h.place;
              inside = omega (arith, cut_size);
              here = cut-at h.place hk ∙ h.here;
            }

    -- Cutting the last message off a heap.
    pub drop_last_lem :
        (n : ℕ)
        → n ≡ suc k
        → IsHeap pri k s
        → k ≤ s.cap
        → 0 < s.cap
        → (drop_last n s ≡ some (last, cut)) × Removed last s cut
    unfolding drop_last
    drop_last_lem n e heap fits room = (
      (let at_k : n - 1 ≡ k = omega arith in rw (at_k, get_elem?-at s.items k (omega arith))),
      record {
        valid = record {
          heap = λ c p q.
              let hc : c < k = omega (arith, cut_size) in
              rw (cut-at c hc, cut-at (parent c) (omega arith)) (heap c p hc);
          indexed = cut-IsIndexed;
          fits = omega (arith, cut_size);
          room = room;
        };
        size = omega (arith, cut_size);
        holds = cut-Holds;
        cleared = ground arith;
      },
    )

  -- A removal after a reordering.
  pub Removed-Reordered :
      {x : ℕ} {s t u : Pqueue}
      → length t.items ≡ length s.items
      → ((p : ℕ) → Holds t p ↔ Holds s p)
      → Removed x t u
      → Removed x s u
  Removed-Reordered same holds r = record {
    valid = r.valid;
    size = r.size ∙ same;
    holds = λ p. (
      λ h. ((holds p).0 ((r.holds p).0 h).0, ((r.holds p).0 h).1),
      λ h. (r.holds p).1 ((holds p).1 h.0, h.1),
    );
    cleared = r.cleared;
  }
