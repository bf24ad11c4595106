-- ===== src/InFlightQueue/Swap.antt =====
-- Swap in range, and the invariants that every operation keeps.
use nsq.Base.{
  ℕ, ◌<◌, ◌≡◌, ◌↔◌, refl, ap, ◌∙◌, arith, some, length, length-set, set, ◌==◌, if◌then◌else◌,
}
use nsq.InFlightQueue.{Pqueue, update, swap}
use nsq.InFlightQueue.Array.{at, get_elem?-at, at-set}

-- Each message knows where it stands. So no message stands in two places.
abbrev pub IsIndexed : Pqueue → Type 0
IsIndexed s = (i : ℕ) → i < length s.items → s.index (at s.items i) ≡ some i

-- The message stands somewhere in the queue.
pub record Holds (s : Pqueue) (p : ℕ) : Type 0 where
  pub place : ℕ
  pub inside : place < length s.items
  pub here : at s.items place ≡ p

-- The queue was only reordered.
pub record Reordered (s t : Pqueue) : Type 0 where
  pub size : length t.items ≡ length s.items
  pub room : t.cap ≡ s.cap
  pub indexed : IsIndexed t
  pub holds : (p : ℕ) → Holds t p ↔ Holds s p

abbrev pub swapped : ℕ → ℕ → Pqueue → Pqueue
swapped i j s = record s {
  items = set (set s.items i (at s.items j)) j (at s.items i);
  index = update (update s.index (at s.items j) (some i)) (at s.items i) (some j);
}

module _ (s : Pqueue) (i j : ℕ) (hi : i < length s.items) (hj : j < length s.items) where
  pub swap_in_range : swap i j s ≡ some (swapped i j s)
  unfolding swap
  swap_in_range = rw (get_elem?-at s.items i hi, get_elem?-at s.items j hj)

  pub length-swapped : length (swapped i j s).items ≡ length s.items
  length-swapped = simp length-set

  pub at-swapped :
      (k : ℕ)
      → at (swapped i j s).items k
        ≡ (if j == k then at s.items i else if i == k then at s.items j else at s.items k)
  at-swapped k = rw (
    at-set (set s.items i (at s.items j)) j k (at s.items i) (rw length-set hj),
    at-set s.items i k (at s.items j) hi,
  )

  module _ (v : IsIndexed s) where
    pub distinct :
        (k l : ℕ) → k < length s.items → l < length s.items → at s.items k ≡ at s.items l → k ≡ l
    distinct k l hk hl e = cc (v k hk, v l hl, ap s.index e)

    swapped-IsIndexed : IsIndexed (swapped i j s)
    swapped-IsIndexed k hk =
        let hk' : k < length s.items = rw length-swapped at hk in
        ground (
          arith,
          at-swapped k,
          v k hk',
          distinct k i hk' hi,
          distinct k j hk' hj,
          distinct i j hi hj,
        )

    swapped-Holds : (p : ℕ) → Holds (swapped i j s) p ↔ Holds s p
    swapped-Holds p = (there, back)
      where
        there : Holds (swapped i j s) p → Holds s p
        there h = record {
          place = if j == h.place then i else if i == h.place then j else h.place;
          inside = ground (arith, h.inside, length-swapped);
          here = ground (arith, h.here, at-swapped h.place);
        }

        back : Holds s p → Holds (swapped i j s) p
        back h = record {
          place = if j == h.place then i else if i == h.place then j else h.place;
          inside = ground (arith, h.inside, length-swapped);
          here = ground (arith, h.here, at-swapped i, at-swapped j, at-swapped h.place);
        }

    pub swapped-Reordered : Reordered s (swapped i j s)
    swapped-Reordered = record {
      size = length-swapped;
      room = refl;
      indexed = swapped-IsIndexed;
      holds = swapped-Holds;
    }

pub Reordered-refl : {s : Pqueue} → IsIndexed s → Reordered s s
Reordered-refl v = record { size = refl; room = refl; indexed = v; holds = λ p. (λ h. h, λ h. h) }

pub Reordered-trans : {s t u : Pqueue} → Reordered s t → Reordered t u → Reordered s u
Reordered-trans a b = record {
  size = b.size ∙ a.size;
  room = b.room ∙ a.room;
  indexed = b.indexed;
  holds = λ p. (λ h. (a.holds p).0 ((b.holds p).0 h), λ h. (b.holds p).1 ((a.holds p).1 h));
}
