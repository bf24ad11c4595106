-- ===== src/InFlightQueue/Tests.antt =====
-- Runs of inFlightPqueue on concrete queues.
use nsq.Base.{
  ℕ, zero, suc, ◌+◌, ◌-◌, ◌/◌, ◌≤◌, ◌<◌, ◌≡◌, ◌≢◌, refl, arith, Option, none, some, List, [], ◌∷◌,
  ◌==◌, if◌then◌else◌,
}
use nsq.InFlightQueue.{Pqueue, swap, up_loop, up, pri_at, push, pop, remove}
use nsq.InFlightQueue.Array.{at}
use nsq.InFlightQueue.Swap.{Holds}
use nsq.InFlightQueue.Push.{IsValid, Pushed, push_correct}
use nsq.InFlightQueue.Cut.{Removed}
use nsq.InFlightQueue.Remove.{remove_correct, pop_correct}

-- The message at pointer p times out at 100 + p.
abbrev pri : ℕ → ℕ
pri p = 100 + p

abbrev three : Pqueue
three = record {
  items = 3 ∷ 8 ∷ 5 ∷ [];
  cap = 4;
  index =
      λ p. if p == 3 then some 0 else if p == 8 then some 1 else if p == 5 then some 2 else none;
}

three-IsValid : IsValid pri three
unfolding at
three-IsValid = record {
  heap = λ c p h. heap c p h;
  indexed = λ i h. indexed i h;
  fits = omega arith;
  room = omega arith;
}
  where
    heap : (c : ℕ) → 0 < c → c < 3 → pri (at three.items ((c - 1) / 2)) ≤ pri (at three.items c)
    heap zero p h = elim p [ ]
    heap (suc zero) p h = omega arith
    heap (suc (suc zero)) p h = omega arith
    heap (suc (suc (suc c))) p h = absurd (omega arith)

    indexed : (i : ℕ) → i < 3 → three.index (at three.items i) ≡ some i
    indexed zero h = refl
    indexed (suc zero) h = refl
    indexed (suc (suc zero)) h = refl
    indexed (suc (suc (suc i))) h = absurd (omega arith)

four_new : ¬ Holds three 4
unfolding at
four_new h = no_place h.place h.inside h.here
  where
    no_place : (i : ℕ) → i < 3 → at three.items i ≢ 4
    no_place zero h e = omega arith
    no_place (suc zero) h e = omega arith
    no_place (suc (suc zero)) h e = omega arith
    no_place (suc (suc (suc i))) h e = omega arith

abbrev items_of : Option Pqueue → List ℕ
items_of none = []
items_of (some t) = t.items

-- A message with an earlier time rises to the root.
pushed_items : items_of (push pri 1 three) ≡ 1 ∷ 3 ∷ 5 ∷ 8 ∷ []
unfolding push up up_loop pri_at swap
pushed_items = refl

push_correct_example : (t : Pqueue) × (push pri 4 three ≡ some t) × Pushed pri 4 three t
push_correct_example = push_correct pri 4 three three-IsValid four_new

pop_correct_example :
    (t : Pqueue) × (pop pri three ≡ some (at three.items 0, t))
    × Removed pri (at three.items 0) three t
    × ((p : ℕ) → Holds three p → pri (at three.items 0) ≤ pri p)
pop_correct_example = pop_correct pri three three-IsValid (omega arith)

-- The time of message 8 alone is put off.
abbrev later : ℕ → ℕ
later p = if p == 8 then 900 else pri p

later_else : (p : ℕ) → p ≢ at three.items 1 → later p ≡ pri p
unfolding at
later_else p ne = ground arith

remove_correct_example :
    (t : Pqueue) × (remove later 1 three ≡ some (at three.items 1, t))
    × Removed later (at three.items 1) three t
remove_correct_example = remove_correct pri later three 1 three-IsValid (omega arith) later_else
