-- ===== src/InFlightQueue/Up.antt =====
-- `up` restores the heap order above one message.
use nsq.Base.{
  ℕ, zero, suc, ◌+◌, ◌≤◌, ◌<◌, ◌≡◌, ◌≢◌, refl, ◌∙◌, arith, some, length, leb, ◌==◌, if◌then◌else◌,
  Bool-cases, inl, inr,
}
use nsq.InFlightQueue.{Pqueue, parent, pri_at, up_loop, up}
use nsq.InFlightQueue.Array.{at, get_elem?-at}
use nsq.InFlightQueue.Swap.{
  IsIndexed, Reordered, Reordered-refl, Reordered-trans, swapped, swap_in_range, at-swapped,
  swapped-Reordered,
}

module _ (pri : ℕ → ℕ) where
  abbrev pub key : Pqueue → ℕ → ℕ
  key s i = pri (at s.items i)

  -- Among the first `n` messages, none is due before its parent.
  abbrev pub IsHeap : ℕ → Pqueue → Type 0
  IsHeap n s = (c : ℕ) → 0 < c → c < n → key s (parent c) ≤ key s c

  -- Only the message at `j` may be due before its parent.
  pub record UpInv (n : ℕ) (s : Pqueue) (j : ℕ) : Type 0 where
    pub edges : (c : ℕ) → 0 < c → c < n → c ≢ j → key s (parent c) ≤ key s c
    pub bridged : (c : ℕ) → 0 < c → c < n → parent c ≡ j → 0 < j → key s (parent j) ≤ key s c

  pub pri_at-key : (s : Pqueue) (i : ℕ) → i < length s.items → pri_at pri i s ≡ some (key s i)
  unfolding pri_at
  pri_at-key s i h = rw (get_elem?-at s.items i h)

  pub key-swapped :
      (s : Pqueue) (i j : ℕ)
      → i < length s.items
      → j < length s.items
      → (k : ℕ)
      → key (swapped i j s) k ≡ (if j == k then key s i else if i == k then key s j else key s k)
  key-swapped s i j hi hj k = ground (arith, at-swapped s i j hi hj k)

  -- A heap of the same messages, with those beyond `j` where they were.
  pub record Restored (n j : ℕ) (s t : Pqueue) : Type 0 where
    pub heap : IsHeap n t
    pub reordered : Reordered s t
    pub beyond : (k : ℕ) → j < k → at t.items k ≡ at s.items k

  swapped-UpInv :
      (n : ℕ) (s : Pqueue) (j : ℕ)
      → j < length s.items
      → j < n
      → parent j ≢ j
      → UpInv n s j
      → key s j < key s (parent j)
      → UpInv n (swapped (parent j) j s) (parent j)
  swapped-UpInv n s j inside hn up v below =
      let k = key-swapped s (parent j) j (omega arith) inside in
      record {
        edges = λ c p q r. ground (arith, k c, k (parent c), v.edges c, v.bridged c);
        bridged =
            λ c p q r t. ground (arith, k c, k (parent (parent j)), v.edges c, v.edges (parent j));
      }

  up_loop_restores :
      (fuel n : ℕ) (s : Pqueue) (j : ℕ)
      → j < fuel
      → j < length s.items
      → j < n
      → IsIndexed s
      → UpInv n s j
      → (t : Pqueue) × (up_loop pri fuel j s ≡ some t) × Restored n j s t
  unfolding up_loop
  up_loop_restores zero n s j f inside hn x v = elim f [ ]
  up_loop_restores (suc fuel) n s j f inside hn x v =
      let above : parent j < length s.items = omega arith in
      elim (Bool-cases (parent j == j)) [
        | inl root ↦ (
          s,
          rw root,
          record {
            heap = λ c p q. ground (arith, v.edges c);
            reordered = Reordered-refl x;
            beyond = λ k h. refl;
          },
        )
        | inr low ↦ elim (Bool-cases (leb (key s (parent j)) (key s j))) [
          | inl settled ↦ (
            s,
            rw (low, pri_at-key s j inside, pri_at-key s (parent j) above, settled),
            record {
              heap = λ c p q. ground (arith, v.edges c);
              reordered = Reordered-refl x;
              beyond = λ k h. refl;
            },
          )
          | inr below ↦
              let s' = swapped (parent j) j s in
              let step = swapped-Reordered s (parent j) j above inside x in
              let (t, run, r) =
                up_loop_restores fuel n s' (parent j) (ground arith) (omega (arith, step.size))
                  (omega arith) step.indexed
                  (swapped-UpInv n s j inside hn (ground arith) v (ground arith)) in
              (
                t,
                rw
                    (
                      low,
                      pri_at-key s j inside,
                      pri_at-key s (parent j) above,
                      below,
                      swap_in_range s (parent j) j above inside,
                    )
                    run,
                record {
                  heap = r.heap;
                  reordered = Reordered-trans step r.reordered;
                  beyond = λ k h.
                      r.beyond k (omega arith)
                      ∙ ground (arith, at-swapped s (parent j) j above inside k);
                },
              )
        ]
      ]

  -- `up` ends without a panic in a heap of the same messages.
  pub up_restores :
      (n : ℕ) (s : Pqueue) (j : ℕ)
      → j < length s.items
      → j < n
      → IsIndexed s
      → UpInv n s j
      → (t : Pqueue) × (up pri j s ≡ some t) × Restored n j s t
  unfolding up
  up_restores n s j inside hn x v = up_loop_restores (j + 1) n s j (omega arith) inside hn x v
