-- ===== src/InFlightQueue/Down.antt =====
-- `down` restores the heap order below one message.
use nsq.Base.{
  ℕ, zero, suc, ◌+◌, ◌-◌, ◌*◌, ◌≤◌, ◌<◌, ◌≡◌, ◌≢◌, ◌⊎◌, inl, inr, refl, ◌∙◌, arith, some, length,
  ltb, leb, Bool-cases, ℕ_discrete,
}
use nsq.InFlightQueue.{Pqueue, parent, smaller_child, down_loop, down}
use nsq.InFlightQueue.Array.{at}
use nsq.InFlightQueue.Swap.{
  IsIndexed, Reordered, Reordered-refl, Reordered-trans, swapped, swap_in_range, at-swapped,
  swapped-Reordered,
}
use nsq.InFlightQueue.Up.{key, IsHeap, UpInv, pri_at-key, key-swapped}

module _ (pri : ℕ → ℕ) where
  -- The walk from `i0` stands at `i`: the message there may be due after its children, and if it
  -- has not moved yet, before its parent.
  pub record DownInv (n i0 : ℕ) (s : Pqueue) (i : ℕ) : Type 0 where
    pub start : i0 ≤ i
    pub edges :
        (c : ℕ)
        → 0 < c
        → c < n
        → parent c ≢ i
        → (c ≢ i0) ⊎ (i ≢ i0)
        → key pri s (parent c) ≤ key pri s c
    pub bridged :
        (c : ℕ) → 0 < c → c < n → parent c ≡ i → 0 < i → key pri s (parent i) ≤ key pri s c

  record IsSmallerChild (n : ℕ) (s : Pqueue) (i m : ℕ) : Type 0 where
    inside : m < n
    child : (m ≡ 2 * i + 1) ⊎ (m ≡ 2 * i + 2)
    least : (c : ℕ) → 0 < c → c < n → parent c ≡ i → key pri s m ≤ key pri s c

  -- A child of `i` is one of two messages.
  least_of :
      (s : Pqueue) (i m c : ℕ)
      → 0 < c
      → parent c ≡ i
      → key pri s m ≤ key pri s (2 * i + 1)
      → key pri s m ≤ key pri s (2 * i + 1 + 1)
      → key pri s m ≤ key pri s c
  least_of s i m c p r left right =
      let cases : (c ≡ 2 * i + 1) ⊎ (c ≡ 2 * i + 1 + 1) = elim (ℕ_discrete c (2 * i + 1)) [
        | yes e ↦ inl e
        | no e ↦ inr (omega arith)
      ] in
      elim cases [ inl e ↦ rw e left | inr e ↦ rw e right ]

  smaller_child_lem :
      (n : ℕ) (s : Pqueue) (i : ℕ)
      → n ≤ length s.items
      → 2 * i + 1 < n
      → (m : ℕ) × (smaller_child pri (2 * i + 1) n s ≡ some m) × IsSmallerChild n s i m
  unfolding smaller_child
  smaller_child_lem n s i fits h =
      let j1 = 2 * i + 1 in
      elim (Bool-cases (ltb (j1 + 1) n)) [
        | inr one ↦ (
          j1,
          rw one,
          record {
            inside = h;
            child = inl refl;
            least = λ c p q r. (let same : c ≡ j1 = ground arith in rw same (omega arith));
          },
        )
        | inl two ↦ elim (Bool-cases (leb (key pri s (j1 + 1)) (key pri s j1))) [
          | inl right ↦ (
            j1 + 1,
            rw (
              two,
              pri_at-key pri s j1 (omega arith),
              pri_at-key pri s (j1 + 1) (ground arith),
              right,
            ),
            record {
              inside = ground arith;
              child = inr (omega arith);
              least = λ c p q r. least_of s i (j1 + 1) c p r (ground arith) (omega arith);
            },
          )
          | inr left ↦ (
            j1,
            rw (
              two,
              pri_at-key pri s j1 (omega arith),
              pri_at-key pri s (j1 + 1) (ground arith),
              left,
            ),
            record {
              inside = h;
              child = inl refl;
              least = λ c p q r. least_of s i j1 c p r (omega arith) (ground arith);
            },
          )
        ]
      ]

  swapped-DownInv :
      (n i0 : ℕ) (s : Pqueue) (i m : ℕ)
      → n ≤ length s.items
      → DownInv n i0 s i
      → IsSmallerChild n s i m
      → key pri s m < key pri s i
      → DownInv n i0 (swapped i m s) m
  swapped-DownInv n i0 s i m fits v c below =
      let k = key-swapped pri s i m (omega (arith, c.inside, c.child)) (omega (arith, c.inside)) in
      record {
        start = omega (arith, v.start, c.child);
        edges = λ d p q r t. ground (
          arith,
          k d,
          k (parent d),
          v.edges d p q,
          v.bridged m,
          c.least d,
          c.child,
          v.start,
          c.inside,
        );
        bridged = λ d p q r t. ground (arith, k d, k (parent m), v.edges d p q, c.child, v.start);
      }

  -- The messages below `n` are in order but for the one at `i0`; those from `n` on did not move.
  pub record Sunk (n i0 : ℕ) (s t : Pqueue) : Type 0 where
    pub inv : UpInv pri n t i0
    pub reordered : Reordered s t
    pub beyond : (k : ℕ) → n ≤ k → at t.items k ≡ at s.items k

  DownInv-UpInv :
      (n i0 : ℕ) (s : Pqueue) (i : ℕ)
      → DownInv n i0 s i
      → ((c : ℕ) → 0 < c → c < n → parent c ≡ i → key pri s i ≤ key pri s c)
      → UpInv pri n s i0
  DownInv-UpInv n i0 s i v settled = elim (ℕ_discrete i i0) [
    | yes e ↦ record {
      edges = λ c p q r. elim (ℕ_discrete (parent c) i) [
        | yes same ↦ rw same (settled c p q same)
        | no other ↦ v.edges c p q other (inl r)
      ];
      bridged = λ c p q r t. rw (← e) (v.bridged c p q (rw e r) (rw e t));
    }
    | no e ↦
        let heap : IsHeap pri n s = λ c p q. elim (ℕ_discrete (parent c) i) [
          | yes same ↦ rw same (settled c p q same)
          | no other ↦ v.edges c p q other (inr e)
        ] in
        record {
          edges = λ c p q r. heap c p q;
          bridged = λ c p q r t. ground (arith, heap c p q, heap i0 t (omega arith));
        }
  ]

  down_loop_restores :
      (fuel n i0 : ℕ) (s : Pqueue) (i : ℕ)
      → n - i < fuel
      → n ≤ length s.items
      → IsIndexed s
      → DownInv n i0 s i
      → (t : Pqueue) × (down_loop pri fuel i n s ≡ some t) × Sunk n i0 s t
  unfolding down_loop
  down_loop_restores zero n i0 s i f fits x v = absurd (omega arith)
  down_loop_restores (suc fuel) n i0 s i f fits x v = elim (Bool-cases (leb n (2 * i + 1))) [
    | inl leaf ↦ (
      s,
      rw leaf,
      record {
        inv = DownInv-UpInv n i0 s i v (λ c p q r. absurd (ground arith));
        reordered = Reordered-refl x;
        beyond = λ k h. refl;
      },
    )
    | inr inner ↦
        let (m, chosen, c) = smaller_child_lem n s i fits (ground arith) in
        let hm : m < length s.items = omega (arith, c.inside) in
        let hi : i < length s.items = omega (arith, c.inside, c.child) in
        let hin : i < n = omega (arith, c.inside, c.child) in
        elim (Bool-cases (leb (key pri s i) (key pri s m))) [
          | inl settled ↦ (
            s,
            rw (inner, chosen, pri_at-key pri s m hm, pri_at-key pri s i hi, settled),
            record {
              inv = DownInv-UpInv n i0 s i v (λ d p q r. ground (arith, c.least d));
              reordered = Reordered-refl x;
              beyond = λ k h. refl;
            },
          )
          | inr below ↦
              let step = swapped-Reordered s i m hi hm x in
              let (t, run, r) =
                down_loop_restores fuel n i0 (swapped i m s) m (omega (arith, c.child))
                  (omega (arith, step.size)) step.indexed
                  (swapped-DownInv n i0 s i m fits v c (ground arith)) in
              (
                t,
                rw
                    (
                      inner,
                      chosen,
                      pri_at-key pri s m hm,
                      pri_at-key pri s i hi,
                      below,
                      swap_in_range s i m hi hm,
                    )
                    run,
                record {
                  inv = r.inv;
                  reordered = Reordered-trans step r.reordered;
                  beyond = λ k h. r.beyond k h ∙ ground (arith, at-swapped s i m hi hm k, c.inside);
                },
              )
        ]
  ]

  -- `down` ends without a panic; only the message at its start may still be due before its parent.
  pub down_restores :
      (n : ℕ) (s : Pqueue) (i : ℕ)
      → n ≤ length s.items
      → IsIndexed s
      → DownInv n i s i
      → (t : Pqueue) × (down pri i n s ≡ some t) × Sunk n i s t
  unfolding down
  down_restores n s i fits x v = down_loop_restores (n + 1) n i s i (omega arith) fits x v
