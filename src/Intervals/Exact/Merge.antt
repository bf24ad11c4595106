-- ===== src/Intervals/Exact/Merge.antt =====
-- AddOrMerge on an interval that shares no byte with the stored ones.
use nsq.Base.{
  ℕ, ◌≤◌, ◌≡◌, ◌≢◌, ◌⊎◌, ◌↔◌, inl, inr, refl, sym, ap, ◌∙◌, arith, none, some, ◌==◌, if◌then◌else◌,
}
use nsq.Base.Map.{Map, find, insert, find-insert}
use nsq.Intervals.{Interval, IntervalHash, absorb, add_or_merge}
use nsq.Intervals.Exact.{
  IsEntry, Apart, IsValid, Covered, In, IsFresh, absorb-Merges, absorb_start, absorb_end,
}

-- The interval is stored under both ends.
abbrev store : Interval → Map Interval → Map Interval
store n m = insert n.end n (insert n.start n m)

find-store :
    (n : Interval) (m : Map Interval) (j : ℕ)
    → find j (store n m)
      ≡ (if n.end == j then some n else if n.start == j then some n else find j m)
find-store n m j =
    ground (arith, find-insert n.end j n (insert n.start n m), find-insert n.start j n m)

module _ (m : Map Interval) (n : Interval) (v : IsValid m) (f : IsFresh m n)
    (at_start : find n.start m ≡ none) (at_end : find n.end m ≡ none) where
  -- What is found is the new interval at one of its ends, or an old one.
  found :
      (j : ℕ) (u : Interval)
      → find j (store n m) ≡ some u
      → ((u ≡ n) × ((j ≡ n.start) ⊎ (j ≡ n.end))) ⊎ (find j m ≡ some u)
  found j u e = ground (arith, find-store n m j)

  old_kept : (j : ℕ) (u : Interval) → find j m ≡ some u → find j (store n m) ≡ some u
  old_kept j u e =
      let one : j ≢ n.start = λ p. ground (arith, ap (λ i. find i m) p) in
      let two : j ≢ n.end = λ p. ground (arith, ap (λ i. find i m) p) in
      ground (arith, find-store n m j)

  new_start : find n.start (store n m) ≡ some n
  new_start = ground (arith, find-store n m n.start)

  new_end : find n.end (store n m) ≡ some n
  new_end = ground (arith, find-store n m n.end)

  store-IsEntry : (j : ℕ) (u : Interval) → find j (store n m) ≡ some u → IsEntry (store n m) j u
  store-IsEntry j u e = elim (found j u e) [
    | inl (same, end) ↦
        rw same
          (record { key = end; nonempty = f.nonempty; at_start = new_start; at_end = new_end })
    | inr old ↦
        let was = v.entry j u old in
        record {
          key = was.key;
          nonempty = was.nonempty;
          at_start = old_kept u.start u was.at_start;
          at_end = old_kept u.end u was.at_end;
        }
  ]

  swap_sides : (u w : Interval) → Apart u w → Apart w u
  swap_sides u w (inl p) = inr p
  swap_sides u w (inr p) = inl p

  store-Apart :
      (i j : ℕ) (u w : Interval)
      → find i (store n m) ≡ some u
      → find j (store n m) ≡ some w
      → (u ≡ w) ⊎ Apart u w
  store-Apart i j u w p q = elim (found i u p) [
    | inl (a, _) ↦ elim (found j w q) [
      | inl (b, _) ↦ inl (a ∙ sym b)
      | inr old ↦ rw a (inr (swap_sides w n (f.apart j w old)))
    ]
    | inr older ↦ elim (found j w q) [
      | inl (b, _) ↦ rw b (inr (f.apart i u older))
      | inr old ↦ v.apart i j u w older old
    ]
  ]

  store-IsValid : IsValid (store n m)
  store-IsValid = record { entry = store-IsEntry; apart = store-Apart }

  store-Covered : (x : ℕ) → Covered (store n m) x ↔ (Covered m x ⊎ In x n)
  store-Covered x = (there, back)
    where
      there : Covered (store n m) x → Covered m x ⊎ In x n
      there c = elim (found c.interval.start c.interval c.stored) [
        | inl (same, _) ↦ inr (rw same at c.above, rw same at c.below)
        | inr old ↦
            inl (record { interval = c.interval; stored = old; above = c.above; below = c.below })
      ]

      back : (Covered m x ⊎ In x n) → Covered (store n m) x
      back (inl c) = record {
        interval = c.interval;
        stored = old_kept c.interval.start c.interval c.stored;
        above = c.above;
        below = c.below;
      }
      back (inr p) = record { interval = n; stored = new_start; above = p.0; below = p.1 }

-- What AddOrMerge returns, and what it leaves.
pub record IsExactMerge (inter : Interval) (h : IntervalHash) (r : Interval × IntervalHash)
    : Type 0 where
  pub valid : IsValid r.1.elems
  pub bytes : (x : ℕ) → Covered r.1.elems x ↔ (Covered h.elems x ⊎ In x inter)
  pub start_le : r.0.start ≤ inter.start
  pub end_le : inter.end ≤ r.0.end
  pub stored : find r.0.start r.1.elems ≡ some r.0

-- On stored intervals that are disjoint, and a fresh one, AddOrMerge leaves disjoint intervals, no
-- two of which touch, and they cover exactly the bytes that were covered and those of the new one.
-- The interval that it returns is stored and has the new one.
pub add_or_merge_exact :
    (inter : Interval) (h : IntervalHash)
    → IsValid h.elems
    → IsFresh h.elems inter
    → IsExactMerge inter h (add_or_merge inter h)
unfolding add_or_merge
add_or_merge_exact inter h v f =
    let o1 = find inter.start h.elems in
    let s1 = absorb o1 (inter, h.elems) in
    let a = absorb-Merges h.elems v inter f inter.start o1 refl (inl refl) in
    let (free1, same1) = absorb_start h.elems v inter f o1 refl in
    let o2 = find s1.0.end s1.1 in
    let s2 = absorb o2 (s1.0, s1.1) in
    let b = absorb-Merges s1.1 a.valid s1.0 a.fresh s1.0.end o2 refl (inr refl) in
    let (free2, same2) = absorb_end s1.1 a.valid s1.0 a.fresh o2 refl in
    let free_start : find s2.0.start s2.1 ≡ none = rw same2 (b.fewer s1.0.start free1) in
    let covered = store-Covered s2.1 s2.0 b.valid b.fresh free_start free2 in
    record {
      valid = store-IsValid s2.1 s2.0 b.valid b.fresh free_start free2;
      bytes = λ x. (
        λ c. (a.same_bytes x).1 ((b.same_bytes x).1 ((covered x).0 c)),
        λ c. (covered x).1 ((b.same_bytes x).0 ((a.same_bytes x).0 c)),
      );
      start_le = omega (arith, a.start_le, b.start_le);
      end_le = omega (arith, a.end_le, b.end_le);
      stored = new_start s2.1 s2.0 b.valid b.fresh free_start free2;
    }
