-- ===== src/Intervals/Exact.antt =====
-- On disjoint intervals IntervalHash is exact: it has each interval under its two ends, no two of
-- them touch, and it covers the bytes that were given to it.
pub mod Merge
use nsq.Base.{
  ℕ, ◌≤◌, ◌<◌, ◌≡◌, ◌≢◌, ◌⊎◌, sym, ap, ◌∙◌, ◌↔◌, inl, inr, refl, arith, Option, none, some, ltb,
  ◌==◌, if◌then◌else◌, dec_lt,
}
use nsq.Base.Map.{Map, find, erase, insert, find-erase, find-insert}
use nsq.Intervals.{Interval, IntervalHash, widen, remove_ends, absorb, add_or_merge}

-- Both ends of a stored interval lead to it, and to nothing else.
pub record IsEntry (m : Map Interval) (k : ℕ) (v : Interval) : Type 0 where
  pub key : (k ≡ v.start) ⊎ (k ≡ v.end)
  pub nonempty : v.start < v.end
  pub at_start : find v.start m ≡ some v
  pub at_end : find v.end m ≡ some v

abbrev pub Apart : Interval → Interval → Type 0
Apart v w = (v.end ≤ w.start) ⊎ (w.end ≤ v.start)

pub record IsValid (m : Map Interval) : Type 0 where
  pub entry : (k : ℕ) (v : Interval) → find k m ≡ some v → IsEntry m k v
  pub apart :
      (k j : ℕ) (v w : Interval) → find k m ≡ some v → find j m ≡ some w → (v ≡ w) ⊎ Apart v w

-- The offset `x` lies in a stored interval.
pub record Covered (m : Map Interval) (x : ℕ) : Type 0 where
  pub interval : Interval
  pub stored : find interval.start m ≡ some interval
  pub above : interval.start ≤ x
  pub below : x < interval.end

-- Removing both ends of a stored interval removes that interval and no other.
pub find-remove_ends :
    (qi : Interval) (m : Map Interval) (j : ℕ)
    → find j (remove_ends qi m)
      ≡ (if qi.end == j then none else if qi.start == j then none else find j m)
unfolding remove_ends
find-remove_ends qi m j =
    ground (arith, find-erase qi.end j (erase qi.start m), find-erase qi.start j m)

pub same_of_find :
    (m : Map Interval) {i j : ℕ} {u w : Interval}
    → find i m ≡ some u
    → find j m ≡ some w
    → i ≡ j
    → u ≡ w
same_of_find m p q r = cc

module _ (m : Map Interval) (v : IsValid m) (k : ℕ) (qi : Interval) (e : find k m ≡ some qi) where
  pub kept :
      (j : ℕ) (u : Interval) → find j (remove_ends qi m) ≡ some u → (find j m ≡ some u) × (u ≢ qi)
  kept j u f =
      let found : (find j m ≡ some u) × (j ≢ qi.start) × (j ≢ qi.end) =
        ground (arith, find-remove_ends qi m j) in
      (
        found.0,
        λ same. ground (
          arith,
          (v.entry j u found.0).key,
          ap (λ (t : Interval). t.start) same,
          ap (λ (t : Interval). t.end) same,
        ),
      )

  -- A stored interval that is not removed shares no end with the one that is.
  ends_ne :
      (j : ℕ) (u : Interval)
      → find j m ≡ some u
      → u ≢ qi
      → (u.start ≢ qi.start) × (u.start ≢ qi.end) × (u.end ≢ qi.start) × (u.end ≢ qi.end)
  ends_ne j u f ne =
      let a = v.entry j u f in
      let b = v.entry k qi e in
      (
        λ p. ne (same_of_find m a.at_start b.at_start p),
        λ p. ne (same_of_find m a.at_start b.at_end p),
        λ p. ne (same_of_find m a.at_end b.at_start p),
        λ p. ne (same_of_find m a.at_end b.at_end p),
      )

  pub find-remove_ends_other :
      (j : ℕ) (u : Interval) → find j m ≡ some u → u ≢ qi → find j (remove_ends qi m) ≡ some u
  find-remove_ends_other j u f ne =
      ground (arith, find-remove_ends qi m j, ends_ne j u f ne, (v.entry j u f).key)

  pub remove_ends-IsValid : IsValid (remove_ends qi m)
  remove_ends-IsValid = record {
    entry = λ j u f.
        let (old, ne) = kept j u f in
        let was = v.entry j u old in
        record {
          key = was.key;
          nonempty = was.nonempty;
          at_start = find-remove_ends_other u.start u was.at_start ne;
          at_end = find-remove_ends_other u.end u was.at_end ne;
        };
    apart = λ i j u w f g. v.apart i j u w (kept i u f).0 (kept j w g).0;
  }

abbrev pub In : ℕ → Interval → Type 0
In x v = (v.start ≤ x) × (x < v.end)

-- The interval `n` may be added: it has a byte, and no stored interval has one of its bytes.
pub record IsFresh (m : Map Interval) (n : Interval) : Type 0 where
  pub nonempty : n.start < n.end
  pub apart : (k : ℕ) (v : Interval) → find k m ≡ some v → Apart v n

-- What one step of a merge keeps, from `(n, m)` to `(n', m')`.
pub record Merges (n : Interval) (m : Map Interval) (n' : Interval) (m' : Map Interval)
    : Type 0 where
  pub valid : IsValid m'
  pub fresh : IsFresh m' n'
  pub start_le : n'.start ≤ n.start
  pub end_le : n.end ≤ n'.end
  pub fewer : (j : ℕ) → find j m ≡ none → find j m' ≡ none
  pub same_bytes : (x : ℕ) → (Covered m x ⊎ In x n) ↔ (Covered m' x ⊎ In x n')

module _ (m : Map Interval) (v : IsValid m) (n : Interval) (f : IsFresh m n) where
  -- A stored interval that is found at an end of `n` touches `n` there.
  module _ (k : ℕ) (qi : Interval) (e : find k m ≡ some qi)
      (end : (k ≡ n.start) ⊎ (k ≡ n.end)) where
    hull :
        ((k ≡ n.start)
          × ((widen qi n).start ≡ qi.start)
          × ((widen qi n).end ≡ n.end)
          × (qi.end ≡ n.start))
        ⊎ ((k ≡ n.end)
            × ((widen qi n).start ≡ n.start)
            × ((widen qi n).end ≡ qi.end)
            × (qi.start ≡ n.end))
    unfolding widen
    hull = ground (arith, v.entry k qi e, f.apart k qi e, f.nonempty)

    length_pos : qi.start < qi.end
    length_pos = (v.entry k qi e).nonempty

    bytes : (x : ℕ) → (Covered m x ⊎ In x n) → Covered (remove_ends qi m) x ⊎ In x (widen qi n)
    bytes x (inl c) = elim (v.apart c.interval.start k c.interval qi c.stored e) [
      | inl same ↦
          let lo : qi.start ≤ x = rw same at c.above in
          let hi : x < qi.end = rw same at c.below in inr (ground (arith, hull, f.nonempty))
      | inr other ↦ inl (record {
        interval = c.interval;
        stored = find-remove_ends_other m v k qi e c.interval.start c.interval c.stored (λ same.
            omega (
              arith,
              other,
              c.above,
              c.below,
              ap (λ (t : Interval). t.start) same,
              ap (λ (t : Interval). t.end) same,
            ));
        above = c.above;
        below = c.below;
      })
    ]
    bytes x (inr p) = inr (ground (arith, hull, length_pos))

    bytes_back : (x : ℕ) → (Covered (remove_ends qi m) x ⊎ In x (widen qi n)) → Covered m x ⊎ In x n
    bytes_back x (inl c) = inl (record {
      interval = c.interval;
      stored = (kept m v k qi e c.interval.start c.interval c.stored).0;
      above = c.above;
      below = c.below;
    })
    bytes_back x (inr p) =
        let at = (v.entry k qi e).at_start in
        elim (dec_lt x n.start) [
          | yes before ↦ inl (record {
            interval = qi;
            stored = at;
            above = ground (arith, hull);
            below = ground (arith, hull);
          })
          | no after ↦ elim (dec_lt x n.end) [
            | yes inside ↦ inr (omega arith, inside)
            | no beyond ↦ inl (record {
              interval = qi;
              stored = at;
              above = ground (arith, hull);
              below = ground (arith, hull);
            })
          ]
        ]

    Apart-widened :
        (j : ℕ) (u : Interval) → find j (remove_ends qi m) ≡ some u → Apart u (widen qi n)
    Apart-widened j u g =
        let (old, ne) = kept m v k qi e j u g in
        elim (v.apart j k u qi old e) [
          | inl same ↦ absurd (ne same)
          | inr other ↦ ground (
            arith,
            hull,
            other,
            f.apart j u old,
            (v.entry j u old).nonempty,
            length_pos,
            f.nonempty,
          )
        ]

    absorb_some : Merges n m (widen qi n) (remove_ends qi m)
    absorb_some = record {
      valid = remove_ends-IsValid m v k qi e;
      fresh = record {
        nonempty = ground (arith, hull, length_pos, f.nonempty);
        apart = Apart-widened;
      };
      start_le = ground (arith, hull, length_pos);
      end_le = ground (arith, hull, length_pos);
      fewer = λ j g. ground (arith, find-remove_ends qi m j);
      same_bytes = λ x. (bytes x, bytes_back x);
    }

  absorb_none : Merges n m n m
  absorb_none = record {
    valid = v;
    fresh = f;
    start_le = omega arith;
    end_le = omega arith;
    fewer = λ j g. g;
    same_bytes = λ x. (λ c. c, λ c. c);
  }

  abbrev pub merged : Option Interval → Interval × Map Interval
  merged o = absorb o (n, m)

  pub absorb-Merges :
      (k : ℕ) (o : Option Interval)
      → find k m ≡ o
      → (k ≡ n.start) ⊎ (k ≡ n.end)
      → Merges n m (merged o).0 (merged o).1
  unfolding absorb
  absorb-Merges k none e end = absorb_none
  absorb-Merges k (some qi) e end = absorb_some k qi e end

  -- Nothing is stored at the end where the lookup was made; the other end is as it was.
  pub absorb_start :
      (o : Option Interval)
      → find n.start m ≡ o
      → (find (merged o).0.start (merged o).1 ≡ none) × ((merged o).0.end ≡ n.end)
  unfolding absorb
  absorb_start none e = (e, refl)
  absorb_start (some qi) e =
      let h = hull n.start qi e (inl refl) in
      (
        ground (arith, h, find-remove_ends qi m (widen qi n).start, f.nonempty),
        ground (arith, h, f.nonempty),
      )

  pub absorb_end :
      (o : Option Interval)
      → find n.end m ≡ o
      → (find (merged o).0.end (merged o).1 ≡ none) × ((merged o).0.start ≡ n.start)
  unfolding absorb
  absorb_end none e = (e, refl)
  absorb_end (some qi) e =
      let h = hull n.end qi e (inr refl) in
      (
        ground (arith, h, find-remove_ends qi m (widen qi n).end, f.nonempty),
        ground (arith, h, f.nonempty),
      )
