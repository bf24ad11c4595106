-- ===== src/Intervals/Sound.antt =====
-- IntervalHash holds only bytes that were given to it.
use nsq.Base.{ℕ, ◌≤◌, ◌<◌, ◌≡◌, refl, arith, Option, none, some}
use nsq.Base.Map.{Map, find, erase, insert, find-erase, find-insert}
use nsq.Intervals.{Interval, IntervalHash, widen, remove_ends, absorb, add_or_merge}

-- Every stored interval lies round its key, and has only bytes that satisfy `C`.
module _ (C : ℕ → Type 0) where
  pub record Within (v : Interval) : Type 0 where
    pub ordered : v.start ≤ v.end
    pub inside : (x : ℕ) → v.start ≤ x → x < v.end → C x

  abbrev pub IsSoundMap : Map Interval → Type 0
  IsSoundMap m = (k : ℕ) (v : Interval) → find k m ≡ some v → (v.start ≤ k) × (k ≤ v.end) × Within v

  abbrev pub IsSound : IntervalHash → Type 0
  IsSound h = IsSoundMap h.elems

  pub erase-IsSound : (k : ℕ) (m : Map Interval) → IsSoundMap m → IsSoundMap (erase k m)
  erase-IsSound k m s j v e = ground (arith, find-erase k j m, s j v)

  pub remove_ends-IsSound :
      (qi : Interval) (m : Map Interval) → IsSoundMap m → IsSoundMap (remove_ends qi m)
  unfolding remove_ends
  remove_ends-IsSound qi m s = erase-IsSound qi.end (erase qi.start m) (erase-IsSound qi.start m s)

  insert-IsSound :
      (k : ℕ) (v : Interval) (m : Map Interval)
      → v.start ≤ k
      → k ≤ v.end
      → Within v
      → IsSoundMap m
      → IsSoundMap (insert k v m)
  insert-IsSound k v m lo hi w s j u e = ground (arith, find-insert k j v m, s j u)

  -- Two intervals round one point make one interval with no byte more.
  widen-Within :
      (qi n : Interval) (k : ℕ)
      → (qi.start ≤ k) × (k ≤ qi.end) × Within qi
      → (n.start ≤ k) × (k ≤ n.end)
      → Within n
      → Within (widen qi n)
  unfolding widen
  widen-Within qi n k q p w = record {
    ordered = ground arith;
    inside = λ x lo hi. ground (arith, q.2.inside x, w.inside x);
  }

  record IsAbsorbed (n : Interval) (s : Interval × Map Interval) : Type 0 where
    within : Within s.0
    start_le : s.0.start ≤ n.start
    end_le : n.end ≤ s.0.end
    sound : IsSoundMap s.1

  absorb-IsAbsorbed :
      (k : ℕ) (n : Interval) (m : Map Interval) (o : Option Interval)
      → find k m ≡ o
      → (n.start ≤ k) × (k ≤ n.end)
      → Within n
      → IsSoundMap m
      → IsAbsorbed n (absorb o (n, m))
  unfolding absorb
  absorb-IsAbsorbed k n m none e p w s = record {
    within = w;
    start_le = omega arith;
    end_le = omega arith;
    sound = s;
  }
  absorb-IsAbsorbed k n m (some qi) e p w s = record {
    within = widen-Within qi n k (s k qi e) p w;
    start_le = unfold widen in ground arith;
    end_le = unfold widen in ground arith;
    sound = remove_ends-IsSound qi m s;
  }

  -- AddOrMerge keeps soundness, and the interval that it returns is sound and has the one given.
  pub add_or_merge-IsSound :
      (inter : Interval) (h : IntervalHash)
      → Within inter
      → IsSound h
      → IsSound (add_or_merge inter h).1
        × Within (add_or_merge inter h).0
        × ((add_or_merge inter h).0.start ≤ inter.start)
        × (inter.end ≤ (add_or_merge inter h).0.end)
  unfolding add_or_merge
  add_or_merge-IsSound inter h w s =
      let a =
        absorb-IsAbsorbed inter.start inter h.elems (find inter.start h.elems) refl
          (omega (arith, w.ordered)) w s in
      let s1 = absorb (find inter.start h.elems) (inter, h.elems) in
      let b =
        absorb-IsAbsorbed s1.0.end s1.0 s1.1 (find s1.0.end s1.1) refl
          (omega (arith, a.within.ordered)) a.within a.sound in
      let s2 = absorb (find s1.0.end s1.1) s1 in
      let stored =
        insert-IsSound s2.0.start s2.0 s2.1 (omega arith) b.within.ordered b.within b.sound in
      (
        insert-IsSound s2.0.end s2.0 (insert s2.0.start s2.0 s2.1) b.within.ordered (omega arith)
            b.within stored,
        b.within,
        omega (arith, a.start_le, b.start_le),
        omega (arith, a.end_le, b.end_le),
      )
