-- ===== src/Intervals/Lower.antt =====
-- The deleting operations of IntervalHash.
use nsq.Base.{
  ℕ, ◌<◌, ◌≡◌, ◌↔◌, inl, inr, refl, ap, arith, Option, none, some, Bool, false, ◌&&◌, List, [], ◌∷◌,
  leb, ◌==◌, Bool-cases, ==_iff,
}
use nsq.Base.Map.{Map, find, keys, keys_complete, Has}
use nsq.Intervals.{
  Interval, IntervalHash, remove_ends, delete_if_same, delete_interval, visit, delete_loop,
  delete_lower, delete_range,
}
use nsq.Intervals.Sound.{IsSoundMap, IsSound, remove_ends-IsSound}
use nsq.Intervals.Exact.{IsValid, remove_ends-IsValid, find-remove_ends_other, kept}

visit-IsSound :
    (C : ℕ → Type 0) (test : Interval → Bool) (o : Option Interval) (s : Map Interval × ℕ)
    → IsSoundMap C s.0
    → IsSoundMap C (visit test o s).0
visit-IsSound C test none s sound = sound
visit-IsSound C test (some v) (m, cnt) sound = elim (Bool-cases (test v)) [
  | inl gone ↦ rw gone (remove_ends-IsSound C v m sound)
  | inr stays ↦ rw stays sound
]

delete_loop-IsSound :
    (C : ℕ → Type 0) (test : Interval → Bool) (ks : List ℕ) (s : Map Interval × ℕ)
    → IsSoundMap C s.0
    → IsSoundMap C (delete_loop test ks s).0
unfolding delete_loop
delete_loop-IsSound C test [] s sound = sound
delete_loop-IsSound C test (k ∷ ks) s sound =
    delete_loop-IsSound C test ks (visit test (find k s.0) s)
      (visit-IsSound C test (find k s.0) s sound)

-- DeleteLower keeps soundness.
pub delete_lower-IsSound :
    (C : ℕ → Type 0) (low : ℕ) (h : IntervalHash) → IsSound C h → IsSound C (delete_lower low h).0
unfolding delete_lower
delete_lower-IsSound C low h s =
    delete_loop-IsSound C (λ v. leb v.end low) (keys h.elems) (h.elems, 0) s

pub delete_range-IsSound :
    (C : ℕ → Type 0) (inter : Interval) (h : IntervalHash)
    → IsSound C h
    → IsSound C (delete_range inter h)
unfolding delete_range
delete_range-IsSound C inter h s = delete_loop-IsSound C _ (keys h.elems) (h.elems, 0) s

pub delete_interval-IsSound :
    (C : ℕ → Type 0) (inter : Interval) (h : IntervalHash)
    → IsSound C h
    → IsSound C (delete_interval inter h)
unfolding delete_interval
delete_interval-IsSound C inter h s = go (find inter.start h.elems)
  where
    go : (o : Option Interval) → IsSoundMap C (delete_if_same o inter h.elems)
    go none = s
    go (some qi) = elim (Bool-cases (qi.start == inter.start && qi.end == inter.end)) [
      | inl same ↦ rw same (remove_ends-IsSound C qi h.elems s)
      | inr other ↦ rw other s
    ]

-- A stored interval is deleted by its own bounds.
pub delete_interval-stored :
    (inter : Interval) (h : IntervalHash)
    → find inter.start h.elems ≡ some inter
    → (delete_interval inter h).elems ≡ remove_ends inter h.elems
unfolding delete_interval
delete_interval-stored inter h e =
    rw (e, (==_iff inter.start inter.start).1 refl, (==_iff inter.end inter.end).1 refl)

-- What is left of `m` when intervals that pass `test` are deleted, those under the keys `ks` too.
record IsRest (test : Interval → Bool) (ks : List ℕ) (m : Map Interval) (m' : Map Interval)
    : Type 0 where
  valid : IsValid m'
  old : (k : ℕ) (v : Interval) → find k m' ≡ some v → find k m ≡ some v
  stays : (k : ℕ) (v : Interval) → find k m ≡ some v → test v ≡ false → find k m' ≡ some v
  cleared : (k : ℕ) (v : Interval) → Has k ks → find k m' ≡ some v → test v ≡ false

key_found :
    (m : Map Interval) (k j : ℕ) (o : Option Interval) (u : Interval)
    → find k m ≡ o
    → Has j (k ∷ [])
    → find j m ≡ some u
    → o ≡ some u
key_found m k j o u e (inl same) f = cc
key_found m k j o u e (inr never) f = absurd never

visit-IsRest :
    (test : Interval → Bool) (k : ℕ) (o : Option Interval) (s : Map Interval × ℕ)
    → find k s.0 ≡ o
    → IsValid s.0
    → IsRest test (k ∷ []) s.0 (visit test o s).0
visit-IsRest test k none s e v = record {
  valid = v;
  old = λ j u f. f;
  stays = λ j u f t. f;
  cleared = λ j u p f. cc (key_found s.0 k j none u e p f);
}
visit-IsRest test k (some qi) (m, cnt) e v = elim (Bool-cases (test qi)) [
  | inl gone ↦ rw gone (record {
    valid = remove_ends-IsValid m v k qi e;
    old = λ j u f. (kept m v k qi e j u f).0;
    stays = λ j u f t. find-remove_ends_other m v k qi e j u f (λ same. cc (ap test same));
    cleared = λ j u p f.
        let (was, ne) = kept m v k qi e j u f in
        absurd (ne (cc (key_found m k j (some qi) u e p was)));
  })
  | inr stays ↦ rw stays (record {
    valid = v;
    old = λ j u f. f;
    stays = λ j u f t. f;
    cleared = λ j u p f. cc (key_found m k j (some qi) u e p f);
  })
]

delete_loop-IsRest :
    (test : Interval → Bool) (ks : List ℕ) (s : Map Interval × ℕ)
    → IsValid s.0
    → IsRest test ks s.0 (delete_loop test ks s).0
unfolding delete_loop
delete_loop-IsRest test [] s v = record {
  valid = v;
  old = λ j u f. f;
  stays = λ j u f t. f;
  cleared = λ j u p f. absurd p;
}
delete_loop-IsRest test (k ∷ ks) s v =
    let t = visit test (find k s.0) s in
    let a = visit-IsRest test k (find k s.0) s refl v in
    let b = delete_loop-IsRest test ks t a.valid in
    record {
      valid = b.valid;
      old = λ j u f. a.old j u (b.old j u f);
      stays = λ j u f e. b.stays j u (a.stays j u f e) e;
      cleared = λ j u p f. elim p [
        | inl q ↦ a.cleared j u (inl q) (b.old j u f)
        | inr r ↦ b.cleared j u r f
      ];
    }

-- On valid intervals DeleteLower deletes exactly those that end at `low` or below; the others stay
-- under both of their ends.
pub delete_lower_exact :
    (low : ℕ) (h : IntervalHash)
    → IsValid h.elems
    → IsValid (delete_lower low h).0.elems
      × ((k : ℕ) (v : Interval)
          → (find k (delete_lower low h).0.elems ≡ some v)
            ↔ ((find k h.elems ≡ some v) × (low < v.end)))
unfolding delete_lower
delete_lower_exact low h valid =
    let r = delete_loop-IsRest (λ v. leb v.end low) (keys h.elems) (h.elems, 0) valid in
    (
      r.valid,
      λ k v. (
        λ f.
            let was = r.old k v f in
            (was, ground (arith, r.cleared k v (keys_complete k v h.elems was) f)),
        λ p. r.stays k v p.0 (ground arith),
      ),
    )
