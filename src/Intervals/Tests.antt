-- ===== src/Intervals/Tests.antt =====
-- Runs of IntervalHash on concrete intervals.
use nsq.Base.{ℕ, false, ◌<◌, ◌≡◌, ◌⊎◌, inl, inr, refl, arith, some, [], ◌∷◌}
use nsq.Base.Map.{find, insert, erase, keys}
use nsq.Intervals.{
  Interval, IntervalHash, new_interval_hash, widen, remove_ends, absorb, add_or_merge, len,
  delete_interval, delete_range, delete_loop, is_complete_overlap, is_lowest_at, lowest_scan,
}
use nsq.Intervals.Sound.{IsSound}
use nsq.Intervals.Exact.{IsValid, IsFresh}
use nsq.Intervals.Exact.Merge.{IsExactMerge, add_or_merge_exact}

abbrev span : ℕ → ℕ → ℕ → Interval
span s e c = record { start = s; end = e; end_cnt = c }

-- Two messages, with a gap of one message between them.
abbrev two : IntervalHash
two = record {
  elems = (30, span 20 30 3) ∷ (20, span 20 30 3) ∷ (10, span 0 10 1) ∷ (0, span 0 10 1) ∷ [];
  history_msg = (20, 30) ∷ (0, 10) ∷ [];
}

two_added : (add_or_merge (span 20 30 3) (add_or_merge (span 0 10 1) new_interval_hash).1).1 ≡ two
unfolding add_or_merge absorb new_interval_hash find insert erase
two_added = refl

two-len : len two ≡ 2
unfolding len
two-len = refl

-- The message between them joins them.
joined : (add_or_merge (span 10 20 2) two).0 ≡ span 0 30 3
unfolding add_or_merge absorb remove_ends widen find erase
joined = refl

joined_is_lowest : is_lowest_at 0 (add_or_merge (span 10 20 2) two).1 ≡ some (span 0 30 3)
unfolding is_lowest_at lowest_scan add_or_merge absorb remove_ends widen find insert erase
joined_is_lowest = refl

second_overlaps : is_complete_overlap (span 22 25 0) (add_or_merge (span 10 20 2) two).1 ≡ false
unfolding is_complete_overlap add_or_merge absorb remove_ends widen find insert erase
second_overlaps = refl

range_deleted : (delete_range (span 15 35 0) two).elems ≡ (10, span 0 10 1) ∷ (0, span 0 10 1) ∷ []
unfolding delete_range delete_loop remove_ends find erase keys
range_deleted = refl

interval_kept : (delete_interval (span 0 11 1) two).elems ≡ two.elems
unfolding delete_interval find
interval_kept = refl

two-find :
    (k : ℕ) (v : Interval)
    → find k two.elems ≡ some v
    → (((k ≡ 0) ⊎ (k ≡ 10)) × (v ≡ span 0 10 1)) ⊎ (((k ≡ 20) ⊎ (k ≡ 30)) × (v ≡ span 20 30 3))
unfolding find
two-find k v e = ground arith

two-IsValid : IsValid two.elems
unfolding find
two-IsValid = record {
  entry = λ k v e. elim (two-find k v e) [
    | inl (p, q) ↦ rw q (record { key = p; nonempty = omega arith; at_start = refl; at_end = refl })
    | inr (p, q) ↦ rw q (record { key = p; nonempty = omega arith; at_start = refl; at_end = refl })
  ];
  apart = λ k j v w e f. elim (two-find k v e) [
    | inl (_, p) ↦ elim (two-find j w f) [
      | inl (_, q) ↦ inl cc
      | inr (_, q) ↦ inr (rw (p, q) (inl (omega arith)))
    ]
    | inr (_, p) ↦ elim (two-find j w f) [
      | inl (_, q) ↦ inr (rw (p, q) (inr (omega arith)))
      | inr (_, q) ↦ inl cc
    ]
  ];
}

between-IsFresh : IsFresh two.elems (span 10 20 2)
between-IsFresh = record {
  nonempty = omega arith;
  apart = λ k v e. elim (two-find k v e) [
    | inl (_, q) ↦ rw q (inl (omega arith))
    | inr (_, q) ↦ rw q (inr (omega arith))
  ];
}

add_or_merge_exact_example : IsExactMerge (span 10 20 2) two (add_or_merge (span 10 20 2) two)
add_or_merge_exact_example = add_or_merge_exact (span 10 20 2) two two-IsValid between-IsFresh

two-IsSound : IsSound (λ x. x < 30) two
two-IsSound k v e = elim (two-find k v e) [
  | inl (p, q) ↦
      rw q
        (omega arith, omega arith, record { ordered = omega arith; inside = λ x a b. omega arith })
  | inr (p, q) ↦
      rw q
        (omega arith, omega arith, record { ordered = omega arith; inside = λ x a b. omega arith })
]
