-- ===== src/Intervals/Overlap.antt =====
-- IsCompleteOverlap, with the history of the intervals that were added.
use nsq.Base.{
  ℕ, ◌≤◌, ◌<◌, ◌≡◌, refl, arith, true, Option, none, some, leb→le, ◌==◌, Bool-cases, inl, inr,
}
use nsq.Base.Map.{find, find-insert}
use nsq.Intervals.{
  Interval, IntervalHash, covers_from_start, covers_to_end, covers_history, add_or_merge,
  is_complete_overlap,
}
use nsq.Intervals.Sound.{Within, IsSound}

module _ (C : ℕ → Type 0) where
  -- Every byte of an interval in the history satisfies `C`.
  abbrev pub IsSoundHistory : IntervalHash → Type 0
  IsSoundHistory h = (s e : ℕ) → find s h.history_msg ≡ some e → (x : ℕ) → s ≤ x → x < e → C x

  pub add_or_merge-IsSoundHistory :
      (inter : Interval) (h : IntervalHash)
      → Within C inter
      → IsSoundHistory h
      → IsSoundHistory (add_or_merge inter h).1
  unfolding add_or_merge
  add_or_merge-IsSoundHistory inter h w p s e f x lo hi = elim (Bool-cases (inter.start == s)) [
    | inl same ↦
        let it : inter.end ≡ e =
          ground (arith, find-insert inter.start s inter.end h.history_msg) in
        w.inside x (ground arith) (omega arith)
    | inr other ↦ p s e (ground (arith, find-insert inter.start s inter.end h.history_msg)) x lo hi
  ]

  module _ (inter : Interval) (h : IntervalHash) (v : IsSound C h) (p : IsSoundHistory h) where
    abbrev Inside : Type 0
    Inside = (x : ℕ) → inter.start ≤ x → x < inter.end → C x

    from_start :
        (o : Option Interval)
        → find inter.start h.elems ≡ o
        → covers_from_start o inter ≡ true
        → Inside
    from_start none e b x lo hi = absurd (cc b)
    from_start (some qi) e b x lo hi =
        let (below, _, w) = v inter.start qi e in
        w.inside x (omega arith) (omega (arith, leb→le inter.end qi.end b))

    to_end :
        (o : Option Interval) → find inter.end h.elems ≡ o → covers_to_end o inter ≡ true → Inside
    to_end none e b x lo hi = absurd (cc b)
    to_end (some qi) e b x lo hi =
        let (_, above, w) = v inter.end qi e in
        w.inside x (omega (arith, leb→le qi.start inter.start b)) (omega arith)

    in_history :
        (o : Option ℕ) → find inter.start h.history_msg ≡ o → covers_history o inter ≡ true → Inside
    in_history none e b x lo hi = absurd (cc b)
    in_history (some k) e b x lo hi = p inter.start k e x lo (omega (arith, leb→le inter.end k b))

    -- An interval that IsCompleteOverlap accepts has only sound bytes.
    pub is_complete_overlap-Inside : is_complete_overlap inter h ≡ true → Inside
    unfolding is_complete_overlap
    is_complete_overlap-Inside b =
        elim (Bool-cases (covers_from_start (find inter.start h.elems) inter)) [
          | inl one ↦ from_start (find inter.start h.elems) refl one
          | inr not_one ↦ elim (Bool-cases (covers_to_end (find inter.end h.elems) inter)) [
            | inl two ↦ to_end (find inter.end h.elems) refl two
            | inr not_two ↦
                in_history (find inter.start h.history_msg) refl (rw (not_one, not_two) at b)
          ]
        ]
