-- ===== src/Channel/Flight/Agreed.antt =====
-- The map of messages in flight and the heap hold the same messages.
use nsq.Base.{
  ℕ, ◌<◌, ◌≡◌, ◌≢◌, inl, inr, refl, sym, ap, subst, ◌∙◌, arith, none, some, ◌==◌, Bool-cases,
  ℕ_discrete, length,
}
use nsq.Base.Map.{Map, find, insert, erase, find-erase, find-insert}
use nsq.InFlightQueue.{Pqueue, parent}
use nsq.InFlightQueue.Array.{at}
use nsq.InFlightQueue.Swap.{Holds}
use nsq.InFlightQueue.Push.{IsValid, Holds-index, Pushed}
use nsq.InFlightQueue.Cut.{Removed}
use nsq.InFlightQueue.Remove.{remove_correct}
use nsq.Channel.Flight.{MessageState, assign, pris, take_out}
use nsq.Channel.Flight.Count.{IsDistinct, erase-IsDistinct, insert-IsDistinct}

pub record IsAgreed (cells : ℕ → MessageState) (m : Map ℕ) (q : Pqueue) : Type 0 where
  pub valid : IsValid (pris cells) q
  pub listed : (k p : ℕ) → find k m ≡ some p → ((cells p).id ≡ k) × Holds q p
  pub held : (p : ℕ) → Holds q p → find (cells p).id m ≡ some p
  pub keyed : IsDistinct m

-- Only the message at `p` may differ.
abbrev pub IsOther : ℕ → (ℕ → MessageState) → (ℕ → MessageState) → Type 0
IsOther p cells cells' = (r : ℕ) → r ≢ p → cells' r ≡ cells r

pub assign-IsOther :
    (cells : ℕ → MessageState) (p : ℕ) (m : MessageState) → IsOther p cells (assign cells p m)
assign-IsOther cells p m r ne = ground arith

pub assign_same : (cells : ℕ → MessageState) (p : ℕ) (m : MessageState) → assign cells p m p ≡ m
assign_same cells p m = ground arith

module _ (cells cells' : ℕ → MessageState) (m : Map ℕ) (q : Pqueue) (a : IsAgreed cells m q) (p : ℕ)
    (other : IsOther p cells cells') where
  -- A message that is in neither may change.
  pub IsAgreed-outside : ¬ Holds q p → IsAgreed cells' m q
  IsAgreed-outside new = record {
    valid = record {
      heap = λ c h0 h.
          let one = same c h in
          let two = same (parent c) (omega arith) in rw (one, two) (a.valid.heap c h0 h);
      indexed = a.valid.indexed;
      fits = a.valid.fits;
      room = a.valid.room;
    };
    listed =
        λ k r e. let (id, h) = a.listed k r e in (rw (other r (λ s. new (subst_held s h))) id, h);
    held = λ r h. rw (other r (λ s. new (subst_held s h))) (a.held r h);
    keyed = a.keyed;
  }
    where
      subst_held : {r : ℕ} → r ≡ p → Holds q r → Holds q p
      subst_held s h = record { place = h.place; inside = h.inside; here = h.here ∙ s }

      same : (c : ℕ) → c < length q.items → pris cells' (at q.items c) ≡ pris cells (at q.items c)
      same c h =
          ap (λ (x : MessageState). x.pri)
            (other (at q.items c) (λ s. new (record { place = c; inside = h; here = s })))

  module _ (k : ℕ) (stored : find k m ≡ some p) where
    at_p : Holds q p
    at_p = (a.listed k p stored).1

    id_p : (cells p).id ≡ k
    id_p = (a.listed k p stored).0

    -- The message leaves the heap without a panic, whatever its fields are now.
    pub take_out_correct :
        (q' : Pqueue) × (take_out p cells' q ≡ some q') × Removed (pris cells') p q q'
    unfolding take_out
    take_out_correct =
        let index : q.index p ≡ some at_p.place =
          Holds-index (pris cells) q p a.valid.indexed at_p in
        let (q', run, r) =
          remove_correct (pris cells) (pris cells') q at_p.place a.valid at_p.inside
            (λ s ne. ap (λ (x : MessageState). x.pri) (other s (λ e. ne (e ∙ sym at_p.here)))) in
        (q', rw index (rw run refl), subst (λ s. Removed (pris cells') s q q') at_p.here r)

    module _ (q' : Pqueue) (r : Removed (pris cells') p q q') where
      -- It leaves the map too.
      pub IsAgreed-erase : IsAgreed cells' (erase k m) q'
      IsAgreed-erase = record {
        valid = r.valid;
        listed = λ j s e.
            let found : (j ≢ k) × (find j m ≡ some s) = ground (arith, find-erase k j m) in
            let (id, h) = a.listed j s found.1 in
            let ne : s ≢ p = λ e. found.0 (sym id ∙ ap (λ x. (cells x).id) e ∙ id_p) in
            (rw (other s ne) id, (r.holds s).1 (h, ne));
        held = λ s h.
            let (was, ne) = (r.holds s).0 h in
            let found = a.held s was in
            let apart : (cells s).id ≢ k = λ e. ne (cc (stored, ap (λ j. find j m) e, found)) in
            rw (other s ne) (ground (arith, find-erase k (cells s).id m));
        keyed = erase-IsDistinct k m a.keyed;
      }

      -- Or it goes back into the heap.
      pub IsAgreed-replace :
          (q'' : Pqueue) → (cells' p).id ≡ k → Pushed (pris cells') p q' q'' → IsAgreed cells' m q''
      IsAgreed-replace q'' id' t = record {
        valid = t.valid;
        listed = λ j s e. elim (ℕ_discrete s p) [
          | yes same ↦ (
            rw same (id' ∙ sym id_p ∙ (sym (ap (λ x. (cells x).id) same) ∙ (a.listed j s e).0)),
            (t.holds s).1 (inr same),
          )
          | no ne ↦ (
            rw (other s ne) (a.listed j s e).0,
            (t.holds s).1 (inl ((r.holds s).1 ((a.listed j s e).1, ne))),
          )
        ];
        held = λ s h. elim ((t.holds s).0 h) [
          | inl old ↦ let (was, ne) = (r.holds s).0 old in rw (other s ne) (a.held s was)
          | inr same ↦ rw (same, id') stored
        ];
        keyed = a.keyed;
      }

-- A new message goes into both.
pub IsAgreed-insert :
    (cells : ℕ → MessageState) (m : Map ℕ) (q q' : Pqueue) (p : ℕ)
    → IsAgreed cells m q
    → find (cells p).id m ≡ none
    → Pushed (pris cells) p q q'
    → IsAgreed cells (insert (cells p).id p m) q'
IsAgreed-insert cells m q q' p a new t = record {
  valid = t.valid;
  listed = λ k s e. elim (Bool-cases ((cells p).id == k)) [
    | inl same ↦
        let it : p ≡ s = ground (arith, find-insert (cells p).id k p m) in
        (ground arith, (t.holds s).1 (inr (sym it)))
    | inr other ↦
        let old : find k m ≡ some s = ground (arith, find-insert (cells p).id k p m) in
        ((a.listed k s old).0, (t.holds s).1 (inl (a.listed k s old).1))
  ];
  held = λ s h. elim ((t.holds s).0 h) [
    | inl old ↦
        let found = a.held s old in ground (arith, find-insert (cells p).id (cells s).id p m)
    | inr same ↦ rw same (ground (arith, find-insert (cells p).id (cells p).id p m))
  ];
  keyed = insert-IsDistinct (cells p).id p m a.keyed;
}
