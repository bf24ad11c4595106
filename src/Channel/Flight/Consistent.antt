-- ===== src/Channel/Flight/Consistent.antt =====
-- Each operation on the messages in flight keeps the map, the heap and deferredCount in step.
use nsq.Base.{
  ℕ, ◌+◌, ◌%◌, ◌≡◌, ◌≢◌, refl, sym, ap, ◌∙◌, arith, Option, some, Bool, true, false, if◌then◌else◌,
  u64_mod,
}
use nsq.Base.Map.{find, erase, find-erase}
use nsq.InFlightQueue.Push.{push_correct}
use nsq.Channel.Backend.{Backend}
use nsq.Channel.Flight.{MessageState, assign, pris, Flight, replace}
use nsq.Channel.Flight.Count.{
  weight, deferred_in, deferred_in-erase, deferred_in-same, erase-IsDistinct,
}
use nsq.Channel.Flight.Agreed.{
  IsAgreed, IsOther, assign-IsOther, assign_same, take_out_correct, IsAgreed-replace,
}

module _ (backend : Backend) where
  -- Modulo 2 ^ 64, deferredCount is the number of deferred messages in flight.
  pub record IsConsistent (f : Flight backend) : Type 0 where
    pub agreed : IsAgreed f.cells f.in_flight_messages f.queue
    pub counted : f.deferred_count ≡ deferred_in f.cells f.in_flight_messages % u64_mod

  -- The call ends without a panic, in a consistent state, and `P` holds of what it returns.
  pub record Ends {A : Type 0} (call : Option (A × Flight backend))
      (P : A → Flight backend → Type 0) : Type 0 where
    pub value : A
    pub after : Flight backend
    pub run : call ≡ some (value, after)
    pub consistent : IsConsistent after
    pub holds : P value after

  -- A call that changes nothing.
  pub Ends-unchanged :
      {A : Type 0} {P : A → Flight backend → Type 0} (value : A) (f : Flight backend)
      → IsConsistent f
      → P value f
      → Ends (some (value, f)) P
  Ends-unchanged value f v h = record {
    value = value;
    after = f;
    run = refl;
    consistent = v;
    holds = h;
  }

  pub Ends-if :
      {A : Type 0} {P : A → Flight backend → Type 0} (b : Bool) {x y : Option (A × Flight backend)}
      → (b ≡ true → Ends x P)
      → (b ≡ false → Ends y P)
      → Ends (if b then x else y) P
  Ends-if true yes_case no_case = yes_case refl
  Ends-if false yes_case no_case = no_case refl

  module _ (f : Flight backend) (v : IsConsistent f) where
    -- Among the messages other than the one at `k`, the count reads nothing of that one.
    pub rest_same :
        (k p : ℕ) (cells' : ℕ → MessageState)
        → find k f.in_flight_messages ≡ some p
        → IsOther p f.cells cells'
        → deferred_in f.cells f.in_flight_messages
          ≡ weight (f.cells p) + deferred_in cells' (erase k f.in_flight_messages)
    rest_same k p cells' e other =
        let m = f.in_flight_messages in
        let same =
          deferred_in-same f.cells cells' (erase k m) (erase-IsDistinct k m v.agreed.keyed)
            (λ j s g.
              let found : (j ≢ k) × (find j m ≡ some s) = ground (arith, find-erase k j m) in
              let ne : s ≢ p = λ q. found.0 (
                sym (v.agreed.listed j s found.1).0
                ∙ ap (λ x. (f.cells x).id) q
                ∙ (v.agreed.listed k p e).0) in
              ap weight (sym (other s ne))) in
        deferred_in-erase f.cells k p m v.agreed.keyed e ∙ ap (λ n. weight (f.cells p) + n) same

    -- A message in flight gets new fields and its new place.
    module _ (k p : ℕ) (e : find k f.in_flight_messages ≡ some p) (m : MessageState)
        (same_id : m.id ≡ k) (count : ℕ)
        (counted : (rest : ℕ)
          → f.deferred_count ≡ (weight (f.cells p) + rest) % u64_mod
          → count ≡ (weight m + rest) % u64_mod) where
      pub replace_correct :
          (f' : Flight backend) × (replace backend p m (record f { deferred_count = count })
            ≡ some f')
          × IsConsistent f'
          × (f'.in_flight_messages ≡ f.in_flight_messages)
          × (f'.cells ≡ assign f.cells p m)
          × (f' ≡ record f { cells = assign f.cells p m; queue = f'.queue; deferred_count = count })
      unfolding replace
      replace_correct =
          let cells = assign f.cells p m in
          let other = assign-IsOther f.cells p m in
          let it : cells p ≡ m = assign_same f.cells p m in
          let id : (cells p).id ≡ k = ap (λ (x : MessageState). x.id) it ∙ same_id in
          let (q1, run1, r1) =
            take_out_correct f.cells cells f.in_flight_messages f.queue v.agreed p other k e in
          let (q2, run2, r2) =
            push_correct (pris cells) p q1 r1.valid (λ h. ((r1.holds p).0 h).1 refl) in
          let total : deferred_in cells f.in_flight_messages
              ≡ weight m + deferred_in cells (erase k f.in_flight_messages) =
            deferred_in-erase cells k p f.in_flight_messages v.agreed.keyed e
            ∙ ap (λ x. weight x + deferred_in cells (erase k f.in_flight_messages)) it in
          (
            record f { cells = cells; queue = q2; deferred_count = count },
            rw run1 (rw run2 refl),
            record {
              agreed =
                  IsAgreed-replace f.cells cells f.in_flight_messages f.queue v.agreed p other k e
                    q1 r1 q2 id r2;
              counted = rw total (
                  counted (deferred_in cells (erase k f.in_flight_messages))
                    (v.counted ∙ ap (λ n. n % u64_mod) (rest_same k p cells e other)));
            },
            refl,
            refl,
            refl,
          )
