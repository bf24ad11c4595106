-- ===== src/Placement/Leader/Search.antt =====
-- The search for the replicas with the newest log.
use Prim.Native.String.{String}
use nsq.Base.{
  ℕ, ◌≤◌, ◌≡◌, ◌≢◌, ◌⊎◌, ◌↔◌, inl, inr, refl, sym, ap, subst, ◌∙◌, arith, Bool, true, Option, none,
  some, List, [], ◌∷◌, ◌++◌, ltb, ◌==◌, Bool-cases,
}
use nsq.Base.Dict.{same, same_iff}
use nsq.Base.Members.{In, In-last}
use nsq.Placement.{TopicInfo, is_current, compare_log, consider, newest_loop}

last_filled : (r : String) (newest : List String) → newest ++ (r ∷ []) ≢ []
last_filled r [] q = cc
last_filled r (x ∷ xs) q = cc

module _ {F : Type 0} (less_load : F → F → Bool) (max_load : F) (load : String → Option F)
    (last_log_id : String → Option ℕ) (t : TopicInfo) (nodes : List String) where
  -- A node that is there and is not the leader.
  abbrev pub IsEligible : String → Type 0
  IsEligible r = (is_current nodes r ≡ true) × (r ≢ t.leader)

  -- Of the replicas seen, those found are eligible with the log id `id`, and none has a greater one.
  pub record IsNewest (Seen : String → Type 0) (newest : List String) (id : ℕ) : Type 0 where
    pub from : (r : String) → In r newest → Seen r × IsEligible r × (last_log_id r ≡ some id)
    pub most : (r : String) (cid : ℕ) → Seen r → IsEligible r → last_log_id r ≡ some cid → cid ≤ id
    pub found :
        (r : String) (cid : ℕ) → Seen r → IsEligible r → last_log_id r ≡ some cid → newest ≢ []
    pub filled : newest ≡ [] → id ≡ 0

  newest_id :
      {x r : String} {c cid : ℕ}
      → x ≡ r
      → last_log_id r ≡ some cid
      → last_log_id x ≡ some c
      → c ≡ cid
  newest_id q e known = cc (ap last_log_id q, e, known)

  known_of :
      {r : String} {cid id : ℕ}
      → last_log_id r ≡ some cid
      → cid == id ≡ true
      → last_log_id r ≡ some id
  known_of {cid = cid} {id} e equal = let q : cid ≡ id = ground (arith, equal) in e ∙ ap some q

  compare_log-IsNewest :
      (Seen : String → Type 0) (r : String) (o : Option ℕ) (newest : List String) (id : ℕ)
      → IsNewest Seen newest id
      → IsEligible r
      → last_log_id r ≡ o
      → (let q = compare_log r o (newest, id) in IsNewest (λ x. Seen x ⊎ (x ≡ r)) q.0 q.1)
  compare_log-IsNewest Seen r none newest id v fit e = record {
    from = λ x m. let (s, rest, known) = v.from x m in (inl s, rest, known);
    most = λ x cid s fit' known. elim s [
      | inl s' ↦ v.most x cid s' fit' known
      | inr q ↦ absurd (cc (ap last_log_id q, e, known))
    ];
    found = λ x cid s fit' known. elim s [
      | inl s' ↦ v.found x cid s' fit' known
      | inr q ↦ absurd (cc (ap last_log_id q, e, known))
    ];
    filled = v.filled;
  }
  compare_log-IsNewest Seen r (some cid) newest id v fit e = elim (Bool-cases (ltb id cid)) [
    | inl newer ↦ rw newer (record {
      from = λ x m. elim m [
        | inl q ↦ (inr q, subst IsEligible (sym q) fit, ap last_log_id q ∙ e)
        | inr none_left ↦ absurd none_left
      ];
      most = λ x c s fit' known. elim s [
        | inl s' ↦ ground (arith, v.most x c s' fit' known)
        | inr q ↦ omega (arith, newest_id q e known)
      ];
      found = λ x c s fit' known q. cc;
      filled = λ q. absurd (cc);
    })
    | inr older ↦ elim (Bool-cases (cid == id)) [
      | inl equal ↦
          rw (older, equal)
            (record {
              from = λ x m. elim ((In-last x r newest).0 m) [
                | inl q ↦ (let (s, rest, known) = v.from x q in (inl s, rest, known))
                | inr q ↦ (inr q, subst IsEligible (sym q) fit, ap last_log_id q ∙ known_of e equal)
              ];
              most = λ x c s fit' known. elim s [
                | inl s' ↦ v.most x c s' fit' known
                | inr q ↦ ground (arith, newest_id q e known)
              ];
              found = λ x c s fit' known. last_filled r newest;
              filled = λ q. absurd (last_filled r newest q);
            })
      | inr less ↦
          rw (older, less)
            (record {
              from = λ x m. let (s, rest, known) = v.from x m in (inl s, rest, known);
              most = λ x c s fit' known. elim s [
                | inl s' ↦ v.most x c s' fit' known
                | inr q ↦ ground (arith, newest_id q e known)
              ];
              found = λ x c s fit' known. elim s [
                | inl s' ↦ v.found x c s' fit' known
                | inr q ↦ λ none_found. ground (arith, v.filled none_found)
              ];
              filled = v.filled;
            })
    ]
  ]

  -- The same replicas seen.
  widen :
      {P Q : String → Type 0} {newest : List String} {id : ℕ}
      → ((x : String) → P x ↔ Q x)
      → IsNewest P newest id
      → IsNewest Q newest id
  widen go v = record {
    from = λ x m. let (s, rest, known) = v.from x m in ((go x).0 s, rest, known);
    most = λ x c s. v.most x c ((go x).1 s);
    found = λ x c s. v.found x c ((go x).1 s);
    filled = v.filled;
  }

  skipped :
      (Seen : String → Type 0) (r : String) (newest : List String) (id : ℕ)
      → IsNewest Seen newest id
      → ¬ IsEligible r
      → IsNewest (λ x. Seen x ⊎ (x ≡ r)) newest id
  skipped Seen r newest id v unfit = record {
    from = λ x m. let (s, rest, known) = v.from x m in (inl s, rest, known);
    most = λ x c s fit. elim s [
      | inl s' ↦ v.most x c s' fit
      | inr q ↦ absurd (unfit (subst IsEligible q fit))
    ];
    found = λ x c s fit. elim s [
      | inl s' ↦ v.found x c s' fit
      | inr q ↦ absurd (unfit (subst IsEligible q fit))
    ];
    filled = v.filled;
  }

  consider-IsNewest :
      (Seen : String → Type 0) (r : String) (newest : List String) (id : ℕ)
      → IsNewest Seen newest id
      → (let q = consider less_load max_load load last_log_id t nodes r (newest, id) in
          IsNewest (λ x. Seen x ⊎ (x ≡ r)) q.0 q.1)
  consider-IsNewest Seen r newest id v = elim (Bool-cases (is_current nodes r)) [
    | inl current ↦ elim (Bool-cases (same r t.leader)) [
      | inl leads ↦
          rw (current, leads)
            (skipped Seen r newest id v (λ fit. fit.1 ((same_iff r t.leader).0 leads)))
      | inr follows ↦
          rw (current, follows)
            (compare_log-IsNewest Seen r (last_log_id r) newest id v
              (current, λ q. cc ((same_iff r t.leader).1 q, follows)) refl)
    ]
    | inr gone ↦ rw gone (skipped Seen r newest id v (λ fit. cc (fit.0, gone)))
  ]

  newest_loop-IsNewest :
      (Seen : String → Type 0) (isr newest : List String) (id : ℕ)
      → IsNewest Seen newest id
      → (let q = newest_loop less_load max_load load last_log_id t nodes isr (newest, id) in
          IsNewest (λ x. Seen x ⊎ In x isr) q.0 q.1)
  unfolding newest_loop
  newest_loop-IsNewest Seen [] newest id v =
      widen (λ x. (inl, λ s. elim s [ inl h ↦ h | inr h ↦ absurd h ])) v
  newest_loop-IsNewest Seen (r ∷ isr) newest id v =
      let q = consider less_load max_load load last_log_id t nodes r (newest, id) in
      widen
        (λ x. (
          λ s. elim s [ inl (inl h) ↦ inl h | inl (inr e) ↦ inr (inl e) | inr m ↦ inr (inr m) ],
          λ s. elim s [ inl h ↦ inl (inl h) | inr (inl e) ↦ inl (inr e) | inr (inr m) ↦ inr m ],
        ))
        (newest_loop-IsNewest _ isr q.0 q.1 (consider-IsNewest Seen r newest id v))

  pub searched :
      (let q = newest_loop less_load max_load load last_log_id t nodes t.isr ([], 0) in
        IsNewest (λ x. In x t.isr) q.0 q.1)
  searched =
      widen (λ x. (λ s. elim s [ inl h ↦ absurd h | inr m ↦ m ], inr))
        (newest_loop-IsNewest (λ x. ⊥) t.isr [] 0
          (record {
            from = λ x m. absurd m;
            most = λ x c s. absurd s;
            found = λ x c s. absurd s;
            filled = λ q. refl;
          }))

  -- The replica `l` of the ISR is there, is not the leader and has the log id `id`; no other such replica has a greater one.
  pub record IsBest (l : String) (id : ℕ) : Type 0 where
    pub replica : In l t.isr
    pub eligible : IsEligible l
    pub newest_log : last_log_id l ≡ some id
    pub best :
        (r : String) (cid : ℕ) → In r t.isr → IsEligible r → last_log_id r ≡ some cid → cid ≤ id

  pub member-IsBest :
      {newest : List String} {id : ℕ}
      → IsNewest (λ x. In x t.isr) newest id
      → (l : String) → In l newest
      → IsBest l id
  member-IsBest v l m =
      let (s, fit, known) = v.from l m in
      record { replica = s; eligible = fit; newest_log = known; best = v.most }
