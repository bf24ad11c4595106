-- ===== src/Registration/Channels/Correct.antt =====
-- The registrations of channels as a set of pairs of a topic and a registration.
use Prim.Native.String.{String}
use nsq.Base.{
  ◌≡◌, ◌≢◌, ◌⊎◌, ◌↔◌, inl, inr, refl, sym, subst, arith, Bool, true, false, not, Option, none, some,
  List, [], ◌∷◌, ◌++◌, if◌then◌else◌, Bool-cases,
}
use nsq.Base.Dict.{
  Dict, same, same_iff, get, put, map_values, apply, get-put, get-delete, get-map_values,
}
use nsq.Base.Members.{In, In-last, filter, exists, In-filter, exists_sound, none_pass}
use nsq.Registration.{ChannelReg, RegistrationDb, or_empty, is_match, same_reg}
use nsq.Registration.Channels.{
  add_channel_reg, put_or_delete, remove_channel_reg, without_peer, remove_channels_of,
}
use nsq.Registration.Producers.{remove_all_by_peer_id}

module _ {A : Type 0} where
  pub or_empty-put :
      (topic t : String) (v : List A) (m : Dict (List A))
      → or_empty (get t (put topic v m)) ≡ (if same topic t then v else or_empty (get t m))
  or_empty-put topic t v m = rw (get-put topic t v m) (by_topic (same topic t))
    where
      by_topic :
          (b : Bool)
          → or_empty (if b then some v else get t m) ≡ (if b then v else or_empty (get t m))
      by_topic true = refl
      by_topic false = refl

  pub or_empty-put_or_delete :
      (topic t : String) (v : List A) (m : Dict (List A))
      → or_empty (get t (put_or_delete topic v m))
        ≡ (if same topic t then v else or_empty (get t m))
  or_empty-put_or_delete topic t (x ∷ xs) m = or_empty-put topic t (x ∷ xs) m
  or_empty-put_or_delete topic t [] m = rw (get-delete topic t m) (by_topic (same topic t))
    where
      by_topic :
          (b : Bool)
          → or_empty (if b then none else get t m) ≡ (if b then [] else or_empty (get t m))
      by_topic true = refl
      by_topic false = refl

  pub or_empty-map_values :
      (f : List A → List A) (t : String) (m : Dict (List A))
      → f [] ≡ []
      → or_empty (get t (map_values f m)) ≡ f (or_empty (get t m))
  or_empty-map_values f t m e = rw (get-map_values f t m) (by_found (get t m))
    where
      by_found : (o : Option (List A)) → or_empty (apply f o) ≡ f (or_empty o)
      by_found none = sym e
      by_found (some xs) = refl

pub same_reg_iff : (a b : ChannelReg) → (same_reg a b ≡ true) ↔ (a ≡ b)
unfolding same_reg
same_reg_iff a b = (
  λ e.
      by_fields ((same_iff a.partition_id b.partition_id).0 (ground (arith, e)))
        ((same_iff a.peer_id b.peer_id).0 (ground (arith, e)))
        ((same_iff a.channel b.channel).0 (ground (arith, e))),
  λ e.
      subst (λ (x : ChannelReg). same_reg a x ≡ true) e
        (rw
          (
            (same_iff a.partition_id a.partition_id).1 refl,
            (same_iff a.peer_id a.peer_id).1 refl,
            (same_iff a.channel a.channel).1 refl,
          )
          refl),
)
  where
    by_fields :
        a.partition_id ≡ b.partition_id → a.peer_id ≡ b.peer_id → a.channel ≡ b.channel → a ≡ b
    by_fields p q r = cc

-- A set of registrations on topics.
abbrev pub RegSet : Type 1
RegSet = String → ChannelReg → Type 0

abbrev pub registered : RegistrationDb → RegSet
registered db t r = In r (or_empty (get t db.registration_channel_map))

abbrev pub SameSet : RegSet → RegSet → Type 0
SameSet s s' = (t : String) (r : ChannelReg) → s t r ↔ s' t r

-- The operations, and what they mean for the set.
pub data ChannelOp : Type 0 where
  add : String → ChannelReg → ChannelOp
  remove : String → ChannelReg → ChannelOp
  remove_peer : String → ChannelOp

unfoldable pub run : ChannelOp → RegistrationDb → RegistrationDb
run (add topic k) db = (add_channel_reg topic k db).0
run (remove topic k) db = (remove_channel_reg topic k db).0
run (remove_peer id) db = remove_all_by_peer_id id db

unfoldable pub meaning : ChannelOp → RegSet → RegSet
meaning (add topic k) s t r = s t r ⊎ ((t ≡ topic) × (r ≡ k))
meaning (remove topic k) s t r =
    s t r × ¬ ((t ≡ topic) × (is_match r k.partition_id k.peer_id k.channel ≡ true))
meaning (remove_peer id) s t r = s t r × (r.peer_id ≢ id)

-- A topic that was asked for, or another.
at_topic :
    (topic t : String) (xs ys : List ChannelReg) (r : ChannelReg) (P : Type 0)
    → (t ≡ topic → In r xs ↔ P)
    → (t ≢ topic → In r ys ↔ P)
    → In r (if same topic t then xs else ys) ↔ P
at_topic topic t xs ys r P here there = elim (Bool-cases (same topic t)) [
  | inl is ↦ rw is (here (sym ((same_iff topic t).0 is)))
  | inr other ↦ rw other (there (λ e. cc ((same_iff topic t).1 (sym e), other)))
]

add_refines :
    (topic : String) (k : ChannelReg) (db : RegistrationDb)
    → SameSet (registered (add_channel_reg topic k db).0) (meaning (add topic k) (registered db))
unfolding add_channel_reg meaning
add_refines topic k db t r =
    let m = db.registration_channel_map in
    let old = or_empty (get topic m) in
    elim (Bool-cases (exists (λ ch. same_reg ch k) old)) [
      | inl known ↦
          let (x, member, e) = exists_sound (λ ch. same_reg ch k) old known in
          let here : In k old = subst (λ y. In y old) ((same_reg_iff x k).0 e) member in
          rw known (λ h. inl h, λ h. elim h [ inl q ↦ q | inr (p, q) ↦ rw (p, q) here ])
      | inr new ↦
          rw (new, or_empty-put topic t (old ++ (k ∷ [])) m)
            (at_topic topic t (old ++ (k ∷ [])) (or_empty (get t m)) r
              (meaning (add topic k) (registered db) t r)
              (λ e. (
                λ h. elim ((In-last r k old).0 h) [ inl q ↦ inl (rw e q) | inr q ↦ inr (e, q) ],
                λ h. (In-last r k old).1 (elim h [ inl q ↦ inl (rw e at q) | inr (p, q) ↦ inr q ]),
              ))
              (λ ne. (λ h. inl h, λ h. elim h [ inl q ↦ q | inr (p, q) ↦ absurd (ne p) ])))
    ]

refused_iff : (b : Bool) → (not b ≡ true) ↔ (b ≢ true)
refused_iff true = (λ e. absurd (cc e), λ n. absurd (n refl))
refused_iff false = (λ e f. cc f, λ n. refl)

remove_refines :
    (topic : String) (k : ChannelReg) (db : RegistrationDb)
    → SameSet
        (registered (remove_channel_reg topic k db).0)
        (meaning (remove topic k) (registered db))
unfolding remove_channel_reg meaning
remove_refines topic k db t r =
    let m = db.registration_channel_map in
    let old = or_empty (get topic m) in
    let matches = λ (ch : ChannelReg). is_match ch k.partition_id k.peer_id k.channel in
    let left = filter (λ ch. not (matches ch)) old in
    elim (Bool-cases (exists matches old)) [
      | inr no_match ↦
          rw no_match
            (λ h. (h, λ q. cc (none_pass matches old r no_match (rw q.0 at h), q.1)), λ h. h.0)
      | inl some_match ↦
          rw (some_match, or_empty-put_or_delete topic t left m)
            (at_topic topic t left (or_empty (get t m)) r
              (meaning (remove topic k) (registered db) t r)
              (λ e. (
                λ h.
                    let (q, n) = (In-filter (λ ch. not (matches ch)) r old).0 h in
                    (rw e q, λ p. (refused_iff (matches r)).0 n p.1),
                λ h.
                    (In-filter (λ ch. not (matches ch)) r old).1
                      (rw e at h.0, (refused_iff (matches r)).1 (λ p. h.1 (e, p))),
              ))
              (λ ne. (λ h. (h, λ p. ne p.0), λ h. h.0)))
    ]

remove_peer_refines :
    (id : String) (db : RegistrationDb)
    → SameSet (registered (remove_all_by_peer_id id db)) (meaning (remove_peer id) (registered db))
unfolding remove_all_by_peer_id remove_channels_of meaning
remove_peer_refines id db t r =
    let m = db.registration_channel_map in
    let old = or_empty (get t m) in
    let of_peer = λ (reg : ChannelReg). same reg.peer_id id in
    let none_left : without_peer id [] ≡ [] = unfold exists in refl in
    rw (or_empty-map_values (without_peer id) t m none_left)
      (elim (Bool-cases (exists of_peer old)) [
        | inr no_reg ↦ rw no_reg (
          λ h. (h, λ e. cc (none_pass of_peer old r no_reg h, (same_iff r.peer_id id).1 e)),
          λ h. h.0,
        )
        | inl some_reg ↦ rw some_reg (
          λ h.
              let (q, n) = (In-filter (λ reg. not (of_peer reg)) r old).0 h in
              (q, λ e. (refused_iff (of_peer r)).0 n ((same_iff r.peer_id id).1 e)),
          λ h.
              (In-filter (λ reg. not (of_peer reg)) r old).1
                (h.0, (refused_iff (of_peer r)).1 (λ e. h.1 ((same_iff r.peer_id id).0 e))),
        )
      ])

run_refines :
    (op : ChannelOp) (db : RegistrationDb)
    → SameSet (registered (run op db)) (meaning op (registered db))
unfolding run
run_refines (add topic k) db = add_refines topic k db
run_refines (remove topic k) db = remove_refines topic k db
run_refines (remove_peer id) db = remove_peer_refines id db

-- The same sets have the same meaning.
meaning_congr :
    (op : ChannelOp) (s s' : RegSet) → SameSet s s' → SameSet (meaning op s) (meaning op s')
unfolding meaning
meaning_congr (add topic k) s s' e t r = (
  λ h. elim h [ inl q ↦ inl ((e t r).0 q) | inr q ↦ inr q ],
  λ h. elim h [ inl q ↦ inl ((e t r).1 q) | inr q ↦ inr q ],
)
meaning_congr (remove topic k) s s' e t r = (λ h. ((e t r).0 h.0, h.1), λ h. ((e t r).1 h.0, h.1))
meaning_congr (remove_peer id) s s' e t r = (λ h. ((e t r).0 h.0, h.1), λ h. ((e t r).1 h.0, h.1))

unfoldable pub run_all : List ChannelOp → RegistrationDb → RegistrationDb
run_all [] db = db
run_all (op ∷ ops) db = run_all ops (run op db)

unfoldable pub meaning_all : List ChannelOp → RegSet → RegSet
meaning_all [] s = s
meaning_all (op ∷ ops) s = meaning_all ops (meaning op s)

meaning_all_congr :
    (ops : List ChannelOp) (s s' : RegSet)
    → SameSet s s'
    → SameSet (meaning_all ops s) (meaning_all ops s')
unfolding meaning_all
meaning_all_congr [] s s' e = e
meaning_all_congr (op ∷ ops) s s' e =
    meaning_all_congr ops (meaning op s) (meaning op s') (meaning_congr op s s' e)

-- AddChannelReg, RemoveChannelReg and RemoveAllByPeerId, in any sequence. What is registered
-- afterwards is what the operations mean for a set of pairs of a topic and a registration: an
-- addition adds its pair and no other, a removal takes out what matches on its topic, with "*" as
-- a wildcard, and the removal of a peer takes out the registrations of that peer on every topic.
pub run_all_refines :
    (ops : List ChannelOp) (db : RegistrationDb)
    → SameSet (registered (run_all ops db)) (meaning_all ops (registered db))
unfolding run_all meaning_all
run_all_refines [] db t r = (λ h. h, λ h. h)
run_all_refines (op ∷ ops) db t r =
    let (there, back) = run_all_refines ops (run op db) t r in
    let (there', back') =
      meaning_all_congr ops (registered (run op db)) (meaning op (registered db))
        (run_refines op db) t r in
    (λ h. there' (there h), λ h. back (back' h))
