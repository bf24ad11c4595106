-- ===== src/Registration/Unique.antt =====
-- No operation brings a registration in twice.
use Prim.Native.String.{String}
use mathlib.Core.List.Perm
use mathlib.Core.List.Nodup
use mathlib.Core.HLevel.{⊥_prop}
use mathlib.Core.List.Sublist
use mathlib.Core.List.{
  Nodup, Mem, Sublist, Nodup-cons, not-mem-nil, eq-or-mem_of_mem-cons, perm_append_singleton,
}
use mathlib.Core.Logic.Or
use nsq.Base.{
  ◌≡◌, inl, inr, refl, sym, ap, Bool, true, false, ◌||◌, not, List, [], ◌∷◌, ◌++◌, map,
  if◌then◌else◌, Bool-cases,
}
use nsq.Base.Dict.{same, same_iff, get}
use nsq.Base.Members.{In, IsUnique, last-IsUnique, filter, exists, filter-IsUnique, none_pass}
use nsq.Registration.{
  ChannelReg, PeerInfo, Producer, TopicProducerReg, RegistrationDb, or_empty, is_match, same_reg,
}
use nsq.Registration.Channels.{
  add_channel_reg, remove_channel_reg, without_peer, remove_channels_of,
}
use nsq.Registration.Channels.Correct.{
  or_empty-put, or_empty-put_or_delete, or_empty-map_values, same_reg_iff,
}
use nsq.Registration.Producers.{
  is_reg, of_peer, add_topic_producer, remove_topic_producer, remove_all_by_peer_id,
  without_producer, is_pid, atoi, codes,
}
use nsq.Registration.Peers.{is_some, add_peer_client, del_tombstone_lookupd_node}
use nsq.Registration.Producers.Correct.{producers, without_first, remove_topic_producer_correct}

abbrev pub channel_regs : String → RegistrationDb → List ChannelReg
channel_regs topic db = or_empty (get topic db.registration_channel_map)

-- A registration's partition and node.
abbrev pub key : TopicProducerReg → String × String
key reg = (reg.partition_id, reg.producer_node.peer_info.id)

-- On every topic, no channel registration is there twice, nor are two producers with the same
-- partition and node.
pub record IsUniqueDb (db : RegistrationDb) : Type 0 where
  pub channels : (t : String) → IsUnique (channel_regs t db)
  pub nodes : (t : String) → Nodup (map key (producers t db))

-- What holds of the value that is put and of the others, holds of every value.
by_topic :
    {A : Type 0} (P : A → Type 0) (topic t : String) (x y : A)
    → P x
    → P y
    → P (if same topic t then x else y)
by_topic P topic t x y here there = elim (Bool-cases (same topic t)) [
  | inl e ↦ rw e here
  | inr e ↦ rw e there
]

pub add_channel_reg-IsUnique :
    (topic : String) (k : ChannelReg) (db : RegistrationDb)
    → IsUniqueDb db
    → IsUniqueDb (add_channel_reg topic k db).0
unfolding add_channel_reg
add_channel_reg-IsUnique topic k db u =
    let old = channel_regs topic db in
    elim (Bool-cases (exists (λ ch. same_reg ch k) old)) [
      | inl known ↦ rw known u
      | inr new ↦
          let fresh : ¬ In k old =
            λ m. cc (none_pass (λ ch. same_reg ch k) old k new m, (same_reg_iff k k).1 refl) in
          rw new (record {
            channels = λ t.
                rw (or_empty-put topic t (old ++ (k ∷ [])) db.registration_channel_map) (
                  by_topic IsUnique topic t (old ++ (k ∷ [])) (channel_regs t db)
                    (last-IsUnique k old (u.channels topic) fresh) (u.channels t));
            nodes = u.nodes;
          })
    ]

pub remove_channel_reg-IsUnique :
    (topic : String) (k : ChannelReg) (db : RegistrationDb)
    → IsUniqueDb db
    → IsUniqueDb (remove_channel_reg topic k db).0
unfolding remove_channel_reg
remove_channel_reg-IsUnique topic k db u =
    let old = channel_regs topic db in
    let matches = λ (ch : ChannelReg). is_match ch k.partition_id k.peer_id k.channel in
    let left = filter (λ ch. not (matches ch)) old in
    elim (Bool-cases (exists matches old)) [
      | inr no_match ↦ rw no_match u
      | inl some_match ↦ rw some_match (record {
        channels = λ t. rw (or_empty-put_or_delete topic t left db.registration_channel_map) (
            by_topic IsUnique topic t left (channel_regs t db)
              (filter-IsUnique (λ ch. not (matches ch)) old (u.channels topic)) (u.channels t));
        nodes = u.nodes;
      })
    ]

-- A partition and node that no registration has, are no registration's key.
no_key :
    (p : TopicProducerReg) (xs : List TopicProducerReg)
    → exists (is_reg p.partition_id p.producer_node.peer_info.id) xs ≡ false
    → ¬ Mem (key p) (map key xs)
unfolding exists
no_key p [] new = not-mem-nil
no_key p (x ∷ xs) new = λ m.
    let id = p.producer_node.peer_info.id in
    elim (Bool-cases (is_reg p.partition_id id x)) [
      | inl on ↦ absurd (cc (rw on at new))
      | inr off ↦
          Or.elim ⊥_prop (eq-or-mem_of_mem-cons m)
            (λ e.
              let one = (same_iff x.partition_id p.partition_id).1 (sym (ap (λ q. q.0) e)) in
              let two = (same_iff x.producer_node.peer_info.id id).1 (sym (ap (λ q. q.1) e)) in
              cc (rw (one, two) at off))
            (no_key p xs (rw off at new))
    ]

last-Nodup :
    (p : TopicProducerReg) (xs : List TopicProducerReg)
    → exists (is_reg p.partition_id p.producer_node.peer_info.id) xs ≡ false
    → Nodup (map key xs)
    → Nodup (map key (xs ++ (p ∷ [])))
last-Nodup p xs new u =
    Perm.nodup (Perm.symm (Perm.map key (perm_append_singleton p xs)))
      (Nodup-cons.1 (no_key p xs new, u))

without_first-sublist :
    (p : TopicProducerReg → Bool) (xs : List TopicProducerReg)
    → Sublist (map key (without_first p xs)) (map key xs)
without_first-sublist p [] = Sublist.refl _
without_first-sublist p (x ∷ xs) = elim (Bool-cases (p x)) [
  | inl on ↦ rw on (Sublist.cons (key x) (Sublist.refl _))
  | inr off ↦ rw off (Sublist.cons-cons (key x) (without_first-sublist p xs))
]

filter-keys_sublist :
    (p : TopicProducerReg → Bool) (xs : List TopicProducerReg)
    → Sublist (map key (filter p xs)) (map key xs)
unfolding filter
filter-keys_sublist p [] = Sublist.refl _
filter-keys_sublist p (x ∷ xs) = elim (Bool-cases (p x)) [
  | inl on ↦ rw on (Sublist.cons-cons (key x) (filter-keys_sublist p xs))
  | inr off ↦ rw off (Sublist.cons (key x) (filter-keys_sublist p xs))
]

pub add_topic_producer-IsUnique :
    (topic pid : String) (p : Producer) (db : RegistrationDb)
    → IsUniqueDb db
    → IsUniqueDb (add_topic_producer topic pid p db).0
unfolding add_topic_producer
add_topic_producer-IsUnique topic pid p db u =
    let old = producers topic db in
    let reg : TopicProducerReg = record { partition_id = pid; producer_node = p } in
    elim (Bool-cases (same pid "" || not (is_pid (atoi (codes pid))))) [
      | inl bad ↦ rw bad u
      | inr good ↦ elim (Bool-cases (exists (is_reg pid p.peer_info.id) old)) [
        | inl known ↦ rw (good, known) u
        | inr new ↦
            rw (good, new)
              (record {
                channels = u.channels;
                nodes = λ t.
                    rw (or_empty-put topic t (old ++ (reg ∷ [])) db.registration_topic_map) (
                      by_topic (λ xs. Nodup (map key xs)) topic t (old ++ (reg ∷ []))
                        (producers t db) (last-Nodup reg old new (u.nodes topic)) (u.nodes t));
              })
      ]
    ]

channel_map_kept :
    (topic pid id : String) (db : RegistrationDb)
    → (remove_topic_producer topic pid id db).0.registration_channel_map
      ≡ db.registration_channel_map
unfolding remove_topic_producer
channel_map_kept topic pid id db = elim (Bool-cases (exists (is_reg pid id) (producers topic db))) [
  | inl on ↦ rw on refl
  | inr off ↦ rw off refl
]

pub remove_topic_producer-IsUnique :
    (topic pid id : String) (db : RegistrationDb)
    → IsUniqueDb db
    → IsUniqueDb (remove_topic_producer topic pid id db).0
remove_topic_producer-IsUnique topic pid id db u =
    let db' = (remove_topic_producer topic pid id db).0 in
    let (found, kept, left, others) = remove_topic_producer_correct topic pid id db in
    record {
      channels = λ t. rw (channel_map_kept topic pid id db) (u.channels t);
      nodes = λ t. elim (Bool-cases (same topic t)) [
        | inl e ↦
            let e' : topic ≡ t = (same_iff topic t).0 e in
            rw (← e') (
              Perm.nodup (Perm.symm (Perm.map key left)) (
                Nodup.sublist (without_first-sublist (is_reg pid id) (producers topic db))
                  (u.nodes topic)))
        | inr e ↦ rw (others t (λ q. cc ((same_iff topic t).1 (sym q), e))) (u.nodes t)
      ];
    }

-- A list that a filter may have changed.
if_filtered :
    {A : Type 0} (P : List A → Type 0) (b : Bool) (xs ys : List A)
    → P xs
    → P ys
    → P (if b then xs else ys)
if_filtered P true xs ys p q = p
if_filtered P false xs ys p q = q

pub remove_all_by_peer_id-IsUnique :
    (id : String) (db : RegistrationDb) → IsUniqueDb db → IsUniqueDb (remove_all_by_peer_id id db)
unfolding remove_all_by_peer_id remove_channels_of
remove_all_by_peer_id-IsUnique id db u =
    let no_channels : without_peer id [] ≡ [] = unfold exists in refl in
    let no_producers : without_producer id [] ≡ [] = unfold exists in refl in
    let foreign = λ (reg : ChannelReg). not (same reg.peer_id id) in
    let foreign' = λ (reg : TopicProducerReg). not (of_peer id reg) in
    record {
      channels = λ t.
          let old = channel_regs t db in
          rw (or_empty-map_values (without_peer id) t db.registration_channel_map no_channels) (
            if_filtered IsUnique (exists (λ (reg : ChannelReg). same reg.peer_id id) old)
              (filter foreign old) old (filter-IsUnique foreign old (u.channels t)) (u.channels t));
      nodes = λ t.
          let old = producers t db in
          rw (or_empty-map_values (without_producer id) t db.registration_topic_map no_producers) (
            if_filtered (λ xs. Nodup (map key xs)) (exists (of_peer id) old) (filter foreign' old)
              old (Nodup.sublist (filter-keys_sublist foreign' old) (u.nodes t)) (u.nodes t));
    }

pub peers-IsUnique :
    (id : String) (db : RegistrationDb)
    → IsUniqueDb db
    → ((p : PeerInfo) → IsUniqueDb (add_peer_client id p db).0)
      × IsUniqueDb (del_tombstone_lookupd_node id db).0
unfolding add_peer_client del_tombstone_lookupd_node
peers-IsUnique id db u = (
  λ p. elim (Bool-cases (is_some (get id db.registration_node_map))) [
    | inl known ↦ rw known u
    | inr new ↦ rw new (record { channels = u.channels; nodes = u.nodes })
  ],
  elim (Bool-cases (is_some (get id db.tombstone_lookupd_nodes))) [
    | inl known ↦ rw known (record { channels = u.channels; nodes = u.nodes })
    | inr new ↦ rw new u
  ],
)
