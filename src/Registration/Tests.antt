-- ===== src/Registration/Tests.antt =====
-- Two nodes that register a topic and two channels.
use Prim.Native.String.{String}
use mathlib.Core.List.{Perm}
use nsq.Base.{ℕ, ◌≡◌, ◌≢◌, refl, true, false, [], ◌∷◌, map}
use nsq.Base.Dict.{get, put, delete, keys, map_values}
use nsq.Base.Members.{filter, exists}
use nsq.Registration.{
  ChannelReg, PeerInfo, Producer, TopicProducerReg, RegistrationDb, new_registration_db, or_empty,
  is_match, same_reg,
}
use nsq.Registration.Channels.{add_channel_reg, remove_channel_reg, channels_loop, channels}
use nsq.Registration.Channels.Correct.{
  registered, SameSet, add, remove, remove_peer, run_all, meaning_all, run_all_refines,
}
use nsq.Registration.Producers.{
  codes, digits, atoi, is_pid, is_reg, add_topic_producer, remove_topic_producer,
  remove_all_by_peer_id, find_topics, find_topic_producers,
}
use nsq.Registration.Producers.Correct.{producers, without_first, remove_topic_producer_correct}
use nsq.Registration.Peers.{is_old_peer, is_tombstoned, active_registrations}
use nsq.Registration.Unique.{IsUniqueDb}
use nsq.Registration.Reach.{here, next, add_channel, add_producer, Reachable-IsUniqueDb}

abbrev reg : String → String → String → ChannelReg
reg pid id ch = record { partition_id = pid; peer_id = id; channel = ch }

abbrev peer : String → ℕ → String → PeerInfo
peer id last version = record {
  last_update = last;
  id = id;
  remote_address = "";
  hostname = "";
  broadcast_address = "";
  tcp_port = 4150;
  http_port = 4151;
  version = version;
  distributed_id = "";
}

abbrev producer : String → Producer
producer id = record { peer_info = peer id 10 "0.3-HA"; tombstoned = false; tombstoned_at = 0 }

abbrev on : String → String → TopicProducerReg
on pid id = record { partition_id = pid; producer_node = producer id }

abbrev one_topic : RegistrationDb
one_topic = record new_registration_db {
  registration_topic_map = ("t", on "0" "a" ∷ on "1" "a" ∷ on "0" "b" ∷ []) ∷ [];
  registration_channel_map = ("t", reg "0" "a" "x" ∷ reg "1" "a" "x" ∷ reg "0" "b" "y" ∷ []) ∷ [];
}

numbers :
    map (λ s. is_pid (atoi (codes s))) ("12" ∷ "-11" ∷ "-1" ∷ "a" ∷ "" ∷ "+" ∷ [])
    ≡ true ∷ true ∷ false ∷ false ∷ false ∷ false ∷ []
unfolding atoi digits
numbers = refl

added_once : (add_channel_reg "t" (reg "1" "a" "x") one_topic).1 ≡ false
unfolding add_channel_reg exists get same_reg
added_once = refl

wildcard_removes :
    or_empty
      (get "t" (remove_channel_reg "t" (reg "*" "a" "*") one_topic).0.registration_channel_map)
    ≡ reg "0" "b" "y" ∷ []
unfolding remove_channel_reg exists filter get put delete is_match
wildcard_removes = refl

-- The last registration takes the place of the one that was removed.
last_moves_up :
    producers "t" (remove_topic_producer "t" "0" "a" one_topic).0 ≡ on "0" "b" ∷ on "1" "a" ∷ []
unfolding remove_topic_producer exists get put delete
last_moves_up = refl

topic_keeps_key :
    find_topics (remove_all_by_peer_id "a" (remove_all_by_peer_id "b" one_topic)) ≡ "t" ∷ []
unfolding remove_all_by_peer_id map_values keys exists filter
topic_keeps_key = refl

finds_partition : find_topic_producers "t" "1" one_topic ≡ on "1" "a" ∷ []
unfolding find_topic_producers filter get
finds_partition = refl

names_once : channels (reg "0" "a" "x" ∷ reg "1" "a" "x" ∷ reg "0" "b" "y" ∷ []) ≡ "x" ∷ "y" ∷ []
unfolding channels channels_loop exists
names_once = refl

old_without_ha : is_old_peer (peer "a" 10 "0.2") ≡ true
unfolding is_old_peer
old_without_ha = refl

active_stay : active_registrations 100 50 true (on "0" "a" ∷ []) ≡ []
unfolding active_registrations filter is_tombstoned is_old_peer
active_stay = refl

run_all_refines_example :
    SameSet
      (registered (
        run_all
          (add "t" (reg "2" "c" "x") ∷ remove "t" (reg "*" "a" "*") ∷ remove_peer "b" ∷ [])
          one_topic))
      (meaning_all
        (add "t" (reg "2" "c" "x") ∷ remove "t" (reg "*" "a" "*") ∷ remove_peer "b" ∷ [])
        (registered one_topic))
run_all_refines_example =
    run_all_refines
      (add "t" (reg "2" "c" "x") ∷ remove "t" (reg "*" "a" "*") ∷ remove_peer "b" ∷ []) one_topic

remove_topic_producer_correct_example :
    let p = is_reg "0" "a" in
    let (db', removed) = remove_topic_producer "t" "0" "a" one_topic in
    (removed ≡ exists p (producers "t" one_topic))
    × (removed ≡ false → db' ≡ one_topic)
    × Perm (producers "t" db') (without_first p (producers "t" one_topic))
    × ((t : String) → t ≢ "t" → producers t db' ≡ producers t one_topic)
remove_topic_producer_correct_example = remove_topic_producer_correct "t" "0" "a" one_topic

Reachable-IsUniqueDb_example :
    IsUniqueDb
      (add_topic_producer "t" "0"
        (producer "a")
        (add_channel_reg "t" (reg "0" "a" "x") new_registration_db).0).0
Reachable-IsUniqueDb_example =
    Reachable-IsUniqueDb
      (add_topic_producer "t" "0" (producer "a")
        (add_channel_reg "t" (reg "0" "a" "x") new_registration_db).0).0
      (next (next here (add_channel "t" (reg "0" "a" "x"))) (add_producer "t" "0" (producer "a")))
