-- ===== src/Registration/Reach.antt =====
-- The operations in any order: no registration is there twice.
use Prim.Native.String.{String}
use mathlib.Core.List.{Nodup-nil}
use nsq.Base.Dict.{get}
use nsq.Registration.{ChannelReg, PeerInfo, Producer, RegistrationDb, new_registration_db}
use nsq.Registration.Channels.{add_channel_reg, remove_channel_reg}
use nsq.Registration.Producers.{add_topic_producer, remove_topic_producer, remove_all_by_peer_id}
use nsq.Registration.Peers.{add_peer_client, tombstone_lookupd_node, del_tombstone_lookupd_node}
use nsq.Registration.Unique.{
  IsUniqueDb, add_channel_reg-IsUnique, remove_channel_reg-IsUnique, add_topic_producer-IsUnique,
  remove_topic_producer-IsUnique, remove_all_by_peer_id-IsUnique, peers-IsUnique,
}

-- One operation. The peers and the tombstones are changed by operations of their own.
pub data Step (db : RegistrationDb) : RegistrationDb → Type 0 where
  add_channel : (topic : String) (k : ChannelReg) → Step db (add_channel_reg topic k db).0
  remove_channel : (topic : String) (k : ChannelReg) → Step db (remove_channel_reg topic k db).0
  add_producer : (topic pid : String) (p : Producer) → Step db (add_topic_producer topic pid p db).0
  remove_producer : (topic pid id : String) → Step db (remove_topic_producer topic pid id db).0
  remove_peer : (id : String) → Step db (remove_all_by_peer_id id db)
  add_peer : (id : String) (p : PeerInfo) → Step db (add_peer_client id p db).0
  add_tombstone : (nid : String) (p : PeerInfo) → Step db (tombstone_lookupd_node nid p db)
  del_tombstone : (nid : String) → Step db (del_tombstone_lookupd_node nid db).0

pub data Reachable (db : RegistrationDb) : RegistrationDb → Type 0 where
  here : Reachable db db
  next : {g h : RegistrationDb} → Reachable db g → Step g h → Reachable db h

Step-IsUnique : (db db' : RegistrationDb) → IsUniqueDb db → Step db db' → IsUniqueDb db'
Step-IsUnique db db' u (add_channel topic k) = add_channel_reg-IsUnique topic k db u
Step-IsUnique db db' u (remove_channel topic k) = remove_channel_reg-IsUnique topic k db u
Step-IsUnique db db' u (add_producer topic pid p) = add_topic_producer-IsUnique topic pid p db u
Step-IsUnique db db' u (remove_producer topic pid id) =
    remove_topic_producer-IsUnique topic pid id db u
Step-IsUnique db db' u (remove_peer id) = remove_all_by_peer_id-IsUnique id db u
Step-IsUnique db db' u (add_peer id p) = (peers-IsUnique id db u).0 p
Step-IsUnique db db' u (add_tombstone nid p) = record { channels = u.channels; nodes = u.nodes }
Step-IsUnique db db' u (del_tombstone nid) = (peers-IsUnique nid db u).1

-- In every database that the operations lead to from the empty one, in any order, no channel
-- registration is there twice on a topic, and no topic has two producers with the same
-- partition and node.
pub Reachable-IsUniqueDb : (db : RegistrationDb) → Reachable new_registration_db db → IsUniqueDb db
unfolding get
Reachable-IsUniqueDb db here = record { channels = λ t. tt; nodes = λ t. Nodup-nil }
Reachable-IsUniqueDb db (next {g = g} {h = h} before step) =
    Step-IsUnique g h (Reachable-IsUniqueDb g before) step
