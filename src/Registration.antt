-- ===== src/Registration.antt =====
-- nsqlookupd/registration_db.go: what nsqlookupd knows of the nodes, and of the topics and channels on
-- them. A string is a native text, a Go map an association list (Base.Dict). A peer and a producer are
-- values here: but for the two tombstone methods the file writes through no pointer to them. That a
-- registered producer has a peer (`peerInfo` is not nil) holds of every caller in nsqlookupd/.
pub mod Channels
pub mod Producers
pub mod Peers
pub mod Unique
pub mod Reach
mod Tests
use Prim.Native.String.{String}
use nsq.Base.{
  ℕ, Bool, true, false, ◌&&◌, ◌||◌, not, Option, none, some, List, [], ◌∷◌, if◌then◌else◌,
}
use nsq.Base.Dict.{Dict, same}

pub record ChannelReg : Type 0 where
  pub partition_id : String
  pub peer_id : String
  pub channel : String

pub record PeerInfo : Type 0 where
  pub last_update : ℕ  -- nanoseconds
  pub id : String
  pub remote_address : String
  pub hostname : String
  pub broadcast_address : String
  pub tcp_port : ℕ
  pub http_port : ℕ
  pub version : String
  pub distributed_id : String

pub record Producer : Type 0 where
  pub peer_info : PeerInfo
  pub tombstoned : Bool
  pub tombstoned_at : ℕ

pub record TopicProducerReg : Type 0 where
  pub partition_id : String
  pub producer_node : Producer

pub record RegistrationDb : Type 0 where
  pub registration_channel_map : Dict (List ChannelReg)
  pub registration_topic_map : Dict (List TopicProducerReg)
  pub registration_node_map : Dict PeerInfo
  pub tombstone_lookupd_nodes : Dict PeerInfo

-- NewRegistrationDB
abbrev pub new_registration_db : RegistrationDb
new_registration_db = record {
  registration_channel_map = [];
  registration_topic_map = [];
  registration_node_map = [];
  tombstone_lookupd_nodes = [];
}

-- A key that is missing has the empty slice.
abbrev pub or_empty : {A : Type 0} → Option (List A) → List A
or_empty none = []
or_empty (some xs) = xs

abbrev pub is_empty : {A : Type 0} → List A → Bool
is_empty [] = true
is_empty (x ∷ xs) = false

-- IsMatch
unfoldable pub is_match : ChannelReg → String → String → String → Bool
is_match k pid peer_id ch =
    if not (same pid "*") && not (same k.partition_id pid)
    then false
    else if not (same peer_id "*") && not (same k.peer_id peer_id)
    then false
    else if not (same ch "*") && not (same k.channel ch)
    then false
    else true

-- `ch == k` on two registrations.
unfoldable pub same_reg : ChannelReg → ChannelReg → Bool
same_reg a b =
    same a.partition_id b.partition_id && (same a.peer_id b.peer_id && same a.channel b.channel)
