-- ===== src/Registration/Peers.antt =====
-- The nodes: who is known, who is active, and who was taken out by a tombstone. The time is an
-- argument.
use Prim.Native.String.{String}
use nsq.Base.{
  ℕ, ◌+◌, Bool, true, false, ◌&&◌, not, Option, none, some, List, [], ◌∷◌, map, ltb, ◌==◌,
  if◌then◌else◌,
}
use nsq.Base.Dict.{same, get, put, delete, values}
use nsq.Base.Members.{filter}
use nsq.Registration.{PeerInfo, Producer, TopicProducerReg, RegistrationDb}
use nsq.Registration.Producers.{codes}

abbrev pub is_some : {A : Type 0} → Option A → Bool
is_some none = false
is_some (some a) = true

-- addPeerClient
unfoldable pub add_peer_client : String → PeerInfo → RegistrationDb → RegistrationDb × Bool
add_peer_client id p db =
    if is_some (get id db.registration_node_map)
    then (db, false)
    else (record db { registration_node_map = put id p db.registration_node_map }, true)

-- SearchPeerClientByID
unfoldable pub search_peer_client_by_id : String → RegistrationDb → Option PeerInfo
search_peer_client_by_id id db = get id db.registration_node_map

unfoldable pub first_with : String → List PeerInfo → Option PeerInfo
first_with id [] = none
first_with id (n ∷ ns) =
    let rest = first_with id ns in if same n.distributed_id id then some n else rest

-- SearchPeerClientByClusterID
unfoldable pub search_peer_client_by_cluster_id : String → RegistrationDb → Option PeerInfo
search_peer_client_by_cluster_id id db = first_with id (values db.registration_node_map)

-- GetAllPeerClients
abbrev pub get_all_peer_clients : RegistrationDb → List PeerInfo
get_all_peer_clients db = values db.registration_node_map

-- TombstoneLookupdNode
abbrev pub tombstone_lookupd_node : String → PeerInfo → RegistrationDb → RegistrationDb
tombstone_lookupd_node nid pinfo db = record db {
  tombstone_lookupd_nodes = put nid pinfo db.tombstone_lookupd_nodes;
}

-- IsTombstoneLookupdNode
abbrev pub is_tombstone_lookupd_node : String → RegistrationDb → Bool
is_tombstone_lookupd_node nid db = is_some (get nid db.tombstone_lookupd_nodes)

-- DelTombstoneLookupdNode
unfoldable pub del_tombstone_lookupd_node : String → RegistrationDb → RegistrationDb × Bool
del_tombstone_lookupd_node nid db =
    if is_some (get nid db.tombstone_lookupd_nodes)
    then (record db { tombstone_lookupd_nodes = delete nid db.tombstone_lookupd_nodes }, true)
    else (db, false)

-- strings.Contains, on the characters.
abbrev pub has_prefix : List ℕ → List ℕ → Bool
has_prefix s [] = true
has_prefix [] (c ∷ cs) = false
has_prefix (b ∷ s) (c ∷ cs) = let rest = has_prefix s cs in if b == c then rest else false

abbrev pub contains : List ℕ → List ℕ → Bool
contains [] cs = has_prefix [] cs
contains (b ∷ s) cs = let rest = contains s cs in if has_prefix (b ∷ s) cs then true else rest

-- IsOldPeer
unfoldable pub is_old_peer : PeerInfo → Bool
is_old_peer p =
    if same p.distributed_id "" && not (contains (codes p.version) (codes "HA"))
    then true
    else false

-- Tombstone
abbrev pub tombstone : ℕ → Producer → Producer
tombstone now p = record p { tombstoned = true; tombstoned_at = now }

-- UndoTombstone
abbrev pub undo_tombstone : Producer → Producer
undo_tombstone p = record p { tombstoned = false }

-- IsTombstoned
unfoldable pub is_tombstoned : Producer → Bool
is_tombstoned p = if is_old_peer p.peer_info then true else p.tombstoned

-- `now.Sub(cur) > inactivityTimeout`
abbrev pub is_inactive : ℕ → ℕ → PeerInfo → Bool
is_inactive now inactivity_timeout p = ltb (p.last_update + inactivity_timeout) now

abbrev pub is_kept : ℕ → ℕ → Bool → Producer → Bool
is_kept now inactivity_timeout filter_tomb p =
    if is_inactive now inactivity_timeout p.peer_info
    then false
    else if filter_tomb && is_tombstoned p
    then false
    else true

-- TopicRegistrations.FilterByActive
unfoldable pub active_registrations : ℕ → ℕ → Bool → List TopicProducerReg → List TopicProducerReg
active_registrations now inactivity_timeout filter_tomb pp =
    filter (λ (p : TopicProducerReg). is_kept now inactivity_timeout filter_tomb p.producer_node) pp

-- PeerInfoList.FilterByActive
unfoldable pub active_peers : ℕ → ℕ → List PeerInfo → List PeerInfo
active_peers now inactivity_timeout pp = filter (λ p. not (is_inactive now inactivity_timeout p)) pp

-- Producers.FilterByActive
unfoldable pub active_producers : ℕ → ℕ → Bool → List Producer → List Producer
active_producers now inactivity_timeout filter_tomb pp =
    filter (is_kept now inactivity_timeout filter_tomb) pp

-- Producers.PeerInfo
abbrev pub peer_infos : List Producer → List PeerInfo
peer_infos pp = map (λ (p : Producer). p.peer_info) pp
