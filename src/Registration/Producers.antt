-- ===== src/Registration/Producers.antt =====
-- The registrations of topics on their producers.
pub mod Correct
use Prim.Native.Char.{code}
use Prim.Native.String.{String}
use nsq.Base.{
  ℕ, ◌+◌, ◌-◌, ◌*◌, ◌^◌, Bool, true, false, ◌&&◌, ◌||◌, not, Option, none, some, List, [], ◌∷◌,
  ◌++◌, ltb, leb, ◌==◌, if◌then◌else◌,
}
use nsq.Base.Dict.{Dict, same, get, put, delete, map_values, keys}
use nsq.Base.Members.{filter, exists}
use nsq.Registration.{TopicProducerReg, PeerInfo, Producer, RegistrationDb, or_empty, is_empty}
use nsq.Registration.Channels.{put_or_delete, remove_channels_of}

-- The characters of a text.
abbrev pub codes : String → List ℕ
codes String.[] = []
codes (String.◌∷◌ c s) = code c ∷ codes s

-- strconv.Atoi: a sign and a magnitude, or no value for an error of syntax or range.
unfoldable pub digits : ℕ → List ℕ → Option ℕ
digits n [] = some n
digits n (c ∷ cs) =
    let rest = digits (n * 10 + (c - b'0')) cs in if leb b'0' c && leb c b'9' then rest else none

abbrev pub in_range : Bool → Option ℕ → Option (Bool × ℕ)
in_range negative none = none
in_range negative (some n) =
    if ltb n (2 ^ 63) || (negative && n == 2 ^ 63) then some (negative, n) else none

abbrev pub after_sign : Bool → List ℕ → Option (Bool × ℕ)
after_sign negative [] = none
after_sign negative (c ∷ cs) = in_range negative (digits 0 (c ∷ cs))

unfoldable pub atoi : List ℕ → Option (Bool × ℕ)
atoi [] = none
atoi (c ∷ cs) =
    if c == b'-'
    then after_sign true cs
    else if c == b'+'
    then after_sign false cs
    else after_sign false (c ∷ cs)

-- The partitions that AddTopicProducer takes: a number that is not negative, or OLD_VERSION_PID, -11.
abbrev pub is_pid : Option (Bool × ℕ) → Bool
is_pid none = false
is_pid (some (negative, n)) = not negative || (n == 0 || n == 11)

abbrev pub is_reg : String → String → TopicProducerReg → Bool
is_reg pid id reg = same reg.partition_id pid && same reg.producer_node.peer_info.id id

-- AddTopicProducer
unfoldable pub add_topic_producer :
    String → String → Producer → RegistrationDb → RegistrationDb × Bool
add_topic_producer topic pid p db =
    let producers = or_empty (get topic db.registration_topic_map) in
    let reg : TopicProducerReg = record { partition_id = pid; producer_node = p } in
    if same pid "" || not (is_pid (atoi (codes pid)))
    then (db, false)
    else if exists (is_reg pid p.peer_info.id) producers
    then (db, false)
    else (
      record db {
        registration_topic_map = put topic (producers ++ (reg ∷ [])) db.registration_topic_map;
      },
      true,
    )

-- `producers[idx] = producers[len-1]; producers = producers[:len-1]`, at the first that passes.
module _ {A : Type 0} where
  abbrev pub last_of : A → List A → A
  last_of d [] = d
  last_of d (x ∷ xs) = last_of x xs

  abbrev pub but_last : List A → List A
  but_last [] = []
  but_last (x ∷ []) = []
  but_last (x ∷ y ∷ xs) = x ∷ but_last (y ∷ xs)

  -- The first that passes is overwritten.
  abbrev pub overwrite : (A → Bool) → A → List A → List A
  overwrite p v [] = []
  overwrite p v (x ∷ xs) = let rest = overwrite p v xs in if p x then v ∷ xs else x ∷ rest

  abbrev pub swap_out : (A → Bool) → List A → List A
  swap_out p [] = []
  swap_out p (x ∷ xs) = but_last (overwrite p (last_of x xs) (x ∷ xs))

-- RemoveTopicProducer
unfoldable pub remove_topic_producer :
    String → String → String → RegistrationDb → RegistrationDb × Bool
remove_topic_producer topic pid id db =
    let producers = or_empty (get topic db.registration_topic_map) in
    if exists (is_reg pid id) producers
    then (
      record db {
        registration_topic_map =
            put_or_delete topic (swap_out (is_reg pid id) producers) db.registration_topic_map;
      },
      true,
    )
    else (db, false)

abbrev pub of_peer : String → TopicProducerReg → Bool
of_peer id reg = same reg.producer_node.peer_info.id id

-- The loop of RemoveAllByPeerId over the topics. A topic keeps its key when nothing is left.
abbrev pub without_producer : String → List TopicProducerReg → List TopicProducerReg
without_producer id regs =
    if exists (of_peer id) regs then filter (λ reg. not (of_peer id reg)) regs else regs

-- RemoveAllByPeerId
unfoldable pub remove_all_by_peer_id : String → RegistrationDb → RegistrationDb
remove_all_by_peer_id id db = record db {
  registration_topic_map = map_values (without_producer id) db.registration_topic_map;
  registration_channel_map = remove_channels_of id db.registration_channel_map;
  registration_node_map = delete id db.registration_node_map;
}

-- FindTopics
abbrev pub find_topics : RegistrationDb → List String
find_topics db = keys db.registration_topic_map

-- FindPeerTopics: a topic with no registration of the node is left out.
unfoldable pub find_peer_topics :
    String → Dict (List TopicProducerReg) → Dict (List TopicProducerReg)
find_peer_topics id [] = []
find_peer_topics id ((k, regs) ∷ m) =
    let ret = filter (of_peer id) regs in
    let rest = find_peer_topics id m in if is_empty ret then rest else (k, ret) ∷ rest

-- FindTopicProducers
unfoldable pub find_topic_producers : String → String → RegistrationDb → List TopicProducerReg
find_topic_producers topic pid db =
    filter (λ (reg : TopicProducerReg). same pid "*" || same pid reg.partition_id)
      (or_empty (get topic db.registration_topic_map))
