-- ===== src/Registration/Channels.antt =====
-- The registrations of channels.
pub mod Correct
pub mod Names
use Prim.Native.String.{String}
use nsq.Base.{
  ℕ, Bool, true, false, ◌&&◌, not, Option, none, some, List, [], ◌∷◌, ◌++◌, if◌then◌else◌,
}
use nsq.Base.Dict.{Dict, same, get, put, delete, map_values}
use nsq.Base.Members.{filter, exists}
use nsq.Registration.{ChannelReg, RegistrationDb, or_empty, is_empty, is_match, same_reg}

-- AddChannelReg
unfoldable pub add_channel_reg : String → ChannelReg → RegistrationDb → RegistrationDb × Bool
add_channel_reg topic k db =
    let channels = or_empty (get topic db.registration_channel_map) in
    if exists (λ ch. same_reg ch k) channels then (db, false) else (
      record db {
        registration_channel_map = put topic (channels ++ (k ∷ [])) db.registration_channel_map;
      },
      true,
    )

-- FindChannelRegs
unfoldable pub find_channel_regs : String → String → RegistrationDb → List ChannelReg
find_channel_regs topic pid db =
    filter (λ ch. is_match ch pid "*" "*") (or_empty (get topic db.registration_channel_map))

-- The registrations of a topic become those that are left.
abbrev pub put_or_delete : {A : Type 0} → String → List A → Dict (List A) → Dict (List A)
put_or_delete topic left m = if is_empty left then delete topic m else put topic left m

-- RemoveChannelReg
unfoldable pub remove_channel_reg : String → ChannelReg → RegistrationDb → RegistrationDb × Bool
remove_channel_reg topic k db =
    let channels = or_empty (get topic db.registration_channel_map) in
    let matches = λ (ch : ChannelReg). is_match ch k.partition_id k.peer_id k.channel in
    let cleaned = filter (λ ch. not (matches ch)) channels in
    if exists matches channels
    then (
      record db {
        registration_channel_map = put_or_delete topic cleaned db.registration_channel_map;
      },
      true,
    )
    else (db, false)

-- The loop of RemoveAllByPeerId over the channels.
abbrev pub without_peer : String → List ChannelReg → List ChannelReg
without_peer id regs =
    if exists (λ (reg : ChannelReg). same reg.peer_id id) regs
    then filter (λ (reg : ChannelReg). not (same reg.peer_id id)) regs
    else regs

unfoldable pub remove_channels_of : String → Dict (List ChannelReg) → Dict (List ChannelReg)
remove_channels_of id m = map_values (without_peer id) m

-- Channels: the names of the channels, each once. `dup_check` holds those that were met.
unfoldable pub channels_loop : List String → List ChannelReg → List String
channels_loop dup_check [] = []
channels_loop dup_check (k ∷ rr) =
    let again = channels_loop dup_check rr in
    let fresh = k.channel ∷ channels_loop (k.channel ∷ dup_check) rr in
    if exists (same k.channel) dup_check then again else fresh

unfoldable pub channels : List ChannelReg → List String
channels rr = channels_loop [] rr
