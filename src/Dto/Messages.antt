-- ===== src/Dto/Messages.antt =====
-- dto/SafeMessagesMap.go: the rumors that a peer knows, by origin and sequence number.
pub mod Contiguous
pub mod Status
use peerster.Base.{
  Bool, Bytes, Bytes-discrete, List, Map, Option, [], false, if◌then◌else◌, load, load_or_store,
  ltb, map, not, present, store, ℕ, ℕ_discrete, ◌%◌, ◌+◌, ◌==◌, ◌∷◌,
}
use peerster.Dto.Packet.{PeerStatus, RumorMessage, StatusPacket}
use peerster.Dto.Hops.{dec32, u32_mod}

-- The inner maps are reached through pointers; the model stores the changed map back.
abbrev pub MessageMap : Type 0
MessageMap = Map ℕ RumorMessage

pub record SafeMessagesMap : Type 0 where
  pub origins_map : Map Bytes MessageMap

abbrev pub new_safe_messages_map : SafeMessagesMap
new_safe_messages_map = record { origins_map = [] }

-- The message is stored if its number is 1 or the one before it is there.
unfoldable pub add_to_origin : RumorMessage → MessageMap → MessageMap × Bool
add_to_origin msg pm =
    let (_, loaded, pm') = load_or_store ℕ_discrete msg.id msg pm in
    if msg.id == 1
    then (pm', not loaded)
    else if present ℕ_discrete (dec32 msg.id) pm
    then (pm', not loaded)
    else (pm, false)

unfoldable pub add_message : RumorMessage → SafeMessagesMap → SafeMessagesMap × Bool
unfolding add_to_origin
add_message msg scm =
    let (pm, _, m) = load_or_store Bytes-discrete msg.origin [] scm.origins_map in
    let (pm', is_new) = add_to_origin msg pm in
    (record { origins_map = store Bytes-discrete msg.origin pm' m }, is_new)

-- The call leaves an empty map for an origin that it has not met.
unfoldable pub get_message : Bytes → ℕ → SafeMessagesMap → SafeMessagesMap × Option RumorMessage
get_message origin message_id scm =
    let (pm, _, m) = load_or_store Bytes-discrete origin [] scm.origins_map in
    (record { origins_map = m }, load ℕ_discrete message_id pm)

-- The range over one origin's messages.
unfoldable pub max_id : ℕ → MessageMap → ℕ
max_id max [] = max
max_id max ((id, rm) ∷ pm) = max_id (if ltb max id then id else max) pm

abbrev pub origin_status : Bytes × MessageMap → PeerStatus
origin_status (origin, pm) = record { identifier = origin; next_id = (max_id 0 pm + 1) % u32_mod }

unfoldable pub get_own_status_packet : SafeMessagesMap → StatusPacket
get_own_status_packet scm = record { want = map origin_status scm.origins_map }

-- A run of the routine that receives messages.
unfoldable pub add_messages : List RumorMessage → SafeMessagesMap → SafeMessagesMap
add_messages [] scm = scm
add_messages (msg ∷ msgs) scm = add_messages msgs (add_message msg scm).0
