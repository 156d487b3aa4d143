-- ===== src/Routing.antt =====
-- Package routing: the next hop to every origin.
pub mod Latest
use peerster.Base.{
  Bool, Bytes, Bytes-discrete, Map, Option, [], false, if◌then◌else◌, load, load_or_store, ltb,
  none, some, store, true, ℕ,
}
use peerster.Dto.Counter.{SafeCounter, get_and_increment}
use peerster.Dto.Packet.{RumorMessage}

pub record SafeRoutingTableEntry : Type 0 where
  pub seq_num : ℕ
  pub address : Bytes

-- The entry is changed in place under its mutex, if the number is newer.
unfoldable pub update : ℕ → Bytes → SafeRoutingTableEntry → SafeRoutingTableEntry × Bool
update seq_num address srte =
    if ltb srte.seq_num seq_num
    then (record { seq_num = seq_num; address = address }, true)
    else (srte, false)

pub record SafeRoutingTable : Type 0 where
  pub origins_map : Map Bytes SafeRoutingTableEntry

abbrev pub new_safe_routing_table : SafeRoutingTable
new_safe_routing_table = record { origins_map = [] }

unfoldable pub update_entry : ℕ → Bytes → Bytes → SafeRoutingTable → SafeRoutingTable × Bool
unfolding update
update_entry seq_id origin address_sender srt =
    let fresh : SafeRoutingTableEntry = record { seq_num = seq_id; address = address_sender } in
    let (srte, loaded, m) = load_or_store Bytes-discrete origin fresh srt.origins_map in
    if loaded
    then (let (srte', updated) = update seq_id address_sender srte in
        (record { origins_map = store Bytes-discrete origin srte' m }, updated))
    else (record { origins_map = m }, true)

unfoldable pub get_next_hop : Bytes → SafeRoutingTable → Option Bytes
get_next_hop origin srt = elim (load Bytes-discrete origin srt.origins_map) [
  | none ↦ none
  | some srte ↦ some srte.address
]

-- routing/helpers.go
unfoldable pub make_routing_gossip : Bytes → SafeCounter → SafeCounter × RumorMessage
unfolding get_and_increment
make_routing_gossip origin seq_id_counter =
    let (counter', id) = get_and_increment seq_id_counter in
    (counter', record { origin = origin; id = id; text = [] })
