-- ===== src/Tests/Gossip.antt =====
-- Cases for gossip and routing.
use peerster.Base.{
  All, Bytes, Bytes-discrete, List, [], arith, false, load, load_or_store, none, refl, some, store,
  true, ℕ, ℕ_discrete, ◌<◌, ◌∷◌, ◌≡◌, ◌⊎◌,
}
use peerster.Dto.Packet.{GossipPacket, PeerStatus, RumorMessage, get_underlying_type, ok}
use peerster.Dto.Getters.{PacketAddressPair, get_hop_limit}
use peerster.Dto.Counter.{new_safe_counter}
use peerster.Dto.Arrays.{mark_all, new_safe_string_array, new_unique_array}
use peerster.Dto.Arrays.Unique.{contains}
use peerster.Dto.Messages.{add_messages, get_own_status_packet, new_safe_messages_map}
use peerster.Dto.Quit.{new_quit_chan_map}
use peerster.Routing.{SafeRoutingTable, get_next_hop, new_safe_routing_table, update, update_entry}
use peerster.Routing.Latest.{Heard, hear, newest, next_hop-newest}
use peerster.Gossip.Status.{
  difference_keys, difference_loop, fill_set, fill_want_map, peer_status_difference,
  string_array_difference, want_map,
}
use peerster.Gossip.Status.Sync.{in_sync-same}
use peerster.Gossip.Status.Offers.{CanSend, offers-CanSend}
use peerster.Gossip.Node.{Gossiper, no_packet}
use peerster.Gossip.Node.Relay.{relay, relay_bound}
use peerster.Gossip.Monger.{Draw, exceptions_of, monger_loop, pick_random_peer, rumor_monger}
use peerster.Gossip.Monger.Picks.{Alternates, rumor_monger-Alternates}

abbrev alice : Bytes
alice = b'A' ∷ []

abbrev bob : Bytes
bob = b'B' ∷ []

abbrev carol : Bytes
carol = b'C' ∷ []

abbrev rumor_of : Bytes → ℕ → RumorMessage
rumor_of origin id = record { origin = origin; id = id; text = b'h' ∷ [] }

-- Two messages of Bob, the newer one first and over Carol.
abbrev heard : List Heard
heard =
    record { seq_id = 2; origin = bob; sender = carol }
    ∷ record { seq_id = 1; origin = bob; sender = bob }
    ∷ []

abbrev table : SafeRoutingTable
table = hear heard new_safe_routing_table

next_hop-newest_example :
    get_next_hop bob table ≡ elim (newest bob heard none) [ none ↦ none | some e ↦ some e.address ]
next_hop-newest_example = next_hop-newest heard bob

over_carol : get_next_hop bob table ≡ some carol
unfolding get_next_hop hear update_entry update load_or_store store load Bytes-discrete ℕ_discrete
over_carol = refl

abbrev peer : Gossiper
peer = record {
  address = b'a' ∷ [];
  name = alice;
  use_simple = false;
  peers = new_safe_string_array (bob ∷ carol ∷ []);
  seq_id_counter = new_safe_counter;
  status_chan_map = [];
  quit_chan_map = new_quit_chan_map;
  msg_map = new_safe_messages_map;
  latest_messages = record { array = [] };
  origins = new_safe_string_array [];
  routing_table = table;
}

abbrev private_packet : ℕ → GossipPacket
private_packet h = record no_packet {
  private = some (record { origin = alice; id = 0; text = []; destination = bob; hop_limit = h });
}

relay_bound_example :
    (n : ℕ) × (relay (peer ∷ peer ∷ peer ∷ peer ∷ []) (private_packet 3) ≡ ok n) × (n < 3)
unfolding get_underlying_type get_hop_limit
relay_bound_example =
    relay_bound 3 (peer ∷ peer ∷ peer ∷ peer ∷ []) (private_packet 3) tt refl (omega arith)
      (omega arith)

abbrev rumor_pair : PacketAddressPair
rumor_pair = record {
  packet = record no_packet { rumor = some (rumor_of bob 1) };
  sender_address = carol;
}

abbrev know_two : List PeerStatus
know_two =
    record { identifier = alice; next_id = 3 } ∷ record { identifier = bob; next_id = 2 } ∷ []

abbrev know_turned : List PeerStatus
know_turned =
    record { identifier = bob; next_id = 2 } ∷ record { identifier = alice; next_id = 3 } ∷ []

in_sync-same_example :
    load Bytes-discrete alice (want_map know_two) ≡ load Bytes-discrete alice (want_map know_turned)
unfolding peer_status_difference difference_loop fill_want_map load store Bytes-discrete ℕ_discrete
in_sync-same_example = in_sync-same know_two know_turned alice refl refl

offers-CanSend_example :
    let scm = add_messages (rumor_of alice 1 ∷ []) new_safe_messages_map in
    All (CanSend scm) (peer_status_difference (get_own_status_packet scm).want [])
offers-CanSend_example = offers-CanSend (rumor_of alice 1 ∷ []) [] (omega arith) (omega arith, tt)

abbrev draws : List Draw
draws = record { coin = 0; seen = peer; pick = 0 } ∷ record { coin = 1; seen = peer; pick = 0 } ∷ []

rumor_monger-Alternates_example :
    let tried = rumor_monger bob 0 draws peer in
    Alternates tried
    × ((tried ≡ [])
        ⊎ ((first : Bytes) × (rest : List Bytes) × (tried ≡ first ∷ rest)
            × (contains Bytes-discrete first peer.peers.array ≡ true)
            × (contains Bytes-discrete first (exceptions_of bob) ≡ false)))
rumor_monger-Alternates_example = rumor_monger-Alternates bob 0 draws peer

carol_then_bob : rumor_monger bob 0 draws peer ≡ carol ∷ bob ∷ []
unfolding rumor_monger monger_loop pick_random_peer string_array_difference difference_keys fill_set
    load store Bytes-discrete ℕ_discrete new_unique_array mark_all
carol_then_bob = refl
