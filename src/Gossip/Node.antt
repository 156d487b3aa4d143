-- ===== src/Gossip/Node.antt =====
-- gossiper/gossiper.go and gossiper/DSDV.go: the state of a peer, where the packets that arrive go, and
-- the routines for rumors and for packets that are routed. A routine returns what it sends.
pub mod Safe
pub mod Relay
use peerster.Base.{
  Bool, Bytes, Bytes-discrete, List, Map, [], false, if◌then◌else◌, is_yes, map, none, some, true,
  ℕ, ◌&&◌, ◌∷◌,
}
use peerster.Dto.Packet.{
  GossipPacket, Outcome, RumorMessage, blockpublish_t, datareply_t, datarequest_t, deref,
  dhtmessage_t, diffiehellman_t, empty, encryptedhyperlinkmessage_t, get_underlying_type,
  hyperlinkmessage_t, is_chat_rumor, ok, private_t, rumor_t, searchreply_t, searchrequest_t,
  simple_t, status_t, txpublish_t, ◌>>=◌,
}
use peerster.Dto.Getters.{
  PacketAddressPair, get_contents, get_destination, get_origin, get_sender_address, get_seq_id,
}
use peerster.Dto.Hops.{decrement_hop_count}
use peerster.Dto.Counter.{SafeCounter, get_and_increment}
use peerster.Dto.Arrays.{SafeMessageArray, SafeStringArray, append_to_array, append_unique_to_array}
use peerster.Dto.Messages.{add_message as add_to_messages, SafeMessagesMap, get_own_status_packet}
use peerster.Dto.Quit.{QuitChanMap}
use peerster.Routing.{SafeRoutingTable, get_next_hop, update_entry}
use peerster.Gossip.Status.{string_array_difference}

-- The fields that gossip and routing use.
pub record Gossiper : Type 0 where
  pub address : Bytes
  pub name : Bytes
  pub use_simple : Bool
  pub peers : SafeStringArray
  pub seq_id_counter : SafeCounter
  pub status_chan_map : Map Bytes ℕ
  pub quit_chan_map : QuitChanMap
  pub msg_map : SafeMessagesMap
  pub latest_messages : SafeMessageArray
  pub origins : SafeStringArray
  pub routing_table : SafeRoutingTable

-- A packet and the address that it is sent to.
abbrev pub Send : Type 0
Send = GossipPacket × Bytes

abbrev pub no_packet : GossipPacket
no_packet = record {
  simple = none;
  rumor = none;
  status = none;
  private = none;
  data_request = none;
  data_reply = none;
  search_request = none;
  search_reply = none;
  tx_publish = none;
  block_publish = none;
  dht_message = none;
  hyperlink_message = none;
  encrypted_web_crawler_packet = none;
  diffie_hellman = none;
}

abbrev pub bytes_eq : Bytes → Bytes → Bool
bytes_eq a b = is_yes (Bytes-discrete a b)

-- Where `receiveExternalUDP` puts a packet that it has decoded.
pub data Channel : Type 0 where
  c_rumor c_status c_private c_data_request c_data_reply c_search_request : Channel
  c_search_reply c_file_naming c_blocks c_dht c_diffie crawl_queue decrypt_links ignored : Channel

abbrev pub unless_simple : Bool → Channel → Channel
unless_simple use_simple c = if use_simple then ignored else c

unfoldable pub receive_external : Bool → GossipPacket → Channel
unfolding get_underlying_type
receive_external use_simple packet = elim (get_underlying_type packet) [
  | status_t ↦ unless_simple use_simple c_status
  | rumor_t ↦ unless_simple use_simple c_rumor
  | private_t ↦ unless_simple use_simple c_private
  | simple_t ↦ if use_simple then c_rumor else ignored
  | datarequest_t ↦ unless_simple use_simple c_data_request
  | datareply_t ↦ unless_simple use_simple c_data_reply
  | searchrequest_t ↦ unless_simple use_simple c_search_request
  | searchreply_t ↦ unless_simple use_simple c_search_reply
  | txpublish_t ↦ unless_simple use_simple c_file_naming
  | blockpublish_t ↦ unless_simple use_simple c_blocks
  | dhtmessage_t ↦ unless_simple use_simple c_dht
  | hyperlinkmessage_t ↦ crawl_queue
  | encryptedhyperlinkmessage_t ↦ decrypt_links
  | diffiehellman_t ↦ unless_simple use_simple c_diffie
  | empty ↦ ignored
]

unfoldable pub add_to_peers : Bytes → Gossiper → Gossiper × Bool
add_to_peers peer_addr g =
    let (peers', is_new) = append_unique_to_array Bytes-discrete peer_addr g.peers in
    (record g { peers = peers' }, is_new)

unfoldable pub add_message : RumorMessage → Gossiper → Gossiper × Bool
unfolding is_chat_rumor
add_message rm g =
    let (msg_map', is_new) = add_to_messages rm g.msg_map in
    let latest =
      if is_new && is_chat_rumor rm
      then append_to_array rm g.latest_messages
      else g.latest_messages in
    (record g { msg_map = msg_map'; latest_messages = latest }, is_new)

unfoldable pub send_all_peers : GossipPacket → Bytes → Gossiper → List Send
send_all_peers packet exception g =
    map (λ v. (packet, v)) (string_array_difference g.peers.array (exception ∷ []))

unfoldable pub send_status_packet : Bytes → Gossiper → Send
send_status_packet peer_address g =
    (record no_packet { status = some (get_own_status_packet g.msg_map) }, peer_address)

-- A simple message in simple mode; otherwise a rumor, with a new number if a client sent it.
unfoldable pub make_gossip : GossipPacket → Bool → Gossiper → Outcome (Gossiper × GossipPacket)
make_gossip received is_from_client g =
    if g.use_simple
    then (do
      origin ← get_origin received
      contents ← get_contents received
      ok (
        g,
        record no_packet {
          simple =
              some (record {
                original_name = origin;
                relay_peer_addr = g.address;
                contents = contents;
              });
        },
      ))
    else (do
      origin ← get_origin received
      text ← get_contents received
      (g', id) ←
          if is_from_client
          then (let (counter', id) = get_and_increment g.seq_id_counter in
              ok (record g { seq_id_counter = counter' }, id))
          else (do id ← get_seq_id received; ok (g, id))
      ok (g', record no_packet { rumor = some (record { origin = origin; id = id; text = text }) }))

-- gossiper/DSDV.go
unfoldable pub update_dsdv : PacketAddressPair → Gossiper → Outcome Gossiper
update_dsdv pap g = do
  origin ← get_origin pap.packet
  if bytes_eq origin g.name then ok g else (do
    id ← get_seq_id pap.packet
    sender ← get_sender_address pap
    ok (record g {
      routing_table = (update_entry id origin sender g.routing_table).0;
      origins = (append_unique_to_array Bytes-discrete origin g.origins).0;
    }))

-- The packet with a hop less, and what is sent of it.
unfoldable pub forward : GossipPacket → Gossiper → Outcome (GossipPacket × List Send)
forward packet g = do
  (packet', should_send) ← decrement_hop_count packet
  if should_send
      then (do
        destination ← get_destination packet'
        ok (
          packet',
          elim (get_next_hop destination g.routing_table) [
            | none ↦ []
            | some next_hop ↦ (packet', next_hop) ∷ []
          ],
        ))
      else ok (packet', [])

unfoldable pub make_route_rumor_packet : Gossiper → Gossiper × GossipPacket
make_route_rumor_packet g =
    let (counter', id) = get_and_increment g.seq_id_counter in
    (
      record g { seq_id_counter = counter' },
      record no_packet { rumor = some (record { origin = g.name; id = id; text = [] }) },
    )

-- What one round of a listening routine does.
pub record Round : Type 0 where
  pub after : Gossiper
  pub sends : List Send
  pub monger : List Send

-- `rumorListenRoutine`: `monger` holds the packet for which `rumorMonger` is started, with the sender
-- that it leaves out.
unfoldable pub rumor_listen : PacketAddressPair → Gossiper → Outcome Round
rumor_listen pap g = do
  sender ← get_sender_address pap
  let g1 = (add_to_peers sender g).0
  (g2, packet) ← make_gossip pap.packet false g1
  if g.use_simple
      then ok (record { after = g2; sends = send_all_peers packet sender g2; monger = [] })
      else (do
        g3 ← update_dsdv pap g2
        rumor ← deref packet.rumor (λ m. m)
        let r = add_message rumor g3
        ok (record {
          after = r.0;
          sends = send_status_packet sender r.0 ∷ [];
          monger = if r.1 then (packet, sender) ∷ [] else [];
        }))

-- `clientListenRoutine`
unfoldable pub client_listen : PacketAddressPair → Gossiper → Outcome Round
client_listen pap g = do
  (g1, packet) ← make_gossip pap.packet true g
  if g.use_simple
      then ok (record { after = g1; sends = send_all_peers packet [] g1; monger = [] })
      else (do
        rumor ← deref packet.rumor (λ m. m)
        let r = add_message rumor g1
        ok (record { after = r.0; sends = []; monger = (packet, []) ∷ [] }))

-- `privateMessageListenRoutine`
unfoldable pub private_message_listen : PacketAddressPair → Gossiper → Outcome Round
private_message_listen pap g = do
  sender ← get_sender_address pap
  let g1 = (add_to_peers sender g).0
  destination ← get_destination pap.packet
  if bytes_eq destination g.name
      then (do
        pm ← deref pap.packet.private (λ m. m)
        ok (record {
          after = record g1 {
            latest_messages =
                append_to_array (record { origin = pm.origin; id = 0; text = pm.text })
                  g1.latest_messages;
          };
          sends = [];
          monger = [];
        }))
      else (do
        (_, sends) ← forward pap.packet g1
        ok (record { after = g1; sends = sends; monger = [] }))
