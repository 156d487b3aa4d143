-- ===== src/Tests/Sharing.antt =====
-- Cases for the sharing of files and for searches.
use peerster.Base.{
  All, Bytes, Bytes-discrete, List, [], arith, delete, false, length, load, refl, some, suc, zero,
  ℕ, ℕ_discrete, ◌-◌, ◌<◌, ◌∷◌, ◌≡◌, ◌≤◌,
}
use peerster.Dto.Packet.{GossipPacket, SearchRequest, TxPublish, get_underlying_type, ok}
use peerster.Dto.Getters.{
  PacketAddressPair, get_data, get_destination, get_hash_value, get_hop_limit, get_origin,
  get_sender_address,
}
use peerster.Dto.Counter.{new_safe_counter}
use peerster.Dto.Arrays.{new_safe_string_array}
use peerster.Dto.Messages.{new_safe_messages_map}
use peerster.Dto.Quit.{new_quit_chan_map}
use peerster.Routing.{new_safe_routing_table, update_entry}
use peerster.Gossip.Node.{Gossiper, Send, add_to_peers, no_packet}
use peerster.Files.Parsing.{convert_to_hash32, create_chunks_map, verify_data_hash}
use peerster.Files.Parsing.Roundtrip.{IsSha256, IsVerified}
use peerster.Files.Entries.{inform_listener}
use peerster.Files.Sharing.{
  FileRound, Sharer, client_file_share, data_reply_listen, make_data_request, retransmit,
}
use peerster.Files.Sharing.Answers.{Answers, client_file_share-Answers}
use peerster.Files.Sharing.Retries.{retransmit-hop_limit}
use peerster.Files.Sharing.Delivered.{data_reply_listen-IsVerified}
use peerster.Search.Requests.Flood.{flood, flood_bound}

abbrev alice : Bytes
alice = b'A' ∷ []

abbrev bob : Bytes
bob = b'B' ∷ []

abbrev carol : Bytes
carol = b'C' ∷ []

abbrev peer : Gossiper
peer = record {
  address = b'a' ∷ [];
  name = alice;
  use_simple = false;
  peers = new_safe_string_array (bob ∷ carol ∷ []);
  seq_id_counter = new_safe_counter;
  status_chan_map = [];
  quit_chan_map = new_quit_chan_map;
  msg_map = new_safe_messages_map;
  latest_messages = record { array = [] };
  origins = new_safe_string_array [];
  routing_table = (update_entry 1 bob carol new_safe_routing_table).0;
}

-- A stand-in for the hash: 32 times the first byte.
unfoldable repeat : ℕ → ℕ → Bytes
repeat zero b = []
repeat (suc n) b = b ∷ repeat n b

abbrev first_byte : Bytes → ℕ
first_byte [] = 0
first_byte (b ∷ bs) = b

abbrev hash : Bytes → Bytes
hash bs = repeat 32 (first_byte bs)

hash-IsSha256 : IsSha256 hash
unfolding repeat
hash-IsSha256 bs = refl

-- One download waits for a chunk that starts with 7.
abbrev sharer : Sharer
sharer = record {
  gossip = peer;
  file_map = [];
  chunk_map = [];
  dl_files_set = [];
  dl_chunk_listeners = (repeat 32 7, 100) ∷ [];
}

abbrev chunks : List Bytes
chunks = (1 ∷ 2 ∷ []) ∷ (3 ∷ []) ∷ []

client_file_share-Answers_example :
    (s' : Sharer) × (tx : TxPublish) × (client_file_share hash (b'f' ∷ []) (some (chunks, 3)) sharer
      ≡ some (s', tx))
    × All (IsVerified hash) s'.chunk_map
    × All (Answers hash bob s') ((create_chunks_map hash chunks).1 ∷ chunks)
client_file_share-Answers_example =
    client_file_share-Answers hash hash-IsSha256 (b'f' ∷ []) bob chunks 3 sharer tt

abbrev chunk_request : GossipPacket
chunk_request = record no_packet {
  data_request = some (make_data_request bob (repeat 32 7) sharer);
}

retransmit-hop_limit_example :
    (p : GossipPacket) × (sends : List Send) × (retransmit (peer ∷ peer ∷ []) chunk_request
      ≡ ok (p, sends))
    × (get_hop_limit p ≡ ok (10 - length (peer ∷ peer ∷ [])))
    × (length sends ≤ 10 - 1)
unfolding get_underlying_type get_hop_limit make_data_request
retransmit-hop_limit_example =
    retransmit-hop_limit 10 (peer ∷ peer ∷ []) chunk_request tt refl (omega arith) (omega arith)

abbrev reply_pair : PacketAddressPair
reply_pair = record {
  packet = record no_packet {
    data_reply = some (record {
      origin = bob;
      destination = alice;
      hop_limit = 3;
      hash_value = repeat 32 7;
      data_bytes = 7 ∷ 8 ∷ [];
    });
  };
  sender_address = carol;
}

abbrev told_round : FileRound
told_round = record {
  after = record sharer { gossip = (add_to_peers carol peer).0; dl_chunk_listeners = [] };
  sends = [];
  told = some (100, 7 ∷ 8 ∷ []);
}

reply_told : data_reply_listen hash reply_pair sharer ≡ ok told_round
unfolding data_reply_listen get_sender_address get_origin get_hash_value get_destination get_data
    get_underlying_type verify_data_hash convert_to_hash32 inform_listener load delete repeat
    Bytes-discrete ℕ_discrete
reply_told = refl

data_reply_listen-IsVerified_example :
    (checksum : Bytes) × (load Bytes-discrete checksum sharer.dl_chunk_listeners ≡ some 100)
    × (hash (7 ∷ 8 ∷ []) ≡ checksum)
data_reply_listen-IsVerified_example =
    data_reply_listen-IsVerified hash reply_pair sharer told_round 100 (7 ∷ 8 ∷ []) reply_told refl

abbrev request : SearchRequest
request = record { origin = alice; budget = 4; keywords = (b'f' ∷ []) ∷ [] }

flood_bound_example : flood (λ a. peer) 5 request bob carol < 4
flood_bound_example = flood_bound (λ a. peer) 5 request bob carol (omega arith) (omega arith)
