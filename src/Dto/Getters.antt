-- ===== src/Dto/Getters.antt =====
-- dto/DTO.go: the getters of GossipPacket and of PacketAddressPair. A getter that a kind of packet
-- has no field for ends the process.
use peerster.Base.{Bytes, List, ℕ}
use peerster.Dto.Packet.{
  GossipPacket, Outcome, SearchResult, blockpublish_t, budget_f, cant, contents_f, data_f,
  datareply_t, datarequest_t, deref, destination_f, dhtmessage_t, diffiehellman_t, fatal,
  get_underlying_type, hash_value_f, hop_limit_f, keywords_f, no_sub_struct, ok, origin_f,
  private_t, rumor_t, search_results_f, searchreply_t, searchrequest_t, seq_id_f, simple_t,
  status_t, txpublish_t,
}

unfoldable pub get_origin : GossipPacket → Outcome Bytes
unfolding get_underlying_type
get_origin g = elim (get_underlying_type g) [
  | simple_t ↦ deref g.simple (λ m. m.original_name)
  | rumor_t ↦ deref g.rumor (λ m. m.origin)
  | status_t ↦ fatal (cant origin_f status_t)
  | private_t ↦ deref g.private (λ m. m.origin)
  | datarequest_t ↦ deref g.data_request (λ m. m.origin)
  | datareply_t ↦ deref g.data_reply (λ m. m.origin)
  | searchrequest_t ↦ deref g.search_request (λ m. m.origin)
  | searchreply_t ↦ deref g.search_reply (λ m. m.origin)
  | txpublish_t ↦ fatal (cant origin_f txpublish_t)
  | blockpublish_t ↦ fatal (cant origin_f blockpublish_t)
  | dhtmessage_t ↦ fatal (cant origin_f dhtmessage_t)
  | diffiehellman_t ↦ deref g.diffie_hellman (λ m. m.origin)
  | _ ↦ fatal no_sub_struct
]

unfoldable pub get_seq_id : GossipPacket → Outcome ℕ
unfolding get_underlying_type
get_seq_id g = elim (get_underlying_type g) [
  | simple_t ↦ fatal (cant seq_id_f simple_t)
  | rumor_t ↦ deref g.rumor (λ m. m.id)
  | status_t ↦ fatal (cant seq_id_f status_t)
  | private_t ↦ deref g.private (λ m. m.id)
  | datarequest_t ↦ fatal (cant seq_id_f datarequest_t)
  | datareply_t ↦ fatal (cant seq_id_f datareply_t)
  | searchrequest_t ↦ fatal (cant seq_id_f searchrequest_t)
  | searchreply_t ↦ fatal (cant seq_id_f searchreply_t)
  | txpublish_t ↦ fatal (cant seq_id_f txpublish_t)
  | blockpublish_t ↦ fatal (cant seq_id_f blockpublish_t)
  | dhtmessage_t ↦ fatal (cant seq_id_f dhtmessage_t)
  | _ ↦ fatal no_sub_struct
]

unfoldable pub get_contents : GossipPacket → Outcome Bytes
unfolding get_underlying_type
get_contents g = elim (get_underlying_type g) [
  | simple_t ↦ deref g.simple (λ m. m.contents)
  | rumor_t ↦ deref g.rumor (λ m. m.text)
  | status_t ↦ fatal (cant contents_f status_t)
  | private_t ↦ deref g.private (λ m. m.text)
  | datarequest_t ↦ fatal (cant contents_f datarequest_t)
  | datareply_t ↦ fatal (cant contents_f datareply_t)
  | searchrequest_t ↦ fatal (cant contents_f datareply_t)
  | searchreply_t ↦ fatal (cant contents_f datareply_t)
  | txpublish_t ↦ fatal (cant contents_f txpublish_t)
  | blockpublish_t ↦ fatal (cant contents_f blockpublish_t)
  | dhtmessage_t ↦ fatal (cant contents_f dhtmessage_t)
  | _ ↦ fatal no_sub_struct
]

unfoldable pub get_hop_limit : GossipPacket → Outcome ℕ
unfolding get_underlying_type
get_hop_limit g = elim (get_underlying_type g) [
  | simple_t ↦ fatal (cant hop_limit_f simple_t)
  | rumor_t ↦ fatal (cant hop_limit_f rumor_t)
  | status_t ↦ fatal (cant hop_limit_f status_t)
  | private_t ↦ deref g.private (λ m. m.hop_limit)
  | datarequest_t ↦ deref g.data_request (λ m. m.hop_limit)
  | datareply_t ↦ deref g.data_reply (λ m. m.hop_limit)
  | searchrequest_t ↦ fatal (cant hop_limit_f searchrequest_t)
  | searchreply_t ↦ deref g.search_reply (λ m. m.hop_limit)
  | txpublish_t ↦ deref g.tx_publish (λ m. m.hop_limit)
  | blockpublish_t ↦ deref g.block_publish (λ m. m.hop_limit)
  | dhtmessage_t ↦ fatal (cant hop_limit_f dhtmessage_t)
  | diffiehellman_t ↦ deref g.diffie_hellman (λ m. m.hop_limit)
  | _ ↦ fatal no_sub_struct
]

unfoldable pub get_destination : GossipPacket → Outcome Bytes
unfolding get_underlying_type
get_destination g = elim (get_underlying_type g) [
  | simple_t ↦ fatal (cant destination_f simple_t)
  | rumor_t ↦ fatal (cant destination_f rumor_t)
  | status_t ↦ fatal (cant destination_f status_t)
  | private_t ↦ deref g.private (λ m. m.destination)
  | datarequest_t ↦ deref g.data_request (λ m. m.destination)
  | datareply_t ↦ deref g.data_reply (λ m. m.destination)
  | searchrequest_t ↦ fatal (cant destination_f searchrequest_t)
  | searchreply_t ↦ deref g.search_reply (λ m. m.destination)
  | txpublish_t ↦ fatal (cant destination_f txpublish_t)
  | blockpublish_t ↦ fatal (cant destination_f blockpublish_t)
  | dhtmessage_t ↦ fatal (cant destination_f dhtmessage_t)
  | _ ↦ fatal no_sub_struct
]

unfoldable pub get_hash_value : GossipPacket → Outcome Bytes
unfolding get_underlying_type
get_hash_value g = elim (get_underlying_type g) [
  | simple_t ↦ fatal (cant hash_value_f simple_t)
  | rumor_t ↦ fatal (cant hash_value_f rumor_t)
  | status_t ↦ fatal (cant hash_value_f status_t)
  | private_t ↦ fatal (cant hash_value_f private_t)
  | datarequest_t ↦ deref g.data_request (λ m. m.hash_value)
  | datareply_t ↦ deref g.data_reply (λ m. m.hash_value)
  | searchrequest_t ↦ fatal (cant hash_value_f searchrequest_t)
  | searchreply_t ↦ fatal (cant hash_value_f searchreply_t)
  | txpublish_t ↦ fatal (cant hash_value_f txpublish_t)
  | blockpublish_t ↦ fatal (cant hash_value_f blockpublish_t)
  | dhtmessage_t ↦ fatal (cant hash_value_f dhtmessage_t)
  | _ ↦ fatal no_sub_struct
]

unfoldable pub get_data : GossipPacket → Outcome Bytes
unfolding get_underlying_type
get_data g = elim (get_underlying_type g) [
  | simple_t ↦ fatal (cant data_f simple_t)
  | rumor_t ↦ fatal (cant data_f rumor_t)
  | status_t ↦ fatal (cant data_f status_t)
  | private_t ↦ fatal (cant data_f private_t)
  | datarequest_t ↦ fatal (cant data_f datarequest_t)
  | datareply_t ↦ deref g.data_reply (λ m. m.data_bytes)
  | searchrequest_t ↦ fatal (cant data_f searchrequest_t)
  | searchreply_t ↦ fatal (cant data_f searchreply_t)
  | txpublish_t ↦ fatal (cant data_f txpublish_t)
  | blockpublish_t ↦ fatal (cant data_f blockpublish_t)
  | dhtmessage_t ↦ fatal (cant data_f dhtmessage_t)
  | _ ↦ fatal no_sub_struct
]

unfoldable pub get_budget : GossipPacket → Outcome ℕ
unfolding get_underlying_type
get_budget g = elim (get_underlying_type g) [
  | simple_t ↦ fatal (cant budget_f simple_t)
  | rumor_t ↦ fatal (cant budget_f rumor_t)
  | status_t ↦ fatal (cant budget_f status_t)
  | private_t ↦ fatal (cant budget_f private_t)
  | datarequest_t ↦ fatal (cant budget_f datarequest_t)
  | datareply_t ↦ fatal (cant budget_f datareply_t)
  | searchrequest_t ↦ deref g.search_request (λ m. m.budget)
  | searchreply_t ↦ fatal (cant budget_f searchreply_t)
  | txpublish_t ↦ fatal (cant budget_f txpublish_t)
  | blockpublish_t ↦ fatal (cant budget_f blockpublish_t)
  | dhtmessage_t ↦ fatal (cant budget_f dhtmessage_t)
  | _ ↦ fatal no_sub_struct
]

unfoldable pub get_keywords : GossipPacket → Outcome (List Bytes)
unfolding get_underlying_type
get_keywords g = elim (get_underlying_type g) [
  | simple_t ↦ fatal (cant keywords_f simple_t)
  | rumor_t ↦ fatal (cant keywords_f rumor_t)
  | status_t ↦ fatal (cant keywords_f status_t)
  | private_t ↦ fatal (cant keywords_f private_t)
  | datarequest_t ↦ fatal (cant keywords_f datarequest_t)
  | datareply_t ↦ fatal (cant keywords_f datareply_t)
  | searchrequest_t ↦ deref g.search_request (λ m. m.keywords)
  | searchreply_t ↦ fatal (cant keywords_f searchreply_t)
  | txpublish_t ↦ fatal (cant keywords_f txpublish_t)
  | blockpublish_t ↦ fatal (cant keywords_f blockpublish_t)
  | dhtmessage_t ↦ fatal (cant keywords_f dhtmessage_t)
  | _ ↦ fatal no_sub_struct
]

unfoldable pub get_search_results : GossipPacket → Outcome (List SearchResult)
unfolding get_underlying_type
get_search_results g = elim (get_underlying_type g) [
  | simple_t ↦ fatal (cant search_results_f simple_t)
  | rumor_t ↦ fatal (cant search_results_f rumor_t)
  | status_t ↦ fatal (cant search_results_f status_t)
  | private_t ↦ fatal (cant search_results_f private_t)
  | datarequest_t ↦ fatal (cant search_results_f datarequest_t)
  | datareply_t ↦ fatal (cant search_results_f datareply_t)
  | searchrequest_t ↦ fatal (cant search_results_f searchrequest_t)
  | searchreply_t ↦ deref g.search_reply (λ m. m.results)
  | txpublish_t ↦ fatal (cant search_results_f txpublish_t)
  | blockpublish_t ↦ fatal (cant search_results_f blockpublish_t)
  | dhtmessage_t ↦ fatal (cant search_results_f dhtmessage_t)
  | _ ↦ fatal no_sub_struct
]

-- A packet and the address that it came from.
pub record PacketAddressPair : Type 0 where
  pub packet : GossipPacket
  pub sender_address : Bytes

-- A simple message carries the address of the peer that relayed it.
unfoldable pub get_sender_address : PacketAddressPair → Outcome Bytes
unfolding get_underlying_type
get_sender_address pap = elim (get_underlying_type pap.packet) [
  | simple_t ↦ deref pap.packet.simple (λ m. m.relay_peer_addr)
  | _ ↦ ok pap.sender_address
]
