-- ===== src/Dto/Hops.antt =====
-- dto/DTO.go: the hop counts, which are uint32.
use peerster.Base.{Bool, Option, ltb, none, some, ℕ, ◌%◌, ◌+◌, ◌-◌, ◌^◌}
use peerster.Dto.Packet.{
  BlockPublish, DataReply, DataRequest, GossipPacket, Outcome, PrivateMessage, SearchReply,
  TxPublish, blockpublish_t, cant, datareply_t, datarequest_t, decrement_f, dhtmessage_t, fatal,
  get_underlying_type, nil_pointer, no_sub_struct, ok, private_t, rumor_t, searchreply_t,
  searchrequest_t, simple_t, status_t, txpublish_t,
}

abbrev pub u32_mod : ℕ
u32_mod = 2 ^ 32

-- `h--` on a uint32: 0 wraps to the largest value.
unfoldable pub dec32 : ℕ → ℕ
dec32 h = (h + u32_mod - 1) % u32_mod

-- The methods of the packets that carry a hop limit.
abbrev decrement_private : PrivateMessage → PrivateMessage × Bool
decrement_private pm = let h = dec32 pm.hop_limit in (record pm { hop_limit = h }, ltb 0 h)

abbrev decrement_data_request : DataRequest → DataRequest × Bool
decrement_data_request dreq =
    let h = dec32 dreq.hop_limit in (record dreq { hop_limit = h }, ltb 0 h)

abbrev decrement_data_reply : DataReply → DataReply × Bool
decrement_data_reply drep = let h = dec32 drep.hop_limit in (record drep { hop_limit = h }, ltb 0 h)

abbrev decrement_search_reply : SearchReply → SearchReply × Bool
decrement_search_reply srep =
    let h = dec32 srep.hop_limit in (record srep { hop_limit = h }, ltb 0 h)

abbrev decrement_tx_publish : TxPublish → TxPublish × Bool
decrement_tx_publish txpub =
    let h = dec32 txpub.hop_limit in (record txpub { hop_limit = h }, ltb 0 h)

abbrev decrement_block_publish : BlockPublish → BlockPublish × Bool
decrement_block_publish blpub =
    let h = dec32 blpub.hop_limit in (record blpub { hop_limit = h }, ltb 0 h)

-- A method call through a pointer: the packet with the new part, and what the method returns.
abbrev pub update_part {ℓ} :
    {A : Type ℓ} → Option A → (A → A × Bool) → (A → GossipPacket) → Outcome (GossipPacket × Bool)
update_part none method put = nil_pointer
update_part (some a) method put = let (b, send) = method a in ok (put b, send)

-- The packet is changed in place: the call returns it beside whether to send it on.
unfoldable pub decrement_hop_count : GossipPacket → Outcome (GossipPacket × Bool)
unfolding get_underlying_type dec32
decrement_hop_count g = elim (get_underlying_type g) [
  | simple_t ↦ fatal (cant decrement_f simple_t)
  | rumor_t ↦ fatal (cant decrement_f rumor_t)
  | status_t ↦ fatal (cant decrement_f status_t)
  | private_t ↦ update_part g.private decrement_private (λ m. record g { private = some m })
  | datarequest_t ↦
      update_part g.data_request decrement_data_request (λ m. record g { data_request = some m })
  | datareply_t ↦
      update_part g.data_reply decrement_data_reply (λ m. record g { data_reply = some m })
  | searchrequest_t ↦ fatal (cant decrement_f searchrequest_t)
  | searchreply_t ↦
      update_part g.search_reply decrement_search_reply (λ m. record g { search_reply = some m })
  | txpublish_t ↦
      update_part g.tx_publish decrement_tx_publish (λ m. record g { tx_publish = some m })
  | blockpublish_t ↦
      update_part g.block_publish decrement_block_publish (λ m. record g { block_publish = some m })
  | dhtmessage_t ↦ fatal (cant decrement_f dhtmessage_t)
  | _ ↦ fatal no_sub_struct
]
