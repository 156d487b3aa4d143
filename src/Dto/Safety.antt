-- ===== src/Dto/Safety.antt =====
-- Properties of the getters and the decrement of dto/DTO.go, by the kind of packet.
use peerster.Base.{
  Bool, Bytes, Option, arith, false, if◌then◌else◌, ltb, none, refl, some, true, ℕ, ◌≡◌,
}
use peerster.Dto.Packet.{
  BlockPublish, DataReply, DataRequest, DiffieHellman, EncryptedCrawlerPacket, Field, GossipPacket,
  HyperlinkPackage, Outcome, PrivateMessage, RumorMessage, SearchReply, SearchRequest,
  SimpleMessage, StatusPacket, Subtype, TxPublish, blockpublish_t, budget_f, contents_f, data_f,
  datareply_t, datarequest_t, decrement_f, destination_f, diffiehellman_t, fatal,
  get_underlying_type, hash_value_f, hop_limit_f, keywords_f, nil_pointer, ok, origin_f, private_t,
  rumor_t, search_results_f, searchreply_t, searchrequest_t, seq_id_f, simple_t, txpublish_t,
}
use peerster.Dto.Getters.{
  PacketAddressPair, get_budget, get_contents, get_data, get_destination, get_hash_value,
  get_hop_limit, get_keywords, get_origin, get_search_results, get_sender_address, get_seq_id,
}
use peerster.Dto.Hops.{dec32, decrement_hop_count}
use peerster.Dht.Types.{Message}

-- The kinds of packet that are routed hop by hop to a destination.
abbrev pub IsRouted : Subtype → Type 0
IsRouted private_t = Unit
IsRouted datarequest_t = Unit
IsRouted datareply_t = Unit
IsRouted searchreply_t = Unit
IsRouted _ = ⊥

-- What a routed packet offers to the routine that forwards it.
pub record Routed (g : GossipPacket) : Type 0 where
  pub hops : ℕ
  pub source : Bytes
  pub target : Bytes
  pub next : GossipPacket
  pub has_hops : get_hop_limit g ≡ ok hops
  pub has_origin : get_origin g ≡ ok source
  pub has_destination : get_destination g ≡ ok target
  pub decremented : decrement_hop_count g ≡ ok (next, ltb 0 (dec32 hops))
  pub next_hops : get_hop_limit next ≡ ok (dec32 hops)
  pub next_origin : get_origin next ≡ ok source
  pub next_destination : get_destination next ≡ ok target
  pub next_type : get_underlying_type next ≡ get_underlying_type g

abbrev packet :
    Option SimpleMessage
    → Option RumorMessage
    → Option StatusPacket
    → Option PrivateMessage
    → Option DataRequest
    → Option DataReply
    → Option SearchRequest
    → Option SearchReply
    → Option TxPublish
    → Option BlockPublish
    → Option Message
    → Option HyperlinkPackage
    → Option EncryptedCrawlerPacket
    → Option DiffieHellman
    → GossipPacket
packet a1 a2 a3 a4 a5 a6 a7 a8 a9 a10 a11 a12 a13 a14 = record {
  simple = a1;
  rumor = a2;
  status = a3;
  private = a4;
  data_request = a5;
  data_reply = a6;
  search_request = a7;
  search_reply = a8;
  tx_publish = a9;
  block_publish = a10;
  dht_message = a11;
  hyperlink_message = a12;
  encrypted_web_crawler_packet = a13;
  diffie_hellman = a14;
}

parts-Routed :
    (a1 : Option SimpleMessage) (a2 : Option RumorMessage) (a3 : Option StatusPacket)
    (a4 : Option PrivateMessage) (a5 : Option DataRequest) (a6 : Option DataReply)
    (a7 : Option SearchRequest) (a8 : Option SearchReply) (a9 : Option TxPublish)
    (a10 : Option BlockPublish) (a11 : Option Message) (a12 : Option HyperlinkPackage)
    (a13 : Option EncryptedCrawlerPacket) (a14 : Option DiffieHellman)
    → let g = packet a1 a2 a3 a4 a5 a6 a7 a8 a9 a10 a11 a12 a13 a14 in
      IsRouted (get_underlying_type g) → Routed g
unfolding decrement_hop_count get_hop_limit get_origin get_destination get_underlying_type
parts-Routed (some m) a2 a3 a4 a5 a6 a7 a8 a9 a10 a11 a12 a13 a14 r = elim r [ ]
parts-Routed none (some m) a3 a4 a5 a6 a7 a8 a9 a10 a11 a12 a13 a14 r = elim r [ ]
parts-Routed none none (some m) a4 a5 a6 a7 a8 a9 a10 a11 a12 a13 a14 r = elim r [ ]
parts-Routed none none none (some m) a5 a6 a7 a8 a9 a10 a11 a12 a13 a14 r = record {
  hops = m.hop_limit;
  source = m.origin;
  target = m.destination;
  next =
      packet none none none (some (record m { hop_limit = dec32 m.hop_limit })) a5 a6 a7 a8 a9 a10
        a11 a12 a13 a14;
  has_hops = refl;
  has_origin = refl;
  has_destination = refl;
  decremented = refl;
  next_hops = refl;
  next_origin = refl;
  next_destination = refl;
  next_type = refl;
}
parts-Routed none none none none (some m) a6 a7 a8 a9 a10 a11 a12 a13 a14 r = record {
  hops = m.hop_limit;
  source = m.origin;
  target = m.destination;
  next =
      packet none none none none (some (record m { hop_limit = dec32 m.hop_limit })) a6 a7 a8 a9 a10
        a11 a12 a13 a14;
  has_hops = refl;
  has_origin = refl;
  has_destination = refl;
  decremented = refl;
  next_hops = refl;
  next_origin = refl;
  next_destination = refl;
  next_type = refl;
}
parts-Routed none none none none none (some m) a7 a8 a9 a10 a11 a12 a13 a14 r = record {
  hops = m.hop_limit;
  source = m.origin;
  target = m.destination;
  next =
      packet none none none none none (some (record m { hop_limit = dec32 m.hop_limit })) a7 a8 a9
        a10 a11 a12 a13 a14;
  has_hops = refl;
  has_origin = refl;
  has_destination = refl;
  decremented = refl;
  next_hops = refl;
  next_origin = refl;
  next_destination = refl;
  next_type = refl;
}
parts-Routed none none none none none none (some m) a8 a9 a10 a11 a12 a13 a14 r = elim r [ ]
parts-Routed none none none none none none none (some m) a9 a10 a11 a12 a13 a14 r = record {
  hops = m.hop_limit;
  source = m.origin;
  target = m.destination;
  next =
      packet none none none none none none none (some (record m { hop_limit = dec32 m.hop_limit }))
        a9 a10 a11 a12 a13 a14;
  has_hops = refl;
  has_origin = refl;
  has_destination = refl;
  decremented = refl;
  next_hops = refl;
  next_origin = refl;
  next_destination = refl;
  next_type = refl;
}
parts-Routed none none none none none none none none (some m) a10 a11 a12 a13 a14 r = elim r [ ]
parts-Routed none none none none none none none none none (some m) a11 a12 a13 a14 r = elim r [ ]
parts-Routed none none none none none none none none none none (some m) a12 a13 a14 r = elim r [ ]
parts-Routed none none none none none none none none none none none (some m) a13 a14 r = elim r [ ]
parts-Routed none none none none none none none none none none none none (some m) a14 r = elim r [ ]
parts-Routed none none none none none none none none none none none none none (some m) r =
    elim r [ ]
parts-Routed none none none none none none none none none none none none none none r = elim r [ ]

-- Of a routed packet the hop limit, the origin and the destination can be read, and a decrement
-- takes one hop from the limit (modulo 2^32), leaves the kind, the origin and the destination of
-- the packet as they were, and asks for sending exactly if the new limit is above 0.
pub Routed_lem : (g : GossipPacket) → IsRouted (get_underlying_type g) → Routed g
unfolding get_underlying_type
Routed_lem g =
    parts-Routed g.simple g.rumor g.status g.private g.data_request g.data_reply g.search_request
      g.search_reply g.tx_publish g.block_publish g.dht_message g.hyperlink_message
      g.encrypted_web_crawler_packet g.diffie_hellman

-- How a call ends.
pub data Ending : Type 0 where
  answers exits panics : Ending

abbrev pub ending {ℓ} : {A : Type ℓ} → Outcome A → Ending
ending (ok a) = answers
ending (fatal e) = exits
ending nil_pointer = panics

pub answers→ok {ℓ} : {A : Type ℓ} (r : Outcome A) → ending r ≡ answers → (a : A) × (r ≡ ok a)
answers→ok (ok a) h = (a, refl)
answers→ok (fatal e) h = absurd (ground arith)
answers→ok nil_pointer h = absurd (ground arith)

pub get_sender_address-ok :
    (pap : PacketAddressPair) → (a : Bytes) × (get_sender_address pap ≡ ok a)
unfolding get_sender_address
get_sender_address-ok pap = answers→ok (get_sender_address pap) answered
  where
    answered : ending (get_sender_address pap) ≡ answers
    answered = ground arith

-- The fields of each kind of packet, as the structs of DTO.go declare them.
unfoldable pub has : Field → Subtype → Bool
has origin_f simple_t = true
has origin_f rumor_t = true
has origin_f private_t = true
has origin_f datarequest_t = true
has origin_f datareply_t = true
has origin_f searchrequest_t = true
has origin_f searchreply_t = true
has origin_f diffiehellman_t = true
has seq_id_f rumor_t = true
has seq_id_f private_t = true
has contents_f simple_t = true
has contents_f rumor_t = true
has contents_f private_t = true
has hop_limit_f private_t = true
has hop_limit_f datarequest_t = true
has hop_limit_f datareply_t = true
has hop_limit_f searchreply_t = true
has hop_limit_f txpublish_t = true
has hop_limit_f blockpublish_t = true
has hop_limit_f diffiehellman_t = true
has destination_f private_t = true
has destination_f datarequest_t = true
has destination_f datareply_t = true
has destination_f searchreply_t = true
has hash_value_f datarequest_t = true
has hash_value_f datareply_t = true
has data_f datareply_t = true
has decrement_f private_t = true
has decrement_f datarequest_t = true
has decrement_f datareply_t = true
has decrement_f searchreply_t = true
has decrement_f txpublish_t = true
has decrement_f blockpublish_t = true
has budget_f searchrequest_t = true
has keywords_f searchrequest_t = true
has search_results_f searchreply_t = true
has _ _ = false

module _ (g : GossipPacket) where
  abbrev pub expected : Field → Ending
  expected f = if has f (get_underlying_type g) then answers else exits

  pub get_origin-ending : ending (get_origin g) ≡ expected origin_f
  unfolding get_origin has
  get_origin-ending = ground arith

  pub get_seq_id-ending : ending (get_seq_id g) ≡ expected seq_id_f
  unfolding get_seq_id has
  get_seq_id-ending = ground arith

  pub get_contents-ending : ending (get_contents g) ≡ expected contents_f
  unfolding get_contents has
  get_contents-ending = ground arith

  get_hop_limit-ending : ending (get_hop_limit g) ≡ expected hop_limit_f
  unfolding get_hop_limit has
  get_hop_limit-ending = ground arith

  get_destination-ending : ending (get_destination g) ≡ expected destination_f
  unfolding get_destination has
  get_destination-ending = ground arith

  get_hash_value-ending : ending (get_hash_value g) ≡ expected hash_value_f
  unfolding get_hash_value has
  get_hash_value-ending = ground arith

  get_data-ending : ending (get_data g) ≡ expected data_f
  unfolding get_data has
  get_data-ending = ground arith

  decrement_hop_count-ending : ending (decrement_hop_count g) ≡ expected decrement_f
  unfolding decrement_hop_count has
  decrement_hop_count-ending = ground arith

  get_budget-ending : ending (get_budget g) ≡ expected budget_f
  unfolding get_budget has
  get_budget-ending = ground arith

  get_keywords-ending : ending (get_keywords g) ≡ expected keywords_f
  unfolding get_keywords has
  get_keywords-ending = ground arith

  get_search_results-ending : ending (get_search_results g) ≡ expected search_results_f
  unfolding get_search_results has
  get_search_results-ending = ground arith

-- Every getter and the decrement answer exactly for the kinds of packet that have the field (a
-- decrement: for the kinds with a method for it), exit the process for the other kinds, and never
-- follow a nil pointer.
getters_total :
    (g : GossipPacket)
    → (ending (get_origin g) ≡ expected g origin_f)
      × (ending (get_seq_id g) ≡ expected g seq_id_f)
      × (ending (get_contents g) ≡ expected g contents_f)
      × (ending (get_hop_limit g) ≡ expected g hop_limit_f)
      × (ending (get_destination g) ≡ expected g destination_f)
      × (ending (get_hash_value g) ≡ expected g hash_value_f)
      × (ending (get_data g) ≡ expected g data_f)
      × (ending (decrement_hop_count g) ≡ expected g decrement_f)
      × (ending (get_budget g) ≡ expected g budget_f)
      × (ending (get_keywords g) ≡ expected g keywords_f)
      × (ending (get_search_results g) ≡ expected g search_results_f)
getters_total g = (
  get_origin-ending g,
  get_seq_id-ending g,
  get_contents-ending g,
  get_hop_limit-ending g,
  get_destination-ending g,
  get_hash_value-ending g,
  get_data-ending g,
  decrement_hop_count-ending g,
  get_budget-ending g,
  get_keywords-ending g,
  get_search_results-ending g,
)
