-- ===== src/Dto/Packet.antt =====
-- dto/DTO.go: the packets, the type of a packet, and what ends a run (log.Fatal, a nil pointer).
use peerster.Base.{Bool, Bytes, List, Option, false, none, some, true, ℕ, ◌≡◌}
use peerster.Dht.Types.{Message, unless_nil}

pub record SimpleMessage : Type 0 where
  pub original_name : Bytes
  pub relay_peer_addr : Bytes
  pub contents : Bytes

pub record RumorMessage : Type 0 where
  pub origin : Bytes
  pub id : ℕ
  pub text : Bytes

pub record PeerStatus : Type 0 where
  pub identifier : Bytes
  pub next_id : ℕ

pub record StatusPacket : Type 0 where
  pub want : List PeerStatus

pub record PrivateMessage : Type 0 where
  pub origin : Bytes
  pub id : ℕ
  pub text : Bytes
  pub destination : Bytes
  pub hop_limit : ℕ

pub record DataRequest : Type 0 where
  pub origin : Bytes
  pub destination : Bytes
  pub hop_limit : ℕ
  pub hash_value : Bytes

pub record DataReply : Type 0 where
  pub origin : Bytes
  pub destination : Bytes
  pub hop_limit : ℕ
  pub hash_value : Bytes
  pub data_bytes : Bytes

pub record SearchRequest : Type 0 where
  pub origin : Bytes
  pub budget : ℕ
  pub keywords : List Bytes

pub record SearchResult : Type 0 where
  pub file_name : Bytes
  pub metafile_hash : Bytes
  pub chunk_map : List ℕ
  pub chunk_count : ℕ

pub record SearchReply : Type 0 where
  pub origin : Bytes
  pub destination : Bytes
  pub hop_limit : ℕ
  pub results : List SearchResult

pub record File : Type 0 where
  pub name : Bytes
  pub size : ℕ
  pub metafile_hash : Bytes

pub record TxPublish : Type 0 where
  pub file : File
  pub hop_limit : ℕ

pub record Block : Type 0 where
  pub prev_hash : Bytes
  pub nonce : Bytes
  pub transactions : List TxPublish

pub record BlockPublish : Type 0 where
  pub block : Block
  pub hop_limit : ℕ

pub record HyperlinkPackage : Type 0 where
  pub links : List Bytes
  pub encrypted : Bool
  pub encrypted_links : Bytes

pub record EncryptedCrawlerPacket : Type 0 where
  pub packet : Bytes
  pub origin : Bytes

-- A time is a number of ticks.
pub record DiffieHellman : Type 0 where
  pub origin : Bytes
  pub destination : Bytes
  pub hop_limit : ℕ
  pub p : Bytes
  pub g : Bytes
  pub diffie_public_key : Bytes
  pub r : Bytes
  pub s : Bytes
  pub expiration_date : ℕ
  pub node_id : Bytes
  pub init : Bool
  pub id : Bytes

pub record GossipPacket : Type 0 where
  pub simple : Option SimpleMessage
  pub rumor : Option RumorMessage
  pub status : Option StatusPacket
  pub private : Option PrivateMessage
  pub data_request : Option DataRequest
  pub data_reply : Option DataReply
  pub search_request : Option SearchRequest
  pub search_reply : Option SearchReply
  pub tx_publish : Option TxPublish
  pub block_publish : Option BlockPublish
  pub dht_message : Option Message
  pub hyperlink_message : Option HyperlinkPackage
  pub encrypted_web_crawler_packet : Option EncryptedCrawlerPacket
  pub diffie_hellman : Option DiffieHellman

-- The strings that name the kinds of packet; `empty` is "".
pub data Subtype : Type 0 where
  simple_t rumor_t status_t private_t datarequest_t datareply_t searchrequest_t : Subtype
  searchreply_t txpublish_t blockpublish_t dhtmessage_t hyperlinkmessage_t : Subtype
  encryptedhyperlinkmessage_t diffiehellman_t empty : Subtype

unfoldable pub get_underlying_type : GossipPacket → Subtype
get_underlying_type g = unless_nil g.simple simple_t (
    unless_nil g.rumor rumor_t (
      unless_nil g.status status_t (
        unless_nil g.private private_t (
          unless_nil g.data_request datarequest_t (
            unless_nil g.data_reply datareply_t (
              unless_nil g.search_request searchrequest_t (
                unless_nil g.search_reply searchreply_t (
                  unless_nil g.tx_publish txpublish_t (
                    unless_nil g.block_publish blockpublish_t (
                      unless_nil g.dht_message dhtmessage_t (
                        unless_nil g.hyperlink_message hyperlinkmessage_t (
                          unless_nil g.encrypted_web_crawler_packet encryptedhyperlinkmessage_t
                            (unless_nil g.diffie_hellman diffiehellman_t empty)))))))))))))

-- What a getter was asked for.
pub data Field : Type 0 where
  origin_f seq_id_f contents_f hop_limit_f destination_f hash_value_f data_f : Field
  decrement_f budget_f keywords_f search_results_f : Field

-- `cant` names the field and the kind of packet that the message text names.
pub data GossipPacketError : Type 0 where
  cant : Field → Subtype → GossipPacketError
  no_sub_struct : GossipPacketError

-- `fatal` is `LogError` of an error, which exits the process; `nil_pointer` is a panic.
pub data Outcome {ℓ} (A : Type ℓ) : Type ℓ where
  ok : A → Outcome A
  fatal : GossipPacketError → Outcome A
  nil_pointer : Outcome A

infixl 5 ◌>>=◌
abbrev pub ◌>>=◌ {ℓ κ} : {A : Type ℓ} {B : Type κ} → Outcome A → (A → Outcome B) → Outcome B
ok a >>= f = f a
fatal e >>= f = fatal e
nil_pointer >>= f = nil_pointer

pub ok-injective {ℓ} : {A : Type ℓ} {a b : A} → ok a ≡ ok b → a ≡ b
ok-injective e = cc

-- A field read through a pointer.
abbrev pub deref {ℓ κ} : {A : Type ℓ} {B : Type κ} → Option A → (A → B) → Outcome B
deref none f = nil_pointer
deref (some a) f = ok (f a)

abbrev pub IsOk {ℓ} : {A : Type ℓ} → Outcome A → Type 0
IsOk (ok a) = Unit
IsOk (fatal e) = ⊥
IsOk nil_pointer = ⊥

-- The chat messages: rumors with a text.
unfoldable pub is_chat_rumor : RumorMessage → Bool
is_chat_rumor rm = elim rm.text [ List.[] ↦ false | List.◌∷◌ c cs ↦ true ]

unfoldable pub is_chat_packet : GossipPacket → Bool
unfolding is_chat_rumor
is_chat_packet packet = elim packet.rumor [ none ↦ false | some rm ↦ is_chat_rumor rm ]
