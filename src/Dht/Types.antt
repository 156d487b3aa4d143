-- ===== src/Dht/Types.antt =====
-- dht/nodeState.go: the nodes of the hash table and the messages that they exchange.
use peerster.Base.{Bool, Bytes, List, Option, none, some, ℕ}

pub record NodeState : Type 0 where
  pub node_id : Bytes
  pub address : Bytes

pub record Store : Type 0 where
  pub key : Bytes
  pub store_type : Bytes
  pub data_bytes : Bytes
  pub encrypted : Bool

abbrev pub Ping : Type 0
Ping = Unit {0}

abbrev pub PingReply : Type 0
PingReply = Unit {0}

pub record NodeLookup : Type 0 where
  pub node_id : Bytes

pub record NodeReply : Type 0 where
  pub node_states : List NodeState

pub record ValueLookup : Type 0 where
  pub key : Bytes
  pub db_key : Bytes
  pub db_bucket : Bytes
  pub encrypted : Bool
  pub encrypted_key : Bytes

pub record ValueReply : Type 0 where
  pub node_states : Option (List NodeState)
  pub data_bytes : Option Bytes
  pub encrypted : Bool

-- A nil pointer is `none`.
pub record Message : Type 0 where
  pub nonce : ℕ
  pub sender_id : Bytes
  pub store : Option Store
  pub ping : Option Ping
  pub ping_reply : Option PingReply
  pub node_lookup : Option NodeLookup
  pub node_reply : Option NodeReply
  pub value_lookup : Option ValueLookup
  pub value_reply : Option ValueReply

-- `unknown_t` is -1.
pub data MessageType : Type 0 where
  store_t ping_t ping_reply_t node_lookup_t node_reply_t value_lookup_t value_reply_t : MessageType
  unknown_t : MessageType

-- The first field that is not nil decides; `rest` is what the next `else if` gives.
abbrev pub unless_nil {ℓ κ} : {A : Type ℓ} {B : Type κ} → Option A → B → B → B
unless_nil none found rest = rest
unless_nil (some a) found rest = found

unfoldable pub get_underlying_type : Message → MessageType
get_underlying_type msg = unless_nil msg.store store_t (
    unless_nil msg.ping ping_t (
      unless_nil msg.ping_reply ping_reply_t (
        unless_nil msg.node_lookup node_lookup_t (
          unless_nil msg.node_reply node_reply_t (
            unless_nil msg.value_lookup value_lookup_t
              (unless_nil msg.value_reply value_reply_t unknown_t))))))
