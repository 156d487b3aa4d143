-- ===== src/Dht/Handlers.antt =====
-- gossiper/dht.go: the messages of the hash table and who sends them; `Listening` has the routine that
-- reads them. AES-GCM and the key for a peer are arguments, as are new nonces and channels.
pub mod Listening
pub mod Answered
pub mod Lookups
use peerster.Base.{Bool, Bytes, List, Map, Option, [], false, if◌then◌else◌, none, some, true, ℕ}
use peerster.Dht.Types.{Message, NodeState, ValueLookup}
use peerster.Dht.Buckets.{BucketTable, alpha_closest, bucket_size}
use peerster.Dht.Listeners.{ChanMap, add_listener, remove_listener}
use peerster.Dto.Packet.{GossipPacket, Outcome, deref, nil_pointer, ok, ◌>>=◌}
use peerster.Gossip.Node.{Send, no_packet}
use peerster.Keys.Sessions.{DiffieHellmanSession}

-- A message with no part.
abbrev pub no_message : ℕ → Bytes → Message
no_message nonce sender_id = record {
  nonce = nonce;
  sender_id = sender_id;
  store = none;
  ping = none;
  ping_reply = none;
  node_lookup = none;
  node_reply = none;
  value_lookup = none;
  value_reply = none;
}

module _ (nonce : ℕ) (my_id : Bytes) where
  unfoldable pub new_dht_store : Bytes → Bytes → Bytes → Bool → Message
  new_dht_store key data_bytes store_type encrypted = record (no_message nonce my_id) {
    store = some (record {
      key = key;
      store_type = store_type;
      data_bytes = data_bytes;
      encrypted = encrypted;
    });
  }

  unfoldable pub new_dht_ping : Message
  new_dht_ping = record (no_message nonce my_id) { ping = some tt }

  unfoldable pub new_dht_ping_reply : Message
  new_dht_ping_reply = record (no_message nonce my_id) { ping_reply = some tt }

  unfoldable pub new_dht_node_lookup : Bytes → Message
  new_dht_node_lookup id = record (no_message nonce my_id) {
    node_lookup = some (record { node_id = id });
  }

  unfoldable pub new_dht_node_reply : List NodeState → Message
  new_dht_node_reply node_states = record (no_message nonce my_id) {
    node_reply = some (record { node_states = node_states });
  }

  unfoldable pub new_dht_value_lookup : Bytes → Bytes → Bool → Message
  new_dht_value_lookup key db_bucket encrypt = record (no_message nonce my_id) {
    value_lookup = some (record {
      key = key;
      db_key = [];
      db_bucket = db_bucket;
      encrypted = encrypt;
      encrypted_key = [];
    });
  }

  unfoldable pub new_dht_value_reply_data : Bytes → Bool → Message
  new_dht_value_reply_data data_bytes encrypt = record (no_message nonce my_id) {
    value_reply =
        some (record { node_states = none; data_bytes = some data_bytes; encrypted = encrypt });
  }

  unfoldable pub new_dht_value_reply_nodes : List NodeState → Message
  new_dht_value_reply_nodes node_states = record (no_message nonce my_id) {
    value_reply =
        some (record { node_states = some node_states; data_bytes = none; encrypted = false });
  }

pub record DhtNode : Type 0 where
  pub dht_my_id : Bytes
  pub bucket_table : BucketTable
  pub dht_chan_map : ChanMap
  pub active_ingoing : Map Bytes (List DiffieHellmanSession)
  pub encrypt_dht_operations : Bool

abbrev pub dht_packet : Message → GossipPacket
dht_packet msg = record no_packet { dht_message = some msg }

-- A request: its nonce is waited for on the channel; a nonce that is in use panics.
unfoldable pub send_request : ℕ → Message → NodeState → DhtNode → Outcome (DhtNode × Send)
send_request ch msg ns g =
    let (chans, c, is_new) = add_listener msg.nonce ch g.dht_chan_map in
    if is_new
    then ok (record g { dht_chan_map = chans }, (dht_packet msg, ns.address))
    else nil_pointer

unfoldable pub send_ping : ℕ → ℕ → NodeState → DhtNode → Outcome (DhtNode × Send)
unfolding send_request new_dht_ping
send_ping nonce ch ns g = send_request ch (new_dht_ping nonce g.dht_my_id) ns g

-- The end of `sendPing`: a reply has come, or the ticker has fired.
unfoldable pub ping_ends : ℕ → Bool → DhtNode → DhtNode × Bool
ping_ends nonce replied g =
    if replied
    then (g, true)
    else (record g { dht_chan_map = remove_listener nonce g.dht_chan_map }, false)

unfoldable pub reply_ping : Bytes → Message → DhtNode → Send
unfolding new_dht_ping_reply
reply_ping sender_addr ping g =
    (dht_packet (new_dht_ping_reply ping.nonce g.dht_my_id), sender_addr)

unfoldable pub send_store : ℕ → NodeState → Bytes → Bytes → Bytes → DhtNode → Send
unfolding new_dht_store
send_store nonce ns key data_bytes store_type g =
    (dht_packet (new_dht_store nonce g.dht_my_id key data_bytes store_type false), ns.address)

-- `got` is what `getKey` gives in time: a key, or nil. `none` is the error after the timeout.
unfoldable pub send_encrypted_store :
    (Bytes → Bytes → Bytes)
    → Option (Option Bytes)
    → ℕ
    → NodeState
    → Bytes
    → Bytes
    → Bytes
    → DhtNode
    → Option Send
unfolding send_store new_dht_store
send_encrypted_store encrypt got nonce ns key data_bytes store_type g = elim got [
  | none ↦ none
  | some k ↦ elim k [
    | none ↦ some (send_store nonce ns key data_bytes store_type g)
    | some k ↦ some (
      dht_packet (new_dht_store nonce g.dht_my_id key (encrypt k data_bytes) store_type true),
      ns.address,
    )
  ]
]

unfoldable pub send_lookup_node : ℕ → ℕ → NodeState → Bytes → DhtNode → Outcome (DhtNode × Send)
unfolding send_request new_dht_node_lookup
send_lookup_node nonce ch ns id g = send_request ch (new_dht_node_lookup nonce g.dht_my_id id) ns g

unfoldable pub reply_lookup_node : Bytes → Message → DhtNode → Outcome Send
unfolding new_dht_node_reply
reply_lookup_node sender_addr lookup g = deref lookup.node_lookup (λ l.
    let results = alpha_closest l.node_id bucket_size g.bucket_table in
    (dht_packet (new_dht_node_reply lookup.nonce g.dht_my_id results), sender_addr))

-- A lookup of a value, where the key of the lookup stays in it beside its cipher text.
unfoldable pub send_lookup_key :
    (Bytes → Bytes → Bytes)
    → Option (Option Bytes)
    → ℕ
    → ℕ
    → NodeState
    → Bytes
    → Bytes
    → Bool
    → DhtNode
    → Outcome (DhtNode × Send)
unfolding send_request new_dht_value_lookup
send_lookup_key encrypt got nonce ch ns key db_bucket encrypted g = do
  let msg = new_dht_value_lookup nonce g.dht_my_id key db_bucket encrypted
  lookup ← deref msg.value_lookup (λ (l : ValueLookup). l)
  let plain : Message = record msg { value_lookup = some (record lookup { encrypted = false }) }
  let msg' : Message =
      if g.encrypt_dht_operations
      then elim got [
        | none ↦ plain
        | some k ↦ elim k [
          | none ↦ plain
          | some k ↦ record msg {
            value_lookup = some (record lookup { encrypted_key = encrypt k lookup.key });
          }
        ]
      ]
      else msg
  send_request ch msg' ns g
