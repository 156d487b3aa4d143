-- ===== src/Tests/Handlers.antt =====
-- Cases for the messages of the hash table.
use peerster.Dht.Types.{Message, NodeState}
use peerster.Dto.Packet.{ok}
use peerster.Base.{
  Bool, Bytes, List, Option, [], false, length, load, none, refl, some, true, ℕ, ℕ_discrete, ◌∷◌,
  ◌≡◌, ◌≤◌,
}
use peerster.Dht.Buckets.{alpha_closest, bucket_size, new_bucket_table, update_table}
use peerster.Dht.Buckets.Bounded.{new_bucket_table-IsTable}
use peerster.Dht.Handlers.Listening.{answered, dht_message_listen, informed}
use peerster.Dht.Handlers.Lookups.{node_lookup-answered}
use peerster.Dht.Handlers.{DhtNode, dht_packet, new_dht_ping, send_lookup_node}

abbrev no_text : Bytes → Bytes → Option Bytes
no_text key text = none

abbrev node_with : ℕ → DhtNode
node_with n = record {
  dht_my_id = n ∷ [];
  bucket_table = new_bucket_table (n ∷ []);
  dht_chan_map = record { nonce_message_map = [] };
  active_ingoing = [];
  encrypt_dht_operations = false;
}

-- A ping from a node.
abbrev ping_msg : Message
ping_msg = new_dht_ping 7 (2 ∷ [])

abbrev asked : NodeState
asked = record { node_id = 2 ∷ []; address = 2 ∷ [] }

node_lookup-answered_example :
    (a1 a2 b' : DhtNode) × (q r : Message) × (found : List NodeState) × (send_lookup_node 7 3 asked
        (5 ∷ [])
        (node_with 1)
      ≡ ok (a1, (dht_packet q, 2 ∷ [])))
    × (dht_message_listen no_text 0 no_text (λ n. true) (1 ∷ []) q (node_with 2)
        ≡ ok (b', answered (dht_packet r, 1 ∷ [])))
    × ((changed : Bool) × (update_table
            (λ n. true)
            (record { node_id = 1 ∷ []; address = 1 ∷ [] })
            (node_with 2).bucket_table
          ≡ some (b'.bucket_table, changed)))
    × (r.node_reply ≡ some (record { node_states = found }))
    × (found ≡ alpha_closest (5 ∷ []) bucket_size b'.bucket_table)
    × (length found ≤ bucket_size)
    × (dht_message_listen no_text 0 no_text (λ n. true) (2 ∷ []) r a1 ≡ ok (a2, informed 3 r))
    × (load ℕ_discrete 7 a2.dht_chan_map.nonce_message_map ≡ none)
unfolding load
node_lookup-answered_example =
    node_lookup-answered no_text 0 no_text (λ n. true) (λ n. true) 7 3 asked (5 ∷ []) (1 ∷ [])
      (node_with 1) (node_with 2) (new_bucket_table-IsTable (1 ∷ []))
      (new_bucket_table-IsTable (2 ∷ [])) refl
