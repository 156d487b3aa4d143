-- ===== src/Dht/Handlers/Lookups.antt =====
-- gossiper/dht.go: the reply to a lookup of a node reaches the one who waits for it.
use peerster.Dht.Types.{Message, NodeState, get_underlying_type}
use peerster.Base.{
  Bool, Bytes, List, Option, arith, length, load, load-delete, load-store_self, load_or_store, none,
  refl, some, store, ℕ, ℕ_discrete, ◌≡◌, ◌≤◌,
}
use peerster.Dht.Buckets.{alpha_closest, bucket_size, update_table}
use peerster.Dht.Buckets.Bounded.{IsTable, update_table-IsTable}
use peerster.Dht.Buckets.Closest.{alpha_closest-length}
use peerster.Dht.Listeners.{ChanMap, add_listener, inform_listener, remove_listener}
use peerster.Dto.Packet.{ok}
use peerster.Dht.Handlers.{
  DhtNode, dht_packet, new_dht_node_lookup, new_dht_node_reply, reply_lookup_node, send_lookup_node,
  send_request,
}
use peerster.Dht.Handlers.Listening.{answered, dht_message_listen, handle_type, inform, informed}

-- A lookup of a node is sent under a nonce that nobody waits for, and both tables are sound. Then the
-- node asked updates its table with the asker, and answers with what `alphaClosest` of that table gives
-- for the target, at most 20 nodes; the asker puts this reply on the channel of the lookup, and nobody
-- waits for the nonce any longer.
pub node_lookup-answered :
    (decrypt : Bytes → Bytes → Option Bytes) (now : ℕ) (retrieve : Bytes → Bytes → Option Bytes)
    (answers_a answers_b : NodeState → Bool) (nonce ch : ℕ) (ns : NodeState) (id sender : Bytes)
    (a b : DhtNode)
    → IsTable a.bucket_table
    → IsTable b.bucket_table
    → load ℕ_discrete nonce a.dht_chan_map.nonce_message_map ≡ none
    → (a1 a2 b' : DhtNode) × (q r : Message) × (found : List NodeState) × (send_lookup_node nonce ch
          ns id a
        ≡ ok (a1, (dht_packet q, ns.address)))
      × (dht_message_listen decrypt now retrieve answers_b sender q b
          ≡ ok (b', answered (dht_packet r, sender)))
      × ((changed : Bool) × (update_table answers_b
              (record { node_id = a.dht_my_id; address = sender })
              b.bucket_table
            ≡ some (b'.bucket_table, changed)))
      × (r.node_reply ≡ some (record { node_states = found }))
      × (found ≡ alpha_closest id bucket_size b'.bucket_table)
      × (length found ≤ bucket_size)
      × (dht_message_listen decrypt now retrieve answers_a ns.address r a1 ≡ ok (a2, informed ch r))
      × (load ℕ_discrete nonce a2.dht_chan_map.nonce_message_map ≡ none)
unfolding dht_message_listen send_lookup_node send_request add_listener load_or_store handle_type
    get_underlying_type reply_lookup_node inform inform_listener remove_listener new_dht_node_lookup
    new_dht_node_reply
node_lookup-answered decrypt now retrieve answers_a answers_b nonce ch ns id sender a b sound_a
      sound_b free =
    let m = a.dht_chan_map.nonce_message_map in
    let waiting : ChanMap = record { nonce_message_map = store ℕ_discrete nonce ch m } in
    let a1 : DhtNode = record a { dht_chan_map = waiting } in
    let q = new_dht_node_lookup nonce a.dht_my_id id in
    let (bt_b, changed, e_b, _) =
      update_table-IsTable answers_b (record { node_id = a.dht_my_id; address = sender })
        b.bucket_table sound_b in
    let found = alpha_closest id bucket_size bt_b in
    let r = new_dht_node_reply nonce b.dht_my_id found in
    let (bt_a, _, e_a, _) =
      update_table-IsTable answers_a (record { node_id = b.dht_my_id; address = ns.address })
        a.bucket_table sound_a in
    (
      a1,
      record a { bucket_table = bt_a; dht_chan_map = remove_listener nonce waiting },
      record b { bucket_table = bt_b },
      q,
      r,
      found,
      rw (send_lookup_node, send_request, add_listener, load_or_store, free) refl,
      rw (dht_message_listen, e_b) refl,
      (changed, e_b),
      refl,
      refl,
      alpha_closest-length id bucket_size bt_b,
      rw
          (
            dht_message_listen,
            e_a,
            handle_type,
            inform,
            inform_listener,
            load-store_self ℕ_discrete nonce ch m,
          )
          refl,
      ground (arith, load-delete ℕ_discrete nonce nonce (store ℕ_discrete nonce ch m)),
    )
