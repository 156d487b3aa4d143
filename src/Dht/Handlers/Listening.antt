-- ===== src/Dht/Handlers/Listening.antt =====
-- gossiper/dht.go: the routine that reads the messages of the hash table. AES-GCM, what the own store
-- has for a key, and whether a node answers a ping are parameters or arguments.
use peerster.Dht.Types.{
  Message, MessageType, NodeState, ValueLookup, get_underlying_type, node_lookup_t, node_reply_t,
  ping_reply_t, ping_t, store_t, unknown_t, value_lookup_t, value_reply_t,
}
use peerster.Base.{
  Bool, Bytes, Bytes-discrete, Option, if◌then◌else◌, load, none, some, store, take, zero_bytes, ℕ,
  ◌++◌,
}
use peerster.Dht.Buckets.{alpha_closest, bucket_size, update_table}
use peerster.Dht.Listeners.{inform_listener}
use peerster.Dht.Distance.{id_byte_size}
use peerster.Dto.Packet.{Outcome, deref, nil_pointer, ok, ◌>>=◌}
use peerster.Gossip.Node.{Send}
use peerster.Keys.Sessions.{decrypt_with}
use peerster.Dht.Handlers.{
  DhtNode, dht_packet, new_dht_value_reply_data, new_dht_value_reply_nodes, reply_lookup_node,
  reply_ping,
}

-- What comes of a message: a packet that is sent, a message for `replyStore`, a message for a channel
-- that waits, or nothing.
pub data Handled : Type 0 where
  answered : Send → Handled
  stored : Message → Handled
  informed : ℕ → Message → Handled
  discarded : Handled

unfoldable pub inform : Message → DhtNode → DhtNode × Handled
unfolding inform_listener
inform msg g =
    let (chans, found) = inform_listener msg.nonce msg g.dht_chan_map in
    (
      record g { dht_chan_map = chans },
      elim found [ none ↦ discarded | some (ch, m) ↦ informed ch m ],
    )

-- The end of `replyLookupKey`: what the own store has for the key, or the closest nodes.
unfoldable pub value_reply_of :
    (Bytes → Bytes → Option Bytes) → Bytes → Bytes → Message → ValueLookup → DhtNode → Send
unfolding new_dht_value_reply_data new_dht_value_reply_nodes
value_reply_of retrieve sender_addr key lookup_key l g =
    let msg : Message = elim (retrieve key l.db_bucket) [
      | some data_bytes ↦
          new_dht_value_reply_data lookup_key.nonce g.dht_my_id data_bytes l.encrypted
      | none ↦
          new_dht_value_reply_nodes lookup_key.nonce g.dht_my_id
            (alpha_closest l.key bucket_size g.bucket_table)
    ] in
    (dht_packet msg, sender_addr)

module _ (decrypt : Bytes → Bytes → Option Bytes) (now : ℕ) where
  -- The sessions with the sender are tried on a text; `none` where there is no session with it.
  unfoldable pub open_from : Bytes → Bytes → DhtNode → Option (Option Bytes × DhtNode)
  unfolding decrypt_with
  open_from sender_id cipher_text g = elim (load Bytes-discrete sender_id g.active_ingoing) [
    | none ↦ none
    | some sessions ↦ elim (decrypt_with decrypt now sessions cipher_text) [
      | none ↦ some (none, g)
      | some (text, sessions') ↦ some (
        some text,
        record g { active_ingoing = store Bytes-discrete sender_id sessions' g.active_ingoing },
      )
    ]
  ]

  -- The key that is looked up; `copy` into an array that holds zeros.
  unfoldable pub key_of_lookup : Bytes → ValueLookup → DhtNode → Option (Bytes × DhtNode)
  unfolding open_from
  key_of_lookup sender_id l g =
      if l.encrypted
      then elim (open_from sender_id l.encrypted_key g) [
        | none ↦ none
        | some (none, g') ↦ some (zero_bytes id_byte_size, g')
        | some (some text, g') ↦ some (take id_byte_size (text ++ zero_bytes id_byte_size), g')
      ]
      else some (l.key, g)

  -- `dhtMessageListenRoutine`'s case of a store.
  unfoldable pub take_store : Message → DhtNode → Outcome (DhtNode × Handled)
  unfolding open_from
  take_store msg g = deref msg.store (λ st.
      if st.encrypted
      then elim (open_from msg.sender_id st.data_bytes g) [
        | none ↦ (g, discarded)
        | some (none, g') ↦ (g', discarded)
        | some (some text, g') ↦
            (g', stored (record msg { store = some (record st { data_bytes = text }) }))
      ]
      else (g, stored msg))

  module _ (retrieve : Bytes → Bytes → Option Bytes) where
    unfoldable pub reply_lookup_key : Bytes → Message → DhtNode → Outcome (DhtNode × Handled)
    unfolding key_of_lookup value_reply_of
    reply_lookup_key sender_addr lookup_key g = deref lookup_key.value_lookup (λ l.
        elim (key_of_lookup lookup_key.sender_id l g) [
          | none ↦ (g, discarded)
          | some (key, g') ↦
              (g', answered (value_reply_of retrieve sender_addr key lookup_key l g'))
        ])

    unfoldable pub handle_type :
        MessageType → Bytes → Message → DhtNode → Outcome (DhtNode × Handled)
    unfolding reply_ping reply_lookup_node reply_lookup_key take_store inform
    handle_type ping_t sender msg g = ok (g, answered (reply_ping sender msg g))
    handle_type node_lookup_t sender msg g = do
      sent ← reply_lookup_node sender msg g
      ok (g, answered sent)
    handle_type value_lookup_t sender msg g = reply_lookup_key sender msg g
    handle_type ping_reply_t sender msg g = ok (inform msg g)
    handle_type node_reply_t sender msg g = ok (inform msg g)
    handle_type value_reply_t sender msg g = deref msg.value_reply (λ r. inform msg g)
    handle_type store_t sender msg g = take_store msg g
    handle_type unknown_t sender msg g = ok (g, discarded)

    -- One round of `dhtMessageListenRoutine`. `answers` says which nodes answer a ping.
    unfoldable pub dht_message_listen :
        (NodeState → Bool) → Bytes → Message → DhtNode → Outcome (DhtNode × Handled)
    unfolding update_table get_underlying_type handle_type
    dht_message_listen answers sender msg g =
        elim (update_table answers (record { node_id = msg.sender_id; address = sender })
          g.bucket_table) [
            | none ↦ nil_pointer
            | some (bt, changed) ↦
                handle_type (get_underlying_type msg) sender msg (record g { bucket_table = bt })
          ]
