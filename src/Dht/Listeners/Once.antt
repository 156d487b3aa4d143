-- ===== src/Dht/Listeners/Once.antt =====
-- Properties of the listeners of requests.
use peerster.Base.{
  arith, load, load-delete, load-store, load_or_store, none, some, store, ℕ, ℕ_discrete, ◌≡◌, ◌≢◌,
}
use peerster.Dht.Types.{Message}
use peerster.Dht.Listeners.{ChanMap, add_listener, inform_listener, remove_listener}

-- After `AddListener` of a new number the first reply with that number goes to the channel given,
-- every later one nowhere, and a reply after `RemoveListener` nowhere; replies with other numbers
-- go where they went before.
inform_listener-once :
    (nonce other c : ℕ) (first later : Message) (cm : ChanMap)
    → load ℕ_discrete nonce cm.nonce_message_map ≡ none
    → other ≢ nonce
    → let added = (add_listener nonce c cm).0 in
      let informed = inform_listener nonce first added in
      (informed.1 ≡ some (c, first))
      × ((inform_listener nonce later informed.0).1 ≡ none)
      × ((inform_listener nonce first (remove_listener nonce added)).1 ≡ none)
      × ((inform_listener other later informed.0).1 ≡ (inform_listener other later cm).1)
unfolding add_listener inform_listener remove_listener load_or_store
inform_listener-once nonce other c first later cm free ne =
    let m = cm.nonce_message_map in
    let m' = store ℕ_discrete nonce c m in
    ground (
      arith,
      free,
      load-store ℕ_discrete nonce nonce c m,
      load-store ℕ_discrete nonce other c m,
      load-delete ℕ_discrete nonce nonce m',
      load-delete ℕ_discrete nonce other m',
    )
