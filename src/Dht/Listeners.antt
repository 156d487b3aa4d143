-- ===== src/Dht/Listeners.antt =====
-- dht/chanMap.go: who waits for the reply to which request.
pub mod Once
use peerster.Base.{Bool, Map, Option, delete, load, load_or_store, none, not, some, ℕ, ℕ_discrete}
use peerster.Dht.Types.{Message}

-- A channel is a number.
pub record ChanMap : Type 0 where
  pub nonce_message_map : Map ℕ ℕ

unfoldable pub add_listener : ℕ → ℕ → ChanMap → ChanMap × ℕ × Bool
add_listener nonce c_msg cm =
    let (c, loaded, m) = load_or_store ℕ_discrete nonce c_msg cm.nonce_message_map in
    (record { nonce_message_map = m }, c, not loaded)

unfoldable pub remove_listener : ℕ → ChanMap → ChanMap
remove_listener nonce cm = record {
  nonce_message_map = delete ℕ_discrete nonce cm.nonce_message_map;
}

-- The message and the channel that it is put on, if somebody waits for it.
unfoldable pub inform_listener : ℕ → Message → ChanMap → ChanMap × Option (ℕ × Message)
inform_listener nonce message cm = elim (load ℕ_discrete nonce cm.nonce_message_map) [
  | none ↦ (cm, none)
  | some c ↦ (remove_listener nonce cm, some (c, message))
]
