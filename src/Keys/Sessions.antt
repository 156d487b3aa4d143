-- ===== src/Keys/Sessions.antt =====
-- The keys that a peer holds: gossiper/diffiehellman.go, getKey of gossiper/webcrawler.go, and the
-- loops of gossiper/dht.go and gossiper/webcrawler.go that try them on a message. `decrypt` stands for
-- AES-GCM, which gives no text where the message was not sealed with the key. Times are nanoseconds.
pub mod Usable
use peerster.Base.{
  Bool, Bytes, Bytes-discrete, List, Map, Option, [], if◌then◌else◌, length, load, ltb, map, none,
  some, suc, true, zero, ℕ, ◌&&◌, ◌*◌, ◌+◌, ◌∷◌,
}
use peerster.Gossip.Node.{bytes_eq}

pub record DiffieHellmanSession : Type 0 where
  pub key : Bytes
  pub last_time_used : ℕ
  pub expiration_date : ℕ

-- The time of last use is Go's zero time.
unfoldable pub new_diffie_hellman_session : Bytes → ℕ → DiffieHellmanSession
new_diffie_hellman_session key expiration_date = record {
  key = key;
  last_time_used = 0;
  expiration_date = expiration_date;
}

abbrev pub seconds : ℕ → ℕ
seconds n = n * 1000000000

unfoldable pub expired : ℕ → DiffieHellmanSession → Bool
expired now ds = ltb ds.expiration_date now

-- The sessions of one peer that the routine keeps.
unfoldable pub clean_sessions : ℕ → List DiffieHellmanSession → List DiffieHellmanSession
clean_sessions now [] = []
clean_sessions now (session ∷ sessions) =
    let rest = clean_sessions now sessions in
    if expired now session && ltb (session.last_time_used + seconds 30) now
    then rest
    else session ∷ rest

-- The range over a map of sessions, with the new slice put under the same key.
unfoldable pub clean_map :
    ℕ → Map Bytes (List DiffieHellmanSession) → Map Bytes (List DiffieHellmanSession)
unfolding clean_sessions
clean_map now m = map (λ (e : Bytes × List DiffieHellmanSession). (e.0, clean_sessions now e.1)) m

pub record DiffieHellmanNegotiationSession : Type 0 where
  pub ch : ℕ
  pub id : Bytes

unfoldable pub get_session :
    List DiffieHellmanNegotiationSession → Bytes → Option DiffieHellmanNegotiationSession
get_session [] id = none
get_session (session ∷ sessions) id =
    let rest = get_session sessions id in if bytes_eq session.id id then some session else rest

-- The loop of `getKey`: whether the last session that it came to has expired, and the last one that
-- has not.
unfoldable pub valid_loop :
    ℕ
    → List DiffieHellmanSession
    → Bool
    → Option DiffieHellmanSession
    → Bool × Option DiffieHellmanSession
valid_loop now [] all_expired valid = (all_expired, valid)
valid_loop now (session ∷ sessions) all_expired valid =
    valid_loop now sessions (expired now session)
      (if expired now session then valid else some session)

-- The key that `getKey` answers with at once; `none` where it negotiates a new one.
unfoldable pub active_key : ℕ → Bytes → Map Bytes (List DiffieHellmanSession) → Option Bytes
unfolding valid_loop
active_key now node_id outgoing = elim (load Bytes-discrete node_id outgoing) [
  | none ↦ none
  | some sessions ↦
      let (all_expired, valid) = valid_loop now sessions true none in
      if all_expired then none else elim valid [ none ↦ none | some session ↦ some session.key ]
]

-- `sessions[len(sessions)-1]`, and the slice with another last entry.
unfoldable pub last_session : List DiffieHellmanSession → Option DiffieHellmanSession
last_session [] = none
last_session (s ∷ []) = some s
last_session (s ∷ t ∷ sessions) = last_session (t ∷ sessions)

unfoldable pub touch_last : ℕ → List DiffieHellmanSession → List DiffieHellmanSession
touch_last now [] = []
touch_last now (s ∷ []) = record s { last_time_used = now } ∷ []
touch_last now (s ∷ t ∷ sessions) = s ∷ touch_last now (t ∷ sessions)

module _ (decrypt : Bytes → Bytes → Option Bytes) (now : ℕ) where
  -- The loop over the indices, which reads the last session each time.
  unfoldable pub decrypt_loop :
      ℕ → List DiffieHellmanSession → Bytes → Option (Bytes × List DiffieHellmanSession)
  decrypt_loop zero sessions cipher_text = none
  decrypt_loop (suc n) sessions cipher_text =
      let more = decrypt_loop n sessions cipher_text in
      elim (last_session sessions) [
        | none ↦ none
        | some session ↦ elim (decrypt session.key cipher_text) [
          | some text ↦ some (text, touch_last now sessions)
          | none ↦ more
        ]
      ]

  unfoldable pub decrypt_with :
      List DiffieHellmanSession → Bytes → Option (Bytes × List DiffieHellmanSession)
  unfolding decrypt_loop
  decrypt_with sessions cipher_text = decrypt_loop (length sessions) sessions cipher_text
