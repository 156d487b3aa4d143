-- ===== src/Keys/Negotiation.antt =====
-- gossiper/diffiehellman.go: the exchange between a peer that needs a key and the peer that it needs
-- the key with. Signatures (ECDSA over protobuf), the look-up of a peer's identifier in the hash table,
-- and the hexadecimal text of numbers are parameters. What a routine waits for is an argument, `none`
-- after the timeout; a new secret, token and channel are arguments too.
pub mod Handshake
use peerster.Dto.Packet.{DiffieHellman as DiffieHellmanPacket}
use peerster.Base.{
  Bool, Bytes, Bytes-discrete, List, Map, Option, [], false, if◌then◌else◌, load, none, some, store,
  true, ℕ, ◌&&◌, ◌++◌, ◌+◌, ◌∷◌,
}
use peerster.Dht.Types.{NodeState}
use peerster.Keys.{DiffieHellman, generate_public_key, generate_symmetric_key, new_diffie_hellman}
use peerster.Keys.Sessions.{
  DiffieHellmanNegotiationSession, DiffieHellmanSession, get_session, new_diffie_hellman_session,
  seconds,
}
use peerster.Gossip.Node.{bytes_eq}

pub record KeyHolder : Type 0 where
  pub name : Bytes
  pub dht_my_id : Bytes
  pub diffie_hellman_map : Map Bytes (List DiffieHellmanNegotiationSession)
  pub active_outgoing : Map Bytes (List DiffieHellmanSession)
  pub active_ingoing : Map Bytes (List DiffieHellmanSession)

-- `append(m[k], x)` put under the same key; a missing slice is empty.
unfoldable pub append_at : {A : Type 0} → Bytes → A → Map Bytes (List A) → Map Bytes (List A)
append_at k x m = elim (load Bytes-discrete k m) [
  | none ↦ store Bytes-discrete k (x ∷ []) m
  | some xs ↦ store Bytes-discrete k (xs ++ x ∷ []) m
]

-- A received packet goes to a new negotiation, to one that waits on a channel, or nowhere.
pub data Routed : Type 0 where
  negotiates : Routed
  hands_to : ℕ → Routed
  dropped : Routed

-- `diffieListenRoutine`, of a packet that is not nil.
unfoldable pub diffie_listen : DiffieHellmanPacket → KeyHolder → Routed
unfolding get_session
diffie_listen packet g =
    if packet.init
    then negotiates
    else elim (load Bytes-discrete packet.node_id g.diffie_hellman_map) [
      | none ↦ dropped
      | some sessions ↦ elim (get_session sessions packet.id) [
        | none ↦ dropped
        | some session ↦ hands_to session.ch
      ]
    ]

-- `closest` is what `LookupNodes` gives for the key.
unfoldable pub verify_public_key : Bytes → Bytes → List NodeState → Bool
verify_public_key key sender [] = false
verify_public_key key sender (n ∷ closest) = bytes_eq n.node_id key && bytes_eq n.address sender

-- SHA-256, ECDSA and the text of numbers, and what the lookups of the hash table give.
pub record Crypto : Type 0 where
  pub sha256 : Bytes → Bytes
  pub sign : DiffieHellmanPacket → Bytes × Bytes
  pub verify : DiffieHellmanPacket → Bool
  pub to_hex : ℕ → Bytes
  pub of_hex : Bytes → Option ℕ
  pub lookup_nodes : Bytes → List NodeState

-- A packet with no field set.
abbrev pub blank : DiffieHellmanPacket
blank = record {
  origin = [];
  destination = [];
  hop_limit = 0;
  p = [];
  g = [];
  diffie_public_key = [];
  r = [];
  s = [];
  expiration_date = 0;
  node_id = [];
  init = false;
  id = [];
}

module _ (crypto : Crypto) where
  unfoldable pub sign_packet : DiffieHellmanPacket → DiffieHellmanPacket
  sign_packet packet = let (r, s) = crypto.sign packet in record packet { r = r; s = s }

  unfoldable pub diffie_acknowledge : ℕ → Bytes → KeyHolder → DiffieHellmanPacket
  unfolding sign_packet
  diffie_acknowledge now id g =
      sign_packet
        (record blank { node_id = g.dht_my_id; id = id; expiration_date = now + seconds 60 })

  -- The checks of a reply and of an acknowledgement: the signature is over the packet without it.
  unfoldable pub accepts : Bytes → DiffieHellmanPacket → Bool
  unfolding verify_public_key
  accepts dest packet =
      verify_public_key packet.node_id dest (crypto.lookup_nodes packet.node_id)
      && crypto.verify packet

  -- `waitForAcknowledge`
  unfoldable pub wait_for_acknowledge :
      Bytes → Option DiffieHellmanPacket → Option DiffieHellmanPacket
  unfolding accepts
  wait_for_acknowledge dest response = elim response [
    | none ↦ none
    | some res ↦ if accepts dest res then some res else none
  ]

  -- The first packet of `negotiateDiffieHellmanInitiator`.
  unfoldable pub start_negotiation :
      DiffieHellman → Bytes → Bytes → Bytes → ℕ → KeyHolder → KeyHolder × DiffieHellmanPacket
  unfolding append_at sign_packet generate_public_key
  start_negotiation dh dest node_id token ch g = (
    record g {
      diffie_hellman_map = append_at node_id (record { ch = ch; id = token }) g.diffie_hellman_map;
    },
    sign_packet (record blank {
      origin = g.name;
      destination = dest;
      p = crypto.to_hex dh.p;
      g = crypto.to_hex dh.g;
      diffie_public_key = generate_public_key dh;
      node_id = g.dht_my_id;
      init = true;
      id = token;
    }),
  )

  -- The acknowledgement that it sends after the reply.
  unfoldable pub acknowledge_reply :
      Bytes → Bytes → ℕ → Option DiffieHellmanPacket → KeyHolder → Option DiffieHellmanPacket
  unfolding accepts diffie_acknowledge
  acknowledge_reply dest token now reply g = elim reply [
    | none ↦ none
    | some r ↦ if accepts dest r then some (diffie_acknowledge now token g) else none
  ]

  -- After the other peer's acknowledgement: the key.
  unfoldable pub finish_negotiation :
      DiffieHellman
      → Bytes
      → Bytes
      → DiffieHellmanPacket
      → DiffieHellmanPacket
      → Option DiffieHellmanPacket
      → KeyHolder
      → KeyHolder × Option Bytes
  unfolding wait_for_acknowledge append_at new_diffie_hellman_session generate_symmetric_key
  finish_negotiation dh dest node_id reply ack response g =
      elim (wait_for_acknowledge dest response) [
        | none ↦ (g, none)
        | some _ ↦
            let key = generate_symmetric_key crypto.sha256 dh reply.diffie_public_key in
            (
              record g {
                active_outgoing =
                    append_at node_id (new_diffie_hellman_session key ack.expiration_date)
                      g.active_outgoing;
              },
              some key,
            )
      ]

  -- The exchange of `negotiateDiffieHellman`, with a new secret; `none` is `log.Fatal`.
  unfoldable pub exchange_of : ℕ → DiffieHellmanPacket → Option DiffieHellman
  unfolding new_diffie_hellman
  exchange_of secret packet = elim (crypto.of_hex packet.g) [
    | none ↦ none
    | some group ↦ elim (crypto.of_hex packet.p) [
      | none ↦ none
      | some p ↦ some (new_diffie_hellman group p secret)
    ]
  ]

  -- The reply of `negotiateDiffieHellman`.
  unfoldable pub reply_negotiation :
      DiffieHellman
      → Bytes
      → Bytes
      → ℕ
      → DiffieHellmanPacket
      → KeyHolder
      → KeyHolder × DiffieHellmanPacket
  unfolding append_at sign_packet generate_public_key
  reply_negotiation dh dest node_id ch packet g = (
    record g {
      diffie_hellman_map =
          append_at node_id (record { ch = ch; id = packet.id }) g.diffie_hellman_map;
    },
    sign_packet (record blank {
      origin = g.name;
      destination = dest;
      hop_limit = 10;
      p = packet.p;
      g = packet.g;
      diffie_public_key = generate_public_key dh;
      node_id = g.dht_my_id;
      id = packet.id;
    }),
  )

  -- What `negotiateDiffieHellman` does after the acknowledgement: it sends its own and keeps the key.
  unfoldable pub keep_key :
      DiffieHellman
      → Bytes
      → Bytes
      → ℕ
      → DiffieHellmanPacket
      → Option DiffieHellmanPacket
      → KeyHolder
      → KeyHolder × Option DiffieHellmanPacket
  unfolding wait_for_acknowledge append_at new_diffie_hellman_session generate_symmetric_key
      diffie_acknowledge
  keep_key dh dest node_id now packet response g = elim (wait_for_acknowledge dest response) [
    | none ↦ (g, none)
    | some ack ↦
        let key = generate_symmetric_key crypto.sha256 dh packet.diffie_public_key in
        (
          record g {
            active_ingoing =
                append_at node_id (new_diffie_hellman_session key ack.expiration_date)
                  g.active_ingoing;
          },
          some (diffie_acknowledge now packet.id g),
        )
  ]
