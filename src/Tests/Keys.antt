-- ===== src/Tests/Keys.antt =====
-- Cases for the keys of peers.
use peerster.Dto.Packet.{DiffieHellman as DiffieHellmanPacket}
use peerster.Base.{
  Bytes, Bytes-discrete, List, Map, Option, [], get_elem?, if◌then◌else◌, load, none, refl, some,
  true, ℕ, ℕ_discrete, ◌+◌, ◌∷◌, ◌≡◌,
}
use peerster.Gossip.Node.{bytes_eq}
use peerster.Keys.{
  DiffieHellman, digits, generate_public_key, generate_symmetric_key, new_diffie_hellman,
  read_number, to_bytes,
}
use peerster.Keys.Sessions.{
  DiffieHellmanSession, active_key, clean_map, decrypt_with, expired, last_session,
  new_diffie_hellman_session, seconds, valid_loop,
}
use peerster.Keys.Sessions.Usable.{active_key-clean, decrypt_with-last}
use peerster.Keys.Negotiation.{
  Crypto, KeyHolder, accepts, acknowledge_reply, append_at, diffie_acknowledge, exchange_of,
  finish_negotiation, keep_key, reply_negotiation, sign_packet, start_negotiation,
  verify_public_key,
}
use peerster.Keys.Negotiation.Handshake.{first, handshake-same_key, reply}

-- Two sessions, the first of which has expired at 100.
abbrev old_session : DiffieHellmanSession
old_session = new_diffie_hellman_session (7 ∷ []) 50

abbrev new_session : DiffieHellmanSession
new_session = new_diffie_hellman_session (8 ∷ []) 100000000000

abbrev outgoing : Map Bytes (List DiffieHellmanSession)
outgoing = (1 ∷ [], old_session ∷ new_session ∷ []) ∷ []

active_key-clean_example :
    active_key 60000000000 (1 ∷ []) (clean_map 60000000000 outgoing) ≡ some (8 ∷ [])
unfolding active_key Bytes-discrete ℕ_discrete load valid_loop expired new_diffie_hellman_session
active_key-clean_example = active_key-clean 60000000000 (1 ∷ []) outgoing (8 ∷ []) refl

-- A text is sealed with its first byte.
abbrev open_with : Bytes → Bytes → Option Bytes
open_with key [] = none
open_with key (b ∷ text) = if bytes_eq key (b ∷ []) then some text else none

decrypt_with-last_example :
    decrypt_with open_with 5 (old_session ∷ new_session ∷ []) (7 ∷ 1 ∷ []) ≡ none
unfolding last_session Bytes-discrete ℕ_discrete new_diffie_hellman_session
decrypt_with-last_example =
    decrypt_with-last open_with 5 (old_session ∷ new_session ∷ []) new_session (7 ∷ 1 ∷ []) refl

-- Every packet is signed well, a number is its own text, and a peer stands under its identifier.
abbrev crypto : Crypto
crypto = record {
  sha256 = λ bs. bs;
  sign = λ packet. ([], []);
  verify = λ packet. true;
  to_hex = λ n. n ∷ [];
  of_hex = λ text. get_elem? text 0;
  lookup_nodes = λ id. record { node_id = id; address = id } ∷ [];
}

abbrev peer : ℕ → KeyHolder
peer n = record {
  name = n ∷ [];
  dht_my_id = n ∷ [];
  diffie_hellman_map = [];
  active_outgoing = [];
  active_ingoing = [];
}

abbrev dh_1 : DiffieHellman
dh_1 = new_diffie_hellman 5 23 6

abbrev dh_2 : DiffieHellman
dh_2 = new_diffie_hellman 5 23 15

abbrev sent : DiffieHellmanPacket
sent = first crypto 5 23 6 15 1000 2000 3 4 (peer 1) (peer 2) (1 ∷ []) (2 ∷ []) (9 ∷ [])

abbrev replied : DiffieHellmanPacket
replied = reply crypto 5 23 6 15 1000 2000 3 4 (peer 1) (peer 2) (1 ∷ []) (2 ∷ []) (9 ∷ [])

abbrev ack_1 : DiffieHellmanPacket
ack_1 = diffie_acknowledge crypto 1000 (9 ∷ []) (peer 1)

abbrev ack_2 : DiffieHellmanPacket
ack_2 = diffie_acknowledge crypto 2000 (9 ∷ []) (peer 2)

abbrev shared : DiffieHellmanSession
shared = new_diffie_hellman_session (2 ∷ []) (1000 + seconds 60)

handshake-same_key_example :
    (exchange_of crypto 15 sent ≡ some dh_2)
    × (acknowledge_reply crypto (2 ∷ []) (9 ∷ []) 1000 (some replied) (peer 1) ≡ some ack_1)
    × (keep_key crypto dh_2 (1 ∷ []) (1 ∷ []) 2000 sent (some ack_1) (peer 2)
        ≡ (record (peer 2) { active_ingoing = append_at (1 ∷ []) shared [] }, some ack_2))
    × (finish_negotiation crypto dh_1 (2 ∷ []) (2 ∷ []) replied ack_1 (some ack_2) (peer 1)
        ≡ (record (peer 1) { active_outgoing = append_at (2 ∷ []) shared [] }, some (2 ∷ [])))
unfolding start_negotiation reply_negotiation accepts diffie_acknowledge sign_packet
    new_diffie_hellman verify_public_key Bytes-discrete ℕ_discrete generate_symmetric_key
    generate_public_key read_number to_bytes digits
handshake-same_key_example =
    handshake-same_key crypto 5 23 6 15 1000 2000 3 4 (peer 1) (peer 2) (1 ∷ []) (2 ∷ []) (9 ∷ [])
      (2 ∷ []) refl refl refl refl refl refl
