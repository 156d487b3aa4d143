-- ===== src/Keys/Negotiation/Handshake.antt =====
-- gossiper/diffiehellman.go: a whole negotiation between two peers.
use peerster.Keys.Agreement.{keys-agree}
use peerster.Dto.Packet.{DiffieHellman as DiffieHellmanPacket}
use peerster.Base.{Bytes, refl, some, sym, true, ℕ, ◌+◌, ◌∙◌, ◌≡◌}
use peerster.Keys.{DiffieHellman, generate_public_key, generate_symmetric_key, new_diffie_hellman}
use peerster.Keys.Negotiation.{
  Crypto, KeyHolder, accepts, acknowledge_reply, append_at, diffie_acknowledge, exchange_of,
  finish_negotiation, keep_key, reply_negotiation, sign_packet, start_negotiation,
  wait_for_acknowledge,
}
use peerster.Keys.Sessions.{new_diffie_hellman_session, seconds}

module _ (crypto : Crypto) (group p a b now_a now_b ch_a ch_b : ℕ) where
  module _ (alice bob : KeyHolder) (addr_a addr_b token : Bytes) where
    abbrev dh_a : DiffieHellman
    dh_a = new_diffie_hellman group p a

    abbrev dh_b : DiffieHellman
    dh_b = new_diffie_hellman group p b

    -- The packets in their order: the first, its reply, and both acknowledgements.
    abbrev pub first : DiffieHellmanPacket
    first = (start_negotiation crypto dh_a addr_b bob.dht_my_id token ch_a alice).1

    abbrev pub reply : DiffieHellmanPacket
    reply = (reply_negotiation crypto dh_b addr_a alice.dht_my_id ch_b first bob).1

    abbrev pub ack_a : DiffieHellmanPacket
    ack_a = diffie_acknowledge crypto now_a token alice

    abbrev pub ack_b : DiffieHellmanPacket
    ack_b = diffie_acknowledge crypto now_b token bob

    -- Let the text of a number read back as the number, and let each peer accept the packets of the
    -- other. When all four packets of a negotiation arrive in time, both peers take part in it with the
    -- same group, and both then hold a session with the other under the same key, which expires at the
    -- same time, 60 seconds after the first acknowledgement.
    pub handshake-same_key :
        (k : Bytes)
        → crypto.of_hex (crypto.to_hex p) ≡ some p
        → crypto.of_hex (crypto.to_hex group) ≡ some group
        → accepts crypto addr_b reply ≡ true
        → accepts crypto addr_a ack_a ≡ true
        → accepts crypto addr_b ack_b ≡ true
        → generate_symmetric_key crypto.sha256 dh_a (generate_public_key dh_b) ≡ k
        → let session = new_diffie_hellman_session k (now_a + seconds 60) in
          (exchange_of crypto b first ≡ some dh_b)
          × (acknowledge_reply crypto addr_b token now_a (some reply) alice ≡ some ack_a)
          × (keep_key crypto dh_b addr_a alice.dht_my_id now_b first (some ack_a) bob ≡ (
            record bob { active_ingoing = append_at alice.dht_my_id session bob.active_ingoing },
            some ack_b,
          ))
          × (finish_negotiation crypto dh_a addr_b bob.dht_my_id reply ack_a (some ack_b) alice ≡ (
            record alice {
              active_outgoing = append_at bob.dht_my_id session alice.active_outgoing;
            },
            some k,
          ))
    unfolding start_negotiation reply_negotiation exchange_of acknowledge_reply keep_key
        finish_negotiation wait_for_acknowledge diffie_acknowledge sign_packet new_diffie_hellman
    handshake-same_key k hex_p hex_g ok_reply ok_a ok_b key =
        let key_b : generate_symmetric_key crypto.sha256 dh_b (generate_public_key dh_a) ≡ k =
          sym (keys-agree crypto.sha256 group p a b) ∙ key in
        (
          rw (exchange_of, hex_g, hex_p) refl,
          rw (acknowledge_reply, ok_reply) refl,
          rw (keep_key, wait_for_acknowledge, ok_a, key_b) refl,
          rw (finish_negotiation, wait_for_acknowledge, ok_b, key) refl,
        )
