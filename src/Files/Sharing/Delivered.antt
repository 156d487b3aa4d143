-- ===== src/Files/Sharing/Delivered.antt =====
-- Properties of the data that a download is given.
use peerster.Base.{
  Bool-cases, Bytes, Bytes-discrete, Option-cases, ap, arith, inl, inr, load, refl, some, sym, true,
  ℕ, ◌∙◌, ◌≡◌,
}
use peerster.Dto.Packet.{
  DataReply, GossipPacket, Outcome, deref, fatal, nil_pointer, ok, ok-injective, ◌>>=◌,
}
use peerster.Dto.Getters.{
  PacketAddressPair, get_data, get_destination, get_hash_value, get_origin, get_sender_address,
}
use peerster.Files.Parsing.{convert_to_hash32, verify_data_hash}
use peerster.Files.Entries.{DlChanMap, inform_listener}
use peerster.Files.Sharing.{FileRound, Sharer, data_reply_listen}
use peerster.Gossip.Node.{bytes_eq}

>>=-ok {ℓ κ} :
    {A : Type ℓ} {B : Type κ} (r : Outcome A) (f : A → Outcome B) (b : B)
    → (r >>= f) ≡ ok b
    → (a : A) × (r ≡ ok a) × (f a ≡ ok b)
>>=-ok (ok a) f b h = (a, refl, h)
>>=-ok (fatal e) f b h = absurd (ground arith)
>>=-ok nil_pointer f b h = absurd (ground arith)

-- Data can be read from a reply only.
get_data-reply :
    (g : GossipPacket) (payload : Bytes) (m : DataReply)
    → get_data g ≡ ok payload
    → g.data_reply ≡ some m
    → (payload ≡ m.data_bytes) × (get_hash_value g ≡ ok m.hash_value)
unfolding get_data get_hash_value
get_data-reply g payload m h e = ground arith

module _ (sha256 : Bytes → Bytes) where
  -- The payload passed the check against the hash of its packet.
  verified-same :
      (hash hash32 payload : Bytes)
      → verify_data_hash sha256 hash payload ≡ true
      → convert_to_hash32 hash ≡ some hash32
      → sha256 payload ≡ hash32
  unfolding verify_data_hash convert_to_hash32
  verified-same hash hash32 payload v e = ground arith

  inform_listener-told :
      (hash32 payload d : Bytes) (c : ℕ) (dlcm : DlChanMap)
      → (inform_listener hash32 payload dlcm).1 ≡ some (c, d)
      → (load Bytes-discrete hash32 dlcm ≡ some c) × (payload ≡ d)
  unfolding inform_listener
  inform_listener-told hash32 payload d c dlcm h =
      elim (Option-cases (load Bytes-discrete hash32 dlcm)) [
        | inl e ↦ absurd (ground arith)
        | inr (k, e) ↦ (ground arith, ground arith)
      ]

  -- If a data reply that arrives puts data on a channel, the channel is the one on which some download
  -- waits for a checksum, and the data have that checksum.
  pub data_reply_listen-IsVerified :
      (pap : PacketAddressPair) (s : Sharer) (r : FileRound) (c : ℕ) (d : Bytes)
      → data_reply_listen sha256 pap s ≡ ok r
      → r.told ≡ some (c, d)
      → (hash : Bytes) × (load Bytes-discrete hash s.dl_chunk_listeners ≡ some c)
        × (sha256 d ≡ hash)
  unfolding data_reply_listen
  data_reply_listen-IsVerified pap s r c d h told =
      let b1 = >>=-ok (get_sender_address pap) _ r h in
      let b2 = >>=-ok (get_origin pap.packet) _ r b1.2 in
      let b3 = >>=-ok (get_hash_value pap.packet) _ r b2.2 in
      let checked =
        deref pap.packet.data_reply (λ m. verify_data_hash sha256 m.hash_value m.data_bytes) in
      let b4 = >>=-ok checked _ r b3.2 in
      elim (Bool-cases b4.0) [
        | inr bad ↦ absurd (ground (arith, b4.2))
        | inl good ↦
            let b5 = >>=-ok (get_destination pap.packet) _ r (rw good at b4.2) in
            elim (Bool-cases (bytes_eq b5.0 s.gossip.name)) [
              | inr elsewhere ↦ absurd (ground (arith, b5.2))
              | inl here ↦ elim (Option-cases (convert_to_hash32 b3.0)) [
                | inl none_there ↦ absurd (ground (arith, b5.2))
                | inr (hash32, e) ↦
                    let b6 = >>=-ok (get_data pap.packet) _ r (rw (here, e) at b5.2) in
                    elim (Option-cases pap.packet.data_reply) [
                      | inl no_reply ↦ absurd (ground (arith, b4.1))
                      | inr (m, em) ↦
                          let same = get_data-reply pap.packet b6.0 m b6.1 em in
                          let hash_same : b3.0 ≡ m.hash_value = ok-injective (sym b3.1 ∙ same.1) in
                          let sound : verify_data_hash sha256 m.hash_value m.data_bytes ≡ true =
                            ground (arith, b4.1) in
                          let out =
                            inform_listener-told hash32 b6.0 d c s.dl_chunk_listeners
                              (ap (λ (q : FileRound). q.told) (ok-injective b6.2) ∙ told) in
                          (
                            hash32,
                            out.0,
                            ground (
                              arith,
                              verified-same m.hash_value hash32 m.data_bytes sound
                                  (rw hash_same at e),
                              same.0,
                              out.1,
                            ),
                          )
                    ]
              ]
            ]
      ]
