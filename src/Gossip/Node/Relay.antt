-- ===== src/Gossip/Node/Relay.antt =====
-- Properties of a packet that is routed from peer to peer.
use peerster.Base.{
  Bool-cases, Bytes, List, Option-cases, [], ap, arith, if◌then◌else◌, inl, inr, ltb, ltb→lt, none,
  refl, some, suc, sym, ℕ, ◌-◌, ◌<◌, ◌^◌, ◌∙◌, ◌∷◌, ◌≡◌,
}
use peerster.Dto.Packet.{GossipPacket, Outcome, get_underlying_type, ok, ok-injective, ◌>>=◌}
use peerster.Dto.Getters.{get_destination, get_hop_limit}
use peerster.Dto.Hops.{dec32, u32_mod}
use peerster.Dto.Safety.{IsRouted, Routed, Routed_lem}
use peerster.Routing.{get_next_hop}
use peerster.Gossip.Node.{Gossiper, forward}

-- How often a packet is sent on along a path of peers, each of which runs `forward` on what the one
-- before it sent.
unfoldable pub relay : List Gossiper → GossipPacket → Outcome ℕ
relay [] packet = ok 0
relay (g ∷ gs) packet = do
  (packet', sends) ← forward packet g
  elim sends [ [] ↦ ok 0 | s ∷ rest ↦ do n ← relay gs packet'; ok (suc n) ]

-- What `forward` does with a routed packet.
pub forward-Routed :
    (packet : GossipPacket) (g : Gossiper)
    → (r : Routed packet)
    → forward packet g
      ≡ ok (
        r.next,
        if ltb 0 (dec32 r.hops)
            then elim (get_next_hop r.target g.routing_table) [
              | none ↦ []
              | some next_hop ↦ (r.next, next_hop) ∷ []
            ]
            else [],
      )
unfolding forward
forward-Routed packet g r = ground (arith, r.decremented, r.next_destination)

-- A routed packet with a hop limit from 1 to 2^32 - 1 is sent on fewer times than its limit, along
-- every path of peers, whatever their routing tables say; no peer on the path exits its process.
pub relay_bound :
    (h : ℕ) (gs : List Gossiper) (packet : GossipPacket)
    → IsRouted (get_underlying_type packet)
    → get_hop_limit packet ≡ ok h
    → 0 < h
    → h < u32_mod
    → (n : ℕ) × (relay gs packet ≡ ok n) × (n < h)
unfolding relay dec32
relay_bound h [] packet k e pos small = (0, refl, pos)
relay_bound h (g ∷ gs) packet k e pos small =
    let r = Routed_lem packet k in
    let same : r.hops ≡ h = ok-injective (sym r.has_hops ∙ e) in
    let less : dec32 r.hops ≡ h - 1 = omega (arith, same) in
    elim (Bool-cases (ltb 0 (h - 1))) [
      | inl more ↦
          let rest =
            relay_bound (h - 1) gs r.next (rw r.next_type k) (r.next_hops ∙ ap ok less)
              (ltb→lt 0 (h - 1) more) (omega arith) in
          elim (Option-cases (get_next_hop r.target g.routing_table)) [
            | inl lost ↦ (0, ground (arith, forward-Routed packet g r), pos)
            | inr (hop, found) ↦ (
              suc rest.0,
              ground (arith, forward-Routed packet g r, rest.1),
              omega (arith, rest.2),
            )
          ]
      | inr last ↦ (0, ground (arith, forward-Routed packet g r), pos)
    ]

-- A routed packet that arrives with hop limit 0, at a peer that knows a next hop to its destination,
-- is sent on, with the hop limit 2^32 - 1.
forward-wraps :
    (packet : GossipPacket) (g : Gossiper) (destination next_hop : Bytes)
    → IsRouted (get_underlying_type packet)
    → get_hop_limit packet ≡ ok 0
    → get_destination packet ≡ ok destination
    → get_next_hop destination g.routing_table ≡ some next_hop
    → (p : GossipPacket) × (forward packet g ≡ ok (p, (p, next_hop) ∷ []))
      × (get_hop_limit p ≡ ok (2 ^ 32 - 1))
unfolding dec32
forward-wraps packet g destination next_hop k e d hop =
    let r = Routed_lem packet k in
    let zero_hops : r.hops ≡ 0 = ok-injective (sym r.has_hops ∙ e) in
    let same : r.target ≡ destination = ok-injective (sym r.has_destination ∙ d) in
    let wrapped : dec32 r.hops ≡ 2 ^ 32 - 1 = omega (arith, zero_hops) in
    (r.next, ground (arith, forward-Routed packet g r), r.next_hops ∙ ap ok wrapped)
