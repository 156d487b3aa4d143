-- ===== src/Files/Sharing/Retries.antt =====
-- Properties of a request that is forwarded again and again.
use peerster.Base.{
  Bool-cases, List, Option-cases, [], ap, arith, inl, inr, length, ltb, refl, suc, sym, ℕ, ◌-◌, ◌<◌,
  ◌∙◌, ◌∷◌, ◌≡◌, ◌≤◌,
}
use peerster.Dto.Packet.{GossipPacket, Outcome, get_underlying_type, ok, ok-injective}
use peerster.Dto.Getters.{get_hop_limit}
use peerster.Dto.Hops.{dec32, u32_mod}
use peerster.Dto.Safety.{IsRouted, Routed_lem}
use peerster.Routing.{get_next_hop}
use peerster.Gossip.Node.{Gossiper, Send}
use peerster.Gossip.Node.Relay.{forward-Routed}
use peerster.Files.Sharing.{retransmit}

as_ok : (r : Outcome ℕ) (a b : ℕ) → r ≡ ok a → a ≡ b → r ≡ ok b
as_ok r a b e same = e ∙ ap ok same

-- Each transmission takes a hop from the one packet that is sent again: after `n` transmissions of a
-- routed packet with hop limit `h`, where `n` is at most `h` and `h` is a uint32, the packet has hop
-- limit `h - n`, and at most `h - 1` packets went out (none if `h` is 0).
pub retransmit-hop_limit :
    (h : ℕ) (ticks : List Gossiper) (packet : GossipPacket)
    → IsRouted (get_underlying_type packet)
    → get_hop_limit packet ≡ ok h
    → h < u32_mod
    → length ticks ≤ h
    → (p : GossipPacket) × (sends : List Send) × (retransmit ticks packet ≡ ok (p, sends))
      × (get_hop_limit p ≡ ok (h - length ticks))
      × (length sends ≤ h - 1)
unfolding retransmit dec32
retransmit-hop_limit h [] packet k e small few =
    let all : h ≡ h - 0 = omega arith in (packet, [], refl, e ∙ ap ok all, omega arith)
retransmit-hop_limit h (g ∷ ticks) packet k e small few =
    let r = Routed_lem packet k in
    let same : r.hops ≡ h = ok-injective (sym r.has_hops ∙ e) in
    let less : dec32 r.hops ≡ h - 1 = omega (arith, same, few) in
    let rest =
      retransmit-hop_limit (h - 1) ticks r.next (rw r.next_type k) (r.next_hops ∙ ap ok less)
        (omega arith) (omega (arith, few)) in
    let left : h - 1 - length ticks ≡ h - suc (length ticks) = omega arith in
    elim (Bool-cases (ltb 0 (h - 1))) [
      | inl more ↦ elim (Option-cases (get_next_hop r.target g.routing_table)) [
        | inl lost ↦ (
          rest.0,
          rest.1,
          ground (arith, forward-Routed packet g r, rest.2),
          as_ok _ _ _ rest.3 left,
          omega (arith, rest.4),
        )
        | inr (hop, found) ↦ (
          rest.0,
          (r.next, hop) ∷ rest.1,
          ground (arith, forward-Routed packet g r, rest.2),
          as_ok _ _ _ rest.3 left,
          ground (arith, rest.4),
        )
      ]
      | inr last ↦ (
        rest.0,
        rest.1,
        ground (arith, forward-Routed packet g r, rest.2),
        as_ok _ _ _ rest.3 left,
        omega (arith, rest.4),
      )
    ]
