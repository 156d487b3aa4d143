-- ===== src/Search/Requests/Flood.antt =====
-- Properties of a search request that spreads from peer to peer.
use mathlib.Core.List.{map}
use peerster.Base.{
  All, All-mono, Bytes, List, [], arith, map, none, some, suc, zero, ℕ, ◌+◌, ◌-◌, ◌<◌, ◌∷◌, ◌≡◌,
  ◌≤◌,
}
use peerster.Dto.Packet.{SearchRequest}
use peerster.Gossip.Node.{Gossiper, Send, no_packet}
use peerster.Gossip.Status.{string_array_difference}
use peerster.Search.Requests.{budgets, dec64, forward_search_request, int_max}
use peerster.Search.Requests.Split.{budgets-range, budgets-total, total}

-- The requests among some packets, and what each of them causes.
unfoldable pub count_sends : (SearchRequest → Bytes → ℕ) → List Send → ℕ
count_sends causes [] = 0
count_sends causes ((packet, peer) ∷ sends) =
    elim packet.search_request [ none ↦ 0 | some sreq ↦ suc (causes sreq peer) ]
    + count_sends causes sends

-- How many requests are sent within `rounds` steps because a request reached a peer, if no peer ever
-- ignores one as a repeat. `net` has the state of each peer by its address.
unfoldable pub flood : (Bytes → Gossiper) → ℕ → SearchRequest → Bytes → Bytes → ℕ
unfolding count_sends
flood net zero sreq peer sender = 0
flood net (suc rounds) sreq peer sender =
    count_sends (λ sreq' next. flood net rounds sreq' next peer)
      (forward_search_request (record sreq { budget = dec64 sreq.budget }) sender (net peer))

abbrev request : SearchRequest → Bytes × ℕ → Send
request sreq b = (record no_packet { search_request = some (record sreq { budget = b.1 }) }, b.0)

-- If a request causes fewer requests than its budget, all together cause no more than the budgets.
count_sends-le :
    (causes : SearchRequest → Bytes → ℕ) (sreq : SearchRequest) (bs : List (Bytes × ℕ))
    → All (λ b. causes (record sreq { budget = b.1 }) b.0 < b.1) bs
    → count_sends causes (map (request sreq) bs) ≤ total bs
unfolding count_sends total
count_sends-le causes sreq [] h = omega arith
count_sends-le causes sreq (b ∷ bs) h = omega (arith, count_sends-le causes sreq bs h.1, h.0)

-- A request with a budget from 1 to 2^63 - 1 that reaches a peer causes fewer requests than its
-- budget in the whole network, within any number of rounds and whatever the peers know of each
-- other, even if no peer ever ignores a repeat.
pub flood_bound :
    (net : Bytes → Gossiper) (rounds : ℕ) (sreq : SearchRequest) (peer sender : Bytes)
    → 0 < sreq.budget
    → sreq.budget < int_max
    → flood net rounds sreq peer sender < sreq.budget
unfolding flood forward_search_request dec64
flood_bound net zero sreq peer sender pos small = pos
flood_bound net (suc rounds) sreq peer sender pos small =
    let less : dec64 sreq.budget ≡ sreq.budget - 1 = omega (arith, pos, small) in
    let sreq' = record sreq { budget = dec64 sreq.budget } in
    let peers = string_array_difference (net peer).peers.array (sreq.origin ∷ sender ∷ []) in
    let causes : SearchRequest → Bytes → ℕ = λ r next. flood net rounds r next peer in
    let bs = budgets (dec64 sreq.budget) peers in
    let each =
      All-mono (λ b. (0 < b.1) × (b.1 < int_max))
        (λ b. causes (record sreq' { budget = b.1 }) b.0 < b.1) bs
        (λ b h. flood_bound net rounds (record sreq' { budget = b.1 }) b.0 peer h.0 h.1)
        (budgets-range (dec64 sreq.budget) peers (omega (arith, less))) in
    omega (
      arith,
      count_sends-le causes sreq' bs each,
      budgets-total (dec64 sreq.budget) peers,
      less,
      pos,
    )
