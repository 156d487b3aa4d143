-- ===== src/Crawl.antt =====
-- gossiper/webcrawler.go: how the crawler's links and keywords are split among the nodes and into
-- packets. The size of an item is its length or that of its protobuf encoding, a parameter, and so are
-- the hash of a link and the nodes that a lookup gives for it.
pub mod Batches
pub mod Domains
use peerster.Base.{
  Bool, Bytes, Bytes-discrete, List, Map, [], false, if◌then◌else◌, is_yes, length, load, ltb, none,
  some, store, true, ℕ, ℕ_discrete, ◌++◌, ◌+◌, ◌∷◌,
}
use peerster.Dht.Types.{NodeState}

abbrev pub udp_max_size : ℕ
udp_max_size = 7500

module _ {A : Type 0} (item_length : A → ℕ) where
  -- The loop: the open packet and its size.
  unfoldable pub batch_loop : List A → List A → ℕ → List (List A)
  batch_loop [] packet packet_size = if ltb 0 (length packet) then packet ∷ [] else []
  batch_loop (item ∷ items) packet packet_size =
      let size = packet_size + item_length item in
      let joined = batch_loop items (packet ++ item ∷ []) size in
      let next = batch_loop items [] 0 in if ltb size udp_max_size then joined else packet ∷ next

  abbrev pub create_udp_batches : List A → List (List A)
  create_udp_batches items = batch_loop items [] 0

unfoldable pub NodeState-discrete : Discrete NodeState
NodeState-discrete = hlevel ℕ_discrete

abbrev pub Domains : Type 0
Domains = Map NodeState (List Bytes)

-- `append` to the links of an owner.
unfoldable pub add_to_domain : NodeState → Bytes → Domains → Domains
add_to_domain owner link domains = elim (load NodeState-discrete owner domains) [
  | none ↦ store NodeState-discrete owner (link ∷ []) domains
  | some links ↦ store NodeState-discrete owner (links ++ link ∷ []) domains
]

module _ (lookup_nodes : Bytes → List NodeState) where
  -- The first loop of `distributeHyperlinks`: the domains, and whether the packet is tried again
  -- because a lookup gave no node.
  unfoldable pub domains_loop : List Bytes → Domains → Domains × Bool
  domains_loop [] domains = (domains, false)
  domains_loop (link ∷ links) domains = elim (lookup_nodes link) [
    | [] ↦ (domains, true)
    | owner ∷ closest ↦ domains_loop links (add_to_domain owner link domains)
  ]

  -- The second loop: the links for the own queue, and those that are sent to others.
  unfoldable pub share_out : Bytes → Domains → List Bytes × Domains
  share_out address [] = ([], [])
  share_out address ((owner, links) ∷ domains) =
      let (own, others) = share_out address domains in
      if is_yes (Bytes-discrete owner.address address)
      then (links ++ own, others)
      else (own, (owner, links) ∷ others)

  unfoldable pub distribute_hyperlinks : Bytes → List Bytes → (List Bytes × Domains) × Bool
  unfolding domains_loop share_out
  distribute_hyperlinks address links =
      let (domains, again) = domains_loop links [] in (share_out address domains, again)
