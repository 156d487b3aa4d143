-- ===== src/Crawl/Domains.antt =====
-- gossiper/webcrawler.go: which node gets which link.
use peerster.Base.{
  Bool, Bytes, List, Option, [], false, if◌then◌else◌, is_yes, none, some, true, ◌++◌, ◌∷◌,
}
use peerster.Dht.Types.{NodeState}
use peerster.Crawl.{NodeState-discrete}

-- Links put behind those that are there; nothing for no links.
abbrev pub joined : Option (List Bytes) → List Bytes → Option (List Bytes)
joined none [] = none
joined none (x ∷ xs) = some (x ∷ xs)
joined (some ys) xs = some (ys ++ xs)

module _ (lookup_nodes : Bytes → List NodeState) where
  -- The links whose closest node is the owner, up to the first one without a node.
  unfoldable pub owned : NodeState → List Bytes → List Bytes
  owned owner [] = []
  owned owner (link ∷ links) = elim (lookup_nodes link) [
    | [] ↦ []
    | o ∷ closest ↦
        if is_yes (NodeState-discrete o owner) then link ∷ owned owner links else owned owner links
  ]

  -- Whether a lookup gives no node for some link.
  unfoldable pub some_without_node : List Bytes → Bool
  some_without_node [] = false
  some_without_node (link ∷ links) = elim (lookup_nodes link) [
    | [] ↦ true
    | o ∷ closest ↦ some_without_node links
  ]
