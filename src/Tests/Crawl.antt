-- ===== src/Tests/Crawl.antt =====
-- Cases for the crawler's links.
use peerster.Base.{All, Bytes, List, [], arith, suc, zero, ℕ, ◌<◌, ◌∷◌, ◌≡◌}
use peerster.Dht.Types.{NodeState}
use peerster.Crawl.{batch_loop, create_udp_batches, udp_max_size}
use peerster.Crawl.Batches.{create_udp_batches-bounded, create_udp_batches-drops, total}

abbrev sizes : List ℕ
sizes = 4000 ∷ 3000 ∷ 500 ∷ 20 ∷ []

create_udp_batches-bounded_example :
    All (λ b. total (λ n. n) b < udp_max_size) (create_udp_batches (λ n. n) sizes)
create_udp_batches-bounded_example = create_udp_batches-bounded (λ n. n) sizes

create_udp_batches-drops_example :
    create_udp_batches (λ n. n) sizes ≡ (4000 ∷ 3000 ∷ []) ∷ (20 ∷ []) ∷ []
unfolding batch_loop
create_udp_batches-drops_example =
    create_udp_batches-drops (λ n. n) (4000 ∷ 3000 ∷ []) 500 (20 ∷ []) (omega arith) (omega arith)

abbrev other : NodeState
other = record { node_id = 2 ∷ []; address = 2 ∷ [] }

-- Links that begin with 0 have no node, the others belong to one node.
abbrev closest_nodes : Bytes → List NodeState
closest_nodes (suc n ∷ rest) = other ∷ []
closest_nodes (zero ∷ rest) = []
closest_nodes [] = []
