-- ===== src/Dht/Nodes/Select.antt =====
-- Properties of the selections of nodes from the array of a lookup.
use peerster.Base.{
  Bool, List, [], arith, keep, leb, length, not, refl, suc, take, zero, ℕ, ◌&&◌, ◌<◌, ◌||◌, ◌∷◌,
  ◌≡◌,
}
use peerster.Dht.Types.{NodeState}
use peerster.Dht.Nodes.{
  SafeNodeStateArray, alpha_loop, get_alpha_unqueried, get_k_closest_responded,
  get_k_closest_unqueried, has_responded, k_responded_loop, k_unqueried_loop, left, was_queried,
}

module _ (snsa : SafeNodeStateArray) where
  abbrev pub unqueried : NodeState → Bool
  unqueried ns = not (was_queried snsa ns)

  -- Nodes that responded or that were not asked yet.
  abbrev pub live : NodeState → Bool
  live ns = has_responded snsa ns || unqueried ns

  abbrev pub silent : NodeState → Bool
  silent ns = not (has_responded snsa ns) && unqueried ns

  alpha_loop-take :
      (k : ℕ) (ns : List NodeState)
      → alpha_loop snsa (left (suc k)) ns ≡ take (suc k) (keep unqueried ns)
  unfolding alpha_loop
  alpha_loop-take k [] = refl
  alpha_loop-take zero (n ∷ ns) = ground (arith, alpha_loop-take zero ns)
  alpha_loop-take (suc k) (n ∷ ns) =
      ground (arith, alpha_loop-take (suc k) ns, alpha_loop-take k ns)

  k_responded_loop-take :
      (k : ℕ) (ns : List NodeState)
      → k_responded_loop snsa (left (suc k)) ns ≡ (
        take (suc k) (keep (has_responded snsa) ns),
        leb (suc k) (length (keep (has_responded snsa) ns)),
      )
  unfolding k_responded_loop
  k_responded_loop-take k [] = ground arith
  k_responded_loop-take zero (n ∷ ns) = ground (arith, k_responded_loop-take zero ns)
  k_responded_loop-take (suc k) (n ∷ ns) =
      ground (arith, k_responded_loop-take (suc k) ns, k_responded_loop-take k ns)

  k_unqueried_loop-take :
      (k : ℕ) (ns : List NodeState)
      → k_unqueried_loop snsa (left (suc k)) ns ≡ (
        keep silent (take (suc k) (keep live ns)),
        keep (has_responded snsa) (take (suc k) (keep live ns)),
      )
  unfolding k_unqueried_loop
  k_unqueried_loop-take k [] = refl
  k_unqueried_loop-take zero (n ∷ ns) = ground (arith, k_unqueried_loop-take zero ns)
  k_unqueried_loop-take (suc k) (n ∷ ns) =
      ground (arith, k_unqueried_loop-take (suc k) ns, k_unqueried_loop-take k ns)

-- For a positive number the three selections are: the closest unqueried nodes; the closest nodes that
-- responded, with whether there are that many; and the closest nodes that responded or were not
-- asked, split into those not asked and those that responded.
pub selections :
    (snsa : SafeNodeStateArray) (k : ℕ)
    → 0 < k
    → (get_alpha_unqueried k snsa ≡ take k (keep (unqueried snsa) snsa.array))
      × (get_k_closest_responded k snsa ≡ (
        take k (keep (has_responded snsa) snsa.array),
        leb k (length (keep (has_responded snsa) snsa.array)),
      ))
      × (get_k_closest_unqueried k snsa ≡ (
        keep (silent snsa) (take k (keep (live snsa) snsa.array)),
        keep (has_responded snsa) (take k (keep (live snsa) snsa.array)),
      ))
unfolding get_alpha_unqueried get_k_closest_responded get_k_closest_unqueried
selections snsa zero h = absurd (omega arith)
selections snsa (suc k) h = (
  alpha_loop-take snsa k snsa.array,
  k_responded_loop-take snsa k snsa.array,
  k_unqueried_loop-take snsa k snsa.array,
)
