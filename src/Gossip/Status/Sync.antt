-- ===== src/Gossip/Status/Sync.antt =====
-- Properties of `peerStatusDifference` between two peers, in both directions.
use peerster.Base.{
  All, All-load, All-store, Bytes, Bytes-discrete, List, Map, Option-cases, [], append-eq-nil,
  arith, inl, inr, load, some, sym, ℕ, ◌∙◌, ◌∷◌, ◌≡◌, ◌≤◌,
}
use peerster.Dto.Packet.{PeerStatus}
use peerster.Gossip.Status.{
  difference_loop, fill_want_map, peer_status_difference, want_map, wanted_of,
}

-- The other peer wants no message below this number of the status.
abbrev Covered : Map Bytes ℕ → Bytes × ℕ → Type 0
Covered wants e = (w : ℕ) × (load Bytes-discrete e.0 wants ≡ some w) × (e.1 ≤ w)

wanted_of-Covered :
    (wants : Map Bytes ℕ) (ps : PeerStatus)
    → wanted_of wants ps ≡ []
    → Covered wants (ps.identifier, ps.next_id)
wanted_of-Covered wants ps h = elim (Option-cases (load Bytes-discrete ps.identifier wants)) [
  | inl e ↦ absurd (ground arith)
  | inr (w, e) ↦ (w, e, ground arith)
]

difference_loop-Covered :
    (wants : Map Bytes ℕ) (have : List PeerStatus)
    → difference_loop wants have ≡ []
    → All (λ ps. Covered wants (ps.identifier, ps.next_id)) have
unfolding difference_loop
difference_loop-Covered wants [] h = tt
difference_loop-Covered wants (ps ∷ have) h =
    let parts = append-eq-nil (wanted_of wants ps) (difference_loop wants have) h in
    (wanted_of-Covered wants ps parts.0, difference_loop-Covered wants have parts.1)

fill_want_map-Covered :
    (wants : Map Bytes ℕ) (have : List PeerStatus) (m : Map Bytes ℕ)
    → All (Covered wants) m
    → All (λ ps. Covered wants (ps.identifier, ps.next_id)) have
    → All (Covered wants) (fill_want_map have m)
unfolding fill_want_map
fill_want_map-Covered wants [] m h k = h
fill_want_map-Covered wants (ps ∷ have) m h k =
    fill_want_map-Covered wants have _
      (All-store Bytes-discrete (Covered wants) ps.identifier ps.next_id m k.0 h) k.1

-- If `have` offers nothing to `want`, whatever it knows of an origin `want` knows too.
difference-nil-covers :
    (have want : List PeerStatus) (origin : Bytes) (n : ℕ)
    → peer_status_difference have want ≡ []
    → load Bytes-discrete origin (want_map have) ≡ some n
    → Covered (want_map want) (origin, n)
unfolding peer_status_difference
difference-nil-covers have want origin n h e =
    All-load Bytes-discrete (Covered (want_map want)) origin n (want_map have)
      (fill_want_map-Covered (want_map want) have [] tt
        (difference_loop-Covered (want_map want) have h))
      e

-- If neither of two peers has a message for the other ("IN SYNC"), each origin has the same next
-- number in both statuses, or is in neither.
pub in_sync-same :
    (mine theirs : List PeerStatus) (origin : Bytes)
    → peer_status_difference mine theirs ≡ []
    → peer_status_difference theirs mine ≡ []
    → load Bytes-discrete origin (want_map mine) ≡ load Bytes-discrete origin (want_map theirs)
in_sync-same mine theirs origin h k =
    elim (Option-cases (load Bytes-discrete origin (want_map mine))) [
      | inl e ↦ elim (Option-cases (load Bytes-discrete origin (want_map theirs))) [
        | inl f ↦ e ∙ sym f
        | inr (n, f) ↦
            let back = difference-nil-covers theirs mine origin n k f in
            absurd (ground (arith, back.1))
      ]
      | inr (n, e) ↦
          let there = difference-nil-covers mine theirs origin n h e in
          let back = difference-nil-covers theirs mine origin there.0 k there.1 in
          ground (arith, there.1, there.2, back.1, back.2)
    ]
