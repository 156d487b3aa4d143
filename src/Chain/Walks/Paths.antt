-- ===== src/Chain/Walks/Paths.antt =====
-- The walks back along the chain in gossiper/blockchain.go end: the blocks that a walk meets, and a
-- ledger in which it meets finitely many.
use peerster.Base.{
  Bytes, List, Map, Option-cases, [], arith, false, inl, inr, length, none, some, suc, zero, ℕ, ◌<◌,
  ◌∷◌, ◌≡◌, ◌≤◌,
}
use peerster.Chain.{BlockOfChain, find, no_hash}
use peerster.Gossip.Node.{bytes_eq}
use peerster.Chain.Walks.{previous}

module _ (chains : Map Bytes BlockOfChain) where
  -- The stored blocks before a hash, the newest first, up to the genesis block or a missing one.
  abbrev pub IsWalk : Bytes → List BlockOfChain → Type 0
  IsWalk hash [] = previous hash chains ≡ none
  IsWalk hash (bc ∷ bcs) = (previous hash chains ≡ some bc) × IsWalk bc.block.prev_hash bcs

  -- A stored block is farther from the start of its chain than the block before it.
  abbrev pub IsRanked : Type 0
  IsRanked =
      (hash : Bytes) (bc prev_bc : BlockOfChain)
      → find hash chains ≡ some bc
      → previous bc.block.prev_hash chains ≡ some prev_bc
      → prev_bc.length_of_chain < bc.length_of_chain

  pub previous-find :
      (hash : Bytes) (bc : BlockOfChain)
      → previous hash chains ≡ some bc
      → (find hash chains ≡ some bc) × (bytes_eq hash no_hash ≡ false)
  unfolding previous
  previous-find hash bc e = ground arith

  pub find-previous :
      (hash : Bytes) (bc : BlockOfChain)
      → find hash chains ≡ some bc
      → bytes_eq hash no_hash ≡ false
      → previous hash chains ≡ some bc
  unfolding previous
  find-previous hash bc e n = ground arith

  -- The walk from a hash, when the block that it meets first has a length below `n`.
  pub IsWalk-from :
      IsRanked
      → (n : ℕ) (hash : Bytes)
      → ((bc : BlockOfChain) → previous hash chains ≡ some bc → bc.length_of_chain < n)
      → (bcs : List BlockOfChain) × IsWalk hash bcs × (length bcs ≤ n)
  IsWalk-from ranked zero hash below = elim (Option-cases (previous hash chains)) [
    | inl e ↦ ([], e, omega arith)
    | inr (bc, e) ↦ absurd (omega (arith, below bc e))
  ]
  IsWalk-from ranked (suc n) hash below = elim (Option-cases (previous hash chains)) [
    | inl e ↦ ([], e, omega arith)
    | inr (bc, e) ↦
        let (bcs, w, k) = IsWalk-from ranked n bc.block.prev_hash (λ prev_bc p.
          omega (arith, below bc e, ranked hash bc prev_bc (previous-find hash bc e).0 p)) in
        (bc ∷ bcs, (e, w), omega (arith, k))
  ]
