-- ===== src/Chain/Insert/Settled.antt =====
-- gossiper/blockchain.go: a ledger whose orphans do not wait for a new block, before and after its entry.
use peerster.Chain.Insert.Grown.{
  find-once, find-put, grown-IsRanked, grown-kept, grown-new, parent-older,
}
use peerster.Base.{
  All, All-map, All-mono, All-store, Bool, Bytes, Bytes-discrete, List, Option, [], ap, arith,
  false, length, none, refl, some, subst, suc, sym, true, zero, ℕ, ◌+◌, ◌<◌, ◌∙◌, ◌∷◌, ◌≡◌, ◌≢◌,
}
use peerster.Chain.{
  BlockOfChain, BlockchainLedger, block_hash, done, find, new_block_of_chain, new_genesis_block,
  no_hash, put,
}
use peerster.Chain.Insert.{Chains, Longest, append_to_block, hashes, orphans_loop}
use peerster.Chain.Walks.{BlockLine, get_blocks_in_chain, tx_names}
use peerster.Chain.Walks.Paths.{IsRanked, IsWalk}
use peerster.Dto.Arrays.{SafeStringArray}
use peerster.Dto.Packet.{Block}
use peerster.Gossip.Node.{bytes_eq}

module _ (sha256 : Bytes → Bytes) where
  -- A stored block that does not follow the hash.
  abbrev pub Elsewhere : Bytes → Chains → Bytes → Type 0
  Elsewhere hash chains h =
      (o : BlockOfChain) × (find h chains ≡ some o) × (bytes_eq o.block.prev_hash hash ≡ false)

  -- Orphans that follow other blocks are left where they are.
  pub orphans_loop-settled :
      (n : ℕ) (hash : Bytes) (hs : List Bytes) (claimed : Option SafeStringArray) (found : Longest)
      → All (Elsewhere hash found.chains) hs
      → orphans_loop sha256 n hash hs claimed found ≡ done found
  unfolding orphans_loop
  orphans_loop-settled n hash [] claimed found h = refl
  orphans_loop-settled n hash (o ∷ hs) claimed found h =
      ground (arith, h.0, orphans_loop-settled n hash hs claimed found h.1)

  abbrev line : BlockOfChain → BlockLine
  line bc = record {
    hash = block_hash sha256 bc.block;
    prev_hash = bc.block.prev_hash;
    names = tx_names bc.block.transactions;
  }

  pub get_blocks-answers :
      (chains : Chains) (bcs : List BlockOfChain) (n : ℕ) (bc : BlockOfChain)
      → IsWalk chains bc.block.prev_hash bcs
      → length bcs < n
      → (lines : List BlockLine) × (get_blocks_in_chain sha256 n bc chains ≡ done lines)
  unfolding get_blocks_in_chain
  get_blocks-answers chains bcs zero bc w l = absurd (omega (arith, l))
  get_blocks-answers chains [] (suc n) bc w l = (line bc ∷ [], rw (w, get_blocks_in_chain) refl)
  get_blocks-answers chains (prev_bc ∷ bcs) (suc n) bc w l =
      let (lines, e) = get_blocks-answers chains bcs n prev_bc w.1 (omega (arith, l)) in
      (line bc ∷ lines, rw (w.0, get_blocks_in_chain, e) refl)

  -- A ledger with a block of its longest chain at the head, and a new block that follows it: the
  -- orphans are stored, no stored block follows the new one, and lengths grow along chains.
  pub record Ready (bcl : BlockchainLedger) (block : Block) (head : BlockOfChain) : Type 0 where
    pub at_head : find bcl.longest_chain bcl.chains ≡ some head
    pub follows : block.prev_hash ≡ bcl.longest_chain
    pub fresh : find (block_hash sha256 block) bcl.chains ≡ none
    pub genesis : BlockOfChain
    pub rooted : find no_hash bcl.chains ≡ some genesis
    pub genesis_block : genesis.block ≡ new_genesis_block.block
    pub orphans_stored :
        All
          (λ (e : Bytes × Bool). (o : BlockOfChain) × (find e.0 bcl.chains ≡ some o))
          genesis.forks
    pub unfollowed :
        (k : Bytes) (o : BlockOfChain)
        → find k bcl.chains ≡ some o
        → block_hash sha256 block ≢ o.block.prev_hash
    pub ranked : IsRanked bcl.chains

  module _ (bcl : BlockchainLedger) (block : Block) (head : BlockOfChain)
      (ready : Ready bcl block head) where
    abbrev hash : Bytes
    hash = block_hash sha256 block

    -- The head with the new block as a fork, and the new block with its length.
    abbrev linked : BlockOfChain × BlockOfChain
    linked = append_to_block sha256 (new_block_of_chain block) head

    abbrev before_entry : Chains
    before_entry = put block.prev_hash linked.0 bcl.chains

    abbrev after_entry : Chains
    after_entry = put hash linked.1 before_entry

    pub stored : find block.prev_hash bcl.chains ≡ some head
    stored = ap (λ h. find h bcl.chains) ready.follows ∙ ready.at_head

    pub same_block : linked.0.block ≡ head.block
    unfolding append_to_block
    same_block = refl

    pub same_length : linked.0.length_of_chain ≡ head.length_of_chain
    unfolding append_to_block
    same_length = refl

    pub new_block : linked.1.block ≡ block
    unfolding append_to_block new_block_of_chain
    new_block = refl

    new_length : linked.1.length_of_chain ≡ head.length_of_chain + 1
    unfolding append_to_block
    new_length = refl

    pub after_entry-IsRanked : IsRanked after_entry
    unfolding append_to_block new_block_of_chain
    after_entry-IsRanked =
        grown-IsRanked hash block.prev_hash linked.1 head linked.0 bcl.chains stored ready.fresh
          refl refl refl refl ready.unfollowed ready.ranked

    fork-Elsewhere :
        (h : Bytes)
        → (o : BlockOfChain) × (find h bcl.chains ≡ some o)
        → Elsewhere hash after_entry h
    fork-Elsewhere h (o, e) =
        let ne : hash ≢ h = λ q. absurd (ground (arith, q, e, ready.fresh)) in
        let (b, at_h, same) =
          grown-kept hash block.prev_hash linked.1 head linked.0 bcl.chains stored ready.fresh
            same_block same_length h o ne e in
        let away : b.block.prev_hash ≢ hash =
          λ q. ready.unfollowed h o e (sym q ∙ ap (λ (x : Block). x.prev_hash) same) in
        (b, at_h, ground (arith, away))

    new-Elsewhere : Elsewhere hash after_entry hash
    new-Elsewhere = (
      linked.1,
      grown-new hash block.prev_hash linked.1 head linked.0 bcl.chains stored ready.fresh same_block
          same_length,
      (let away : block.prev_hash ≢ hash = λ q.
            parent-older hash block.prev_hash linked.1 head linked.0 bcl.chains stored ready.fresh
              same_block same_length (sym q) in
          rw (new_block) ground (arith, away)),
    )

    pub root-Elsewhere :
        (g : BlockOfChain) × (find no_hash after_entry ≡ some g)
        × All (Elsewhere hash after_entry) (hashes g.forks)
    unfolding append_to_block new_block_of_chain
    root-Elsewhere =
        let other : hash ≢ no_hash = λ q. absurd (ground (arith, q, ready.rooted, ready.fresh)) in
        let old : All (λ (e : Bytes × Bool). Elsewhere hash after_entry e.0) ready.genesis.forks =
          All-mono _ _ ready.genesis.forks (λ e h. fork-Elsewhere e.0 h) ready.orphans_stored in
        elim (Bytes-discrete block.prev_hash no_hash) [
          | yes q ↦
              let same : ready.genesis ≡ head =
                find-once no_hash block.prev_hash bcl.chains ready.genesis head (sym q) ready.rooted
                  stored in
              let head_forks : All (λ (e : Bytes × Bool). Elsewhere hash after_entry e.0)
                  head.forks =
                subst
                  (λ (x : BlockOfChain).
                    All (λ (e : Bytes × Bool). Elsewhere hash after_entry e.0) x.forks)
                  same old in
              (
                linked.0,
                ground (
                  arith,
                  find-put hash no_hash linked.1 before_entry,
                  find-put block.prev_hash no_hash linked.0 bcl.chains,
                  other,
                  q,
                ),
                All-map (Elsewhere hash after_entry) (λ (e : Bytes × Bool). e.0) linked.0.forks
                    (All-store Bytes-discrete (λ (e : Bytes × Bool). Elsewhere hash after_entry e.0)
                      hash true head.forks new-Elsewhere head_forks),
              )
          | no n ↦ (
            ready.genesis,
            ground (
              arith,
              find-put hash no_hash linked.1 before_entry,
              find-put block.prev_hash no_hash linked.0 bcl.chains,
              ready.rooted,
              other,
              n,
            ),
            All-map (Elsewhere hash after_entry) (λ (e : Bytes × Bool). e.0) ready.genesis.forks
                old,
          )
        ]
