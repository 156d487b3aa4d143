-- ===== src/Chain/Insert/Extends.antt =====
-- gossiper/blockchain.go: a valid block that follows the head of the longest chain, while no orphan
-- waits for it.
use peerster.Dto.Arrays.Unique.{contains, contains-append}
use peerster.Base.{
  Bool, Bytes, Bytes-discrete, List, Map, Option, Option-cases, [], ap, arith, false, inl, inr,
  length, lt→ltb, none, refl, some, subst, sym, true, ℕ, ◌++◌, ◌+◌, ◌<◌, ◌||◌, ◌∙◌, ◌∷◌, ◌≡◌, ◌≤◌,
}
use peerster.Chain.{
  BlockOfChain, BlockchainLedger, block_hash, done, find, new_block_of_chain, new_genesis_block,
  no_hash, put,
}
use peerster.Chain.Insert.{
  Chains, append_to_block, check_orphans_and_reinsert, connect, hashes, head_changes,
}
use peerster.Chain.Insert.Grown.{find-once, find-put, grown-IsWalk, grown-new, parent-older}
use peerster.Chain.Insert.Settled.{
  Ready, get_blocks-answers, orphans_loop-settled, root-Elsewhere, same_block, same_length, stored,
}
use peerster.Chain.Walks.{BlockLine, get_blocks_in_chain, get_taken_names, previous, tx_names}
use peerster.Chain.Walks.Paths.{IsWalk, IsWalk-from, previous-find}
use peerster.Chain.Walks.Names.{claims, get_taken_names-claims, names_of, taken}
use peerster.Dto.Arrays.{SafeStringArray}
use peerster.Dto.Packet.{Block}
use peerster.Gossip.Node.{bytes_eq}

module _ (sha256 : Bytes → Bytes) (bcl : BlockchainLedger) (block : Block)
    (head : BlockOfChain) where
  abbrev hash : Bytes
  hash = block_hash sha256 block

  abbrev pub linked : BlockOfChain × BlockOfChain
  linked = append_to_block sha256 (new_block_of_chain block) head

  abbrev pub before_entry : Chains
  before_entry = put block.prev_hash linked.0 bcl.chains

  abbrev pub after_entry : Chains
  after_entry = put hash linked.1 before_entry

  module _ (ready : Ready sha256 bcl block head) where
    -- The head walks back to the same names in the new map.
    head-IsWalk :
        (bcs : List BlockOfChain) × (bcs' : List BlockOfChain) × IsWalk bcl.chains
          head.block.prev_hash bcs
        × IsWalk after_entry head.block.prev_hash bcs'
        × (length bcs ≤ head.length_of_chain)
        × (length bcs' ≡ length bcs)
        × (names_of bcs' ≡ names_of bcs)
    unfolding append_to_block new_block_of_chain
    head-IsWalk =
        let (bcs, w, l) =
          IsWalk-from bcl.chains ready.ranked head.length_of_chain head.block.prev_hash
            (λ b e. ready.ranked block.prev_hash head b (stored sha256 bcl block head ready) e) in
        let (bcs', w', l', names) =
          grown-IsWalk hash block.prev_hash linked.1 head linked.0 bcl.chains
            (stored sha256 bcl block head ready) ready.fresh refl refl refl refl ready.unfollowed
            head.block.prev_hash bcs
            (ready.unfollowed block.prev_hash head (stored sha256 bcl block head ready)) w in
        (bcs, bcs', w, w', l, l', names)

    orphans-settled :
        (n : ℕ) (claimed : Option SafeStringArray)
        → check_orphans_and_reinsert sha256 n hash claimed after_entry
          ≡ done (record { max_len = 0; highest = no_hash; chains = after_entry })
    unfolding check_orphans_and_reinsert
    orphans-settled n claimed =
        let (g, at_root, away) = (root-Elsewhere sha256 bcl block head ready) in
        rw (at_root) (
          orphans_loop-settled sha256 n hash (hashes g.forks) claimed
            (record { max_len = 0; highest = no_hash; chains = after_entry }) away)

    at_parent : find block.prev_hash after_entry ≡ some linked.0
    at_parent = ground (
      arith,
      find-put hash block.prev_hash linked.1 before_entry,
      find-put block.prev_hash block.prev_hash linked.0 bcl.chains,
      parent-older hash block.prev_hash linked.1 head linked.0 bcl.chains
          (stored sha256 bcl block head ready) ready.fresh (same_block sha256 bcl block head ready)
          (same_length sha256 bcl block head ready),
    )

    parent_of : (b : BlockOfChain) → previous block.prev_hash after_entry ≡ some b → b ≡ linked.0
    parent_of b e =
        let (at_prev, _) = previous-find after_entry block.prev_hash b e in
        find-once block.prev_hash block.prev_hash after_entry b linked.0 refl at_prev at_parent

    lines_of :
        (n : ℕ)
        → head.length_of_chain + 1 < n
        → (lines : List BlockLine) × (get_blocks_in_chain sha256 n linked.1 after_entry
            ≡ done lines)
    unfolding append_to_block new_block_of_chain previous
    lines_of n l =
        let (bcs, bcs', w, w', short, same, names) = head-IsWalk in
        elim (Option-cases (previous block.prev_hash after_entry)) [
          | inl e ↦ get_blocks-answers sha256 after_entry [] n linked.1 e (omega (arith, l))
          | inr (b, e) ↦
              get_blocks-answers sha256 after_entry (linked.0 ∷ bcs') n linked.1
                (
                  subst (λ (x : BlockOfChain). previous block.prev_hash after_entry ≡ some x)
                      (parent_of b e) e,
                  w',
                )
                (omega (arith, l, short, same))
        ]

    head-extends :
        (n : ℕ)
        → head.length_of_chain + 1 < n
        → head_changes sha256 n
            (head.length_of_chain + 1)
            hash
            (record bcl { chains = after_entry })
          ≡ done (record {
            changed = false;
            grew = true;
            ledger = record { longest_chain = hash; chains = after_entry };
          })
    unfolding head_changes append_to_block new_block_of_chain
    head-extends n l =
        let (lines, printed) = lines_of n l in
        let at_new : find hash after_entry ≡ some linked.1 =
          grown-new hash block.prev_hash linked.1 head linked.0 bcl.chains
            (stored sha256 bcl block head ready) ready.fresh
            (same_block sha256 bcl block head ready) (same_length sha256 bcl block head ready) in
        let next : bytes_eq linked.1.block.prev_hash bcl.longest_chain ≡ true =
          ground (arith, ready.follows) in
        let longer_ = lt→ltb head.length_of_chain (head.length_of_chain + 1) (omega arith) in
        let at_head : find bcl.longest_chain after_entry ≡ some linked.0 =
          subst (λ h. find h after_entry ≡ some linked.0) ready.follows at_parent in
        rw (at_head, at_new, longer_, next, printed) refl

    -- The orphans stay, and the head becomes the new block.
    pub connect-extends :
        (n : ℕ) (claimed : Option SafeStringArray)
        → head.length_of_chain + 1 < n
        → connect sha256 n linked.1 claimed (record bcl { chains = before_entry })
          ≡ done (record {
            valid = true;
            head_changed = false;
            head_grew = true;
            ledger = record { longest_chain = hash; chains = after_entry };
          })
    unfolding connect append_to_block new_block_of_chain
    connect-extends n claimed l =
        rw
          (
            orphans-settled n claimed,
            lt→ltb 0 (head.length_of_chain + 1) (omega arith),
            head-extends n l,
          )
          refl

    -- Without a block before it, the new block follows the genesis block, which claims nothing.
    at_start :
        previous block.prev_hash after_entry ≡ none
        → (previous head.block.prev_hash bcl.chains ≡ none) × (head.block.transactions ≡ [])
    unfolding previous new_genesis_block
    at_start e =
        let start : block.prev_hash ≡ no_hash = ground (arith, e, at_parent) in
        let root : ready.genesis ≡ head =
          find-once no_hash block.prev_hash bcl.chains ready.genesis head (sym start) ready.rooted
            (stored sha256 bcl block head ready) in
        let same = ap (λ (x : BlockOfChain). x.block) (sym root) ∙ ready.genesis_block in
        let hash_of = ap (λ (x : Block). x.prev_hash) same in
        (
          ground (arith, hash_of, find head.block.prev_hash bcl.chains),
          ap (λ (x : Block). x.transactions) same,
        )

    -- What the new chain names is what the block claims and what the chain of the head claimed before.
    pub new_names :
        (n : ℕ)
        → head.length_of_chain + 1 < n
        → (names : Map Bytes Bool) × (names' : Map Bytes Bool) × (get_taken_names n head bcl.chains
            ≡ done names)
          × (get_taken_names n linked.1 after_entry ≡ done names')
          × ((k : Bytes)
              → taken k names' ≡ (claims k (tx_names block.transactions) || taken k names))
    unfolding append_to_block new_block_of_chain names_of contains
    new_names n l =
        let (bcs, bcs', w, w', short, same, eqn) = head-IsWalk in
        let txs = tx_names block.transactions in
        elim (Option-cases (previous block.prev_hash after_entry)) [
          | inl e ↦
              let (start, none_claimed) = at_start e in
              let (names, run, t) =
                get_taken_names-claims bcl.chains [] n head start (omega (arith, l)) in
              let (names', run', t') =
                get_taken_names-claims after_entry [] n linked.1 e (omega (arith, l)) in
              (
                names,
                names',
                run,
                run',
                λ k.
                    ground
                      (arith, t k, t' k, none_claimed, contains-append Bytes-discrete k txs []),
              )
          | inr (b, e) ↦
              let (names, run, t) =
                get_taken_names-claims bcl.chains bcs n head w (omega (arith, l, short)) in
              let (names', run', t') =
                get_taken_names-claims after_entry (linked.0 ∷ bcs') n linked.1
                  (
                    subst (λ (x : BlockOfChain). previous block.prev_hash after_entry ≡ some x)
                        (parent_of b e) e,
                    w',
                  )
                  (omega (arith, l, short, same)) in
              (
                names,
                names',
                run,
                run',
                λ k. ground (
                  arith,
                  t k,
                  t' k,
                  eqn,
                  contains-append Bytes-discrete k txs
                      (tx_names head.block.transactions ++ names_of bcs),
                ),
              )
        ]
