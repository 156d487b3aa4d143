-- ===== src/Chain/Insert/Dangling.antt =====
-- gossiper/blockchain.go: a block that `insertBlock` refuses leaves its hash in `Forks` of its parent.
use peerster.Gossip.Node.{bytes_eq}
use peerster.Chain.Insert.Grown.{find-put}
use peerster.Base.{
  Bool, Bytes, Bytes-discrete, Map, Option, [], arith, false, none, refl, some, store, subst, suc,
  sym, true, ℕ, ◌∷◌, ◌≡◌, ◌≢◌,
}
use peerster.Chain.{
  BlockOfChain, BlockchainLedger, block_hash, crashed, done, find, is_present, new_block_of_chain,
  no_hash, put,
}
use peerster.Chain.Insert.{
  append_to_block, check_orphans_and_reinsert, connect, insert_block, orphans_loop, refused,
}
use peerster.Chain.Walks.{check_valid_transactions_backwards, claim_backwards, claim_names}
use peerster.Dto.Arrays.{SafeStringArray, new_safe_string_array}
use peerster.Dto.Packet.{Block}

one_fork :
    (j : Bytes) (forks : Map Bytes Bool)
    → forks ≡ []
    → store Bytes-discrete j true forks ≡ (j, true) ∷ []
unfolding store
one_fork j [] e = refl
one_fork j (f ∷ forks) e = absurd (ground (arith, e))

two_forks :
    (j k : Bytes)
    → j ≢ k
    → (forks : Map Bytes Bool) → forks ≡ (j, true) ∷ []
    → store Bytes-discrete k true forks ≡ (j, true) ∷ (k, true) ∷ []
unfolding store
two_forks j k ne forks e = rw (e) ground (arith, ne)

module _ (sha256 : Bytes → Bytes) where
  -- The first fork of the genesis block is not stored: the range over the forks follows a nil pointer.
  connect-crashes :
      (n : ℕ) (bcl : BlockchainLedger) (bc genesis : BlockOfChain)
      (claimed : Option SafeStringArray) (d : Bytes) (b : Bool) (rest : Map Bytes Bool)
      → find no_hash bcl.chains ≡ some genesis
      → genesis.forks ≡ (d, b) ∷ rest
      → block_hash sha256 bc.block ≢ d
      → block_hash sha256 bc.block ≢ no_hash
      → find d bcl.chains ≡ none
      → connect sha256 n bc claimed bcl ≡ crashed
  unfolding connect check_orphans_and_reinsert orphans_loop
  connect-crashes n bcl bc genesis claimed d b rest rooted forks other start missing =
      let at_root : find no_hash (put (block_hash sha256 bc.block) bc bcl.chains) ≡ some genesis =
        ground
          (arith, find-put (block_hash sha256 bc.block) no_hash bc bcl.chains, start, rooted) in
      let at_fork : find d (put (block_hash sha256 bc.block) bc bcl.chains) ≡ none =
        ground (arith, find-put (block_hash sha256 bc.block) d bc bcl.chains, other, missing) in
      rw (connect, check_orphans_and_reinsert, at_root, forks, orphans_loop, at_fork) refl

  -- The ledger after a block that follows `parent` was entered in its forks.
  abbrev pub left_by : Block → BlockOfChain → BlockchainLedger → BlockchainLedger
  left_by b parent bcl = record bcl {
    chains = put b.prev_hash (append_to_block sha256 (new_block_of_chain b) parent).0 bcl.chains;
  }

  refused-stays :
      (n : ℕ) (bcl : BlockchainLedger) (b : Block) (parent : BlockOfChain)
      → find b.prev_hash bcl.chains ≡ some parent
      → find (block_hash sha256 b) bcl.chains ≡ none
      → (claim_names b.transactions (new_safe_string_array [])).1 ≡ false
      → insert_block sha256 n b bcl ≡ done (refused (left_by b parent bcl))
  unfolding insert_block is_present append_to_block new_block_of_chain
      check_valid_transactions_backwards
  refused-stays n bcl b parent stored fresh twice =
      rw (insert_block, is_present, fresh, stored, check_valid_transactions_backwards, twice) refl

  -- A new block that starts a chain, where the genesis block has one fork, which is not stored.
  dangling-crashes :
      (n : ℕ) (bcl : BlockchainLedger) (root : BlockOfChain) (d : Bytes) (good : Block)
      → find no_hash bcl.chains ≡ some root
      → root.forks ≡ (d, true) ∷ []
      → find d bcl.chains ≡ none
      → find (block_hash sha256 good) bcl.chains ≡ none
      → block_hash sha256 good ≢ d
      → good.prev_hash ≡ no_hash
      → (claim_names good.transactions (new_safe_string_array [])).1 ≡ true
      → insert_block sha256 (suc n) good bcl ≡ crashed
  unfolding insert_block is_present append_to_block new_block_of_chain
      check_valid_transactions_backwards claim_backwards
  dangling-crashes n bcl root d good rooted dangling missing fresh other start once =
      let hg = block_hash sha256 good in
      let linked = append_to_block sha256 (new_block_of_chain good) root in
      let bcl1 = left_by good root bcl in
      let new_good : hg ≢ no_hash = λ q. absurd (ground (arith, q, rooted, fresh)) in
      let new_d : d ≢ no_hash = λ q. absurd (ground (arith, q, rooted, missing)) in
      let at_good : find good.prev_hash bcl.chains ≡ some root =
        subst (λ h. find h bcl.chains ≡ some root) (sym start) rooted in
      let missing1 : find d bcl1.chains ≡ none =
        ground (arith, find-put good.prev_hash d linked.0 bcl.chains, start, new_d, missing) in
      let rooted1 : find no_hash bcl1.chains ≡ some linked.0 =
        ground (arith, find-put good.prev_hash no_hash linked.0 bcl.chains, start) in
      let begins : bytes_eq good.prev_hash no_hash ≡ true = ground (arith, start) in
      let forks : linked.0.forks ≡ (d, true) ∷ (hg, true) ∷ [] =
        two_forks d hg (λ q. other (sym q)) root.forks dangling in
      let crash =
        connect-crashes (suc n) bcl1 linked.1 linked.0
          (some (claim_names good.transactions (new_safe_string_array [])).0) d true
          ((hg, true) ∷ []) rooted1 forks other new_good missing1 in
      rw
        (
          insert_block, is_present, fresh, at_good, check_valid_transactions_backwards, once,
          claim_backwards, begins,
        )
        crash

  -- A ledger without orphans or forks at its genesis block is given a new block that starts a chain and
  -- has a name twice, and then another new block that starts a chain and has no name twice.
  -- `insertBlock` refuses the first, but it leaves the hash of that block in `Forks` of the genesis
  -- block, and the second call follows a nil pointer.
  pub insert_block-crashes :
      (n : ℕ) (bcl : BlockchainLedger) (genesis : BlockOfChain) (bad good : Block)
      → find no_hash bcl.chains ≡ some genesis
      → genesis.forks ≡ []
      → find (block_hash sha256 bad) bcl.chains ≡ none
      → find (block_hash sha256 good) bcl.chains ≡ none
      → block_hash sha256 good ≢ block_hash sha256 bad
      → bad.prev_hash ≡ no_hash
      → good.prev_hash ≡ no_hash
      → (claim_names bad.transactions (new_safe_string_array [])).1 ≡ false
      → (claim_names good.transactions (new_safe_string_array [])).1 ≡ true
      → (insert_block sha256 n bad bcl ≡ done (refused (left_by bad genesis bcl)))
        × (insert_block sha256 (suc n) good (left_by bad genesis bcl) ≡ crashed)
  unfolding append_to_block new_block_of_chain
  insert_block-crashes n bcl genesis bad good rooted no_forks fresh_bad fresh other start_bad start
        twice once =
      let at_bad : find bad.prev_hash bcl.chains ≡ some genesis =
        subst (λ h. find h bcl.chains ≡ some genesis) (sym start_bad) rooted in
      let hg = block_hash sha256 good in
      let hb = block_hash sha256 bad in
      let bcl1 = left_by bad genesis bcl in
      let g1 = (append_to_block sha256 (new_block_of_chain bad) genesis).0 in
      let new_good : hg ≢ bad.prev_hash = λ q. absurd (ground (arith, q, at_bad, fresh)) in
      let new_bad : hb ≢ bad.prev_hash = λ q. absurd (ground (arith, q, at_bad, fresh_bad)) in
      let still_fresh : find hg bcl1.chains ≡ none =
        ground (arith, find-put bad.prev_hash hg g1 bcl.chains, new_good, fresh) in
      let missing : find hb bcl1.chains ≡ none =
        ground (arith, find-put bad.prev_hash hb g1 bcl.chains, new_bad, fresh_bad) in
      let rooted1 : find no_hash bcl1.chains ≡ some g1 =
        ground (arith, find-put bad.prev_hash no_hash g1 bcl.chains, start_bad) in
      (
        refused-stays n bcl bad genesis at_bad fresh_bad twice,
        dangling-crashes n bcl1 g1 hb good rooted1 (one_fork hb genesis.forks no_forks) missing
            still_fresh other start once,
      )
