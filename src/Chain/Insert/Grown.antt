-- ===== src/Chain/Insert/Grown.antt =====
-- gossiper/blockchain.go: the map of a ledger after a new block, whose parent has a fork more.
use peerster.Chain.Walks.Names.{names_of}
use peerster.Dto.Packet.{Block}
use peerster.Chain.Walks.Paths.{IsRanked, IsWalk, find-previous, previous-find}
use peerster.Chain.Walks.{previous}
use peerster.Base.{
  Bytes, Bytes-discrete, List, [], ap, arith, ite, length, load-store, load-store_self, none, refl,
  some, subst, sym, ◌+◌, ◌<◌, ◌∙◌, ◌∷◌, ◌≡◌, ◌≢◌,
}
use peerster.Chain.{BlockOfChain, find, put}
use peerster.Chain.Insert.{Chains}

pub find-put :
    (hash k : Bytes) (bc : BlockOfChain) (chains : Chains)
    → find k (put hash bc chains) ≡ ite (Bytes-discrete hash k) (some bc) (find k chains)
find-put hash k bc chains = load-store Bytes-discrete hash k bc chains

pub find-once :
    (j k : Bytes) (chains : Chains) (a b : BlockOfChain)
    → j ≡ k
    → find j chains ≡ some a
    → find k chains ≡ some b
    → a ≡ b
find-once j k chains a b e p q = cc

-- The map after the entry of a new block, under `hash`, whose parent has a fork more.
abbrev pub grown : Bytes → Bytes → BlockOfChain → BlockOfChain → Chains → Chains
grown hash prev bc parent' chains = put hash bc (put prev parent' chains)

module _ (hash prev : Bytes) (bc parent parent' : BlockOfChain) (chains : Chains)
    (stored : find prev chains ≡ some parent) (fresh : find hash chains ≡ none)
    (same_block : parent'.block ≡ parent.block)
    (same_length : parent'.length_of_chain ≡ parent.length_of_chain) where
  -- What the new map has under another hash it had before, up to the forks.
  grown-old :
      (k : Bytes) (b : BlockOfChain)
      → hash ≢ k
      → find k (grown hash prev bc parent' chains) ≡ some b
      → (old : BlockOfChain) × (find k chains ≡ some old)
        × (b.block ≡ old.block)
        × (b.length_of_chain ≡ old.length_of_chain)
  grown-old k b ne e = elim (Bytes-discrete prev k) [
    | yes q ↦
        let same : parent' ≡ b = ground (
          arith,
          find-put hash k bc (put prev parent' chains),
          find-put prev k parent' chains,
          q,
        ) in
        (
          parent,
          subst (λ j. find j chains ≡ some parent) q stored,
          ap (λ (x : BlockOfChain). x.block) (sym same) ∙ same_block,
          ap (λ (x : BlockOfChain). x.length_of_chain) (sym same) ∙ same_length,
        )
    | no n ↦ (
      b,
      ground (arith, find-put hash k bc (put prev parent' chains), find-put prev k parent' chains),
      refl,
      refl,
    )
  ]

  pub grown-kept :
      (k : Bytes) (old : BlockOfChain)
      → hash ≢ k
      → find k chains ≡ some old
      → (b : BlockOfChain) × (find k (grown hash prev bc parent' chains) ≡ some b)
        × (b.block ≡ old.block)
  grown-kept k old ne e = elim (Bytes-discrete prev k) [
    | yes q ↦ (
      parent',
      ground
          (arith, find-put hash k bc (put prev parent' chains), find-put prev k parent' chains, q),
      same_block
          ∙ ap (λ (x : BlockOfChain). x.block) (find-once prev k chains parent old q stored e),
    )
    | no n ↦ (
      old,
      ground (arith, find-put hash k bc (put prev parent' chains), find-put prev k parent' chains),
      refl,
    )
  ]

  grown-none :
      (k : Bytes)
      → hash ≢ k
      → previous k chains ≡ none
      → previous k (grown hash prev bc parent' chains) ≡ none
  unfolding previous
  grown-none k ne e =
      ground (
        arith,
        find-put hash k bc (put prev parent' chains),
        find-put prev k parent' chains,
        stored,
      )

  pub grown-new : find hash (grown hash prev bc parent' chains) ≡ some bc
  grown-new = load-store_self Bytes-discrete hash bc (put prev parent' chains)

  pub parent-older : hash ≢ prev
  parent-older e = absurd (ground (arith, e, stored, fresh))

  module _ (follows : bc.block.prev_hash ≡ prev)
      (longer_by_one : bc.length_of_chain ≡ parent.length_of_chain + 1)
      (unfollowed : (k : Bytes) (o : BlockOfChain)
        → find k chains ≡ some o
        → hash ≢ o.block.prev_hash) where
    -- The new map is ranked: only the new block follows its parent anew.
    pub grown-IsRanked : IsRanked chains → IsRanked (grown hash prev bc parent' chains)
    grown-IsRanked ranked k b before e p =
        let (found_before, not_start) =
          previous-find (grown hash prev bc parent' chains) b.block.prev_hash before p in
        elim (Bytes-discrete hash k) [
          | yes q ↦
              let same : bc ≡ b =
                find-once hash k (grown hash prev bc parent' chains) bc b q grown-new e in
              let at_prev : b.block.prev_hash ≡ prev =
                ap (λ (x : BlockOfChain). x.block.prev_hash) (sym same) ∙ follows in
              let (old, at_old, block, len) =
                grown-old b.block.prev_hash before (λ h. parent-older (h ∙ at_prev)) found_before in
              let parent_old : parent ≡ old =
                find-once prev b.block.prev_hash chains parent old (sym at_prev) stored at_old in
              let len_b = ap (λ (x : BlockOfChain). x.length_of_chain) same in
              let len_old = ap (λ (x : BlockOfChain). x.length_of_chain) parent_old in
              omega (arith, len, longer_by_one, len_b, len_old)
          | no n ↦
              let (old, at_k, block, len) = grown-old k b n e in
              let other : hash ≢ b.block.prev_hash =
                λ h. unfollowed k old at_k (h ∙ ap (λ (x : Block). x.prev_hash) block) in
              let (old_before, at_prev, block', len') =
                grown-old b.block.prev_hash before other found_before in
              let shorter : old_before.length_of_chain < old.length_of_chain =
                ranked k old old_before at_k (
                  subst (λ h. previous h chains ≡ some old_before)
                    (ap (λ (x : Block). x.prev_hash) block)
                    (find-previous chains b.block.prev_hash old_before at_prev not_start)) in
              omega (arith, shorter, len, len')
        ]

    -- A walk that starts at another hash meets the same blocks in the new map.
    pub grown-IsWalk :
        (h : Bytes) (bcs : List BlockOfChain)
        → hash ≢ h
        → IsWalk chains h bcs
        → (bcs' : List BlockOfChain) × IsWalk (grown hash prev bc parent' chains) h bcs'
          × (length bcs' ≡ length bcs)
          × (names_of bcs' ≡ names_of bcs)
    unfolding names_of
    grown-IsWalk h [] ne w = ([], grown-none h ne w, refl, refl)
    grown-IsWalk h (b ∷ bcs) ne (w, ws) =
        let (at_h, not_start) = previous-find chains h b w in
        let (b', at_h', block) = grown-kept h b ne at_h in
        let other : hash ≢ b.block.prev_hash = unfollowed h b at_h in
        let (bcs', w', l, names) = grown-IsWalk b.block.prev_hash bcs other ws in
        (
          b' ∷ bcs',
          (
            find-previous (grown hash prev bc parent' chains) h b' at_h' not_start,
            subst (λ k. IsWalk (grown hash prev bc parent' chains) k bcs')
                (ap (λ (x : Block). x.prev_hash) (sym block)) w',
          ),
          omega (arith, l),
          cc,
        )
