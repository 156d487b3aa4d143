-- ===== src/Chain/Walks/Names.antt =====
-- The names that the chain of a block claims, in gossiper/blockchain.go: what `getTakenNames` collects
-- and what `checkValidTransactionsBackwards` accepts.
use peerster.Chain.Walks.Paths.{IsWalk, previous-find}
use mathlib.Core.List.{append-nil, append_assoc}
use peerster.Base.{
  Bool, Bool-cases, Bytes, Bytes-discrete, List, Map, Option, [], ap, arith, false, inl, inr,
  is_some, length, load, load-store, none, not, present, refl, some, store, suc, sym, true, zero, ℕ,
  ◌++◌, ◌<◌, ◌||◌, ◌∙◌, ◌∷◌, ◌≡◌,
}
use peerster.Chain.{BlockOfChain, done}
use peerster.Chain.Walks.{
  check_valid_transactions, check_valid_transactions_backwards, claim_backwards, claim_names,
  get_names, get_taken_names, mark_keys, mark_names, previous, tx_names,
}
use peerster.Dto.Arrays.{
  SafeStringArray, append_unique_to_array, new_safe_string_array, new_unique_array,
}
use peerster.Dto.Arrays.Unique.{
  IsUnique, append_unique_to_array-IsUnique, contains, contains-append, distinct, new-IsUnique,
}
use peerster.Dto.Packet.{Block, TxPublish}

unfoldable pub names_of : List BlockOfChain → List Bytes
names_of [] = []
names_of (bc ∷ bcs) = tx_names bc.block.transactions ++ names_of bcs

abbrev pub claims : Bytes → List Bytes → Bool
claims k names = contains Bytes-discrete k names

abbrev pub Sound : SafeStringArray → Type 0
Sound a = IsUnique Bytes-discrete a

repeated-distinct :
    (x : Bytes) (xs ys : List Bytes)
    → claims x xs ≡ true
    → distinct Bytes-discrete (xs ++ x ∷ ys) ≡ false
unfolding contains distinct
repeated-distinct x [] ys h = absurd (ground arith)
repeated-distinct x (y ∷ xs) ys h =
    ground (arith, contains-append Bytes-discrete y xs (x ∷ ys), repeated-distinct x xs ys)

prefix-distinct :
    (xs ys : List Bytes)
    → distinct Bytes-discrete xs ≡ false
    → distinct Bytes-discrete (xs ++ ys) ≡ false
unfolding distinct
prefix-distinct [] ys h = absurd (ground arith)
prefix-distinct (x ∷ xs) ys h =
    ground (arith, contains-append Bytes-discrete x xs ys, prefix-distinct xs ys)

-- Claiming names succeeds exactly if no name is claimed twice, and then all are claimed.
claim_names-claims :
    (txs : List TxPublish) (a : SafeStringArray)
    → Sound a
    → let r = claim_names txs a in
      (r.1 ≡ distinct Bytes-discrete (a.array ++ tx_names txs))
      × (r.1 ≡ true → (r.0.array ≡ a.array ++ tx_names txs) × Sound r.0)
unfolding claim_names
claim_names-claims [] a s = rw (append-nil a.array) (sym s.once, λ _. (refl, s))
claim_names-claims (tx ∷ txs) a s =
    let name = tx.file.name in
    let r = append_unique_to_array Bytes-discrete name a in
    let (fresh, grown, sound) = append_unique_to_array-IsUnique Bytes-discrete name a s in
    elim (Bool-cases (claims name a.array)) [
      | inl c ↦
          let no : r.1 ≡ false = fresh ∙ ap not c in
          rw (no)
            (sym (repeated-distinct name a.array (tx_names txs) c), λ h. absurd (ground arith))
      | inr c ↦
          let yes_ : r.1 ≡ true = fresh ∙ ap not c in
          let array : r.0.array ≡ a.array ++ name ∷ [] = rw (c) at grown in
          rw (yes_, sym (append_assoc a.array (name ∷ []) (tx_names txs)), sym array)
            (claim_names-claims txs r.0 sound)
    ]

-- One step back.
module _ (chains : Map Bytes BlockOfChain) (bc : BlockOfChain) (n : ℕ) (hash : Bytes) where
  module _ (a : SafeStringArray) (w : previous hash chains ≡ some bc) where
    claim_backwards-next :
        (claim_names bc.block.transactions a).1 ≡ true
        → claim_backwards (suc n) hash chains a
          ≡ claim_backwards n bc.block.prev_hash chains (claim_names bc.block.transactions a).0
    unfolding claim_backwards check_valid_transactions
    claim_backwards-next e = ground (arith, previous-find chains hash bc w)

    claim_backwards-stop :
        (claim_names bc.block.transactions a).1 ≡ false
        → claim_backwards (suc n) hash chains a ≡ done none
    unfolding claim_backwards check_valid_transactions
    claim_backwards-stop e = ground (arith, previous-find chains hash bc w)

claim_backwards-claims :
    (chains : Map Bytes BlockOfChain) (bcs : List BlockOfChain) (n : ℕ) (hash : Bytes)
    (a : SafeStringArray)
    → IsWalk chains hash bcs
    → length bcs < n
    → Sound a
    → (r : Option SafeStringArray) × (claim_backwards n hash chains a ≡ done r)
      × (is_some r ≡ distinct Bytes-discrete (a.array ++ names_of bcs))
unfolding claim_backwards names_of check_valid_transactions previous
claim_backwards-claims chains bcs zero hash a w l s = absurd (omega (arith, l))
claim_backwards-claims chains [] (suc n) hash a w l s =
    (some a, ground arith, rw (append-nil a.array) (sym s.once))
claim_backwards-claims chains (bc ∷ bcs) (suc n) hash a w l s =
    let r = claim_names bc.block.transactions a in
    let (valid, grown) = claim_names-claims bc.block.transactions a s in
    elim (Bool-cases r.1) [
      | inl e ↦
          let (array, sound) = grown e in
          let (res, run, some_) =
            claim_backwards-claims chains bcs n bc.block.prev_hash r.0 w.1 (omega (arith, l))
              sound in
          (
            res,
            claim_backwards-next chains bc n hash a w.0 e ∙ run,
            some_
                ∙ ap (λ t. distinct Bytes-discrete t)
                    (rw (array)
                      (append_assoc a.array (tx_names bc.block.transactions) (names_of bcs))),
          )
      | inr e ↦ (
        none,
        claim_backwards-stop chains bc n hash a w.0 e,
        sym (
            ap (λ t. distinct Bytes-discrete t)
              (sym (append_assoc a.array (tx_names bc.block.transactions) (names_of bcs)))
            ∙ prefix-distinct (a.array ++ tx_names bc.block.transactions) (names_of bcs)
                (sym valid ∙ e)),
      )
    ]

abbrev pub taken : Bytes → Map Bytes Bool → Bool
taken k names = present Bytes-discrete k names

mark_names-taken :
    (k : Bytes) (txs : List TxPublish) (m : Map Bytes Bool)
    → taken k (mark_names txs m) ≡ (taken k m || claims k (tx_names txs))
unfolding contains
mark_names-taken k [] m = ground arith
mark_names-taken k (tx ∷ txs) m = ground (
  arith,
  mark_names-taken k txs (store Bytes-discrete tx.file.name true m),
  load-store Bytes-discrete tx.file.name k true m,
)

mark_keys-taken :
    (k : Bytes) (names m : Map Bytes Bool)
    → taken k (mark_keys names m) ≡ (taken k names || taken k m)
unfolding mark_keys load
mark_keys-taken k [] m = refl
mark_keys-taken k ((j, b) ∷ names) m = ground (
  arith,
  mark_keys-taken k names (store Bytes-discrete j true m),
  load-store Bytes-discrete j k true m,
)

-- `getTakenNames` answers when the walk from the block has fewer blocks than the fuel, and a name is
-- taken exactly if the block or a block of the walk claims it.
pub get_taken_names-claims :
    (chains : Map Bytes BlockOfChain) (bcs : List BlockOfChain) (n : ℕ) (bc : BlockOfChain)
    → IsWalk chains bc.block.prev_hash bcs
    → length bcs < n
    → (names : Map Bytes Bool) × (get_taken_names n bc chains ≡ done names)
      × ((k : Bytes) → taken k names ≡ claims k (names_of (bc ∷ bcs)))
unfolding get_taken_names get_names names_of load
get_taken_names-claims chains bcs zero bc w l = absurd (omega (arith, l))
get_taken_names-claims chains [] (suc n) bc w l = (
  get_names bc.block,
  rw (w, get_taken_names) refl,
  λ k.
      rw (append-nil (tx_names bc.block.transactions))
        (mark_names-taken k bc.block.transactions []),
)
get_taken_names-claims chains (prev_bc ∷ bcs) (suc n) bc w l =
    let (names, e, t) = get_taken_names-claims chains bcs n prev_bc w.1 (omega (arith, l)) in
    (
      mark_keys (get_names bc.block) names,
      rw (w.0, get_taken_names, e) refl,
      λ k. ground (
        arith,
        mark_keys-taken k (get_names bc.block) names,
        mark_names-taken k bc.block.transactions [],
        contains-append Bytes-discrete k (tx_names bc.block.transactions)
            (names_of (prev_bc ∷ bcs)),
        t k,
      ),
    )

-- `checkValidTransactionsBackwards` answers when the walk from the block has fewer blocks than the
-- fuel, and accepts exactly if no name is claimed twice by the block and the blocks of the walk.
pub check_backwards-distinct :
    (chains : Map Bytes BlockOfChain) (bcs : List BlockOfChain) (n : ℕ) (block : Block)
    → IsWalk chains block.prev_hash bcs
    → length bcs < n
    → (r : Option SafeStringArray) × (check_valid_transactions_backwards n block chains ≡ done r)
      × (is_some r ≡ distinct Bytes-discrete (tx_names block.transactions ++ names_of bcs))
unfolding check_valid_transactions_backwards distinct new_unique_array
check_backwards-distinct chains bcs n block w l =
    let start = new_safe_string_array [] in
    let (valid, grown) =
      claim_names-claims block.transactions start (new-IsUnique Bytes-discrete [] refl) in
    elim (Bool-cases (claim_names block.transactions start).1) [
      | inl e ↦
          let (array, sound) = grown e in
          let (res, run, some_) =
            claim_backwards-claims chains bcs n block.prev_hash
              (claim_names block.transactions start).0 w l sound in
          (
            res,
            rw (e, check_valid_transactions_backwards) run,
            some_ ∙ ap (λ t. distinct Bytes-discrete (t ++ names_of bcs)) array,
          )
      | inr e ↦ (
        none,
        rw (e, check_valid_transactions_backwards) refl,
        sym (prefix-distinct (tx_names block.transactions) (names_of bcs) (sym valid ∙ e)),
      )
    ]
