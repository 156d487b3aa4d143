-- ===== src/Dht/Lookup/Phases.antt =====
-- gossiper/dhtAPI.go: the nodes that the phases of a lookup ask, and how many are left to ask.
use peerster.Dht.Buckets.{bucket_size}
use peerster.Dht.Distance.{insert_ordered}
use peerster.Base.{
  Bool, Bool-cases, Bytes, Bytes-discrete, List, [], ap, arith, false, inl, inr, is_yes, keep,
  length, load-store, load-store_self, refl, subst, suc, sym, take, true, zero, ℕ, ◌+◌, ◌<◌, ◌||◌,
  ◌∙◌, ◌∷◌, ◌≡◌, ◌≤◌, ◌⊎◌,
}
use peerster.Dht.Types.{NodeState}
use peerster.Dht.Nodes.{SafeNodeStateArray, insert, insert_array, lookup_bool, set_queried}
use peerster.Dht.Nodes.Select.{live, selections, silent, unqueried}
use peerster.Dht.Lookup.{Phase, final, query_all, round, selected}

-- An entry of the list.
abbrev pub Among : {A : Type 0} → A → List A → Type 0
Among n [] = ⊥
Among n (x ∷ xs) = (x ≡ n) ⊎ Among n xs

module _ {A : Type 0} where
  take-Among : (n : A) (k : ℕ) (xs : List A) → Among n (take k xs) → Among n xs
  take-Among n zero xs h = absurd h
  take-Among n (suc k) [] h = absurd h
  take-Among n (suc k) (x ∷ xs) (inl e) = inl e
  take-Among n (suc k) (x ∷ xs) (inr h) = inr (take-Among n k xs h)

  keep-yes : (p : A → Bool) (x : A) (xs : List A) → p x ≡ true → keep p (x ∷ xs) ≡ x ∷ keep p xs
  keep-yes p x xs e = ground (arith, e)

  keep-no : (p : A → Bool) (x : A) (xs : List A) → p x ≡ false → keep p (x ∷ xs) ≡ keep p xs
  keep-no p x xs e = ground (arith, e)

  keep-Among :
      (p : A → Bool) (n : A) (xs : List A) → Among n (keep p xs) → (p n ≡ true) × Among n xs
  keep-Among p n [] h = absurd h
  keep-Among p n (x ∷ xs) h = elim (Bool-cases (p x)) [
    | inl e ↦ elim (subst (λ l. Among n l) (keep-yes p x xs e) h) [
      | inl q ↦ (ap p (sym q) ∙ e, inl q)
      | inr m ↦ let (a, b) = keep-Among p n xs m in (a, inr b)
    ]
    | inr e ↦
        let (a, b) = keep-Among p n xs (subst (λ l. Among n l) (keep-no p x xs e) h) in (a, inr b)
  ]

  module _ (p q : A → Bool) (fewer : (x : A) → q x ≡ true → p x ≡ true) where
    keep-fewer : (xs : List A) → length (keep q xs) ≤ length (keep p xs)
    keep-fewer [] = omega arith
    keep-fewer (x ∷ xs) = ground (arith, fewer x, keep-fewer xs)

    -- An entry that passes only the first test makes a difference.
    keep-loses :
        (n : A) (xs : List A)
        → Among n xs
        → p n ≡ true
        → q n ≡ false
        → length (keep q xs) < length (keep p xs)
    keep-loses n [] h a b = absurd h
    keep-loses n (x ∷ xs) (inl e) a b =
        let px : p x ≡ true = ap p e ∙ a in
        let qx : q x ≡ false = ap q e ∙ b in ground (arith, px, qx, keep-fewer xs)
    keep-loses n (x ∷ xs) (inr h) a b = ground (arith, fewer x, keep-loses n xs h a b)

-- The nodes of a lookup that it did not ask.
abbrev pub count_unqueried : SafeNodeStateArray → ℕ
count_unqueried snsa = length (keep (unqueried snsa) snsa.array)

set_queried-unqueried :
    (ns n : NodeState) (snsa : SafeNodeStateArray)
    → unqueried (set_queried ns snsa) n ≡ true
    → unqueried snsa n ≡ true
unfolding set_queried
set_queried-unqueried ns n snsa h =
    ground (arith, h, load-store Bytes-discrete ns.node_id n.node_id true snsa.queried)

set_queried_self :
    (ns : NodeState) (snsa : SafeNodeStateArray) → unqueried (set_queried ns snsa) ns ≡ false
unfolding set_queried
set_queried_self ns snsa =
    ground (arith, load-store_self Bytes-discrete ns.node_id true snsa.queried)

pub query_all-array :
    (ns : List NodeState) (snsa : SafeNodeStateArray) → (query_all ns snsa).array ≡ snsa.array
unfolding query_all set_queried
query_all-array [] snsa = refl
query_all-array (n ∷ ns) snsa = query_all-array ns (set_queried n snsa)

query_all-fewer :
    (ns : List NodeState) (snsa : SafeNodeStateArray)
    → count_unqueried (query_all ns snsa) ≤ count_unqueried snsa
unfolding query_all set_queried
query_all-fewer [] snsa = omega arith
query_all-fewer (n ∷ ns) snsa = omega (
  arith,
  query_all-fewer ns (set_queried n snsa),
  keep-fewer (unqueried snsa) (unqueried (set_queried n snsa)) (λ m. set_queried-unqueried n m snsa)
      snsa.array,
)

-- A phase that asks a node of the array that was not asked leaves fewer such nodes.
pub query_all-loses :
    (n : NodeState) (ns : List NodeState) (snsa : SafeNodeStateArray)
    → Among n snsa.array
    → unqueried snsa n ≡ true
    → count_unqueried (query_all (n ∷ ns) snsa) < count_unqueried snsa
unfolding query_all set_queried
query_all-loses n ns snsa m u = omega (
  arith,
  query_all-fewer ns (set_queried n snsa),
  keep-loses (unqueried snsa) (unqueried (set_queried n snsa)) (λ k. set_queried-unqueried n k snsa)
      n snsa.array m u (set_queried_self n snsa),
)

-- The first node that a phase asks is a node of the array that was not asked.
pub selected-unqueried :
    (phase : Phase) (snsa : SafeNodeStateArray) (n : NodeState) (ns : List NodeState)
    → (selected phase snsa).0 ≡ n ∷ ns
    → (unqueried snsa n ≡ true) × Among n snsa.array
selected-unqueried round snsa n ns e =
    let sel = (selections snsa 3 (omega arith)).0 in
    let first : Among n (take 3 (keep (unqueried snsa) snsa.array)) =
      subst (λ xs. Among n xs) (sym e ∙ sel) (inl refl) in
    keep-Among (unqueried snsa) n snsa.array (take-Among n 3 _ first)
selected-unqueried final snsa n ns e =
    let sel =
      ap (λ (x : List NodeState × List NodeState). x.0)
        (selections snsa bucket_size (omega arith)).2 in
    let first : Among n (keep (silent snsa) (take bucket_size (keep (live snsa) snsa.array))) =
      subst (λ xs. Among n xs) (sym e ∙ sel) (inl refl) in
    let (quiet, m) = keep-Among (silent snsa) n _ first in
    let (_, inside) = keep-Among (live snsa) n snsa.array (take-Among n bucket_size _ m) in
    (ground (arith, quiet), inside)

insert_ordered-length :
    (target : Bytes) (ns : List NodeState) (p : NodeState)
    → length (insert_ordered target ns p) ≡ suc (length ns)
unfolding insert_ordered
insert_ordered-length target [] p = refl
insert_ordered-length target (n ∷ ns) p = ground (arith, insert_ordered-length target ns p)

insert_ordered-keep :
    (target : Bytes) (f : NodeState → Bool) (ns : List NodeState) (p : NodeState)
    → length (keep f (insert_ordered target ns p)) ≤ suc (length (keep f ns))
unfolding insert_ordered
insert_ordered-keep target f [] p = ground arith
insert_ordered-keep target f (n ∷ ns) p = ground (arith, insert_ordered-keep target f ns p)

-- A new node may be one more to ask.
insert-unqueried :
    (p : NodeState) (snsa : SafeNodeStateArray)
    → count_unqueried (insert p snsa).0 + length snsa.array
      ≤ count_unqueried snsa + length (insert p snsa).0.array
unfolding insert
insert-unqueried p snsa = elim (Bool-cases (lookup_bool p.node_id snsa.exists)) [
  | inl e ↦ rw (insert, e) (omega arith)
  | inr e ↦
      rw (insert, e)
        (omega (
          arith,
          insert_ordered-length snsa.target snsa.array p,
          insert_ordered-keep snsa.target (unqueried snsa) snsa.array p,
        ))
]

pub insert_array-unqueried :
    (nodes : List NodeState) (except : Bytes) (closer : Bool) (snsa : SafeNodeStateArray)
    → let r = insert_array nodes except closer snsa in
      count_unqueried r.0 + length snsa.array ≤ count_unqueried snsa + length r.0.array
unfolding insert_array
insert_array-unqueried [] except closer snsa = omega arith
insert_array-unqueried (node ∷ nodes) except closer snsa =
    elim (Bool-cases (is_yes (Bytes-discrete node.node_id except) || closer)) [
      | inl e ↦ rw (insert_array, e) (insert_array-unqueried nodes except closer snsa)
      | inr e ↦
          rw (insert_array, e)
            (omega (
              arith,
              insert_array-unqueried nodes except (insert node snsa).1 (insert node snsa).0,
              insert-unqueried node snsa,
            ))
    ]
