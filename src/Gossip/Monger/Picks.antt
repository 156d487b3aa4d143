-- ===== src/Gossip/Monger/Picks.antt =====
-- Properties of the choice of the peers that a rumor is sent to.
use peerster.Base.{
  Bool, Bool-cases, Bytes, Bytes-discrete, List, Map, Option-cases, [], arith, false, get_elem?,
  inl, inr, load, load-store, not, present, refl, some, store, suc, true, zero, ℕ, ◌&&◌, ◌==◌, ◌||◌,
  ◌∷◌, ◌≡◌, ◌≢◌, ◌⊎◌,
}
use peerster.Dto.Arrays.Unique.{contains}
use peerster.Gossip.Status.{difference_keys, fill_set, string_array_difference}
use peerster.Gossip.Node.{Gossiper}
use peerster.Gossip.Monger.{Draw, exceptions_of, monger_loop, pick_random_peer, rumor_monger}

abbrev pub has : Bytes → List Bytes → Bool
has = contains Bytes-discrete

fill_set-present :
    (k : Bytes) (keys : List Bytes) (m : Map Bytes Bool)
    → present Bytes-discrete k (fill_set keys m) ≡ (present Bytes-discrete k m || has k keys)
unfolding fill_set contains
fill_set-present k [] m = ground arith
fill_set-present k (key ∷ keys) m = ground (
  arith,
  fill_set-present k keys (store Bytes-discrete key true m),
  load-store Bytes-discrete key k true m,
)

difference_keys-has :
    (k : Bytes) (keys : List Bytes) (m : Map Bytes Bool)
    → has k (difference_keys m keys) ≡ (has k keys && not (present Bytes-discrete k m))
unfolding difference_keys contains
difference_keys-has k [] m = refl
difference_keys-has k (key ∷ keys) m = ground (arith, difference_keys-has k keys m)

-- `stringArrayDifference` keeps exactly the strings of the first list that the second one lacks.
difference-has :
    (k : Bytes) (first second : List Bytes)
    → has k (string_array_difference first second) ≡ (has k first && not (has k second))
unfolding string_array_difference load
difference-has k first second =
    ground (arith, difference_keys-has k first (fill_set second []), fill_set-present k second [])

get_elem?-has : (xs : List Bytes) (n : ℕ) (x : Bytes) → get_elem? xs n ≡ some x → has x xs ≡ true
unfolding contains
get_elem?-has [] n x h = absurd (ground arith)
get_elem?-has (y ∷ ys) zero x h = ground arith
get_elem?-has (y ∷ ys) (suc n) x h = ground (arith, get_elem?-has ys n x h)

-- A pick is a known peer and none of the exceptions.
pick_random_peer-has :
    (exceptions : List Bytes) (n : ℕ) (g : Gossiper) (peer : Bytes)
    → pick_random_peer exceptions n g ≡ some peer
    → (has peer g.peers.array ≡ true) × (has peer exceptions ≡ false)
unfolding pick_random_peer
pick_random_peer-has exceptions n g peer h = ground (
  arith,
  get_elem?-has (string_array_difference g.peers.array exceptions) n peer h,
  difference-has peer g.peers.array exceptions,
)

-- No peer stands next to itself.
abbrev pub Alternates : List Bytes → Type 0
Alternates [] = Unit
Alternates (x ∷ []) = Unit
Alternates (x ∷ y ∷ xs) = (x ≢ y) × Alternates (y ∷ xs)

monger_loop-head :
    (peer : Bytes) (draws : List Draw)
    → (rest : List Bytes) × (monger_loop peer draws ≡ peer ∷ rest)
unfolding monger_loop
monger_loop-head peer [] = ([], refl)
monger_loop-head peer (d ∷ draws) = (_, refl)

not_self : (peer next : Bytes) → has next (peer ∷ []) ≡ false → peer ≢ next
unfolding contains
not_self peer next h e = ground arith

cons-Alternates :
    (peer next : Bytes) (xs rest : List Bytes)
    → peer ≢ next
    → xs ≡ next ∷ rest
    → Alternates xs
    → Alternates (peer ∷ xs)
cons-Alternates peer next xs rest n e h = rw e (n, rw e at h)

monger_loop-Alternates : (peer : Bytes) (draws : List Draw) → Alternates (monger_loop peer draws)
unfolding monger_loop
monger_loop-Alternates peer [] = tt
monger_loop-Alternates peer (d ∷ draws) = elim (Bool-cases (d.coin == 1)) [
  | inl stop ↦ rw (stop, monger_loop) tt
  | inr on ↦ elim (Option-cases (pick_random_peer (peer ∷ []) d.pick d.seen)) [
    | inl nobody ↦ rw (on, nobody, monger_loop) tt
    | inr (next, picked) ↦
        let head = monger_loop-head next draws in
        rw (on, picked, monger_loop)
          (cons-Alternates peer next (monger_loop next draws) head.0
            (not_self peer next (pick_random_peer-has (peer ∷ []) d.pick d.seen next picked).1)
            head.1 (monger_loop-Alternates next draws))
  ]
]

-- A rumor that is mongered goes to no peer twice in a row, whatever is drawn and whatever other
-- routines do in between; it goes to nobody, or first to a known peer that is not the one it came
-- from.
pub rumor_monger-Alternates :
    (except : Bytes) (n : ℕ) (draws : List Draw) (g : Gossiper)
    → let tried = rumor_monger except n draws g in
      Alternates tried
      × ((tried ≡ [])
          ⊎ ((peer : Bytes) × (rest : List Bytes) × (tried ≡ peer ∷ rest)
              × (has peer g.peers.array ≡ true)
              × (has peer (exceptions_of except) ≡ false)))
unfolding rumor_monger
rumor_monger-Alternates except n draws g =
    elim (Option-cases (pick_random_peer (exceptions_of except) n g)) [
      | inl nobody ↦ rw (nobody, rumor_monger) (tt, inl refl)
      | inr (first, picked) ↦
          let facts = pick_random_peer-has (exceptions_of except) n g first picked in
          let head = monger_loop-head first draws in
          rw (picked, rumor_monger)
            (monger_loop-Alternates first draws, inr (first, head.0, head.1, facts.0, facts.1))
    ]
