-- ===== src/Base/SyncMap.antt =====
-- Go's maps and `sync.Map`: a list of entries, in the order in which a range happens to meet them.
use mathlib.Core.Bool.{Bool, true, false}
use mathlib.Core.List.{List, [], ◌∷◌}
use mathlib.Core.Logic.{ite, if_pos, if_neg}
use mathlib.Core.Option.{Option, none, some}
use mathlib.Core.Path.{◌≡◌, refl, ◌∙◌, subst}
use native.Mathlib.Omega.{arith}
use Prim.Native.Nat.{suc}
use peerster.Base.Lists.{length, All, All-mono}

abbrev pub Map {ℓ} : Type ℓ → Type ℓ → Type ℓ
Map K V = List (K × V)

module _ {ℓ} {K V : Type ℓ} (dec : Discrete K) where
  -- `v, ok := m[k]`
  unfoldable pub load : K → Map K V → Option V
  load k [] = none
  load k ((j, v) ∷ m) = ite (dec j k) (some v) (load k m)

  -- `m[k] = v`
  unfoldable pub store : K → V → Map K V → Map K V
  store k v [] = (k, v) ∷ []
  store k v ((j, w) ∷ m) = ite (dec j k) ((k, v) ∷ m) ((j, w) ∷ store k v m)

  -- `delete(m, k)`
  unfoldable pub delete : K → Map K V → Map K V
  delete k [] = []
  delete k ((j, w) ∷ m) = ite (dec j k) (delete k m) ((j, w) ∷ delete k m)

  -- `_, ok := m[k]`
  abbrev pub present : K → Map K V → Bool
  present k m = elim (load k m) [ none ↦ false | some v ↦ true ]

  -- `LoadOrStore`: the value that the map holds afterwards, whether it was there, and the map.
  unfoldable pub load_or_store : K → V → Map K V → V × Bool × Map K V
  load_or_store k v m = elim (load k m) [ none ↦ (v, false, store k v m) | some w ↦ (w, true, m) ]

  pub load-store :
      (k j : K) (v : V) (m : Map K V) → load j (store k v m) ≡ ite (dec k j) (some v) (load j m)
  unfolding load store
  load-store k j v [] = refl
  load-store k j v ((i, w) ∷ m) = ground (arith, load-store k j v m)

  pub load-store_self : (k : K) (v : V) (m : Map K V) → load k (store k v m) ≡ some v
  load-store_self k v m = ground (arith, load-store k k v m)

  pub load-delete : (k j : K) (m : Map K V) → load j (delete k m) ≡ ite (dec k j) none (load j m)
  unfolding load delete
  load-delete k j [] = ground arith
  load-delete k j ((i, w) ∷ m) = ground (arith, load-delete k j m)

  -- A new key adds one entry, a known key none.
  pub length-store :
      (k : K) (v : V) (m : Map K V)
      → length (store k v m) ≡ elim (load k m) [ none ↦ suc (length m) | some w ↦ length m ]
  unfolding load store
  length-store k v [] = refl
  length-store k v ((j, w) ∷ m) = ground (arith, length-store k v m)

  -- What `LoadOrStore` returns is what a load then finds.
  pub load_or_store-load :
      (k : K) (v : V) (m : Map K V) → load k (load_or_store k v m).2 ≡ some (load_or_store k v m).0
  unfolding load_or_store
  load_or_store-load k v m = ground (arith, load-store_self k v m)

  -- No key stands twice.
  abbrev pub DistinctKeys : Map K V → Type ℓ
  DistinctKeys [] = Unit
  DistinctKeys ((k, v) ∷ m) = (load k m ≡ none) × DistinctKeys m

  pub store-DistinctKeys :
      (k : K) (v : V) (m : Map K V) → DistinctKeys m → DistinctKeys (store k v m)
  unfolding load store
  store-DistinctKeys k v [] h = (refl, tt)
  store-DistinctKeys k v ((j, w) ∷ m) h = elim (dec j k) [
    | yes e ↦ rw (if_pos _ e) (subst (λ x. load x m ≡ none) e h.0, h.1)
    | no n ↦
        rw (if_neg _ n) (load-store k j v m ∙ ground (arith, h.0), store-DistinctKeys k v m h.1)
  ]

  pub All-store {κ} :
      (P : K × V → Type κ) (k : K) (v : V) (m : Map K V) → P (k, v) → All P m → All P (store k v m)
  unfolding store
  All-store P k v [] p h = (p, tt)
  All-store P k v ((j, w) ∷ m) p h = elim (dec j k) [
    | yes e ↦ rw (if_pos _ e) (p, h.1)
    | no n ↦ rw (if_neg _ n) (h.0, All-store P k v m p h.1)
  ]

  pub All-load {κ} :
      (P : K × V → Type κ) (k : K) (v : V) (m : Map K V) → All P m → load k m ≡ some v → P (k, v)
  unfolding load
  All-load P k v [] h e = absurd (ground arith)
  All-load P k v ((j, w) ∷ m) h e = elim (dec j k) [
    | yes q ↦
        let same : w ≡ v = ground arith in subst (λ x. P (x, v)) q (subst (λ x. P (j, x)) same h.0)
    | no n ↦ All-load P k v m h.1 (rw (if_neg _ n) at e)
  ]

  -- A range over distinct keys meets each entry as a load finds it.
  pub All-self : (m : Map K V) → DistinctKeys m → All (λ e. load e.0 m ≡ some e.1) m
  unfolding load
  All-self [] h = tt
  All-self ((j, w) ∷ m) h = (
    if_pos (dec j j) refl _ _,
    All-mono (λ e. load e.0 m ≡ some e.1) (λ e. load e.0 ((j, w) ∷ m) ≡ some e.1) m
        (λ e q. ground (arith, h.0)) (All-self m h.1),
  )

pub ruleset map_laws = (load-store, load-delete)
