-- ===== src/Search/Owners/Update.antt =====
-- Properties of what a search result adds to the owners.
use peerster.Base.{
  All, All-load, All-store, Bool, Bytes, Bytes-discrete, List, Map, Option-cases, [], arith, false,
  inl, inr, is_yes, length, load, load-store, none, not, refl, some, true, ℕ, ℕ_discrete, ◌&&◌,
  ◌==◌, ◌||◌, ◌∷◌, ◌≡◌,
}
use peerster.Dto.Arrays.{
  SafeStringArray, append_unique_to_array, new_safe_string_array, new_unique_array,
}
use peerster.Dto.Arrays.Unique.{
  IsUnique, append_unique_to_array-IsUnique, contains, contains-append, distinct, new-IsUnique,
}
use peerster.Search.Owners.{ChunkOwnersMap, add_owner, add_owners, update_map}

-- Whether a peer is known to own a chunk.
abbrev pub owns : Bytes → ℕ → Map ℕ SafeStringArray → Bool
owns peer v owners = elim (load ℕ_discrete v owners) [
  | none ↦ false
  | some array ↦ contains Bytes-discrete peer array.array
]

-- Every array of owners is sound.
abbrev IsSoundEntry : ℕ × SafeStringArray → Type 0
IsSoundEntry e = IsUnique Bytes-discrete e.1

one : (origin : Bytes) → distinct Bytes-discrete (origin ∷ []) ≡ true
unfolding distinct contains
one origin = refl

add_owner-owns :
    (origin peer : Bytes) (v w : ℕ) (owners : Map ℕ SafeStringArray)
    → All IsSoundEntry owners
    → (owns peer w (add_owner origin v owners)
        ≡ (owns peer w owners || is_yes (ℕ_discrete v w) && is_yes (Bytes-discrete origin peer)))
      × All IsSoundEntry (add_owner origin v owners)
unfolding add_owner contains new_unique_array
add_owner-owns origin peer v w owners s = elim (Option-cases (load ℕ_discrete v owners)) [
  | inl e ↦
      let array = new_safe_string_array (origin ∷ []) in
      rw (e, add_owner)
        (
          ground (arith, e, load-store ℕ_discrete v w array owners),
          All-store ℕ_discrete IsSoundEntry v array owners
              (new-IsUnique Bytes-discrete (origin ∷ []) (one origin)) s,
        )
  | inr (array, e) ↦
      let r = append_unique_to_array Bytes-discrete origin array in
      let sound = All-load ℕ_discrete IsSoundEntry v array owners s e in
      let added = append_unique_to_array-IsUnique Bytes-discrete origin array sound in
      rw (e, add_owner)
        (
          ground (
            arith,
            e,
            load-store ℕ_discrete v w r.0 owners,
            added.1,
            contains-append Bytes-discrete peer array.array (origin ∷ []),
          ),
          All-store ℕ_discrete IsSoundEntry v r.0 owners added.2 s,
        )
]

-- The chunk is in the list.
unfoldable pub listed : ℕ → List ℕ → Bool
listed w [] = false
listed w (v ∷ vs) = is_yes (ℕ_discrete v w) || listed w vs

add_owners-owns :
    (origin peer : Bytes) (chunk_map : List ℕ) (w : ℕ) (owners : Map ℕ SafeStringArray)
    → All IsSoundEntry owners
    → (owns peer w (add_owners origin chunk_map owners)
        ≡ (owns peer w owners || listed w chunk_map && is_yes (Bytes-discrete origin peer)))
      × All IsSoundEntry (add_owners origin chunk_map owners)
unfolding add_owners listed
add_owners-owns origin peer [] w owners s = (ground arith, s)
add_owners-owns origin peer (v ∷ vs) w owners s =
    let step = add_owner-owns origin peer v w owners s in
    let rest = add_owners-owns origin peer vs w (add_owner origin v owners) step.1 in
    (ground (arith, step.0, rest.0), rest.1)

-- The owners of a file, all of whose arrays are sound.
pub record IsSound (cm : ChunkOwnersMap) : Type 0 where
  pub arrays : All IsSoundEntry cm.chunk_owners

-- `UpdateMap` on owners without repeats: afterwards a peer owns a chunk exactly if it did or if it
-- is the origin and the chunk is in its list; there is a total match exactly if the number of
-- chunks with an owner is the file's number of chunks, and it is reported as made exactly if there
-- was none before; the arrays of owners stay without repeats.
update_map-owns :
    (origin : Bytes) (chunk_map : List ℕ) (cm : ChunkOwnersMap)
    → IsSound cm
    → let r = update_map origin chunk_map cm in
      ((peer : Bytes) (w : ℕ)
        → owns peer w r.0.chunk_owners ≡ (
            owns peer w cm.chunk_owners
            || listed w chunk_map && is_yes (Bytes-discrete origin peer)))
      × (r.1.has_total_match ≡ (length r.0.chunk_owners == cm.num_chunks))
      × (r.1.made_total_match ≡ (
          not (length cm.chunk_owners == cm.num_chunks)
          && (length r.0.chunk_owners == cm.num_chunks)))
      × IsSound r.0
unfolding update_map
update_map-owns origin chunk_map cm s = (
  λ peer w. (add_owners-owns origin peer chunk_map w cm.chunk_owners s.arrays).0,
  refl,
  refl,
  record { arrays = (add_owners-owns origin [] chunk_map 0 cm.chunk_owners s.arrays).1 },
)
