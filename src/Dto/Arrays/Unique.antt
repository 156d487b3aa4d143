-- ===== src/Dto/Arrays/Unique.antt =====
-- Properties of the arrays without duplicates: the set against the slice.
use peerster.Base.{
  Bool, List, Map, Option-cases, [], arith, false, if◌then◌else◌, inl, inr, is_yes, load,
  load-store, not, present, refl, store, true, ◌&&◌, ◌++◌, ◌||◌, ◌∷◌, ◌≡◌,
}
use peerster.Dto.Arrays.{UniqueArray, append_unique_to_array, mark_all, new_unique_array}

module _ {K : Type 0} (dec : Discrete K) where
  unfoldable pub contains : K → List K → Bool
  contains k [] = false
  contains k (x ∷ xs) = is_yes (dec x k) || contains k xs

  unfoldable pub distinct : List K → Bool
  distinct [] = true
  distinct (x ∷ xs) = not (contains x xs) && distinct xs

  pub contains-append :
      (k : K) (xs ys : List K) → contains k (xs ++ ys) ≡ (contains k xs || contains k ys)
  unfolding contains
  contains-append k [] ys = refl
  contains-append k (x ∷ xs) ys = ground (arith, contains-append k xs ys)

  distinct-snoc :
      (x : K) (xs : List K)
      → contains x xs ≡ false
      → distinct xs ≡ true
      → distinct (xs ++ x ∷ []) ≡ true
  unfolding contains distinct
  distinct-snoc x [] h d = refl
  distinct-snoc x (y ∷ ys) h d =
      ground (arith, contains-append y ys (x ∷ []), distinct-snoc x ys, dec x y, dec y x)

  -- The set holds exactly the items of the slice, and no item stands twice in the slice.
  pub record IsUnique (a : UniqueArray K) : Type 0 where
    pub tracked : (k : K) → present dec k a.exists ≡ contains k a.array
    pub once : distinct a.array ≡ true

  mark_all-present :
      (k : K) (xs : List K) (m : Map K Bool)
      → present dec k (mark_all dec xs m) ≡ (present dec k m || contains k xs)
  unfolding mark_all contains
  mark_all-present k [] m = ground arith
  mark_all-present k (x ∷ xs) m =
      ground (arith, mark_all-present k xs (store dec x true m), load-store dec x k true m)

  pub new-IsUnique :
      (members : List K) → distinct members ≡ true → IsUnique (new_unique_array dec members)
  unfolding new_unique_array load
  new-IsUnique members d = record { tracked = λ k. mark_all-present k members []; once = d }

  -- `AppendUniqueToArray` on a sound array: it reports whether the item was not in the slice, adds
  -- it at the end exactly then, and the array stays sound.
  pub append_unique_to_array-IsUnique :
      (item : K) (a : UniqueArray K)
      → IsUnique a
      → let r = append_unique_to_array dec item a in
        (r.1 ≡ not (contains item a.array))
        × (r.0.array ≡ (if contains item a.array then a.array else a.array ++ item ∷ []))
        × IsUnique r.0
  unfolding append_unique_to_array contains
  append_unique_to_array-IsUnique item a h = elim (Option-cases (load dec item a.exists)) [
    | inl e ↦
        let fresh : contains item a.array ≡ false = ground (arith, h.tracked item) in
        rw (e, append_unique_to_array, fresh)
          (
            refl,
            refl,
            record {
              tracked = λ k. ground (
                arith,
                h.tracked k,
                load-store dec item k true a.exists,
                contains-append k a.array (item ∷ []),
              );
              once = distinct-snoc item a.array fresh h.once;
            },
          )
    | inr (b, e) ↦
        let old : contains item a.array ≡ true = ground (arith, h.tracked item) in
        rw (e, append_unique_to_array, old) (refl, refl, h)
  ]
