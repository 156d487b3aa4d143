-- ===== src/Dht/Distance/Xor.antt =====
-- Properties of the distance: which identifiers it tells apart.
use peerster.Dht.Distance.{
  common_leading_bits, compare_ids, is_above, is_closer, leading_zeros8, xor_distance,
}
use peerster.Dht.Distance.Order.{length-xor_distance, ≼_antisym, ≼_of_above}
use peerster.Base.{
  All, Bool, Bool-cases, Bytes, [], arith, bit_xor, inl, inr, length, not, refl, suc, true, zero, ℕ,
  ◌&&◌, ◌+◌, ◌<◌, ◌==◌, ◌∷◌, ◌≡◌, ◌≢◌,
}

-- The xor with one byte undoes itself on all numbers below a bound.
undone_below : ℕ → ℕ → Bool
undone_below t zero = true
undone_below t (suc a) = undone_below t a && bit_xor t (bit_xor t a) == a

-- All first bytes below a bound.
undone_by_all : ℕ → Bool
undone_by_all zero = true
undone_by_all (suc t) = undone_by_all t && undone_below t 256

undone_below-at :
    (t bound a : ℕ) → undone_below t bound ≡ true → a < bound → bit_xor t (bit_xor t a) ≡ a
unfolding undone_below
undone_below-at t zero a h lt = absurd (omega arith)
undone_below-at t (suc bound) a h lt = ground (arith, undone_below-at t bound a)

undone_by_all-at :
    (bound t : ℕ) → undone_by_all bound ≡ true → t < bound → undone_below t 256 ≡ true
unfolding undone_by_all
undone_by_all-at zero t h lt = absurd (omega arith)
undone_by_all-at (suc bound) t h lt = ground (arith, undone_by_all-at bound t)

cancel_table : undone_by_all 256 ≡ true
unfolding undone_by_all undone_below
cancel_table = refl

-- Xor with one byte is undone by the same xor.
bit_xor_cancel : (t a : ℕ) → t < 256 → a < 256 → bit_xor t (bit_xor t a) ≡ a
bit_xor_cancel t a ht ha = undone_below-at t 256 a (undone_by_all-at 256 t cancel_table ht) ha

abbrev pub IsByte : ℕ → Type 0
IsByte b = b < 256

xor_distance-injective :
    (t a b : Bytes)
    → All IsByte t
    → All IsByte a
    → All IsByte b
    → length t ≡ length a
    → length t ≡ length b
    → xor_distance t a ≡ xor_distance t b
    → a ≡ b
unfolding xor_distance
xor_distance-injective [] [] [] ht ha hb p q e = refl
xor_distance-injective [] [] (z ∷ zs) ht ha hb p q e = absurd (omega arith)
xor_distance-injective [] (y ∷ ys) b ht ha hb p q e = absurd (omega arith)
xor_distance-injective (x ∷ xs) [] b ht ha hb p q e = absurd (omega arith)
xor_distance-injective (x ∷ xs) (y ∷ ys) [] ht ha hb p q e = absurd (omega arith)
xor_distance-injective (x ∷ xs) (y ∷ ys) (z ∷ zs) ht ha hb p q e = ground (
  arith,
  bit_xor_cancel x y ht.0 ha.0,
  bit_xor_cancel x z ht.0 hb.0,
  xor_distance-injective xs ys zs ht.1 ha.1 hb.1 (omega arith) (omega arith),
)

-- Of two different identifiers of bytes, as long as the target, exactly one is closer to the
-- target: distances are never tied.
is_closer-strict :
    (t a b : Bytes)
    → All IsByte t
    → All IsByte a
    → All IsByte b
    → length t ≡ length a
    → length t ≡ length b
    → a ≢ b
    → is_closer t a b ≡ not (is_closer t b a)
unfolding is_closer
is_closer-strict t a b ht ha hb p q ne =
    let da = xor_distance t a in
    let db = xor_distance t b in
    elim (Bool-cases (is_above (compare_ids da db))) [
      | inl e ↦ ground (arith, ≼_of_above da db e)
      | inr e ↦ elim (Bool-cases (is_above (compare_ids db da))) [
        | inl f ↦ ground arith
        | inr f ↦ absurd (
            ne (
              xor_distance-injective t a b ht ha hb p q (
                ≼_antisym da db
                  (omega (arith, length-xor_distance t a p, length-xor_distance t b q)) e f)))
      ]
    ]

leading_zeros8-lt : (a b : ℕ) → leading_zeros8 a < leading_zeros8 b → b < a
leading_zeros8-lt a b h = ground arith

leading_zeros8-lt-eight : (a : ℕ) → a ≢ 0 → leading_zeros8 a < 8
leading_zeros8-lt-eight a h = ground arith

-- Of two identifiers as long as the target, the one that shares more leading bits with the target
-- is closer to it.
pub more_leading_bits-is_closer :
    (t a b : Bytes)
    → length t ≡ length a
    → length t ≡ length b
    → common_leading_bits t a < common_leading_bits t b
    → is_closer t a b ≡ true
unfolding is_closer common_leading_bits xor_distance compare_ids
more_leading_bits-is_closer [] a b p q h = absurd (omega arith)
more_leading_bits-is_closer (x ∷ xs) [] b p q h = absurd (omega arith)
more_leading_bits-is_closer (x ∷ xs) (y ∷ ys) [] p q h = absurd (omega arith)
more_leading_bits-is_closer (x ∷ xs) (y ∷ ys) (z ∷ zs) p q h =
    let u = bit_xor x y in
    let v = bit_xor x z in
    elim (Bool-cases (u == 0)) [
      | inl eu ↦ elim (Bool-cases (v == 0)) [
        | inl ev ↦
            let h' : 8 + common_leading_bits xs ys < 8 + common_leading_bits xs zs =
              rw (eu, ev) at h in
            let rest =
              more_leading_bits-is_closer xs ys zs (omega arith) (omega arith)
                (omega (arith, h')) in
            ground (arith, rest)
        | inr ev ↦ absurd (ground (arith, leading_zeros8-lt-eight v))
      ]
      | inr eu ↦ elim (Bool-cases (v == 0)) [
        | inl ev ↦ ground arith
        | inr ev ↦ ground (arith, leading_zeros8-lt u v)
      ]
    ]
