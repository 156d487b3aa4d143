-- ===== src/Dht/Distance/Order.antt =====
-- Properties of `compare` as an order on identifiers of one length.
use peerster.Base.{Bytes, [], arith, false, length, refl, true, ◌∷◌, ◌≡◌}
use peerster.Dht.Distance.{compare_ids, is_above, xor_distance}

infix 50 ◌≼◌
-- `id1` is not above `id2`.
abbrev pub ◌≼◌ : Bytes → Bytes → Type 0
id1 ≼ id2 = is_above (compare_ids id1 id2) ≡ false

pub ≼_refl : (a : Bytes) → a ≼ a
unfolding compare_ids
≼_refl [] = refl
≼_refl (x ∷ xs) = ground (arith, ≼_refl xs)

pub ≼_of_above : (a b : Bytes) → is_above (compare_ids a b) ≡ true → b ≼ a
unfolding compare_ids
≼_of_above [] b h = absurd (ground arith)
≼_of_above (x ∷ xs) [] h = absurd (ground arith)
≼_of_above (x ∷ xs) (y ∷ ys) h = ground (arith, ≼_of_above xs ys)

pub ≼_trans : (a b c : Bytes) → length a ≡ length b → length b ≡ length c → a ≼ b → b ≼ c → a ≼ c
unfolding compare_ids
≼_trans [] b c p q h k = refl
≼_trans (x ∷ xs) [] c p q h k = absurd (omega arith)
≼_trans (x ∷ xs) (y ∷ ys) [] p q h k = absurd (omega arith)
≼_trans (x ∷ xs) (y ∷ ys) (z ∷ zs) p q h k =
    ground (arith, ≼_trans xs ys zs (omega arith) (omega arith))

pub ≼_antisym : (a b : Bytes) → length a ≡ length b → a ≼ b → b ≼ a → a ≡ b
unfolding compare_ids
≼_antisym [] [] p h k = refl
≼_antisym [] (y ∷ ys) p h k = absurd (omega arith)
≼_antisym (x ∷ xs) [] p h k = absurd (omega arith)
≼_antisym (x ∷ xs) (y ∷ ys) p h k = ground (arith, ≼_antisym xs ys (omega arith))

pub length-xor_distance : (a b : Bytes) → length a ≡ length b → length (xor_distance a b) ≡ length a
unfolding xor_distance
length-xor_distance [] b p = refl
length-xor_distance (x ∷ xs) [] p = absurd (omega arith)
length-xor_distance (x ∷ xs) (y ∷ ys) p = omega (arith, length-xor_distance xs ys (omega arith))
