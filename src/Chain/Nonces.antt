-- ===== src/Chain/Nonces.antt =====
-- Hashes and nonces of gossiper/blockchain.go as numbers, the first byte the most significant.
use native.Mathlib.Nat.{mod-eq_of_lt, mod-lt, mod_self, mul-le-mul_right}
use peerster.Dto.Packet.{Block}
use peerster.Base.{
  All, Bool, Bool-cases, Bytes, [], arith, dec_lt, if◌then◌else◌, inl, inr, length, none, refl,
  some, suc, sym, true, zero, ℕ, ◌%◌, ◌*◌, ◌++◌, ◌+◌, ◌<◌, ◌↔◌, ◌∙◌, ◌∷◌, ◌≡◌, ◌≤◌,
}
use peerster.Chain.{
  bits_clear, block_hash, check_valid, increment_from, increment_nonce, mine, starts_with_zeros,
}

-- `256 ^ n`
unfoldable pub weight : ℕ → ℕ
weight zero = 1
weight (suc n) = 256 * weight n

unfoldable pub be_value : Bytes → ℕ
be_value [] = 0
be_value (b ∷ bs) = b * weight (length bs) + be_value bs

abbrev pub IsByte : ℕ → Type 0
IsByte b = b < 256

be_value-lt : (bs : Bytes) → All IsByte bs → be_value bs < weight (length bs)
unfolding be_value weight
be_value-lt [] h = omega arith
be_value-lt (b ∷ bs) h = omega (
  arith,
  mul-le-mul_right {m = b} {n = 255} (weight (length bs)) (omega (arith, h.0)),
  be_value-lt bs h.1,
)

weight-positive : (n : ℕ) → 0 < weight n
unfolding weight
weight-positive zero = omega arith
weight-positive (suc n) = omega (arith, weight-positive n)

abbrev digit : Bool → ℕ
digit c = if c then 1 else 0

increment_from-value :
    (bs : Bytes)
    → All IsByte bs
    → (be_value (increment_from bs).0 + digit (increment_from bs).1 * weight (length bs)
        ≡ be_value bs + 1)
      × (length (increment_from bs).0 ≡ length bs)
unfolding be_value weight increment_from
increment_from-value [] h = (refl, refl)
increment_from-value (b ∷ bs) h =
    let (v, l) = increment_from-value bs h.1 in
    elim (Bool-cases (increment_from bs).1) [
      | inl e ↦ elim (dec_lt b 255) [
        | yes q ↦
            let next : (b + 1) % 256 ≡ b + 1 = omega (arith, q) in
            rw (e, next, l) (ground (arith, v), ground (arith, l))
        | no n ↦
            let last : b ≡ 255 = omega (arith, n, h.0) in
            rw (e, last, l) (ground (arith, v), ground (arith, l))
      ]
      | inr e ↦ rw (e, l) (ground (arith, v), ground (arith, l))
    ]

increment_from-IsByte : (bs : Bytes) → All IsByte bs → All IsByte (increment_from bs).0
unfolding increment_from
increment_from-IsByte [] h = tt
increment_from-IsByte (b ∷ bs) h = elim (Bool-cases (increment_from bs).1) [
  | inl e ↦ rw (e) (mod-lt (b + 1) (omega arith), increment_from-IsByte bs h.1)
  | inr e ↦ rw (e) (h.0, increment_from-IsByte bs h.1)
]

-- The bytes after a step are the next number in big-endian order, of as many bytes, and after the
-- largest number comes 0.
increment_nonce-value :
    (nonce : Bytes)
    → All IsByte nonce
    → (be_value (increment_nonce nonce) ≡ (be_value nonce + 1) % weight (length nonce))
      × (length (increment_nonce nonce) ≡ length nonce)
unfolding increment_nonce
increment_nonce-value nonce h =
    let (v, l) = increment_from-value nonce h in
    let below = be_value-lt (increment_from nonce).0 (increment_from-IsByte nonce h) in
    let old = be_value-lt nonce h in
    elim (Bool-cases (increment_from nonce).1) [
      | inl e ↦
          let whole : be_value nonce + 1 ≡ weight (length nonce) =
            ground (arith, rw (e) at v, old) in
          rw (whole, mod_self (weight (length nonce))) (ground (arith, rw (e) at v, whole), l)
      | inr e ↦
          let next : be_value (increment_from nonce).0 ≡ be_value nonce + 1 =
            ground (arith, rw (e) at v) in
          (next ∙ sym (mod-eq_of_lt (rw (l, next) at below)), l)
    ]

weight-append_le : (hash rest : Bytes) → weight (length rest) ≤ weight (length (hash ++ rest))
unfolding weight
weight-append_le [] rest = omega arith
weight-append_le (x ∷ hash) rest = omega (arith, weight-append_le hash rest)

module _ (rest : Bytes) where
  starts_with_zeros-value :
      (hash : Bytes)
      → All IsByte (hash ++ rest)
      → (starts_with_zeros (length hash) 0 (hash ++ rest) ≡ true)
        ↔ (be_value (hash ++ rest) < weight (length rest))
  unfolding starts_with_zeros bits_clear be_value
  starts_with_zeros-value [] h = (λ _. be_value-lt rest h, λ _. refl)
  starts_with_zeros-value (zero ∷ hash) h =
      let same : 0 * weight (length (hash ++ rest)) + be_value (hash ++ rest)
          ≡ be_value (hash ++ rest) =
        omega arith in
      rw (same) (starts_with_zeros-value hash h.1)
  starts_with_zeros-value (suc x ∷ hash) h = (
    λ e. absurd (ground arith),
    λ l. absurd (
        omega (
          arith,
          l,
          weight-append_le hash rest,
          mul-le-mul_right {m = 1} {n = suc x} (weight (length (hash ++ rest))) (omega arith),
        )),
  )

-- With a hash of two bytes and the bytes `rest`, a block passes `checkValid` exactly if its hash, as
-- a big-endian number, is below 256 to the number of bytes of `rest` (16 bits below the largest
-- hash), and `mine` publishes exactly the blocks that pass, as they are, with the hop limit 10.
pub mine_iff :
    (sha256 : Bytes → Bytes) (b : Block) (h0 h1 : ℕ) (rest : Bytes)
    → block_hash sha256 b ≡ h0 ∷ h1 ∷ rest
    → All IsByte (h0 ∷ h1 ∷ rest)
    → ((check_valid sha256 b ≡ true) ↔ (be_value (block_hash sha256 b) < weight (length rest)))
      × (mine sha256 b
          ≡ (if check_valid sha256 b then some (record { block = b; hop_limit = 10 }) else none))
unfolding check_valid mine
mine_iff sha256 b h0 h1 rest e h = (rw (e) (starts_with_zeros-value rest (h0 ∷ h1 ∷ []) h), refl)
