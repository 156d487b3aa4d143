-- ===== src/Keys/Agreement.antt =====
-- diffie_hellman/diffiehellman/diffiehellman.go: both peers come to the same key.
use native.Mathlib.Nat.{pow-zero, pow-suc, add-mul-mod_self_left, div-add-mod}
use peerster.Base.{
  Bytes, [], ap, arith, false, refl, suc, sym, zero, ℕ, ℕ_discrete, ◌%◌, ◌*◌, ◌+◌, ◌/◌, ◌==◌, ◌^◌,
  ◌∙◌, ◌∷◌, ◌≡◌, ◌≤◌,
}
use peerster.Keys.{
  digits, exp, generate_public_key, generate_symmetric_key, new_diffie_hellman, read_number,
  set_bytes, to_bytes,
}

-- Reading the digits of a number gives the number.
read-digits :
    (fuel n : ℕ) (rest : Bytes) → n ≤ fuel → read_number 0 (digits fuel n rest) ≡ read_number n rest
unfolding digits read_number
read-digits zero n rest h =
    let none_left : n ≡ 0 = omega (arith, h) in ap (λ k. read_number k rest) (sym none_left)
read-digits (suc fuel) n rest h = elim (ℕ_discrete n 0) [
  | yes e ↦ rw (e) refl
  | no ne ↦
      let above : (n == 0) ≡ false = ground (arith, ne) in
      let shorter : n / 256 ≤ fuel = omega (arith, h, ne) in
      let whole : 256 * (n / 256) + n % 256 ≡ n = div-add-mod n 256 in
      rw (above)
        (read-digits fuel (n / 256) (n % 256 ∷ rest) shorter ∙ ap (λ k. read_number k rest) whole)
]

set_bytes-to_bytes : (n : ℕ) → set_bytes (to_bytes n) ≡ n
unfolding to_bytes read_number
set_bytes-to_bytes n = read-digits n n [] (omega arith)

mul_pow : (x y n : ℕ) → (x * y) ^ n ≡ x ^ n * y ^ n
mul_pow x y zero = ground (arith, pow-zero (x * y), pow-zero x, pow-zero y)
mul_pow x y (suc n) = rw (pow-suc (x * y) n, pow-suc x n, pow-suc y n, mul_pow x y n) ground arith

one_pow : (n : ℕ) → 1 ^ n ≡ 1
one_pow zero = pow-zero 1
one_pow (suc n) = rw (pow-suc 1 n, one_pow n) refl

pow_swap : (x a b : ℕ) → (x ^ a) ^ b ≡ (x ^ b) ^ a
pow_swap x zero b = rw (pow-zero x, pow-zero (x ^ b), one_pow b) refl
pow_swap x (suc a) b = rw (pow-suc x a, pow-suc (x ^ b) a, mul_pow (x ^ a) x b, pow_swap x a b) refl

distribute : (p q r y : ℕ) → (p * q + r) * y ≡ r * y + p * (q * y)
distribute p q r y = ground arith

commute : (x y : ℕ) → x * y ≡ y * x
commute x y = ground arith

mul_mod : (x y p : ℕ) → ((x % p) * y) % p ≡ (x * y) % p
mul_mod x y p =
    let whole : p * (x / p) + x % p ≡ x = div-add-mod x p in
    let split : x * y ≡ (x % p) * y + p * ((x / p) * y) =
      ap (λ k. k * y) (sym whole) ∙ distribute p (x / p) (x % p) y in
    sym (ap (λ k. k % p) split ∙ add-mul-mod_self_left ((x % p) * y) p ((x / p) * y))

pow_mod : (x n p : ℕ) → ((x % p) ^ n) % p ≡ (x ^ n) % p
pow_mod x zero p = rw (pow-zero (x % p), pow-zero x) refl
pow_mod x (suc n) p =
    let last : (x ^ n * (x % p)) % p ≡ (x ^ n * x) % p =
      ap (λ k. k % p) (commute (x ^ n) (x % p))
      ∙ mul_mod x (x ^ n) p
      ∙ ap (λ k. k % p) (commute x (x ^ n)) in
    rw (pow-suc (x % p) n, pow-suc x n)
      (sym (mul_mod ((x % p) ^ n) (x % p) p)
        ∙ ap (λ k. (k * (x % p)) % p) (pow_mod x n p)
        ∙ mul_mod (x ^ n) (x % p) p
        ∙ last)

-- Two peers with the same group and the same modulus derive the same symmetric key, each from its own
-- secret and the other's public key.
pub keys-agree :
    (sha256 : Bytes → Bytes) (group p a b : ℕ)
    → let alice = new_diffie_hellman group p a in
      let bob = new_diffie_hellman group p b in
      generate_symmetric_key sha256 alice (generate_public_key bob)
      ≡ generate_symmetric_key sha256 bob (generate_public_key alice)
unfolding generate_symmetric_key generate_public_key new_diffie_hellman
keys-agree sha256 group p a b = ap (λ n. sha256 (to_bytes n)) same
  where
    same :
        exp (set_bytes (to_bytes (exp group b p))) a p
        ≡ exp (set_bytes (to_bytes (exp group a p))) b p
    same =
        rw (set_bytes-to_bytes (exp group b p), set_bytes-to_bytes (exp group a p))
          (pow_mod (group ^ b) a p
            ∙ ap (λ k. k % p) (pow_swap group b a)
            ∙ sym (pow_mod (group ^ a) b p))
