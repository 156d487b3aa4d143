-- ===== src/Keys.antt =====
-- Keys between peers. This file has diffie_hellman/diffiehellman/diffiehellman.go, the group
-- arithmetic of the exchange; `Sessions` has the keys that a peer holds (gossiper/diffiehellman.go,
-- gossiper/webcrawler.go), `Negotiation` the exchange of messages, and `Agreement` why both peers
-- come to the same key. SHA-256 is a parameter.
pub mod Agreement
pub mod Sessions
pub mod Negotiation
use peerster.Base.{Bytes, [], if◌then◌else◌, suc, zero, ℕ, ◌%◌, ◌*◌, ◌+◌, ◌/◌, ◌==◌, ◌^◌, ◌∷◌}

-- `SetBytes` of math/big: the number with the bytes, the first the most significant.
unfoldable pub read_number : ℕ → Bytes → ℕ
read_number acc [] = acc
read_number acc (b ∷ bs) = read_number (256 * acc + b) bs

abbrev pub set_bytes : Bytes → ℕ
set_bytes bs = read_number 0 bs

-- The digits of a number in base 256 before those in `rest`; the number is enough fuel.
unfoldable pub digits : ℕ → ℕ → Bytes → Bytes
digits zero n rest = rest
digits (suc fuel) n rest =
    let more = digits fuel (n / 256) (n % 256 ∷ rest) in if n == 0 then rest else more

-- `Bytes` of math/big, without leading zeros.
unfoldable pub to_bytes : ℕ → Bytes
to_bytes n = digits n n []

-- `Exp(x, y, m)` of math/big for a positive modulus.
abbrev pub exp : ℕ → ℕ → ℕ → ℕ
exp x y m = (x ^ y) % m

-- The secret is random.
pub record DiffieHellman : Type 0 where
  pub g : ℕ
  pub p : ℕ
  pub secret : ℕ

unfoldable pub new_diffie_hellman : ℕ → ℕ → ℕ → DiffieHellman
new_diffie_hellman group p secret = record { g = group; p = p; secret = secret }

unfoldable pub generate_public_key : DiffieHellman → Bytes
unfolding to_bytes
generate_public_key dh = to_bytes (exp dh.g dh.secret dh.p)

unfoldable pub generate_symmetric_key : (Bytes → Bytes) → DiffieHellman → Bytes → Bytes
unfolding to_bytes
generate_symmetric_key sha256 dh public_key =
    sha256 (to_bytes (exp (set_bytes public_key) dh.secret dh.p))
