-- ===== src/Chain.antt =====
-- gossiper/blockchain.go: the ledger of file names. This file has its blocks, what their hashes are
-- of (dto/DTO.go), the proof of work and the ledger; `Walks` goes back along a chain, `Insert` adds
-- a block, and `Mining` is the routine that mines. `sha256` is the standard library's function.
pub mod Nonces
pub mod Walks
pub mod Insert
pub mod Mining
use peerster.Base.{
  Bool, Bytes, Bytes-discrete, List, Map, Option, [], false, if◌then◌else◌, length, load, none,
  present, some, store, suc, true, zero, zero_bytes, ℕ, ◌%◌, ◌&&◌, ◌++◌, ◌+◌, ◌/◌, ◌==◌, ◌^◌, ◌∷◌,
}
use peerster.Dto.Packet.{Block, BlockPublish, Outcome, TxPublish, fatal, nil_pointer, ok}
use peerster.Files.Sharing.{default_hop_limit}
use Prim.Native.Nat.{bit_and}

-- How a call of the ledger ends: with a value, in `log.Fatal`, following a nil pointer (or an index
-- out of range), or not within the fuel of its loops.
pub data Run {ℓ} (A : Type ℓ) : Type ℓ where
  done : A → Run A
  exited crashed spent : Run A

infixl 5 ◌>>=◌
abbrev pub ◌>>=◌ {ℓ κ} : {A : Type ℓ} {B : Type κ} → Run A → (A → Run B) → Run B
done a >>= f = f a
exited >>= f = exited
crashed >>= f = crashed
spent >>= f = spent

-- The predicate holds of the value that a call gives, if it gives one.
abbrev pub IfDone {ℓ κ} : {A : Type ℓ} → (A → Type κ) → Run A → Type κ
IfDone P (done a) = P a
IfDone P exited = Unit
IfDone P crashed = Unit
IfDone P spent = Unit

pub record Ensures {ℓ κ} {A : Type ℓ} (P : A → Type κ) (r : Run A) : Type κ where
  pub holds : IfDone P r

pub >>=-Ensures {ℓ κ ι} :
    {A : Type ℓ} {B : Type κ} {P : B → Type ι} (r : Run A) (f : A → Run B)
    → ((a : A) → Ensures P (f a))
    → Ensures P (r >>= f)
>>=-Ensures (done a) f h = h a
>>=-Ensures exited f h = record { holds = tt }
>>=-Ensures crashed f h = record { holds = tt }
>>=-Ensures spent f h = record { holds = tt }

pub Ensures-then {ℓ κ ι η} :
    {A : Type ℓ} {B : Type κ} {P : A → Type η} {Q : B → Type ι} (r : Run A) (f : A → Run B)
    → Ensures P r
    → ((a : A) → P a → Ensures Q (f a))
    → Ensures Q (r >>= f)
Ensures-then (done a) f p h = h a p.holds
Ensures-then exited f p h = record { holds = tt }
Ensures-then crashed f p h = record { holds = tt }
Ensures-then spent f p h = record { holds = tt }

abbrev pub from_outcome {ℓ} : {A : Type ℓ} → Outcome A → Run A
from_outcome (ok a) = done a
from_outcome (fatal e) = exited
from_outcome nil_pointer = crashed

-- A pointer that a map gave, followed.
abbrev pub follow {ℓ} : {A : Type ℓ} → Option A → Run A
follow none = crashed
follow (some a) = done a

pub record BlockOfChain : Type 0 where
  pub length_of_chain : ℕ
  pub block : Block
  pub forks : Map Bytes Bool

-- `[32]byte{}`
unfoldable pub no_hash : Bytes
no_hash = zero_bytes 32

unfoldable pub new_genesis_block : BlockOfChain
new_genesis_block = record {
  length_of_chain = 0;
  block = record { prev_hash = no_hash; nonce = no_hash; transactions = [] };
  forks = [];
}

unfoldable pub new_block_of_chain : Block → BlockOfChain
new_block_of_chain block = record { length_of_chain = 0; block = block; forks = [] }

-- A block is stored under its hash, the genesis block under 32 zeros: the hash stands for the pointer.
pub record BlockchainLedger : Type 0 where
  pub longest_chain : Bytes
  pub chains : Map Bytes BlockOfChain

abbrev pub find : Bytes → Map Bytes BlockOfChain → Option BlockOfChain
find hash chains = load Bytes-discrete hash chains

abbrev pub put : Bytes → BlockOfChain → Map Bytes BlockOfChain → Map Bytes BlockOfChain
put hash bc chains = store Bytes-discrete hash bc chains

unfoldable pub new_blockchain_ledger : BlockchainLedger
new_blockchain_ledger = record {
  longest_chain = no_hash;
  chains = put no_hash new_genesis_block [];
}

unfoldable pub is_present : Bytes → BlockchainLedger → Bool
is_present hash bcl = present Bytes-discrete hash bcl.chains

-- `binary.Write(h, binary.LittleEndian, uint32(n))`
unfoldable pub little_endian32 : ℕ → Bytes
little_endian32 n = n % 256 ∷ (n / 256) % 256 ∷ (n / 2 ^ 16) % 256 ∷ (n / 2 ^ 24) % 256 ∷ []

module _ (sha256 : Bytes → Bytes) where
  unfoldable pub tx_hash : TxPublish → Bytes
  tx_hash t = sha256 (little_endian32 (length t.file.name) ++ t.file.name ++ t.file.metafile_hash)

  unfoldable pub tx_hashes : List TxPublish → Bytes
  tx_hashes [] = []
  tx_hashes (t ∷ ts) = tx_hash t ++ tx_hashes ts

  unfoldable pub block_hash : Block → Bytes
  block_hash b = sha256 (
      b.prev_hash ++ b.nonce ++ little_endian32 (length b.transactions) ++ tx_hashes b.transactions)

abbrev pub bit_difficulty : ℕ
bit_difficulty = 16

-- `b&hash32[i] != 0` for `j` bits from the mask `b` down; an array has no index out of range here.
unfoldable pub bits_clear : ℕ → ℕ → Bytes → Bool
bits_clear zero b hash = true
bits_clear (suc j) b [] = true
bits_clear (suc j) b (x ∷ hash) = (bit_and b x == 0) && bits_clear j (b / 2) (x ∷ hash)

-- The first `i` bytes are 0, and then the first `j` bits of the next byte.
unfoldable pub starts_with_zeros : ℕ → ℕ → Bytes → Bool
starts_with_zeros zero j hash = bits_clear j 128 hash
starts_with_zeros (suc i) j [] = true
starts_with_zeros (suc i) j (x ∷ hash) = (x == 0) && starts_with_zeros i j hash

module _ (sha256 : Bytes → Bytes) where
  unfoldable pub check_valid : Block → Bool
  check_valid b = starts_with_zeros (bit_difficulty / 8) (bit_difficulty % 8) (block_hash sha256 b)

  unfoldable pub mine : Block → Option BlockPublish
  mine b =
      if starts_with_zeros (bit_difficulty / 8) (bit_difficulty % 8) (block_hash sha256 b)
      then some (record { block = b; hop_limit = default_hop_limit })
      else none

-- `incr[i] = nonce[i] + 1` on bytes, from the last index down, until one is not 0: the bytes, and
-- whether the loop goes on.
unfoldable pub increment_from : Bytes → Bytes × Bool
increment_from [] = ([], true)
increment_from (b ∷ bs) =
    let (bs', go_on) = increment_from bs in
    if go_on then ((b + 1) % 256 ∷ bs', (b + 1) % 256 == 0) else (b ∷ bs', false)

unfoldable pub increment_nonce : Bytes → Bytes
increment_nonce nonce = (increment_from nonce).0
