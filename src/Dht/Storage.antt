-- ===== src/Dht/Storage.antt =====
-- dht/storage.go: the store of a node and the queue of addresses that its crawler keeps there. The
-- database (bbolt) is an interface with the laws that the code relies on; SHA-512, protobuf and the
-- sort are parameters. A write to the database succeeds.
pub mod Queue
pub mod Refines
pub mod Sizes
use peerster.Base.{
  Bytes, Bytes-discrete, Map, Option, [], if◌then◌else◌, inl, inr, ite, length, ltb, none, some,
  store, suc, zero, ℕ, ℕ_discrete, ◌%◌, ◌&&◌, ◌+◌, ◌-◌, ◌/◌, ◌==◌, ◌^◌, ◌∷◌, ◌≡◌, ◌⊎◌,
}
use peerster.Gossip.Node.{bytes_eq}
use peerster.Keys.{set_bytes}

-- `Itob`: 8 bytes, the most significant first.
unfoldable pub big_endian : ℕ → ℕ → Bytes → Bytes
big_endian zero n rest = rest
big_endian (suc width) n rest = big_endian width (n / 256) (n % 256 ∷ rest)

abbrev pub itob : ℕ → Bytes
itob v = big_endian 8 v []

-- `int(n) - 1` as `Itob` reads it: -1 is the greatest number of 64 bits.
unfoldable pub before : ℕ → ℕ
before n = if n == 0 then 2 ^ 64 - 1 else n - 1

abbrev pub keywords_bucket : Bytes
keywords_bucket = 107 ∷ 101 ∷ 121 ∷ 119 ∷ 111 ∷ 114 ∷ 100 ∷ 115 ∷ []

abbrev pub crawl_queue_bucket : Bytes
crawl_queue_bucket = 99 ∷ 114 ∷ 97 ∷ 119 ∷ 108 ∷ 81 ∷ 117 ∷ 101 ∷ 117 ∷ 101 ∷ []

abbrev pub queue_index_bucket : Bytes
queue_index_bucket = 113 ∷ 117 ∷ 101 ∷ 117 ∷ 101 ∷ 73 ∷ 110 ∷ 100 ∷ 101 ∷ 120 ∷ []

abbrev pub queue_count_id : Bytes
queue_count_id = 113 ∷ 117 ∷ 101 ∷ 67 ∷ 111 ∷ 117 ∷ 110 ∷ 116 ∷ []

-- A bucket and a key in it.
abbrev pub Slot : Type 0
Slot = Bytes × Bytes

unfoldable pub Slot-discrete : Discrete Slot
Slot-discrete = hlevel ℕ_discrete

-- bbolt: a write is seen by the reads of its slot and by no other, and the sequence number of a bucket
-- grows by one each time it is asked for, starting with 1 after 0.
pub record Bolt : Type 1 where
  pub Db : Type 0
  pub get : Slot → Db → Option Bytes
  pub put : Slot → Bytes → Db → Db
  pub remove : Slot → Db → Db
  pub next_sequence : Bytes → Db → ℕ × Db
  pub sequence : Bytes → Db → ℕ
  pub get_put :
      (s t : Slot) (v : Bytes) (db : Db)
      → get t (put s v db) ≡ ite (Slot-discrete s t) (some v) (get t db)
  pub get_remove :
      (s t : Slot) (db : Db) → get t (remove s db) ≡ ite (Slot-discrete s t) none (get t db)
  pub get_next : (b : Bytes) (t : Slot) (db : Db) → get t (next_sequence b db).1 ≡ get t db
  pub next_value : (b : Bytes) (db : Db) → (next_sequence b db).0 ≡ suc (sequence b db)
  pub sequence_next :
      (b : Bytes) (db : Db) → sequence b (next_sequence b db).1 ≡ suc (sequence b db)
  pub sequence_put : (s : Slot) (b v : Bytes) (db : Db) → sequence b (put s v db) ≡ sequence b db
  pub sequence_remove : (s : Slot) (b : Bytes) (db : Db) → sequence b (remove s db) ≡ sequence b db

pub record KeywordToUrlMap : Type 0 where
  pub keyword : Bytes
  pub link_data : Map Bytes ℕ

-- `sorted` stands for `sort.Slice` by falling frequency, of the entries as a range meets them.
pub record Protobuf : Type 0 where
  pub encode : KeywordToUrlMap → Bytes
  pub decode : Bytes → Option KeywordToUrlMap
  pub sorted : Map Bytes ℕ → Map Bytes ℕ

abbrev pub max_size : ℕ
max_size = 7500

module _ (pb : Protobuf) where
  -- The loop of `Retrieve` over the entries: the encoding so far, and the map that it encodes.
  unfoldable pub shrink_loop : Map Bytes ℕ → Bytes → KeywordToUrlMap → Bytes
  shrink_loop [] data_bytes new_map = data_bytes
  shrink_loop ((url, f) ∷ entries) data_bytes new_map =
      let new_map' : KeywordToUrlMap = record new_map {
        link_data = store Bytes-discrete url f new_map.link_data;
      } in
      let more = shrink_loop entries (pb.encode new_map') new_map' in
      if ltb max_size (length data_bytes + length url + 100) then data_bytes else more

  -- What `Retrieve` makes of an entry; `none` where it does not decode, which panics.
  unfoldable pub shrink : Bytes → Bytes → Option Bytes
  unfolding shrink_loop
  shrink bucket data_bytes =
      if bytes_eq bucket keywords_bucket && ltb max_size (length data_bytes)
      then elim (pb.decode data_bytes) [
        | none ↦ none
        | some m ↦ some (
            shrink_loop (pb.sorted m.link_data) [] (record { keyword = m.keyword; link_data = [] }))
      ]
      else some data_bytes

-- What the methods below return with: a value, a panic or the end of the program.
pub data Stopped : Type 0 where
  panic log_fatal : Stopped

module _ (bolt : Bolt) (pb : Protobuf) (sha512 : Bytes → Bytes) where
  -- `data, ok`
  unfoldable pub retrieve : Slot → bolt.Db → Stopped ⊎ Option Bytes
  unfolding shrink
  retrieve (bucket, key) db = elim (bolt.get (bucket, key) db) [
    | none ↦ inr none
    | some data_bytes ↦ elim (shrink pb bucket data_bytes) [
      | none ↦ inl panic
      | some data_bytes' ↦ inr (some data_bytes')
    ]
  ]

  abbrev pub queue_slot : Slot
  queue_slot = (queue_index_bucket, sha512 queue_count_id)

  abbrev pub link_slot : ℕ → Slot
  link_slot i = (crawl_queue_bucket, sha512 (itob i))

  -- The end of `NewStorage`.
  unfoldable pub new_storage : bolt.Db → Stopped ⊎ bolt.Db
  unfolding retrieve
  new_storage db = elim (retrieve queue_slot db) [
    | inl s ↦ inl s
    | inr none ↦ inr (bolt.put queue_slot (itob 0) db)
    | inr (some v) ↦ inr db
  ]

  unfoldable pub update_crawl_queue : Bytes → bolt.Db → bolt.Db
  unfolding before
  update_crawl_queue data_bytes db =
      let (id, db') = bolt.next_sequence crawl_queue_bucket db in
      bolt.put (link_slot (before id)) data_bytes db'

  unfoldable pub crawl_queue_head_pointer : bolt.Db → Stopped ⊎ ℕ
  unfolding retrieve
  crawl_queue_head_pointer db = elim (retrieve queue_slot db) [
    | inl s ↦ inl s
    | inr none ↦ inl log_fatal
    | inr (some val) ↦ inr (set_bytes val)
  ]

  -- `none` is the error for a queue without a head.
  unfoldable pub crawl_queue_head : bolt.Db → Stopped ⊎ (Option Bytes × bolt.Db)
  unfolding retrieve
  crawl_queue_head db = elim (retrieve queue_slot db) [
    | inl s ↦ inl s
    | inr none ↦ inl log_fatal
    | inr (some val) ↦
        let head_sequence_number = set_bytes val in
        elim (retrieve (link_slot head_sequence_number) db) [
          | inl s ↦ inl s
          | inr none ↦ inr (none, db)
          | inr (some head) ↦
              inr (some head, bolt.put queue_slot (itob (head_sequence_number + 1)) db)
        ]
  ]

  unfoldable pub delete_crawl_queue_head : bolt.Db → Stopped ⊎ bolt.Db
  unfolding crawl_queue_head_pointer before
  delete_crawl_queue_head db = elim (crawl_queue_head_pointer db) [
    | inl s ↦ inl s
    | inr index ↦ inr (bolt.remove (link_slot (before index)) db)
  ]
