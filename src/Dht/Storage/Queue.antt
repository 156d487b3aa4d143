-- ===== src/Dht/Storage/Queue.antt =====
-- dht/storage.go: the crawl queue in the database is a queue.
use peerster.Base.{
  Bytes, List, Option-cases, [], ap, arith, false, get_elem?, if_neg, if_pos, if◌then◌else◌, inl,
  inr, length, length-append, none, refl, some, suc, sym, zero, ℕ, ℕ_discrete, ◌%◌, ◌*◌, ◌++◌, ◌+◌,
  ◌-◌, ◌/◌, ◌<◌, ◌==◌, ◌^◌, ◌∙◌, ◌∷◌, ◌≡◌, ◌≢◌, ◌≤◌,
}
use peerster.Gossip.Node.{bytes_eq}
use peerster.Keys.{read_number, set_bytes}
use peerster.Dht.Storage.{
  Bolt, Protobuf, Slot, Slot-discrete, before, big_endian, crawl_queue_bucket, crawl_queue_head,
  crawl_queue_head_pointer, delete_crawl_queue_head, itob, keywords_bucket, link_slot,
  queue_index_bucket, queue_slot, retrieve, shrink, update_crawl_queue,
}
use native.Mathlib.Nat.{pow-zero, pow-suc}

read-big_endian :
    (width n acc : ℕ) (rest : Bytes)
    → n < 256 ^ width
    → read_number acc (big_endian width n rest) ≡ read_number (256 ^ width * acc + n) rest
unfolding big_endian read_number
read-big_endian zero n acc rest h =
    let one = pow-zero 256 in ap (λ k. read_number k rest) (ground (arith, one, h))
read-big_endian (suc width) n acc rest h =
    let p = 256 ^ width in
    let room : n / 256 < p = omega (arith, rw (pow-suc 256 width) at h) in
    let scale : (p * 256) * acc ≡ 256 * (p * acc) = ground arith in
    let same : 256 * (p * acc + n / 256) + n % 256 ≡ 256 ^ suc width * acc + n =
      rw (pow-suc 256 width, scale) omega arith in
    read-big_endian width (n / 256) acc (n % 256 ∷ rest) room ∙ ap (λ k. read_number k rest) same

-- The number in 8 bytes reads back.
pub set_bytes-itob : (n : ℕ) → n < 2 ^ 64 → set_bytes (itob n) ≡ n
unfolding read_number
set_bytes-itob n h = read-big_endian 8 n 0 [] h ∙ omega arith

bucket_ne : bytes_eq queue_index_bucket keywords_bucket ≡ false
bucket_ne = ground arith

link_ne : bytes_eq crawl_queue_bucket keywords_bucket ≡ false
link_ne = ground arith

before-small : (n : ℕ) → n < 2 ^ 64 → before n < 2 ^ 64
unfolding before
before-small n h = ground (arith, h)

before-outside : (n i : ℕ) → n ≤ i → i < 2 ^ 63 → before n ≢ i
unfolding before
before-outside n i above below e = ground (arith, above, below, e)

get_elem?-snoc :
    (urls : List Bytes) (url : Bytes) (i : ℕ)
    → get_elem? (urls ++ url ∷ []) i ≡ (if i == length urls then some url else get_elem? urls i)
get_elem?-snoc [] url zero = ground arith
get_elem?-snoc [] url (suc i) = ground arith
get_elem?-snoc (x ∷ urls) url zero = ground arith
get_elem?-snoc (x ∷ urls) url (suc i) = ground (arith, get_elem?-snoc urls url i)

before-suc : (n : ℕ) → before (suc n) ≡ n
unfolding before
before-suc n = ground arith

module _ (bolt : Bolt) (pb : Protobuf) (sha512 : Bytes → Bytes) where
  plain :
      (s : Slot) (db : bolt.Db)
      → bytes_eq s.0 keywords_bucket ≡ false
      → retrieve bolt pb sha512 s db ≡ inr (bolt.get s db)
  unfolding retrieve shrink
  plain s db ne = elim (Option-cases (bolt.get s db)) [
    | inl e ↦ rw (retrieve, e) refl
    | inr (v, e) ↦ rw (retrieve, shrink, e, ne) refl
  ]

  pub put_same :
      (s t : Slot) (v : Bytes) (db : bolt.Db) → s ≡ t → bolt.get t (bolt.put s v db) ≡ some v
  put_same s t v db e = bolt.get_put s t v db ∙ if_pos (Slot-discrete s t) e _ _

  pub put_other :
      (s t : Slot) (v : Bytes) (db : bolt.Db) → s ≢ t → bolt.get t (bolt.put s v db) ≡ bolt.get t db
  put_other s t v db ne = bolt.get_put s t v db ∙ if_neg (Slot-discrete s t) ne _ _

  remove_other : (s t : Slot) (db : bolt.Db) → s ≢ t → bolt.get t (bolt.remove s db) ≡ bolt.get t db
  remove_other s t db ne = bolt.get_remove s t db ∙ if_neg (Slot-discrete s t) ne _ _

  pub link-queue : (i : ℕ) → link_slot bolt pb sha512 i ≢ queue_slot bolt pb sha512
  link-queue i e = ground (arith, ap (λ (s : Slot). s.0) e)

  -- The abstract queue: the addresses from the pointer to the head on.
  pub record IsQueue (db : bolt.Db) (head : ℕ) (urls : List Bytes) : Type 0 where
    pub pointer : bolt.get (queue_slot bolt pb sha512) db ≡ some (itob head)
    pub count : bolt.sequence crawl_queue_bucket db ≡ head + length urls
    pub small : head + length urls < 2 ^ 63
    pub links :
        (i : ℕ)
        → head ≤ i
        → i < 2 ^ 63
        → bolt.get (link_slot bolt pb sha512 i) db ≡ get_elem? urls (i - head)

  module _
      (collision_free : (m n : ℕ)
        → m < 2 ^ 64
        → n < 2 ^ 64
        → sha512 (itob m) ≡ sha512 (itob n)
        → m ≡ n) where
    link_ne_link :
        (m n : ℕ)
        → m < 2 ^ 64
        → n < 2 ^ 64
        → m ≢ n
        → link_slot bolt pb sha512 m ≢ link_slot bolt pb sha512 n
    link_ne_link m n hm hn ne e = ne (collision_free m n hm hn (ap (λ (s : Slot). s.1) e))

    -- The last address goes to the end of the queue.
    pub update_crawl_queue-IsQueue :
        (db : bolt.Db) (head : ℕ) (urls : List Bytes) (url : Bytes)
        → IsQueue db head urls
        → head + length urls + 1 < 2 ^ 63
        → IsQueue (update_crawl_queue bolt pb sha512 url db) head (urls ++ url ∷ [])
    unfolding update_crawl_queue
    update_crawl_queue-IsQueue db head urls url q room =
        let id = (bolt.next_sequence crawl_queue_bucket db).0 in
        let db' = (bolt.next_sequence crawl_queue_bucket db).1 in
        let at : before id ≡ head + length urls =
          ap before (bolt.next_value crawl_queue_bucket db) ∙ before-suc _ ∙ q.count in
        let s = link_slot bolt pb sha512 (before id) in
        record {
          pointer =
              put_other s _ url db' (link-queue (before id)) ∙ bolt.get_next _ _ db ∙ q.pointer;
          count =
              bolt.sequence_put s crawl_queue_bucket url db'
              ∙ bolt.sequence_next crawl_queue_bucket db
              ∙ omega (arith, q.count, length-append urls (url ∷ []));
          small = omega (arith, room, length-append urls (url ∷ []));
          links = λ i above below. elim (ℕ_discrete i (head + length urls)) [
            | yes e ↦
                put_same s (link_slot bolt pb sha512 i) url db'
                  (ap (λ n. link_slot bolt pb sha512 n) (at ∙ sym e))
                ∙ ground (arith, get_elem?-snoc urls url (i - head), e)
            | no ne ↦
                put_other s (link_slot bolt pb sha512 i) url db' (
                  link_ne_link (before id) i (omega (arith, at, q.small)) (omega (arith, below))
                    (λ e. ne (sym e ∙ at)))
                ∙ bolt.get_next _ _ db
                ∙ q.links i above below
                ∙ ground (arith, get_elem?-snoc urls url (i - head), ne, above)
          ];
        }

    -- The head is the first address, and the pointer moves on.
    pub crawl_queue_head-IsQueue :
        (db : bolt.Db) (head : ℕ) (url : Bytes) (urls : List Bytes)
        → IsQueue db head (url ∷ urls)
        → (db' : bolt.Db) × (crawl_queue_head bolt pb sha512 db ≡ inr (some url, db'))
          × IsQueue db' (head + 1) urls
    unfolding crawl_queue_head
    crawl_queue_head-IsQueue db head url urls q =
        let reads = set_bytes-itob head (omega (arith, q.small)) in
        let first : bolt.get (link_slot bolt pb sha512 head) db ≡ some url =
          q.links head (omega arith) (omega (arith, q.small)) ∙ ground arith in
        (
          bolt.put (queue_slot bolt pb sha512) (itob (head + 1)) db,
          rw
              (
                crawl_queue_head,
                plain (queue_slot bolt pb sha512) db bucket_ne,
                q.pointer,
                reads,
                plain (link_slot bolt pb sha512 head) db link_ne,
                first,
              )
              (ap (λ n. inr (some url, bolt.put (queue_slot bolt pb sha512) (itob (n + 1)) db))
                reads),
          record {
            pointer = put_same _ _ _ db refl;
            count = bolt.sequence_put _ _ _ db ∙ omega (arith, q.count);
            small = omega (arith, q.small);
            links = λ i above below.
                put_other _ (link_slot bolt pb sha512 i) _ db (λ e. link-queue i (sym e))
                ∙ q.links i (omega (arith, above)) below
                ∙ ground (arith, above);
          },
        )

    pub crawl_queue_head-empty :
        (db : bolt.Db) (head : ℕ)
        → IsQueue db head []
        → crawl_queue_head bolt pb sha512 db ≡ inr (none, db)
    unfolding crawl_queue_head
    crawl_queue_head-empty db head q =
        let reads = set_bytes-itob head (omega (arith, q.small)) in
        let nothing : bolt.get (link_slot bolt pb sha512 head) db ≡ none =
          q.links head (omega arith) (omega (arith, q.small)) in
        rw
          (
            crawl_queue_head,
            plain (queue_slot bolt pb sha512) db bucket_ne,
            q.pointer,
            reads,
            plain (link_slot bolt pb sha512 head) db link_ne,
            nothing,
          )
          refl

    pub delete_crawl_queue_head-IsQueue :
        (db : bolt.Db) (head : ℕ) (urls : List Bytes)
        → IsQueue db head urls
        → (db' : bolt.Db) × (delete_crawl_queue_head bolt pb sha512 db ≡ inr db')
          × IsQueue db' head urls
    unfolding delete_crawl_queue_head crawl_queue_head_pointer before
    delete_crawl_queue_head-IsQueue db head urls q =
        let reads = set_bytes-itob head (omega (arith, q.small)) in
        let s = link_slot bolt pb sha512 (before head) in
        (
          bolt.remove s db,
          rw
              (
                delete_crawl_queue_head,
                crawl_queue_head_pointer,
                plain (queue_slot bolt pb sha512) db bucket_ne,
                q.pointer,
                reads,
              )
              refl,
          record {
            pointer = remove_other s _ db (link-queue (before head)) ∙ q.pointer;
            count = bolt.sequence_remove s _ db ∙ q.count;
            small = q.small;
            links = λ i above below.
                remove_other s (link_slot bolt pb sha512 i) db (
                  link_ne_link (before head) i (before-small head (omega (arith, q.small)))
                    (omega (arith, below)) (before-outside head i above below))
                ∙ q.links i above below;
          },
        )
