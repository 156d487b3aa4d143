-- ===== src/Dht/Storage/Refines.antt =====
-- dht/storage.go: calls of the crawl queue in any order, next to a queue that is a list.
use peerster.Base.{
  Bytes, List, Option, [], arith, inl, inr, length, length-append, none, refl, some, sym, ℕ, ◌++◌,
  ◌+◌, ◌<◌, ◌^◌, ◌∙◌, ◌∷◌, ◌≡◌, ◌⊎◌,
}
use peerster.Dht.Storage.{
  Bolt, Protobuf, Slot, Stopped, crawl_queue_bucket, crawl_queue_head, delete_crawl_queue_head,
  itob, link_slot, new_storage, queue_slot, retrieve, update_crawl_queue,
}
use peerster.Dht.Storage.Queue.{
  IsQueue, crawl_queue_head-IsQueue, crawl_queue_head-empty, delete_crawl_queue_head-IsQueue,
  link-queue, put_other, put_same, update_crawl_queue-IsQueue,
}

pub data QueueCall : Type 0 where
  update_call : Bytes → QueueCall
  head_call : QueueCall
  delete_call : QueueCall

-- What the calls for the head return, by the list.
unfoldable pub answers_of : List QueueCall → List Bytes → List (Option Bytes)
answers_of [] urls = []
answers_of (update_call url ∷ calls) urls = answers_of calls (urls ++ url ∷ [])
answers_of (head_call ∷ calls) [] = none ∷ answers_of calls []
answers_of (head_call ∷ calls) (url ∷ urls) = some url ∷ answers_of calls urls
answers_of (delete_call ∷ calls) urls = answers_of calls urls

module _ (bolt : Bolt) (pb : Protobuf) (sha512 : Bytes → Bytes) where
  -- What they return by the database.
  unfoldable pub run_calls : List QueueCall → bolt.Db → Stopped ⊎ (List (Option Bytes) × bolt.Db)
  run_calls [] db = inr ([], db)
  run_calls (update_call url ∷ calls) db =
      run_calls calls (update_crawl_queue bolt pb sha512 url db)
  run_calls (head_call ∷ calls) db = elim (crawl_queue_head bolt pb sha512 db) [
    | inl s ↦ inl s
    | inr (head, db') ↦ elim (run_calls calls db') [
      | inl s ↦ inl s
      | inr (heads, db'') ↦ inr (head ∷ heads, db'')
    ]
  ]
  run_calls (delete_call ∷ calls) db = elim (delete_crawl_queue_head bolt pb sha512 db) [
    | inl s ↦ inl s
    | inr db' ↦ run_calls calls db'
  ]

  module _
      (collision_free : (m n : ℕ)
        → m < 2 ^ 64
        → n < 2 ^ 64
        → sha512 (itob m) ≡ sha512 (itob n)
        → m ≡ n) where
    run_calls-answers :
        (calls : List QueueCall) (db : bolt.Db) (head : ℕ) (urls : List Bytes)
        → IsQueue bolt pb sha512 db head urls
        → head + length urls + length calls < 2 ^ 63
        → (db' : bolt.Db) × (run_calls calls db ≡ inr (answers_of calls urls, db'))
    unfolding run_calls answers_of
    run_calls-answers [] db head urls q room = (db, refl)
    run_calls-answers (update_call url ∷ calls) db head urls q room =
        run_calls-answers calls (update_crawl_queue bolt pb sha512 url db) head (urls ++ url ∷ [])
          (update_crawl_queue-IsQueue bolt pb sha512 collision_free db head urls url q
            (omega (arith, room)))
          (omega (arith, room, length-append urls (url ∷ [])))
    run_calls-answers (head_call ∷ calls) db head [] q room =
        let (db', e) = run_calls-answers calls db head [] q (omega (arith, room)) in
        (
          db',
          rw (run_calls, crawl_queue_head-empty bolt pb sha512 collision_free db head q, e) refl,
        )
    run_calls-answers (head_call ∷ calls) db head (url ∷ urls) q room =
        let (db1, d, q') =
          crawl_queue_head-IsQueue bolt pb sha512 collision_free db head url urls q in
        let (db', e) = run_calls-answers calls db1 (head + 1) urls q' (omega (arith, room)) in
        (db', rw (run_calls, d, e) refl)
    run_calls-answers (delete_call ∷ calls) db head urls q room =
        let (db1, d, q') =
          delete_crawl_queue_head-IsQueue bolt pb sha512 collision_free db head urls q in
        let (db', e) = run_calls-answers calls db1 head urls q' (omega (arith, room)) in
        (db', rw (run_calls, d) e)

    -- Let SHA-512 give different hashes for different numbers of 64 bits, and let the database be new.
    -- Then `NewStorage` succeeds, and of any calls after it, fewer than 2^63, none panics or ends the
    -- program, and the calls for the head return what a queue returns: the addresses that were put in, in
    -- their order, each once, and an error exactly where all that was put in has been taken out. The
    -- deletions change nothing of that.
    pub crawl_queue-refines :
        (db : bolt.Db) (calls : List QueueCall)
        → ((s : Slot) → bolt.get s db ≡ none)
        → bolt.sequence crawl_queue_bucket db ≡ 0
        → length calls < 2 ^ 63
        → (db0 db' : bolt.Db) × (new_storage bolt pb sha512 db ≡ inr db0)
          × (run_calls calls db0 ≡ inr (answers_of calls [], db'))
    unfolding new_storage retrieve
    crawl_queue-refines db calls fresh start room =
        let db0 = bolt.put (queue_slot bolt pb sha512) (itob 0) db in
        let empty : IsQueue bolt pb sha512 db0 0 [] = record {
          pointer = put_same bolt pb sha512 _ _ _ db refl;
          count = bolt.sequence_put _ _ _ db ∙ start;
          small = omega arith;
          links = λ i above below.
              put_other bolt pb sha512 _ (link_slot bolt pb sha512 i) _ db
                (λ e. link-queue bolt pb sha512 i (sym e))
              ∙ fresh (link_slot bolt pb sha512 i);
        } in
        let (db', e) = run_calls-answers calls db0 0 [] empty (omega (arith, room)) in
        (db0, db', rw (new_storage, retrieve, fresh (queue_slot bolt pb sha512)) refl, e)
