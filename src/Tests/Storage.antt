-- ===== src/Tests/Storage.antt =====
-- Cases for the store and the crawl queue.
use peerster.Dht.Storage.Queue.{set_bytes-itob}
use peerster.Keys.{set_bytes}
use peerster.Base.{
  Bytes, Bytes-discrete, List, Map, [], ap, arith, delete, inr, load, load-delete, load-store,
  load-store_self, none, refl, some, store, suc, sym, ℕ, ◌++◌, ◌<◌, ◌^◌, ◌∙◌, ◌∷◌, ◌≡◌,
}
use peerster.Dht.Storage.{Bolt, Protobuf, Slot, Slot-discrete, itob, new_storage}
use peerster.Dht.Storage.Refines.{
  QueueCall, answers_of, crawl_queue-refines, delete_call, head_call, run_calls, update_call,
}

-- A database as a list of entries and of sequence numbers.
abbrev Tables : Type 0
Tables = Map Slot Bytes × Map Bytes ℕ

abbrev sequence_of : Bytes → Tables → ℕ
sequence_of b db = elim (load Bytes-discrete b db.1) [ none ↦ 0 | some n ↦ n ]

sequence_of-store :
    (b : Bytes) (db : Tables)
    → sequence_of b (db.0, store Bytes-discrete b (suc (sequence_of b db)) db.1)
      ≡ suc (sequence_of b db)
sequence_of-store b db =
    ground (arith, load-store_self Bytes-discrete b (suc (sequence_of b db)) db.1)

abbrev tables : Bolt
tables = record {
  Db = Tables;
  get = λ s db. load Slot-discrete s db.0;
  put = λ s v db. (store Slot-discrete s v db.0, db.1);
  remove = λ s db. (delete Slot-discrete s db.0, db.1);
  next_sequence = λ b db.
      (suc (sequence_of b db), (db.0, store Bytes-discrete b (suc (sequence_of b db)) db.1));
  sequence = sequence_of;
  get_put = λ s t v db. load-store Slot-discrete s t v db.0;
  get_remove = λ s t db. load-delete Slot-discrete s t db.0;
  get_next = λ b t db. refl;
  next_value = λ b db. refl;
  sequence_next = λ b db. sequence_of-store b db;
  sequence_put = λ s b v db. refl;
  sequence_remove = λ s b db. refl;
}

-- An encoding of the addresses alone.
abbrev encode_links : Map Bytes ℕ → Bytes
encode_links [] = []
encode_links ((url, f) ∷ links) = url ++ encode_links links

abbrev pb : Protobuf
pb = record {
  encode = λ m. encode_links m.link_data;
  decode = λ bs. some (record { keyword = []; link_data = (bs, 1) ∷ [] });
  sorted = λ links. links;
}

abbrev calls : List QueueCall
calls =
    update_call (4 ∷ [])
    ∷ update_call (5 ∷ [])
    ∷ head_call
    ∷ delete_call
    ∷ head_call
    ∷ head_call
    ∷ []

itob-injective : (m n : ℕ) → m < 2 ^ 64 → n < 2 ^ 64 → itob m ≡ itob n → m ≡ n
itob-injective m n hm hn e =
    sym (set_bytes-itob m hm) ∙ ap (λ bs. set_bytes bs) e ∙ set_bytes-itob n hn

crawl_queue-refines_example :
    (db0 db' : Tables) × (new_storage tables pb (λ bs. bs) ([], []) ≡ inr db0)
    × (run_calls tables pb (λ bs. bs) calls db0
        ≡ inr (some (4 ∷ []) ∷ some (5 ∷ []) ∷ none ∷ [], db'))
unfolding answers_of load
crawl_queue-refines_example =
    crawl_queue-refines tables pb (λ bs. bs) itob-injective ([], []) calls (λ s. refl) refl
      (omega arith)
