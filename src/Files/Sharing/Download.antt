-- ===== src/Files/Sharing/Download.antt =====
-- gossiper/fileSharing.go: `downloadFile`. What happens while the routine waits is an argument.
pub mod Same
use mathlib.Core.Option.{map as map_option}
use peerster.Base.{
  Bytes, Bytes-discrete, List, Map, Option, [], if◌then◌else◌, length, load, none, not, some, store,
  suc, ℕ, ℕ_discrete, ◌&&◌, ◌++◌, ◌∷◌,
}
use peerster.Dto.Packet.{Outcome, deref, nil_pointer, ok, ◌>>=◌}
use peerster.Dto.Arrays.{SafeStringArray}
use peerster.Files.Parsing.{concat, estimate_file_size, parse_metafile}
use peerster.Files.Entries.{
  SafeFileEntry, add_chunk, add_entry, add_unique, delete_file, get_entry, safe_add_chunk_index,
  safe_set_size,
}
use peerster.Files.Sharing.{Sharer, download_chunk}
use peerster.Gossip.Node.{Gossiper, Send, bytes_eq}
use peerster.Gossip.Monger.{pick_random}
use peerster.Search.Owners.{MetahashToChunkOwnersMap, get_owners}

-- One wait for a chunk: the new channel, the states at the ticks before the data arrive, what other
-- routines do to the state until then, the data, and the number drawn to pick the owner.
pub record Wait : Type 0 where
  pub c_data : ℕ
  pub ticks : List Gossiper
  pub during : Sharer → Sharer
  pub received : Bytes
  pub pick : ℕ

-- `waiting` if the waits given end before the download does. A finished download has the chunks that
-- are written, if it was successful.
pub data Progress : Type 0 where
  waiting : Progress
  finished : Option (List Bytes) → Progress

pub record Download : Type 0 where
  pub after : Sharer
  pub sends : List Send
  pub progress : Progress

unfoldable pub fetch : Bytes → Bytes → Wait → Sharer → Outcome (Sharer × List Send)
fetch hash origin w s = do
  (s', _, sends) ← download_chunk hash origin w.c_data w.ticks s
  ok (w.during s', sends)

-- `pickRandom` of the owners of a chunk, which are read through a pointer.
unfoldable pub pick_owner : ℕ → ℕ → Map ℕ SafeStringArray → Outcome Bytes
pick_owner i n owners = elim (load ℕ_discrete i owners) [
  | none ↦ nil_pointer
  | some arr ↦ deref (pick_random arr.array n) (λ o. o)
]

-- The entry is changed through a pointer.
abbrev pub change_entry : Bytes → (SafeFileEntry → SafeFileEntry) → Sharer → Sharer
change_entry metahash f s = elim (get_entry metahash s.file_map) [
  | none ↦ s
  | some sfe ↦ record s { file_map = store Bytes-discrete metahash (f sfe) s.file_map }
]

-- The loop over the hashes of the chunks, from the chunk with number `i` on. `owners` is there if the
-- owner is picked anew for each chunk.
unfoldable pub fetch_all :
    Bytes
    → Option (Map ℕ SafeStringArray)
    → Bytes
    → ℕ
    → List Bytes
    → List Wait
    → Sharer
    → Outcome (Sharer × List Send × Option (List Bytes))
unfolding fetch pick_owner
fetch_all metahash owners origin i [] waits s = ok (s, [], some [])
fetch_all metahash owners origin i (hash ∷ hashes) [] s = ok (s, [], none)
fetch_all metahash owners origin i (hash ∷ hashes) (w ∷ waits) s = do
  from ← elim owners [ none ↦ ok origin | some cm ↦ pick_owner i w.pick cm ]
  (s1, sends) ← fetch hash from w s
  let s2 = record s1 { chunk_map = (add_chunk hash w.received s1.chunk_map).0 }
  (s3, more, rest) ←
      fetch_all metahash owners origin (suc i) hashes waits
        (change_entry metahash (safe_add_chunk_index i) s2)
  ok (s3, sends ++ more, map_option (◌∷◌ w.received) rest)

-- The size of an entry that is not read whole; -1 is not reached, since the metafile was parsed.
abbrev pub estimated : Bytes → ℕ
estimated metafile = elim (estimate_file_size metafile) [ none ↦ 0 | some n ↦ n ]

-- From the metafile on.
unfoldable pub finish_download :
    Bytes
    → Bytes
    → Option (Map ℕ SafeStringArray)
    → Bytes
    → Bytes
    → List Wait
    → Sharer
    → Outcome Download
unfolding fetch_all
finish_download name metahash owners origin metafile waits s = elim (parse_metafile metafile) [
  | none ↦ ok (record {
    after = record s { dl_files_set = delete_file metahash s.dl_files_set };
    sends = [];
    progress = finished none;
  })
  | some hashes ↦ do
    let s1 = record s {
      chunk_map = (add_chunk metahash metafile s.chunk_map).0;
      file_map = (add_entry name (estimated metafile) metafile metahash s.file_map).0;
    }
    (s2, sends, got) ← fetch_all metahash owners origin 1 hashes waits s1
    elim got [
      | none ↦ ok (record { after = s2; sends = sends; progress = waiting })
      | some chunks ↦
          let s3 = change_entry metahash (safe_set_size (length (concat chunks))) s2 in
          ok (record {
            after = record s3 { dl_files_set = delete_file metahash s3.dl_files_set };
            sends = sends;
            progress = finished (some chunks);
          })
    ]
]

-- `downloadFile`. The empty origin asks for owners that are picked; `owned` is the map of the owners.
unfoldable pub download_file :
    Bytes → Bytes → Bytes → MetahashToChunkOwnersMap → List Wait → Sharer → Outcome Download
unfolding finish_download
download_file name metahash origin owned waits s =
    let (files, is_new) = add_unique metahash s.dl_files_set in
    let s1 = record s { dl_files_set = files } in
    let random_origins = bytes_eq origin [] in
    let (cm, has_total_match, _) = get_owners metahash owned in
    let owners : Option (Map ℕ SafeStringArray) = if random_origins then some cm else none in
    if not is_new
    then ok (record { after = s; sends = []; progress = finished none })
    else if random_origins && not has_total_match
    then ok (record { after = s1; sends = []; progress = finished none })
    else elim waits [
      | [] ↦ ok (record { after = s1; sends = []; progress = waiting })
      | w ∷ rest ↦ do
        from ← if random_origins then pick_owner 1 w.pick cm else ok origin
        (s2, sends) ← fetch metahash from w s1
        d ← finish_download name metahash owners from w.received rest s2
        ok (record d { sends = sends ++ d.sends })
    ]
