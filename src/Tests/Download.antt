-- ===== src/Tests/Download.antt =====
-- A case for the download of a file.
use peerster.Base.{
  Bytes, Bytes-discrete, [], arith, false, if◌then◌else◌, is_yes, load, refl, suc, zero, ℕ,
  ℕ_discrete, ◌∷◌,
}
use peerster.Dto.Counter.{new_safe_counter}
use peerster.Dto.Arrays.{new_safe_string_array}
use peerster.Dto.Messages.{new_safe_messages_map}
use peerster.Dto.Quit.{new_quit_chan_map}
use peerster.Routing.{new_safe_routing_table}
use peerster.Files.Parsing.{create_chunks_map, metafile_of}
use peerster.Files.Parsing.Roundtrip.{IsSha256}
use peerster.Files.Sharing.{Sharer}
use peerster.Files.Sharing.Download.{Wait, download_file}
use peerster.Files.Sharing.Download.Same.{Downloads, IsUnforgeable, download_file-same}

unfoldable repeat : ℕ → ℕ → Bytes
repeat zero b = []
repeat (suc n) b = b ∷ repeat n b

abbrev chunk : Bytes
chunk = 7 ∷ []

-- The metafile of the file with this one chunk.
abbrev metafile : Bytes
metafile = repeat 32 1

-- A stand-in for the hash that tells the chunk, its metafile, and the rest apart.
unfoldable hash : Bytes → Bytes
unfolding repeat
hash d =
    if is_yes (Bytes-discrete d chunk)
    then repeat 32 1
    else if is_yes (Bytes-discrete d metafile)
    then repeat 32 2
    else repeat 32 3

hash-IsSha256 : IsSha256 hash
unfolding hash repeat
hash-IsSha256 d = ground arith

chunk-IsUnforgeable : IsUnforgeable hash chunk
unfolding hash repeat Bytes-discrete ℕ_discrete
chunk-IsUnforgeable d e = ground arith

metafile-IsUnforgeable : IsUnforgeable hash metafile
unfolding hash repeat Bytes-discrete ℕ_discrete
metafile-IsUnforgeable d e = ground arith

abbrev sharer : Sharer
sharer = record {
  gossip = record {
    address = b'a' ∷ [];
    name = b'A' ∷ [];
    use_simple = false;
    peers = new_safe_string_array [];
    seq_id_counter = new_safe_counter;
    status_chan_map = [];
    quit_chan_map = new_quit_chan_map;
    msg_map = new_safe_messages_map;
    latest_messages = record { array = [] };
    origins = new_safe_string_array [];
    routing_table = new_safe_routing_table;
  };
  file_map = [];
  chunk_map = [];
  dl_files_set = [];
  dl_chunk_listeners = [];
}

abbrev wait_for : Bytes → Wait
wait_for d = record { c_data = 100; ticks = []; during = λ s. s; received = d; pick = 0 }

download_file-same_example : Downloads hash (create_chunks_map hash (chunk ∷ [])).2 (chunk ∷ []) (
    download_file
      (b'f' ∷ [])
      (create_chunks_map hash (chunk ∷ [])).2
      (b'B' ∷ [])
      []
      (wait_for metafile ∷ wait_for chunk ∷ [])
      sharer)
unfolding load create_chunks_map metafile_of hash repeat Bytes-discrete ℕ_discrete
download_file-same_example =
    download_file-same hash hash-IsSha256 (b'f' ∷ []) (b'B' ∷ []) [] (chunk ∷ [])
      (wait_for metafile) (wait_for chunk ∷ []) sharer (λ e. ground (arith, e)) refl
      (metafile-IsUnforgeable, (chunk-IsUnforgeable, tt)) (refl, (refl, tt))
