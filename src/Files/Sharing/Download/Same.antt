-- ===== src/Files/Sharing/Download/Same.antt =====
-- Properties of a whole download, against the file that was shared.
use mathlib.Core.List.{map}
use peerster.Search.Owners.{MetahashToChunkOwnersMap}
use peerster.Files.Parsing.Roundtrip.{IsSha256, parse-create}
use peerster.Files.Parsing.{concat, create_chunks_map, metafile_of, parse_metafile}
use peerster.Files.Entries.{
  add_chunk, add_entry, add_unique, delete_file, safe_add_chunk_index, safe_set_size,
}
use peerster.Base.{
  All, Bytes, Bytes-discrete, List, [], arith, false, length, load, load-delete, load_or_store, map,
  none, present, refl, some, suc, ℕ, ◌++◌, ◌∷◌, ◌≡◌, ◌≢◌,
}
use peerster.Dto.Packet.{GossipPacket, Outcome, get_underlying_type, ok}
use peerster.Dto.Safety.{IsRouted, Routed_lem, answers, answers→ok, ending}
use peerster.Files.Sharing.{Sharer, download_chunk, make_data_request, retransmit}
use peerster.Files.Sharing.Download.{
  Download, Wait, change_entry, download_file, estimated, fetch, fetch_all, finish_download,
  finished,
}
use peerster.Gossip.Node.{Gossiper, Send, no_packet}
use peerster.Gossip.Node.Relay.{forward-Routed}

retransmit-answers :
    (ticks : List Gossiper) (packet : GossipPacket)
    → IsRouted (get_underlying_type packet)
    → ending (retransmit ticks packet) ≡ answers
unfolding retransmit
retransmit-answers [] packet k = refl
retransmit-answers (g ∷ ticks) packet k =
    let r = Routed_lem packet k in
    let rest =
      answers→ok (retransmit ticks r.next) (retransmit-answers ticks r.next (rw r.next_type k)) in
    ground (arith, forward-Routed packet g r, rest.1)

fetch-answers :
    (hash origin : Bytes) (w : Wait) (s : Sharer) → ending (fetch hash origin w s) ≡ answers
unfolding fetch download_chunk get_underlying_type
fetch-answers hash origin w s =
    let packet = record no_packet { data_request = some (make_data_request origin hash s) } in
    let r =
      answers→ok (retransmit (s.gossip ∷ w.ticks) packet)
        (retransmit-answers (s.gossip ∷ w.ticks) packet tt) in
    ground (arith, r.1)

module _ (sha256 : Bytes → Bytes) where
  -- No other data have the checksum.
  abbrev pub IsUnforgeable : Bytes → Type 0
  IsUnforgeable piece = (d : Bytes) → sha256 d ≡ sha256 piece → d ≡ piece

  -- In every wait data with the checksum of the next chunk arrive.
  abbrev pub Delivers : List Bytes → List Wait → Type 0
  Delivers [] waits = Unit
  Delivers (chunk ∷ chunks) [] = ⊥
  Delivers (chunk ∷ chunks) (w ∷ waits) = (sha256 w.received ≡ sha256 chunk) × Delivers chunks waits

  fetch_all-same :
      (metahash origin : Bytes) (i : ℕ) (chunks : List Bytes) (waits : List Wait) (s : Sharer)
      → All IsUnforgeable chunks
      → Delivers chunks waits
      → (s' : Sharer) × (sends : List Send) × (fetch_all metahash none origin i
            (map sha256 chunks)
            waits
            s
          ≡ ok (s', sends, some chunks))
  unfolding fetch_all
  fetch_all-same metahash origin i [] waits s u d = (s, [], refl)
  fetch_all-same metahash origin i (chunk ∷ chunks) [] s u d = absurd d
  fetch_all-same metahash origin i (chunk ∷ chunks) (w ∷ waits) s u d =
      let same : w.received ≡ chunk = u.0 w.received d.0 in
      let first =
        answers→ok (fetch (sha256 chunk) origin w s) (fetch-answers (sha256 chunk) origin w s) in
      let s1 = first.0.0 in
      let s2 = record s1 { chunk_map = (add_chunk (sha256 chunk) w.received s1.chunk_map).0 } in
      let rest =
        fetch_all-same metahash origin (suc i) chunks waits
          (change_entry metahash (safe_add_chunk_index i) s2) u.1 d.1 in
      (rest.0, first.0.1 ++ rest.1, ground (arith, first.1, rest.2, same))

  -- The file that is written, and that the download is over.
  abbrev pub Downloads : Bytes → List Bytes → Outcome Download → Type 0
  Downloads metahash chunks r =
      (d : Download) × (r ≡ ok d)
      × (d.progress ≡ finished (some chunks))
      × (present Bytes-discrete metahash d.after.dl_files_set ≡ false)

  module _ (is_sha : IsSha256 sha256) where
    finish_download-same :
        (name metahash origin : Bytes) (chunks : List Bytes) (waits : List Wait) (s : Sharer)
        → All IsUnforgeable chunks
        → Delivers chunks waits
        → Downloads metahash chunks
            (finish_download name metahash none origin (metafile_of sha256 chunks) waits s)
    unfolding finish_download create_chunks_map delete_file
    finish_download-same name metahash origin chunks waits s u d =
        let metafile = metafile_of sha256 chunks in
        let parsed : parse_metafile metafile ≡ some (map sha256 chunks) =
          parse-create sha256 is_sha chunks in
        let s1 = record s {
          chunk_map = (add_chunk metahash metafile s.chunk_map).0;
          file_map = (add_entry name (estimated metafile) metafile metahash s.file_map).0;
        } in
        let got = fetch_all-same metahash origin 1 chunks waits s1 u d in
        let s3 = change_entry metahash (safe_set_size (length (concat chunks))) got.0 in
        (
          record {
            after = record s3 { dl_files_set = delete_file metahash s3.dl_files_set };
            sends = got.1;
            progress = finished (some chunks);
          },
          rw (parsed, finish_download, got.2) refl,
          refl,
          ground (arith, load-delete Bytes-discrete metahash metahash s3.dl_files_set),
        )

    -- A file is downloaded from a named peer, and is not being downloaded already; checksums have
    -- 32 bytes. If data with the right checksum arrive for the metafile and for each chunk, and no
    -- other data have those checksums, the download ends, whatever other routines do in between: it
    -- writes exactly the chunks that were shared, and the file no longer counts as being
    -- downloaded.
    pub download_file-same :
        (name origin : Bytes) (owned : MetahashToChunkOwnersMap) (chunks : List Bytes) (w : Wait)
        (waits : List Wait) (s : Sharer)
        → let metafile = (create_chunks_map sha256 chunks).1 in
          let metahash = (create_chunks_map sha256 chunks).2 in
          origin ≢ []
          → load Bytes-discrete metahash s.dl_files_set ≡ none
          → All IsUnforgeable (metafile ∷ chunks)
          → Delivers (metafile ∷ chunks) (w ∷ waits)
          → Downloads metahash chunks (download_file name metahash origin owned (w ∷ waits) s)
    unfolding download_file create_chunks_map add_unique load_or_store
    download_file-same name origin owned chunks w waits s named free u d =
        let metafile = metafile_of sha256 chunks in
        let metahash = sha256 metafile in
        let s1 = record s { dl_files_set = (add_unique metahash s.dl_files_set).0 } in
        let same : w.received ≡ metafile = u.0 w.received d.0 in
        let first = answers→ok (fetch metahash origin w s1) (fetch-answers metahash origin w s1) in
        let rest = finish_download-same name metahash origin chunks waits first.0.0 u.1 d.1 in
        (
          record rest.0 { sends = first.0.1 ++ rest.0.sends },
          ground (arith, free, first.1, same, rest.1),
          rest.2,
          rest.3,
        )
