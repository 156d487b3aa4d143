-- ===== src/Files/Sharing/Answers.antt =====
-- Properties of the answers to requests for chunks, after a file is shared.
use peerster.Base.{
  All, All-load, All-mono, All-store, Bytes, Bytes-discrete, List, Map, Option-cases, [], arith,
  inl, inr, is_yes, length, load, load-store, load_or_store, present, refl, some, true, ℕ, ◌==◌,
  ◌||◌, ◌∷◌, ◌≡◌,
}
use peerster.Dto.Packet.{DataReply, TxPublish}
use peerster.Files.Parsing.{convert_to_hash32, create_chunks_map, verify_data_hash}
use peerster.Files.Parsing.Roundtrip.{IsSha256, IsVerified, create_chunks_map-IsVerified}
use peerster.Files.Entries.{SafeChunkMap, add_chunk, add_entry}
use peerster.Files.Sharing.{
  Sharer, add_chunks, answer_data_request, client_file_share, make_data_reply,
}

module _ (sha256 : Bytes → Bytes) where
  add_chunk-IsVerified :
      (checksum chunk : Bytes) (scm : SafeChunkMap)
      → sha256 chunk ≡ checksum
      → All (IsVerified sha256) scm
      → All (IsVerified sha256) (add_chunk checksum chunk scm).0
  unfolding add_chunk load_or_store
  add_chunk-IsVerified checksum chunk scm e h =
      elim (Option-cases (load Bytes-discrete checksum scm)) [
        | inl f ↦
            rw (f, load_or_store, add_chunk)
              (All-store Bytes-discrete (IsVerified sha256) checksum chunk scm e h)
        | inr (c, f) ↦ rw (f, load_or_store, add_chunk) h
      ]

  -- A chunk that is there stays, and the one added is there.
  add_chunk-present :
      (k checksum chunk : Bytes) (scm : SafeChunkMap)
      → present Bytes-discrete k (add_chunk checksum chunk scm).0
        ≡ (is_yes (Bytes-discrete checksum k) || present Bytes-discrete k scm)
  unfolding add_chunk load_or_store
  add_chunk-present k checksum chunk scm =
      ground (arith, load-store Bytes-discrete checksum k chunk scm)

  add_chunks-IsVerified :
      (entries : Map Bytes Bytes) (scm : SafeChunkMap)
      → All (IsVerified sha256) entries
      → All (IsVerified sha256) scm
      → All (IsVerified sha256) (add_chunks sha256 entries scm)
  unfolding add_chunks
  add_chunks-IsVerified [] scm h k = k
  add_chunks-IsVerified ((checksum, chunk) ∷ entries) scm h k =
      add_chunks-IsVerified entries (add_chunk checksum chunk scm).0 h.1
        (add_chunk-IsVerified checksum chunk scm h.0 k)

  add_chunks-present :
      (k : Bytes) (entries : Map Bytes Bytes) (scm : SafeChunkMap)
      → present Bytes-discrete k (add_chunks sha256 entries scm)
        ≡ (present Bytes-discrete k entries || present Bytes-discrete k scm)
  unfolding add_chunks load
  add_chunks-present k [] scm = refl
  add_chunks-present k ((checksum, chunk) ∷ entries) scm = ground (
    arith,
    add_chunks-present k entries (add_chunk checksum chunk scm).0,
    add_chunk-present k checksum chunk scm,
  )

  -- The answer to a request for a piece of data: a reply to whoever asked, which passes the check of a
  -- peer that receives it.
  abbrev pub Answers : Bytes → Sharer → Bytes → Type 0
  Answers asker s piece =
      (r : DataReply) × (answer_data_request asker (sha256 piece) s ≡ some r)
      × (r.destination ≡ asker)
      × (verify_data_hash sha256 r.hash_value r.data_bytes ≡ true)

  module _ (is_sha : IsSha256 sha256) where
    verified-Answers :
        (asker piece : Bytes) (s : Sharer)
        → All (IsVerified sha256) s.chunk_map
        → present Bytes-discrete (sha256 piece) s.chunk_map ≡ true
        → Answers asker s piece
    unfolding answer_data_request convert_to_hash32 verify_data_hash make_data_reply
    verified-Answers asker piece s h p =
        let hash = sha256 piece in
        let size : (length hash == 32) ≡ true = ground (arith, is_sha piece) in
        elim (Option-cases (load Bytes-discrete hash s.chunk_map)) [
          | inl e ↦ absurd (ground arith)
          | inr (c, e) ↦
              let same = All-load Bytes-discrete (IsVerified sha256) hash c s.chunk_map h e in
              (
                make_data_reply asker c hash s,
                ground (arith, size, e),
                refl,
                ground (arith, size, same),
              )
        ]

    -- A client shares a file at a peer whose chunks all stand under their checksums, of 32 bytes.
    -- They still do afterwards, and for each chunk of the file and for its metafile a request for
    -- the checksum is answered with a reply to the peer that asked, which passes that peer's check.
    pub client_file_share-Answers :
        (file_name asker : Bytes) (chunks : List Bytes) (size : ℕ) (s : Sharer)
        → All (IsVerified sha256) s.chunk_map
        → (s' : Sharer) × (tx : TxPublish) × (client_file_share sha256 file_name
              (some (chunks, size))
              s
            ≡ some (s', tx))
          × All (IsVerified sha256) s'.chunk_map
          × All (Answers asker s') ((create_chunks_map sha256 chunks).1 ∷ chunks)
    unfolding client_file_share create_chunks_map
    client_file_share-Answers file_name asker chunks size s h =
        let made = create_chunks_map-IsVerified sha256 chunks in
        let (chunks_map, metafile, metahash) = create_chunks_map sha256 chunks in
        let with_meta = (add_chunk metahash metafile s.chunk_map).0 in
        let chunk_map' = add_chunks sha256 chunks_map with_meta in
        let s' = record s {
          file_map = (add_entry file_name size metafile metahash s.file_map).0;
          chunk_map = chunk_map';
        } in
        let kept =
          add_chunks-IsVerified chunks_map with_meta made.0
            (add_chunk-IsVerified metahash metafile s.chunk_map refl h) in
        let meta_there : present Bytes-discrete metahash chunk_map' ≡ true = ground (
          arith,
          add_chunks-present metahash chunks_map with_meta,
          add_chunk-present metahash metahash metafile s.chunk_map,
        ) in
        (
          s',
          _,
          refl,
          kept,
          (
            verified-Answers asker metafile s' kept meta_there,
            All-mono (λ c. present Bytes-discrete (sha256 c) chunks_map ≡ true) (Answers asker s')
                chunks
                (λ c p.
                  verified-Answers asker c s' kept
                    (ground (arith, add_chunks-present (sha256 c) chunks_map with_meta)))
                made.1,
          ),
        )
