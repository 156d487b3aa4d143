-- ===== src/Files/Parsing/Roundtrip.antt =====
-- Properties of metafiles and chunks (fileparsing/helpers.go): made by one peer, taken apart by
-- another.
use peerster.Base.{
  All, All-store, Bytes, Bytes-discrete, List, Map, [], ap, arith, drop, length, length-append,
  load-store, load-store_self, map, present, refl, some, store, suc, take, true, zero, ℕ, ◌%◌, ◌*◌,
  ◌++◌, ◌/◌, ◌==◌, ◌∷◌, ◌≡◌, ◌≤◌,
}
use peerster.Files.Parsing.{
  chunk_entries, collect, concat, create_chunks_map, default_chunk_size, eof, estimate_file_size,
  metafile_of, parse_metafile, pieces, read_chunks, write_file_from_chunks,
}
use mathlib.Core.List.{map}

-- What the standard library documents: a SHA-256 sum has 32 bytes.
abbrev pub IsSha256 : (Bytes → Bytes) → Type 0
IsSha256 sha256 = (b : Bytes) → length (sha256 b) ≡ 32

take-append : (xs ys : Bytes) (n : ℕ) → length xs ≡ n → take n (xs ++ ys) ≡ xs
take-append [] ys zero h = refl
take-append [] ys (suc n) h = absurd (omega arith)
take-append (x ∷ xs) ys zero h = absurd (omega arith)
take-append (x ∷ xs) ys (suc n) h = ap (◌∷◌ x) (take-append xs ys n (omega arith))

drop-append : (xs ys : Bytes) (n : ℕ) → length xs ≡ n → drop n (xs ++ ys) ≡ ys
drop-append [] ys zero h = refl
drop-append [] ys (suc n) h = absurd (omega arith)
drop-append (x ∷ xs) ys zero h = absurd (omega arith)
drop-append (x ∷ xs) ys (suc n) h = drop-append xs ys n (omega arith)

module _ (sha256 : Bytes → Bytes) (is_sha : IsSha256 sha256) where
  pub length-metafile_of :
      (chunks : List Bytes) → length (metafile_of sha256 chunks) ≡ length chunks * 32
  unfolding metafile_of
  length-metafile_of [] = omega arith
  length-metafile_of (chunk ∷ chunks) = omega (
    arith,
    length-append (sha256 chunk) (metafile_of sha256 chunks),
    is_sha chunk,
    length-metafile_of chunks,
  )

  pieces-metafile_of :
      (chunks : List Bytes) → pieces (length chunks) (metafile_of sha256 chunks) ≡ map sha256 chunks
  unfolding pieces metafile_of
  pieces-metafile_of [] = refl
  pieces-metafile_of (chunk ∷ chunks) =
      let rest = metafile_of sha256 chunks in
      rw
        (
          take-append (sha256 chunk) rest 32 (is_sha chunk),
          drop-append (sha256 chunk) rest 32 (is_sha chunk),
        )
        (ap (◌∷◌ (sha256 chunk)) (pieces-metafile_of chunks))

  -- `ParseMetafile` gives back the checksums, in order, of the chunks that `CreateChunksMap` made
  -- the metafile of, if checksums have 32 bytes.
  pub parse-create :
      (chunks : List Bytes)
      → parse_metafile (create_chunks_map sha256 chunks).1 ≡ some (map sha256 chunks)
  unfolding create_chunks_map parse_metafile
  parse-create chunks =
      let n = length-metafile_of chunks in
      let count : length (metafile_of sha256 chunks) / 32 ≡ length chunks = omega (arith, n) in
      let whole : (length (metafile_of sha256 chunks) % 32 == 0) ≡ true = ground (arith, n) in
      rw (whole, count) (ap some (pieces-metafile_of chunks))

  -- The estimate from the metafile is at least the size of the chunks.
  estimate-ge :
      (chunks : List Bytes)
      → All (λ chunk. length chunk ≤ default_chunk_size) chunks
      → (e : ℕ) × (estimate_file_size (create_chunks_map sha256 chunks).1 ≡ some e)
        × (length (concat chunks) ≤ e)
  unfolding create_chunks_map estimate_file_size concat
  estimate-ge chunks h =
      let n = length-metafile_of chunks in
      let count : length (metafile_of sha256 chunks) / 32 ≡ length chunks = omega (arith, n) in
      let whole : (length (metafile_of sha256 chunks) % 32 == 0) ≡ true = ground (arith, n) in
      (length chunks * default_chunk_size, rw (whole, count), length-concat-le chunks h)
    where
      length-concat-le :
          (chunks : List Bytes)
          → All (λ chunk. length chunk ≤ default_chunk_size) chunks
          → length (concat chunks) ≤ length chunks * default_chunk_size
      length-concat-le [] h = omega arith
      length-concat-le (chunk ∷ chunks) h =
          omega (arith, length-append chunk (concat chunks), length-concat-le chunks h.1)

module _ (sha256 : Bytes → Bytes) where
  -- Every entry stands under its checksum.
  abbrev pub IsVerified : Bytes × Bytes → Type 0
  IsVerified e = sha256 e.1 ≡ e.0

  chunk_entries-IsVerified :
      (chunks : List Bytes) (m : Map Bytes Bytes)
      → All IsVerified m
      → All IsVerified (chunk_entries sha256 chunks m)
  unfolding chunk_entries
  chunk_entries-IsVerified [] m h = h
  chunk_entries-IsVerified (chunk ∷ chunks) m h =
      chunk_entries-IsVerified chunks _
        (All-store Bytes-discrete IsVerified (sha256 chunk) chunk m refl h)

  chunk_entries-present :
      (k : Bytes) (chunks : List Bytes) (m : Map Bytes Bytes)
      → present Bytes-discrete k m ≡ true
      → present Bytes-discrete k (chunk_entries sha256 chunks m) ≡ true
  unfolding chunk_entries
  chunk_entries-present k [] m h = h
  chunk_entries-present k (chunk ∷ chunks) m h =
      chunk_entries-present k chunks (store Bytes-discrete (sha256 chunk) chunk m)
        (ground (arith, load-store Bytes-discrete (sha256 chunk) k chunk m))

  chunk_entries-All :
      (chunks : List Bytes) (m : Map Bytes Bytes)
      → All
          (λ chunk. present Bytes-discrete (sha256 chunk) (chunk_entries sha256 chunks m) ≡ true)
          chunks
  unfolding chunk_entries
  chunk_entries-All [] m = tt
  chunk_entries-All (chunk ∷ chunks) m = (
    chunk_entries-present (sha256 chunk) chunks (store Bytes-discrete (sha256 chunk) chunk m)
        (ground (arith, load-store_self Bytes-discrete (sha256 chunk) chunk m)),
    chunk_entries-All chunks (store Bytes-discrete (sha256 chunk) chunk m),
  )

  -- The map that `CreateChunksMap` makes has a chunk under the checksum of every chunk, and each chunk
  -- in it has the checksum under which it stands.
  pub create_chunks_map-IsVerified :
      (chunks : List Bytes)
      → let m = (create_chunks_map sha256 chunks).0 in
        All IsVerified m × All (λ chunk. present Bytes-discrete (sha256 chunk) m ≡ true) chunks
  unfolding create_chunks_map
  create_chunks_map-IsVerified chunks =
      (chunk_entries-IsVerified chunks [] tt, chunk_entries-All chunks [])

collect-concat :
    (reads : List Bytes)
    → (concat (collect reads).0 ≡ concat reads) × ((collect reads).1 ≡ length (concat reads))
unfolding collect concat
collect-concat [] = (refl, refl)
collect-concat ([] ∷ reads) = collect-concat reads
collect-concat ((b ∷ bs) ∷ reads) =
    let rest = collect-concat reads in
    (ap (λ xs. (b ∷ bs) ++ xs) rest.0, omega (arith, rest.1, length-append bs (concat reads)))

-- The chunks that `ReadChunks` makes of a file, if no read fails, are written back as the same
-- file, and the size that it reports is the file's.
write-read :
    (reads : List Bytes)
    → (chunks : List Bytes) × (size : ℕ) × (read_chunks reads eof ≡ some (chunks, size))
      × (write_file_from_chunks chunks ≡ concat reads)
      × (size ≡ length (concat reads))
unfolding read_chunks
write-read reads =
    let r = collect-concat reads in ((collect reads).0, (collect reads).1, refl, r.0, r.1)
