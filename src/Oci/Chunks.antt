-- ===== src/Oci/Chunks.antt =====
-- A file in chunks: the rounds of `write_file_chunks` (crates/mirum-vm-oci/src/lib.rs) without the
-- blobs that they write, and `write_hmi_file` (crates/mirum-vm-oci/src/storage.rs), which puts the
-- chunks together again.
pub mod Ascending
pub mod Assemble
use mirum.Base.{
  ℕ, zero, suc, ◌+◌, ◌-◌, ◌*◌, ◌≤◌, ◌<◌, ◌≡◌, ◌≢◌, refl, sym, ◌∙◌, ap, Bool, true, false, List, [],
  ◌∷◌, ◌++◌, arith, length, take, drop, replicate, is_empty, ltb, leb, Bool-cases, inl, inr,
  if◌then◌else◌, length-append, length-take, length-drop, take-append-drop, All,
}
use mathlib.Core.List.{append-nil, append_assoc, Perm, Permᴰ, Mem}
use mirum.Oci.Types.{Bytes}

-- 256 MiB
abbrev pub chunk_size : ℕ
chunk_size = 256 * 1024 * 1024

abbrev pub Chunk : Type 0
Chunk = ℕ × Bytes

-- The offset and the bytes of every chunk that the loop of `write_file_chunks` takes from what is
-- left of the file: `take(size).read_to_end` reads as much as there is up to `size`. A shorter chunk
-- is the last.
unfoldable pub read_chunks : ℕ → ℕ → ℕ → Bytes → List Chunk
read_chunks size zero offset rest = []
read_chunks size (suc fuel) offset rest =
    let buf = take size rest in
    let more = read_chunks size fuel (offset + length buf) (drop size rest) in
    if is_empty buf
    then []
    else if ltb (length buf) size
    then (offset, buf) ∷ []
    else (offset, buf) ∷ more

-- Enough fuel: every round but the last takes a byte or more.
abbrev pub file_chunks : ℕ → Bytes → List Chunk
file_chunks size file = read_chunks size (suc (length file)) 0 file

-- `seek(SeekFrom::Start(offset))` and `write_all(data)`: a gap is filled with zeros, and what stands
-- behind the written bytes stays.
unfoldable pub write_at : ℕ → Bytes → Bytes → Bytes
write_at offset bytes file =
    take offset file
    ++ (replicate (offset - length file) 0 ++ (bytes ++ drop (offset + length bytes) file))

-- `chunks.sort_by_key(|(offset, _)| *offset)`, a stable sort.
unfoldable pub insert_chunk : Chunk → List Chunk → List Chunk
insert_chunk (o, b) [] = (o, b) ∷ []
insert_chunk (o, b) ((p, c) ∷ rest) =
    let later = insert_chunk (o, b) rest in
    if leb o p then (o, b) ∷ (p, c) ∷ rest else (p, c) ∷ later

unfoldable pub sort_chunks : List Chunk → List Chunk
unfolding insert_chunk
sort_chunks [] = []
sort_chunks (c ∷ cs) = insert_chunk c (sort_chunks cs)

unfoldable pub write_chunks : List Chunk → Bytes → Bytes
write_chunks [] file = file
write_chunks ((offset, bytes) ∷ rest) file = write_chunks rest (write_at offset bytes file)

-- What `write_hmi_file` leaves in the file that it creates.
unfoldable pub assemble : List Chunk → Bytes
unfolding sort_chunks write_chunks write_at
assemble chunks = write_chunks (sort_chunks chunks) []

assemble_example : assemble ((3, 4 ∷ 5 ∷ []) ∷ (0, 1 ∷ 2 ∷ 3 ∷ []) ∷ []) ≡ 1 ∷ 2 ∷ 3 ∷ 4 ∷ 5 ∷ []
unfolding assemble
assemble_example = refl

file_chunks_example : file_chunks 2 (1 ∷ 2 ∷ 3 ∷ 4 ∷ []) ≡ (0, 1 ∷ 2 ∷ []) ∷ (2, 3 ∷ 4 ∷ []) ∷ []
unfolding read_chunks
file_chunks_example = refl
