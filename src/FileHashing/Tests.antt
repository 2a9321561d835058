-- ===== src/FileHashing/Tests.antt =====
-- Five bytes, read two at a time.
use mathlib.Core.Option.{some}
use mathlib.Core.List.{append_assoc, append-nil}
use xieyi.Prelude.{ℕ, ◌≡◌, refl, List, [], ◌∷◌, ◌++◌, length, arith, str}
use xieyi.FileHashing.Chunks.{read_chunks, AreChunks, read_chunks-ends}
use xieyi.FileHashing.Digest.{Hashlib, sha256_file, sha256_stream, sha256_file-sha256_stream}

-- A hash whose state is all bytes so far, and whose digest is their number.
abbrev counting : Hashlib
counting = record {
  State = List ℕ;
  sha256 = [];
  update = λ s bytes. s ++ bytes;
  hexdigest = λ s. str (length s);
  update-nil = append-nil;
  update-append = append_assoc;
}

abbrev five_bytes : List ℕ
five_bytes = 1 ∷ 2 ∷ 3 ∷ 4 ∷ 5 ∷ []

read_chunks-ends_example :
    (chunks : List (List ℕ)) × (read_chunks 6 2 five_bytes ≡ some chunks)
    × AreChunks 2 five_bytes chunks
read_chunks-ends_example = read_chunks-ends 6 2 five_bytes (omega arith) (omega arith)

five_bytes-read : read_chunks 6 2 five_bytes ≡ some ((1 ∷ 2 ∷ []) ∷ (3 ∷ 4 ∷ []) ∷ (5 ∷ []) ∷ [])
unfolding read_chunks
five_bytes-read = refl

sha256_file-sha256_stream_example :
    sha256_file counting 2 five_bytes
    ≡ some (sha256_stream counting ((1 ∷ []) ∷ (2 ∷ 3 ∷ 4 ∷ 5 ∷ []) ∷ []))
sha256_file-sha256_stream_example =
    sha256_file-sha256_stream counting 2 ((1 ∷ []) ∷ (2 ∷ 3 ∷ 4 ∷ 5 ∷ []) ∷ []) (omega arith)
