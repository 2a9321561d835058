-- ===== src/FileHashing/Digest.antt =====
-- `sha256_chunks`, `sha256_file` and `sha256_stream`, over the incremental hash of `hashlib`.
use mathlib.Core.Option
use mathlib.Core.Option.{Option, none, some}
use xieyi.Prelude.{
  ℕ, suc, ◌<◌, ◌≡◌, sym, ap, ◌∙◌, String, List, [], ◌∷◌, ◌++◌, length, concat, arith,
}
use xieyi.FileHashing.Chunks.{read_chunks, read_chunks-ends}

-- `hashlib.sha256()` with `update` and `hexdigest`, of which the documentation says that two updates
-- are one with the bytes of both.
pub record Hashlib : Type 1 where
  pub State : Type 0
  pub sha256 : State
  pub update : State → List ℕ → State
  pub hexdigest : State → String
  pub update-nil : (s : State) → update s [] ≡ s
  pub update-append : (s : State) (a b : List ℕ) → update (update s a) b ≡ update s (a ++ b)

module _ (lib : Hashlib) where
  open lib use {State, sha256, update, hexdigest, update-nil, update-append}

  abbrev pub digest_loop : State → List (List ℕ) → State
  digest_loop digest [] = digest
  digest_loop digest (chunk ∷ chunks) = digest_loop (update digest chunk) chunks

  unfoldable pub sha256_chunks : List (List ℕ) → String
  sha256_chunks chunks = hexdigest (digest_loop sha256 chunks)

  unfoldable pub sha256_file : ℕ → List ℕ → Option String
  unfolding sha256_chunks
  sha256_file chunk_size file =
      Option.map sha256_chunks (read_chunks (suc (length file)) chunk_size file)

  -- The items of the asynchronous iterator, in their order.
  unfoldable pub sha256_stream : List (List ℕ) → String
  sha256_stream chunks = hexdigest (digest_loop sha256 chunks)

  digest_loop-concat :
      (s : State) (chunks : List (List ℕ)) → digest_loop s chunks ≡ update s (concat chunks)
  digest_loop-concat s [] = sym (update-nil s)
  digest_loop-concat s (chunk ∷ chunks) =
      digest_loop-concat (update s chunk) chunks ∙ update-append s chunk (concat chunks)

  -- Let the hash take two updates as one with the bytes of both, and an update with no bytes as none.
  -- A file that is read in chunks of any positive size has a digest, and it is the digest of a stream
  -- of the same bytes, however the stream is cut.
  pub sha256_file-sha256_stream :
      (chunk_size : ℕ) (chunks : List (List ℕ))
      → 0 < chunk_size
      → sha256_file chunk_size (concat chunks) ≡ some (sha256_stream chunks)
  unfolding sha256_file sha256_stream sha256_chunks
  sha256_file-sha256_stream chunk_size chunks p =
      let file = concat chunks in
      let (read, e, c) = read_chunks-ends (suc (length file)) chunk_size file p (omega arith) in
      ap (Option.map sha256_chunks) e
      ∙ ap some (
          ap hexdigest (
            digest_loop-concat sha256 read
            ∙ ap (update sha256) c.together
            ∙ sym (digest_loop-concat sha256 chunks)))
