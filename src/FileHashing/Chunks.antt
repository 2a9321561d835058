-- ===== src/FileHashing/Chunks.antt =====
-- The generator `chunks` of `sha256_file`, on a file that is the list of its bytes.
use mathlib.Core.Option
use mathlib.Core.Option.{Option, none, some}
use xieyi.Prelude.{
  ℕ, zero, suc, ◌≤◌, ◌<◌, ◌≡◌, refl, ap, ◌∙◌, List, [], ◌∷◌, ◌++◌, length, concat, take, drop, All,
  arith,
}

-- The test of the `while` on what `read` returned, before the rest of the loop.
abbrev pub yielded : List ℕ → Option (List (List ℕ)) → Option (List (List ℕ))
yielded [] rest = some []
yielded (byte ∷ chunk) rest = Option.map (λ chunks. (byte ∷ chunk) ∷ chunks) rest

-- What the loop yields if it ends within the given number of calls of `read`. A negative size, which
-- reads the whole file at once, is left out.
unfoldable pub read_chunks : ℕ → ℕ → List ℕ → Option (List (List ℕ))
read_chunks zero chunk_size file = none
read_chunks (suc calls) chunk_size file =
    yielded (take chunk_size file) (read_chunks calls chunk_size (drop chunk_size file))

-- The chunks of a file: together the file, none empty and none longer than the size.
pub record AreChunks (chunk_size : ℕ) (file : List ℕ) (chunks : List (List ℕ)) : Type 0 where
  pub together : concat chunks ≡ file
  pub bounded : All (λ c. (0 < length c) × (length c ≤ chunk_size)) chunks

take-drop : (n : ℕ) (file : List ℕ) → take n file ++ drop n file ≡ file
take-drop zero file = refl
take-drop (suc n) [] = refl
take-drop (suc n) (x ∷ file) = ap (λ rest. x ∷ rest) (take-drop n file)

length-take : (n : ℕ) (file : List ℕ) → length (take n file) ≤ n
length-take zero file = omega arith
length-take (suc n) [] = omega arith
length-take (suc n) (x ∷ file) = omega (arith, length-take n file)

length-drop : (n : ℕ) (file : List ℕ) → length (drop n file) ≤ length file
length-drop zero file = omega arith
length-drop (suc n) [] = omega arith
length-drop (suc n) (x ∷ file) = omega (arith, length-drop n file)

-- The loop over a file ends within one call of `read` more than the file has bytes, if the chunk size
-- is positive; what it yields is the file cut into chunks that are neither empty nor longer than the
-- chunk size.
pub read_chunks-ends :
    (calls chunk_size : ℕ) (file : List ℕ)
    → 0 < chunk_size
    → length file < calls
    → (chunks : List (List ℕ)) × (read_chunks calls chunk_size file ≡ some chunks)
      × AreChunks chunk_size file chunks
unfolding read_chunks
read_chunks-ends zero n file p h = absurd (omega (arith, h))
read_chunks-ends calls zero file p h = absurd (omega (arith, p))
read_chunks-ends (suc calls) (suc n) [] p h = ([], refl, record { together = refl; bounded = tt })
read_chunks-ends (suc calls) (suc n) (byte ∷ file) p h =
    let (chunks, e, c) =
      read_chunks-ends calls (suc n) (drop n file) p (omega (arith, h, length-drop n file)) in
    (
      (byte ∷ take n file) ∷ chunks,
      ap (Option.map (λ rest. (byte ∷ take n file) ∷ rest)) e,
      record {
        together =
            ap (λ rest. byte ∷ rest)
              (ap (λ rest. take n file ++ rest) c.together ∙ take-drop n file);
        bounded = ((omega arith, omega (arith, length-take n file)), c.bounded);
      },
    )
