-- ===== src/Security/FileNames.antt =====
-- `safe_filename` of file_validation.py, and what it uses of `pathlib`, `re` and `str`.
use xieyi.Prelude.{
  ℕ, Bool, true, false, not, ◌||◌, Option, none, some, [], ◌∷◌, ◌++◌, ◌==◌, if◌then◌else◌, Text,
  codes, take,
}

-- The Unicode tables behind `unicodedata.normalize("NFKC", …)`, `\w`, `str.strip` and `str.lower`.
pub record Unicode : Type 0 where
  pub nfkc : Text → Text
  pub is_word : ℕ → Bool
  pub is_space : ℕ → Bool
  pub lower : Text → Text

abbrev pub slash : ℕ
slash = 47

abbrev pub dot : ℕ
dot = 46

-- `filename.replace("\\", "/")`
unfoldable pub forward_slashes : Text → Text
forward_slashes [] = []
forward_slashes (c ∷ s) = (if c == 92 then slash else c) ∷ forward_slashes s

-- A path's parts, without the empty ones and ".".
abbrev pub is_part : Text → Bool
is_part [] = false
is_part (c ∷ []) = not (c == dot)
is_part (c ∷ d ∷ s) = true

-- The last part seen so far, given the part that is being read.
abbrev pub better : Text → Text → Text
better part last = if is_part part then part else last

unfoldable pub last_part : Text → Text → Text → Text
last_part part last [] = better part last
last_part part last (c ∷ s) =
    last_part (if c == slash then [] else part ++ c ∷ [])
      (if c == slash then better part last else last) s

-- `PurePath(path).name`
unfoldable pub path_name : Text → Text
unfolding last_part
path_name path = last_part [] [] path

-- What stands before the last dot, and the rest from the dot on.
unfoldable pub split_dot : Text → Option (Text × Text)
split_dot [] = none
split_dot (c ∷ s) = elim (split_dot s) [
  | some (before, after) ↦ some (c ∷ before, after)
  | none ↦ if c == dot then some ([], c ∷ s) else none
]

-- A suffix needs something before its dot, and something behind it.
abbrev pub stem_suffix : Text → Option (Text × Text) → Text × Text
stem_suffix name (some (c ∷ before, d ∷ e ∷ after)) = (c ∷ before, d ∷ e ∷ after)
stem_suffix name _ = (name, [])

-- `Path(name).stem` and `Path(name).suffix`
unfoldable pub path_stem_suffix : Text → Text × Text
unfolding path_name split_dot
path_stem_suffix path = let name = path_name path in stem_suffix name (split_dot name)

abbrev pub drop_while : (ℕ → Bool) → Text → Text
drop_while p [] = []
drop_while p (c ∷ s) = let rest = drop_while p s in if p c then rest else c ∷ s

abbrev pub keep_before : (ℕ → Bool) → ℕ → Text → Text
keep_before p c [] = if p c then [] else c ∷ []
keep_before p c (d ∷ t) = c ∷ d ∷ t

abbrev pub drop_end : (ℕ → Bool) → Text → Text
drop_end p [] = []
drop_end p (c ∷ s) = keep_before p c (drop_end p s)

-- `s.strip(…)`, for the characters that `p` tells.
abbrev pub strip : (ℕ → Bool) → Text → Text
strip p s = drop_end p (drop_while p s)

abbrev pub without_nul : Text → Text
without_nul [] = []
without_nul (c ∷ s) = let rest = without_nul s in if c == 0 then rest else c ∷ rest

module _ (unicode : Unicode) where
  -- `[\w.-]`
  abbrev pub is_plain : ℕ → Bool
  is_plain c = unicode.is_word c || c == dot || c == 45

  -- `re.sub(r"[^\w.-]+", "_", s)`, given whether the character before was replaced.
  unfoldable pub underscores : Bool → Text → Text
  underscores replaced [] = []
  underscores replaced (c ∷ s) =
      let kept = c ∷ underscores false s in
      let run = underscores true s in
      if is_plain c then kept else if replaced then run else 95 ∷ run

  abbrev pub or_evidence : Text → Text
  or_evidence [] = codes "evidence"
  or_evidence (c ∷ s) = c ∷ s

  abbrev pub is_trim : ℕ → Bool
  is_trim c = c == dot || c == 95

  unfoldable pub safe_filename : Text → Text
  unfolding forward_slashes path_name path_stem_suffix underscores
  safe_filename filename =
      let name = path_name (forward_slashes filename) in
      let name' = without_nul (strip unicode.is_space (unicode.nfkc name)) in
      let (stem, suffix) = path_stem_suffix name' in
      take 200 (or_evidence (strip is_trim (underscores false stem))) ++ unicode.lower suffix
