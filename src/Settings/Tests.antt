-- ===== src/Settings/Tests.antt =====
-- Extensions from the environment, and the URL of the checkpoints.
use xieyi.Prelude.{◌≡◌, refl, false, [], ◌∷◌, codes, ◌==◌, split}
use xieyi.Security.FileNames.{Unicode}
use xieyi.Settings.{
  text, items, defaults, parsed, parse_extensions, replace_first, resolved_checkpoint_database_url,
}

abbrev ascii : Unicode
ascii = record { nfkc = λ s. s; is_word = λ c. false; is_space = λ c. c == 32; lower = λ s. s }

spaces_and_gaps :
    parse_extensions ascii (text (codes " .pdf,, .txt ,"))
    ≡ items (codes ".pdf" ∷ codes ".txt" ∷ [])
unfolding parse_extensions parsed split
spaces_and_gaps = refl

checkpoint_url :
    resolved_checkpoint_database_url (defaults (codes "postgresql+asyncpg://db/w") [] [])
    ≡ codes "postgresql://db/w"
unfolding resolved_checkpoint_database_url replace_first
checkpoint_url = refl
