-- ===== src/EnvFile.antt =====
-- config/config.go: PersistRefreshToken, on the text of the file .env.
pub mod Persisted
use tempmail.Prelude.{ℕ, Bool, List, [], ◌∷◌, ◌++◌, if◌then◌else◌}
use tempmail.Text.{Text, Unicode, codes, has_prefix, trim_space, split, join}
use tempmail.Models.{Result, ok, err}

abbrev pub assignment : Text → Text
assignment key = key ++ codes "="

module _ ⦃u : Unicode⦄ where
  abbrev pub assigns : Text → Text → Bool
  assigns key line = has_prefix (trim_space line) (assignment key)

  -- the first line that assigns to the key is written anew; one more line if there is none
  unfoldable pub replace_line : Text → Text → List Text → List Text
  replace_line key token [] = (assignment key ++ token) ∷ []
  replace_line key token (line ∷ lines) =
      let rest = replace_line key token lines in
      if assigns key line then (assignment key ++ token) ∷ lines else line ∷ rest

  abbrev pub rewritten : Text → Text → Text → Text
  rewritten key token content = join (replace_line key token (split content 10)) (10 ∷ [])

  -- PersistRefreshToken; `err` is a file that could not be read. The result is what is written to it.
  unfoldable pub persist_refresh_token : Result Text Text → Text → Text → Result Text Text
  persist_refresh_token (err e) key token = err e
  persist_refresh_token (ok content) key token = ok (rewritten key token content)
