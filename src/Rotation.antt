-- ===== src/Rotation.antt =====
-- main.go: the closures OnRotated of the pollers, which write a new refresh token to the file .env, over the calls
-- of fetchAccessToken.
pub mod Saved
use tempmail.Prelude.{Bool, true, false, Option, none, some, List, [], ◌∷◌}
use tempmail.Text.{Text, Unicode}
use tempmail.Models.{Time, Result, ok, err}
use tempmail.EnvFile.{persist_refresh_token}
use tempmail.Graph.{Token, Remote, fetch_access_token}

-- What a call of OnRotated meets: an error of the read, and an error of the write with what it leaves of the file.
pub record FileAccess : Type 0 where
  pub read_error : Option Text
  pub write_error : Option (Text × Text)

-- a call of fetchAccessToken: what the endpoint answers, the clock, and the file
pub record TokenCall : Type 0 where
  pub remote : Remote
  pub now : Time
  pub access : FileAccess

-- The token cache of the poller, the text of the file, and whether the last call of OnRotated logged a success.
pub record Rotation : Type 0 where
  pub token : Token
  pub file : Text
  pub saved : Bool

module _ ⦃u : Unicode⦄ (key : Text) where
  written_to : FileAccess → Text → Result Text Text → Bool × Text
  written_to io file (err e) = (false, file)
  written_to io file (ok text) = elim io.write_error [
    | none ↦ (true, text)
    | some (e, left) ↦ (false, left)
  ]

  read_from : FileAccess → Text → Result Text Text
  read_from io file = elim io.read_error [ none ↦ ok file | some e ↦ err e ]

  -- OnRotated: whether it logs a success, and the file after it
  unfoldable pub on_rotated : FileAccess → Text → Text → Bool × Text
  unfolding written_to read_from
  on_rotated io token file =
      written_to io file (persist_refresh_token (read_from io file) key token)

  saved_after : TokenCall → Token → Option Text → Rotation → Rotation
  unfolding on_rotated
  saved_after call t none s = record s { token = t }
  saved_after call t (some x) s =
      let (done, file) = on_rotated call.access x s.file in
      record { token = t; file = file; saved = done }

  unfoldable pub rotate : TokenCall → Rotation → Rotation
  unfolding saved_after
  rotate call s =
      let (_, t, called) = fetch_access_token call.remote call.now s.token in
      saved_after call t called s

  unfoldable pub rotate_all : List TokenCall → Rotation → Rotation
  unfolding rotate
  rotate_all [] s = s
  rotate_all (call ∷ calls) s = rotate_all calls (rotate call s)
