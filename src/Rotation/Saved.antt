-- ===== src/Rotation/Saved.antt =====
-- About the closures OnRotated of main.go: the refresh token in the file .env is that of the poller.
use tempmail.Prelude.{
  ◌≡◌, ◌⊎◌, refl, sym, subst, Bool, true, Bool-cases, Option, some, Option-cases, List, [], ◌∷◌,
  ◌++◌, inl, inr, filter, All, arith,
}
use tempmail.Text.{Text, Unicode, split}
use tempmail.Models.{Time, ok}
use tempmail.EnvFile.{assignment, assigns, replace_line, rewritten, persist_refresh_token}
use tempmail.EnvFile.Persisted.{IsKey, IsRow, assigns-own, rewritten-rows}
use tempmail.Graph.{Token, TokenAnswer, Remote, fetch_access_token}
use tempmail.Graph.Cached.{
  HandedOn, kept, handed, fetch_access_token-HandedOn, fetch_access_token-called,
}
use tempmail.Imap
use tempmail.Rotation.{
  TokenCall, Rotation, written_to, read_from, on_rotated, saved_after, rotate, rotate_all,
}

-- The endpoint gives refresh tokens of one line.
abbrev pub GivesRows : TokenCall → Type 0
GivesRows call =
    (r : Text) (a : TokenAnswer) → call.remote.exchange r ≡ ok a → IsRow a.refresh_token

module _ ⦃u : Unicode⦄ (key : Text) where
  -- the only line of the file that assigns to the key is the assignment of the token
  abbrev pub Holds : Text → Text → Type 0
  Holds token file = filter (assigns key) (split file 10) ≡ (assignment key ++ token) ∷ []

  -- no line of the file assigns to the key, or one alone
  abbrev pub AssignsOnce : Text → Type 0
  AssignsOnce file =
      (filter (assigns key) (split file 10) ≡ [])
      ⊎ ((old : Text) × (filter (assigns key) (split file 10) ≡ old ∷ []))

  -- A write that fails leaves no more than one assignment to the key, as a beginning of what is written does.
  abbrev pub LeavesOne : TokenCall → Type 0
  LeavesOne call = (e left : Text) → call.access.write_error ≡ some (e, left) → AssignsOnce left

  module _ (is_key : IsKey key) where
    replace_line-first :
        (token : Text) (lines : List Text)
        → filter (assigns key) lines ≡ []
        → filter (assigns key) (replace_line key token lines) ≡ (assignment key ++ token) ∷ []
    unfolding replace_line
    replace_line-first token [] h = rw (assigns-own key token is_key) refl
    replace_line-first token (line ∷ lines) h = elim (Bool-cases (assigns key line)) [
      | inl e ↦ absurd (cc (rw e at h))
      | inr e ↦ rw (e, e) (replace_line-first token lines (rw e at h))
    ]

    replace_line-single :
        (token old : Text) (lines : List Text)
        → filter (assigns key) lines ≡ old ∷ []
        → filter (assigns key) (replace_line key token lines) ≡ (assignment key ++ token) ∷ []
    unfolding replace_line
    replace_line-single token old [] h = absurd (cc h)
    replace_line-single token old (line ∷ lines) h = elim (Bool-cases (assigns key line)) [
      | inl e ↦
          let rest : filter (assigns key) lines ≡ [] = ground arith in
          rw (e, assigns-own key token is_key, rest) refl
      | inr e ↦ rw (e, e) (replace_line-single token old lines (rw e at h))
    ]

    rewritten-Holds :
        (token file : Text)
        → IsRow token
        → AssignsOnce file
        → Holds token (rewritten key token file)
    rewritten-Holds token file r (inl h) =
        rw (rewritten-rows key token file is_key r) (replace_line-first token (split file 10) h)
    rewritten-Holds token file r (inr (old, h)) =
        rw (rewritten-rows key token file is_key r)
          (replace_line-single token old (split file 10) h)

    -- After a call of OnRotated the file assigns at most once, and to the token if the call succeeds.
    abbrev IsSaved : Text → Bool × Text → Type 0
    IsSaved token r = AssignsOnce r.1 × (r.0 ≡ true → Holds token r.1)

    written_to-IsSaved :
        (call : TokenCall) (token file text : Text)
        → LeavesOne call
        → Holds token text
        → IsSaved token (written_to key call.access file (ok text))
    unfolding written_to
    written_to-IsSaved call token file text few h = elim (Option-cases call.access.write_error) [
      | inl e ↦ rw (e, written_to) (inr (assignment key ++ token, h), λ k. h)
      | inr ((x, left), e) ↦ rw (e, written_to) (few x left e, λ k. absurd (cc k))
    ]

    on_rotated-IsSaved :
        (call : TokenCall) (token file : Text)
        → LeavesOne call
        → IsRow token
        → AssignsOnce file
        → IsSaved token (on_rotated key call.access token file)
    unfolding on_rotated read_from persist_refresh_token written_to
    on_rotated-IsSaved call token file few r h = elim (Option-cases call.access.read_error) [
      | inl e ↦
          rw (e, read_from, persist_refresh_token)
            (written_to-IsSaved call token file (rewritten key token file) few
              (rewritten-Holds token file r h))
      | inr (x, e) ↦ rw (e, read_from, persist_refresh_token, written_to) (h, λ k. absurd (cc k))
    ]

    -- The file assigns at most once, and to the refresh token of the poller if the last call succeeded.
    abbrev Inv : Rotation → Type 0
    Inv s = IsSaved s.token.refresh_token (s.saved, s.file)

    saved_after-Inv :
        (call : TokenCall) (t : Token) (called : Option Text) (s : Rotation)
        → LeavesOne call
        → HandedOn s.token.refresh_token t.refresh_token called
        → ((x : Text) → called ≡ some x → IsRow x)
        → Inv s
        → Inv (saved_after key call t called s)
    unfolding saved_after
    saved_after-Inv call t called s few (kept e) rows (h, k) =
        (h, λ q. subst (λ x. Holds x s.file) (sym e) (k q))
    saved_after-Inv call t called s few (handed ne) rows (h, k) =
        on_rotated-IsSaved call t.refresh_token s.file few (rows t.refresh_token refl) h

    rotate-Inv :
        (call : TokenCall) (s : Rotation)
        → LeavesOne call
        → GivesRows call
        → Inv s
        → Inv (rotate key call s)
    unfolding rotate
    rotate-Inv call s few rows h =
        let (_, t, called) = fetch_access_token call.remote call.now s.token in
        saved_after-Inv call t called s few
          (fetch_access_token-HandedOn call.remote call.now s.token)
          (λ x e.
            let (a, given, same) = fetch_access_token-called call.remote call.now s.token x e in
            subst IsRow (sym same) (rows s.token.refresh_token a given))
          h

    rotate_all-Inv :
        (calls : List TokenCall) (s : Rotation)
        → All LeavesOne calls
        → All GivesRows calls
        → Inv s
        → Inv (rotate_all key calls s)
    unfolding rotate_all
    rotate_all-Inv [] s few rows h = h
    rotate_all-Inv (call ∷ calls) s few rows h =
        rotate_all-Inv calls (rotate key call s) few.1 rows.1 (rotate-Inv call s few.0 rows.0 h)

  -- If the file assigns the poller's refresh token to the key, and nothing else to it, then after any calls of
  -- fetchAccessToken, of which some are served from the cache, some rotate the token, and some fail, the same
  -- holds of the file and the token of that moment, if the last call of OnRotated succeeded. The key and the
  -- tokens of the endpoint are of one line, the key does not begin with white space, and a failed write leaves
  -- no more than one assignment to the key.
  pub rotate_all-Holds :
      (calls : List TokenCall) (s : Rotation)
      → IsKey key
      → All LeavesOne calls
      → All GivesRows calls
      → Holds s.token.refresh_token s.file
      → (rotate_all key calls s).saved ≡ true
      → Holds (rotate_all key calls s).token.refresh_token (rotate_all key calls s).file
  rotate_all-Holds calls s is_key few rows h k =
      (rotate_all-Inv is_key calls s few rows
          (inr (assignment key ++ s.token.refresh_token, h), λ q. h)).1
        k

-- The poller over IMAP gets its token in the same way.
pub access_token-fetch_access_token :
    {S : Type 0} (client : Imap.Client S) (other : Remote) (now : Time) (t : Token)
    → Imap.access_token client now t
      ≡ fetch_access_token (record other { exchange = client.exchange }) now t
unfolding Imap.access_token fetch_access_token
access_token-fetch_access_token client other now t = refl
