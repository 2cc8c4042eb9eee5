-- ===== src/Graph/Cached.antt =====
-- About graph/poller.go: the cache of the access token, and the refresh token that is handed on.
use tempmail.Prelude.{
  ◌≡◌, ◌≢◌, ◌∙◌, subst, if◌then◌else◌, refl, Bool, true, false, not, ◌&&◌, Bool-cases, inl, inr,
  arith, Option, none, some, is_empty,
}
use tempmail.Prelude.Int.{ltb_ℤ, ◌<ℤ◌}
use tempmail.Text.{Text, same}
use tempmail.Text.Laws.{same_eq}
use tempmail.Models.{Time, Result, ok, err}
use tempmail.Graph.{
  TokenAnswer, Token, Remote, rotated, accept_answer, exchanged, is_cached, fetch_access_token,
}

-- Of the old and the new refresh token: they are the same and nothing is called, or they differ and OnRotated
-- is called with the new one.
pub data HandedOn (old new : Text) : Option Text → Type 0 where
  kept : new ≡ old → HandedOn old new none
  handed : new ≢ old → HandedOn old new (some new)

differs : (x y : Text) → (not (is_empty x) && not (same x y)) ≡ true → x ≢ y
differs x y h e = let k : same x y ≡ true = same_eq e in ground arith

handed_if :
    (old r : Text) (changed : Bool)
    → (not (is_empty r) && not (same r old)) ≡ changed
    → HandedOn old
        (elim (if changed then some r else none) [ some x ↦ x | none ↦ old ])
        (if changed then some r else none)
handed_if old r true h = handed (differs r old h)
handed_if old r false h = kept refl

accept_answer-HandedOn :
    (now : Time) (t : Token) (a : TokenAnswer)
    → HandedOn t.refresh_token (accept_answer now t a).refresh_token (rotated t a)
unfolding accept_answer rotated
accept_answer-HandedOn now t a = handed_if t.refresh_token a.refresh_token _ refl

accept_answer-token :
    (now : Time) (t : Token) (a : TokenAnswer)
    → (accept_answer now t a).access_token ≡ a.access_token
unfolding accept_answer
accept_answer-token now t a = refl

-- What a call that gives the token `a` leaves: the cache holds it, and the refresh token is handed on.
pub record IsFilled (old : Text) (a : Text) (t : Token) (called : Option Text) : Type 0 where
  pub held : t.access_token ≡ a
  pub given : is_empty a ≡ false
  pub handed_on : HandedOn old t.refresh_token called

exchanged-IsFilled :
    (now : Time) (t : Token) (r : Result Text TokenAnswer) (a : Text)
    → (exchanged now t r).0 ≡ ok a
    → IsFilled t.refresh_token a (exchanged now t r).1 (exchanged now t r).2
unfolding exchanged
exchanged-IsFilled now t (err e) a h = absurd (ground arith)
exchanged-IsFilled now t (ok answer) a h = elim (Bool-cases (is_empty answer.access_token)) [
  | inl e ↦ absurd (ground arith)
  | inr e ↦
      let same_token : answer.access_token ≡ a = ground arith in
      rw e (record {
        held = accept_answer-token now t answer ∙ same_token;
        given = subst (λ x. is_empty x ≡ false) same_token e;
        handed_on = accept_answer-HandedOn now t answer;
      })
]

fetch_access_token-IsFilled :
    (remote : Remote) (now : Time) (t : Token) (a : Text)
    → (fetch_access_token remote now t).0 ≡ ok a
    → IsFilled t.refresh_token a
        (fetch_access_token remote now t).1
        (fetch_access_token remote now t).2
unfolding fetch_access_token
fetch_access_token-IsFilled remote now t a h = elim (Bool-cases (is_cached now t)) [
  | inl e ↦
      let cached_token : t.access_token ≡ a = ground arith in
      rw (e, fetch_access_token)
        (record { held = cached_token; given = ground arith; handed_on = kept refl })
  | inr e ↦
      rw (e, fetch_access_token)
        (exchanged-IsFilled now t (remote.exchange t.refresh_token) a
          (rw (e, fetch_access_token) at h))
]

exchanged-HandedOn :
    (now : Time) (t : Token) (r : Result Text TokenAnswer)
    → HandedOn t.refresh_token (exchanged now t r).1.refresh_token (exchanged now t r).2
unfolding exchanged
exchanged-HandedOn now t (err e) = kept refl
exchanged-HandedOn now t (ok answer) = elim (Bool-cases (is_empty answer.access_token)) [
  | inl e ↦ rw e (kept refl)
  | inr e ↦ rw e (accept_answer-HandedOn now t answer)
]

-- Of every call, with a result or an error.
pub fetch_access_token-HandedOn :
    (remote : Remote) (now : Time) (t : Token)
    → HandedOn t.refresh_token
        (fetch_access_token remote now t).1.refresh_token
        (fetch_access_token remote now t).2
unfolding fetch_access_token
fetch_access_token-HandedOn remote now t = elim (Bool-cases (is_cached now t)) [
  | inl e ↦ rw (e, fetch_access_token) (kept refl)
  | inr e ↦ rw (e, fetch_access_token) (exchanged-HandedOn now t (remote.exchange t.refresh_token))
]

exchanged-called :
    (now : Time) (t : Token) (r : Result Text TokenAnswer) (x : Text)
    → (exchanged now t r).2 ≡ some x
    → (a : TokenAnswer) × (r ≡ ok a) × (x ≡ a.refresh_token)
unfolding exchanged rotated
exchanged-called now t (err e) x h = absurd (ground arith)
exchanged-called now t (ok answer) x h = (answer, refl, ground arith)

-- What OnRotated is called with is the refresh token of an answer.
pub fetch_access_token-called :
    (remote : Remote) (now : Time) (t : Token) (x : Text)
    → (fetch_access_token remote now t).2 ≡ some x
    → (a : TokenAnswer) × (remote.exchange t.refresh_token ≡ ok a) × (x ≡ a.refresh_token)
unfolding fetch_access_token
fetch_access_token-called remote now t x h = elim (Bool-cases (is_cached now t)) [
  | inl e ↦ absurd (ground arith)
  | inr e ↦
      exchanged-called now t (remote.exchange t.refresh_token) x (rw (e, fetch_access_token) at h)
]

used_again :
    (other : Remote) (later : Time) (t : Token) (a : Text)
    → t.access_token ≡ a
    → is_empty a ≡ false
    → later <ℤ t.token_expiry
    → fetch_access_token other later t ≡ (ok a, t, none)
unfolding fetch_access_token is_cached
used_again other later t a held given soon =
    let cached : (not (is_empty t.access_token) && ltb_ℤ later t.token_expiry) ≡ true =
      ground arith in
    rw (cached, held) refl

-- If a call gives an access token, a call at an instant before the expiry that the first one set gives the same
-- token, asks the token endpoint for nothing, and leaves the cache as it is; and of the first call, the refresh
-- token stayed the same and OnRotated was not called, or it changed and OnRotated was called with the new one.
pub fetch_access_token-twice :
    (remote other : Remote) (now later : Time) (t : Token) (a : Text)
    → (fetch_access_token remote now t).0 ≡ ok a
    → later <ℤ (fetch_access_token remote now t).1.token_expiry
    → (fetch_access_token other later (fetch_access_token remote now t).1
        ≡ (ok a, (fetch_access_token remote now t).1, none))
      × HandedOn t.refresh_token
          (fetch_access_token remote now t).1.refresh_token
          (fetch_access_token remote now t).2
fetch_access_token-twice remote other now later t a h soon =
    let filled = fetch_access_token-IsFilled remote now t a h in
    (
      used_again other later (fetch_access_token remote now t).1 a filled.held filled.given soon,
      filled.handed_on,
    )
