-- ===== src/EnvFile/Persisted.antt =====
-- About PersistRefreshToken of config/config.go: the file after one token or two were written to
-- it.
use tempmail.Prelude.{
  ℕ, ◌⊎◌, ◌≡◌, ◌≢◌, refl, sym, ap, ◌∙◌, Bool, true, false, List, [], ◌∷◌, ◌++◌, append_assoc, ◌==◌,
  ==_refl, ==_iff, All, All-append, Bool-cases, inl, inr, arith, if_elim,
}
use tempmail.Text.{
  Text, Unicode, codes, has_prefix, trim_right, trim_right_cons, trim_space, is_space, split,
  split_cons, join,
}
use tempmail.Models.{Result, ok, err}
use tempmail.EnvFile.{assignment, assigns, replace_line, rewritten, persist_refresh_token}

-- a line of a file
abbrev pub IsRow : Text → Type 0
IsRow s = All (λ c. c ≢ 10) s

split_cons-ne : (c : ℕ) (ps : List Text) → split_cons c ps ≢ []
split_cons-ne c [] h = cc
split_cons-ne c (p ∷ ps) h = cc

split-ne : (s : Text) → split s 10 ≢ []
split-ne [] h = cc
split-ne (c ∷ s) h = ground (arith, split_cons-ne c (split s 10))

split_cons-IsRow : (c : ℕ) (ps : List Text) → c ≢ 10 → All IsRow ps → All IsRow (split_cons c ps)
split_cons-IsRow c [] h k = ((h, tt), tt)
split_cons-IsRow c (p ∷ ps) h k = ((h, k.0), k.1)

split-IsRow : (s : Text) → All IsRow (split s 10)
split-IsRow [] = (tt, tt)
split-IsRow (c ∷ s) =
    if_elim (All IsRow) (c == 10) (λ e. (tt, split-IsRow s))
      (λ e. split_cons-IsRow c (split s 10) (λ q. ground (arith, ==_iff c 10)) (split-IsRow s))

-- A row before a text joins the first row of the text.
split-append-end : (p s : Text) → IsRow p → split (p ++ (10 ∷ s)) 10 ≡ p ∷ split s 10
split-append-end [] s h = refl
split-append-end (c ∷ p) s h =
    let other : (c == 10) ≡ false = ground (arith, ==_iff c 10) in
    rw (other, split-append-end p s h.1) refl

split-row : (p : Text) → IsRow p → split p 10 ≡ p ∷ []
split-row [] h = refl
split-row (c ∷ p) h =
    let other : (c == 10) ≡ false = ground (arith, ==_iff c 10) in rw (other, split-row p h.1) refl

split-join : (ps : List Text) → ps ≢ [] → All IsRow ps → split (join ps (10 ∷ [])) 10 ≡ ps
split-join [] ne h = absurd (ne refl)
split-join (p ∷ []) ne h = split-row p h.0
split-join (p ∷ q ∷ ps) ne h =
    split-append-end p (join (q ∷ ps) (10 ∷ [])) h.0
    ∙ ap (λ (t : List Text). p ∷ t) (split-join (q ∷ ps) (λ e. cc e) h.1)

trim_right_cons-keep :
    (p : ℕ → Bool) (c : ℕ) (s : Text) → p c ≡ false → trim_right_cons p c s ≡ c ∷ s
trim_right_cons-keep p c [] h = rw h refl
trim_right_cons-keep p c (d ∷ s) h = refl

-- A text that is trimmed keeps its beginning up to a character that is not trimmed.
trim_right-keep :
    (p : ℕ → Bool) (a : Text) (c : ℕ) (s : Text)
    → p c ≡ false
    → trim_right p (a ++ (c ∷ s)) ≡ a ++ (c ∷ trim_right p s)
trim_right-keep p [] c s h = trim_right_cons-keep p c (trim_right p s) h
trim_right-keep p (d ∷ []) c s h = rw (trim_right_cons-keep p c (trim_right p s) h) refl
trim_right-keep p (d ∷ e ∷ a) c s h = rw (trim_right-keep p (e ∷ a) c s h) refl

has_prefix-append : (p s : Text) → has_prefix (p ++ s) p ≡ true
has_prefix-append [] s = refl
has_prefix-append (c ∷ p) s = rw (==_refl c, has_prefix-append p s) refl

abbrev file_of : List Text → Result Text Text
file_of lines = ok (join lines (10 ∷ []))

-- a name of a variable: one row that does not begin with white space
abbrev pub IsKey : ⦃u : Unicode⦄ → Text → Type 0
IsKey [] = true ≡ false
IsKey (c ∷ s) = (is_space c ≡ false) × IsRow (c ∷ s)

-- `out` is `lines` with the first line that assigns to the key replaced by an assignment of the token,
-- or with the assignment behind them if no line assigns to the key.
abbrev pub Replaced : ⦃u : Unicode⦄ → Text → Text → List Text → List Text → Type 0
Replaced key token lines out =
    (before : List Text) × (after : List Text) × All (λ line. assigns key line ≡ false) before
    × (out ≡ before ++ ((assignment key ++ token) ∷ after))
    × (((lines ≡ before) × (after ≡ []))
        ⊎ ((line : Text) × (assigns key line ≡ true) × (lines ≡ before ++ (line ∷ after))))

module _ ⦃u : Unicode⦄ where
  trim_space-keep :
      (c : ℕ) (s t : Text)
      → is_space c ≡ false
      → trim_space ((c ∷ s) ++ (b'=' ∷ t)) ≡ (c ∷ s) ++ (b'=' ∷ trim_right is_space t)
  unfolding trim_space is_space
  trim_space-keep c s t h = rw h (trim_right-keep is_space (c ∷ s) b'=' t refl)

  pub assigns-own : (key token : Text) → IsKey key → assigns key (assignment key ++ token) ≡ true
  assigns-own [] token h = cc h
  assigns-own (c ∷ s) token h =
      let kept = trim_right is_space token in
      ap (λ (t : Text). has_prefix (trim_space t) (assignment (c ∷ s)))
        (append_assoc (c ∷ s) (codes "=") token)
      ∙ ap (λ (t : Text). has_prefix t (assignment (c ∷ s)))
          (trim_space-keep c s token h.0 ∙ sym (append_assoc (c ∷ s) (codes "=") kept))
      ∙ has_prefix-append (assignment (c ∷ s)) kept

  key-IsRow : (key : Text) → IsKey key → IsRow key
  key-IsRow [] h = tt
  key-IsRow (c ∷ s) h = h.1

  module _ (key : Text) (is_key : IsKey key) where
    replace_line-twice :
        (old new : Text) (lines : List Text)
        → replace_line key new (replace_line key old lines) ≡ replace_line key new lines
    unfolding replace_line
    replace_line-twice old new [] = rw (assigns-own key old is_key) refl
    replace_line-twice old new (line ∷ lines) = elim (Bool-cases (assigns key line)) [
      | inl e ↦ rw (e, assigns-own key old is_key) refl
      | inr e ↦
          rw (e, replace_line, e)
            (ap (λ (t : List Text). line ∷ t) (replace_line-twice old new lines))
    ]

    assignment-IsRow : (token : Text) → IsRow token → IsRow (assignment key ++ token)
    assignment-IsRow token h =
        All-append _ (assignment key) token
          (All-append _ key (codes "=") (key-IsRow key is_key) (omega arith)) h

    replace_line-IsRow :
        (token : Text) (lines : List Text)
        → IsRow token
        → All IsRow lines
        → All IsRow (replace_line key token lines)
    unfolding replace_line
    replace_line-IsRow token [] h k = (assignment-IsRow token h, tt)
    replace_line-IsRow token (line ∷ lines) h k =
        if_elim (All IsRow) (assigns key line) (λ e. (assignment-IsRow token h, k.1))
          (λ e. (k.0, replace_line-IsRow token lines h k.1))

  replace_line-ne : (key token : Text) (lines : List Text) → replace_line key token lines ≢ []
  unfolding replace_line
  replace_line-ne key token [] h = cc h
  replace_line-ne key token (line ∷ lines) h = ground arith

  replace_line-Replaced :
      (key token : Text) (lines : List Text)
      → Replaced key token lines (replace_line key token lines)
  unfolding replace_line
  replace_line-Replaced key token [] = ([], [], tt, refl, inl (refl, refl))
  replace_line-Replaced key token (line ∷ lines) =
      if_elim (Replaced key token (line ∷ lines)) (assigns key line)
        (λ e. ([], lines, tt, refl, inr (line, e, refl)))
        (λ e.
          let (before, after, other, out, from) = replace_line-Replaced key token lines in
          (
            line ∷ before,
            after,
            (e, other),
            ap (λ (t : List Text). line ∷ t) out,
            elim from [
              | inl (all, none_after) ↦ inl (ap (λ (t : List Text). line ∷ t) all, none_after)
              | inr (old, a, split_at) ↦ inr (old, a, ap (λ (t : List Text). line ∷ t) split_at)
            ],
          ))

  pub rewritten-rows :
      (key token content : Text)
      → IsKey key
      → IsRow token
      → split (rewritten key token content) 10 ≡ replace_line key token (split content 10)
  rewritten-rows key token content k h =
      split-join (replace_line key token (split content 10))
        (replace_line-ne key token (split content 10))
        (replace_line-IsRow key k token (split content 10) h (split-IsRow content))

  -- The lines of the file that is written are those of the file that was read, with the first one that
  -- assigns to the key replaced by the assignment of the token, or with that assignment behind them if
  -- there is none. The key and the token are of one line, and the key does not begin with white space.
  pub persist_refresh_token-Replaced :
      (content key token written : Text)
      → IsKey key
      → IsRow token
      → persist_refresh_token (ok content) key token ≡ ok written
      → Replaced key token (split content 10) (split written 10)
  unfolding persist_refresh_token
  persist_refresh_token-Replaced content key token written k h e =
      let same : rewritten key token content ≡ written = ground arith in
      rw (← same, rewritten-rows key token content k h)
        (replace_line-Replaced key token (split content 10))

  -- Writing a second token for the same key leaves the file as if the second one alone had been
  -- written, if the key and the first token are of one line and the key does not begin with white space.
  pub persist_refresh_token-twice :
      (r : Result Text Text) (key old new : Text)
      → IsKey key
      → IsRow old
      → persist_refresh_token (persist_refresh_token r key old) key new
        ≡ persist_refresh_token r key new
  unfolding persist_refresh_token
  persist_refresh_token-twice (err e) key old new k h = refl
  persist_refresh_token-twice (ok content) key old new k h = ap file_of (
      ap (replace_line key new) (rewritten-rows key old content k h)
      ∙ replace_line-twice key k old new (split content 10))
