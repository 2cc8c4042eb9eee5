-- ===== src/Storage/Opened.antt =====
-- About storage/db.go: a database that Open returns.
use tempmail.Prelude.{
  ℕ, ◌≡◌, refl, ap, subst, true, false, Option, none, some, List, [], ◌∷◌, ◌++◌, any, ◌==◌, map,
  arith, Bool-cases, inl, inr, if◌then◌else◌,
}
use tempmail.Text.{Text, split, split_cons}
use tempmail.Models.{Result, ok, err}
use tempmail.Storage.{
  pragmas, parameter, encoded, build_dsn, Driver, migrated, pooled, opened, made, open_db,
}

-- what stands behind the first `?`
abbrev pub query_of : Text → Option Text
query_of [] = none
query_of (c ∷ s) = let rest = query_of s in if c == b'?' then some s else rest

-- the file that a DSN names: what stands before the first `?`
abbrev pub file_of : Text → Text
file_of [] = []
file_of (c ∷ s) = let rest = file_of s in if c == b'?' then [] else c ∷ rest

-- the parameters of a DSN, as the parts of its query between `&`
abbrev pub parameters : Option Text → List Text
parameters none = []
parameters (some q) = split q b'&'

split_cons-append :
    (c : ℕ) (p : Text) (ps qs : List Text)
    → split_cons c ((p ∷ ps) ++ qs) ≡ split_cons c (p ∷ ps) ++ qs
split_cons-append c p ps qs = refl

split-some : (s : Text) (sep : ℕ) → (p : Text) × (ps : List Text) × (split s sep ≡ p ∷ ps)
split-some [] sep = ([], [], refl)
split-some (c ∷ s) sep =
    let (p, ps, e) = split-some s sep in
    elim (Bool-cases (c == sep)) [
      | inl k ↦ ([], split s sep, rw k refl)
      | inr k ↦ (c ∷ p, ps, rw (k, e) refl)
    ]

split-append : (s t : Text) (sep : ℕ) → split (s ++ (sep ∷ t)) sep ≡ split s sep ++ split t sep
split-append [] t sep = ground arith
split-append (c ∷ s) t sep = elim (Bool-cases (c == sep)) [
  | inl k ↦ rw (k, split-append s t sep) refl
  | inr k ↦ let (p, ps, e) = split-some s sep in rw (k, split-append s t sep, e) refl
]

query_of-append :
    (s t : Text)
    → any (λ c. c == b'?') s ≡ true
    → (q : Text) × (query_of s ≡ some q) × (query_of (s ++ t) ≡ some (q ++ t))
query_of-append [] t h = absurd (ground arith)
query_of-append (c ∷ s) t h = elim (Bool-cases (c == b'?')) [
  | inl k ↦ (s, rw k refl, rw k refl)
  | inr k ↦ let (q, e, f) = query_of-append s t (ground arith) in (q, rw k e, rw k f)
]

query_of-none :
    (s t : Text)
    → any (λ c. c == b'?') s ≡ false
    → (query_of s ≡ none) × (query_of (s ++ (b'?' ∷ t)) ≡ some t)
query_of-none [] t h = (refl, refl)
query_of-none (c ∷ s) t h =
    let (e, f) = query_of-none s t (ground arith) in
    let other : (c == b'?') ≡ false = ground arith in (rw other e, rw other f)

encoded-split : split encoded b'&' ≡ map parameter pragmas
encoded-split = refl

build_dsn_lem :
    (path : Text)
    → parameters (query_of (build_dsn path)) ≡ parameters (query_of path) ++ map parameter pragmas
unfolding build_dsn
build_dsn_lem path = elim (Bool-cases (any (λ c. c == b'?') path)) [
  | inl k ↦
      let (q, e, f) = query_of-append path (b'&' ∷ encoded) k in
      rw (k, f, e) (split-append q encoded b'&')
  | inr k ↦ let (e, f) = query_of-none path encoded k in rw (k, f, e) refl
]

file_of-append : (s t : Text) → any (λ c. c == b'?') s ≡ true → file_of (s ++ t) ≡ file_of s
file_of-append [] t h = absurd (ground arith)
file_of-append (c ∷ s) t h = elim (Bool-cases (c == b'?')) [
  | inl k ↦ rw k refl
  | inr k ↦ rw (k, file_of-append s t (ground arith)) refl
]

file_of-whole :
    (s t : Text) → any (λ c. c == b'?') s ≡ false → file_of (s ++ (b'?' ∷ t)) ≡ file_of s
file_of-whole [] t h = refl
file_of-whole (c ∷ s) t h =
    let other : (c == b'?') ≡ false = ground arith in
    rw (other, file_of-whole s t (ground arith)) refl

build_dsn-file : (path : Text) → file_of (build_dsn path) ≡ file_of path
unfolding build_dsn
build_dsn-file path = elim (Bool-cases (any (λ c. c == b'?') path)) [
  | inl k ↦ rw k (file_of-append path (b'&' ∷ encoded) k)
  | inr k ↦ rw k (file_of-whole path encoded k)
]

module _ {Handle Pool : Type 0} (drv : Driver Handle Pool) where
  -- The driver opened the database, and its tables were migrated.
  abbrev pub IsOpened : Handle → Result Text Handle → Type 0
  IsOpened db r = (r ≡ ok db) × (drv.migrate db ≡ none)

  migrated-ok :
      (db last : Handle) (e : Option Text)
      → drv.migrate db ≡ e
      → migrated drv db e ≡ ok last
      → (db ≡ last) × (drv.migrate last ≡ none)
  unfolding migrated
  migrated-ok db last none q h =
      let same : db ≡ last = ground arith in (same, subst (λ x. drv.migrate x ≡ none) same q)
  migrated-ok db last (some e) q h = absurd (ground arith)

  pooled-ok :
      (db last : Handle) (r : Result Text Pool)
      → pooled drv db r ≡ ok last
      → (db ≡ last) × (drv.migrate last ≡ none)
  unfolding pooled
  pooled-ok db last (ok pool) h = migrated-ok db last (drv.migrate db) refl h
  pooled-ok db last (err e) h = absurd (ground arith)

  opened-IsOpened :
      (r : Result Text Handle) (last : Handle) → opened drv r ≡ ok last → IsOpened last r
  unfolding opened
  opened-IsOpened (ok db) last h =
      let (same, done) = pooled-ok db last (drv.sql_db db) h in (ap ok same, done)
  opened-IsOpened (err e) last h = absurd (ground arith)

  made-IsOpened :
      (path : Text) (e : Option Text) (db : Handle)
      → made drv path e ≡ ok db
      → (e ≡ none) × IsOpened db (drv.open_dsn (build_dsn path))
  unfolding made
  made-IsOpened path none db h = (refl, opened-IsOpened (drv.open_dsn (build_dsn path)) db h)
  made-IsOpened path (some e) db h = absurd (ground arith)

  -- A database that Open returns was opened by the driver, its tables were migrated, its DSN names
  -- the file of the path, and the parameters of its DSN are those of the path, if the path has any, and then the four pragmas, the enforcement of
  -- foreign keys the last of them.
  pub open_db_lem :
      (path : Text) (db : Handle)
      → open_db drv path ≡ ok db
      → (dsn : Text) × IsOpened db (drv.open_dsn dsn)
        × (file_of dsn ≡ file_of path)
        × (parameters (query_of dsn) ≡ parameters (query_of path) ++ map parameter pragmas)
  unfolding open_db
  open_db_lem path db h =
      (build_dsn path, (made-IsOpened path _ db h).1, build_dsn-file path, build_dsn_lem path)
