-- ===== src/Text/Laws.antt =====
-- What the string functions decide and keep.
use tempmail.Prelude.{
  Any, drop, Option-cases, zero, suc, ◌≤◌, ◌≢◌, false, some, length, take, ℕ, Bool, true, List, [],
  ◌∷◌, ◌++◌, ◌≡◌, inl, inr, refl, ap, ◌↔◌, arith, ◌==◌, ==_iff, ==_refl, Bool-cases, or-true,
  or_true_right, and-true, All,
}
use tempmail.Text.{
  Text, same, has_suffix, trim_left, trim_right, trim_right_cons, trim, contains, index, last_index,
}

-- `same` decides equality.
pub same→≡ : (s t : Text) → same s t ≡ true → s ≡ t
same→≡ [] [] h = refl
same→≡ [] (d ∷ t) h = cc
same→≡ (c ∷ s) [] h = cc
same→≡ (c ∷ s) (d ∷ t) h =
    let (e, r) = and-true (c == d) (same s t) h in cc ((==_iff c d).0 e, same→≡ s t r)

pub same_refl : (s : Text) → same s s ≡ true
same_refl [] = refl
same_refl (c ∷ s) = rw (==_refl c) (same_refl s)

pub same_eq : {s t : Text} → s ≡ t → same s t ≡ true
same_eq {s} {t} e = rw e (same_refl t)

-- `same` is the equality of texts, in the form that `ground` reads at a pair.
pub same_iff : (s t : Text) → (same s t ≡ true) ↔ (s ≡ t)
same_iff s t = (same→≡ s t, same_eq)

pub same_comm : (s t : Text) → same s t ≡ same t s
same_comm s t = ground (arith, same_iff s t, same_iff t s)

-- A text with a suffix is what stands before it, and the suffix.
pub has_suffix→append : (s p : Text) → has_suffix s p ≡ true → (q : Text) × (s ≡ q ++ p)
has_suffix→append [] p h = ([], same→≡ [] p h)
has_suffix→append (c ∷ s) p h = elim (or-true (same (c ∷ s) p) (has_suffix s p) h) [
  | inl e ↦ ([], same→≡ (c ∷ s) p e)
  | inr e ↦ let (q, r) = has_suffix→append s p e in (c ∷ q, ap (λ (t : Text). c ∷ t) r)
]

pub has_suffix_refl : (p : Text) → has_suffix p p ≡ true
has_suffix_refl [] = refl
has_suffix_refl (c ∷ p) = rw (same_refl (c ∷ p))

pub has_suffix-append : (q p : Text) → has_suffix (q ++ p) p ≡ true
has_suffix-append [] p = has_suffix_refl p
has_suffix-append (c ∷ q) p = or_true_right (same (c ∷ (q ++ p)) p) _ (has_suffix-append q p)

-- A text that a test holds of nowhere is not trimmed.
pub All-trim_left : (P : ℕ → Type 0) (p : ℕ → Bool) (s : Text) → All P s → All P (trim_left p s)
All-trim_left P p [] h = tt
All-trim_left P p (c ∷ s) h = elim (Bool-cases (p c)) [
  | inl e ↦ rw e (All-trim_left P p s h.1)
  | inr e ↦ rw e h
]

All-trim_right_cons :
    (P : ℕ → Type 0) (p : ℕ → Bool) (c : ℕ) (s : Text)
    → P c
    → All P s
    → All P (trim_right_cons p c s)
All-trim_right_cons P p c [] hc h = elim (Bool-cases (p c)) [
  | inl e ↦ rw e tt
  | inr e ↦ rw e (hc, tt)
]
All-trim_right_cons P p c (d ∷ s) hc h = (hc, h)

pub All-trim_right : (P : ℕ → Type 0) (p : ℕ → Bool) (s : Text) → All P s → All P (trim_right p s)
All-trim_right P p [] h = tt
All-trim_right P p (c ∷ s) h =
    All-trim_right_cons P p c (trim_right p s) h.0 (All-trim_right P p s h.1)

pub All-trim : (P : ℕ → Type 0) (p : ℕ → Bool) (s : Text) → All P s → All P (trim p s)
All-trim P p s h = All-trim_right P p (trim_left p s) (All-trim_left P p s h)

-- The domains of a list that contains a text hold it.
pub contains→≡ :
    (P : Text → Type 0) (xs : List Text) (s : Text) → contains xs s ≡ true → All P xs → P s
contains→≡ P [] s h all = cc
contains→≡ P (d ∷ xs) s h all = elim (or-true (same d s) (contains xs s) h) [
  | inl e ↦ rw (same→≡ d s e) at all.0
  | inr e ↦ contains→≡ P xs s e all.1
]

-- The first occurrence of a character behind a text that lacks it.
pub index-append :
    (c : ℕ) (p r : Text) → All (λ d. d ≢ c) p → index (p ++ c ∷ r) c ≡ some (length p)
index-append c [] r h = rw (==_refl c)
index-append c (d ∷ p) r h = ground (arith, ==_iff d c, index-append c p r h.1)

pub take-length-append {ℓ} : {A : Type ℓ} (p r : List A) → take (length p) (p ++ r) ≡ p
take-length-append [] r = refl
take-length-append (d ∷ p) r = ap (λ t. d ∷ t) (take-length-append p r)

-- What is cut off holds nothing new.
pub All-take : (P : ℕ → Type 0) (n : ℕ) (s : Text) → All P s → All P (take n s)
All-take P zero s h = tt
All-take P (suc n) [] h = tt
All-take P (suc n) (c ∷ s) h = (h.0, All-take P n s h.1)

pub length-take-le : (n : ℕ) (s : Text) → length (take n s) ≤ n
length-take-le zero s = omega arith
length-take-le (suc n) [] = omega arith
length-take-le (suc n) (c ∷ s) = omega (arith, length-take-le n s)

-- The first character of a text, if there is one, fails the test.
abbrev pub Starts : (ℕ → Bool) → Text → Type 0
Starts p [] = Unit {0}
Starts p (c ∷ s) = p c ≡ false

-- The last character of a text, if there is one, fails the test.
abbrev pub Ends : (ℕ → Bool) → Text → Type 0
Ends p [] = Unit {0}
Ends p (c ∷ []) = p c ≡ false
Ends p (c ∷ d ∷ s) = Ends p (d ∷ s)

Starts-trim_left : (p : ℕ → Bool) (s : Text) → Starts p (trim_left p s)
Starts-trim_left p [] = tt
Starts-trim_left p (c ∷ s) = elim (Bool-cases (p c)) [
  | inl e ↦ rw e (Starts-trim_left p s)
  | inr e ↦ rw (e, e) refl
]

Ends-trim_right_cons : (p : ℕ → Bool) (c : ℕ) (s : Text) → Ends p s → Ends p (trim_right_cons p c s)
Ends-trim_right_cons p c [] h = elim (Bool-cases (p c)) [ inl e ↦ rw e tt | inr e ↦ rw (e, e) refl ]
Ends-trim_right_cons p c (d ∷ s) h = h

Ends-trim_right : (p : ℕ → Bool) (s : Text) → Ends p (trim_right p s)
Ends-trim_right p [] = tt
Ends-trim_right p (c ∷ s) = Ends-trim_right_cons p c (trim_right p s) (Ends-trim_right p s)

Starts-trim_right_cons :
    (p : ℕ → Bool) (c : ℕ) (s : Text) → p c ≡ false → Starts p (trim_right_cons p c s)
Starts-trim_right_cons p c [] h = rw (h, h) refl
Starts-trim_right_cons p c (d ∷ s) h = h

Starts-trim_right : (p : ℕ → Bool) (s : Text) → Starts p s → Starts p (trim_right p s)
Starts-trim_right p [] h = tt
Starts-trim_right p (c ∷ s) h = Starts-trim_right_cons p c (trim_right p s) h

-- A trimmed text neither begins nor ends with a character of the cutset.
pub trim_lem : (p : ℕ → Bool) (s : Text) → Starts p (trim p s) × Ends p (trim p s)
trim_lem p s =
    (Starts-trim_right p (trim_left p s) (Starts-trim_left p s), Ends-trim_right p (trim_left p s))

pub Starts-take : (p : ℕ → Bool) (n : ℕ) (s : Text) → Starts p s → Starts p (take n s)
Starts-take p zero s h = tt
Starts-take p (suc n) [] h = tt
Starts-take p (suc n) (c ∷ s) h = h

-- A character that is found last splits the text there.
pub last_index-split :
    (s : Text) (c i : ℕ) → last_index s c ≡ some i → s ≡ take i s ++ c ∷ drop (suc i) s
last_index-split [] c i h = cc
last_index-split (d ∷ s) c zero h = elim (Option-cases (last_index s c)) [
  | inl e ↦ ground (arith, ==_iff d c)
  | inr (j, e) ↦ ground arith
]
last_index-split (d ∷ s) c (suc i) h = elim (Option-cases (last_index s c)) [
  | inl e ↦ ground arith
  | inr (j, e) ↦ ap (λ (t : Text). d ∷ t) (last_index-split s c i (ground arith))
]

-- A member of a list of texts is one of them.
pub contains→Any : (xs : List Text) (s : Text) → contains xs s ≡ true → Any (λ d. d ≡ s) xs
contains→Any [] s h = cc
contains→Any (d ∷ xs) s h = elim (or-true (same d s) (contains xs s) h) [
  | inl e ↦ inl (same→≡ d s e)
  | inr e ↦ inr (contains→Any xs s e)
]
