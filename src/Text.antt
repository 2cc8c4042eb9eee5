-- ===== src/Text.antt =====
-- Go's strings as lists of code points, and the functions of the package strings that the program
-- calls. A string is valid UTF-8 text here; an index is a position in the list, and every index
-- that the program takes is that of an ASCII character, at which it cuts the string.
pub mod Laws
use Prim.Native.Char.{code}
use Prim.Native.String.{String}
use tempmail.Prelude.{
  ℕ, zero, suc, ◌+◌, ◌-◌, Bool, true, false, not, ◌&&◌, ◌||◌, Option, none, some, List, [], ◌∷◌,
  ◌++◌, map, ◌≡◌, ltb, leb, ◌==◌, if◌then◌else◌, filter, any,
}

abbrev pub Text : Type 0
Text = List ℕ

abbrev pub codes : String → Text
codes String.[] = []
codes (String.◌∷◌ c s) = code c ∷ codes s

-- What package unicode says of the code points from 128 on; it is read only there.
pub record Unicode : Type 0 where
  pub lower : ℕ → ℕ
  pub space : ℕ → Bool

-- s == t
abbrev pub same : Text → Text → Bool
same [] [] = true
same [] (d ∷ t) = false
same (c ∷ s) [] = false
same (c ∷ s) (d ∷ t) = c == d && same s t

-- strings.HasPrefix(s, p)
abbrev pub has_prefix : Text → Text → Bool
has_prefix s [] = true
has_prefix [] (d ∷ p) = false
has_prefix (c ∷ s) (d ∷ p) = c == d && has_prefix s p

-- strings.HasSuffix(s, p)
abbrev pub has_suffix : Text → Text → Bool
has_suffix [] p = same [] p
has_suffix (c ∷ s) p = same (c ∷ s) p || has_suffix s p

-- strings.Index(s, c) and strings.IndexByte(s, c) for one character; `none` is -1
abbrev pub index : Text → ℕ → Option ℕ
index [] c = none
index (d ∷ s) c =
    if d == c then some 0 else elim (index s c) [ none ↦ none | some i ↦ some (suc i) ]

-- strings.LastIndex(s, c) and strings.LastIndexByte(s, c) for one character; `none` is -1
abbrev pub last_index : Text → ℕ → Option ℕ
last_index [] c = none
last_index (d ∷ s) c = elim (last_index s c) [
  | none ↦ (if d == c then some 0 else none)
  | some i ↦ some (suc i)
]

-- strings.TrimPrefix(s, p)
abbrev pub trim_prefix : Text → Text → Text
trim_prefix s [] = s
trim_prefix [] (d ∷ p) = []
trim_prefix (c ∷ s) (d ∷ p) =
    let cut = trim_prefix s p in if has_prefix (c ∷ s) (d ∷ p) then cut else c ∷ s

abbrev pub trim_left : (ℕ → Bool) → Text → Text
trim_left p [] = []
trim_left p (c ∷ s) = let rest = trim_left p s in if p c then rest else c ∷ s

abbrev pub trim_right_cons : (ℕ → Bool) → ℕ → Text → Text
trim_right_cons p c [] = if p c then [] else c ∷ []
trim_right_cons p c (d ∷ s) = c ∷ d ∷ s

abbrev pub trim_right : (ℕ → Bool) → Text → Text
trim_right p [] = []
trim_right p (c ∷ s) = trim_right_cons p c (trim_right p s)

-- strings.Trim(s, cutset), the cutset as a test
abbrev pub trim : (ℕ → Bool) → Text → Text
trim p s = trim_right p (trim_left p s)

-- strings.ReplaceAll(s, c, "") for one character
abbrev pub remove_all : ℕ → Text → Text
remove_all c s = filter (λ d. not (d == c)) s

abbrev pub split_cons : ℕ → List Text → List Text
split_cons c [] = (c ∷ []) ∷ []
split_cons c (p ∷ ps) = (c ∷ p) ∷ ps

-- strings.Split(s, sep) for one character
abbrev pub split : Text → ℕ → List Text
split [] sep = [] ∷ []
split (c ∷ s) sep = let rest = split s sep in if c == sep then [] ∷ rest else split_cons c rest

-- strings.Join(parts, sep)
abbrev pub join : List Text → Text → Text
join [] sep = []
join (p ∷ []) sep = p
join (p ∷ q ∷ ps) sep = p ++ (sep ++ join (q ∷ ps) sep)

-- slices.Contains over strings, as the loops of the program write it out
abbrev pub contains : List Text → Text → Bool
contains xs s = any (λ d. same d s) xs

-- unicode.IsSpace below 128: \t \n \v \f \r and the blank
abbrev ascii_space : ℕ → Bool
ascii_space c = (leb 9 c && leb c 13) || c == 32

abbrev ascii_lower : ℕ → ℕ
ascii_lower c = if leb b'A' c && leb c b'Z' then c + 32 else c

module _ ⦃u : Unicode⦄ where
  -- unicode.IsSpace
  unfoldable pub is_space : ℕ → Bool
  is_space c = if ltb c 128 then ascii_space c else u.space c

  -- unicode.ToLower
  unfoldable pub lower : ℕ → ℕ
  lower c = if ltb c 128 then ascii_lower c else u.lower c

  -- strings.TrimSpace
  unfoldable pub trim_space : Text → Text
  unfolding is_space
  trim_space s = trim is_space s

  -- strings.ToLower
  unfoldable pub to_lower : Text → Text
  unfolding lower
  to_lower s = map lower s
