-- ===== src/Config/Values.antt =====
-- Reading one variable: a text, an integer, a truth value, and the list of domains.
use tempmail.Prelude.{
  ℕ, ◌+◌, ◌-◌, ◌*◌, ◌^◌, Bool, true, false, not, ◌&&◌, Option, none, some, List, [], ◌∷◌, leb, ◌==◌,
  is_empty, if◌then◌else◌,
}
use tempmail.Prelude.Int.{ℤ, pos, negsuc}
use tempmail.Text.{Text, Unicode, codes, same, contains, split, trim_prefix, trim_space, to_lower}
use tempmail.Models.{Result, ok, err}

abbrev pub Env : Type 0
Env = Text → Text

-- the errors of Load
pub data ConfigError : Type 0 where
  invalid_integer : Text → ConfigError
  unknown_provider : Text → ConfigError
  api_key_required domain_required : ConfigError
  graph_credentials_required graph_account_required : ConfigError
  imap_host_required oauth_credentials_required imap_login_required : ConfigError

-- strconv.Atoi: digits behind an optional sign, within an int64
digits : ℕ → Text → Option ℕ
digits n [] = some n
digits n (c ∷ s) = elim (leb b'0' c && leb c b'9') [
  | true ↦ digits (n * 10 + (c - b'0')) s
  | false ↦ none
]

number : Text → Option ℕ
unfolding digits
number [] = none
number (c ∷ s) = digits 0 (c ∷ s)

at_least : ℕ → Option ℤ
at_least n = if leb n (2 ^ 63 - 1) then some (pos n) else none

-- -n
negative : ℕ → Option ℤ
negative n = if n == 0 then some (pos 0) else if leb n (2 ^ 63) then some (negsuc (n - 1)) else none

unfoldable pub atoi : Text → Option ℤ
unfolding number at_least negative
atoi [] = none
atoi (c ∷ s) =
    if c == b'-'
    then elim (number s) [ some n ↦ negative n | none ↦ none ]
    else if c == b'+'
    then elim (number s) [ some n ↦ at_least n | none ↦ none ]
    else elim (number (c ∷ s)) [ some n ↦ at_least n | none ↦ none ]

module _ ⦃u : Unicode⦄ where
  unfoldable pub get : Env → Text → Text → Text
  get env key def = let v = trim_space (env key) in if is_empty v then def else v

  unfoldable pub get_int : Env → Text → ℤ → Result ConfigError ℤ
  unfolding atoi
  get_int env key def =
      let v = trim_space (env key) in
      if is_empty v
      then ok def
      else elim (atoi v) [ some n ↦ ok n | none ↦ err (invalid_integer key) ]

  unfoldable pub get_bool : Env → Text → Bool → Bool
  get_bool env key def =
      let v = to_lower (trim_space (env key)) in
      if contains (codes "1" ∷ codes "true" ∷ codes "yes" ∷ codes "on" ∷ []) v
      then true
      else if contains (codes "0" ∷ codes "false" ∷ codes "no" ∷ codes "off" ∷ []) v
      then false
      else def

  unfoldable pub domains_of : List Text → List Text
  domains_of [] = []
  domains_of (raw ∷ rest) =
      let more = domains_of rest in
      let d = to_lower (trim_prefix (trim_space raw) (codes "@")) in
      if not (is_empty d) && not (same d (codes "example.com")) then d ∷ more else more

  unfoldable pub parse_domains : Text → List Text
  unfolding domains_of
  parse_domains raw = domains_of (split raw b',')
