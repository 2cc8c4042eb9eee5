-- ===== src/Recipient.antt =====
-- handlers/store.go and handlers/graph_store.go: which address of a message is one of ours.
pub mod Sound
use tempmail.Prelude.{
  ℕ, suc, ◌-◌, Bool, true, false, ◌||◌, Option, none, some, List, [], ◌∷◌, ◌++◌, map, any, ltb,
  take, drop, is_empty, if◌then◌else◌,
}
use tempmail.Text.{Text, Unicode, codes, has_suffix, index, split, trim_space, to_lower, same}

-- enmime.Envelope: the header fields by name, and the two bodies
pub record Envelope : Type 0 where
  pub header : Text → Text
  pub text : Text
  pub html : Text

-- graphAddr and graphRecip have one shape: the address of an `emailAddress` object.
pub record GraphBody : Type 0 where
  pub content_type : Text
  pub content : Text

-- A Graph message; `received_at` is the text of receivedDateTime.
pub record GraphMessage : Type 0 where
  pub id : Text
  pub subject : Text
  pub from : Text
  pub to_recipients : List Text
  pub cc_recipients : List Text
  pub body : GraphBody
  pub received_at : Text

-- s[i:j]
abbrev pub slice : Text → ℕ → ℕ → Text
slice s i j = take (j - i) (drop i s)

-- The address between angle brackets, or the whole part.
bare_from : Text → ℕ → Option ℕ → Text
bare_from part i none = part
bare_from part i (some j) = if ltb i j then slice part (suc i) j else part

bare : Text → Option ℕ → Text
unfolding bare_from
bare part none = part
bare part (some i) = bare_from part i (index part b'>')

-- the suffixes of the addresses on a domain, and of those on a subdomain
abbrev pub at_domain : Text → Text
at_domain domain = b'@' ∷ domain

abbrev pub dot_domain : Text → Text
dot_domain domain = b'.' ∷ domain

abbrev pub exact_match : List Text → Text → Bool
exact_match domains addr = any (λ domain. has_suffix addr (at_domain domain)) domains

abbrev pub sub_match : List Text → Text → Bool
sub_match domains addr = any (λ domain. has_suffix addr (dot_domain domain)) domains

module _ ⦃u : Unicode⦄ where
  extract_parts : List Text → List Text
  unfolding bare
  extract_parts [] = []
  extract_parts (raw ∷ parts) =
      let rest = extract_parts parts in
      let part = trim_space raw in
      if is_empty part then rest else bare part (index part b'<') ∷ rest

  unfoldable pub extract_addresses : Text → List Text
  unfolding extract_parts
  extract_addresses header =
      if is_empty (trim_space header) then [] else extract_parts (split header b',')

  -- the first address of a header field on one of the domains
  find_in : List Text → List Text → Option Text
  find_in domains [] = none
  find_in domains (raw ∷ rest) =
      let addr = to_lower (trim_space raw) in
      let next = find_in domains rest in
      if exact_match domains addr || sub_match domains addr then some addr else next

  find_in_headers : List Text → List Text → Text
  unfolding find_in extract_addresses
  find_in_headers domains [] = []
  find_in_headers domains (header ∷ rest) =
      let next = find_in_headers domains rest in
      elim (find_in domains (extract_addresses header)) [ some addr ↦ addr | none ↦ next ]

  abbrev pub recipient_headers : Envelope → List Text
  recipient_headers env =
      env.header (codes "To")
      ∷ env.header (codes "Delivered-To")
      ∷ env.header (codes "X-Forwarded-To")
      ∷ env.header (codes "X-Original-To")
      ∷ []

  unfoldable pub find_recipient : Envelope → List Text → Text
  unfolding find_in_headers
  find_recipient env domains = find_in_headers domains (recipient_headers env)

  -- the loop of findGraphRecipient over one list of recipients
  find_graph_in : List Text → List Text → Text
  find_graph_in domains [] = []
  find_graph_in domains (raw ∷ rest) =
      let addr = to_lower (trim_space raw) in
      let next = find_graph_in domains rest in if exact_match domains addr then addr else next

  unfoldable pub find_graph_recipient : GraphMessage → List Text → Text
  unfolding find_graph_in
  find_graph_recipient gm domains =
      find_graph_in (map to_lower domains) (gm.to_recipients ++ gm.cc_recipients)

  unfoldable pub split_graph_body : GraphBody → Text × Text
  split_graph_body b =
      if same (to_lower b.content_type) (codes "html") then ([], b.content) else (b.content, [])
