-- ===== src/Recipient/Sound.antt =====
-- About findRecipient of handlers/store.go: which address it returns, and when it returns none.
use tempmail.Prelude.{
  ◌≡◌, ◌≢◌, refl, sym, ap, ◌∙◌, ◌⊎◌, inl, inr, Bool, true, ◌||◌, some, List, [], ◌∷◌, ◌++◌, any,
  Any, Any-map, Bool-cases, Option-cases, or-true, arith,
}
use tempmail.Text.{codes, Text, Unicode, to_lower, trim_space}
use tempmail.Text.Laws.{has_suffix→append}
use tempmail.Recipient.{
  Envelope, exact_match, sub_match, at_domain, dot_domain, extract_addresses, find_in,
  find_in_headers, recipient_headers, find_recipient,
}

-- An address on a domain, or one whose domain ends in a dot and a domain.
abbrev pub IsOn : Text → Text → Type 0
IsOn addr domain =
    ((q : Text) × (addr ≡ q ++ at_domain domain)) ⊎ ((q : Text) × (addr ≡ q ++ dot_domain domain))

abbrev pub matches : List Text → Text → Bool
matches domains addr = exact_match domains addr || sub_match domains addr

any→Any : {A : Type 0} (p : A → Bool) (xs : List A) → any p xs ≡ true → Any (λ x. p x ≡ true) xs
any→Any p [] h = cc
any→Any p (x ∷ xs) h = elim (or-true (p x) (any p xs) h) [
  | inl e ↦ inl e
  | inr e ↦ inr (any→Any p xs e)
]

-- What matches is on one of the domains.
pub matches→IsOn :
    (domains : List Text) (addr : Text) → matches domains addr ≡ true → Any (IsOn addr) domains
matches→IsOn domains addr h = elim (or-true (exact_match domains addr) (sub_match domains addr) h) [
  | inl e ↦
      Any-map domains (λ domain k. inl (has_suffix→append addr (at_domain domain) k))
        (any→Any _ domains e)
  | inr e ↦
      Any-map domains (λ domain k. inr (has_suffix→append addr (dot_domain domain) k))
        (any→Any _ domains e)
]

module _ ⦃u : Unicode⦄ (domains : List Text) where
  find_in_sound :
      (addrs : List Text) (addr : Text)
      → find_in domains addrs ≡ some addr
      → matches domains addr ≡ true
  unfolding find_in
  find_in_sound [] addr h = cc
  find_in_sound (raw ∷ rest) addr h =
      elim (Bool-cases (matches domains (to_lower (trim_space raw)))) [
        | inl e ↦ ground arith
        | inr e ↦ find_in_sound rest addr (ground arith)
      ]

  find_in_headers_sound :
      (headers : List Text)
      → find_in_headers domains headers ≢ []
      → matches domains (find_in_headers domains headers) ≡ true
  unfolding find_in_headers
  find_in_headers_sound [] h = absurd (h refl)
  find_in_headers_sound (header ∷ rest) h =
      elim (Option-cases (find_in domains (extract_addresses header))) [
        | inl e ↦
            rw (e, find_in_headers) (find_in_headers_sound rest (rw (e, find_in_headers) at h))
        | inr (addr, e) ↦ rw (e, find_in_headers) (find_in_sound (extract_addresses header) addr e)
      ]

  -- the address stands in one of the fields, but for white space around it and the case
  abbrev pub Stands : Text → List Text → Type 0
  Stands addr headers =
      Any (λ header. Any (λ raw. to_lower (trim_space raw) ≡ addr) (extract_addresses header))
        headers

  find_in_stands :
      (addrs : List Text) (addr : Text)
      → find_in domains addrs ≡ some addr
      → Any (λ raw. to_lower (trim_space raw) ≡ addr) addrs
  unfolding find_in
  find_in_stands [] addr h = cc
  find_in_stands (raw ∷ rest) addr h =
      elim (Bool-cases (matches domains (to_lower (trim_space raw)))) [
        | inl e ↦ inl (ground arith)
        | inr e ↦ inr (find_in_stands rest addr (ground arith))
      ]

  find_in_headers-Stands :
      (headers : List Text) (addr : Text)
      → find_in_headers domains headers ≡ addr
      → addr ≢ []
      → Stands addr headers
  unfolding find_in_headers
  find_in_headers-Stands [] addr q h = absurd (h (sym q))
  find_in_headers-Stands (header ∷ rest) addr q h =
      elim (Option-cases (find_in domains (extract_addresses header))) [
        | inl e ↦ inr (find_in_headers-Stands rest addr (rw (e, find_in_headers) at q) h)
        | inr (found, e) ↦
            let same : found ≡ addr = rw (e, find_in_headers) at q in
            inl (find_in_stands (extract_addresses header) addr (e ∙ ap some same))
      ]

  -- The recipient that is found, if it is not empty, is on one of the domains, and stands in one of
  -- the four header fields, but for white space around it and the case.
  pub find_recipient_sound :
      (env : Envelope)
      → find_recipient env domains ≢ []
      → Any (IsOn (find_recipient env domains)) domains
        × Stands (find_recipient env domains) (recipient_headers env)
  unfolding find_recipient
  find_recipient_sound env h = (
    matches→IsOn domains _ (find_in_headers_sound (recipient_headers env) h),
    find_in_headers-Stands (recipient_headers env) _ refl h,
  )

  -- One address in the field To that matches is the recipient.
  pub find_in_one :
      (env : Envelope) (to : Text)
      → extract_addresses (env.header (codes "To")) ≡ to ∷ []
      → matches domains (to_lower (trim_space to)) ≡ true
      → find_recipient env domains ≡ to_lower (trim_space to)
  unfolding find_recipient find_in_headers find_in
  find_in_one env to e h = rw (e, h, find_in_headers, find_in)
