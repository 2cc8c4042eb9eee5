-- ===== src/Mailboxes/Names.antt =====
-- About handlers/email.go: the names and addresses that CreateMailbox makes.
use tempmail.Prelude.{
  ℕ, ◌+◌, ◌≤◌, ◌≡◌, ◌≢◌, ◌⊎◌, refl, subst, sym, inl, inr, Bool, true, not, [], ◌∷◌, ◌++◌, take,
  arith, Bool-cases, All, All-map, All-filter, length, is_empty, ◌==◌,
}
use tempmail.Text.{Text, Unicode, trim, trim_space, to_lower, contains}
use tempmail.Text.Laws.{
  All-trim, All-take, length-take-le, Starts, Ends, trim_lem, Starts-take, index-append,
  take-length-append,
}
use tempmail.Models.{Result, ok, >>=-eq-ok}
use tempmail.Inbound.{local_part}
use tempmail.Mailboxes.{
  EmailHandler, CreateMailboxRequest, is_local, is_label, is_capital, is_dot, is_hyphen, clean,
  sanitize_local_part, sanitize_subdomain, random_part, resolve_domain, resolve_name,
  sanitized_name, full_domain, resolve_sub, resolve_address,
}

-- a character other than `@`
abbrev pub IsPlain : ℕ → Type 0
IsPlain c = c ≢ b'@'

clean_lem :
    (keep : ℕ → Bool) (s : Text)
    → ((c : ℕ) → is_capital c ≡ true → keep (c + 32) ≡ true)
    → All (λ c. keep c ≡ true) (clean keep s)
clean_lem keep [] h = tt
clean_lem keep (c ∷ s) h = elim (Bool-cases (keep c)) [
  | inl e ↦ rw e (e, clean_lem keep s h)
  | inr e ↦ elim (Bool-cases (is_capital c)) [
    | inl k ↦ rw (e, k) (h c k, clean_lem keep s h)
    | inr k ↦ rw (e, k) (clean_lem keep s h)
  ]
]

-- For every text, a local part holds only a-z, 0-9, `.`, `_` and `-`, and neither begins nor ends
-- with a dot.
pub sanitize_local_part_lem :
    (s : Text)
    → All (λ c. is_local c ≡ true) (sanitize_local_part s)
      × Starts is_dot (sanitize_local_part s)
      × Ends is_dot (sanitize_local_part s)
unfolding sanitize_local_part
sanitize_local_part_lem s =
    let (starts, ends) = trim_lem is_dot (clean is_local s) in
    (
      All-trim _ is_dot (clean is_local s) (clean_lem is_local s (λ c h. ground arith)),
      starts,
      ends,
    )

-- For every text, a subdomain label holds only a-z, 0-9 and `-`, has at most 63 characters, and
-- does not begin with a hyphen.
pub sanitize_subdomain_lem :
    (s : Text)
    → All (λ c. is_label c ≡ true) (sanitize_subdomain s)
      × (length (sanitize_subdomain s) ≤ 63)
      × Starts is_hyphen (sanitize_subdomain s)
unfolding sanitize_subdomain
sanitize_subdomain_lem s =
    let label = trim is_hyphen (clean is_label s) in
    (
      All-take _ 63 label
          (All-trim _ is_hyphen (clean is_label s) (clean_lem is_label s (λ c h. ground arith))),
      length-take-le 63 label,
      Starts-take is_hyphen 63 label (trim_lem is_hyphen (clean is_label s)).0,
    )

-- The local part of an address is what was put before the `@`.
pub local_part-address :
    (name domain : Text) → All IsPlain name → local_part (name ++ (b'@' ∷ domain)) ≡ name
local_part-address name domain h =
    rw (index-append b'@' name domain h, local_part) (take-length-append name (b'@' ∷ domain))

IsPlain-local : (c : ℕ) → is_local c ≡ true → IsPlain c
IsPlain-local c h e = ground arith

is_empty-nil : (s : Text) → is_empty s ≡ true → s ≡ []
is_empty-nil [] e = refl
is_empty-nil (c ∷ s) e = absurd (cc e)

ok-inj : {E A : Type 0} (x y : A) → ◌≡◌ {A = Result E A} (ok x) (ok y) → x ≡ y
ok-inj x y e = cc e

module _ ⦃u : Unicode⦄ (h : EmailHandler) (req : CreateMailboxRequest) where
  resolve_name-IsPlain :
      (uuid name : Text) → All IsPlain uuid → resolve_name h req uuid ≡ ok name → All IsPlain name
  unfolding resolve_name sanitized_name
  resolve_name-IsPlain uuid name plain e =
      let wanted = to_lower (trim_space req.name) in
      elim (Bool-cases (is_empty wanted)) [
        | inl x ↦
            let made : random_part uuid 10 ≡ name = ground arith in
            rw made at (
              All-filter IsPlain (λ d. not (d == b'-')) (take 10 uuid)
                (All-take IsPlain 10 uuid plain))
        | inr x ↦
            let made : sanitize_local_part wanted ≡ name = ground arith in
            rw made at (
              All-map (sanitize_local_part wanted) IsPlain-local (sanitize_local_part_lem wanted).0)
      ]

  -- the domain of the service, or one of its list that the request names
  abbrev pub IsChosen : Text → Type 0
  IsChosen domain =
      ((req.domain ≡ []) × (domain ≡ h.domain))
      ⊎ ((domain ≡ to_lower (trim_space req.domain)) × (contains h.domains domain ≡ true))

  -- a domain that is chosen, or one label and a dot before it where subdomains are allowed
  abbrev pub IsGranted : Text → Type 0
  IsGranted full =
      (domain : Text) × IsChosen domain
      × (((req.subdomain ≡ []) × (full ≡ domain))
          ⊎ ((h.allow_subdomains ≡ true) × (sub : Text) × (full ≡ sub ++ (b'.' ∷ domain))))

  resolve_domain-IsChosen : (domain : Text) → resolve_domain h req ≡ ok domain → IsChosen domain
  unfolding resolve_domain
  resolve_domain-IsChosen domain e =
      let named = to_lower (trim_space req.domain) in
      elim (Bool-cases (is_empty req.domain)) [
        | inl x ↦ inl (is_empty-nil req.domain x, sym (ok-inj _ _ (rw x at e)))
        | inr x ↦ elim (Bool-cases (contains h.domains named)) [
          | inl y ↦
              let same : named ≡ domain = ok-inj _ _ (rw (x, y) at e) in
              inr (sym same, subst (λ t. contains h.domains t ≡ true) same y)
          | inr y ↦ absurd (ground arith)
        ]
      ]

  full_domain-IsGranted :
      (sub domain full : Text)
      → IsChosen domain
      → full_domain h req sub domain ≡ ok full
      → IsGranted full
  unfolding full_domain
  full_domain-IsGranted sub domain full chosen e = elim (Bool-cases (is_empty req.subdomain)) [
    | inl x ↦ (domain, chosen, inl (is_empty-nil req.subdomain x, sym (ok-inj _ _ (rw x at e))))
    | inr x ↦ elim (Bool-cases h.allow_subdomains) [
      | inl y ↦
          let (label, _, built) = >>=-eq-ok (resolve_sub h req sub) _ (rw (x, y) at e) in
          (domain, chosen, inr (y, label, sym (ok-inj _ _ built)))
      | inr y ↦ absurd (ground arith)
    ]
  ]

  pub resolve_address_lem :
      (uuid sub name address : Text)
      → All IsPlain uuid
      → resolve_address h req uuid sub ≡ ok (name, address)
      → (full : Text) × IsGranted full
        × (address ≡ name ++ (b'@' ∷ full))
        × (name ≡ local_part address)
  unfolding resolve_address
  resolve_address_lem uuid sub name address plain e =
      let (domain, chosen, e₁) = >>=-eq-ok (resolve_domain h req) _ e in
      let (name', named, e₂) = >>=-eq-ok (resolve_name h req uuid) _ e₁ in
      let (full, whole, e₃) = >>=-eq-ok (full_domain h req sub domain) _ e₂ in
      let same_name : name' ≡ name = ground arith in
      let built : address ≡ name ++ (b'@' ∷ full) = ground arith in
      (
        full,
        full_domain-IsGranted sub domain full (resolve_domain-IsChosen domain chosen) whole,
        built,
        rw built (
            sym (
              local_part-address name full
                (rw same_name at (resolve_name-IsPlain uuid name' plain named)))),
      )
