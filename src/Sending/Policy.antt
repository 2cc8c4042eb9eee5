-- ===== src/Sending/Policy.antt =====
-- About handlers/send.go: what is handed to the sender.
use tempmail.Prelude.{
  ◌≡◌, ◌≢◌, refl, sym, ap, ◌∙◌, take, Any-map, true, List, [], ◌∷◌, ◌++◌, All, Any, is_empty,
  Bool-cases, Option-cases, inl, inr, arith, drop, suc,
}
use tempmail.Text.{Text, Unicode, trim_space, to_lower, last_index, contains}
use tempmail.Text.Laws.{last_index-split, contains→Any}
use tempmail.Models.{Result, ok, err}
use tempmail.Compose.{Sources, build_message}
use tempmail.Sending.{
  SendRequest, SendHandler, Delivery, sender_address, domain_listed, domain_allowed,
  clean_recipients, chosen_from, composed, checked, prepare,
}

-- An address that is not empty and stands in its canonical form.
abbrev pub IsCanonical : ⦃u : Unicode⦄ → Text → Type 0
IsCanonical a = (a ≢ []) × ((raw : Text) × (a ≡ to_lower (trim_space raw)))

module _ ⦃u : Unicode⦄ where
  clean_recipients-IsCanonical : (raws : List Text) → All IsCanonical (clean_recipients raws)
  unfolding clean_recipients
  clean_recipients-IsCanonical [] = tt
  clean_recipients-IsCanonical (raw ∷ raws) =
      elim (Bool-cases (is_empty (to_lower (trim_space raw)))) [
        | inl e ↦ rw e (clean_recipients-IsCanonical raws)
        | inr e ↦ rw e ((ground arith, (raw, refl)), clean_recipients-IsCanonical raws)
      ]

  domain_listed_lem :
      (domains : List Text) (a : Text)
      → domain_listed domains a (last_index a b'@') ≡ true
      → Any (λ domain. (local : Text) × (a ≡ local ++ (b'@' ∷ domain))) domains
  unfolding domain_listed
  domain_listed_lem domains a h = elim (Option-cases (last_index a b'@')) [
    | inl e ↦ absurd (ground arith)
    | inr (i, e) ↦
        let held : contains domains (drop (suc i) a) ≡ true = ground arith in
        Any-map domains
          (λ domain same. (
            take i a,
            last_index-split a b'@' i e ∙ ap (λ (t : Text). take i a ++ b'@' ∷ t) (sym same),
          ))
          (contains→Any domains (drop (suc i) a) held)
  ]

  -- A sender is allowed only if its address, in lower case and taken out of its angle brackets, is a
  -- local part, an `@` and one of the domains.
  pub domain_allowed_lem :
      (addr : Text) (domains : List Text)
      → domain_allowed addr domains ≡ true
      → Any (λ domain. (local : Text) × (sender_address addr ≡ local ++ (b'@' ∷ domain))) domains
  unfolding domain_allowed
  domain_allowed_lem addr domains h = domain_listed_lem domains (sender_address addr) h

  module _ (h : SendHandler) (src : Sources) where
    checked_lem :
        (req : SendRequest) (from : Text) (to : List Text) (call : Delivery)
        → checked h src req from to ≡ ok call
        → (domain_allowed from h.domains ≡ true)
          × (to ≢ [])
          × (call.from ≡ from)
          × (call.to ≡ to)
          × (build_message src from to req.subject req.text req.html ≡ ok call.message)
    unfolding checked composed
    checked_lem req from to call e = ground arith

    -- What is handed to the sender comes of a request that was read. Its sender is the one of the
    -- request or the default, on a domain of the list; it has a recipient, and each one is not empty
    -- and in canonical form; and its message is the one that is built of them.
    pub prepare_lem :
        (body : Result Text SendRequest) (call : Delivery)
        → prepare h src body ≡ ok call
        → (req : SendRequest) × (body ≡ ok req)
          × (call.from ≡ chosen_from h src req)
          × Any
              (λ domain. (local : Text) × (sender_address call.from ≡ local ++ (b'@' ∷ domain)))
              h.domains
          × (call.to ≢ [])
          × All IsCanonical call.to
          × (build_message src call.from call.to req.subject req.text req.html ≡ ok call.message)
    unfolding prepare
    prepare_lem (err x) call e = absurd (ground arith)
    prepare_lem (ok req) call e =
        let (allowed, some_to, from, to, built) =
          checked_lem req (chosen_from h src req) (clean_recipients req.to) call e in
        (
          req,
          refl,
          from,
          rw from (domain_allowed_lem (chosen_from h src req) h.domains allowed),
          rw to some_to,
          rw to (clean_recipients-IsCanonical req.to),
          rw (from, to) built,
        )
