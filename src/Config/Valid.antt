-- ===== src/Config/Valid.antt =====
-- About Load of config/config.go: a configuration that it returns.
use tempmail.Prelude.{
  ◌≡◌, ◌≢◌, refl, ◌∙◌, ◌⊎◌, inl, inr, true, not, List, [], ◌∷◌, All, is_empty, if_elim, ◌&&◌,
  Bool-cases, arith, subst,
}
use tempmail.Text.{Text, Unicode, codes, same, to_lower, trim_prefix, trim_space}
use tempmail.Text.Laws.{same_iff}
use tempmail.Models.{ok, ◌>>=◌, >>=-eq-ok}
use tempmail.Config.{
  Config, base, check_graph, check_login, check_imap, check_sources, default_hostname,
  check_domains, validate, with_provider, with_integers, load,
}
use tempmail.Config.Values.{Env, get, domains_of, parse_domains}

-- the credentials of the two ways to log in to the relay inbox
abbrev pub HasLogin : Config → Type 0
HasLogin cfg =
    ((cfg.imap.client_id ≢ []) × (cfg.imap.refresh_token ≢ []))
    ⊎ ((cfg.imap.username ≢ []) × (cfg.imap.password ≢ []))

-- a way for mail to come in: SMTP, Graph, the webhook, or IMAP
abbrev pub HasSource : Config → Type 0
HasSource cfg =
    (cfg.smtp.enabled ≡ true)
    ⊎ ((cfg.graph.client_id ≢ []) × (cfg.graph.refresh_token ≢ []) × (cfg.graph.account ≢ []))
    ⊎ (cfg.webhook_secret ≢ [])
    ⊎ ((cfg.imap.host ≢ []) × HasLogin cfg)

check_graph_lem : (c cfg : Config) → check_graph c ≡ ok cfg → (c ≡ cfg) × HasSource c
unfolding check_graph
check_graph_lem c cfg e = ground arith

check_login_lem : (c cfg : Config) → check_login c ≡ ok cfg → (c ≡ cfg) × HasLogin c
unfolding check_login
check_login_lem c cfg e = ground arith

check_imap_lem : (c cfg : Config) → check_imap c ≡ ok cfg → (c ≡ cfg) × HasSource c
unfolding check_imap
check_imap_lem c cfg e = elim (Bool-cases (is_empty c.imap.host)) [
  | inl h ↦ ground arith
  | inr h ↦
      let (same_config, login) = check_login_lem c cfg (rw h at e) in
      (same_config, inr (inr (inr (ground arith, login))))
]

check_sources_lem : (c cfg : Config) → check_sources c ≡ ok cfg → (c ≡ cfg) × HasSource c
unfolding check_sources
check_sources_lem c cfg e = ground (arith, check_graph_lem c cfg, check_imap_lem c cfg)

-- a domain as the configuration writes it: in lower case, not empty, and not the placeholder
abbrev pub IsDomain : ⦃u : Unicode⦄ → Text → Type 0
IsDomain d = (d ≢ []) × (d ≢ codes "example.com") × ((raw : Text) × (d ≡ to_lower raw))

-- What the program relies on: a key for the API, a primary domain, the first of the list, and a way
-- for mail to come in.
pub record IsReady (cfg : Config) : Type 0 where
  pub key : cfg.api_key ≢ []
  pub primary : (rest : List Text) × (cfg.domains ≡ cfg.domain ∷ rest)
  pub source : HasSource cfg

check_domains_lem :
    (ds : List Text) (c cfg : Config)
    → c.domains ≡ ds
    → c.api_key ≢ []
    → check_domains ds c ≡ ok cfg
    → IsReady cfg × (cfg.domains ≡ ds)
unfolding check_domains default_hostname
check_domains_lem [] c cfg q k e = absurd (ground arith)
check_domains_lem (d ∷ rest) c cfg q k e =
    let (same_config, source) =
      check_sources_lem (default_hostname (record c { domain = d })) cfg e in
    subst (λ (x : Config). IsReady x × (x.domains ≡ d ∷ rest)) same_config
      (record { key = k; primary = (rest, q); source = source }, q)

validate_lem : (c cfg : Config) → validate c ≡ ok cfg → IsReady cfg × (cfg.domains ≡ c.domains)
unfolding validate
validate_lem c cfg e = elim (Bool-cases (is_empty c.api_key)) [
  | inl h ↦ absurd (ground arith)
  | inr h ↦ check_domains_lem c.domains c cfg refl (ground arith) (rw h at e)
]

module _ ⦃u : Unicode⦄ (env : Env) where
  with_provider-domains :
      (c cfg : Config) (p : Text) → with_provider env c p ≡ ok cfg → cfg.domains ≡ c.domains
  unfolding with_provider
  with_provider-domains c cfg p e = ground arith

  with_integers-domains : (c cfg : Config) → with_integers env c ≡ ok cfg → cfg.domains ≡ c.domains
  unfolding with_integers
  with_integers-domains c cfg e = ground arith

  domains_of-IsDomain : (raws : List Text) → All IsDomain (domains_of raws)
  unfolding domains_of
  domains_of-IsDomain [] = tt
  domains_of-IsDomain (raw ∷ rest) =
      let d = to_lower (trim_prefix (trim_space raw) (codes "@")) in
      if_elim (All IsDomain) (not (is_empty d) && not (same d (codes "example.com")))
        (λ k. (
          (ground arith, ground (arith, same_iff d (codes "example.com")), (_, refl)),
          domains_of-IsDomain rest,
        ))
        (λ k. domains_of-IsDomain rest)

  -- A configuration that Load returns has a key, a primary domain that is the first of the list, and
  -- a way for mail to come in with the credentials it needs; and its domains are in lower case, not
  -- empty, and not `example.com`.
  pub load-IsReady : (cfg : Config) → load env ≡ ok cfg → IsReady cfg × All IsDomain cfg.domains
  unfolding load base parse_domains
  load-IsReady cfg e =
      let provider = to_lower (get env (codes "IMAP_PROVIDER") []) in
      let (preset, p, e₁) =
        >>=-eq-ok (with_provider env (base env) provider) (λ c. with_integers env c >>= validate)
          e in
      let (whole, w, e₂) = >>=-eq-ok (with_integers env preset) validate e₁ in
      let (ready, same_domains) = validate_lem whole cfg e₂ in
      let from_base =
        same_domains
        ∙ with_integers-domains preset whole w
        ∙ with_provider-domains (base env) preset provider p in
      (ready, rw from_base (domains_of-IsDomain _))
