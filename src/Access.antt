-- ===== src/Access.antt =====
-- middleware/auth.go: the API key of the management endpoints and the secret of the webhook.
use tempmail.Prelude.{
  not, ◌||◌, Option, none, some, [], ◌≡◌, ◌≢◌, ◌↔◌, arith, is_empty, if◌then◌else◌,
}
use tempmail.Text.{Text, codes, same, has_prefix, trim_prefix}
use tempmail.Text.Laws.{same_iff}
use tempmail.Http.{Response, error, reply}

-- the request's headers that the two checks read; a missing one is empty
pub record Headers : Type 0 where
  pub authorization : Text
  pub api_key : Text
  pub webhook_secret : Text

abbrev pub bearer : Text
bearer = codes "Bearer "

unfoldable pub extract_key : Headers → Text
extract_key c =
    if has_prefix c.authorization bearer then trim_prefix c.authorization bearer else c.api_key

-- `none` hands the request on
unfoldable pub api_key_auth : Text → Headers → Option Response
unfolding extract_key
api_key_auth key c =
    let provided = extract_key c in
    if is_empty provided || not (same provided key)
    then some (reply 401 (error (codes "invalid or missing API key")))
    else none

unfoldable pub webhook_auth : Text → Headers → Option Response
webhook_auth secret c =
    if is_empty secret
    then some (reply 503 (error (codes "webhook secret not configured")))
    else if not (same c.webhook_secret secret)
    then some (reply 401 (error (codes "invalid webhook secret")))
    else none

-- The management endpoints are open exactly to requests that carry the key, which is not empty.
pub api_key_auth_lem :
    (key : Text) (c : Headers) → (api_key_auth key c ≡ none) ↔ ((extract_key c ≡ key) × (key ≢ []))
unfolding api_key_auth
api_key_auth_lem key c = ground (arith, same_iff (extract_key c) key)

-- The webhook is open exactly to requests that carry the secret, which is not empty.
pub webhook_auth_lem :
    (secret : Text) (c : Headers)
    → (webhook_auth secret c ≡ none) ↔ ((c.webhook_secret ≡ secret) × (secret ≢ []))
unfolding webhook_auth
webhook_auth_lem secret c = ground (arith, same_iff c.webhook_secret secret)
