-- ===== src/Mailboxes.antt =====
-- handlers/email.go: the mailboxes of the API, and their removal by age.
pub mod Names
pub mod Routed
pub mod Viewed
use tempmail.Prelude.{
  ℕ, zero, suc, ◌+◌, ◌*◌, ◌^◌, Bool, true, false, not, ◌&&◌, ◌||◌, Option, none, some, List, [],
  ◌∷◌, ◌++◌, ltb, leb, ◌==◌, if◌then◌else◌, take, is_empty,
}
use tempmail.Prelude.Int.{ℤ, pos, ◌+ℤ◌, ◌-ℤ◌, ◌*ℤ◌, ltb_ℤ, leb_ℤ, wrap64}
use tempmail.Text.{Text, Unicode, codes, trim, trim_space, to_lower, remove_all, contains}
use tempmail.Models.{Time, Mailbox, Message, Result, ok, err, ◌>>=◌}
use tempmail.Database.{Db, Fault, not_found, failed, Deletion}
use tempmail.Inbound.{new_mailbox}
use tempmail.Http.{
  Body, Response, error, mailbox, mailbox_list, mailbox_with_messages, deleted, reply, fault_text,
}

pub record EmailHandler : Type 0 where
  pub domain : Text
  pub domains : List Text
  pub ttl_hours : ℤ
  pub allow_subdomains : Bool

pub record CreateMailboxRequest : Type 0 where
  pub name : Text
  pub domain : Text
  pub subdomain : Text
  pub ttl_hours : ℤ

abbrev pub is_digit : ℕ → Bool
is_digit c = leb b'0' c && leb c b'9'

abbrev pub is_small : ℕ → Bool
is_small c = leb b'a' c && leb c b'z'

abbrev pub is_capital : ℕ → Bool
is_capital c = leb b'A' c && leb c b'Z'

abbrev pub is_local : ℕ → Bool
is_local c = is_small c || is_digit c || (c == b'.' || c == b'_' || c == b'-')

abbrev pub is_label : ℕ → Bool
is_label c = is_small c || is_digit c || c == b'-'

-- the loops of the two functions below: keep, lower, or drop each character
abbrev pub clean : (ℕ → Bool) → Text → Text
clean keep [] = []
clean keep (c ∷ s) =
    let rest = clean keep s in
    if keep c then c ∷ rest else if is_capital c then (c + 32) ∷ rest else rest

abbrev pub is_dot : ℕ → Bool
is_dot c = c == b'.'

abbrev pub is_hyphen : ℕ → Bool
is_hyphen c = c == b'-'

unfoldable pub sanitize_local_part : Text → Text
sanitize_local_part s = trim is_dot (clean is_local s)

-- `result[:63]` of a longer result; every character is one byte
unfoldable pub sanitize_subdomain : Text → Text
sanitize_subdomain s = take 63 (trim is_hyphen (clean is_label s))

-- strings.ReplaceAll(uuid.NewString()[:n], "-", "")
abbrev pub random_part : Text → ℕ → Text
random_part uuid n = remove_all b'-' (take n uuid)

abbrev bad_request : Text → Response
bad_request e = reply 400 (error e)

-- time.Duration(h) * time.Hour, in int64 nanoseconds
unfoldable pub hours : ℤ → ℤ
hours h = wrap64 (h *ℤ pos (3600 * 10 ^ 9))

module _ ⦃u : Unicode⦄ (h : EmailHandler) (req : CreateMailboxRequest) where
  resolve_domain : Result Response Text
  resolve_domain =
      let domain = to_lower (trim_space req.domain) in
      if is_empty req.domain
      then ok h.domain
      else if contains h.domains domain
      then ok domain
      else err (bad_request (codes "invalid domain"))

  sanitized_name : Text → Result Response Text
  sanitized_name name = if is_empty name then err (bad_request (codes "invalid name")) else ok name

  resolve_name : Text → Result Response Text
  unfolding sanitized_name
  resolve_name uuid =
      let name = to_lower (trim_space req.name) in
      if is_empty name then ok (random_part uuid 10) else sanitized_name (sanitize_local_part name)

  sanitized_sub : Text → Result Response Text
  sanitized_sub sub = if is_empty sub then err (bad_request (codes "invalid subdomain")) else ok sub

  resolve_sub : Text → Result Response Text
  unfolding sanitized_sub
  resolve_sub uuid =
      let sub = to_lower (trim_space req.subdomain) in
      if contains (codes "random" ∷ []) sub
      then ok (random_part uuid 8)
      else sanitized_sub (sanitize_subdomain sub)

  full_domain : Text → Text → Result Response Text
  unfolding resolve_sub
  full_domain uuid domain =
      if is_empty req.subdomain
      then ok domain
      else if not h.allow_subdomains
      then err (bad_request (codes "subdomains are not enabled on this server"))
      else (do sub ← resolve_sub uuid; ok (sub ++ (b'.' ∷ domain)))

  -- the local part and the address, or the refusal
  unfoldable pub resolve_address : Text → Text → Result Response (Text × Text)
  unfolding resolve_domain resolve_name full_domain
  resolve_address uuid sub_uuid = do
    domain ← resolve_domain
    name ← resolve_name uuid
    full ← full_domain sub_uuid domain
    ok (name, name ++ (b'@' ∷ full))

  ttl : ℤ
  ttl = if ltb_ℤ (pos 0) req.ttl_hours then req.ttl_hours else h.ttl_hours

  pub requested_mailbox : Text → Text → Time → Mailbox
  unfolding ttl hours
  requested_mailbox name address now = new_mailbox address name (now +ℤ hours ttl)

  module _ {Conn : Type 0} (d : Db Conn) where
    -- the count of a failed query stays 0
    pub is_taken : Text → Conn → Bool
    is_taken address s =
        if is_empty req.name
        then false
        else elim (d.count_mailboxes address s) [ ok n ↦ ltb 0 n | err e ↦ false ]

    create_reply : Result Fault Mailbox → Response
    create_reply (ok mb) = reply 201 (mailbox mb)
    create_reply (err e) = reply 500 (error (fault_text e))

    register : Text → Text → Time → Conn → Response × Conn
    unfolding is_taken requested_mailbox create_reply
    register name address now s =
        if is_taken address s
        then (reply 409 (error (codes "address already exists")), s)
        else let (r, t) = d.create_mailbox (requested_mailbox name address now) s in
          (create_reply r, t)

    register_resolved : Result Response (Text × Text) → Time → Conn → Response × Conn
    unfolding register
    register_resolved (err refusal) now s = (refusal, s)
    register_resolved (ok (name, address)) now s = register name address now s

    -- CreateMailbox, given the identifiers that uuid.NewString makes
    unfoldable pub create_mailbox : Text → Text → Time → Conn → Response × Conn
    unfolding register_resolved resolve_address
    create_mailbox uuid sub_uuid now s = register_resolved (resolve_address uuid sub_uuid) now s

module _ ⦃u : Unicode⦄ {Conn : Type 0} (d : Db Conn) where
  -- the result of a failed query is an empty list
  unfoldable pub list_mailboxes : Conn → Response × Conn
  list_mailboxes s =
      (reply 200 (mailbox_list (elim (d.find_mailboxes s) [ ok boxes ↦ boxes | err e ↦ [] ])), s)

  mailbox_reply : Result Fault (Mailbox × List Message) → Response
  mailbox_reply (ok (mb, ms)) = reply 200 (mailbox_with_messages mb ms)
  mailbox_reply (err not_found) = reply 404 (error (codes "mailbox not found"))
  mailbox_reply (err (failed e)) = reply 500 (error e)

  -- `sync` is what the ingestion does to the database first
  unfoldable pub get_mailbox : (Conn → Conn) → Text → Conn → Response × Conn
  unfolding mailbox_reply
  get_mailbox sync param s =
      let t = sync s in (mailbox_reply (d.load_mailbox (to_lower param) t), t)

  delete_reply : Text → Deletion → Response
  delete_reply address res = elim res.error [
    | some e ↦ reply 500 (error e)
    | none ↦
        (if res.rows_affected == 0
          then reply 404 (error (codes "mailbox not found"))
          else reply 200 (deleted address))
  ]

  unfoldable pub delete_mailbox : Text → Conn → Response × Conn
  unfolding delete_reply
  delete_mailbox param s =
      let address = to_lower param in
      let (res, t) = d.delete_mailboxes address s in (delete_reply address res, t)

module _ {Conn : Type 0} (d : Db Conn) where
  removed_rows : Text → Deletion → Result Text ℕ
  removed_rows context res = elim res.error [
    | some e ↦ err (context ++ e)
    | none ↦ ok res.rows_affected
  ]

  unfoldable pub cleanup_expired : Time → Conn → Result Text ℕ × Conn
  unfolding removed_rows
  cleanup_expired now s =
      let (res, t) = d.delete_expired now s in (removed_rows (codes "cleanup: ") res, t)

  unfoldable pub cleanup_old_messages : ℤ → Time → Conn → Result Text ℕ × Conn
  unfolding removed_rows
  cleanup_old_messages max_age now s =
      if leb_ℤ max_age (pos 0)
      then (ok 0, s)
      else let (res, t) = d.delete_old (now -ℤ max_age) s in
        (removed_rows (codes "cleanup messages: ") res, t)
