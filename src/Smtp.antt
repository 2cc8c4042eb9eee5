-- ===== src/Smtp.antt =====
-- smtp/server.go: the sessions of the built-in SMTP server. The protocol itself is go-smtp's, which
-- calls these functions.
pub mod Listener
use tempmail.Prelude.{
  ℕ, Bool, true, ◌&&◌, ◌||◌, List, [], ◌∷◌, map, any, ◌≡◌, if◌then◌else◌, inl, inr, arith, or-true,
}
use tempmail.Text.{Text, Unicode, codes, has_suffix, trim_space, to_lower}
use tempmail.Models.{Time, Message, Result, ok, err}
use tempmail.Database.{Db, IsRelational}
use tempmail.Recipient.{Envelope, at_domain, dot_domain, extract_addresses, find_recipient}
use tempmail.Recipient.Sound.{matches, find_in_one}
use tempmail.Inbound.{Services, StoreError, bad_mime, not_for_our_domain, database, store_message}
use tempmail.Inbound.Routed.{store_message-IsRouted}
use tempmail.Routing.{IsRouted}

-- the session of one connection; `from` is read for the log alone
pub record Session : Type 0 where
  pub domains : List Text
  pub allow_subdomains : Bool
  pub from : Text

-- a nil error, an SMTPError, or the error of reading the mail
pub data SmtpReply : Type 0 where
  accept : SmtpReply
  refuse : ℕ → Text → SmtpReply
  unread : Text → SmtpReply

module _ ⦃u : Unicode⦄ where
  -- NewSession, with the domains that Start lower-cases
  unfoldable pub new_session : List Text → Bool → Session
  new_session domains allow = record {
    domains = map to_lower domains;
    allow_subdomains = allow;
    from = [];
  }

  unfoldable pub mail : Text → Session → Session
  mail from s = record s { from = from }

  abbrev pub rcpt_matches : Bool → Text → Text → Bool
  rcpt_matches allow addr domain =
      has_suffix addr (at_domain domain) || (allow && has_suffix addr (dot_domain domain))

  unfoldable pub rcpt : Text → Session → SmtpReply
  rcpt to s =
      let addr = to_lower (trim_space to) in
      if any (rcpt_matches s.allow_subdomains addr) s.domains
      then accept
      else refuse 550 (codes "5.1.1 relaying denied")

  module _ {Conn : Type 0} (d : Db Conn) (sv : Services) where
    stored_reply : Result StoreError Message → SmtpReply
    stored_reply (ok m) = accept
    stored_reply (err not_for_our_domain) = accept
    stored_reply (err (bad_mime e)) = refuse 450 (codes "temporary failure")
    stored_reply (err (database e)) = refuse 450 (codes "temporary failure")

    -- Data; `err` is a mail that io.ReadAll could not read
    unfoldable pub receive_data : Result Text Text → Time → Time → Session → Conn → SmtpReply × Conn
    unfolding stored_reply
    receive_data (err e) now received s c = (unread e, c)
    receive_data (ok raw) now received s c =
        let (r, c') = store_message d sv s.domains raw now received c in (stored_reply r, c')

    -- Receiving mail keeps the tables routed.
    pub receive_data-IsRouted :
        (laws : IsRelational d) (raw : Result Text Text) (now received : Time) (s : Session)
        (c : Conn)
        → IsRouted d c
        → IsRouted d (receive_data raw now received s c).1
    unfolding receive_data
    receive_data-IsRouted laws (err e) now received s c k = k
    receive_data-IsRouted laws (ok raw) now received s c k =
        store_message-IsRouted d laws sv s.domains raw now received c k

  rcpt_matches→matches :
      (allow : Bool) (domains : List Text) (addr : Text)
      → any (rcpt_matches allow addr) domains ≡ true
      → matches domains addr ≡ true
  rcpt_matches→matches allow [] addr h = cc
  rcpt_matches→matches allow (d ∷ domains) addr h = elim (or-true (rcpt_matches allow addr d) _ h) [
    | inl e ↦ ground arith
    | inr e ↦ ground (arith, rcpt_matches→matches allow domains addr e)
  ]

  -- A recipient that a session accepts is the one that is found in the mail, trimmed and in lower
  -- case, if it is the one address of the field To.
  pub find_recipient-rcpt :
      (to : Text) (s : Session) (env : Envelope)
      → rcpt to s ≡ accept
      → extract_addresses (env.header (codes "To")) ≡ to ∷ []
      → find_recipient env s.domains ≡ to_lower (trim_space to)
  unfolding rcpt
  find_recipient-rcpt to s env h e =
      let addr = to_lower (trim_space to) in
      find_in_one s.domains env to e
        (rcpt_matches→matches s.allow_subdomains s.domains addr (ground arith))
