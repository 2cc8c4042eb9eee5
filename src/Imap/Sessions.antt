-- ===== src/Imap/Sessions.antt =====
-- About imap/poller.go: the connections to the server that are open.
use tempmail.Prelude.{
  ℕ, zero, suc, ◌-◌, ◌≡◌, ◌∙◌, refl, Option, none, some, List, [], ◌∷◌, arith, Bool-cases,
  Option-cases, inl, inr, is_empty,
}
use tempmail.Prelude.Int.{ℤ}
use tempmail.Text.{Text, Unicode, codes, same, to_lower, trim_space}
use tempmail.Models.{Time, Result, ok, err}
use tempmail.Database.{Db}
use tempmail.Inbound.{Services}
use tempmail.Imap.{
  Client, Poller, upgrade, dialed, close_on_error, access_token, with_token, authorized, connect,
  mark, fetch_found, fetch_searched, fetch_selected, fetch_unread, drain_next, drain,
  fetch_connected, fetch_once, inbox_of, xoauth2,
}

-- the connections after a dial: one more if there was no error
abbrev pub Dialed : {S : Type 0} → (S → ℕ) → S → Option Text × S → Type 0
Dialed sessions s (none, t) = sessions t ≡ suc (sessions s)
Dialed sessions s (some e, t) = sessions t ≡ sessions s

-- A dial opens a connection, Logout closes it, and no other call does either.
pub record IsCounted {S : Type 0} (client : Client S) (sessions : S → ℕ) : Type 0 where
  pub dial_tls : (h : Text) (p : ℤ) (s : S) → Dialed sessions s (client.dial_tls h p s)
  pub dial : (h : Text) (p : ℤ) (s : S) → Dialed sessions s (client.dial h p s)
  pub logout : (s : S) → sessions (client.logout s) ≡ sessions s - 1
  pub start_tls : (s : S) → sessions (client.start_tls s).1 ≡ sessions s
  pub login : (n w : Text) (s : S) → sessions (client.login n w s).1 ≡ sessions s
  pub authenticate : (r : Text) (s : S) → sessions (client.authenticate r s).1 ≡ sessions s
  pub select : (m : Text) (s : S) → sessions (client.select m s).1 ≡ sessions s
  pub search : (s : S) → sessions (client.search_unseen s).1 ≡ sessions s
  pub fetch : (ids : List ℕ) (s : S) → sessions (client.fetch ids s).1 ≡ sessions s
  pub mark_seen : (ids : List ℕ) (s : S) → sessions (client.mark_seen ids s).1 ≡ sessions s

module _ {S : Type 0} (client : Client S) (sessions : S → ℕ)
    (counted : IsCounted client sessions) where
  -- the same of a step that ends in an error or in a connection
  abbrev pub Opened : ℕ → Option Text → S → Type 0
  Opened n none t = sessions t ≡ suc n
  Opened n (some e) t = sessions t ≡ n

  pub logout_lem : (n : ℕ) (s : S) → sessions s ≡ suc n → sessions (client.logout s) ≡ n
  logout_lem n s e = omega (arith, counted.logout s, e)

  close_on_error-Opened :
      (n : ℕ) (r : Option Text) (s : S)
      → sessions s ≡ suc n
      → Opened n (close_on_error client (r, s)).0 (close_on_error client (r, s)).1
  unfolding close_on_error
  close_on_error-Opened n none s h = h
  close_on_error-Opened n (some e) s h = logout_lem n s h

  upgrade-Opened :
      (n : ℕ) (r : Option Text) (s : S)
      → Opened n r s
      → Opened n (upgrade client (r, s)).0 (upgrade client (r, s)).1
  unfolding upgrade
  upgrade-Opened n (some e) s h = h
  upgrade-Opened n none s h = close_on_error-Opened n _ _ (counted.start_tls s ∙ h)

  Dialed-Opened :
      (s : S) (r : Option Text) (t : S) → Dialed sessions s (r, t) → Opened (sessions s) r t
  Dialed-Opened s none t h = h
  Dialed-Opened s (some e) t h = h

  dialed-Opened :
      (p : Poller) (s : S) → Opened (sessions s) (dialed client p s).0 (dialed client p s).1
  unfolding dialed
  dialed-Opened p s = elim (Bool-cases p.use_tls) [
    | inl e ↦ rw e (Dialed-Opened s _ _ (counted.dial_tls p.host _ s))
    | inr e ↦ elim (Bool-cases p.start_tls) [
      | inl k ↦
          rw (e, k)
            (upgrade-Opened (sessions s) _ _ (Dialed-Opened s _ _ (counted.dial p.host _ s)))
      | inr k ↦ rw (e, k) (Dialed-Opened s _ _ (counted.dial p.host _ s))
    ]
  ]

  with_token-Opened :
      (n : ℕ) (p : Poller) (r : Result Text Text) (s : S)
      → sessions s ≡ suc n
      → Opened n (with_token client p r s).0 (with_token client p r s).1
  unfolding with_token
  with_token-Opened n p (err e) s h = logout_lem n s h
  with_token-Opened n p (ok token) s h =
      close_on_error-Opened n _ _ (counted.authenticate (xoauth2 p.username token) s ∙ h)

  module _ ⦃u : Unicode⦄ where
    authorized-Opened :
        (n : ℕ) (now : Time) (p : Poller) (r : Option Text) (s : S)
        → Opened n r s
        → let done = authorized client now p (r, s) in Opened n done.0 done.2
    unfolding authorized
    authorized-Opened n now p (some e) s h = h
    authorized-Opened n now p none s h =
        elim (Bool-cases (same (to_lower (trim_space p.auth_mode)) (codes "oauth2"))) [
          | inl e ↦ rw e (with_token-Opened n p (access_token client now p.token).0 s h)
          | inr e ↦ rw e (close_on_error-Opened n _ _ (counted.login p.username p.password s ∙ h))
        ]

    -- connect opens one connection, or none if it returns an error.
    pub connect-Opened :
        (now : Time) (p : Poller) (s : S)
        → let done = connect client now p s in Opened (sessions s) done.0 done.2
    unfolding connect
    connect-Opened now p s = elim (Bool-cases (is_empty p.host)) [
      | inl e ↦ rw e refl
      | inr e ↦ rw e (authorized-Opened (sessions s) now p _ _ (dialed-Opened p s))
    ]

    module _ {Conn : Type 0} (d : Db Conn) (sv : Services) (domains : List Text) where
      mark_lem : (ids : List ℕ) (s : S) → sessions (mark client d sv domains ids s) ≡ sessions s
      unfolding mark
      mark_lem [] s = refl
      mark_lem (n ∷ ids) s = counted.mark_seen (n ∷ ids) s

      fetch_found-sessions :
          (ids : List ℕ) (now : Time) (s : S) (c : Conn)
          → sessions (fetch_found client d sv domains ids now s c).1 ≡ sessions s
      unfolding fetch_found
      fetch_found-sessions [] now s c = refl
      fetch_found-sessions (n ∷ ids) now s c = elim (Option-cases (client.fetch (n ∷ ids) s).0.1) [
        | inl e ↦ rw (e, fetch_found) (mark_lem _ _ ∙ counted.fetch (n ∷ ids) s)
        | inr (x, e) ↦ rw (e, fetch_found) (counted.fetch (n ∷ ids) s)
      ]

      fetch_searched-sessions :
          (r : Result Text (List ℕ)) (s : S) (now : Time) (c : Conn)
          → sessions (fetch_searched client d sv domains (r, s) now c).1 ≡ sessions s
      unfolding fetch_searched
      fetch_searched-sessions (err e) s now c = refl
      fetch_searched-sessions (ok ids) s now c = fetch_found-sessions ids now s c

      fetch_selected-sessions :
          (r : Option Text) (s : S) (now : Time) (c : Conn)
          → sessions (fetch_selected client d sv domains (r, s) now c).1 ≡ sessions s
      unfolding fetch_selected
      fetch_selected-sessions (some e) s now c = refl
      fetch_selected-sessions none s now c = fetch_searched-sessions _ _ now c ∙ counted.search s

      pub fetch_unread-sessions :
          (mailbox : Text) (now : Time) (s : S) (c : Conn)
          → sessions (fetch_unread client d sv domains mailbox now s c).1 ≡ sessions s
      unfolding fetch_unread
      fetch_unread-sessions mailbox now s c =
          fetch_selected-sessions _ _ now c ∙ counted.select mailbox s

      drain_next-sessions :
          (again : S → Conn → Option (Option Text) × S × Conn)
          → ((s : S) (c : Conn) → sessions (again s c).1 ≡ sessions s)
          → (r : Result Text ℕ) (s : S) (c : Conn)
          → sessions (drain_next client d sv domains again (r, s, c)).1 ≡ sessions s
      unfolding drain_next
      drain_next-sessions again h (err e) s c = refl
      drain_next-sessions again h (ok zero) s c = refl
      drain_next-sessions again h (ok (suc n)) s c = h s c

      drain-sessions :
          (rounds : ℕ) (mailbox : Text) (clock : ℕ → Time) (s : S) (c : Conn)
          → sessions (drain client d sv domains rounds mailbox clock s c).1 ≡ sessions s
      unfolding drain
      drain-sessions zero mailbox clock s c = refl
      drain-sessions (suc rounds) mailbox clock s c =
          drain_next-sessions _ (λ t c'. drain-sessions rounds mailbox clock t c') _ _ _
          ∙ fetch_unread-sessions mailbox (clock rounds) s c

      fetch_connected-Closed :
          (n rounds : ℕ) (clock : ℕ → Time) (e : Option Text) (p : Poller) (s : S) (c : Conn)
          → Opened n e s
          → sessions (fetch_connected client d sv domains rounds clock (e, p, s) c).2 ≡ n
      unfolding fetch_connected
      fetch_connected-Closed n rounds clock (some e) p s c h = h
      fetch_connected-Closed n rounds clock none p s c h =
          logout_lem n _ (drain-sessions rounds (inbox_of client d sv domains p) clock s c ∙ h)

      -- If the client opens a connection by a dial and closes it by Logout alone, then after a fetch as many
      -- connections are open as before it, whatever the server answers at any call.
      pub fetch_once-Closed :
          (rounds : ℕ) (clock : ℕ → Time) (p : Poller) (s : S) (c : Conn)
          → sessions (fetch_once client d sv domains rounds clock p s c).2 ≡ sessions s
      unfolding fetch_once
      fetch_once-Closed rounds clock p s c =
          fetch_connected-Closed (sessions s) rounds clock _ _ _ c
            (connect-Opened (clock rounds) p s)
