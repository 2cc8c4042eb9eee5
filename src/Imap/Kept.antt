-- ===== src/Imap/Kept.antt =====
-- About imap/poller.go: what storing a mail keeps of the database, a whole fetch keeps.
use tempmail.Prelude.{
  ℕ, zero, suc, Option, none, some, List, [], ◌∷◌, Bool-cases, Option-cases, inl, inr, is_empty,
}
use tempmail.Text.{Text, Unicode}
use tempmail.Models.{Time, Result, ok, err}
use tempmail.Database.{Db}
use tempmail.Inbound.{Services, store_message}
use tempmail.Imap.{
  Client, Poller, Fetched, store_fetched, fetch_found, fetch_searched, fetch_selected, fetch_unread,
  drain_next, drain, fetch_connected, fetch_once, connect, inbox_of,
}

module _ {S : Type 0} (client : Client S) ⦃u : Unicode⦄ {Conn : Type 0} (d : Db Conn)
    (sv : Services) (domains : List Text) (Q : Conn → Type 0)
    (keeps : (raw : Text) (now received : Time) (c : Conn)
      → Q c
      → Q (store_message d sv domains raw now received c).1) where
  store_fetched-Kept :
      (ms : List Fetched) (now : Time) (c : Conn)
      → Q c
      → Q (store_fetched client d sv domains ms now c)
  unfolding store_fetched
  store_fetched-Kept [] now c h = h
  store_fetched-Kept (m ∷ ms) now c h = elim (Option-cases m.body) [
    | inl e ↦ rw (e, store_fetched) (store_fetched-Kept ms now c h)
    | inr (raw, e) ↦ elim (Bool-cases (is_empty raw)) [
      | inl k ↦ rw (e, k, store_fetched) (store_fetched-Kept ms now c h)
      | inr k ↦
          rw (e, k, store_fetched)
            (store_fetched-Kept ms now (store_message d sv domains raw now now c).1
              (keeps raw now now c h))
    ]
  ]

  fetch_found-Kept :
      (ids : List ℕ) (now : Time) (s : S) (c : Conn)
      → Q c
      → Q (fetch_found client d sv domains ids now s c).2
  unfolding fetch_found
  fetch_found-Kept [] now s c h = h
  fetch_found-Kept (n ∷ ids) now s c h = elim (Option-cases (client.fetch (n ∷ ids) s).0.1) [
    | inl e ↦ rw (e, fetch_found) (store_fetched-Kept (client.fetch (n ∷ ids) s).0.0 now c h)
    | inr (x, e) ↦ rw (e, fetch_found) (store_fetched-Kept (client.fetch (n ∷ ids) s).0.0 now c h)
  ]

  fetch_searched-Kept :
      (r : Result Text (List ℕ) × S) (now : Time) (c : Conn)
      → Q c
      → Q (fetch_searched client d sv domains r now c).2
  unfolding fetch_searched
  fetch_searched-Kept (err e, s) now c h = h
  fetch_searched-Kept (ok ids, s) now c h = fetch_found-Kept ids now s c h

  fetch_selected-Kept :
      (r : Option Text × S) (now : Time) (c : Conn)
      → Q c
      → Q (fetch_selected client d sv domains r now c).2
  unfolding fetch_selected
  fetch_selected-Kept (some e, s) now c h = h
  fetch_selected-Kept (none, s) now c h = fetch_searched-Kept (client.search_unseen s) now c h

  fetch_unread-Kept :
      (mailbox : Text) (now : Time) (s : S) (c : Conn)
      → Q c
      → Q (fetch_unread client d sv domains mailbox now s c).2
  unfolding fetch_unread
  fetch_unread-Kept mailbox now s c h = fetch_selected-Kept (client.select mailbox s) now c h

  drain_next-Kept :
      (again : S → Conn → Option (Option Text) × S × Conn)
      → ((s : S) (c : Conn) → Q c → Q (again s c).2)
      → (r : Result Text ℕ × S × Conn) → Q r.2
      → Q (drain_next client d sv domains again r).2
  unfolding drain_next
  drain_next-Kept again k (err e, s, c) h = h
  drain_next-Kept again k (ok zero, s, c) h = h
  drain_next-Kept again k (ok (suc n), s, c) h = k s c h

  drain-Kept :
      (rounds : ℕ) (mailbox : Text) (clock : ℕ → Time) (s : S) (c : Conn)
      → Q c
      → Q (drain client d sv domains rounds mailbox clock s c).2
  unfolding drain
  drain-Kept zero mailbox clock s c h = h
  drain-Kept (suc rounds) mailbox clock s c h =
      drain_next-Kept (drain client d sv domains rounds mailbox clock)
        (drain-Kept rounds mailbox clock)
        (fetch_unread client d sv domains mailbox (clock rounds) s c)
        (fetch_unread-Kept mailbox (clock rounds) s c h)

  fetch_connected-Kept :
      (rounds : ℕ) (clock : ℕ → Time) (r : Option Text × Poller × S) (c : Conn)
      → Q c
      → Q (fetch_connected client d sv domains rounds clock r c).3
  unfolding fetch_connected
  fetch_connected-Kept rounds clock (some e, p, s) c h = h
  fetch_connected-Kept rounds clock (none, p, s) c h =
      drain-Kept rounds (inbox_of client d sv domains p) clock s c h

  pub fetch_once-Kept_imap :
      (rounds : ℕ) (clock : ℕ → Time) (p : Poller) (s : S) (c : Conn)
      → Q c
      → Q (fetch_once client d sv domains rounds clock p s c).3
  unfolding fetch_once
  fetch_once-Kept_imap rounds clock p s c h =
      fetch_connected-Kept rounds clock (connect client (clock rounds) p s) c h
