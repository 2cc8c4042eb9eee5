-- ===== src/Graph/Kept.antt =====
-- About graph/poller.go: what storing a message keeps of the database, a whole fetch keeps.
use tempmail.Prelude.{ℕ, zero, suc, Option, List, [], ◌∷◌, Bool-cases, inl, inr}
use tempmail.Text.{Text, Unicode}
use tempmail.Models.{Time, Result, ok, err}
use tempmail.Database.{Db}
use tempmail.Recipient.{GraphMessage}
use tempmail.Inbound.{Services, store_graph_message}
use tempmail.Graph.{
  Remote, Poller, Polled, store_page, poll_page, poll_fetched, poll_with, poll_once, drain,
  drain_next, started, fetch_once, fetch_access_token,
}

module _ ⦃u : Unicode⦄ {Conn : Type 0} (d : Db Conn) (sv : Services) (domains : List Text)
    (Q : Conn → Type 0)
    (keeps : (gm : GraphMessage) (now received : Time) (c : Conn)
      → Q c
      → Q (store_graph_message d sv domains gm now received c).1) where
  store_page-Kept :
      (page : List GraphMessage) (now : Time) (n : ℕ) (latest : Time) (c : Conn)
      → Q c
      → Q (store_page d sv domains page now n latest c).2
  unfolding store_page
  store_page-Kept [] now n latest c h = h
  store_page-Kept (gm ∷ rest) now n latest c h =
      store_page-Kept rest now _ _ (store_graph_message d sv domains gm now now c).1
        (keeps gm now now c h)

  module _ (remote : Remote) where
    poll_fetched-Kept :
        (r : Result Text (List GraphMessage)) (now : Time) (p : Poller) (c : Conn)
        → Q c
        → Q (poll_fetched d sv domains remote r now p c).2
    unfolding poll_fetched poll_page
    poll_fetched-Kept (err e) now p c h = h
    poll_fetched-Kept (ok []) now p c h = h
    poll_fetched-Kept (ok (gm ∷ rest)) now p c h = store_page-Kept (gm ∷ rest) now _ _ c h

    poll_with-Kept :
        (r : Result Text Text) (now : Time) (p : Poller) (c : Conn)
        → Q c
        → Q (poll_with d sv domains remote r now p c).2
    unfolding poll_with
    poll_with-Kept (err e) now p c h = h
    poll_with-Kept (ok token) now p c h = poll_fetched-Kept (remote.fetch token p.since) now p c h

    poll_once-Kept :
        (now : Time) (p : Poller) (c : Conn) → Q c → Q (poll_once d sv domains remote now p c).2
    unfolding poll_once
    poll_once-Kept now p c h =
        let (r, token, _) = fetch_access_token remote now p.token in
        poll_with-Kept r now (record p { token = token }) c h

    drain_next-Kept :
        (again : Poller → Conn → Option (Result Text (Unit {0})) × Poller × Conn)
        → ((p : Poller) (c : Conn) → Q c → Q (again p c).2)
        → (r : Result Text Polled) (p : Poller) (c : Conn) → Q c
        → Q (drain_next d sv domains remote again r p c).2
    unfolding drain_next
    drain_next-Kept again k (err e) p c h = h
    drain_next-Kept again k (ok polled) p c h = elim (Bool-cases polled.full_page) [
      | inl e ↦ rw (e, drain_next) (k p c h)
      | inr e ↦ rw (e, drain_next) h
    ]

    drain-Kept :
        (rounds : ℕ) (clock : ℕ → Time) (p : Poller) (c : Conn)
        → Q c
        → Q (drain d sv domains remote rounds clock p c).2
    unfolding drain
    drain-Kept zero clock p c h = h
    drain-Kept (suc rounds) clock p c h =
        let (r, p', c') = poll_once d sv domains remote (clock rounds) p c in
        drain_next-Kept (drain d sv domains remote rounds clock) (drain-Kept rounds clock) r p' c'
          (poll_once-Kept (clock rounds) p c h)

    pub fetch_once-Kept :
        (rounds : ℕ) (clock : ℕ → Time) (p : Poller) (c : Conn)
        → Q c
        → Q (fetch_once d sv domains remote rounds clock p c).2
    unfolding fetch_once
    fetch_once-Kept rounds clock p c h =
        drain-Kept rounds clock (started d sv domains remote (clock rounds) p) c h
