-- ===== src/Imap/Refused.antt =====
-- About FetchOnce of imap/poller.go: an inbox whose messages cannot be marked as read.
use tempmail.Prelude.{ℕ, zero, suc, ◌≡◌, refl, subst, ap, length, Option, none, List, [], ◌∷◌}
use tempmail.Text.{Text, Unicode}
use tempmail.Models.{Time, Result, ok}
use tempmail.Database.{Db}
use tempmail.Inbound.{Services}
use tempmail.Imap.{
  Client, Poller, Fetched, numbers, mark, store_fetched, fetch_found, fetch_searched,
  fetch_selected, fetch_unread, drain_next, drain, fetch_connected, fetch_once, connect, inbox_of,
}

-- An inbox in one of the states `Q`, which no call leaves: the messages `ids` are found at every search and come
-- in as `ms` at every fetch, as where the server refuses to store the flag.
pub record IsRefusing {S : Type 0} (client : Client S) (Q : S → Type 0) (first : ℕ) (ids : List ℕ)
    (ms : List Fetched) : Type 0 where
  pub selected : (mailbox : Text) (s : S) → Q s → (client.select mailbox s).0 ≡ none
  pub select_keeps : (mailbox : Text) (s : S) → Q s → Q (client.select mailbox s).1
  pub found : (s : S) → Q s → (client.search_unseen s).0 ≡ ok (first ∷ ids)
  pub search_keeps : (s : S) → Q s → Q (client.search_unseen s).1
  pub fetched : (s : S) → Q s → (client.fetch (first ∷ ids) s).0 ≡ (ms, none)
  pub fetch_keeps : (s : S) → Q s → Q (client.fetch (first ∷ ids) s).1
  pub mark_keeps : (ns : List ℕ) (s : S) → Q s → Q (client.mark_seen ns s).1

module _ {S : Type 0} (client : Client S) ⦃u : Unicode⦄ {Conn : Type 0} (d : Db Conn)
    (sv : Services) (domains : List Text) where
  -- the database after the messages were stored so many times, at the readings of the clock
  abbrev pub stored_again : ℕ → List Fetched → (ℕ → Time) → Conn → Conn
  stored_again zero ms clock c = c
  stored_again (suc n) ms clock c =
      stored_again n ms clock (store_fetched client d sv domains ms (clock n) c)

  module _ {Q : S → Type 0} {first : ℕ} {ids : List ℕ} {ms : List Fetched}
      (refusing : IsRefusing client Q first ids ms) where
    mark-Q : (ns : List ℕ) (s : S) → Q s → Q (mark client d sv domains ns s)
    unfolding mark
    mark-Q [] s q = q
    mark-Q (n ∷ ns) s q = refusing.mark_keeps (n ∷ ns) s q

    -- A round finds the messages, stores them, and leaves the inbox among the states `Q`.
    Repeats : Conn → Time → Result Text ℕ × S × Conn → Type 0
    Repeats c now r =
        (n : ℕ) × (r.0 ≡ ok (suc n)) × Q r.1 × (r.2 ≡ store_fetched client d sv domains ms now c)

    fetched-Repeats :
        (now : Time) (s : S) (c : Conn)
        → Q s
        → Repeats c now (fetch_found client d sv domains (first ∷ ids) now s c)
    unfolding fetch_found Repeats
    fetched-Repeats now s c q =
        rw (refusing.fetched s q, fetch_found)
          (
            length ids,
            refl,
            mark-Q (numbers client d sv domains (client.fetch (first ∷ ids) s).0.0)
                (client.fetch (first ∷ ids) s).1 (refusing.fetch_keeps s q),
            ap (λ (x : List Fetched × Option Text). store_fetched client d sv domains x.0 now c)
                (refusing.fetched s q),
          )

    searched-Repeats :
        (r : Result Text (List ℕ)) (now : Time) (s : S) (c : Conn)
        → r ≡ ok (first ∷ ids)
        → Q s
        → Repeats c now (fetch_searched client d sv domains (r, s) now c)
    unfolding fetch_searched
    searched-Repeats r now s c e q = rw (e, fetch_searched) (fetched-Repeats now s c q)

    selected-Repeats :
        (r : Option Text) (now : Time) (s : S) (c : Conn)
        → r ≡ none
        → Q s
        → Repeats c now (fetch_selected client d sv domains (r, s) now c)
    unfolding fetch_selected
    selected-Repeats r now s c e q =
        rw (e, fetch_selected)
          (searched-Repeats (client.search_unseen s).0 now (client.search_unseen s).1 c
            (refusing.found s q) (refusing.search_keeps s q))

    fetch_unread-Repeats :
        (mailbox : Text) (now : Time) (s : S) (c : Conn)
        → Q s
        → Repeats c now (fetch_unread client d sv domains mailbox now s c)
    unfolding fetch_unread
    fetch_unread-Repeats mailbox now s c q =
        selected-Repeats (client.select mailbox s).0 now (client.select mailbox s).1 c
          (refusing.selected mailbox s q) (refusing.select_keeps mailbox s q)

    -- what so many rounds leave: no end, and the messages stored in each of them
    abbrev Endless : ℕ → (ℕ → Time) → Conn → Option (Option Text) × S × Conn → Type 0
    Endless rounds clock c r = (r.0 ≡ none) × (r.2 ≡ stored_again rounds ms clock c)

    next-Endless :
        (again : S → Conn → Option (Option Text) × S × Conn) (rounds : ℕ) (clock : ℕ → Time)
        (c : Conn)
        → ((s : S) (c : Conn) → Q s → Endless rounds clock c (again s c))
        → (r : Result Text ℕ × S × Conn) → Repeats c (clock rounds) r
        → Endless (suc rounds) clock c (drain_next client d sv domains again r)
    unfolding drain_next Repeats
    next-Endless again rounds clock c k (r, s, c') (n, e, q, same) =
        rw (e, drain_next) (subst (λ x. Endless rounds clock x (again s c')) same (k s c' q))

    drain-Endless :
        (rounds : ℕ) (mailbox : Text) (clock : ℕ → Time) (s : S) (c : Conn)
        → Q s
        → Endless rounds clock c (drain client d sv domains rounds mailbox clock s c)
    unfolding drain
    drain-Endless zero mailbox clock s c q = (refl, refl)
    drain-Endless (suc rounds) mailbox clock s c q =
        next-Endless (drain client d sv domains rounds mailbox clock) rounds clock c
          (drain-Endless rounds mailbox clock)
          (fetch_unread client d sv domains mailbox (clock rounds) s c)
          (fetch_unread-Repeats mailbox (clock rounds) s c q)

    connected-Endless :
        (rounds : ℕ) (clock : ℕ → Time) (e : Option Text) (p : Poller) (s : S) (c : Conn)
        → e ≡ none
        → Q s
        → let (r, _, _, c') = fetch_connected client d sv domains rounds clock (e, p, s) c in
          (r ≡ none) × (c' ≡ stored_again rounds ms clock c)
    unfolding fetch_connected
    connected-Endless rounds clock e p s c k q =
        rw (k, fetch_connected) (drain-Endless rounds (inbox_of client d sv domains p) clock s c q)

    -- If the poller connects to an inbox that finds and gives the same messages again, as where the server
    -- refuses to store the flag Seen, the loop does not end, and it stores the messages again in every round.
    pub fetch_once-stuck_imap :
        (rounds : ℕ) (clock : ℕ → Time) (p : Poller) (s : S) (c : Conn)
        → (connect client (clock rounds) p s).0 ≡ none
        → Q (connect client (clock rounds) p s).2
        → ((fetch_once client d sv domains rounds clock p s c).0 ≡ none)
          × ((fetch_once client d sv domains rounds clock p s c).3 ≡ stored_again rounds ms clock c)
    unfolding fetch_once
    fetch_once-stuck_imap rounds clock p s c e q =
        let (r, p', t) = connect client (clock rounds) p s in
        connected-Endless rounds clock r p' t c e q
