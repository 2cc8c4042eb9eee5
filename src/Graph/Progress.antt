-- ===== src/Graph/Progress.antt =====
-- About FetchOnce of graph/poller.go: when its loop ends, and when it does not.
use tempmail.Prelude.{
  ◌<◌, subst, leb→le, ◌≡◌, ◌≢◌, refl, sym, ◌∙◌, ap, ℕ, zero, suc, ◌≤◌, true, false, ◌&&◌, leb,
  length, Option, none, List, [], ◌∷◌, Bool-cases, inl, inr, arith,
}
use tempmail.Prelude.Int.{int_laws, +ℤ_parts, pos, ◌≤ℤ◌, ◌<ℤ◌, leb_ℤ, ◌+ℤ◌}
use tempmail.Text.{Text, Unicode}
use tempmail.Models.{Time, zero_time, Result, ok, err}
use tempmail.Database.{Db}
use tempmail.Recipient.{GraphMessage}
use tempmail.Inbound.{Services}
use tempmail.Graph.{
  Remote, Poller, Polled, page_size, newest, store_page, advance, poll_page, poll_fetched,
  poll_with, poll_once, drain_next, drain, started, fetch_once, fetch_access_token, is_cached,
}

module _ ⦃u : Unicode⦄ {Conn : Type 0} (d : Db Conn) (sv : Services) (domains : List Text) where
  store_page-newest :
      (page : List GraphMessage) (now : Time) (n : ℕ) (latest : Time) (c : Conn)
      → (store_page d sv domains page now n latest c).1 ≡ newest d sv domains page latest
  unfolding store_page newest
  store_page-newest [] now n latest c = refl
  store_page-newest (gm ∷ rest) now n latest c = store_page-newest rest now _ _ _

  advance-full :
      (latest since : Time) → zero_time <ℤ latest → advance d sv domains true latest since ≡ latest
  unfolding advance
  advance-full latest since h = ground arith

  -- What a full page says of the page and of the poller after it.
  abbrev IsFull : List GraphMessage → Poller → Poller → Type 0
  IsFull page p p' =
      (page_size ≤ length page)
      × (p'.since ≡ advance d sv domains true (newest d sv domains page zero_time) p.since)

  poll_page-IsFull :
      (page : List GraphMessage) (now : Time) (p : Poller) (c : Conn) (polled : Polled)
      → (poll_page d sv domains page now p c).0 ≡ ok polled
      → polled.full_page ≡ true
      → IsFull page p (poll_page d sv domains page now p c).1
  unfolding poll_page
  poll_page-IsFull [] now p c polled e full = ground arith
  poll_page-IsFull (gm ∷ rest) now p c polled e full =
      let long : leb page_size (length (gm ∷ rest)) ≡ true = ground arith in
      (
        leb→le page_size (length (gm ∷ rest)) long,
        rw long (
            ap (λ t. advance d sv domains true t p.since)
              (store_page-newest (gm ∷ rest) now 0 zero_time c)),
      )

  module _ (remote : Remote) where
    -- the answers of the message endpoint to one question
    abbrev Fetched : Poller → Poller → Type 0
    Fetched p p' =
        (token : Text) × (page : List GraphMessage) × (remote.fetch token p.since ≡ ok page)
        × IsFull page p p'

    poll_fetched-full :
        (token : Text) (r : Result Text (List GraphMessage)) (now : Time) (p : Poller) (c : Conn)
        (polled : Polled)
        → remote.fetch token p.since ≡ r
        → (poll_fetched d sv domains remote r now p c).0 ≡ ok polled
        → polled.full_page ≡ true
        → Fetched p (poll_fetched d sv domains remote r now p c).1
    unfolding poll_fetched
    poll_fetched-full token (err x) now p c polled q e full = absurd (ground arith)
    poll_fetched-full token (ok page) now p c polled q e full =
        (token, page, q, poll_page-IsFull page now p c polled e full)

    poll_with-full :
        (r : Result Text Text) (now : Time) (p : Poller) (c : Conn) (polled : Polled)
        → (poll_with d sv domains remote r now p c).0 ≡ ok polled
        → polled.full_page ≡ true
        → Fetched p (poll_with d sv domains remote r now p c).1
    unfolding poll_with
    poll_with-full (err x) now p c polled e full = absurd (ground arith)
    poll_with-full (ok token) now p c polled e full =
        poll_fetched-full token (remote.fetch token p.since) now p c polled refl e full

    -- A full page moves the poller to its newest message.
    poll_once-full :
        (now : Time) (p : Poller) (c : Conn) (polled : Polled)
        → (poll_once d sv domains remote now p c).0 ≡ ok polled
        → polled.full_page ≡ true
        → Fetched p (poll_once d sv domains remote now p c).1
    unfolding poll_once
    poll_once-full now p c polled e full =
        let (r, token, _) = fetch_access_token remote now p.token in
        poll_with-full r now (record p { token = token }) c polled e full

    -- The inbox ends at the instant `last`, and a full page from an instant on has a newer message.
    pub record Advances (last : Time) : Type 0 where
      pub newer :
          (token : Text) (since : Time) (page : List GraphMessage)
          → remote.fetch token since ≡ ok page
          → page_size ≤ length page
          → (since <ℤ newest d sv domains page zero_time)
            × (newest d sv domains page zero_time ≤ℤ last)

    abbrev Ends : Option (Result Text (Unit {0})) × Poller × Conn → Type 0
    Ends r = r.0 ≢ none

    drain_next-Ends :
        (again : Poller → Conn → Option (Result Text (Unit {0})) × Poller × Conn)
        (r : Result Text Polled) (p : Poller) (c : Conn)
        → ((polled : Polled) → r ≡ ok polled → polled.full_page ≡ true → Ends (again p c))
        → Ends (drain_next d sv domains remote again r p c)
    unfolding drain_next
    drain_next-Ends again (err e) p c k = λ h. ground arith
    drain_next-Ends again (ok polled) p c k = elim (Bool-cases polled.full_page) [
      | inl e ↦ rw (e, drain_next) (k polled refl e)
      | inr e ↦ rw (e, drain_next) (λ h. ground arith)
    ]

    drain-Ends :
        (last : Time) (rounds : ℕ) (clock : ℕ → Time) (p : Poller) (c : Conn)
        → Advances last
        → zero_time ≤ℤ p.since
        → p.since ≤ℤ last
        → last <ℤ p.since +ℤ pos rounds
        → Ends (drain d sv domains remote rounds clock p c)
    unfolding drain
    drain-Ends last zero clock p c adv low high room =
        absurd (omega (int_laws, +ℤ_parts p.since (pos 0)))
    drain-Ends last (suc rounds) clock p c adv low high room =
        drain_next-Ends (drain d sv domains remote rounds clock) _ _ _ (λ polled e full.
          let (token, page, q, (long, moved)) = poll_once-full (clock rounds) p c polled e full in
          let (newer, bounded) = adv.newer token p.since page q long in
          let t : Time = newest d sv domains page zero_time in
          let there : (poll_once d sv domains remote (clock rounds) p c).1.since ≡ t =
            moved ∙ advance-full t p.since (omega arith) in
          drain-Ends last rounds clock _ _ adv
            (subst (λ s. zero_time ≤ℤ s) (sym there) (omega arith))
            (subst (λ s. s ≤ℤ last) (sym there) bounded)
            (subst (λ s. last <ℤ s +ℤ pos rounds) (sym there)
              (omega (int_laws, +ℤ_parts p.since (pos (suc rounds)), +ℤ_parts t (pos rounds)))))

    -- If each full page that the inbox gives has a message newer than the instant it was asked
    -- from, and none is newer than `last`, the loop of a poller whose instant is set and not
    -- after `last` ends: it needs no more rounds than there are nanoseconds from the poller's
    -- instant to `last`, and one.
    pub fetch_once-ends :
        (last : Time) (rounds : ℕ) (clock : ℕ → Time) (p : Poller) (c : Conn)
        → Advances last
        → zero_time <ℤ p.since
        → p.since ≤ℤ last
        → last <ℤ p.since +ℤ pos rounds
        → (fetch_once d sv domains remote rounds clock p c).0 ≢ none
    unfolding fetch_once started
    fetch_once-ends last rounds clock p c adv low high room =
        let going : (leb_ℤ p.since zero_time && leb_ℤ zero_time p.since) ≡ false = ground arith in
        rw going (drain-Ends last rounds clock p c adv (omega arith) high room)

    -- the outcome of a round that leaves the poller where it was and asks for another one
    abbrev Repeats : Poller → Result Text Polled × Poller × Conn → Type 0
    Repeats p r = ((polled : Polled) × (r.0 ≡ ok polled) × (polled.full_page ≡ true)) × (r.1 ≡ p)

    poll_page-Repeats :
        (page : List GraphMessage) (now : Time) (p : Poller) (c : Conn)
        → page_size ≤ length page
        → zero_time <ℤ p.since
        → newest d sv domains page zero_time ≡ p.since
        → Repeats p (poll_page d sv domains page now p c)
    unfolding poll_page
    poll_page-Repeats [] now p c long low same = absurd (omega arith)
    poll_page-Repeats (gm ∷ rest) now p c long low same =
        let full : leb page_size (length (gm ∷ rest)) ≡ true = ground arith in
        ((_, refl, full), ap (λ t. record p { since = t }) (stays full))
      where
        stays :
            leb page_size (length (gm ∷ rest)) ≡ true
            → advance d sv domains
                (leb page_size (length (gm ∷ rest)))
                (store_page d sv domains (gm ∷ rest) now 0 zero_time c).1
                p.since
              ≡ p.since
        stays full =
            rw (full, store_page-newest (gm ∷ rest) now 0 zero_time c, same)
              (advance-full p.since p.since low)

    module _ (clock : ℕ → Time) (p : Poller) (page : List GraphMessage)
        (answer : remote.fetch p.token.access_token p.since ≡ ok page)
        (long : page_size ≤ length page) (low : zero_time <ℤ p.since)
        (same : newest d sv domains page zero_time ≡ p.since) where
      poll_once-Repeats :
          (now : Time) (c : Conn)
          → is_cached now p.token ≡ true
          → Repeats p (poll_once d sv domains remote now p c)
      unfolding poll_once fetch_access_token
      poll_once-Repeats now c cached =
          rw (cached, fetch_access_token, poll_with, answer, poll_fetched)
            (poll_page-Repeats page now p c long low same)

      drain-stuck :
          (rounds : ℕ) (c : Conn)
          → ((k : ℕ) → k < rounds → is_cached (clock k) p.token ≡ true)
          → (drain d sv domains remote rounds clock p c).0 ≡ none
      unfolding drain
      drain-stuck zero c cached = refl
      drain-stuck (suc rounds) c cached =
          let ((polled, e, full), stays) =
            poll_once-Repeats (clock rounds) c (cached rounds (omega arith)) in
          rw (e, drain_next, full, stays)
            (drain-stuck rounds _ (λ k h. cached k (omega (arith, h))))

      -- If the poller's instant is set, and the page from that instant on is full and its newest message is of
      -- that very instant, as when fifty messages arrived in one second, the loop goes on for as long as the
      -- access token is valid: it has not ended after any number of rounds each of which finds it so when it
      -- reads the clock.
      pub fetch_once-stuck :
          (rounds : ℕ) (c : Conn)
          → ((k : ℕ) → k < rounds → is_cached (clock k) p.token ≡ true)
          → (fetch_once d sv domains remote rounds clock p c).0 ≡ none
      unfolding fetch_once started
      fetch_once-stuck rounds c cached =
          let going : (leb_ℤ p.since zero_time && leb_ℤ zero_time p.since) ≡ false = ground arith in
          rw going (drain-stuck rounds c cached)
