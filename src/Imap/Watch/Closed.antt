-- ===== src/Imap/Watch/Closed.antt =====
-- About Run of imap/poller.go: the connections that are open over its turns, and at its end.
use tempmail.Prelude.{
  ℕ, zero, suc, ◌≡◌, ◌∙◌, refl, subst, ap, Bool, true, false, Option, none, some, List, [], ◌∷◌,
  Bool-cases, inl, inr, if◌then◌else◌,
}
use tempmail.Text.{Text, Unicode}
use tempmail.Models.{Time, Result, ok, err}
use tempmail.Database.{Db}
use tempmail.Inbound.{Services}
use tempmail.Imap.{Client, Poller, inbox_of}
use tempmail.Imap.Sessions.{IsCounted, Opened, logout_lem, connect-Opened, fetch_unread-sessions}
use tempmail.Imap.Watch.{
  IdleEnd, idle_stopped, idle_failed, woken, idle_wait, Turn, Watch, selected, reconnected, leave,
  reconnect, after_idle, wait_for_mail, polled, poll, connection, turn, next_turns, turns, watch,
}

-- the connections of a loop that began with `n`: one more while its client is there
abbrev pub held : ℕ → Bool → ℕ
held n true = suc n
held n false = n

module _ {S : Type 0} (client : Client S) (sessions : S → ℕ) (counted : IsCounted client sessions)
    ⦃u : Unicode⦄ {Conn : Type 0} (d : Db Conn) (sv : Services) (domains : List Text) where
  abbrev pub Holds : ℕ → Watch S Conn → Type 0
  Holds n w = sessions w.server ≡ held n w.connected

  selected-Holds :
      (n : ℕ) (c : Conn) (p : Poller) (r : Option Text) (s : S)
      → sessions s ≡ suc n
      → Holds n (selected client d sv domains c p (r, s)).1
  unfolding selected
  selected-Holds n c p none s h = h
  selected-Holds n c p (some e) s h = logout_lem client sessions counted n s h

  reconnected-Holds :
      (n : ℕ) (c : Conn) (e : Option Text) (p : Poller) (s : S)
      → Opened client sessions counted n e s
      → Holds n (reconnected client d sv domains c (e, p, s)).1
  unfolding reconnected
  reconnected-Holds n c (some e) p s h = h
  reconnected-Holds n c none p s h =
      selected-Holds n c p _ _ (counted.select (inbox_of client d sv domains p) s ∙ h)

  left :
      (n : ℕ) (connected : Bool) (s : S)
      → sessions s ≡ held n connected
      → sessions (if connected then client.logout s else s) ≡ n
  left n true s h = logout_lem client sessions counted n s h
  left n false s h = h

  leave-Holds :
      (n : ℕ) (w : Watch S Conn) → Holds n w → sessions (leave client d sv domains w).server ≡ n
  unfolding leave
  leave-Holds n w h = left n w.connected w.server h

  reconnect-Holds :
      (n : ℕ) (now : Time) (w : Watch S Conn)
      → Holds n w
      → Holds n (reconnect client d sv domains now w).1
  unfolding reconnect
  reconnect-Holds n now w h =
      let v = leave client d sv domains w in
      let gone : sessions v.server ≡ n = leave-Holds n w h in
      subst (λ k. Holds k (reconnect client d sv domains now w).1) gone
        (reconnected-Holds (sessions v.server) v.conn _ _ _
          (connect-Opened client sessions counted now v.poller v.server))

  after_idle-Holds :
      (n : ℕ) (t : Turn) (w : Watch S Conn) (e : IdleEnd)
      → Holds n w
      → Holds n (after_idle client d sv domains t w e).1
  unfolding after_idle leave
  after_idle-Holds n t w idle_stopped h = h
  after_idle-Holds n t w woken h = h
  after_idle-Holds n t w (idle_failed e) h = leave-Holds n w h

  wait_for_mail-Holds :
      (n : ℕ) (t : Turn) (w : Watch S Conn) (b : Bool)
      → Holds n w
      → Holds n (wait_for_mail client d sv domains t w b).1
  unfolding wait_for_mail
  wait_for_mail-Holds n t w true h = after_idle-Holds n t w (idle_wait t.idle) h
  wait_for_mail-Holds n t w false h = h

  polled-Holds :
      (n : ℕ) (t : Turn) (p : Poller) (r : Result Text ℕ) (s : S) (c : Conn)
      → sessions s ≡ suc n
      → Holds n (polled client d sv domains t p (r, s, c)).1
  unfolding polled
  polled-Holds n t p (err e) s c h = logout_lem client sessions counted n s h
  polled-Holds n t p (ok zero) s c h =
      wait_for_mail-Holds n t (record { connected = true; poller = p; server = s; conn = c })
        t.offers_idle h
  polled-Holds n t p (ok (suc k)) s c h = h

  -- what a turn has before it polls: a client if it says so
  abbrev IsReady : Bool × Watch S Conn → Type 0
  IsReady (ready, w) = if ready then w.connected ≡ true else Unit {0}

  poll-Holds :
      (n : ℕ) (t : Turn) (ready : Bool) (w : Watch S Conn)
      → Holds n w
      → IsReady (ready, w)
      → Holds n (poll client d sv domains t (ready, w)).1
  unfolding poll
  poll-Holds n t false w h k = h
  poll-Holds n t true w h k = polled-Holds n t w.poller _ _ _ (
      fetch_unread-sessions client sessions counted d sv domains
        (inbox_of client d sv domains w.poller) t.now w.server w.conn
      ∙ h
      ∙ ap (held n) k)

  selected-IsReady :
      (c : Conn) (p : Poller) (r : Option Text) (s : S)
      → IsReady (selected client d sv domains c p (r, s))
  unfolding selected
  selected-IsReady c p none s = refl
  selected-IsReady c p (some e) s = tt

  reconnected-IsReady :
      (c : Conn) (e : Option Text) (p : Poller) (s : S)
      → IsReady (reconnected client d sv domains c (e, p, s))
  unfolding reconnected
  reconnected-IsReady c (some e) p s = tt
  reconnected-IsReady c none p s = selected-IsReady c p _ _

  connection-Holds :
      (n : ℕ) (t : Turn) (w : Watch S Conn) (b : Bool)
      → w.connected ≡ b
      → Holds n w
      → let ready = connection client d sv domains t w b in Holds n ready.1 × IsReady ready
  unfolding connection reconnect
  connection-Holds n t w true e h = (h, e)
  connection-Holds n t w false e h = (reconnect-Holds n t.now w h, reconnected-IsReady _ _ _ _)

  turn-Holds :
      (n : ℕ) (t : Turn) (w : Watch S Conn) → Holds n w → Holds n (turn client d sv domains t w).1
  unfolding turn
  turn-Holds n t w h = elim (Bool-cases t.stopped) [
    | inl e ↦ rw e h
    | inr e ↦
        let (k, ready) = connection-Holds n t w w.connected refl h in
        rw e (poll-Holds n t _ _ k ready)
  ]

  -- what holds when the loop has ended, and while it goes on
  abbrev pub Ended : ℕ → Bool × Watch S Conn → Type 0
  Ended n (true, w) = sessions w.server ≡ n
  Ended n (false, w) = Holds n w

  next_turns-Ended :
      (n : ℕ) (rest : Watch S Conn → Bool × Watch S Conn) (go : Bool) (w : Watch S Conn)
      → ((v : Watch S Conn) → Holds n v → Ended n (rest v))
      → Holds n w
      → Ended n (next_turns client d sv domains rest (go, w))
  unfolding next_turns
  next_turns-Ended n rest true w k h = k w h
  next_turns-Ended n rest false w k h = leave-Holds n w h

  turns-Ended :
      (n : ℕ) (ts : List Turn) (w : Watch S Conn)
      → Holds n w
      → Ended n (turns client d sv domains ts w)
  unfolding turns
  turns-Ended n [] w h = h
  turns-Ended n (t ∷ ts) w h =
      next_turns-Ended n (turns client d sv domains ts) _ _ (turns-Ended n ts) (turn-Holds n t w h)

  -- If the client opens a connection by a dial and closes it by Logout alone, then while Run goes on it has
  -- one connection open if its client is there and none if not, and when it ends it has none, whatever the
  -- server answers, however the waits end, and whenever it is stopped.
  pub watch-Ended :
      (now : Time) (ts : List Turn) (p : Poller) (s : S) (c : Conn)
      → Ended (sessions s) (watch client d sv domains now ts p s c)
  unfolding watch
  watch-Ended now ts p s c =
      let w : Watch S Conn = record { connected = false; poller = p; server = s; conn = c } in
      turns-Ended (sessions s) ts (reconnect client d sv domains now w).1
        (reconnect-Holds (sessions s) now w refl)
